-- ===== src/Reassembly/Steps/Drain.antt =====
-- Steps that store nothing never make the reorder buffer of flow/reassembly.rs larger.
use bazalt.Prelude.{ℕ, suc, ◌≤◌, ◌≡◌, false, some, [], ◌∷◌, length, arith}
use bazalt.BTreeMap.{BTreeMap, first_key_value, remove}
use bazalt.Reassembly.Types.{BufferedSegment, Ctx}
use bazalt.Reassembly.Half.{remove_segment}
use bazalt.Reassembly.Steps.Relation.{
  Step, Steps, notes, emits, skips, closes, removes, stores, done, next, consume_fin_at_cases,
}

pub record Shrinks (c d : Ctx) : Type 0 where
  pub count : length d.half.out_of_order ≤ length c.half.out_of_order
  pub size : d.half.out_of_order_bytes ≤ c.half.out_of_order_bytes

pub remove_first-length :
    (key : ℕ) (seg : BufferedSegment) (c : Ctx)
    → first_key_value c.half.out_of_order ≡ some (key, seg)
    → suc (length (remove_segment key seg c).half.out_of_order) ≡ length c.half.out_of_order
unfolding remove_segment
remove_first-length key seg c e = at c.half.out_of_order e
  where
    at :
        (m : BTreeMap BufferedSegment)
        → first_key_value m ≡ some (key, seg)
        → suc (length (remove key m)) ≡ length m
    at [] e = absurd (cc)
    at ((j, w) ∷ m) e = ground arith

remove_segment-Shrinks :
    (key : ℕ) (seg : BufferedSegment) (c : Ctx)
    → first_key_value c.half.out_of_order ≡ some (key, seg)
    → Shrinks c (remove_segment key seg c)
unfolding remove_segment
remove_segment-Shrinks key seg c e = record {
  count = omega (arith, remove_first-length key seg c e);
  size = omega arith;
}

Step-Shrinks : {c d : Ctx} → Step false c d → Shrinks c d
Step-Shrinks (notes s) = record {
  count = rw s.out_of_order (omega arith);
  size = rw s.out_of_order_bytes (omega arith);
}
Step-Shrinks (emits bytes ts n full e) = omega arith
Step-Shrinks (skips target n lt e) = omega arith
Step-Shrinks {c = c} (closes fin n opened f e) =
    consume_fin_at_cases (Shrinks c) fin n c (omega arith) (λ _. omega arith) (λ _. omega arith)
Step-Shrinks {c = c} (removes key seg e) = remove_segment-Shrinks key seg c e
Step-Shrinks (stores g start ts bytes cursor end opened begun le fits more below free) = absurd (cc)

pub Steps-Shrinks : {c d : Ctx} → Steps false c d → Shrinks c d
Steps-Shrinks done = omega arith
Steps-Shrinks (next r s) = omega (arith, Steps-Shrinks r, Step-Shrinks s)
