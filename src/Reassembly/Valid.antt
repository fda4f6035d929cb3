-- ===== src/Reassembly/Valid.antt =====
-- The invariant of a `TcpHalf` in flow/reassembly.rs, through every method.
use bazalt.Prelude.{
  ℕ, ◌+◌, ◌-◌, ◌≤◌, ◌<◌, ◌≡◌, refl, Bool, true, false, none, some, [], ◌∷◌, length, is_some,
  saturating_add, arith,
}
use bazalt.BTreeMap.{BTreeMap, first_key_value, remove, insert}
use bazalt.Reassembly.Types.{Bytes, BufferedSegment, TcpHalf, Ctx, default_half}
use bazalt.Reassembly.Half.{observe, close_half, remove_segment}
use bazalt.Reassembly.Insert.{store_piece, piece_end, covered_to, piece}
use bazalt.Reassembly.Recover.{finalize}
use bazalt.Reassembly.Accept.{accept, acknowledge}
use bazalt.Reassembly.Intervals.{
  Spaced, total, Spaced-weaken, Spaced-total, Spaced-insert, length-piece, piece_end-le,
}
use bazalt.Reassembly.Steps.Relation.{
  Step, Steps, notes, emits, skips, closes, removes, stores, done, next, consume_fin_at_cases,
}
use bazalt.Reassembly.Steps.Methods.{accept-Steps, acknowledge-Steps}
use bazalt.Reassembly.Steps.Recover.{finalize-Steps}

-- The buffered segments are disjoint and not empty, the byte counter is their sum, and nothing is
-- buffered once the FIN was consumed.
pub record IsValid (h : TcpHalf) : Type 0 where
  pub spaced : Spaced 0 h.out_of_order
  pub counted : h.out_of_order_bytes ≡ total h.out_of_order
  pub drained : h.fin_consumed ≡ true → h.out_of_order ≡ []
  pub started : h.next_abs ≡ none → h.out_of_order ≡ []

remove_first :
    (key : ℕ) (seg : BufferedSegment) (m : BTreeMap BufferedSegment)
    → Spaced 0 m
    → first_key_value m ≡ some (key, seg)
    → Spaced 0 (remove key m) × (total (remove key m) ≡ total m - length seg.bytes)
unfolding remove
remove_first key seg [] s e = absurd (cc)
remove_first key seg ((j, w) ∷ m) s e =
    ground (arith, Spaced-weaken (j + length w.bytes) 0 m (omega arith) s.3)

remove_segment-IsValid :
    (key : ℕ) (seg : BufferedSegment) (c : Ctx)
    → first_key_value c.half.out_of_order ≡ some (key, seg)
    → IsValid c.half
    → IsValid (remove_segment key seg c).half
unfolding remove_segment
remove_segment-IsValid key seg c e v = record {
  spaced = (remove_first key seg c.half.out_of_order v.spaced e).0;
  counted = omega (arith, v.counted, (remove_first key seg c.half.out_of_order v.spaced e).1);
  drained = λ closed. absurd (ground (arith, v.drained closed));
  started = λ idle. absurd (ground (arith, v.started idle));
}

store_piece-IsValid :
    (start ts : ℕ) (bytes : Bytes) (cursor end : ℕ) (c : Ctx)
    → c.half.fin_consumed ≡ false
    → is_some c.half.next_abs ≡ true
    → start ≤ cursor
    → end ≤ saturating_add start (length bytes)
    → cursor < piece_end cursor end c.half.out_of_order
    → covered_to cursor c.half.out_of_order ≡ none
    → IsValid c.half
    → IsValid (store_piece start ts bytes cursor (piece_end cursor end c.half.out_of_order) c).half
unfolding store_piece
store_piece-IsValid start ts bytes cursor end c opened begun from fits more free v = record {
  spaced = stored.0;
  counted = omega (arith, stored.1, v.counted, Spaced-total 0 _ stored.0);
  drained = λ closed. absurd (cc);
  started = λ idle. absurd (ground arith);
}
  where
    m : BTreeMap BufferedSegment
    m = c.half.out_of_order

    kept : BufferedSegment
    kept = record { bytes = piece start bytes cursor (piece_end cursor end m); ts_ns = ts }

    size : length kept.bytes ≡ piece_end cursor end m - cursor
    size =
        length-piece start bytes cursor (piece_end cursor end m) from (omega arith)
          (omega (arith, piece_end-le cursor end m))

    stored :
        Spaced 0 (insert cursor kept m)
        × (total (insert cursor kept m) ≡ length kept.bytes + total m)
    stored =
        Spaced-insert 0 cursor end kept m v.spaced (omega arith) (omega (arith, size)) (omega arith)
          (omega (arith, size)) free

Step-IsValid : {g : Bool} {c d : Ctx} → Step g c d → IsValid c.half → IsValid d.half
Step-IsValid (notes s) v = record {
  spaced = rw s.out_of_order v.spaced;
  counted = rw (s.out_of_order, s.out_of_order_bytes) v.counted;
  drained = rw (s.out_of_order, s.fin_consumed) v.drained;
  started = rw (s.out_of_order, s.next_abs) v.started;
}
Step-IsValid (emits bytes ts n full e) v = record {
  spaced = v.spaced;
  counted = v.counted;
  drained = v.drained;
  started = λ idle. absurd (cc);
}
Step-IsValid (skips target n lt e) v = record {
  spaced = v.spaced;
  counted = v.counted;
  drained = v.drained;
  started = λ idle. absurd (cc);
}
Step-IsValid {c = c} (closes fin n opened f e) v =
    consume_fin_at_cases (λ (d : Ctx). IsValid d.half) fin n c v (λ _. emptied _) (λ _. emptied _)
  where
    emptied : (position : ℕ) → IsValid (close_half position c).half
    emptied position = record {
      spaced = tt;
      counted = refl;
      drained = λ _. refl;
      started = λ _. refl;
    }
Step-IsValid {c = c} (removes key seg e) v = remove_segment-IsValid key seg c e v
Step-IsValid {c = c} (stores g start ts bytes cursor end opened begun le fits more below free) v =
    store_piece-IsValid start ts bytes cursor end c opened begun le fits more free v

pub Steps-IsValid : {g : Bool} {c d : Ctx} → Steps g c d → IsValid c.half → IsValid d.half
Steps-IsValid done v = v
Steps-IsValid (next r s) v = Step-IsValid s (Steps-IsValid r v)

observe-IsValid : (h : TcpHalf) (seq : ℕ) (syn : Bool) → IsValid h → IsValid (observe h seq syn)
unfolding observe
observe-IsValid h seq syn v = record {
  spaced = v.spaced;
  counted = v.counted;
  drained = v.drained;
  started = λ idle. absurd (ground arith);
}

pub default_half-IsValid : IsValid default_half
default_half-IsValid = record {
  spaced = tt;
  counted = refl;
  drained = λ _. refl;
  started = λ _. refl;
}

-- `accept` keeps the invariant, whatever the segment, the limits and the timeout: the buffered
-- segments stay disjoint and not empty and below 2^64, the byte counter stays their sum, and a half
-- whose FIN was consumed buffers nothing.
pub accept-IsValid :
    (h : TcpHalf) (seq : ℕ) (syn fin : Bool) (ts : ℕ) (bytes : Bytes)
    (max_ooo max_segments gap_timeout : ℕ)
    → IsValid h
    → IsValid (accept h seq syn fin ts bytes max_ooo max_segments gap_timeout).half
accept-IsValid h seq syn fin ts bytes max_ooo max_segments gap_timeout v =
    Steps-IsValid (accept-Steps h seq syn fin ts bytes max_ooo max_segments gap_timeout)
      (observe-IsValid h seq syn v)

-- `acknowledge` and `finalize` keep the invariant, for any ACK, time and timeout.
pub recover-IsValid :
    (h : TcpHalf) (ack ts gap_timeout : ℕ)
    → IsValid h
    → IsValid (acknowledge h ack ts gap_timeout).half × IsValid (finalize h).half
recover-IsValid h ack ts gap_timeout v = (
  Steps-IsValid {g = false} (acknowledge-Steps h ack ts gap_timeout) v,
  Steps-IsValid {g = false} (finalize-Steps h) v,
)
