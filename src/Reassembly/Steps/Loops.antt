-- ===== src/Reassembly/Steps/Loops.antt =====
-- The loops of flow/reassembly.rs take elementary steps only.
use bazalt.Prelude.{
  ℕ, suc, ◌≡◌, Bool, some, length, is_empty, ltb, leb, saturating_sub, run_loop, run_loop_inv,
  if_cases, option_cases, arith,
}
use bazalt.BTreeMap.{first_key_value}
use bazalt.Reassembly.Types.{Bytes, BufferedSegment, Ctx}
use bazalt.Reassembly.Half.{
  consume_fin_if_ready, emit, emit_gap_to, gap_target, emit_segment, flush_round, flush_ooo,
}
use bazalt.Reassembly.Steps.Relation.{Steps, emits, skips, closes, removes, done, Steps-trans, one}

module _ {g : Bool} where
  pub consume_fin_if_ready-Steps : (c : Ctx) → Steps g c (consume_fin_if_ready c)
  unfolding consume_fin_if_ready
  consume_fin_if_ready-Steps c =
      if_cases (Steps g c) c.half.fin_consumed (λ _. done)
        λ opened.
          option_cases (Steps g c) c.half.pending_fin (λ _. done)
            λ fin f.
              option_cases (Steps g c) c.half.next_abs (λ _. done)
                λ n e. one (closes fin n opened f e)

  pub emit-Steps :
      (bytes : Bytes) (ts n : ℕ) (c : Ctx) → c.half.next_abs ≡ some n → Steps g c (emit bytes ts c)
  unfolding emit
  emit-Steps bytes ts n c e =
      if_cases (Steps g c) (is_empty bytes) (λ _. done)
        λ full. Steps-trans (one (emits bytes ts n full e)) (consume_fin_if_ready-Steps _)

  pub emit_gap_to-Steps : (target : ℕ) (c : Ctx) → Steps g c (emit_gap_to target c)
  unfolding emit_gap_to
  emit_gap_to-Steps target c =
      option_cases (Steps g c) c.half.next_abs (λ _. done)
        λ n e.
          if_cases (Steps g c) (leb (gap_target c.half target) n) (λ _. done)
            λ before.
              Steps-trans (one (skips (gap_target c.half target) n (ground arith) e))
                (consume_fin_if_ready-Steps _)

  pub emit_segment-Steps :
      (expected key : ℕ) (seg : BufferedSegment) (c : Ctx)
      → c.half.next_abs ≡ some expected
      → Steps g c (emit_segment expected key seg c)
  unfolding emit_segment
  emit_segment-Steps expected key seg c e =
      if_cases (Steps g c) (ltb key expected)
        (λ _.
          if_cases (Steps g c) (leb (length seg.bytes) (saturating_sub expected key)) (λ _. done)
            (λ _. emit-Steps _ seg.ts_ns expected c e))
        (λ _. emit-Steps seg.bytes seg.ts_ns expected c e)

  pub flush_round-Steps : (c : Ctx) → Steps g c (flush_round c).0
  unfolding flush_round
  flush_round-Steps c =
      if_cases to c.half.fin_consumed (λ _. done)
        λ _.
          option_cases to c.half.next_abs (λ _. done)
            λ n e.
              option_cases to (first_key_value c.half.out_of_order) (λ _. done)
                λ s f.
                  if_cases to (ltb n s.0) (λ _. done)
                    λ _. Steps-trans (one (removes s.0 s.1 f)) (emit_segment-Steps n s.0 s.1 _ e)
    where
      to : Ctx × Bool → Type 0
      to r = Steps g c r.0

  -- A loop whose rounds are steps is a sequence of steps.
  pub run_loop-Steps :
      (body : Ctx → Ctx × Bool)
      → ((c : Ctx) → Steps g c (body c).0)
      → (fuel : ℕ) (c : Ctx) → Steps g c (run_loop fuel body c)
  run_loop-Steps body rounds fuel c =
      run_loop_inv (λ d. Steps g c d) body (λ d r. Steps-trans r (rounds d)) fuel c done

  pub flush_ooo-Steps : (c : Ctx) → Steps g c (flush_ooo c)
  unfolding flush_ooo
  flush_ooo-Steps c =
      run_loop-Steps flush_round flush_round-Steps (suc (length c.half.out_of_order)) c
