-- ===== src/Reassembly/Steps/Recover.antt =====
-- Gap recovery in flow/reassembly.rs takes elementary steps only.
use bazalt.Prelude.{
  ℕ, suc, Bool, Option, none, some, length, ltb, leb, min, if◌then◌else◌, if_cases, option_cases,
  arith,
}
use bazalt.BTreeMap.{first_key_value}
use bazalt.Reassembly.Types.{TcpHalf, Ctx, fresh_ctx}
use bazalt.Reassembly.Half.{set_retransmit, emit_gap_to}
use bazalt.Reassembly.Recover.{
  over_limits, skip_gap, flush_and_check, recover_acked_fin, recover_acked_gap, known_ack_round,
  recover_known_ack, set_gap_timer, restart_gap_timer, give_up_gap, recover_ooo_timeout,
  pressure_round, recover_ooo_pressure, finalize_round, finalize,
}
use bazalt.Reassembly.Steps.Relation.{Steps, notes, done, Steps-trans, one}
use bazalt.Reassembly.Steps.Loops.{
  consume_fin_if_ready-Steps, emit_gap_to-Steps, flush_ooo-Steps, run_loop-Steps,
}

module _ {g : Bool} where
  pub set_retransmit-Steps : (c : Ctx) → Steps g c (set_retransmit c)
  set_retransmit-Steps c = one (notes (ground arith))

  pub set_gap_timer-Steps : (t : Option ℕ) (c : Ctx) → Steps g c (set_gap_timer t c)
  set_gap_timer-Steps t c = one (notes (ground arith))

  flush_and_check-Steps : (c : Ctx) → Steps g c (flush_and_check c).0
  unfolding flush_and_check
  flush_and_check-Steps c = flush_ooo-Steps c

  recover_acked_fin-Steps :
      (ack expected : ℕ) (c : Ctx) → Steps g c (recover_acked_fin ack expected c)
  unfolding recover_acked_fin
  recover_acked_fin-Steps ack expected c =
      option_cases (Steps g c) c.half.pending_fin (λ _. done)
        λ fin _.
          if_cases (Steps g c) _
            (λ _. Steps-trans (emit_gap_to-Steps fin c) (consume_fin_if_ready-Steps _)) (λ _. done)

  pub gap_first-Steps :
      (expected first target : ℕ) (c : Ctx)
      → Steps g c (if ltb expected first then emit_gap_to target c else c)
  gap_first-Steps expected first target c =
      if_cases (Steps g c) (ltb expected first) (λ _. emit_gap_to-Steps target c) (λ _. done)

  recover_acked_gap-Steps :
      (ack expected first : ℕ) (c : Ctx) → Steps g c (recover_acked_gap ack expected first c).0
  unfolding recover_acked_gap
  recover_acked_gap-Steps ack expected first c =
      let gap = gap_first-Steps expected first (min first ack) c in
      if_cases (λ (r : Ctx × Bool). Steps g c r.0) _ (λ _. gap)
        (λ _. Steps-trans gap (flush_and_check-Steps _))

  known_ack_round-Steps : (ack : ℕ) (c : Ctx) → Steps g c (known_ack_round ack c).0
  unfolding known_ack_round
  known_ack_round-Steps ack c =
      option_cases to c.half.next_abs (λ _. done)
        λ n _.
          if_cases to (leb ack n) (λ _. done)
            λ _.
              option_cases to (first_key_value c.half.out_of_order)
                (λ _. recover_acked_fin-Steps ack n c) (λ e _. recover_acked_gap-Steps ack n e.0 c)
    where
      to : Ctx × Bool → Type 0
      to r = Steps g c r.0

  pub recover_known_ack-Steps : (c : Ctx) → Steps g c (recover_known_ack c)
  unfolding recover_known_ack
  recover_known_ack-Steps c =
      option_cases (Steps g c) c.half.peer_ack_abs (λ _. done)
        λ ack _.
          run_loop-Steps (known_ack_round ack) (known_ack_round-Steps ack)
            (suc (suc (length c.half.out_of_order))) c

  restart_gap_timer-Steps : (ts : ℕ) (c : Ctx) → Steps g c (restart_gap_timer ts c)
  unfolding restart_gap_timer
  restart_gap_timer-Steps ts c =
      option_cases (Steps g c) (first_key_value c.half.out_of_order) (λ _. done)
        λ e _. if_cases (Steps g c) _ (λ _. set_gap_timer-Steps (some ts) c) (λ _. done)

  give_up_gap-Steps : (ts first : ℕ) (c : Ctx) → Steps g c (give_up_gap ts first c)
  unfolding give_up_gap
  give_up_gap-Steps ts first c =
      Steps-trans (Steps-trans (emit_gap_to-Steps first c) (flush_ooo-Steps _))
        (Steps-trans (set_gap_timer-Steps none _) (restart_gap_timer-Steps ts _))

  pub recover_ooo_timeout-Steps :
      (max_age ts : ℕ) (c : Ctx) → Steps g c (recover_ooo_timeout max_age ts c)
  unfolding recover_ooo_timeout
  recover_ooo_timeout-Steps max_age ts c =
      option_cases (Steps g c) c.half.next_abs (λ _. set_gap_timer-Steps none c)
        λ n _.
          option_cases (Steps g c) (first_key_value c.half.out_of_order)
            (λ _. set_gap_timer-Steps none c)
            λ e _.
              if_cases (Steps g c) (leb e.0 n)
                (λ _. Steps-trans (set_gap_timer-Steps none c) (flush_ooo-Steps _))
                λ _.
                  option_cases (Steps g c) c.half.gap_started_ts_ns
                    (λ _. set_gap_timer-Steps (some ts) c)
                    λ started _.
                      if_cases (Steps g c) _ (λ _. done) (λ _. give_up_gap-Steps ts e.0 c)

  pub skip_gap-Steps : (first : ℕ) (c : Ctx) → Steps g c (skip_gap first c)
  skip_gap-Steps first c = if_cases (Steps g c) _ (λ _. emit_gap_to-Steps first c) (λ _. done)

  pressure_round-Steps :
      (max_ooo max_segments : ℕ) (c : Ctx) → Steps g c (pressure_round max_ooo max_segments c).0
  unfolding pressure_round
  pressure_round-Steps max_ooo max_segments c =
      if_cases to (over_limits max_ooo max_segments c.half)
        (λ _.
          option_cases to (first_key_value c.half.out_of_order) (λ _. done)
            λ e _. Steps-trans (skip_gap-Steps e.0 c) (flush_ooo-Steps _))
        (λ _. done)
    where
      to : Ctx × Bool → Type 0
      to r = Steps g c r.0

  pub recover_ooo_pressure-Steps :
      (max_ooo max_segments : ℕ) (c : Ctx) → Steps g c (recover_ooo_pressure max_ooo max_segments c)
  unfolding recover_ooo_pressure
  recover_ooo_pressure-Steps max_ooo max_segments c =
      run_loop-Steps (pressure_round max_ooo max_segments)
        (pressure_round-Steps max_ooo max_segments) (suc c.half.out_of_order_bytes) c

  finalize_round-Steps : (c : Ctx) → Steps g c (finalize_round c).0
  unfolding finalize_round
  finalize_round-Steps c =
      option_cases to c.half.next_abs (λ _. done)
        λ n _.
          option_cases to (first_key_value c.half.out_of_order) (λ _. done)
            λ e _. Steps-trans (gap_first-Steps n e.0 e.0 c) (flush_and_check-Steps _)
    where
      to : Ctx × Bool → Type 0
      to r = Steps g c r.0

  pub finalize-Steps : (h : TcpHalf) → Steps g (fresh_ctx h) (finalize h)
  unfolding finalize
  finalize-Steps h =
      Steps-trans
        (Steps-trans
          (run_loop-Steps finalize_round finalize_round-Steps (suc (suc (length h.out_of_order)))
            (fresh_ctx h))
          (consume_fin_if_ready-Steps _))
        (set_gap_timer-Steps none _)
