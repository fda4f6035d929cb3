-- ===== src/Reassembly/Pressure.antt =====
-- The limits of the reorder buffer and `recover_ooo_pressure` in flow/reassembly.rs.
use bazalt.Prelude.{
  ℕ, suc, ◌≤◌, ◌<◌, ◌≡◌, ap, ◌∙◌, ◌⊎◌, inl, inr, Bool, true, false, not, ◌||◌, some, [], length,
  leb, run_loop_exit, if_cases, option_cases, dec_le, arith,
}
use bazalt.BTreeMap.{first_key_value}
use bazalt.Reassembly.Types.{BufferedSegment, TcpHalf, Ctx}
use bazalt.Reassembly.Half.{flush_ooo}
use bazalt.Reassembly.Recover.{over_limits, skip_gap, pressure_round, recover_ooo_pressure}
use bazalt.Reassembly.Intervals.{total}
use bazalt.Reassembly.Valid.{IsValid, Steps-IsValid}
use bazalt.Reassembly.Steps.Relation.{Steps}
use bazalt.Reassembly.Steps.Loops.{flush_ooo-Steps}
use bazalt.Reassembly.Steps.Recover.{skip_gap-Steps}
use bazalt.Reassembly.Steps.Drain.{Steps-Shrinks}
use bazalt.Reassembly.Flush.{
  HeldByFin, Gapped, skip_gap-Gapped, flush_ooo-idle, flush_ooo-progress, flush_ooo-closed,
  first_none, waits,
}

-- Within both limits, or held at a FIN that is not yet valid.
abbrev pub IsRelieved : ℕ → ℕ → Ctx → Type 0
IsRelieved max_ooo max_segments c =
    (over_limits max_ooo max_segments c.half ≡ false)
    ⊎ ((n : ℕ) × (first : ℕ × BufferedSegment) × (fin : ℕ) × HeldByFin c n first fin)

empty-within :
    (max_ooo max_segments : ℕ) (h : TcpHalf)
    → IsValid h
    → h.out_of_order ≡ []
    → over_limits max_ooo max_segments h ≡ false
empty-within max_ooo max_segments h v e =
    let none_counted : h.out_of_order_bytes ≡ 0 = v.counted ∙ ap total e in
    let none_there : length h.out_of_order ≡ 0 = ap length e in
    ground (arith, none_counted, none_there)

module _ (max_ooo max_segments : ℕ) where
  -- A flush that frees nothing has met the FIN, or stands in front of the hole before it.
  stuck-IsRelieved :
      (c : Ctx) (first : ℕ × BufferedSegment)
      → Gapped first c
      → IsValid (flush_ooo c).half
      → IsValid c.half
      → ((flush_ooo c).half.fin_consumed
          || leb c.half.out_of_order_bytes (flush_ooo c).half.out_of_order_bytes)
        ≡ true
      → IsRelieved max_ooo max_segments (flush_ooo c)
  stuck-IsRelieved c first (inl closed) v' v stop =
      inl (
        empty-within max_ooo max_segments _ v' (v'.drained (rw (flush_ooo-closed c closed) closed)))
  stuck-IsRelieved c first (inr (n, w, why)) v' v stop = elim (dec_le first.0 n) [
    | yes le ↦ inl (
        empty-within max_ooo max_segments _ v'
          (v'.drained (ground (arith, flush_ooo-progress c n first v w le))))
    | no gt ↦ rw (flush_ooo-idle c n first w (omega arith)) (held why (omega arith))
  ]
    where
      held :
          ((first.0 ≤ n) ⊎ ((fin : ℕ) × (c.half.pending_fin ≡ some fin) × (fin ≤ n)))
          → n < first.0
          → IsRelieved max_ooo max_segments c
      held (inl le) lt = absurd (omega arith)
      held (inr (fin, m, le)) lt =
          inr (n, first, fin, record { waits = w; ahead = lt; marker = m; reached = le })

  record Pressed (c : Ctx) (r : Ctx × Bool) : Type 0 where
    valid : IsValid r.0.half
    smaller : r.1 ≡ true → r.0.half.out_of_order_bytes < c.half.out_of_order_bytes
    stopped : r.1 ≡ false → IsRelieved max_ooo max_segments r.0

  pressure_round-Pressed :
      (c : Ctx) → IsValid c.half → Pressed c (pressure_round max_ooo max_segments c)
  unfolding pressure_round
  pressure_round-Pressed c v =
      if_cases (Pressed c) (over_limits max_ooo max_segments c.half)
        (λ over.
          option_cases (Pressed c) (first_key_value c.half.out_of_order)
            (λ e. record {
              valid = v;
              smaller = λ more. absurd (cc);
              stopped = λ _. inl (empty-within max_ooo max_segments c.half v (first_none _ e));
            })
            λ first e. pressed first e)
        (λ within. record { valid = v; smaller = λ more. absurd (cc); stopped = λ _. inl within })
    where
      pressed :
          (first : ℕ × BufferedSegment)
          → first_key_value c.half.out_of_order ≡ some first
          → Pressed c (
            flush_ooo (skip_gap first.0 c),
            not (
                (flush_ooo (skip_gap first.0 c)).half.fin_consumed
                || leb
                    (skip_gap first.0 c).half.out_of_order_bytes
                    (flush_ooo (skip_gap first.0 c)).half.out_of_order_bytes),
          )
      pressed first e =
          let before = skip_gap first.0 c in
          let skipped : Steps false c before = skip_gap-Steps first.0 c in
          let flushed : Steps false before (flush_ooo before) = flush_ooo-Steps before in
          let v' : IsValid before.half = Steps-IsValid skipped v in
          let v'' : IsValid (flush_ooo before).half = Steps-IsValid flushed v' in
          let (n, w) = waits c first v e in
          record {
            valid = v'';
            smaller = λ more. ground (arith, Steps-Shrinks skipped, more);
            stopped = λ stop.
                stuck-IsRelieved before first (skip_gap-Gapped c n first w) v'' v'
                  (ground (arith, stop));
          }

-- `recover_ooo_pressure` ends by its own tests. On a valid half it leaves the buffer within both
-- limits, in bytes and in segments, unless an unconsumed FIN marker at or before the expected
-- position stands in front of the first buffered segment, across which no gap is reported.
pub recover_ooo_pressure-IsRelieved :
    (max_ooo max_segments : ℕ) (c : Ctx)
    → IsValid c.half
    → IsRelieved max_ooo max_segments (recover_ooo_pressure max_ooo max_segments c)
unfolding recover_ooo_pressure
recover_ooo_pressure-IsRelieved max_ooo max_segments c v =
    run_loop_exit (λ (d : Ctx). IsValid d.half) (IsRelieved max_ooo max_segments)
      (λ d. d.half.out_of_order_bytes) (pressure_round max_ooo max_segments)
      (λ d w more.
        let p = pressure_round-Pressed max_ooo max_segments d w in (p.valid, p.smaller more))
      (λ d w stop. (pressure_round-Pressed max_ooo max_segments d w).stopped stop)
      (suc c.half.out_of_order_bytes) c v (omega arith)
