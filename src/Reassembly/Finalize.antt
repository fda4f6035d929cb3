-- ===== src/Reassembly/Finalize.antt =====
-- `finalize` in flow/reassembly.rs, the reorder buffer and a tentative FIN when a flow closes.
use bazalt.Prelude.{
  ℕ, suc, ◌≤◌, ◌<◌, ◌≡◌, refl, subst, ap, ◌∙◌, ◌⊎◌, inl, inr, Bool, true, false, not, ◌&&◌, Option,
  none, some, [], length, ltb, leb, ◌==◌, if◌then◌else◌, if_cases, option_cases, run_loop,
  run_loop_exit, run_loop-stop, dec_le, arith,
}
use bazalt.BTreeMap.{first_key_value}
use bazalt.Reassembly.Types.{BufferedSegment, TcpHalf, Ctx, fresh_ctx}
use bazalt.Reassembly.Half.{consume_fin_at, consume_fin_if_ready, emit_gap_to, flush_ooo, fin_acked}
use bazalt.Reassembly.Recover.{
  no_progress, same_position, flush_and_check, finalize_round, finalize, set_gap_timer,
}
use bazalt.Reassembly.Valid.{IsValid, Steps-IsValid}
use bazalt.Reassembly.Steps.Relation.{Steps, consume_fin_at_cases}
use bazalt.Reassembly.Steps.Loops.{flush_ooo-Steps}
use bazalt.Reassembly.Steps.Recover.{gap_first-Steps}
use bazalt.Reassembly.Steps.Drain.{Steps-Shrinks}
use bazalt.Reassembly.Flush.{
  Waits, HeldByFin, Gapped, emit_gap_to-Gapped, flush_ooo-idle, flush_ooo-progress, flush_ooo-fewer,
  flush_ooo-closed, first_none,
}

-- Nothing is buffered, or a FIN marker that was reached stands before the first segment.
abbrev IsDrained : Ctx → Type 0
IsDrained c =
    (c.half.out_of_order ≡ [])
    ⊎ ((n : ℕ) × (first : ℕ × BufferedSegment) × (fin : ℕ) × HeldByFin c n first fin)

stuck-IsDrained :
    (c : Ctx) (first : ℕ × BufferedSegment)
    → Gapped first c
    → IsValid (flush_ooo c).half
    → IsValid c.half
    → (not (flush_ooo c).half.fin_consumed && not (no_progress c (flush_ooo c))) ≡ false
    → IsDrained (flush_ooo c)
stuck-IsDrained c first (inl closed) v' v stop =
    inl (v'.drained (rw (flush_ooo-closed c closed) closed))
stuck-IsDrained c first (inr (n, w, why)) v' v stop = elim (dec_le first.0 n) [
  | yes le ↦ inl (v'.drained (ground (arith, flush_ooo-progress c n first v w le)))
  | no gt ↦ rw (flush_ooo-idle c n first w (omega arith)) (held why (omega arith))
]
  where
    held :
        ((first.0 ≤ n) ⊎ ((fin : ℕ) × (c.half.pending_fin ≡ some fin) × (fin ≤ n)))
        → n < first.0
        → IsDrained c
    held (inl le) lt = absurd (omega arith)
    held (inr (fin, m, le)) lt =
        inr (n, first, fin, record { waits = w; ahead = lt; marker = m; reached = le })

record Drained (c : Ctx) (r : Ctx × Bool) : Type 0 where
  valid : IsValid r.0.half
  smaller : r.1 ≡ true → length r.0.half.out_of_order < length c.half.out_of_order
  stopped : r.1 ≡ false → IsDrained r.0

same_position_refl : (o : Option ℕ) → same_position o o ≡ true
same_position_refl none = refl
same_position_refl (some n) = ground arith

no_progress_refl : (c : Ctx) → no_progress c c ≡ true
no_progress_refl c = ground (arith, same_position_refl c.half.next_abs)

-- A round that goes on has flushed a segment.
going-fewer :
    (c : Ctx) (first : ℕ × BufferedSegment)
    → Gapped first c
    → (not (flush_ooo c).half.fin_consumed && not (no_progress c (flush_ooo c))) ≡ true
    → length (flush_ooo c).half.out_of_order < length c.half.out_of_order
going-fewer c first (inl closed) more =
    let still : (flush_ooo c).half.fin_consumed ≡ true = rw (flush_ooo-closed c closed) closed in
    absurd (ground (arith, still))
going-fewer c first (inr (n, w, why)) more = elim (dec_le first.0 n) [
  | yes le ↦ flush_ooo-fewer c n first w le
  | no gt ↦
      let same = flush_ooo-idle c n first w (omega arith) in
      absurd (stays c (flush_ooo c) same more)
]
  where
    stays : (c d : Ctx) → d ≡ c → (not d.half.fin_consumed && not (no_progress c d)) ≡ true → ⊥
    stays c d e more =
        let again = subst (λ x. (not x.half.fin_consumed && not (no_progress c x)) ≡ true) e more in
        ground (arith, again, no_progress_refl c)

flush_and_check-Drained :
    (c d : Ctx) (first : ℕ × BufferedSegment)
    → Gapped first d
    → IsValid d.half
    → length d.half.out_of_order ≤ length c.half.out_of_order
    → Drained c (flush_and_check d)
unfolding flush_and_check
flush_and_check-Drained c d first g v le =
    let flushed : Steps false d (flush_ooo d) = flush_ooo-Steps d in
    let v' : IsValid (flush_ooo d).half = Steps-IsValid flushed v in
    record {
      valid = v';
      smaller = λ more. omega (arith, going-fewer d first g more);
      stopped = λ stop. stuck-IsDrained d first g v' v stop;
    }

gap_first-Gapped :
    (c : Ctx) (n : ℕ) (first : ℕ × BufferedSegment)
    → Waits c n first
    → Gapped first (if ltb n first.0 then emit_gap_to first.0 c else c)
gap_first-Gapped c n first w =
    if_cases (Gapped first) (ltb n first.0) (λ _. emit_gap_to-Gapped c n first w)
      (λ at. inr (n, w, inl (ground arith)))

finalize_round-Drained : (c : Ctx) → IsValid c.half → Drained c (finalize_round c)
unfolding finalize_round
finalize_round-Drained c v =
    option_cases (Drained c) c.half.next_abs
      (λ idle. record {
        valid = v;
        smaller = λ more. absurd (cc);
        stopped = λ _. inl (v.started idle);
      })
      λ n e.
        option_cases (Drained c) (first_key_value c.half.out_of_order)
          (λ f. record {
            valid = v;
            smaller = λ more. absurd (cc);
            stopped = λ _. inl (first_none c.half.out_of_order f);
          })
          λ first f.
            let gapped : Steps false c (if ltb n first.0 then emit_gap_to first.0 c else c) =
              gap_first-Steps n first.0 first.0 c in
            flush_and_check-Drained c (if ltb n first.0 then emit_gap_to first.0 c else c) first
              (gap_first-Gapped c n first
                (record { opened = ground (arith, v.drained); position = e; front = f }))
              (Steps-IsValid gapped v) (omega (arith, Steps-Shrinks gapped))

finalize_loop-IsDrained :
    (h : TcpHalf)
    → IsValid h
    → IsDrained (run_loop (suc (suc (length h.out_of_order))) finalize_round (fresh_ctx h))
finalize_loop-IsDrained h v =
    run_loop_exit (λ (d : Ctx). IsValid d.half) IsDrained (λ d. length d.half.out_of_order)
      finalize_round (λ d w more. let p = finalize_round-Drained d w in (p.valid, p.smaller more))
      (λ d w stop. (finalize_round-Drained d w).stopped stop) (suc (suc (length h.out_of_order)))
      (fresh_ctx h) v (omega arith)

-- A tentative FIN at the expected position: seen out of order and not confirmed by an ACK.
pub record HasTentativeFin (h : TcpHalf) (fin : ℕ) : Type 0 where
  pub marker : h.pending_fin ≡ some fin
  pub position : h.next_abs ≡ some fin
  pub tentative : h.pending_fin_requires_ack ≡ true
  pub unconfirmed : fin_acked h fin ≡ false

-- Emptied, or stopped at a tentative FIN.
abbrev Closed : Ctx → Type 0
Closed c = (c.half.out_of_order ≡ []) ⊎ ((fin : ℕ) × HasTentativeFin c.half fin)

consume_at-Closed :
    (c : Ctx) (fin n : ℕ)
    → c.half.pending_fin ≡ some fin
    → c.half.next_abs ≡ some n
    → fin ≤ n
    → Closed (consume_fin_at fin n c)
consume_at-Closed c fin n m e le =
    if_cases Closed (leb fin n)
      (λ _.
        if_cases Closed (fin == n)
          (λ at.
            if_cases Closed (c.half.pending_fin_requires_ack && not (fin_acked c.half fin))
              (λ wait. inr (
                fin,
                record {
                  marker = m;
                  position = ground arith;
                  tentative = ground arith;
                  unconfirmed = ground arith;
                },
              ))
              (λ _. inl refl))
          (λ _. inl refl))
      (λ not_yet. absurd (ground arith))

consume-Closed : (c : Ctx) → IsDrained c → Closed (consume_fin_if_ready c)
unfolding consume_fin_if_ready
consume-Closed c (inl e) =
    if_cases Closed c.half.fin_consumed (λ _. inl e)
      λ _.
        option_cases Closed c.half.pending_fin (λ _. inl e)
          λ fin _.
            option_cases Closed c.half.next_abs (λ _. inl e)
              λ n _. consume_fin_at_cases Closed fin n c (inl e) (λ _. inl refl) (λ _. inl refl)
consume-Closed c (inr (n, first, fin, held)) =
    if_cases Closed c.half.fin_consumed (λ closed. absurd (ground (arith, held.waits.opened)))
      λ _.
        option_cases Closed c.half.pending_fin (λ idle. absurd (ground (arith, held.marker)))
          λ fin' m.
            option_cases Closed c.half.next_abs
              (λ idle. absurd (ground (arith, held.waits.position)))
              λ n' e.
                consume_at-Closed c fin' n' m e
                  (ground (arith, held.marker, held.waits.position, held.reached))

-- `finalize` of a valid half leaves nothing in the buffer, unless it stops at a tentative FIN: one
-- that was seen out of order, that no ACK confirmed, and at which the expected position stands.
pub finalize_drains :
    (h : TcpHalf)
    → IsValid h
    → ((finalize h).half.out_of_order ≡ []) ⊎ ((fin : ℕ) × HasTentativeFin (finalize h).half fin)
unfolding finalize
finalize_drains h v =
    elim (consume-Closed (run_loop (suc (suc (length h.out_of_order))) finalize_round (fresh_ctx h))
      (finalize_loop-IsDrained h v)) [
        | inl e ↦ inl e
        | inr (fin, t) ↦ inr (
          fin,
          record {
            marker = t.marker;
            position = t.position;
            tentative = t.tentative;
            unconfirmed = t.unconfirmed;
          },
        )
      ]

gap_stops_at_fin :
    (c : Ctx) (fin target : ℕ)
    → c.half.next_abs ≡ some fin
    → c.half.pending_fin ≡ some fin
    → emit_gap_to target c ≡ c
unfolding emit_gap_to
gap_stops_at_fin c fin target at m = ground arith

check_idle :
    (c : Ctx) (n : ℕ) (first : ℕ × BufferedSegment)
    → Waits c n first
    → n < first.0
    → flush_and_check c ≡ (c, false)
unfolding flush_and_check
check_idle c n first w lt =
    ap (λ (d : Ctx). (d, not d.half.fin_consumed && not (no_progress c d)))
      (flush_ooo-idle c n first w lt)
    ∙ ap (λ (b : Bool). (c, b)) (ground (arith, no_progress_refl c))

-- The round of `finalize` at a tentative FIN.
round_at_fin :
    (h : TcpHalf) (fin : ℕ) (first : ℕ × BufferedSegment)
    → Waits (fresh_ctx h) fin first
    → fin < first.0
    → h.pending_fin ≡ some fin
    → finalize_round (fresh_ctx h) ≡ (fresh_ctx h, false)
unfolding finalize_round
round_at_fin h fin first w lt m = ground (
  arith,
  gap_stops_at_fin (fresh_ctx h) fin first.0 w.position m,
  check_idle (fresh_ctx h) fin first w lt,
)

consume_at_fin :
    (h : TcpHalf) (fin : ℕ)
    → h.fin_consumed ≡ false
    → HasTentativeFin h fin
    → consume_fin_if_ready (fresh_ctx h) ≡ fresh_ctx h
unfolding consume_fin_if_ready
consume_at_fin h fin opened t = ground arith

-- Where a half stops at a tentative FIN in front of what it has buffered, `finalize` emits nothing
-- and leaves the buffer as it is: captured bytes behind the FIN are not delivered.
pub finalize_stops_at_tentative_fin :
    (h : TcpHalf) (fin : ℕ) (first : ℕ × BufferedSegment)
    → h.fin_consumed ≡ false
    → first_key_value h.out_of_order ≡ some first
    → fin < first.0
    → HasTentativeFin h fin
    → finalize h ≡ set_gap_timer none (fresh_ctx h)
unfolding finalize
finalize_stops_at_tentative_fin h fin first opened front ahead t = ap (set_gap_timer none) (
    ap consume_fin_if_ready (
      run_loop-stop finalize_round (suc (length h.out_of_order)) (fresh_ctx h) (fresh_ctx h) (
        round_at_fin h fin first (record { opened = opened; position = t.position; front = front })
          ahead t.marker))
    ∙ consume_at_fin h fin opened t)
