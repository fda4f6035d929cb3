-- ===== src/Reassembly/Settled.antt =====
-- What the methods of flow/reassembly.rs leave in the reorder buffer.
use bazalt.Prelude.{
  ℕ, suc, ◌<◌, ◌≡◌, refl, Bool, true, false, not, ◌&&◌, ◌||◌, none, some, length, is_empty, is_some,
  ltb, leb, saturating_sub, saturating_add, wrapping_add32, run_loop_exit, if_cases, option_cases,
  if◌then◌else◌, arith,
}
use bazalt.BTreeMap.{first_key_value}
use bazalt.Reassembly.Types.{Bytes, TcpHalf, Ctx, fresh_ctx, extend_seq}
use bazalt.Reassembly.Half.{
  syn_len, observe, close_half, consume_fin_if_ready, emit_gap_to, remove_segment, flush_round,
  flush_ooo,
}
use bazalt.Reassembly.Recover.{
  ahead_of, set_gap_timer, restart_gap_timer, give_up_gap, recover_ooo_timeout, recover_known_ack,
}
use bazalt.Reassembly.Accept.{
  mark_fin, clip_to_fin, accept_payload, settle, accept_open, accept, note_ack, acknowledge,
}
use bazalt.Reassembly.Steps.Relation.{consume_fin_at_cases}
use bazalt.Reassembly.Steps.Loops.{emit_segment-Steps}
use bazalt.Reassembly.Steps.Drain.{Steps-Shrinks, remove_first-length}

-- The first buffered byte lies behind the expected position, if both are there.
abbrev pub front_clear : TcpHalf → Bool
front_clear h = elim h.next_abs [
  | none ↦ true
  | some expected ↦ elim (first_key_value h.out_of_order) [
    | none ↦ true
    | some e ↦ ltb expected e.0
  ]
]

-- The FIN was consumed, or every buffered byte lies behind the expected position.
pub record IsSettled (c : Ctx) : Type 0 where
  pub delivered : (c.half.fin_consumed || front_clear c.half) ≡ true

-- The FIN empties the buffer or leaves the half alone.
pub consume_fin_cases {ℓ} :
    (P : Ctx → Type ℓ) (c : Ctx)
    → P c
    → ((next : ℕ) → P (close_half next c))
    → P (consume_fin_if_ready c)
unfolding consume_fin_if_ready
consume_fin_cases P c keep closed =
    if_cases P c.half.fin_consumed (λ _. keep)
      λ _.
        option_cases P c.half.pending_fin (λ _. keep)
          λ fin _.
            option_cases P c.half.next_abs (λ _. keep)
              λ next _.
                consume_fin_at_cases P fin next c keep (λ _. closed (saturating_add next 1))
                  (λ _. closed next)

-- A round of the flush either asks for another, with a segment less, or leaves a settled half.
record Flushed (c : Ctx) (r : Ctx × Bool) : Type 0 where
  smaller : r.1 ≡ true → length r.0.half.out_of_order < length c.half.out_of_order
  stopped : r.1 ≡ false → IsSettled r.0

flush_round-Flushed : (c : Ctx) → Flushed c (flush_round c)
unfolding flush_round
flush_round-Flushed c =
    if_cases (Flushed c) c.half.fin_consumed
      (λ e. record { smaller = λ more. absurd (cc); stopped = λ _. ground arith })
      λ _.
        option_cases (Flushed c) c.half.next_abs
          (λ e. record { smaller = λ more. absurd (cc); stopped = λ _. ground arith })
          λ n at.
            option_cases (Flushed c) (first_key_value c.half.out_of_order)
              (λ e. record { smaller = λ more. absurd (cc); stopped = λ _. ground arith })
              λ s e.
                if_cases (Flushed c) (ltb n s.0)
                  (λ ahead. record { smaller = λ more. absurd (cc); stopped = λ _. ground arith })
                  (λ _. record {
                    smaller = λ _. omega (
                      arith,
                      Steps-Shrinks (emit_segment-Steps n s.0 s.1 (remove_segment s.0 s.1 c) at),
                      remove_first-length s.0 s.1 c e,
                    );
                    stopped = λ stop. absurd (cc);
                  })

-- The flush ends by its own test: then the FIN was consumed, or the first buffered byte lies behind
-- the expected position, or nothing is buffered.
pub flush_ooo-IsSettled : (c : Ctx) → IsSettled (flush_ooo c)
unfolding flush_ooo
flush_ooo-IsSettled c =
    run_loop_exit (λ _. Unit {0}) IsSettled (λ d. length d.half.out_of_order) flush_round
      (λ d _ more. (tt, (flush_round-Flushed d).smaller more))
      (λ d _ stop. (flush_round-Flushed d).stopped stop) (suc (length c.half.out_of_order)) c tt
      (omega arith)

-- A timer or the FIN leaves a settled half settled.
restart_gap_timer-IsSettled : (ts : ℕ) (c : Ctx) → IsSettled c → IsSettled (restart_gap_timer ts c)
unfolding restart_gap_timer
restart_gap_timer-IsSettled ts c s =
    option_cases IsSettled (first_key_value c.half.out_of_order) (λ _. s)
      λ e _.
        if_cases IsSettled (ahead_of c.half.next_abs e.0) (λ _. record { delivered = s.delivered })
          (λ _. s)

consume_fin-IsSettled : (c : Ctx) → IsSettled c → IsSettled (consume_fin_if_ready c)
consume_fin-IsSettled c s = consume_fin_cases IsSettled c s (λ _. record { delivered = refl })

give_up_gap-IsSettled : (ts first : ℕ) (c : Ctx) → IsSettled (give_up_gap ts first c)
unfolding give_up_gap
give_up_gap-IsSettled ts first c =
    restart_gap_timer-IsSettled ts (set_gap_timer none (flush_ooo (emit_gap_to first c)))
      (record { delivered = (flush_ooo-IsSettled (emit_gap_to first c)).delivered })

recover_ooo_timeout-IsSettled :
    (max_age ts : ℕ) (c : Ctx) → IsSettled (recover_ooo_timeout max_age ts c)
unfolding recover_ooo_timeout
recover_ooo_timeout-IsSettled max_age ts c =
    option_cases IsSettled c.half.next_abs (λ e. ground arith)
      λ n e.
        option_cases IsSettled (first_key_value c.half.out_of_order) (λ f. ground arith)
          λ s f.
            if_cases IsSettled (leb s.0 n) (λ _. flush_ooo-IsSettled (set_gap_timer none c))
              λ behind.
                option_cases IsSettled c.half.gap_started_ts_ns (λ _. ground arith)
                  λ started _.
                    if_cases IsSettled (ltb (saturating_sub ts started) max_age) (λ _. ground arith)
                      (λ _. give_up_gap-IsSettled ts s.0 c)

finish-IsSettled :
    (gap_timeout ts : ℕ) (c : Ctx)
    → IsSettled (consume_fin_if_ready (recover_ooo_timeout gap_timeout ts c))
finish-IsSettled gap_timeout ts c =
    consume_fin-IsSettled (recover_ooo_timeout gap_timeout ts c)
      (recover_ooo_timeout-IsSettled gap_timeout ts c)

settle-IsSettled : (gap_timeout ts : ℕ) (c : Ctx) → IsSettled (settle gap_timeout ts c)
unfolding settle
settle-IsSettled gap_timeout ts c =
    finish-IsSettled gap_timeout ts
      (if is_some c.half.pending_fin && not c.half.fin_consumed then recover_known_ack c else c)

accept_open-IsSettled :
    (start : ℕ) (fin : Bool) (ts : ℕ) (bytes : Bytes)
    (max_ooo max_segments gap_timeout expected : ℕ) (h : TcpHalf)
    → IsSettled (accept_open start fin ts bytes max_ooo max_segments gap_timeout expected h)
unfolding accept_open
accept_open-IsSettled start fin ts bytes max_ooo max_segments gap_timeout expected h =
    let clipped =
      clip_to_fin start (saturating_add start (length bytes)) bytes
        (fresh_ctx (mark_fin fin start (saturating_add start (length bytes)) expected h)) in
    settle-IsSettled gap_timeout ts
      (accept_payload start expected ts clipped.0 max_ooo max_segments clipped.1)

-- After `accept`, for any segment and any half, either the FIN was consumed or every buffered byte
-- lies behind the expected position: nothing that could be delivered is held back.
pub accept-IsSettled :
    (h : TcpHalf) (seq : ℕ) (syn fin : Bool) (ts : ℕ) (bytes : Bytes)
    (max_ooo max_segments gap_timeout : ℕ)
    → IsSettled (accept h seq syn fin ts bytes max_ooo max_segments gap_timeout)
unfolding accept
accept-IsSettled h seq syn fin ts bytes max_ooo max_segments gap_timeout =
    if_cases IsSettled (observe h seq syn).fin_consumed (λ closed. ground arith)
      λ opened.
        option_cases IsSettled (observe h seq syn).next_abs (λ e. ground arith)
          λ expected e.
            accept_open-IsSettled (extend_seq (wrapping_add32 seq (syn_len syn)) expected) fin ts
              bytes max_ooo max_segments gap_timeout expected (observe h seq syn)

-- An ACK for a half that buffers nothing and waits for no FIN leaves nothing to deliver.
quiet-IsSettled :
    (h : TcpHalf)
    → (is_empty h.out_of_order && not (is_some h.pending_fin)) ≡ true
    → IsSettled (fresh_ctx h)
quiet-IsSettled h quiet = ground arith

-- After `acknowledge`, for any ACK and any half, either the FIN was consumed or every buffered byte
-- lies behind the expected position.
pub acknowledge-IsSettled :
    (h : TcpHalf) (ack ts gap_timeout : ℕ) → IsSettled (acknowledge h ack ts gap_timeout)
unfolding acknowledge
acknowledge-IsSettled h ack ts gap_timeout =
    option_cases IsSettled h.next_abs (λ e. ground arith)
      λ expected e.
        if_cases IsSettled
          (is_empty (noted expected).out_of_order && not (is_some (noted expected).pending_fin))
          (λ quiet. quiet-IsSettled (noted expected) quiet)
          (λ _. finish-IsSettled gap_timeout ts (recover_known_ack (fresh_ctx (noted expected))))
  where
    noted : ℕ → TcpHalf
    noted expected = note_ack (extend_seq ack expected) expected h
