-- ===== src/Reassembly/Tests.antt =====
-- Unit tests of flow/reassembly.rs as evaluations, and the theorems at concrete inputs.
use bazalt.Prelude.{
  ℕ, ◌+◌, ◌-◌, ◌%◌, ◌^◌, ◌≤◌, ◌<◌, ◌↔◌, ◌⊎◌, false≢true, ◌≡◌, refl, Bool, true, false, none, some,
  List, [], ◌∷◌, map, run_loop, arith,
}
use bazalt.BTreeMap.{insert, remove, last_le, first_ge, first_in}
use bazalt.Reassembly.Types.{
  Bytes, BufferedSegment, TcpHalf, Ctx, default_half, fresh_ctx, extend_seq,
}
use bazalt.Reassembly.Half.{
  observe, consume_fin_if_ready, emit, emit_gap_to, remove_segment, emit_segment, flush_round,
  flush_ooo, rst_matches_next,
}
use bazalt.Reassembly.Insert.{
  covered_to, piece_end, store_piece, skip_next, insert_piece, insert_round, insert_ooo_first_seen,
}
use bazalt.Reassembly.Recover.{
  flush_and_check, recover_acked_fin, recover_acked_gap, known_ack_round, recover_known_ack,
  restart_gap_timer, give_up_gap, recover_ooo_timeout, pressure_round, recover_ooo_pressure,
  finalize, set_gap_timer,
}
use bazalt.Reassembly.Accept.{
  mark_fin, clip_to_fin, relieve, accept_ahead, accept_in_order, accept_payload, settle,
  accept_open, accept, acknowledge,
}
use bazalt.Reassembly.FirstSeen.{FirstSeen, insert_ooo_first_seen-FirstSeen}
use bazalt.Reassembly.Tiling.{IsTiled, accept-IsTiled, recover-IsTiled}
use bazalt.Reassembly.Valid.{IsValid, accept-IsValid, recover-IsValid}
use bazalt.Reassembly.Settled.{IsSettled, accept-IsSettled, acknowledge-IsSettled}
use bazalt.Reassembly.Sequence.{extend_seq_low_bits, extend_seq_near, rst_matches_next_iff}
use bazalt.Reassembly.Pressure.{IsRelieved, recover_ooo_pressure-IsRelieved}
use bazalt.Reassembly.Finalize.{HasTentativeFin, finalize_drains, finalize_stops_at_tentative_fin}
use bazalt.Reassembly.InOrder.{IsQuiet, chunk_at, accept_new_tail, accept_repeats_retransmission}

-- `accept` of a segment without flags, with all that it calls.
run_accept : TcpHalf → ℕ → Bool → ℕ → Bytes → ℕ → Ctx
unfolding accept observe extend_seq accept_open mark_fin clip_to_fin accept_payload accept_ahead
    accept_in_order relieve settle insert_ooo_first_seen insert_round insert_piece skip_next
    store_piece piece_end covered_to emit emit_gap_to consume_fin_if_ready flush_ooo flush_round
    remove_segment emit_segment run_loop recover_known_ack known_ack_round recover_acked_fin
    recover_acked_gap flush_and_check recover_ooo_timeout give_up_gap restart_gap_timer
    recover_ooo_pressure pressure_round insert remove last_le first_ge first_in
run_accept h seq fin ts bytes gap_timeout = accept h seq false fin ts bytes 1024 128 gap_timeout

feed : TcpHalf → ℕ → ℕ → Bytes → Ctx
unfolding run_accept
feed h seq ts bytes = run_accept h seq false ts bytes 1000000000

abbrev payloads : Ctx → List Bytes
payloads c = map (λ e. e.bytes) c.out.emitted

-- `reassembles_out_of_order_and_preserves_timestamp`
reorders :
    payloads (
      feed
        (feed (feed default_half 100 1 (1 ∷ 2 ∷ [])).half 104 2 (5 ∷ 6 ∷ [])).half
        102
        3
        (3 ∷ 4 ∷ []))
    ≡ (3 ∷ 4 ∷ []) ∷ (5 ∷ 6 ∷ []) ∷ []
unfolding feed
reorders = refl

-- `conflicting_ooo_overlap_is_first_seen_wins`
first_seen_wins :
    payloads (
      feed
        (feed
          (feed (observe default_half 100 false) 104 1 (4 ∷ 4 ∷ [])).half
          102
          2
          (3 ∷ 3 ∷ 9 ∷ 9 ∷ [])).half
        100
        3
        (1 ∷ 2 ∷ []))
    ≡ (1 ∷ 2 ∷ []) ∷ (3 ∷ 3 ∷ []) ∷ (4 ∷ 4 ∷ []) ∷ []
unfolding feed
first_seen_wins = refl

-- `bridging_in_order_segment_cannot_overwrite_first_seen_ooo_bytes`
bridged :
    payloads (
      feed
        (feed (observe default_half 100 false) 102 1 (3 ∷ 3 ∷ [])).half
        100
        2
        (1 ∷ 2 ∷ 9 ∷ 9 ∷ 5 ∷ []))
    ≡ (1 ∷ 2 ∷ []) ∷ (3 ∷ 3 ∷ []) ∷ (5 ∷ []) ∷ []
unfolding feed
bridged = refl

-- Two bytes at the start of the stream, and a segment that is buffered behind a hole of two.
-- The position is 2^32 + 102.
opened : TcpHalf
unfolding feed
opened = (feed default_half 100 1 (1 ∷ 2 ∷ [])).half

opened-IsQuiet : IsQuiet opened (2 ^ 32 + 102)
unfolding opened
opened-IsQuiet = record { opened = refl; position = refl; unbuffered = refl; no_fin = refl }

-- A segment is buffered behind a hole of four bytes.
holed : TcpHalf
unfolding opened
holed = (feed opened 106 2 (5 ∷ 6 ∷ [])).half

holed-IsValid : IsValid holed
unfolding holed
holed-IsValid = record {
  spaced = omega arith;
  counted = refl;
  drained = λ closed. absurd (false≢true closed);
  started = λ idle. absurd (ground arith);
}

-- A FIN arrives inside the hole, and then the hole is given up.
stopped : TcpHalf
unfolding holed
stopped = (run_accept holed 104 true 3 [] 0).half

abbrev kept : ℕ × BufferedSegment
kept = (2 ^ 32 + 106, record { bytes = 5 ∷ 6 ∷ []; ts_ns = 2 })

accept-IsTiled_example : IsTiled holed.stream_offset (run_accept holed 102 false 3 (3 ∷ 4 ∷ []) 5)
unfolding run_accept
accept-IsTiled_example = accept-IsTiled holed 102 false false 3 (3 ∷ 4 ∷ []) 1024 128 5

insert_ooo_first_seen-FirstSeen_example :
    FirstSeen holed.out_of_order
      (2 ^ 32 + 104)
      (4 ∷ 4 ∷ 9 ∷ 9 ∷ 7 ∷ [])
      (insert_ooo_first_seen
        (2 ^ 32 + 104)
        3
        (4 ∷ 4 ∷ 9 ∷ 9 ∷ 7 ∷ [])
        (fresh_ctx holed)).half.out_of_order
insert_ooo_first_seen-FirstSeen_example =
    insert_ooo_first_seen-FirstSeen (2 ^ 32 + 104) 3 (4 ∷ 4 ∷ 9 ∷ 9 ∷ 7 ∷ []) (fresh_ctx holed)
      holed-IsValid.spaced (omega arith)

accept-IsValid_example : IsValid (run_accept holed 102 true 3 (3 ∷ 4 ∷ []) 5).half
unfolding run_accept
accept-IsValid_example = accept-IsValid holed 102 false true 3 (3 ∷ 4 ∷ []) 1024 128 5 holed-IsValid

accept-IsSettled_example : IsSettled (run_accept holed 102 true 3 (3 ∷ 4 ∷ []) 5)
unfolding run_accept
accept-IsSettled_example = accept-IsSettled holed 102 false true 3 (3 ∷ 4 ∷ []) 1024 128 5

recover_ooo_pressure-IsRelieved_example :
    IsRelieved 1 128 (recover_ooo_pressure 1 128 (fresh_ctx holed))
recover_ooo_pressure-IsRelieved_example =
    recover_ooo_pressure-IsRelieved 1 128 (fresh_ctx holed) holed-IsValid

accept_new_tail_example : (feed opened 101 2 (2 ∷ 3 ∷ [])).out.emitted ≡ chunk_at 2 2 (3 ∷ []) ∷ []
unfolding feed opened
accept_new_tail_example =
    (accept_new_tail opened 101 2 (2 ∷ 3 ∷ []) 1024 128 1000000000 (2 ^ 32 + 102) (2 ^ 32 + 101)
      opened-IsQuiet refl (omega arith) (omega arith) (omega arith) (omega arith)).0

accept_repeats_retransmission_example :
    (feed opened 100 2 (1 ∷ 2 ∷ [])).half.next_abs ≡ some (2 ^ 32 + 104)
unfolding feed
accept_repeats_retransmission_example =
    (accept_repeats_retransmission opened 100 2 (1 ∷ 2 ∷ []) 1024 128 1000000000 (2 ^ 32 + 102)
      (2 ^ 32 + 100) opened-IsQuiet (omega arith) refl (omega arith) (omega arith)).2

finalize_drains_example :
    ((finalize holed).half.out_of_order ≡ [])
    ⊎ ((fin : ℕ) × HasTentativeFin (finalize holed).half fin)
finalize_drains_example = finalize_drains holed holed-IsValid

finalize_stops_at_tentative_fin_example : finalize stopped ≡ set_gap_timer none (fresh_ctx stopped)
unfolding stopped
finalize_stops_at_tentative_fin_example =
    finalize_stops_at_tentative_fin stopped (2 ^ 32 + 104) kept refl refl (omega arith)
      (record { marker = refl; position = refl; tentative = refl; unconfirmed = refl })

extend_seq_low_bits_example : extend_seq 5 (2 ^ 33 - 10) ≡ 2 ^ 33 + 5
extend_seq_low_bits_example =
    extend_seq_low_bits (2 ^ 33 + 5) (2 ^ 33 - 10) (omega arith) (omega arith) (omega arith)

extend_seq_near_example :
    (extend_seq 5 (2 ^ 33 - 10) % 2 ^ 32 ≡ 5)
    × (2 ^ 33 - 10 ≤ extend_seq 5 (2 ^ 33 - 10) + 2 ^ 31)
    × (extend_seq 5 (2 ^ 33 - 10) < 2 ^ 33 - 10 + 2 ^ 31)
extend_seq_near_example = extend_seq_near 5 (2 ^ 33 - 10) (omega arith) (omega arith) (omega arith)

rst_matches_next_iff_example :
    (rst_matches_next opened 102 ≡ true) ↔ ((2 ^ 32 + 102) % 2 ^ 32 ≡ 102)
rst_matches_next_iff_example =
    rst_matches_next_iff opened 102 (2 ^ 32 + 102) opened-IsQuiet.position (omega arith)
      (omega arith) (omega arith)

recover-IsTiled_example :
    IsTiled holed.stream_offset (acknowledge holed 104 3 5)
    × IsTiled holed.stream_offset (finalize holed)
recover-IsTiled_example = recover-IsTiled holed 104 3 5

recover-IsValid_example : IsValid (acknowledge holed 104 3 5).half × IsValid (finalize holed).half
recover-IsValid_example = recover-IsValid holed 104 3 5 holed-IsValid

acknowledge-IsSettled_example : IsSettled (acknowledge holed 104 3 5)
acknowledge-IsSettled_example = acknowledge-IsSettled holed 104 3 5
