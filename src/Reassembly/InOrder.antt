-- ===== src/Reassembly/InOrder.antt =====
-- The fast path of `accept` in flow/reassembly.rs: payload that starts at or before the expected
-- position of a half that buffers nothing and waits for no FIN.
use bazalt.Prelude.{
  ℕ, ◌+◌, ◌-◌, ◌≤◌, ◌<◌, ◌≡◌, refl, ap, ◌∙◌, true, false, none, some, [], ◌∷◌, length, drop,
  length-drop, if_cases, option_cases, is_empty, ltb, if◌then◌else◌, u64_max, saturating_add,
  wrapping_add32, arith,
}
use bazalt.Reassembly.Types.{Bytes, ReassembledChunk, TcpHalf, Ctx, fresh_ctx, extend_seq}
use bazalt.Reassembly.Half.{observe, consume_fin_if_ready, emit, push_chunk, set_retransmit}
use bazalt.Reassembly.Recover.{recover_ooo_timeout, set_gap_timer}
use bazalt.Reassembly.Accept.{
  mark_fin, clip_to_fin, cut_off, accept_in_order, accept_payload, settle, accept_open, accept,
}

-- Nothing is buffered, no FIN is pending, and the position is known.
pub record IsQuiet (h : TcpHalf) (n : ℕ) : Type 0 where
  pub opened : h.fin_consumed ≡ false
  pub position : h.next_abs ≡ some n
  pub unbuffered : h.out_of_order ≡ []
  pub no_fin : h.pending_fin ≡ none

settle_quiet :
    (gap_timeout ts n : ℕ) (c : Ctx)
    → IsQuiet c.half n
    → settle gap_timeout ts c ≡ set_gap_timer none c
unfolding settle recover_ooo_timeout consume_fin_if_ready
settle_quiet gap_timeout ts n c q = ground arith

emit_quiet :
    (bytes : Bytes) (ts n : ℕ) (c : Ctx)
    → IsQuiet c.half n
    → 0 < length bytes
    → emit bytes ts c ≡ push_chunk bytes ts c
unfolding emit consume_fin_if_ready
emit_quiet [] ts n c q h = absurd (omega arith)
emit_quiet (b ∷ bytes) ts n c q h = ground arith

-- `accept` cuts off less than it was given.
left_over :
    (start n : ℕ) (bytes : Bytes)
    → 0 < length bytes
    → 0 < length (drop (cut_off start n (length bytes)) bytes)
left_over start n bytes h = ground (arith, length-drop (cut_off start n (length bytes)) bytes)

marked : ℕ → ℕ → Ctx → Ctx
marked start n c = if ltb start n then set_retransmit c else c

marked-IsQuiet : (start n : ℕ) (c : Ctx) → IsQuiet c.half n → IsQuiet (marked start n c).half n
unfolding marked
marked-IsQuiet start n c q =
    if_cases (λ (d : Ctx). IsQuiet d.half n) (ltb start n) (λ _. q) (λ _. q)

accept_in_order_quiet :
    (start n ts : ℕ) (bytes : Bytes) (max_ooo max_segments : ℕ) (c : Ctx)
    → IsQuiet c.half n
    → 0 < length bytes
    → accept_in_order start n ts bytes max_ooo max_segments c
      ≡ push_chunk (drop (cut_off start n (length bytes)) bytes) ts (marked start n c)
unfolding accept_in_order marked
accept_in_order_quiet start n ts bytes max_ooo max_segments c q h =
    if_cases
      (λ d. d ≡ push_chunk (drop (cut_off start n (length bytes)) bytes) ts (marked start n c))
      (is_empty (marked start n c).half.out_of_order)
      (λ _.
        emit_quiet (drop (cut_off start n (length bytes)) bytes) ts n (marked start n c)
          (marked-IsQuiet start n c q) (left_over start n bytes h))
      (λ full. absurd (ground (arith, (marked-IsQuiet start n c q).unbuffered)))

push_chunk-IsQuiet :
    (bytes : Bytes) (ts n : ℕ) (c : Ctx)
    → IsQuiet c.half n
    → IsQuiet (push_chunk bytes ts c).half (saturating_add n (length bytes))
push_chunk-IsQuiet bytes ts n c q = record {
  opened = q.opened;
  position = rw q.position refl;
  unbuffered = q.unbuffered;
  no_fin = q.no_fin;
}

-- What `accept` makes of the payload on the fast path.
abbrev delivered : ℕ → ℕ → ℕ → Bytes → TcpHalf → Ctx
delivered start n ts bytes h =
    set_gap_timer none
      (push_chunk (drop (cut_off start n (length bytes)) bytes) ts (marked start n (fresh_ctx h)))

clip_quiet :
    (start end n : ℕ) (bytes : Bytes) (c : Ctx)
    → IsQuiet c.half n
    → clip_to_fin start end bytes c ≡ (bytes, c)
unfolding clip_to_fin
clip_quiet start end n bytes c q = ground arith

payload_quiet :
    (start n ts : ℕ) (bytes : Bytes) (max_ooo max_segments : ℕ) (c : Ctx)
    → IsQuiet c.half n
    → 0 < length bytes
    → start ≤ n
    → accept_payload start n ts bytes max_ooo max_segments c
      ≡ push_chunk (drop (cut_off start n (length bytes)) bytes) ts (marked start n c)
unfolding accept_payload
payload_quiet start n ts [] max_ooo max_segments c q h le = absurd (omega arith)
payload_quiet start n ts (b ∷ bytes) max_ooo max_segments c q h le =
    ground (arith, accept_in_order_quiet start n ts (b ∷ bytes) max_ooo max_segments c q h)

accept_open_quiet :
    (start ts : ℕ) (bytes : Bytes) (max_ooo max_segments gap_timeout n : ℕ) (h : TcpHalf)
    → IsQuiet h n
    → 0 < length bytes
    → start ≤ n
    → accept_open start false ts bytes max_ooo max_segments gap_timeout n h
      ≡ delivered start n ts bytes h
unfolding accept_open mark_fin
accept_open_quiet start ts bytes max_ooo max_segments gap_timeout n h q some_left le =
    rw
      (
        clip_quiet start (saturating_add start (length bytes)) n bytes (fresh_ctx h) q,
        payload_quiet start n ts bytes max_ooo max_segments (fresh_ctx h) q some_left le,
      )
      (settle_quiet gap_timeout ts
        (saturating_add n (length (drop (cut_off start n (length bytes)) bytes)))
        (push_chunk (drop (cut_off start n (length bytes)) bytes) ts (marked start n (fresh_ctx h)))
        (push_chunk-IsQuiet (drop (cut_off start n (length bytes)) bytes) ts n
          (marked start n (fresh_ctx h)) (marked-IsQuiet start n (fresh_ctx h) q)))

observe_known : (h : TcpHalf) (seq n : ℕ) → h.next_abs ≡ some n → observe h seq false ≡ h
unfolding observe
observe_known h seq n e = ground arith

accept_quiet :
    (h : TcpHalf) (seq ts : ℕ) (bytes : Bytes) (max_ooo max_segments gap_timeout n start : ℕ)
    → IsQuiet h n
    → 0 < length bytes
    → extend_seq (wrapping_add32 seq 0) n ≡ start
    → start ≤ n
    → accept h seq false false ts bytes max_ooo max_segments gap_timeout
      ≡ delivered start n ts bytes h
unfolding accept observe
accept_quiet h seq ts bytes max_ooo max_segments gap_timeout n start q some_left e le =
    if_cases (λ d. d ≡ delivered start n ts bytes h) h.fin_consumed
      (λ closed. absurd (ground (arith, q.opened)))
      λ _.
        option_cases (λ d. d ≡ delivered start n ts bytes h) (observe h seq false).next_abs
          (λ idle. absurd (ground (arith, q.position)))
          λ m at.
            let same : m ≡ n = ground (arith, q.position) in
            (λ i.
              accept_open (extend_seq (wrapping_add32 seq 0) (same i)) false ts bytes max_ooo
                max_segments gap_timeout (same i) (observe_known h seq n q.position i))
            ∙ ap (λ s. accept_open s false ts bytes max_ooo max_segments gap_timeout n h) e
            ∙ accept_open_quiet start ts bytes max_ooo max_segments gap_timeout n h q some_left le

-- The one chunk that `accept` reports.
abbrev pub chunk_at : ℕ → ℕ → Bytes → ReassembledChunk
chunk_at offset ts bytes = record { offset = offset; ts_ns = ts; bytes = bytes }

-- A segment without SYN and FIN that overlaps or meets the expected position of a quiet half and brings new
-- bytes: `accept`
-- reports exactly its bytes from that position on, at the half's stream offset, and no gap, and moves
-- the position to the segment's end and the offset by the new bytes, if neither reaches 2^64.
pub accept_new_tail :
    (h : TcpHalf) (seq ts : ℕ) (bytes : Bytes) (max_ooo max_segments gap_timeout n start : ℕ)
    → IsQuiet h n
    → extend_seq (wrapping_add32 seq 0) n ≡ start
    → start ≤ n
    → n < start + length bytes
    → start + length bytes ≤ u64_max
    → h.stream_offset + (start + length bytes - n) ≤ u64_max
    → let c = accept h seq false false ts bytes max_ooo max_segments gap_timeout in
      (c.out.emitted ≡ chunk_at h.stream_offset ts (drop (n - start) bytes) ∷ [])
      × (c.out.gaps ≡ [])
      × (c.half.next_abs ≡ some (start + length bytes))
      × (c.half.stream_offset ≡ h.stream_offset + (start + length bytes - n))
unfolding marked
accept_new_tail h seq ts bytes max_ooo max_segments gap_timeout n start q e le new fits room =
    let cut : cut_off start n (length bytes) ≡ n - start = ground arith in
    let size = length-drop (n - start) bytes in
    rw
      (
        accept_quiet h seq ts bytes max_ooo max_segments gap_timeout n start q (omega arith) e le,
        cut,
      )
      (ground arith, ground arith, ground (arith, size), ground (arith, size))

-- A whole retransmission: a segment without SYN and FIN that ends at or before the expected position of a quiet half and
-- starts before it. `accept` flags it as a retransmission, and yet reports all its bytes again as new
-- stream data, and moves the expected position on by their number.
pub accept_repeats_retransmission :
    (h : TcpHalf) (seq ts : ℕ) (bytes : Bytes) (max_ooo max_segments gap_timeout n start : ℕ)
    → IsQuiet h n
    → 0 < length bytes
    → extend_seq (wrapping_add32 seq 0) n ≡ start
    → start + length bytes ≤ n
    → n + length bytes ≤ u64_max
    → let c = accept h seq false false ts bytes max_ooo max_segments gap_timeout in
      (c.out.retransmit ≡ true)
      × (c.out.emitted ≡ chunk_at h.stream_offset ts bytes ∷ [])
      × (c.half.next_abs ≡ some (n + length bytes))
unfolding marked
accept_repeats_retransmission h seq ts bytes max_ooo max_segments gap_timeout n start q pos e old
      fits =
    let cut : cut_off start n (length bytes) ≡ 0 = ground arith in
    rw
      (
        accept_quiet h seq ts bytes max_ooo max_segments gap_timeout n start q pos e (omega arith),
        cut,
      )
      (ground arith, ground arith, ground arith)
