-- ===== src/Reassembly/Half.antt =====
-- `TcpHalf` in flow/reassembly.rs: observation, emission, gaps, the FIN and the flush of what is
-- buffered. Each `&mut self` method that also takes `out` maps a `Ctx` to a `Ctx`.
use bazalt.Prelude.{
  ℕ, suc, ◌+◌, ◌-◌, Bool, true, false, not, ◌&&◌, none, some, [], ◌∷◌, ◌++◌, length, is_empty, drop,
  ltb, leb, ◌==◌, if◌then◌else◌, is_some, min, saturating_add, saturating_sub, wrapping_add32,
  run_loop,
}
use bazalt.BTreeMap.{first_key_value, remove}
use bazalt.Reassembly.Types.{Bytes, BufferedSegment, TcpHalf, Ctx, initial_seq_epoch, extend_seq}

-- `u32::from(syn)`
abbrev pub syn_len : Bool → ℕ
syn_len true = 1
syn_len false = 0

unfoldable pub observe : TcpHalf → ℕ → Bool → TcpHalf
observe h seq syn = record h {
  next_abs = elim h.next_abs [
    | none ↦ some (initial_seq_epoch + wrapping_add32 seq (syn_len syn))
    | some n ↦ some n
  ];
  initial_syn_seq = if syn && not (is_some h.initial_syn_seq) then some seq else h.initial_syn_seq;
}

unfoldable pub is_initialized : TcpHalf → Bool
is_initialized h = is_some h.next_abs

unfoldable pub rst_matches_next : TcpHalf → ℕ → Bool
rst_matches_next h seq = elim h.next_abs [
  | none ↦ true
  | some expected ↦ extend_seq seq expected == expected
]

unfoldable pub reserve_udp_offset : TcpHalf → ℕ → TcpHalf × ℕ
reserve_udp_offset h len =
    (record h { stream_offset = saturating_add h.stream_offset len }, h.stream_offset)

abbrev pub set_retransmit : Ctx → Ctx
set_retransmit c = record { half = c.half; out = record (c.out) { retransmit = true } }

-- `self.peer_ack_abs.is_some_and(|ack| ack > fin)`
abbrev pub fin_acked : TcpHalf → ℕ → Bool
fin_acked h fin = elim h.peer_ack_abs [ none ↦ false | some ack ↦ ltb fin ack ]

-- The branch of `consume_fin_if_ready` that closes the half at `next`.
abbrev pub close_half : ℕ → Ctx → Ctx
close_half next c = record {
  half = record (c.half) {
    next_abs = some next;
    fin_consumed = true;
    pending_fin_requires_ack = false;
    out_of_order = [];
    out_of_order_bytes = 0;
    gap_started_ts_ns = none;
  };
  out = record (c.out) { fin_consumed = true };
}

-- `consume_fin_if_ready` at a marker and an initialised sequence position.
abbrev pub consume_fin_at : ℕ → ℕ → Ctx → Ctx
consume_fin_at fin next c =
    if leb fin next
    then (if fin == next
        then (if c.half.pending_fin_requires_ack && not (fin_acked c.half fin)
            then c
            else close_half (saturating_add next 1) c)
        else close_half next c)
    else c

unfoldable pub consume_fin_if_ready : Ctx → Ctx
consume_fin_if_ready c = if c.half.fin_consumed then c else elim c.half.pending_fin [
  | none ↦ c
  | some fin ↦ elim c.half.next_abs [ none ↦ c | some next ↦ consume_fin_at fin next c ]
]

-- The state that `emit` leaves before it looks for a FIN. `next_abs` is initialised wherever the
-- code calls it.
abbrev pub push_chunk : Bytes → ℕ → Ctx → Ctx
push_chunk bytes ts c = record {
  half = record (c.half) {
    stream_offset = saturating_add c.half.stream_offset (length bytes);
    next_abs = elim c.half.next_abs [
      | none ↦ none
      | some next ↦ some (saturating_add next (length bytes))
    ];
  };
  out = record (c.out) {
    emitted =
        c.out.emitted ++ record { offset = c.half.stream_offset; ts_ns = ts; bytes = bytes } ∷ [];
  };
}

unfoldable pub emit : Bytes → ℕ → Ctx → Ctx
unfolding consume_fin_if_ready
emit bytes ts c = if is_empty bytes then c else consume_fin_if_ready (push_chunk bytes ts c)

-- The state that `emit_gap_to` leaves before it looks for a FIN.
abbrev pub push_gap : ℕ → ℕ → Ctx → Ctx
push_gap target expected c = record {
  half = record (c.half) {
    stream_offset = saturating_add c.half.stream_offset (target - expected);
    next_abs = some target;
  };
  out = record (c.out) {
    gaps = c.out.gaps ++ record { offset = c.half.stream_offset; len = target - expected } ∷ [];
  };
}

-- A gap never crosses a FIN marker.
abbrev pub gap_target : TcpHalf → ℕ → ℕ
gap_target h target = elim h.pending_fin [ none ↦ target | some fin ↦ min target fin ]

unfoldable pub emit_gap_to : ℕ → Ctx → Ctx
unfolding consume_fin_if_ready
emit_gap_to target c = elim c.half.next_abs [
  | none ↦ c
  | some expected ↦
      if leb (gap_target c.half target) expected
      then c
      else consume_fin_if_ready (push_gap (gap_target c.half target) expected c)
]

-- Takes the segment at `key` out of the buffer.
unfoldable pub remove_segment : ℕ → BufferedSegment → Ctx → Ctx
unfolding remove
remove_segment key seg c = record {
  half = record (c.half) {
    out_of_order = remove key c.half.out_of_order;
    out_of_order_bytes = saturating_sub c.half.out_of_order_bytes (length seg.bytes);
  };
  out = c.out;
}

-- Emits what a removed segment holds from `expected` on.
unfoldable pub emit_segment : ℕ → ℕ → BufferedSegment → Ctx → Ctx
unfolding emit
emit_segment expected key seg c =
    if ltb key expected
    then (if leb (length seg.bytes) (saturating_sub expected key)
        then c
        else emit (drop (saturating_sub expected key) seg.bytes) seg.ts_ns c)
    else emit seg.bytes seg.ts_ns c

-- One round of the loop of `flush_ooo`.
unfoldable pub flush_round : Ctx → Ctx × Bool
unfolding remove_segment emit_segment
flush_round c = if c.half.fin_consumed then (c, false) else elim c.half.next_abs [
  | none ↦ (c, false)
  | some expected ↦ elim (first_key_value c.half.out_of_order) [
    | none ↦ (c, false)
    | some e ↦
        if ltb expected e.0
        then (c, false)
        else (emit_segment expected e.0 e.1 (remove_segment e.0 e.1 c), true)
  ]
]

-- A round that asks for another removes a segment, so one round more than there are segments is
-- enough.
unfoldable pub flush_ooo : Ctx → Ctx
flush_ooo c = run_loop (suc (length c.half.out_of_order)) flush_round c
