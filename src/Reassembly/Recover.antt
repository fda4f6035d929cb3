-- ===== src/Reassembly/Recover.antt =====
-- Recovery from capture gaps in flow/reassembly.rs: by a cumulative ACK, by age, by memory pressure,
-- and at the close of a flow.
use bazalt.Prelude.{
  ℕ, suc, Bool, true, false, not, ◌&&◌, ◌||◌, Option, none, some, length, ltb, leb, ◌==◌,
  if◌then◌else◌, min, saturating_sub, run_loop,
}
use bazalt.BTreeMap.{first_key_value}
use bazalt.Reassembly.Types.{TcpHalf, Ctx, fresh_ctx}
use bazalt.Reassembly.Half.{emit_gap_to, flush_ooo, consume_fin_if_ready}

-- `first > expected`, for the buffer's first key and an initialised position.
abbrev pub ahead_of : Option ℕ → ℕ → Bool
ahead_of none first = false
ahead_of (some expected) first = ltb expected first

-- `self.next_abs.expect("initialized") >= bound`
abbrev pub reaches : Option ℕ → ℕ → Bool
reaches none bound = false
reaches (some next) bound = leb bound next

-- `self.next_abs == before`
abbrev pub same_position : Option ℕ → Option ℕ → Bool
same_position none none = true
same_position none (some b) = false
same_position (some a) none = false
same_position (some a) (some b) = a == b

abbrev pub no_progress : Ctx → Ctx → Bool
no_progress before after =
    same_position after.half.next_abs before.half.next_abs
    && after.half.out_of_order_bytes == before.half.out_of_order_bytes

-- The rest of a round of the recovery loops: flush, and go on if that brought the half forward.
unfoldable pub flush_and_check : Ctx → Ctx × Bool
flush_and_check c = let c' = flush_ooo c in (c', not c'.half.fin_consumed && not (no_progress c c'))

-- No payload is buffered, but the peer acknowledged bytes beyond a FIN that was seen.
unfoldable pub recover_acked_fin : ℕ → ℕ → Ctx → Ctx
recover_acked_fin ack expected c = elim c.half.pending_fin [
  | none ↦ c
  | some fin ↦
      if ltb expected fin && ltb fin ack then consume_fin_if_ready (emit_gap_to fin c) else c
]

-- The gap before the first buffered byte, up to what `ack` covers, then the flush.
unfoldable pub recover_acked_gap : ℕ → ℕ → ℕ → Ctx → Ctx × Bool
recover_acked_gap ack expected first c =
    let c' = if ltb expected first then emit_gap_to (min first ack) c else c in
    if reaches c'.half.next_abs ack then (c', false) else flush_and_check c'

-- One round of the loop of `recover_known_ack`.
unfoldable pub known_ack_round : ℕ → Ctx → Ctx × Bool
known_ack_round ack c = elim c.half.next_abs [
  | none ↦ (c, false)
  | some expected ↦
      if leb ack expected then (c, false) else elim (first_key_value c.half.out_of_order) [
        | none ↦ (recover_acked_fin ack expected c, false)
        | some e ↦ recover_acked_gap ack expected e.0 c
      ]
]

-- A round that asks for another has flushed a segment.
unfoldable pub recover_known_ack : Ctx → Ctx
recover_known_ack c = elim c.half.peer_ack_abs [
  | none ↦ c
  | some ack ↦ run_loop (suc (suc (length c.half.out_of_order))) (known_ack_round ack) c
]

abbrev pub set_gap_timer : Option ℕ → Ctx → Ctx
set_gap_timer t c = record { half = record (c.half) { gap_started_ts_ns = t }; out = c.out }

-- A new window for a hole that the flush exposed.
unfoldable pub restart_gap_timer : ℕ → Ctx → Ctx
restart_gap_timer ts c = elim (first_key_value c.half.out_of_order) [
  | none ↦ c
  | some e ↦ if ahead_of c.half.next_abs e.0 then set_gap_timer (some ts) c else c
]

-- The branch of `recover_ooo_timeout` at which the hole is old enough.
unfoldable pub give_up_gap : ℕ → ℕ → Ctx → Ctx
give_up_gap ts first c = restart_gap_timer ts (set_gap_timer none (flush_ooo (emit_gap_to first c)))

unfoldable pub recover_ooo_timeout : ℕ → ℕ → Ctx → Ctx
recover_ooo_timeout max_age ts c = elim c.half.next_abs [
  | none ↦ set_gap_timer none c
  | some expected ↦ elim (first_key_value c.half.out_of_order) [
    | none ↦ set_gap_timer none c
    | some e ↦
        if leb e.0 expected
        then flush_ooo (set_gap_timer none c)
        else elim c.half.gap_started_ts_ns [
          | none ↦ set_gap_timer (some ts) c
          | some started ↦
              if ltb (saturating_sub ts started) max_age then c else give_up_gap ts e.0 c
        ]
  ]
]

-- The buffer is over one of its limits.
abbrev pub over_limits : ℕ → ℕ → TcpHalf → Bool
over_limits max_ooo max_segments h =
    ltb max_ooo h.out_of_order_bytes || ltb max_segments (length h.out_of_order)

abbrev pub skip_gap : ℕ → Ctx → Ctx
skip_gap first c = if ahead_of c.half.next_abs first then emit_gap_to first c else c

unfoldable pub pressure_round : ℕ → ℕ → Ctx → Ctx × Bool
pressure_round max_ooo max_segments c =
    if over_limits max_ooo max_segments c.half
    then (elim (first_key_value c.half.out_of_order) [
      | none ↦ (c, false)
      | some e ↦
          let before = skip_gap e.0 c in
          let after = flush_ooo before in
          (
            after,
            not (
                after.half.fin_consumed
                || leb before.half.out_of_order_bytes after.half.out_of_order_bytes),
          )
    ])
    else (c, false)

-- A round that asks for another has lowered the number of buffered bytes.
unfoldable pub recover_ooo_pressure : ℕ → ℕ → Ctx → Ctx
recover_ooo_pressure max_ooo max_segments c =
    run_loop (suc c.half.out_of_order_bytes) (pressure_round max_ooo max_segments) c

unfoldable pub finalize_round : Ctx → Ctx × Bool
finalize_round c = elim c.half.next_abs [
  | none ↦ (c, false)
  | some expected ↦ elim (first_key_value c.half.out_of_order) [
    | none ↦ (c, false)
    | some e ↦ flush_and_check (if ltb expected e.0 then emit_gap_to e.0 c else c)
  ]
]

unfoldable pub finalize : TcpHalf → Ctx
finalize h = set_gap_timer none (
    consume_fin_if_ready
      (run_loop (suc (suc (length h.out_of_order))) finalize_round (fresh_ctx h)))
