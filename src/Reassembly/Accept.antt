-- ===== src/Reassembly/Accept.antt =====
-- `TcpHalf::accept` and `TcpHalf::acknowledge` in flow/reassembly.rs.
use bazalt.Prelude.{
  ℕ, ◌-◌, Bool, true, false, not, ◌&&◌, none, some, [], length, is_empty, take, drop, ltb, leb,
  ◌==◌, if◌then◌else◌, is_some, saturating_add, saturating_sub, wrapping_add32,
}
use bazalt.Reassembly.Types.{Bytes, TcpHalf, Ctx, default_outcome, fresh_ctx, extend_seq}
use bazalt.Reassembly.Half.{
  syn_len, observe, set_retransmit, fin_acked, consume_fin_if_ready, emit, flush_ooo,
}
use bazalt.Reassembly.Insert.{insert_ooo_first_seen}
use bazalt.Reassembly.Recover.{recover_known_ack, recover_ooo_timeout, recover_ooo_pressure}

-- The FIN branch of `accept`: a marker for the position behind the payload.
unfoldable pub mark_fin : Bool → ℕ → ℕ → ℕ → TcpHalf → TcpHalf
mark_fin fin start end expected h =
    if fin && leb expected end
    then elim h.pending_fin [
      | none ↦ record h { pending_fin = some end; pending_fin_requires_ack = ltb expected start }
      | some existing ↦
          if existing == end && leb start expected
          then record h { pending_fin_requires_ack = false }
          else if h.pending_fin_requires_ack && leb start expected
          then record h { pending_fin = some end; pending_fin_requires_ack = false }
          else h
    ]
    else h

abbrev pub forget_fin : Ctx → Ctx
forget_fin c = record {
  half = record (c.half) { pending_fin = none; pending_fin_requires_ack = false };
  out = c.out;
}

-- The payload as far as the FIN marker lets it through; a tentative marker gives way to it.
unfoldable pub clip_to_fin : ℕ → ℕ → Bytes → Ctx → Bytes × Ctx
clip_to_fin start end bytes c = elim c.half.pending_fin [
  | none ↦ (bytes, c)
  | some fin ↦
      if ltb fin end
      then (if c.half.pending_fin_requires_ack && not (fin_acked c.half fin)
          then (bytes, forget_fin c)
          else if leb fin start
          then ([], if is_empty bytes then c else set_retransmit c)
          else (take (fin - start) bytes, set_retransmit c))
      else (bytes, c)
]

-- `recover_known_ack`, then `recover_ooo_pressure`.
unfoldable pub relieve : ℕ → ℕ → Ctx → Ctx
relieve max_ooo max_segments c = recover_ooo_pressure max_ooo max_segments (recover_known_ack c)

-- Payload that starts behind the expected position.
unfoldable pub accept_ahead : ℕ → ℕ → Bytes → ℕ → ℕ → Ctx → Ctx
accept_ahead start ts bytes max_ooo max_segments c = relieve max_ooo max_segments (
    insert_ooo_first_seen start ts bytes
      (record { half = c.half; out = record (c.out) { out_of_order = true } }))

-- How many bytes `accept` cuts off a payload that starts at or before the expected position. It
-- cuts nothing off a payload that ends there too.
abbrev pub cut_off : ℕ → ℕ → ℕ → ℕ
cut_off start expected len =
    if ltb start expected
    then (if leb len (saturating_sub expected start) then 0 else saturating_sub expected start)
    else 0

-- Payload that starts at or before the expected position.
unfoldable pub accept_in_order : ℕ → ℕ → ℕ → Bytes → ℕ → ℕ → Ctx → Ctx
accept_in_order start expected ts bytes max_ooo max_segments c =
    let from = cut_off start expected (length bytes) in
    let c' = if ltb start expected then set_retransmit c else c in
    if is_empty c'.half.out_of_order
    then emit (drop from bytes) ts c'
    else relieve max_ooo max_segments
        (flush_ooo (insert_ooo_first_seen (saturating_add start from) ts (drop from bytes) c'))

unfoldable pub accept_payload : ℕ → ℕ → ℕ → Bytes → ℕ → ℕ → Ctx → Ctx
accept_payload start expected ts bytes max_ooo max_segments c =
    if is_empty bytes
    then c
    else if ltb expected start
    then accept_ahead start ts bytes max_ooo max_segments c
    else accept_in_order start expected ts bytes max_ooo max_segments c

-- What `accept` does after the payload.
unfoldable pub settle : ℕ → ℕ → Ctx → Ctx
settle gap_timeout ts c = consume_fin_if_ready (
    recover_ooo_timeout gap_timeout ts
      (if is_some c.half.pending_fin && not c.half.fin_consumed then recover_known_ack c else c))

-- `accept` at an initialised position of a half whose FIN was not consumed.
unfoldable pub accept_open : ℕ → Bool → ℕ → Bytes → ℕ → ℕ → ℕ → ℕ → TcpHalf → Ctx
accept_open start fin ts bytes max_ooo max_segments gap_timeout expected h =
    let end = saturating_add start (length bytes) in
    let (kept, c) = clip_to_fin start end bytes (fresh_ctx (mark_fin fin start end expected h)) in
    settle gap_timeout ts (accept_payload start expected ts kept max_ooo max_segments c)

-- `accept` of a payload on a half whose FIN was consumed.
abbrev pub accept_closed : Bytes → TcpHalf → Ctx
accept_closed bytes h = record {
  half = h;
  out = record default_outcome { retransmit = not (is_empty bytes) };
}

unfoldable pub accept : TcpHalf → ℕ → Bool → Bool → ℕ → Bytes → ℕ → ℕ → ℕ → Ctx
accept h seq syn fin ts bytes max_ooo max_segments gap_timeout =
    let h' = observe h seq syn in
    if h'.fin_consumed then accept_closed bytes h' else elim h'.next_abs [
      | none ↦ fresh_ctx h'
      | some expected ↦
          accept_open (extend_seq (wrapping_add32 seq (syn_len syn)) expected) fin ts bytes max_ooo
            max_segments gap_timeout expected h'
    ]

-- The highest cumulative ACK seen.
unfoldable pub note_ack : ℕ → ℕ → TcpHalf → TcpHalf
note_ack ack expected h =
    if ltb expected ack && elim h.peer_ack_abs [ none ↦ true | some current ↦ ltb current ack ]
    then record h { peer_ack_abs = some ack }
    else h

unfoldable pub acknowledge : TcpHalf → ℕ → ℕ → ℕ → Ctx
acknowledge h ack ts gap_timeout = elim h.next_abs [
  | none ↦ fresh_ctx h
  | some expected ↦
      let h' = note_ack (extend_seq ack expected) expected h in
      let c : Ctx = fresh_ctx h' in
      if is_empty h'.out_of_order && not (is_some h'.pending_fin)
      then c
      else consume_fin_if_ready (recover_ooo_timeout gap_timeout ts (recover_known_ack c))
]
