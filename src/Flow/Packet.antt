-- ===== src/Flow/Packet.antt =====
-- A packet of an admitted flow, in `shard_loop` of flow/mod.rs.
use bazalt.Prelude.{
  ℕ, ◌-◌, Bool, true, false, not, ◌&&◌, ◌||◌, none, some, length, is_empty, leb, if◌then◌else◌,
}
use bazalt.FlowKeys.Types.{opposite, tcp, udp, ParsedPacket}
use bazalt.Reassembly.Half.{rst_matches_next, is_initialized, reserve_udp_offset}
use bazalt.Reassembly.Accept.{accept, acknowledge}
use bazalt.Flow.Types.{
  Env, Config, World, FlowState, chunk, snapshot, add64, send, count, read_clock,
}
use bazalt.Flow.State.{half, set_half, count_packet, summary}
use bazalt.Flow.Close.{Work, emit_tcp_outcome}

-- `packet.seq.unwrap_or(0)`
abbrev pub seq_of : ParsedPacket → ℕ
seq_of p = elim p.seq [ none ↦ 0 | some seq ↦ seq ]

-- Whether the flow accepts a reset, which is counted otherwise.
unfoldable pub judge_reset : ParsedPacket → Work → Bool × Work
judge_reset p k =
    let accepted = rst_matches_next (half k.flow p.direction) (seq_of p) in
    if not p.flags.rst then (false, k) else if accepted then (true, k) else (
      false,
      record k {
        world =
            count (λ m. record m { tcp_rejected_resets = add64 m.tcp_rejected_resets 1 }) k.world;
      },
    )

-- The cumulative ACK, which concerns the other half.
unfoldable pub take_ack : Env → Config → ParsedPacket → Bool → Work → Work
take_ack env cfg p rst_accepted k = elim p.ack [
  | none ↦ k
  | some ack ↦
      let side = opposite p.direction in
      let c = acknowledge (half k.flow side) ack p.ts_ns cfg.tcp_gap_timeout_ns in
      let next =
        emit_tcp_outcome env c.out side p.key (record k { flow = set_half side c.half k.flow }) in
      if p.flags.ack && (not p.flags.rst || rst_accepted) then next else k
]

abbrev pub needs_sequence_work : ParsedPacket → Work → Bool
needs_sequence_work p k =
    not (is_empty p.payload)
    || p.flags.syn
    || p.flags.fin
    || not (is_initialized (half k.flow p.direction))

-- The counters of an outcome.
abbrev pub note_outcome : Bool → Bool → World → World
note_outcome retransmit out_of_order w =
    count
      (λ m. record m {
        tcp_retransmits = if retransmit then add64 m.tcp_retransmits 1 else m.tcp_retransmits;
        tcp_out_of_order = if out_of_order then add64 m.tcp_out_of_order 1 else m.tcp_out_of_order;
      })
      w

unfoldable pub take_payload : Env → Config → ParsedPacket → Work → Work
take_payload env cfg p k =
    let c =
      accept (half k.flow p.direction) (seq_of p) p.flags.syn p.flags.fin p.ts_ns p.payload
        cfg.max_ooo_bytes cfg.max_ooo_segments cfg.tcp_gap_timeout_ns in
    let next = emit_tcp_outcome env c.out p.direction p.key (record {
      flow = set_half p.direction c.half k.flow;
      world = note_outcome c.out.retransmit c.out.out_of_order k.world;
      emitted = k.emitted;
    }) in
    if not p.flags.rst && needs_sequence_work p k then next else k

-- The TCP arm; whether a reset was accepted, too.
unfoldable pub take_tcp : Env → Config → ParsedPacket → Work → Bool × Work
take_tcp env cfg p k =
    let judged = judge_reset p k in
    (judged.0, take_payload env cfg p (take_ack env cfg p judged.0 judged.1))

abbrev pub truncate_unless : Bool → FlowState → FlowState
truncate_unless sent f = if sent then f else record f { truncated = true }

-- The UDP arm.
unfoldable pub take_udp : Env → ParsedPacket → Work → Work
take_udp env p k =
    let reserved = reserve_udp_offset (half k.flow p.direction) (length p.payload) in
    let f = set_half p.direction reserved.0 k.flow in
    let s =
      send env
        (chunk (record {
          flow_id = f.id;
          ts_ns = p.ts_ns;
          direction = p.direction;
          key = p.key;
          offset = reserved.1;
          bytes = p.payload;
          truncated = f.truncated;
        }))
        k.world in
    if is_empty p.payload
    then k
    else record { flow = truncate_unless s.0 f; world = s.1; emitted = true }

-- The snapshot of a flow that emitted content, the first one at once and others at intervals.
unfoldable pub take_snapshot : Env → Config → Work → FlowState × World
take_snapshot env cfg k =
    let now = read_clock env k.world in
    let shown : FlowState = record k.flow { visible = true; last_snapshot = now.0 } in
    let s = send env (snapshot (summary shown)) now.1 in
    if not k.emitted
    then (k.flow, k.world)
    else if not k.flow.visible || leb cfg.live_flow_update_interval (now.0 - k.flow.last_snapshot)
    then (truncate_unless s.0 shown, s.1)
    else (k.flow, now.1)

-- The match on the protocol.
unfoldable pub take_content : Env → Config → ParsedPacket → Work → Bool × Work
take_content env cfg p k = elim p.key.protocol [
  | tcp ↦ take_tcp env cfg p k
  | udp ↦ (false, take_udp env p k)
]

-- The counters of packets that entered a flow.
abbrev pub receive : ParsedPacket → World → World
receive p w =
    count
      (λ m. record m {
        packets_received = add64 m.packets_received 1;
        packet_bytes = add64 m.packet_bytes p.wire_len;
      })
      w

-- All that the packet does to its flow; whether a reset was accepted, too.
unfoldable pub take_packet :
    Env → Config → ParsedPacket → FlowState → World → Bool × FlowState × World
take_packet env cfg p f w =
    let counted = count_packet env p (f, receive p w) in
    let taken =
      take_content env cfg p (record { flow = counted.0; world = counted.1; emitted = false }) in
    let shown = take_snapshot env cfg taken.1 in (taken.0, shown.0, shown.1)
