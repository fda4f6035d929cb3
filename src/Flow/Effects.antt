-- ===== src/Flow/Effects.antt =====
-- A packet of an admitted flow in flow/mod.rs, and what it leaves as it was.
use bazalt.Prelude.{
  ℕ, ◌-◌, refl, Bool, true, false, not, ◌&&◌, ◌||◌, length, is_empty, leb, if_cases, option_cases,
}
use bazalt.FlowKeys.Types.{Direction, a_to_b, b_to_a, opposite, ParsedPacket}
use bazalt.Reassembly.Types.{TcpHalf}
use bazalt.Reassembly.Half.{reserve_udp_offset, rst_matches_next}
use bazalt.Reassembly.Accept.{accept, acknowledge}
use bazalt.Reassembly.Valid.{IsValid, accept-IsValid, recover-IsValid}
use bazalt.Flow.Types.{Env, Config, World, FlowState, snapshot, chunk, send, read_clock}
use bazalt.Flow.State.{half, set_half, count_side, count_packet, summary}
use bazalt.Flow.Close.{Work}
use bazalt.Flow.Packet.{
  judge_reset, take_ack, needs_sequence_work, note_outcome, take_payload, take_tcp, take_udp,
  truncate_unless, take_snapshot, take_content, receive, take_packet, seq_of,
}
use bazalt.Flow.Carries.{
  Carries, CarriesTo, Works, stays, onward, active-send, emit_tcp_outcome-Works, set_half-Carries,
  protocol_cases,
}

-- A second component that carries on.
abbrev WorksTo : Work → Bool × Work → Type 0
WorksTo k r = Works k r.1

unmoved : (k : Work) → Works k k
unmoved k = stays k.flow k.world k.world refl

judge_reset-WorksTo : (p : ParsedPacket) (k : Work) → WorksTo k (judge_reset p k)
unfolding judge_reset
judge_reset-WorksTo p k =
    if_cases (WorksTo k) (not p.flags.rst) (λ _. unmoved k)
      (λ reset.
        if_cases (WorksTo k) (rst_matches_next (half k.flow p.direction) (seq_of p))
          (λ _. unmoved k) (λ _. stays k.flow k.world _ refl))

take_ack-Works :
    (env : Env) (cfg : Config) (p : ParsedPacket) (accepted : Bool) (k : Work)
    → Works k (take_ack env cfg p accepted k)
unfolding take_ack
take_ack-Works env cfg p accepted k =
    option_cases (Works k) p.ack (λ _. unmoved k)
      (λ ack found.
        let side = opposite p.direction in
        let c = acknowledge (half k.flow side) ack p.ts_ns cfg.tcp_gap_timeout_ns in
        if_cases (Works k) (p.flags.ack && (not p.flags.rst || accepted))
          (λ _.
            onward
              (set_half-Carries side c.half k.flow k.world k.world refl
                (λ v. (recover-IsValid (half k.flow side) ack p.ts_ns cfg.tcp_gap_timeout_ns v).0))
              (emit_tcp_outcome-Works env c.out side p.key
                (record k { flow = set_half side c.half k.flow })))
          (λ _. unmoved k))

take_payload-Works :
    (env : Env) (cfg : Config) (p : ParsedPacket) (k : Work) → Works k (take_payload env cfg p k)
unfolding take_payload
take_payload-Works env cfg p k =
    let c =
      accept (half k.flow p.direction) (seq_of p) p.flags.syn p.flags.fin p.ts_ns p.payload
        cfg.max_ooo_bytes cfg.max_ooo_segments cfg.tcp_gap_timeout_ns in
    if_cases (Works k) (not p.flags.rst && needs_sequence_work p k)
      (λ _.
        onward
          (set_half-Carries p.direction c.half k.flow k.world
            (note_outcome c.out.retransmit c.out.out_of_order k.world) refl
            (accept-IsValid (half k.flow p.direction) (seq_of p) p.flags.syn p.flags.fin p.ts_ns
              p.payload cfg.max_ooo_bytes cfg.max_ooo_segments cfg.tcp_gap_timeout_ns))
          (emit_tcp_outcome-Works env c.out p.direction p.key _))
      (λ _. unmoved k)

truncate_unless-Carries :
    (sent : Bool) (f : FlowState) (w : World) → Carries f w (truncate_unless sent f) w
truncate_unless-Carries sent f w =
    if_cases (λ (g : FlowState). Carries f w g w) sent (λ _. stays f w w refl)
      (λ _. record {
        id = refl;
        source = refl;
        active_flows = refl;
        halves = λ v. record { a_to_b_valid = v.a_to_b_valid; b_to_a_valid = v.b_to_a_valid };
      })

reserve-IsValid : (h : TcpHalf) (n : ℕ) → IsValid h → IsValid (reserve_udp_offset h n).0
unfolding reserve_udp_offset
reserve-IsValid h n v = record {
  spaced = v.spaced;
  counted = v.counted;
  drained = v.drained;
  started = v.started;
}

take_udp-Works : (env : Env) (p : ParsedPacket) (k : Work) → Works k (take_udp env p k)
unfolding take_udp
take_udp-Works env p k =
    let n = length p.payload in
    let h = half k.flow p.direction in
    let reserved = reserve_udp_offset h n in
    let f = set_half p.direction reserved.0 k.flow in
    let s =
      send env
        (chunk (record {
          flow_id = f.id;
          ts_ns = p.ts_ns;
          direction = p.direction;
          key = p.key;
          offset = reserved.1;
          bytes = p.payload;
          truncated = f.truncated;
        }))
        k.world in
    if_cases (Works k) (is_empty p.payload) (λ _. unmoved k)
      (λ full.
        onward
          (set_half-Carries p.direction reserved.0 k.flow k.world s.1 (active-send env _ k.world)
            (reserve-IsValid h n))
          (truncate_unless-Carries s.0 f s.1))

take_snapshot-CarriesTo :
    (env : Env) (cfg : Config) (k : Work) → CarriesTo k.flow k.world (take_snapshot env cfg k)
unfolding take_snapshot read_clock
take_snapshot-CarriesTo env cfg k =
    let now = read_clock env k.world in
    let shown : FlowState = record k.flow { visible = true; last_snapshot = now.0 } in
    let s = send env (snapshot (summary shown)) now.1 in
    if_cases (CarriesTo k.flow k.world) (not k.emitted) (λ _. unmoved k)
      (λ content.
        if_cases (CarriesTo k.flow k.world)
          (not k.flow.visible || leb cfg.live_flow_update_interval (now.0 - k.flow.last_snapshot))
          (λ _.
            onward {g = shown} {x = s.1}
              (record {
                id = refl;
                source = refl;
                active_flows = active-send env (snapshot (summary shown)) now.1;
                halves =
                    λ v. record { a_to_b_valid = v.a_to_b_valid; b_to_a_valid = v.b_to_a_valid };
              })
              (truncate_unless-Carries s.0 shown s.1))
          (λ _. stays k.flow k.world now.1 refl))

take_tcp-WorksTo :
    (env : Env) (cfg : Config) (p : ParsedPacket) (k : Work) → WorksTo k (take_tcp env cfg p k)
unfolding take_tcp
take_tcp-WorksTo env cfg p k =
    let judged = judge_reset p k in
    onward (judge_reset-WorksTo p k) (
      onward (take_ack-Works env cfg p judged.0 judged.1)
        (take_payload-Works env cfg p (take_ack env cfg p judged.0 judged.1)))

take_content-WorksTo :
    (env : Env) (cfg : Config) (p : ParsedPacket) (k : Work) → WorksTo k (take_content env cfg p k)
unfolding take_content
take_content-WorksTo env cfg p k =
    protocol_cases (WorksTo k) p.key.protocol (take_tcp-WorksTo env cfg p k)
      (take_udp-Works env p k)

count_side-Carries :
    (d : Direction) (n : ℕ) (f : FlowState) (w : World) → Carries f w (count_side d n f) w
count_side-Carries a_to_b n f w = record {
  id = refl;
  source = refl;
  active_flows = refl;
  halves = λ v. record { a_to_b_valid = v.a_to_b_valid; b_to_a_valid = v.b_to_a_valid };
}
count_side-Carries b_to_a n f w = record {
  id = refl;
  source = refl;
  active_flows = refl;
  halves = λ v. record { a_to_b_valid = v.a_to_b_valid; b_to_a_valid = v.b_to_a_valid };
}

count_packet-CarriesTo :
    (env : Env) (p : ParsedPacket) (f : FlowState) (w : World)
    → CarriesTo f w (count_packet env p (f, w))
unfolding count_packet read_clock
count_packet-CarriesTo env p f w =
    let counted = count_side p.direction (length p.payload) f in
    let c = count_side-Carries p.direction (length p.payload) f w in
    record {
      id = c.id;
      source = c.source;
      active_flows = refl;
      halves = λ v.
          let u = c.halves v in
          record { a_to_b_valid = u.a_to_b_valid; b_to_a_valid = u.b_to_a_valid };
    }

pub take_packet-Carries :
    (env : Env) (cfg : Config) (p : ParsedPacket) (f : FlowState) (w : World)
    → let r = take_packet env cfg p f w in Carries f w r.1 r.2
unfolding take_packet
take_packet-Carries env cfg p f w =
    let received = receive p w in
    let counted = count_packet env p (f, received) in
    let begun : Work = record { flow = counted.0; world = counted.1; emitted = false } in
    onward (stays f w received refl) (
      onward (count_packet-CarriesTo env p f received) (
        onward (take_content-WorksTo env cfg p begun)
          (take_snapshot-CarriesTo env cfg (take_content env cfg p begun).1)))
