-- ===== src/Flow/State.antt =====
-- `FlowState` in flow/mod.rs.
use bazalt.Prelude.{
  ℕ, ◌+◌, Bool, true, false, not, ◌&&◌, ◌||◌, Option, none, some, length, is_some, ◌==◌,
}
use bazalt.FlowKeys.Types.{Direction, a_to_b, b_to_a, ParsedPacket}
use bazalt.Reassembly.Types.{TcpHalf, default_half}
use bazalt.Flow.Types.{Env, World, FlowState, FlowSummary, from_packet, add64, read_clock}

-- `FlowState::new`, with its UUID and its two clock readings.
unfoldable pub new_flow : Env → ParsedPacket → World → FlowState × World
new_flow env p w =
    let activity = read_clock env w in
    let snapshot = read_clock env activity.1 in
    (
      record {
        id = env.uuid w.uuids;
        key = p.key;
        initiator = p.direction;
        source_prefix = from_packet p;
        started_ns = p.ts_ns;
        last_seen_ns = p.ts_ns;
        last_activity = activity.0;
        a_to_b_half = default_half;
        b_to_a_half = default_half;
        packets_a_to_b = 0;
        packets_b_to_a = 0;
        bytes_a_to_b = 0;
        bytes_b_to_a = 0;
        truncated = false;
        visible = false;
        last_snapshot = snapshot.0;
      },
      record (snapshot.1) { uuids = w.uuids + 1 },
    )

unfoldable pub half : FlowState → Direction → TcpHalf
half f a_to_b = f.a_to_b_half
half f b_to_a = f.b_to_a_half

-- What a method of `half_mut` leaves behind.
unfoldable pub set_half : Direction → TcpHalf → FlowState → FlowState
set_half a_to_b h f = record f { a_to_b_half = h }
set_half b_to_a h f = record f { b_to_a_half = h }

-- The equality of two `Option<u32>`.
abbrev same_option : Option ℕ → Option ℕ → Bool
same_option none none = true
same_option none (some b) = false
same_option (some a) none = false
same_option (some a) (some b) = a == b

unfoldable pub is_syn_retransmit : FlowState → ParsedPacket → Bool
is_syn_retransmit f p =
    p.flags.syn
    && not p.flags.ack
    && is_some p.seq
    && same_option (half f p.direction).initial_syn_seq p.seq

-- The counters of one direction, by the bytes of a payload.
abbrev pub count_side : Direction → ℕ → FlowState → FlowState
count_side a_to_b n f = record f {
  packets_a_to_b = add64 f.packets_a_to_b 1;
  bytes_a_to_b = add64 f.bytes_a_to_b n;
}
count_side b_to_a n f = record f {
  packets_b_to_a = add64 f.packets_b_to_a 1;
  bytes_b_to_a = add64 f.bytes_b_to_a n;
}

unfoldable pub count_packet : Env → ParsedPacket → FlowState × World → FlowState × World
count_packet env p (f, w) =
    let activity = read_clock env w in
    (
      record (count_side p.direction (length p.payload) f) {
        last_seen_ns = p.ts_ns;
        last_activity = activity.0;
      },
      activity.1,
    )

unfoldable pub should_close : FlowState → Bool → Bool
should_close f rst_accepted =
    rst_accepted || (f.a_to_b_half.fin_consumed && f.b_to_a_half.fin_consumed)

unfoldable pub summary : FlowState → FlowSummary
summary f = elim f.initiator [
  | a_to_b ↦ record {
    flow_id = f.id;
    started_at = f.started_ns;
    ended_at = f.last_seen_ns;
    src = f.key.a;
    dst = f.key.b;
    protocol = f.key.protocol;
    packets_c2s = f.packets_a_to_b;
    packets_s2c = f.packets_b_to_a;
    bytes_c2s = f.bytes_a_to_b;
    bytes_s2c = f.bytes_b_to_a;
    truncated = f.truncated;
  }
  | b_to_a ↦ record {
    flow_id = f.id;
    started_at = f.started_ns;
    ended_at = f.last_seen_ns;
    src = f.key.b;
    dst = f.key.a;
    protocol = f.key.protocol;
    packets_c2s = f.packets_b_to_a;
    packets_s2c = f.packets_a_to_b;
    bytes_c2s = f.bytes_b_to_a;
    bytes_s2c = f.bytes_a_to_b;
    truncated = f.truncated;
  }
]
