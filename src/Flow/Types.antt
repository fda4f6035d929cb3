-- ===== src/Flow/Types.antt =====
-- The data types of flow/mod.rs, with the outputs of model.rs.
use bazalt.Prelude.{
  ℕ, ◌+◌, ◌-◌, ◌/◌, ◌%◌, ◌^◌, ◌≡◌, ◌↔◌, refl, subst, ap, Bool, true, false, ◌&&◌, List, [], ◌∷◌,
  ◌++◌, ◌==◌, if◌then◌else◌, arith,
}
use bazalt.Net.{IpAddr, v4, v6, same_addr, same_addr_refl, same_addr→eq}
use bazalt.HashMap.{Key}
use bazalt.FlowKeys.Types.{
  TransportProtocol, tcp, udp, Direction, a_to_b, b_to_a, Endpoint, FlowKey, ParsedPacket,
}
use bazalt.Reassembly.Types.{TcpHalf}

-- `fetch_add`, `fetch_sub` and `+=` on `u64`, which wrap.
abbrev pub add64 : ℕ → ℕ → ℕ
add64 a b = (a + b) % 2 ^ 64

abbrev pub sub64 : ℕ → ℕ → ℕ
sub64 a b = (a + 2 ^ 64 - b) % 2 ^ 64

-- The derived equalities of the keys.
abbrev same_endpoint : Endpoint → Endpoint → Bool
same_endpoint a b = same_addr a.ip b.ip && a.port == b.port

abbrev same_protocol : TransportProtocol → TransportProtocol → Bool
same_protocol tcp tcp = true
same_protocol tcp udp = false
same_protocol udp tcp = false
same_protocol udp udp = true

abbrev pub same_flow_key : FlowKey → FlowKey → Bool
same_flow_key k l =
    same_endpoint k.a l.a
    && same_endpoint k.b l.b
    && same_protocol k.protocol l.protocol
    && k.l2_domain == l.l2_domain

same_protocol_refl : (p : TransportProtocol) → same_protocol p p ≡ true
same_protocol_refl tcp = refl
same_protocol_refl udp = refl

same_protocol→eq : (p q : TransportProtocol) → same_protocol p q ≡ true → p ≡ q
same_protocol→eq tcp tcp h = refl
same_protocol→eq tcp udp h = absurd (cc)
same_protocol→eq udp tcp h = absurd (cc)
same_protocol→eq udp udp h = refl

same_flow_key_refl : (k : FlowKey) → same_flow_key k k ≡ true
same_flow_key_refl k =
    ground (arith, same_addr_refl k.a.ip, same_addr_refl k.b.ip, same_protocol_refl k.protocol)

same_flow_key→eq : (k l : FlowKey) → same_flow_key k l ≡ true → k ≡ l
same_flow_key→eq k l h = ground (
  arith,
  same_addr→eq k.a.ip l.a.ip,
  same_addr→eq k.b.ip l.b.ip,
  same_protocol→eq k.protocol l.protocol,
)

pub same_flow_key_iff : (k l : FlowKey) → (same_flow_key k l ≡ true) ↔ (k ≡ l)
same_flow_key_iff k l =
    (same_flow_key→eq k l, λ h. subst (λ c. same_flow_key k c ≡ true) h (same_flow_key_refl k))

instance abbrev pub flow_key : Key FlowKey
flow_key = record { same = same_flow_key; same_iff = same_flow_key_iff }

-- `SourcePrefix`: the upper 24 bits of an IPv4 address, the upper 64 of an IPv6 address.
pub data SourcePrefix : Type 0 where
  prefix4 prefix6 : ℕ → SourcePrefix

abbrev pub same_prefix : SourcePrefix → SourcePrefix → Bool
same_prefix (prefix4 a) (prefix4 b) = a == b
same_prefix (prefix4 a) (prefix6 b) = false
same_prefix (prefix6 a) (prefix4 b) = false
same_prefix (prefix6 a) (prefix6 b) = a == b

same_prefix_refl : (p : SourcePrefix) → same_prefix p p ≡ true
same_prefix_refl (prefix4 a) = ground arith
same_prefix_refl (prefix6 a) = ground arith

same_prefix→eq : (p q : SourcePrefix) → same_prefix p q ≡ true → p ≡ q
same_prefix→eq (prefix4 a) (prefix4 b) h = ap prefix4 (ground arith)
same_prefix→eq (prefix4 a) (prefix6 b) h = absurd (cc)
same_prefix→eq (prefix6 a) (prefix4 b) h = absurd (cc)
same_prefix→eq (prefix6 a) (prefix6 b) h = ap prefix6 (ground arith)

pub same_prefix_iff : (p q : SourcePrefix) → (same_prefix p q ≡ true) ↔ (p ≡ q)
same_prefix_iff p q =
    (same_prefix→eq p q, λ h. subst (λ c. same_prefix p c ≡ true) h (same_prefix_refl p))

instance abbrev pub source_prefix_key : Key SourcePrefix
source_prefix_key = record { same = same_prefix; same_iff = same_prefix_iff }

-- `SourcePrefix::from_packet`
unfoldable pub from_packet : ParsedPacket → SourcePrefix
from_packet p =
    elim (elim p.direction as (λ _. IpAddr) [ a_to_b ↦ p.key.a.ip | b_to_a ↦ p.key.b.ip ]) [
      | v4 ip ↦ prefix4 (ip / 2 ^ 8)
      | v6 ip ↦ prefix6 (ip / 2 ^ 64)
    ]

-- `StreamChunk`, with `data` as `bytes`.
pub record StreamChunk : Type 0 where
  pub flow_id : ℕ
  pub ts_ns : ℕ
  pub direction : Direction
  pub key : FlowKey
  pub offset : ℕ
  pub bytes : List ℕ
  pub truncated : Bool

-- `FlowSummary`, with the times in nanoseconds and the addresses before they are formatted; the service
-- is always absent here.
pub record FlowSummary : Type 0 where
  pub flow_id : ℕ
  pub started_at : ℕ
  pub ended_at : ℕ
  pub src : Endpoint
  pub dst : Endpoint
  pub protocol : TransportProtocol
  pub packets_c2s : ℕ
  pub packets_s2c : ℕ
  pub bytes_c2s : ℕ
  pub bytes_s2c : ℕ
  pub truncated : Bool

pub data FlowOutput : Type 0 where
  chunk : StreamChunk → FlowOutput
  snapshot closed : FlowSummary → FlowOutput

pub record FlowState : Type 0 where
  pub id : ℕ
  pub key : FlowKey
  pub initiator : Direction
  pub source_prefix : SourcePrefix
  pub started_ns : ℕ
  pub last_seen_ns : ℕ
  pub last_activity : ℕ
  pub a_to_b_half : TcpHalf
  pub b_to_a_half : TcpHalf
  pub packets_a_to_b : ℕ
  pub packets_b_to_a : ℕ
  pub bytes_a_to_b : ℕ
  pub bytes_b_to_a : ℕ
  pub truncated : Bool
  pub visible : Bool
  pub last_snapshot : ℕ

-- The counters of `Metrics` that the engine changes, less those of its queue.
pub record FlowMetrics : Type 0 where
  pub active_flows : ℕ
  pub packets_filtered : ℕ
  pub flow_state_rejections : ℕ
  pub flow_prefix_rejections : ℕ
  pub packets_received : ℕ
  pub packet_bytes : ℕ
  pub tcp_rejected_resets : ℕ
  pub tcp_retransmits : ℕ
  pub tcp_out_of_order : ℕ
  pub tcp_gap_events : ℕ
  pub tcp_gap_bytes : ℕ
  pub flows_completed : ℕ

-- The settings that the engine reads; times are in nanoseconds.
pub record Config : Type 0 where
  pub tcp_gap_timeout_ns : ℕ
  pub max_active_flows : ℕ
  pub max_flows_per_source_prefix : ℕ
  pub max_ooo_bytes : ℕ
  pub max_ooo_segments : ℕ
  pub tcp_idle_timeout : ℕ
  pub udp_idle_timeout : ℕ
  pub live_flow_update_interval : ℕ

-- What the engine takes from outside: the clock and `Uuid::new_v4` as their successive results, which
-- of its sends succeed, and the service registry.
pub record Env : Type 0 where
  pub clock : ℕ → ℕ
  pub uuid : ℕ → ℕ
  pub accepts : ℕ → Bool
  pub accepts_destination : ParsedPacket → Bool

-- The counters, the output, and the numbers of sends, clock readings and UUIDs so far.
pub record World : Type 0 where
  pub metrics : FlowMetrics
  pub sent : List FlowOutput
  pub sends : ℕ
  pub readings : ℕ
  pub uuids : ℕ

-- `output.send`; true is `Ok`.
unfoldable pub send : Env → FlowOutput → World → Bool × World
send env m w =
    let counted : World = record w { sends = w.sends + 1 } in
    if env.accepts w.sends
    then (true, record counted { sent = w.sent ++ (m ∷ []) })
    else (false, counted)

-- `timers` and its `Ord`, the other state of `shard_loop`.
pub record TimerItem : Type 0 where
  pub deadline : ℕ
  pub serial : ℕ
  pub key : FlowKey
  pub flow_id : ℕ

-- `Instant::now()`
unfoldable pub read_clock : Env → World → ℕ × World
read_clock env w = (env.clock w.readings, record w { readings = w.readings + 1 })

-- A change of the counters.
abbrev pub count : (FlowMetrics → FlowMetrics) → World → World
count f w = record w { metrics = f w.metrics }
