-- ===== src/FlowKeys/Types.antt =====
-- Endpoints, flow keys, directions and packets in model.rs.
use Prim.Native.Nat.{bit_xor}
use bazalt.Prelude.{ℕ, ◌+◌, ◌*◌, ◌/◌, ◌%◌, ◌^◌, Bool, not, Option, ◌==◌, if◌then◌else◌, List}
use bazalt.Net.{IpAddr, v4, v6}

pub data TransportProtocol : Type 0 where
  tcp udp : TransportProtocol

pub data Direction : Type 0 where
  a_to_b b_to_a : Direction

abbrev pub opposite : Direction → Direction
opposite a_to_b = b_to_a
opposite b_to_a = a_to_b

pub record Endpoint : Type 0 where
  pub ip : IpAddr
  pub port : ℕ

pub record FlowKey : Type 0 where
  pub a : Endpoint
  pub b : Endpoint
  pub protocol : TransportProtocol
  pub l2_domain : ℕ

pub record TcpFlags : Type 0 where
  pub fin : Bool
  pub syn : Bool
  pub rst : Bool
  pub psh : Bool
  pub ack : Bool

pub record ParsedPacket : Type 0 where
  pub ts_ns : ℕ
  pub key : FlowKey
  pub direction : Direction
  pub seq : Option ℕ
  pub ack : Option ℕ
  pub flags : TcpFlags
  pub payload : List ℕ
  pub wire_len : ℕ

unfoldable pub source_endpoint : ParsedPacket → Endpoint
source_endpoint p = elim p.direction [ a_to_b ↦ p.key.a | b_to_a ↦ p.key.b ]

unfoldable pub destination_endpoint : ParsedPacket → Endpoint
destination_endpoint p = elim p.direction [ a_to_b ↦ p.key.b | b_to_a ↦ p.key.a ]

-- `wrapping_add` and `wrapping_mul` on `u64`.
abbrev pub wrapping_add64 : ℕ → ℕ → ℕ
wrapping_add64 a b = (a + b) % 2 ^ 64

abbrev pub wrapping_mul64 : ℕ → ℕ → ℕ
wrapping_mul64 a b = a * b % 2 ^ 64

-- `mix` of `shard_hash64`; a right shift by k divides by 2^k.
unfoldable pub mix : ℕ → ℕ → ℕ
mix state word =
    let z0 = wrapping_add64 (wrapping_add64 word state) 0x9e37_79b9_7f4a_7c15 in
    let z1 = wrapping_mul64 (bit_xor z0 (z0 / 2 ^ 30)) 0xbf58_476d_1ce4_e5b9 in
    let z2 = wrapping_mul64 (bit_xor z1 (z1 / 2 ^ 27)) 0x94d0_49bb_1331_11eb in
    bit_xor z2 (z2 / 2 ^ 31)

-- The two halves of an IPv6 address.
unfoldable pub mix_endpoint : ℕ → Endpoint → ℕ
unfolding mix
mix_endpoint state ep = elim ep.ip [
  | v4 ip ↦ mix (mix state ip) ep.port
  | v6 ip ↦ mix (mix (mix state (ip / 2 ^ 64)) (ip % 2 ^ 64)) ep.port
]

abbrev pub protocol_word : TransportProtocol → ℕ
protocol_word tcp = 6
protocol_word udp = 17

-- `FlowKey::shard_hash64`
unfoldable pub shard_hash64 : FlowKey → ℕ → ℕ
unfolding mix mix_endpoint
shard_hash64 k seed =
    let keyed = mix seed (protocol_word k.protocol) in
    let placed = if not (k.l2_domain == 0) then mix keyed k.l2_domain else keyed in
    mix_endpoint (mix_endpoint placed k.a) k.b
