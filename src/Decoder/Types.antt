-- ===== src/Decoder/Types.antt =====
-- The state and the results of `PacketDecoder` in capture/parser.rs, and its reads of a frame.
use bazalt.Prelude.{
  ℕ, ◌+◌, ◌-◌, ◌*◌, ◌/◌, ◌%◌, ◌^◌, Bool, Option, none, some, List, get_elem?, take, drop, ◌==◌,
  if◌then◌else◌, length, ltb,
}
use bazalt.Fragments.Types.{FragmentKey, FragmentCache, FragmentMaintenance}
use bazalt.FlowKeys.Types.{ParsedPacket}

abbrev pub Bytes : Type 0
Bytes = List ℕ

abbrev pub max_tunnel_depth : ℕ
max_tunnel_depth = 3

-- `CapturedFrame` in capture/mod.rs, with `data` as `bytes`.
pub record CapturedFrame : Type 0 where
  pub ts_ns : ℕ
  pub wire_len : ℕ
  pub bytes : Bytes

-- `InnerOutcome` and `DecodeOutcome`.
pub data Outcome : Type 0 where
  packet : ParsedPacket → Outcome
  pending_fragment ignored : Outcome

-- What `bail!` reports: with or without `mark_truncated` before it.
pub data DecodeError : Type 0 where
  truncated invalid : DecodeError

-- `Result<Outcome>`. `stuck` is no result of the code: it stands for a panic at an index or a slice out of
-- range, and for fuel that ran out.
pub data Result : Type 0 where
  ok : Outcome → Result
  err : DecodeError → Result
  stuck : Result

-- The counters of `Metrics` that the decoder adds to.
pub record DecodeMetrics : Type 0 where
  pub truncated_packets : ℕ
  pub fragments_received : ℕ
  pub fragments_reassembled : ℕ
  pub overlap_drops : ℕ
  pub fragments_expired : ℕ
  pub fragments_evicted : ℕ

-- What the decoder takes from outside: the randomised hash of the fragment cache, the clock as its
-- successive readings, and the setting.
pub record Env : Type 0 where
  pub hash : FragmentKey → ℕ
  pub clock : ℕ → ℕ
  pub tunnel_decapsulation : Bool

-- `PacketDecoder`, with the number of clock readings so far.
pub record Decoder : Type 0 where
  pub fragments : List FragmentCache
  pub metrics : Option DecodeMetrics
  pub readings : ℕ

-- `fetch_add` wraps.
abbrev pub add64 : ℕ → ℕ → ℕ
add64 a b = (a + b) % 2 ^ 64

abbrev pub with_metrics : (DecodeMetrics → DecodeMetrics) → Decoder → Decoder
with_metrics f d = record d { metrics = elim d.metrics [ none ↦ none | some m ↦ some (f m) ] }

unfoldable pub mark_truncated : Decoder → Decoder
mark_truncated = with_metrics (λ m. record m { truncated_packets = add64 m.truncated_packets 1 })

unfoldable pub fragment_received : Decoder → Decoder
fragment_received =
    with_metrics (λ m. record m { fragments_received = add64 m.fragments_received 1 })

unfoldable pub fragment_reassembled : Decoder → Decoder
fragment_reassembled =
    with_metrics (λ m. record m { fragments_reassembled = add64 m.fragments_reassembled 1 })

unfoldable pub fragment_overlap_drop : Decoder → Decoder
fragment_overlap_drop = with_metrics (λ m. record m { overlap_drops = add64 m.overlap_drops 1 })

unfoldable pub apply_fragment_maintenance : FragmentMaintenance → Decoder → Decoder
apply_fragment_maintenance n = with_metrics (λ m. record m {
  fragments_expired =
      if n.expired == 0 then m.fragments_expired else add64 m.fragments_expired n.expired;
  fragments_evicted =
      if n.evicted == 0 then m.fragments_evicted else add64 m.fragments_evicted n.evicted;
})

-- `mark_truncated` and `bail!`.
abbrev pub cut_short : Decoder → Result × Decoder
cut_short d = (err truncated, mark_truncated d)

-- The indices below `n` of `p` are read for what follows: a panic, if `p` is shorter.
abbrev pub reads : Bytes → ℕ → Decoder → Result × Decoder → Result × Decoder
reads p n d r = if ltb (length p) n then (stuck, d) else r

-- `p.slice(from..to)` is taken for what follows: a panic, if its ends are out of order or out of range.
abbrev pub slices : Bytes → ℕ → ℕ → Decoder → Result × Decoder → Result × Decoder
slices p from to d r = if ltb to from then (stuck, d) else reads p to d r

-- The value at an index, which a `reads` in front of it has tested.
abbrev pub byte : Bytes → ℕ → ℕ
byte p i = elim (get_elem? p i) [ none ↦ 0 | some b ↦ b ]

-- `u16::from_be_bytes` and `u32::from_be_bytes` of the bytes from an index on.
abbrev pub be16 : Bytes → ℕ → ℕ
be16 p i = byte p i * 256 + byte p (i + 1)

abbrev pub be32 : Bytes → ℕ → ℕ
be32 p i = be16 p i * 65_536 + be16 p (i + 2)

-- An IPv6 address as the number that its 16 octets write.
abbrev pub be128 : Bytes → ℕ → ℕ
be128 p i =
    ((be32 p i * 2 ^ 32 + be32 p (i + 4)) * 2 ^ 32 + be32 p (i + 8)) * 2 ^ 32 + be32 p (i + 12)

-- `x & (1 << k) != 0`
abbrev pub bit : ℕ → ℕ → Bool
bit x k = x / 2 ^ k % 2 == 1

-- The bytes of `p.slice(from..to)`, whose ends a `slices` in front of it has tested; `drop` has those of
-- `p.slice(from..)`.
abbrev pub slice : Bytes → ℕ → ℕ → Bytes
slice p from to = take (to - from) (drop from p)

-- A decoder of one layer: time stamp, wire length, bytes, domain and tunnel depth.
abbrev pub Decode : Type 0
Decode = ℕ → ℕ → Bytes → ℕ → ℕ → Decoder → Result × Decoder

-- The three decoders that a tunnel enters again.
pub record Layers : Type 0 where
  pub ethernet : Decode
  pub ipv4 : Decode
  pub ipv6 : Decode
