-- ===== src/Decoder/Layers.antt =====
-- `PacketDecoder::decode` and `parse_ethernet_frame` in capture/parser.rs. A tunnel enters the same
-- decoders one level deeper, so they are built level by level.
use bazalt.Prelude.{
  ℕ, zero, suc, ◌*◌, true, Option, none, some, length, ltb, ◌==◌, if◌then◌else◌, drop,
}
use bazalt.FlowKeys.Types.{ParsedPacket}
use bazalt.Fragments.Types.{FragmentKey}
use bazalt.Fragments.Shared.{new_shared}
use bazalt.Decoder.Types.{
  Bytes, max_tunnel_depth, CapturedFrame, packet, pending_fragment, ignored, Result, ok, err, stuck,
  Env, Decoder, Decode, Layers, cut_short, reads, be16,
}
use bazalt.Decoder.Headers.{tagged, cut_tag, tag_panic, vlan_tags}
use bazalt.Decoder.Network.{decode_ipv4, decode_ipv6}

unfoldable pub decode_ethernet_bytes : Layers → ℕ → ℕ → Bytes → ℕ → ℕ → Decoder → Result × Decoder
decode_ethernet_bytes here ts_ns wire_len frame inherited_domain depth d =
    if ltb max_tunnel_depth depth
    then (ok ignored, d)
    else if ltb (length frame) 14
    then cut_short d
    else reads frame 14 d (elim (vlan_tags 4 frame 14 (be16 frame 12) inherited_domain) [
      | tag_panic ↦ (stuck, d)
      | cut_tag ↦ cut_short d
      | tagged offset ethertype domain ↦ reads frame offset d (
          let l3 = drop offset frame in
          if ethertype == 0x0800
          then here.ipv4 ts_ns wire_len l3 domain depth d
          else if ethertype == 0x86dd
          then here.ipv6 ts_ns wire_len l3 domain depth d
          else (ok ignored, d))
    ])

-- The decoders with so many levels of tunnels below them.
unfoldable pub decoders : Env → ℕ → Layers
decoders env zero =
    let no_level : Decode = λ ts_ns wire_len p domain depth d. (stuck, d) in
    record { ethernet = no_level; ipv4 = no_level; ipv6 = no_level }
decoders env (suc levels) =
    let inner = decoders env levels in
    record {
      ethernet =
          decode_ethernet_bytes
            (record inner { ipv4 = decode_ipv4 env inner; ipv6 = decode_ipv6 env inner });
      ipv4 = decode_ipv4 env inner;
      ipv6 = decode_ipv6 env inner;
    }

-- `PacketDecoder::decode`
unfoldable pub decode : Env → Decoder → CapturedFrame → Result × Decoder
decode env d frame =
    (decoders env (suc max_tunnel_depth)).ethernet frame.ts_ns frame.wire_len frame.bytes 0 0 d

-- `PacketDecoder::stateless`, at the first reading of a clock in nanoseconds.
unfoldable pub stateless : (ℕ → ℕ) → Decoder
stateless clock = record {
  fragments = new_shared (64 * 1024) 64 1_000_000_000 (clock 0);
  metrics = none;
  readings = 1;
}

-- `parse_ethernet_frame`: nothing on an error, else the packet if there is one.
unfoldable pub parse_ethernet_frame :
    (FragmentKey → ℕ) → (ℕ → ℕ) → ℕ → ℕ → Bytes → Option (Option ParsedPacket)
parse_ethernet_frame hash clock ts_ns wire_len frame =
    let env : Env = record { hash = hash; clock = clock; tunnel_decapsulation = true } in
    let captured : CapturedFrame = record { ts_ns = ts_ns; wire_len = wire_len; bytes = frame } in
    elim (decode env (stateless clock) captured).0 [
      | ok (packet p) ↦ some (some p)
      | ok pending_fragment ↦ some none
      | ok ignored ↦ some none
      | err e ↦ none
      | stuck ↦ none
    ]
