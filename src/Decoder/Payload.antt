-- ===== src/Decoder/Payload.antt =====
-- The decoders of TCP, UDP with VXLAN, GRE and of the IP protocols in capture/parser.rs. The decoders
-- that a tunnel enters again are an argument.
use bazalt.Prelude.{
  ℕ, ◌+◌, ◌*◌, ◌/◌, ◌%◌, Bool, false, not, ◌&&◌, ◌||◌, none, some, length, ltb, ◌==◌, if◌then◌else◌,
  drop,
}
use bazalt.Net.{IpAddr}
use bazalt.FlowKeys.Types.{TcpFlags, tcp, udp}
use bazalt.FlowKeys.Canonical.{canonical_with_domain}
use bazalt.Decoder.Types.{
  Bytes, max_tunnel_depth, packet, ignored, ok, err, invalid, stuck, Result, Env, Decoder, Layers,
  cut_short, reads, slices, byte, be16, be32, bit, slice,
}
use bazalt.Decoder.Domain.{mix_tunnel_domain}
use bazalt.Decoder.Headers.{upper, cut, fragment_header, no_end, skip_routes}

-- `TcpFlags::default()`
abbrev pub no_flags : TcpFlags
no_flags = record { fin = false; syn = false; rst = false; psh = false; ack = false }

-- The flags of byte 13 of a TCP header.
abbrev pub tcp_flags : ℕ → TcpFlags
tcp_flags bits = record {
  fin = bit bits 0;
  syn = bit bits 1;
  rst = bit bits 2;
  psh = bit bits 3;
  ack = bit bits 4;
}

unfoldable pub parse_tcp : ℕ → ℕ → IpAddr → IpAddr → Bytes → ℕ → Decoder → Result × Decoder
parse_tcp ts_ns wire_len src dst tcp_bytes l2_domain d =
    if ltb (length tcp_bytes) 20
    then cut_short d
    else reads tcp_bytes 14 d (
        let data_offset = byte tcp_bytes 12 / 16 * 4 in
        let keyed =
          canonical_with_domain src (be16 tcp_bytes 0) dst (be16 tcp_bytes 2) tcp l2_domain in
        if ltb data_offset 20
        then (err invalid, d)
        else if ltb (length tcp_bytes) data_offset
        then cut_short d
        else reads tcp_bytes data_offset d (
          ok (
              packet (record {
                ts_ns = ts_ns;
                key = keyed.0;
                direction = keyed.1;
                seq = some (be32 tcp_bytes 4);
                ack = some (be32 tcp_bytes 8);
                flags = tcp_flags (byte tcp_bytes 13);
                payload = drop data_offset tcp_bytes;
                wire_len = wire_len;
              })),
          d,
        ))

-- The tests for a VXLAN header behind a UDP header.
abbrev pub enters_vxlan : Env → ℕ → ℕ → Bytes → Bool
enters_vxlan env depth dst_port vxlan =
    (env.tunnel_decapsulation
      && ltb depth max_tunnel_depth
      && (dst_port == 4789 || dst_port == 8472))
    && (not (ltb (length vxlan) 8) && bit (byte vxlan 0) 3)

unfoldable pub decode_udp :
    Env → Layers → ℕ → ℕ → IpAddr → IpAddr → Bytes → ℕ → ℕ → Decoder → Result × Decoder
decode_udp env inner ts_ns wire_len src dst p l2_domain depth d =
    if ltb (length p) 8
    then cut_short d
    else reads p 6 d (
        let src_port = be16 p 0 in
        let dst_port = be16 p 2 in
        let udp_len = be16 p 4 in
        if ltb udp_len 8
        then (err invalid, d)
        else if ltb (length p) udp_len
        then cut_short d
        else slices p 8 udp_len d (
            let vxlan = slice p 8 udp_len in
            let vni = byte vxlan 4 * 65_536 + byte vxlan 5 * 256 + byte vxlan 6 in
            let keyed = canonical_with_domain src src_port dst dst_port udp l2_domain in
            if enters_vxlan env depth dst_port vxlan
            then reads vxlan 8 d (
                inner.ethernet ts_ns wire_len (drop 8 vxlan)
                  (mix_tunnel_domain l2_domain 0x5658_4c41 src dst vni) (depth + 1) d)
            else (
              ok (
                  packet (record {
                    ts_ns = ts_ns;
                    key = keyed.0;
                    direction = keyed.1;
                    seq = none;
                    ack = none;
                    flags = no_flags;
                    payload = slice p 8 udp_len;
                    wire_len = wire_len;
                  })),
              d,
            )))

-- The inner packet of GRE, from its offset on.
unfoldable pub enter_gre :
    Layers → ℕ → ℕ → IpAddr → IpAddr → Bytes → ℕ → ℕ → ℕ → ℕ → Decoder → Result × Decoder
enter_gre inner ts_ns wire_len outer_src outer_dst gre l2_domain depth gre_key offset d =
    let proto = be16 gre 2 in
    let domain = mix_tunnel_domain l2_domain 0x4752_4520 outer_src outer_dst gre_key in
    if ltb (length gre) offset
    then cut_short d
    else reads gre offset d (
        if proto == 0x0800
        then inner.ipv4 ts_ns wire_len (drop offset gre) domain (depth + 1) d
        else if proto == 0x86dd
        then inner.ipv6 ts_ns wire_len (drop offset gre) domain (depth + 1) d
        else if proto == 0x6558
        then inner.ethernet ts_ns wire_len (drop offset gre) domain (depth + 1) d
        else (ok ignored, d))

-- Behind the key: the sequence number and the source routes.
unfoldable pub walk_gre :
    Layers → ℕ → ℕ → IpAddr → IpAddr → Bytes → ℕ → ℕ → ℕ → ℕ → Decoder → Result × Decoder
walk_gre inner ts_ns wire_len outer_src outer_dst gre l2_domain depth gre_key after_key d =
    let flags = be16 gre 0 in
    let enter : ℕ → Result × Decoder =
      λ at. enter_gre inner ts_ns wire_len outer_src outer_dst gre l2_domain depth gre_key at d in
    let offset = if bit flags 12 then after_key + 4 else after_key in
    if bit flags 14
    then elim (skip_routes (length gre + 1) gre offset) [
      | upper next at ↦ enter at
      | fragment_header at ↦ (stuck, d)
      | cut ↦ cut_short d
      | no_end ↦ (stuck, d)
    ]
    else enter offset

unfoldable pub decode_gre :
    Layers → ℕ → ℕ → IpAddr → IpAddr → Bytes → ℕ → ℕ → Decoder → Result × Decoder
decode_gre inner ts_ns wire_len outer_src outer_dst gre l2_domain depth d =
    let flags = be16 gre 0 in
    let offset = if bit flags 15 || bit flags 14 then 8 else 4 in
    if not (ltb depth max_tunnel_depth)
    then (ok ignored, d)
    else if ltb (length gre) 4
    then cut_short d
    else reads gre 4 d (
        if not (flags % 8 == 0)
        then (ok ignored, d)
        else if not (bit flags 13)
        then walk_gre inner ts_ns wire_len outer_src outer_dst gre l2_domain depth 0 offset d
        else if ltb (length gre) (offset + 4)
        then cut_short d
        else reads gre (offset + 4) d (
            walk_gre inner ts_ns wire_len outer_src outer_dst gre l2_domain depth (be32 gre offset)
              (offset + 4) d))

unfoldable pub decode_ip_payload :
    Env → Layers → ℕ → ℕ → IpAddr → IpAddr → ℕ → Bytes → ℕ → ℕ → Decoder → Result × Decoder
decode_ip_payload env inner ts_ns wire_len src dst protocol p l2_domain depth d =
    let enters = env.tunnel_decapsulation && ltb depth max_tunnel_depth in
    if protocol == 6
    then parse_tcp ts_ns wire_len src dst p l2_domain d
    else if protocol == 17
    then decode_udp env inner ts_ns wire_len src dst p l2_domain depth d
    else if protocol == 47 && enters
    then decode_gre inner ts_ns wire_len src dst p l2_domain depth d
    else if protocol == 4 && enters
    then inner.ipv4 ts_ns wire_len p (mix_tunnel_domain l2_domain 0x4950_4950 src dst 4) (depth + 1)
        d
    else if protocol == 41 && enters
    then inner.ipv6 ts_ns wire_len p (mix_tunnel_domain l2_domain 0x4950_4950 src dst 6) (depth + 1)
        d
    else (ok ignored, d)
