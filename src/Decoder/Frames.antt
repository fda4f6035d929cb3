-- ===== src/Decoder/Frames.antt =====
-- Frames with Ethernet, VLAN, IPv4 and TCP headers, decoded by capture/parser.rs.
use bazalt.Prelude.{
  ℕ, ◌+◌, ◌-◌, ◌*◌, ◌/◌, ◌%◌, ◌^◌, ◌≤◌, ◌≡◌, ◌∙◌, refl, false, some, ◌++◌, length, length-append,
  append_assoc, ltb, drop, ap, arith,
}
use bazalt.Net.{IpAddr, v4}
use bazalt.FlowKeys.Types.{tcp, TcpFlags}
use bazalt.FlowKeys.Canonical.{canonical_with_domain}
use bazalt.Decoder.Types.{Bytes, packet, ok, Env, Decoder, Layers, byte, be16, be32, bit, slice}
use bazalt.Decoder.Headers.{tagged, vlan_tags}
use bazalt.Decoder.Payload.{tcp_flags, parse_tcp, decode_ip_payload}
use bazalt.Decoder.Network.{ipv4_payload, decode_ipv4}
use bazalt.Decoder.Layers.{decode_ethernet_bytes, decoders, decode}
use bazalt.Decoder.Wire.{
  TcpFrame, flag_byte, total_len, put_tcp, put_ipv4, put_frame, IsEncodable, domain_of, packet_of,
  put16_lem, be32_lem, drop-append, drop-drop, take-append,
}
use bazalt.Decoder.Vlan.{vlan_tags-put_tags, drop-put_ethernet, length-put_ethernet}

tcp_flags-flag_byte :
    (f : TcpFrame)
    → tcp_flags (flag_byte f)
      ≡ record { fin = f.fin; syn = f.syn; rst = f.rst; psh = f.psh; ack = f.has_ack }
tcp_flags-flag_byte f =
    let n = flag_byte f in
    let fin_ok : bit n 0 ≡ f.fin = ground arith in
    let syn_ok : bit n 1 ≡ f.syn = ground arith in
    let rst_ok : bit n 2 ≡ f.rst = ground arith in
    let psh_ok : bit n 3 ≡ f.psh = ground arith in
    let ack_ok : bit n 4 ≡ f.has_ack = ground arith in
    rw (fin_ok, syn_ok, rst_ok, psh_ok, ack_ok) refl

parse_tcp_at :
    (ts_ns wire_len : ℕ) (src dst : IpAddr) (p : Bytes) (domain : ℕ) (d : Decoder)
    (src_port dst_port seq ack bits offset : ℕ) (payload : Bytes)
    → ltb (length p) 20 ≡ false
    → byte p 12 / 16 * 4 ≡ offset
    → ltb offset 20 ≡ false
    → ltb (length p) offset ≡ false
    → be16 p 0 ≡ src_port
    → be16 p 2 ≡ dst_port
    → be32 p 4 ≡ seq
    → be32 p 8 ≡ ack
    → byte p 13 ≡ bits
    → drop offset p ≡ payload
    → let keyed = canonical_with_domain src src_port dst dst_port tcp domain in
      parse_tcp ts_ns wire_len src dst p domain d ≡ (
        ok (
            packet (record {
              ts_ns = ts_ns;
              key = keyed.0;
              direction = keyed.1;
              seq = some seq;
              ack = some ack;
              flags = tcp_flags bits;
              payload = payload;
              wire_len = wire_len;
            })),
        d,
      )
unfolding parse_tcp
parse_tcp_at ts_ns wire_len src dst p domain d src_port dst_port seq ack bits offset payload a b c e
      g h i j k l =
    let in_range : ltb (length p) 14 ≡ false = ground arith in
    rw (a, in_range, b, c, e, l, g, h, i, j, k) refl

parse_tcp-put_tcp :
    (ts_ns wire_len : ℕ) (src dst : IpAddr) (f : TcpFrame) (domain : ℕ) (d : Decoder)
    → IsEncodable f
    → let keyed = canonical_with_domain src f.src_port dst f.dst_port tcp domain in
      parse_tcp ts_ns wire_len src dst (put_tcp f (f.options ++ f.payload)) domain d ≡ (
        ok (
            packet (record {
              ts_ns = ts_ns;
              key = keyed.0;
              direction = keyed.1;
              seq = some f.seq;
              ack = some f.ack;
              flags = record {
                fin = f.fin;
                syn = f.syn;
                rst = f.rst;
                psh = f.psh;
                ack = f.has_ack;
              };
              payload = f.payload;
              wire_len = wire_len;
            })),
        d,
      )
parse_tcp-put_tcp ts_ns wire_len src dst f domain d h =
    let keyed = canonical_with_domain src f.src_port dst f.dst_port tcp domain in
    parse_tcp_at ts_ns wire_len src dst (put_tcp f (f.options ++ f.payload)) domain d f.src_port
      f.dst_port f.seq f.ack (flag_byte f) (20 + length f.options) f.payload (ground arith)
      (omega (arith, h.words, h.words_fit)) (ground arith)
      (ground (arith, length-append f.options f.payload)) (put16_lem f.src_port h.src_port_fits)
      (put16_lem f.dst_port h.dst_port_fits) (be32_lem f.seq h.seq_fits) (be32_lem f.ack h.ack_fits)
      refl (drop-drop 20 (length f.options) _ ∙ drop-append f.options f.payload)
    ∙ ap
        (λ (flags : TcpFlags). (
          ok (
              packet (record {
                ts_ns = ts_ns;
                key = keyed.0;
                direction = keyed.1;
                seq = some f.seq;
                ack = some f.ack;
                flags = flags;
                payload = f.payload;
                wire_len = wire_len;
              })),
          d,
        ))
        (tcp_flags-flag_byte f)

decode_ipv4_at :
    (env : Env) (inner : Layers) (ts_ns wire_len depth : ℕ) (p : Bytes) (domain : ℕ) (d : Decoder)
    (total ihl src dst : ℕ) (segment : Bytes)
    → 20 ≤ length p
    → byte p 0 / 16 ≡ 4
    → byte p 0 % 16 * 4 ≡ ihl
    → 20 ≤ ihl
    → be16 p 2 ≡ total
    → ihl ≤ total
    → total ≤ length p
    → be16 p 6 % 2 ^ 13 ≡ 0
    → bit (be16 p 6) 13 ≡ false
    → byte p 9 ≡ 6
    → be32 p 12 ≡ src
    → be32 p 16 ≡ dst
    → slice p ihl total ≡ segment
    → decode_ipv4 env inner ts_ns wire_len p domain depth d
      ≡ parse_tcp ts_ns wire_len (v4 src) (v4 dst) segment domain d
unfolding decode_ipv4 ipv4_payload decode_ip_payload
decode_ipv4_at env inner ts_ns wire_len depth p domain d total ihl src dst segment long version
      words proper e ordered fits g h i j k m =
    let a : ltb (length p) 20 ≡ false = ground arith in
    let a1 : ltb (length p) 1 ≡ false = ground arith in
    let a4 : ltb (length p) 4 ≡ false = ground arith in
    let b : ltb ihl 20 ≡ false = ground arith in
    let c : ltb (length p) ihl ≡ false = ground arith in
    let o : ltb total ihl ≡ false = ground arith in
    let f : ltb (length p) total ≡ false = ground arith in
    rw (a, a1, version, words, b, c, a4, e, o, f, g, h, i, j, k, m) refl

-- What the total length cuts from the bytes behind the IPv4 header.
segment_of :
    (f : TcpFrame)
    → slice
        (put_ipv4 f (put_tcp f (f.options ++ (f.payload ++ f.padding))))
        (20 + length f.ip_options)
        (total_len f)
      ≡ put_tcp f (f.options ++ f.payload)
segment_of f =
    let segment : Bytes = put_tcp f (f.options ++ f.payload) in
    let whole : Bytes = put_tcp f (f.options ++ (f.payload ++ f.padding)) in
    let n : total_len f - (20 + length f.ip_options) ≡ length segment =
      omega (arith, length-append f.options f.payload) in
    let behind : drop (20 + length f.ip_options) (put_ipv4 f whole) ≡ whole =
      drop-drop 20 (length f.ip_options) _ ∙ drop-append f.ip_options whole in
    rw (n, behind, ← append_assoc f.options f.payload f.padding) (take-append segment f.padding)

decode_ipv4-put_ipv4 :
    (env : Env) (inner : Layers) (ts_ns wire_len depth : ℕ) (f : TcpFrame) (d : Decoder)
    → IsEncodable f
    → decode_ipv4 env inner ts_ns wire_len
        (put_ipv4 f (put_tcp f (f.options ++ (f.payload ++ f.padding))))
        (domain_of 0 f.tags)
        depth
        d
      ≡ (ok (packet (packet_of ts_ns wire_len f)), d)
decode_ipv4-put_ipv4 env inner ts_ns wire_len depth f d h =
    let rest : Bytes = put_tcp f (f.options ++ (f.payload ++ f.padding)) in
    let size : length rest ≡ 20 + length f.options + length f.payload + length f.padding = omega (
      arith,
      length-append f.options (f.payload ++ f.padding),
      length-append f.payload f.padding,
    ) in
    let whole = length-append f.ip_options rest in
    decode_ipv4_at env inner ts_ns wire_len depth (put_ipv4 f rest) (domain_of 0 f.tags) d
      (total_len f) (20 + length f.ip_options) f.src f.dst (put_tcp f (f.options ++ f.payload))
      (omega (arith, whole, size)) (omega (arith, h.ip_words_fit))
      (omega (arith, h.ip_words_fit, h.ip_words)) (omega arith)
      (put16_lem (total_len f) h.total_fits) (omega arith) (omega (arith, whole, size))
      (ground arith) (ground arith) refl (be32_lem f.src h.src_fits) (be32_lem f.dst h.dst_fits)
      (segment_of f)
    ∙ parse_tcp-put_tcp ts_ns wire_len (v4 f.src) (v4 f.dst) f (domain_of 0 f.tags) d h

decode_ethernet_at :
    (here : Layers) (ts_ns wire_len : ℕ) (frame p : Bytes) (d : Decoder) (offset domain : ℕ)
    → ltb (length frame) 14 ≡ false
    → vlan_tags 4 frame 14 (be16 frame 12) 0 ≡ tagged offset 0x0800 domain
    → ltb (length frame) offset ≡ false
    → drop offset frame ≡ p
    → decode_ethernet_bytes here ts_ns wire_len frame 0 0 d ≡ here.ipv4 ts_ns wire_len p domain 0 d
unfolding decode_ethernet_bytes
decode_ethernet_at here ts_ns wire_len frame p d offset domain a b c e = rw (a, b, c, e) refl

-- Whatever the other header fields, a frame with an unfragmented TCP segment over IPv4, written as the
-- protocols define it, with up to four VLAN tags, with IPv4 and TCP options and padded at will, is decoded as
-- the packet with its addresses, ports, numbers, flags and payload, in the domain of its tags, and the
-- decoder stays as it was.
pub decode-put_frame :
    (env : Env) (ts_ns wire_len : ℕ) (f : TcpFrame) (d : Decoder)
    → IsEncodable f
    → decode env d (record { ts_ns = ts_ns; wire_len = wire_len; bytes = put_frame f })
      ≡ (ok (packet (packet_of ts_ns wire_len f)), d)
unfolding decode decoders
decode-put_frame env ts_ns wire_len f d h =
    let p : Bytes = put_ipv4 f (put_tcp f (f.options ++ (f.payload ++ f.padding))) in
    let behind = drop-put_ethernet f p in
    decode_ethernet_at _ ts_ns wire_len (put_frame f) p d (14 + 4 * length f.tags)
      (domain_of 0 f.tags) (ground (arith, length-put_ethernet f p))
      (vlan_tags-put_tags 4 f.tags (put_frame f) p 14 (be16 (put_frame f) 12) 0 12 h.are_tags
        h.few_tags refl refl refl)
      (ground (arith, length-put_ethernet f p)) behind
    ∙ decode_ipv4-put_ipv4 env (decoders env 3) ts_ns wire_len 0 f d h
