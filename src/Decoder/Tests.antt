-- ===== src/Decoder/Tests.antt =====
-- Unit tests of capture/parser.rs as evaluations, and the theorems at concrete inputs.
use bazalt.Prelude.{
  inl, inr, ℕ, ◌/◌, ◌%◌, ◌≡◌, ◌≢◌, refl, true, false, Option, none, some, [], ◌∷◌, ◌++◌, run_loop,
  take, arith,
}
use bazalt.BTreeMap.{insert, get, last_lt, first_ge}
use bazalt.HashMap.{lookup, put, delete}
use bazalt.FlowKeys.Canonical.{canonical_with_domain}
use bazalt.Fragments.Pieces.{
  declare_total, check_total, overlaps_prev, overlaps_next, judge_overlap, judge, store_fragment,
  contiguous,
}
use bazalt.Fragments.Cache.{
  remove_key, is_complete, try_complete, oldest, evict_oldest, expired_keys, remove_keys,
  maintenance, open_entry, evict_round, enforce_limits, finish_fresh, insert_at, insert_maintained,
  insert_fragment,
}
use bazalt.Fragments.Shared.{new_shared, insert_shared}
use bazalt.Decoder.Types.{
  Bytes, packet, pending_fragment, ignored, ok, err, stuck, truncated, Result, Env, Decoder,
  mark_truncated, fragment_received, fragment_reassembled, fragment_overlap_drop,
  apply_fragment_maintenance,
}
use bazalt.Decoder.Domain.{mix_domain, mix_addr, mix_tunnel_domain}
use bazalt.Decoder.Headers.{vlan_tags, walk_extensions, skip_routes}
use bazalt.Decoder.Payload.{
  parse_tcp, decode_udp, enter_gre, walk_gre, decode_gre, decode_ip_payload,
}
use bazalt.Decoder.Network.{
  fragment_outcome, decode_fragment, ipv4_payload, decode_ipv4, decode_ipv6_post_fragment,
  ipv6_fragment, decode_ipv6,
}
use bazalt.Decoder.Layers.{decode_ethernet_bytes, decoders, decode, stateless}
use bazalt.Decoder.Runs.{IsFine}
use bazalt.Decoder.Total.{decode-total, stateless-IsFine}
use bazalt.Decoder.Wire.{TcpFrame, put_frame, IsEncodable, packet_of}
use bazalt.Decoder.Frames.{decode-put_frame}
use bazalt.Decoder.Truncated.{Refuses, decode-Refuses}

abbrev segment : TcpFrame
segment = record {
  dst_mac = 1;
  src_mac = 2;
  tags = (0x88a8, 7) ∷ (0x8100, 0x2009) ∷ [];
  service = 0;
  id = 7;
  dont_fragment = true;
  ttl = 64;
  ip_checksum = 0;
  ip_option_words = 1;
  ip_options = 148 ∷ 4 ∷ 0 ∷ 0 ∷ [];
  src = 0x0a00_0001;
  dst = 0x0a00_0002;
  src_port = 12_345;
  dst_port = 80;
  seq = 1_000;
  ack = 5;
  fin = false;
  syn = false;
  rst = false;
  psh = true;
  has_ack = true;
  high_flags = 0;
  window = 512;
  tcp_checksum = 0;
  urgent = 0;
  option_words = 1;
  options = 1 ∷ 1 ∷ 1 ∷ 0 ∷ [];
  payload = 71 ∷ 69 ∷ 84 ∷ [];
  padding = 0 ∷ 0 ∷ [];
}

abbrev env : Env
env = record { hash = λ key. 3; clock = λ reading. reading; tunnel_decapsulation = true }

started : Decoder
unfolding stateless new_shared
started = stateless (λ reading. reading)

run : Decoder → Bytes → Result × Decoder
unfolding run_loop insert get last_lt first_ge lookup put delete declare_total check_total
    overlaps_prev overlaps_next judge_overlap judge store_fragment contiguous remove_key is_complete
    try_complete oldest evict_oldest expired_keys remove_keys maintenance open_entry evict_round
    enforce_limits finish_fresh insert_at insert_maintained insert_fragment insert_shared
    mark_truncated fragment_received fragment_reassembled fragment_overlap_drop
    apply_fragment_maintenance canonical_with_domain mix_domain mix_addr mix_tunnel_domain vlan_tags
    walk_extensions skip_routes parse_tcp decode_udp enter_gre walk_gre decode_gre decode_ip_payload
    fragment_outcome decode_fragment ipv4_payload decode_ipv4 decode_ipv6_post_fragment
    ipv6_fragment decode_ipv6 decode_ethernet_bytes decoders decode
run d bytes = decode env d (record { ts_ns = 1; wire_len = 60; bytes = bytes })

parses : (run started (put_frame segment)).0 ≡ ok (packet (packet_of 1 60 segment))
unfolding run started
parses = refl

rejects_cut : (run started (take 60 (put_frame segment))).0 ≡ err truncated
unfolding run started
rejects_cut = refl

-- A UDP datagram over IPv4, of so many bytes, with its fragment field and its bytes from the UDP
-- header on.
abbrev datagram : ℕ → ℕ → Bytes → Bytes
datagram frag total rest =
    (0
      ∷ 0
      ∷ 0
      ∷ 0
      ∷ 0
      ∷ 1
      ∷ 0
      ∷ 0
      ∷ 0
      ∷ 0
      ∷ 0
      ∷ 2
      ∷ 8
      ∷ 0
      ∷ 0x45
      ∷ 0
      ∷ 0
      ∷ total
      ∷ 0
      ∷ 9
      ∷ frag / 256
      ∷ frag % 256
      ∷ 64
      ∷ 17
      ∷ 0
      ∷ 0
      ∷ 10
      ∷ 0
      ∷ 0
      ∷ 1
      ∷ 10
      ∷ 0
      ∷ 0
      ∷ 2
      ∷ [])
    ++ rest

abbrev payload_of : Result → Option Bytes
payload_of (ok (packet p)) = some p.payload
payload_of (ok pending_fragment) = none
payload_of (ok ignored) = none
payload_of (err e) = none
payload_of stuck = none

-- The second fragment first, then the first.
second : Result × Decoder
unfolding run started
second = run started (datagram 1 22 (65 ∷ 66 ∷ []))

waits : second.0 ≡ ok pending_fragment
unfolding second
waits = refl

reassembles :
    payload_of (run second.1 (datagram 0x2000 28 (0 ∷ 7 ∷ 0 ∷ 9 ∷ 0 ∷ 10 ∷ 0 ∷ 0 ∷ []))).0
    ≡ some (65 ∷ 66 ∷ [])
unfolding run second
reassembles = refl

-- The segment in VXLAN, on port 4789.
vxlan : Bytes
vxlan =
    datagram 0 111 (
      (0 ∷ 7 ∷ 18 ∷ 181 ∷ 0 ∷ 91 ∷ 0 ∷ 0 ∷ 8 ∷ 0 ∷ 0 ∷ 0 ∷ 0 ∷ 1 ∷ 0 ∷ 0 ∷ []) ++ put_frame segment)

decapsulates : payload_of (run started vxlan).0 ≡ some (71 ∷ 69 ∷ 84 ∷ [])
unfolding run started vxlan
decapsulates = refl

decode-total_example :
    let r =
      decode env
        (stateless (λ reading. reading))
        (record { ts_ns = 1; wire_len = 60; bytes = put_frame segment }) in
    (r.0 ≢ stuck) × IsFine r.1
decode-total_example =
    decode-total env (stateless (λ reading. reading))
      (record { ts_ns = 1; wire_len = 60; bytes = put_frame segment })
      (stateless-IsFine (λ reading. reading))

segment-IsEncodable : IsEncodable segment
segment-IsEncodable = record {
  are_tags = (refl, omega arith, (refl, omega arith, tt));
  few_tags = omega arith;
  total_fits = omega arith;
  src_fits = omega arith;
  dst_fits = omega arith;
  src_port_fits = omega arith;
  dst_port_fits = omega arith;
  seq_fits = omega arith;
  ack_fits = omega arith;
  words_fit = omega arith;
  ip_words_fit = omega arith;
  ip_words = refl;
  words = refl;
}

decode-put_frame_example :
    decode env
      (stateless (λ reading. reading))
      (record { ts_ns = 1; wire_len = 60; bytes = put_frame segment })
    ≡ (ok (packet (packet_of 1 60 segment)), stateless (λ reading. reading))
decode-put_frame_example =
    decode-put_frame env 1 60 segment (stateless (λ reading. reading)) segment-IsEncodable

decode-Refuses_example :
    let d = stateless (λ reading. reading) in
    Refuses d
      (decode env d (record { ts_ns = 1; wire_len = 60; bytes = take 60 (put_frame segment) }))
decode-Refuses_example =
    decode-Refuses env (stateless (λ reading. reading))
      (record { ts_ns = 1; wire_len = 60; bytes = take 60 (put_frame segment) })
      (inr (inl (refl, inr (omega arith))))
