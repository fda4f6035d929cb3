-- ===== src/Decoder/Network.antt =====
-- The decoders of IPv4 and IPv6 packets and of their fragments in capture/parser.rs.
use bazalt.Prelude.{
  ℕ, ◌+◌, ◌-◌, ◌*◌, ◌/◌, ◌%◌, ◌^◌, Bool, not, ◌&&◌, ◌||◌, none, some, length, ltb, ◌==◌,
  if◌then◌else◌, drop,
}
use bazalt.Net.{IpAddr, v4, v6}
use bazalt.Fragments.Types.{
  FragmentKey, FragmentInsert, pending, complete, dropped_overlap, dropped_invalid,
}
use bazalt.Fragments.Shared.{insert_shared}
use bazalt.Decoder.Types.{
  Bytes, pending_fragment, ignored, ok, err, invalid, stuck, Result, Env, Decoder, Layers,
  cut_short, reads, slices, byte, be16, be32, be128, bit, slice, fragment_received,
  fragment_reassembled, fragment_overlap_drop, apply_fragment_maintenance,
}
use bazalt.Decoder.Headers.{upper, fragment_header, cut, no_end, walk_extensions}
use bazalt.Decoder.Payload.{decode_ip_payload}

-- What follows the insertion of a fragment; a complete datagram goes on with its payload and its wire
-- bytes.
unfoldable pub fragment_outcome :
    FragmentInsert → (Bytes → ℕ → Decoder → Result × Decoder) → Decoder → Result × Decoder
fragment_outcome pending resume d = (ok pending_fragment, d)
fragment_outcome dropped_overlap resume d = (ok ignored, fragment_overlap_drop d)
fragment_outcome dropped_invalid resume d = (ok ignored, d)
fragment_outcome (complete payload wire_bytes) resume d =
    resume payload wire_bytes (fragment_reassembled d)

-- The fragment arm, the same in both decoders.
unfoldable pub decode_fragment :
    Env
    → FragmentKey
    → ℕ
    → Bool
    → Bytes
    → ℕ
    → (Bytes → ℕ → Decoder → Result × Decoder)
    → Decoder
    → Result × Decoder
decode_fragment env key offset more payload wire_len resume d0 =
    let d = fragment_received d0 in
    elim (insert_shared env.hash (env.clock d.readings) key offset more payload wire_len
      d.fragments) [
        | none ↦ (stuck, d)
        | some r ↦ fragment_outcome r.0.result resume (
            apply_fragment_maintenance r.0.maintenance
              (record d { fragments = r.1; readings = d.readings + 1 }))
      ]

-- An IPv4 packet whose header and length fit.
unfoldable pub ipv4_payload : Env → Layers → ℕ → ℕ → Bytes → ℕ → ℕ → Decoder → Result × Decoder
ipv4_payload env inner ts_ns wire_len p l2_domain depth d =
    let ihl = byte p 0 % 16 * 4 in
    let src = v4 (be32 p 12) in
    let dst = v4 (be32 p 16) in
    let protocol = byte p 9 in
    let frag = be16 p 6 in
    let offset = frag % 2 ^ 13 * 8 in
    let more = bit frag 13 in
    let payload = slice p ihl (be16 p 2) in
    let key : FragmentKey = record {
      version = 4;
      l2_domain = l2_domain;
      src = src;
      dst = dst;
      id = be16 p 4;
      next_header = protocol;
    } in
    if not (offset == 0) || more
    then decode_fragment env key offset more payload wire_len
        (λ whole wire_bytes.
          decode_ip_payload env inner ts_ns wire_bytes src dst protocol whole l2_domain depth)
        d
    else decode_ip_payload env inner ts_ns wire_len src dst protocol payload l2_domain depth d

unfoldable pub decode_ipv4 : Env → Layers → ℕ → ℕ → Bytes → ℕ → ℕ → Decoder → Result × Decoder
decode_ipv4 env inner ts_ns wire_len p l2_domain depth d =
    let ihl = byte p 0 % 16 * 4 in
    let total_len = be16 p 2 in
    if ltb (length p) 20
    then cut_short d
    else reads p 1 d (
        if not (byte p 0 / 16 == 4)
        then (err invalid, d)
        else if ltb ihl 20
        then (err invalid, d)
        else if ltb (length p) ihl
        then cut_short d
        else reads p 4 d (
            if ltb total_len ihl
            then (err invalid, d)
            else if ltb (length p) total_len
            then cut_short d
            else reads p 20 d (
                slices p ihl total_len d
                  (ipv4_payload env inner ts_ns wire_len p l2_domain depth d))))

unfoldable pub decode_ipv6_post_fragment :
    Env → Layers → ℕ → ℕ → IpAddr → IpAddr → ℕ → Bytes → ℕ → ℕ → Decoder → Result × Decoder
decode_ipv6_post_fragment env inner ts_ns wire_len src dst next payload l2_domain depth d =
    elim (walk_extensions (length payload + 1) payload (length payload) next 0) [
      | upper protocol offset ↦ reads payload offset d (
          decode_ip_payload env inner ts_ns wire_len src dst protocol (drop offset payload)
            l2_domain depth d)
      | fragment_header offset ↦ (ok ignored, d)
      | cut ↦ cut_short d
      | no_end ↦ (stuck, d)
    ]

-- The arm of the fragment header, which stands at `offset`.
unfoldable pub ipv6_fragment : Env → Layers → ℕ → ℕ → Bytes → ℕ → ℕ → ℕ → Decoder → Result × Decoder
ipv6_fragment env inner ts_ns wire_len p offset l2_domain depth d =
    let ip_len = 40 + be16 p 4 in
    let src = v6 (be128 p 8) in
    let dst = v6 (be128 p 24) in
    let frag_next = byte p offset in
    let frag = be16 p (offset + 2) in
    let fragment_offset = frag - frag % 8 in
    let more = bit frag 0 in
    let fragment_payload = slice p (offset + 8) ip_len in
    let key : FragmentKey = record {
      version = 6;
      l2_domain = l2_domain;
      src = src;
      dst = dst;
      id = be32 p (offset + 4);
      next_header = frag_next;
    } in
    if ltb ip_len (offset + 8)
    then cut_short d
    else slices p (offset + 8) ip_len d (
        if fragment_offset == 0 && not more
        then decode_ipv6_post_fragment env inner ts_ns wire_len src dst frag_next fragment_payload
            l2_domain depth d
        else decode_fragment env key fragment_offset more fragment_payload wire_len
            (λ whole wire_bytes.
              decode_ipv6_post_fragment env inner ts_ns wire_bytes src dst frag_next whole l2_domain
                depth)
            d)

unfoldable pub decode_ipv6 : Env → Layers → ℕ → ℕ → Bytes → ℕ → ℕ → Decoder → Result × Decoder
decode_ipv6 env inner ts_ns wire_len p l2_domain depth d =
    let ip_len = 40 + be16 p 4 in
    if ltb (length p) 40
    then cut_short d
    else reads p 1 d (
        if not (byte p 0 / 16 == 6)
        then (err invalid, d)
        else reads p 6 d (
            if ltb (length p) ip_len
            then cut_short d
            else reads p 40 d (elim (walk_extensions (ip_len + 1) p ip_len (byte p 6) 40) [
              | upper next offset ↦
                  (if ltb ip_len offset
                    then (err invalid, d)
                    else slices p offset ip_len d (
                        decode_ip_payload env inner ts_ns wire_len (v6 (be128 p 8))
                          (v6 (be128 p 24)) next (slice p offset ip_len) l2_domain depth d))
              | fragment_header offset ↦
                  ipv6_fragment env inner ts_ns wire_len p offset l2_domain depth d
              | cut ↦ cut_short d
              | no_end ↦ (stuck, d)
            ])))
