-- ===== src/Decoder/Total.antt =====
-- `PacketDecoder::decode` in capture/parser.rs as a whole: it returns on every frame, and keeps the
-- fragment shards valid.
use bazalt.Prelude.{
  ℕ, zero, suc, ◌+◌, ◌-◌, ◌*◌, ◌/◌, ◌%◌, ◌^◌, ◌≡◌, ◌≤◌, ◌<◌, ◌≢◌, refl, Bool, true, not, ◌&&◌, ◌||◌,
  length, ltb, ◌==◌, if_cases, subst, arith,
}
use bazalt.Net.{IpAddr, v4, v6}
use bazalt.Fragments.Types.{
  FragmentKey, FragmentInsert, pending, complete, dropped_overlap, dropped_invalid,
}
use bazalt.Fragments.Shared.{insert_shared_lem, new_shared, new_shared-AllSound}
use bazalt.Decoder.Types.{
  Bytes, max_tunnel_depth, CapturedFrame, Result, stuck, Env, Decoder, Layers, fragment_received,
  fragment_reassembled, fragment_overlap_drop, apply_fragment_maintenance, cut_short, reads, byte,
  be16, be32, be128, bit,
}
use bazalt.Decoder.Headers.{walk_extensions, Tags, tagged, cut_tag, tag_panic, vlan_tags}
use bazalt.Decoder.Fuel.{walk_extensions-EndsWithin, TagsWithin, vlan_tags-TagsWithin}
use bazalt.Decoder.Network.{
  fragment_outcome, decode_fragment, ipv4_payload, decode_ipv4, decode_ipv6_post_fragment,
  ipv6_fragment, decode_ipv6,
}
use bazalt.Decoder.Layers.{decode_ethernet_bytes, decoders, decode, stateless}
use bazalt.Decoder.Runs.{
  IsFine, IsLive, Runs, RunsAt, LayersRun, rests, cut_short-Runs, reads-Runs, slices-Runs,
  walk_cases, decode_ip_payload-Runs,
}

fragment_outcome-Runs :
    (r : FragmentInsert) (resume : Bytes → ℕ → Decoder → Result × Decoder) (d : Decoder)
    → ((whole : Bytes) (wire_bytes : ℕ) (e : Decoder) → IsFine e → Runs (resume whole wire_bytes e))
    → IsFine d
    → Runs (fragment_outcome r resume d)
unfolding fragment_outcome fragment_overlap_drop fragment_reassembled
fragment_outcome-Runs pending resume d k s = rests _ d tt s
fragment_outcome-Runs dropped_overlap resume d k s =
    rests _ (fragment_overlap_drop d) tt (record { sound = s.sound; shards = s.shards })
fragment_outcome-Runs dropped_invalid resume d k s = rests _ d tt s
fragment_outcome-Runs (complete payload wire_bytes) resume d k s =
    k payload wire_bytes (fragment_reassembled d) (record { sound = s.sound; shards = s.shards })

decode_fragment-Runs :
    (env : Env) (key : FragmentKey) (offset : ℕ) (more : Bool) (payload : Bytes) (wire_len : ℕ)
    (resume : Bytes → ℕ → Decoder → Result × Decoder) (d : Decoder)
    → ((whole : Bytes) (wire_bytes : ℕ) (e : Decoder) → IsFine e → Runs (resume whole wire_bytes e))
    → IsFine d
    → Runs (decode_fragment env key offset more payload wire_len resume d)
unfolding decode_fragment fragment_received apply_fragment_maintenance
decode_fragment-Runs env key offset more payload wire_len resume d k s =
    let found =
      insert_shared_lem env.hash (env.clock d.readings) key offset more payload wire_len d.fragments
        s.shards s.sound in
    rw (found.1, decode_fragment)
      (fragment_outcome-Runs found.0.0.result resume _ k
        (record { sound = found.2; shards = found.3 }))

module _ (env : Env) (inner : Layers) (depth : ℕ)
    (deep : ltb depth max_tunnel_depth ≡ true → LayersRun (depth + 1) inner) where
  ipv4_payload-Runs : RunsAt depth (ipv4_payload env inner)
  unfolding ipv4_payload
  ipv4_payload-Runs ts_ns wire_len p domain d s =
      let src = v4 (be32 p 12) in
      let dst = v4 (be32 p 16) in
      if_cases Runs (not (be16 p 6 % 2 ^ 13 * 8 == 0) || bit (be16 p 6) 13)
        (λ part.
          decode_fragment-Runs env _ _ _ _ _ _ d
            (λ whole wire_bytes e f.
              decode_ip_payload-Runs env inner depth deep ts_ns wire_bytes src dst (byte p 9) whole
                domain e f)
            s)
        (λ single.
          decode_ip_payload-Runs env inner depth deep ts_ns wire_len src dst (byte p 9) _ domain d
            s)

  decode_ipv4-Runs : RunsAt depth (decode_ipv4 env inner)
  unfolding decode_ipv4
  decode_ipv4-Runs ts_ns wire_len p domain d s =
      if_cases Runs (ltb (length p) 20) (λ short. cut_short-Runs d s)
        (λ head. reads-Runs p 1 d _ (ground arith) (
          if_cases Runs (not (byte p 0 / 16 == 4)) (λ bad. rests _ d tt s)
            (λ version.
              if_cases Runs (ltb (byte p 0 % 16 * 4) 20) (λ bad. rests _ d tt s)
                (λ ihl.
                  if_cases Runs (ltb (length p) (byte p 0 % 16 * 4)) (λ short. cut_short-Runs d s)
                    (λ options. reads-Runs p 4 d _ (ground arith) (
                      if_cases Runs (ltb (be16 p 2) (byte p 0 % 16 * 4)) (λ bad. rests _ d tt s)
                        (λ total.
                          if_cases Runs (ltb (length p) (be16 p 2)) (λ short. cut_short-Runs d s)
                            (λ fits. reads-Runs p 20 d _ (ground arith) (
                              slices-Runs p _ _ d _ (ground arith) (ground arith)
                                (ipv4_payload-Runs ts_ns wire_len p domain d s))))))))))

  decode_ipv6_post_fragment-Runs :
      (ts_ns wire_len : ℕ) (src dst : IpAddr) (next : ℕ) (payload : Bytes) (domain : ℕ)
      (d : Decoder)
      → IsFine d
      → Runs
          (decode_ipv6_post_fragment env inner ts_ns wire_len src dst next payload domain depth d)
  unfolding decode_ipv6_post_fragment
  decode_ipv6_post_fragment-Runs ts_ns wire_len src dst next payload domain d s =
      let n = length payload in
      walk_cases n (walk_extensions (n + 1) payload n next 0) _ _ _ _
        (walk_extensions-EndsWithin (n + 1) payload n next 0 (omega arith) (omega arith)
          (omega arith))
        (λ protocol offset within. reads-Runs payload offset d _ within (
          decode_ip_payload-Runs env inner depth deep ts_ns wire_len src dst protocol _ domain d s))
        (λ offset e. rests _ d tt s) (cut_short-Runs d s)

  ipv6_fragment-Runs :
      (offset ts_ns wire_len : ℕ) (p : Bytes) (domain : ℕ) (d : Decoder)
      → 40 + be16 p 4 ≤ length p
      → IsFine d
      → Runs (ipv6_fragment env inner ts_ns wire_len p offset domain depth d)
  unfolding ipv6_fragment
  ipv6_fragment-Runs offset ts_ns wire_len p domain d whole_packet s =
      let src = v6 (be128 p 8) in
      let dst = v6 (be128 p 24) in
      let frag = be16 p (offset + 2) in
      let frag_next = byte p offset in
      if_cases Runs (ltb (40 + be16 p 4) (offset + 8)) (λ short. cut_short-Runs d s)
        (λ fits. slices-Runs p (offset + 8) (40 + be16 p 4) d _ (ground arith) whole_packet (
          if_cases Runs (frag - frag % 8 == 0 && not (bit frag 0))
            (λ atomic. decode_ipv6_post_fragment-Runs ts_ns wire_len src dst frag_next _ domain d s)
            (λ part.
              decode_fragment-Runs env _ _ _ _ _ _ d
                (λ whole wire_bytes e f.
                  decode_ipv6_post_fragment-Runs ts_ns wire_bytes src dst frag_next whole domain e
                    f)
                s)))

  decode_ipv6-Runs : RunsAt depth (decode_ipv6 env inner)
  unfolding decode_ipv6
  decode_ipv6-Runs ts_ns wire_len p domain d s =
      let ip_len = 40 + be16 p 4 in
      if_cases Runs (ltb (length p) 40) (λ short. cut_short-Runs d s)
        (λ head. reads-Runs p 1 d _ (ground arith) (
          if_cases Runs (not (byte p 0 / 16 == 6)) (λ bad. rests _ d tt s)
            (λ version. reads-Runs p 6 d _ (ground arith) (
              if_cases Runs (ltb (length p) ip_len) (λ short. cut_short-Runs d s)
                (λ fits. reads-Runs p 40 d _ (ground arith) (
                  walk_cases ip_len (walk_extensions (ip_len + 1) p ip_len (byte p 6) 40) _ _ _ _
                    (walk_extensions-EndsWithin (ip_len + 1) p ip_len (byte p 6) 40 (ground arith)
                      (omega arith) (omega arith))
                    (λ next offset within.
                      if_cases Runs (ltb ip_len offset) (λ past. rests _ d tt s)
                        (λ inside. slices-Runs p offset ip_len d _ within (ground arith) (
                          decode_ip_payload-Runs env inner depth deep ts_ns wire_len
                            (v6 (be128 p 8)) (v6 (be128 p 24)) next _ domain d s)))
                    (λ offset e.
                      ipv6_fragment-Runs offset ts_ns wire_len p domain d (ground arith) s)
                    (cut_short-Runs d s)))))))

tags_cases :
    (frame : Bytes) (d : Decoder) (t : Tags) (k : ℕ → ℕ → ℕ → Result × Decoder)
    → TagsWithin frame t
    → IsFine d
    → ((offset ethertype domain : ℕ) → Runs (k offset ethertype domain))
    → Runs (elim t [
      | tag_panic ↦ (stuck, d)
      | cut_tag ↦ cut_short d
      | tagged offset ethertype domain ↦ reads frame offset d (k offset ethertype domain)
    ])
tags_cases frame d (tagged offset ethertype domain) k h s r =
    reads-Runs frame offset d _ h (r offset ethertype domain)
tags_cases frame d cut_tag k h s r = cut_short-Runs d s
tags_cases frame d tag_panic k h s r = absurd h

decode_ethernet_bytes-Runs :
    (depth : ℕ) (here : Layers)
    → RunsAt depth here.ipv4
    → RunsAt depth here.ipv6
    → RunsAt depth (decode_ethernet_bytes here)
unfolding decode_ethernet_bytes
decode_ethernet_bytes-Runs depth here four six ts_ns wire_len frame domain d s =
    if_cases Runs (ltb max_tunnel_depth depth) (λ deep. rests _ d tt s)
      (λ shallow.
        if_cases Runs (ltb (length frame) 14) (λ short. cut_short-Runs d s)
          (λ head. reads-Runs frame 14 d _ (ground arith) (
            tags_cases frame d (vlan_tags 4 frame 14 (be16 frame 12) domain) _
              (vlan_tags-TagsWithin 4 frame 14 _ domain (ground arith)) s
              (λ offset ethertype inside.
                if_cases Runs (ethertype == 0x0800) (λ is4. four ts_ns wire_len _ inside d s)
                  (λ not4.
                    if_cases Runs (ethertype == 0x86dd) (λ is6. six ts_ns wire_len _ inside d s)
                      (λ other. rests _ d tt s))))))

-- As many levels as tunnels may still be entered are enough.
decoders-LayersRun :
    (env : Env) (levels depth : ℕ)
    → max_tunnel_depth < levels + depth
    → 0 < levels
    → LayersRun depth (decoders env levels)
unfolding decoders
decoders-LayersRun env zero depth enough some_level = absurd (omega arith)
decoders-LayersRun env (suc levels) depth enough some_level =
    let deep : ltb depth max_tunnel_depth ≡ true → LayersRun (depth + 1) (decoders env levels) =
      λ h. decoders-LayersRun env levels (depth + 1) (ground arith) (ground arith) in
    let four = decode_ipv4-Runs env (decoders env levels) depth deep in
    let six = decode_ipv6-Runs env (decoders env levels) depth deep in
    record { ethernet = decode_ethernet_bytes-Runs depth _ four six; ipv4 = four; ipv6 = six }

-- With valid fragment shards, `decode` returns on every frame: no loop runs on, no tunnel descends past
-- its bound and no shard index is out of range; and it leaves the shards valid.
pub decode-total :
    (env : Env) (d : Decoder) (frame : CapturedFrame)
    → IsFine d
    → ((decode env d frame).0 ≢ stuck) × IsFine (decode env d frame).1
unfolding decode
decode-total env d frame s =
    let r =
      (decoders-LayersRun env 4 0 (omega arith) (omega arith)).ethernet frame.ts_ns frame.wire_len
        frame.bytes 0 d s in
    (λ e. subst IsLive e r.live, r.fine)

pub stateless-IsFine : (clock : ℕ → ℕ) → IsFine (stateless clock)
unfolding stateless new_shared
stateless-IsFine clock = record {
  sound = new_shared-AllSound (64 * 1024) 64 1_000_000_000 (clock 0) (omega arith);
  shards = refl;
}
