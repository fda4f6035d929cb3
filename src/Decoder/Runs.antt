-- ===== src/Decoder/Runs.antt =====
-- The decoders of capture/parser.rs by layers: every one of them returns, and keeps the fragment
-- shards valid. The level below is a hypothesis, for a tunnel that may be entered.
use bazalt.Prelude.{
  ℕ, zero, suc, ◌+◌, ◌*◌, ◌/◌, ◌%◌, ◌≡◌, ◌≤◌, ◌≢◌, refl, true, not, ◌&&◌, ◌||◌, length, ltb, ◌==◌,
  if◌then◌else◌, if_cases, arith,
}
use bazalt.Net.{IpAddr}
use bazalt.Fragments.Shared.{AllSound, fragment_shards}
use bazalt.Decoder.Types.{
  Bytes, max_tunnel_depth, Result, ok, err, stuck, Env, Decoder, Decode, Layers, cut_short,
  mark_truncated, reads, slices, byte, be16, be32, bit, slice,
}
use bazalt.Decoder.Headers.{Walk, upper, fragment_header, cut, no_end, skip_routes}
use bazalt.Decoder.Fuel.{EndsWithin, skip_routes-EndsWithin}
use bazalt.Decoder.Payload.{
  parse_tcp, enters_vxlan, decode_udp, enter_gre, walk_gre, decode_gre, decode_ip_payload,
}

-- The shards of the fragment cache are valid and as many as the code makes.
pub record IsFine (d : Decoder) : Type 0 where
  pub sound : AllSound d.fragments
  pub shards : length d.fragments ≡ fragment_shards

abbrev pub IsLive : Result → Type 0
IsLive (ok o) = Unit {0}
IsLive (err e) = Unit {0}
IsLive stuck = ⊥

-- A result of the code, and a decoder that is fine.
pub record Runs (r : Result × Decoder) : Type 0 where
  pub live : IsLive r.0
  pub fine : IsFine r.1

abbrev pub RunsAt : ℕ → Decode → Type 0
RunsAt depth f =
    (ts_ns wire_len : ℕ) (p : Bytes) (domain : ℕ) (d : Decoder)
    → IsFine d
    → Runs (f ts_ns wire_len p domain depth d)

pub record LayersRun (depth : ℕ) (inner : Layers) : Type 0 where
  pub ethernet : RunsAt depth inner.ethernet
  pub ipv4 : RunsAt depth inner.ipv4
  pub ipv6 : RunsAt depth inner.ipv6

pub rests : (r : Result) (d : Decoder) → IsLive r → IsFine d → Runs (r, d)
rests r d l s = record { live = l; fine = s }

pub cut_short-Runs : (d : Decoder) → IsFine d → Runs (cut_short d)
unfolding mark_truncated
cut_short-Runs d s = record { live = tt; fine = record { sound = s.sound; shards = s.shards } }

-- Reads and slices in range do not panic.
pub reads-Runs :
    (p : Bytes) (n : ℕ) (d : Decoder) (r : Result × Decoder)
    → n ≤ length p
    → Runs r
    → Runs (reads p n d r)
reads-Runs p n d r h k =
    if_cases Runs (ltb (length p) n) (λ short. absurd (ground arith)) (λ fits. k)

pub slices-Runs :
    (p : Bytes) (from to : ℕ) (d : Decoder) (r : Result × Decoder)
    → from ≤ to
    → to ≤ length p
    → Runs r
    → Runs (slices p from to d r)
slices-Runs p from to d r h g k =
    if_cases Runs (ltb to from) (λ bad. absurd (ground arith)) (λ good. reads-Runs p to d r g k)

-- Where a walk over headers ends decides what follows.
pub walk_cases :
    (limit : ℕ) (w : Walk) (u : ℕ → ℕ → Result × Decoder) (f : ℕ → Result × Decoder)
    (c o : Result × Decoder)
    → EndsWithin limit w
    → ((next offset : ℕ) → offset ≤ limit → Runs (u next offset))
    → ((offset : ℕ) → w ≡ fragment_header offset → Runs (f offset))
    → Runs c
    → Runs (elim w [
      | upper next offset ↦ u next offset
      | fragment_header offset ↦ f offset
      | cut ↦ c
      | no_end ↦ o
    ])
walk_cases limit (upper next offset) ul fl cl ol h u f c = u next offset h
walk_cases limit (fragment_header offset) ul fl cl ol h u f c = f offset refl
walk_cases limit cut ul fl cl ol h u f c = c
walk_cases limit no_end ul fl cl ol h u f c = absurd h

-- The routes of GRE hold no fragment header.
skip_routes-no_fragment :
    (fuel : ℕ) (gre : Bytes) (offset at : ℕ) → skip_routes fuel gre offset ≢ fragment_header at
unfolding skip_routes
skip_routes-no_fragment zero gre offset at e = absurd (cc)
skip_routes-no_fragment (suc fuel) gre offset at e =
    ground (arith, skip_routes-no_fragment fuel gre (offset + 4 + byte gre (offset + 3)) at)

pub parse_tcp-Runs :
    (ts_ns wire_len : ℕ) (src dst : IpAddr) (p : Bytes) (l2_domain : ℕ) (d : Decoder)
    → IsFine d
    → Runs (parse_tcp ts_ns wire_len src dst p l2_domain d)
unfolding parse_tcp
parse_tcp-Runs ts_ns wire_len src dst p l2_domain d s =
    if_cases Runs (ltb (length p) 20) (λ short. cut_short-Runs d s)
      (λ head. reads-Runs p 14 d _ (ground arith) (
        if_cases Runs (ltb (byte p 12 / 16 * 4) 20) (λ bad. rests _ d tt s)
          (λ good.
            if_cases Runs (ltb (length p) (byte p 12 / 16 * 4)) (λ short. cut_short-Runs d s)
              (λ fits. reads-Runs p _ d _ (ground arith) (rests _ d tt s)))))

module _ (env : Env) (inner : Layers) (depth : ℕ)
    (deep : ltb depth max_tunnel_depth ≡ true → LayersRun (depth + 1) inner) where
  decode_udp-Runs :
      (ts_ns wire_len : ℕ) (src dst : IpAddr) (p : Bytes) (l2_domain : ℕ) (d : Decoder)
      → IsFine d
      → Runs (decode_udp env inner ts_ns wire_len src dst p l2_domain depth d)
  unfolding decode_udp
  decode_udp-Runs ts_ns wire_len src dst p l2_domain d s =
      let vxlan = slice p 8 (be16 p 4) in
      if_cases Runs (ltb (length p) 8) (λ short. cut_short-Runs d s)
        (λ head. reads-Runs p 6 d _ (ground arith) (
          if_cases Runs (ltb (be16 p 4) 8) (λ bad. rests _ d tt s)
            (λ good.
              if_cases Runs (ltb (length p) (be16 p 4)) (λ short. cut_short-Runs d s)
                (λ fits. slices-Runs p 8 (be16 p 4) d _ (ground arith) (ground arith) (
                  if_cases Runs (enters_vxlan env depth (be16 p 2) vxlan)
                    (λ enters.
                      reads-Runs vxlan 8 d _ (ground arith)
                        ((deep (ground arith)).ethernet ts_ns wire_len _ _ d s))
                    (λ stays. rests _ d tt s))))))

  enter_gre-Runs :
      (ts_ns wire_len : ℕ) (src dst : IpAddr) (gre : Bytes) (l2_domain gre_key offset : ℕ)
      (d : Decoder)
      → ltb depth max_tunnel_depth ≡ true
      → IsFine d
      → Runs (enter_gre inner ts_ns wire_len src dst gre l2_domain depth gre_key offset d)
  unfolding enter_gre
  enter_gre-Runs ts_ns wire_len src dst gre l2_domain gre_key offset d h s =
      let l = deep h in
      if_cases Runs (ltb (length gre) offset) (λ short. cut_short-Runs d s)
        (λ fits. reads-Runs gre offset d _ (ground arith) (
          if_cases Runs (be16 gre 2 == 0x0800) (λ four. l.ipv4 ts_ns wire_len _ _ d s)
            (λ no4.
              if_cases Runs (be16 gre 2 == 0x86dd) (λ six. l.ipv6 ts_ns wire_len _ _ d s)
                (λ no6.
                  if_cases Runs (be16 gre 2 == 0x6558) (λ teb. l.ethernet ts_ns wire_len _ _ d s)
                    (λ other. rests _ d tt s)))))

  walk_gre-Runs :
      (ts_ns wire_len : ℕ) (src dst : IpAddr) (gre : Bytes) (l2_domain gre_key after_key : ℕ)
      (d : Decoder)
      → ltb depth max_tunnel_depth ≡ true
      → IsFine d
      → Runs (walk_gre inner ts_ns wire_len src dst gre l2_domain depth gre_key after_key d)
  unfolding walk_gre
  walk_gre-Runs ts_ns wire_len src dst gre l2_domain gre_key after_key d h s =
      let offset = if bit (be16 gre 0) 12 then after_key + 4 else after_key in
      if_cases Runs (bit (be16 gre 0) 14)
        (λ routes.
          walk_cases (length gre) (skip_routes (length gre + 1) gre offset) _ _ _ _
            (skip_routes-EndsWithin (length gre + 1) gre offset (omega arith))
            (λ next at within. enter_gre-Runs ts_ns wire_len src dst gre l2_domain gre_key at d h s)
            (λ at e. absurd (skip_routes-no_fragment (length gre + 1) gre offset at e))
            (cut_short-Runs d s))
        (λ straight. enter_gre-Runs ts_ns wire_len src dst gre l2_domain gre_key offset d h s)

  decode_gre-Runs :
      (ts_ns wire_len : ℕ) (src dst : IpAddr) (gre : Bytes) (l2_domain : ℕ) (d : Decoder)
      → IsFine d
      → Runs (decode_gre inner ts_ns wire_len src dst gre l2_domain depth d)
  unfolding decode_gre
  decode_gre-Runs ts_ns wire_len src dst gre l2_domain d s =
      let flags = be16 gre 0 in
      let offset : ℕ = if bit flags 15 || bit flags 14 then 8 else 4 in
      if_cases Runs (not (ltb depth max_tunnel_depth)) (λ over. rests _ d tt s)
        (λ under.
          let h : ltb depth max_tunnel_depth ≡ true = ground arith in
          if_cases Runs (ltb (length gre) 4) (λ short. cut_short-Runs d s)
            (λ head. reads-Runs gre 4 d _ (ground arith) (
              if_cases Runs (not (flags % 8 == 0)) (λ other. rests _ d tt s)
                (λ zero_version.
                  if_cases Runs (not (bit flags 13))
                    (λ plain. walk_gre-Runs ts_ns wire_len src dst gre l2_domain 0 offset d h s)
                    (λ keyed.
                      if_cases Runs (ltb (length gre) (offset + 4)) (λ short. cut_short-Runs d s)
                        (λ fits. reads-Runs gre (offset + 4) d _ (ground arith) (
                          walk_gre-Runs ts_ns wire_len src dst gre l2_domain (be32 gre offset)
                            (offset + 4) d h s)))))))

  pub decode_ip_payload-Runs :
      (ts_ns wire_len : ℕ) (src dst : IpAddr) (protocol : ℕ) (p : Bytes) (l2_domain : ℕ)
      (d : Decoder)
      → IsFine d
      → Runs (decode_ip_payload env inner ts_ns wire_len src dst protocol p l2_domain depth d)
  unfolding decode_ip_payload
  decode_ip_payload-Runs ts_ns wire_len src dst protocol p l2_domain d s =
      let enters = env.tunnel_decapsulation && ltb depth max_tunnel_depth in
      if_cases Runs (protocol == 6) (λ t. parse_tcp-Runs ts_ns wire_len src dst p l2_domain d s)
        (λ not6.
          if_cases Runs (protocol == 17)
            (λ u. decode_udp-Runs ts_ns wire_len src dst p l2_domain d s)
            (λ not17.
              if_cases Runs (protocol == 47 && enters)
                (λ g. decode_gre-Runs ts_ns wire_len src dst p l2_domain d s)
                (λ not47.
                  if_cases Runs (protocol == 4 && enters)
                    (λ i. (deep (ground arith)).ipv4 ts_ns wire_len p _ d s)
                    (λ not4.
                      if_cases Runs (protocol == 41 && enters)
                        (λ i. (deep (ground arith)).ipv6 ts_ns wire_len p _ d s)
                        (λ other. rests _ d tt s)))))
