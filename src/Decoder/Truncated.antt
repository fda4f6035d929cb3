-- ===== src/Decoder/Truncated.antt =====
-- Frames that capture/parser.rs refuses because the capture cut them off.
use bazalt.Prelude.{
  ℕ, ◌+◌, ◌*◌, ◌/◌, ◌%◌, ◌<◌, ◌≤◌, ◌≡◌, ◌⊎◌, sym, subst, zero, suc, Bool-cases, if◌then◌else◌, inl,
  inr, refl, not, Option, none, some, length, get_elem?-drop, length-drop, ltb, ◌==◌, drop,
  if_cases, ap, arith,
}
use bazalt.Decoder.Types.{
  Bytes, CapturedFrame, Result, ok, ignored, stuck, err, invalid, Env, Decoder, Layers, cut_short,
  reads, byte, be16,
}
use bazalt.Decoder.Headers.{is_vlan, Tags, tagged, cut_tag, tag_panic, vlan_tags}
use bazalt.Decoder.Domain.{mix_domain}
use bazalt.Decoder.Fuel.{TagsWithin, vlan_tags-TagsWithin}
use bazalt.Decoder.Network.{decode_ipv4, decode_ipv6}
use bazalt.Decoder.Layers.{decode_ethernet_bytes, decoders, decode}

-- Where the Ethertype stands that is behind so many VLAN tags at most.
abbrev pub type_at : ℕ → Bytes → ℕ → ℕ
type_at zero frame e = e
type_at (suc n) frame e = if is_vlan (be16 frame e) then type_at n frame (e + 4) else e

-- The frame ends before the IP packet that is behind its tags, within the fixed part of the IP header, or
-- before the length that this header states. (Behind its end a frame reads as zeros here.)
abbrev pub CutAt : ℕ → Bytes → Type 0
CutAt e frame =
    (length frame < e + 2)
    ⊎ (((be16 frame e ≡ 0x0800)
          × ((length frame < e + 22) ⊎ (length frame < e + 2 + be16 frame (e + 4))))
        ⊎ ((be16 frame e ≡ 0x86dd)
            × ((length frame < e + 42) ⊎ (length frame < e + 42 + be16 frame (e + 6)))))

abbrev pub IsCut : Bytes → Type 0
IsCut frame = CutAt (type_at 4 frame 12) frame

-- An error, and the decoder as it was but for the counter of truncated packets.
abbrev pub Refuses : Decoder → Result × Decoder → Type 0
Refuses d r = (r ≡ cut_short d) ⊎ (r ≡ (err invalid, d))

reads-Refuses :
    (p : Bytes) (n : ℕ) (d : Decoder) (r : Result × Decoder)
    → n ≤ length p
    → Refuses d r
    → Refuses d (reads p n d r)
reads-Refuses p n d r h k =
    if_cases (Refuses d) (ltb (length p) n) (λ short. absurd (ground arith)) (λ fits. k)

decode_ipv4_short :
    (env : Env) (inner : Layers) (ts_ns wire_len : ℕ) (p : Bytes) (domain depth : ℕ) (d : Decoder)
    → (length p < 20) ⊎ (length p < be16 p 2)
    → Refuses d (decode_ipv4 env inner ts_ns wire_len p domain depth d)
unfolding decode_ipv4
decode_ipv4_short env inner ts_ns wire_len p domain depth d h =
    let ihl = byte p 0 % 16 * 4 in
    if_cases (Refuses d) (ltb (length p) 20) (λ short. inl refl)
      (λ head. reads-Refuses p 1 d _ (ground arith) (
        if_cases (Refuses d) (not (byte p 0 / 16 == 4)) (λ bad. inr refl)
          (λ version.
            if_cases (Refuses d) (ltb ihl 20) (λ bad. inr refl)
              (λ ihl_ok.
                if_cases (Refuses d) (ltb (length p) ihl) (λ short. inl refl)
                  (λ options. reads-Refuses p 4 d _ (ground arith) (
                    if_cases (Refuses d) (ltb (be16 p 2) ihl) (λ bad. inr refl)
                      (λ total.
                        if_cases (Refuses d) (ltb (length p) (be16 p 2)) (λ short. inl refl)
                          (λ fits. absurd (elim h [
                            | inl a ↦ ground (arith, a, head)
                            | inr b ↦ ground (arith, b, fits)
                          ])))))))))

decode_ipv6_short :
    (env : Env) (inner : Layers) (ts_ns wire_len : ℕ) (p : Bytes) (domain depth : ℕ) (d : Decoder)
    → (length p < 40) ⊎ (length p < 40 + be16 p 4)
    → Refuses d (decode_ipv6 env inner ts_ns wire_len p domain depth d)
unfolding decode_ipv6
decode_ipv6_short env inner ts_ns wire_len p domain depth d h =
    if_cases (Refuses d) (ltb (length p) 40) (λ short. inl refl)
      (λ head. reads-Refuses p 1 d _ (ground arith) (
        if_cases (Refuses d) (not (byte p 0 / 16 == 6)) (λ bad. inr refl)
          (λ version. reads-Refuses p 6 d _ (ground arith) (
            if_cases (Refuses d) (ltb (length p) (40 + be16 p 4)) (λ short. inl refl)
              (λ fits.
                absurd (elim h [
                  | inl a ↦ ground (arith, a, head)
                  | inr b ↦ ground (arith, b, fits)
                ]))))))

byte-drop : (n : ℕ) (p : Bytes) (i : ℕ) → byte (drop n p) i ≡ byte p (n + i)
byte-drop n p i =
    ap (λ (o : Option ℕ). elim o as (λ _. ℕ) [ none ↦ 0 | some b ↦ b ]) (get_elem?-drop n p i)

pub be16-drop : (n : ℕ) (p : Bytes) (i : ℕ) → be16 (drop n p) i ≡ be16 p (n + i)
be16-drop n p i =
    let following : n + (i + 1) ≡ n + i + 1 = omega arith in
    omega (arith, byte-drop n p i, byte-drop n p (i + 1), ap (byte p) following)

-- The loop over tags finds that Ethertype, or a tag that does not fit.
abbrev Finds : Bytes → ℕ → Tags → Type 0
Finds frame e (tagged offset ethertype domain) = (offset ≡ e + 2) × (ethertype ≡ be16 frame e)
Finds frame e cut_tag = Unit {0}
Finds frame e tag_panic = Unit {0}

vlan_tags-Finds :
    (n : ℕ) (frame : Bytes) (offset ethertype domain e : ℕ)
    → offset ≡ e + 2
    → ethertype ≡ be16 frame e
    → Finds frame (type_at n frame e) (vlan_tags n frame offset ethertype domain)
unfolding vlan_tags
vlan_tags-Finds zero frame offset ethertype domain e o t = (o, t)
vlan_tags-Finds (suc n) frame offset ethertype domain e o t =
    elim (Bool-cases (is_vlan (be16 frame e))) [
      | inl tag ↦
          let next : offset + 2 ≡ e + 4 = omega (arith, o) in
          let deep =
            vlan_tags-Finds n frame (offset + 4) (be16 frame (offset + 2))
              (mix_domain domain 0x564c_414e (be16 frame offset % 4096)) (e + 4) (omega (arith, o))
              (ap (be16 frame) next) in
          rw (t, tag)
            (if_cases (Finds frame (type_at n frame (e + 4))) (ltb (length frame) (offset + 4))
              (λ short. tt)
              (λ fits.
                if_cases (Finds frame (type_at n frame (e + 4))) (ltb (length frame) (offset + 4))
                  (λ panics. tt) (λ in_range. deep)))
      | inr last ↦ rw (t, last) (o, refl)
    ]

module _ (env : Env) (inner : Layers) (ts_ns wire_len : ℕ) (frame : Bytes) (d : Decoder) where
  cut_packet_turned_away :
      (e domain : ℕ)
      → e + 2 ≤ length frame
      → e ≡ type_at 4 frame 12
      → IsCut frame
      → Refuses d (
          if be16 frame e == 0x0800
          then decode_ipv4 env inner ts_ns wire_len (drop (e + 2) frame) domain 0 d
          else if be16 frame e == 0x86dd
          then decode_ipv6 env inner ts_ns wire_len (drop (e + 2) frame) domain 0 d
          else (ok ignored, d))
  cut_packet_turned_away e domain fits place h =
      let p = drop (e + 2) frame in
      let size = length-drop (e + 2) frame in
      let two_on : e + 2 + 2 ≡ e + 4 = omega arith in
      let four_on : e + 2 + 4 ≡ e + 6 = omega arith in
      elim (subst (λ (at : ℕ). CutAt at frame) (sym place) h) [
        | inl short ↦ absurd (omega arith)
        | inr (inl four) ↦ rw four.0 (
            decode_ipv4_short env inner ts_ns wire_len p domain 0 d (elim four.1 [
              | inl a ↦ inl (omega (arith, a, size))
              | inr b ↦
                  inr (omega (arith, b, size, be16-drop (e + 2) frame 2, ap (be16 frame) two_on))
            ]))
        | inr (inr six) ↦ rw six.0 (
            decode_ipv6_short env inner ts_ns wire_len p domain 0 d (elim six.1 [
              | inl a ↦ inl (omega (arith, a, size))
              | inr b ↦
                  inr (omega (arith, b, size, be16-drop (e + 2) frame 4, ap (be16 frame) four_on))
            ]))
      ]

  cut_tags_turned_away :
      (t : Tags)
      → TagsWithin frame t
      → Finds frame (type_at 4 frame 12) t
      → IsCut frame
      → Refuses d (elim t [
        | tag_panic ↦ (stuck, d)
        | cut_tag ↦ cut_short d
        | tagged offset ethertype domain ↦ reads frame offset d (
            if ethertype == 0x0800
            then decode_ipv4 env inner ts_ns wire_len (drop offset frame) domain 0 d
            else if ethertype == 0x86dd
            then decode_ipv6 env inner ts_ns wire_len (drop offset frame) domain 0 d
            else (ok ignored, d))
      ])
  cut_tags_turned_away (tagged offset ethertype domain) within found h =
      let e = type_at 4 frame 12 in
      let fits : e + 2 ≤ length frame = omega (arith, within, found.0) in
      rw (found.0, found.1)
        (reads-Refuses frame (e + 2) d _ fits (cut_packet_turned_away e domain fits refl h))
  cut_tags_turned_away cut_tag within found h = inl refl
  cut_tags_turned_away tag_panic within found h = absurd within

  decode_ethernet_bytes-Refuses :
      IsCut frame
      → Refuses d (
          decode_ethernet_bytes
            (record inner { ipv4 = decode_ipv4 env inner; ipv6 = decode_ipv6 env inner })
            ts_ns
            wire_len
            frame
            0
            0
            d)
  unfolding decode_ethernet_bytes
  decode_ethernet_bytes-Refuses h =
      if_cases (Refuses d) (ltb (length frame) 14) (λ short. inl refl)
        (λ head. reads-Refuses frame 14 d _ (ground arith) (
          cut_tags_turned_away (vlan_tags 4 frame 14 (be16 frame 12) 0)
            (vlan_tags-TagsWithin 4 frame 14 (be16 frame 12) 0 (ground arith))
            (vlan_tags-Finds 4 frame 14 (be16 frame 12) 0 12 refl refl) h))

-- A frame that ends too early is refused, with an error: before the IP packet behind its VLAN tags, within
-- the fixed part of the IP header, or before the length that this header states. No packet comes of it, and
-- the fragments, the clock and all counters but that of truncated packets stay.
pub decode-Refuses :
    (env : Env) (d : Decoder) (frame : CapturedFrame)
    → IsCut frame.bytes
    → Refuses d (decode env d frame)
unfolding decode decoders
decode-Refuses env d frame h =
    decode_ethernet_bytes-Refuses env (decoders env 3) frame.ts_ns frame.wire_len frame.bytes d h
