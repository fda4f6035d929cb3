-- ===== src/Decoder/Domain.antt =====
-- The identity of VLANs and tunnels in capture/parser.rs.
use Prim.Native.Nat.{bit_xor, bit_or}
use bazalt.Prelude.{
  ℕ, ◌+◌, ◌-◌, ◌*◌, ◌/◌, ◌%◌, ◌^◌, ◌≡◌, refl, ap, Bool, true, false, leb, if◌then◌else◌, Bool-cases,
  inl, inr, arith,
}
use bazalt.Net.{IpAddr, v4, v6}
use bazalt.FlowKeys.Types.{wrapping_mul64}

-- `rotate_left` on `u64`.
abbrev pub rotate_left64 : ℕ → ℕ → ℕ
rotate_left64 x k = x * 2 ^ k % 2 ^ 64 + x / 2 ^ (64 - k)

unfoldable pub mix_domain : ℕ → ℕ → ℕ → ℕ
mix_domain domain kind value =
    let z0 =
      bit_xor (bit_xor domain (rotate_left64 kind 17))
        (wrapping_mul64 value 0x9e37_79b9_7f4a_7c15) in
    let z1 = wrapping_mul64 (bit_xor z0 (z0 / 2 ^ 30)) 0xbf58_476d_1ce4_e5b9 in
    let z2 = wrapping_mul64 (bit_xor z1 (z1 / 2 ^ 27)) 0x94d0_49bb_1331_11eb in
    bit_or (bit_xor z2 (z2 / 2 ^ 31)) 1

-- `src <= dst` on addresses: every IPv4 address is below every IPv6 address.
abbrev pub addr_le : IpAddr → IpAddr → Bool
addr_le (v4 a) (v4 b) = leb a b
addr_le (v4 a) (v6 b) = true
addr_le (v6 a) (v4 b) = false
addr_le (v6 a) (v6 b) = leb a b

-- One round of the loop over the two addresses.
unfoldable pub mix_addr : ℕ → ℕ → IpAddr → ℕ → ℕ
unfolding mix_domain
mix_addr kind tag (v4 ip) domain = mix_domain domain (bit_xor kind tag) ip
mix_addr kind tag (v6 ip) domain =
    mix_domain (mix_domain domain (bit_xor kind tag) (ip / 2 ^ 64))
      (bit_xor kind (rotate_left64 tag 7)) (ip % 2 ^ 64)

unfoldable pub mix_tunnel_domain : ℕ → ℕ → IpAddr → IpAddr → ℕ → ℕ
unfolding mix_domain mix_addr
mix_tunnel_domain domain kind src dst id =
    let (first, second) : IpAddr × IpAddr = if addr_le src dst then (src, dst) else (dst, src) in
    mix_addr kind 0x4453_5402 second (mix_addr kind 0x5352_4301 first (mix_domain domain kind id))

addr_le_antisym : (a b : IpAddr) → addr_le a b ≡ true → addr_le b a ≡ true → a ≡ b
addr_le_antisym (v4 a) (v4 b) h k = ap v4 (ground arith)
addr_le_antisym (v4 a) (v6 b) h k = absurd (cc)
addr_le_antisym (v6 a) (v4 b) h k = absurd (cc)
addr_le_antisym (v6 a) (v6 b) h k = ap v6 (ground arith)

addr_le_total : (a b : IpAddr) → addr_le a b ≡ false → addr_le b a ≡ true
addr_le_total (v4 a) (v4 b) h = ground arith
addr_le_total (v4 a) (v6 b) h = absurd (cc)
addr_le_total (v6 a) (v4 b) h = refl
addr_le_total (v6 a) (v6 b) h = ground arith

-- Both directions of a tunnel have one domain: exchanging the two addresses leaves the result as it is.
pub mix_tunnel_domain_comm :
    (domain kind : ℕ) (a b : IpAddr) (id : ℕ)
    → mix_tunnel_domain domain kind a b id ≡ mix_tunnel_domain domain kind b a id
unfolding mix_tunnel_domain
mix_tunnel_domain_comm domain kind a b id = elim (Bool-cases (addr_le a b)) [
  | inl le ↦ elim (Bool-cases (addr_le b a)) [
    | inl ge ↦ rw (addr_le_antisym a b le ge) refl
    | inr lt ↦ rw (le, lt) refl
  ]
  | inr gt ↦ rw (gt, addr_le_total a b gt) refl
]
