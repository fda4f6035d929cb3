-- ===== src/FlowKeys/Canonical.antt =====
-- `FlowKey::canonical_with_domain` in model.rs, the two directions of a flow.
use bazalt.Prelude.{
  ℕ, ◌≡◌, ◌⊎◌, inl, inr, refl, ap, ◌∙◌, sym, true, false, if◌then◌else◌, Bool-cases, arith,
}
use bazalt.Net.{IpAddr}
use bazalt.FlowKeys.Types.{
  TransportProtocol, Direction, a_to_b, b_to_a, opposite, Endpoint, FlowKey, ParsedPacket,
  source_endpoint, destination_endpoint, shard_hash64,
}
use bazalt.FlowKeys.Order.{le, le_antisym, le_total}

unfoldable pub canonical_with_domain :
    IpAddr → ℕ → IpAddr → ℕ → TransportProtocol → ℕ → FlowKey × Direction
canonical_with_domain src_ip src_port dst_ip dst_port protocol l2_domain =
    let src : Endpoint = record { ip = src_ip; port = src_port } in
    let dst : Endpoint = record { ip = dst_ip; port = dst_port } in
    if le src dst
    then (record { a = src; b = dst; protocol = protocol; l2_domain = l2_domain }, a_to_b)
    else (record { a = dst; b = src; protocol = protocol; l2_domain = l2_domain }, b_to_a)

-- `FlowKey::canonical`
abbrev pub canonical : IpAddr → ℕ → IpAddr → ℕ → TransportProtocol → FlowKey × Direction
canonical src_ip src_port dst_ip dst_port protocol =
    canonical_with_domain src_ip src_port dst_ip dst_port protocol 0

pair_of : Endpoint → Endpoint → TransportProtocol → ℕ → FlowKey
pair_of a b protocol domain = record { a = a; b = b; protocol = protocol; l2_domain = domain }

canonical_le :
    (s d : Endpoint) (protocol : TransportProtocol) (domain : ℕ)
    → le s d ≡ true
    → canonical_with_domain s.ip s.port d.ip d.port protocol domain
      ≡ (pair_of s d protocol domain, a_to_b)
unfolding canonical_with_domain pair_of
canonical_le s d protocol domain h = rw (h, canonical_with_domain) refl

canonical_gt :
    (s d : Endpoint) (protocol : TransportProtocol) (domain : ℕ)
    → le s d ≡ false
    → canonical_with_domain s.ip s.port d.ip d.port protocol domain
      ≡ (pair_of d s protocol domain, b_to_a)
unfolding canonical_with_domain pair_of
canonical_gt s d protocol domain h = rw (h, canonical_with_domain) refl

same_key_back :
    (s d : Endpoint) (protocol : TransportProtocol) (domain : ℕ)
    → let there = canonical_with_domain s.ip s.port d.ip d.port protocol domain in
      let back = canonical_with_domain d.ip d.port s.ip s.port protocol domain in
      (there.0 ≡ back.0) × ((s ≡ d) ⊎ (back.1 ≡ opposite there.1))
same_key_back s d protocol domain = elim (Bool-cases (le s d)) [
  | inl h ↦ elim (Bool-cases (le d s)) [
    | inl g ↦
        let same : s ≡ d = le_antisym s d h g in
        rw (canonical_le s d protocol domain h, canonical_le d s protocol domain g)
          (
            ap (λ e. pair_of s e protocol domain) (sym same)
                ∙ ap (λ e. pair_of e s protocol domain) same,
            inl same,
          )
    | inr g ↦
        rw (canonical_le s d protocol domain h, canonical_gt d s protocol domain g) (refl, inr refl)
  ]
  | inr h ↦
      rw (canonical_gt s d protocol domain h, canonical_le d s protocol domain (le_total s d h))
        (refl, inr refl)
]

-- A packet and its answer have the same key, go to the same shard for any seed, and have opposite
-- directions where the endpoints differ.
pub canonical_swap :
    (s d : Endpoint) (protocol : TransportProtocol) (domain : ℕ)
    → let there = canonical_with_domain s.ip s.port d.ip d.port protocol domain in
      let back = canonical_with_domain d.ip d.port s.ip s.port protocol domain in
      (there.0 ≡ back.0)
      × ((seed : ℕ) → shard_hash64 there.0 seed ≡ shard_hash64 back.0 seed)
      × ((s ≡ d) ⊎ (back.1 ≡ opposite there.1))
canonical_swap s d protocol domain =
    let same = same_key_back s d protocol domain in
    (same.0, λ seed. ap (λ k. shard_hash64 k seed) same.0, same.1)

-- The key and the direction give back who sent the packet and who receives it.
pub endpoints_of_canonical :
    (p : ParsedPacket) (s d : Endpoint) (protocol : TransportProtocol) (domain : ℕ)
    → (p.key, p.direction) ≡ canonical_with_domain s.ip s.port d.ip d.port protocol domain
    → (source_endpoint p ≡ s) × (destination_endpoint p ≡ d)
unfolding source_endpoint destination_endpoint pair_of
endpoints_of_canonical p s d protocol domain e = elim (Bool-cases (le s d)) [
  | inl h ↦ let at = e ∙ canonical_le s d protocol domain h in ground (arith, at)
  | inr h ↦ let at = e ∙ canonical_gt s d protocol domain h in ground (arith, at)
]

-- A key and a direction stand for one flow only: packets that share them have the same endpoints, the
-- same protocol and the same VLAN or tunnel domain.
pub canonical_injective :
    (s d s' d' : Endpoint) (p p' : TransportProtocol) (domain domain' : ℕ)
    → canonical_with_domain s.ip s.port d.ip d.port p domain
      ≡ canonical_with_domain s'.ip s'.port d'.ip d'.port p' domain'
    → (s ≡ s') × (d ≡ d') × (p ≡ p') × (domain ≡ domain')
unfolding pair_of
canonical_injective s d s' d' p p' domain domain' e = elim (Bool-cases (le s d)) [
  | inl h ↦ elim (Bool-cases (le s' d')) [
    | inl g ↦
        let at = sym (canonical_le s d p domain h) ∙ e ∙ canonical_le s' d' p' domain' g in
        ground (arith, at)
    | inr g ↦
        let at = sym (canonical_le s d p domain h) ∙ e ∙ canonical_gt s' d' p' domain' g in
        absurd (ground (arith, at))
  ]
  | inr h ↦ elim (Bool-cases (le s' d')) [
    | inl g ↦
        let at = sym (canonical_gt s d p domain h) ∙ e ∙ canonical_le s' d' p' domain' g in
        absurd (ground (arith, at))
    | inr g ↦
        let at = sym (canonical_gt s d p domain h) ∙ e ∙ canonical_gt s' d' p' domain' g in
        ground (arith, at)
  ]
]
