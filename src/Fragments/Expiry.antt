-- ===== src/Fragments/Expiry.antt =====
-- The expiry of idle datagrams, `FragmentCache::maintenance` in capture/fragment.rs.
use bazalt.Prelude.{
  ℕ, ◌≤◌, ◌≡◌, refl, ap, ◌∙◌, inl, inr, Bool, true, false, ◌||◌, Option, none, some, List, [], ◌∷◌,
  leb, if◌then◌else◌, saturating_sub, Bool-cases, Option-cases, arith,
}
use bazalt.HashMap.{HashMap, lookup}
use bazalt.HashMap.Laws.{Distinct, lookup-delete, lookup-delete_other, delete-Distinct}
use bazalt.Fragments.Types.{
  FragmentKey, FragmentState, FragmentCache, same_key, same_key_iff, fragment_key,
}
use bazalt.Fragments.Cache.{remove_key, remove_keys, expired_keys, maintenance}

-- A datagram was idle for the timeout or longer.
abbrev pub is_idle : ℕ → ℕ → FragmentState → Bool
is_idle now timeout st = leb timeout (saturating_sub now st.last_seen)

abbrev has_key : FragmentKey → List FragmentKey → Bool
has_key k [] = false
has_key k (j ∷ ks) = same_key k j || has_key k ks

has_key-expired :
    (now timeout : ℕ) (k : FragmentKey) (m : HashMap FragmentKey FragmentState)
    → Distinct m
    → has_key k (expired_keys now timeout m)
      ≡ elim (lookup k m) [ none ↦ false | some st ↦ is_idle now timeout st ]
unfolding expired_keys lookup
has_key-expired now timeout k [] d = refl
has_key-expired now timeout k ((j, st) ∷ m) d = elim (Bool-cases (same_key k j)) [
  | inl hit ↦
      let eq : k ≡ j = (same_key_iff k j).0 hit in
      let absent : lookup k m ≡ none = rw eq d.0 in
      ground (arith, has_key-expired now timeout k m d.1, absent)
  | inr miss ↦ ground (arith, has_key-expired now timeout k m d.1)
]

remove_key_same :
    (k : FragmentKey) (c : FragmentCache)
    → Distinct c.states
    → (lookup k (remove_key k c).states ≡ none) × Distinct (remove_key k c).states
unfolding remove_key
remove_key_same k c d = elim (Option-cases (lookup k c.states)) [
  | inl e ↦ rw (e, remove_key) (e, d)
  | inr (st, e) ↦ rw (e, remove_key) (lookup-delete k c.states d, delete-Distinct k c.states d)
]

remove_key_other :
    (i k : FragmentKey) (c : FragmentCache)
    → same_key i k ≡ false
    → lookup i (remove_key k c).states ≡ lookup i c.states
unfolding remove_key
remove_key_other i k c h = elim (Option-cases (lookup k c.states)) [
  | inl e ↦ rw (e, remove_key) refl
  | inr (st, e) ↦ rw (e, remove_key) (lookup-delete_other i k c.states h)
]

if_none : (b : Bool) {o : Option FragmentState} → o ≡ none → (if b then none else o) ≡ none
if_none true e = refl
if_none false e = e

lookup-remove_keys :
    (k : FragmentKey) (ks : List FragmentKey) (c : FragmentCache)
    → Distinct c.states
    → lookup k (remove_keys ks c).states ≡ (if has_key k ks then none else lookup k c.states)
unfolding remove_keys
lookup-remove_keys k [] c d = refl
lookup-remove_keys k (j ∷ ks) c d =
    let ih = lookup-remove_keys k ks (remove_key j c) (remove_key_same j c d).1 in
    elim (Bool-cases (same_key k j)) [
      | inl hit ↦
          let eq : k ≡ j = (same_key_iff k j).0 hit in
          let absent : lookup k (remove_key j c).states ≡ none = rw eq (remove_key_same j c d).0 in
          rw hit (ih ∙ if_none (has_key k ks) absent)
      | inr miss ↦
          rw miss (ih ∙ ap (λ o. if has_key k ks then none else o) (remove_key_other k j c miss))
    ]

-- A maintenance that is due, a second or more after the last, forgets exactly the datagrams that
-- were idle for the timeout or longer, and leaves every other as it was.
pub maintenance_lookup :
    (now : ℕ) (key : FragmentKey) (c : FragmentCache)
    → Distinct c.states
    → 1_000_000_000 ≤ saturating_sub now c.last_cleanup
    → lookup key (maintenance now c).1.states ≡ elim (lookup key c.states) [
      | none ↦ none
      | some st ↦ if is_idle now c.timeout st then none else some st
    ]
unfolding maintenance
maintenance_lookup now key c d due =
    let forgotten =
      lookup-remove_keys key (expired_keys now c.timeout c.states) (record c { last_cleanup = now })
        d in
    elim (Option-cases (lookup key c.states)) [
      | inl e ↦ ground (arith, forgotten, has_key-expired now c.timeout key c.states d)
      | inr (st, e) ↦ ground (arith, forgotten, has_key-expired now c.timeout key c.states d)
    ]
