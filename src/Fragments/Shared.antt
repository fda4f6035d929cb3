-- ===== src/Fragments/Shared.antt =====
-- `SharedFragmentCache` in capture/fragment.rs: a fragment goes to the shard that its key hashes to.
-- The randomised hash is an argument. A shard's lock makes its `insert` one step.
use bazalt.Prelude.{
  ◌⊎◌, inl, inr, ℕ_discrete, ℕ, zero, suc, ◌*◌, ◌/◌, ◌%◌, ◌≤◌, ◌^◌, ◌≡◌, ◌≢◌, refl, Bool, Option,
  none, some, List, [], ◌∷◌, length, get_elem?, get_elem?-lt, max, arith,
}
use bazalt.Fragments.Types.{Bytes, FragmentKey, FragmentCache, new_cache}
use bazalt.Fragments.Cache.{Inserted, insert_fragment}
use bazalt.Fragments.Sound.{IsSound, new_cache-IsSound}
use bazalt.Fragments.Valid.{insert_fragment-IsValid}

abbrev pub fragment_shards : ℕ
fragment_shards = 64

abbrev replicate : ℕ → FragmentCache → List FragmentCache
replicate zero c = []
replicate (suc n) c = c ∷ replicate n c

-- `SharedFragmentCache::new` at the time `now`.
unfoldable pub new_shared : ℕ → ℕ → ℕ → ℕ → List FragmentCache
new_shared max_bytes max_datagrams timeout now = replicate fragment_shards (
    new_cache (max (max_bytes / fragment_shards) (64 * 1024))
      (max (max_datagrams / fragment_shards) 1) timeout now)

abbrev set_at : ℕ → FragmentCache → List FragmentCache → List FragmentCache
set_at i c [] = []
set_at zero c (d ∷ ds) = c ∷ ds
set_at (suc i) c (d ∷ ds) = d ∷ set_at i c ds

-- `hasher.finish() & (FRAGMENT_SHARDS - 1)`
abbrev pub shard_of : (FragmentKey → ℕ) → FragmentKey → ℕ
shard_of hash key = hash key % fragment_shards

-- `SharedFragmentCache::insert`; an index past the shards would panic.
unfoldable pub insert_shared :
    (FragmentKey → ℕ)
    → ℕ
    → FragmentKey
    → ℕ
    → Bool
    → Bytes
    → ℕ
    → List FragmentCache
    → Option (Inserted × List FragmentCache)
insert_shared hash now key offset more payload wire_len shards =
    elim (get_elem? shards (shard_of hash key)) [
      | none ↦ none
      | some shard ↦
          let i = insert_fragment now key offset more payload wire_len shard in
          some (i, set_at (shard_of hash key) i.cache shards)
    ]

abbrev pub AllSound : List FragmentCache → Type 0
AllSound [] = Unit {0}
AllSound (c ∷ cs) = IsSound 0 0 c × AllSound cs

AllSound-get :
    (i : ℕ) (cs : List FragmentCache) {c : FragmentCache}
    → AllSound cs
    → get_elem? cs i ≡ some c
    → IsSound 0 0 c
AllSound-get i [] s h = absurd (cc)
AllSound-get zero (d ∷ ds) {c} s h = let same : d ≡ c = ground arith in rw (← same) s.0
AllSound-get (suc i) (d ∷ ds) s h = AllSound-get i ds s.1 h

AllSound-set :
    (i : ℕ) (c : FragmentCache) (cs : List FragmentCache)
    → IsSound 0 0 c
    → AllSound cs
    → AllSound (set_at i c cs)
AllSound-set i c [] v s = tt
AllSound-set zero c (d ∷ ds) v s = (v, s.1)
AllSound-set (suc i) c (d ∷ ds) v s = (s.0, AllSound-set i c ds v s.1)

length-set_at :
    (i : ℕ) (c : FragmentCache) (cs : List FragmentCache) → length (set_at i c cs) ≡ length cs
length-set_at i c [] = refl
length-set_at zero c (d ∷ ds) = refl
length-set_at (suc i) c (d ∷ ds) = omega (arith, length-set_at i c ds)

get_elem?-set_at_other :
    (i j : ℕ) (c : FragmentCache) (cs : List FragmentCache)
    → i ≢ j
    → get_elem? (set_at i c cs) j ≡ get_elem? cs j
get_elem?-set_at_other i j c [] d = refl
get_elem?-set_at_other zero zero c (e ∷ es) d = absurd (d refl)
get_elem?-set_at_other zero (suc j) c (e ∷ es) d = refl
get_elem?-set_at_other (suc i) zero c (e ∷ es) d = refl
get_elem?-set_at_other (suc i) (suc j) c (e ∷ es) d =
    get_elem?-set_at_other i j c es (λ e. d (omega arith))

insert_shared_at :
    (hash : FragmentKey → ℕ) (now : ℕ) (key : FragmentKey) (offset : ℕ) (more : Bool)
    (payload : Bytes) (wire_len : ℕ) (shards : List FragmentCache) (shard : FragmentCache)
    → get_elem? shards (shard_of hash key) ≡ some shard
    → let i = insert_fragment now key offset more payload wire_len shard in
      insert_shared hash now key offset more payload wire_len shards
      ≡ some (i, set_at (shard_of hash key) i.cache shards)
unfolding insert_shared
insert_shared_at hash now key offset more payload wire_len shards shard found =
    rw (found, insert_shared) refl

-- For 64 valid shards and any hash: an insertion does not panic, all shards stay valid and 64, and
-- every shard but the one that the key hashes to is as it was.
pub insert_shared_lem :
    (hash : FragmentKey → ℕ) (now : ℕ) (key : FragmentKey) (offset : ℕ) (more : Bool)
    (payload : Bytes) (wire_len : ℕ) (shards : List FragmentCache)
    → length shards ≡ fragment_shards
    → AllSound shards
    → (r : Inserted × List FragmentCache) × (insert_shared hash now key offset more payload wire_len
          shards
        ≡ some r)
      × AllSound r.1
      × (length r.1 ≡ fragment_shards)
      × ((j : ℕ) → (shard_of hash key ≡ j) ⊎ (get_elem? r.1 j ≡ get_elem? shards j))
insert_shared_lem hash now key offset more payload wire_len shards n s =
    let (shard, found) = get_elem?-lt shards (shard_of hash key) (omega arith) in
    let i = insert_fragment now key offset more payload wire_len shard in
    let v =
      insert_fragment-IsValid now key offset more payload wire_len shard
        (AllSound-get (shard_of hash key) shards s found) in
    (
      (i, set_at (shard_of hash key) i.cache shards),
      insert_shared_at hash now key offset more payload wire_len shards shard found,
      AllSound-set (shard_of hash key) i.cache shards v s,
      omega (arith, length-set_at (shard_of hash key) i.cache shards),
      λ j. elim (ℕ_discrete (shard_of hash key) j) [
        | yes same ↦ inl same
        | no differ ↦ inr (get_elem?-set_at_other (shard_of hash key) j i.cache shards differ)
      ],
    )

replicate-AllSound : (n : ℕ) (c : FragmentCache) → IsSound 0 0 c → AllSound (replicate n c)
replicate-AllSound zero c v = tt
replicate-AllSound (suc n) c v = (v, replicate-AllSound n c v)

pub new_shared-AllSound :
    (max_bytes max_datagrams timeout now : ℕ)
    → max_bytes ≤ 2 ^ 63
    → AllSound (new_shared max_bytes max_datagrams timeout now)
unfolding new_shared
new_shared-AllSound max_bytes max_datagrams timeout now h =
    replicate-AllSound fragment_shards _ (new_cache-IsSound _ _ timeout now (omega arith))
