-- ===== src/Fragments/Tests.antt =====
-- Unit tests of capture/fragment.rs as evaluations, and the theorems at concrete inputs.
use bazalt.Prelude.{
  ◌⊎◌, ℕ, ◌≡◌, refl, Bool, true, false, none, some, List, [], ◌∷◌, length, get_elem?, run_loop,
  arith,
}
use bazalt.Net.{v4}
use bazalt.BTreeMap.{insert, get, last_lt, first_ge}
use bazalt.HashMap.{lookup, put, delete}
use bazalt.Fragments.Types.{
  Bytes, FragmentKey, FragmentCache, complete, dropped_overlap, new_cache, fragment_key,
}
use bazalt.Fragments.Pieces.{
  declare_total, check_total, overlaps_prev, overlaps_next, judge_overlap, judge, store_fragment,
  contiguous,
}
use bazalt.Fragments.Intervals.{byte_at}
use bazalt.Fragments.Sound.{IsSound, new_cache-IsSound}
use bazalt.Fragments.Valid.{insert_fragment-IsValid}
use bazalt.Fragments.Complete.{IsUnion, pieces_of, insert_fragment-complete}
use bazalt.Fragments.Overlap.{IsDropped, Conflicts, insert_fragment-IsDropped}
use bazalt.Fragments.Waiting.{Waits, insert_fragment-Waits}
use bazalt.Fragments.Shared.{
  new_shared, insert_shared, shard_of, fragment_shards, AllSound, insert_shared_lem,
  new_shared-AllSound,
}
use bazalt.Fragments.Expiry.{maintenance_lookup}
use bazalt.Fragments.Cache.{
  remove_key, is_complete, try_complete, oldest, evict_oldest, expired_keys, remove_keys,
  maintenance, open_entry, evict_round, enforce_limits, Inserted, finish_fresh, insert_at,
  insert_maintained, insert_fragment,
}

abbrev key_of : ℕ → FragmentKey
key_of id = record { version = 4; l2_domain = 0; src = v4 1; dst = v4 2; id = id; next_header = 17 }

run_insert : ℕ → ℕ → ℕ → Bool → Bytes → FragmentCache → Inserted
unfolding insert get last_lt first_ge lookup put delete declare_total check_total overlaps_prev
    overlaps_next judge_overlap judge store_fragment contiguous remove_key is_complete try_complete
    oldest evict_oldest expired_keys remove_keys maintenance open_entry evict_round enforce_limits
    finish_fresh insert_at insert_maintained insert_fragment run_loop
run_insert now id offset more payload c = insert_fragment now (key_of id) offset more payload 60 c

abbrev eight : ℕ → Bytes
eight b = b ∷ b ∷ b ∷ b ∷ b ∷ b ∷ b ∷ b ∷ []

started : FragmentCache
unfolding run_insert
started = (run_insert 5 1 8 false (7 ∷ 7 ∷ []) (new_cache 0 2 1000 0)).cache

reorders :
    (run_insert 6 1 0 true (eight 1) started).result
    ≡ complete (1 ∷ 1 ∷ 1 ∷ 1 ∷ 1 ∷ 1 ∷ 1 ∷ 1 ∷ 7 ∷ 7 ∷ []) 120
unfolding started
reorders = refl

-- Eight bytes of a datagram whose length is not known yet.
opened : FragmentCache
unfolding run_insert
opened = (run_insert 5 1 0 true (eight 1) (new_cache 0 2 1000 0)).cache

overlap_drops : (run_insert 6 1 4 true (eight 2) opened).result ≡ dropped_overlap
unfolding opened
overlap_drops = refl

-- The third datagram is over the limit of two, and the oldest goes.
evicts :
    (run_insert 7 3 0 true
      (eight 3)
      (run_insert 6 2 0 true (eight 2) opened).cache).maintenance.evicted
    ≡ 1
unfolding opened
evicts = refl

opened-IsSound : IsSound 0 0 opened
unfolding opened
opened-IsSound =
    insert_fragment-IsValid 5 (key_of 1) 0 true (eight 1) 60 (new_cache 0 2 1000 0)
      (new_cache-IsSound 0 2 1000 0 (omega arith))

insert_fragment-IsValid_example : IsSound 0 0 (run_insert 6 1 8 false (7 ∷ []) opened).cache
unfolding run_insert
insert_fragment-IsValid_example =
    insert_fragment-IsValid 6 (key_of 1) 8 false (7 ∷ []) 60 opened opened-IsSound

insert_fragment-complete_example :
    IsUnion
      (pieces_of (key_of 1) (maintenance 6 opened).1)
      8
      (7 ∷ [])
      (1 ∷ 1 ∷ 1 ∷ 1 ∷ 1 ∷ 1 ∷ 1 ∷ 1 ∷ 7 ∷ [])
    × (lookup (key_of 1) (run_insert 6 1 8 false (7 ∷ []) opened).cache.states ≡ none)
unfolding opened
insert_fragment-complete_example =
    insert_fragment-complete 6 (key_of 1) 8 false (7 ∷ []) 60 opened
      (1 ∷ 1 ∷ 1 ∷ 1 ∷ 1 ∷ 1 ∷ 1 ∷ 1 ∷ 7 ∷ []) 120 opened-IsSound refl

overlapping : Conflicts (pieces_of (key_of 1) (maintenance 6 opened).1) 4 true (eight 2) 5
unfolding opened byte_at
overlapping = record { held = refl; from = omega arith; to = omega arith; differs = λ e. cc }

insert_fragment-IsDropped_example : IsDropped (key_of 1) (run_insert 6 1 4 true (eight 2) opened)
unfolding run_insert
insert_fragment-IsDropped_example =
    insert_fragment-IsDropped 6 (key_of 1) 4 true (eight 2) 60 opened 5 opened-IsSound (omega arith)
      overlapping

opened-Waits : Waits opened
unfolding opened
opened-Waits = record { waits = (refl, tt) }

insert_fragment-Waits_example : Waits (run_insert 6 1 8 false (7 ∷ []) opened).cache
unfolding run_insert
insert_fragment-Waits_example =
    insert_fragment-Waits 6 (key_of 1) 8 false (7 ∷ []) 60 opened opened-Waits

maintenance_lookup_example : lookup (key_of 1) (maintenance 2_000_000_000 opened).1.states ≡ none
unfolding opened
maintenance_lookup_example =
    maintenance_lookup 2_000_000_000 (key_of 1) opened opened-IsSound.distinct (omega arith)

abbrev id_hash : FragmentKey → ℕ
id_hash k = k.id

shards : List FragmentCache
unfolding new_shared
shards = new_shared 0 128 1000 0

insert_shared_lem_example :
    (r : Inserted × List FragmentCache) × (insert_shared id_hash 6
        (key_of 70)
        8
        false
        (7 ∷ [])
        60
        shards
      ≡ some r)
    × AllSound r.1
    × (length r.1 ≡ fragment_shards)
    × ((j : ℕ) → (shard_of id_hash (key_of 70) ≡ j) ⊎ (get_elem? r.1 j ≡ get_elem? shards j))
unfolding shards
insert_shared_lem_example =
    insert_shared_lem id_hash 6 (key_of 70) 8 false (7 ∷ []) 60 shards refl
      (new_shared-AllSound 0 128 1000 0 (omega arith))
