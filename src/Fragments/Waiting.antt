-- ===== src/Fragments/Waiting.antt =====
-- Complete datagrams and the cache, for `FragmentCache` in capture/fragment.rs.
use bazalt.Prelude.{
  ℕ, suc, ◌+◌, ◌≡◌, refl, inl, inr, Bool, false, ◌||◌, List, [], ◌∷◌, length, ltb, u64_max,
  saturating_add, saturating_sub, Bool-cases, Option-cases, if_cases, option_cases, run_loop_inv,
}
use bazalt.HashMap.{HashMap, lookup, put}
use bazalt.HashMap.Laws.{All, lookup-put, put-All, delete-All, delete-put}
use bazalt.Fragments.Types.{
  Bytes, FragmentKey, FragmentState, FragmentCache, FragmentMaintenance, new_state, fragment_key,
}
use bazalt.Fragments.Pieces.{Verdict, is_malformed, judge, store_fragment, added_len}
use bazalt.Fragments.Cache.{
  remove_key, remove_keys, is_complete, try_complete, oldest, evict_oldest, evict_round,
  enforce_limits, expired_keys, maintenance, open_entry, Inserted, finish_fresh, insert_at,
  insert_maintained, insert_fragment,
}
use bazalt.Fragments.Complete.{insert_cases}
use bazalt.Fragments.Valid.{verdict_cases, try_complete_done, try_complete_wait}

abbrev pub IsWaiting : FragmentState → Type 0
IsWaiting st = is_complete st ≡ false

-- Every datagram in the cache still misses something.
pub record Waits (c : FragmentCache) : Type 0 where
  pub waits : All IsWaiting c.states

remove_key-Waits : (key : FragmentKey) (c : FragmentCache) → Waits c → Waits (remove_key key c)
unfolding remove_key
remove_key-Waits key c w =
    option_cases Waits (lookup key c.states) (λ _. w)
      λ st _. record { waits = delete-All IsWaiting key c.states w.waits }

remove_keys-Waits :
    (keys : List FragmentKey) (c : FragmentCache) → Waits c → Waits (remove_keys keys c)
unfolding remove_keys
remove_keys-Waits [] c w = w
remove_keys-Waits (k ∷ ks) c w = remove_keys-Waits ks (remove_key k c) (remove_key-Waits k c w)

maintenance-Waits : (now : ℕ) (c : FragmentCache) → Waits c → Waits (maintenance now c).1
unfolding maintenance
maintenance-Waits now c w =
    if_cases (λ (r : FragmentMaintenance × FragmentCache). Waits r.1)
      (ltb (saturating_sub now c.last_cleanup) 1_000_000_000) (λ _. w)
      λ _.
        remove_keys-Waits (expired_keys now c.timeout c.states) (record c { last_cleanup = now })
          (record { waits = w.waits })

open_entry-Waits :
    (now : ℕ) (key : FragmentKey) (c : FragmentCache) → Waits c → Waits (open_entry now key c)
unfolding open_entry is_complete
open_entry-Waits now key c w = elim (Option-cases (lookup key c.states)) [
  | inr (st, e) ↦ rw (e, open_entry) w
  | inl e ↦
      rw (e, open_entry)
        (record { waits = put-All IsWaiting key (new_state now) c.states refl w.waits })
]

evict_oldest-Waits : (c : FragmentCache) → Waits c → Waits (evict_oldest c).0
unfolding evict_oldest
evict_oldest-Waits c w =
    option_cases (λ (r : FragmentCache × Bool). Waits r.0) (oldest c.states) (λ _. w)
      λ e _. remove_key-Waits e.0 c w

evict_round-Waits : (s : FragmentCache × ℕ) → Waits s.0 → Waits (evict_round s).0.0
unfolding evict_round
evict_round-Waits (c, evicted) w =
    if_cases P (ltb c.max_bytes c.bytes || ltb c.max_datagrams (length c.states))
      (λ _.
        if_cases P (evict_oldest c).1 (λ _. evict_oldest-Waits c w) (λ _. evict_oldest-Waits c w))
      (λ _. w)
  where
    P : (FragmentCache × ℕ) × Bool → Type 0
    P r = Waits r.0.0

enforce_limits-Waits : (s : FragmentCache × ℕ) → Waits s.0 → Waits (enforce_limits s).0
unfolding enforce_limits
enforce_limits-Waits (c, evicted) w =
    run_loop_inv (λ (s : FragmentCache × ℕ). Waits s.0) evict_round evict_round-Waits
      (suc (length c.states)) (c, evicted) w

-- The entry that was just stored leaves the cache if it is complete.
try_complete-Waits :
    (key : FragmentKey) (st : FragmentState) (m : HashMap FragmentKey FragmentState)
    (c : FragmentCache)
    → c.states ≡ put key st m
    → All IsWaiting m
    → Waits (try_complete key c).1
try_complete-Waits key st m c e w = elim (Bool-cases (is_complete st)) [
  | inl done ↦
      rw (try_complete_done key st c (rw e (lookup-put key st m)) done)
        (record { waits = rw e (rw (delete-put key st m) (delete-All IsWaiting key m w)) })
  | inr waits ↦
      rw (try_complete_wait key st c (rw e (lookup-put key st m)) waits)
        (record { waits = rw e (put-All IsWaiting key st m waits w) })
]

finish_fresh-Waits :
    (key : FragmentKey) (n : FragmentMaintenance) (st : FragmentState)
    (m : HashMap FragmentKey FragmentState) (c : FragmentCache)
    → c.states ≡ put key st m
    → All IsWaiting m
    → Waits (finish_fresh key n c).cache
unfolding finish_fresh
finish_fresh-Waits key n st m c e w =
    insert_cases (λ (i : Inserted). Waits i.cache) (try_complete key c).0
      (λ _.
        enforce_limits-Waits ((try_complete key c).1, n.evicted)
          (try_complete-Waits key st m c e w))
      (λ p u _. try_complete-Waits key st m c e w) (λ _. try_complete-Waits key st m c e w)
      (λ _. try_complete-Waits key st m c e w)

insert_at-Waits :
    (key : FragmentKey) (offset : ℕ) (more : Bool) (payload : Bytes) (wire_len end : ℕ)
    (n : FragmentMaintenance) (st : FragmentState) (c : FragmentCache)
    → Waits c
    → Waits (insert_at key offset more payload wire_len end n st c).cache
unfolding insert_at
insert_at-Waits key offset more payload wire_len end n st c w =
    verdict_cases (λ (i : Inserted). Waits i.cache) r.1 (λ why _. rejected-Waits)
      (λ _.
        try_complete-Waits key r.0 c.states (record c { states = put key r.0 c.states }) refl
          w.waits)
      (λ _.
        finish_fresh-Waits key n (store_fragment offset more payload wire_len r.0) c.states
          (record c {
            states = put key (store_fragment offset more payload wire_len r.0) c.states;
            bytes = saturating_add c.bytes (added_len payload);
          })
          refl w.waits)
  where
    r : FragmentState × Verdict
    r = judge offset more payload end st

    rejected-Waits : Waits (remove_key key (record c { states = put key r.0 c.states }))
    rejected-Waits =
        rw (lookup-put key r.0 c.states, remove_key)
          (record {
            waits = rw (delete-put key r.0 c.states) (delete-All IsWaiting key c.states w.waits);
          })

-- After `insert`, as before it, no datagram in the cache is complete.
pub insert_fragment-Waits :
    (now : ℕ) (key : FragmentKey) (offset : ℕ) (more : Bool) (payload : Bytes) (wire_len : ℕ)
    (c : FragmentCache)
    → Waits c
    → Waits (insert_fragment now key offset more payload wire_len c).cache
unfolding insert_fragment insert_maintained
insert_fragment-Waits now key offset more payload wire_len c w =
    if_cases (λ (i : Inserted). Waits i.cache) (ltb u64_max (offset + length payload)) (λ _. kept)
      λ _.
        if_cases (λ (i : Inserted). Waits i.cache)
          (is_malformed (offset + length payload) more payload)
          (λ _. remove_key-Waits key (maintenance now c).1 kept)
          λ _.
            option_cases (λ (i : Inserted). Waits i.cache)
              (lookup key (open_entry now key (maintenance now c).1).states)
              (λ _. open_entry-Waits now key (maintenance now c).1 kept)
              λ st _.
                insert_at-Waits key offset more payload wire_len (offset + length payload)
                  (maintenance now c).0 (record st { last_seen = now })
                  (open_entry now key (maintenance now c).1)
                  (open_entry-Waits now key (maintenance now c).1 kept)
  where
    kept : Waits (maintenance now c).1
    kept = maintenance-Waits now c w
