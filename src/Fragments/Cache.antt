-- ===== src/Fragments/Cache.antt =====
-- `FragmentCache` in capture/fragment.rs. The clock is an argument: an `Instant` and a `Duration` are
-- nanoseconds, and `duration_since` stops at zero.
use bazalt.Prelude.{
  ℕ, suc, ◌+◌, Bool, true, false, ◌||◌, Option, none, some, List, [], ◌∷◌, length, ltb, leb, ◌==◌,
  if◌then◌else◌, saturating_add, saturating_sub, u64_max, run_loop,
}
use bazalt.HashMap.{HashMap, lookup, contains_key, put, delete}
use bazalt.Fragments.Types.{
  Bytes, FragmentKey, FragmentState, FragmentInsert, FragmentMaintenance, FragmentCache, new_state,
  pending, complete, dropped_overlap, dropped_invalid, fragment_datagram_overhead, fragment_key,
}
use bazalt.Fragments.Pieces.{
  Reject, invalid, overlap, rejected, duplicated, fresh, is_malformed, judge, store_fragment,
  added_len, contiguous, concat,
}

unfoldable pub remove_key : FragmentKey → FragmentCache → FragmentCache
unfolding lookup delete
remove_key key c = elim (lookup key c.states) [
  | none ↦ c
  | some st ↦ record c { states = delete key c.states; bytes = saturating_sub c.bytes st.bytes }
]

-- The datagram is complete: its length is known and its pieces follow one another up to it.
unfoldable pub is_complete : FragmentState → Bool
unfolding contiguous
is_complete st = elim st.total_len [
  | none ↦ false
  | some total ↦ elim (contiguous 0 st.pieces) [ none ↦ false | some cursor ↦ cursor == total ]
]

unfoldable pub try_complete : FragmentKey → FragmentCache → FragmentInsert × FragmentCache
unfolding lookup delete is_complete
try_complete key c = elim (lookup key c.states) [
  | none ↦ (pending, c)
  | some st ↦
      if is_complete st
      then (
        complete (concat st.pieces) st.wire_bytes,
        record c { states = delete key c.states; bytes = saturating_sub c.bytes st.bytes },
      )
      else (pending, c)
]

-- `min_by_key` on `last_seen`: the first of several oldest.
unfoldable pub oldest : HashMap FragmentKey FragmentState → Option (FragmentKey × FragmentState)
oldest [] = none
oldest ((k, st) ∷ m) = elim (oldest m) [
  | none ↦ some (k, st)
  | some e ↦ if leb st.last_seen e.1.last_seen then some (k, st) else some e
]

unfoldable pub evict_oldest : FragmentCache → FragmentCache × Bool
unfolding oldest remove_key
evict_oldest c = elim (oldest c.states) [ none ↦ (c, false) | some e ↦ (remove_key e.0 c, true) ]

-- The keys of the datagrams that were idle for `timeout` or longer.
unfoldable pub expired_keys : ℕ → ℕ → HashMap FragmentKey FragmentState → List FragmentKey
expired_keys now timeout [] = []
expired_keys now timeout ((k, st) ∷ m) =
    let rest = expired_keys now timeout m in
    if leb timeout (saturating_sub now st.last_seen) then k ∷ rest else rest

unfoldable pub remove_keys : List FragmentKey → FragmentCache → FragmentCache
unfolding remove_key
remove_keys [] c = c
remove_keys (k ∷ ks) c = remove_keys ks (remove_key k c)

abbrev pub default_maintenance : FragmentMaintenance
default_maintenance = record { expired = 0; evicted = 0 }

-- At most once a second.
unfoldable pub maintenance : ℕ → FragmentCache → FragmentMaintenance × FragmentCache
unfolding expired_keys remove_keys
maintenance now c =
    if ltb (saturating_sub now c.last_cleanup) 1_000_000_000 then (default_maintenance, c) else (
      record { expired = length (expired_keys now c.timeout c.states); evicted = 0 },
      remove_keys (expired_keys now c.timeout c.states) (record c { last_cleanup = now }),
    )

-- The entry of a datagram that is not there yet.
unfoldable pub open_entry : ℕ → FragmentKey → FragmentCache → FragmentCache
unfolding lookup put
open_entry now key c = if contains_key key c.states then c else record c {
  states = put key (new_state now) c.states;
  bytes = saturating_add c.bytes fragment_datagram_overhead;
}

-- One round of the eviction loop, on the cache and the number of evictions.
unfoldable pub evict_round : FragmentCache × ℕ → (FragmentCache × ℕ) × Bool
unfolding evict_oldest
evict_round (c, evicted) =
    if ltb c.max_bytes c.bytes || ltb c.max_datagrams (length c.states)
    then (let (c', removed) = evict_oldest c in
        if removed then ((c', saturating_add evicted 1), true) else ((c', evicted), false))
    else ((c, evicted), false)

-- Each round removes a datagram.
unfoldable pub enforce_limits : FragmentCache × ℕ → FragmentCache × ℕ
unfolding evict_round run_loop
enforce_limits (c, evicted) = run_loop (suc (length c.states)) evict_round (c, evicted)

abbrev pub dropped : Reject → FragmentInsert
dropped invalid = dropped_invalid
dropped overlap = dropped_overlap

-- What `insert` returns and leaves.
pub record Inserted : Type 0 where
  pub result : FragmentInsert
  pub maintenance : FragmentMaintenance
  pub cache : FragmentCache

-- After a new piece was stored: the datagram is complete, or the cache is brought within its limits.
unfoldable pub finish_fresh : FragmentKey → FragmentMaintenance → FragmentCache → Inserted
unfolding try_complete enforce_limits
finish_fresh key m c = elim (try_complete key c).0 [
  | pending ↦
      let (c', evicted) = enforce_limits ((try_complete key c).1, m.evicted) in
      record { result = pending; maintenance = record m { evicted = evicted }; cache = c' }
  | complete payload wire ↦ record {
    result = complete payload wire;
    maintenance = m;
    cache = (try_complete key c).1;
  }
  | dropped_overlap ↦ record {
    result = dropped_overlap;
    maintenance = m;
    cache = (try_complete key c).1;
  }
  | dropped_invalid ↦ record {
    result = dropped_invalid;
    maintenance = m;
    cache = (try_complete key c).1;
  }
]

-- `insert` from the lookup of the datagram's state on.
unfoldable pub insert_at :
    FragmentKey
    → ℕ
    → Bool
    → Bytes
    → ℕ
    → ℕ
    → FragmentMaintenance
    → FragmentState
    → FragmentCache
    → Inserted
unfolding judge store_fragment put remove_key try_complete finish_fresh
insert_at key offset more payload wire_len end m st c =
    let (declared, verdict) = judge offset more payload end st in
    elim verdict [
      | rejected r ↦ record {
        result = dropped r;
        maintenance = m;
        cache = remove_key key (record c { states = put key declared c.states });
      }
      | duplicated ↦
          let (r, c') = try_complete key (record c { states = put key declared c.states }) in
          record { result = r; maintenance = m; cache = c' }
      | fresh ↦ finish_fresh key m (record c {
        states = put key (store_fragment offset more payload wire_len declared) c.states;
        bytes = saturating_add c.bytes (added_len payload);
      })
    ]

-- `FragmentCache::insert` after its maintenance.
unfoldable pub insert_maintained :
    ℕ → FragmentKey → ℕ → Bool → Bytes → ℕ → FragmentMaintenance → FragmentCache → Inserted
unfolding remove_key open_entry insert_at lookup
insert_maintained now key offset more payload wire_len m c =
    if ltb u64_max (offset + length payload)
    then record { result = dropped_invalid; maintenance = m; cache = c }
    else if is_malformed (offset + length payload) more payload
    then record { result = dropped_invalid; maintenance = m; cache = remove_key key c }
    else elim (lookup key (open_entry now key c).states) [
      | none ↦ record { result = pending; maintenance = m; cache = open_entry now key c }
      | some st ↦
          insert_at key offset more payload wire_len (offset + length payload) m
            (record st { last_seen = now }) (open_entry now key c)
    ]

-- `FragmentCache::insert` at the time `now`.
unfoldable pub insert_fragment : ℕ → FragmentKey → ℕ → Bool → Bytes → ℕ → FragmentCache → Inserted
unfolding maintenance insert_maintained
insert_fragment now key offset more payload wire_len c =
    let (m, c') = maintenance now c in insert_maintained now key offset more payload wire_len m c'
