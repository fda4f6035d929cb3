-- ===== src/Fragments/Sound.antt =====
-- The invariant of `FragmentCache` in capture/fragment.rs, through the steps of `insert`.
use bazalt.Prelude.{
  ℕ, ◌+◌, ◌^◌, ◌≤◌, ◌≡◌, refl, inl, inr, Bool, false, none, some, List, [], ◌∷◌, length, ltb,
  if◌then◌else◌, or_else, saturating_sub, u64_max, Option-cases, if_cases, option_cases, arith,
}
use bazalt.BTreeMap.{get}
use bazalt.HashMap.{lookup, put, delete, contains_key}
use bazalt.HashMap.Laws.{
  sum_of, All, Distinct, lookup-put, put-All, put_new, put_old, delete-All, delete_lem,
  delete-Distinct, put-Distinct,
}
use bazalt.Fragments.Types.{
  Bytes, FragmentKey, FragmentState, FragmentCache, FragmentInsert, FragmentMaintenance, new_state,
  new_cache, fragment_key, fragment_datagram_overhead, fragment_piece_overhead,
}
use bazalt.Fragments.Pieces.{overlaps_prev, overlaps_next, store_fragment}
use bazalt.Fragments.Intervals.{Spaced, cost, Spaced-insert, any_beyond-insert}
use bazalt.Fragments.Verdicts.{IsBounded}
use bazalt.Fragments.Cache.{
  remove_key, is_complete, try_complete, expired_keys, remove_keys, maintenance, open_entry,
}

-- The pieces are disjoint, within 64 KiB and within the declared length; the counter is their charge.
pub record IsValidState (st : FragmentState) : Type 0 where
  pub spaced : Spaced 0 st.pieces
  pub counted : st.bytes ≡ fragment_datagram_overhead + cost st.pieces
  pub bounded : IsBounded st

abbrev pub bytes_of : FragmentState → ℕ
bytes_of st = st.bytes

-- Valid datagrams under distinct keys, the counter is the sum of theirs, and the limits are passed by
-- no more than the slack.
pub record IsSound (slack extra : ℕ) (c : FragmentCache) : Type 0 where
  pub states : All IsValidState c.states
  pub distinct : Distinct c.states
  pub counted : c.bytes ≡ sum_of bytes_of c.states
  pub room : c.bytes ≤ c.max_bytes + slack
  pub few : length c.states ≤ c.max_datagrams + extra
  pub sized : c.max_bytes ≤ 2 ^ 63

new_state-IsValidState : (now : ℕ) → IsValidState (new_state now)
new_state-IsValidState now = record { spaced = tt; counted = refl; bounded = λ t e. absurd (cc) }

-- A datagram leaves the cache.
delete-IsSound :
    (slack extra : ℕ) (key : FragmentKey) (st : FragmentState) (c : FragmentCache)
    → IsSound slack extra c
    → lookup key c.states ≡ some st
    → IsSound slack extra
        (record c { states = delete key c.states; bytes = saturating_sub c.bytes st.bytes })
delete-IsSound slack extra key st c s e =
    let less = delete_lem bytes_of key c.states e in
    record {
      states = delete-All IsValidState key c.states s.states;
      distinct = delete-Distinct key c.states s.distinct;
      counted = omega (arith, less, s.counted);
      room = omega (arith, s.room);
      few = omega (arith, less, s.few);
      sized = s.sized;
    }

pub remove_key-IsSound :
    (slack extra : ℕ) (key : FragmentKey) (c : FragmentCache)
    → IsSound slack extra c
    → IsSound slack extra (remove_key key c)
unfolding remove_key
remove_key-IsSound slack extra key c s =
    option_cases (IsSound slack extra) (lookup key c.states) (λ _. s)
      λ st e. delete-IsSound slack extra key st c s e

pub try_complete-IsSound :
    (slack extra : ℕ) (key : FragmentKey) (c : FragmentCache)
    → IsSound slack extra c
    → IsSound slack extra (try_complete key c).1
unfolding try_complete
try_complete-IsSound slack extra key c s =
    option_cases (λ (r : FragmentInsert × FragmentCache). IsSound slack extra r.1)
      (lookup key c.states) (λ _. s)
      λ st e.
        if_cases (λ (r : FragmentInsert × FragmentCache). IsSound slack extra r.1) (is_complete st)
          (λ _. delete-IsSound slack extra key st c s e) (λ _. s)

remove_keys-IsSound :
    (slack extra : ℕ) (keys : List FragmentKey) (c : FragmentCache)
    → IsSound slack extra c
    → IsSound slack extra (remove_keys keys c)
unfolding remove_keys
remove_keys-IsSound slack extra [] c s = s
remove_keys-IsSound slack extra (k ∷ ks) c s =
    remove_keys-IsSound slack extra ks (remove_key k c) (remove_key-IsSound slack extra k c s)

pub maintenance-IsSound :
    (slack extra now : ℕ) (c : FragmentCache)
    → IsSound slack extra c
    → IsSound slack extra (maintenance now c).1
unfolding maintenance
maintenance-IsSound slack extra now c s =
    if_cases (λ (r : FragmentMaintenance × FragmentCache). IsSound slack extra r.1)
      (ltb (saturating_sub now c.last_cleanup) 1_000_000_000) (λ _. s)
      (λ _.
        remove_keys-IsSound slack extra (expired_keys now c.timeout c.states)
          (record c { last_cleanup = now })
          (record {
            states = s.states;
            distinct = s.distinct;
            counted = s.counted;
            room = s.room;
            few = s.few;
            sized = s.sized;
          }))

-- A new value of an entry.
pub put-IsSound :
    (slack extra : ℕ) (key : FragmentKey) (old st : FragmentState) (c : FragmentCache)
    → IsSound slack extra c
    → lookup key c.states ≡ some old
    → IsValidState st
    → st.bytes ≡ old.bytes
    → IsSound slack extra (record c { states = put key st c.states })
put-IsSound slack extra key old st c s e v same =
    let changed = put_old bytes_of key st c.states e in
    record {
      states = put-All IsValidState key st c.states v s.states;
      distinct = put-Distinct key st c.states s.distinct;
      counted = omega (arith, changed, s.counted);
      room = s.room;
      few = omega (arith, changed, s.few);
      sized = s.sized;
    }

-- The datagram's entry is there after `open_entry`: the one that was there, or a new one.
pub lookup-open_entry :
    (now : ℕ) (key : FragmentKey) (c : FragmentCache)
    → lookup key (open_entry now key c).states
      ≡ or_else (lookup key c.states) (some (new_state now))
unfolding open_entry
lookup-open_entry now key c =
    ground (arith, Option-cases (lookup key c.states), lookup-put key (new_state now) c.states)

-- The slack that a new entry needs.
abbrev pub entry_slack : FragmentKey → FragmentCache → ℕ
entry_slack key c = if contains_key key c.states then 0 else fragment_datagram_overhead

abbrev pub entry_extra : FragmentKey → FragmentCache → ℕ
entry_extra key c = if contains_key key c.states then 0 else 1

pub open_entry-IsSound :
    (now : ℕ) (key : FragmentKey) (c : FragmentCache)
    → IsSound 0 0 c
    → IsSound (entry_slack key c) (entry_extra key c) (open_entry now key c)
unfolding open_entry
open_entry-IsSound now key c s = elim (Option-cases (lookup key c.states)) [
  | inr (st, e) ↦ rw e s
  | inl e ↦
      let more = put_new bytes_of key (new_state now) c.states e in
      rw e (record {
        states =
            put-All IsValidState key (new_state now) c.states (new_state-IsValidState now) s.states;
        distinct = put-Distinct key (new_state now) c.states s.distinct;
        counted = omega (arith, more, s.counted, s.room, s.sized);
        room = omega (arith, s.room);
        few = omega (arith, more, s.few);
        sized = s.sized;
      })
]

pub store_fragment-IsValidState :
    (offset : ℕ) (more : Bool) (payload : Bytes) (wire_len : ℕ) (st : FragmentState)
    → IsValidState st
    → offset + length payload ≤ 65_535
    → get offset st.pieces ≡ none
    → overlaps_prev offset st.pieces ≡ false
    → overlaps_next offset (offset + length payload) st.pieces ≡ false
    → ((t : ℕ) → st.total_len ≡ some t → offset + length payload ≤ t)
    → st.bytes + length payload + fragment_piece_overhead ≤ u64_max
    → IsValidState (store_fragment offset more payload wire_len st)
unfolding store_fragment
store_fragment-IsValidState offset more payload wire_len st v fits g p n within room =
    let stored =
      Spaced-insert 0 offset (record { bytes = payload; more = more }) st.pieces v.spaced
        (omega arith) fits g p n in
    record {
      spaced = stored.0;
      counted = omega (arith, stored.1, v.counted);
      bounded = λ t e.
          any_beyond-insert t offset (record { bytes = payload; more = more }) st.pieces
            (v.bounded t e) (within t e);
    }

-- An empty cache, for limits up to 2^63.
pub new_cache-IsSound :
    (max_bytes max_datagrams timeout now : ℕ)
    → max_bytes ≤ 2 ^ 63
    → IsSound 0 0 (new_cache max_bytes max_datagrams timeout now)
new_cache-IsSound max_bytes max_datagrams timeout now h = record {
  states = tt;
  distinct = tt;
  counted = refl;
  room = omega arith;
  few = omega arith;
  sized = omega arith;
}
