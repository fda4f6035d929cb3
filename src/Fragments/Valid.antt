-- ===== src/Fragments/Valid.antt =====
-- Validity and limits of the cache under `FragmentCache::insert` in capture/fragment.rs.
use bazalt.Prelude.{
  ℕ, ◌+◌, ◌≤◌, ◌≡◌, refl, sym, subst, ◌∙◌, ◌⊎◌, inl, inr, Bool, true, false, some, [], length, ltb,
  saturating_add, saturating_sub, u64_max, Bool-cases, Option-cases, if_cases, option_cases, arith,
}
use bazalt.BTreeMap.{get}
use bazalt.HashMap.{lookup, put, delete}
use bazalt.HashMap.Laws.{
  lookup-All, lookup-sum_of, lookup-put, put-All, put_old, delete-All, delete_lem, delete-Distinct,
  put-Distinct, delete-put,
}
use bazalt.Fragments.Types.{
  Bytes, FragmentKey, FragmentState, FragmentCache, FragmentInsert, FragmentMaintenance, pending,
  complete, fragment_datagram_overhead, fragment_key,
}
use bazalt.Fragments.Pieces.{
  Reject, Verdict, rejected, duplicated, fresh, is_malformed, judge, store_fragment, added_len,
  concat,
}
use bazalt.Fragments.Verdicts.{Judged, judge-Judged}
use bazalt.Fragments.Cache.{
  remove_key, is_complete, try_complete, maintenance, open_entry, Inserted, finish_fresh, insert_at,
  insert_maintained, insert_fragment,
}
use bazalt.Fragments.Sound.{
  IsValidState, IsSound, bytes_of, remove_key-IsSound, try_complete-IsSound, maintenance-IsSound,
  put-IsSound, open_entry-IsSound, lookup-open_entry, entry_slack, entry_extra,
  store_fragment-IsValidState,
}
use bazalt.Fragments.Limits.{within_limits, enforce_limits-IsSound}

pub try_complete_done :
    (key : FragmentKey) (st : FragmentState) (c : FragmentCache)
    → lookup key c.states ≡ some st
    → is_complete st ≡ true
    → try_complete key c ≡ (
      complete (concat st.pieces) st.wire_bytes,
      record c { states = delete key c.states; bytes = saturating_sub c.bytes st.bytes },
    )
unfolding try_complete
try_complete_done key st c e h = rw (e, try_complete) (rw h refl)

pub try_complete_wait :
    (key : FragmentKey) (st : FragmentState) (c : FragmentCache)
    → lookup key c.states ≡ some st
    → is_complete st ≡ false
    → try_complete key c ≡ (pending, c)
unfolding try_complete
try_complete_wait key st c e h = rw (e, try_complete) (rw h refl)

-- To split on a verdict under a predicate, and keep the equation.
pub verdict_cases {ℓ κ} :
    {A : Type ℓ} (P : A → Type κ) (v : Verdict) {no : Reject → A} {dup new : A}
    → ((r : Reject) → v ≡ rejected r → P (no r))
    → (v ≡ duplicated → P dup)
    → (v ≡ fresh → P new)
    → P (elim v [ rejected r ↦ no r | duplicated ↦ dup | fresh ↦ new ])
verdict_cases P (rejected r) f g h = f r refl
verdict_cases P duplicated f g h = g refl
verdict_cases P fresh f g h = h refl

-- Where the entry of a datagram is what passes the limits, they hold once it is gone.
delete_entry :
    (slack extra : ℕ) (key : FragmentKey) (st : FragmentState) (c : FragmentCache)
    → IsSound slack extra c
    → lookup key c.states ≡ some st
    → slack ≤ st.bytes
    → extra ≤ 1
    → IsSound 0 0
        (record c { states = delete key c.states; bytes = saturating_sub c.bytes st.bytes })
delete_entry slack extra key st c s e low one =
    let less = delete_lem bytes_of key c.states e in
    record {
      states = delete-All IsValidState key c.states s.states;
      distinct = delete-Distinct key c.states s.distinct;
      counted = omega (arith, less, s.counted);
      room = omega (arith, s.room, s.counted, less);
      few = omega (arith, less, s.few);
      sized = s.sized;
    }

drop_entry :
    (slack extra : ℕ) (key : FragmentKey) (st d : FragmentState) (c : FragmentCache)
    → IsSound slack extra c
    → lookup key c.states ≡ some st
    → d.bytes ≡ st.bytes
    → slack ≤ st.bytes
    → extra ≤ 1
    → IsSound 0 0 (remove_key key (record c { states = put key d c.states }))
unfolding remove_key
drop_entry slack extra key st d c s e same low one =
    rw (lookup-put key d c.states, remove_key)
      (rw (delete-put key d c.states) (rw same (delete_entry slack extra key st c s e low one)))

finish_fresh-IsSound :
    (slack extra : ℕ) (key : FragmentKey) (m : FragmentMaintenance) (st : FragmentState)
    (c : FragmentCache)
    → IsSound slack extra c
    → lookup key c.states ≡ some st
    → slack ≤ st.bytes
    → extra ≤ 1
    → IsSound 0 0 (finish_fresh key m c).cache
unfolding finish_fresh
finish_fresh-IsSound slack extra key m st c s e low one = elim (Bool-cases (is_complete st)) [
  | inl whole ↦
      rw (try_complete_done key st c e whole, finish_fresh)
        (subst (λ (r : FragmentInsert × FragmentCache). IsSound 0 0 r.1)
          (sym (try_complete_done key st c e whole))
          (delete_entry slack extra key st c s e low one))
  | inr waits ↦
      rw (try_complete_wait key st c e waits, finish_fresh)
        (rw (try_complete_wait key st c e waits)
          (enforce_limits-IsSound slack extra (c, m.evicted) s))
]

-- The checks leave a valid state valid.
Judged-IsValidState :
    (offset : ℕ) (more : Bool) (payload : Bytes) (end : ℕ) (st : FragmentState)
    (r : FragmentState × Verdict)
    → IsValidState st
    → Judged offset more payload end st r
    → (r.1 ≡ fresh) ⊎ (r.1 ≡ duplicated)
    → IsValidState r.0
Judged-IsValidState offset more payload end st r v j kept = record {
  spaced = rw j.same_pieces v.spaced;
  counted = rw j.same_pieces (j.same_count ∙ v.counted);
  bounded = (j.when_kept kept).0;
}

-- A new piece is accounted for.
store-IsSound :
    (slack extra : ℕ) (key : FragmentKey) (st new : FragmentState) (c : FragmentCache) (added : ℕ)
    → IsSound slack extra c
    → lookup key c.states ≡ some st
    → slack ≤ fragment_datagram_overhead
    → added ≤ 65_599
    → IsValidState new
    → new.bytes ≡ st.bytes + added
    → IsSound
        (slack + added)
        extra
        (record c { states = put key new c.states; bytes = saturating_add c.bytes added })
store-IsSound slack extra key st new c added s e low small v size =
    let changed = put_old bytes_of key new c.states e in
    record {
      states = put-All IsValidState key new c.states v s.states;
      distinct = put-Distinct key new c.states s.distinct;
      counted = omega (arith, changed, s.counted, s.room, s.sized);
      room = omega (arith, s.room);
      few = omega (arith, changed, s.few);
      sized = s.sized;
    }

insert_at-IsSound :
    (slack extra now : ℕ) (key : FragmentKey) (offset : ℕ) (more : Bool) (payload : Bytes)
    (wire_len : ℕ) (m : FragmentMaintenance) (st : FragmentState) (c : FragmentCache)
    → IsSound slack extra c
    → lookup key c.states ≡ some st
    → slack ≤ fragment_datagram_overhead
    → extra ≤ 1
    → (st.pieces ≡ []) ⊎ ((slack ≡ 0) × (extra ≡ 0))
    → offset + length payload ≤ 65_535
    → IsSound 0 0
        (insert_at key offset more payload wire_len
          (offset + length payload)
          m
          (record st { last_seen = now })
          c).cache
unfolding insert_at get store_fragment
insert_at-IsSound slack extra now key offset more payload wire_len m st c s e low one kind fits =
    verdict_cases (λ (i : Inserted). IsSound 0 0 i.cache) r.1
      (λ why _. drop_entry slack extra key st r.0 c s e j.same_count (omega (arith, v.counted)) one)
      (λ dup. elim kind [
        | inl empty ↦ absurd (cc (j.when_duplicated dup))
        | inr none_over ↦
            try_complete-IsSound 0 0 key (record c { states = put key r.0 c.states })
              (put-IsSound 0 0 key st r.0 c
                (within_limits slack extra c s (omega (arith, s.room)) (omega (arith, s.few))) e
                (Judged-IsValidState offset more payload (offset + length payload) seen r v' j
                  (inr dup))
                j.same_count)
      ])
      (λ new.
        finish_fresh-IsSound (slack + added_len payload) extra key m
          (store_fragment offset more payload wire_len r.0)
          (record c {
            states = put key (store_fragment offset more payload wire_len r.0) c.states;
            bytes = saturating_add c.bytes (added_len payload);
          })
          (store-IsSound slack extra key st (store_fragment offset more payload wire_len r.0) c
            (added_len payload) s e low (omega arith) (stored new) (size new))
          (lookup-put key (store_fragment offset more payload wire_len r.0) c.states)
          (omega (arith, size new, v.counted)) one)
  where
    seen : FragmentState
    seen = record st { last_seen = now }

    v : IsValidState st
    v = lookup-All IsValidState key c.states s.states e

    v' : IsValidState seen
    v' = record { spaced = v.spaced; counted = v.counted; bounded = v.bounded }

    r : FragmentState × Verdict
    r = judge offset more payload (offset + length payload) seen

    j : Judged offset more payload (offset + length payload) seen r
    j = judge-Judged offset more payload (offset + length payload) seen v.bounded

    room : st.bytes + length payload + 64 ≤ u64_max
    room = omega (arith, lookup-sum_of bytes_of key c.states e, s.counted, s.room, s.sized)

    stored : r.1 ≡ fresh → IsValidState (store_fragment offset more payload wire_len r.0)
    stored new =
        let free = j.when_fresh new in
        store_fragment-IsValidState offset more payload wire_len r.0
          (Judged-IsValidState offset more payload (offset + length payload) seen r v' j (inl new))
          fits (rw j.same_pieces free.0) (rw j.same_pieces free.1) (rw j.same_pieces free.2)
          (j.when_kept (inl new)).1 (omega (arith, room, j.same_count))

    size :
        r.1 ≡ fresh
        → (store_fragment offset more payload wire_len r.0).bytes ≡ st.bytes + added_len payload
    size new = omega (arith, room, j.same_count)

-- A datagram has no pieces yet, or its entry was there before.
entry_kind :
    (now : ℕ) (key : FragmentKey) (c : FragmentCache) (st : FragmentState)
    → lookup key (open_entry now key c).states ≡ some st
    → (st.pieces ≡ []) ⊎ ((entry_slack key c ≡ 0) × (entry_extra key c ≡ 0))
entry_kind now key c st e = elim (Option-cases (lookup key c.states)) [
  | inl f ↦ inl (ground (arith, lookup-open_entry now key c))
  | inr (old, f) ↦ inr (ground arith)
]

insert_maintained-IsSound :
    (now : ℕ) (key : FragmentKey) (offset : ℕ) (more : Bool) (payload : Bytes) (wire_len : ℕ)
    (m : FragmentMaintenance) (c : FragmentCache)
    → IsSound 0 0 c
    → IsSound 0 0 (insert_maintained now key offset more payload wire_len m c).cache
unfolding insert_maintained
insert_maintained-IsSound now key offset more payload wire_len m c s =
    if_cases Sound (ltb u64_max (offset + length payload)) (λ _. s)
      λ _.
        if_cases Sound (is_malformed (offset + length payload) more payload)
          (λ _. remove_key-IsSound 0 0 key c s)
          λ fine.
            option_cases Sound (lookup key (open_entry now key c).states)
              (λ e.
                absurd
                  (ground (arith, lookup-open_entry now key c, Option-cases (lookup key c.states))))
              λ st e.
                insert_at-IsSound (entry_slack key c) (entry_extra key c) now key offset more
                  payload wire_len m st (open_entry now key c) (open_entry-IsSound now key c s) e
                  (ground arith) (ground arith) (entry_kind now key c st e) (ground arith)
  where
    Sound : Inserted → Type 0
    Sound i = IsSound 0 0 i.cache

-- `insert` keeps the cache valid, whatever the fragment and the time: the pieces of every datagram
-- disjoint, within 64 KiB and within the declared length, keys distinct, the byte counters exact, and
-- the limits on bytes, up to 2^63, and on datagrams kept.
pub insert_fragment-IsValid :
    (now : ℕ) (key : FragmentKey) (offset : ℕ) (more : Bool) (payload : Bytes) (wire_len : ℕ)
    (c : FragmentCache)
    → IsSound 0 0 c
    → IsSound 0 0 (insert_fragment now key offset more payload wire_len c).cache
unfolding insert_fragment
insert_fragment-IsValid now key offset more payload wire_len c s =
    insert_maintained-IsSound now key offset more payload wire_len (maintenance now c).0
      (maintenance now c).1 (maintenance-IsSound 0 0 now c s)
