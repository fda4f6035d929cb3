-- ===== src/Fragments/Overlap.antt =====
-- The overlap policy of `FragmentCache::insert` in capture/fragment.rs.
use bazalt.Prelude.{
  ℕ, ◌+◌, ◌≤◌, ◌<◌, ◌≡◌, ◌≢◌, refl, ◌⊎◌, inl, inr, Bool, true, none, some, length, ltb, is_some,
  u64_max, Option-cases, if_cases, option_cases, arith,
}
use bazalt.BTreeMap.{BTreeMap, get}
use bazalt.HashMap.{lookup, put}
use bazalt.HashMap.Laws.{lookup-All, put-Distinct, lookup-delete, Distinct}
use bazalt.Fragments.Types.{
  Bytes, FragmentPiece, FragmentKey, FragmentState, FragmentCache, FragmentMaintenance,
  dropped_overlap, dropped_invalid, fragment_key,
}
use bazalt.Fragments.Pieces.{Reject, invalid, overlap, Verdict, is_malformed, judge}
use bazalt.Fragments.Verdicts.{Judged, judge-Judged}
use bazalt.Fragments.Intervals.{byte_at, byte_at-free}
use bazalt.Fragments.Cache.{
  remove_key, maintenance, open_entry, Inserted, insert_at, insert_maintained, insert_fragment,
  dropped,
}
use bazalt.Fragments.Sound.{
  IsValidState, IsSound, maintenance-IsSound, open_entry-IsSound, lookup-open_entry, entry_slack,
  entry_extra,
}
use bazalt.Fragments.Valid.{verdict_cases}
use bazalt.Fragments.Complete.{pieces_of, opened_pieces}

-- The fragment is dropped and its datagram forgotten.
pub record IsDropped (key : FragmentKey) (i : Inserted) : Type 0 where
  pub told : (i.result ≡ dropped_overlap) ⊎ (i.result ≡ dropped_invalid)
  pub forgotten : lookup key i.cache.states ≡ none

-- The fragment brings a position that a piece holds, and repeats no piece exactly.
pub record Conflicts (m : BTreeMap FragmentPiece) (offset : ℕ) (more : Bool) (payload : Bytes)
    (p : ℕ) : Type 0 where
  pub held : is_some (byte_at m p) ≡ true
  pub from : offset ≤ p
  pub to : p < offset + length payload
  pub differs : get offset m ≢ some (record { bytes = payload; more = more })

lookup-remove_key :
    (key : FragmentKey) (c : FragmentCache)
    → Distinct c.states
    → lookup key (remove_key key c).states ≡ none
unfolding remove_key
lookup-remove_key key c d =
    option_cases (λ (r : FragmentCache). lookup key r.states ≡ none) (lookup key c.states) (λ e. e)
      (λ st _. lookup-delete key c.states d)

insert_at-IsDropped :
    (slack extra now : ℕ) (key : FragmentKey) (offset : ℕ) (more : Bool) (payload : Bytes)
    (wire_len : ℕ) (n : FragmentMaintenance) (st : FragmentState) (c : FragmentCache) (p : ℕ)
    → IsSound slack extra c
    → lookup key c.states ≡ some st
    → Conflicts st.pieces offset more payload p
    → IsDropped key (
        insert_at key offset more payload wire_len
          (offset + length payload)
          n
          (record st { last_seen = now })
          c)
unfolding insert_at
insert_at-IsDropped slack extra now key offset more payload wire_len n st c p s e x =
    verdict_cases (IsDropped key) r.1
      (λ why _. record {
        told = told why;
        forgotten =
            lookup-remove_key key (record c { states = put key r.0 c.states })
              (put-Distinct key r.0 c.states s.distinct);
      })
      (λ dup. absurd (x.differs (j.when_duplicated dup)))
      (λ new.
        let free = j.when_fresh new in
        let gone =
          byte_at-free 0 offset (offset + length payload) p st.pieces v.spaced free.0 free.1 free.2
            x.from x.to in
        absurd (cc (x.held, gone)))
  where
    seen : FragmentState
    seen = record st { last_seen = now }

    v : IsValidState st
    v = lookup-All IsValidState key c.states s.states e

    r : FragmentState × Verdict
    r = judge offset more payload (offset + length payload) seen

    j : Judged offset more payload (offset + length payload) seen r
    j = judge-Judged offset more payload (offset + length payload) seen v.bounded

    told : (why : Reject) → (dropped why ≡ dropped_overlap) ⊎ (dropped why ≡ dropped_invalid)
    told invalid = inr refl
    told overlap = inl refl

-- A fragment that ends below 2^64 and brings a position that its datagram already holds, without
-- repeating a piece exactly, is dropped, and the whole datagram with it.
pub insert_fragment-IsDropped :
    (now : ℕ) (key : FragmentKey) (offset : ℕ) (more : Bool) (payload : Bytes) (wire_len : ℕ)
    (c : FragmentCache) (p : ℕ)
    → IsSound 0 0 c
    → offset + length payload ≤ u64_max
    → Conflicts (pieces_of key (maintenance now c).1) offset more payload p
    → IsDropped key (insert_fragment now key offset more payload wire_len c)
unfolding insert_fragment insert_maintained
insert_fragment-IsDropped now key offset more payload wire_len c p s fits x =
    if_cases (IsDropped key) (ltb u64_max (offset + length payload)) (λ over. absurd (ground arith))
      λ _.
        if_cases (IsDropped key) (is_malformed (offset + length payload) more payload)
          (λ _. record { told = inr refl; forgotten = lookup-remove_key key kept s'.distinct })
          λ fine.
            option_cases (IsDropped key) (lookup key (open_entry now key kept).states)
              (λ e. absurd (
                ground
                  (arith, lookup-open_entry now key kept, Option-cases (lookup key kept.states))))
              λ st e.
                insert_at-IsDropped (entry_slack key kept) (entry_extra key kept) now key offset
                  more payload wire_len (maintenance now c).0 st (open_entry now key kept) p
                  (open_entry-IsSound now key kept s') e (rw (opened_pieces now key kept st e) x)
  where
    kept : FragmentCache
    kept = (maintenance now c).1

    s' : IsSound 0 0 kept
    s' = maintenance-IsSound 0 0 now c s
