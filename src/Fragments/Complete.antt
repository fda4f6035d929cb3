-- ===== src/Fragments/Complete.antt =====
-- What `FragmentCache::insert` in capture/fragment.rs hands out as a complete datagram.
use bazalt.Prelude.{
  ℕ, ◌+◌, ◌≤◌, ◌≡◌, refl, ap, subst, ◌∙◌, inl, inr, Bool, true, none, some, [], length, get_elem?,
  ltb, or_else, u64_max, saturating_add, Bool-cases, Option-cases, if_cases, option_cases, arith,
}
use bazalt.BTreeMap.{BTreeMap}
use bazalt.HashMap.{lookup, put}
use bazalt.HashMap.Laws.{Distinct, lookup-All, lookup-put, put-Distinct, lookup-delete}
use bazalt.Fragments.Types.{
  Bytes, FragmentPiece, FragmentKey, FragmentState, FragmentCache, FragmentInsert,
  FragmentMaintenance, pending, complete, dropped_overlap, dropped_invalid, fragment_key,
}
use bazalt.Fragments.Pieces.{
  Reject, invalid, overlap, Verdict, is_malformed, judge, store_fragment, contiguous, concat,
  added_len,
}
use bazalt.Fragments.Verdicts.{Judged, judge-Judged}
use bazalt.Fragments.Intervals.{
  Spaced, Spaced-insert, byte_at, fragment_byte, byte_at-stored, byte_at-repeated,
  concat-contiguous,
}
use bazalt.Fragments.Cache.{
  remove_key, is_complete, try_complete, maintenance, open_entry, Inserted, finish_fresh, insert_at,
  insert_maintained, insert_fragment, dropped,
}
use bazalt.Fragments.Sound.{
  IsValidState, IsSound, maintenance-IsSound, open_entry-IsSound, lookup-open_entry, entry_slack,
  entry_extra,
}
use bazalt.Fragments.Valid.{verdict_cases, try_complete_done, try_complete_wait}

pub insert_cases {ℓ κ} :
    {A : Type ℓ} (P : A → Type κ) (r : FragmentInsert) {wait over bad : A} {whole : Bytes → ℕ → A}
    → (r ≡ pending → P wait)
    → ((p : Bytes) (w : ℕ) → r ≡ complete p w → P (whole p w))
    → (r ≡ dropped_overlap → P over)
    → (r ≡ dropped_invalid → P bad)
    → P (elim r [
      | pending ↦ wait
      | complete p w ↦ whole p w
      | dropped_overlap ↦ over
      | dropped_invalid ↦ bad
    ])
insert_cases P pending a b c d = a refl
insert_cases P (complete p w) a b c d = b p w refl
insert_cases P dropped_overlap a b c d = c refl
insert_cases P dropped_invalid a b c d = d refl

-- The pieces of a datagram.
abbrev pub pieces_of : FragmentKey → FragmentCache → BTreeMap FragmentPiece
pieces_of key c = elim (lookup key c.states) [ none ↦ [] | some st ↦ st.pieces ]

-- The bytes of a datagram are those of `m` and, in the rest, those of the fragment.
abbrev pub IsUnion : BTreeMap FragmentPiece → ℕ → Bytes → Bytes → Type 0
IsUnion m offset payload whole =
    (i : ℕ) → get_elem? whole i ≡ or_else (byte_at m i) (fragment_byte offset payload i)

-- Where the result is a complete datagram, it is the union, and the datagram left the cache.
record Delivers (m : BTreeMap FragmentPiece) (key : FragmentKey) (offset : ℕ)
    (payload whole : Bytes) (result : FragmentInsert) (c : FragmentCache) : Type 0 where
  delivers :
      (wire : ℕ)
      → result ≡ complete whole wire
      → IsUnion m offset payload whole × (lookup key c.states ≡ none)

abbrev payload_of : FragmentInsert → Bytes
payload_of pending = []
payload_of (complete payload wire) = payload
payload_of dropped_overlap = []
payload_of dropped_invalid = []

complete_bytes :
    (st : FragmentState)
    → Spaced 0 st.pieces
    → is_complete st ≡ true
    → (i : ℕ) → get_elem? (concat st.pieces) i ≡ byte_at st.pieces i
unfolding is_complete
complete_bytes st s h i = elim (Option-cases (contiguous 0 st.pieces)) [
  | inl e ↦ absurd (ground arith)
  | inr (t, e) ↦ (concat-contiguous 0 0 st.pieces s e i).0 ∙ ap (byte_at st.pieces) (omega arith)
]

try_complete-Delivers :
    (m : BTreeMap FragmentPiece) (key : FragmentKey) (offset : ℕ) (payload whole : Bytes)
    (st : FragmentState) (c : FragmentCache)
    → lookup key c.states ≡ some st
    → Spaced 0 st.pieces
    → Distinct c.states
    → ((i : ℕ) → byte_at st.pieces i ≡ or_else (byte_at m i) (fragment_byte offset payload i))
    → Delivers m key offset payload whole (try_complete key c).0 (try_complete key c).1
try_complete-Delivers m key offset payload whole st c e s d union =
    elim (Bool-cases (is_complete st)) [
      | inl done ↦ rw (try_complete_done key st c e done) (record {
        delivers = λ wire h. (
          λ i.
              let same : concat st.pieces ≡ whole = ap payload_of h in
              rw (← same) (complete_bytes st s done i ∙ union i),
          lookup-delete key c.states d,
        );
      })
      | inr waits ↦
          rw (try_complete_wait key st c e waits) (record { delivers = λ wire h. absurd (cc) })
    ]

finish_fresh-Delivers :
    (m : BTreeMap FragmentPiece) (key : FragmentKey) (offset : ℕ) (payload whole : Bytes)
    (n : FragmentMaintenance) (c : FragmentCache)
    → Delivers m key offset payload whole (try_complete key c).0 (try_complete key c).1
    → Delivers m key offset payload whole (finish_fresh key n c).result (finish_fresh key n c).cache
unfolding finish_fresh
finish_fresh-Delivers m key offset payload whole n c d =
    insert_cases (λ (i : Inserted). Delivers m key offset payload whole i.result i.cache)
      (try_complete key c).0 (λ _. record { delivers = λ wire h. absurd (cc) })
      (λ p w e. subst (λ r. Delivers m key offset payload whole r (try_complete key c).1) e d)
      (λ _. record { delivers = λ wire h. absurd (cc) })
      (λ _. record { delivers = λ wire h. absurd (cc) })

insert_at-Delivers :
    (slack extra now : ℕ) (key : FragmentKey) (offset : ℕ) (more : Bool) (payload : Bytes)
    (wire_len : ℕ) (n : FragmentMaintenance) (st : FragmentState) (c : FragmentCache)
    (whole : Bytes)
    → IsSound slack extra c
    → lookup key c.states ≡ some st
    → offset + length payload ≤ 65_535
    → let i =
        insert_at key offset more payload wire_len
          (offset + length payload)
          n
          (record st { last_seen = now })
          c in
      Delivers st.pieces key offset payload whole i.result i.cache
unfolding insert_at store_fragment
insert_at-Delivers slack extra now key offset more payload wire_len n st c whole s e fits =
    verdict_cases (λ (i : Inserted). Delivers st.pieces key offset payload whole i.result i.cache)
      r.1 (λ why _. dropped-Delivers why)
      (λ dup.
        try_complete-Delivers st.pieces key offset payload whole r.0
          (record c { states = put key r.0 c.states }) (lookup-put key r.0 c.states)
          (rw j.same_pieces v.spaced) (put-Distinct key r.0 c.states s.distinct)
          (λ i.
            rw j.same_pieces
              (byte_at-repeated offset i st.pieces _ v.spaced (j.when_duplicated dup))))
      (λ new.
        let free = j.when_fresh new in
        finish_fresh-Delivers st.pieces key offset payload whole n stored (
          try_complete-Delivers st.pieces key offset payload whole kept stored
            (lookup-put key kept c.states)
            (rw j.same_pieces
              (Spaced-insert 0 offset piece st.pieces v.spaced (omega arith) fits free.0 free.1
                free.2).0)
            (put-Distinct key kept c.states s.distinct)
            (λ i.
              rw j.same_pieces
                (byte_at-stored offset piece st.pieces i v.spaced free.0 free.1 free.2))))
  where
    seen : FragmentState
    seen = record st { last_seen = now }

    v : IsValidState st
    v = lookup-All IsValidState key c.states s.states e

    r : FragmentState × Verdict
    r = judge offset more payload (offset + length payload) seen

    j : Judged offset more payload (offset + length payload) seen r
    j = judge-Judged offset more payload (offset + length payload) seen v.bounded

    piece : FragmentPiece
    piece = record { bytes = payload; more = more }

    kept : FragmentState
    kept = store_fragment offset more payload wire_len r.0

    stored : FragmentCache
    stored = record c {
      states = put key kept c.states;
      bytes = saturating_add c.bytes (added_len payload);
    }

    dropped-Delivers :
        (why : Reject)
        → Delivers st.pieces key offset payload whole
            (dropped why)
            (remove_key key (record c { states = put key r.0 c.states }))
    dropped-Delivers invalid = record { delivers = λ wire h. absurd (cc) }
    dropped-Delivers overlap = record { delivers = λ wire h. absurd (cc) }

pub opened_pieces :
    (now : ℕ) (key : FragmentKey) (c : FragmentCache) (st : FragmentState)
    → lookup key (open_entry now key c).states ≡ some st
    → st.pieces ≡ pieces_of key c
opened_pieces now key c st e = elim (Option-cases (lookup key c.states)) [
  | inl f ↦ ground (arith, lookup-open_entry now key c)
  | inr (old, f) ↦ ground (arith, lookup-open_entry now key c)
]

insert_maintained-Delivers :
    (now : ℕ) (key : FragmentKey) (offset : ℕ) (more : Bool) (payload : Bytes) (wire_len : ℕ)
    (n : FragmentMaintenance) (c : FragmentCache) (whole : Bytes)
    → IsSound 0 0 c
    → let i = insert_maintained now key offset more payload wire_len n c in
      Delivers (pieces_of key c) key offset payload whole i.result i.cache
unfolding insert_maintained
insert_maintained-Delivers now key offset more payload wire_len n c whole s =
    if_cases Fine (ltb u64_max (offset + length payload))
      (λ _. record { delivers = λ wire h. absurd (cc) })
      λ _.
        if_cases Fine (is_malformed (offset + length payload) more payload)
          (λ _. record { delivers = λ wire h. absurd (cc) })
          λ fine.
            option_cases Fine (lookup key (open_entry now key c).states)
              (λ _. record { delivers = λ wire h. absurd (cc) })
              λ st e. rw (← opened_pieces now key c st e) (
                insert_at-Delivers (entry_slack key c) (entry_extra key c) now key offset more
                  payload wire_len n st (open_entry now key c) whole
                  (open_entry-IsSound now key c s) e (ground arith))
  where
    Fine : Inserted → Type 0
    Fine i = Delivers (pieces_of key c) key offset payload whole i.result i.cache

-- A completed datagram is, at every position, the byte of a piece that its entry held after the
-- maintenance, or else of the fragment that completed it, or nothing; and its entry is gone.
pub insert_fragment-complete :
    (now : ℕ) (key : FragmentKey) (offset : ℕ) (more : Bool) (payload : Bytes) (wire_len : ℕ)
    (c : FragmentCache) (whole : Bytes) (wire : ℕ)
    → IsSound 0 0 c
    → let i = insert_fragment now key offset more payload wire_len c in
      i.result ≡ complete whole wire
      → IsUnion (pieces_of key (maintenance now c).1) offset payload whole
        × (lookup key i.cache.states ≡ none)
unfolding insert_fragment
insert_fragment-complete now key offset more payload wire_len c whole wire s =
    (insert_maintained-Delivers now key offset more payload wire_len (maintenance now c).0
        (maintenance now c).1 whole (maintenance-IsSound 0 0 now c s)).delivers
      wire
