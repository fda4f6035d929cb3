-- ===== src/Flow/Refines.antt =====
-- `TcpTombstones` in flow/mod.rs against the abstract view: a key is held back until a deadline.
use bazalt.Prelude.{
  ℕ, ◌+◌, ◌≤◌, ◌≡◌, ◌⊎◌, inl, inr, refl, ap, ◌∙◌, false, none, some, [], ◌∷◌, ◌++◌, length, ltb,
  if◌then◌else◌, Bool-cases, Option-cases, arith,
}
use bazalt.HashMap.{HashMap, lookup, put, delete}
use bazalt.HashMap.Laws.{
  lookup-put, lookup-put_other, lookup-delete, lookup-delete_other, put-Distinct, put_old, put_new,
}
use bazalt.FlowKeys.Types.{FlowKey}
use bazalt.Flow.Types.{flow_key, same_flow_key, same_flow_key_iff}
use bazalt.Flow.Tombstones.{
  TcpTombstones, tcp_tombstone_ttl, tcp_tombstone_max, expire_from, insert_tombstone,
  remove_tombstone, contains_live, is_ahead,
}
use bazalt.Flow.Recent.{
  IsKept, holds, holds-expire, shrink_from_within, expire_from-IsCovered, put-Covers,
}

module _ (key k : FlowKey) (now later : ℕ) (t : TcpTombstones) (passes : now ≤ later)
    (kept : IsKept t) where
  holds-put : holds (put key (now + tcp_tombstone_ttl) t.by_key) k later ≡ (
      if same_flow_key k key then ltb later (now + tcp_tombstone_ttl) else holds t.by_key k later)
  holds-put = elim (Bool-cases (same_flow_key k key)) [
    | inl same ↦
        let eq : k ≡ key = (same_flow_key_iff k key).0 same in
        let there : lookup k (put key (now + tcp_tombstone_ttl) t.by_key)
            ≡ some (now + tcp_tombstone_ttl) =
          rw eq (lookup-put key (now + tcp_tombstone_ttl) t.by_key) in
        rw (same, there) refl
    | inr differ ↦ rw differ (
        ap (λ o. is_ahead o later)
          (lookup-put_other k key (now + tcp_tombstone_ttl) t.by_key differ))
  ]

  holds-delete :
      holds (delete key t.by_key) k later
      ≡ (if same_flow_key k key then false else holds t.by_key k later)
  holds-delete = elim (Bool-cases (same_flow_key k key)) [
    | inl same ↦
        let eq : k ≡ key = (same_flow_key_iff k key).0 same in
        let gone : lookup k (delete key t.by_key) ≡ none =
          rw eq (lookup-delete key t.by_key kept.distinct) in
        rw (same, gone) refl
    | inr differ ↦
        rw differ (ap (λ o. is_ahead o later) (lookup-delete_other k key t.by_key differ))
  ]

  length-put_le : length (put key (now + tcp_tombstone_ttl) t.by_key) ≤ length t.by_key + 1
  length-put_le = elim (Option-cases (lookup key t.by_key)) [
    | inl missing ↦
        omega (arith, (put_new (λ (n : ℕ). n) key (now + tcp_tombstone_ttl) t.by_key missing).1)
    | inr found ↦
        omega (arith, (put_old (λ (n : ℕ). n) key (now + tcp_tombstone_ttl) t.by_key found.1).1)
  ]

  insert_tombstone-holds :
      (length t.by_key ≡ tcp_tombstone_max)
      ⊎ (holds (insert_tombstone key now t).by_key k later ≡ (
          if same_flow_key k key
          then ltb later (now + tcp_tombstone_ttl)
          else holds t.by_key k later))
  unfolding insert_tombstone
  insert_tombstone-holds = elim (Bool-cases (ltb (length t.by_key) tcp_tombstone_max)) [
    | inr full ↦ inl (ground (arith, kept.bounded))
    | inl room ↦
        let d = now + tcp_tombstone_ttl in
        let m = put key d t.by_key in
        let order = t.order ++ ((d, key) ∷ []) in
        let u = put-Distinct key d t.by_key kept.distinct in
        let after = expire_from-IsCovered now order m u (put-Covers d key t kept.covers) in
        let same_map =
          shrink_from_within (expire_from now order m).order (expire_from now order m).by_key
            (ground (arith, after.1, length-put_le, room)) in
        inr (
          ap (λ (n : HashMap FlowKey ℕ). holds n k later) same_map
          ∙ holds-expire now order m k later passes u
          ∙ holds-put)
  ]

  -- On a queue with its deadlines covered and within the bound, the operations act on what they hold back
  -- as on a map from keys to deadlines, at every time from `now` on. `contains_live` answers for the key
  -- and changes nothing, `remove` releases the key, and `insert` holds it back for two seconds, each
  -- leaving all other keys as they were; `insert` at the bound is excepted.
  pub tombstones_refine :
      ((contains_live key now t).0 ≡ holds t.by_key key now)
      × (holds (contains_live key now t).1.by_key k later ≡ holds t.by_key k later)
      × (holds (remove_tombstone key t).by_key k later
          ≡ (if same_flow_key k key then false else holds t.by_key k later))
      × ((length t.by_key ≡ tcp_tombstone_max)
          ⊎ (holds (insert_tombstone key now t).by_key k later ≡ (
              if same_flow_key k key
              then ltb later (now + tcp_tombstone_ttl)
              else holds t.by_key k later)))
  unfolding contains_live remove_tombstone
  tombstones_refine = (
    holds-expire now t.order t.by_key key now (omega arith) kept.distinct,
    holds-expire now t.order t.by_key k later passes kept.distinct,
    holds-delete,
    insert_tombstone-holds,
  )
