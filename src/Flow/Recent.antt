-- ===== src/Flow/Recent.antt =====
-- What `TcpTombstones` in flow/mod.rs stands for: which flows count as closed a moment ago, and when.
use bazalt.Prelude.{
  ℕ, ◌+◌, ◌≤◌, ◌≡◌, ◌⊎◌, inl, inr, refl, sym, ap, ◌∙◌, Bool, true, false, none, some, List, [], ◌∷◌,
  ◌++◌, length, ltb, leb, Bool-cases, if_cases, arith,
}
use bazalt.HashMap.{HashMap, lookup, put, delete}
use bazalt.HashMap.Laws.{
  Distinct, lookup-put, lookup-put_other, lookup-delete, lookup-delete_other, delete-Distinct,
  put-Distinct, length-delete,
}
use bazalt.FlowKeys.Types.{FlowKey}
use bazalt.Flow.Types.{flow_key, same_flow_key, same_flow_key_iff}
use bazalt.Flow.Tombstones.{
  TcpTombstones, tcp_tombstone_ttl, tcp_tombstone_max, is_current, forget, expire_from, shrink_from,
  insert_tombstone, remove_tombstone, contains_live, is_ahead,
}

-- The abstract view: a key is held back at a time if its deadline lies ahead.
abbrev pub holds : HashMap FlowKey ℕ → FlowKey → ℕ → Bool
holds m key now = is_ahead (lookup key m) now

-- An entry of the queue.
abbrev pub Queued : ℕ → FlowKey → List (ℕ × FlowKey) → Type 0
Queued d key [] = ⊥
Queued d key ((e, k) ∷ order) = ((e ≡ d) × (k ≡ key)) ⊎ Queued d key order

-- Every deadline stands in the queue with its key.
abbrev pub Covers : List (ℕ × FlowKey) → HashMap FlowKey ℕ → Type 0
Covers order m = (key : FlowKey) (d : ℕ) → lookup key m ≡ some d → Queued d key order

-- One deadline for each key, in the queue too, and no more than the bound.
pub record IsKept (t : TcpTombstones) : Type 0 where
  pub distinct : Distinct t.by_key
  pub covers : Covers t.order t.by_key
  pub bounded : length t.by_key ≤ tcp_tombstone_max

same_key-false : (k key : FlowKey) → same_flow_key k key ≡ false → same_flow_key key k ≡ false
same_key-false k key h = elim (Bool-cases (same_flow_key key k)) [
  | inl hit ↦
      let eq : key ≡ k = (same_flow_key_iff key k).0 hit in
      let back : same_flow_key k key ≡ true = (same_flow_key_iff k key).1 (sym eq) in
      absurd (cc (h, back))
  | inr miss ↦ miss
]

-- An entry whose deadline has passed can go unseen.
holds-forget :
    (d : ℕ) (key k : FlowKey) (m : HashMap FlowKey ℕ) (later : ℕ)
    → d ≤ later
    → Distinct m
    → holds (forget d key m) k later ≡ holds m k later
unfolding forget
holds-forget d key k m later h u = elim (Bool-cases (is_current d key m)) [
  | inr other ↦ rw other refl
  | inl current ↦ elim (Bool-cases (same_flow_key k key)) [
    | inl hit ↦
        let eq : k ≡ key = (same_flow_key_iff k key).0 hit in
        rw (current, eq) (ground (arith, lookup-delete key m u))
    | inr miss ↦ rw current (ap (λ o. is_ahead o later) (lookup-delete_other k key m miss))
  ]
]

forget-Distinct :
    (d : ℕ) (key : FlowKey) (m : HashMap FlowKey ℕ) → Distinct m → Distinct (forget d key m)
unfolding forget
forget-Distinct d key m u =
    if_cases Distinct (is_current d key m) (λ hit. delete-Distinct key m u) (λ miss. u)

-- What `forget` leaves is covered without the entry.
forget-Covers :
    (d : ℕ) (key : FlowKey) (order : List (ℕ × FlowKey)) (m : HashMap FlowKey ℕ)
    → Distinct m
    → Covers ((d, key) ∷ order) m
    → Covers order (forget d key m)
unfolding forget
forget-Covers d key order m u c =
    if_cases (Covers order) (is_current d key m)
      (λ hit k e found. elim (Bool-cases (same_flow_key k key)) [
        | inl same ↦
            let eq : k ≡ key = (same_flow_key_iff k key).0 same in
            let gone : lookup k (delete key m) ≡ none = rw eq (lookup-delete key m u) in
            absurd (cc (gone, found))
        | inr differ ↦ elim (c k e (sym (lookup-delete_other k key m differ) ∙ found)) [
          | inl at_head ↦
              let same : same_flow_key k key ≡ true = (same_flow_key_iff k key).1 (sym at_head.1) in
              absurd (cc (same, differ))
          | inr behind ↦ behind
        ]
      ])
      (λ miss k e found. elim (c k e found) [
        | inl at_head ↦
            let here : lookup key m ≡ some d = rw (at_head.0, at_head.1) found in
            absurd (ground (arith, here, miss))
        | inr behind ↦ behind
      ])

module _ (now : ℕ) where
  pub holds-expire :
      (order : List (ℕ × FlowKey)) (m : HashMap FlowKey ℕ) (k : FlowKey) (later : ℕ)
      → now ≤ later
      → Distinct m
      → holds (expire_from now order m).by_key k later ≡ holds m k later
  unfolding expire_from
  holds-expire [] m k later h u = refl
  holds-expire ((d, key) ∷ order) m k later h u = elim (Bool-cases (leb d now)) [
    | inl due ↦ rw due (
        holds-expire order (forget d key m) k later h (forget-Distinct d key m u)
        ∙ holds-forget d key k m later (ground arith) u)
    | inr ahead ↦ rw ahead refl
  ]

length-forget : (d : ℕ) (key : FlowKey) (m : HashMap FlowKey ℕ) → length (forget d key m) ≤ length m
unfolding forget
length-forget d key m =
    if_cases (λ (n : HashMap FlowKey ℕ). length n ≤ length m) (is_current d key m)
      (λ hit. length-delete key m) (λ miss. omega arith)

-- Distinct and covered.
pub record IsCovered (t : TcpTombstones) : Type 0 where
  pub distinct : Distinct t.by_key
  pub covers : Covers t.order t.by_key

pub expire_from-IsCovered :
    (now : ℕ) (order : List (ℕ × FlowKey)) (m : HashMap FlowKey ℕ)
    → Distinct m
    → Covers order m
    → IsCovered (expire_from now order m) × (length (expire_from now order m).by_key ≤ length m)
unfolding expire_from
expire_from-IsCovered now [] m u c = (record { distinct = u; covers = c }, omega arith)
expire_from-IsCovered now ((d, key) ∷ order) m u c = elim (Bool-cases (leb d now)) [
  | inl due ↦
      let rest =
        expire_from-IsCovered now order (forget d key m) (forget-Distinct d key m u)
          (forget-Covers d key order m u c) in
      rw due (rest.0, omega (arith, rest.1, length-forget d key m))
  | inr ahead ↦ rw ahead (record { distinct = u; covers = c }, omega arith)
]

empty_if_uncovered : (m : HashMap FlowKey ℕ) → Covers [] m → length m ≡ 0
unfolding lookup
empty_if_uncovered [] c = refl
empty_if_uncovered ((k, d) ∷ m) c =
    let same : same_flow_key k k ≡ true = (same_flow_key_iff k k).1 refl in
    absurd (c k d (rw same refl))

shrink_from-IsKept :
    (order : List (ℕ × FlowKey)) (m : HashMap FlowKey ℕ)
    → Distinct m
    → Covers order m
    → IsKept (shrink_from order m)
unfolding shrink_from
shrink_from-IsKept [] m u c = record {
  distinct = u;
  covers = c;
  bounded = omega (arith, empty_if_uncovered m c);
}
shrink_from-IsKept ((d, key) ∷ order) m u c =
    if_cases IsKept (ltb tcp_tombstone_max (length m))
      (λ over.
        shrink_from-IsKept order (forget d key m) (forget-Distinct d key m u)
          (forget-Covers d key order m u c))
      (λ within. record { distinct = u; covers = c; bounded = ground arith })

pub shrink_from_within :
    (order : List (ℕ × FlowKey)) (m : HashMap FlowKey ℕ)
    → length m ≤ tcp_tombstone_max
    → (shrink_from order m).by_key ≡ m
unfolding shrink_from
shrink_from_within [] m h = refl
shrink_from_within ((d, key) ∷ order) m h =
    let within : ltb tcp_tombstone_max (length m) ≡ false = ground arith in rw within refl

Queued-append :
    (d : ℕ) (key : FlowKey) (order : List (ℕ × FlowKey)) (e : ℕ) (k : FlowKey)
    → Queued d key order
    → Queued d key (order ++ ((e, k) ∷ []))
Queued-append d key [] e k q = absurd q
Queued-append d key ((f, j) ∷ order) e k q = elim q [
  | inl here ↦ inl here
  | inr behind ↦ inr (Queued-append d key order e k behind)
]

Queued-last :
    (d : ℕ) (key : FlowKey) (order : List (ℕ × FlowKey)) → Queued d key (order ++ ((d, key) ∷ []))
Queued-last d key [] = inl (refl, refl)
Queued-last d key ((f, j) ∷ order) = inr (Queued-last d key order)

pub put-Covers :
    (d : ℕ) (key : FlowKey) (t : TcpTombstones)
    → Covers t.order t.by_key
    → Covers (t.order ++ ((d, key) ∷ [])) (put key d t.by_key)
put-Covers d key t c k e found = elim (Bool-cases (same_flow_key k key)) [
  | inl same ↦
      let eq : k ≡ key = (same_flow_key_iff k key).0 same in
      let there : lookup k (put key d t.by_key) ≡ some d = rw eq (lookup-put key d t.by_key) in
      let d≡e : d ≡ e = ground (arith, there, found) in rw (← d≡e, eq) (Queued-last d key t.order)
  | inr differ ↦
      Queued-append e k t.order d key
        (c k e (sym (lookup-put_other k key d t.by_key differ) ∙ found))
]

module _ (key : FlowKey) (now : ℕ) (t : TcpTombstones) (kept : IsKept t) where
  pub insert_tombstone-IsKept : IsKept (insert_tombstone key now t)
  unfolding insert_tombstone
  insert_tombstone-IsKept =
      let d = now + tcp_tombstone_ttl in
      let after =
        expire_from-IsCovered now (t.order ++ ((d, key) ∷ [])) (put key d t.by_key)
          (put-Distinct key d t.by_key kept.distinct) (put-Covers d key t kept.covers) in
      shrink_from-IsKept _ _ after.0.distinct after.0.covers

  pub remove_tombstone-IsKept : IsKept (remove_tombstone key t)
  unfolding remove_tombstone
  remove_tombstone-IsKept = record {
    distinct = delete-Distinct key t.by_key kept.distinct;
    covers = λ k e found. elim (Bool-cases (same_flow_key k key)) [
      | inl same ↦
          let eq : k ≡ key = (same_flow_key_iff k key).0 same in
          let gone : lookup k (delete key t.by_key) ≡ none =
            rw eq (lookup-delete key t.by_key kept.distinct) in
          absurd (cc (gone, found))
      | inr differ ↦ kept.covers k e (sym (lookup-delete_other k key t.by_key differ) ∙ found)
    ];
    bounded = omega (arith, kept.bounded, length-delete key t.by_key);
  }

  pub contains_live-IsKept : IsKept (contains_live key now t).1
  unfolding contains_live
  contains_live-IsKept =
      let after = expire_from-IsCovered now t.order t.by_key kept.distinct kept.covers in
      record {
        distinct = after.0.distinct;
        covers = after.0.covers;
        bounded = omega (arith, after.1, kept.bounded);
      }
