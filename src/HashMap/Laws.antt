-- ===== src/HashMap/Laws.antt =====
-- How the operations of a hash map act on a sum and on a predicate over its values.
use bazalt.Prelude.{
  ℕ, suc, ◌+◌, ◌-◌, ◌≤◌, ◌≡◌, refl, sym, true, false, none, some, [], ◌∷◌, length, inl, inr,
  Bool-cases, arith,
}
use bazalt.HashMap.{HashMap, Key, lookup, put, delete}

module _ {ℓ κ} {K : Type ℓ} {V : Type κ} where
  -- A sum over the values.
  abbrev pub sum_of : (V → ℕ) → HashMap K V → ℕ
  sum_of f [] = 0
  sum_of f ((k, v) ∷ m) = f v + sum_of f m

  abbrev pub All {μ} : (V → Type μ) → HashMap K V → Type μ
  All P [] = Unit
  All P ((k, v) ∷ m) = P v × All P m

pub same_refl {ℓ} : {K : Type ℓ} ⦃e : Key K⦄ (k : K) → e.same k k ≡ true
same_refl ⦃e⦄ k = (e.same_iff k k).1 refl

same_sym {ℓ} : {K : Type ℓ} ⦃e : Key K⦄ (i k : K) → e.same k i ≡ false → e.same i k ≡ false
same_sym ⦃e⦄ i k h = elim (Bool-cases (e.same i k)) [
  | inl hit ↦
      let back : e.same k i ≡ true = (e.same_iff k i).1 (sym ((e.same_iff i k).0 hit)) in
      absurd (cc (h, back))
  | inr miss ↦ miss
]

module _ {ℓ κ} {K : Type ℓ} {V : Type κ} ⦃e : Key K⦄ where
  -- No key stands twice.
  abbrev pub Distinct : HashMap K V → Type κ
  Distinct [] = Unit
  Distinct ((k, v) ∷ m) = (lookup k m ≡ none) × Distinct m

  pub lookup-All {μ} :
      (P : V → Type μ) (k : K) (m : HashMap K V) {v : V} → All P m → lookup k m ≡ some v → P v
  unfolding lookup
  lookup-All P k [] a h = absurd (cc)
  lookup-All P k ((j, w) ∷ m) {v} a h = elim (Bool-cases (e.same k j)) [
    | inl hit ↦ let w≡v : w ≡ v = ground arith in rw (← w≡v) a.0
    | inr miss ↦ lookup-All P k m a.1 (ground arith)
  ]

  pub lookup-sum_of :
      (f : V → ℕ) (k : K) (m : HashMap K V) {v : V} → lookup k m ≡ some v → f v ≤ sum_of f m
  unfolding lookup
  lookup-sum_of f k [] h = absurd (cc)
  lookup-sum_of f k ((j, w) ∷ m) {v} h = ground (arith, lookup-sum_of f k m {v = v})

  pub lookup-put : (k : K) (v : V) (m : HashMap K V) → lookup k (put k v m) ≡ some v
  unfolding lookup put
  lookup-put k v [] = ground (arith, same_refl k)
  lookup-put k v ((j, w) ∷ m) = ground (arith, lookup-put k v m)

  pub put-All {μ} :
      (P : V → Type μ) (k : K) (v : V) (m : HashMap K V) → P v → All P m → All P (put k v m)
  unfolding put
  put-All P k v [] h a = (h, tt)
  put-All P k v ((j, w) ∷ m) h a = elim (Bool-cases (e.same k j)) [
    | inl hit ↦ rw hit (h, a.1)
    | inr miss ↦ rw miss (a.0, put-All P k v m h a.1)
  ]

  -- A new entry.
  pub put_new :
      (f : V → ℕ) (k : K) (v : V) (m : HashMap K V)
      → lookup k m ≡ none
      → (sum_of f (put k v m) ≡ f v + sum_of f m) × (length (put k v m) ≡ suc (length m))
  unfolding lookup put
  put_new f k v [] h = omega arith
  put_new f k v ((j, w) ∷ m) h = ground (arith, put_new f k v m)

  -- A new value of an entry.
  pub put_old :
      (f : V → ℕ) (k : K) (v : V) (m : HashMap K V) {u : V}
      → lookup k m ≡ some u
      → (sum_of f (put k v m) + f u ≡ f v + sum_of f m) × (length (put k v m) ≡ length m)
  unfolding lookup put
  put_old f k v [] h = absurd (cc)
  put_old f k v ((j, w) ∷ m) {u} h = ground (arith, put_old f k v m {u = u})

  pub delete-All {μ} : (P : V → Type μ) (k : K) (m : HashMap K V) → All P m → All P (delete k m)
  unfolding delete
  delete-All P k [] a = tt
  delete-All P k ((j, w) ∷ m) a = elim (Bool-cases (e.same k j)) [
    | inl hit ↦ rw hit a.1
    | inr miss ↦ rw miss (a.0, delete-All P k m a.1)
  ]

  pub delete_lem :
      (f : V → ℕ) (k : K) (m : HashMap K V) {v : V}
      → lookup k m ≡ some v
      → (sum_of f (delete k m) ≡ sum_of f m - f v)
        × (f v ≤ sum_of f m)
        × (suc (length (delete k m)) ≡ length m)
  unfolding lookup delete
  delete_lem f k [] h = absurd (cc)
  delete_lem f k ((j, w) ∷ m) {v} h = ground (arith, delete_lem f k m {v = v})

  -- The operations at other keys.
  lookup-put-none :
      (i k : K) (v : V) (m : HashMap K V)
      → lookup i m ≡ none
      → e.same i k ≡ false
      → lookup i (put k v m) ≡ none
  unfolding lookup put
  lookup-put-none i k v [] h d = ground arith
  lookup-put-none i k v ((j, w) ∷ m) h d = ground (arith, lookup-put-none i k v m)

  lookup-delete-none :
      (i k : K) (m : HashMap K V) → lookup i m ≡ none → lookup i (delete k m) ≡ none
  unfolding lookup delete
  lookup-delete-none i k [] h = refl
  lookup-delete-none i k ((j, w) ∷ m) h = ground (arith, lookup-delete-none i k m)

  pub delete-Distinct : (k : K) (m : HashMap K V) → Distinct m → Distinct (delete k m)
  unfolding delete
  delete-Distinct k [] d = tt
  delete-Distinct k ((j, w) ∷ m) d = elim (Bool-cases (e.same k j)) [
    | inl hit ↦ rw hit d.1
    | inr miss ↦ rw miss (lookup-delete-none j k m d.0, delete-Distinct k m d.1)
  ]

  pub put-Distinct : (k : K) (v : V) (m : HashMap K V) → Distinct m → Distinct (put k v m)
  unfolding put lookup
  put-Distinct k v [] d = (refl, tt)
  put-Distinct k v ((j, w) ∷ m) d = elim (Bool-cases (e.same k j)) [
    | inl hit ↦ rw hit d
    | inr miss ↦ rw miss (lookup-put-none j k v m d.0 (same_sym j k miss), put-Distinct k v m d.1)
  ]

  pub lookup-delete : (k : K) (m : HashMap K V) → Distinct m → lookup k (delete k m) ≡ none
  unfolding lookup delete
  lookup-delete k [] d = refl
  lookup-delete k ((j, w) ∷ m) d = elim (Bool-cases (e.same k j)) [
    | inl hit ↦ let eq : k ≡ j = (e.same_iff k j).0 hit in rw hit (rw eq d.0)
    | inr miss ↦ ground (arith, lookup-delete k m d.1)
  ]

  pub delete-put : (k : K) (v : V) (m : HashMap K V) → delete k (put k v m) ≡ delete k m
  unfolding delete put
  delete-put k v [] = ground (arith, same_refl k)
  delete-put k v ((j, w) ∷ m) = ground (arith, delete-put k v m)

  -- `delete` at any key.
  pub lookup-delete_other :
      (i k : K) (m : HashMap K V) → e.same i k ≡ false → lookup i (delete k m) ≡ lookup i m
  unfolding lookup delete
  lookup-delete_other i k [] h = refl
  lookup-delete_other i k ((j, w) ∷ m) h = elim (Bool-cases (e.same k j)) [
    | inl hit ↦
        let eq : k ≡ j = (e.same_iff k j).0 hit in
        let off : e.same i j ≡ false = rw (← eq) h in rw hit (ground arith)
    | inr miss ↦ ground (arith, lookup-delete_other i k m h)
  ]

  pub lookup-put_other :
      (i k : K) (v : V) (m : HashMap K V) → e.same i k ≡ false → lookup i (put k v m) ≡ lookup i m
  unfolding lookup put
  lookup-put_other i k v [] h = ground arith
  lookup-put_other i k v ((j, w) ∷ m) h = elim (Bool-cases (e.same k j)) [
    | inl hit ↦
        let eq : k ≡ j = (e.same_iff k j).0 hit in
        let off : e.same i j ≡ false = rw (← eq) h in rw hit (ground arith)
    | inr miss ↦ ground (arith, lookup-put_other i k v m h)
  ]

  pub length-delete : (k : K) (m : HashMap K V) → length (delete k m) ≤ length m
  unfolding delete
  length-delete k [] = omega arith
  length-delete k ((j, w) ∷ m) = ground (arith, length-delete k m)
