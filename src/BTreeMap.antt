-- ===== src/BTreeMap.antt =====
-- `std::collections::BTreeMap` with integer keys, as the association list in key order that its
-- iterators walk. Used by flow/reassembly.rs and capture/fragment.rs.
use bazalt.Prelude.{ℕ, Option, none, some, List, [], ◌∷◌, ltb, leb, ◌==◌, if◌then◌else◌}

module _ {ℓ} where
  abbrev pub BTreeMap : Type ℓ → Type ℓ
  BTreeMap V = List (ℕ × V)

module _ {ℓ} {V : Type ℓ} where
  -- `insert`: a key that is present gets the new value.
  unfoldable pub insert : ℕ → V → BTreeMap V → BTreeMap V
  insert k v [] = (k, v) ∷ []
  insert k v ((j, w) ∷ m) =
      let rest = insert k v m in
      if ltb k j then (k, v) ∷ (j, w) ∷ m else if k == j then (k, v) ∷ m else (j, w) ∷ rest

  -- `remove`
  unfoldable pub remove : ℕ → BTreeMap V → BTreeMap V
  remove k [] = []
  remove k ((j, w) ∷ m) = let rest = remove k m in if k == j then m else (j, w) ∷ rest

  -- `get`
  unfoldable pub get : ℕ → BTreeMap V → Option V
  get k [] = none
  get k ((j, w) ∷ m) = let rest = get k m in if k == j then some w else rest

  -- `first_key_value`
  abbrev pub first_key_value : BTreeMap V → Option (ℕ × V)
  first_key_value [] = none
  first_key_value (e ∷ m) = some e

  -- `range(..=k).next_back()`
  unfoldable pub last_le : ℕ → BTreeMap V → Option (ℕ × V)
  last_le k [] = none
  last_le k ((j, w) ∷ m) =
      let rest = last_le k m in
      if leb j k then elim rest [ none ↦ some (j, w) | some e ↦ some e ] else none

  -- `range(..k).next_back()`
  unfoldable pub last_lt : ℕ → BTreeMap V → Option (ℕ × V)
  last_lt k [] = none
  last_lt k ((j, w) ∷ m) =
      let rest = last_lt k m in
      if ltb j k then elim rest [ none ↦ some (j, w) | some e ↦ some e ] else none

  -- `range(k..).next()`
  unfoldable pub first_ge : ℕ → BTreeMap V → Option (ℕ × V)
  first_ge k [] = none
  first_ge k ((j, w) ∷ m) = let rest = first_ge k m in if leb k j then some (j, w) else rest

  -- `range(lo..hi).next()`
  unfoldable pub first_in : ℕ → ℕ → BTreeMap V → Option (ℕ × V)
  unfolding first_ge
  first_in lo hi m = elim (first_ge lo m) [
    | none ↦ none
    | some e ↦ if ltb e.0 hi then some e else none
  ]
