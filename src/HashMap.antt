-- ===== src/HashMap.antt =====
-- A hash map of the Rust code as the association list that its iterators walk, in an order of which
-- nothing is assumed. Keys compare by `PartialEq`, an interface that a key type fills.
pub mod Laws
use bazalt.Prelude.{
  ℕ, ◌+◌, ◌≡◌, ◌↔◌, Bool, true, false, Option, none, some, List, [], ◌∷◌, is_some, if◌then◌else◌,
  arith, refl,
}

-- `PartialEq` of a key type, derived field by field.
pub record Key {ℓ} (K : Type ℓ) : Type ℓ where
  pub same : K → K → Bool
  pub same_iff : (a b : K) → (same a b ≡ true) ↔ (a ≡ b)

module _ {ℓ κ} where
  abbrev pub HashMap : Type ℓ → Type κ → Type (ℓ ⊔ κ)
  HashMap K V = List (K × V)

module _ {ℓ κ} {K : Type ℓ} {V : Type κ} ⦃e : Key K⦄ where
  -- `get`
  unfoldable pub lookup : K → HashMap K V → Option V
  lookup k [] = none
  lookup k ((j, w) ∷ m) = let rest = lookup k m in if e.same k j then some w else rest

  -- `contains_key`
  abbrev pub contains_key : K → HashMap K V → Bool
  contains_key k m = is_some (lookup k m)

  -- `insert`, and what `get_mut` leaves behind.
  unfoldable pub put : K → V → HashMap K V → HashMap K V
  put k v [] = (k, v) ∷ []
  put k v ((j, w) ∷ m) = let rest = put k v m in if e.same k j then (j, v) ∷ m else (j, w) ∷ rest

  -- `remove`
  unfoldable pub delete : K → HashMap K V → HashMap K V
  delete k [] = []
  delete k ((j, w) ∷ m) = let rest = delete k m in if e.same k j then m else (j, w) ∷ rest
