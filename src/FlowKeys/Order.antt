-- ===== src/FlowKeys/Order.antt =====
-- The order of endpoints in model.rs, `Ord for Endpoint`.
use Prim.Native.Nat.{compare, Ordering}
use bazalt.Prelude.{ℕ, ◌≡◌, ◌↔◌, ◌⊎◌, inl, inr, Bool, true, false, Bool-cases, arith}
use bazalt.Net.{v4, v6}
use bazalt.FlowKeys.Types.{Endpoint}

-- `endpoint_sort_key`: the family, the octets as the number that they write, the port.
abbrev pub endpoint_sort_key : Endpoint → ℕ × ℕ × ℕ
endpoint_sort_key e = elim e.ip [ v4 ip ↦ (4, ip, e.port) | v6 ip ↦ (6, ip, e.port) ]

abbrev then_cmp : Ordering → Ordering → Ordering
then_cmp Ordering.lt o = Ordering.lt
then_cmp Ordering.eq o = o
then_cmp Ordering.gt o = Ordering.gt

-- `Ord::cmp`, by the tuples' lexicographic order.
unfoldable pub cmp : Endpoint → Endpoint → Ordering
cmp x y =
    let k = endpoint_sort_key x in
    let l = endpoint_sort_key y in
    then_cmp (compare k.0 l.0) (then_cmp (compare k.1 l.1) (compare k.2 l.2))

-- `<=`, by way of `partial_cmp`.
unfoldable pub le : Endpoint → Endpoint → Bool
unfolding cmp
le x y = elim (cmp x y) [ Ordering.lt ↦ true | Ordering.eq ↦ true | Ordering.gt ↦ false ]

cmp_refl : (x : Endpoint) → cmp x x ≡ Ordering.eq
unfolding cmp
cmp_refl x = ground arith

pub le_total : (x y : Endpoint) → le x y ≡ false → le y x ≡ true
unfolding le cmp
le_total x y h = ground arith

pub le_antisym : (x y : Endpoint) → le x y ≡ true → le y x ≡ true → x ≡ y
unfolding le cmp
le_antisym x y h g = ground arith

-- The order of endpoints is transitive.
le_trans : (x y z : Endpoint) → le x y ≡ true → le y z ≡ true → le x z ≡ true
unfolding le cmp
le_trans x y z h g = ground arith

-- `cmp` says `Equal` exactly of equal endpoints, and of two endpoints one is at most the other.
cmp_eq_iff :
    (x y : Endpoint) → ((cmp x y ≡ Ordering.eq) ↔ (x ≡ y)) × ((le x y ≡ true) ⊎ (le y x ≡ true))
unfolding cmp le
cmp_eq_iff x y = (
  (λ h. ground arith, λ e. rw e (cmp_refl y)),
  elim (Bool-cases (le x y)) [ inl h ↦ inl h | inr h ↦ inr (le_total x y h) ],
)
