-- ===== src/Prelude/Loops.antt =====
-- A Rust `loop`/`while` whose body says whether another round follows, on fuel, with its two rules.
use Prim.Native.Nat.{ℕ, zero, suc, ◌<◌}
use mathlib.Core.Path.{◌≡◌, ap}
use mathlib.Core.Logic.{inl, inr}
use mathlib.Core.Bool.{Bool, true, false}
use native.Mathlib.Omega.{arith}
use bazalt.Prelude.Tests.{Bool-cases}

module _ {ℓ} {S : Type ℓ} where
  unfoldable pub run_loop : ℕ → (S → S × Bool) → S → S
  run_loop zero body s = s
  run_loop (suc fuel) body s = elim (body s).1 [
    | true ↦ run_loop fuel body (body s).0
    | false ↦ (body s).0
  ]

  -- What every round keeps holds at the end, whatever the fuel.
  pub run_loop_inv {κ} :
      (P : S → Type κ) (body : S → S × Bool)
      → ((s : S) → P s → P (body s).0)
      → (fuel : ℕ) (s : S) → P s
      → P (run_loop fuel body s)
  unfolding run_loop
  run_loop_inv P body keep zero s h = h
  run_loop_inv P body keep (suc fuel) s h = elim (Bool-cases (body s).1) [
    | inl more ↦ rw (more, run_loop) (run_loop_inv P body keep fuel (body s).0 (keep s h))
    | inr done ↦ rw (done, run_loop) (keep s h)
  ]

  -- With a measure below the fuel the loop ends by its own exit, so the result is that of a round
  -- that asks for no other.
  pub run_loop_exit {κ μ} :
      (P : S → Type κ) (Q : S → Type μ) (measure : S → ℕ) (body : S → S × Bool)
      → ((s : S) → P s → (body s).1 ≡ true → P (body s).0 × (measure (body s).0 < measure s))
      → ((s : S) → P s → (body s).1 ≡ false → Q (body s).0)
      → (fuel : ℕ) (s : S) → P s
      → measure s < fuel
      → Q (run_loop fuel body s)
  unfolding run_loop
  run_loop_exit P Q measure body step exit zero s h m = absurd (omega arith)
  run_loop_exit P Q measure body step exit (suc fuel) s h m = elim (Bool-cases (body s).1) [
    | inl more ↦
        let next : P (body s).0 × (measure (body s).0 < measure s) = step s h more in
        rw (more, run_loop)
          (run_loop_exit P Q measure body step exit fuel (body s).0 next.0 (omega arith))
    | inr done ↦ rw (done, run_loop) (exit s h done)
  ]

  -- One round, by what the body returns.
  pub run_loop-stop :
      (body : S → S × Bool) (fuel : ℕ) (s t : S)
      → body s ≡ (t, false)
      → run_loop (suc fuel) body s ≡ t
  unfolding run_loop
  run_loop-stop body fuel s t e =
      ap (λ (r : S × Bool). elim r.1 [ true ↦ run_loop fuel body r.0 | false ↦ r.0 ]) e

  pub run_loop-more :
      (body : S → S × Bool) (fuel : ℕ) (s t : S)
      → body s ≡ (t, true)
      → run_loop (suc fuel) body s ≡ run_loop fuel body t
  unfolding run_loop
  run_loop-more body fuel s t e =
      ap (λ (r : S × Bool). elim r.1 [ true ↦ run_loop fuel body r.0 | false ↦ r.0 ]) e
