-- ===== src/Flow/Heap.antt =====
-- The heap of timers in flow/mod.rs: what `pop` takes and leaves.
use bazalt.Prelude.{
  ℕ, ◌+◌, ◌≤◌, ◌<◌, ◌≡◌, ◌⊎◌, inl, inr, refl, Option, none, some, List, [], ◌∷◌, length, leb,
  if◌then◌else◌, option_cases, if_cases, subst, arith,
}
use bazalt.FlowKeys.Types.{FlowKey}
use bazalt.Flow.Types.{TimerItem}
use bazalt.Flow.Timers.{is_earlier, pop_timer}

abbrev pub IsFor : FlowKey → ℕ → TimerItem → Type 0
IsFor key id t = (t.key ≡ key) × (t.flow_id ≡ id)

-- A timer for the flow stands in the heap.
abbrev pub HasTimer : FlowKey → ℕ → List TimerItem → Type 0
HasTimer key id [] = ⊥
HasTimer key id (t ∷ ts) = IsFor key id t ⊎ HasTimer key id ts

-- All deadlines lie ahead.
abbrev pub NoneDue : ℕ → List TimerItem → Type 0
NoneDue now [] = Unit {0}
NoneDue now (t ∷ ts) = (now < t.deadline) × NoneDue now ts

-- How many deadlines have passed.
abbrev pub due : ℕ → List TimerItem → ℕ
due now [] = 0
due now (t ∷ ts) = (if leb t.deadline now then 1 else 0) + due now ts

pub due-length : (now : ℕ) (ts : List TimerItem) → due now ts ≤ length ts
due-length now [] = omega arith
due-length now (t ∷ ts) = ground (arith, due-length now ts)

-- What `pop` does: the popped timer and the others are what was there, and none was earlier.
pub record Pops (ts : List TimerItem) (r : TimerItem × List TimerItem) : Type 0 where
  pub keeps : (key : FlowKey) (id : ℕ) → HasTimer key id ts → IsFor key id r.0 ⊎ HasTimer key id r.1
  pub counts : (now : ℕ) → due now ts ≡ (if leb r.0.deadline now then 1 else 0) + due now r.1
  pub earliest : (now : ℕ) → now < r.0.deadline → NoneDue now ts

abbrev pub Popped : List TimerItem → Option (TimerItem × List TimerItem) → Type 0
Popped ts none = ts ≡ []
Popped ts (some r) = Pops ts r

pub pop_timer_lem : (ts : List TimerItem) → Popped ts (pop_timer ts)
unfolding pop_timer
pop_timer_lem [] = refl
pop_timer_lem (t ∷ ts) =
    option_cases (Popped (t ∷ ts)) (pop_timer ts)
      (λ last.
        let empty : ts ≡ [] = subst (Popped ts) last (pop_timer_lem ts) in
        rw empty (record {
          keeps = λ key id has. has;
          counts = λ now. omega arith;
          earliest = λ now ahead. (ahead, tt);
        }))
      (λ (r : TimerItem × List TimerItem) found.
        let deep : Pops ts r = subst (Popped ts) found (pop_timer_lem ts) in
        if_cases (Popped (t ∷ ts)) (is_earlier r.0 t)
          (λ earlier. record {
            keeps = λ key id has. elim has [
              | inl here ↦ inr (inl here)
              | inr behind ↦ elim (deep.keeps key id behind) [
                | inl taken ↦ inl taken
                | inr left ↦ inr (inr left)
              ]
            ];
            counts = λ now. omega (arith, deep.counts now);
            earliest = λ now ahead. (ground (arith, earlier, ahead), deep.earliest now ahead);
          })
          (λ later. record {
            keeps = λ key id has. has;
            counts = λ now. refl;
            earliest = λ now ahead. (ahead, deep.earliest now (ground (arith, later, ahead)));
          }))
