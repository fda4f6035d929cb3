-- ===== src/Affinity/Stages.antt =====
-- The CPU budget and its distribution over the stages in affinity.rs.
use bazalt.Prelude.{
  ℕ, suc, ◌+◌, ◌-◌, ◌*◌, ◌/◌, ◌≤◌, ◌<◌, ◌≡◌, refl, inl, inr, Bool, true, false, ltb, leb, ◌==◌,
  if◌then◌else◌, min, max, run_loop, run_loop-stop, run_loop_exit, if_cases, Bool-cases, arith,
}

-- `clamp`
abbrev pub clamp : ℕ → ℕ → ℕ → ℕ
clamp x low high = min (max x low) high

unfoldable pub default_cpu_budget : ℕ → ℕ
default_cpu_budget available =
    let available' = max available 1 in
    if leb available' 4 then available' else clamp ((available' * 3 + 3) / 4) 4 available'

-- `counts`, for flow, L7 and matcher.
pub record Counts : Type 0 where
  pub flow : ℕ
  pub l7 : ℕ
  pub matcher : ℕ

abbrev pub sum : Counts → ℕ
sum c = c.flow + c.l7 + c.matcher

-- The weights 30, 40, 30.
abbrev pub initial_counts : ℕ → Counts
initial_counts total = record {
  flow = max (total * 30 / 100) 1;
  l7 = max (total * 40 / 100) 1;
  matcher = max (total * 30 / 100) 1;
}

-- A difference of two naturals, compared as `isize`s: a - b > c - d.
abbrev pub exceeds : ℕ × ℕ → ℕ × ℕ → Bool
exceeds (a, b) (c, d) = ltb (c + b) (a + d)

-- One worker more for the stage with the largest deficit, the first of several. The first stage
-- is taken in any case, since its deficit exceeds `isize::MIN`.
unfoldable pub grow : ℕ → Counts → Counts
grow total c =
    let d0 : ℕ × ℕ = (30 * total, c.flow * 100) in
    let d1 : ℕ × ℕ = (40 * total, c.l7 * 100) in
    let d2 : ℕ × ℕ = (30 * total, c.matcher * 100) in
    let more0 : Counts = record c { flow = c.flow + 1 } in
    let more1 : Counts = record c { l7 = c.l7 + 1 } in
    let more2 : Counts = record c { matcher = c.matcher + 1 } in
    if exceeds d1 d0
    then (if exceeds d2 d1 then more2 else more1)
    else (if exceeds d2 d0 then more2 else more0)

unfoldable pub grow_round : ℕ → Counts → Counts × Bool
unfolding grow
grow_round total c = if ltb (sum c) total then (grow total c, true) else (c, false)

-- The stages that can give a worker, with their surplus: the best so far and whether there is one.
pub data Choice : Type 0 where
  nobody : Choice
  stage : ℕ → ℕ × ℕ → Choice

abbrev pub consider : ℕ → ℕ → ℕ × ℕ → Choice → Choice
consider i count surplus nobody = if leb count 1 then nobody else stage i surplus
consider i count surplus (stage j best) =
    if leb count 1
    then stage j best
    else if exceeds surplus best
    then stage i surplus
    else stage j best

-- One worker less for the stage with the largest surplus.
unfoldable pub shrink_round : ℕ → Counts → Counts × Bool
shrink_round total c =
    if ltb total (sum c)
    then (elim (consider 2 c.matcher (c.matcher * 100, 30 * total)
        (consider 1 c.l7 (c.l7 * 100, 40 * total)
          (consider 0 c.flow (c.flow * 100, 30 * total) nobody))) [
            | nobody ↦ (c, false)
            | stage i s ↦ (
              if i == 0
                  then record c { flow = c.flow - 1 }
                  else if i == 1
                  then record c { l7 = c.l7 - 1 }
                  else record c { matcher = c.matcher - 1 },
              true,
            )
          ])
    else (c, false)

-- Each round of the first loop adds a worker, and each of the second takes one.
unfoldable pub distribute_stage_workers : ℕ → Counts
unfolding grow_round shrink_round run_loop
distribute_stage_workers total =
    let total' = max total 3 in
    let grown = run_loop (suc total') (grow_round total') (initial_counts total') in
    run_loop (suc (sum grown)) (shrink_round total') grown

-- The share of a stage, rounded down, but one worker at least.
abbrev pub share : ℕ → ℕ → ℕ
share total weight = max (total * weight / 100) 1

-- Every stage has its share.
pub record IsFair (total : ℕ) (c : Counts) : Type 0 where
  pub flow : share total 30 ≤ c.flow
  pub l7 : share total 40 ≤ c.l7
  pub matcher : share total 30 ≤ c.matcher

record Growing (total : ℕ) (c : Counts) : Type 0 where
  fair : IsFair total c
  below : sum c ≤ total

-- What a round adds.
record Grown (total : ℕ) (c d : Counts) : Type 0 where
  growing : Growing total d
  smaller : total - sum d < total - sum c

grow-Grown :
    (total : ℕ) (c : Counts) → Growing total c → sum c < total → Grown total c (grow total c)
unfolding grow
grow-Grown total c g lt =
    if_cases (Grown total c) (exceeds (40 * total, c.l7 * 100) (30 * total, c.flow * 100))
      (λ _.
        if_cases (Grown total c) (exceeds (30 * total, c.matcher * 100) (40 * total, c.l7 * 100))
          (λ _. omega arith) (λ _. omega arith))
      (λ _.
        if_cases (Grown total c) (exceeds (30 * total, c.matcher * 100) (30 * total, c.flow * 100))
          (λ _. omega arith) (λ _. omega arith))

grow_more :
    (total : ℕ) (c : Counts)
    → Growing total c
    → (grow_round total c).1 ≡ true
    → Grown total c (grow_round total c).0
unfolding grow_round
grow_more total c g more = elim (Bool-cases (ltb (sum c) total)) [
  | inl h ↦ rw (h, grow_round) (grow-Grown total c g (ground arith))
  | inr h ↦ absurd (ground arith)
]

grow_stop :
    (total : ℕ) (c : Counts)
    → Growing total c
    → (grow_round total c).1 ≡ false
    → IsFair total (grow_round total c).0 × (sum (grow_round total c).0 ≡ total)
unfolding grow_round
grow_stop total c g stop = elim (Bool-cases (ltb (sum c) total)) [
  | inl h ↦ absurd (ground arith)
  | inr h ↦ rw (h, grow_round) (g.fair, ground arith)
]

grown_lem :
    (total : ℕ)
    → 3 ≤ total
    → let c = run_loop (suc total) (grow_round total) (initial_counts total) in
      IsFair total c × (sum c ≡ total)
grown_lem total h =
    run_loop_exit (Growing total) (λ c. IsFair total c × (sum c ≡ total)) (λ c. total - sum c)
      (grow_round total) (λ c g more. let d = grow_more total c g more in (d.growing, d.smaller))
      (λ c g stop. grow_stop total c g stop) (suc total) (initial_counts total)
      (record {
        fair = record { flow = omega arith; l7 = omega arith; matcher = omega arith };
        below = omega arith;
      })
      (omega arith)

shrink_idle : (total : ℕ) (c : Counts) → sum c ≡ total → shrink_round total c ≡ (c, false)
unfolding shrink_round
shrink_idle total c h =
    let idle : ltb total (sum c) ≡ false = ground arith in rw (idle, shrink_round) refl

-- The workers of the three stages add up to the budget, three at least, and each stage has its share
-- of it by weight, rounded down, and one worker at least. The second loop has nothing to do.
pub distribute_stage_workers_lem :
    (total : ℕ)
    → let c = distribute_stage_workers total in IsFair (max total 3) c × (sum c ≡ max total 3)
unfolding distribute_stage_workers
distribute_stage_workers_lem total =
    let grown = grown_lem (max total 3) (omega arith) in
    rw (run_loop-stop (shrink_round (max total 3)) _ _ _ (shrink_idle (max total 3) _ grown.1))
      grown

-- The default budget is all CPUs, one at least, of up to four; of more it is three quarters of them,
-- rounded up.
pub default_cpu_budget_lem :
    (available : ℕ)
    → let b = default_cpu_budget available in
      (1 ≤ b)
      × (b ≤ max available 1)
      × (3 * available ≤ 4 * b)
      × (min available 4 ≤ b)
      × (4 * b < max (3 * available + 4) 17)
unfolding default_cpu_budget
default_cpu_budget_lem available = ground arith
