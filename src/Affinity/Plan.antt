-- ===== src/Affinity/Plan.antt =====
-- `adaptive_plan` in affinity.rs. What the operating system answers is an argument: the CPUs of
-- `allowed_cpus`, if it succeeds, and `available_parallelism`, if it is known.
use bazalt.Prelude.{
  ℕ, zero, suc, ◌+◌, ◌-◌, ◌*◌, ◌/◌, ◌%◌, ◌≤◌, ◌<◌, ◌≡◌, refl, Option, none, some, List, [], ◌∷◌,
  length, length-take_le, get_elem?, get_elem?-lt, is_empty, take, ltb, leb, ◌==◌, if◌then◌else◌,
  min, max, saturating_add, saturating_sub, if_cases, option_cases, arith,
}
use bazalt.Affinity.Stages.{
  clamp, default_cpu_budget, default_cpu_budget_lem, distribute_stage_workers,
  distribute_stage_workers_lem,
}

pub record CpuPlan : Type 0 where
  pub allowed : List ℕ
  pub budget : ℕ
  pub capture_cpus : List ℕ
  pub flow_cpus : List ℕ
  pub l7_cpus : List ℕ
  pub matcher_cpus : List ℕ
  pub flow_workers : ℕ
  pub l7_workers : ℕ
  pub matcher_workers : ℕ
  pub replay_workers : ℕ
  pub tokio_workers : ℕ

abbrev pub unwrap_or : Option ℕ → ℕ → ℕ
unwrap_or none d = d
unwrap_or (some n) d = n

-- `(from..from + n).collect()`
abbrev pub range : ℕ → ℕ → List ℕ
range from zero = []
range from (suc n) = from ∷ range (suc from) n

-- The element at an index. Past the end the code would panic; there is none here.
abbrev pub element : List ℕ → ℕ → List ℕ → List ℕ
element cpus i rest = elim (get_elem? cpus i) [ none ↦ rest | some c ↦ c ∷ rest ]

-- The CPUs from `start` on, `count` of them, round and round.
unfoldable pub wrapped : List ℕ → ℕ → ℕ → List ℕ
wrapped cpus start zero = []
wrapped cpus start (suc count) =
    let rest = wrapped cpus (suc start) count in element cpus (start % length cpus) rest

unfoldable pub take_wrapping : List ℕ → ℕ → ℕ → List ℕ
unfolding wrapped
take_wrapping cpus start count =
    if is_empty cpus then [] else if count == 0 then [] else wrapped cpus start count

-- The CPUs that the process may use, never none.
unfoldable pub usable_cpus : Option (List ℕ) → Option ℕ → List ℕ
usable_cpus found parallelism =
    let cpus : List ℕ = elim found [
      | none ↦ range 0 (max (unwrap_or parallelism 1) 1)
      | some l ↦ l
    ] in
    let cpus' : List ℕ = if is_empty cpus then 0 ∷ [] else cpus in
    take (min (length cpus') (max (unwrap_or parallelism (length cpus')) 1)) cpus'

unfoldable pub cpu_budget : Option ℕ → ℕ → ℕ
cpu_budget requested available =
    max
      (elim requested [
        | none ↦ default_cpu_budget available
        | some v ↦ if ltb 0 v then min v available else default_cpu_budget available
      ])
      1

abbrev pub capture_reserve : ℕ → ℕ → ℕ
capture_reserve capture_hint budget =
    if capture_hint == 0 then 0 else min capture_hint (clamp (budget / 4) 1 4)

abbrev pub tokio_of : ℕ → ℕ
tokio_of budget = if leb 8 budget then 2 else 1

-- What is left for the stages.
abbrev pub stage_budget : ℕ → ℕ → ℕ
stage_budget reserve budget =
    max (saturating_sub budget (saturating_add reserve (tokio_of budget))) 3

unfoldable pub adaptive_plan : ℕ → Option ℕ → Option (List ℕ) → Option ℕ → CpuPlan
unfolding take_wrapping
adaptive_plan capture_hint requested found parallelism =
    let allowed = usable_cpus found parallelism in
    let budget = cpu_budget requested (length allowed) in
    let pool = take budget allowed in
    let reserve = capture_reserve capture_hint budget in
    let counts = distribute_stage_workers (stage_budget reserve budget) in
    let begin = min reserve (length pool) in
    record {
      allowed = allowed;
      budget = budget;
      capture_cpus = take_wrapping pool 0 (max reserve (if ltb 0 capture_hint then 1 else 0));
      flow_cpus = take_wrapping pool begin counts.flow;
      l7_cpus = take_wrapping pool (begin + counts.flow) counts.l7;
      matcher_cpus = take_wrapping pool (begin + counts.flow + counts.l7) counts.matcher;
      flow_workers = counts.flow;
      l7_workers = counts.l7;
      matcher_workers = counts.matcher;
      replay_workers = if leb 24 budget then 3 else if leb 12 budget then 2 else 1;
      tokio_workers = tokio_of budget;
    }

-- Every CPU of a list is one of `cpus`.
abbrev pub IsFrom : List ℕ → List ℕ → Type 0
IsFrom cpus [] = Unit {0}
IsFrom cpus (c ∷ cs) = ((i : ℕ) × (get_elem? cpus i ≡ some c)) × IsFrom cpus cs

wrapped_lem :
    (cpus : List ℕ) (start count : ℕ)
    → 0 < length cpus
    → (length (wrapped cpus start count) ≡ count) × IsFrom cpus (wrapped cpus start count)
unfolding wrapped
wrapped_lem cpus start zero h = (refl, tt)
wrapped_lem cpus start (suc count) h =
    let (c, found) = get_elem?-lt cpus (start % length cpus) (omega arith) in
    let ih = wrapped_lem cpus (suc start) count h in
    option_cases (λ l. (length l ≡ suc count) × IsFrom cpus l)
      (get_elem? cpus (start % length cpus)) (λ e. absurd (cc (e, found)))
      (λ d e. (omega (arith, ih.0), ((start % length cpus, e), ih.1)))

take_wrapping_lem :
    (cpus : List ℕ) (start count : ℕ)
    → 0 < length cpus
    → (length (take_wrapping cpus start count) ≡ count)
      × IsFrom cpus (take_wrapping cpus start count)
unfolding take_wrapping
take_wrapping_lem [] start count h = absurd (omega arith)
take_wrapping_lem (c ∷ cs) start count h =
    if_cases (λ l. (length l ≡ count) × IsFrom (c ∷ cs) l) (count == 0) (λ e. (ground arith, tt))
      (λ _. wrapped_lem (c ∷ cs) start count h)

get_elem?-take-some :
    (n : ℕ) (xs : List ℕ) (i : ℕ) {c : ℕ}
    → get_elem? (take n xs) i ≡ some c
    → get_elem? xs i ≡ some c
get_elem?-take-some zero xs i h = absurd (cc)
get_elem?-take-some (suc n) [] i h = h
get_elem?-take-some (suc n) (x ∷ xs) zero h = h
get_elem?-take-some (suc n) (x ∷ xs) (suc i) h = get_elem?-take-some n xs i h

IsFrom-take : (n : ℕ) (cpus cs : List ℕ) → IsFrom (take n cpus) cs → IsFrom cpus cs
IsFrom-take n cpus [] f = tt
IsFrom-take n cpus (c ∷ cs) f =
    ((f.0.0, get_elem?-take-some n cpus f.0.0 f.0.1), IsFrom-take n cpus cs f.1)

some_cpu : (cpus : List ℕ) → 0 < length (if is_empty cpus then 0 ∷ [] else cpus)
some_cpu [] = omega arith
some_cpu (c ∷ cs) = omega arith

truncated_pos :
    (cpus : List ℕ) (limit : ℕ)
    → 0 < length cpus
    → 0 < length (take (min (length cpus) (max limit 1)) cpus)
truncated_pos cpus limit h =
    omega (arith, length-take_le (min (length cpus) (max limit 1)) cpus (omega arith))

usable_cpus-pos :
    (found : Option (List ℕ)) (parallelism : Option ℕ) → 0 < length (usable_cpus found parallelism)
unfolding usable_cpus
usable_cpus-pos found parallelism =
    let cpus : List ℕ = elim found [
      | none ↦ range 0 (max (unwrap_or parallelism 1) 1)
      | some l ↦ l
    ] in
    truncated_pos (if is_empty cpus then 0 ∷ [] else cpus)
      (unwrap_or parallelism (length (if is_empty cpus then 0 ∷ [] else cpus))) (some_cpu cpus)

cpu_budget_lem :
    (requested : Option ℕ) (available : ℕ)
    → 0 < available
    → (1 ≤ cpu_budget requested available) × (cpu_budget requested available ≤ available)
unfolding cpu_budget
cpu_budget_lem none available h = ground (arith, default_cpu_budget_lem available)
cpu_budget_lem (some v) available h = ground (arith, default_cpu_budget_lem available)

-- The list of a stage: as long as the stage has workers, all from the allowed CPUs.
abbrev IsPinned : List ℕ → ℕ → List ℕ → Type 0
IsPinned allowed count cs = (length cs ≡ count) × IsFrom allowed cs

pinned :
    (allowed : List ℕ) (budget start count : ℕ)
    → 0 < length allowed
    → 0 < budget
    → IsPinned allowed count (take_wrapping (take budget allowed) start count)
pinned [] budget start count h b = absurd (omega arith)
pinned (c ∷ cs) zero start count h b = absurd (omega arith)
pinned (c ∷ cs) (suc budget) start count h b =
    let w = take_wrapping_lem (take (suc budget) (c ∷ cs)) start count (omega arith) in
    (
      w.0,
      IsFrom-take (suc budget) (c ∷ cs) (take_wrapping (take (suc budget) (c ∷ cs)) start count)
          w.1,
    )

-- For any answers of the system: the budget lies between one and the number of allowed CPUs, and
-- every stage has a CPU for each of its workers, taken from the allowed ones.
pub adaptive_plan_cpus :
    (capture_hint : ℕ) (requested : Option ℕ) (found : Option (List ℕ)) (parallelism : Option ℕ)
    → let p = adaptive_plan capture_hint requested found parallelism in
      (1 ≤ p.budget)
      × (p.budget ≤ length p.allowed)
      × IsFrom p.allowed p.capture_cpus
      × IsPinned p.allowed p.flow_workers p.flow_cpus
      × IsPinned p.allowed p.l7_workers p.l7_cpus
      × IsPinned p.allowed p.matcher_workers p.matcher_cpus
unfolding adaptive_plan
adaptive_plan_cpus capture_hint requested found parallelism =
    let some_allowed = usable_cpus-pos found parallelism in
    let b = cpu_budget_lem requested (length (usable_cpus found parallelism)) some_allowed in
    (
      b.0,
      b.1,
      (pinned _ _ _ _ some_allowed b.0).1,
      pinned _ _ _ _ some_allowed b.0,
      pinned _ _ _ _ some_allowed b.0,
      pinned _ _ _ _ some_allowed b.0,
    )

-- The capture threads: one at least, if any were asked for.
abbrev capture_count : ℕ → ℕ → ℕ
capture_count capture_hint budget =
    max (capture_reserve capture_hint budget) (if ltb 0 capture_hint then 1 else 0)

thread_count :
    (capture_hint budget : ℕ)
    → 1 ≤ budget
    → let captures = capture_count capture_hint budget in
      let stages = max (stage_budget (capture_reserve capture_hint budget) budget) 3 in
      captures + tokio_of budget + stages ≡ max budget (captures + tokio_of budget + 3)
thread_count capture_hint budget h = ground arith

-- The threads of a plan but for the replay workers, so capture, Tokio and the stages, are as many as the
-- budget, but never fewer than three stages, the Tokio workers and the capture threads. The replay workers
-- come on top of them: one to three, and each after the first takes a budget of twelve CPUs more.
pub adaptive_plan_threads :
    (capture_hint : ℕ) (requested : Option ℕ) (found : Option (List ℕ)) (parallelism : Option ℕ)
    → let p = adaptive_plan capture_hint requested found parallelism in
      let threads =
        length p.capture_cpus
        + p.tokio_workers
        + (p.flow_workers + p.l7_workers + p.matcher_workers) in
      (threads ≡ max p.budget (length p.capture_cpus + p.tokio_workers + 3))
      × (1 ≤ p.replay_workers)
      × (p.replay_workers ≤ 3)
      × (12 * (p.replay_workers - 1) ≤ p.budget)
unfolding adaptive_plan
adaptive_plan_threads capture_hint requested found parallelism =
    let some_allowed = usable_cpus-pos found parallelism in
    let budget = cpu_budget requested (length (usable_cpus found parallelism)) in
    let b = cpu_budget_lem requested (length (usable_cpus found parallelism)) some_allowed in
    let captures =
      pinned (usable_cpus found parallelism) budget 0 (capture_count capture_hint budget)
        some_allowed b.0 in
    let stages =
      distribute_stage_workers_lem (stage_budget (capture_reserve capture_hint budget) budget) in
    let count = thread_count capture_hint budget b.0 in
    (rw (captures.0) (rw (stages.1) count), ground arith, ground arith, ground arith)
