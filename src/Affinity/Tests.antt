-- ===== src/Affinity/Tests.antt =====
-- The planner of affinity.rs on small machines.
use bazalt.Prelude.{◌+◌, ◌-◌, ◌*◌, ◌≤◌, ◌<◌, ◌≡◌, refl, none, some, [], ◌∷◌, length, max, run_loop}
use bazalt.Affinity.Stages.{
  sum, grow, grow_round, shrink_round, default_cpu_budget, distribute_stage_workers, IsFair,
  distribute_stage_workers_lem, default_cpu_budget_lem,
}
use bazalt.Affinity.Plan.{adaptive_plan, IsFrom, adaptive_plan_cpus, adaptive_plan_threads, CpuPlan}

four_stages : distribute_stage_workers 4 ≡ record { flow = 1; l7 = 2; matcher = 1 }
unfolding distribute_stage_workers grow grow_round shrink_round run_loop
four_stages = refl

ten_stages : distribute_stage_workers 10 ≡ record { flow = 3; l7 = 4; matcher = 3 }
unfolding distribute_stage_workers grow grow_round shrink_round run_loop
ten_stages = refl

budgets : (default_cpu_budget 4 ≡ 4) × (default_cpu_budget 16 ≡ 12)
unfolding default_cpu_budget
budgets = (refl, refl)

-- One CPU and a capture thread.
abbrev single : CpuPlan
single = adaptive_plan 1 none (some (3 ∷ [])) (some 1)

distribute_stage_workers_lem_example :
    IsFair 7 (distribute_stage_workers 7) × (sum (distribute_stage_workers 7) ≡ 7)
distribute_stage_workers_lem_example = distribute_stage_workers_lem 7

default_cpu_budget_lem_example :
    (1 ≤ default_cpu_budget 16)
    × (default_cpu_budget 16 ≤ 16)
    × (48 ≤ 4 * default_cpu_budget 16)
    × (4 ≤ default_cpu_budget 16)
    × (4 * default_cpu_budget 16 < 52)
default_cpu_budget_lem_example = default_cpu_budget_lem 16

adaptive_plan_cpus_example :
    (1 ≤ single.budget)
    × (single.budget ≤ length single.allowed)
    × IsFrom single.allowed single.capture_cpus
    × ((length single.flow_cpus ≡ single.flow_workers) × IsFrom single.allowed single.flow_cpus)
    × ((length single.l7_cpus ≡ single.l7_workers) × IsFrom single.allowed single.l7_cpus)
    × ((length single.matcher_cpus ≡ single.matcher_workers)
        × IsFrom single.allowed single.matcher_cpus)
adaptive_plan_cpus_example = adaptive_plan_cpus 1 none (some (3 ∷ [])) (some 1)

adaptive_plan_threads_example :
    (length single.capture_cpus
        + single.tokio_workers
        + (single.flow_workers + single.l7_workers + single.matcher_workers)
      ≡ max single.budget (length single.capture_cpus + single.tokio_workers + 3))
    × (1 ≤ single.replay_workers)
    × (single.replay_workers ≤ 3)
    × (12 * (single.replay_workers - 1) ≤ single.budget)
adaptive_plan_threads_example = adaptive_plan_threads 1 none (some (3 ∷ [])) (some 1)
