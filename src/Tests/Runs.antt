-- ===== src/Tests/Runs.antt =====
-- Runs of workflows by the worker at concrete inputs: the goroutines of the jobs.
use open_git.Base.{
  ◌≡◌, ◌≤◌, ◌+◌, ◌↔◌, ◌⊎◌, inl, inr, refl, Bool-cases, true, false, [], ◌∷◌, none, some, bytes_eq,
  is_member, All, arith,
}
use open_git.Tests.Graphs.{b, t, build_and_test, built, builds, build_and_test-IsMap}
use open_git.Worker.Run.{
  Plan, RunState, start, Reach, begins, goes, passes, acquires, runs, finishes, all_satisfied,
  instances, success, failure, pass, acquire, run_instance, finish,
}
use open_git.Worker.Run.Order.{IsPlanned}
use open_git.Worker.Run.Outcome.{ran, begun-succeeded}
use open_git.Worker.Run.Sequential.{sequential, results-sequential, IsOver}
use open_git.Worker.Run.Slots.{IsCounted, busy-IsCounted}
use open_git.Worker.Run.Conclusion.{HasFailure, failed-HasFailure}
use open_git.Worker.Run.Progress.{CanGo, run-CanGo}
use open_git.Worker.Run.Ends.{steps, work, most_steps, steps-le}

-- The tests fail.
abbrev pub plan : Plan
plan = record {
  jobs = build_and_test;
  dag = built;
  holds = λ _. true;
  expansion = λ _. [];
  fails = λ job _. bytes_eq job t;
}

plan-IsPlanned : IsPlanned plan
plan-IsPlanned = record { is_map = build_and_test-IsMap; built = builds; clean = refl }

-- The job `b` runs to its end, and then the job `t`.
abbrev pub build_passed : RunState
build_passed = pass start b

abbrev pub build_started : RunState
build_started = acquire plan build_passed b

abbrev pub build_ran : RunState
build_ran = run_instance build_started b [] false

abbrev pub build_done : RunState
build_done = finish build_ran b false

abbrev tests_passed : RunState
tests_passed = pass build_done t

abbrev tests_started : RunState
tests_started = acquire plan tests_passed t

abbrev tests_ran : RunState
tests_ran = run_instance tests_started t [] true

abbrev tests_done : RunState
tests_done = finish tests_ran t true

pub build : Reach plan build_done
unfolding bytes_eq is_member all_satisfied instances
build =
    goes b
      (goes b
        (goes b (goes b begins refl (passes refl tt refl refl refl)) refl
          (acquires refl (omega arith) refl))
        refl (runs none [] false false refl (λ _. refl) refl))
      refl (finishes false refl refl)

during : Reach plan tests_started
unfolding bytes_eq is_member all_satisfied instances
during =
    goes t (goes t build refl (passes refl ((λ _. refl), tt) refl refl refl)) refl
      (acquires refl (omega arith) refl)

whole : Reach plan tests_done
unfolding bytes_eq is_member all_satisfied instances
whole =
    goes t (goes t during refl (runs none [] false true refl (λ _. refl) refl)) refl
      (finishes true refl refl)

whole-IsOver : IsOver plan tests_done
unfolding is_member
whole-IsOver x h = elim (Bool-cases (bytes_eq x t)) [
  | inl e ↦ rw e refl
  | inr e ↦ elim (Bool-cases (bytes_eq x b)) [
    | inl k ↦ rw (e, k) refl
    | inr k ↦ absurd (ground (arith, h, e, k))
  ]
]

results-sequential_example : some failure ≡ sequential plan (b ∷ t ∷ []) (λ _. none) t
unfolding bytes_eq
results-sequential_example =
    results-sequential plan tests_done t plan-IsPlanned whole whole-IsOver refl

begun-succeeded_example :
    All (λ need. tests_done.results need ≡ some success) (b ∷ []) × (true ≡ true)
unfolding bytes_eq
begun-succeeded_example = begun-succeeded plan tests_done t whole (ran failure refl (λ h. cc))

busy-IsCounted_example : IsCounted plan tests_started
busy-IsCounted_example = busy-IsCounted plan tests_started plan-IsPlanned during

failed-HasFailure_example : (true ≡ true) ↔ HasFailure tests_done.results
failed-HasFailure_example = failed-HasFailure plan tests_done whole

run-CanGo_example : IsOver plan build_done ⊎ CanGo plan build_done
run-CanGo_example = run-CanGo plan build_done plan-IsPlanned build

steps-le_example : steps whole + work plan tests_done ≤ most_steps plan (b ∷ t ∷ [])
steps-le_example = steps-le plan tests_done whole

-- Eight steps, of ten at most.
steps_taken : (steps whole ≡ 8) × (most_steps plan (b ∷ t ∷ []) ≡ 10)
unfolding steps whole during build most_steps instances
steps_taken = (refl, refl)
