-- ===== src/Worker/Steps/Failing.antt =====
-- The steps behind a failure, in `runJobSteps`.
use open_git.Base.{ℕ, suc, ◌≡◌, refl, sym, subst, true, List, [], ◌∷◌, ◌++◌, if◌then◌else◌, All}
use open_git.Worker.Env.{StringMap}
use open_git.Worker.Steps.{
  IrStep, Machine, RunJobSpec, Progress, Stepped, goes_on, crashes, loops, ◌>>=◌, no_progress,
  run_chosen, run_if, merged_env, eval_context, run_step_at, run_steps, run_job_steps,
  interpolate_env,
}
use open_git.Worker.Steps.Log.{Leaves, bind-Leaves, bind-both}

goes_on-inj : {p q : Progress} → goes_on p ≡ goes_on q → p ≡ q
goes_on-inj h = cc

-- Two ways to go on from the same call.
bind-alike :
    (P : Progress → Type 0) (q : Progress) (c : Stepped Progress)
    (f g : Progress → Stepped Progress)
    → (c >>= f) ≡ goes_on q
    → ((p : Progress) → f p ≡ goes_on q → Leaves P (g p))
    → Leaves P (c >>= g)
bind-alike P q (goes_on p) f g h k = k p h
bind-alike P q crashes f g h k = tt
bind-alike P q loops f g h k = tt

module _ (machine : Machine) (spec : RunJobSpec) where
  -- Behind a failure, a step without an `if` does nothing.
  skips-failed :
      (p : Progress) (step : IrStep) (i : ℕ) (env : StringMap)
      → p.failed ≡ true
      → run_if machine spec p step i env [] ≡ goes_on p
  unfolding run_if
  skips-failed p step i env h =
      subst
        (λ b.
          (if b
            then goes_on p
            else run_chosen machine spec p step i (eval_context machine spec env p.failed) env)
          ≡ goes_on p)
        (sym h) refl

  at-failed :
      (p : Progress) (step : IrStep) (i : ℕ)
      → p.failed ≡ true
      → step.cond ≡ []
      → Leaves (λ q. q ≡ p) (run_step_at machine spec p step i)
  unfolding run_step_at
  at-failed p step i h e =
      bind-Leaves (λ q. q ≡ p)
        (interpolate_env machine spec p.failed (merged_env machine spec step)
          (machine.iterate i (merged_env machine spec step)))
        _
        λ env.
          subst (λ c. Leaves (λ q. q ≡ p) (run_if machine spec p step i env c)) (sym e)
            (subst (Leaves (λ q. q ≡ p)) (sym (skips-failed p step i env h)) refl)

  steps-failed :
      (p : Progress) (i : ℕ) (steps : List IrStep)
      → p.failed ≡ true
      → All (λ step. step.cond ≡ []) steps
      → Leaves (λ q. q ≡ p) (run_steps machine spec p i steps)
  unfolding run_steps
  steps-failed p i [] h plain = refl
  steps-failed p i (step ∷ steps) h plain =
      bind-both (λ q. q ≡ p) (run_step_at machine spec p step i) _ (at-failed p step i h plain.0)
        λ q e.
          subst (λ r. Leaves (λ q'. q' ≡ p) (run_steps machine spec r (suc i) steps)) (sym e)
            (steps-failed p (suc i) steps h plain.1)

  after-failed :
      (p q : Progress) (i : ℕ) (steps rest : List IrStep)
      → run_steps machine spec p i steps ≡ goes_on q
      → q.failed ≡ true
      → All (λ step. step.cond ≡ []) rest
      → Leaves (λ r. r ≡ q) (run_steps machine spec p i (steps ++ rest))
  unfolding run_steps
  after-failed p q i [] rest e h plain =
      subst (λ r. Leaves (λ r'. r' ≡ q) (run_steps machine spec r i rest)) (sym (goes_on-inj e))
        (steps-failed q i rest h plain)
  after-failed p q i (step ∷ steps) rest e h plain =
      bind-alike (λ r. r ≡ q) q (run_step_at machine spec p step i) _ _ e
        λ p' e'. after-failed p' q (suc i) steps rest e' h plain

  -- Once the steps of an instance have failed, further steps without an `if` change nothing: they
  -- run no command and write no line.
  pub run_job_steps-failed :
      (steps rest : List IrStep) (q : Progress)
      → run_job_steps machine spec steps ≡ goes_on q
      → q.failed ≡ true
      → All (λ step. step.cond ≡ []) rest
      → Leaves (λ r. r ≡ q) (run_job_steps machine spec (steps ++ rest))
  unfolding run_job_steps
  run_job_steps-failed steps rest q e h plain = after-failed no_progress q 0 steps rest e h plain
