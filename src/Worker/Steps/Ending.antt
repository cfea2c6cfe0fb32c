-- ===== src/Worker/Steps/Ending.antt =====
-- `runJobSteps` comes to an end.
use open_git.Base.{ℕ, suc, Bool, true, false, List, [], ◌∷◌, none, some, Bytes, if-both, contains}
use open_git.Workflow.Eval.{EvalContext}
use open_git.Workflow.Interpolate.{
  Fault, Returned, returned, panicked, stuck, interpolate_string, opening,
}
use open_git.Workflow.Interpolate.Spans.{Ends, interpolate_string-Ends, evaluate_condition-Ends}
use open_git.Worker.Env.{StringMap, set}
use open_git.Worker.Steps.{
  IrStep, Machine, RunJobSpec, Progress, Stepped, goes_on, crashes, loops, ◌>>=◌, no_progress,
  interpolated, eval_context, interpolate_value, interpolate_env, action_inputs, action_input_env,
  run_container, run_uses_step, script_of, run_kind, decide, run_if, merged_env, run_step_at,
  run_steps, run_job_steps, is_checkout_action,
}

-- A call that goes on or panics, and does not run on.
abbrev pub Halts : {A : Type 0} → Stepped A → Type 0
Halts (goes_on a) = Unit
Halts crashes = Unit
Halts loops = ⊥

bind-Halts :
    {A B : Type 0} (c : Stepped A) (f : A → Stepped B)
    → Halts c
    → ((a : A) → Halts (f a))
    → Halts (c >>= f)
bind-Halts (goes_on a) f h k = k a
bind-Halts crashes f h k = tt
bind-Halts loops f h k = h

interpolated-Halts : (v : Bytes) (r : Returned Bytes) → Ends r → Halts (interpolated v r)
interpolated-Halts v (returned iv none) h = tt
interpolated-Halts v (returned iv (some fault)) h = tt
interpolated-Halts v panicked h = tt
interpolated-Halts v stuck h = h

module _ (machine : Machine) (spec : RunJobSpec) where
  value-Halts : (ctx : EvalContext) (v : Bytes) → Halts (interpolate_value machine spec ctx v)
  unfolding interpolate_value
  value-Halts ctx v =
      if-both Halts (contains v opening) (interpolated v (interpolate_string machine.go ctx v))
        (goes_on v) (interpolated-Halts v _ (interpolate_string-Ends machine.go ctx v)) tt

  env-Halts :
      (failed : Bool) (env rest : StringMap) → Halts (interpolate_env machine spec failed env rest)
  unfolding interpolate_env
  env-Halts failed env [] = tt
  env-Halts failed env (e ∷ rest) =
      bind-Halts (interpolate_value machine spec (eval_context machine spec env failed) e.1) _
        (value-Halts _ e.1) λ v. env-Halts failed (set env e.0 v) rest

  inputs-Halts :
      (ctx : EvalContext) (inputs : StringMap) → Halts (action_inputs machine spec ctx inputs)
  unfolding action_inputs
  inputs-Halts ctx [] = tt
  inputs-Halts ctx (e ∷ rest) =
      bind-Halts (interpolate_value machine spec ctx e.1) _ (value-Halts ctx e.1)
        λ v. bind-Halts (action_inputs machine spec ctx rest) _ (inputs-Halts ctx rest) λ env. tt

  container-Halts :
      (p : Progress) (step : IrStep) (i : ℕ) (ctx : EvalContext) (env : List Bytes) (image : Bytes)
      → Halts (run_container machine spec p step i ctx env image)
  unfolding run_container action_input_env
  container-Halts p step i ctx env [] = tt
  container-Halts p step i ctx env (c ∷ image) =
      bind-Halts (action_input_env machine spec ctx step.inputs) _
        (bind-Halts (action_inputs machine spec ctx step.inputs) _ (inputs-Halts ctx step.inputs)
          λ _. tt)
        λ _. tt

  script-Halts : (r : Returned Bytes) → Ends r → Halts (script_of machine spec r)
  script-Halts (returned s fault) h = tt
  script-Halts panicked h = tt
  script-Halts stuck h = h

  kind-Halts :
      (p : Progress) (step : IrStep) (i : ℕ) (ctx : EvalContext) (env : List Bytes)
      (uses run : Bytes)
      → Halts (run_kind machine spec p step i ctx env uses run)
  unfolding run_kind run_uses_step
  kind-Halts p step i ctx env (c ∷ uses) run =
      if-both Halts (is_checkout_action machine spec step.uses) _ _ tt
        (container-Halts p step i ctx env step.image)
  kind-Halts p step i ctx env [] [] = tt
  kind-Halts p step i ctx env [] (c ∷ script) =
      bind-Halts (script_of machine spec (interpolate_string machine.go ctx (c ∷ script))) _
        (script-Halts _ (interpolate_string-Ends machine.go ctx (c ∷ script))) λ _. tt

  decide-Halts :
      (p : Progress) (i : ℕ) (describe : Fault → Bytes) (r : Returned Bool)
      (chosen : Stepped Progress)
      → Ends r
      → Halts chosen
      → Halts (decide machine spec p i describe r chosen)
  decide-Halts p i describe (returned run (some fault)) chosen h k = tt
  decide-Halts p i describe (returned true none) chosen h k = k
  decide-Halts p i describe (returned false none) chosen h k = tt
  decide-Halts p i describe panicked chosen h k = tt
  decide-Halts p i describe stuck chosen h k = h

  if-Halts :
      (p : Progress) (step : IrStep) (i : ℕ) (env : StringMap) (cond : Bytes)
      → Halts (run_if machine spec p step i env cond)
  unfolding run_if
  if-Halts p step i env [] =
      if-both Halts p.failed (goes_on p) _ tt
        (kind-Halts p step i (eval_context machine spec env p.failed) _ step.uses step.run)
  if-Halts p step i env (c ∷ cond) =
      let ctx = eval_context machine spec env p.failed in
      decide-Halts p i (machine.fault_text (c ∷ cond) ctx) _ _
        (evaluate_condition-Ends machine.go ctx (c ∷ cond))
        (kind-Halts p step i ctx _ step.uses step.run)

  steps-Halts :
      (p : Progress) (i : ℕ) (steps : List IrStep) → Halts (run_steps machine spec p i steps)
  unfolding run_steps run_step_at
  steps-Halts p i [] = tt
  steps-Halts p i (step ∷ steps) =
      bind-Halts (run_step_at machine spec p step i) _
        (bind-Halts
          (interpolate_env machine spec p.failed (merged_env machine spec step)
            (machine.iterate i (merged_env machine spec step)))
          _ (env-Halts p.failed _ _) λ env. if-Halts p step i env step.cond)
        λ q. steps-Halts q (suc i) steps

  -- The steps of an instance come to an end, whatever their expressions are: all are gone through,
  -- or an expression panics.
  pub run_job_steps-Halts : (steps : List IrStep) → Halts (run_job_steps machine spec steps)
  unfolding run_job_steps
  run_job_steps-Halts steps = steps-Halts no_progress 0 steps
