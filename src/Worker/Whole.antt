-- ===== src/Worker/Whole.antt =====
-- The jobs of `HandleCIRun` of backend/internal/worker/ci_worker.go put together: the conditions and
-- the steps that stand behind the plan of a run.
use open_git.Base.{
  ◌≡◌, refl, sym, ap, ◌∙◌, subst, Bool, true, false, List, [], ◌∷◌, Option, none, some, Bytes,
  codes, bytes_eq, All, if◌then◌else◌, arith,
}
use mathlib.Core.Option
use open_git.Workflow.Matrix.{Any, Combo, find}
use open_git.Workflow.Dag.{Jobs}
use open_git.Workflow.Eval.{Runtime, EvalContext}
use open_git.Workflow.Interpolate.{Returned, returned, Fault, evaluate_condition}
use open_git.Worker.Env.{StringMap, get, merge_string_maps, parse_env_to_map}
use open_git.Worker.Steps.{Machine, RunJobSpec, IrStep, Progress, goes_on, run_job_steps}
use open_git.Worker.Run.{Plan, RunState, JobResult, success, failure, skipped, Reach, instances}
use open_git.Worker.Run.Facts.{Reach-Invariant, outcome, any_fails}
use open_git.Worker.Run.Outcome.{At-Has, ran, begun-succeeded}

-- `IRJob`, without the needs, which are in the graph.
pub record IrJob : Type 0 where
  pub cond : Bytes
  pub env : StringMap
  pub steps : List IrStep
  pub expansion : List Combo

-- `WorkflowIR` with what a run is given; `contexts` are `github` and `runner`.
pub record RunIr : Type 0 where
  pub jobs : Jobs
  pub job : Bytes → IrJob
  pub env : StringMap
  pub contexts : Bytes → Option (Bytes → Option Bytes)
  pub secret_env : List Bytes
  pub secret_values : List Bytes
  pub use_streaming : Bool
  pub head_sha : Bytes
  pub head_branch : Bytes

-- The conditions of the jobs are evaluated by `go`; each instance of a job calls a machine of its own,
-- with its own directory, shells and containers.
module _ (go : Runtime) (machines : Bytes → Option Combo → Machine) (show : Any → Bytes)
    (ir : RunIr) where
  -- `stringifyMatrixCombo`, with `show` for the verb `%v`.
  unfoldable pub stringify_matrix_combo : Option Combo → Bytes → Option Bytes
  stringify_matrix_combo none key = none
  stringify_matrix_combo (some combo) key = Option.map show (find key combo)

  abbrev pub with_matrix : Option Combo → Bytes → Option (Bytes → Option Bytes)
  with_matrix combo name =
      if bytes_eq name (codes "matrix")
      then some (stringify_matrix_combo combo)
      else if bytes_eq name (codes "secrets")
      then some (λ key. get key (parse_env_to_map ir.secret_env))
      else ir.contexts name

  abbrev pub job_spec : Bytes → Option Combo → RunJobSpec
  job_spec name combo = record {
    wf_env = ir.env;
    job_env = (ir.job name).env;
    contexts = with_matrix combo;
    secret_env = ir.secret_env;
    secret_values = ir.secret_values;
    use_streaming = ir.use_streaming;
    head_sha = ir.head_sha;
    head_branch = ir.head_branch;
  }

  abbrev pub job_context : Bytes → EvalContext
  job_context name = record {
    contexts = λ c.
        if bytes_eq c (codes "env")
        then some (λ key. get key (merge_string_maps (ir.env ∷ (ir.job name).env ∷ [])))
        else with_matrix none c;
    failed = false;
    cancelled = false;
  }

  abbrev condition_of : Bytes → Bytes → Returned Bool
  condition_of name [] = returned true none
  condition_of name (c ∷ cond) = evaluate_condition go (job_context name) (c ∷ cond)

  -- What the `if` of a job gives.
  abbrev pub job_condition : Bytes → Returned Bool
  job_condition name = condition_of name (ir.job name).cond

  -- A job runs if its condition is true and without an error.
  abbrev pub lets_run : Bool → Option Fault → Bool
  lets_run run none = run
  lets_run run (some fault) = false

  -- A plan of a run in which nothing panics.
  pub record IsPlanOf (plan : Plan) : Type 0 where
    pub jobs : plan.jobs ≡ ir.jobs
    pub expansion : (name : Bytes) → plan.expansion name ≡ (ir.job name).expansion
    pub conditions :
        (name : Bytes)
        → (run : Bool) × (fault : Option Fault) × (job_condition name ≡ returned run fault)
          × (plan.holds name ≡ lets_run run fault)
    pub outcomes :
        (name : Bytes) (combo : Option Combo)
        → (p : Progress) × (run_job_steps
              (machines name combo)
              (job_spec name combo)
              (ir.job name).steps
            ≡ goes_on p)
          × (plan.fails name combo ≡ p.failed)

  -- The steps of an instance of a job end, and without a failure.
  abbrev pub Passes : Bytes → Option Combo → Type 0
  Passes name combo =
      (p : Progress) × (run_job_steps (machines name combo) (job_spec name combo)
          (ir.job name).steps
        ≡ goes_on p)
      × (p.failed ≡ false)

  module _ (plan : Plan) (from : IsPlanOf plan) (name : Bytes) where
    none-Passes :
        (combos : List (Option Combo))
        → any_fails plan name combos ≡ false
        → All (Passes name) combos
    unfolding any_fails
    none-Passes [] h = tt
    none-Passes (combo ∷ combos) h =
        let (p, e, f) = from.outcomes name combo in
        ((p, e, sym f ∙ ground (arith, h)), none-Passes combos (ground (arith, h)))

    no_failure :
        (a f : Bool) → success ≡ (if a then if f then failure else success else skipped) → f ≡ false
    no_failure true true h = absurd (let no' : success ≡ failure = h in cc)
    no_failure true false h = refl
    no_failure false f h = absurd (let no' : success ≡ skipped = h in cc)

    outcome-success :
        (results : Bytes → Option JobResult)
        → success ≡ outcome plan results name
        → any_fails plan name (instances (plan.expansion name)) ≡ false
    unfolding outcome
    outcome-success results h =
        no_failure _ (any_fails plan name (instances (plan.expansion name))) h

    lets_run-true :
        (run : Bool) (fault : Option Fault)
        → job_condition name ≡ returned run fault
        → lets_run run fault ≡ true
        → job_condition name ≡ returned true none
    lets_run-true run none e h = e ∙ ap (λ b. returned b none) h
    lets_run-true run (some fault) e h = absurd (let no' : false ≡ true = h in cc)

    condition-holds : plan.holds name ≡ true → job_condition name ≡ returned true none
    condition-holds h =
        let (run, fault, e, k) = from.conditions name in lets_run-true run fault e (sym k ∙ h)

-- In a run that is not cancelled and in which nothing panics, a job is recorded as a success only if
-- its condition evaluates to true without an error, each of its needs is recorded as a success, and
-- the steps of each of its instances end without a failure.
pub success-Passes :
    (go : Runtime) (machines : Bytes → Option Combo → Machine) (show : Any → Bytes) (ir : RunIr)
    (plan : Plan) (s : RunState) (name : Bytes)
    → IsPlanOf go machines show ir plan
    → Reach plan s
    → s.cancelled ≡ false
    → s.results name ≡ some success
    → (job_condition go machines show ir name ≡ returned true none)
      × All (λ need. s.results need ≡ some success) (ir.jobs.needs name)
      × All (Passes go machines show ir name) (instances (ir.job name).expansion)
success-Passes go machines show ir plan s name from reach going e =
    let (needs, holds) = begun-succeeded plan s name reach (ran success e (λ h. cc)) in
    let has = At-Has plan s name success e (s.phase name) ((Reach-Invariant plan reach).at' name) in
    let passing =
      none-Passes go machines show ir plan from name (instances (plan.expansion name))
        (outcome-success go machines show ir plan from name s.results (has.2 going)) in
    (
      condition-holds go machines show ir plan from name holds,
      subst (λ j. All (λ need. s.results need ≡ some success) (j.needs name)) from.jobs needs,
      subst (λ l. All (Passes go machines show ir name) (instances l)) (from.expansion name)
          passing,
    )
