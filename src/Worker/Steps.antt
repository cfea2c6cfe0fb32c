-- ===== src/Worker/Steps.antt =====
-- `runJobSteps`, `runUsesStep`, `emitUsesLine` and their helpers of
-- backend/internal/worker/ci_worker.go: the steps of one instance of a job.
use open_git.Base.{
  ℕ, suc, ◌+◌, ◌-◌, ◌≡◌, Bool, true, false, ◌&&◌, ◌||◌, not, List, [], ◌∷◌, ◌++◌, map, Option, none,
  some, Bytes, codes, bytes_eq, ◌==◌, leb, if◌then◌else◌, contains, reverse, index_of, take, drop,
  length,
}
use mathlib.Core.Option
use open_git.Workflow.Expression.Text.{trim_space}
use open_git.Workflow.Dag.{sort_strings}
use open_git.Workflow.Eval.{Runtime, EvalContext}
use open_git.Workflow.Interpolate.{
  Fault, Returned, returned, panicked, stuck, interpolate_string, evaluate_condition, opening,
}
use open_git.Worker.Mask.{mask_secrets}
use open_git.Worker.Env.{StringMap, get, set, merge_string_maps, build_step_env}
pub mod Log
pub mod Ending
pub mod Numbers
pub mod Failing

-- `IRStep`: its texts, empty where they are missing. `image` is that of a `UsesRef` of kind docker.
pub record IrStep : Type 0 where
  pub cond : Bytes
  pub uses : Bytes
  pub image : Bytes
  pub run : Bytes
  pub name : Bytes
  pub env : StringMap
  pub inputs : StringMap

-- A call of the sink. The runner of the worker calls it for stdout and for stderr from two
-- goroutines without a lock, so that a call may read a count that another call is changing:
-- `counted` gives the number of its line and the count that it leaves, from the count before. The
-- writes to the buffer are taken to be whole.
pub record SinkCall : Type 0 where
  pub stream : Bytes
  pub line : Bytes
  pub counted : ℕ → ℕ × ℕ

-- What one instance of a job calls: Go, the shells, git and docker. A command may do anything with
-- the files of the instance; the index of its step stands for when it is run.
pub record Machine : Type 1 where
  pub go : Runtime
  pub upper_runes : Bytes → List ℕ  -- the runes of `strings.ToUpper`
  pub fault_text : Bytes → EvalContext → Fault → Bytes  -- the text of the error of a condition
  pub iterate : ℕ → StringMap → StringMap  -- the entries in the order in which a step's `range` meets them
  pub stream_runner : ℕ → List Bytes → Bytes → List SinkCall × Option Bytes  -- the lines and the error of a script
  pub run_step : ℕ → List Bytes → Bytes → Bytes × Option Bytes
  pub checkout : Bytes → Option Bytes
  pub container_action : ℕ → Bytes → List Bytes → Bytes × Option Bytes

-- `runJobSpec`, without the identifiers that are only copied into the log.
pub record RunJobSpec : Type 0 where
  pub wf_env : StringMap
  pub job_env : StringMap
  pub contexts : Bytes → Option (Bytes → Option Bytes)  -- all but `env`
  pub secret_env : List Bytes
  pub secret_values : List Bytes
  pub use_streaming : Bool
  pub head_sha : Bytes
  pub head_branch : Bytes

pub record LogLine : Type 0 where
  pub step_index : ℕ
  pub line_number : ℕ
  pub stream : Bytes
  pub text : Bytes

-- An entry of the buffer: the output of a step, the error of its command, or that of its `if`.
pub data Entry : Type 0 where
  output : ℕ → Bytes → Bytes → Entry
  error_line : ℕ → Bytes → Entry
  if_error : ℕ → Bytes → Entry

-- `jobAccumulator`, with the lines given to the log, and `jobFailed`.
pub record Progress : Type 0 where
  pub buf : List Entry
  pub lines : List LogLine
  pub line_count : ℕ
  pub failed : Bool

-- A panic ends the whole process; `loops` stands for a call that runs on.
pub data Stepped (A : Type 0) : Type 0 where
  goes_on : A → Stepped A
  crashes : Stepped A
  loops : Stepped A

infixl 5 ◌>>=◌
abbrev pub ◌>>=◌ : {A B : Type 0} → Stepped A → (A → Stepped B) → Stepped B
goes_on a >>= f = f a
crashes >>= f = crashes
loops >>= f = loops

abbrev pub no_progress : Progress
no_progress = record { buf = []; lines = []; line_count = 0; failed = false }

abbrev pub fail : Progress → Progress
fail p = record p { failed = true }

abbrev pub write : Progress → Entry → Progress
write p e = record p { buf = p.buf ++ e ∷ [] }

-- A line that is given to the log under a number, and the count that is left.
abbrev pub append_counted : Progress → ℕ → Bytes → Bytes → ℕ × ℕ → Progress
append_counted p i stream text (number, count) = record p {
  lines =
      p.lines ++ record { step_index = i; line_number = number; stream = stream; text = text } ∷ [];
  line_count = count;
}

-- The count that a call leaves which no other call disturbs.
abbrev pub next_number : ℕ → ℕ × ℕ
next_number n = (suc n, suc n)

abbrev pub append_line : Progress → ℕ → Bytes → Bytes → Progress
append_line p i stream text = append_counted p i stream text (next_number p.line_count)

-- The part of a reference before its last `@`.
unfoldable pub before_at : Bytes → Bytes
before_at uses = elim (index_of (codes "@") (reverse uses)) [
  | none ↦ uses
  | some n ↦ reverse (drop (suc n) (reverse uses))
]

-- A value of an environment or of an input, interpolated where it has an opening.
abbrev pub interpolated : Bytes → Returned Bytes → Stepped Bytes
interpolated v (returned iv none) = goes_on iv
interpolated v (returned iv (some fault)) = goes_on v
interpolated v panicked = crashes
interpolated v stuck = loops

unfoldable pub input_rune : ℕ → ℕ
input_rune r = if leb 65 r && leb r 90 || leb 48 r && leb r 57 then r else 95

unfoldable pub trim_right_newlines : Bytes → Bytes
trim_right_newlines s = reverse (drop_newlines (reverse s))
  where
    drop_newlines : Bytes → Bytes
    drop_newlines [] = []
    drop_newlines (c ∷ t) = let rest = drop_newlines t in if c == 10 then rest else c ∷ t

-- `strings.Split(s, "\n")`
unfoldable pub split_lines : Bytes → List Bytes
split_lines [] = [] ∷ []
split_lines (c ∷ s) = let rest = split_lines s in if c == 10 then [] ∷ rest else onto c rest
  where
    onto : ℕ → List Bytes → List Bytes
    onto b [] = (b ∷ []) ∷ []
    onto b (line ∷ others) = (b ∷ line) ∷ others

module _ (machine : Machine) (spec : RunJobSpec) where
  open machine use {
    go, upper_runes, fault_text, iterate, stream_runner, run_step, checkout, container_action,
  }

  unfoldable pub is_checkout_action : Bytes → Bool
  is_checkout_action uses = go.equal_fold (trim_space (before_at uses)) (codes "actions/checkout")

  abbrev pub eval_context : StringMap → Bool → EvalContext
  eval_context env failed = record {
    contexts = λ name.
        if bytes_eq name (codes "env") then some (λ key. get key env) else spec.contexts name;
    failed = failed;
    cancelled = false;
  }

  unfoldable pub interpolate_value : EvalContext → Bytes → Stepped Bytes
  interpolate_value ctx v =
      if contains v opening then interpolated v (interpolate_string go ctx v) else goes_on v

  -- The loop over `mergedEnv`, which is also the context `env` of its own expressions; the last
  -- argument holds the entries that are still to come, in the order of the iteration.
  unfoldable pub interpolate_env : Bool → StringMap → StringMap → Stepped StringMap
  interpolate_env failed env [] = goes_on env
  interpolate_env failed env (e ∷ rest) = interpolate_value (eval_context env failed) e.1 >>= λ v.
      interpolate_env failed (set env e.0 v) rest

  unfoldable pub action_inputs : EvalContext → StringMap → Stepped (List Bytes)
  action_inputs ctx [] = goes_on []
  action_inputs ctx (e ∷ rest) = interpolate_value ctx e.1 >>= λ v.
      action_inputs ctx rest >>= λ env.
      goes_on ((codes "INPUT_" ++ (map input_rune (upper_runes e.0) ++ (codes "=" ++ v))) ∷ env)

  unfoldable pub action_input_env : EvalContext → StringMap → Stepped (List Bytes)
  action_input_env ctx inputs = action_inputs ctx inputs >>= λ env. goes_on (sort_strings env)

  abbrev pub masked : Bytes → Bytes
  masked text = mask_secrets text spec.secret_values

  abbrev pub emit_uses_line : Progress → ℕ → Bytes → Progress
  emit_uses_line p i text =
      let p' = write p (output i [] text) in
      if spec.use_streaming then append_line p' i (codes "stdout") text else p'

  unfoldable pub emit_output : Progress → ℕ → List Bytes → Progress
  emit_output p i [] = p
  emit_output p i ([] ∷ lines) = emit_output p i lines
  emit_output p i ((c ∷ line) ∷ lines) =
      emit_output (emit_uses_line p i (masked (c ∷ line))) i lines

  abbrev pub checked_out : Progress → ℕ → Option Bytes → Progress
  checked_out p i none = p
  checked_out p i (some err) = fail (emit_uses_line p i (codes "checkout failed: " ++ err))

  abbrev pub action_ended : Progress → ℕ → Bytes × Option Bytes → Progress
  action_ended p i (out, none) = emit_output p i (split_lines (trim_right_newlines out))
  action_ended p i (out, some err) = fail (
      emit_uses_line (emit_output p i (split_lines (trim_right_newlines out))) i
        (codes "action failed: " ++ masked err))

  abbrev pub checkout_ref : Bytes
  checkout_ref = elim spec.head_sha [ [] ↦ spec.head_branch | c ∷ s ↦ c ∷ s ]

  -- An action that is neither checkout nor an image is passed over.
  unfoldable pub run_container :
      Progress → IrStep → ℕ → EvalContext → List Bytes → Bytes → Stepped Progress
  run_container p step i ctx env [] = goes_on (
      emit_uses_line p i (
        codes "Skipping unsupported action "
        ++ (go.quote step.uses
            ++ codes " (built-in: actions/checkout and docker:// container actions)")))
  run_container p step i ctx env (c ∷ image) = action_input_env ctx step.inputs >>= λ inputs.
      goes_on (
        action_ended (emit_uses_line p i (codes "Run " ++ step.uses)) i
          (container_action i (c ∷ image) (env ++ inputs)))

  unfoldable pub run_uses_step : Progress → IrStep → ℕ → EvalContext → List Bytes → Stepped Progress
  run_uses_step p step i ctx env =
      if is_checkout_action step.uses
      then goes_on (
          checked_out
            (emit_uses_line p i (codes "Run actions/checkout (" ++ (checkout_ref ++ codes ")"))) i
            (checkout checkout_ref))
      else run_container p step i ctx env step.image

  abbrev pub after_command : Progress → ℕ → Option Bytes → Progress
  after_command p i none = p
  after_command p i (some err) = write (fail p) (error_line i (masked err))

  -- The calls of the sink, each of which writes its line to the buffer and to the log.
  unfoldable pub sink_lines : Progress → IrStep → ℕ → List SinkCall → Progress
  sink_lines p step i [] = p
  sink_lines p step i (call ∷ calls) =
      let text = masked call.line in
      sink_lines
        (append_counted (write p (output i step.name text)) i call.stream text
          (call.counted p.line_count))
        step i calls

  unfoldable pub run_script : Progress → IrStep → ℕ → List Bytes → Bytes → Progress
  run_script p step i env script =
      if spec.use_streaming
      then (let (lines, err) = stream_runner i env script in
          after_command (sink_lines p step i lines) i err)
      else (let (out, err) = run_step i env script in
          after_command (write p (output i step.name (masked out))) i err)

  -- The error of an interpolation is dropped.
  abbrev pub script_of : Returned Bytes → Stepped Bytes
  script_of (returned script _) = goes_on script
  script_of panicked = crashes
  script_of stuck = loops

  -- What a step with these `uses` and `run` does once it is known to run.
  unfoldable pub run_kind :
      Progress → IrStep → ℕ → EvalContext → List Bytes → Bytes → Bytes → Stepped Progress
  run_kind p step i ctx step_env (c ∷ uses) run = run_uses_step p step i ctx step_env
  run_kind p step i ctx step_env [] [] = goes_on p
  run_kind p step i ctx step_env [] (c ∷ script) =
      script_of (interpolate_string go ctx (c ∷ script)) >>= λ text.
      goes_on (run_script p step i step_env text)

  abbrev pub run_chosen : Progress → IrStep → ℕ → EvalContext → StringMap → Stepped Progress
  run_chosen p step i ctx env =
      run_kind p step i ctx (build_step_env (env ∷ []) spec.secret_env) step.uses step.run

  -- The step runs under an `if` that holds, or without one while nothing has failed.
  -- The text of an error of the `if` is written as it is.
  abbrev pub decide :
      Progress → ℕ → (Fault → Bytes) → Returned Bool → Stepped Progress → Stepped Progress
  decide p i describe (returned run (some fault)) chosen =
      goes_on (write (fail p) (if_error i (describe fault)))
  decide p i describe (returned true none) chosen = chosen
  decide p i describe (returned false none) chosen = goes_on p
  decide p i describe panicked chosen = crashes
  decide p i describe stuck chosen = loops

  unfoldable pub run_if : Progress → IrStep → ℕ → StringMap → Bytes → Stepped Progress
  run_if p step i env [] =
      if p.failed then goes_on p else run_chosen p step i (eval_context env p.failed) env
  run_if p step i env (c ∷ cond) =
      let ctx = eval_context env p.failed in
      decide p i (fault_text (c ∷ cond) ctx) (evaluate_condition go ctx (c ∷ cond))
        (run_chosen p step i ctx env)

  abbrev pub merged_env : IrStep → StringMap
  merged_env step = merge_string_maps (spec.wf_env ∷ spec.job_env ∷ step.env ∷ [])

  unfoldable pub run_step_at : Progress → IrStep → ℕ → Stepped Progress
  run_step_at p step i =
      interpolate_env p.failed (merged_env step) (iterate i (merged_env step)) >>= λ env.
      run_if p step i env step.cond

  unfoldable pub run_steps : Progress → ℕ → List IrStep → Stepped Progress
  run_steps p i [] = goes_on p
  run_steps p i (step ∷ steps) = run_step_at p step i >>= λ q. run_steps q (suc i) steps

  -- `runJobSteps`
  unfoldable pub run_job_steps : List IrStep → Stepped Progress
  run_job_steps steps = run_steps no_progress 0 steps
