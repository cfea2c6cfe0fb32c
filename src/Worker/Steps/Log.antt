-- ===== src/Worker/Steps/Log.antt =====
-- The log of the steps: what `runJobSteps` writes into it.
use open_git.Base.{
  ℕ, suc, ◌≡◌, refl, ◌⊎◌, inl, inr, sym, subst, Bool, true, false, List, [], ◌∷◌, Option, none,
  some, Bytes, if-both, contains, All, All-append, is_member,
}
use open_git.Workflow.Eval.{EvalContext}
use open_git.Workflow.Interpolate.{Fault, Returned, returned, panicked, stuck, interpolate_string}
use open_git.Worker.Mask.{mask_secrets-clean, has_star}
use open_git.Worker.Env.{StringMap, build_step_env}
use open_git.Worker.Steps.{
  IrStep, SinkCall, Machine, RunJobSpec, append_counted, eval_context, Entry, output, error_line,
  if_error, Progress, Stepped, goes_on, crashes, loops, ◌>>=◌, no_progress, write, fail, masked,
  after_command, sink_lines, run_script, run_kind, run_chosen, decide, run_if, merged_env,
  run_step_at, run_steps, run_job_steps, interpolate_env, script_of,
}

-- A property of the progress that a call leaves, where it goes on.
abbrev pub Leaves : (Progress → Type 0) → Stepped Progress → Type 0
Leaves P (goes_on p) = P p
Leaves P crashes = Unit
Leaves P loops = Unit

pub bind-Leaves :
    {A : Type 0} (P : Progress → Type 0) (c : Stepped A) (f : A → Stepped Progress)
    → ((a : A) → Leaves P (f a))
    → Leaves P (c >>= f)
bind-Leaves P (goes_on a) f h = h a
bind-Leaves P crashes f h = tt
bind-Leaves P loops f h = tt

pub bind-both :
    (P : Progress → Type 0) (c : Stepped Progress) (f : Progress → Stepped Progress)
    → Leaves P c
    → ((p : Progress) → P p → Leaves P (f p))
    → Leaves P (c >>= f)
bind-both P (goes_on p) f h k = k p h
bind-both P crashes f h k = tt
bind-both P loops f h k = tt

-- The steps keep what each of the things they do keeps: what is written, what is appended, and a
-- failure.
module _ (machine : Machine) (spec : RunJobSpec) (P : Progress → Type 0) (Allowed : IrStep → Type 0)
    (chosen : (p : Progress) (step : IrStep) (i : ℕ) (ctx : EvalContext) (env : StringMap)
      → Allowed step
      → P p
      → Leaves P (run_chosen machine spec p step i ctx env))
    (refused : (p : Progress) (step : IrStep) (i c : ℕ) (cond : Bytes) (ctx : EvalContext)
        (fault : Fault)
      → Allowed step
      → step.cond ≡ c ∷ cond
      → P p
      → P (write (fail p) (if_error i (machine.fault_text (c ∷ cond) ctx fault)))) where
  decide-Leaves :
      (p : Progress) (i : ℕ) (describe : Fault → Bytes) (r : Returned Bool) (c : Stepped Progress)
      → P p
      → ((fault : Fault) → P (write (fail p) (if_error i (describe fault))))
      → Leaves P c
      → Leaves P (decide machine spec p i describe r c)
  decide-Leaves p i describe (returned run (some fault)) c h l k = l fault
  decide-Leaves p i describe (returned true none) c h l k = k
  decide-Leaves p i describe (returned false none) c h l k = h
  decide-Leaves p i describe panicked c h l k = tt
  decide-Leaves p i describe stuck c h l k = tt

  if-Leaves :
      (p : Progress) (step : IrStep) (i : ℕ) (env : StringMap) (cond : Bytes)
      → Allowed step
      → step.cond ≡ cond
      → P p
      → Leaves P (run_if machine spec p step i env cond)
  unfolding run_if
  if-Leaves p step i env [] ok e h =
      if-both (Leaves P) p.failed (goes_on p) _ h (chosen p step i _ env ok h)
  if-Leaves p step i env (c ∷ cond) ok e h =
      let ctx = eval_context machine spec env p.failed in
      decide-Leaves p i (machine.fault_text (c ∷ cond) ctx) _ _ h
        (λ fault. refused p step i c cond ctx fault ok e h) (chosen p step i ctx env ok h)

  at-Leaves :
      (p : Progress) (step : IrStep) (i : ℕ)
      → Allowed step
      → P p
      → Leaves P (run_step_at machine spec p step i)
  unfolding run_step_at
  at-Leaves p step i ok h =
      bind-Leaves P
        (interpolate_env machine spec p.failed (merged_env machine spec step)
          (machine.iterate i (merged_env machine spec step)))
        _ λ env. if-Leaves p step i env step.cond ok refl h

  pub steps-Leaves :
      (p : Progress) (i : ℕ) (steps : List IrStep)
      → All Allowed steps
      → P p
      → Leaves P (run_steps machine spec p i steps)
  unfolding run_steps
  steps-Leaves p i [] ok h = h
  steps-Leaves p i (step ∷ steps) ok h =
      bind-both P (run_step_at machine spec p step i) _ (at-Leaves p step i ok.0 h)
        λ q k. steps-Leaves q (suc i) steps ok.1 k

-- No secret is in a line, or in a text or a name of the buffer.
abbrev pub CleanEntry : Bytes → Entry → Type 0
CleanEntry secret (output i name text) =
    (contains name secret ≡ false) × (contains text secret ≡ false)
CleanEntry secret (error_line i text) = contains text secret ≡ false
CleanEntry secret (if_error i text) = contains text secret ≡ false

abbrev pub IsClean : Bytes → Progress → Type 0
IsClean secret p = All (λ l. contains l.text secret ≡ false) p.lines × All (CleanEntry secret) p.buf

-- A script without the secret in its name or, if it has an `if`, in the text of an error of that.
abbrev pub IsCleanScript : Machine → Bytes → IrStep → Type 0
IsCleanScript machine secret step =
    (step.uses ≡ [])
    × (contains step.name secret ≡ false)
    × ((step.cond ≡ [])
        ⊎ ((ctx : EvalContext) (fault : Fault)
            → contains (machine.fault_text step.cond ctx fault) secret ≡ false))

module _ (machine : Machine) (spec : RunJobSpec) (x : ℕ) (v : Bytes)
    (member : is_member (x ∷ v) spec.secret_values ≡ true) (plain : has_star (x ∷ v) ≡ false) where
  clean : (text : Bytes) → contains (masked machine spec text) (x ∷ v) ≡ false
  clean text = mask_secrets-clean x v text spec.secret_values member plain

  write-IsClean :
      (p : Progress) (e : Entry)
      → CleanEntry (x ∷ v) e
      → IsClean (x ∷ v) p
      → IsClean (x ∷ v) (write p e)
  write-IsClean p e k h = (h.0, All-append _ p.buf (e ∷ []) h.1 (k, tt))

  append-IsClean :
      (p : Progress) (i : ℕ) (stream text : Bytes) (n : ℕ × ℕ)
      → contains text (x ∷ v) ≡ false
      → IsClean (x ∷ v) p
      → IsClean (x ∷ v) (append_counted p i stream text n)
  append-IsClean p i stream text n k h = (All-append _ p.lines (_ ∷ []) h.0 (k, tt), h.1)

  sink-IsClean :
      (p : Progress) (step : IrStep) (i : ℕ) (calls : List SinkCall)
      → contains step.name (x ∷ v) ≡ false
      → IsClean (x ∷ v) p
      → IsClean (x ∷ v) (sink_lines machine spec p step i calls)
  unfolding sink_lines
  sink-IsClean p step i [] named h = h
  sink-IsClean p step i (call ∷ calls) named h =
      let text = masked machine spec call.line in
      let q = write p (output i step.name text) in
      let n = call.counted p.line_count in
      sink-IsClean (append_counted q i call.stream text n) step i calls named (
        append-IsClean q i call.stream text n (clean call.line)
          (write-IsClean p (output i step.name text) (named, clean call.line) h))

  after-IsClean :
      (p : Progress) (i : ℕ) (err : Option Bytes)
      → IsClean (x ∷ v) p
      → IsClean (x ∷ v) (after_command machine spec p i err)
  after-IsClean p i none h = h
  after-IsClean p i (some err) h =
      write-IsClean (fail p) (error_line i (masked machine spec err)) (clean err) h

  script-IsClean :
      (p : Progress) (step : IrStep) (i : ℕ) (env : List Bytes) (script : Bytes)
      → contains step.name (x ∷ v) ≡ false
      → IsClean (x ∷ v) p
      → IsClean (x ∷ v) (run_script machine spec p step i env script)
  unfolding run_script
  script-IsClean p step i env script named h =
      let (lines, lines_err) = machine.stream_runner i env script in
      let (out, err) = machine.run_step i env script in
      if-both (IsClean (x ∷ v)) spec.use_streaming
        (after_command machine spec (sink_lines machine spec p step i lines) i lines_err)
        (after_command machine spec (write p (output i step.name (masked machine spec out))) i err)
        (after-IsClean _ i lines_err (sink-IsClean p step i lines named h))
        (after-IsClean _ i err (write-IsClean p _ (named, clean out) h))

  kind-IsClean :
      (p : Progress) (step : IrStep) (i : ℕ) (ctx : EvalContext) (env : List Bytes) (run : Bytes)
      → contains step.name (x ∷ v) ≡ false
      → IsClean (x ∷ v) p
      → Leaves (IsClean (x ∷ v)) (run_kind machine spec p step i ctx env [] run)
  unfolding run_kind
  kind-IsClean p step i ctx env [] named h = h
  kind-IsClean p step i ctx env (c ∷ script) named h =
      bind-Leaves (IsClean (x ∷ v))
        (script_of machine spec (interpolate_string machine.go ctx (c ∷ script))) _
        λ text. script-IsClean p step i env text named h

  refused-IsClean :
      (p : Progress) (step : IrStep) (i c : ℕ) (cond : Bytes) (ctx : EvalContext) (fault : Fault)
      → IsCleanScript machine (x ∷ v) step
      → step.cond ≡ c ∷ cond
      → IsClean (x ∷ v) p
      → IsClean (x ∷ v) (write (fail p) (if_error i (machine.fault_text (c ∷ cond) ctx fault)))
  refused-IsClean p step i c cond ctx fault (no_uses, named, inl none_there) e h = absurd cc
  refused-IsClean p step i c cond ctx fault (no_uses, named, inr texts) e h =
      write-IsClean (fail p) (if_error i (machine.fault_text (c ∷ cond) ctx fault))
        (subst (λ t. contains (machine.fault_text t ctx fault) (x ∷ v) ≡ false) e (texts ctx fault))
        h

  chosen-IsClean :
      (p : Progress) (step : IrStep) (i : ℕ) (ctx : EvalContext) (env : StringMap)
      → IsCleanScript machine (x ∷ v) step
      → IsClean (x ∷ v) p
      → Leaves (IsClean (x ∷ v)) (run_chosen machine spec p step i ctx env)
  chosen-IsClean p step i ctx env (no_uses, named, _) h =
      let step_env = build_step_env (env ∷ []) spec.secret_env in
      subst (λ u. Leaves (IsClean (x ∷ v)) (run_kind machine spec p step i ctx step_env u step.run))
        (sym no_uses) (kind-IsClean p step i ctx step_env step.run named h)

  -- A secret of the run that is not empty and has no asterisk is in no line of the log and in no
  -- text or name of the buffer, where no step has a `uses`, or a name or an error of its `if` with
  -- the secret in it.
  pub run_job_steps-IsClean :
      (steps : List IrStep)
      → All (IsCleanScript machine (x ∷ v)) steps
      → Leaves (IsClean (x ∷ v)) (run_job_steps machine spec steps)
  unfolding run_job_steps
  run_job_steps-IsClean steps scripts =
      steps-Leaves machine spec (IsClean (x ∷ v)) (IsCleanScript machine (x ∷ v)) chosen-IsClean
        refused-IsClean no_progress 0 steps scripts (tt, tt)
