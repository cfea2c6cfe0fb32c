-- ===== src/Worker/Steps/Numbers.antt =====
-- The numbers of the lines of the log, in `runJobSteps`.
use open_git.Base.{
  ℕ, zero, suc, ◌≡◌, refl, sym, subst, ◌∙◌, ap, List, [], ◌∷◌, ◌++◌, map, Option, none, some, Bytes,
  codes, if-both, All,
}
use open_git.Workflow.Eval.{EvalContext}
use open_git.Workflow.Interpolate.{interpolate_string}
use open_git.Worker.Steps.{
  IrStep, Machine, SinkCall, RunJobSpec, LogLine, next_number, append_counted, output, Progress,
  no_progress, append_line, write, masked, emit_uses_line, emit_output, checked_out, action_ended,
  run_container, run_uses_step, after_command, sink_lines, run_script, run_kind, run_job_steps,
  is_checkout_action, action_input_env, script_of,
}
use open_git.Worker.Steps.Log.{Leaves, bind-Leaves, steps-Leaves}

-- The numbers from 1 on.
unfoldable pub up_to : ℕ → List ℕ
up_to zero = []
up_to (suc n) = up_to n ++ suc n ∷ []

abbrev pub IsNumbered : Progress → Type 0
IsNumbered p = map (λ l. l.line_number) p.lines ≡ up_to p.line_count

map-snoc :
    (ls : List LogLine) (l : LogLine)
    → map (λ k. k.line_number) (ls ++ l ∷ []) ≡ map (λ k. k.line_number) ls ++ l.line_number ∷ []
map-snoc [] l = refl
map-snoc (k ∷ ls) l = ap (λ r. k.line_number ∷ r) (map-snoc ls l)

append-IsNumbered :
    (p : Progress) (i : ℕ) (stream text : Bytes)
    → IsNumbered p
    → IsNumbered (append_line p i stream text)
unfolding up_to
append-IsNumbered p i stream text h = map-snoc p.lines _ ∙ ap (λ l. l ++ suc p.line_count ∷ []) h

All-Unit : {A : Type 0} (xs : List A) → All {0, 0} (λ _. Unit) xs
All-Unit [] = tt
All-Unit (x ∷ xs) = (tt, All-Unit xs)

-- No call of the sink overlaps another, as when a script prints to one of its two streams only.
abbrev pub TakesTurns : Machine → Type 0
TakesTurns machine =
    (i : ℕ) (env : List Bytes) (script : Bytes)
    → All (λ call. call.counted ≡ next_number) (machine.stream_runner i env script).0

module _ (machine : Machine) (spec : RunJobSpec) (apart : TakesTurns machine) where
  uses_line-IsNumbered :
      (p : Progress) (i : ℕ) (text : Bytes)
      → IsNumbered p
      → IsNumbered (emit_uses_line machine spec p i text)
  uses_line-IsNumbered p i text h =
      let q = write p (output i [] text) in
      if-both IsNumbered spec.use_streaming (append_line q i (codes "stdout") text) q
        (append-IsNumbered q i _ text h) h

  output-IsNumbered :
      (p : Progress) (i : ℕ) (lines : List Bytes)
      → IsNumbered p
      → IsNumbered (emit_output machine spec p i lines)
  unfolding emit_output
  output-IsNumbered p i [] h = h
  output-IsNumbered p i ([] ∷ lines) h = output-IsNumbered p i lines h
  output-IsNumbered p i ((c ∷ line) ∷ lines) h =
      output-IsNumbered (emit_uses_line machine spec p i (masked machine spec (c ∷ line))) i lines
        (uses_line-IsNumbered p i _ h)

  checked_out-IsNumbered :
      (p : Progress) (i : ℕ) (err : Option Bytes)
      → IsNumbered p
      → IsNumbered (checked_out machine spec p i err)
  checked_out-IsNumbered p i none h = h
  checked_out-IsNumbered p i (some err) h = uses_line-IsNumbered p i _ h

  action-IsNumbered :
      (p : Progress) (i : ℕ) (r : Bytes × Option Bytes)
      → IsNumbered p
      → IsNumbered (action_ended machine spec p i r)
  action-IsNumbered p i (out, none) h = output-IsNumbered p i _ h
  action-IsNumbered p i (out, some err) h = uses_line-IsNumbered _ i _ (output-IsNumbered p i _ h)

  container-IsNumbered :
      (p : Progress) (step : IrStep) (i : ℕ) (ctx : EvalContext) (env : List Bytes) (image : Bytes)
      → IsNumbered p
      → Leaves IsNumbered (run_container machine spec p step i ctx env image)
  unfolding run_container
  container-IsNumbered p step i ctx env [] h = uses_line-IsNumbered p i _ h
  container-IsNumbered p step i ctx env (c ∷ image) h =
      bind-Leaves IsNumbered (action_input_env machine spec ctx step.inputs) _
        λ inputs. action-IsNumbered _ i _ (uses_line-IsNumbered p i _ h)

  uses-IsNumbered :
      (p : Progress) (step : IrStep) (i : ℕ) (ctx : EvalContext) (env : List Bytes)
      → IsNumbered p
      → Leaves IsNumbered (run_uses_step machine spec p step i ctx env)
  unfolding run_uses_step
  uses-IsNumbered p step i ctx env h =
      if-both (Leaves IsNumbered) (is_checkout_action machine spec step.uses) _ _
        (checked_out-IsNumbered _ i _ (uses_line-IsNumbered p i _ h))
        (container-IsNumbered p step i ctx env step.image h)

  sink-IsNumbered :
      (p : Progress) (step : IrStep) (i : ℕ) (calls : List SinkCall)
      → All (λ call. call.counted ≡ next_number) calls
      → IsNumbered p
      → IsNumbered (sink_lines machine spec p step i calls)
  unfolding sink_lines
  sink-IsNumbered p step i [] apart h = h
  sink-IsNumbered p step i (call ∷ calls) apart h =
      let text = masked machine spec call.line in
      let q = write p (output i step.name text) in
      sink-IsNumbered (append_counted q i call.stream text (call.counted p.line_count)) step i calls
        apart.1
        (subst (λ c. IsNumbered (append_counted q i call.stream text (c p.line_count)))
          (sym apart.0) (append-IsNumbered q i call.stream text h))

  after-IsNumbered :
      (p : Progress) (i : ℕ) (err : Option Bytes)
      → IsNumbered p
      → IsNumbered (after_command machine spec p i err)
  after-IsNumbered p i none h = h
  after-IsNumbered p i (some err) h = h

  script-IsNumbered :
      (p : Progress) (step : IrStep) (i : ℕ) (env : List Bytes) (script : Bytes)
      → IsNumbered p
      → IsNumbered (run_script machine spec p step i env script)
  unfolding run_script
  script-IsNumbered p step i env script h =
      let (lines, lines_err) = machine.stream_runner i env script in
      let (out, err) = machine.run_step i env script in
      if-both IsNumbered spec.use_streaming
        (after_command machine spec (sink_lines machine spec p step i lines) i lines_err)
        (after_command machine spec (write p (output i step.name (masked machine spec out))) i err)
        (after-IsNumbered _ i lines_err (sink-IsNumbered p step i lines (apart i env script) h))
        (after-IsNumbered _ i err h)

  kind-IsNumbered :
      (p : Progress) (step : IrStep) (i : ℕ) (ctx : EvalContext) (env : List Bytes)
      (uses run : Bytes)
      → IsNumbered p
      → Leaves IsNumbered (run_kind machine spec p step i ctx env uses run)
  unfolding run_kind
  kind-IsNumbered p step i ctx env (c ∷ uses) run h = uses-IsNumbered p step i ctx env h
  kind-IsNumbered p step i ctx env [] [] h = h
  kind-IsNumbered p step i ctx env [] (c ∷ script) h =
      bind-Leaves IsNumbered
        (script_of machine spec (interpolate_string machine.go ctx (c ∷ script))) _
        λ text. script-IsNumbered p step i env text h

  -- Where no two calls of the sink overlap, so that each call reads the count that the one before it
  -- has left, the lines that the steps of an instance give to the log are numbered from 1, one by
  -- one, and the count that is stored beside them is that of the lines.
  pub run_job_steps-IsNumbered :
      (steps : List IrStep) → Leaves IsNumbered (run_job_steps machine spec steps)
  unfolding run_job_steps up_to
  run_job_steps-IsNumbered steps =
      steps-Leaves machine spec IsNumbered (λ _. Unit)
        (λ p step i ctx env ok h. kind-IsNumbered p step i ctx _ step.uses step.run h)
        (λ p step i c cond ctx fault ok e h. h) no_progress 0 steps (All-Unit steps) refl
