-- ===== src/Worker/Handle/Row.antt =====
-- The row of a run, under the updates of `HandleCIRun`.
use open_git.Base.{
  ℕ, zero, suc, ◌≡◌, ◌≢◌, ◌⊎◌, refl, sym, ap, ◌∙◌, subst, true, false, not, ◌&&◌, ◌||◌, List, [],
  ◌∷◌, ◌++◌, Option, none, some, Bytes, codes, bytes_eq, if◌then◌else◌, if-both, drop, take, inl,
  inr,
}
use open_git.Worker.Handle.{
  RunRow, Update, to_status, marked, is_open, apply, apply_all, cancel, Parsed, parse_failed,
  parsed, Ran, fatal, concluded, Attempt, Answer, handled, retried, dropped, Handled,
  first_diagnostic, concurrent_limit_exceeded, load_plan_tier, count_running, is_blank, with_logs,
  mark_run, set_status, fail_run, finish_run, check_ids, prepare, check_jobs, check_workflow,
  let_in, check_limit, handle_ci_run,
}

apply-cancelled : (u : Update) (row : RunRow) → apply u (cancel row) ≡ cancel row
unfolding apply bytes_eq
apply-cancelled (to_status s) row = refl
apply-cancelled (marked s c) row = refl

apply_all-cancelled :
    (updates : List Update) (row : RunRow) → apply_all updates (cancel row) ≡ cancel row
unfolding apply_all
apply_all-cancelled [] row = refl
apply_all-cancelled (u ∷ updates) row =
    ap (apply_all updates) (apply-cancelled u row) ∙ apply_all-cancelled updates row

-- Wherever a cancellation falls between the updates of a run of the worker, the row is cancelled in
-- the end: the worker neither starts nor concludes it again.
pub handle_ci_run-cancelled :
    (to_lower : Bytes → Bytes) (a : Attempt) (n : ℕ) (row : RunRow)
    → apply_all
        (drop n (handle_ci_run to_lower a).0)
        (cancel (apply_all (take n (handle_ci_run to_lower a).0) row))
      ≡ record { status = codes "completed"; conclusion = some (codes "cancelled") }
handle_ci_run-cancelled to_lower a n row =
    let updates = (handle_ci_run to_lower a).0 in
    apply_all-cancelled (drop n updates) (apply_all (take n updates) row)

-- A row that the worker has done with.
abbrev pub IsDone : RunRow → Type 0
IsDone row = (row.status ≡ codes "completed") ⊎ (row.status ≡ codes "failed")

-- An open row stays open under an update to a status.
abbrev IsOpen : RunRow → Type 0
IsOpen row = is_open row.conclusion ≡ true

-- The last update is one that is done, if the answer is not to retry.
abbrev Settles : Handled → Type 0
Settles h = h.1 ≢ retried → (row : RunRow) → IsOpen row → IsDone (apply_all h.0 row)

marked-IsDone :
    (status conclusion : Bytes) (row : RunRow)
    → (status ≡ codes "completed") ⊎ (status ≡ codes "failed")
    → IsOpen row
    → IsDone (apply (marked status conclusion) row)
unfolding apply
marked-IsDone status conclusion row done h = rw h done

to_status-IsOpen :
    (status : Bytes) (row : RunRow) → IsOpen row → IsOpen (apply (to_status status) row)
unfolding apply
to_status-IsOpen status row h = rw (h, h) refl

module _ (a : Attempt) (wired : a.has_db ≡ true) (named : is_blank a.run_id ≡ false)
    (stored : a.mark_set ≡ true) where
  mark-Settles :
      (status conclusion logs : Bytes) (answer : Answer)
      → (status ≡ codes "completed") ⊎ (status ≡ codes "failed")
      → Settles (mark_run a status conclusion logs, answer)
  unfolding mark_run apply_all
  mark-Settles status conclusion logs answer done d row h =
      rw (wired, named, stored)
        (marked-IsDone status (with_logs a.has_log_repo conclusion logs) row done h)

  retried-Settles : (updates : List Update) → Settles (updates, retried)
  retried-Settles updates d = absurd (d refl)

  failed-Settles :
      (conclusion logs : Bytes) (answer : Answer) → Settles (fail_run a conclusion logs answer)
  failed-Settles conclusion logs answer =
      mark-Settles (codes "failed") conclusion logs answer (inr refl)

  finish-Settles : (ran : Ran) → Settles (finish_run a ran)
  unfolding finish_run
  finish-Settles fatal = retried-Settles []
  finish-Settles (concluded failed logs) =
      if-both Settles failed _ _ (failed-Settles (codes "failure") logs handled)
        (mark-Settles (codes "completed") (codes "success") logs handled (inl refl))

  ids-Settles : (err : Option Bytes) → Settles (check_ids a err)
  ids-Settles none = finish-Settles a.ran
  ids-Settles (some err) = failed-Settles (codes "failure") err dropped

  prepare-Settles : Settles (prepare a)
  unfolding prepare
  prepare-Settles =
      if-both Settles (not a.secrets_load) _ _ (retried-Settles [])
        (if-both Settles (not a.workdir_made) _ _ (retried-Settles []) (ids-Settles _))

  jobs-Settles : (jobs : ℕ) (message : Option Bytes) → Settles (check_jobs a jobs message)
  jobs-Settles jobs (some message) = failed-Settles (codes "failure") message dropped
  jobs-Settles zero none = failed-Settles (codes "failure") (codes "workflow has no jobs") dropped
  jobs-Settles (suc jobs) none = prepare-Settles

  workflow-Settles : (w : Parsed) → Settles (check_workflow a w)
  workflow-Settles (parse_failed err) = failed-Settles (codes "failure") err dropped
  workflow-Settles (parsed diags jobs) = jobs-Settles jobs (first_diagnostic diags)

  set_status-one : (status : Bytes) → set_status a status ≡ to_status status ∷ []
  unfolding set_status
  set_status-one status = rw (wired, named) refl

  after-Settles :
      (h : Handled) → Settles h → Settles (set_status a (codes "in_progress") ++ h.0, h.1)
  unfolding apply_all
  after-Settles h settles =
      subst (λ us. Settles (us ++ h.0, h.1)) (sym (set_status-one (codes "in_progress")))
        λ d row o.
          settles d (apply (to_status (codes "in_progress")) row)
            (to_status-IsOpen (codes "in_progress") row o)

  in-Settles : Settles (let_in a)
  unfolding let_in
  in-Settles =
      if-both Settles (a.has_db && not (is_blank a.run_id) && not a.status_set) _ _
        (retried-Settles [])
        (after-Settles (check_workflow a a.workflow) (workflow-Settles a.workflow))

  limit-Settles :
      (to_lower : Bytes → Bytes) (tier : Option Bytes) (count : Option ℕ)
      → Settles (check_limit to_lower a tier count)
  limit-Settles to_lower none count = retried-Settles []
  limit-Settles to_lower (some tier) none = retried-Settles []
  limit-Settles to_lower (some tier) (some count) =
      if-both Settles (concurrent_limit_exceeded to_lower tier count) _ _
        (failed-Settles (codes "rate_limited") [] retried) in-Settles

-- With a database, a decoded task that names its run, that the queue is not to try again, and whose
-- last update of the row goes through, leaves the row of the run, if that was not cancelled, completed
-- or failed, and never queued or in progress.
pub handle_ci_run-IsDone :
    (to_lower : Bytes → Bytes) (a : Attempt) (row : RunRow)
    → a.has_db ≡ true
    → a.decodes ≡ true
    → is_blank a.run_id ≡ false
    → a.mark_set ≡ true
    → (handle_ci_run to_lower a).1 ≢ retried
    → is_open row.conclusion ≡ true
    → IsDone (apply_all (handle_ci_run to_lower a).0 row)
unfolding handle_ci_run
handle_ci_run-IsDone to_lower a row wired decodes named stored settled open' =
    settles settled row open'
  where
    identified : Handled
    identified =
        if is_blank a.run_id || is_blank a.repository_id || is_blank a.organization_id
        then fail_run a (codes "invalid_payload") [] dropped
        else check_limit to_lower a (load_plan_tier to_lower a) (count_running to_lower a)

    settles : Settles (if not a.decodes then ([], dropped) else identified)
    settles =
        subst (λ b. Settles (if not b then ([], dropped) else identified)) (sym decodes)
          (if-both Settles
            (is_blank a.run_id || is_blank a.repository_id || is_blank a.organization_id) _ _
            (failed-Settles a wired named stored (codes "invalid_payload") [] dropped)
            (limit-Settles a wired named stored to_lower _ _))
