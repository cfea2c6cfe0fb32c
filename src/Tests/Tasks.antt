-- ===== src/Tests/Tasks.antt =====
-- Tasks of the worker, and the rows of their runs, at concrete inputs.
use open_git.Base.{
  ◌≡◌, refl, true, false, [], ◌∷◌, ap, sym, ◌∙◌, drop, take, none, some, codes, bytes_eq,
}
use open_git.Worker.Handle.{
  RunRow, to_status, marked, apply_all, cancel, cancel_run, found, parsed, concluded, Attempt,
  handled, retried, handle_ci_run, let_in, load_plan_tier, concurrent_limit_exceeded, set_status,
  mark_run, prepare, finish_run, first_diagnostic, first_id_error,
}
use open_git.Worker.Handle.Row.{IsDone, handle_ci_run-cancelled, handle_ci_run-IsDone}
use open_git.Worker.Handle.Limit.{LetsIn, handle_ci_run-LetsIn}

-- A run whose jobs succeed.
abbrev attempt : Attempt
attempt = record {
  decodes = true;
  run_id = codes "1";
  repository_id = codes "2";
  organization_id = codes "3";
  has_db = true;
  has_log_repo = true;
  has_job_repo = true;
  tier_row = found (codes "free");
  running = some 0;
  status_set = true;
  mark_set = true;
  workflow = parsed [] 1;
  secrets_load = true;
  workdir_made = true;
  id_errors = none ∷ none ∷ none ∷ [];
  ran = concluded false [];
}

abbrev queued : RunRow
queued = record { status = codes "queued"; conclusion = none }

handles :
    handle_ci_run (λ s. s) attempt
    ≡ (to_status (codes "in_progress") ∷ marked (codes "completed") (codes "success") ∷ [], handled)
unfolding handle_ci_run let_in load_plan_tier concurrent_limit_exceeded bytes_eq set_status mark_run
    prepare finish_run first_diagnostic first_id_error
handles = refl

handle_ci_run-cancelled_example :
    apply_all
      (drop 1 (handle_ci_run (λ s. s) attempt).0)
      (cancel (apply_all (take 1 (handle_ci_run (λ s. s) attempt).0) queued))
    ≡ record { status = codes "completed"; conclusion = some (codes "cancelled") }
handle_ci_run-cancelled_example = handle_ci_run-cancelled (λ s. s) attempt 1 queued

handle_ci_run-IsDone_example : IsDone (apply_all (handle_ci_run (λ s. s) attempt).0 queued)
handle_ci_run-IsDone_example =
    handle_ci_run-IsDone (λ s. s) attempt queued refl refl refl refl
      (λ h. let no' : handled ≡ retried = sym (ap (λ x. x.1) handles) ∙ h in cc) refl

handle_ci_run-LetsIn_example : LetsIn (λ s. s) attempt
handle_ci_run-LetsIn_example =
    handle_ci_run-LetsIn (λ s. s) attempt (codes "in_progress")
      (marked (codes "completed") (codes "success") ∷ []) (ap (λ h. h.0) handles)

-- A run that is cancelled while it is queued, and one that has failed, which can be cancelled still.
cancelling :
    (cancel_run (some queued) ≡ some (cancel queued))
    × (cancel_run (some (record { status = codes "failed"; conclusion = some (codes "failure") }))
        ≡ some (cancel queued))
unfolding cancel_run bytes_eq
cancelling = (refl, refl)
