-- ===== src/Worker/Handle.antt =====
-- `HandleCIRun` of backend/internal/worker/ci_worker.go before and behind its jobs, with the row of
-- the run that it updates, and `Cancel` and `Rerun` of
-- backend/internal/infrastructure/repository/workflow_run_repository.go
-- with their use cases in backend/internal/usecase/workflow/get_run_usecase.go.
use open_git.Base.{
  ℕ, zero, suc, Bool, true, false, not, ◌&&◌, ◌||◌, List, [], ◌∷◌, ◌++◌, Option, none, some, Bytes,
  codes, bytes_eq, leb, if◌then◌else◌,
}
pub mod Row
pub mod Limit

-- The columns of `workflow_runs` that are read again.
pub record RunRow : Type 0 where
  pub status : Bytes
  pub conclusion : Option Bytes

-- The two updates of the worker.
pub data Update : Type 0 where
  to_status : Bytes → Update
  marked : Bytes → Bytes → Update

-- `conclusion IS NULL OR conclusion <> 'cancelled'`
abbrev pub is_open : Option Bytes → Bool
is_open none = true
is_open (some c) = not (bytes_eq c (codes "cancelled"))

unfoldable pub apply : Update → RunRow → RunRow
apply (to_status s) row = if is_open row.conclusion then record row { status = s } else row
apply (marked s c) row =
    if is_open row.conclusion then record { status = s; conclusion = some c } else row

unfoldable pub apply_all : List Update → RunRow → RunRow
apply_all [] row = row
apply_all (u ∷ updates) row = apply_all updates (apply u row)

abbrev pub cancel : RunRow → RunRow
cancel row = record { status = codes "completed"; conclusion = some (codes "cancelled") }

abbrev pub rerun : RunRow → RunRow
rerun row = record { status = codes "queued"; conclusion = none }

-- `CancelRunUsecase`: the row that it leaves, or `none` for a run that is not there or is completed.
unfoldable pub cancel_run : Option RunRow → Option RunRow
cancel_run none = none
cancel_run (some row) = if bytes_eq row.status (codes "completed") then none else some (cancel row)

-- `RerunRunUsecase`
abbrev pub rerun_run : Option RunRow → Option RunRow
rerun_run none = none
rerun_run (some row) = some (rerun row)

-- The row of an organization, if the query gives one.
pub data TierRow : Type 0 where
  found : Bytes → TierRow
  no_rows : TierRow
  query_failed : TierRow

-- What `ParseWorkflowFull` gives: an error, or diagnostics, of which those that are errors are told
-- apart, and the number of jobs, 0 for no workflow.
pub data Parsed : Type 0 where
  parse_failed : Bytes → Parsed
  parsed : List (Bool × Bytes) → ℕ → Parsed

-- How the jobs end: a row was refused, or the run has a conclusion and a log.
pub data Ran : Type 0 where
  fatal : Ran
  concluded : Bool → Bytes → Ran

-- The payload, the dependencies that are wired, and what each call answers.
pub record Attempt : Type 0 where
  pub decodes : Bool
  pub run_id : Bytes
  pub repository_id : Bytes
  pub organization_id : Bytes
  pub has_db : Bool
  pub has_log_repo : Bool
  pub has_job_repo : Bool
  pub tier_row : TierRow
  pub running : Option ℕ
  pub status_set : Bool
  pub mark_set : Bool  -- whether the update of `markRun` goes through
  pub workflow : Parsed
  pub secrets_load : Bool
  pub workdir_made : Bool
  pub id_errors : List (Option Bytes)  -- of the three `uuid.Parse`
  pub ran : Ran

-- What the queue is told: nothing more to do, an error that is retried, or one that is not.
pub data Answer : Type 0 where
  handled : Answer
  retried : Answer
  dropped : Answer

abbrev pub Handled : Type 0
Handled = List Update × Answer

unfoldable pub first_diagnostic : List (Bool × Bytes) → Option Bytes
first_diagnostic [] = none
first_diagnostic ((true, message) ∷ ds) = some message
first_diagnostic ((false, message) ∷ ds) = first_diagnostic ds

unfoldable pub first_id_error : List (Option Bytes) → Option Bytes
first_id_error [] = none
first_id_error (some err ∷ errs) = some err
first_id_error (none ∷ errs) = first_id_error errs

abbrev pub is_blank : Bytes → Bool
is_blank [] = true
is_blank (c ∷ s) = false

abbrev pub with_logs : Bool → Bytes → Bytes → Bytes
with_logs has_log_repo conclusion [] = conclusion
with_logs has_log_repo conclusion (c ∷ logs) =
    if has_log_repo then conclusion else conclusion ++ (10 ∷ c ∷ logs)

unfoldable pub mark_run : Attempt → Bytes → Bytes → Bytes → List Update
mark_run a status conclusion logs =
    if not a.has_db || is_blank a.run_id || not a.mark_set
    then []
    else marked status (with_logs a.has_log_repo conclusion logs) ∷ []

unfoldable pub set_status : Attempt → Bytes → List Update
set_status a status = if not a.has_db || is_blank a.run_id then [] else to_status status ∷ []

abbrev pub fail_run : Attempt → Bytes → Bytes → Answer → Handled
fail_run a conclusion logs answer = (mark_run a (codes "failed") conclusion logs, answer)

unfoldable pub finish_run : Attempt → Ran → Handled
finish_run a fatal = ([], retried)
finish_run a (concluded failed logs) =
    if failed
    then (mark_run a (codes "failed") (codes "failure") logs, handled)
    else (mark_run a (codes "completed") (codes "success") logs, handled)

abbrev pub check_ids : Attempt → Option Bytes → Handled
check_ids a none = finish_run a a.ran
check_ids a (some err) = fail_run a (codes "failure") err dropped

unfoldable pub prepare : Attempt → Handled
prepare a =
    if not a.secrets_load
    then ([], retried)
    else if not a.workdir_made
    then ([], retried)
    else check_ids a (if a.has_job_repo then first_id_error a.id_errors else none)

abbrev pub check_jobs : Attempt → ℕ → Option Bytes → Handled
check_jobs a jobs (some message) = fail_run a (codes "failure") message dropped
check_jobs a zero none = fail_run a (codes "failure") (codes "workflow has no jobs") dropped
check_jobs a (suc jobs) none = prepare a

abbrev pub check_workflow : Attempt → Parsed → Handled
check_workflow a (parse_failed err) = fail_run a (codes "failure") err dropped
check_workflow a (parsed diags jobs) = check_jobs a jobs (first_diagnostic diags)

-- The updates of a run that is let in start with the one to `in_progress`.
unfoldable pub let_in : Attempt → Handled
let_in a =
    if a.has_db && not (is_blank a.run_id) && not a.status_set
    then ([], retried)
    else (let (updates, answer) = check_workflow a a.workflow in
        (set_status a (codes "in_progress") ++ updates, answer))

-- `strings.ToLower`
module _ (to_lower : Bytes → Bytes) where
  unfoldable pub concurrent_limit_exceeded : Bytes → ℕ → Bool
  concurrent_limit_exceeded tier running =
      if bytes_eq (to_lower tier) (codes "free") then leb 1 running else leb 20 running

  abbrev pub tier_of : TierRow → Option Bytes
  tier_of (found tier) = some (to_lower tier)
  tier_of no_rows = some (codes "free")
  tier_of query_failed = none

  unfoldable pub load_plan_tier : Attempt → Option Bytes
  load_plan_tier a = if a.has_db then tier_of a.tier_row else some (codes "pro")

  abbrev pub count_running : Attempt → Option ℕ
  count_running a = if a.has_db then a.running else some 0

  abbrev pub check_limit : Attempt → Option Bytes → Option ℕ → Handled
  check_limit a none count = ([], retried)
  check_limit a (some tier) none = ([], retried)
  check_limit a (some tier) (some count) =
      if concurrent_limit_exceeded tier count
      then fail_run a (codes "rate_limited") [] retried
      else let_in a

  -- `HandleCIRun`
  unfoldable pub handle_ci_run : Attempt → Handled
  handle_ci_run a =
      if not a.decodes
      then ([], dropped)
      else if is_blank a.run_id || is_blank a.repository_id || is_blank a.organization_id
      then fail_run a (codes "invalid_payload") [] dropped
      else check_limit a (load_plan_tier a) (count_running a)
