-- ===== src/Actions/Schedule.antt =====
-- backend/internal/infrastructure/queue/workflow_schedule_handler.go: which queued jobs of a run
-- are handed to the workers, and how the run ends.
use open_git.Base.{
  ◌≡◌, Bool, true, false, ◌&&◌, ◌||◌, not, List, [], ◌∷◌, ◌++◌, Option, none, some, Bytes,
  is_member, if◌then◌else◌, String, str_eq, map,
}
pub mod Ready
pub mod Effects
pub mod Progress

pub record Job : Type 0 where
  pub id : String
  pub name : Bytes
  pub status : String
  pub conclusion : String
  pub needs : List Bytes

abbrev pub is_need_satisfied : Job → Bool
is_need_satisfied job = str_eq job.status "completed" && str_eq job.conclusion "success"

-- The keys of the map.
unfoldable pub build_completed_job_set : List Job → List Bytes
build_completed_job_set [] = []
build_completed_job_set (job ∷ jobs) =
    let rest = build_completed_job_set jobs in
    if is_need_satisfied job then job.name ∷ rest else rest

unfoldable pub all_needs_in : List Bytes → List Bytes → Bool
all_needs_in [] completed = true
all_needs_in (need ∷ needs) completed =
    if is_member need completed then all_needs_in needs completed else false

abbrev pub all_needs_completed : Job → List Bytes → Bool
all_needs_completed job completed = all_needs_in job.needs completed

unfoldable pub find_ready_jobs : List Job → List Bytes → List Job
find_ready_jobs [] completed = []
find_ready_jobs (job ∷ jobs) completed =
    let rest = find_ready_jobs jobs completed in
    if not (str_eq job.status "queued")
    then rest
    else if all_needs_completed job completed
    then job ∷ rest
    else rest

abbrev pub is_job_terminal : Job → Bool
is_job_terminal job =
    str_eq job.status "completed" || str_eq job.status "failed" || str_eq job.status "cancelled"

unfoldable pub all_jobs_terminal : List Job → Bool
all_jobs_terminal [] = true
all_jobs_terminal (job ∷ jobs) = if not (is_job_terminal job) then false else all_jobs_terminal jobs

abbrev pub is_failure : Job → Bool
is_failure job =
    str_eq job.conclusion "failure"
    || str_eq job.status "failed"
    || str_eq job.conclusion "timed_out"

abbrev pub is_cancelled : Job → Bool
is_cancelled job = str_eq job.conclusion "cancelled" || str_eq job.status "cancelled"

-- The loop of `computeRunConclusion`, over its two flags.
unfoldable pub conclusion_flags : List Job → Bool → Bool → Bool × Bool
conclusion_flags [] has_failure has_cancelled = (has_failure, has_cancelled)
conclusion_flags (job ∷ jobs) has_failure has_cancelled =
    conclusion_flags jobs (if is_failure job then true else has_failure)
      (if is_cancelled job then true else has_cancelled)

abbrev pub conclusion_of : Bool → Bool → String × String
conclusion_of has_failure has_cancelled =
    if has_failure
    then ("completed", "failure")
    else if has_cancelled
    then ("completed", "cancelled")
    else ("completed", "success")

unfoldable pub compute_run_conclusion : List Job → String × String
compute_run_conclusion jobs =
    let (has_failure, has_cancelled) = conclusion_flags jobs false false in
    conclusion_of has_failure has_cancelled

-- The calls that change something outside of the handler, on the ids of the payload.
pub data Effect : Type 0 where
  enqueue_job_exec : String → Effect
  update_status : String → Effect
  update_conclusion : String → String → Effect

pub data ScheduleError : Type 0 where
  bad_payload : ScheduleError
  missing_identifiers : ScheduleError
  list_failed : ScheduleError
  enqueue_failed : Bytes → ScheduleError
  update_failed : ScheduleError

-- The calls made, in order, and the error that the handler returns.
pub record Outcome : Type 0 where
  pub effects : List Effect
  pub error : Option ScheduleError

pub record SchedulePayload : Type 0 where
  pub run_id : String
  pub org_id : String

-- The repositories and the queue: what they answer, and which calls they refuse.
pub record Services : Type 0 where
  pub list_by_run_id : SchedulePayload → Option (List Job)
  pub accepts : Effect → Bool

abbrev call : Services → List Effect → Effect → Outcome
call services before effect = record {
  effects = before ++ effect ∷ [];
  error = if services.accepts effect then none else some update_failed;
}

-- The loop over the ready jobs, with the calls made so far.
unfoldable pub enqueue_jobs : Services → List Job → List Effect → Outcome
enqueue_jobs services [] before = record { effects = before; error = none }
enqueue_jobs services (job ∷ jobs) before =
    let now = before ++ enqueue_job_exec job.id ∷ [] in
    if services.accepts (enqueue_job_exec job.id)
    then enqueue_jobs services jobs now
    else record { effects = now; error = some (enqueue_failed job.name) }

-- What follows the loop, when it met no error and there were ready jobs or not.
unfoldable pub conclude : Services → List Job → List Job → List Effect → Outcome
conclude services jobs (_ ∷ _) before = call services before (update_status "in_progress")
conclude services jobs [] before =
    if all_jobs_terminal jobs
    then (let (status, conclusion) = compute_run_conclusion jobs in
        call services before (update_conclusion status conclusion))
    else call services before (update_conclusion "completed" "failure")

unfoldable pub and_then : Outcome → (List Effect → Outcome) → Outcome
and_then o next = elim o.error [ none ↦ next o.effects | some e ↦ o ]

unfoldable pub schedule_jobs : Services → List Job → Outcome
schedule_jobs services jobs =
    let ready = find_ready_jobs jobs (build_completed_job_set jobs) in
    and_then (enqueue_jobs services ready []) (conclude services jobs ready)

abbrev fail : ScheduleError → Outcome
fail e = record { effects = []; error = some e }

-- `HandleWorkflowSchedule`, on the payload that the task decodes to.
unfoldable pub handle_workflow_schedule : Services → Option SchedulePayload → Outcome
handle_workflow_schedule services none = fail bad_payload
handle_workflow_schedule services (some payload) =
    if str_eq payload.run_id "" || str_eq payload.org_id ""
    then fail missing_identifiers
    else elim (services.list_by_run_id payload) [
      | none ↦ fail list_failed
      | some jobs ↦ schedule_jobs services jobs
    ]
