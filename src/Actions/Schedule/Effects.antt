-- ===== src/Actions/Schedule/Effects.antt =====
-- What `HandleWorkflowSchedule` does to the run and to the queue.
use open_git.Base.{
  ◌≡◌, ◌⊎◌, inl, inr, refl, Bool, true, false, ◌||◌, List, [], ◌∷◌, str_eq, str_differ, All,
  All-append, if◌then◌else◌, Bool-cases, ap, ◌↔◌, Option-cases, some,
}
use open_git.Actions.Schedule.{
  Job, Effect, enqueue_job_exec, update_status, update_conclusion, Services, Outcome,
  SchedulePayload, find_ready_jobs, build_completed_job_set, is_job_terminal, all_jobs_terminal,
  is_failure, is_cancelled, conclusion_flags, conclusion_of, compute_run_conclusion, enqueue_jobs,
  conclude, and_then, schedule_jobs, handle_workflow_schedule,
}
use open_git.Actions.Schedule.Ready.{Any, IsReady, find_ready_jobs-Any}

-- A job that has ended, neither in failure nor cancelled.
abbrev pub IsFine : Job → Type 0
IsFine j = (is_job_terminal j ≡ true) × (is_failure j ≡ false) × (is_cancelled j ≡ false)

-- What each call on the outside presupposes of the jobs of the run.
abbrev pub IsAllowed : List Job → Effect → Type 0
IsAllowed jobs (enqueue_job_exec id) = Any (λ j. (j.id ≡ id) × IsReady jobs j) jobs
IsAllowed jobs (update_status status) = (status ≡ "in_progress") × Any (IsReady jobs) jobs
IsAllowed jobs (update_conclusion status conclusion) =
    (status ≡ "completed")
    × (Any (IsReady jobs) jobs → ⊥)
    × ((conclusion ≡ "failure") ⊎ All (λ j. is_job_terminal j ≡ true) jobs)
    × (conclusion ≡ "success" → All IsFine jobs)

flag-split : (a f : Bool) → (if a then true else f) ≡ false → (f ≡ false) × (a ≡ false)
flag-split true f h = cc
flag-split false f h = (h, refl)

flags-fine :
    (jobs : List Job) (f c : Bool)
    → conclusion_flags jobs f c ≡ (false, false)
    → (f ≡ false) × (c ≡ false) × All (λ j. (is_failure j ≡ false) × (is_cancelled j ≡ false)) jobs
unfolding conclusion_flags
flags-fine [] f c h = (cc, cc, tt)
flags-fine (j ∷ jobs) f c h =
    let ih =
      flags-fine jobs (if is_failure j then true else f) (if is_cancelled j then true else c) h in
    let (failure, cancelled, rest) = ih in
    let first = flag-split (is_failure j) f failure in
    let second = flag-split (is_cancelled j) c cancelled in
    (first.0, second.0, ((first.1, second.1), rest))

terminal-All :
    (jobs : List Job) → all_jobs_terminal jobs ≡ true → All (λ j. is_job_terminal j ≡ true) jobs
unfolding all_jobs_terminal
terminal-All [] h = tt
terminal-All (j ∷ jobs) h = elim (Bool-cases (is_job_terminal j)) [
  | inl e ↦ (e, terminal-All jobs (rw e at h))
  | inr e ↦ absurd (let no = rw e at h in cc)
]

enqueue_jobs-IsAllowed :
    (services : Services) (jobs ready : List Job) (before : List Effect)
    → All (λ j. IsAllowed jobs (enqueue_job_exec j.id)) ready
    → All (IsAllowed jobs) before
    → All (IsAllowed jobs) (enqueue_jobs services ready before).effects
unfolding enqueue_jobs
enqueue_jobs-IsAllowed services jobs [] before h k = k
enqueue_jobs-IsAllowed services jobs (j ∷ ready) before h k =
    let now = All-append (IsAllowed jobs) before (enqueue_job_exec j.id ∷ []) k (h.0, tt) in
    elim (Bool-cases (services.accepts (enqueue_job_exec j.id))) [
      | inl e ↦ rw e (enqueue_jobs-IsAllowed services jobs ready _ h.1 now)
      | inr e ↦ rw e now
    ]

All-members :
    (Q : Job → Type 0) (xs : List Job) → ((x : Job) → Any (λ y. y ≡ x) xs → Q x) → All Q xs
All-members Q [] h = tt
All-members Q (x ∷ xs) h = (h x (inl refl), All-members Q xs λ y there. h y (inr there))

pub Any-map : (P Q : Job → Type 0) (xs : List Job) → ((x : Job) → P x → Q x) → Any P xs → Any Q xs
Any-map P Q [] f h = h
Any-map P Q (x ∷ xs) f (inl h) = inl (f x h)
Any-map P Q (x ∷ xs) f (inr h) = inr (Any-map P Q xs f h)

abbrev pub ready_jobs : List Job → List Job
ready_jobs jobs = find_ready_jobs jobs (build_completed_job_set jobs)

ready-All : (jobs : List Job) → All (λ j. IsAllowed jobs (enqueue_job_exec j.id)) (ready_jobs jobs)
ready-All jobs = All-members _ (ready_jobs jobs) λ x there.
    Any-map (λ j. (j ≡ x) × IsReady jobs j) (λ j. (j.id ≡ x.id) × IsReady jobs j) jobs
      (λ j h. (ap (λ k. k.id) h.0, h.1)) ((find_ready_jobs-Any (λ y. y ≡ x) jobs).0 there)

IsFine-All :
    (jobs : List Job)
    → All (λ j. is_job_terminal j ≡ true) jobs
    → All (λ j. (is_failure j ≡ false) × (is_cancelled j ≡ false)) jobs
    → All IsFine jobs
IsFine-All [] h k = tt
IsFine-All (j ∷ jobs) h k = let (x, y) = k.0 in ((h.0, x, y), IsFine-All jobs h.1 k.1)

conclusion-fine :
    (jobs : List Job)
    → ((compute_run_conclusion jobs).0 ≡ "completed")
      × ((compute_run_conclusion jobs).1 ≡ "success"
          → All (λ j. (is_failure j ≡ false) × (is_cancelled j ≡ false)) jobs)
unfolding compute_run_conclusion str_eq
conclusion-fine jobs = go (conclusion_flags jobs false false) refl
  where
    go :
        (flags : Bool × Bool)
        → conclusion_flags jobs false false ≡ flags
        → let out = conclusion_of flags.0 flags.1 in
          (out.0 ≡ "completed")
          × (out.1 ≡ "success" → All (λ j. (is_failure j ≡ false) × (is_cancelled j ≡ false)) jobs)
    go (true, c) e = (refl, λ h. absurd (str_differ "failure" "success" refl h))
    go (false, true) e = (refl, λ h. absurd (str_differ "cancelled" "success" refl h))
    go (false, false) e = (refl, λ h. (flags-fine jobs false false e).2)

module _ (services : Services) (jobs : List Job) where
  conclude-IsAllowed :
      (ready : List Job) (before : List Effect)
      → Any (IsReady jobs) jobs ↔ Any (λ _. Unit) ready
      → All (IsAllowed jobs) before
      → All (IsAllowed jobs) (conclude services jobs ready before).effects
  unfolding conclude
  conclude-IsAllowed (j ∷ ready) before found h =
      All-append (IsAllowed jobs) before (update_status "in_progress" ∷ []) h
        ((refl, found.1 (inl tt)), tt)
  conclude-IsAllowed [] before found h = elim (Bool-cases (all_jobs_terminal jobs)) [
    | inl e ↦
        let terminal = terminal-All jobs e in
        let (completed, fine) = conclusion-fine jobs in
        rw e (
          All-append (IsAllowed jobs) before
            (update_conclusion (compute_run_conclusion jobs).0 (compute_run_conclusion jobs).1 ∷ [])
            h ((completed, found.0, inr terminal, λ k. IsFine-All jobs terminal (fine k)), tt))
    | inr e ↦ rw e (
        All-append (IsAllowed jobs) before (update_conclusion "completed" "failure" ∷ []) h (
          (
            refl,
            found.0,
            inl refl,
            λ k. absurd (str_differ "failure" "success" (unfold str_eq in refl) k),
          ),
          tt,
        ))
  ]

  and_then-IsAllowed :
      (o : Outcome) (next : List Effect → Outcome)
      → All (IsAllowed jobs) o.effects
      → All (IsAllowed jobs) (next o.effects).effects
      → All (IsAllowed jobs) (and_then o next).effects
  unfolding and_then
  and_then-IsAllowed o next h k = elim (Option-cases o.error) [
    | inl e ↦ rw (e, and_then) k
    | inr (err, e) ↦ rw (e, and_then) h
  ]

  schedule_jobs-IsAllowed : All (IsAllowed jobs) (schedule_jobs services jobs).effects
  unfolding schedule_jobs
  schedule_jobs-IsAllowed =
      let started = enqueue_jobs-IsAllowed services jobs (ready_jobs jobs) [] (ready-All jobs) tt in
      let found = find_ready_jobs-Any (λ _. Unit) jobs in
      and_then-IsAllowed _ _ started (
        conclude-IsAllowed (ready_jobs jobs) _
          (
            (λ r. found.1 (Any-map _ _ jobs (λ _ k. (tt, k)) r)),
            (λ u.
                Any-map (λ j. Unit × IsReady jobs j) (IsReady jobs) jobs (λ _ k. k.1) (found.0 u)),
          )
          started)

-- Whatever the services answer, each call that `HandleWorkflowSchedule` makes on the outside is
-- in order: it enqueues only jobs that are queued and whose needs have all completed with success;
-- it sets the run in progress only if there is such a job; and it completes the run only if there is
-- none, as a failure or when all jobs have ended, and as a success only if none failed or was
-- cancelled.
pub handle_workflow_schedule-IsAllowed :
    (services : Services) (payload : SchedulePayload) (jobs : List Job)
    → services.list_by_run_id payload ≡ some jobs
    → All (IsAllowed jobs) (handle_workflow_schedule services (some payload)).effects
unfolding handle_workflow_schedule
handle_workflow_schedule-IsAllowed services payload jobs listed =
    elim (Bool-cases (str_eq payload.run_id "" || str_eq payload.org_id "")) [
      | inl e ↦ rw e tt
      | inr e ↦ rw (e, listed) (schedule_jobs-IsAllowed services jobs)
    ]
