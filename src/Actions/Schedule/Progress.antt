-- ===== src/Actions/Schedule/Progress.antt =====
-- What `HandleWorkflowSchedule` does when the services accept every call.
use open_git.Base.{
  ◌≡◌, inl, inr, refl, true, false, List, [], ◌∷◌, ◌++◌, map, append-nil, append_assoc, str_eq,
  Bool-cases, sym, ap, ◌∙◌, none, some,
}
use open_git.Actions.Schedule.{
  Job, Effect, enqueue_job_exec, update_status, update_conclusion, Services, SchedulePayload,
  find_ready_jobs, build_completed_job_set, is_job_terminal, all_jobs_terminal, enqueue_jobs,
  conclude, and_then, schedule_jobs, handle_workflow_schedule,
}
use open_git.Actions.Schedule.Ready.{Any, IsReady, find_ready_jobs-Any}
use open_git.Actions.Schedule.Effects.{ready_jobs, Any-map}

enqueue_jobs-accepted :
    (services : Services) (jobs : List Job) (before : List Effect)
    → ((e : Effect) → services.accepts e ≡ true)
    → enqueue_jobs services jobs before
      ≡ record { effects = before ++ map (λ j. enqueue_job_exec j.id) jobs; error = none }
unfolding enqueue_jobs
enqueue_jobs-accepted services [] before h =
    ap (λ l. record { effects = l; error = none }) (sym (append-nil before))
enqueue_jobs-accepted services (j ∷ jobs) before h = rw (h (enqueue_job_exec j.id)) (
    enqueue_jobs-accepted services jobs (before ++ enqueue_job_exec j.id ∷ []) h
    ∙ ap (λ l. record { effects = l; error = none })
        (append_assoc before (enqueue_job_exec j.id ∷ []) (map (λ k. enqueue_job_exec k.id) jobs)))

not_terminal :
    (jobs : List Job) → Any (λ j. j.status ≡ "in_progress") jobs → all_jobs_terminal jobs ≡ false
unfolding all_jobs_terminal str_eq
not_terminal [] h = absurd h
not_terminal (j ∷ jobs) (inl h) = rw (h, all_jobs_terminal) refl
not_terminal (j ∷ jobs) (inr h) =
    let ih = not_terminal jobs h in
    elim (Bool-cases (is_job_terminal j)) [ inl e ↦ rw e ih | inr e ↦ rw e refl ]

abbrev pub IsNamed : SchedulePayload → Type 0
IsNamed payload = (str_eq payload.run_id "" ≡ false) × (str_eq payload.org_id "" ≡ false)

module _ (services : Services) (payload : SchedulePayload) (jobs : List Job) where
  handled :
      services.list_by_run_id payload ≡ some jobs
      → IsNamed payload
      → ((e : Effect) → services.accepts e ≡ true)
      → handle_workflow_schedule services (some payload)
        ≡ conclude services jobs
            (ready_jobs jobs)
            (map (λ j. enqueue_job_exec j.id) (ready_jobs jobs))
  unfolding handle_workflow_schedule schedule_jobs and_then
  handled listed named h =
      rw (named.0, named.1, listed, schedule_jobs)
        (ap (λ o. and_then o (conclude services jobs (ready_jobs jobs)))
          (enqueue_jobs-accepted services (ready_jobs jobs) [] h))

  -- With a ready job in a run, and services that accept every call, exactly the ready jobs are
  -- enqueued, in the order of the list, and then the run is set in progress.
  pub handle_workflow_schedule-starts :
      services.list_by_run_id payload ≡ some jobs
      → IsNamed payload
      → ((e : Effect) → services.accepts e ≡ true)
      → Any (IsReady jobs) jobs
      → handle_workflow_schedule services (some payload) ≡ record {
        effects =
            map (λ j. enqueue_job_exec j.id) (find_ready_jobs jobs (build_completed_job_set jobs))
            ++ update_status "in_progress" ∷ [];
        error = none;
      }
  unfolding conclude
  handle_workflow_schedule-starts listed named h ready =
      handled listed named h
      ∙ some-ready (ready_jobs jobs) _ (
          (find_ready_jobs-Any (λ _. Unit) jobs).1
            (Any-map (IsReady jobs) _ jobs (λ _ k. (tt, k)) ready))
    where
      some-ready :
          (ready : List Job) (before : List Effect)
          → Any (λ _. Unit) ready
          → conclude services jobs ready before
            ≡ record { effects = before ++ update_status "in_progress" ∷ []; error = none }
      some-ready [] before there = absurd there
      some-ready (j ∷ ready) before there = rw (h (update_status "in_progress")) refl

  -- With a job in progress, none ready, and services that accept every call, the one call made
  -- completes the run as a failure.
  pub handle_workflow_schedule-in_progress :
      services.list_by_run_id payload ≡ some jobs
      → IsNamed payload
      → ((e : Effect) → services.accepts e ≡ true)
      → (Any (IsReady jobs) jobs → ⊥)
      → Any (λ j. j.status ≡ "in_progress") jobs
      → handle_workflow_schedule services (some payload)
        ≡ record { effects = update_conclusion "completed" "failure" ∷ []; error = none }
  unfolding conclude
  handle_workflow_schedule-in_progress listed named h none_ready running =
      handled listed named h
      ∙ no-ready (ready_jobs jobs) (λ u. none_ready (
          Any-map (λ j. Unit × IsReady jobs j) _ jobs (λ _ k. k.1)
            ((find_ready_jobs-Any (λ _. Unit) jobs).0 u)))
    where
      no-ready :
          (ready : List Job)
          → (Any (λ _. Unit) ready → ⊥)
          → conclude services jobs ready (map (λ j. enqueue_job_exec j.id) ready)
            ≡ record { effects = update_conclusion "completed" "failure" ∷ []; error = none }
      no-ready (j ∷ ready) absent = absurd (absent (inl tt))
      no-ready [] absent =
          rw (not_terminal jobs running, h (update_conclusion "completed" "failure")) refl
