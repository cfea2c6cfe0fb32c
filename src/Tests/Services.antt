-- ===== src/Tests/Services.antt =====
-- The scheduler, the checks of access, merges and reviews at concrete inputs.
use open_git.Base.{
  ◌==◌, ◌≡◌, ◌↔◌, ◌⊎◌, refl, true, List, [], ◌∷◌, none, some, codes, bytes_eq, is_member, All, inl,
  inr, if◌then◌else◌, str_eq, str_differ, contains, index_of, has_prefix,
}
use open_git.Actions.Schedule
use open_git.Actions.Schedule.{
  Effect, enqueue_job_exec, update_status, update_conclusion, SchedulePayload, find_ready_jobs,
  build_completed_job_set, handle_workflow_schedule,
}
use open_git.Actions.Schedule.Ready.{Any, HasSucceeded, IsReady, find_ready_jobs-Any}
use open_git.Actions.Schedule.Effects.{IsAllowed, handle_workflow_schedule-IsAllowed}
use open_git.Actions.Schedule.Progress.{
  handle_workflow_schedule-starts, handle_workflow_schedule-in_progress,
}
use open_git.Access.{RepoAccess, Repository, can_read, can_write, can_admin, ref_from_entity}
use open_git.Access.Levels.{can_write-nested}
use open_git.Merge
use open_git.Merge.{
  MergePrInput, PullRequest, WorkflowRun, Answer, ok, err, execute, role, protected, merged_as,
  git_merge, set_merged, audit, as_merged, check_actor_write_access, check_branch_protection,
  check_protection, check_runs, merge_loaded, unless, merge_pr, record_merge, passed, all_in,
  is_empty,
}
use open_git.Merge.GitPath.{
  validate_git_path, split_slash, clean_parts, join_slash, clean, is_rooted,
}
use open_git.Merge.Outcomes.{IsGuarded, Recorded, execute-IsGuarded, execute-Recorded}
use open_git.Review
use open_git.Review.{
  ReviewInput, ReviewServices, member, store_review, create_review, check_actor_access,
  review_event_to_state, review_loaded, review_as, save_review, audit_review,
}
use open_git.Review.Stored.{IsDue, create_review-IsDue}

abbrev built : Schedule.Job
built = record {
  id = "1";
  name = codes "b";
  status = "completed";
  conclusion = "success";
  needs = [];
}

abbrev waiting : Schedule.Job
waiting = record {
  id = "2";
  name = codes "t";
  status = "queued";
  conclusion = "";
  needs = codes "b" ∷ [];
}

abbrev running : Schedule.Job
running = record { id = "1"; name = codes "b"; status = "in_progress"; conclusion = ""; needs = [] }

abbrev payload : SchedulePayload
payload = record { run_id = "r"; org_id = "o" }

abbrev willing : List Schedule.Job → Schedule.Services
willing jobs = record { list_by_run_id = λ _. some jobs; accepts = λ _. true }

waiting-IsReady : Any (IsReady (built ∷ waiting ∷ [])) (built ∷ waiting ∷ [])
waiting-IsReady = inr (inl (refl, (inl (refl, refl, refl), tt)))

find_ready_jobs-Any_example :
    Any
      (λ j. j.id ≡ "2")
      (find_ready_jobs (built ∷ waiting ∷ []) (build_completed_job_set (built ∷ waiting ∷ [])))
    ↔ Any (λ j. (j.id ≡ "2") × IsReady (built ∷ waiting ∷ []) j) (built ∷ waiting ∷ [])
find_ready_jobs-Any_example = find_ready_jobs-Any (λ j. j.id ≡ "2") (built ∷ waiting ∷ [])

handle_workflow_schedule-IsAllowed_example :
    All
      (IsAllowed (built ∷ waiting ∷ []))
      (handle_workflow_schedule (willing (built ∷ waiting ∷ [])) (some payload)).effects
handle_workflow_schedule-IsAllowed_example =
    handle_workflow_schedule-IsAllowed (willing (built ∷ waiting ∷ [])) payload
      (built ∷ waiting ∷ []) refl

handle_workflow_schedule-starts_example :
    handle_workflow_schedule (willing (built ∷ waiting ∷ [])) (some payload)
    ≡ record { effects = enqueue_job_exec "2" ∷ update_status "in_progress" ∷ []; error = none }
unfolding find_ready_jobs build_completed_job_set Schedule.all_needs_in is_member bytes_eq str_eq
handle_workflow_schedule-starts_example =
    handle_workflow_schedule-starts (willing (built ∷ waiting ∷ [])) payload (built ∷ waiting ∷ [])
      refl (refl, refl) (λ _. refl) waiting-IsReady

none_ready : Any (IsReady (running ∷ waiting ∷ [])) (running ∷ waiting ∷ []) → ⊥
unfolding str_eq
none_ready (inl ready) = str_differ "in_progress" "queued" refl ready.0
none_ready (inr (inl ready)) = no_success ready.1.0
  where
    no_success : HasSucceeded (running ∷ waiting ∷ []) (codes "b") → ⊥
    no_success (inl (n, s, c)) = str_differ "in_progress" "completed" refl s
    no_success (inr (inl (n, s, c))) = str_differ "queued" "completed" refl s
    no_success (inr (inr out)) = out
none_ready (inr (inr out)) = out

handle_workflow_schedule-in_progress_example :
    handle_workflow_schedule (willing (running ∷ waiting ∷ [])) (some payload)
    ≡ record { effects = update_conclusion "completed" "failure" ∷ []; error = none }
unfolding str_eq
handle_workflow_schedule-in_progress_example =
    handle_workflow_schedule-in_progress (willing (running ∷ waiting ∷ [])) payload
      (running ∷ waiting ∷ []) refl (refl, refl) (λ _. refl) none_ready (inl refl)

-- A private repository of user 7, in an organization of which user 8 is an admin and in which user 9
-- may write.
abbrev private_repo : Repository
private_repo = record { id = 1; organization_id = 1000; owner_id = 7; visibility = "private" }

abbrev access : RepoAccess
access = record {
  memberships = some (λ org user. if user == 8 then some "admin" else none);
  collaborators = some (λ repo user. if user == 9 then some "write" else none);
}

can_write-nested_example :
    (can_admin (some access) 9 (ref_from_entity private_repo) ≡ true
      → can_write (some access) 9 (ref_from_entity private_repo) ≡ true)
    × (can_write (some access) 9 (ref_from_entity private_repo) ≡ true
        → can_read (some access) 9 (ref_from_entity private_repo) ≡ true)
can_write-nested_example = can_write-nested (some access) 9 (ref_from_entity private_repo)

abbrev down : RepoAccess
down = record { memberships = some (λ _ _. none); collaborators = none }

abbrev pull_request : PullRequest
pull_request = record {
  id = 5;
  state = "open";
  base_ref = "main";
  head_ref = "topic";
  merged_by = none;
  merge_commit_sha = "";
}

abbrev merging : Merge.Services
merging = record {
  get_role = λ org user. role "admin";
  get_by_number = λ repo number. ok (some pull_request);
  get_by_branch = λ repo branch.
      protected
        (record { required_approving_reviews = 1; required_status_checks = codes "ci" ∷ [] });
  count_satisfied_reviews = λ _. ok 1;
  resolve_ref = λ _ _. ok "abc";
  list_by_head_sha = λ _ _. ok (record { workflow = codes "ci"; conclusion = "success" } ∷ []);
  merge = λ _ _ _ _. merged_as "def";
  begin_answer = none;
  set_merged_answer = none;
  audit_answer = none;
  commit_answer = none;
}

abbrev merge_input : MergePrInput
merge_input = record {
  organization_id = 2;
  repository_id = 3;
  git_path = codes "a";
  actor_id = 4;
  number = 1;
  merge_method = "";
}

execute-IsGuarded_example :
    ((execute merging merge_input).changes ≡ []) ⊎ IsGuarded merging merge_input
execute-IsGuarded_example = execute-IsGuarded merging merge_input

execute-Recorded_example : Recorded merging merge_input (execute merging merge_input)
execute-Recorded_example = execute-Recorded merging merge_input

merges : execute merging merge_input ≡ record {
  changes =
      git_merge (codes "a") "main" "topic" "def" ∷ set_merged 5 4 "def" ∷ audit "pr.merge" 5 ∷ [];
  answer = Merge.returns (as_merged pull_request 4 "def");
}
unfolding execute merge_loaded unless merge_pr record_merge validate_git_path
    check_actor_write_access check_branch_protection check_protection check_runs passed all_in
    is_empty split_slash clean_parts join_slash clean is_member bytes_eq str_eq contains index_of
    has_prefix is_rooted
merges = refl

-- The audit fails: `Execute` answers its error, and the pull request stays set merged.
stays_merged :
    execute (record merging { audit_answer = some (Merge.other_error "audit") }) merge_input
    ≡ record {
      changes = git_merge (codes "a") "main" "topic" "def" ∷ set_merged 5 4 "def" ∷ [];
      answer = Merge.fails (Merge.other_error "audit");
    }
unfolding execute merge_loaded unless merge_pr record_merge validate_git_path
    check_actor_write_access check_branch_protection check_protection check_runs passed all_in
    is_empty split_slash clean_parts join_slash clean is_member bytes_eq str_eq contains index_of
    has_prefix is_rooted
stays_merged = refl

-- A number that no pull request has.
missing_panics :
    execute (record merging { get_by_number = λ repo number. ok none }) merge_input
    ≡ record { changes = []; answer = Merge.panics }
unfolding execute merge_loaded unless merge_pr record_merge validate_git_path
    check_actor_write_access check_branch_protection check_protection check_runs passed all_in
    is_empty split_slash clean_parts join_slash clean is_member bytes_eq str_eq contains index_of
    has_prefix is_rooted
missing_panics = refl

abbrev reviewing : ReviewServices
reviewing = record {
  get_role = λ org user. member "member";
  get_by_number = λ repo number. Review.ok (
      some
        (record { id = 5; organization_id = 2; author_id = 4; state = "open"; head_sha = "abc" }));
  create_answer = none;
  audit_answer = none;
  to_upper = λ s. s;
}

abbrev approval : ReviewInput
approval = record {
  organization_id = 2;
  repository_id = 3;
  number = 1;
  actor_id = 6;
  event = "APPROVE";
  body = "";
}

approves :
    (create_review reviewing approval).changes
    ≡ store_review (record {
      pull_request_id = 5;
      reviewer_id = 6;
      state = "APPROVED";
      body = "";
      commit_sha = "abc";
    })
      ∷ Review.audit "pr.review.approve" 5
      ∷ []
unfolding create_review check_actor_access review_event_to_state review_loaded review_as save_review
    audit_review str_eq
approves = refl

create_review-IsDue_example :
    All (IsDue reviewing approval) (create_review reviewing approval).changes
create_review-IsDue_example = create_review-IsDue reviewing approval
