-- ===== src/Worker/Run/Sequential.antt =====
-- The results of `HandleCIRun`, and those of running its jobs one after the other.
use open_git.Base.{
  ◌≡◌, refl, sym, ap, ◌∙◌, subst, Bool, true, false, List, [], ◌∷◌, ◌++◌, append_assoc, append-nil,
  Option, none, some, Bytes, bytes_eq, bytes_eq_iff, is_member, members_self, member-nil, All,
  if◌then◌else◌, ◌&&◌, Bool-cases, inl, inr, ◌⊎◌, arith,
}
use open_git.Workflow.Dag.Order.{IsOrdered, MayFollow}
use open_git.Worker.Run.{
  Plan, RunState, closed, JobResult, success, failure, skipped, run_order, all_satisfied, succeeded,
  instances, put, Reach,
}
use open_git.Worker.Run.Shared.{put-same, put-other}
use open_git.Worker.Run.Facts.{At, Has, Reach-Invariant, outcome, any_fails}
use open_git.Worker.Run.Order.{IsPlanned, IsPlanned-IsSound}

-- Whether each need has succeeded.
abbrev has_succeeded : Option JobResult → Bool
has_succeeded none = false
has_succeeded (some success) = true
has_succeeded (some failure) = false
has_succeeded (some skipped) = false

unfoldable pub each_succeeded : (Bytes → Option JobResult) → List Bytes → Bool
each_succeeded results [] = true
each_succeeded results (need ∷ needs) = has_succeeded (results need) && each_succeeded results needs

all_satisfied-each :
    (results : Bytes → Option JobResult) (needs : List Bytes)
    → all_satisfied results needs ≡ each_succeeded results needs
unfolding all_satisfied each_succeeded
all_satisfied-each results [] = refl
all_satisfied-each results (need ∷ needs) =
    step (results need) (all_satisfied results needs) (each_succeeded results needs)
      (all_satisfied-each results needs)
  where
    step :
        (o : Option JobResult) (a b : Bool)
        → a ≡ b
        → (if succeeded o then a else false) ≡ (has_succeeded o && b)
    step none a b h = refl
    step (some success) a b h = h
    step (some failure) a b h = refl
    step (some skipped) a b h = refl

-- The result that a job is meant to have, from those of its needs.
unfoldable pub expected : Plan → (Bytes → Option JobResult) → Bytes → JobResult
expected plan results job =
    if each_succeeded results (plan.jobs.needs job) && plan.holds job
    then if any_fails plan job (instances (plan.expansion job)) then failure else success
    else skipped

expected-outcome :
    (plan : Plan) (results : Bytes → Option JobResult) (job : Bytes)
    → expected plan results job ≡ outcome plan results job
unfolding expected outcome
expected-outcome plan results job = rw (all_satisfied-each results (plan.jobs.needs job)) refl

-- One job after the other, in an order: what the results are meant to be.
unfoldable pub sequential :
    Plan → List Bytes → (Bytes → Option JobResult) → Bytes → Option JobResult
sequential plan [] results = results
sequential plan (job ∷ jobs) results =
    sequential plan jobs (put results job (some (expected plan results job)))

abbrev Agrees : RunState → List Bytes → (Bytes → Option JobResult) → Type 0
Agrees s before results = (x : Bytes) → is_member x before ≡ true → results x ≡ s.results x

all_satisfied-agree :
    (s : RunState) (before : List Bytes) (results : Bytes → Option JobResult)
    → Agrees s before results
    → (needs : List Bytes) → All (λ need. is_member need before ≡ true) needs
    → all_satisfied results needs ≡ all_satisfied s.results needs
unfolding all_satisfied
all_satisfied-agree s before results agree [] h = refl
all_satisfied-agree s before results agree (need ∷ needs) h =
    rw (agree need h.0, all_satisfied-agree s before results agree needs h.1) refl

pub is_member-snoc :
    (x job : Bytes) (before : List Bytes)
    → is_member x (before ++ job ∷ []) ≡ true
    → (is_member x before ≡ true) ⊎ (x ≡ job)
unfolding is_member
is_member-snoc x job [] h = inr (ground (arith, h, bytes_eq_iff x job))
is_member-snoc x job (y ∷ before) h = ground (arith, h, is_member-snoc x job before)

module _ (plan : Plan) (s : RunState)
    (right : (x : Bytes)
      → is_member x (run_order plan) ≡ true
      → s.results x ≡ some (outcome plan s.results x)) where
  step-Agrees :
      (before : List Bytes) (job : Bytes) (results : Bytes → Option JobResult)
      → is_member job (run_order plan) ≡ true
      → MayFollow plan.jobs before job
      → Agrees s before results
      → Agrees s (before ++ job ∷ []) (put results job (some (expected plan results job)))
  unfolding outcome
  step-Agrees before job results member may agree x h =
      let same = all_satisfied-agree s before results agree (plan.jobs.needs job) may.2 in
      elim (Bool-cases (bytes_eq x job)) [
        | inl e ↦
            subst (λ y. put results job (some (expected plan results job)) y ≡ s.results y)
              (sym ((bytes_eq_iff x job).0 e))
              (put-same results job _
                ∙ rw (expected-outcome plan results job, same) (sym (right job member)))
        | inr e ↦
            put-other results job _ x e
            ∙ agree x (elim (is_member-snoc x job before h) [
              | inl m ↦ m
              | inr k ↦ absurd (let twice = (bytes_eq_iff x job).1 k in cc)
            ])
      ]

  sequential-Agrees :
      (before jobs : List Bytes) (results : Bytes → Option JobResult)
      → All (λ x. is_member x (run_order plan) ≡ true) jobs
      → IsOrdered plan.jobs before jobs
      → Agrees s before results
      → Agrees s (before ++ jobs) (sequential plan jobs results)
  unfolding sequential
  sequential-Agrees before [] results members ordered agree x h =
      agree x (subst (λ l. is_member x l ≡ true) (append-nil before) h)
  sequential-Agrees before (job ∷ jobs) results members ordered agree x h =
      sequential-Agrees (before ++ job ∷ []) jobs
        (put results job (some (expected plan results job))) members.1 ordered.1
        (step-Agrees before job results members.0 ordered.0 agree) x
        (subst (λ l. is_member x l ≡ true) (sym (append_assoc before (job ∷ []) jobs)) h)

sequential-outside :
    (plan : Plan) (jobs : List Bytes) (results : Bytes → Option JobResult) (x : Bytes)
    → is_member x jobs ≡ false
    → sequential plan jobs results x ≡ results x
unfolding sequential is_member
sequential-outside plan [] results x h = refl
sequential-outside plan (job ∷ jobs) results x h =
    sequential-outside plan jobs (put results job _) x (ground (arith, h))
    ∙ put-other results job _ x (ground (arith, h))

-- Each goroutine of an order has returned.
abbrev pub IsOver : Plan → RunState → Type 0
IsOver plan s = (x : Bytes) → is_member x (run_order plan) ≡ true → s.phase x ≡ closed

over-right :
    (plan : Plan) (s : RunState)
    → Reach plan s
    → IsOver plan s
    → s.cancelled ≡ false
    → (x : Bytes) → is_member x (run_order plan) ≡ true
    → s.results x ≡ some (outcome plan s.results x)
over-right plan s reach over going x m =
    settle (s.results x) refl (subst (At plan s x) (over x m) ((Reach-Invariant plan reach).at' x))
  where
    settle :
        (o : Option JobResult)
        → s.results x ≡ o
        → Has plan s x (s.results x)
        → s.results x ≡ some (outcome plan s.results x)
    settle none e h = absurd (let no : true ≡ false = sym (subst (Has plan s x) e h) ∙ going in cc)
    settle (some r) e h = e ∙ ap some ((subst (Has plan s x) e h).2 going)

-- However the goroutines of a workflow without errors are interleaved, once they have all returned
-- in a run that was not cancelled, the results are those of running the jobs one after the other in
-- the order of the graph.
pub results-sequential :
    (plan : Plan) (s : RunState) (job : Bytes)
    → IsPlanned plan
    → Reach plan s
    → IsOver plan s
    → s.cancelled ≡ false
    → s.results job ≡ sequential plan (run_order plan) (λ _. none) job
results-sequential plan s job h reach over going =
    elim (Bool-cases (is_member job (run_order plan))) [
      | inl m ↦ sym (
          sequential-Agrees plan s (over-right plan s reach over going) [] (run_order plan)
            (λ _. none) (members_self (run_order plan)) (IsPlanned-IsSound plan h).ordered
            (λ x k. absurd (member-nil x k)) job m)
      | inr out ↦
          (Reach-Invariant plan reach).outside job out
          ∙ sym (sequential-outside plan (run_order plan) (λ _. none) job out)
    ]
