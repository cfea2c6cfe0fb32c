-- ===== src/Worker/Run/Facts.antt =====
-- The goroutines of `HandleCIRun`: what is known of a job from where its goroutine stands.
use open_git.Base.{
  ◌≡◌, ◌≢◌, refl, sym, ap, ◌∙◌, subst, Bool, true, false, ◌||◌, ◌&&◌, List, [], ◌∷◌, Option, none,
  some, Bytes, bytes_eq, bytes_eq_iff, is_member, if◌then◌else◌, Bool-cases, inl, inr, arith,
}
use open_git.Workflow.Matrix.{Combo}
use open_git.Worker.Run.{
  Plan, RunState, Phase, waiting, passed, executing, closed, JobResult, success, failure, skipped,
  Step, skips_need, skips_if, passes, acquires, runs, finishes, skip_refused, instance_refused,
  returns, returns_slot, IsReleased, run_order, all_satisfied, instances, Reach, begins, goes, ends,
  cancel,
}
use open_git.Worker.Run.Shared.{put-same, IsLocal, Step-IsLocal, released-frame}

-- Whether one of the instances of a job fails.
unfoldable pub any_fails : Plan → Bytes → List (Option Combo) → Bool
any_fails plan job [] = false
any_fails plan job (combo ∷ left) = plan.fails job combo || any_fails plan job left

-- The result of a job, from those of its needs.
unfoldable pub outcome : Plan → (Bytes → Option JobResult) → Bytes → JobResult
outcome plan results job =
    if all_satisfied results (plan.jobs.needs job) && plan.holds job
    then if any_fails plan job (instances (plan.expansion job)) then failure else success
    else skipped

-- A job that may run: its needs are done and succeeded, and its condition holds.
abbrev pub MayRun : Plan → RunState → Bytes → Type 0
MayRun plan s job =
    IsReleased plan s job
    × (all_satisfied s.results (plan.jobs.needs job) ≡ true)
    × (plan.holds job ≡ true)

-- A goroutine that has returned has a result, or the run is cancelled.
abbrev pub Has : Plan → RunState → Bytes → Option JobResult → Type 0
Has plan s job none = s.cancelled ≡ true
Has plan s job (some r) =
    IsReleased plan s job
    × (r ≢ skipped → MayRun plan s job)
    × (s.cancelled ≡ false → r ≡ outcome plan s.results job)

abbrev pub At : Plan → RunState → Bytes → Phase → Type 0
At plan s job waiting = s.results job ≡ none
At plan s job passed = (s.results job ≡ none) × MayRun plan s job
At plan s job (executing left failed) =
    (s.results job ≡ none)
    × MayRun plan s job
    × (s.cancelled ≡ false
        → (failed || any_fails plan job left) ≡ any_fails plan job (instances (plan.expansion job)))
At plan s job closed = Has plan s job (s.results job)

pub record Invariant (plan : Plan) (s : RunState) : Type 0 where
  pub at' : (x : Bytes) → At plan s x (s.phase x)
  pub outside : (x : Bytes) → is_member x (run_order plan) ≡ false → s.results x ≡ none

still : (a b : Bool) → (a ≡ true → b ≡ true) → b ≡ false → a ≡ false
still a b h e = ground (arith, h)

module _ (plan : Plan) (s : RunState) (job : Bytes) (t : RunState)
    (member : is_member job (run_order plan) ≡ true) (loc : IsLocal s job t) where
  MayRun-frame : (x : Bytes) → MayRun plan s x → MayRun plan t x
  MayRun-frame x h =
      let (r, e) = released-frame plan s job t member loc (plan.jobs.needs x) h.0 in
      (r, e ∙ h.1, h.2)

  Has-frame : (x : Bytes) (r : Option JobResult) → Has plan s x r → Has plan t x r
  unfolding outcome
  Has-frame x none h = loc.sticky h
  Has-frame x (some r) h =
      let (released, e) = released-frame plan s job t member loc (plan.jobs.needs x) h.0 in
      (released, (λ d. MayRun-frame x (h.1 d)), λ c. rw e (h.2 (still _ _ loc.sticky c)))

  At-frame : (x : Bytes) (p : Phase) → bytes_eq x job ≡ false → At plan s x p → At plan t x p
  At-frame x waiting d h = loc.others x d ∙ h
  At-frame x passed d h = (loc.others x d ∙ h.0, MayRun-frame x h.1)
  At-frame x (executing left failed) d h =
      (loc.others x d ∙ h.0, MayRun-frame x h.1, λ c. h.2 (still _ _ loc.sticky c))
  At-frame x closed d h = rw (loc.others x d) (Has-frame x (s.results x) h)

  stands : (p : Phase) → t.phase job ≡ p → At plan t job p → At plan t job (t.phase job)
  stands p e h = subst (At plan t job) (sym e) h

  skipped-At :
      t.phase job ≡ closed
      → t.results job ≡ some skipped
      → IsReleased plan s job
      → (all_satisfied s.results (plan.jobs.needs job) && plan.holds job) ≡ false
      → At plan t job (t.phase job)
  unfolding outcome
  skipped-At p r h off =
      let (released, e) = released-frame plan s job t member loc (plan.jobs.needs job) h in
      stands closed p (rw r (released, (λ d. absurd (d refl)), λ c. rw (e, off) refl))

  given_up-At :
      t.phase job ≡ closed → t.results job ≡ none → t.cancelled ≡ true → At plan t job (t.phase job)
  given_up-At p r c = stands closed p (rw r c)

  finished-At :
      (failed : Bool)
      → t.phase job ≡ closed
      → t.results job ≡ some (if failed then failure else success)
      → At plan s job (executing [] failed)
      → At plan t job (t.phase job)
  unfolding outcome any_fails
  finished-At failed p r h =
      let may = MayRun-frame job h.1 in
      let (released, e) = released-frame plan s job t member loc (plan.jobs.needs job) h.1.0 in
      stands closed p (
        rw r (
          released,
          (λ d. may),
          λ c. rw (may.1, may.2, sym (h.2 (still _ _ loc.sticky c))) (choice failed),
        ))
    where
      choice :
          (b : Bool) → (if b then failure else success) ≡ (if b || false then failure else success)
      choice b = ground arith

||_assoc : (a b c : Bool) → ((a || b) || c) ≡ (a || (b || c))
||_assoc a b c = ground arith

module _ (plan : Plan) (s : RunState) (job : Bytes) (t : RunState)
    (member : is_member job (run_order plan) ≡ true) (inv : Invariant plan s)
    (st : Step plan s job t) where
  loc : IsLocal s job t
  loc = Step-IsLocal plan s job t st

  was : (p : Phase) → s.phase job ≡ p → At plan s job p
  was p e = subst (At plan s job) e (inv.at' job)

  becomes : (u : RunState) (p : Phase) → t ≡ u → u.phase job ≡ p → t.phase job ≡ p
  becomes u p e h = ap (λ v. v.phase job) e ∙ h

  results_as : (u : RunState) (r : Option JobResult) → t ≡ u → u.results job ≡ r → t.results job ≡ r
  results_as u r e h = ap (λ v. v.results job) e ∙ h

  self-At : Step plan s job t → At plan t job (t.phase job)
  unfolding any_fails
  self-At (skips_need w r a e) =
      skipped-At plan s job t member loc (becomes _ closed e (put-same s.phase job _))
        (results_as _ _ e (put-same s.results job _)) r (rw a refl)
  self-At (skips_if w r a i e) =
      skipped-At plan s job t member loc (becomes _ closed e (put-same s.phase job _))
        (results_as _ _ e (put-same s.results job _)) r (rw (a, i) refl)
  self-At (passes w r a i e) =
      stands plan s job t member loc passed (becomes _ passed e (put-same s.phase job _))
        (results_as _ none e (was waiting w), MayRun-frame plan s job t member loc job (r, a, i))
  self-At (acquires w l e) =
      let h = was passed w in
      stands plan s job t member loc (executing (instances (plan.expansion job)) false)
        (becomes _ _ e (put-same s.phase job _))
        (results_as _ none e h.0, MayRun-frame plan s job t member loc job h.1, λ c. refl)
  self-At (runs combo left failed bad w o e) =
      let h = was (executing (combo ∷ left) failed) w in
      stands plan s job t member loc (executing left (failed || bad))
        (becomes _ _ e (put-same s.phase job _))
        (
          results_as _ none e h.0,
          MayRun-frame plan s job t member loc job h.1,
          λ c.
              let going = still _ _ loc.sticky c in
              rw (o going) (||_assoc failed (plan.fails job combo) (any_fails plan job left))
              ∙ h.2 going,
        )
  self-At (finishes failed w e) =
      finished-At plan s job t member loc failed (becomes _ closed e (put-same s.phase job _))
        (results_as _ _ e (put-same s.results job _)) (was (executing [] failed) w)
  self-At (skip_refused w r a e) =
      skipped-At plan s job t member loc (becomes _ closed e (put-same s.phase job _))
        (results_as _ _ e (put-same s.results job _)) r (ground arith)
  self-At (instance_refused c l f w e) =
      given_up-At plan s job t member loc (becomes _ closed e (put-same s.phase job _))
        (results_as _ none e (was (executing (c ∷ l) f) w).0) (ap (λ v. v.cancelled) e)
  self-At (returns c (inl w) e) =
      given_up-At plan s job t member loc (becomes _ closed e (put-same s.phase job _))
        (results_as _ none e (was waiting w)) (loc.sticky c)
  self-At (returns c (inr w) e) =
      given_up-At plan s job t member loc (becomes _ closed e (put-same s.phase job _))
        (results_as _ none e (was passed w).0) (loc.sticky c)
  self-At (returns_slot c l f k w e) =
      given_up-At plan s job t member loc (becomes _ closed e (put-same s.phase job _))
        (results_as _ none e (was (executing (c ∷ l) f) w).0) (loc.sticky k)

  Step-Invariant : Invariant plan t
  Step-Invariant = record {
    at' = λ x. elim (Bool-cases (bytes_eq x job)) [
      | inl e ↦ subst (λ y. At plan t y (t.phase y)) (sym ((bytes_eq_iff x job).0 e)) (self-At st)
      | inr e ↦ rw (loc.phases x e) (At-frame plan s job t member loc x (s.phase x) e (inv.at' x))
    ];
    outside = λ x out. elim (Bool-cases (bytes_eq x job)) [
      | inl e ↦ absurd (
          let no =
            subst (λ y. is_member y (run_order plan) ≡ false) ((bytes_eq_iff x job).0 e) out in
          cc)
      | inr e ↦ loc.others x e ∙ inv.outside x out
    ];
  }

-- Cancelling keeps what is known of each job.
cancel-Has :
    (plan : Plan) (s : RunState) (x : Bytes) (r : Option JobResult)
    → Has plan s x r
    → Has plan (cancel s) x r
cancel-Has plan s x none h = refl
cancel-Has plan s x (some r) h = (h.0, (λ d. h.1 d), λ c. absurd (let no : true ≡ false = c in cc))

cancel-At :
    (plan : Plan) (s : RunState) (x : Bytes) (p : Phase) → At plan s x p → At plan (cancel s) x p
cancel-At plan s x waiting h = h
cancel-At plan s x passed h = h
cancel-At plan s x (executing left failed) h =
    (h.0, h.1, λ c. absurd (let no : true ≡ false = c in cc))
cancel-At plan s x closed h = cancel-Has plan s x (s.results x) h

pub Reach-Invariant : (plan : Plan) {s : RunState} → Reach plan s → Invariant plan s
Reach-Invariant plan begins = record { at' = λ x. refl; outside = λ x h. refl }
Reach-Invariant plan (goes {s} {t} job past member st) =
    Step-Invariant plan s job t member (Reach-Invariant plan past) st
Reach-Invariant plan (ends {s} past going) =
    let inv = Reach-Invariant plan past in
    record {
      at' = λ x. cancel-At plan s x (s.phase x) (inv.at' x);
      outside = λ x h. inv.outside x h;
    }
