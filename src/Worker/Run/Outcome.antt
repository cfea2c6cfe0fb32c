-- ===== src/Worker/Run/Outcome.antt =====
-- What the results of `HandleCIRun` say of the needs of a job.
use open_git.Base.{
  ◌≡◌, ◌≢◌, refl, sym, ◌∙◌, subst, Bool, true, List, [], ◌∷◌, Option, none, some, Bytes, All,
  Bool-cases, inl, inr,
}
use open_git.Workflow.Matrix.{Combo}
use open_git.Worker.Run.{
  Plan, RunState, Phase, waiting, passed, executing, closed, JobResult, success, failure, skipped,
  all_satisfied, succeeded, Reach,
}
use open_git.Worker.Run.Facts.{Invariant, At, Has, MayRun, Reach-Invariant}

-- A job that executes, or whose result is that it ran.
pub data HasBegun (s : RunState) (job : Bytes) : Type 0 where
  executes :
      (left : List (Option Combo)) (failed : Bool)
      → s.phase job ≡ executing left failed
      → HasBegun s job
  ran : (r : JobResult) → s.results job ≡ some r → r ≢ skipped → HasBegun s job

all_satisfied-All :
    (results : Bytes → Option JobResult) (needs : List Bytes)
    → all_satisfied results needs ≡ true
    → All (λ need. results need ≡ some success) needs
unfolding all_satisfied
all_satisfied-All results [] h = tt
all_satisfied-All results (need ∷ needs) h = elim (Bool-cases (succeeded (results need))) [
  | inl e ↦ (succeeds (results need) e, all_satisfied-All results needs (rw e at h))
  | inr e ↦ absurd (let no = rw e at h in cc)
]
  where
    succeeds : (o : Option JobResult) → succeeded o ≡ true → o ≡ some success
    succeeds (some success) k = refl
    succeeds (some failure) k = cc
    succeeds (some skipped) k = cc
    succeeds none k = cc

-- Only a goroutine that has returned has written a result.
module _ (plan : Plan) (s : RunState) (job : Bytes) (r : JobResult)
    (e : s.results job ≡ some r) where
  pub At-Has : (p : Phase) → At plan s job p → Has plan s job (some r)
  At-Has waiting h = absurd (let no : none ≡ some r = sym h ∙ e in cc)
  At-Has passed h = absurd (let no : none ≡ some r = sym h.0 ∙ e in cc)
  At-Has (executing left failed) h = absurd (let no : none ≡ some r = sym h.0 ∙ e in cc)
  At-Has closed h = subst (Has plan s job) e h

-- A job executes, or has run, only if each job that it needs has succeeded and its own condition
-- holds, however the goroutines are interleaved and whatever is refused.
pub begun-succeeded :
    (plan : Plan) (s : RunState) (job : Bytes)
    → Reach plan s
    → HasBegun s job
    → All (λ need. s.results need ≡ some success) (plan.jobs.needs job) × (plan.holds job ≡ true)
begun-succeeded plan s job reach begun = both (may begun)
  where
    inv : Invariant plan s
    inv = Reach-Invariant plan reach

    may : HasBegun s job → MayRun plan s job
    may (executes left failed e) = (subst (At plan s job) e (inv.at' job)).1
    may (ran r e d) = (At-Has plan s job r e (s.phase job) (inv.at' job)).1 d

    both :
        MayRun plan s job
        → All (λ need. s.results need ≡ some success) (plan.jobs.needs job)
          × (plan.holds job ≡ true)
    both h = (all_satisfied-All s.results (plan.jobs.needs job) h.1, h.2)
