-- ===== src/Worker/Run/Conclusion.antt =====
-- The variable `conclusion` of `HandleCIRun`.
use open_git.Base.{
  ◌≡◌, ◌↔◌, refl, sym, ap, ◌∙◌, subst, Bool, true, false, [], Option, none, some, Bytes, bytes_eq,
  bytes_eq_iff, if◌then◌else◌, Bool-cases, inl, inr, ◌⊎◌, arith,
}
use open_git.Worker.Run.{
  Plan, RunState, Phase, waiting, executing, JobResult, success, failure, skipped, Step, skips_need,
  skips_if, passes, acquires, runs, finishes, skip_refused, instance_refused, returns, returns_slot,
  put, Reach, begins, goes, ends,
}
use open_git.Worker.Run.Shared.{put-same, put-other}
use open_git.Worker.Run.Facts.{Invariant, At, Reach-Invariant}

-- Some job of the run has failed.
abbrev pub HasFailure : (Bytes → Option JobResult) → Type 0
HasFailure results = (job : Bytes) × (results job ≡ some failure)

abbrev IsMarked : RunState → Type 0
IsMarked s = (s.failed ≡ true → HasFailure s.results) × (HasFailure s.results → s.failed ≡ true)

module _ (s : RunState) (job : Bytes) (t : RunState) where
  kept : t.results ≡ s.results → t.failed ≡ s.failed → IsMarked s → IsMarked t
  kept r f h = (
    (λ k. let (x, e) = h.0 (sym f ∙ k) in (x, ap (λ g. g x) r ∙ e)),
    λ k. f ∙ h.1 (k.0, sym (ap (λ g. g k.0) r) ∙ k.1),
  )

  -- A result is written where there was none.
  written :
      (r : JobResult)
      → s.results job ≡ none
      → t.results ≡ put s.results job (some r)
      → (r ≡ failure → t.failed ≡ true)
      → (t.failed ≡ true → (r ≡ failure) ⊎ (s.failed ≡ true))
      → (s.failed ≡ true → t.failed ≡ true)
      → IsMarked s
      → IsMarked t
  written r fresh e marks only keeps h = (
    (λ k. elim (only k) [
      | inl is_failure ↦ (job, ap (λ g. g job) e ∙ put-same s.results job _ ∙ ap some is_failure)
      | inr old ↦ earlier (h.0 old)
    ]),
    λ k. later k.0 k.1,
  )
    where
      earlier : HasFailure s.results → HasFailure t.results
      earlier (x, k) = elim (Bool-cases (bytes_eq x job)) [
        | inl same ↦ absurd (
            let there = subst (λ y. s.results y ≡ some failure) ((bytes_eq_iff x job).0 same) k in
            let no' : none ≡ some failure = sym fresh ∙ there in cc)
        | inr other ↦ (x, ap (λ g. g x) e ∙ put-other s.results job _ x other ∙ k)
      ]

      later : (x : Bytes) → t.results x ≡ some failure → t.failed ≡ true
      later x k = elim (Bool-cases (bytes_eq x job)) [
        | inl same ↦
            let there : some r ≡ some failure =
              sym (ap (λ g. g job) e ∙ put-same s.results job _)
              ∙ subst (λ y. t.results y ≡ some failure) ((bytes_eq_iff x job).0 same) k in
            marks (cc)
        | inr other ↦ keeps (h.1 (x, sym (ap (λ g. g x) e ∙ put-other s.results job _ x other) ∙ k))
      ]

module _ (plan : Plan) (s : RunState) (job : Bytes) (t : RunState) (inv : Invariant plan s) where
  was : (p : Phase) → s.phase job ≡ p → At plan s job p
  was p e = subst (At plan s job) e (inv.at' job)

  results_of : (u : RunState) → t ≡ u → t.results ≡ u.results
  results_of u e = ap (λ v. v.results) e

  failed_of : (u : RunState) → t ≡ u → t.failed ≡ u.failed
  failed_of u e = ap (λ v. v.failed) e

  skips :
      s.phase job ≡ waiting
      → t.results ≡ put s.results job (some skipped)
      → t.failed ≡ s.failed
      → IsMarked s
      → IsMarked t
  skips w r f h =
      written s job t skipped (was waiting w) r (λ k. cc) (λ k. inr (sym f ∙ k)) (λ k. f ∙ k) h

  Step-IsMarked : Step plan s job t → IsMarked s → IsMarked t
  Step-IsMarked (skips_need w r a e) h = skips w (results_of _ e) (failed_of _ e) h
  Step-IsMarked (skips_if w r a i e) h = skips w (results_of _ e) (failed_of _ e) h
  Step-IsMarked (passes w r a i e) h = kept s job t (results_of _ e) (failed_of _ e) h
  Step-IsMarked (acquires w l e) h = kept s job t (results_of _ e) (failed_of _ e) h
  Step-IsMarked (runs c l f b w o e) h = kept s job t (results_of _ e) (failed_of _ e) h
  Step-IsMarked (finishes f w e) h =
      written s job t _ (was (executing [] f) w).0 (results_of _ e)
        (λ k. failed_of _ e ∙ fails f s.failed k) (λ k. only f s.failed (sym (failed_of _ e) ∙ k))
        (λ k. failed_of _ e ∙ keeps f s.failed k) h
    where
      fails :
          (b c : Bool) → (if b then failure else success) ≡ failure → (if b then true else c) ≡ true
      fails true c k = refl
      fails false c k = absurd (let no' : success ≡ failure = k in cc)

      only :
          (b c : Bool)
          → (if b then true else c) ≡ true
          → ((if b then failure else success) ≡ failure) ⊎ (c ≡ true)
      only true c k = inl refl
      only false c k = inr k

      keeps : (b c : Bool) → c ≡ true → (if b then true else c) ≡ true
      keeps b c k = ground arith
  Step-IsMarked (skip_refused w r a e) h = skips w (results_of _ e) (failed_of _ e) h
  Step-IsMarked (instance_refused c l f w e) h = kept s job t (results_of _ e) (failed_of _ e) h
  Step-IsMarked (returns c w e) h = kept s job t (results_of _ e) (failed_of _ e) h
  Step-IsMarked (returns_slot c l f k w e) h = kept s job t (results_of _ e) (failed_of _ e) h

marked : (plan : Plan) {s : RunState} → Reach plan s → IsMarked s
marked plan begins = (
  (λ k. absurd (let no' : false ≡ true = k in cc)),
  λ k. absurd (let no' : none ≡ some failure = k.1 in cc),
)
marked plan (goes {s} {t} job past member st) =
    Step-IsMarked plan s job t (Reach-Invariant plan past) st (marked plan past)
marked plan (ends past going) = marked plan past

-- At any time of a run, its conclusion is a failure exactly if some job has failed: a job that is
-- skipped leaves it a success.
pub failed-HasFailure :
    (plan : Plan) (s : RunState) → Reach plan s → ((s.failed ≡ true) ↔ HasFailure s.results)
failed-HasFailure plan s reach = marked plan reach
