-- ===== src/Worker/Run/Shared.antt =====
-- The goroutines of `HandleCIRun`: what a step of one of them leaves of the others.
use open_git.Base.{
  ℕ, ◌≡◌, refl, sym, ◌∙◌, subst, Bool, true, false, List, [], ◌∷◌, Option, Bytes, bytes_eq,
  bytes_eq_iff, bytes_eq_refl, is_member, All, Bool-cases, inl, inr,
}
use open_git.Worker.Run.{
  Plan, RunState, Phase, waiting, passed, executing, closed, JobResult, Step, skips_need, skips_if,
  passes, acquires, runs, finishes, skip_refused, instance_refused, returns, returns_slot,
  IsSettled, run_order, all_satisfied, put,
}

pub put-same {ℓ} : {A : Type ℓ} (f : Bytes → A) (k : Bytes) (v : A) → put f k v k ≡ v
put-same f k v = rw (bytes_eq_refl k) refl

pub put-other {ℓ} :
    {A : Type ℓ} (f : Bytes → A) (k : Bytes) (v : A) (x : Bytes)
    → bytes_eq x k ≡ false
    → put f k v x ≡ f x
put-other f k v x h = rw h refl

-- The step of a job touches no entry of another one, and is the step of a goroutine that runs.
pub record IsLocal (s : RunState) (job : Bytes) (t : RunState) : Type 0 where
  pub phases : (x : Bytes) → bytes_eq x job ≡ false → t.phase x ≡ s.phase x
  pub others : (x : Bytes) → bytes_eq x job ≡ false → t.results x ≡ s.results x
  pub sticky : s.cancelled ≡ true → t.cancelled ≡ true
  pub unreturned : s.phase job ≡ closed → ⊥

module _ (plan : Plan) (s : RunState) (job : Bytes) (t : RunState) where
  keeps :
      (p : Phase) (failed : Bool) (slots : ℕ) (cancelled : Bool)
      → (s.cancelled ≡ true → cancelled ≡ true)
      → (s.phase job ≡ closed → ⊥)
      → t ≡ record {
        phase = put s.phase job p;
        results = s.results;
        failed = failed;
        slots = slots;
        cancelled = cancelled;
      }
      → IsLocal s job t
  keeps p failed slots cancelled sticky live e = subst (IsLocal s job) (sym e) (record {
    phases = λ x h. put-other s.phase job p x h;
    others = λ x h. refl;
    sticky = sticky;
    unreturned = live;
  })

  sets :
      (r : Option JobResult) (failed : Bool) (slots : ℕ) (cancelled : Bool)
      → (s.cancelled ≡ true → cancelled ≡ true)
      → (s.phase job ≡ closed → ⊥)
      → t ≡ record {
        phase = put s.phase job closed;
        results = put s.results job r;
        failed = failed;
        slots = slots;
        cancelled = cancelled;
      }
      → IsLocal s job t
  sets r failed slots cancelled sticky live e = subst (IsLocal s job) (sym e) (record {
    phases = λ x h. put-other s.phase job closed x h;
    others = λ x h. put-other s.results job r x h;
    sticky = sticky;
    unreturned = live;
  })

  not_closed : (p : Phase) → (p ≡ closed → ⊥) → s.phase job ≡ p → s.phase job ≡ closed → ⊥
  not_closed p differs e c = differs (sym e ∙ c)

  pub Step-IsLocal : Step plan s job t → IsLocal s job t
  Step-IsLocal (skips_need w r a e) = sets _ _ _ _ (λ h. h) (not_closed waiting (λ h. cc) w) e
  Step-IsLocal (skips_if w r a i e) = sets _ _ _ _ (λ h. h) (not_closed waiting (λ h. cc) w) e
  Step-IsLocal (passes w r a i e) = keeps _ _ _ _ (λ h. h) (not_closed waiting (λ h. cc) w) e
  Step-IsLocal (acquires w l e) = keeps _ _ _ _ (λ h. h) (not_closed passed (λ h. cc) w) e
  Step-IsLocal (runs c l f b w o e) =
      keeps _ _ _ _ (λ h. h) (not_closed (executing (c ∷ l) f) (λ h. cc) w) e
  Step-IsLocal (finishes f w e) = sets _ _ _ _ (λ h. h) (not_closed (executing [] f) (λ h. cc) w) e
  Step-IsLocal (skip_refused w r a e) = sets _ _ _ _ (λ h. refl) (not_closed waiting (λ h. cc) w) e
  Step-IsLocal (instance_refused c l f w e) =
      keeps _ _ _ _ (λ h. refl) (not_closed (executing (c ∷ l) f) (λ h. cc) w) e
  Step-IsLocal (returns c (inl w) e) = keeps _ _ _ _ (λ h. h) (not_closed waiting (λ h. cc) w) e
  Step-IsLocal (returns c (inr w) e) = keeps _ _ _ _ (λ h. h) (not_closed passed (λ h. cc) w) e
  Step-IsLocal (returns_slot c l f k w e) =
      keeps _ _ _ _ (λ h. h) (not_closed (executing (c ∷ l) f) (λ h. cc) w) e

module _ (plan : Plan) (s : RunState) (job : Bytes) (t : RunState)
    (member : is_member job (run_order plan) ≡ true) (loc : IsLocal s job t) where
  -- A settled job stays as it is.
  pub IsSettled-frame :
      (x : Bytes) → IsSettled plan s x → IsSettled plan t x × (t.results x ≡ s.results x)
  IsSettled-frame x h = elim (Bool-cases (bytes_eq x job)) [
    | inl e ↦ absurd (
        loc.unreturned (
          subst (λ y. s.phase y ≡ closed) (same e)
            (h (subst (λ y. is_member y (run_order plan) ≡ true) (sym (same e)) member))))
    | inr e ↦ ((λ m. loc.phases x e ∙ h m), loc.others x e)
  ]
    where
      same : bytes_eq x job ≡ true → x ≡ job
      same e = (bytes_eq_iff x job).0 e

  pub released-frame :
      (needs : List Bytes)
      → All (IsSettled plan s) needs
      → All (IsSettled plan t) needs
        × (all_satisfied t.results needs ≡ all_satisfied s.results needs)
  unfolding all_satisfied
  released-frame [] h = (tt, refl)
  released-frame (need ∷ needs) h =
      let one = IsSettled-frame need h.0 in
      let rest = released-frame needs h.1 in ((one.0, rest.0), rw (one.1, rest.1) refl)
