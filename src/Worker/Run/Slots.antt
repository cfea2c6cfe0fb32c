-- ===== src/Worker/Run/Slots.antt =====
-- The semaphore of `HandleCIRun`, and the conclusion of the run.
use open_git.Base.{
  ℕ, ◌+◌, ◌-◌, ◌≡◌, ◌<◌, ◌≤◌, refl, ap, Bool, true, false, List, [], ◌∷◌, Option, Bytes, is_member,
  is_member-count, count, inl, inr, arith,
}
use open_git.Workflow.Matrix.{Combo}
use open_git.Worker.Run.{
  Plan, RunState, Phase, waiting, passed, executing, closed, Step, skips_need, skips_if, passes,
  acquires, runs, finishes, skip_refused, instance_refused, returns, returns_slot, run_order, put,
  instances, Reach, begins, goes, ends, max_parallel_jobs,
}
use open_git.Worker.Run.Counts.{total, total-put}
use open_git.Worker.Run.Order.{IsPlanned, IsPlanned-IsSound, IsSound}

-- A goroutine that has a slot.
abbrev pub holding : Phase → ℕ
holding (executing left failed) = 1
holding _ = 0

-- The number of jobs that execute.
unfoldable pub busy : Plan → RunState → ℕ
busy plan s = total (λ _. holding) s.phase (run_order plan)

abbrev pub IsCounted : Plan → RunState → Type 0
IsCounted plan s = (s.slots ≡ busy plan s) × (busy plan s ≤ max_parallel_jobs)

module _ (plan : Plan) (sound : IsSound plan) (s : RunState) (job : Bytes) (t : RunState)
    (member : is_member job (run_order plan) ≡ true) where
  busy-put :
      (p : Phase)
      → t.phase ≡ put s.phase job p
      → busy plan t + holding (s.phase job) ≡ busy plan s + holding p
  unfolding busy
  busy-put p e =
      let one : count job (run_order plan) ≡ 1 =
        omega (arith, sound.once job, is_member-count job (run_order plan) member) in
      let sum = rw one at (total-put (λ _. holding) s.phase job p (run_order plan)) in
      rw e (omega (arith, sum))

  -- The slots in use are those of the jobs that execute, eight at most.
  unchanged :
      (p q : Phase)
      → s.phase job ≡ q
      → holding q ≡ holding p
      → t.phase ≡ put s.phase job p
      → t.slots ≡ s.slots
      → IsCounted plan s
      → IsCounted plan t
  unchanged p q w same e n h =
      let sum = rw w at (busy-put p e) in
      (omega (arith, sum, same, n, h.0), omega (arith, sum, same, h.1))

  released :
      (left : List (Option Combo)) (failed : Bool)
      → s.phase job ≡ executing left failed
      → t.phase ≡ put s.phase job closed
      → t.slots ≡ s.slots - 1
      → IsCounted plan s
      → IsCounted plan t
  released left failed w e n h =
      let sum = rw w at (busy-put closed e) in (omega (arith, sum, n, h.0), omega (arith, sum, h.1))

  taken :
      s.phase job ≡ passed
      → s.slots < max_parallel_jobs
      → t.phase ≡ put s.phase job (executing (instances (plan.expansion job)) false)
      → t.slots ≡ s.slots + 1
      → IsCounted plan s
      → IsCounted plan t
  taken w less e n h =
      let sum = rw w at (busy-put (executing (instances (plan.expansion job)) false) e) in
      (omega (arith, sum, n, h.0), omega (arith, sum, h.0, less))

  phases : (u : RunState) → t ≡ u → t.phase ≡ u.phase
  phases u e = ap (λ v. v.phase) e

  slots : (u : RunState) → t ≡ u → t.slots ≡ u.slots
  slots u e = ap (λ v. v.slots) e

  Step-IsCounted : Step plan s job t → IsCounted plan s → IsCounted plan t
  Step-IsCounted (skips_need w r a e) h = unchanged closed waiting w refl (phases _ e) (slots _ e) h
  Step-IsCounted (skips_if w r a i e) h = unchanged closed waiting w refl (phases _ e) (slots _ e) h
  Step-IsCounted (passes w r a i e) h = unchanged passed waiting w refl (phases _ e) (slots _ e) h
  Step-IsCounted (acquires w l e) h = taken w l (phases _ e) (slots _ e) h
  Step-IsCounted (runs c l f b w o e) h =
      unchanged _ (executing (c ∷ l) f) w refl (phases _ e) (slots _ e) h
  Step-IsCounted (finishes f w e) h = released [] f w (phases _ e) (slots _ e) h
  Step-IsCounted (skip_refused w r a e) h =
      unchanged closed waiting w refl (phases _ e) (slots _ e) h
  Step-IsCounted (instance_refused c l f w e) h = released (c ∷ l) f w (phases _ e) (slots _ e) h
  Step-IsCounted (returns c (inl w) e) h =
      unchanged closed waiting w refl (phases _ e) (omega (arith, slots _ e)) h
  Step-IsCounted (returns c (inr w) e) h =
      unchanged closed passed w refl (phases _ e) (omega (arith, slots _ e)) h
  Step-IsCounted (returns_slot c l f k w e) h = released (c ∷ l) f w (phases _ e) (slots _ e) h

busy-start : (xs : List Bytes) → total (λ _. holding) (λ _. waiting) xs ≡ 0
unfolding total
busy-start [] = refl
busy-start (x ∷ xs) = omega (arith, busy-start xs)

module _ (plan : Plan) (sound : IsSound plan) where
  counted : {s : RunState} → Reach plan s → IsCounted plan s
  unfolding busy
  counted begins = let none_busy = busy-start (run_order plan) in (omega arith, omega arith)
  counted (goes {s} {t} job past member st) =
      Step-IsCounted plan sound s job t member st (counted past)
  counted (ends past going) = counted past

-- In a run of a workflow without errors, the slots in use are at any time those of the jobs that
-- execute, and at most eight jobs execute.
pub busy-IsCounted : (plan : Plan) (s : RunState) → IsPlanned plan → Reach plan s → IsCounted plan s
busy-IsCounted plan s h reach = counted plan (IsPlanned-IsSound plan h) reach
