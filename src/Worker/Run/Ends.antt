-- ===== src/Worker/Run/Ends.antt =====
-- The goroutines of `HandleCIRun` all return: each step leaves less to do.
use open_git.Base.{
  ℕ, suc, ◌+◌, ◌*◌, ◌≡◌, ◌<◌, ◌≤◌, refl, ap, true, false, List, [], ◌∷◌, Bytes, is_member,
  is_member-count, count, inl, inr, arith, length,
}
use open_git.Worker.Run.{
  Plan, RunState, Phase, waiting, passed, executing, closed, Step, skips_need, skips_if, passes,
  acquires, runs, finishes, skip_refused, instance_refused, returns, returns_slot, run_order, put,
  instances, Reach, begins, goes, ends, start,
}
use open_git.Worker.Run.Counts.{total, total-put}

-- The steps that a goroutine can still take, at most, for a job of `most` instances.
abbrev pub steps_left : ℕ → Phase → ℕ
steps_left most waiting = most + 4
steps_left most passed = most + 3
steps_left most (executing left failed) = length left + 2
steps_left most closed = 0

abbrev pub weight : Plan → Bytes → Phase → ℕ
weight plan job = steps_left (length (instances (plan.expansion job)))

unfoldable pub work : Plan → RunState → ℕ
work plan s = total (weight plan) s.phase (run_order plan)

module _ (plan : Plan) (s : RunState) (job : Bytes) (t : RunState)
    (member : is_member job (run_order plan) ≡ true) where
  lighter :
      (p q : Phase)
      → s.phase job ≡ q
      → t.phase ≡ put s.phase job p
      → weight plan job p < weight plan job q
      → work plan t < work plan s
  unfolding work
  lighter p q w e less =
      let some_job = is_member-count job (run_order plan) member in
      let sum = rw w at (total-put (weight plan) s.phase job p (run_order plan)) in
      rw e (
        gap _ _ (count job (run_order plan)) (weight plan job p) (weight plan job q) sum some_job
          less)
    where
      gap : (a b c p' q' : ℕ) → a + c * q' ≡ b + c * p' → 0 < c → p' < q' → a < b
      gap a b c p' q' h k l = grind arith

  phases : (u : RunState) → t ≡ u → t.phase ≡ u.phase
  phases u e = ap (λ v. v.phase) e

  work-Step : Step plan s job t → work plan t < work plan s
  work-Step (skips_need w r a e) = lighter closed waiting w (phases _ e) (omega arith)
  work-Step (skips_if w r a i e) = lighter closed waiting w (phases _ e) (omega arith)
  work-Step (passes w r a i e) = lighter passed waiting w (phases _ e) (omega arith)
  work-Step (acquires w l e) =
      lighter (executing (instances (plan.expansion job)) false) passed w (phases _ e) (omega arith)
  work-Step (runs c l f b w o e) = lighter _ (executing (c ∷ l) f) w (phases _ e) (omega arith)
  work-Step (finishes f w e) = lighter closed (executing [] f) w (phases _ e) (omega arith)
  work-Step (skip_refused w r a e) = lighter closed waiting w (phases _ e) (omega arith)
  work-Step (instance_refused c l f w e) =
      lighter closed (executing (c ∷ l) f) w (phases _ e) (omega arith)
  work-Step (returns c (inl w) e) = lighter closed waiting w (phases _ e) (omega arith)
  work-Step (returns c (inr w) e) = lighter closed passed w (phases _ e) (omega arith)
  work-Step (returns_slot c l f k w e) =
      lighter closed (executing (c ∷ l) f) w (phases _ e) (omega arith)

-- The number of steps by which a state is reached.
unfoldable pub steps : {plan : Plan} {s : RunState} → Reach plan s → ℕ
steps begins = 0
steps (goes job past member st) = suc (steps past)
steps (ends past going) = steps past

unfoldable pub most_steps : Plan → List Bytes → ℕ
most_steps plan [] = 0
most_steps plan (job ∷ jobs) = length (instances (plan.expansion job)) + 4 + most_steps plan jobs

start-work :
    (plan : Plan) (jobs : List Bytes)
    → total (weight plan) (λ _. waiting) jobs ≡ most_steps plan jobs
unfolding total most_steps
start-work plan [] = refl
start-work plan (job ∷ jobs) = omega (arith, start-work plan jobs)

work-start : (plan : Plan) → work plan start ≡ most_steps plan (run_order plan)
unfolding work
work-start plan = start-work plan (run_order plan)

-- A run takes at most as many steps as its jobs have instances, and four more for each job: none
-- goes on for ever.
pub steps-le :
    (plan : Plan) (s : RunState) (reach : Reach plan s)
    → steps reach + work plan s ≤ most_steps plan (run_order plan)
unfolding steps work
steps-le plan _ begins = omega (arith, work-start plan)
steps-le plan t (goes {s} job past member st) =
    omega (arith, steps-le plan s past, work-Step plan s job t member st)
steps-le plan _ (ends {s} past going) = steps-le plan s past
