-- ===== src/Worker/Run/Progress.antt =====
-- The goroutines of `HandleCIRun` never wait for each other for good.
use open_git.Base.{
  ◌≡◌, ◌≢◌, ◌<◌, refl, sym, subst, Bool, true, List, [], ◌∷◌, ◌++◌, append-nil, append_assoc,
  Option, Bytes, bytes_eq_refl, is_member, members_self, member-nil, Bool-cases, inl, inr, ◌⊎◌,
  arith, All, All-map, ltb, ltb→lt,
}
use open_git.Workflow.Matrix.{Combo}
use open_git.Workflow.Dag.Order.{IsOrdered}
use open_git.Worker.Run.{
  Plan, RunState, Phase, waiting, passed, executing, closed, Step, skips_need, skips_if, passes,
  acquires, runs, finishes, IsSettled, IsReleased, run_order, Reach, max_parallel_jobs,
  all_satisfied,
}
use open_git.Worker.Run.Counts.{total}
use open_git.Worker.Run.Slots.{busy, holding, busy-IsCounted, IsCounted}
use open_git.Worker.Run.Sequential.{IsOver, is_member-snoc}
use open_git.Worker.Run.Order.{IsPlanned, IsPlanned-IsSound}

-- Some goroutine can go on, without cancelling the run.
abbrev pub CanGo : Plan → RunState → Type 0
CanGo plan s =
    (job : Bytes) × (is_member job (run_order plan) ≡ true)
    × (t : RunState) × Step plan s job t
    × (t.cancelled ≡ s.cancelled)

abbrev SomeExecutes : RunState → List Bytes → Type 0
SomeExecutes s jobs =
    (job : Bytes) × (is_member job jobs ≡ true)
    × (left : List (Option Combo)) × (failed : Bool) × (s.phase job ≡ executing left failed)

holding-cases :
    (p : Phase)
    → (holding p ≡ 0)
      ⊎ ((left : List (Option Combo)) × (failed : Bool) × (p ≡ executing left failed))
holding-cases waiting = inl refl
holding-cases passed = inl refl
holding-cases closed = inl refl
holding-cases (executing left failed) = inr (left, failed, refl)

closed-cases : (p : Phase) → (p ≡ closed) ⊎ (p ≢ closed)
closed-cases closed = inl refl
closed-cases waiting = inr (λ h. cc)
closed-cases passed = inr (λ h. cc)
closed-cases (executing left failed) = inr (λ h. cc)

module _ (plan : Plan) (s : RunState) where
  executing-CanGo :
      (job : Bytes) (left : List (Option Combo)) (failed : Bool)
      → is_member job (run_order plan) ≡ true
      → s.phase job ≡ executing left failed
      → CanGo plan s
  executing-CanGo job [] failed m e = (job, m, _, finishes failed e refl, refl)
  executing-CanGo job (combo ∷ left) failed m e =
      (job, m, _, runs combo left failed (plan.fails job combo) e (λ _. refl) refl, refl)

  waiting-CanGo :
      (job : Bytes)
      → is_member job (run_order plan) ≡ true
      → s.phase job ≡ waiting
      → IsReleased plan s job
      → CanGo plan s
  waiting-CanGo job m e r = elim (Bool-cases (all_satisfied s.results (plan.jobs.needs job))) [
    | inr unmet ↦ (job, m, _, skips_need e r unmet refl, refl)
    | inl met ↦ elim (Bool-cases (plan.holds job)) [
      | inr off ↦ (job, m, _, skips_if e r met off refl, refl)
      | inl on ↦ (job, m, _, passes e r met on refl, refl)
    ]
  ]

  -- Where a slot is in use, some job executes.
  busy-SomeExecutes :
      (jobs : List Bytes) → 0 < total (λ _. holding) s.phase jobs → SomeExecutes s jobs
  unfolding total is_member
  busy-SomeExecutes [] h = absurd (omega arith)
  busy-SomeExecutes (x ∷ xs) h = elim (holding-cases (s.phase x)) [
    | inr (left, failed, e) ↦ (x, rw (bytes_eq_refl x) refl, left, failed, e)
    | inl idle ↦
        let (job, m, left, failed, e) = busy-SomeExecutes xs (omega (arith, h, idle)) in
        (job, ground (arith, m), left, failed, e)
  ]

  -- A job whose needs have returned, and that has not.
  open-CanGo :
      (job : Bytes) (p : Phase)
      → IsCounted plan s
      → is_member job (run_order plan) ≡ true
      → IsReleased plan s job
      → s.phase job ≡ p
      → p ≢ closed
      → CanGo plan s
  unfolding busy
  open-CanGo job waiting h m r e d = waiting-CanGo job m e r
  open-CanGo job passed h m r e d = elim (Bool-cases (ltb s.slots max_parallel_jobs)) [
    | inl free ↦ (job, m, _, acquires e (ltb→lt s.slots max_parallel_jobs free) refl, refl)
    | inr full ↦
        let (other, m', left, failed, e') =
          busy-SomeExecutes (run_order plan) (ground (arith, h.0, full)) in
        executing-CanGo other left failed m' e'
  ]
  open-CanGo job (executing left failed) h m r e d = executing-CanGo job left failed m e
  open-CanGo job closed h m r e d = absurd (d refl)

  -- The first job of an order that has not returned.
  first-CanGo :
      (before jobs : List Bytes)
      → IsCounted plan s
      → IsOrdered plan.jobs before jobs
      → All (λ x. is_member x (run_order plan) ≡ true) jobs
      → ((x : Bytes) → is_member x before ≡ true → s.phase x ≡ closed)
      → ((x : Bytes) → is_member x (before ++ jobs) ≡ true → s.phase x ≡ closed) ⊎ CanGo plan s
  first-CanGo before [] h ordered members done =
      inl (λ x m. done x (subst (λ l. is_member x l ≡ true) (append-nil before) m))
  first-CanGo before (job ∷ jobs) h ordered members done = elim (closed-cases (s.phase job)) [
    | inr d ↦ inr (
        open-CanGo job (s.phase job) h members.0
          (All-map _ (IsSettled plan s) (plan.jobs.needs job) (λ need m _. done need m) ordered.0.2)
          refl d)
    | inl e ↦
        let rest = first-CanGo (before ++ job ∷ []) jobs h ordered.1 members.1 (λ x m.
          elim (is_member-snoc x job before m) [
            | inl old ↦ done x old
            | inr same ↦ subst (λ y. s.phase y ≡ closed) (sym same) e
          ]) in
        subst (λ l. ((x : Bytes) → is_member x l ≡ true → s.phase x ≡ closed) ⊎ CanGo plan s)
          (append_assoc before (job ∷ []) jobs) rest
  ]

-- In a run of a workflow without errors, at any time, all goroutines have returned or one of them
-- can take a step that does not cancel the run: no cycle of needs and no lack of slots blocks them.
pub run-CanGo :
    (plan : Plan) (s : RunState) → IsPlanned plan → Reach plan s → IsOver plan s ⊎ CanGo plan s
run-CanGo plan s h reach =
    first-CanGo plan s [] (run_order plan) (busy-IsCounted plan s h reach)
      (IsPlanned-IsSound plan h).ordered (members_self (run_order plan))
      λ x m. absurd (member-nil x m)
