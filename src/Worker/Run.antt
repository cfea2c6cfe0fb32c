-- ===== src/Worker/Run.antt =====
-- The jobs of `HandleCIRun`: one goroutine each, that waits for the needs of its job, takes one of
-- eight slots and runs the instances of the job.
--
-- A state is what the goroutines share and where each of them stands; a step is what one of them
-- does between two points at which others can see it. The database may refuse to create a row at any
-- time, which cancels the run, and the context of the worker may end.
use open_git.Base.{
  ℕ, suc, ◌+◌, ◌-◌, ◌≡◌, ◌<◌, Bool, true, false, ◌||◌, ◌⊎◌, List, [], ◌∷◌, map, Option, none, some,
  Bytes, bytes_eq, is_member, All, length, ltb, if◌then◌else◌,
}
use open_git.Workflow.Matrix.{Combo}
use open_git.Workflow.Dag.{Jobs, DagInfo, sort_strings}
pub mod Shared
pub mod Facts
pub mod Order
pub mod Counts
pub mod Slots
pub mod Progress
pub mod Outcome
pub mod Sequential
pub mod Conclusion
pub mod Ends

pub data JobResult : Type 0 where
  success : JobResult
  failure : JobResult
  skipped : JobResult

-- What a run is given: the jobs with their graph, whether the condition of a job holds, the expansion
-- of its matrix, and which of its instances fail.
pub record Plan : Type 0 where
  pub jobs : Jobs
  pub dag : DagInfo
  pub holds : Bytes → Bool
  pub expansion : Bytes → List Combo
  pub fails : Bytes → Option Combo → Bool

-- `executing` has the instances that are left and whether one has failed; `closed` is a goroutine
-- that has returned, with its channel closed and its slot given back.
pub data Phase : Type 0 where
  waiting : Phase
  passed : Phase
  executing : List (Option Combo) → Bool → Phase
  closed : Phase

-- The map `jobResults` without the empty texts of missing keys, whether `conclusion` is a failure,
-- the slots of `sem` in use, and whether the run is cancelled.
pub record RunState : Type 0 where
  pub phase : Bytes → Phase
  pub results : Bytes → Option JobResult
  pub failed : Bool
  pub slots : ℕ
  pub cancelled : Bool

abbrev pub max_parallel_jobs : ℕ
max_parallel_jobs = 8

-- The order in which the goroutines are made.
abbrev pub run_order : Plan → List Bytes
run_order plan =
    if ltb (length plan.dag.order) (length plan.jobs.names)
    then sort_strings plan.jobs.names
    else plan.dag.order

abbrev pub put {ℓ} : {A : Type ℓ} → (Bytes → A) → Bytes → A → Bytes → A
put f k v x = if bytes_eq x k then v else f x

abbrev pub start : RunState
start = record {
  phase = λ _. waiting;
  results = λ _. none;
  failed = false;
  slots = 0;
  cancelled = false;
}

abbrev pub succeeded : Option JobResult → Bool
succeeded (some success) = true
succeeded _ = false

-- Whether `firstUnsatisfiedNeed` finds none.
unfoldable pub all_satisfied : (Bytes → Option JobResult) → List Bytes → Bool
all_satisfied results [] = true
all_satisfied results (need ∷ needs) =
    if succeeded (results need) then all_satisfied results needs else false

-- A job without a matrix has one instance.
unfoldable pub instances : List Combo → List (Option Combo)
instances [] = none ∷ []
instances (combo ∷ combos) = some combo ∷ map (λ c. some c) combos

abbrev pub skip : RunState → Bytes → RunState
skip s job = record s { phase = put s.phase job closed; results = put s.results job (some skipped) }

abbrev pub pass : RunState → Bytes → RunState
pass s job = record s { phase = put s.phase job passed }

abbrev pub acquire : Plan → RunState → Bytes → RunState
acquire plan s job = record s {
  phase = put s.phase job (executing (instances (plan.expansion job)) false);
  slots = s.slots + 1;
}

abbrev pub run_instance : RunState → Bytes → List (Option Combo) → Bool → RunState
run_instance s job left failed = record s { phase = put s.phase job (executing left failed) }

abbrev pub finish : RunState → Bytes → Bool → RunState
finish s job failed = record s {
  phase = put s.phase job closed;
  results = put s.results job (some (if failed then failure else success));
  failed = if failed then true else s.failed;
  slots = s.slots - 1;
}

-- A goroutine that returns without a result, with a slot or without one.
abbrev pub give_up : RunState → Bytes → ℕ → RunState
give_up s job held = record s { phase = put s.phase job closed; slots = s.slots - held }

abbrev pub cancel : RunState → RunState
cancel s = record s { cancelled = true }

-- A job without a goroutine, or whose goroutine has returned.
abbrev pub IsSettled : Plan → RunState → Bytes → Type 0
IsSettled plan s job = is_member job (run_order plan) ≡ true → s.phase job ≡ closed

-- The goroutine of a job has received from the channels of its needs.
abbrev pub IsReleased : Plan → RunState → Bytes → Type 0
IsReleased plan s job = All (IsSettled plan s) (plan.jobs.needs job)

-- What the goroutine of one job can do next.
pub data Step (plan : Plan) (s : RunState) (job : Bytes) (t : RunState) : Type 0 where
  skips_need :
      s.phase job ≡ waiting
      → IsReleased plan s job
      → all_satisfied s.results (plan.jobs.needs job) ≡ false
      → t ≡ skip s job
      → Step plan s job t
  skips_if :
      s.phase job ≡ waiting
      → IsReleased plan s job
      → all_satisfied s.results (plan.jobs.needs job) ≡ true
      → plan.holds job ≡ false
      → t ≡ skip s job
      → Step plan s job t
  passes :
      s.phase job ≡ waiting
      → IsReleased plan s job
      → all_satisfied s.results (plan.jobs.needs job) ≡ true
      → plan.holds job ≡ true
      → t ≡ pass s job
      → Step plan s job t
  acquires :
      s.phase job ≡ passed
      → s.slots < max_parallel_jobs
      → t ≡ acquire plan s job
      → Step plan s job t
  -- The commands of an instance are killed when the run is cancelled.
  runs :
      (combo : Option Combo) (left : List (Option Combo)) (failed bad : Bool)
      → s.phase job ≡ executing (combo ∷ left) failed
      → (s.cancelled ≡ false → bad ≡ plan.fails job combo)
      → t ≡ run_instance s job left (failed || bad)
      → Step plan s job t
  finishes :
      (failed : Bool)
      → s.phase job ≡ executing [] failed
      → t ≡ finish s job failed
      → Step plan s job t
  -- A row of a skipped job is refused: the result stands, and the run is cancelled.
  skip_refused :
      s.phase job ≡ waiting
      → IsReleased plan s job
      → all_satisfied s.results (plan.jobs.needs job) ≡ false ⊎ (plan.holds job ≡ false)
      → t ≡ cancel (skip s job)
      → Step plan s job t
  -- A row of an instance is refused.
  instance_refused :
      (combo : Option Combo) (left : List (Option Combo)) (failed : Bool)
      → s.phase job ≡ executing (combo ∷ left) failed
      → t ≡ cancel (give_up s job 1)
      → Step plan s job t
  -- The run is cancelled: a goroutine returns at one of its tests.
  returns :
      s.cancelled ≡ true
      → (s.phase job ≡ waiting) ⊎ (s.phase job ≡ passed)
      → t ≡ give_up s job 0
      → Step plan s job t
  returns_slot :
      (combo : Option Combo) (left : List (Option Combo)) (failed : Bool)
      → s.cancelled ≡ true
      → s.phase job ≡ executing (combo ∷ left) failed
      → t ≡ give_up s job 1
      → Step plan s job t

-- The states that a run can be in; `ends` is the end of the context that the worker is given.
pub data Reach (plan : Plan) : RunState → Type 0 where
  begins : Reach plan start
  goes :
      {s t : RunState} (job : Bytes)
      → Reach plan s
      → is_member job (run_order plan) ≡ true
      → Step plan s job t
      → Reach plan t
  ends : {s : RunState} → Reach plan s → s.cancelled ≡ false → Reach plan (cancel s)
