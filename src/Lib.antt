-- ===== src/Lib.antt =====
-- Verification library of the open-git backend, a Git hosting service with a CI engine that runs
-- workflows in the language of GitHub Actions.
--
-- The parts, with the code each models (paths from the repository's root):
--
-- Workflow is backend/internal/infrastructure/workflow. A workflow's jobs are ordered by `buildDAG`
-- (Workflow/Dag, with the search of `detectCycleMessage` in Workflow/Dag/Cycle) and multiplied by
-- `expandMatrix` (Workflow/Matrix), both of parser.go. The texts of its steps hold spans `${{ … }}`:
-- Workflow/Expression is the parser of expression.go (`exprParser`, `ParseExpression`), Workflow/Eval
-- the evaluator of expression_eval.go (`EvaluateExpression`, `evalBinary`, `evalCall`, `formatFn`),
-- and Workflow/Interpolate what finds and replaces the spans (`InterpolateString`,
-- `EvaluateCondition`, `findExprEnd`, and `ExtractExpressions` of expression.go). Parser, evaluator
-- and interpolation are composed as the code composes them.
--
-- Actions/Schedule is backend/internal/infrastructure/queue/workflow_schedule_handler.go: after each
-- change of a job, `HandleWorkflowSchedule` enqueues the jobs that have become ready, or completes
-- the run. The repositories and the queue are a record of answers, and the calls made are a list.
--
-- Actions/Trigger is backend/internal/infrastructure/ci/trigger.go: the runs that `OnPush`,
-- `DispatchWorkflow` and `Redispatch` create and hand to the worker, as a list of effects.
--
-- Worker is backend/internal/worker/ci_worker.go, which executes a run. Worker/Handle is `HandleCIRun`
-- around the jobs: its guards, and the updates of the row of the run, with `Cancel` and `Rerun` of
-- backend/internal/infrastructure/repository/workflow_run_repository.go and their use cases of
-- backend/internal/usecase/workflow/get_run_usecase.go. Worker/Run is the goroutines of the jobs: a
-- state is what they share and where each stands, `Step` is what one of them does next (`skipJob`,
-- `firstUnsatisfiedNeed`, the semaphore `sem`, the loop over the instances, `setFatal`), and `Reach`
-- the states that any interleaving leads to. The order of the jobs is that of Workflow/Dag.
-- Worker/Steps is `runJobSteps` and `runUsesStep`, which use the conditions and the interpolation of
-- Workflow, the environments of Worker/Env (`mergeStringMaps`, `buildStepEnv`, `parseEnvToMap`) and
-- the masking of Worker/Mask (`maskSecrets`); Worker/Secrets is `loadSecrets`, and Worker/Whole says
-- when a `Plan` is that of a workflow's conditions and steps. The shells, git and docker are fields of
-- `Worker.Steps.Machine`, which answer what a command prints and its error, and each instance of a job
-- has a machine of its own. So are the order in which Go meets the entries of an environment, and the
-- text of an error of a condition.
--
-- Access is backend/internal/handler/access_control.go, with the conversions of ids of
-- backend/internal/middleware/auth_middleware.go: what a user may do to a repository.
--
-- Merge is backend/internal/usecase/pr/merge_pr_usecase.go, with `validateGitPath` (Merge/GitPath) of
-- create_pr_usecase.go: the guards of a merge, and what it changes. Its services are a record of
-- answers. The transaction of backend/internal/infrastructure/repository/transaction_manager.go holds
-- no write, since the repositories do not take it from the context: what they have written stands when
-- a later call or the commit fails. A pull request that is missing is nil, on which `Execute` panics,
-- as that of Review does.
--
-- Review is backend/internal/usecase/pr/create_review_usecase.go: who may review a pull request, and
-- what is stored of the review.
--
-- Limits/RateLimit is backend/internal/middleware/rate_limit_middleware.go, and Limits/CodeStore the
-- store in memory of backend/internal/infrastructure/kvstore/code_store.go; Limits/AuthRateLimit is
-- backend/internal/middleware/auth_rate_limit_middleware.go. All three hold maps under locks: runs are
-- lists of calls in the order of the lock, each with the times that it reads.
--
-- Base holds what the modules share; Tests runs the code at concrete inputs and applies theorems there.
--
-- A Go string that is walked is a list of bytes (`Bytes`), and one that is only compared a `String`;
-- a map is a function or an association list; an error is a constructor. float64 and the Unicode case
-- tables are the fields of `Workflow.Eval.Runtime`, and SHA-256 is the field of
-- `Limits.RateLimit.Hashing`. Times are natural numbers of nanoseconds, which do not overflow here.
-- The degrees of `buildDAG` are natural numbers: a degree counts the needs that are not in the order yet,
-- and each round takes off one for each time that a job needs the one that runs.
--
-- Loops on fuel: the loops of the parser and of interpolation start with one more than the length of
-- the text, since each round passes a byte; the main loop of `buildDAG` starts with one more than the
-- number of jobs, since each round puts another job in the order.
-- The search of `detectCycleMessage` starts with the number of jobs, since each call marks another job.
-- Parsers are passed to the parsers below them, and the nesting of brackets takes fuel in the same way.
--
-- The sink of a script is called from two goroutines without a lock, for stdout and stderr: its calls
-- are listed in the order of their writes, and each says which number it gives its line and which count
-- it leaves, since it may read a count that the other goroutine is changing. The writes themselves are
-- taken to be whole. Entries of the buffer are constructors, without the name of the job.
--
-- Not modelled: messages as texts (most are constructors), the reading of YAML documents, the
-- decryption of secrets and the sandbox of commands (parameters of the model), the times and the
-- metadata of logs, the other use cases and HTTP handlers, SQL other than the updates named above, the
-- git service, GraphQL, and the web frontend.
pub mod Base
pub mod Workflow
pub mod Actions
pub mod Access
pub mod Merge
pub mod Review
pub mod Limits
pub mod Worker
pub mod Tests
