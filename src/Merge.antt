-- ===== src/Merge.antt =====
-- backend/internal/usecase/pr/merge_pr_usecase.go: who may merge a pull request, and when.
--
-- UUIDs are numbers with 0 for `uuid.Nil`. What the repositories, the git service and the
-- transaction manager answer is a record; the calls that change something are listed in order. The
-- repositories write through their own connections, not through the transaction in the context.
use open_git.Base.{
  ℕ, ◌==◌, ltb, Bool, true, false, ◌&&◌, ◌||◌, not, List, [], ◌∷◌, ◌++◌, Bytes, codes, contains,
  bytes_eq, is_member, reverse, Option, none, some, String, str_eq, if◌then◌else◌,
}
use open_git.Merge.GitPath.{validate_git_path}
pub mod GitPath
pub mod Guards
pub mod Outcomes

pub record MergePrInput : Type 0 where
  pub organization_id : ℕ
  pub repository_id : ℕ
  pub git_path : Bytes
  pub actor_id : ℕ
  pub number : ℕ
  pub merge_method : String

pub record PullRequest : Type 0 where
  pub id : ℕ
  pub state : String
  pub base_ref : String
  pub head_ref : String
  pub merged_by : Option ℕ
  pub merge_commit_sha : String

pub record BranchProtection : Type 0 where
  pub required_approving_reviews : ℕ
  pub required_status_checks : List Bytes

pub record WorkflowRun : Type 0 where
  pub workflow : Bytes
  pub conclusion : String

pub data MergeError : Type 0 where
  validation : MergeError
  forbidden : MergeError
  already_merged : MergeError
  protection_not_satisfied : MergeError
  conflict : MergeError
  other_error : String → MergeError

pub data RoleAnswer : Type 0 where
  role : String → RoleAnswer
  role_not_found : RoleAnswer
  role_error : String → RoleAnswer

pub data ProtectionAnswer : Type 0 where
  protected : BranchProtection → ProtectionAnswer
  no_protection : ProtectionAnswer
  protection_not_found : ProtectionAnswer
  protection_error : String → ProtectionAnswer

pub data MergeAnswer : Type 0 where
  merged_as : String → MergeAnswer
  merge_conflict : MergeAnswer
  merge_error : String → MergeAnswer

-- An answer, or an error that is passed on.
pub data Answer (A : Type 0) : Type 0 where
  ok : A → Answer A
  err : MergeError → Answer A

-- How `Execute` ends; a panic is that of a pull request that is nil.
pub data Ending : Type 0 where
  returns : PullRequest → Ending
  fails : MergeError → Ending
  panics : Ending

pub data Change : Type 0 where
  git_merge : Bytes → String → String → String → Change
  audit : String → ℕ → Change
  set_merged : ℕ → ℕ → String → Change

pub record Services : Type 0 where
  pub get_role : ℕ → ℕ → RoleAnswer
  pub get_by_number : ℕ → ℕ → Answer (Option PullRequest)  -- nil and no error for a missing row
  pub get_by_branch : ℕ → String → ProtectionAnswer
  pub count_satisfied_reviews : ℕ → Answer ℕ
  pub resolve_ref : Bytes → String → Answer String
  pub list_by_head_sha : ℕ → String → Answer (List WorkflowRun)
  pub merge : Bytes → String → String → String → MergeAnswer
  pub begin_answer : Option MergeError
  pub set_merged_answer : Option MergeError
  pub audit_answer : Option MergeError
  pub commit_answer : Option MergeError

unfoldable pub answer_then : {A B : Type 0} → Answer A → (A → Answer B) → Answer B
answer_then (ok a) f = f a
answer_then (err e) f = err e

-- `checkActorWriteAccess`; `none` is a nil error.
unfoldable pub check_actor_write_access : Services → ℕ → ℕ → Option MergeError
check_actor_write_access services organization_id actor_id =
    if not (organization_id == 0) && (organization_id == actor_id)
    then none
    else elim (services.get_role organization_id actor_id) [
      | role_not_found ↦ some forbidden
      | role_error e ↦ some (other_error e)
      | role r ↦ if not (str_eq r "owner") && not (str_eq r "admin") then some forbidden else none
    ]

-- The keys of the map `passed`.
unfoldable pub passed : List WorkflowRun → List Bytes
passed [] = []
passed (run ∷ runs) =
    let rest = passed runs in if str_eq run.conclusion "success" then run.workflow ∷ rest else rest

unfoldable pub all_in : List Bytes → List Bytes → Bool
all_in [] done = true
all_in (check ∷ required) done = if not (is_member check done) then false else all_in required done

abbrev pub all_required_checks_passed : List Bytes → List WorkflowRun → Bool
all_required_checks_passed required runs = all_in required (passed runs)

unfoldable pub is_empty : List Bytes → Bool
is_empty [] = true
is_empty (_ ∷ _) = false

abbrev pub failure : {A : Type 0} → Answer A → (A → Option MergeError) → Option MergeError
failure (ok a) f = f a
failure (err e) f = some e

-- The last part of `checkBranchProtection`, on the head that the ref names.
unfoldable pub check_runs : Services → ℕ → List Bytes → String → Option MergeError
check_runs services repository_id required head_sha =
    failure (services.list_by_head_sha repository_id head_sha) λ runs.
      if not (all_required_checks_passed required runs) then some protection_not_satisfied else none

unfoldable pub check_protection :
    Services → ℕ → Bytes → PullRequest → BranchProtection → Option MergeError
unfolding is_empty
check_protection services repository_id git_path pr protection =
    failure (services.count_satisfied_reviews pr.id) λ satisfied.
      if ltb satisfied protection.required_approving_reviews
      then some protection_not_satisfied
      else if is_empty protection.required_status_checks
      then none
      else failure (services.resolve_ref git_path pr.head_ref)
          (check_runs services repository_id protection.required_status_checks)

unfoldable pub check_branch_protection : Services → ℕ → Bytes → PullRequest → Option MergeError
check_branch_protection services repository_id git_path pr =
    elim (services.get_by_branch repository_id pr.base_ref) [
      | protection_not_found ↦ none
      | protection_error e ↦ some (other_error e)
      | no_protection ↦ none
      | protected protection ↦ check_protection services repository_id git_path pr protection
    ]

-- The changes that stand at the end, and how it ends.
pub record Outcome : Type 0 where
  pub changes : List Change
  pub answer : Ending

abbrev pub refuse : MergeError → Outcome
refuse e = record { changes = []; answer = fails e }

-- The pull request that `Execute` returns.
abbrev pub as_merged : PullRequest → ℕ → String → PullRequest
as_merged pr actor_id sha = record pr {
  state = "merged";
  merged_by = some actor_id;
  merge_commit_sha = sha;
}

-- The call of `RunInTx`, behind the merge in git. Its transaction holds no write: `SetMerged` and
-- the audit have written by themselves, and what they wrote stands whatever fails behind them.
unfoldable pub record_merge : Services → MergePrInput → PullRequest → String → Outcome
record_merge services input pr sha =
    let done = git_merge input.git_path pr.base_ref pr.head_ref sha in
    let set = set_merged pr.id input.actor_id sha in
    let audited = audit "pr.merge" pr.id in
    elim services.begin_answer [
      | some e ↦ record { changes = done ∷ []; answer = fails e }
      | none ↦ elim services.set_merged_answer [
        | some e ↦ record { changes = done ∷ []; answer = fails e }
        | none ↦ elim services.audit_answer [
          | some e ↦ record { changes = done ∷ set ∷ []; answer = fails e }
          | none ↦ elim services.commit_answer [
            | some e ↦ record { changes = done ∷ set ∷ audited ∷ []; answer = fails e }
            | none ↦ record {
              changes = done ∷ set ∷ audited ∷ [];
              answer = returns (as_merged pr input.actor_id sha);
            }
          ]
        ]
      ]
    ]

-- The audit of a failed merge, whose own error is dropped.
unfoldable pub audit_failure : Services → PullRequest → MergeError → Outcome
audit_failure services pr e = record {
  changes = elim services.audit_answer [ none ↦ audit "pr.merge.failed" pr.id ∷ [] | some _ ↦ [] ];
  answer = fails e;
}

abbrev pub method_of : MergePrInput → String
method_of input = if str_eq input.merge_method "" then "merge" else input.merge_method

unfoldable pub merge_pr : Services → MergePrInput → PullRequest → Outcome
merge_pr services input pr =
    elim (services.merge input.git_path pr.base_ref pr.head_ref (method_of input)) [
      | merged_as sha ↦ record_merge services input pr sha
      | merge_conflict ↦ audit_failure services pr conflict
      | merge_error e ↦ audit_failure services pr (other_error e)
    ]

unfoldable pub unless : Option MergeError → Outcome → Outcome
unless none next = next
unless (some e) next = refuse e

-- A pull request that is missing is nil, and its state is read.
unfoldable pub merge_loaded : Services → MergePrInput → Answer (Option PullRequest) → Outcome
merge_loaded services input (err e) = refuse e
merge_loaded services input (ok none) = record { changes = []; answer = panics }
merge_loaded services input (ok (some pr)) =
    if str_eq pr.state "merged"
    then refuse already_merged
    else unless (check_branch_protection services input.repository_id input.git_path pr)
        (merge_pr services input pr)

-- `MergePRUsecase.Execute`
unfoldable pub execute : Services → MergePrInput → Outcome
execute services input =
    if not (validate_git_path input.git_path)
    then refuse validation
    else unless (check_actor_write_access services input.organization_id input.actor_id)
        (merge_loaded services input (services.get_by_number input.repository_id input.number))
