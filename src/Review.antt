-- ===== src/Review.antt =====
-- backend/internal/usecase/pr/create_review_usecase.go: who may review a pull request, and how.
--
-- UUIDs are numbers with 0 for `uuid.Nil`. What the repositories answer is a record, with the upper
-- case of Unicode; the calls that change something are listed in order.
use open_git.Base.{
  ℕ, ◌==◌, Bool, true, false, ◌&&◌, ◌||◌, not, List, [], ◌∷◌, ◌++◌, Option, none, some, String,
  str_eq, if◌then◌else◌,
}
pub mod Stored

pub record ReviewInput : Type 0 where
  pub organization_id : ℕ
  pub repository_id : ℕ
  pub number : ℕ
  pub actor_id : ℕ
  pub event : String
  pub body : String

pub record ReviewedPr : Type 0 where
  pub id : ℕ
  pub organization_id : ℕ
  pub author_id : ℕ
  pub state : String
  pub head_sha : String

pub record Review : Type 0 where
  pub pull_request_id : ℕ
  pub reviewer_id : ℕ
  pub state : String
  pub body : String
  pub commit_sha : String

pub data ReviewError : Type 0 where
  forbidden : ReviewError
  not_found : ReviewError
  validation : ReviewError
  other_error : String → ReviewError

-- The answer of `GetRole`: a role, `domain.ErrNotFound`, or another error.
pub data MemberAnswer : Type 0 where
  member : String → MemberAnswer
  no_member : MemberAnswer
  member_error : String → MemberAnswer

pub data ReviewAnswer (A : Type 0) : Type 0 where
  ok : A → ReviewAnswer A
  err : ReviewError → ReviewAnswer A

pub data ReviewChange : Type 0 where
  store_review : Review → ReviewChange
  audit : String → ℕ → ReviewChange

pub record ReviewServices : Type 0 where
  pub get_role : ℕ → ℕ → MemberAnswer
  pub get_by_number : ℕ → ℕ → ReviewAnswer (Option ReviewedPr)  -- nil and no error for a missing row
  pub create_answer : Option ReviewError
  pub audit_answer : Option ReviewError
  pub to_upper : String → String  -- `strings.ToUpper`

-- How `Execute` ends; a panic is that of a pull request that is nil.
pub data ReviewEnding : Type 0 where
  returns : Review → ReviewEnding
  fails : ReviewError → ReviewEnding
  panics : ReviewEnding

pub record ReviewOutcome : Type 0 where
  pub changes : List ReviewChange
  pub answer : ReviewEnding

abbrev pub reject : ReviewError → ReviewOutcome
reject e = record { changes = []; answer = fails e }

-- `checkActorAccess`; `none` is a nil error.
unfoldable pub check_actor_access : ReviewServices → ℕ → ℕ → Option ReviewError
check_actor_access services organization_id actor_id =
    if not (organization_id == 0) && (organization_id == actor_id)
    then none
    else elim (services.get_role organization_id actor_id) [
      | no_member ↦ some forbidden
      | member_error e ↦ some (other_error e)
      | member r ↦ none
    ]

-- The map `reviewEventToState`.
unfoldable pub review_event_to_state : String → Option String
review_event_to_state event =
    if str_eq event "APPROVE"
    then some "APPROVED"
    else if str_eq event "REQUEST_CHANGES"
    then some "CHANGES_REQUESTED"
    else if str_eq event "COMMENT"
    then some "COMMENTED"
    else none

abbrev pub decides : String → Bool
decides state = str_eq state "APPROVED" || str_eq state "CHANGES_REQUESTED"

abbrev action_of : String → String
action_of state =
    if str_eq state "CHANGES_REQUESTED" then "pr.review.request_changes" else "pr.review.approve"

abbrev pub review_of : ReviewInput → ReviewedPr → String → Review
review_of input pr state = record {
  pull_request_id = pr.id;
  reviewer_id = input.actor_id;
  state = state;
  body = input.body;
  commit_sha = pr.head_sha;
}

-- The audit behind a stored review. There is no transaction: the review stays.
unfoldable pub audit_review : ReviewServices → ReviewedPr → Review → ReviewOutcome
audit_review services pr review =
    if decides review.state
    then elim services.audit_answer [
      | some e ↦ record { changes = store_review review ∷ []; answer = fails e }
      | none ↦ record {
        changes = store_review review ∷ audit (action_of review.state) pr.id ∷ [];
        answer = returns review;
      }
    ]
    else record { changes = store_review review ∷ []; answer = returns review }

unfoldable pub save_review : ReviewServices → ReviewedPr → Review → ReviewOutcome
save_review services pr review = elim services.create_answer [
  | some e ↦ reject e
  | none ↦ audit_review services pr review
]

unfoldable pub review_as : ReviewServices → ReviewInput → ReviewedPr → Option String → ReviewOutcome
review_as services input pr none = reject validation
review_as services input pr (some state) =
    if (input.actor_id == pr.author_id) && decides state
    then reject forbidden
    else save_review services pr (review_of input pr state)

-- A pull request that is missing is nil, and its organization is read.
unfoldable pub review_loaded :
    ReviewServices → ReviewInput → ReviewAnswer (Option ReviewedPr) → ReviewOutcome
review_loaded services input (err e) = reject e
review_loaded services input (ok none) = record { changes = []; answer = panics }
review_loaded services input (ok (some pr)) =
    if not (pr.organization_id == input.organization_id)
    then reject not_found
    else if str_eq pr.state "closed" || str_eq pr.state "merged"
    then reject validation
    else review_as services input pr (review_event_to_state (services.to_upper input.event))

-- `CreateReviewUsecase.Execute`
unfoldable pub create_review : ReviewServices → ReviewInput → ReviewOutcome
create_review services input =
    elim (check_actor_access services input.organization_id input.actor_id) [
      | some e ↦ reject e
      | none ↦
          review_loaded services input (services.get_by_number input.repository_id input.number)
    ]
