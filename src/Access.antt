-- ===== src/Access.antt =====
-- backend/internal/handler/access_control.go: who may read, write and administer a repository, and
-- the two conversions of backend/internal/middleware/auth_middleware.go between ids of users.
--
-- A UUID is its 128-bit number, most significant byte first, and an int64 its 64-bit pattern.
use open_git.Base.{
  ℕ, ◌%◌, ◌^◌, ◌==◌, Bool, true, false, ◌&&◌, ◌||◌, not, Option, none, some, String, str_eq,
  if◌then◌else◌,
}
pub mod Levels

abbrev pub int64_to_uuid : ℕ → ℕ
int64_to_uuid id = if id == 0 then 0 else id % 2 ^ 64

abbrev pub uuid_to_int64 : ℕ → ℕ
uuid_to_int64 id = id % 2 ^ 64

-- The two lookups by UUID of an organization or a repository and of a user. `none` is a nil
-- interface for the field, and an error for an answer.
pub record RepoAccess : Type 0 where
  pub memberships : Option (ℕ → ℕ → Option String)
  pub collaborators : Option (ℕ → ℕ → Option String)

pub record RepoRef : Type 0 where
  pub id : ℕ
  pub org_id : ℕ
  pub owner_user_id : ℕ
  pub private : Bool

-- The fields of `entity.Repository` that matter here.
pub record Repository : Type 0 where
  pub id : ℕ
  pub organization_id : ℕ
  pub owner_id : ℕ
  pub visibility : String

abbrev pub ref_from_entity : Repository → RepoRef
ref_from_entity repo = record {
  id = repo.id;
  org_id = repo.organization_id;
  owner_user_id = uuid_to_int64 repo.owner_id;
  private = str_eq repo.visibility "private";
}

abbrev pub is_owner : ℕ → RepoRef → Bool
is_owner user_id r =
    not (user_id == 0) && ((user_id == r.owner_user_id) || (int64_to_uuid user_id == r.org_id))

-- The body that `orgRole` and `collabPerm` share: the empty text when there is nothing to ask,
-- nobody to ask about, or an error.
unfoldable pub answer : Option (ℕ → ℕ → Option String) → ℕ → ℕ → String
answer none id user_id = ""
answer (some lookup) id user_id =
    if user_id == 0
    then ""
    else elim (lookup id (int64_to_uuid user_id)) [ none ↦ "" | some found ↦ found ]

abbrev pub org_role : RepoAccess → ℕ → ℕ → String
org_role a org_id user_id = answer a.memberships org_id user_id

abbrev pub collab_perm : RepoAccess → ℕ → ℕ → String
collab_perm a repo_id user_id = answer a.collaborators repo_id user_id

abbrev pub manages : String → Bool
manages role = str_eq role "owner" || str_eq role "admin"

unfoldable pub can_read : Option RepoAccess → ℕ → RepoRef → Bool
can_read none user_id r = true
can_read (some a) user_id r =
    if not r.private
    then true
    else if is_owner user_id r
    then true
    else if not (str_eq (org_role a r.org_id user_id) "")
    then true
    else not (str_eq (collab_perm a r.id user_id) "")

unfoldable pub can_write : Option RepoAccess → ℕ → RepoRef → Bool
can_write none user_id r = true
can_write (some a) user_id r =
    if is_owner user_id r
    then true
    else if manages (org_role a r.org_id user_id)
    then true
    else (let perm = collab_perm a r.id user_id in str_eq perm "write" || str_eq perm "admin")

unfoldable pub can_admin : Option RepoAccess → ℕ → RepoRef → Bool
can_admin none user_id r = true
can_admin (some a) user_id r =
    if is_owner user_id r
    then true
    else if manages (org_role a r.org_id user_id)
    then true
    else str_eq (collab_perm a r.id user_id) "admin"

pub data HttpError : Type 0 where
  forbidden : HttpError
  not_found : HttpError

abbrev pub ensure_read : Option RepoAccess → ℕ → Repository → Option HttpError
ensure_read a user_id repo =
    if can_read a user_id (ref_from_entity repo) then none else some not_found

abbrev pub ensure_write : Option RepoAccess → ℕ → Repository → Option HttpError
ensure_write a user_id repo =
    if can_write a user_id (ref_from_entity repo) then none else some forbidden

abbrev pub ensure_admin : Option RepoAccess → ℕ → Repository → Option HttpError
ensure_admin a user_id repo =
    if can_admin a user_id (ref_from_entity repo) then none else some forbidden

-- A repository of the git layer holds the owner's int64 itself.
pub record ResolvedGitRepository : Type 0 where
  pub id : ℕ
  pub organization_id : ℕ
  pub owner_id : ℕ
  pub visibility : String

abbrev pub ensure_read_git : Option RepoAccess → ℕ → ResolvedGitRepository → Option HttpError
ensure_read_git a user_id repo =
    let r : RepoRef = record {
      id = repo.id;
      org_id = repo.organization_id;
      owner_user_id = repo.owner_id;
      private = str_eq repo.visibility "private";
    } in
    if can_read a user_id r then none else some not_found

abbrev own_namespace : ℕ → ℕ → Bool
own_namespace org_id user_id = not (user_id == 0) && (int64_to_uuid user_id == org_id)

unfoldable pub ensure_org_member : Option RepoAccess → ℕ → ℕ → Option HttpError
ensure_org_member none org_id user_id = none
ensure_org_member (some a) org_id user_id =
    if own_namespace org_id user_id
    then none
    else if not (str_eq (org_role a org_id user_id) "")
    then none
    else some not_found

unfoldable pub ensure_org_admin : Option RepoAccess → ℕ → ℕ → Option HttpError
ensure_org_admin none org_id user_id = none
ensure_org_admin (some a) org_id user_id =
    if own_namespace org_id user_id
    then none
    else if manages (org_role a org_id user_id)
    then none
    else some forbidden
