-- ===== src/Access/Levels.antt =====
-- The checks of access_control.go: how the levels of access relate, and what refusals give.
use open_git.Base.{
  ℕ, ◌≡◌, ◌<◌, ◌^◌, ◌==◌, refl, Bool, true, false, ◌||◌, not, Option, none, some, String, str_eq,
  str_eq_iff, if◌then◌else◌, Bool-cases, inl, inr, arith, ◌⊎◌, subst, sym,
}
use open_git.Access.{
  RepoAccess, RepoRef, Repository, not_found, forbidden, is_owner, answer, org_role, collab_perm,
  can_read, can_write, can_admin, ref_from_entity, ensure_read, ensure_write, ensure_admin,
  ensure_org_member, ensure_org_admin, int64_to_uuid, uuid_to_int64,
}

-- A text that equals a word is not empty.
nonempty : (s word : String) → str_eq word "" ≡ false → str_eq s word ≡ true → str_eq s "" ≡ false
nonempty s word h e = subst (λ w. str_eq w "" ≡ false) (sym ((str_eq_iff s word).0 e)) h

-- Who may administer a repository may write to it, and who may write to it may read it.
pub can_write-nested :
    (a : Option RepoAccess) (user_id : ℕ) (r : RepoRef)
    → (can_admin a user_id r ≡ true → can_write a user_id r ≡ true)
      × (can_write a user_id r ≡ true → can_read a user_id r ≡ true)
unfolding can_read can_write can_admin str_eq
can_write-nested none user_id r = (λ h. refl, λ h. refl)
can_write-nested (some a) user_id r =
    let role = org_role a r.org_id user_id in
    let perm = collab_perm a r.id user_id in
    let f = nonempty role "owner" refl in
    let g = nonempty role "admin" refl in
    let k = nonempty perm "write" refl in
    let l = nonempty perm "admin" refl in
    (λ h. ground (arith, h), λ h. ground (arith, h, f, g, k, l))

answer-anonymous : (lookup : Option (ℕ → ℕ → Option String)) (id : ℕ) → answer lookup id 0 ≡ ""
unfolding answer
answer-anonymous none id = refl
answer-anonymous (some lookup) id = refl

-- A request without a user is refused by every check but a read of a public repository, with the
-- statuses 404 for reads and membership and 403 for writes and administration.
ensure-anonymous :
    (a : RepoAccess) (repo : Repository) (org_id : ℕ)
    → (ensure_read (some a) 0 repo
        ≡ (if str_eq repo.visibility "private" then some not_found else none))
      × (ensure_write (some a) 0 repo ≡ some forbidden)
      × (ensure_admin (some a) 0 repo ≡ some forbidden)
      × (ensure_org_member (some a) org_id 0 ≡ some not_found)
      × (ensure_org_admin (some a) org_id 0 ≡ some forbidden)
unfolding can_read can_write can_admin ensure_org_member ensure_org_admin str_eq
ensure-anonymous a repo org_id =
    let m : (id : ℕ) → answer a.memberships id 0 ≡ "" = answer-anonymous a.memberships in
    let c : (id : ℕ) → answer a.collaborators id 0 ≡ "" = answer-anonymous a.collaborators in
    (
      elim (Bool-cases (str_eq repo.visibility "private")) [
        | inl e ↦ rw (e, can_read, m repo.organization_id, c repo.id) refl
        | inr e ↦ rw (e, can_read) refl
      ],
      rw (can_write, m repo.organization_id, c repo.id) refl,
      rw (can_admin, m repo.organization_id, c repo.id) refl,
      rw (m org_id) refl,
      rw (m org_id) refl,
    )

answer-refused :
    (lookup : Option (ℕ → ℕ → Option String)) (id user_id : ℕ)
    → ((f : ℕ → ℕ → Option String) → lookup ≡ some f → f id (int64_to_uuid user_id) ≡ none)
    → answer lookup id user_id ≡ ""
unfolding answer
answer-refused none id user_id h = refl
answer-refused (some f) id user_id h = elim (Bool-cases (user_id == 0)) [
  | inl e ↦ rw e refl
  | inr e ↦ let failed = h f refl in rw (e, rw e at failed) refl
]

-- When both lookups fail for a user, each of the three levels is the owner's alone, reads of a
-- public repository aside.
levels-refused :
    (a : RepoAccess) (user_id : ℕ) (r : RepoRef)
    → ((f : ℕ → ℕ → Option String)
        → a.memberships ≡ some f
        → f r.org_id (int64_to_uuid user_id) ≡ none)
    → ((f : ℕ → ℕ → Option String)
        → a.collaborators ≡ some f
        → f r.id (int64_to_uuid user_id) ≡ none)
    → (can_read (some a) user_id r ≡ (not r.private || is_owner user_id r))
      × (can_write (some a) user_id r ≡ is_owner user_id r)
      × (can_admin (some a) user_id r ≡ is_owner user_id r)
unfolding can_read can_write can_admin str_eq
levels-refused a user_id r no_role no_permission =
    let m = answer-refused a.memberships r.org_id user_id no_role in
    let c = answer-refused a.collaborators r.id user_id no_permission in
    (
      rw (can_read, m, c) (reads r.private (is_owner user_id r)),
      rw (can_write, m, c) (owns (is_owner user_id r)),
      rw (can_admin, m, c) (owns (is_owner user_id r)),
    )
  where
    reads : (p o : Bool) → (if not p then true else if o then true else false) ≡ (not p || o)
    reads p o = ground arith

    owns : (o : Bool) → (if o then true else false) ≡ o
    owns o = ground arith

uuid_to_int64-int64_to_uuid : (id : ℕ) → id < 2 ^ 64 → uuid_to_int64 (int64_to_uuid id) ≡ id
uuid_to_int64-int64_to_uuid id h = ground (arith, h)

-- A user's id comes back from its UUID, so the user whose UUID a repository names as its owner,
-- or as its organization, has every level of access.
levels-own :
    (a : Option RepoAccess) (user_id : ℕ) (repo : Repository)
    → 0 < user_id
    → user_id < 2 ^ 64
    → (repo.owner_id ≡ int64_to_uuid user_id) ⊎ (repo.organization_id ≡ int64_to_uuid user_id)
    → (ensure_read a user_id repo ≡ none)
      × (ensure_write a user_id repo ≡ none)
      × (ensure_admin a user_id repo ≡ none)
unfolding can_read can_write can_admin
levels-own none user_id repo positive low own = (refl, refl, refl)
levels-own (some a) user_id repo positive low own =
    let owner : is_owner user_id (ref_from_entity repo) ≡ true = owns own in
    (
      elim (Bool-cases (str_eq repo.visibility "private")) [
        | inl e ↦ rw (e, can_read, owner) refl
        | inr e ↦ rw (e, can_read) refl
      ],
      rw (can_write, owner) refl,
      rw (can_admin, owner) refl,
    )
  where
    owns :
        (repo.owner_id ≡ int64_to_uuid user_id) ⊎ (repo.organization_id ≡ int64_to_uuid user_id)
        → is_owner user_id (ref_from_entity repo) ≡ true
    owns (inl e) = rw e (ground (arith, uuid_to_int64-int64_to_uuid user_id low, positive))
    owns (inr e) = rw e (ground (arith, positive))
