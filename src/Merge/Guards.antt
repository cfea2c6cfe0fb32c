-- ===== src/Merge/Guards.antt =====
-- The two guards of a merge against what they are to ensure.
use open_git.Base.{
  ℕ, ◌≡◌, ◌≤◌, ◌<◌, ◌==◌, ltb, refl, true, ◌&&◌, not, List, [], ◌∷◌, Bytes, is_member, bytes_eq,
  bytes_eq_iff, none, some, String, str_eq, str_eq_iff, if◌then◌else◌, Bool-cases, inl, inr, arith,
  ◌⊎◌, sym, ap, ◌∙◌, All,
}
use open_git.Merge.{
  Services, PullRequest, BranchProtection, WorkflowRun, MergeError, forbidden, RoleAnswer, role,
  role_not_found, role_error, ProtectionAnswer, protected, no_protection, protection_not_found,
  protection_error, Answer, ok, err, check_actor_write_access, passed, all_in, is_empty, failure,
  check_runs, check_protection, check_branch_protection,
}

-- The owner of a personal namespace, or an owner or an admin of the organization.
abbrev pub MayWrite : Services → ℕ → ℕ → Type 0
MayWrite services organization_id actor_id =
    ((0 < organization_id) × (organization_id ≡ actor_id))
    ⊎ (services.get_role organization_id actor_id ≡ role "owner")
    ⊎ (services.get_role organization_id actor_id ≡ role "admin")

-- Some run of that workflow has succeeded.
abbrev pub HasPassed : List WorkflowRun → Bytes → Type 0
HasPassed [] check = ⊥
HasPassed (run ∷ runs) check =
    ((run.workflow ≡ check) × (run.conclusion ≡ "success")) ⊎ HasPassed runs check

passed-HasPassed :
    (runs : List WorkflowRun) (check : Bytes)
    → is_member check (passed runs) ≡ true
    → HasPassed runs check
unfolding passed is_member
passed-HasPassed [] check h = cc
passed-HasPassed (run ∷ runs) check h = elim (Bool-cases (str_eq run.conclusion "success")) [
  | inl e ↦ elim (Bool-cases (bytes_eq check run.workflow)) [
    | inl same ↦
        inl (
          sym ((bytes_eq_iff check run.workflow).0 same),
          (str_eq_iff run.conclusion "success").0 e,
        )
    | inr other ↦ inr (passed-HasPassed runs check (rw (e, other) at h))
  ]
  | inr e ↦ inr (passed-HasPassed runs check (rw e at h))
]

all_in-All :
    (required : List Bytes) (runs : List WorkflowRun)
    → all_in required (passed runs) ≡ true
    → All (HasPassed runs) required
unfolding all_in
all_in-All [] runs h = tt
all_in-All (check ∷ required) runs h = elim (Bool-cases (is_member check (passed runs))) [
  | inl e ↦ (passed-HasPassed runs check e, all_in-All required runs (rw e at h))
  | inr e ↦ absurd (let no = rw e at h in cc)
]

pub Answer-cases :
    {A : Type 0} (o : Answer A) → ((e : MergeError) × (o ≡ err e)) ⊎ ((a : A) × (o ≡ ok a))
Answer-cases (err e) = inl (e, refl)
Answer-cases (ok a) = inr (a, refl)

module _ (services : Services) (repository_id : ℕ) (git_path : Bytes) (pr : PullRequest) where
  -- Each required check has succeeded on the commit that the head names.
  abbrev pub ChecksPassed : List Bytes → Type 0
  ChecksPassed required =
      (required ≡ [])
      ⊎ ((sha : String) × (services.resolve_ref git_path pr.head_ref ≡ ok sha)
          × ((runs : List WorkflowRun) × (services.list_by_head_sha repository_id sha ≡ ok runs)
              × All (HasPassed runs) required))

  -- The base branch is not protected, or has the reviews and the checks that it requires.
  abbrev pub IsSatisfied : Type 0
  IsSatisfied =
      (services.get_by_branch repository_id pr.base_ref ≡ protection_not_found)
      ⊎ (services.get_by_branch repository_id pr.base_ref ≡ no_protection)
      ⊎ ((p : BranchProtection) × (services.get_by_branch repository_id pr.base_ref ≡ protected p)
          × ((reviews : ℕ) × (services.count_satisfied_reviews pr.id ≡ ok reviews)
              × (p.required_approving_reviews ≤ reviews)
              × ChecksPassed p.required_status_checks))

  check_runs-ChecksPassed :
      (required : List Bytes) (sha : String)
      → services.resolve_ref git_path pr.head_ref ≡ ok sha
      → check_runs services repository_id required sha ≡ none
      → ChecksPassed required
  unfolding check_runs
  check_runs-ChecksPassed required sha resolved h =
      elim (Answer-cases (services.list_by_head_sha repository_id sha)) [
        | inl e ↦ absurd (let no = rw e.1 at h in cc)
        | inr a ↦
            let (runs, listed) = a in
            let h' = rw listed at h in
            elim (Bool-cases (all_in required (passed runs))) [
              | inl k ↦ inr (sha, resolved, (runs, listed, all_in-All required runs k))
              | inr k ↦ absurd (let no = rw k at h' in cc)
            ]
      ]

  check_protection-ChecksPassed :
      (p : BranchProtection)
      → check_protection services repository_id git_path pr p ≡ none
      → (reviews : ℕ) × (services.count_satisfied_reviews pr.id ≡ ok reviews)
        × (p.required_approving_reviews ≤ reviews)
        × ChecksPassed p.required_status_checks
  unfolding check_protection
  check_protection-ChecksPassed p h = elim (Answer-cases (services.count_satisfied_reviews pr.id)) [
    | inl e ↦ absurd (let no = rw e.1 at h in cc)
    | inr a ↦
        let (reviews, counted) = a in
        let h' = rw counted at h in
        elim (Bool-cases (ltb reviews p.required_approving_reviews)) [
          | inl few ↦ absurd (let no = rw few at h' in cc)
          | inr enough ↦ (
            reviews,
            counted,
            ground (arith, enough),
            checks p.required_status_checks (rw enough at h'),
          )
        ]
  ]
    where
      checks :
          (required : List Bytes)
          → (if is_empty required
              then none
              else failure
                  (services.resolve_ref git_path pr.head_ref)
                  (check_runs services repository_id required))
            ≡ none
          → ChecksPassed required
      checks [] k = inl refl
      checks (check ∷ required) k =
          elim (Answer-cases (services.resolve_ref git_path pr.head_ref)) [
            | inl e ↦ absurd (let no = rw e.1 at k in cc)
            | inr a ↦ check_runs-ChecksPassed (check ∷ required) a.0 a.1 (rw a.1 at k)
          ]

  Protection-cases :
      (a : ProtectionAnswer)
      → (a ≡ protection_not_found)
        ⊎ (a ≡ no_protection)
        ⊎ ((e : String) × (a ≡ protection_error e))
        ⊎ ((p : BranchProtection) × (a ≡ protected p))
  Protection-cases protection_not_found = inl refl
  Protection-cases no_protection = inr (inl refl)
  Protection-cases (protection_error e) = inr (inr (inl (e, refl)))
  Protection-cases (protected p) = inr (inr (inr (p, refl)))

  pub check_branch_protection-IsSatisfied :
      check_branch_protection services repository_id git_path pr ≡ none → IsSatisfied
  unfolding check_branch_protection
  check_branch_protection-IsSatisfied h =
      elim (Protection-cases (services.get_by_branch repository_id pr.base_ref)) [
        | inl e ↦ inl e
        | inr (inl e) ↦ inr (inl e)
        | inr (inr (inl e)) ↦ absurd (let no = rw (e.1, check_branch_protection) at h in cc)
        | inr (inr (inr p)) ↦ inr (
            inr (
              p.0,
              p.1,
              check_protection-ChecksPassed p.0 (rw (p.1, check_branch_protection) at h),
            ))
      ]

module _ (services : Services) (organization_id actor_id : ℕ) where
  Role-cases :
      (a : RoleAnswer)
      → (a ≡ role_not_found) ⊎ ((e : String) × (a ≡ role_error e)) ⊎ ((r : String) × (a ≡ role r))
  Role-cases role_not_found = inl refl
  Role-cases (role_error e) = inr (inl (e, refl))
  Role-cases (role r) = inr (inr (r, refl))

  by_role :
      (r : String)
      → services.get_role organization_id actor_id ≡ role r
      → (if not (str_eq r "owner") && not (str_eq r "admin") then some forbidden else none) ≡ none
      → MayWrite services organization_id actor_id
  by_role r e h = elim (Bool-cases (str_eq r "owner")) [
    | inl o ↦ inr (inl (e ∙ ap role ((str_eq_iff r "owner").0 o)))
    | inr o ↦ elim (Bool-cases (str_eq r "admin")) [
      | inl a ↦ inr (inr (e ∙ ap role ((str_eq_iff r "admin").0 a)))
      | inr a ↦ absurd (let no = rw (o, a) at h in cc)
    ]
  ]

  pub check_actor_write_access-MayWrite :
      check_actor_write_access services organization_id actor_id ≡ none
      → MayWrite services organization_id actor_id
  unfolding check_actor_write_access
  check_actor_write_access-MayWrite h =
      elim (Bool-cases (not (organization_id == 0) && (organization_id == actor_id))) [
        | inl own ↦ inl (ground (arith, own))
        | inr other ↦
            let h' = rw other at h in
            elim (Role-cases (services.get_role organization_id actor_id)) [
              | inl e ↦ absurd (let no = rw e at h' in cc)
              | inr (inl e) ↦ absurd (let no = rw e.1 at h' in cc)
              | inr (inr r) ↦ by_role r.0 r.1 (rw r.1 at h')
            ]
      ]
