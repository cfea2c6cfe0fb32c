-- ===== src/Merge/Outcomes.antt =====
-- What `MergePRUsecase.Execute` changes, and when.
use open_git.Base.{
  ℕ, suc, ◌≡◌, refl, true, false, List, [], ◌∷◌, Option, none, some, Option-cases, String, str_eq,
  Bool-cases, inl, inr, ◌⊎◌, All, take,
}
use open_git.Merge.{
  Services, MergePrInput, PullRequest, MergeError, Answer, ok, err, MergeAnswer, merged_as,
  merge_conflict, merge_error, conflict, other_error, Ending, returns, fails, panics, Change,
  git_merge, audit, set_merged, Outcome, check_actor_write_access, check_branch_protection,
  as_merged, record_merge, audit_failure, method_of, merge_pr, unless, merge_loaded, execute,
}
use open_git.Merge.GitPath.{validate_git_path}
use open_git.Merge.Guards.{
  MayWrite, IsSatisfied, check_branch_protection-IsSatisfied, check_actor_write_access-MayWrite,
}

-- What must hold before anything is changed.
abbrev pub IsGuarded : Services → MergePrInput → Type 0
IsGuarded services input =
    (validate_git_path input.git_path ≡ true)
    × MayWrite services input.organization_id input.actor_id
    × ((pr : PullRequest) × (services.get_by_number input.repository_id input.number ≡ ok (some pr))
        × (str_eq pr.state "merged" ≡ false)
        × IsSatisfied services input.repository_id input.git_path pr)

unless-cases :
    (o : Option MergeError) (next : Outcome)
    → ((unless o next).changes ≡ []) ⊎ ((o ≡ none) × (unless o next ≡ next))
unfolding unless
unless-cases none next = inr (refl, refl)
unless-cases (some e) next = inl refl

module _ (services : Services) (input : MergePrInput) where
  loaded-IsGuarded :
      (a : Answer (Option PullRequest))
      → ((merge_loaded services input a).changes ≡ [])
        ⊎ ((pr : PullRequest) × (a ≡ ok (some pr))
            × (str_eq pr.state "merged" ≡ false)
            × IsSatisfied services input.repository_id input.git_path pr)
  unfolding merge_loaded
  loaded-IsGuarded (err e) = inl refl
  loaded-IsGuarded (ok none) = inl refl
  loaded-IsGuarded (ok (some pr)) = elim (Bool-cases (str_eq pr.state "merged")) [
    | inl e ↦ inl (rw (e, merge_loaded) refl)
    | inr e ↦
        elim (unless-cases (check_branch_protection services input.repository_id input.git_path pr)
          (merge_pr services input pr)) [
            | inl k ↦ inl (rw (e, merge_loaded) k)
            | inr k ↦ inr (
              pr,
              refl,
              e,
              check_branch_protection-IsSatisfied services input.repository_id input.git_path pr
                  k.0,
            )
          ]
  ]

  -- `Execute` changes nothing, neither in git nor in the database, unless the path is valid, the
  -- actor owns the namespace or is an owner or an admin of the organization, the pull request is
  -- found and not merged yet, and the protection of its base branch is satisfied: there is none, or
  -- there are the reviews that it requires and each check that it requires has succeeded.
  pub execute-IsGuarded : ((execute services input).changes ≡ []) ⊎ IsGuarded services input
  unfolding execute
  execute-IsGuarded = elim (Bool-cases (validate_git_path input.git_path)) [
    | inr e ↦ inl (rw (e, execute) refl)
    | inl e ↦
        elim (unless-cases (check_actor_write_access services input.organization_id input.actor_id)
          (merge_loaded services input (services.get_by_number input.repository_id input.number))) [
            | inl k ↦ inl (rw (e, execute) k)
            | inr k ↦
                elim (loaded-IsGuarded (services.get_by_number input.repository_id input.number)) [
                  | inl l ↦ inl (rw (e, execute, k.1) l)
                  | inr l ↦ inr (
                    e,
                    check_actor_write_access-MayWrite services input.organization_id input.actor_id
                        k.0,
                    l,
                  )
                ]
          ]
  ]

  -- The merge in git of the pull request that was loaded, at the commit that git answered.
  abbrev pub Merges : PullRequest → String → Type 0
  Merges pr sha =
      (services.get_by_number input.repository_id input.number ≡ ok (some pr))
      × (services.merge input.git_path pr.base_ref pr.head_ref (method_of input) ≡ merged_as sha)

  abbrev pub merge_changes : PullRequest → String → List Change
  merge_changes pr sha =
      git_merge input.git_path pr.base_ref pr.head_ref sha
      ∷ set_merged pr.id input.actor_id sha
      ∷ audit "pr.merge" pr.id
      ∷ []

  -- The changes that stand behind an error: the record of a failed merge at most, or some of the
  -- first changes of a merge, the merge in git among them.
  abbrev pub IsLeft : List Change → Type 0
  IsLeft changes =
      (All (λ c. (id : ℕ) × (c ≡ audit "pr.merge.failed" id)) changes)
      ⊎ ((pr : PullRequest) × (sha : String) × Merges pr sha
          × ((n : ℕ) × (changes ≡ take (suc n) (merge_changes pr sha))))

  abbrev pub IsRecord : List Change → Ending → Type 0
  IsRecord changes panics =
      (changes ≡ []) × (services.get_by_number input.repository_id input.number ≡ ok none)
  IsRecord changes (fails e) = IsLeft changes
  IsRecord changes (returns after) =
      (pr : PullRequest) × (sha : String) × Merges pr sha
      × (after ≡ as_merged pr input.actor_id sha)
      × (changes ≡ merge_changes pr sha)

  abbrev pub Recorded : Outcome → Type 0
  Recorded o = IsRecord o.changes o.answer

  record_merge-Recorded :
      (pr : PullRequest) (sha : String)
      → Merges pr sha
      → Recorded (record_merge services input pr sha)
  unfolding record_merge
  record_merge-Recorded pr sha merges = elim (Option-cases services.begin_answer) [
    | inr (e, b) ↦ rw (b, record_merge) (inr (pr, sha, merges, (0, refl)))
    | inl b ↦ elim (Option-cases services.set_merged_answer) [
      | inr (e, k) ↦ rw (b, record_merge, k) (inr (pr, sha, merges, (0, refl)))
      | inl k ↦ elim (Option-cases services.audit_answer) [
        | inr (e, l) ↦ rw (b, record_merge, k, l) (inr (pr, sha, merges, (1, refl)))
        | inl l ↦ elim (Option-cases services.commit_answer) [
          | inr (e, m) ↦ rw (b, record_merge, k, l, m) (inr (pr, sha, merges, (2, refl)))
          | inl m ↦ rw (b, record_merge, k, l, m) (pr, sha, merges, refl, refl)
        ]
      ]
    ]
  ]

  audit_failure-Recorded :
      (pr : PullRequest) (e : MergeError) → Recorded (audit_failure services pr e)
  unfolding audit_failure
  audit_failure-Recorded pr e = elim (Option-cases services.audit_answer) [
    | inl k ↦ rw (k, audit_failure) (inl ((pr.id, refl), tt))
    | inr (_, k) ↦ rw (k, audit_failure) (inl tt)
  ]

  Merge-cases :
      (a : MergeAnswer)
      → ((sha : String) × (a ≡ merged_as sha))
        ⊎ (a ≡ merge_conflict)
        ⊎ ((e : String) × (a ≡ merge_error e))
  Merge-cases (merged_as sha) = inl (sha, refl)
  Merge-cases merge_conflict = inr (inl refl)
  Merge-cases (merge_error e) = inr (inr (e, refl))

  merge_pr-Recorded :
      (pr : PullRequest)
      → services.get_by_number input.repository_id input.number ≡ ok (some pr)
      → Recorded (merge_pr services input pr)
  unfolding merge_pr
  merge_pr-Recorded pr loaded =
      elim (Merge-cases (services.merge input.git_path pr.base_ref pr.head_ref (method_of input))) [
        | inl a ↦ rw (a.1, merge_pr) (record_merge-Recorded pr a.0 (loaded, a.1))
        | inr (inl k) ↦ rw (k, merge_pr) (audit_failure-Recorded pr conflict)
        | inr (inr a) ↦ rw (a.1, merge_pr) (audit_failure-Recorded pr (other_error a.0))
      ]

  unless-Recorded :
      (o : Option MergeError) (next : Outcome) → Recorded next → Recorded (unless o next)
  unfolding unless
  unless-Recorded none next h = h
  unless-Recorded (some e) next h = inl tt

  loaded-Recorded :
      (a : Answer (Option PullRequest))
      → services.get_by_number input.repository_id input.number ≡ a
      → Recorded (merge_loaded services input a)
  unfolding merge_loaded
  loaded-Recorded (err e) loaded = inl tt
  loaded-Recorded (ok none) loaded = (refl, loaded)
  loaded-Recorded (ok (some pr)) loaded = elim (Bool-cases (str_eq pr.state "merged")) [
    | inl e ↦ rw (e, merge_loaded) (inl tt)
    | inr e ↦ rw (e, merge_loaded) (unless-Recorded _ _ (merge_pr-Recorded pr loaded))
  ]

  -- If `Execute` answers with a pull request, it is the one that was loaded, set merged by the actor
  -- at the commit that git answered, and exactly the merge in git, the row that is set merged and the
  -- record of the merge stand, in this order. If it answers with an error, at most records of a failed
  -- merge stand, or the first one, two or all three of those changes: a pull request is never set
  -- merged without the merge in git at that commit. It panics only on a pull request that is missing,
  -- and has then changed nothing.
  pub execute-Recorded : Recorded (execute services input)
  unfolding execute
  execute-Recorded = elim (Bool-cases (validate_git_path input.git_path)) [
    | inl e ↦ rw (e, execute) (unless-Recorded _ _ (loaded-Recorded _ refl))
    | inr e ↦ rw (e, execute) (inl tt)
  ]
