-- ===== src/Review/Stored.antt =====
-- What is stored of a review, and for whom.
use open_git.Base.{
  ◌==◌, ==_iff, ◌≡◌, ◌<◌, ◌⊎◌, refl, true, false, ◌&&◌, ◌||◌, not, Option, Option-cases, none, some,
  String, str_eq, All, Bool-cases, inl, inr, arith,
}
use open_git.Review.{
  ReviewInput, ReviewedPr, Review, forbidden, other_error, MemberAnswer, member, no_member,
  member_error, ReviewAnswer, ok, err, ReviewChange, store_review, audit, ReviewServices,
  check_actor_access, review_event_to_state, decides, review_of, audit_review, save_review,
  review_as, review_loaded, create_review,
}

-- The owner of a personal namespace, or a member of the organization.
abbrev pub MayReview : ReviewServices → ReviewInput → Type 0
MayReview services input =
    ((0 < input.organization_id) × (input.organization_id ≡ input.actor_id))
    ⊎ ((r : String) × (services.get_role input.organization_id input.actor_id ≡ member r))

-- A review of the event's state, of an open pull request of the organization, that decides on it
-- only if somebody else has written it.
abbrev pub IsReviewOf : ReviewServices → ReviewInput → ReviewedPr → Review → Type 0
IsReviewOf services input pr review =
    (pr.organization_id ≡ input.organization_id)
    × (str_eq pr.state "closed" ≡ false)
    × (str_eq pr.state "merged" ≡ false)
    × (review ≡ review_of input pr review.state)
    × (review_event_to_state (services.to_upper input.event) ≡ some review.state)
    × (decides review.state ≡ true → (input.actor_id == pr.author_id) ≡ false)

module _ (services : ReviewServices) (input : ReviewInput) where
  abbrev pub IsDue : ReviewChange → Type 0
  IsDue (audit action id) = Unit
  IsDue (store_review review) =
      MayReview services input
      × ((pr : ReviewedPr) × (services.get_by_number input.repository_id input.number
            ≡ ok (some pr))
          × IsReviewOf services input pr review)

  save_review-All :
      (pr : ReviewedPr) (review : Review)
      → IsDue (store_review review)
      → All IsDue (save_review services pr review).changes
  unfolding save_review audit_review
  save_review-All pr review due = elim (Option-cases services.create_answer) [
    | inr e ↦ rw (e.1, save_review) tt
    | inl e ↦ elim (Bool-cases (decides review.state)) [
      | inr d ↦ rw (e, save_review, audit_review, d) (due, tt)
      | inl d ↦ elim (Option-cases services.audit_answer) [
        | inr a ↦ rw (e, save_review, audit_review, d, a.1) (due, tt)
        | inl a ↦ rw (e, save_review, audit_review, d, a) (due, (tt, tt))
      ]
    ]
  ]

  may_review :
      check_actor_access services input.organization_id input.actor_id ≡ none
      → MayReview services input
  unfolding check_actor_access
  may_review h =
      elim (Bool-cases
        (not (input.organization_id == 0) && (input.organization_id == input.actor_id))) [
          | inl own ↦ inl (ground (arith, own))
          | inr other ↦
              by_role (services.get_role input.organization_id input.actor_id) refl
                (rw (other, check_actor_access) at h)
        ]
    where
      by_role :
          (a : MemberAnswer)
          → services.get_role input.organization_id input.actor_id ≡ a
          → (elim (services.get_role input.organization_id input.actor_id) [
            | no_member ↦ some forbidden
            | member_error e ↦ some (other_error e)
            | member r ↦ none
          ])
            ≡ none
          → MayReview services input
      by_role (member r) e k = inr (r, e)
      by_role no_member e k = absurd (let no = rw e at k in cc)
      by_role (member_error x) e k = absurd (let no = rw e at k in cc)

  review_as-All :
      (pr : ReviewedPr) (state : Option String)
      → MayReview services input
      → services.get_by_number input.repository_id input.number ≡ ok (some pr)
      → pr.organization_id ≡ input.organization_id
      → (str_eq pr.state "closed" ≡ false) × (str_eq pr.state "merged" ≡ false)
      → review_event_to_state (services.to_upper input.event) ≡ state
      → All IsDue (review_as services input pr state).changes
  unfolding review_as
  review_as-All pr none may loaded same open_state event = tt
  review_as-All pr (some state) may loaded same open_state event =
      elim (Bool-cases ((input.actor_id == pr.author_id) && decides state)) [
        | inl e ↦ rw (e, review_as) tt
        | inr e ↦
            rw (e, review_as)
              (save_review-All pr (review_of input pr state) (
                may,
                (
                  pr,
                  loaded,
                  (same, open_state.0, open_state.1, refl, event, λ d. ground (arith, e, d)),
                ),
              ))
      ]

  -- Whatever `Execute` stores, it stores for the owner of the namespace or a member of the
  -- organization, on an open pull request of that organization, in the state that the event names
  -- and at the head of the pull request; and nobody approves of, or requests changes on, what they
  -- have written themselves.
  pub create_review-IsDue : All IsDue (create_review services input).changes
  unfolding create_review review_loaded
  create_review-IsDue =
      elim (Option-cases (check_actor_access services input.organization_id input.actor_id)) [
        | inr e ↦ rw (e.1, create_review) tt
        | inl e ↦
            rw (e, create_review)
              (loaded-All (services.get_by_number input.repository_id input.number) refl
                (may_review e))
      ]
    where
      loaded-All :
          (a : ReviewAnswer (Option ReviewedPr))
          → services.get_by_number input.repository_id input.number ≡ a
          → MayReview services input
          → All IsDue (review_loaded services input a).changes
      loaded-All (err e) loaded may = tt
      loaded-All (ok none) loaded may = tt
      loaded-All (ok (some pr)) loaded may =
          elim (Bool-cases (pr.organization_id == input.organization_id)) [
            | inr o ↦ rw (o, review_loaded) tt
            | inl o ↦ elim (Bool-cases (str_eq pr.state "closed" || str_eq pr.state "merged")) [
              | inl s ↦ rw (o, review_loaded, s) tt
              | inr s ↦
                  rw (o, review_loaded, s)
                    (review_as-All pr _ may loaded ((==_iff _ _).0 o) (ground (arith, s)) refl)
            ]
          ]
