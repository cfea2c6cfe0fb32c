-- ===== src/Worker/Mask.antt =====
-- `maskSecrets` of backend/internal/worker/ci_worker.go, through which the output of a step goes.
use open_git.Base.{
  ℕ, zero, suc, ◌-◌, ◌≡◌, refl, Bool, true, false, List, [], ◌∷◌, ◌++◌, Bytes, length, ◌==◌,
  if◌then◌else◌, has_prefix, contains, Bool-cases, inl, inr, arith, codes, bytes_eq, is_member,
  bytes_eq_iff, contains-cons, contains-nil, subst,
}

abbrev pub log_mask : Bytes
log_mask = codes "***"

-- `strings.ReplaceAll(s, old, new)` for an `old` that is not empty; `skip` bytes of an occurrence
-- are still to be passed over.
unfoldable pub replace_all : Bytes → Bytes → ℕ → Bytes → Bytes
replace_all old new skip [] = []
replace_all old new (suc skip) (c ∷ s) = replace_all old new skip s
replace_all old new zero (c ∷ s) = elim (has_prefix (c ∷ s) old) [
  | true ↦ new ++ replace_all old new (length old - 1) s
  | false ↦ c ∷ replace_all old new zero s
]

unfoldable pub mask_secrets : Bytes → List Bytes → Bytes
mask_secrets s [] = s
mask_secrets s ([] ∷ values) = mask_secrets s values
mask_secrets s ((c ∷ v) ∷ values) = mask_secrets (replace_all (c ∷ v) log_mask zero s) values

-- Without an asterisk, the byte of the mask.
unfoldable pub has_star : Bytes → Bool
has_star [] = false
has_star (c ∷ s) = if c == 42 then true else has_star s

has_prefix-star :
    (x : ℕ) (w s : Bytes) → has_star (x ∷ w) ≡ false → has_prefix (42 ∷ s) (x ∷ w) ≡ false
unfolding has_prefix has_star
has_prefix-star x w s h = ground (arith, h)

-- The bytes of the mask start no text without asterisks.
contains-mask :
    (x : ℕ) (w s : Bytes)
    → has_star (x ∷ w) ≡ false
    → contains (log_mask ++ s) (x ∷ w) ≡ contains s (x ∷ w)
contains-mask x w s h =
    rw
      (
        contains-cons 42 (42 ∷ 42 ∷ s) (x ∷ w),
        contains-cons 42 (42 ∷ s) (x ∷ w),
        contains-cons 42 s (x ∷ w),
        has_prefix-star x w (42 ∷ 42 ∷ s) h,
        has_prefix-star x w (42 ∷ s) h,
        has_prefix-star x w s h,
      )
      refl

-- Where a text without asterisks starts the masked text, it starts the text.
prefix-replace_all :
    (old w s : Bytes)
    → has_star w ≡ false
    → has_prefix (replace_all old log_mask zero s) w ≡ true
    → has_prefix s w ≡ true
unfolding replace_all has_prefix has_star
prefix-replace_all old [] s h k = refl
prefix-replace_all old (x ∷ w) [] h k = k
prefix-replace_all old (x ∷ w) (c ∷ s) h k = elim (Bool-cases (has_prefix (c ∷ s) old)) [
  | inl e ↦ absurd (
      let no' = has_prefix-star x w (42 ∷ 42 ∷ replace_all old log_mask (length old - 1) s) h in
      let starts = rw (e, replace_all) at k in ground (arith, h, starts))
  | inr e ↦
      let starts = rw (e, replace_all) at k in ground (arith, h, starts, prefix-replace_all old w s)
]

module _ (old : Bytes) (x : ℕ) (w : Bytes) (plain : has_star (x ∷ w) ≡ false) where
  -- Masking makes no occurrence of a text without asterisks.
  contains-replace_all :
      (skip : ℕ) (s : Bytes)
      → contains (replace_all old log_mask skip s) (x ∷ w) ≡ true
      → contains s (x ∷ w) ≡ true
  unfolding replace_all
  contains-replace_all skip [] h = h
  contains-replace_all (suc skip) (c ∷ s) h =
      rw (contains-cons c s (x ∷ w)) (ground (arith, contains-replace_all skip s h))
  contains-replace_all zero (c ∷ s) h = elim (Bool-cases (has_prefix (c ∷ s) old)) [
    | inl e ↦
        let rest =
          rw (e, replace_all, contains-mask x w (replace_all old log_mask (length old - 1) s) plain)
            at h in
        rw (contains-cons c s (x ∷ w)) (ground (arith, contains-replace_all _ s rest))
    | inr e ↦
        let there =
          rw (e, replace_all, contains-cons c (replace_all old log_mask zero s) (x ∷ w)) at h in
        let whole = prefix-replace_all old (x ∷ w) (c ∷ s) plain in
        let whole' = rw (e, replace_all) at whole in
        rw (contains-cons c s (x ∷ w)) (ground (arith, there, whole', contains-replace_all zero s))
  ]

-- A secret without asterisks does not occur in what its masking leaves.
replace_all-clean :
    (x : ℕ) (v : Bytes)
    → has_star (x ∷ v) ≡ false
    → (skip : ℕ) (s : Bytes) → contains (replace_all (x ∷ v) log_mask skip s) (x ∷ v) ≡ false
unfolding replace_all
replace_all-clean x v plain skip [] = contains-nil x v
replace_all-clean x v plain (suc skip) (c ∷ s) = replace_all-clean x v plain skip s
replace_all-clean x v plain zero (c ∷ s) = elim (Bool-cases (has_prefix (c ∷ s) (x ∷ v))) [
  | inl e ↦
      rw
        (
          e,
          replace_all,
          contains-mask x v (replace_all (x ∷ v) log_mask (length (x ∷ v) - 1) s) plain,
        )
        (replace_all-clean x v plain _ s)
  | inr e ↦
      let starts = rw (e, replace_all) at (prefix-replace_all (x ∷ v) (x ∷ v) (c ∷ s) plain) in
      rw (e, replace_all, contains-cons c (replace_all (x ∷ v) log_mask zero s) (x ∷ v))
        (ground (arith, starts, e, replace_all-clean x v plain zero s))
]

bytes_eq-nil : (x : ℕ) (v : Bytes) → bytes_eq (x ∷ v) [] ≡ false
unfolding bytes_eq
bytes_eq-nil x v = refl

mask_secrets-occurs :
    (x : ℕ) (w : Bytes)
    → has_star (x ∷ w) ≡ false
    → (values : List Bytes) (s : Bytes) → contains (mask_secrets s values) (x ∷ w) ≡ true
    → contains s (x ∷ w) ≡ true
unfolding mask_secrets
mask_secrets-occurs x w plain [] s h = h
mask_secrets-occurs x w plain ([] ∷ values) s h = mask_secrets-occurs x w plain values s h
mask_secrets-occurs x w plain ((c ∷ v) ∷ values) s h =
    contains-replace_all (c ∷ v) x w plain zero s (mask_secrets-occurs x w plain values _ h)

-- A secret that is not empty and has no asterisk does not occur in a text once it is masked,
-- whatever the other secrets are, and their order.
pub mask_secrets-clean :
    (x : ℕ) (v s : Bytes) (values : List Bytes)
    → is_member (x ∷ v) values ≡ true
    → has_star (x ∷ v) ≡ false
    → contains (mask_secrets s values) (x ∷ v) ≡ false
unfolding mask_secrets is_member
mask_secrets-clean x v s [] member plain = absurd cc
mask_secrets-clean x v s ([] ∷ values) member plain =
    mask_secrets-clean x v s values (ground (arith, member, bytes_eq-nil x v)) plain
mask_secrets-clean x v s ((c ∷ w) ∷ values) member plain =
    elim (Bool-cases (bytes_eq (x ∷ v) (c ∷ w))) [
      | inr e ↦
          mask_secrets-clean x v (replace_all (c ∷ w) log_mask zero s) values (rw e at member) plain
      | inl e ↦
          elim (Bool-cases
            (contains (mask_secrets (replace_all (c ∷ w) log_mask zero s) values) (x ∷ v))) [
              | inr k ↦ k
              | inl k ↦
                  let there = mask_secrets-occurs x v plain values _ k in
                  let clean =
                    subst (λ u. contains (replace_all u log_mask zero s) (x ∷ v) ≡ false)
                      ((bytes_eq_iff (x ∷ v) (c ∷ w)).0 e) (replace_all-clean x v plain zero s) in
                  absurd cc
            ]
    ]
