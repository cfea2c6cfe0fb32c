-- ===== src/Workflow/Matrix/Expand.antt =====
-- What `expandMatrix` answers.
use open_git.Base.{
  ℕ, zero, suc, ◌≡◌, ◌≤◌, refl, List, [], ◌∷◌, ◌++◌, length, length-take, take, some, ltb, arith,
  Bool-cases, inl, inr, subst, All,
}
use open_git.Workflow.Matrix.{
  Combo, Raw, MatrixMessage, cut, expand_raw, expand_matrix, read_entries, nothing_read,
  cartesian_product, apply_include, apply_exclude, max_matrix_combinations, product_too_large,
}
use open_git.Workflow.Matrix.Rows.{
  IsPlainRow, Answers, IsKept, apply_exclude-Answers, apply_exclude-IsKept, include_rows-Answers,
  bind-some,
}

All-take : {A : Type 0} (P : A → Type 0) (n : ℕ) (xs : List A) → All P xs → All P (take n xs)
All-take P zero xs h = tt
All-take P (suc n) [] h = tt
All-take P (suc n) (x ∷ xs) h = (h.0, All-take P n xs h.1)

cut-Fits :
    (diags : List MatrixMessage) (combos : List Combo)
    → length (cut diags combos).0 ≤ max_matrix_combinations
cut-Fits diags combos = elim (Bool-cases (ltb max_matrix_combinations (length combos))) [
  | inl e ↦ rw e (omega (arith, length-take {0} max_matrix_combinations combos))
  | inr e ↦ rw e (ground (arith, e))
]

cut-All :
    (P : Combo → Type 0) (diags : List MatrixMessage) (combos : List Combo)
    → All P combos
    → All P (cut diags combos).0
cut-All P diags combos h = elim (Bool-cases (ltb max_matrix_combinations (length combos))) [
  | inl e ↦ rw e (All-take P max_matrix_combinations combos h)
  | inr e ↦ rw e h
]

-- At most 256 combinations, of which none matches an `exclude` row of the mapping.
abbrev pub IsWithin : Raw → List Combo → Type 0
IsWithin raw combos = (length combos ≤ max_matrix_combinations) × All (IsKept raw.exclude) combos

expand_raw-IsWithin :
    (raw : Raw) (out : List Combo × List MatrixMessage)
    → expand_raw raw ≡ some out
    → IsWithin raw out.0
unfolding expand_raw
expand_raw-IsWithin raw out h = elim (Bool-cases (cartesian_product raw.axes).1) [
  | inl e ↦
      let same : ([], raw.diags ++ product_too_large ∷ []) ≡ out =
        let k = rw (e, expand_raw) at h in cc in
      subst (λ o. IsWithin raw o.0) same (omega arith, tt)
  | inr e ↦
      let (more, included, h1) =
        bind-some (apply_include (cartesian_product raw.axes).0 raw.include) _ out
          (rw (e, expand_raw) at h) in
      let (left, excluded, h2) = bind-some (apply_exclude more raw.exclude) _ out h1 in
      let same : cut raw.diags left ≡ out = cc in
      subst (λ o. IsWithin raw o.0) same
        (
          cut-Fits raw.diags left,
          cut-All (IsKept raw.exclude) raw.diags left
              (apply_exclude-IsKept more raw.exclude left excluded),
        )
]

-- Whatever `expandMatrix` answers, it has at most 256 combinations, and none of them matches a row
-- of the `exclude` of the mapping.
pub expand_matrix-IsWithin :
    (entries : Combo) (out : List Combo × List MatrixMessage)
    → expand_matrix (some entries) ≡ some out
    → IsWithin (read_entries entries nothing_read) out.0
unfolding expand_matrix
expand_matrix-IsWithin entries out h = expand_raw-IsWithin (read_entries entries nothing_read) out h

-- `expandMatrix` answers, without a panic, if no row of `include` or `exclude` holds a sequence or a
-- mapping as a value; the axes may.
expand_matrix-Answers :
    (entries : Combo)
    → All IsPlainRow (read_entries entries nothing_read).include
    → All IsPlainRow (read_entries entries nothing_read).exclude
    → Answers (expand_matrix (some entries))
unfolding expand_matrix expand_raw
expand_matrix-Answers entries plain_include plain_exclude =
    let raw = read_entries entries nothing_read in
    elim (Bool-cases (cartesian_product raw.axes).1) [
      | inl e ↦ (([], raw.diags ++ product_too_large ∷ []), rw (e, expand_raw) refl)
      | inr e ↦
          let combos = (cartesian_product raw.axes).0 in
          let (more, included) = include_rows-Answers combos raw.include combos plain_include in
          let (left, excluded) = apply_exclude-Answers more raw.exclude plain_exclude in
          (cut raw.diags left, rw (e, expand_raw, included, excluded) refl)
    ]
