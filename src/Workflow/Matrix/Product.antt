-- ===== src/Workflow/Matrix/Product.antt =====
-- How many combinations `cartesianProduct` builds.
use open_git.Base.{
  ℕ, ◌+◌, ◌*◌, ◌≡◌, ◌≤◌, ◌<◌, ltb, Bool, true, false, List, [], ◌∷◌, ◌++◌, Bytes, length,
  length-append, if◌then◌else◌, arith, Bool-cases, inl, inr, subst,
}
use open_git.Workflow.Dag.{sort_strings}
use open_git.Workflow.Matrix.{
  Any, Combo, Axes, assign, add_values, add_combos, multiply, cartesian_product,
  max_matrix_combinations,
}

-- Past the limit, or of exactly that length and within it.
abbrev pub IsGrown : ℕ → List Combo × Bool → Type 0
IsGrown n out =
    if out.1
    then max_matrix_combinations < length out.0
    else (length out.0 ≡ n) × (n ≤ max_matrix_combinations)

-- One combination for each choice of a value per axis.
unfoldable pub choices : (Bytes → List Any) → List Bytes → ℕ
choices values [] = 1
choices values (key ∷ keys) = length (values key) * choices values keys

add_values-IsGrown :
    (key : Bytes) (combo : Combo) (values : List Any) (next : List Combo)
    → length next ≤ max_matrix_combinations
    → IsGrown (length next + length values) (add_values key combo values next)
unfolding add_values
add_values-IsGrown key combo [] next h = (omega arith, omega (arith, h))
add_values-IsGrown key combo (val ∷ values) next h =
    let next' = next ++ assign key val combo ∷ [] in
    let longer : length next' ≡ length next + 1 =
      length-append {0} next (assign key val combo ∷ []) in
    elim (Bool-cases (ltb max_matrix_combinations (length next'))) [
      | inl e ↦ rw (e, add_values) (ground (arith, e))
      | inr e ↦
          let ih = add_values-IsGrown key combo values next' (ground (arith, e)) in
          rw (e, add_values)
            (subst (λ n. IsGrown n (add_values key combo values next')) (omega (arith, longer)) ih)
    ]

then-IsGrown :
    (out : List Combo × Bool) (rest : List Combo → List Combo × Bool) (m n : ℕ)
    → IsGrown m out
    → ((more : List Combo) → length more ≡ m → m ≤ max_matrix_combinations → IsGrown n (rest more))
    → IsGrown n (if out.1 then (out.0, true) else rest out.0)
then-IsGrown (more, true) rest m n h k = h
then-IsGrown (more, false) rest m n h k = k more h.0 h.1

add_combos-IsGrown :
    (key : Bytes) (values : List Any) (combos next : List Combo)
    → length next ≤ max_matrix_combinations
    → IsGrown (length next + length combos * length values) (add_combos key values combos next)
unfolding add_combos
add_combos-IsGrown key values [] next h = (omega arith, omega (arith, h))
add_combos-IsGrown key values (combo ∷ combos) next h =
    then-IsGrown (add_values key combo values next) (add_combos key values combos)
      (length next + length values) _ (add_values-IsGrown key combo values next h)
      λ more e low.
        subst (λ n. IsGrown n (add_combos key values combos more)) (rw e (grind arith))
          (add_combos-IsGrown key values combos more (omega (arith, e, low)))

multiply-IsGrown :
    (values : Bytes → List Any) (keys : List Bytes) (result : List Combo)
    → length result ≤ max_matrix_combinations
    → IsGrown (length result * choices values keys) (multiply values keys result)
unfolding multiply choices
multiply-IsGrown values [] result h = (grind arith, grind (arith, h))
multiply-IsGrown values (key ∷ keys) result h =
    then-IsGrown (add_combos key (values key) result []) (multiply values keys)
      (0 + length result * length (values key)) _
      (add_combos-IsGrown key (values key) result [] (omega arith))
      λ more e low.
        subst (λ n. IsGrown n (multiply values keys more)) (rw e (grind arith))
          (multiply-IsGrown values keys more (omega (arith, e, low)))

-- `cartesianProduct` answers with one combination for each choice of a value per axis, at most 256
-- of them, or reports that it passed that limit, with more than 256 built.
cartesian_product-IsGrown :
    (axes : Axes) → IsGrown (choices axes.values (sort_strings axes.keys)) (cartesian_product axes)
cartesian_product-IsGrown axes =
    subst (λ n. IsGrown n (cartesian_product axes)) (grind arith)
      (multiply-IsGrown axes.values (sort_strings axes.keys) ([] ∷ []) (omega arith))
