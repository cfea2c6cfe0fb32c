-- ===== src/Workflow/Dag/Sort.antt =====
-- `buildDAG`: how often a name occurs in a sorted queue and among the sources.
use open_git.Base.{
  ℕ, ◌+◌, ◌≡◌, refl, List, [], ◌∷◌, Bytes, ◌==◌, if◌then◌else◌, bytes_eq, bytes_eq_iff, count,
  arith, Bool-cases, inl, inr, subst, bytes_eq_refl,
}
use open_git.Workflow.Dag.{insert_sorted, sort_strings, sources, bytes_lt}

count-insert_sorted :
    (z x : Bytes) (xs : List Bytes)
    → count z (insert_sorted x xs) ≡ (if bytes_eq z x then 1 else 0) + count z xs
unfolding insert_sorted count
count-insert_sorted z x [] = refl
count-insert_sorted z x (y ∷ ys) = elim (Bool-cases (bytes_lt y x)) [
  | inl e ↦ rw e (omega (arith, count-insert_sorted z x ys))
  | inr e ↦ rw e
]

pub count-sort_strings : (z : Bytes) (xs : List Bytes) → count z (sort_strings xs) ≡ count z xs
unfolding sort_strings count
count-sort_strings z [] = refl
count-sort_strings z (x ∷ xs) =
    omega (arith, count-insert_sorted z x (sort_strings xs), count-sort_strings z xs)

pub count-sources :
    (z : Bytes) (deg : Bytes → ℕ) (xs : List Bytes)
    → count z (sources deg xs) ≡ (if deg z == 0 then count z xs else 0)
unfolding sources count
count-sources z deg [] = ground arith
count-sources z deg (x ∷ xs) = elim (Bool-cases (bytes_eq z x)) [
  | inl same ↦
      let ih = count-sources z deg xs in
      subst
        (λ w.
          count z (if deg w == 0 then w ∷ sources deg xs else sources deg xs)
          ≡ (if deg z == 0 then (if bytes_eq z w then 1 else 0) + count z xs else 0))
        ((bytes_eq_iff z x).0 same) (ground (arith, ih, bytes_eq_refl z))
  | inr other ↦ ground (arith, count-sources z deg xs, other)
]
