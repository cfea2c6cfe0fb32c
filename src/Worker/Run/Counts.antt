-- ===== src/Worker/Run/Counts.antt =====
-- The goroutines of `HandleCIRun`, measured: a sum over the jobs, and what a step of one job does
-- to it.
use open_git.Base.{
  ℕ, ◌+◌, ◌*◌, ◌≡◌, ◌∙◌, subst, List, [], ◌∷◌, Bytes, bytes_eq, bytes_eq_iff, bytes_eq_refl,
  bytes_eq_comm, count, if◌then◌else◌, Bool-cases, inl, inr, arith,
}
use open_git.Worker.Run.{Phase, put}

unfoldable pub total : (Bytes → Phase → ℕ) → (Bytes → Phase) → List Bytes → ℕ
total weight phase [] = 0
total weight phase (x ∷ xs) = weight x (phase x) + total weight phase xs

pub total-put :
    (weight : Bytes → Phase → ℕ) (phase : Bytes → Phase) (job : Bytes) (p : Phase) (xs : List Bytes)
    → total weight (put phase job p) xs + count job xs * weight job (phase job)
      ≡ total weight phase xs + count job xs * weight job p
unfolding total count
total-put weight phase job p [] = omega arith
total-put weight phase job p (x ∷ xs) =
    let rest = total-put weight phase job p xs in
    elim (Bool-cases (bytes_eq job x)) [
      | inl e ↦
          subst
            (λ y.
              weight y (put phase job p y)
                + total weight (put phase job p) xs
                + ((if bytes_eq job y then 1 else 0) + count job xs) * weight job (phase job)
              ≡ weight y (phase y)
                + total weight phase xs
                + ((if bytes_eq job y then 1 else 0) + count job xs) * weight job p)
            ((bytes_eq_iff job x).0 e) (rw (bytes_eq_refl job) (grind (arith, rest)))
      | inr e ↦ rw (e, bytes_eq_comm x job ∙ e) (grind (arith, rest))
    ]
