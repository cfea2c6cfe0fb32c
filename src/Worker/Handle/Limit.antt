-- ===== src/Worker/Handle/Limit.antt =====
-- The limit on the runs of an organization, in `HandleCIRun`.
use open_git.Base.{
  ℕ, ◌≡◌, ◌<◌, refl, true, false, not, ◌||◌, List, [], ◌∷◌, Option, none, some, Bytes, codes,
  bytes_eq, if-both, inl, inr, Bool-cases, arith,
}
use open_git.Worker.Handle.{
  Update, to_status, marked, Attempt, Answer, retried, dropped, Handled, concurrent_limit_exceeded,
  load_plan_tier, count_running, is_blank, with_logs, mark_run, fail_run, check_limit,
  handle_ci_run,
}

-- The tier and the number of running runs that let a run in.
abbrev pub LetsIn : (Bytes → Bytes) → Attempt → Type 0
LetsIn to_lower a =
    (tier : Bytes) × (running : ℕ) × (load_plan_tier to_lower a ≡ some tier)
    × (count_running to_lower a ≡ some running)
    × (running < 20)
    × (bytes_eq (to_lower tier) (codes "free") ≡ true → running ≡ 0)

-- What follows from a first update to a status.
abbrev Starts : Type 0 → Handled → Type 0
Starts P h = (status : Bytes) (rest : List Update) → h.0 ≡ to_status status ∷ rest → P

not_limit :
    (to_lower : Bytes → Bytes) (tier : Bytes) (running : ℕ)
    → concurrent_limit_exceeded to_lower tier running ≡ false
    → (running < 20) × (bytes_eq (to_lower tier) (codes "free") ≡ true → running ≡ 0)
unfolding concurrent_limit_exceeded
not_limit to_lower tier running h = elim (Bool-cases (bytes_eq (to_lower tier) (codes "free"))) [
  | inl e ↦ let small = rw e at h in (ground (arith, small), λ k. ground (arith, small))
  | inr e ↦ let small = rw e at h in (ground (arith, small), λ k. absurd cc)
]

fail-Starts :
    (P : Type 0) (a : Attempt) (conclusion logs : Bytes) (answer : Answer)
    → Starts P (fail_run a conclusion logs answer)
unfolding mark_run
fail-Starts P a conclusion logs answer status rest =
    if-both (λ us. us ≡ to_status status ∷ rest → P)
      (not a.has_db || is_blank a.run_id || not a.mark_set) _ _
      (λ e. absurd (let no' : [] ≡ to_status status ∷ rest = e in cc))
      (λ e. absurd (apart (with_logs a.has_log_repo conclusion logs) e))
  where
    apart : (c : Bytes) → (marked (codes "failed") c ∷ []) ≡ to_status status ∷ rest → ⊥
    apart c e = cc

module _ (to_lower : Bytes → Bytes) (a : Attempt) where
  limit-Starts :
      (tier : Option Bytes) (count : Option ℕ)
      → load_plan_tier to_lower a ≡ tier
      → count_running to_lower a ≡ count
      → Starts (LetsIn to_lower a) (check_limit to_lower a tier count)
  limit-Starts none count t c status rest e =
      absurd (let no' : [] ≡ to_status status ∷ rest = e in cc)
  limit-Starts (some tier) none t c status rest e =
      absurd (let no' : [] ≡ to_status status ∷ rest = e in cc)
  limit-Starts (some tier) (some count) t c status rest e =
      elim (Bool-cases (concurrent_limit_exceeded to_lower tier count)) [
        | inl over ↦
            fail-Starts (LetsIn to_lower a) a (codes "rate_limited") [] retried status rest
              (rw over at e)
        | inr free ↦
            let (few, none_running) = not_limit to_lower tier count free in
            (tier, count, t, c, few, none_running)
      ]

-- The row of a run is set to a status that is not final only if, at the count of the worker, fewer
-- than twenty other runs of its organization are in progress, and none where the tier is free.
pub handle_ci_run-LetsIn :
    (to_lower : Bytes → Bytes) (a : Attempt) (status : Bytes) (rest : List Update)
    → (handle_ci_run to_lower a).0 ≡ to_status status ∷ rest
    → LetsIn to_lower a
unfolding handle_ci_run
handle_ci_run-LetsIn to_lower a status rest =
    if-both (Starts (LetsIn to_lower a)) (not a.decodes) _ _
      (λ s r e. absurd (let no' : [] ≡ to_status s ∷ r = e in cc))
      (if-both (Starts (LetsIn to_lower a))
        (is_blank a.run_id || is_blank a.repository_id || is_blank a.organization_id) _ _
        (fail-Starts (LetsIn to_lower a) a (codes "invalid_payload") [] dropped)
        (limit-Starts to_lower a (load_plan_tier to_lower a) (count_running to_lower a) refl refl))
      status rest
