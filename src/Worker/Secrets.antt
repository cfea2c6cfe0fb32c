-- ===== src/Worker/Secrets.antt =====
-- `loadSecrets` of backend/internal/worker/ci_worker.go, and what becomes of the secrets in the steps.
use open_git.Base.{
  IsAmong, ℕ, ◌≡◌, refl, sym, ◌∙◌, subst, true, false, List, [], ◌∷◌, ◌++◌, Option, none, some,
  Bytes, bytes_eq_refl, is_member, All, ◌>>=◌, Option-cases, inl, inr, arith, is_member-append,
}
use open_git.Worker.Mask.{has_star}
use open_git.Worker.Steps.{Machine, RunJobSpec, IrStep, run_job_steps}
use open_git.Worker.Steps.Log.{Leaves, IsClean, IsCleanScript, run_job_steps-IsClean}

-- A row of `action_secrets`.
pub record SecretRow : Type 0 where
  pub name : Bytes
  pub encrypted : Bytes

read-inj : {p q : List Bytes × List Bytes} → some p ≡ some q → p ≡ q
read-inj h = cc

module _ (decrypt : Bytes → Option Bytes) where
  -- The loop over the rows; an error stands for `none`.
  unfoldable pub read_secrets :
      List SecretRow → List Bytes → List Bytes → Option (List Bytes × List Bytes)
  read_secrets [] env values = some (env, values)
  read_secrets (row ∷ rows) env values = decrypt row.encrypted >>= λ plain.
      read_secrets rows (env ++ (row.name ++ 61 ∷ plain) ∷ []) (values ++ plain ∷ [])

  abbrev pub load_secrets : List SecretRow → Option (List Bytes × List Bytes)
  load_secrets rows = read_secrets rows [] []

  read-keeps :
      (plain : Bytes) (rows : List SecretRow) (env values env' values' : List Bytes)
      → read_secrets rows env values ≡ some (env', values')
      → is_member plain values ≡ true
      → is_member plain values' ≡ true
  unfolding read_secrets
  read-keeps plain [] env values env' values' e m =
      subst (λ p. is_member plain p.1 ≡ true) (read-inj e) m
  read-keeps plain (row ∷ rows) env values env' values' e m =
      elim (Option-cases (decrypt row.encrypted)) [
        | inl k ↦ absurd (let no' : none ≡ some (env', values') = rw k at e in cc)
        | inr (p, k) ↦
            read-keeps plain rows _ (values ++ p ∷ []) env' values' (rw k at e)
              (is_member-append plain values (p ∷ []) ∙ rw m refl)
      ]

  is_member-last :
      (plain : Bytes) (values : List Bytes) → is_member plain (values ++ plain ∷ []) ≡ true
  unfolding is_member
  is_member-last plain values =
      is_member-append plain values (plain ∷ []) ∙ rw (bytes_eq_refl plain) (ground arith)

  read-finds :
      (row : SecretRow) (plain : Bytes) (rows : List SecretRow)
      (env values env' values' : List Bytes)
      → decrypt row.encrypted ≡ some plain
      → IsAmong row rows
      → read_secrets rows env values ≡ some (env', values')
      → is_member plain values' ≡ true
  unfolding read_secrets
  read-finds row plain [] env values env' values' d among e = absurd among
  read-finds row plain (r ∷ rows) env values env' values' d (inl same) e =
      let k : decrypt r.encrypted ≡ some plain =
        subst (λ q. decrypt q.encrypted ≡ some plain) same d in
      read-keeps plain rows _ (values ++ plain ∷ []) env' values' (rw k at e)
        (is_member-last plain values)
  read-finds row plain (r ∷ rows) env values env' values' d (inr among) e =
      elim (Option-cases (decrypt r.encrypted)) [
        | inl k ↦ absurd (let no' : none ≡ some (env', values') = rw k at e in cc)
        | inr (p, k) ↦
            read-finds row plain rows _ (values ++ p ∷ []) env' values' d among (rw k at e)
      ]

-- With the secrets that the worker loads, whatever the scripts of the steps print and however they
-- end, no decrypted secret of the repository that is not empty and has no asterisk is in a line of
-- the log or in a text or a step's name of the buffer, where each step is without a `uses`, has no
-- name with the secret in it, and has no `if` or one none of whose errors has a text with the secret
-- in it. The job's name, which stands before each entry of the buffer, is left aside, and each write
-- to the buffer is taken to be whole.
pub load_secrets-IsClean :
    (decrypt : Bytes → Option Bytes) (rows : List SecretRow) (env values : List Bytes)
    (row : SecretRow) (x : ℕ) (v : Bytes) (machine : Machine) (spec : RunJobSpec)
    (steps : List IrStep)
    → load_secrets decrypt rows ≡ some (env, values)
    → spec.secret_values ≡ values
    → IsAmong row rows
    → decrypt row.encrypted ≡ some (x ∷ v)
    → has_star (x ∷ v) ≡ false
    → All (IsCleanScript machine (x ∷ v)) steps
    → Leaves (IsClean (x ∷ v)) (run_job_steps machine spec steps)
load_secrets-IsClean decrypt rows env values row x v machine spec steps loaded given among plain
      starless scripts =
    run_job_steps-IsClean machine spec x v
      (subst (λ vs. is_member (x ∷ v) vs ≡ true) (sym given)
        (read-finds decrypt row (x ∷ v) rows [] [] env values plain among loaded))
      starless steps scripts
