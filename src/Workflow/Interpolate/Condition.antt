-- ===== src/Workflow/Interpolate/Condition.antt =====
-- `EvaluateCondition` of expression_eval.go, on the bare and on the wrapped form of a condition.

use mathlib.Core.List.{reverse-append, reverse-reverse}
use open_git.Base.{
  ℕ, zero, suc, ◌-◌, ◌≡◌, refl, false, [], ◌∷◌, ◌++◌, reverse, none, some, Bytes, ◌==◌, arith, ap,
  sym, ◌∙◌, subst, Bool-cases, Option-cases, inl, inr, append_assoc, codes, length, has_prefix,
  index_of, contains, contains-cons, contains-left, contains-right,
}
use open_git.Workflow.Expression.Text.{trim_space, trim_by, space_width, back_space_width}
use open_git.Workflow.Expression.Parse.{parse_expression, parse_trimmed}
use open_git.Workflow.Eval.{Runtime, EvalContext}
use open_git.Workflow.Interpolate.{
  opening, closing, find_expr_end, evaluate_condition, condition_text, condition_value,
  condition_trimmed, evaluate_parsed, first_error,
}
use open_git.Workflow.Interpolate.Plain.{index_of-opening, take-length-append}

trim_by-stops :
    (width : Bytes → ℕ) (c : ℕ) (s : Bytes) → width (c ∷ s) ≡ 0 → trim_by width 0 (c ∷ s) ≡ c ∷ s
unfolding trim_by
trim_by-stops width c s h = rw h

trim_by-suffix :
    (width : Bytes → ℕ) (k : ℕ) (s : Bytes) → (p : Bytes) × (s ≡ p ++ trim_by width k s)
unfolding trim_by
trim_by-suffix width k [] = ([], refl)
trim_by-suffix width (suc k) (c ∷ s) =
    let (p, e) = trim_by-suffix width k s in (c ∷ p, ap (λ t. c ∷ t) e)
trim_by-suffix width zero (c ∷ s) = elim (Bool-cases (width (c ∷ s) == 0)) [
  | inl e ↦ rw e ([], refl)
  | inr e ↦
      let (p, q) = trim_by-suffix width (width (c ∷ s) - 1) s in rw e (c ∷ p, ap (λ t. c ∷ t) q)
]

-- A trimmed text is a part of the text.
trim_space-part : (s : Bytes) → (p : Bytes) × (q : Bytes) × (s ≡ p ++ (trim_space s ++ q))
unfolding trim_space
trim_space-part s =
    let (p, e) = trim_by-suffix space_width 0 s in
    let front = trim_by space_width 0 s in
    let (q, f) = trim_by-suffix back_space_width 0 (reverse front) in
    let t = trim_by back_space_width 0 (reverse front) in
    let back : front ≡ reverse t ++ reverse q =
      sym (reverse-reverse front) ∙ ap reverse f ∙ reverse-append q t in
    (p, reverse q, e ∙ ap (λ r. p ++ r) back)

trim_space-none : (s : Bytes) → contains s opening ≡ false → contains (trim_space s) opening ≡ false
trim_space-none s h =
    let (p, q, e) = trim_space-part s in
    let h' = subst (λ r. contains r opening ≡ false) e h in
    contains-left (trim_space s) q b'$' (codes "{{")
      (contains-right p (trim_space s ++ q) b'$' (codes "{{") h')

index_of-absent : (sub s : Bytes) → contains s sub ≡ false → index_of sub s ≡ none
unfolding contains
index_of-absent sub s h = elim (Option-cases (index_of sub s)) [
  | inl e ↦ e
  | inr (n, e) ↦ absurd (let no = rw e at h in cc)
]

-- The closing behind a text starts no opening there.
no_opening :
    (c : ℕ) (e : Bytes)
    → has_prefix (c ∷ e) opening ≡ false
    → has_prefix (c ∷ (e ++ closing)) opening ≡ false
unfolding has_prefix
no_opening c [] h = ground arith
no_opening c (a ∷ []) h = ground arith
no_opening c (a ∷ b ∷ e) h = h

no_closing :
    (c : ℕ) (e : Bytes)
    → has_prefix (c ∷ (e ++ b'}' ∷ [])) closing ≡ false
    → has_prefix (c ∷ (e ++ closing)) closing ≡ false
unfolding has_prefix
no_closing c [] h = h
no_closing c (a ∷ e) h = h

-- The first closing behind a text that holds no opening, and no closing either with one of the two
-- braces that follow, is the one behind it.
find_expr_end-first :
    (e : Bytes)
    → contains e opening ≡ false
    → contains (e ++ b'}' ∷ []) closing ≡ false
    → find_expr_end 1 0 (e ++ closing) ≡ some (length e)
unfolding find_expr_end
find_expr_end-first [] h k = unfold has_prefix in refl
find_expr_end-first (c ∷ e) h k =
    let h' = rw (contains-cons c e opening) at h in
    let k' = rw (contains-cons c (e ++ b'}' ∷ []) closing) at k in
    rw (no_opening c e (ground (arith, h'))) (
      rw (no_closing c e (ground (arith, k')))
        (rw (find_expr_end-first e (ground (arith, h')) (ground (arith, k')))))

-- A text that a closing brace ends has no white space at its end.
back_space_width-brace : (s : Bytes) → back_space_width (b'}' ∷ s) ≡ 0
unfolding back_space_width
back_space_width-brace [] = refl
back_space_width-brace (a ∷ []) = ground arith
back_space_width-brace (a ∷ b ∷ s) = ground arith

abbrev pub wrapped : Bytes → Bytes
wrapped e = opening ++ (e ++ closing)

reverse-wrapped : (e : Bytes) → reverse (wrapped e) ≡ b'}' ∷ b'}' ∷ reverse (opening ++ e)
reverse-wrapped e =
    ap reverse (sym (append_assoc opening e closing)) ∙ reverse-append (opening ++ e) closing

space_width-dollar : (s : Bytes) → space_width (opening ++ s) ≡ 0
unfolding space_width
space_width-dollar s = refl

trim_space-wrapped : (e : Bytes) → trim_space (wrapped e) ≡ wrapped e
unfolding trim_space
trim_space-wrapped e =
    rw
      (trim_by-stops space_width b'$' (b'{' ∷ b'{' ∷ e ++ closing)
        (space_width-dollar (e ++ closing)))
      (rw (reverse-wrapped e) (
        rw
          (trim_by-stops back_space_width b'}' (b'}' ∷ reverse (opening ++ e))
            (back_space_width-brace (b'}' ∷ reverse (opening ++ e))))
          (ap reverse (sym (reverse-wrapped e)) ∙ reverse-reverse (wrapped e))))

condition_text-wrapped :
    (e : Bytes)
    → contains e opening ≡ false
    → contains (e ++ b'}' ∷ []) closing ≡ false
    → condition_text (wrapped e) ≡ some (trim_space e)
unfolding condition_text
condition_text-wrapped e h k =
    rw (index_of-opening [] (e ++ closing) tt, condition_text)
      (rw (find_expr_end-first e h k)
        (ap (λ s. some (trim_space s)) (take-length-append e closing)))

condition_text-bare : (e : Bytes) → contains e opening ≡ false → condition_text e ≡ some e
unfolding condition_text
condition_text-bare e h = rw (index_of-absent opening e h, condition_text)

module _ (go : Runtime) (ctx : EvalContext) where
  trimmed-bare :
      (s : Bytes)
      → contains s opening ≡ false
      → condition_trimmed go ctx s ≡ condition_value go ctx (some s)
  unfolding condition_value evaluate_parsed parse_expression parse_trimmed trim_space first_error
  trimmed-bare [] h = refl
  trimmed-bare (c ∷ s) h = ap (condition_value go ctx) (condition_text-bare (c ∷ s) h)

  -- A condition that holds no `${{`, and no `}}` even with one more brace behind it, means the same
  -- bare and wrapped in `${{ }}`: the same answer, the same error, the same panic.
  pub evaluate_condition-wrapped :
      (e : Bytes)
      → contains e opening ≡ false
      → contains (e ++ b'}' ∷ []) closing ≡ false
      → evaluate_condition go ctx (wrapped e) ≡ evaluate_condition go ctx e
  unfolding evaluate_condition
  evaluate_condition-wrapped e h k = rw (trim_space-wrapped e) (
      ap (condition_value go ctx) (condition_text-wrapped e h k)
      ∙ sym (trimmed-bare (trim_space e) (trim_space-none e h)))
