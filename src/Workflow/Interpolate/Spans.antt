-- ===== src/Workflow/Interpolate/Spans.antt =====
-- `InterpolateString` and `EvaluateCondition` of expression_eval.go: the rounds of their loops.

use open_git.Base.{
  ℕ, zero, suc, ◌+◌, ◌<◌, List, [], ◌∷◌, true, false, Option, none, some, Bytes, length, drop,
  index_of, arith, sym, subst, Option-cases, inl, inr, length-drop,
}
use open_git.Workflow.Expression.{ExprNode, Diagnostic}
use open_git.Workflow.Expression.Text.{trim_space}
use open_git.Workflow.Expression.Parse.{parse_expression}
use open_git.Workflow.Expression.Parse.Total.{parse_expression-answers}
use open_git.Workflow.Eval.{Runtime, EvalContext, Value, truthy}
use open_git.Workflow.Eval.Result.{Result, ok, err, panic}
use open_git.Workflow.Eval.Evaluate.{evaluate}
use open_git.Workflow.Interpolate.{
  opening, find_expr_end, next_span, Next, no_span, unclosed, span_at, Returned, returned, panicked,
  stuck, write_span, value_or_fault, evaluate_parsed, evaluate_inner, interpolate_round,
  interpolate_loop, interpolate_string, first_error, condition_text, condition_value,
  condition_trimmed, evaluate_condition,
}
use open_git.Workflow.Interpolate.Scan.{index_of-Within, Within}

-- The next round reads less.
abbrev pub IsShorter : Bytes → Next → Type 0
IsShorter s no_span = Unit
IsShorter s unclosed = Unit
IsShorter s (span_at p) = length p.after < length s

pub next_span-IsShorter : (s : Bytes) → IsShorter s (next_span s)
unfolding next_span
next_span-IsShorter s = elim (Option-cases (index_of opening s)) [
  | inl e ↦ rw (e, next_span, IsShorter) tt
  | inr (start, e) ↦
      let within : Within opening s (some start) = rw e at (index_of-Within opening s) in
      let behind = drop (start + 3) s in
      rw (e, next_span, IsShorter)
        (elim (Option-cases (find_expr_end 1 0 behind)) [
          | inl f ↦ rw (f, IsShorter) tt
          | inr (n, f) ↦
              rw (f, IsShorter)
                (omega (arith, length-drop (start + 3) s, length-drop (n + 2) behind))
        ])
]

-- A call that returns or panics, and does not run on.
abbrev pub Ends : {A : Type 0} → Returned A → Type 0
Ends (returned _ _) = Unit
Ends panicked = Unit
Ends stuck = ⊥

Ends-write_span :
    (before : Bytes) (v rest : Returned Bytes)
    → Ends v
    → Ends rest
    → Ends (write_span before v rest)
Ends-write_span before (returned v e) (returned r f) hv hr = tt
Ends-write_span before (returned v e) panicked hv hr = tt
Ends-write_span before (returned v e) stuck hv hr = hr
Ends-write_span before panicked rest hv hr = tt
Ends-write_span before stuck rest hv hr = hv

module _ (go : Runtime) (ctx : EvalContext) where
  open go use {Float}

  Ends-value_or_fault :
      {A : Type 0} (f : Value Float → A) (d : A) (r : Result (Value Float))
      → Ends (value_or_fault go ctx f d r)
  Ends-value_or_fault f d (ok v) = tt
  Ends-value_or_fault f d (err e) = tt
  Ends-value_or_fault f d panic = tt

  Ends-after_parse :
      {A : Type 0} (f : Value Float → A) (d e : A) (nodes : List ExprNode) (diags : List Diagnostic)
      → Ends (evaluate_parsed go ctx f d e (some (nodes, diags)))
  unfolding evaluate_parsed
  Ends-after_parse f d e nodes diags = elim (Option-cases (first_error diags)) [
    | inr (m, h) ↦ rw (h, evaluate_parsed, Ends) tt
    | inl h ↦ rw (h, evaluate_parsed, Ends) (Ends-nodes f d e nodes)
  ]
    where
      Ends-nodes :
          {A : Type 0} (f : Value Float → A) (d e : A) (ns : List ExprNode)
          → Ends (elim ns as (λ _. Returned A) [
            | [] ↦ returned d none
            | n ∷ _ ↦ value_or_fault go ctx f e (evaluate go ctx n)
          ])
      Ends-nodes f d e [] = tt
      Ends-nodes f d e (n ∷ _) = Ends-value_or_fault f e (evaluate go ctx n)

  pub Ends-evaluate_parsed :
      {A : Type 0} (f : Value Float → A) (d e : A) (raw : Bytes)
      → Ends (evaluate_parsed go ctx f d e (parse_expression raw))
  Ends-evaluate_parsed f d e raw =
      let (nodes, diags, h) = parse_expression-answers raw in
      subst (λ r. Ends (evaluate_parsed go ctx f d e r)) (sym h)
        (Ends-after_parse f d e nodes diags)

  Ends-round :
      (fuel : ℕ) (s : Bytes) (x : Next)
      → IsShorter s x
      → ((t : Bytes) → length t < length s → Ends (interpolate_loop go ctx fuel t))
      → Ends (interpolate_round go ctx (interpolate_loop go ctx fuel) s x)
  unfolding interpolate_round evaluate_inner
  Ends-round fuel s no_span h k = tt
  Ends-round fuel s unclosed h k = tt
  Ends-round fuel s (span_at p) h k =
      Ends-write_span p.before (evaluate_inner go ctx p.inner) _
        (Ends-evaluate_parsed _ [] [] p.inner) (k p.after h)

  Ends-interpolate_loop :
      (fuel : ℕ) (s : Bytes) → length s < fuel → Ends (interpolate_loop go ctx fuel s)
  unfolding interpolate_loop
  Ends-interpolate_loop zero s h = absurd (omega arith)
  Ends-interpolate_loop (suc fuel) s h =
      Ends-round fuel s (next_span s) (next_span-IsShorter s)
        λ t shorter. Ends-interpolate_loop fuel t (omega arith)

  -- `InterpolateString` returns or panics on every text: its loop ends.
  pub interpolate_string-Ends : (s : Bytes) → Ends (interpolate_string go ctx s)
  unfolding interpolate_string
  interpolate_string-Ends s = Ends-interpolate_loop (suc (length s)) s (omega arith)

  Ends-condition_value : (t : Option Bytes) → Ends (condition_value go ctx t)
  unfolding condition_value
  Ends-condition_value none = tt
  Ends-condition_value (some t) = Ends-evaluate_parsed (truthy go) true false t

  Ends-condition_trimmed : (t : Bytes) → Ends (condition_trimmed go ctx t)
  Ends-condition_trimmed [] = tt
  Ends-condition_trimmed (c ∷ s) = Ends-condition_value (condition_text (c ∷ s))

  -- `EvaluateCondition` too.
  pub evaluate_condition-Ends : (cond : Bytes) → Ends (evaluate_condition go ctx cond)
  unfolding evaluate_condition
  evaluate_condition-Ends cond = Ends-condition_trimmed (trim_space cond)
