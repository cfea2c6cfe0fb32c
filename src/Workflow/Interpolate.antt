-- ===== src/Workflow/Interpolate.antt =====
-- The `${{ … }}` spans of a text: `findExprEnd`, `InterpolateString`, `evaluateInner` and
-- `EvaluateCondition` of backend/internal/infrastructure/workflow/expression_eval.go, and
-- `ExtractExpressions` of expression.go.
use mathlib.Core.Option
use open_git.Base.{
  ℕ, zero, suc, ◌+◌, ◌-◌, ◌≡◌, Bool, true, false, ◌&&◌, List, [], ◌∷◌, ◌++◌, Option, none, some,
  Bytes, codes, length, drop, take, ltb, ◌==◌, if◌then◌else◌, has_prefix, index_of, contains,
}
use open_git.Workflow.Expression.{ExprNode, Diagnostic, Severity, error, warning, Message}
use open_git.Workflow.Expression.Text.{trim_space}
use open_git.Workflow.Expression.Parse.{parse_expression}
use open_git.Workflow.Eval.{Runtime, EvalContext, Value, as_string, truthy}
use open_git.Workflow.Eval.Result.{EvalError, Result, ok, err, panic}
use open_git.Workflow.Eval.Evaluate.{evaluate}
pub mod Scan
pub mod Extract
pub mod Spans
pub mod Plain
pub mod Substitute
pub mod Condition

abbrev pub opening : Bytes
opening = codes "${{"

abbrev pub closing : Bytes
closing = codes "}}"

-- `findExprEnd`, over `s[from:]`: how far behind `from` the closing braces stand, `none` for -1.
-- The second number counts the bytes that `j += 2` or `j++` still skips.
unfoldable pub find_expr_end : ℕ → ℕ → Bytes → Option ℕ
find_expr_end depth skip [] = none
find_expr_end depth (suc skip) (c ∷ s) = Option.map suc (find_expr_end depth skip s)
find_expr_end depth zero (c ∷ s) =
    let deeper = find_expr_end (depth + 1) 2 s in
    let shallower = find_expr_end (depth - 1) 1 s in
    let onward = find_expr_end depth 0 s in
    if has_prefix (c ∷ s) opening
    then Option.map suc deeper
    else if has_prefix (c ∷ s) closing
    then if depth == 1 then some 0 else Option.map suc shallower
    else Option.map suc onward

-- Why `EvaluateExpression` or the parser gave no value.
pub data Fault : Type 0 where
  parse_error : Message → Fault
  eval_error : EvalError → Fault
  unterminated : Fault

-- `(string, error)`, or one of the two ways not to return: a Go panic, and `stuck`, which stands
-- for a loop that runs on.
pub data Returned (A : Type 0) : Type 0 where
  returned : A → Option Fault → Returned A
  panicked : Returned A
  stuck : Returned A

-- The first diagnostic of severity `error`.
unfoldable pub first_error : List Diagnostic → Option Message
first_error [] = none
first_error (d ∷ ds) = elim d.severity [ error ↦ some d.message | warning ↦ first_error ds ]

-- A closed span: the text before it, what it holds, and the text behind it.
pub record Span : Type 0 where
  pub before : Bytes
  pub inner : Bytes
  pub after : Bytes

-- What `InterpolateString` finds from an index on: no opening, one that never closes, or a span.
pub data Next : Type 0 where
  no_span : Next
  unclosed : Next
  span_at : Span → Next

unfoldable pub next_span : Bytes → Next
next_span s = elim (index_of opening s) [
  | none ↦ no_span
  | some start ↦
      let behind = drop (start + 3) s in
      elim (find_expr_end 1 0 behind) [
        | none ↦ unclosed
        | some n ↦ span_at (record {
          before = take start s;
          inner = trim_space (take n behind);
          after = drop (n + 2) behind;
        })
      ]
]

abbrev or_else : Option Fault → Option Fault → Option Fault
or_else none e = e
or_else (some f) e = some f

abbrev pub write_span : Bytes → Returned Bytes → Returned Bytes → Returned Bytes
write_span before (returned v e) (returned rest f) = returned (before ++ v ++ rest) (or_else e f)
write_span before (returned v e) panicked = panicked
write_span before (returned v e) stuck = stuck
write_span before panicked rest = panicked
write_span before stuck rest = stuck

-- The text of the condition that is parsed: the first span, or the text itself.
unfoldable pub condition_text : Bytes → Option Bytes
condition_text cond = elim (index_of opening cond) [
  | none ↦ some cond
  | some start ↦
      let behind = drop (start + 3) cond in
      Option.map (λ n. trim_space (take n behind)) (find_expr_end 1 0 behind)
]

module _ (go : Runtime) (ctx : EvalContext) where
  open go use {Float}

  abbrev pub value_or_fault :
      {A : Type 0} → (Value Float → A) → A → Result (Value Float) → Returned A
  value_or_fault f d (ok v) = returned (f v) none
  value_or_fault f d (err e) = returned d (some (eval_error e))
  value_or_fault f d panic = panicked

  -- What `evaluateInner` and `EvaluateCondition` do once the text is parsed: the answer for no
  -- node, for an error, and for a value.
  unfoldable pub evaluate_parsed :
      {A : Type 0}
      → (Value Float → A)
      → A
      → A
      → Option (List ExprNode × List Diagnostic)
      → Returned A
  evaluate_parsed f empty failed none = stuck
  evaluate_parsed f empty failed (some (nodes, diags)) = elim (first_error diags) [
    | some m ↦ returned failed (some (parse_error m))
    | none ↦ elim nodes [
      | [] ↦ returned empty none
      | n ∷ _ ↦ value_or_fault f failed (evaluate go ctx n)
    ]
  ]

  -- `evaluateInner`
  unfoldable pub evaluate_inner : Bytes → Returned Bytes
  evaluate_inner inner = evaluate_parsed (as_string go) [] [] (parse_expression inner)

  -- A round of the loop of `InterpolateString`; `rest` is the rounds that follow.
  unfoldable pub interpolate_round : (Bytes → Returned Bytes) → Bytes → Next → Returned Bytes
  interpolate_round rest s no_span = returned s none
  interpolate_round rest s unclosed = returned s none
  interpolate_round rest s (span_at p) = write_span p.before (evaluate_inner p.inner) (rest p.after)

  -- A round passes an opening, and `stuck` is fuel that runs out.
  unfoldable pub interpolate_loop : ℕ → Bytes → Returned Bytes
  interpolate_loop zero s = stuck
  interpolate_loop (suc fuel) s = interpolate_round (interpolate_loop fuel) s (next_span s)

  -- `InterpolateString`
  unfoldable pub interpolate_string : Bytes → Returned Bytes
  interpolate_string s = interpolate_loop (suc (length s)) s

  unfoldable pub condition_value : Option Bytes → Returned Bool
  condition_value none = returned false (some unterminated)
  condition_value (some t) = evaluate_parsed (truthy go) true false (parse_expression t)

  abbrev pub condition_trimmed : Bytes → Returned Bool
  condition_trimmed [] = returned true none
  condition_trimmed (c ∷ s) = condition_value (condition_text (c ∷ s))

  -- `EvaluateCondition`
  unfoldable pub evaluate_condition : Bytes → Returned Bool
  evaluate_condition cond = condition_trimmed (trim_space cond)

-- What the inner loop of `ExtractExpressions` finds behind an opening.
pub data Scanned : Type 0 where
  closes_at : ℕ → Scanned
  too_deep : Scanned
  never_closes : Scanned

abbrev pub further : Scanned → Scanned
further (closes_at n) = closes_at (suc n)
further too_deep = too_deep
further never_closes = never_closes

abbrev pub max_expression_nest_depth : ℕ
max_expression_nest_depth = 10

unfoldable pub scan_span : ℕ → ℕ → Bytes → Scanned
scan_span depth skip [] = never_closes
scan_span depth (suc skip) (c ∷ s) = further (scan_span depth skip s)
scan_span depth zero (c ∷ s) =
    let deeper = scan_span (depth + 1) 2 s in
    let shallower = scan_span (depth - 1) 1 s in
    let onward = scan_span depth 0 s in
    if has_prefix (c ∷ s) opening
    then if ltb max_expression_nest_depth (depth + 1) then too_deep else further deeper
    else if has_prefix (c ∷ s) closing
    then if depth == 1 then closes_at 0 else further shallower
    else further onward
