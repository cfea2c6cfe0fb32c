-- ===== src/Workflow/Eval/Evaluate.antt =====
-- `EvaluateExpression`, `evalBinary` and `evalCall`.
use open_git.Base.{
  Bool, true, not, ◌&&◌, ◌||◌, List, [], ◌∷◌, map, Bytes, codes, if◌then◌else◌, bytes_eq,
  has_prefix, has_suffix, contains,
}
use open_git.Workflow.Expression.{
  ExprNode, literal, context, unary, binary, call, other, Operand, absent, present, ExprNodes, nil,
  cons,
}
use open_git.Workflow.Eval.{
  Runtime, EvalContext, Value, str, bool, truthy, as_string, literal_value, eval_context_path,
  loose_equal, compare_values,
}
use open_git.Workflow.Eval.Result.{
  EvalError, Result, ok, err, ◌>>=◌, missing_operand, unsupported_unary, unsupported_node,
  binary_missing, unsupported_binary, wrong_arity, unsupported_function,
}
use open_git.Workflow.Eval.Format.{format_loop}

module _ (go : Runtime) where
  open go use {Float, to_lower, quote}

  -- The comparisons, once both operands are values.
  unfoldable pub apply_binary : Bytes → Value Float → Value Float → Result (Value Float)
  apply_binary op a b =
      if bytes_eq op (codes "==")
      then ok (bool (loose_equal go a b))
      else if bytes_eq op (codes "!=")
      then ok (bool (not (loose_equal go a b)))
      else if bytes_eq op (codes "<")
          || bytes_eq op (codes "<=")
          || bytes_eq op (codes ">")
          || bytes_eq op (codes ">=")
      then ok (compare_values go op a b)
      else err (unsupported_binary op)

  -- `evalBinary` over the results of both operands: `&&` and `||` do not look at the right one
  -- where the left one decides.
  unfoldable pub eval_binary :
      Bytes → Result (Value Float) → Result (Value Float) → Result (Value Float)
  eval_binary op left right = do
    a ← left
    if bytes_eq op (codes "&&")
        then if truthy go a then right else ok a
        else if bytes_eq op (codes "||")
        then if truthy go a then ok a else right
        else (right >>= λ b. apply_binary op a b)

  unfoldable pub eval_unary : Bytes → Result (Value Float) → Result (Value Float)
  eval_unary op operand =
      if bytes_eq op (codes "!")
      then (do v ← operand; ok (bool (not (truthy go v))))
      else err (unsupported_unary op)

  -- A function of two texts, `contains`, `startsWith` or `endsWith`, without regard to case.
  abbrev pub two_texts : Bytes → (Bytes → Bytes → Bool) → List (Value Float) → Result (Value Float)
  two_texts fn test (a ∷ b ∷ []) =
      ok (bool (test (to_lower (as_string go a)) (to_lower (as_string go b))))
  two_texts fn test _ = err (wrong_arity fn)

  abbrev pub join_values : List (Value Float) → Value Float
  join_values [] = str []
  join_values (a ∷ _) = str (as_string go a)

  -- `formatFn`
  unfoldable pub format_fn : List (Value Float) → Result (Value Float)
  format_fn [] = ok (str [])
  format_fn (a ∷ rest) = do
    out ← format_loop (map (as_string go) (a ∷ rest)) 0 (as_string go a)
    ok (str out)

  abbrev pub to_json : List (Value Float) → Result (Value Float)
  to_json (a ∷ []) = ok (str (quote (as_string go a)))
  to_json _ = err (wrong_arity (codes "toJSON"))

  -- The `switch` of `evalCall`.
  unfoldable pub apply_call : EvalContext → Bytes → List (Value Float) → Result (Value Float)
  apply_call ctx fn args =
      if bytes_eq fn (codes "success")
      then ok (bool (not ctx.failed && not ctx.cancelled))
      else if bytes_eq fn (codes "failure")
      then ok (bool ctx.failed)
      else if bytes_eq fn (codes "cancelled")
      then ok (bool ctx.cancelled)
      else if bytes_eq fn (codes "always")
      then ok (bool true)
      else if bytes_eq fn (codes "contains")
      then two_texts fn contains args
      else if bytes_eq fn (codes "startsWith")
      then two_texts fn has_prefix args
      else if bytes_eq fn (codes "endsWith")
      then two_texts fn has_suffix args
      else if bytes_eq fn (codes "join")
      then ok (join_values args)
      else if bytes_eq fn (codes "format")
      then format_fn args
      else if bytes_eq fn (codes "toJSON")
      then to_json args
      else err (unsupported_function fn)

  unfoldable mutual
    pub evaluate : EvalContext → ExprNode → Result (Value Float)
    evaluate ctx (literal raw) = ok (literal_value go raw)
    evaluate ctx (context path) = ok (eval_context_path go ctx path)
    evaluate ctx (unary op o) = eval_unary op (evaluate_operand ctx missing_operand o)
    evaluate ctx (binary op absent r) = err (binary_missing op)
    evaluate ctx (binary op (present l) absent) = err (binary_missing op)
    evaluate ctx (binary op (present l) (present r)) =
        eval_binary op (evaluate ctx l) (evaluate ctx r)
    evaluate ctx (call fn args) = do values ← evaluate_args ctx args; apply_call ctx fn values
    evaluate ctx (other kind) = err (unsupported_node kind)

    pub evaluate_operand : EvalContext → EvalError → Operand → Result (Value Float)
    evaluate_operand ctx e absent = err e
    evaluate_operand ctx e (present n) = evaluate ctx n

    -- The arguments in order, up to the first error.
    pub evaluate_args : EvalContext → ExprNodes → Result (List (Value Float))
    evaluate_args ctx nil = ok []
    evaluate_args ctx (cons n ns) = do v ← evaluate ctx n; vs ← evaluate_args ctx ns; ok (v ∷ vs)
