-- ===== src/Workflow/Eval/Frame.antt =====
-- What an expression can read: the paths that it names and the status of the run.
use open_git.Base.{◌≡◌, refl, Bytes, ap, ap₂, List}
use mathlib.Core.Path.{fun_ext}
use open_git.Workflow.Expression.{
  ExprNode, literal, context, unary, binary, call, other, Operand, absent, present, ExprNodes, nil,
  cons,
}
use open_git.Workflow.Eval.{
  Runtime, EvalContext, Value, lookup_path, eval_context_path, text_or_null,
}
use open_git.Workflow.Eval.Result.{EvalError, ok, ◌>>=◌, missing_operand}
use open_git.Workflow.Eval.Evaluate.{
  evaluate, evaluate_operand, evaluate_args, eval_binary, eval_unary, apply_call,
}

-- Two contexts resolve every path that the tree names to the same value.
abbrev mutual
  pub SamePaths : EvalContext → EvalContext → ExprNode → Type 0
  SamePaths c d (literal _) = Unit
  SamePaths c d (context path) = lookup_path c path ≡ lookup_path d path
  SamePaths c d (unary _ o) = SameIn c d o
  SamePaths c d (binary _ l r) = SameIn c d l × SameIn c d r
  SamePaths c d (call _ args) = SameInAll c d args
  SamePaths c d (other _) = Unit

  pub SameIn : EvalContext → EvalContext → Operand → Type 0
  SameIn c d absent = Unit
  SameIn c d (present n) = SamePaths c d n

  pub SameInAll : EvalContext → EvalContext → ExprNodes → Type 0
  SameInAll c d nil = Unit
  SameInAll c d (cons n ns) = SamePaths c d n × SameInAll c d ns

module _ (go : Runtime) where
  open go use {Float}

  module _ (c d : EvalContext) (same_failed : c.failed ≡ d.failed)
      (same_cancelled : c.cancelled ≡ d.cancelled) where
    apply_call-same :
        (fn : Bytes) (args : List (Value Float)) → apply_call go c fn args ≡ apply_call go d fn args
    unfolding apply_call
    apply_call-same fn args = rw (same_failed, same_cancelled)

    mutual
      unfolding evaluate eval_context_path

      same_node : (n : ExprNode) → SamePaths c d n → evaluate go c n ≡ evaluate go d n
      same_node (literal _) h = refl
      same_node (context path) h = ap (λ v. ok (text_or_null go v)) h
      same_node (unary op o) h = ap (eval_unary go op) (same_operand missing_operand o h)
      same_node (binary op absent r) h = refl
      same_node (binary op (present l) absent) h = refl
      same_node (binary op (present l) (present r)) h =
          ap₂ (eval_binary go op) (same_node l h.0) (same_node r h.1)
      same_node (call fn args) h =
          rw (same_args args h)
            (ap (λ k. evaluate_args go d args >>= k) (fun_ext (apply_call-same fn)))
      same_node (other _) h = refl

      same_operand :
          (e : EvalError) (o : Operand)
          → SameIn c d o
          → evaluate_operand go c e o ≡ evaluate_operand go d e o
      same_operand e absent h = refl
      same_operand e (present n) h = same_node n h

      same_args :
          (ns : ExprNodes) → SameInAll c d ns → evaluate_args go c ns ≡ evaluate_args go d ns
      same_args nil h = refl
      same_args (cons n ns) h = rw (same_node n h.0, same_args ns h.1)

  -- Two contexts of the same status that agree on each path that an expression names give it the
  -- same result, error or panic: nothing else of a context is read.
  evaluate-same :
      (c d : EvalContext) (n : ExprNode)
      → c.failed ≡ d.failed
      → c.cancelled ≡ d.cancelled
      → SamePaths c d n
      → evaluate go c n ≡ evaluate go d n
  evaluate-same c d n hf hc h = same_node c d hf hc n h
