-- ===== src/Workflow/Eval/Logic.antt =====
-- `evalBinary` and `looseEqual` of expression_eval.go: the logical operators and equality.
use open_git.Base.{
  ◌≡◌, refl, Bool, true, false, not, ◌&&◌, ◌||◌, Bytes, codes, bytes_eq, arith, ap, ◌∙◌, Option,
  none, some, if◌then◌else◌,
}
use open_git.Workflow.Expression.{ExprNode, unary, binary, present}
use open_git.Workflow.Eval.{
  Runtime, EvalContext, Value, bool, truthy, as_string, as_number, loose_equal, equal_otherwise,
  equal_numbers,
}
use open_git.Workflow.Eval.Result.{Result, ok, err, panic}
use open_git.Workflow.Eval.Evaluate.{evaluate, eval_binary, eval_unary, apply_binary}

module _ (go : Runtime) where
  open go use {Float, equal, equal_fold}

  -- The truth of a result that is a value.
  abbrev pub truth : Result (Value Float) → Option Bool
  truth (ok v) = some (truthy go v)
  truth _ = none

  abbrev and_expr : ExprNode → ExprNode → ExprNode
  and_expr l r = binary (codes "&&") (present l) (present r)

  abbrev or_expr : ExprNode → ExprNode → ExprNode
  or_expr l r = binary (codes "||") (present l) (present r)

  abbrev not_expr : ExprNode → ExprNode
  not_expr e = unary (codes "!") (present e)

  binary-and :
      (x y : Result (Value Float))
      → (truth x ≡ some false → eval_binary go (codes "&&") x y ≡ x)
        × (truth x ≡ some true → eval_binary go (codes "&&") x y ≡ y)
  unfolding eval_binary bytes_eq
  binary-and (ok v) y = (λ h. ground (arith, h), λ h. ground (arith, h))
  binary-and (err e) y = (λ h. cc, λ h. cc)
  binary-and panic y = (λ h. cc, λ h. cc)

  binary-or :
      (x y : Result (Value Float))
      → (truth x ≡ some true → eval_binary go (codes "||") x y ≡ x)
        × (truth x ≡ some false → eval_binary go (codes "||") x y ≡ y)
  unfolding eval_binary bytes_eq
  binary-or (ok v) y = (λ h. ground (arith, h), λ h. ground (arith, h))
  binary-or (err e) y = (λ h. cc, λ h. cc)
  binary-or panic y = (λ h. cc, λ h. cc)

  unary-not :
      (x : Result (Value Float)) (a : Bool)
      → truth x ≡ some a
      → truth (eval_unary go (codes "!") x) ≡ some (not a)
  unfolding eval_unary bytes_eq truthy
  unary-not (ok v) a h = ground (arith, h)
  unary-not (err e) a h = cc
  unary-not panic a h = cc

  -- `&&` and `||` answer the very result of one operand: the left one where it decides, even if the
  -- right one fails or panics, and else the right one.
  short_circuit :
      (ctx : EvalContext) (l r : ExprNode) (a : Bool)
      → truth (evaluate go ctx l) ≡ some a
      → (evaluate go ctx (and_expr l r) ≡ (if a then evaluate go ctx r else evaluate go ctx l))
        × (evaluate go ctx (or_expr l r) ≡ (if a then evaluate go ctx l else evaluate go ctx r))
  unfolding evaluate
  short_circuit ctx l r true h = (
    (binary-and (evaluate go ctx l) (evaluate go ctx r)).1 h,
    (binary-or (evaluate go ctx l) (evaluate go ctx r)).0 h,
  )
  short_circuit ctx l r false h = (
    (binary-and (evaluate go ctx l) (evaluate go ctx r)).0 h,
    (binary-or (evaluate go ctx l) (evaluate go ctx r)).1 h,
  )

  truth-if :
      (x y : Result (Value Float)) (a b : Bool)
      → truth x ≡ some a
      → truth y ≡ some b
      → (truth (if a then y else x) ≡ some (a && b)) × (truth (if a then x else y) ≡ some (a || b))
  truth-if x y true b h k = (k, h)
  truth-if x y false b h k = (h, k)

  -- Where both operands have a truth value, `&&`, `||` and `!` compute the Boolean connectives of
  -- these values, whatever the types of the operands.
  truth-connectives :
      (ctx : EvalContext) (l r : ExprNode) (a b : Bool)
      → truth (evaluate go ctx l) ≡ some a
      → truth (evaluate go ctx r) ≡ some b
      → (truth (evaluate go ctx (and_expr l r)) ≡ some (a && b))
        × (truth (evaluate go ctx (or_expr l r)) ≡ some (a || b))
        × (truth (evaluate go ctx (not_expr l)) ≡ some (not a))
  truth-connectives ctx l r a b hl hr =
      let (both, either) = short_circuit ctx l r a hl in
      let (conj, disj) = truth-if (evaluate go ctx l) (evaluate go ctx r) a b hl hr in
      (
        ap truth both ∙ conj,
        ap truth either ∙ disj,
        unfold evaluate in unary-not (evaluate go ctx l) a hl,
      )

  module _ (equal_sym : (m n : Float) → equal m n ≡ equal n m)
      (equal_fold_sym : (s t : Bytes) → equal_fold s t ≡ equal_fold t s) where
    equal_otherwise_sym : (a b : Value Float) → equal_otherwise go a b ≡ equal_otherwise go b a
    unfolding equal_otherwise
    equal_otherwise_sym a b = ground (arith, equal_fold_sym (as_string go a) (as_string go b))

    equal_numbers_sym :
        (m n : Option Float) (x y : Bool) → x ≡ y → equal_numbers go m n x ≡ equal_numbers go n m y
    equal_numbers_sym (some m) (some n) x y h = equal_sym m n
    equal_numbers_sym (some m) none x y h = h
    equal_numbers_sym none (some n) x y h = h
    equal_numbers_sym none none x y h = h

    loose_equal_sym : (a b : Value Float) → loose_equal go a b ≡ loose_equal go b a
    unfolding loose_equal
    loose_equal_sym a b = ground (
      arith,
      equal_otherwise_sym a b,
      equal_numbers_sym (as_number go a) (as_number go b) _ _ (equal_otherwise_sym a b),
    )

    -- At operands that have values, `==` does not depend on their order, and `!=` is its negation,
    -- if the float test and the case-folding test are symmetric.
    equality_symmetric :
        (ctx : EvalContext) (l r : ExprNode) (v w : Value Float)
        → evaluate go ctx l ≡ ok v
        → evaluate go ctx r ≡ ok w
        → (evaluate go ctx (binary (codes "==") (present l) (present r))
            ≡ evaluate go ctx (binary (codes "==") (present r) (present l)))
          × (evaluate go ctx (binary (codes "!=") (present l) (present r))
              ≡ evaluate go ctx (not_expr (binary (codes "==") (present l) (present r))))
    unfolding evaluate eval_binary eval_unary apply_binary bytes_eq truthy
    equality_symmetric ctx l r v w hl hr =
        rw (hl, hr) (ap (λ x. ok (bool x)) (loose_equal_sym v w), refl)
