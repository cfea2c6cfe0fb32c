-- ===== src/Workflow/Eval/Whole.antt =====
-- Which errors the evaluator can still report on a tree that the parser made.
use open_git.Base.{
  is_member, ℕ, zero, suc, ◌≡◌, Bool, true, false, List, [], ◌∷◌, ◌++◌, Bytes, codes, bytes_eq,
  arith, sym, if◌then◌else◌, subst, Bool-cases, inl, inr, contains, has_prefix, has_suffix,
}
use open_git.Workflow.Expression.{
  ExprNode, literal, context, unary, binary, call, other, absent, present, ExprNodes, nil, cons,
}
use open_git.Workflow.Expression.Parse.Sound.{IsWhole, AreWhole, binary_ops}
use open_git.Workflow.Eval.{Runtime, EvalContext, Value, truthy, as_string}
use open_git.Workflow.Eval.Result.{Result, ok, err, panic, ◌>>=◌, wrong_arity, unsupported_function}
use open_git.Workflow.Eval.Evaluate.{
  evaluate, evaluate_args, eval_binary, eval_unary, apply_binary, apply_call, format_fn, two_texts,
  to_json,
}
use open_git.Workflow.Eval.Format.{
  Slot, filled, literally, out_of_range, fill, placeholder, format_loop, write,
}

-- A value, or a fault of a call: its name, its number of arguments, or a panic of `format`.
abbrev pub FaultsInCalls {ℓ} : {A : Type ℓ} → Result A → Type 0
FaultsInCalls (ok _) = Unit
FaultsInCalls (err (wrong_arity _)) = Unit
FaultsInCalls (err (unsupported_function _)) = Unit
FaultsInCalls (err _) = ⊥
FaultsInCalls panic = Unit

FaultsInCalls-bind {ℓ κ} :
    {A : Type ℓ} {B : Type κ} (r : Result A) (f : A → Result B)
    → FaultsInCalls r
    → ((a : A) → FaultsInCalls (f a))
    → FaultsInCalls (r >>= f)
FaultsInCalls-bind (ok a) f h k = k a
FaultsInCalls-bind (err (wrong_arity _)) f h k = tt
FaultsInCalls-bind (err _) f h k = h
FaultsInCalls-bind panic f h k = tt

FaultsInCalls-if {ℓ} :
    {A : Type ℓ} (b : Bool) (p q : Result A)
    → FaultsInCalls p
    → FaultsInCalls q
    → FaultsInCalls (if b then p else q)
FaultsInCalls-if true p q hp hq = hp
FaultsInCalls-if false p q hp hq = hq

FaultsInCalls-write :
    (out : Bytes) (r : Result Bytes) → FaultsInCalls r → FaultsInCalls (write out r)
FaultsInCalls-write out r h = FaultsInCalls-bind r (λ s. ok (out ++ s)) h λ s. tt

FaultsInCalls-fill :
    (x : Slot) (p q : Result Bytes) → FaultsInCalls p → FaultsInCalls q → FaultsInCalls (fill x p q)
FaultsInCalls-fill (filled a) p q hp hq = FaultsInCalls-bind p _ hp λ s. tt
FaultsInCalls-fill literally p q hp hq = hq
FaultsInCalls-fill out_of_range p q hp hq = tt

FaultsInCalls-format_loop :
    (args : List Bytes) (skip : ℕ) (s : Bytes) → FaultsInCalls (format_loop args skip s)
unfolding format_loop
FaultsInCalls-format_loop args skip [] = tt
FaultsInCalls-format_loop args (suc skip) (c ∷ s) = FaultsInCalls-format_loop args skip s
FaultsInCalls-format_loop args zero (c ∷ s) =
    let asked = placeholder args s in
    let kept =
      FaultsInCalls-write (c ∷ []) (format_loop args 0 s) (FaultsInCalls-format_loop args 0 s) in
    let doubled =
      FaultsInCalls-write (c ∷ []) (format_loop args 1 s) (FaultsInCalls-format_loop args 1 s) in
    let placed = FaultsInCalls-format_loop args asked.1 s in
    let filled_or_kept =
      FaultsInCalls-fill asked.0 (format_loop args asked.1 s)
        (write (c ∷ []) (format_loop args 0 s)) placed kept in
    ground (arith, kept, doubled, filled_or_kept)

module _ (go : Runtime) where
  open go use {Float}

  FaultsInCalls-apply_binary :
      (op : Bytes) (a b : Value Float)
      → is_member op binary_ops ≡ true
      → bytes_eq op (codes "&&") ≡ false
      → bytes_eq op (codes "||") ≡ false
      → FaultsInCalls (apply_binary go op a b)
  unfolding apply_binary is_member
  FaultsInCalls-apply_binary op a b m h k = ground (arith, m, h, k)

  FaultsInCalls-eval_binary :
      (op : Bytes) (x y : Result (Value Float))
      → is_member op binary_ops ≡ true
      → FaultsInCalls x
      → FaultsInCalls y
      → FaultsInCalls (eval_binary go op x y)
  unfolding eval_binary
  FaultsInCalls-eval_binary op x y m hx hy = FaultsInCalls-bind x _ hx λ a.
      elim (Bool-cases (bytes_eq op (codes "&&"))) [
        | inl conj ↦ rw conj (FaultsInCalls-if (truthy go a) y (ok a) hy tt)
        | inr not_conj ↦ rw not_conj (elim (Bool-cases (bytes_eq op (codes "||"))) [
          | inl disj ↦ rw disj (FaultsInCalls-if (truthy go a) (ok a) y tt hy)
          | inr not_disj ↦
              rw not_disj (
                FaultsInCalls-bind y _ hy
                  λ b. FaultsInCalls-apply_binary op a b m not_conj not_disj)
        ])
      ]

  FaultsInCalls-two_texts :
      (fn : Bytes) (test : Bytes → Bytes → Bool) (args : List (Value Float))
      → FaultsInCalls (two_texts go fn test args)
  FaultsInCalls-two_texts fn test [] = tt
  FaultsInCalls-two_texts fn test (_ ∷ []) = tt
  FaultsInCalls-two_texts fn test (_ ∷ _ ∷ []) = tt
  FaultsInCalls-two_texts fn test (_ ∷ _ ∷ _ ∷ _) = tt

  FaultsInCalls-format_fn : (args : List (Value Float)) → FaultsInCalls (format_fn go args)
  unfolding format_fn
  FaultsInCalls-format_fn [] = tt
  FaultsInCalls-format_fn (a ∷ rest) =
      FaultsInCalls-bind _ _ (FaultsInCalls-format_loop _ 0 (as_string go a)) λ out. tt

  FaultsInCalls-to_json : (args : List (Value Float)) → FaultsInCalls (to_json go args)
  FaultsInCalls-to_json [] = tt
  FaultsInCalls-to_json (_ ∷ []) = tt
  FaultsInCalls-to_json (_ ∷ _ ∷ _) = tt

  FaultsInCalls-eval_unary :
      (x : Result (Value Float)) → FaultsInCalls x → FaultsInCalls (eval_unary go (codes "!") x)
  unfolding eval_unary bytes_eq
  FaultsInCalls-eval_unary x h = FaultsInCalls-bind x _ h λ v. tt

  FaultsInCalls-apply_call :
      (ctx : EvalContext) (fn : Bytes) (args : List (Value Float))
      → FaultsInCalls (apply_call go ctx fn args)
  unfolding apply_call
  FaultsInCalls-apply_call ctx fn args = ground (
    arith,
    FaultsInCalls-two_texts fn contains args,
    FaultsInCalls-two_texts fn has_prefix args,
    FaultsInCalls-two_texts fn has_suffix args,
    FaultsInCalls-format_fn args,
    FaultsInCalls-to_json args,
  )

  mutual
    unfolding evaluate

    faults_node : (ctx : EvalContext) (n : ExprNode) → IsWhole n → FaultsInCalls (evaluate go ctx n)
    faults_node ctx (literal _) h = tt
    faults_node ctx (context _) h = tt
    faults_node ctx (unary op absent) h = absurd h.1
    faults_node ctx (unary op (present n)) h =
        subst (λ o. FaultsInCalls (eval_unary go o (evaluate go ctx n))) (sym h.0)
          (FaultsInCalls-eval_unary (evaluate go ctx n) (faults_node ctx n h.1))
    faults_node ctx (binary op absent r) h = absurd h.1
    faults_node ctx (binary op (present l) absent) h = absurd h.2
    faults_node ctx (binary op (present l) (present r)) h =
        FaultsInCalls-eval_binary op (evaluate go ctx l) (evaluate go ctx r) h.0
          (faults_node ctx l h.1) (faults_node ctx r h.2)
    faults_node ctx (call fn args) h =
        FaultsInCalls-bind (evaluate_args go ctx args) _ (faults_args ctx args h)
          λ vs. FaultsInCalls-apply_call ctx fn vs
    faults_node ctx (other _) h = absurd h

    faults_args :
        (ctx : EvalContext) (ns : ExprNodes) → AreWhole ns → FaultsInCalls (evaluate_args go ctx ns)
    faults_args ctx nil h = tt
    faults_args ctx (cons n ns) h =
        FaultsInCalls-bind (evaluate go ctx n) _ (faults_node ctx n h.0)
          λ v. FaultsInCalls-bind (evaluate_args go ctx ns) _ (faults_args ctx ns h.1) λ vs. tt

  -- On a whole tree, as `ParseExpression` makes it, the evaluator fails in a call only: with a wrong
  -- number of arguments, an unsupported function, or a panic of `format`. It never meets a missing
  -- operand, an unsupported operator or an unsupported node.
  pub evaluate-FaultsInCalls :
      (ctx : EvalContext) (n : ExprNode) → IsWhole n → FaultsInCalls (evaluate go ctx n)
  evaluate-FaultsInCalls ctx n h = faults_node ctx n h
