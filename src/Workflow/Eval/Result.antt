-- ===== src/Workflow/Eval/Result.antt =====
-- The results of the evaluator: a value, an `error`, or a Go panic.
use open_git.Base.{Bytes}

pub data EvalError : Type 0 where
  missing_operand : EvalError
  unsupported_unary : Bytes → EvalError
  unsupported_node : Bytes → EvalError
  binary_missing : Bytes → EvalError
  unsupported_binary : Bytes → EvalError
  wrong_arity : Bytes → EvalError
  unsupported_function : Bytes → EvalError

pub data Result {ℓ} (A : Type ℓ) : Type ℓ where
  ok : A → Result A
  err : EvalError → Result A
  panic : Result A

infixl 5 ◌>>=◌
abbrev pub ◌>>=◌ {ℓ κ} : {A : Type ℓ} {B : Type κ} → Result A → (A → Result B) → Result B
ok a >>= f = f a
err e >>= f = err e
panic >>= f = panic
