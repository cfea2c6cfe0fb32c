-- ===== src/Workflow/Eval.antt =====
-- backend/internal/infrastructure/workflow/expression_eval.go: the evaluator of expressions.
use mathlib.Core.Option
use open_git.Base.{
  ℕ, zero, suc, ◌+◌, ◌-◌, ◌*◌, ◌^◌, ◌≡◌, Bool, true, false, not, ◌&&◌, ◌||◌, List, [], ◌∷◌, ◌++◌,
  Option, none, some, Bytes, codes, length, drop, take, get_elem?, ltb, leb, ◌==◌, if◌then◌else◌,
  ◌>>=◌ as option_bind, bytes_eq, has_prefix, has_suffix, contains, index_of,
}
use open_git.Workflow.Expression.{
  ExprNode, literal, context, unary, binary, call, other, Operand, absent, present, ExprNodes, nil,
  cons, is_digit,
}
use open_git.Workflow.Expression.Text.{trim_space}
pub mod Result
pub mod Format
pub mod Evaluate
pub mod Logic
pub mod Whole
pub mod Frame
pub mod Braces

-- What the evaluator takes from Go and its library: float64 and the Unicode case tables.
pub record Runtime : Type 1 where
  pub Float : Type 0
  pub zero_float : Float
  pub one_float : Float
  pub equal : Float → Float → Bool  -- `==`
  pub less : Float → Float → Bool  -- `<`
  pub less_equal : Float → Float → Bool  -- `<=`
  pub is_nan : Float → Bool  -- `math.IsNaN`
  pub is_inf : Float → Bool  -- `math.IsInf(n, 0)`
  pub trunc : Float → Float  -- `math.Trunc`
  pub parse_float : Bytes → Option Float  -- `strconv.ParseFloat(s, 64)`
  pub format_int : Float → Bytes  -- `strconv.FormatInt(int64(n), 10)`
  pub format_float : Float → Bytes  -- `strconv.FormatFloat(n, 'g', -1, 64)`
  pub to_lower : Bytes → Bytes  -- `strings.ToLower`
  pub equal_fold : Bytes → Bytes → Bool  -- `strings.EqualFold`
  pub quote : Bytes → Bytes  -- `strconv.Quote`

-- `EvalContext`; a map is the function from its keys.
pub record EvalContext : Type 0 where
  pub contexts : Bytes → Option (Bytes → Option Bytes)
  pub failed : Bool
  pub cancelled : Bool

-- `strings.SplitN(path, ".", 2)` with both parts there.
unfoldable pub split_dot : Bytes → Option (Bytes × Bytes)
split_dot [] = none
split_dot (c ∷ s) =
    if c == b'.' then some ([], s) else Option.map (λ p. (c ∷ p.0, p.1)) (split_dot s)

unfoldable pub lookup_path : EvalContext → Bytes → Option Bytes
lookup_path c path = option_bind (split_dot path) λ p. option_bind (c.contexts p.0) λ ctx. ctx p.1

-- `exprValue`
pub data Value (F : Type 0) : Type 0 where
  null : Value F
  str : Bytes → Value F
  num : F → Value F
  bool : Bool → Value F

module _ (go : Runtime) where
  open go use {
    Float, zero_float, one_float, equal, less, less_equal, is_nan, is_inf, trunc, parse_float,
    format_int, format_float, to_lower, equal_fold, quote,
  }

  unfoldable pub truthy : Value Float → Bool
  truthy null = false
  truthy (bool b) = b
  truthy (num n) = not (equal n zero_float) && not (is_nan n)
  truthy (str []) = false
  truthy (str (_ ∷ _)) = true

  unfoldable pub as_string : Value Float → Bytes
  as_string null = []
  as_string (bool b) = if b then codes "true" else codes "false"
  as_string (num n) = if equal n (trunc n) && not (is_inf n) then format_int n else format_float n
  as_string (str s) = s

  unfoldable pub as_number : Value Float → Option Float
  as_number (num n) = some n
  as_number (bool b) = some (if b then one_float else zero_float)
  as_number null = some zero_float
  as_number (str []) = some zero_float
  as_number (str (c ∷ s)) = parse_float (trim_space (c ∷ s))

  abbrev number_or_text : Bytes → Option Float → Value Float
  number_or_text raw none = str raw
  number_or_text raw (some n) = num n

  unfoldable pub literal_value : Bytes → Value Float
  literal_value raw =
      if bytes_eq raw (codes "true")
      then bool true
      else if bytes_eq raw (codes "false")
      then bool false
      else number_or_text raw (parse_float raw)

  abbrev text_or_null : Option Bytes → Value Float
  text_or_null none = null
  text_or_null (some v) = str v

  unfoldable pub eval_context_path : EvalContext → Bytes → Value Float
  eval_context_path ctx path = text_or_null (lookup_path ctx path)

  abbrev is_num : Value Float → Bool
  is_num (num _) = true
  is_num _ = false

  abbrev is_bool : Value Float → Bool
  is_bool (bool _) = true
  is_bool _ = false

  -- The comparison behind the numeric one of `looseEqual`.
  unfoldable pub equal_otherwise : Value Float → Value Float → Bool
  equal_otherwise a b =
      if is_bool a || is_bool b
      then (if truthy a then truthy b else not (truthy b))
      else equal_fold (as_string a) (as_string b)

  abbrev equal_numbers : Option Float → Option Float → Bool → Bool
  equal_numbers (some m) (some n) otherwise = equal m n
  equal_numbers _ _ otherwise = otherwise

  unfoldable pub loose_equal : Value Float → Value Float → Bool
  loose_equal a b =
      let otherwise = equal_otherwise a b in
      if is_num a || is_num b
      then equal_numbers (as_number a) (as_number b) otherwise
      else otherwise

  abbrev compare_numbers : Bytes → Option Float → Option Float → Bool
  compare_numbers op (some m) (some n) =
      if bytes_eq op (codes "<")
      then less m n
      else if bytes_eq op (codes "<=")
      then less_equal m n
      else if bytes_eq op (codes ">")
      then less n m
      else if bytes_eq op (codes ">=")
      then less_equal n m
      else false
  compare_numbers op _ _ = false

  -- `compare`; in Go `a > b` is `b < a` at every pair of floats, NaN included.
  unfoldable pub compare_values : Bytes → Value Float → Value Float → Value Float
  compare_values op a b = bool (compare_numbers op (as_number a) (as_number b))
