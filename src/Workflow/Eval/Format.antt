-- ===== src/Workflow/Eval/Format.antt =====
-- `formatFn` and the decimal reader `strconv.Atoi` that it uses.
use mathlib.Core.Option
use open_git.Base.{
  ℕ, zero, suc, ◌+◌, ◌-◌, ◌*◌, ◌^◌, Bool, false, ◌&&◌, List, [], ◌∷◌, ◌++◌, Option, none, some,
  Bytes, take, get_elem?, ltb, ◌==◌, if◌then◌else◌, ◌>>=◌ as option_bind,
}
use open_git.Workflow.Expression.{is_digit}
use open_git.Workflow.Eval.Result.{Result, ok, panic, ◌>>=◌}

-- A machine integer by its sign; `negative n` is `-n`.
pub data Integer : Type 0 where
  nonnegative : ℕ → Integer
  negative : ℕ → Integer

-- The value of a run of decimal digits.
unfoldable pub digits_value : ℕ → Bytes → Option ℕ
digits_value acc [] = some acc
digits_value acc (c ∷ s) =
    let rest = digits_value (acc * 10 + (c - b'0')) s in if is_digit c then rest else none

abbrev pub unsigned : Bytes → Option ℕ
unsigned [] = none
unsigned (c ∷ s) = digits_value 0 (c ∷ s)

abbrev pub in_range : ℕ → ℕ → Option ℕ
in_range bound n = if ltb bound n then none else some n

abbrev pub signed : ℕ → Integer
signed zero = nonnegative 0
signed (suc n) = negative (suc n)

-- `strconv.Atoi` on a 64-bit machine: an optional sign, digits, and the range of int64.
unfoldable pub atoi : Bytes → Option Integer
unfolding digits_value
atoi [] = none
atoi (c ∷ s) =
    if c == b'-'
    then Option.map signed (option_bind (unsigned s) (in_range (2 ^ 63)))
    else Option.map nonnegative
        (option_bind (unsigned (if c == b'+' then s else c ∷ s)) (in_range (2 ^ 63 - 1)))

-- `args[n+1]` under the guard `n+1 < len(args)`: `none` where the guard fails. The sum wraps at the
-- largest int64, and a negative index panics.
pub data Slot : Type 0 where
  filled : Bytes → Slot
  literally : Slot
  out_of_range : Slot

abbrev pub slot_at : Option Bytes → Slot
slot_at none = literally
slot_at (some a) = filled a

unfoldable pub slot : List Bytes → Integer → Slot
slot args (nonnegative n) =
    if n == 2 ^ 63 - 1 then out_of_range else slot_at (get_elem? args (n + 1))
slot args (negative n) = if n == 1 then slot_at (get_elem? args 0) else out_of_range

abbrev pub slot_of : List Bytes → Option Integer → Slot
slot_of args none = literally
slot_of args (some n) = slot args n

-- `strings.IndexByte(s, '}')`
unfoldable pub index_close : Bytes → Option ℕ
index_close [] = none
index_close (c ∷ s) = let rest = index_close s in if c == b'}' then some 0 else Option.map suc rest

-- What the placeholder behind a `{` asks for, and the bytes up to and with its `}`.
unfoldable pub placeholder : List Bytes → Bytes → Slot × ℕ
placeholder args s = elim (index_close s) [
  | none ↦ (literally, 0)
  | some n ↦ (slot_of args (atoi (take n s)), n + 1)
]

abbrev pub write : Bytes → Result Bytes → Result Bytes
write out rest = rest >>= λ s. ok (out ++ s)

abbrev pub starts_with : ℕ → Bytes → Bool
starts_with b [] = false
starts_with b (c ∷ _) = c == b

abbrev pub fill : Slot → Result Bytes → Result Bytes → Result Bytes
fill (filled a) placed kept = write a placed
fill literally placed kept = kept
fill out_of_range placed kept = panic

-- The loop of `formatFn`. The first number counts the bytes that `i += end` or `i++` still skips.
unfoldable pub format_loop : List Bytes → ℕ → Bytes → Result Bytes
format_loop args skip [] = ok []
format_loop args (suc skip) (c ∷ s) = format_loop args skip s
format_loop args zero (c ∷ s) =
    let kept = write (c ∷ []) (format_loop args 0 s) in
    let doubled = write (c ∷ []) (format_loop args 1 s) in
    let (asked, width) = placeholder args s in
    let placed = format_loop args width s in
    if c == b'{'
    then if starts_with b'{' s then doubled else fill asked placed kept
    else if c == b'}' && starts_with b'}' s
    then doubled
    else kept
