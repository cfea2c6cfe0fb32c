-- ===== src/Workflow/Expression.antt =====
-- backend/internal/infrastructure/workflow/expression.go: the syntax tree and the cursor.
use open_git.Base.{
  ℕ, zero, suc, ◌+◌, ◌-◌, ◌≤◌, ◌≡◌, Bool, true, false, ◌&&◌, ◌||◌, List, [], ◌∷◌, ◌++◌, reverse,
  Option, none, some, Bytes, codes, length, drop, take, ltb, leb, ◌==◌, if◌then◌else◌, has_prefix,
}
pub mod Parse
pub mod Text

-- `ExprNode`, a constructor for each `Kind`; `other` is a kind that the parser never makes.
-- `*ExprNode` is `Operand`, and `[]ExprNode` is `ExprNodes`.
mutual
  pub data ExprNode : Type 0 where
    literal : Bytes → ExprNode
    context : Bytes → ExprNode
    unary : Bytes → Operand → ExprNode
    binary : Bytes → Operand → Operand → ExprNode
    call : Bytes → ExprNodes → ExprNode
    other : Bytes → ExprNode

  pub data Operand : Type 0 where
    absent : Operand
    present : ExprNode → Operand

  pub data ExprNodes : Type 0 where
    nil : ExprNodes
    cons : ExprNode → ExprNodes → ExprNodes

pub data Severity : Type 0 where
  error warning : Severity

pub data Message : Type 0 where
  trailing_input unexpected_end expected_close double_quoted unexpected_character
        expected_close_args unknown_function unterminated_string nesting_too_deep
        unclosed_expression :
      Message

-- `Diagnostic`; of a message the kind is kept, not its formatted text.
pub record Diagnostic : Type 0 where
  pub line : ℕ
  pub col : ℕ
  pub severity : Severity
  pub message : Message

-- `exprParser`. `rest` is `input[pos:]`, so `pos >= len(input)` is `rest` empty.
pub record Cursor : Type 0 where
  pub rest : Bytes
  pub line : ℕ
  pub col : ℕ

-- `unicode.IsSpace`, `IsDigit` and `IsLetter` at `rune(b)` for a byte `b`: the Latin-1 ranges.
unfoldable pub is_space : ℕ → Bool
is_space b = (leb 9 b && leb b 13) || b == 32 || b == 133 || b == 160

unfoldable pub is_digit : ℕ → Bool
is_digit b = leb b'0' b && leb b b'9'

unfoldable pub is_letter : ℕ → Bool
is_letter b =
    (leb b'a' b && leb b b'z')
    || (leb b'A' b && leb b b'Z')
    || b == 170
    || b == 181
    || b == 186
    || (leb 192 b && leb b 214)
    || (leb 216 b && leb b 246)
    || (leb 248 b && leb b 255)

-- `peek` answers 0 at the end of the input.
abbrev pub peek_byte : Bytes → ℕ
peek_byte [] = 0
peek_byte (c ∷ _) = c

unfoldable pub peek : Cursor → ℕ
peek p = peek_byte p.rest

abbrev advance_over : Bytes → Cursor → Cursor
advance_over [] p = p
advance_over (c ∷ r) p =
    if c == 10
    then record { rest = r; line = p.line + 1; col = 1 }
    else record { rest = r; line = p.line; col = p.col + 1 }

unfoldable pub advance : Cursor → Cursor
advance p = advance_over p.rest p

-- The loop `for i := 0; i < len(s); i++ { p.advance() }`.
unfoldable pub advance_by : ℕ → Cursor → Cursor
advance_by zero p = p
advance_by (suc n) p = advance_by n (advance p)

-- A loop `for p.pos < len(p.input) && test(p.peek()) { p.advance() }`: what is left, and what was
-- passed, `input[start:pos]`.
unfoldable pub span : (ℕ → Bool) → Bytes → Cursor → Bytes × Cursor
span test [] p = ([], p)
span test (c ∷ r) p =
    let rest = span test r (advance p) in if test c then (c ∷ rest.0, rest.1) else ([], p)

unfoldable pub skip_whitespace : Cursor → Cursor
skip_whitespace p = (span is_space p.rest p).1

-- A match skips white space even if it fails.
unfoldable pub match : Bytes → Cursor → Bool × Cursor
match s p =
    let q = skip_whitespace p in
    if has_prefix q.rest s then (true, advance_by (length s) q) else (false, q)

unfoldable pub is_word : ℕ → Bool
is_word c = is_letter c || is_digit c || c == b'_'

unfoldable pub match_keyword : Bytes → Cursor → Bool × Cursor
match_keyword kw p =
    let q = skip_whitespace p in
    if has_prefix q.rest kw
      && (if is_word (peek_byte (drop (length kw) q.rest)) then false else true)
    then (true, advance_by (length kw) q)
    else (false, q)

unfoldable pub parse_ident : Cursor → Bytes × Cursor
parse_ident p = span (λ c. is_letter c || is_digit c || c == b'_' || c == b'-') p.rest p

unfoldable pub parse_number : Cursor → Bytes × Cursor
parse_number p = if peek p == b'.' then ([], p) else span (λ c. is_digit c || c == b'.') p.rest p

abbrev pub diagnostic : Cursor → Severity → Message → Diagnostic
diagnostic p s m = record { line = p.line; col = p.col; severity = s; message = m }
