-- ===== src/Workflow/Expression/Parse.antt =====
-- backend/internal/infrastructure/workflow/expression.go: the recursive-descent parser.
-- A parser answers `none` only where its fuel runs out.
use open_git.Base.{
  ℕ, zero, suc, ◌+◌, ◌-◌, ◌≡◌, Bool, true, false, ◌&&◌, ◌||◌, List, [], ◌∷◌, ◌++◌, Option, none,
  some, Bytes, codes, length, ◌==◌, if◌then◌else◌, is_member, ◌>>=◌,
}
use open_git.Workflow.Expression.{
  ExprNode, literal, context, unary, binary, call, Operand, absent, present, ExprNodes, nil, cons,
  Severity, error, warning, Message, Diagnostic, Cursor, is_space, is_digit, is_letter, peek,
  advance, skip_whitespace, match, match_keyword, parse_ident, parse_number, diagnostic,
  trailing_input, unexpected_end, expected_close, double_quoted, unexpected_character,
  expected_close_args, unknown_function, unterminated_string,
}
use open_git.Workflow.Expression.Text.{trim_space}
pub mod Methods
unfoldable pub use Methods.*
pub mod Progress
pub mod Sound
pub mod Primary
pub mod Total

abbrev answer : Operand → List Diagnostic → Cursor → Option Outcome
answer node diags p = some (record { node = node; diags = diags; cursor = p })

abbrev refuse : Cursor → Message → Option Outcome
refuse p m = answer absent (diagnostic p error m ∷ []) p

-- `parsePrimary` from an identifier on.
unfoldable pub parse_name : Parser → Parser
parse_name expr p =
    let (ident, q) = parse_ident p in
    let r = skip_whitespace q in
    if peek r == b'('
    then parse_function_call expr ident r
    else path_loop (suc (length r.rest)) ident r

-- `parsePrimary` behind an opening bracket.
unfoldable pub parse_group : Parser → Parser
parse_group expr p = do
  o ← expr p
  let (hit, q) = match (codes ")") o.cursor
  answer o.node (if hit then o.diags else o.diags ++ diagnostic q error expected_close ∷ []) q

-- `parsePrimary` behind the keywords: a number, a name, or nothing that begins an expression.
unfoldable pub parse_word : Parser → Parser
parse_word expr p =
    if is_digit (peek p)
    then (let (val, q) = parse_number p in answer (present (literal val)) [] q)
    else if is_letter (peek p) || peek p == b'_'
    then parse_name expr p
    else refuse p unexpected_character

-- `parsePrimary` from the keywords on.
unfoldable pub parse_keyword : Parser → Parser
parse_keyword expr p =
    let (is_true, q) = match_keyword (codes "true") p in
    let (is_false, r) = match_keyword (codes "false") q in
    if is_true
    then answer (present (literal (codes "true"))) [] q
    else if is_false
    then answer (present (literal (codes "false"))) [] r
    else parse_word expr r

-- `parsePrimary` behind the bracket: a string first, then the keywords.
unfoldable pub parse_atom : Parser → Parser
parse_atom expr p =
    if peek p == 39
    then (let (val, diags, q) = parse_string 39 p in answer (present (literal val)) diags q)
    else if peek p == 34
    then refuse p double_quoted
    else parse_keyword expr p

unfoldable pub primary_body : Parser → Cursor → Bytes → Option Outcome
primary_body expr q [] = refuse q unexpected_end
primary_body expr q (_ ∷ _) =
    let (hit, r) = match (codes "(") q in if hit then parse_group expr r else parse_atom expr r

unfoldable pub parse_primary : Parser → Parser
parse_primary expr p = let q = skip_whitespace p in primary_body expr q q.rest

abbrev pub or_ops : List Bytes
or_ops = codes "||" ∷ []

abbrev pub and_ops : List Bytes
and_ops = codes "&&" ∷ []

abbrev pub equality_ops : List Bytes
equality_ops = codes "==" ∷ codes "!=" ∷ []

abbrev pub comparison_ops : List Bytes
comparison_ops = codes "<=" ∷ codes ">=" ∷ codes "<" ∷ codes ">" ∷ []

-- The levels above `parsePrimary`, over the method that a bracket calls.
unfoldable pub parse_comparison : Parser → Parser
parse_comparison expr = chain comparison_ops (parse_unary (parse_primary expr))

unfoldable pub parse_equality : Parser → Parser
parse_equality expr = chain equality_ops (parse_comparison expr)

unfoldable pub parse_and : Parser → Parser
parse_and expr = chain and_ops (parse_equality expr)

-- The fuel bounds how deep brackets nest.
unfoldable pub parse_or : ℕ → Parser
parse_or zero p = none
parse_or (suc fuel) p = chain or_ops (parse_and (parse_or fuel)) p

abbrev pub to_nodes : Operand → List ExprNode
to_nodes absent = []
to_nodes (present n) = n ∷ []

-- Non-blank text behind the expression is an error at the cursor.
abbrev pub trailing : Cursor → Bytes → List Diagnostic
trailing p [] = []
trailing p (_ ∷ _) = diagnostic p error trailing_input ∷ []

unfoldable pub parse_trimmed : Bytes → Option (List ExprNode × List Diagnostic)
parse_trimmed [] = some ([], [])
parse_trimmed (c ∷ s) =
    let start : Cursor = record { rest = c ∷ s; line = 1; col = 1 } in
    do
      o ← parse_or (suc (length (c ∷ s))) start
      some (to_nodes o.node, o.diags ++ trailing o.cursor (trim_space o.cursor.rest))

-- `ParseExpression`
unfoldable pub parse_expression : Bytes → Option (List ExprNode × List Diagnostic)
parse_expression raw = parse_trimmed (trim_space raw)
