-- ===== src/Workflow/Expression/Parse/Methods.antt =====
-- The methods of `exprParser` of expression.go below `parsePrimary`: chains of operators, texts in
-- quotes, calls and paths.
use open_git.Base.{
  ℕ, zero, suc, Bool, true, false, List, [], ◌∷◌, ◌++◌, Option, none, some, Bytes, codes, length,
  ◌==◌, if◌then◌else◌, is_member, ◌>>=◌,
}
use open_git.Workflow.Expression.{
  context, unary, binary, call, Operand, absent, present, ExprNodes, nil, cons, error, warning,
  Diagnostic, Cursor, peek, advance, skip_whitespace, match, parse_ident, diagnostic,
  expected_close_args, unknown_function, unterminated_string,
}

-- What a parsing method returns, with the cursor that it leaves.
pub record Outcome : Type 0 where
  pub node : Operand
  pub diags : List Diagnostic
  pub cursor : Cursor

abbrev pub Parser : Type 0
Parser = Cursor → Option Outcome

unfoldable pub known_functions : List Bytes
known_functions =
    codes "contains"
    ∷ codes "startsWith"
    ∷ codes "endsWith"
    ∷ codes "format"
    ∷ codes "join"
    ∷ codes "toJSON"
    ∷ codes "fromJSON"
    ∷ codes "hashFiles"
    ∷ codes "success"
    ∷ codes "failure"
    ∷ codes "always"
    ∷ codes "cancelled"
    ∷ []

-- The `switch` over `p.match(op)`: the first operator that matches.
unfoldable pub match_any : List Bytes → Cursor → Option Bytes × Cursor
match_any [] p = (none, p)
match_any (op ∷ ops) p = let (hit, q) = match op p in if hit then (some op, q) else match_any ops q

-- One binary level: `parseOr`, `parseAnd`, `parseEquality` and `parseComparison` differ only in
-- their operators and in the method for the operands. Each round of the loop passes an operator.
unfoldable pub chain_loop : List Bytes → Parser → ℕ → Operand → List Diagnostic → Parser
chain_loop ops operand zero left diags p = none
chain_loop ops operand (suc fuel) left diags p =
    let found = match_any ops p in
    elim found.0 [
      | none ↦ some (record { node = left; diags = diags; cursor = found.1 })
      | some op ↦ do
        right ← operand found.1
        chain_loop ops operand fuel (present (binary op left right.node)) (diags ++ right.diags)
            right.cursor
    ]

unfoldable pub chain : List Bytes → Parser → Parser
chain ops operand p = do
  first ← operand p
  chain_loop ops operand (suc (length first.cursor.rest)) first.node first.diags first.cursor

-- `parseUnary`: each `!` is passed before the next call.
unfoldable pub unary_loop : Parser → ℕ → Parser
unary_loop primary zero p = none
unary_loop primary (suc fuel) p =
    let (hit, q) = match (codes "!") p in
    let negated = do
      o ← unary_loop primary fuel q
      some
          (record { node = present (unary (codes "!") o.node); diags = o.diags; cursor = o.cursor })
    in if hit then negated else primary q

unfoldable pub parse_unary : Parser → Parser
parse_unary primary p = unary_loop primary (suc (length p.rest)) p

-- The loop of `parseString`, from behind the opening quote.
unfoldable pub string_loop : ℕ → Bytes → Bytes → Cursor → Bytes × List Diagnostic × Cursor
string_loop quote out [] p = (out, diagnostic p error unterminated_string ∷ [], p)
string_loop quote out (c ∷ []) p =
    if c == quote
    then (out, [], advance p)
    else (out ++ c ∷ [], diagnostic (advance p) error unterminated_string ∷ [], advance p)
string_loop quote out (c ∷ d ∷ r) p =
    let escaped = string_loop quote (out ++ d ∷ []) r (advance (advance p)) in
    let plain = string_loop quote (out ++ c ∷ []) (d ∷ r) (advance p) in
    if c == quote then (out, [], advance p) else if c == 92 then escaped else plain

unfoldable pub parse_string : ℕ → Cursor → Bytes × List Diagnostic × Cursor
parse_string quote p = let q = advance p in string_loop quote [] q.rest q

abbrev pub push_arg : Operand → ExprNodes → ExprNodes
push_arg absent rest = rest
push_arg (present n) rest = cons n rest

pub record Args : Type 0 where
  pub nodes : ExprNodes
  pub diags : List Diagnostic
  pub cursor : Cursor

-- The argument loop of `parseFunctionCall`: each further round passes a comma.
unfoldable pub args_loop : Parser → ℕ → Cursor → Option Args
args_loop expr zero p = none
args_loop expr (suc fuel) p = do
  arg ← expr p
  let found = match (codes ",") arg.cursor
  elim found.0 [
    | true ↦ do
      more ← args_loop expr fuel (skip_whitespace found.1)
      some (record {
        nodes = push_arg arg.node more.nodes;
        diags = arg.diags ++ more.diags;
        cursor = more.cursor;
      })
    | false ↦ some (record { nodes = push_arg arg.node nil; diags = arg.diags; cursor = found.1 })
  ]

abbrev pub closing : Bool → Cursor → List Diagnostic
closing hit q = if hit then [] else diagnostic q error expected_close_args ∷ []

abbrev pub naming : Bytes → Cursor → List Diagnostic
naming name q =
    if is_member name known_functions then [] else diagnostic q warning unknown_function ∷ []

-- The end of `parseFunctionCall`: the closing bracket and the warning on an unknown name.
unfoldable pub close_call : Bytes → Args → Outcome
close_call name args =
    let (hit, q) = match (codes ")") args.cursor in
    record {
      node = present (call name args.nodes);
      diags = (args.diags ++ closing hit q) ++ naming name q;
      cursor = q;
    }

unfoldable pub parse_function_call : Parser → Bytes → Parser
parse_function_call expr name p =
    let (hit, q) = match (codes "(") p in
    if hit
    then (let r = skip_whitespace q in
        if peek r == b')'
        then some (close_call name (record { nodes = nil; diags = []; cursor = r }))
        else do args ← args_loop expr (suc (length r.rest)) r; some (close_call name args))
    else some (record { node = present (context name); diags = []; cursor = q })

-- The loop over `(.ident)*` of a context path: each round passes a dot.
unfoldable pub path_loop : ℕ → Bytes → Parser
path_loop zero path p = none
path_loop (suc fuel) path p =
    let (hit, q) = match (codes ".") p in
    let (part, r) = parse_ident q in
    let longer = path_loop fuel (path ++ b'.' ∷ part) r in
    if hit then longer else some (record { node = present (context path); diags = []; cursor = q })
