-- ===== src/Workflow/Expression/Parse/Total.antt =====
-- `ParseExpression` of expression.go, from the text to the tree.
use open_git.Base.{
  is_member, ℕ, zero, suc, ◌≡◌, refl, true, false, List, [], ◌∷◌, ◌++◌, Option, none, some, Bytes,
  length, arith, All, ◌>>=◌,
}
use mathlib.Core.Path.{subst}
use open_git.Workflow.Expression.{ExprNode, Operand, absent, present, Diagnostic, Cursor}
use open_git.Workflow.Expression.Text.{trim_space}
use open_git.Workflow.Expression.Parse.{
  Outcome, Parser, parse_comparison, parse_equality, parse_and, parse_or, or_ops, and_ops,
  equality_ops, comparison_ops, to_nodes, trailing, parse_trimmed, parse_expression,
}
use open_git.Workflow.Expression.Parse.Sound.{
  has_error, has_error-append_false, IsWhole, IsGiven, Ensures, IsSound, IsLevel, chain-IsSound,
}
use open_git.Workflow.Expression.Parse.Primary.{parse_unary-IsSound, parse_primary-IsSound}

is_member-append_left :
    (x : Bytes) (xs ys : List Bytes) → is_member x xs ≡ true → is_member x (xs ++ ys) ≡ true
unfolding is_member
is_member-append_left x [] ys h = cc
is_member-append_left x (y ∷ xs) ys h = ground (arith, is_member-append_left x xs ys)

is_member-append_right :
    (x : Bytes) (xs ys : List Bytes) → is_member x ys ≡ true → is_member x (xs ++ ys) ≡ true
unfolding is_member
is_member-append_right x [] ys h = h
is_member-append_right x (y ∷ xs) ys h = ground (arith, is_member-append_right x xs ys h)

or_ops-IsLevel : IsLevel or_ops
or_ops-IsLevel = (omega arith, λ op m. is_member-append_left op or_ops _ m)

and_ops-IsLevel : IsLevel and_ops
and_ops-IsLevel =
    (omega arith, λ op m. is_member-append_right op or_ops _ (is_member-append_left op and_ops _ m))

equality_ops-IsLevel : IsLevel equality_ops
equality_ops-IsLevel = (
  omega arith,
  λ op m.
      is_member-append_right op (or_ops ++ and_ops) _
        (is_member-append_left op equality_ops comparison_ops m),
)

comparison_ops-IsLevel : IsLevel comparison_ops
comparison_ops-IsLevel = (
  omega arith,
  λ op m. is_member-append_right op (or_ops ++ and_ops ++ equality_ops) comparison_ops m,
)

parse_and-IsSound : (k : ℕ) (expr : Parser) → IsSound k expr → IsSound (suc k) (parse_and expr)
unfolding parse_and parse_equality parse_comparison
parse_and-IsSound k expr sound = chain-IsSound (suc k) and_ops and_ops-IsLevel _ (
    chain-IsSound (suc k) equality_ops equality_ops-IsLevel _ (
      chain-IsSound (suc k) comparison_ops comparison_ops-IsLevel _
        (parse_unary-IsSound (suc k) _ (parse_primary-IsSound k expr sound))))

-- Fuel above the bytes that are left is enough: every bracket passes a byte.
parse_or-IsSound : (fuel : ℕ) → IsSound fuel (parse_or fuel)
unfolding parse_or
parse_or-IsSound zero p h = absurd (omega arith)
parse_or-IsSound (suc fuel) p h =
    chain-IsSound (suc fuel) or_ops or_ops-IsLevel _
      (parse_and-IsSound fuel (parse_or fuel) (parse_or-IsSound fuel)) p h

abbrev Answer : Type 0
Answer = Option (List ExprNode × List Diagnostic)

-- One node, or none where the text is blank.
abbrev pub node_count : Bytes → ℕ
node_count [] = 0
node_count (_ ∷ _) = 1

abbrev Parsed : Bytes → Answer → Type 0
Parsed s none = ⊥
Parsed s (some (nodes, diags)) =
    has_error diags ≡ false → All IsWhole nodes × (length nodes ≡ node_count s)

to_nodes-IsWhole : (o : Operand) → IsGiven o → All IsWhole (to_nodes o) × (length (to_nodes o) ≡ 1)
to_nodes-IsWhole absent h = absurd h
to_nodes-IsWhole (present n) h = ((h, tt), refl)

Parsed-outcome :
    (c : ℕ) (s : Bytes) (n : ℕ) (r : Option Outcome)
    → Ensures n r
    → Parsed
        (c ∷ s)
        (r >>= λ o. some (to_nodes o.node, o.diags ++ trailing o.cursor (trim_space o.cursor.rest)))
Parsed-outcome c s n none e = e
Parsed-outcome c s n (some o) e =
    λ clear. to_nodes-IsWhole o.node (e.whole (has_error-append_false o.diags _ clear).0)

parse_trimmed-Parsed : (s : Bytes) → Parsed s (parse_trimmed s)
unfolding parse_trimmed
parse_trimmed-Parsed [] = λ _. (tt, refl)
parse_trimmed-Parsed (c ∷ s) =
    let start : Cursor = record { rest = c ∷ s; line = 1; col = 1 } in
    Parsed-outcome c s (length (c ∷ s)) (parse_or (suc (length (c ∷ s))) start)
      (parse_or-IsSound (suc (length (c ∷ s))) start (omega arith))

Parsed-some :
    (s : Bytes) (r : Answer)
    → Parsed s r
    → (nodes : List ExprNode) × (diags : List Diagnostic) × (r ≡ some (nodes, diags))
Parsed-some s none h = absurd h
Parsed-some s (some (nodes, diags)) h = (nodes, diags, refl)

-- `ParseExpression` answers for every text: its loops end, whatever the text holds.
pub parse_expression-answers :
    (raw : Bytes)
    → (nodes : List ExprNode) × (diags : List Diagnostic) × (parse_expression raw
        ≡ some (nodes, diags))
unfolding parse_expression
parse_expression-answers raw =
    Parsed-some (trim_space raw) (parse_trimmed (trim_space raw))
      (parse_trimmed-Parsed (trim_space raw))

-- If `ParseExpression` reports no diagnostic of severity `error`, then each node that it returns is
-- whole (every operand of an operator is there, and each operator is one of the grammar's), and it
-- returns one node, or none where the text is blank.
pub parse_expression-IsWhole :
    (raw : Bytes) (nodes : List ExprNode) (diags : List Diagnostic)
    → parse_expression raw ≡ some (nodes, diags)
    → has_error diags ≡ false
    → All IsWhole nodes × (length nodes ≡ node_count (trim_space raw))
unfolding parse_expression
parse_expression-IsWhole raw nodes diags h clear =
    let fits : Parsed (trim_space raw) (some (nodes, diags)) =
      subst (Parsed (trim_space raw)) h (parse_trimmed-Parsed (trim_space raw)) in
    fits clear
