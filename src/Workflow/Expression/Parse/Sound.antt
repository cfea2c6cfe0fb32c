-- ===== src/Workflow/Expression/Parse/Sound.antt =====
-- The methods of `exprParser` in expression.go: whole syntax trees, and what a parser promises.
use open_git.Base.{
  is_member, ℕ, zero, suc, ◌≤◌, ◌<◌, ◌≡◌, refl, Bool, true, false, List, [], ◌∷◌, ◌++◌, Option,
  none, some, Bytes, codes, arith, Option-cases, inl, inr, ◌||◌, ◌>>=◌,
}
use open_git.Workflow.Expression.{
  ExprNode, literal, context, unary, binary, call, other, Operand, absent, present, ExprNodes, nil,
  cons, error, warning, Diagnostic, Cursor,
}
use open_git.Workflow.Expression.Parse.{
  Outcome, Parser, match_any, chain_loop, chain, or_ops, and_ops, equality_ops, comparison_ops,
}
use open_git.Workflow.Expression.Parse.Progress.{left, NonEmpty, match_any_le, match_any-some}

-- Some diagnostic has the severity `error`.
abbrev pub has_error : List Diagnostic → Bool
has_error [] = false
has_error (d ∷ ds) = elim d.severity [ error ↦ true | warning ↦ has_error ds ]

pub has_error-append :
    (xs ys : List Diagnostic) → has_error (xs ++ ys) ≡ (has_error xs || has_error ys)
has_error-append [] ys = refl
has_error-append (x ∷ xs) ys = ground (arith, has_error-append xs ys)

pub has_error-append_false :
    (xs ys : List Diagnostic)
    → has_error (xs ++ ys) ≡ false
    → (has_error xs ≡ false) × (has_error ys ≡ false)
has_error-append_false xs ys h = ground (arith, has_error-append xs ys)

-- The operators that the grammar has.
abbrev pub binary_ops : List Bytes
binary_ops = or_ops ++ and_ops ++ equality_ops ++ comparison_ops

-- A tree with every operand present, the grammar's operators and no unknown node.
abbrev mutual
  pub IsWhole : ExprNode → Type 0
  IsWhole (literal _) = Unit
  IsWhole (context _) = Unit
  IsWhole (unary op o) = (op ≡ codes "!") × IsGiven o
  IsWhole (binary op l r) = (is_member op binary_ops ≡ true) × IsGiven l × IsGiven r
  IsWhole (call _ args) = AreWhole args
  IsWhole (other _) = ⊥

  pub IsGiven : Operand → Type 0
  IsGiven absent = ⊥
  IsGiven (present n) = IsWhole n

  pub AreWhole : ExprNodes → Type 0
  AreWhole nil = Unit
  AreWhole (cons n ns) = IsWhole n × AreWhole ns

-- What a parser promises of an answer: no byte is read twice, and without an error the node is
-- there and whole.
pub record Post (n : ℕ) (o : Outcome) : Type 0 where
  pub shorter : left o.cursor ≤ n
  pub whole : has_error o.diags ≡ false → IsGiven o.node

abbrev pub Ensures : ℕ → Option Outcome → Type 0
Ensures n none = ⊥
Ensures n (some o) = Post n o

-- `p` keeps that promise on every input of fewer than `k` bytes.
abbrev pub IsSound : ℕ → Parser → Type 0
IsSound k parser = (p : Cursor) → left p < k → Ensures (left p) (parser p)

pub Ensures-weaken : (m n : ℕ) (r : Option Outcome) → m ≤ n → Ensures m r → Ensures n r
Ensures-weaken m n none h e = e
Ensures-weaken m n (some o) h e = record { shorter = omega arith; whole = e.whole }

-- A step behind a parser that keeps its promise.
pub Ensures-bind :
    (n : ℕ) (r : Option Outcome) (f : Outcome → Option Outcome)
    → Ensures n r
    → ((o : Outcome) → Post n o → Ensures n (f o))
    → Ensures n (r >>= f)
Ensures-bind n none f e k = e
Ensures-bind n (some o) f e k = k o e

abbrev pub IsLevel : List Bytes → Type 0
IsLevel ops =
    NonEmpty ops × ((op : Bytes) → is_member op ops ≡ true → is_member op binary_ops ≡ true)

module _ (k : ℕ) (ops : List Bytes) (level : IsLevel ops) (operand : Parser)
    (sound : IsSound k operand) where
  IsGiven-binary :
      (l r : Operand) (ds es : List Diagnostic) (op : Bytes)
      → is_member op ops ≡ true
      → (has_error ds ≡ false → IsGiven l)
      → (has_error es ≡ false → IsGiven r)
      → has_error (ds ++ es) ≡ false
      → IsGiven (present (binary op l r))
  IsGiven-binary l r ds es op m wl wr e =
      let (clear_l, clear_r) = has_error-append_false ds es e in
      (level.1 op m, wl clear_l, wr clear_r)

  chain_loop-Ensures :
      (fuel : ℕ) (node : Operand) (diags : List Diagnostic) (p : Cursor)
      → left p < fuel
      → left p < k
      → (has_error diags ≡ false → IsGiven node)
      → Ensures (left p) (chain_loop ops operand fuel node diags p)
  unfolding chain_loop
  chain_loop-Ensures zero node diags p h hk w = absurd (omega arith)
  chain_loop-Ensures (suc fuel) node diags p h hk w = elim (Option-cases (match_any ops p).0) [
    | inl none_left ↦
        rw (none_left, chain_loop, Ensures)
          (record { shorter = match_any_le ops p level.0; whole = w })
    | inr (op, found) ↦
        let (passed, m) = match_any-some ops p level.0 found in
        let q = (match_any ops p).1 in
        rw (found, chain_loop, Ensures)
          (Ensures-weaken (left q) (left p) _ (omega arith) (
            Ensures-bind (left q) (operand q) _ (sound q (omega arith)) λ o post.
              Ensures-weaken (left o.cursor) (left q) _ post.shorter (
                chain_loop-Ensures fuel _ _ o.cursor (omega arith) (omega arith)
                  (IsGiven-binary node o.node diags o.diags op m w post.whole))))
  ]

  pub chain-IsSound : IsSound k (chain ops operand)
  unfolding chain
  chain-IsSound p h = Ensures-bind (left p) (operand p) _ (sound p h) λ o post.
      Ensures-weaken (left o.cursor) (left p) _ post.shorter
        (chain_loop-Ensures _ o.node o.diags o.cursor (omega arith) (omega arith) post.whole)
