-- ===== src/Workflow/Expression/Parse/Progress.antt =====
-- The cursor of `exprParser` in expression.go: how much of the text its steps leave.
use open_git.Base.{
  is_member, ℕ, zero, suc, ◌+◌, ◌-◌, ◌≤◌, ◌<◌, ◌≡◌, refl, Bool, true, List, [], ◌∷◌, ◌++◌, Option,
  none, some, Bytes, length, ◌==◌, arith, Bool-cases, inl, inr, All, bytes_eq_refl,
  has_prefix-length,
}
use mathlib.Core.Path.{subst}
use open_git.Workflow.Expression.{
  Cursor, advance, advance_by, span, skip_whitespace, match, match_keyword, parse_ident,
  parse_number, peek,
}
use open_git.Workflow.Expression.Parse.{match_any, string_loop, parse_string}

-- What is left to read, in bytes.
abbrev pub left : Cursor → ℕ
left p = length p.rest

advance_over-left : (s : Bytes) (p : Cursor) → p.rest ≡ s → left (advance p) ≡ length s - 1
unfolding advance
advance_over-left [] p h = ground (arith, h)
advance_over-left (c ∷ r) p h = ground (arith, h)

pub left-advance : (p : Cursor) → left (advance p) ≡ left p - 1
left-advance p = advance_over-left p.rest p refl

pub left-advance_by : (n : ℕ) (p : Cursor) → left (advance_by n p) ≡ left p - n
unfolding advance_by
left-advance_by zero p = omega arith
left-advance_by (suc n) p = omega (arith, left-advance_by n (advance p), left-advance p)

pub left-span : (test : ℕ → Bool) (s : Bytes) (p : Cursor) → left (span test s p).1 ≤ left p
unfolding span
left-span test [] p = omega arith
left-span test (c ∷ r) p = ground (arith, left-span test r (advance p), left-advance p)

pub left-skip_whitespace : (p : Cursor) → left (skip_whitespace p) ≤ left p
unfolding skip_whitespace
left-skip_whitespace p = left-span _ p.rest p

pub match_le : (s : Bytes) (p : Cursor) → left (match s p).1 ≤ left p
unfolding match
match_le s p =
    ground (arith, left-skip_whitespace p, left-advance_by (length s) (skip_whitespace p))

-- A match that succeeds passes as many bytes as it has.
pub match_lt :
    (s : Bytes) (p : Cursor) → (match s p).0 ≡ true → left (match s p).1 + length s ≤ left p
unfolding match
match_lt s p h = ground (
  arith,
  left-skip_whitespace p,
  left-advance_by (length s) (skip_whitespace p),
  has_prefix-length (skip_whitespace p).rest s,
)

pub match_keyword_le : (s : Bytes) (p : Cursor) → left (match_keyword s p).1 ≤ left p
unfolding match_keyword
match_keyword_le s p =
    ground (arith, left-skip_whitespace p, left-advance_by (length s) (skip_whitespace p))

pub parse_ident_le : (p : Cursor) → left (parse_ident p).1 ≤ left p
unfolding parse_ident
parse_ident_le p = left-span _ p.rest p

pub parse_number_le : (p : Cursor) → left (parse_number p).1 ≤ left p
unfolding parse_number
parse_number_le p = elim (Bool-cases (peek p == b'.')) [
  | inl dot ↦ rw dot (omega arith)
  | inr other ↦ rw other (left-span _ p.rest p)
]

string_loop_le : (q : ℕ) (out s : Bytes) (p : Cursor) → left (string_loop q out s p).2 ≤ left p
unfolding string_loop
string_loop_le q out [] p = omega arith
string_loop_le q out (c ∷ []) p = ground (arith, left-advance p)
string_loop_le q out (c ∷ d ∷ r) p = ground (
  arith,
  left-advance p,
  left-advance (advance p),
  string_loop_le q (out ++ d ∷ []) r (advance (advance p)),
  string_loop_le q (out ++ c ∷ []) (d ∷ r) (advance p),
)

pub parse_string_le : (q : ℕ) (p : Cursor) → left (parse_string q p).2 ≤ left p
unfolding parse_string
parse_string_le q p =
    omega (arith, left-advance p, string_loop_le q [] (advance p).rest (advance p))

-- The operators of a level are texts that have a byte at least.
abbrev pub NonEmpty : List Bytes → Type 0
NonEmpty = All (λ op. 0 < length op)

-- What the search for an operator answers: one of the list, with its bytes passed.
abbrev Found : List Bytes → Cursor → Option Bytes × Cursor → Type 0
Found ops p (none, q) = left q ≤ left p
Found ops p (some op, q) = (left q < left p) × (is_member op ops ≡ true)

Found-weaken :
    (op : Bytes) (ops : List Bytes) (p q : Cursor) (r : Option Bytes × Cursor)
    → left q ≤ left p
    → Found ops q r
    → Found (op ∷ ops) p r
unfolding is_member
Found-weaken op ops p q (none, r) h f = omega arith
Found-weaken op ops p q (some o, r) h f = (omega arith, ground (arith, f.1))

match_any-Found : (ops : List Bytes) (p : Cursor) → NonEmpty ops → Found ops p (match_any ops p)
unfolding match_any is_member
match_any-Found [] p h = omega arith
match_any-Found (op ∷ ops) p h = elim (Bool-cases (match op p).0) [
  | inl hit ↦ rw hit (omega (arith, match_lt op p hit), ground (arith, bytes_eq_refl op))
  | inr miss ↦ rw miss (
      Found-weaken op ops p (match op p).1 _ (match_le op p)
        (match_any-Found ops (match op p).1 h.1))
]

Found-le :
    (ops : List Bytes) (p : Cursor) (r : Option Bytes × Cursor) → Found ops p r → left r.1 ≤ left p
Found-le ops p (none, q) f = f
Found-le ops p (some op, q) f = omega arith

Found-some :
    (ops : List Bytes) (p : Cursor) (r : Option Bytes × Cursor) {op : Bytes}
    → Found ops p r
    → r.0 ≡ some op
    → (left r.1 < left p) × (is_member op ops ≡ true)
Found-some ops p (none, q) f h = cc
Found-some ops p (some o, q) {op} f h =
    let e : o ≡ op = cc in (f.0, subst (λ x. is_member x ops ≡ true) e f.1)

pub match_any_le :
    (ops : List Bytes) (p : Cursor) → NonEmpty ops → left (match_any ops p).1 ≤ left p
match_any_le ops p h = Found-le ops p _ (match_any-Found ops p h)

-- An operator that is found is one of the level's, and its bytes are passed.
pub match_any-some :
    (ops : List Bytes) (p : Cursor) {op : Bytes}
    → NonEmpty ops
    → (match_any ops p).0 ≡ some op
    → (left (match_any ops p).1 < left p) × (is_member op ops ≡ true)
match_any-some ops p h e = Found-some ops p (match_any ops p) (match_any-Found ops p h) e
