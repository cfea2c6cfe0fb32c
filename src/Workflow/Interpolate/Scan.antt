-- ===== src/Workflow/Interpolate/Scan.antt =====
-- The two scanners for the end of a span: `findExprEnd`, and the inner loop of `ExtractExpressions`.
use open_git.Base.{
  ℕ, zero, suc, ◌+◌, ◌-◌, ◌≤◌, ◌≡◌, refl, true, [], ◌∷◌, Option, none, some, Bytes, length, drop,
  has_prefix, index_of, ◌==◌, arith, ap, Bool-cases, inl, inr, has_prefix-length,
}
use open_git.Workflow.Interpolate.{
  opening, closing, find_expr_end, scan_span, Scanned, closes_at, too_deep, never_closes, further,
}
use mathlib.Core.Option

-- What `ExtractExpressions` finds, in the terms of `findExprEnd`.
abbrev pub Agrees : Scanned → Option ℕ → Type 0
Agrees (closes_at n) r = r ≡ some n
Agrees never_closes r = r ≡ none
Agrees too_deep r = Unit

Agrees-further : (x : Scanned) (r : Option ℕ) → Agrees x r → Agrees (further x) (Option.map suc r)
Agrees-further (closes_at n) r h = ap (Option.map suc) h
Agrees-further never_closes r h = ap (Option.map suc) h
Agrees-further too_deep r h = tt

-- Where the scanner of `ExtractExpressions` answers, `findExprEnd` gives the same answer; the one
-- difference is the limit on nesting.
scan_span-Agrees :
    (depth skip : ℕ) (s : Bytes) → Agrees (scan_span depth skip s) (find_expr_end depth skip s)
unfolding scan_span find_expr_end
scan_span-Agrees depth skip [] = refl
scan_span-Agrees depth (suc skip) (c ∷ s) = Agrees-further _ _ (scan_span-Agrees depth skip s)
scan_span-Agrees depth zero (c ∷ s) =
    let deeper =
      Agrees-further (scan_span (depth + 1) 2 s) (find_expr_end (depth + 1) 2 s)
        (scan_span-Agrees (depth + 1) 2 s) in
    let shallower =
      Agrees-further (scan_span (depth - 1) 1 s) (find_expr_end (depth - 1) 1 s)
        (scan_span-Agrees (depth - 1) 1 s) in
    let onward =
      Agrees-further (scan_span depth 0 s) (find_expr_end depth 0 s) (scan_span-Agrees depth 0 s) in
    ground (arith, deeper, shallower, onward)

-- The closing braces stand where `findExprEnd` says.
abbrev pub IsEnd : Bytes → Option ℕ → Type 0
IsEnd s none = Unit
IsEnd s (some n) = (has_prefix (drop n s) closing ≡ true) × (n + 2 ≤ length s)

IsEnd-suc : (c : ℕ) (s : Bytes) (r : Option ℕ) → IsEnd s r → IsEnd (c ∷ s) (Option.map suc r)
IsEnd-suc c s none h = tt
IsEnd-suc c s (some n) h = (h.0, omega arith)

has_prefix-closing : (s : Bytes) → has_prefix s closing ≡ true → 2 ≤ length s
unfolding has_prefix
has_prefix-closing [] h = cc
has_prefix-closing (c ∷ []) h = ground arith
has_prefix-closing (c ∷ d ∷ s) h = omega arith

-- Where `findExprEnd` answers with an index, two closing braces stand there, within the text.
find_expr_end-IsEnd : (depth skip : ℕ) (s : Bytes) → IsEnd s (find_expr_end depth skip s)
unfolding find_expr_end
find_expr_end-IsEnd depth skip [] = tt
find_expr_end-IsEnd depth (suc skip) (c ∷ s) = IsEnd-suc c s _ (find_expr_end-IsEnd depth skip s)
find_expr_end-IsEnd depth zero (c ∷ s) =
    let deeper =
      IsEnd-suc c s (find_expr_end (depth + 1) 2 s) (find_expr_end-IsEnd (depth + 1) 2 s) in
    let shallower =
      IsEnd-suc c s (find_expr_end (depth - 1) 1 s) (find_expr_end-IsEnd (depth - 1) 1 s) in
    let onward = IsEnd-suc c s (find_expr_end depth 0 s) (find_expr_end-IsEnd depth 0 s) in
    elim (Bool-cases (has_prefix (c ∷ s) opening)) [
      | inl opens ↦ rw opens deeper
      | inr e ↦ rw e (elim (Bool-cases (has_prefix (c ∷ s) closing)) [
        | inl closes ↦ rw closes (elim (Bool-cases (depth == 1)) [
          | inl last ↦ rw last (closes, has_prefix-closing (c ∷ s) closes)
          | inr inner ↦ rw inner shallower
        ])
        | inr plain ↦ rw plain onward
      ])
    ]

-- An occurrence that `strings.Index` finds lies within the text.
abbrev pub Within : Bytes → Bytes → Option ℕ → Type 0
Within sub s none = Unit
Within sub s (some i) = i + length sub ≤ length s

Within-suc :
    (sub : Bytes) (c : ℕ) (s : Bytes) (r : Option ℕ)
    → Within sub s r
    → Within sub (c ∷ s) (Option.map suc r)
Within-suc sub c s none h = tt
Within-suc sub c s (some i) h = omega arith

pub index_of-Within : (sub s : Bytes) → Within sub s (index_of sub s)
unfolding index_of
index_of-Within sub [] = elim (Bool-cases (has_prefix [] sub)) [
  | inl e ↦ rw e (omega (arith, has_prefix-length [] sub e))
  | inr e ↦ rw e tt
]
index_of-Within sub (c ∷ s) = elim (Bool-cases (has_prefix (c ∷ s) sub)) [
  | inl e ↦ rw e (omega (arith, has_prefix-length (c ∷ s) sub e))
  | inr e ↦ rw e (Within-suc sub c s _ (index_of-Within sub s))
]
