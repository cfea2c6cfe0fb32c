-- ===== src/Workflow/Interpolate/Extract.antt =====
-- `ExtractExpressions` of backend/internal/infrastructure/workflow/expression.go.
use open_git.Base.{
  ℕ, zero, suc, ◌+◌, ◌-◌, ◌≤◌, ◌<◌, ◌≡◌, refl, List, [], ◌∷◌, ◌++◌, map, Option, none, some, Bytes,
  length, drop, take, index_of, ◌>>=◌, arith, subst, sym, length-drop, Option-cases, inl, inr,
}
use open_git.Workflow.Expression.{
  ExprNode, Diagnostic, error, Message, nesting_too_deep, unclosed_expression,
}
use open_git.Workflow.Expression.Text.{trim_space}
use open_git.Workflow.Expression.Parse.{parse_expression}
use open_git.Workflow.Expression.Parse.Total.{parse_expression-answers}
use open_git.Workflow.Interpolate.{opening, scan_span, Scanned, closes_at, too_deep, never_closes}
use open_git.Workflow.Interpolate.Scan.{index_of-Within, Within}

abbrev pub Found : Type 0
Found = List ExprNode × List Diagnostic

abbrev span_error : ℕ → Message → Found
span_error base m = ([], record { line = base; col = 1; severity = error; message = m } ∷ [])

-- `exprDiags[j].Line += baseLine - 1`
abbrev shift_line : ℕ → Diagnostic → Diagnostic
shift_line base d = record d { line = d.line + base - 1 }

abbrev join : ℕ → Found → Found → Found
join base (ns, ds) (ms, es) = (ns ++ ms, map (shift_line base) ds ++ es)

-- A round of the outer loop, from behind an opening; `rest` is the rounds that follow.
unfoldable pub extract_span : ℕ → (Bytes → Option Found) → Bytes → Scanned → Option Found
extract_span base rest behind too_deep = some (span_error base nesting_too_deep)
extract_span base rest behind never_closes = some (span_error base unclosed_expression)
extract_span base rest behind (closes_at n) = do
  parsed ← parse_expression (trim_space (take n behind))
  more ← rest (drop (n + 2) behind)
  some (join base parsed more)

-- The outer loop; a round passes an opening, and `none` is fuel that runs out.
unfoldable pub extract_loop : ℕ → ℕ → Bytes → Option Found
extract_loop base zero s = none
extract_loop base (suc fuel) s = elim (index_of opening s) [
  | none ↦ some ([], [])
  | some start ↦
      let behind = drop (start + 3) s in
      extract_span base (extract_loop base fuel) behind (scan_span 1 0 behind)
]

unfoldable pub extract_expressions : Bytes → ℕ → Option Found
extract_expressions s base = extract_loop base (suc (length s)) s

abbrev IsAnswer {ℓ} : {A : Type ℓ} → Option A → Type 0
IsAnswer none = ⊥
IsAnswer (some _) = Unit

join-IsAnswer :
    (base : ℕ) (p r : Option Found)
    → IsAnswer p
    → IsAnswer r
    → IsAnswer (p >>= λ parsed. r >>= λ more. some (join base parsed more))
join-IsAnswer base none r hp hr = hp
join-IsAnswer base (some _) none hp hr = hr
join-IsAnswer base (some _) (some _) hp hr = tt

parse_expression-IsAnswer : (raw : Bytes) → IsAnswer (parse_expression raw)
parse_expression-IsAnswer raw =
    let (nodes, diags, e) = parse_expression-answers raw in subst (λ r. IsAnswer r) (sym e) tt

extract_span-IsAnswer :
    (base : ℕ) (rest : Bytes → Option Found) (behind : Bytes) (x : Scanned)
    → ((t : Bytes) → length t ≤ length behind → IsAnswer (rest t))
    → IsAnswer (extract_span base rest behind x)
unfolding extract_span
extract_span-IsAnswer base rest behind too_deep h = tt
extract_span-IsAnswer base rest behind never_closes h = tt
extract_span-IsAnswer base rest behind (closes_at n) h =
    join-IsAnswer base (parse_expression (trim_space (take n behind))) (rest (drop (n + 2) behind))
      (parse_expression-IsAnswer (trim_space (take n behind)))
      (h (drop (n + 2) behind) (omega (arith, length-drop (n + 2) behind)))

extract_loop-IsAnswer :
    (base fuel : ℕ) (s : Bytes) → length s < fuel → IsAnswer (extract_loop base fuel s)
unfolding extract_loop
extract_loop-IsAnswer base zero s h = absurd (omega arith)
extract_loop-IsAnswer base (suc fuel) s h = elim (Option-cases (index_of opening s)) [
  | inl no_opening ↦ rw (no_opening, extract_loop, IsAnswer) tt
  | inr (start, e) ↦
      let within : Within opening s (some start) = rw e at (index_of-Within opening s) in
      let behind = drop (start + 3) s in
      rw (e, extract_loop, IsAnswer)
        (extract_span-IsAnswer base (extract_loop base fuel) behind (scan_span 1 0 behind)
          λ t shorter. extract_loop-IsAnswer base fuel t (omega (arith, length-drop (start + 3) s)))
]

IsAnswer-some {ℓ} : {A : Type ℓ} (r : Option A) → IsAnswer r → (a : A) × (r ≡ some a)
IsAnswer-some none h = absurd h
IsAnswer-some (some a) h = (a, refl)

-- `ExtractExpressions` answers for every text: its loops end, and so do those of the parser on
-- each span.
extract_expressions-answers :
    (s : Bytes) (base : ℕ) → (f : Found) × (extract_expressions s base ≡ some f)
unfolding extract_expressions
extract_expressions-answers s base =
    IsAnswer-some (extract_loop base (suc (length s)) s)
      (extract_loop-IsAnswer base (suc (length s)) s (omega arith))
