-- ===== src/Workflow/Interpolate/Substitute.antt =====
-- `InterpolateString` of expression_eval.go, on texts with and without a span.
use open_git.Base.{
  ℕ, zero, suc, ◌+◌, ◌<◌, ◌≡◌, refl, ◌++◌, none, Bytes, length, drop, take, arith, ap, ◌∙◌,
  length-append,
}
use open_git.Workflow.Expression.Text.{trim_space}
use open_git.Workflow.Eval.{Runtime, EvalContext}
use open_git.Workflow.Interpolate.{
  opening, closing, next_span, Next, no_span, unclosed, span_at, Returned, returned, write_span,
  evaluate_inner, interpolate_round, interpolate_loop, interpolate_string,
}
use open_git.Workflow.Interpolate.Spans.{IsShorter, next_span-IsShorter}
use open_git.Workflow.Interpolate.Plain.{
  NoDollar, NoBrace, index_of-none, index_of-opening, find_expr_end-closing, drop-length-append,
  take-length-append,
}

abbrev pub spanned : Bytes → Bytes → Bytes → Bytes
spanned p e rest = p ++ (opening ++ (e ++ (closing ++ rest)))

length-spanned : (p e rest : Bytes) → length rest < length (spanned p e rest)
length-spanned p e rest = omega (
  arith,
  length-append {0} p (opening ++ (e ++ (closing ++ rest))),
  length-append {0} e (closing ++ rest),
)

next_span-plain : (p : Bytes) → NoDollar p → next_span p ≡ no_span
unfolding next_span
next_span-plain p h = rw (index_of-none p h, next_span)

span_at-same :
    {b c i j a d : Bytes}
    → b ≡ c
    → i ≡ j
    → a ≡ d
    → span_at (record { before = b; inner = i; after = a })
      ≡ span_at (record { before = c; inner = j; after = d })
span_at-same p q r = λ k. span_at (record { before = p k; inner = q k; after = r k })

next_span-spanned :
    (p e rest : Bytes)
    → NoDollar p
    → NoDollar e
    → NoBrace e
    → next_span (spanned p e rest)
      ≡ span_at (record { before = p; inner = trim_space e; after = rest })
unfolding next_span
next_span-spanned p e rest hp he hb =
    let tail = e ++ (closing ++ rest) in
    rw (index_of-opening p tail hp, next_span)
      (rw (drop-length-append p (opening ++ tail) 3) (
        rw (find_expr_end-closing e rest he hb) (
          span_at-same (take-length-append p (opening ++ tail))
            (ap (λ b. trim_space (take (length e) b)) (drop-length-append p (opening ++ tail) 3)
              ∙ ap trim_space (take-length-append e (closing ++ rest)))
            (ap (drop (length e + 2)) (drop-length-append p (opening ++ tail) 3)
              ∙ drop-length-append e (closing ++ rest) 2))))

module _ (go : Runtime) (ctx : EvalContext) where
  round-same :
      (f g : Bytes → Returned Bytes) (s : Bytes) (x : Next)
      → IsShorter s x
      → ((t : Bytes) → length t < length s → f t ≡ g t)
      → interpolate_round go ctx f s x ≡ interpolate_round go ctx g s x
  unfolding interpolate_round
  round-same f g s no_span h k = refl
  round-same f g s unclosed h k = refl
  round-same f g s (span_at p) h k =
      ap (write_span p.before (evaluate_inner go ctx p.inner)) (k p.after h)

  -- Fuel above the length gives one answer.
  loop-same :
      (f g : ℕ) (s : Bytes)
      → length s < f
      → length s < g
      → interpolate_loop go ctx f s ≡ interpolate_loop go ctx g s
  unfolding interpolate_loop
  loop-same zero g s hf hg = absurd (omega arith)
  loop-same (suc f) zero s hf hg = absurd (omega arith)
  loop-same (suc f) (suc g) s hf hg =
      round-same (interpolate_loop go ctx f) (interpolate_loop go ctx g) s (next_span s)
        (next_span-IsShorter s) λ t shorter. loop-same f g t (omega arith) (omega arith)

  -- A text without a dollar sign is returned as it is.
  interpolate_string-plain :
      (p : Bytes) → NoDollar p → interpolate_string go ctx p ≡ returned p none
  unfolding interpolate_string interpolate_loop interpolate_round
  interpolate_string-plain p h = rw (next_span-plain p h)

  -- A span, behind a text without a dollar sign and with neither a dollar sign nor a closing brace
  -- in it, is replaced by its value; the text before it stays, and the rest is interpolated by
  -- itself. The first error of the two is the one that is returned.
  pub interpolate_string-span :
      (p e rest : Bytes)
      → NoDollar p
      → NoDollar e
      → NoBrace e
      → interpolate_string go ctx (spanned p e rest)
        ≡ write_span p (evaluate_inner go ctx (trim_space e)) (interpolate_string go ctx rest)
  unfolding interpolate_string interpolate_loop interpolate_round
  interpolate_string-span p e rest hp he hb =
      let s = spanned p e rest in
      rw (next_span-spanned p e rest hp he hb) (
        ap (write_span p (evaluate_inner go ctx (trim_space e)))
          (loop-same (length s) (suc (length rest)) rest (length-spanned p e rest) (omega arith)))
