-- ===== src/Workflow/Eval/Braces.antt =====
-- `formatFn` of expression_eval.go: doubled braces, and placeholders of negative numbers.
use open_git.Base.{
  ℕ, ◌≡◌, refl, false, ◌||◌, List, [], ◌∷◌, Bytes, ◌==◌, if◌then◌else◌, Bool-cases, inl, inr,
  ==_iff, subst, sym,
}
use open_git.Workflow.Eval.Result.{ok}
use open_git.Workflow.Eval.Format.{format_loop, write}

-- Each brace of a text doubled.
unfoldable escape : Bytes → Bytes
escape [] = []
escape (c ∷ s) = if c == b'{' || c == b'}' then c ∷ c ∷ escape s else c ∷ escape s

escape-plain :
    (c : ℕ) (s : Bytes) → (c == b'{') ≡ false → (c == b'}') ≡ false → escape (c ∷ s) ≡ c ∷ escape s
unfolding escape
escape-plain c s h k = rw (h, k)

format_loop-plain :
    (args : List Bytes) (c : ℕ) (t : Bytes)
    → (c == b'{') ≡ false
    → (c == b'}') ≡ false
    → format_loop args 0 (c ∷ t) ≡ write (c ∷ []) (format_loop args 0 t)
unfolding format_loop
format_loop-plain args c t h k = rw (h, k)

-- A template that is a text with its braces doubled is formatted to that text, whatever the
-- arguments are.
format_loop-escape : (args : List Bytes) (s : Bytes) → format_loop args 0 (escape s) ≡ ok s
unfolding format_loop escape
format_loop-escape args [] = refl
format_loop-escape args (c ∷ s) = elim (Bool-cases (c == b'{')) [
  | inl open_brace ↦ doubled b'{' ((==_iff c b'{').0 open_brace) (rw (format_loop-escape args s))
  | inr e ↦ elim (Bool-cases (c == b'}')) [
    | inl close_brace ↦
        doubled b'}' ((==_iff c b'}').0 close_brace) (rw (format_loop-escape args s))
    | inr plain ↦
        rw (escape-plain c s e plain)
          (rw (format_loop-plain args c (escape s) e plain) (rw (format_loop-escape args s)))
  ]
]
  where
    doubled :
        (b : ℕ)
        → c ≡ b
        → format_loop args 0 (escape (b ∷ s)) ≡ ok (b ∷ s)
        → format_loop args 0 (escape (c ∷ s)) ≡ ok (c ∷ s)
    doubled b e h = subst (λ x. format_loop args 0 (escape (x ∷ s)) ≡ ok (x ∷ s)) (sym e) h
