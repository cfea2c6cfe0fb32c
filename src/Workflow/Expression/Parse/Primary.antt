-- ===== src/Workflow/Expression/Parse/Primary.antt =====
-- `parseUnary`, `parsePrimary` and `parseFunctionCall` of expression.go, over the method for what
-- stands in brackets.
use open_git.Base.{
  ℕ, zero, suc, ◌≤◌, ◌<◌, ◌≡◌, refl, false, [], ◌∷◌, ◌++◌, Option, none, some, Bytes, codes, arith,
  Bool-cases, inl, inr, ◌>>=◌, ◌==◌,
}
use open_git.Workflow.Expression.{
  literal, Operand, absent, present, ExprNodes, nil, Cursor, skip_whitespace, match, match_keyword,
  parse_ident, peek,
}
use open_git.Workflow.Expression.Parse.{
  Outcome, Parser, Args, unary_loop, parse_unary, args_loop, close_call, parse_function_call,
  path_loop, parse_name, parse_group, parse_word, parse_keyword, parse_atom, primary_body,
  parse_primary, push_arg, closing, naming, parse_string,
}
use open_git.Workflow.Expression.Parse.Progress.{
  left, left-skip_whitespace, match_le, match_lt, match_keyword_le, parse_ident_le, parse_number_le,
  parse_string_le,
}
use open_git.Workflow.Expression.Parse.Sound.{
  has_error, has_error-append_false, IsGiven, AreWhole, Post, Ensures, IsSound, Ensures-weaken,
  Ensures-bind,
}

module _ (k : ℕ) (primary : Parser) (sound : IsSound k primary) where
  unary_loop-Ensures :
      (fuel : ℕ) (p : Cursor)
      → left p < fuel
      → left p < k
      → Ensures (left p) (unary_loop primary fuel p)
  unfolding unary_loop
  unary_loop-Ensures zero p h hk = absurd (omega arith)
  unary_loop-Ensures (suc fuel) p h hk = elim (Bool-cases (match (codes "!") p).0) [
    | inl hit ↦
        let q = (match (codes "!") p).1 in
        let passed = match_lt (codes "!") p hit in
        rw hit (
          Ensures-weaken (left q) (left p) _ (omega arith) (
            Ensures-bind (left q) (unary_loop primary fuel q) _
              (unary_loop-Ensures fuel q (omega arith) (omega arith))
              λ o post. record { shorter = post.shorter; whole = λ e. (refl, post.whole e) }))
    | inr miss ↦
        let q = (match (codes "!") p).1 in
        let kept = match_le (codes "!") p in
        rw miss (Ensures-weaken (left q) (left p) (primary q) kept (sound q (omega arith)))
  ]

  pub parse_unary-IsSound : IsSound k (parse_unary primary)
  unfolding parse_unary
  parse_unary-IsSound p h = unary_loop-Ensures _ p (omega arith) h

-- The arguments of a call, with the promise of `Post`.
record ArgsPost (n : ℕ) (a : Args) : Type 0 where
  shorter : left a.cursor ≤ n
  whole : has_error a.diags ≡ false → AreWhole a.nodes

abbrev EnsuresArgs : ℕ → Option Args → Type 0
EnsuresArgs n none = ⊥
EnsuresArgs n (some a) = ArgsPost n a

EnsuresArgs-bind :
    (n m : ℕ) (r : Option Outcome) (f : Outcome → Option Args)
    → Ensures n r
    → ((o : Outcome) → Post n o → EnsuresArgs m (f o))
    → EnsuresArgs m (r >>= f)
EnsuresArgs-bind n m none f e k = absurd e
EnsuresArgs-bind n m (some o) f e k = k o e

AreWhole-push_arg :
    (o : Operand) (ns : ExprNodes) → IsGiven o → AreWhole ns → AreWhole (push_arg o ns)
AreWhole-push_arg absent ns h k = absurd h
AreWhole-push_arg (present n) ns h k = (h, k)

EnsuresArgs-push :
    (n m : ℕ) (arg : Outcome) (r : Option Args)
    → n ≤ m
    → (has_error arg.diags ≡ false → IsGiven arg.node)
    → EnsuresArgs n r
    → EnsuresArgs m (
        r >>= λ more. some (record {
          nodes = push_arg arg.node more.nodes;
          diags = arg.diags ++ more.diags;
          cursor = more.cursor;
        }))
EnsuresArgs-push n m arg none h w e = e
EnsuresArgs-push n m arg (some more) h w e = record {
  shorter = omega arith;
  whole = λ clear.
      let (l, r) = has_error-append_false arg.diags more.diags clear in
      AreWhole-push_arg arg.node more.nodes (w l) (e.whole r);
}

Post-close_call :
    (n : ℕ) (name : Bytes) (args : Args) → ArgsPost n args → Post n (close_call name args)
unfolding close_call
Post-close_call n name args e = record {
  shorter = omega (arith, match_le (codes ")") args.cursor);
  whole = λ clear.
      let found = match (codes ")") args.cursor in
      let before = args.diags ++ closing found.0 found.1 in
      let l = has_error-append_false before (naming name found.1) clear in
      e.whole (has_error-append_false args.diags (closing found.0 found.1) l.0).0;
}

module _ (k : ℕ) (expr : Parser) (sound : IsSound k expr) where
  args_loop-Ensures :
      (fuel : ℕ) (p : Cursor)
      → left p < fuel
      → left p < k
      → EnsuresArgs (left p) (args_loop expr fuel p)
  unfolding args_loop
  args_loop-Ensures zero p h hk = absurd (omega arith)
  args_loop-Ensures (suc fuel) p h hk =
      EnsuresArgs-bind (left p) (left p) (expr p) _ (sound p hk) λ o post.
        elim (Bool-cases (match (codes ",") o.cursor).0) [
          | inl hit ↦
              let q = (match (codes ",") o.cursor).1 in
              let next = skip_whitespace q in
              let passed = match_lt (codes ",") o.cursor hit in
              let skipped = left-skip_whitespace q in
              rw hit (
                EnsuresArgs-push (left next) (left p) o (args_loop expr fuel next) (omega arith)
                  post.whole (args_loop-Ensures fuel next (omega arith) (omega arith)))
          | inr miss ↦ rw miss (record {
            shorter = omega (arith, match_le (codes ",") o.cursor);
            whole = λ clear. AreWhole-push_arg o.node nil (post.whole clear) tt;
          })
        ]

  after_args :
      (n m : ℕ) (name : Bytes) (r : Option Args)
      → n ≤ m
      → EnsuresArgs n r
      → Ensures m (r >>= λ args. some (close_call name args))
  after_args n m name none h e = e
  after_args n m name (some args) h e =
      Ensures-weaken n m (some (close_call name args)) h (Post-close_call n name args e)

  parse_function_call-IsSound : (name : Bytes) → IsSound (suc k) (parse_function_call expr name)
  unfolding parse_function_call
  parse_function_call-IsSound name p hk = elim (Bool-cases (match (codes "(") p).0) [
    | inl hit ↦
        let q = (match (codes "(") p).1 in
        let r = skip_whitespace q in
        let passed = match_lt (codes "(") p hit in
        let skipped = left-skip_whitespace q in
        rw hit (elim (Bool-cases (peek r == b')')) [
          | inl closed ↦ rw closed (
              Post-close_call (left p) name (record { nodes = nil; diags = []; cursor = r })
                (record { shorter = omega arith; whole = λ _. tt }))
          | inr more ↦ rw more (
              after_args (left r) (left p) name (args_loop expr (suc (left r)) r) (omega arith)
                (args_loop-Ensures (suc (left r)) r (omega arith) (omega arith)))
        ])
    | inr miss ↦ rw miss (record { shorter = match_le (codes "(") p; whole = λ _. tt })
  ]

path_loop-Ensures :
    (fuel : ℕ) (path : Bytes) (p : Cursor)
    → left p < fuel
    → Ensures (left p) (path_loop fuel path p)
unfolding path_loop
path_loop-Ensures zero path p h = absurd (omega arith)
path_loop-Ensures (suc fuel) path p h = elim (Bool-cases (match (codes ".") p).0) [
  | inl hit ↦
      let q = (match (codes ".") p).1 in
      let r = (parse_ident q).1 in
      let passed = match_lt (codes ".") p hit in
      let read = parse_ident_le q in
      rw hit (
        Ensures-weaken (left r) (left p) _ (omega arith) (path_loop-Ensures fuel _ r (omega arith)))
  | inr miss ↦ rw miss (record { shorter = match_le (codes ".") p; whole = λ _. tt })
]

parse_string-Post :
    (q : ℕ) (p : Cursor)
    → Post (left p) (record {
      node = present (literal (parse_string q p).0);
      diags = (parse_string q p).1;
      cursor = (parse_string q p).2;
    })
parse_string-Post q p = record { shorter = parse_string_le q p; whole = λ _. tt }

module _ (k : ℕ) (expr : Parser) (sound : IsSound k expr) where
  parse_name-IsSound : IsSound (suc k) (parse_name expr)
  unfolding parse_name
  parse_name-IsSound p hk =
      let q = (parse_ident p).1 in
      let r = skip_whitespace q in
      let read = parse_ident_le p in
      let skipped = left-skip_whitespace q in
      elim (Bool-cases (peek r == b'(')) [
        | inl called ↦ rw called (
            Ensures-weaken (left r) (left p) _ (omega arith)
              (parse_function_call-IsSound k expr sound _ r (omega arith)))
        | inr plain ↦ rw plain (
            Ensures-weaken (left r) (left p) _ (omega arith)
              (path_loop-Ensures _ _ r (omega arith)))
      ]

  parse_group-IsSound : IsSound k (parse_group expr)
  unfolding parse_group
  parse_group-IsSound p hk = Ensures-bind (left p) (expr p) _ (sound p hk) λ o post.
      elim (Bool-cases (match (codes ")") o.cursor).0) [
        | inl hit ↦
            rw hit (record {
              shorter = omega (arith, match_le (codes ")") o.cursor);
              whole = post.whole;
            })
        | inr miss ↦ rw miss (record {
          shorter = omega (arith, match_le (codes ")") o.cursor);
          whole = λ clear. post.whole (has_error-append_false o.diags _ clear).0;
        })
      ]

  parse_word-IsSound : IsSound (suc k) (parse_word expr)
  unfolding parse_word
  parse_word-IsSound p hk = ground (arith, parse_number_le p, parse_name-IsSound p hk)

  parse_keyword-IsSound : IsSound (suc k) (parse_keyword expr)
  unfolding parse_keyword
  parse_keyword-IsSound p hk =
      let found = match_keyword (codes "true") p in
      let q = found.1 in
      let r = (match_keyword (codes "false") q).1 in
      let hq = match_keyword_le (codes "true") p in
      let hr = match_keyword_le (codes "false") q in
      elim (Bool-cases found.0) [
        | inl yes_true ↦ rw yes_true (record { shorter = hq; whole = λ _. tt })
        | inr not_true ↦ rw not_true (elim (Bool-cases (match_keyword (codes "false") q).0) [
          | inl yes_false ↦ rw yes_false (record { shorter = omega arith; whole = λ _. tt })
          | inr not_false ↦ rw not_false (
              Ensures-weaken (left r) (left p) _ (omega arith) (parse_word-IsSound r (omega arith)))
        ])
      ]

  parse_atom-IsSound : IsSound (suc k) (parse_atom expr)
  unfolding parse_atom
  parse_atom-IsSound p hk = elim (Bool-cases (peek p == 39)) [
    | inl quoted ↦ rw quoted (parse_string-Post 39 p)
    | inr not_quoted ↦ rw not_quoted (elim (Bool-cases (peek p == 34)) [
      | inl double ↦ rw double (record { shorter = omega arith; whole = λ e. cc })
      | inr neither ↦ rw neither (parse_keyword-IsSound p hk)
    ])
  ]

  primary_at :
      (n : ℕ) (q : Cursor) (s : Bytes) → left q ≤ n → n < suc k → Ensures n (primary_body expr q s)
  unfolding primary_body
  primary_at n q [] h hk = record { shorter = h; whole = λ e. cc }
  primary_at n q (_ ∷ _) h hk =
      let r = (match (codes "(") q).1 in
      let kept = match_le (codes "(") q in
      elim (Bool-cases (match (codes "(") q).0) [
        | inl hit ↦
            let passed = match_lt (codes "(") q hit in
            rw hit (Ensures-weaken (left r) n _ (omega arith) (parse_group-IsSound r (omega arith)))
        | inr miss ↦
            rw miss (Ensures-weaken (left r) n _ (omega arith) (parse_atom-IsSound r (omega arith)))
      ]

  pub parse_primary-IsSound : IsSound (suc k) (parse_primary expr)
  unfolding parse_primary
  parse_primary-IsSound p hk =
      primary_at (left p) (skip_whitespace p) (skip_whitespace p).rest (left-skip_whitespace p) hk
