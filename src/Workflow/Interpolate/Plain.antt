-- ===== src/Workflow/Interpolate/Plain.antt =====
-- Texts without the bytes of an opening or a closing, and where the scanners look past them.

use open_git.Base.{
  ℕ, ◌+◌, ◌≡◌, refl, false, [], ◌∷◌, ◌++◌, none, some, Bytes, length, drop, take, ◌==◌, has_prefix,
  index_of, arith, ap, All,
}
use native.Mathlib.Nat.{suc-add}
use open_git.Workflow.Interpolate.{opening, closing, find_expr_end}

-- No dollar sign, so no opening.
abbrev pub NoDollar : Bytes → Type 0
NoDollar = All (λ c. (c == b'$') ≡ false)

-- No closing brace, so no closing.
abbrev pub NoBrace : Bytes → Type 0
NoBrace = All (λ c. (c == b'}') ≡ false)

not_opening : (c : ℕ) (s : Bytes) → (c == b'$') ≡ false → has_prefix (c ∷ s) opening ≡ false
unfolding has_prefix
not_opening c s h = rw h

not_closing : (c : ℕ) (s : Bytes) → (c == b'}') ≡ false → has_prefix (c ∷ s) closing ≡ false
unfolding has_prefix
not_closing c s h = rw h

pub index_of-none : (p : Bytes) → NoDollar p → index_of opening p ≡ none
unfolding index_of has_prefix
index_of-none [] h = refl
index_of-none (c ∷ p) h = rw (h.0, index_of-none p h.1)

pub index_of-opening :
    (p t : Bytes) → NoDollar p → index_of opening (p ++ (opening ++ t)) ≡ some (length p)
unfolding index_of
index_of-opening [] t h = unfold has_prefix in refl
index_of-opening (c ∷ p) t h =
    rw (not_opening c (p ++ (opening ++ t)) h.0) (rw (index_of-opening p t h.1))

pub find_expr_end-closing :
    (e t : Bytes)
    → NoDollar e
    → NoBrace e
    → find_expr_end 1 0 (e ++ (closing ++ t)) ≡ some (length e)
unfolding find_expr_end
find_expr_end-closing [] t h k = unfold has_prefix in refl
find_expr_end-closing (c ∷ e) t h k =
    rw (not_opening c (e ++ (closing ++ t)) h.0)
      (rw (not_closing c (e ++ (closing ++ t)) k.0) (rw (find_expr_end-closing e t h.1 k.1)))

pub drop-length-append : (p t : Bytes) (k : ℕ) → drop (length p + k) (p ++ t) ≡ drop k t
drop-length-append [] t k = ap (λ n. drop n t) (omega arith)
drop-length-append (c ∷ p) t k = rw (suc-add (length p) k) (drop-length-append p t k)

pub take-length-append : (p t : Bytes) → take (length p) (p ++ t) ≡ p
take-length-append [] t = refl
take-length-append (c ∷ p) t = ap (λ s. c ∷ s) (take-length-append p t)
