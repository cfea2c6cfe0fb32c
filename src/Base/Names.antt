-- ===== src/Base/Names.antt =====
-- Lists of texts as sets and as bags: membership, and how often a text occurs.
use Prim.Native.Nat.{ℕ, suc, ◌+◌, ◌≤◌, ◌<◌}
use mathlib.Core.Path.{◌≡◌, refl, sym, subst}
use mathlib.Core.Logic.{inl, inr}
use mathlib.Core.Bool.{Bool, true, false, ◌||◌}
use mathlib.Core.List.{List, [], ◌∷◌, ◌++◌}
use native.Mathlib.Omega.{arith}
use open_git.Base.Tests.{if◌then◌else◌, Bool-cases}
use open_git.Base.Lists.{length, All, All-map}
use open_git.Base.Text.{Bytes, bytes_eq, bytes_eq_iff, bytes_eq_refl}

unfoldable pub is_member : Bytes → List Bytes → Bool
is_member x [] = false
is_member x (y ∷ ys) = bytes_eq x y || is_member x ys

unfoldable pub count : Bytes → List Bytes → ℕ
count x [] = 0
count x (y ∷ ys) = (if bytes_eq x y then 1 else 0) + count x ys

pub count-append : (x : Bytes) (xs ys : List Bytes) → count x (xs ++ ys) ≡ count x xs + count x ys
unfolding count
count-append x [] ys = omega arith
count-append x (y ∷ xs) ys = omega (arith, count-append x xs ys)

pub is_member-count : (x : Bytes) (xs : List Bytes) → is_member x xs ≡ true → 0 < count x xs
unfolding is_member count
is_member-count x [] h = cc
is_member-count x (y ∷ xs) h = ground (arith, is_member-count x xs)

pub count-is_member : (x : Bytes) (xs : List Bytes) → 0 < count x xs → is_member x xs ≡ true
unfolding is_member count
count-is_member x [] h = absurd (omega arith)
count-is_member x (y ∷ xs) h = ground (arith, count-is_member x xs)

pub not_member-count : (x : Bytes) (xs : List Bytes) → is_member x xs ≡ false → count x xs ≡ 0
unfolding is_member count
not_member-count x [] h = refl
not_member-count x (y ∷ xs) h = ground (arith, not_member-count x xs)

-- `xs` without one `x`.
remove : Bytes → List Bytes → List Bytes
remove x [] = []
remove x (y ∷ ys) = if bytes_eq x y then ys else y ∷ remove x ys

count-remove :
    (x z : Bytes) (xs : List Bytes)
    → 0 < count x xs
    → count z (remove x xs) + (if bytes_eq z x then 1 else 0) ≡ count z xs
unfolding remove count
count-remove x z [] h = absurd (omega arith)
count-remove x z (y ∷ xs) h = elim (Bool-cases (bytes_eq x y)) [
  | inl e ↦
      let same : x ≡ y = (bytes_eq_iff x y).0 e in
      subst
        (λ w.
          count z (if bytes_eq x w then xs else w ∷ remove x xs) + (if bytes_eq z x then 1 else 0)
          ≡ (if bytes_eq z w then 1 else 0) + count z xs)
        same (rw (bytes_eq_refl x) (omega arith))
  | inr e ↦ rw e (omega (arith, count-remove x z xs (ground (arith, h))))
]

length-remove :
    (x : Bytes) (xs : List Bytes) → 0 < count x xs → suc (length (remove x xs)) ≡ length xs
unfolding remove count
length-remove x [] h = absurd (omega arith)
length-remove x (y ∷ xs) h = ground (arith, length-remove x xs)

-- A bag within another is no longer.
pub length-le_of_count :
    (xs ys : List Bytes) → ((z : Bytes) → count z xs ≤ count z ys) → length xs ≤ length ys
unfolding count
length-le_of_count [] ys h = omega arith
length-le_of_count (x ∷ xs) ys h =
    let first : 1 + count x xs ≤ count x ys = rw (bytes_eq_refl x) at (h x) in
    let present : 0 < count x ys = omega arith in
    let shorter =
      length-le_of_count xs (remove x ys) λ z. omega (arith, h z, count-remove x z ys present) in
    omega (arith, length-remove x ys present)

-- It is shorter, if some text occurs less often.
pub length-lt_of_count :
    (j : Bytes) (xs ys : List Bytes)
    → ((z : Bytes) → count z xs ≤ count z ys)
    → count j xs < count j ys
    → length xs < length ys
unfolding count
length-lt_of_count j xs ys h lt = length-le_of_count (j ∷ xs) ys λ z.
    elim (Bool-cases (bytes_eq z j)) [
      | inl e ↦
          rw e
            (subst (λ w. 1 + count w xs ≤ count w ys) (sym ((bytes_eq_iff z j).0 e)) (omega arith))
      | inr e ↦ rw e (omega (arith, h z))
    ]

pub is_member-append :
    (x : Bytes) (xs ys : List Bytes) → is_member x (xs ++ ys) ≡ (is_member x xs || is_member x ys)
unfolding is_member
is_member-append x [] ys = refl
is_member-append x (y ∷ xs) ys = ground (arith, is_member-append x xs ys)

-- Each text of a list is a member.
pub members_self : (xs : List Bytes) → All (λ x. is_member x xs ≡ true) xs
unfolding is_member
members_self [] = tt
members_self (x ∷ xs) = (
  rw (bytes_eq_refl x) refl,
  All-map (λ y. is_member y xs ≡ true) _ xs (λ y h. ground (arith, h)) (members_self xs),
)

pub member-nil : (x : Bytes) → is_member x [] ≡ true → ⊥
unfolding is_member
member-nil x h = cc
