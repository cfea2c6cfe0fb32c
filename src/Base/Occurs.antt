-- ===== src/Base/Occurs.antt =====
-- Where one text occurs in another: `strings.Contains` and `strings.HasPrefix`.
use Prim.Native.Nat.{ℕ}
use mathlib.Core.Path.{◌≡◌, refl}
use mathlib.Core.Logic.{inl, inr}
use mathlib.Core.Bool.{true, false, ◌||◌}
use mathlib.Core.List.{[], ◌∷◌, ◌++◌}
use native.Mathlib.Omega.{arith}
use open_git.Base.Tests.{Bool-cases, Option-cases}
use open_git.Base.Text.{Bytes, has_prefix, index_of, contains}

pub contains-cons :
    (c : ℕ) (s sub : Bytes) → contains (c ∷ s) sub ≡ (has_prefix (c ∷ s) sub || contains s sub)
unfolding contains index_of
contains-cons c s sub = elim (Bool-cases (has_prefix (c ∷ s) sub)) [
  | inl e ↦ rw e refl
  | inr e ↦ elim (Option-cases (index_of sub s)) [
    | inl k ↦ rw (e, k) refl
    | inr (n, k) ↦ rw (e, k) refl
  ]
]

pub contains-nil : (x : ℕ) (w : Bytes) → contains [] (x ∷ w) ≡ false
unfolding contains index_of has_prefix
contains-nil x w = refl

-- What starts a text starts it also where the text goes on.
pub has_prefix-append : (a b p : Bytes) → has_prefix a p ≡ true → has_prefix (a ++ b) p ≡ true
unfolding has_prefix
has_prefix-append a b [] h = refl
has_prefix-append [] b (x ∷ p) h = absurd cc
has_prefix-append (c ∷ a) b (x ∷ p) h = ground (arith, h, has_prefix-append a b p)

-- What does not occur in a text occurs in none of its parts.
pub contains-left :
    (a b : Bytes) (x : ℕ) (w : Bytes)
    → contains (a ++ b) (x ∷ w) ≡ false
    → contains a (x ∷ w) ≡ false
contains-left [] b x w h = contains-nil x w
contains-left (c ∷ a) b x w h =
    let h' = rw (contains-cons c (a ++ b) (x ∷ w)) at h in
    rw (contains-cons c a (x ∷ w))
      (ground (arith, h', has_prefix-append (c ∷ a) b (x ∷ w), contains-left a b x w))

pub contains-right :
    (a b : Bytes) (x : ℕ) (w : Bytes)
    → contains (a ++ b) (x ∷ w) ≡ false
    → contains b (x ∷ w) ≡ false
contains-right [] b x w h = h
contains-right (c ∷ a) b x w h =
    let h' = rw (contains-cons c (a ++ b) (x ∷ w)) at h in
    contains-right a b x w (ground (arith, h'))
