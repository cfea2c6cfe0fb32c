-- ===== src/Base/Lists.antt =====
-- Lists measured and indexed by native numbers, under the library's names.
use Prim.Native.Nat.{ℕ, zero, suc, ◌+◌, ◌-◌, min}
use mathlib.Core.Path.{◌≡◌}
use mathlib.Core.Logic.{◌⊎◌, ◌↔◌, inl, inr}
use mathlib.Core.List.{List, [], ◌∷◌, ◌++◌}
use mathlib.Core.Option.{Option, none, some}
use native.Mathlib.Omega.{arith}

module _ {ℓ} {A : Type ℓ} where
  abbrev pub length : List A → ℕ
  length [] = 0
  length (x ∷ xs) = suc (length xs)

  abbrev pub get_elem? : List A → ℕ → Option A
  get_elem? [] i = none
  get_elem? (x ∷ xs) zero = some x
  get_elem? (x ∷ xs) (suc i) = get_elem? xs i

  abbrev pub take : ℕ → List A → List A
  take zero xs = []
  take (suc n) [] = []
  take (suc n) (x ∷ xs) = x ∷ take n xs

  abbrev pub drop : ℕ → List A → List A
  drop zero xs = xs
  drop (suc n) [] = []
  drop (suc n) (x ∷ xs) = drop n xs

  pub length-append : (xs ys : List A) → length (xs ++ ys) ≡ length xs + length ys
  length-append [] ys = omega arith
  length-append (x ∷ xs) ys = omega (arith, length-append xs ys)

  pub length-drop : (n : ℕ) (xs : List A) → length (drop n xs) ≡ length xs - n
  length-drop zero xs = omega arith
  length-drop (suc n) [] = omega arith
  length-drop (suc n) (x ∷ xs) = omega (arith, length-drop n xs)

  pub length-take : (n : ℕ) (xs : List A) → length (take n xs) ≡ min n (length xs)
  length-take zero xs = omega arith
  length-take (suc n) [] = omega arith
  length-take (suc n) (x ∷ xs) = omega (arith, length-take n xs)

-- A predicate of every element, by recursion: it computes to tuples.
abbrev pub All {ℓ κ} : {A : Type ℓ} → (A → Type κ) → List A → Type κ
All P [] = Unit
All P (x ∷ xs) = P x × All P xs

pub All-append {ℓ κ} :
    {A : Type ℓ} (P : A → Type κ) (xs ys : List A) → All P xs → All P ys → All P (xs ++ ys)
All-append P [] ys h k = k
All-append P (x ∷ xs) ys h k = (h.0, All-append P xs ys h.1 k)

pub All-of-append {ℓ κ} :
    {A : Type ℓ} (P : A → Type κ) (xs ys : List A) → All P (xs ++ ys) → All P xs × All P ys
All-of-append P [] ys h = (tt, h)
All-of-append P (x ∷ xs) ys h = let rest = All-of-append P xs ys h.1 in ((h.0, rest.0), rest.1)

pub All-map {ℓ κ λ'} :
    {A : Type ℓ} (P : A → Type κ) (Q : A → Type λ') (xs : List A)
    → ((x : A) → P x → Q x)
    → All P xs
    → All Q xs
All-map P Q [] f h = tt
All-map P Q (x ∷ xs) f h = (f x h.0, All-map P Q xs f h.1)

-- An element of a list.
abbrev pub IsAmong : {A : Type 0} → A → List A → Type 0
IsAmong x [] = ⊥
IsAmong x (y ∷ ys) = (x ≡ y) ⊎ IsAmong x ys

-- A step that may have no answer, for do blocks: the rest waits for the answer.
infixl 5 ◌>>=◌
abbrev pub ◌>>=◌ {ℓ κ} : {A : Type ℓ} {B : Type κ} → Option A → (A → Option B) → Option B
none >>= f = none
some a >>= f = f a

pub IsAmong-append :
    {A : Type 0} (x : A) (xs ys : List A) → IsAmong x (xs ++ ys) ↔ (IsAmong x xs ⊎ IsAmong x ys)
IsAmong-append x [] ys = ((λ h. inr h), from)
  where
    from : ⊥ ⊎ IsAmong x ys → IsAmong x ys
    from (inl h) = absurd h
    from (inr h) = h
IsAmong-append x (z ∷ xs) ys = sides (IsAmong-append x xs ys)
  where
    sides :
        IsAmong x (xs ++ ys) ↔ (IsAmong x xs ⊎ IsAmong x ys)
        → IsAmong x ((z ∷ xs) ++ ys) ↔ (IsAmong x (z ∷ xs) ⊎ IsAmong x ys)
    sides rest = (to, from)
      where
        to : (x ≡ z) ⊎ IsAmong x (xs ++ ys) → ((x ≡ z) ⊎ IsAmong x xs) ⊎ IsAmong x ys
        to (inl e) = inl (inl e)
        to (inr h) = elim (rest.0 h) [ inl k ↦ inl (inr k) | inr k ↦ inr k ]

        from : ((x ≡ z) ⊎ IsAmong x xs) ⊎ IsAmong x ys → (x ≡ z) ⊎ IsAmong x (xs ++ ys)
        from (inl (inl e)) = inl e
        from (inl (inr k)) = inr (rest.1 (inl k))
        from (inr k) = inr (rest.1 (inr k))
