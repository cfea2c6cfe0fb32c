-- ===== src/Workflow/Matrix/Rows.antt =====
-- Comparing with an `include` or `exclude` row: when it cannot panic, and what it decides.
use open_git.Base.{
  ◌≡◌, refl, Bool, true, false, List, [], ◌∷◌, ◌++◌, Option, none, some, ◌>>=◌ as option_bind,
  if◌then◌else◌, subst, All,
}
use open_git.Workflow.Matrix.{
  Any, null, scalar, sequence, mapping, Combo, find, any_eq, read, row_matches, eq_if_present,
  include_row_matches, merge_matrix_combo, is_excluded, apply_exclude, include_matching,
  include_unmatched, include_rows,
}

-- No sequence and no mapping.
abbrev pub IsPlain : Any → Type 0
IsPlain null = Unit
IsPlain (scalar t v) = Unit
IsPlain (sequence items) = ⊥
IsPlain (mapping found) = ⊥

abbrev pub IsPlainRow : Combo → Type 0
IsPlainRow = All (λ e. IsPlain e.1)

-- A result that is there.
abbrev pub Answers : {A : Type 0} → Option A → Type 0
Answers {A} o = (a : A) × (o ≡ some a)

any_eq-Answers : (a b : Any) → IsPlain b → Answers (any_eq a b)
unfolding any_eq
any_eq-Answers a (sequence y) h = absurd h
any_eq-Answers a (mapping y) h = absurd h
any_eq-Answers null null h = (_, refl)
any_eq-Answers null (scalar u w) h = (_, refl)
any_eq-Answers (scalar t v) null h = (_, refl)
any_eq-Answers (scalar t v) (scalar u w) h = (_, refl)
any_eq-Answers (sequence x) null h = (_, refl)
any_eq-Answers (sequence x) (scalar u w) h = (_, refl)
any_eq-Answers (mapping x) null h = (_, refl)
any_eq-Answers (mapping x) (scalar u w) h = (_, refl)

row_matches-Answers : (combo row : Combo) → IsPlainRow row → Answers (row_matches combo row)
unfolding row_matches
row_matches-Answers combo [] h = (true, refl)
row_matches-Answers combo (want ∷ row) h =
    let (same, e) = any_eq-Answers (read (find want.0 combo)) want.1 h.0 in
    let (rest, k) = row_matches-Answers combo row h.1 in
    (if same then rest else false, rw (e, k) (pick same rest))
  where
    pick :
        (same rest : Bool)
        → (if same then some rest else some false) ≡ some (if same then rest else false)
    pick true rest = refl
    pick false rest = refl

include_row_matches-Answers :
    (combo row : Combo) → IsPlainRow row → Answers (include_row_matches combo row)
unfolding include_row_matches
include_row_matches-Answers combo [] h = (true, refl)
include_row_matches-Answers combo (want ∷ row) h =
    let (same, e) = present (find want.0 combo) in
    let (rest, k) = include_row_matches-Answers combo row h.1 in
    (if same then rest else false, rw (e, k) (pick same rest))
  where
    present : (o : Option Any) → Answers (eq_if_present o want.1)
    present none = (true, refl)
    present (some cv) = any_eq-Answers cv want.1 h.0

    pick :
        (same rest : Bool)
        → (if same then some rest else some false) ≡ some (if same then rest else false)
    pick true rest = refl
    pick false rest = refl

is_excluded-Answers :
    (combo : Combo) (rows : List Combo) → All IsPlainRow rows → Answers (is_excluded combo rows)
unfolding is_excluded
is_excluded-Answers combo [] h = (false, refl)
is_excluded-Answers combo (row ∷ rows) h =
    let (matches, e) = row_matches-Answers combo row h.0 in
    let (rest, k) = is_excluded-Answers combo rows h.1 in
    (if matches then true else rest, rw (e, k) (pick matches rest))
  where
    pick : (m rest : Bool) → (if m then some true else some rest) ≡ some (if m then true else rest)
    pick true rest = refl
    pick false rest = refl

pub apply_exclude-Answers :
    (combos rows : List Combo) → All IsPlainRow rows → Answers (apply_exclude combos rows)
unfolding apply_exclude
apply_exclude-Answers [] rows h = ([], refl)
apply_exclude-Answers (combo ∷ combos) rows h =
    let (excluded, e) = is_excluded-Answers combo rows h in
    let (rest, k) = apply_exclude-Answers combos rows h in
    (if excluded then rest else combo ∷ rest, rw (e, k) refl)

include_matching-Answers :
    (row : Combo) (combos result : List Combo) (matched : Bool)
    → IsPlainRow row
    → Answers (include_matching row combos result matched)
unfolding include_matching
include_matching-Answers row [] result matched h = ((result, matched), refl)
include_matching-Answers row (combo ∷ combos) result matched h =
    let (matches, e) = include_row_matches-Answers combo row h in
    let (with_row, k) =
      include_matching-Answers row combos (result ++ merge_matrix_combo combo row ∷ []) true h in
    let (without, l) = include_matching-Answers row combos result matched h in
    (if matches then with_row else without, rw (e, k, l) (pick matches with_row without))
  where
    pick :
        (m : Bool) (with_row without : List Combo × Bool)
        → (if m then some with_row else some without) ≡ some (if m then with_row else without)
    pick true with_row without = refl
    pick false with_row without = refl

pub include_rows-Answers :
    (combos rows result : List Combo)
    → All IsPlainRow rows
    → Answers (include_rows combos rows result)
unfolding include_rows
include_rows-Answers combos [] result h = (result, refl)
include_rows-Answers combos (row ∷ rows) result h =
    let (found, e) = include_matching-Answers row combos result false h.0 in
    let (out, k) =
      include_rows-Answers combos rows
        (if found.1 then found.0 else include_unmatched row combos found.0) h.1 in
    (out, rw e k)

pub bind-some :
    {A B : Type 0} (o : Option A) (f : A → Option B) (b : B)
    → option_bind o f ≡ some b
    → (a : A) × (o ≡ some a) × (f a ≡ some b)
bind-some none f b h = cc
bind-some (some a) f b h = (a, refl, h)

-- No row of the list matches.
abbrev pub IsKept : List Combo → Combo → Type 0
IsKept rows combo = All (λ row. row_matches combo row ≡ some false) rows

is_excluded-IsKept :
    (combo : Combo) (rows : List Combo) → is_excluded combo rows ≡ some false → IsKept rows combo
unfolding is_excluded
is_excluded-IsKept combo [] h = tt
is_excluded-IsKept combo (row ∷ rows) h =
    let (matches, e, k) =
      bind-some (row_matches combo row) (λ m. if m then some true else is_excluded combo rows) false
        h in
    split matches e k (is_excluded-IsKept combo rows)
  where
    split :
        (m : Bool)
        → row_matches combo row ≡ some m
        → (if m then some true else is_excluded combo rows) ≡ some false
        → (is_excluded combo rows ≡ some false → IsKept rows combo)
        → IsKept (row ∷ rows) combo
    split true e k ih = absurd cc
    split false e k ih = (e, ih k)

pub apply_exclude-IsKept :
    (combos rows left : List Combo) → apply_exclude combos rows ≡ some left → All (IsKept rows) left
unfolding apply_exclude
apply_exclude-IsKept [] rows left h = let e : [] ≡ left = cc in subst (All (IsKept rows)) e tt
apply_exclude-IsKept (combo ∷ combos) rows left h =
    let (excluded, e, h') = bind-some (is_excluded combo rows) _ left h in
    let (rest, k, l) = bind-some (apply_exclude combos rows) _ left h' in
    let ih = apply_exclude-IsKept combos rows rest k in
    let same : (if excluded then rest else combo ∷ rest) ≡ left = cc in
    subst (All (IsKept rows)) same (keep rest excluded e ih)
  where
    keep :
        (rest : List Combo) (x : Bool)
        → is_excluded combo rows ≡ some x
        → All (IsKept rows) rest
        → All (IsKept rows) (if x then rest else combo ∷ rest)
    keep rest true e ih = ih
    keep rest false e ih = (is_excluded-IsKept combo rows e, ih)
