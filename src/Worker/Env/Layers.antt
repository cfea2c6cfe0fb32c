-- ===== src/Worker/Env/Layers.antt =====
-- Maps of texts, written in layers: which value a key has in the end.
use open_git.Base.{
  ◌≡◌, refl, ◌∙◌, subst, ap, Bool, true, false, List, [], ◌∷◌, Option, none, some, Bytes, bytes_eq,
  bytes_eq_iff, if◌then◌else◌, Bool-cases, Option-cases, inl, inr,
}
use open_git.Worker.Env.{StringMap, get, set, set_all, merge_into, cut_equals, set_env}

abbrev pub or_else : Option Bytes → Option Bytes → Option Bytes
or_else (some v) o = some v
or_else none o = o

-- The value of a key in the last entry that has it.
unfoldable pub last : Bytes → StringMap → Option Bytes
last key [] = none
last key (e ∷ m) = or_else (last key m) (if bytes_eq key e.0 then some e.1 else none)

-- The value of a key in the last layer that has it.
unfoldable pub last_layer : Bytes → List StringMap → Option Bytes
last_layer key [] = none
last_layer key (m ∷ maps) = or_else (last_layer key maps) (last key m)

-- The entries of an environment.
unfoldable pub pairs : List Bytes → StringMap
pairs [] = []
pairs (pair ∷ env) = with_pair (cut_equals pair) (pairs env)
  where
    with_pair : Option (Bytes × Bytes) → StringMap → StringMap
    with_pair none m = m
    with_pair (some p) m = p ∷ m

or_else_assoc : (a b c : Option Bytes) → or_else (or_else a b) c ≡ or_else a (or_else b c)
or_else_assoc (some v) b c = refl
or_else_assoc none b c = refl

pub get-set :
    (key k v : Bytes) (m : StringMap)
    → get key (set m k v) ≡ (if bytes_eq key k then some v else get key m)
unfolding get set
get-set key k v [] = refl
get-set key k v (e ∷ m) = elim (Bool-cases (bytes_eq k e.0)) [
  | inr differ ↦ rw differ (elim (Bool-cases (bytes_eq key e.0)) [
    | inl same ↦ rw same (apart same differ)
    | inr other ↦ rw other (get-set key k v m)
  ])
  | inl same ↦ rw same (
      subst
        (λ y.
          (if bytes_eq key k then some v else get key m)
          ≡ (if bytes_eq key k then some v else if bytes_eq key y then some e.1 else get key m))
        ((bytes_eq_iff k e.0).0 same) (again (bytes_eq key k)))
]
  where
    again :
        (b : Bool)
        → (if b then some v else get key m)
          ≡ (if b then some v else if b then some e.1 else get key m)
    again true = refl
    again false = refl

    apart :
        bytes_eq key e.0 ≡ true
        → bytes_eq k e.0 ≡ false
        → some e.1 ≡ (if bytes_eq key k then some v else some e.1)
    apart same differ = elim (Bool-cases (bytes_eq key k)) [
      | inr other ↦ rw other refl
      | inl equal ↦
          absurd
            (let no' = subst (λ y. bytes_eq y e.0 ≡ true) ((bytes_eq_iff key k).0 equal) same in cc)
    ]

pub get-set_all :
    (key : Bytes) (out m : StringMap) → get key (set_all out m) ≡ or_else (last key m) (get key out)
unfolding set_all last
get-set_all key out [] = refl
get-set_all key out (e ∷ m) =
    get-set_all key (set out e.0 e.1) m
    ∙ rw
        (
          get-set key e.0 e.1 out,
          or_else_assoc (last key m) (if bytes_eq key e.0 then some e.1 else none) (get key out),
        )
        (ap (or_else (last key m)) (first (bytes_eq key e.0)))
  where
    first :
        (b : Bool)
        → (if b then some e.1 else get key out)
          ≡ or_else (if b then some e.1 else none) (get key out)
    first true = refl
    first false = refl

pub get-merge_into :
    (key : Bytes) (out : StringMap) (maps : List StringMap)
    → get key (merge_into out maps) ≡ or_else (last_layer key maps) (get key out)
unfolding merge_into last_layer
get-merge_into key out [] = refl
get-merge_into key out (m ∷ maps) =
    get-merge_into key (set_all out m) maps
    ∙ rw (get-set_all key out m, or_else_assoc (last_layer key maps) (last key m) (get key out))
        refl

pub set_env-pairs : (m : StringMap) (env : List Bytes) → set_env m env ≡ set_all m (pairs env)
unfolding set_env set_all pairs
set_env-pairs m [] = refl
set_env-pairs m (pair ∷ env) = elim (Option-cases (cut_equals pair)) [
  | inl e ↦ rw e (set_env-pairs m env)
  | inr (p, e) ↦ rw e (set_env-pairs (set m p.0 p.1) env)
]
