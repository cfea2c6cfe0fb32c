-- ===== src/Worker/Env/Keys.antt =====
-- Maps of texts whose keys are names of variables.
use open_git.Base.{
  ◌≡◌, refl, sym, ◌∙◌, subst, Bool, true, false, List, [], ◌∷◌, Option, none, some, Bytes, bytes_eq,
  bytes_eq_iff, bytes_eq_comm, ◌==◌, if◌then◌else◌, Bool-cases, Option-cases, inl, inr, All,
}
use open_git.Worker.Env.{StringMap, get, set, set_all, merge_into, cut_equals}
use open_git.Worker.Env.Layers.{pairs, get-set}

unfoldable pub has_equals : Bytes → Bool
has_equals [] = false
has_equals (c ∷ s) = if c == 61 then true else has_equals s

-- No key twice, and no key with `=` in it.
abbrev pub IsProper : StringMap → Type 0
IsProper [] = Unit
IsProper (e ∷ m) = (get e.0 m ≡ none) × (has_equals e.0 ≡ false) × IsProper m

abbrev pub HasPlainKeys : StringMap → Type 0
HasPlainKeys m = All (λ e. has_equals e.0 ≡ false) m

pub set-IsProper :
    (m : StringMap) (k v : Bytes) → has_equals k ≡ false → IsProper m → IsProper (set m k v)
unfolding set get
set-IsProper [] k v plain h = (refl, plain, tt)
set-IsProper (e ∷ m) k v plain h = elim (Bool-cases (bytes_eq k e.0)) [
  | inl same ↦
      rw same (subst (λ y. get y m ≡ none) (sym ((bytes_eq_iff k e.0).0 same)) h.0, plain, h.2)
  | inr other ↦
      rw other (
        get-set e.0 k v m ∙ rw (bytes_eq_comm e.0 k ∙ other) h.0,
        h.1,
        set-IsProper m k v plain h.2,
      )
]

pub set_all-IsProper :
    (out m : StringMap) → HasPlainKeys m → IsProper out → IsProper (set_all out m)
unfolding set_all
set_all-IsProper out [] plain h = h
set_all-IsProper out (e ∷ m) plain h =
    set_all-IsProper (set out e.0 e.1) m plain.1 (set-IsProper out e.0 e.1 plain.0 h)

pub merge_into-IsProper :
    (out : StringMap) (maps : List StringMap)
    → All HasPlainKeys maps
    → IsProper out
    → IsProper (merge_into out maps)
unfolding merge_into
merge_into-IsProper out [] plain h = h
merge_into-IsProper out (m ∷ maps) plain h =
    merge_into-IsProper (set_all out m) maps plain.1 (set_all-IsProper out m plain.0 h)

abbrev IsPlain : Option (Bytes × Bytes) → Type 0
IsPlain none = Unit
IsPlain (some p) = has_equals p.0 ≡ false

cut-IsPlain : (pair : Bytes) → IsPlain (cut_equals pair)
unfolding cut_equals has_equals
cut-IsPlain [] = tt
cut-IsPlain (c ∷ s) = elim (Bool-cases (c == 61)) [
  | inl found ↦ rw found refl
  | inr on ↦ rw on (elim (Option-cases (cut_equals s)) [
    | inl e ↦ rw e tt
    | inr (p, e) ↦ rw (e, on) (rw e at (cut-IsPlain s))
  ])
]

pub pairs-HasPlainKeys : (env : List Bytes) → HasPlainKeys (pairs env)
unfolding pairs
pairs-HasPlainKeys [] = tt
pairs-HasPlainKeys (pair ∷ env) = elim (Option-cases (cut_equals pair)) [
  | inl e ↦ rw e (pairs-HasPlainKeys env)
  | inr (p, e) ↦ rw e (rw e at (cut-IsPlain pair), pairs-HasPlainKeys env)
]
