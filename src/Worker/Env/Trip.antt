-- ===== src/Worker/Env/Trip.antt =====
-- What a step reads from the environment that `buildStepEnv` gives it.
use open_git.Base.{
  ◌≡◌, ◌≢◌, ap₂, refl, sym, ◌∙◌, subst, ap, true, false, List, [], ◌∷◌, ◌++◌, map, Option, none,
  some, Bytes, bytes_eq, bytes_eq_iff, bytes_eq_refl, ◌==◌, Bool-cases, Option-cases, inl, inr,
  arith, is_member, is_member-count, count-is_member, not_member-count, All,
}
use open_git.Workflow.Dag.{sort_strings}
use open_git.Workflow.Dag.Sort.{count-sort_strings}
use open_git.Worker.Env.{
  StringMap, get, merge_into, cut_equals, set_env, join, build_step_env, parse_env_to_map,
}
use open_git.Worker.Env.Layers.{
  or_else, last, last_layer, pairs, get-set_all, get-merge_into, set_env-pairs,
}
use open_git.Worker.Env.Keys.{
  has_equals, IsProper, HasPlainKeys, set_all-IsProper, merge_into-IsProper, pairs-HasPlainKeys,
}

cut-join : (k v : Bytes) → has_equals k ≡ false → cut_equals (k ++ 61 ∷ v) ≡ some (k, v)
unfolding cut_equals has_equals
cut-join [] v h = refl
cut-join (c ∷ k) v h = elim (Bool-cases (c == 61)) [
  | inl e ↦ absurd (let no' = rw e at h in cc)
  | inr e ↦ rw (e, cut-join k v (rw e at h)) refl
]

pair-inj : {a b : Bytes × Bytes} → some a ≡ some b → a ≡ b
pair-inj h = cc

or_else-none : (key : Bytes) (o : Option Bytes) → or_else o (get key []) ≡ o
unfolding get
or_else-none key none = refl
or_else-none key (some v) = refl

some-inj : {a b : Bytes} → some a ≡ some b → a ≡ b
some-inj h = cc

get-none :
    (k : Bytes) (m : StringMap) (e : Bytes × Bytes)
    → get e.0 m ≡ none
    → get k m ≢ none
    → bytes_eq k e.0 ≡ false
get-none k m e fresh there = elim (Bool-cases (bytes_eq k e.0)) [
  | inr other ↦ other
  | inl same ↦
      absurd (there (subst (λ y. get y m ≡ none) (sym ((bytes_eq_iff k e.0).0 same)) fresh))
]

-- An entry of a map gives one text of its environment.
get-member :
    (k v : Bytes) (m : StringMap) → get k m ≡ some v → is_member (join (k, v)) (map join m) ≡ true
unfolding get is_member
get-member k v [] h = absurd cc
get-member k v (e ∷ m) h = elim (Bool-cases (bytes_eq k e.0)) [
  | inl same ↦
      let value : some e.1 ≡ some v = rw same at h in
      let whole : join (k, v) ≡ join e =
        ap₂ (λ a b. a ++ 61 ∷ b) ((bytes_eq_iff k e.0).0 same) (sym (some-inj value)) in
      rw ((bytes_eq_iff (join (k, v)) (join e)).1 whole) refl
  | inr other ↦ ground (arith, get-member k v m (rw other at h))
]

-- And each of its texts comes from an entry.
member-get :
    (m : StringMap) (pair : Bytes)
    → IsProper m
    → is_member pair (map join m) ≡ true
    → (k : Bytes) × (v : Bytes) × (cut_equals pair ≡ some (k, v)) × (get k m ≡ some v)
unfolding get is_member
member-get [] pair h there = absurd cc
member-get (e ∷ m) pair h there = elim (Bool-cases (bytes_eq pair (join e))) [
  | inl same ↦ (
    e.0,
    e.1,
    subst (λ y. cut_equals y ≡ some (e.0, e.1)) (sym ((bytes_eq_iff pair (join e)).0 same))
        (cut-join e.0 e.1 h.1),
    rw (bytes_eq_refl e.0) refl,
  )
  | inr other ↦
      let (k, v, c, g) = member-get m pair h.2 (rw other at there) in
      (k, v, c, rw (get-none k m e h.0 (λ z. let no' : none ≡ some v = sym z ∙ g in cc)) g)
]

get-plain : (k v : Bytes) (m : StringMap) → IsProper m → get k m ≡ some v → has_equals k ≡ false
unfolding get
get-plain k v [] h there = absurd cc
get-plain k v (e ∷ m) h there = elim (Bool-cases (bytes_eq k e.0)) [
  | inl same ↦ subst (λ y. has_equals y ≡ false) (sym ((bytes_eq_iff k e.0).0 same)) h.1
  | inr other ↦ get-plain k v m h.2 (rw other at there)
]

-- The last entry of a key is one of the texts.
last-one :
    (k v : Bytes) (env : List Bytes)
    → last k (pairs env) ≡ some v
    → (pair : Bytes) × (is_member pair env ≡ true) × (cut_equals pair ≡ some (k, v))
unfolding pairs last is_member
last-one k v [] h = absurd cc
last-one k v (pair ∷ env) h = elim (Option-cases (last k (pairs env))) [
  | inr (w, tail) ↦
      let found : last k (pairs env) ≡ some v = elim (Option-cases (cut_equals pair)) [
        | inl e ↦ rw e at h
        | inr (p, e) ↦ tail ∙ rw (e, tail) at h
      ] in
      let (other, m, c) = last-one k v env found in (other, ground (arith, m), c)
  | inl tail ↦ elim (Option-cases (cut_equals pair)) [
    | inl e ↦ absurd (let no' : none ≡ some v = sym tail ∙ rw e at h in cc)
    | inr (p, e) ↦ elim (Bool-cases (bytes_eq k p.0)) [
      | inl same ↦
          let value : some p.1 ≡ some v = rw (e, tail, same) at h in
          (
            pair,
            rw (bytes_eq_refl pair) refl,
            e ∙ ap₂ (λ a b. some (a, b)) (sym ((bytes_eq_iff k p.0).0 same)) (some-inj value),
          )
      | inr other ↦ absurd (let no' : none ≡ some v = rw (e, tail, other) at h in cc)
    ]
  ]
]

-- A key without a last entry is in none of the texts.
last-none :
    (k v : Bytes) (env : List Bytes) (pair : Bytes)
    → last k (pairs env) ≡ none
    → is_member pair env ≡ true
    → cut_equals pair ≡ some (k, v)
    → ⊥
unfolding pairs last is_member
last-none k v [] pair h there e = cc
last-none k v (first ∷ env) pair h there e = elim (Bool-cases (bytes_eq pair first)) [
  | inl same ↦
      let cut = subst (λ y. cut_equals y ≡ some (k, v)) ((bytes_eq_iff pair first).0 same) e in
      not_none (last k (pairs env)) (rw (cut, bytes_eq_refl k) at h)
  | inr other ↦ last-none k v env pair earlier (rw other at there) e
]
  where
    not_none : (o : Option Bytes) → or_else o (some v) ≡ none → ⊥
    not_none none z = let no' : some v ≡ none = z in cc
    not_none (some w) z = let no' : some w ≡ none = z in cc

    tail_none : (o rest : Option Bytes) → or_else o rest ≡ none → o ≡ none
    tail_none none rest z = refl
    tail_none (some w) rest z = z

    earlier : last k (pairs env) ≡ none
    earlier = elim (Option-cases (cut_equals first)) [
      | inl c ↦ rw c at h
      | inr (p, c) ↦ tail_none (last k (pairs env)) _ (rw c at h)
    ]

is_member-sort :
    (pair : Bytes) (env : List Bytes) → is_member pair (sort_strings env) ≡ is_member pair env
is_member-sort pair env = elim (Bool-cases (is_member pair env)) [
  | inl m ↦
      count-is_member pair (sort_strings env)
        (omega (arith, count-sort_strings pair env, is_member-count pair env m))
      ∙ sym m
  | inr out ↦ elim (Bool-cases (is_member pair (sort_strings env))) [
    | inr out' ↦ out' ∙ sym out
    | inl m ↦ absurd (
        omega (
          arith,
          count-sort_strings pair env,
          is_member-count pair (sort_strings env) m,
          not_member-count pair env out,
        ))
  ]
]

-- The sorted texts of a map give its values back.
last-sorted :
    (k : Bytes) (m : StringMap) → IsProper m → last k (pairs (sort_strings (map join m))) ≡ get k m
last-sorted k m h = elim (Option-cases (last k (pairs (sort_strings (map join m))))) [
  | inr (v, e) ↦
      let (pair, there, cut) = last-one k v (sort_strings (map join m)) e in
      let (k', v', cut', g) =
        member-get m pair h (sym (is_member-sort pair (map join m)) ∙ there) in
      let same : some (k, v) ≡ some (k', v') = sym cut ∙ cut' in
      e ∙ sym (subst (λ p. get p.0 m ≡ some p.1) (sym (pair-inj same)) g)
  | inl e ↦ elim (Option-cases (get k m)) [
    | inl g ↦ e ∙ sym g
    | inr (v, g) ↦ absurd (
        last-none k v (sort_strings (map join m)) (join (k, v)) e
          (is_member-sort (join (k, v)) (map join m) ∙ get-member k v m g)
          (cut-join k v (get-plain k v m h g)))
  ]
]

-- A step that reads its environment finds under each key the value of the last secret of that name,
-- or else that of the last layer that sets it, provided that no key of a layer has an `=` in it.
pub parse_env_to_map-build_step_env :
    (key : Bytes) (layers : List StringMap) (secret_env : List Bytes)
    → All HasPlainKeys layers
    → get key (parse_env_to_map (build_step_env layers secret_env))
      ≡ or_else (last key (pairs secret_env)) (last_layer key layers)
parse_env_to_map-build_step_env key layers secret_env plain =
    let merged = merge_into [] layers in
    let all = set_env merged secret_env in
    let proper : IsProper all = subst IsProper (sym (set_env-pairs merged secret_env)) (
      set_all-IsProper merged (pairs secret_env) (pairs-HasPlainKeys secret_env)
        (merge_into-IsProper [] layers plain tt)) in
    ap (get key) (set_env-pairs [] (sort_strings (map join all)))
    ∙ get-set_all key [] (pairs (sort_strings (map join all)))
    ∙ or_else-none key (last key (pairs (sort_strings (map join all))))
    ∙ last-sorted key all proper
    ∙ ap (get key) (set_env-pairs merged secret_env)
    ∙ get-set_all key merged (pairs secret_env)
    ∙ ap (or_else (last key (pairs secret_env)))
        (get-merge_into key [] layers ∙ or_else-none key (last_layer key layers))
