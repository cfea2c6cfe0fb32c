-- ===== src/Workflow/Dag/Release.antt =====
-- One step of `buildDAG`'s main loop: what the loop over `adj[cur]` leaves, and the needs of a job
-- that are not in the order yet.
use open_git.Base.{
  ℕ, ◌+◌, ◌-◌, ◌≡◌, ◌≤◌, refl, Bool, true, false, ◌&&◌, List, [], ◌∷◌, ◌++◌, Bytes, length, ltb,
  ◌==◌, if◌then◌else◌, bytes_eq, bytes_eq_iff, is_member, count, count-append, arith, Bool-cases,
  inl, inr, subst, ap, All, bytes_eq_refl, ◌∙◌,
}
use open_git.Workflow.Dag.{release, update, sort_strings}
use open_git.Workflow.Dag.Sort.{count-sort_strings}

-- How many of the needs, counted as often as they are written, the order lacks.
unfoldable pub unmet : List Bytes → List Bytes → ℕ
unmet order [] = 0
unmet order (n ∷ ns) = (if is_member n order then 0 else 1) + unmet order ns

pub unmet-nil : (ns : List Bytes) → unmet [] ns ≡ length ns
unfolding unmet is_member
unmet-nil [] = refl
unmet-nil (n ∷ ns) = omega (arith, unmet-nil ns)

is_member-snoc :
    (x y : Bytes) (xs : List Bytes)
    → is_member x (xs ++ y ∷ []) ≡ (if is_member x xs then true else bytes_eq x y)
unfolding is_member
is_member-snoc x y [] = ground arith
is_member-snoc x y (z ∷ xs) = ground (arith, is_member-snoc x y xs)

pub unmet-snoc :
    (cur : Bytes) (order ns : List Bytes)
    → is_member cur order ≡ false
    → unmet order ns ≡ unmet (order ++ cur ∷ []) ns + count cur ns
unfolding unmet count
unmet-snoc cur order [] h = refl
unmet-snoc cur order (n ∷ ns) h =
    let ih = unmet-snoc cur order ns h in
    rw (is_member-snoc n cur order) (elim (Bool-cases (bytes_eq cur n)) [
      | inl same ↦
          subst
            (λ w.
              (if is_member w order then 0 else 1) + unmet order ns
              ≡ (if (if is_member w order then true else bytes_eq w cur) then 0 else 1)
                + unmet (order ++ cur ∷ []) ns
                + ((if bytes_eq cur w then 1 else 0) + count cur ns))
            ((bytes_eq_iff cur n).0 same) (rw (h, bytes_eq_refl cur) (omega (arith, ih)))
      | inr other ↦
          let flip : bytes_eq n cur ≡ false =
            ground (arith, bytes_eq_iff n cur, bytes_eq_iff cur n, other) in
          rw (other, flip) (ground (arith, ih))
    ])

pub unmet-All :
    (order ns : List Bytes) → unmet order ns ≡ 0 → All (λ n. is_member n order ≡ true) ns
unfolding unmet
unmet-All order [] h = tt
unmet-All order (n ∷ ns) h = elim (Bool-cases (is_member n order)) [
  | inl e ↦ (e, unmet-All order ns (omega arith))
  | inr e ↦ absurd (let one : 1 + unmet order ns ≡ 0 = rw e at h in omega arith)
]

pub All-unmet :
    (order ns : List Bytes) → All (λ n. is_member n order ≡ true) ns → unmet order ns ≡ 0
unfolding unmet
All-unmet order [] h = refl
All-unmet order (n ∷ ns) h = rw h.0 (omega (arith, All-unmet order ns h.1))

pub degree-release :
    (rest : List Bytes) (deg : Bytes → ℕ) (queue : List Bytes) (x : Bytes)
    → (release rest deg queue).0 x ≡ deg x - count x rest
unfolding release count
degree-release [] deg queue x = omega arith
degree-release (next ∷ rest) deg queue x =
    let deg' = update deg next (deg next - 1) in
    let ih =
      degree-release rest deg' (if deg' next == 0 then sort_strings (queue ++ next ∷ []) else queue)
        x in
    elim (Bool-cases (bytes_eq x next)) [
      | inl same ↦ rw same (omega (arith, rw same at ih, ap deg ((bytes_eq_iff x next).0 same)))
      | inr other ↦ rw other (omega (arith, rw other at ih))
    ]

-- A job enters the queue once, when its degree reaches 0.
abbrev pub entered : ℕ → ℕ → ℕ
entered deg times = if ltb 0 times && (deg == times) then 1 else 0

entered-step :
    (same : Bool) (d dn c : ℕ)
    → (if same then 1 else 0) + c ≤ d
    → (same ≡ true → d ≡ dn)
    → (if (dn - 1 == 0) && same then 1 else 0) + entered (if same then dn - 1 else d) c
      ≡ entered d ((if same then 1 else 0) + c)
entered-step true d dn c h e = ground (arith, e refl)
entered-step false d dn c h e = ground arith

count-push :
    (now : Bool) (next : Bytes) (queue : List Bytes) (x : Bytes)
    → count x (if now then sort_strings (queue ++ next ∷ []) else queue)
      ≡ count x queue + (if now && bytes_eq x next then 1 else 0)
unfolding count
count-push false next queue x = omega arith
count-push true next queue x =
    omega (arith, count-sort_strings x (queue ++ next ∷ []), count-append x queue (next ∷ []))

pub count-release :
    (rest : List Bytes) (deg : Bytes → ℕ) (queue : List Bytes)
    → ((x : Bytes) → count x rest ≤ deg x)
    → (x : Bytes)
    → count x (release rest deg queue).1 ≡ count x queue + entered (deg x) (count x rest)
unfolding release count
count-release [] deg queue h x = ground arith
count-release (next ∷ rest) deg queue h x =
    let deg' = update deg next (deg next - 1) in
    let queue' = if deg' next == 0 then sort_strings (queue ++ next ∷ []) else queue in
    let bound : (y : Bytes) → count y rest ≤ deg' y = λ y. elim (Bool-cases (bytes_eq y next)) [
      | inl same ↦
          let e : deg y ≡ deg next = ap deg ((bytes_eq_iff y next).0 same) in
          rw same (omega (arith, rw same at (h y), e))
      | inr other ↦ rw other (omega (arith, rw other at (h y)))
    ] in
    let same-degree : bytes_eq x next ≡ true → deg x ≡ deg next =
      λ e. ap deg ((bytes_eq_iff x next).0 e) in
    let first : deg' next ≡ deg next - 1 = rw (bytes_eq_refl next) refl in
    let pushed : count x queue'
        ≡ count x queue + (if (deg next - 1 == 0) && bytes_eq x next then 1 else 0) =
      count-push (deg' next == 0) next queue x ∙ rw first refl in
    let step = entered-step (bytes_eq x next) (deg x) (deg next) (count x rest) (h x) same-degree in
    let total : count x queue'
          + entered (if bytes_eq x next then deg next - 1 else deg x) (count x rest)
        ≡ count x queue + entered (deg x) ((if bytes_eq x next then 1 else 0) + count x rest) =
      omega (arith, pushed, step) in
    count-release rest deg' queue' bound x ∙ total
