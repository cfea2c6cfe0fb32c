-- ===== src/Workflow/Dag/Complete.antt =====
-- When `buildDAG` has nothing to report, when it reports, and which jobs it then leaves out.
use open_git.Base.{
  ℕ, zero, suc, ◌≡◌, ◌<◌, ◌≤◌, refl, true, false, List, [], ◌∷◌, ◌++◌, Bytes, length, ltb, lt→ltb,
  bytes_eq, bytes_eq_iff, bytes_eq_refl, is_member, is_member-count, count-is_member,
  not_member-count, count, length-le_of_count, length-lt_of_count, arith, Bool-cases, inl, inr, All,
  All-map, some, sym, subst, ap, ◌∙◌,
}
use open_git.Workflow.Dag.{
  Jobs, DagInfo, DagMessage, Graph, graph, add_need, add_needs, add_jobs, no_graph, build_dag,
  finish, cyclic_dependency, cycle_check,
}
use open_git.Workflow.Dag.Build.{IsMap}
use open_git.Workflow.Dag.Release.{unmet, All-unmet, unmet-All}
use open_git.Workflow.Dag.Order.{Invariant, dag_order-Ends}

-- Every need is a job.
abbrev pub IsClosed : Jobs → List Bytes → Type 0
IsClosed jobs js = All (λ j. All (λ n. is_member n jobs.names ≡ true) (jobs.needs j)) js

diags-add_needs :
    (names : List Bytes) (job : Bytes) (ns : List Bytes) (g : Graph)
    → All (λ n. is_member n names ≡ true) ns
    → (add_needs names job ns g).diags ≡ g.diags
unfolding add_needs add_need
diags-add_needs names job [] g h = refl
diags-add_needs names job (n ∷ ns) g h =
    diags-add_needs names job ns (add_need names job n g) h.1 ∙ rw (h.0, add_need) refl

diags-add_jobs :
    (jobs : Jobs) (js : List Bytes) (g : Graph)
    → IsClosed jobs js
    → (add_jobs jobs js g).diags ≡ g.diags
unfolding add_jobs
diags-add_jobs jobs [] g h = refl
diags-add_jobs jobs (j ∷ js) g h =
    diags-add_jobs jobs js (add_needs jobs.names j (jobs.needs j) g) h.1
    ∙ diags-add_needs jobs.names j (jobs.needs j) g h.0

-- A need that is lower than its job in some ranking of the jobs, and is a job.
abbrev pub IsLower : Jobs → (Bytes → ℕ) → Bytes → Bytes → Type 0
IsLower jobs rank x n = (is_member n jobs.names ≡ true) × (rank n < rank x)

abbrev pub IsRanked : Jobs → (Bytes → ℕ) → Type 0
IsRanked jobs rank =
    (x : Bytes) → is_member x jobs.names ≡ true → All (IsLower jobs rank x) (jobs.needs x)

IsRanked-IsClosed :
    (jobs : Jobs) (rank : Bytes → ℕ)
    → IsRanked jobs rank
    → (js : List Bytes) → ((x : Bytes) → 0 < count x js → is_member x jobs.names ≡ true)
    → IsClosed jobs js
unfolding count
IsRanked-IsClosed jobs rank ranked [] h = tt
IsRanked-IsClosed jobs rank ranked (j ∷ js) h =
    let known : is_member j jobs.names ≡ true = h j (rw (bytes_eq_refl j, count) (omega arith)) in
    (
      All-map (IsLower jobs rank j) (λ n. is_member n jobs.names ≡ true) (jobs.needs j) (λ n k. k.0)
          (ranked j known),
      IsRanked-IsClosed jobs rank ranked js λ x there. h x (omega (arith, there)),
    )

append-[]-right : {A : Type 0} (xs ys : List A) → xs ++ ys ≡ [] → ys ≡ []
append-[]-right [] ys h = h
append-[]-right (x ∷ xs) ys h = cc

All-is_member :
    (P : Bytes → Type 0) (n : Bytes) (ns : List Bytes) → All P ns → is_member n ns ≡ true → P n
unfolding is_member
All-is_member P n [] h k = cc
All-is_member P n (m ∷ ns) h k = elim (Bool-cases (bytes_eq n m)) [
  | inl e ↦ subst P (sym ((bytes_eq_iff n m).0 e)) h.0
  | inr e ↦ All-is_member P n ns h.1 (rw e at k)
]

module _ (jobs : Jobs) (map : IsMap jobs) where
  settled :
      (last : Bytes → ℕ) (out : List Bytes) (x : Bytes)
      → Invariant jobs last [] out
      → is_member x jobs.names ≡ true
      → All (λ n. is_member n out ≡ true) (jobs.needs x)
      → is_member x out ≡ true
  unfolding count
  settled last out x inv job met =
      let there = is_member-count x jobs.names job in
      let zero-degree : last x ≡ 0 = inv.degrees x there ∙ All-unmet out (jobs.needs x) met in
      count-is_member x out (ground (arith, inv.places x, zero-degree))

  -- An order as long as the map holds every job of it.
  full :
      (last : Bytes → ℕ) (out : List Bytes)
      → Invariant jobs last [] out
      → ltb (length out) (length jobs.names) ≡ false
      → (x : Bytes) → is_member x jobs.names ≡ true
      → is_member x out ≡ true
  full last out inv long x job = elim (Bool-cases (is_member x out)) [
    | inl e ↦ e
    | inr e ↦
        let fewer : count x out < count x jobs.names =
          omega (arith, not_member-count x out e, is_member-count x jobs.names job) in
        absurd (
          ground (
            arith,
            long,
            length-lt_of_count x out jobs.names (λ z. ground (arith, inv.places z)) fewer,
          ))
  ]

  -- A run of `buildDAG` that reports nothing has every job in its order.
  pub build_dag-IsComplete :
      (info : DagInfo)
      → build_dag jobs ≡ some info
      → info.diags ≡ []
      → (x : Bytes) → is_member x jobs.names ≡ true
      → is_member x info.order ≡ true
  unfolding build_dag
  build_dag-IsComplete info returned clean =
      let (out, e, rest) = dag_order-Ends jobs map in
      let built : build_dag jobs ≡ some (finish jobs out) = rw (e, build_dag) refl in
      let same : finish jobs out ≡ info = cc in
      let quiet : cycle_check jobs out ≡ [] =
        append-[]-right (graph jobs).diags (cycle_check jobs out)
          (ap (λ i. i.diags) same ∙ clean) in
      let long : ltb (length out) (length jobs.names) ≡ false =
        elim (Bool-cases (ltb (length out) (length jobs.names))) [
          | inl k ↦ absurd (let one : cyclic_dependency ∷ [] ≡ [] = rw k at quiet in cc)
          | inr k ↦ k
        ] in
      subst (λ i. (x : Bytes) → is_member x jobs.names ≡ true → is_member x i.order ≡ true) same
        (full rest.0 out rest.1 long)

  -- A job that needs an unknown job is left out, and a cyclic dependency is reported.
  pub build_dag-unknown_need :
      (x n : Bytes)
      → is_member x jobs.names ≡ true
      → is_member n (jobs.needs x) ≡ true
      → is_member n jobs.names ≡ false
      → (info : DagInfo) × (build_dag jobs ≡ some info)
        × (is_member x info.order ≡ false)
        × ((before : List DagMessage) × (info.diags ≡ before ++ cyclic_dependency ∷ []))
  unfolding build_dag
  build_dag-unknown_need x n job needed unknown =
      let (out, e, rest) = dag_order-Ends jobs map in
      let inv = rest.1 in
      let absent : is_member n out ≡ false = elim (Bool-cases (is_member n out)) [
        | inl k ↦ absurd (
            ground
              (arith, inv.places n, not_member-count n jobs.names unknown, is_member-count n out k))
        | inr k ↦ k
      ] in
      let left_out : is_member x out ≡ false = elim (Bool-cases (is_member x out)) [
        | inl k ↦
            let there = is_member-count x jobs.names job in
            let met : unmet out (jobs.needs x) ≡ 0 =
              ground (arith, inv.places x, inv.degrees x there, is_member-count x out k) in
            let listed =
              All-is_member (λ m. is_member m out ≡ true) n (jobs.needs x)
                (unmet-All out (jobs.needs x) met) needed in
            absurd cc
        | inr k ↦ k
      ] in
      let short : length out < length jobs.names =
        length-lt_of_count x out jobs.names (λ z. ground (arith, inv.places z))
          (omega (arith, not_member-count x out left_out, is_member-count x jobs.names job)) in
      (
        finish jobs out,
        rw (e, build_dag) refl,
        left_out,
        ((graph jobs).diags, rw (lt→ltb _ _ short) refl),
      )

  module _ (rank : Bytes → ℕ) (ranked : IsRanked jobs rank) where
    all-settled :
        (last : Bytes → ℕ) (out : List Bytes)
        → Invariant jobs last [] out
        → (k : ℕ) (x : Bytes) → rank x < k
        → is_member x jobs.names ≡ true
        → is_member x out ≡ true
    all-settled last out inv zero x low job = absurd (omega arith)
    all-settled last out inv (suc k) x low job = settled last out x inv job (
        All-map (IsLower jobs rank x) (λ n. is_member n out ≡ true) (jobs.needs x)
          (λ n h. all-settled last out inv k n (omega (arith, h.1)) h.0) (ranked x job))

    -- If each need of a job is a job, of a lower rank, `buildDAG` reports nothing and puts every
    -- job in the order.
    pub build_dag-IsRanked :
        (info : DagInfo) × (build_dag jobs ≡ some info)
        × (info.diags ≡ [])
        × ((x : Bytes) → is_member x jobs.names ≡ true → is_member x info.order ≡ true)
    unfolding build_dag graph
    build_dag-IsRanked =
        let (out, e, rest) = dag_order-Ends jobs map in
        let every : (x : Bytes) → is_member x jobs.names ≡ true → is_member x out ≡ true =
          λ x. all-settled rest.0 out rest.1 (suc (rank x)) x (omega arith) in
        let long : length jobs.names ≤ length out = length-le_of_count jobs.names out λ x.
          elim (Bool-cases (is_member x jobs.names)) [
            | inl k ↦ omega (arith, is_member-count x out (every x k), map x)
            | inr k ↦ omega (arith, not_member-count x jobs.names k)
          ] in
        let closed =
          IsRanked-IsClosed jobs rank ranked jobs.names (λ x. count-is_member x jobs.names) in
        let quiet : ltb (length out) (length jobs.names) ≡ false = ground (arith, long) in
        (
          finish jobs out,
          rw (e, build_dag) refl,
          rw (quiet, diags-add_jobs jobs jobs.names no_graph closed) refl,
          every,
        )
