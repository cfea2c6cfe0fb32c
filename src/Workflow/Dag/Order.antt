-- ===== src/Workflow/Dag/Order.antt =====
-- The main loop of `buildDAG` of parser.go: its invariant, and the order that it leaves.
use open_git.Base.{
  ℕ, zero, suc, ◌+◌, ◌-◌, ◌≡◌, ◌<◌, ◌≤◌, refl, Bool, true, false, List, [], ◌∷◌, ◌++◌, Bytes,
  length, length-append, ◌==◌, if◌then◌else◌, bytes_eq, bytes_eq_refl, is_member, is_member-count,
  count-is_member, count, count-append, length-le_of_count, arith, Bool-cases, ltb, ltb→lt, inl,
  inr, All, some, append_assoc, append-nil, sym, subst, ◌∙◌,
}
use open_git.Workflow.Dag.{
  Jobs, DagInfo, graph, release, kahn, sources, sort_strings, dag_order, build_dag, finish,
}
use open_git.Workflow.Dag.Sort.{count-sort_strings, count-sources}
use open_git.Workflow.Dag.Build.{IsMap, in_degree-graph, adj-graph, adj-names}
use open_git.Workflow.Dag.Release.{
  unmet, unmet-nil, unmet-snoc, unmet-All, degree-release, count-release, entered,
}

-- A job that may follow `before`: it is not there yet, and each of its needs is.
abbrev pub MayFollow : Jobs → List Bytes → Bytes → Type 0
MayFollow jobs before x =
    (is_member x jobs.names ≡ true)
    × (is_member x before ≡ false)
    × All (λ n. is_member n before ≡ true) (jobs.needs x)

-- Each job may follow those before it.
abbrev pub IsOrdered : Jobs → List Bytes → List Bytes → Type 0
IsOrdered jobs before [] = Unit
IsOrdered jobs before (x ∷ xs) = MayFollow jobs before x × IsOrdered jobs (before ++ x ∷ []) xs

IsOrdered-snoc :
    (jobs : Jobs) (before xs : List Bytes) (x : Bytes)
    → IsOrdered jobs before xs
    → MayFollow jobs (before ++ xs) x
    → IsOrdered jobs before (xs ++ x ∷ [])
IsOrdered-snoc jobs before [] x h k = (subst (λ l. MayFollow jobs l x) (append-nil before) k, tt)
IsOrdered-snoc jobs before (y ∷ xs) x h k = (
  h.0,
  IsOrdered-snoc jobs (before ++ y ∷ []) xs x h.1
      (subst (λ l. MayFollow jobs l x) (sym (append_assoc before (y ∷ []) xs)) k),
)

-- What holds at the head of the main loop.
pub record Invariant (jobs : Jobs) (deg : Bytes → ℕ) (queue order : List Bytes) : Type 0 where
  pub degrees : (x : Bytes) → 0 < count x jobs.names → deg x ≡ unmet order (jobs.needs x)
  pub places :
      (x : Bytes) → count x order + count x queue ≡ (if deg x == 0 then count x jobs.names else 0)
  pub ordered : IsOrdered jobs [] order

place-step :
    (here : Bool) (d a names order queue order' queue' : ℕ)
    → order + ((if here then 1 else 0) + queue) ≡ (if d == 0 then names else 0)
    → order' ≡ order + ((if here then 1 else 0) + 0)
    → queue' ≡ queue + entered d a
    → a ≤ d
    → names ≤ 1
    → (0 < a → 0 < names)
    → order' + queue' ≡ (if (d - a) == 0 then names else 0)
place-step here d a names order queue order' queue' places longer pushed low map there =
    ground (arith, places, longer, pushed, low, map, there)

module _ (jobs : Jobs) (map : IsMap jobs) where
  -- The head of the queue is a job, and all it needs has run.
  head-MayFollow :
      (deg : Bytes → ℕ) (cur : Bytes) (queue order : List Bytes)
      → Invariant jobs deg (cur ∷ queue) order
      → (0 < count cur jobs.names) × (deg cur ≡ 0) × MayFollow jobs order cur
  unfolding count
  head-MayFollow deg cur queue order inv =
      let place = rw (bytes_eq_refl cur) at (inv.places cur) in
      let zero-degree : deg cur ≡ 0 = ground (arith, place) in
      let job : 0 < count cur jobs.names = ground (arith, place) in
      let absent : is_member cur order ≡ false = elim (Bool-cases (is_member cur order)) [
        | inl e ↦ absurd (ground (arith, place, is_member-count cur order e, map cur))
        | inr e ↦ e
      ] in
      let met = unmet-All order (jobs.needs cur) (omega (arith, inv.degrees cur job)) in
      (job, zero-degree, (count-is_member cur jobs.names job, absent, met))

  -- No degree is taken below 0.
  bound :
      (deg : Bytes → ℕ) (cur : Bytes) (queue order : List Bytes)
      → Invariant jobs deg (cur ∷ queue) order
      → (x : Bytes) → count x ((graph jobs).adj cur) ≤ deg x
  bound deg cur queue order inv x =
      let (job, zero-degree, may) = head-MayFollow deg cur queue order inv in
      let (known, absent, met) = may in
      elim (Bool-cases (ltb 0 (count x ((graph jobs).adj cur)))) [
        | inl e ↦
            let there = adj-names jobs map x cur known (ltb→lt _ _ e) in
            omega (
              arith,
              inv.degrees x there,
              unmet-snoc cur order (jobs.needs x) absent,
              adj-graph jobs map x cur known there,
            )
        | inr e ↦ ground (arith, e)
      ]

  step-Invariant :
      (deg : Bytes → ℕ) (cur : Bytes) (queue order : List Bytes)
      → Invariant jobs deg (cur ∷ queue) order
      → Invariant jobs
          (release ((graph jobs).adj cur) deg queue).0
          (release ((graph jobs).adj cur) deg queue).1
          (order ++ cur ∷ [])
  unfolding count
  step-Invariant deg cur queue order inv =
      let (job, zero-degree, may) = head-MayFollow deg cur queue order inv in
      let (known, absent, met) = may in
      let adj = (graph jobs).adj cur in
      let low = bound deg cur queue order inv in
      record {
        degrees = λ x there. omega (
          arith,
          inv.degrees x there,
          unmet-snoc cur order (jobs.needs x) absent,
          adj-graph jobs map x cur known there,
          degree-release adj deg queue x,
        );
        places = λ x. rw (degree-release adj deg queue x) (
            place-step (bytes_eq x cur) (deg x) (count x adj) (count x jobs.names) (count x order)
              (count x queue) _ _ (inv.places x) (count-append x order (cur ∷ []))
              (count-release adj deg queue low x) (low x) (map x) (adj-names jobs map x cur known));
        ordered = IsOrdered-snoc jobs [] order cur inv.ordered may;
      }

  pub order-le :
      (deg : Bytes → ℕ) (queue order : List Bytes)
      → Invariant jobs deg queue order
      → length order ≤ length jobs.names
  order-le deg queue order inv =
      length-le_of_count order jobs.names λ x. ground (arith, inv.places x)

  -- Enough fuel gives an order, and the invariant holds of it with an empty queue.
  kahn-Ends :
      (fuel : ℕ) (deg : Bytes → ℕ) (queue order : List Bytes)
      → Invariant jobs deg queue order
      → length jobs.names < length order + fuel
      → (out : List Bytes) × (kahn fuel (graph jobs).adj deg queue order ≡ some out)
        × ((last : Bytes → ℕ) × Invariant jobs last [] out)
  unfolding kahn
  kahn-Ends zero deg queue order inv enough = absurd (omega (arith, order-le deg queue order inv))
  kahn-Ends (suc fuel) deg [] order inv enough = (order, refl, (deg, inv))
  kahn-Ends (suc fuel) deg (cur ∷ queue) order inv enough =
      kahn-Ends fuel _ _ (order ++ cur ∷ []) (step-Invariant deg cur queue order inv)
        (omega (arith, length-append {0} order (cur ∷ [])))

  start-Invariant :
      Invariant jobs
        (graph jobs).in_degree
        (sort_strings (sources (graph jobs).in_degree jobs.names))
        []
  unfolding count
  start-Invariant = record {
    degrees = λ x there. in_degree-graph jobs map x there ∙ sym (unmet-nil (jobs.needs x));
    places = λ x. omega (
      arith,
      count-sort_strings x (sources (graph jobs).in_degree jobs.names),
      count-sources x (graph jobs).in_degree jobs.names,
    );
    ordered = tt;
  }

  pub dag_order-Ends :
      (out : List Bytes) × (dag_order jobs ≡ some out)
      × ((last : Bytes → ℕ) × Invariant jobs last [] out)
  unfolding dag_order
  dag_order-Ends = kahn-Ends (suc (length jobs.names)) _ _ [] start-Invariant (omega arith)

  -- On a map of jobs, whatever they need, `buildDAG` ends, and each job of its order is a job of
  -- the map that was not listed before and whose needs are all listed before it.
  pub build_dag-IsOrdered :
      (info : DagInfo) × (build_dag jobs ≡ some info) × IsOrdered jobs [] info.order
  unfolding build_dag
  build_dag-IsOrdered =
      let (out, e, rest) = dag_order-Ends in
      (finish jobs out, rw (e, build_dag) refl, rest.1.ordered)
