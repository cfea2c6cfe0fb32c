-- ===== src/Workflow/Dag.antt =====
-- `buildDAG` of backend/internal/infrastructure/workflow/parser.go: the order in which the jobs of
-- a workflow run, by Kahn's algorithm.
use open_git.Base.{
  ℕ, zero, suc, ◌+◌, ◌-◌, ◌≡◌, Bool, true, false, List, [], ◌∷◌, ◌++◌, Option, none, some, Bytes,
  length, ltb, ◌==◌, if◌then◌else◌, bytes_eq, is_member,
}
pub mod Sort
pub mod Build
pub mod Release
pub mod Order
pub mod Complete
pub mod Cycle

-- `map[string]IRJob`: the keys in the order of the iteration, which Go leaves open, and the field
-- `Needs` of the entry at a key.
pub record Jobs : Type 0 where
  pub names : List Bytes
  pub needs : Bytes → List Bytes

pub data DagMessage : Type 0 where
  unknown_need : Bytes → Bytes → DagMessage
  cyclic_dependency : DagMessage

-- The state of the first two loops. A missing key of `inDegree` or `adj` reads as 0 or as nil.
pub record Graph : Type 0 where
  pub in_degree : Bytes → ℕ
  pub adj : Bytes → List Bytes
  pub edges : List (Bytes × Bytes)
  pub diags : List DagMessage

abbrev pub update {ℓ} : {A : Type ℓ} → (Bytes → A) → Bytes → A → Bytes → A
update f k v x = if bytes_eq x k then v else f x

abbrev increment : Graph → Bytes → Bytes → ℕ
increment g job = update g.in_degree job (g.in_degree job + 1)

unfoldable pub add_need : List Bytes → Bytes → Bytes → Graph → Graph
add_need names job need g =
    if is_member need names
    then record {
      in_degree = increment g job;
      adj = update g.adj need (g.adj need ++ job ∷ []);
      edges = g.edges ++ (need, job) ∷ [];
      diags = g.diags;
    }
    else record g { in_degree = increment g job; diags = g.diags ++ unknown_need job need ∷ [] }

unfoldable pub add_needs : List Bytes → Bytes → List Bytes → Graph → Graph
add_needs names job [] g = g
add_needs names job (need ∷ rest) g = add_needs names job rest (add_need names job need g)

unfoldable pub add_jobs : Jobs → List Bytes → Graph → Graph
add_jobs jobs [] g = g
add_jobs jobs (job ∷ rest) g = add_jobs jobs rest (add_needs jobs.names job (jobs.needs job) g)

abbrev pub no_graph : Graph
no_graph = record { in_degree = λ _. 0; adj = λ _. []; edges = []; diags = [] }

unfoldable pub graph : Jobs → Graph
graph jobs = add_jobs jobs jobs.names no_graph

-- `a < b` on Go strings.
unfoldable pub bytes_lt : Bytes → Bytes → Bool
bytes_lt [] [] = false
bytes_lt [] (b ∷ bs) = true
bytes_lt (a ∷ as') [] = false
bytes_lt (a ∷ as') (b ∷ bs) = if ltb a b then true else if a == b then bytes_lt as' bs else false

-- `sort.Strings`
unfoldable pub insert_sorted : Bytes → List Bytes → List Bytes
insert_sorted x [] = x ∷ []
insert_sorted x (y ∷ ys) = if bytes_lt y x then y ∷ insert_sorted x ys else x ∷ y ∷ ys

unfoldable pub sort_strings : List Bytes → List Bytes
sort_strings [] = []
sort_strings (x ∷ xs) = insert_sorted x (sort_strings xs)

-- The keys of `inDegree` with degree 0.
unfoldable pub sources : (Bytes → ℕ) → List Bytes → List Bytes
sources deg [] = []
sources deg (x ∷ xs) = if deg x == 0 then x ∷ sources deg xs else sources deg xs

-- The loop over `adj[cur]`: the degrees and the queue that it leaves.
unfoldable pub release : List Bytes → (Bytes → ℕ) → List Bytes → (Bytes → ℕ) × List Bytes
release [] deg queue = (deg, queue)
release (next ∷ rest) deg queue =
    let deg' = update deg next (deg next - 1) in
    release rest deg' (if deg' next == 0 then sort_strings (queue ++ next ∷ []) else queue)

-- The main loop; `none` is fuel that runs out.
unfoldable pub kahn :
    ℕ → (Bytes → List Bytes) → (Bytes → ℕ) → List Bytes → List Bytes → Option (List Bytes)
kahn zero adj deg queue order = none
kahn (suc fuel) adj deg [] order = some order
kahn (suc fuel) adj deg (cur ∷ queue) order =
    let (deg', queue') = release (adj cur) deg queue in
    kahn fuel adj deg' queue' (order ++ cur ∷ [])

pub record DagInfo : Type 0 where
  pub order : List Bytes
  pub edges : List (Bytes × Bytes)
  pub diags : List DagMessage

unfoldable pub dag_order : Jobs → Option (List Bytes)
dag_order jobs =
    let g = graph jobs in
    kahn (suc (length jobs.names)) g.adj g.in_degree (sort_strings (sources g.in_degree jobs.names))
      []

abbrev cycle_check : Jobs → List Bytes → List DagMessage
cycle_check jobs order =
    if ltb (length order) (length jobs.names) then cyclic_dependency ∷ [] else []

abbrev pub finish : Jobs → List Bytes → DagInfo
finish jobs order = record {
  order = order;
  edges = (graph jobs).edges;
  diags = (graph jobs).diags ++ cycle_check jobs order;
}

-- `buildDAG`
unfoldable pub build_dag : Jobs → Option DagInfo
build_dag jobs = elim (dag_order jobs) [ none ↦ none | some order ↦ some (finish jobs order) ]
