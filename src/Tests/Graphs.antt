-- ===== src/Tests/Graphs.antt =====
-- Graphs of jobs and matrices at concrete inputs.
use open_git.Base.{
  ℕ, ◌≡◌, refl, true, false, List, [], ◌∷◌, ◌++◌, none, some, Bytes, codes, bytes_eq, bytes_eq_iff,
  str_eq, is_member, count, arith, Bool-cases, inl, inr, if◌then◌else◌,
}
use open_git.Workflow.Dag.{
  Jobs, DagInfo, DagMessage, cyclic_dependency, build_dag, dag_order, graph, add_jobs, add_needs,
  add_need, kahn, release, sources, sort_strings, insert_sorted, bytes_lt,
}
use open_git.Workflow.Dag.Build.{IsMap}
use open_git.Workflow.Dag.Order.{IsOrdered, build_dag-IsOrdered}
use open_git.Workflow.Dag.Complete.{IsRanked, build_dag-unknown_need, build_dag-IsRanked}
use open_git.Workflow.Dag.Cycle.{detect_cycle, search_from, dfs, scan_needs, found}
use open_git.Workflow.Dag.Cycle.Named.{IsCycle}
use open_git.Workflow.Dag.Cycle.Ranked.{KnowsNeeds, detect_cycle-IsCycle}
use open_git.Workflow.Matrix.{
  scalar, sequence, mapping, item, no_items, entry, no_entries, Combo, expand_matrix, expand_raw,
  read_entries, read_entry, nothing_read, decode_matrix_rows, decode_items, to_combo, to_values,
  multiply, add_combos, add_values, assign, find, any_eq, row_matches, include_rows,
  include_matching, is_excluded, apply_exclude,
}
use open_git.Workflow.Matrix.Expand.{IsWithin, expand_matrix-IsWithin}

abbrev pub b : Bytes
b = codes "b"

abbrev pub t : Bytes
t = codes "t"

-- A build, and tests that need it.
abbrev pub build_and_test : Jobs
build_and_test = record { names = t ∷ b ∷ []; needs = λ job. if bytes_eq job t then b ∷ [] else [] }

pub build_and_test-IsMap : IsMap build_and_test
unfolding count
build_and_test-IsMap x = ground (arith, bytes_eq_iff x t, bytes_eq_iff x b, t_b)
  where
    t_b : bytes_eq t b ≡ false
    t_b = unfold bytes_eq in refl

abbrev rank : Bytes → ℕ
rank job = if bytes_eq job t then 1 else 0

build_and_test-IsRanked : IsRanked build_and_test rank
unfolding is_member bytes_eq
build_and_test-IsRanked x h = elim (Bool-cases (bytes_eq x t)) [
  | inl e ↦ rw e ((refl, ground (arith, e)), tt)
  | inr e ↦ rw e tt
]

abbrev pub built : DagInfo
built = record { order = b ∷ t ∷ []; edges = (b, t) ∷ []; diags = [] }

pub builds : build_dag build_and_test ≡ some built
unfolding build_dag dag_order graph add_jobs add_needs add_need kahn release sources sort_strings
    insert_sorted bytes_lt bytes_eq is_member
builds = refl

build_dag-IsOrdered_example :
    (info : DagInfo) × (build_dag build_and_test ≡ some info)
    × IsOrdered build_and_test [] info.order
build_dag-IsOrdered_example = build_dag-IsOrdered build_and_test build_and_test-IsMap

build_dag-IsRanked_example :
    (info : DagInfo) × (build_dag build_and_test ≡ some info)
    × (info.diags ≡ [])
    × ((x : Bytes) → is_member x (t ∷ b ∷ []) ≡ true → is_member x info.order ≡ true)
build_dag-IsRanked_example =
    build_dag-IsRanked build_and_test build_and_test-IsMap rank build_and_test-IsRanked

-- A job that needs one that is not there.
abbrev lonely : Jobs
lonely = record { names = t ∷ []; needs = λ _. b ∷ [] }

lonely-IsMap : IsMap lonely
unfolding count
lonely-IsMap x = ground arith

build_dag-unknown_need_example :
    (info : DagInfo) × (build_dag lonely ≡ some info)
    × (is_member t info.order ≡ false)
    × ((before : List DagMessage) × (info.diags ≡ before ++ cyclic_dependency ∷ []))
unfolding is_member bytes_eq
build_dag-unknown_need_example = build_dag-unknown_need lonely lonely-IsMap t b refl refl refl

-- A job and another that need each other.
abbrev circular : Jobs
circular = record {
  names = t ∷ b ∷ [];
  needs = λ job. if bytes_eq job t then b ∷ [] else if bytes_eq job b then t ∷ [] else [];
}

abbrev circular_info : DagInfo
circular_info = record { order = []; edges = (b, t) ∷ (t, b) ∷ []; diags = cyclic_dependency ∷ [] }

circular_builds : build_dag circular ≡ some circular_info
unfolding build_dag dag_order graph add_jobs add_needs add_need kahn release sources sort_strings
    insert_sorted bytes_lt bytes_eq is_member
circular_builds = refl

circular-IsMap : IsMap circular
circular-IsMap = build_and_test-IsMap

circular-KnowsNeeds : KnowsNeeds circular
unfolding is_member bytes_eq
circular-KnowsNeeds x h = elim (Bool-cases (bytes_eq x t)) [
  | inl e ↦ rw e (refl, tt)
  | inr e ↦ elim (Bool-cases (bytes_eq x b)) [ inl k ↦ rw (e, k) (refl, tt) | inr k ↦ rw (e, k) tt ]
]

detect_cycle-IsCycle_example :
    (path : List Bytes) × (detect_cycle circular ≡ found path) × IsCycle circular path
detect_cycle-IsCycle_example =
    detect_cycle-IsCycle circular circular_info circular-IsMap circular-KnowsNeeds circular_builds
      (λ h. cc)

detects : detect_cycle circular ≡ found (t ∷ b ∷ t ∷ [])
unfolding detect_cycle search_from dfs scan_needs is_member bytes_eq
detects = refl

-- Two systems, of which the second is excluded.
abbrev excluding : Combo
excluding =
    (codes "os", sequence (item (scalar "str" "a") (item (scalar "str" "b") no_items)))
    ∷ (
      codes "exclude",
      sequence (item (mapping (entry (codes "os") (scalar "str" "b") no_entries)) no_items),
    )
    ∷ []

expands : expand_matrix (some excluding) ≡ some (((codes "os", scalar "str" "a") ∷ []) ∷ [], [])
unfolding expand_matrix expand_raw read_entries read_entry decode_matrix_rows decode_items to_combo
    to_values multiply add_combos add_values assign find any_eq row_matches include_rows
    include_matching is_excluded apply_exclude sort_strings insert_sorted bytes_eq str_eq
expands = refl

expand_matrix-IsWithin_example :
    IsWithin (read_entries excluding nothing_read) (((codes "os", scalar "str" "a") ∷ []) ∷ [])
expand_matrix-IsWithin_example =
    expand_matrix-IsWithin excluding (((codes "os", scalar "str" "a") ∷ []) ∷ [], []) expands

-- A sequence as a value of an axis and of a row that excludes.
abbrev listing : Combo
listing =
    (codes "os", sequence (item (sequence no_items) no_items))
    ∷ (
      codes "exclude",
      sequence (item (mapping (entry (codes "os") (sequence no_items) no_entries)) no_items),
    )
    ∷ []

panics : expand_matrix (some listing) ≡ none
unfolding expand_matrix expand_raw read_entries read_entry decode_matrix_rows decode_items to_combo
    to_values multiply add_combos add_values assign find any_eq row_matches include_rows
    include_matching is_excluded apply_exclude sort_strings insert_sorted bytes_eq str_eq
panics = refl

-- A NaN of an axis is not excluded by a row with a NaN.
nan_stays : any_eq (scalar "float64" "NaN") (scalar "float64" "NaN") ≡ some false
unfolding any_eq str_eq
nan_stays = refl
