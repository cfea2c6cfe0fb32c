-- ===== src/Workflow/Dag/Cycle.antt =====
-- `detectCycleMessage` of parser.go: the cycle that a report names.
use open_git.Base.{
  ℕ, zero, suc, ◌+◌, ◌≡◌, ◌≤◌, ◌<◌, refl, sym, ap, ◌∙◌, subst, Bool, true, false, ◌||◌, List, [],
  ◌∷◌, ◌++◌, Option, none, some, Bytes, bytes_eq, bytes_eq_iff, bytes_eq_refl, bytes_eq_comm,
  members_self, is_member, is_member-append, length, ◌==◌, ==_iff, if◌then◌else◌, Bool-cases, inl,
  inr, arith, All,
}
use open_git.Workflow.Dag.{Jobs, update}
pub mod Named
pub mod Ranked

-- What `visited` holds: 0 for a job not seen yet, 1 for one on the stack, 2 for one that is done.
abbrev pub Marks : Type 0
Marks = Bytes → ℕ

-- What `dfs` leaves: fuel that runs out, the path of a cycle, or the marks.
pub data Search : Type 0 where
  out_of_fuel : Search
  found : List Bytes → Search
  clear : Marks → Search

abbrev pub and_then : Search → (Marks → Search) → Search
and_then (clear marks) f = f marks
and_then (found path) f = found path
and_then out_of_fuel f = out_of_fuel

-- The loop over the needs of the job on top of the stack; `go` is `dfs`.
unfoldable pub scan_needs :
    Jobs → (Bytes → Marks → Search) → List Bytes → List Bytes → Marks → Search
scan_needs jobs go stack [] marks = clear marks
scan_needs jobs go stack (need ∷ rest) marks = elim (is_member need jobs.names) [
  | false ↦ scan_needs jobs go stack rest marks
  | true ↦ elim (marks need == 1) [
    | true ↦ found (stack ++ need ∷ [])
    | false ↦ elim (marks need == 0) [
      | true ↦ and_then (go need marks) (scan_needs jobs go stack rest)
      | false ↦ scan_needs jobs go stack rest marks
    ]
  ]
]

unfoldable pub dfs : ℕ → Jobs → List Bytes → Bytes → Marks → Search
dfs zero jobs stack node marks = out_of_fuel
dfs (suc fuel) jobs stack node marks =
    let stack' = stack ++ node ∷ [] in
    and_then (scan_needs jobs (dfs fuel jobs stack') stack' (jobs.needs node) (update marks node 1))
      λ left. clear (update left node 2)

-- The loop over the jobs. The path of a cycle has two jobs at least, so its length is not tested.
unfoldable pub search_from : Jobs → List Bytes → Marks → Search
search_from jobs [] marks = clear marks
search_from jobs (job ∷ rest) marks = elim (marks job == 0) [
  | true ↦ and_then (dfs (length jobs.names) jobs [] job marks) (search_from jobs rest)
  | false ↦ search_from jobs rest marks
]

-- The path that `detectCycleMessage` prints, if it finds one.
unfoldable pub detect_cycle : Jobs → Search
detect_cycle jobs = search_from jobs jobs.names λ _. 0
