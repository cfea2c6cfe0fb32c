-- ===== src/Workflow/Dag/Cycle/Ranked.antt =====
-- `detectCycleMessage` of parser.go: jobs in which it finds no cycle have none.
use open_git.Base.{
  ℕ, zero, suc, ◌+◌, ◌≡◌, ◌≢◌, ◌≤◌, ◌<◌, refl, sym, ◌∙◌, subst, true, false, List, [], ◌∷◌, ◌++◌,
  some, Bytes, bytes_eq, bytes_eq_iff, bytes_eq_refl, members_self, member-nil, is_member, length,
  ◌==◌, ==_iff, Bool-cases, inl, inr, arith, All, All-map,
}
use open_git.Workflow.Dag.{Jobs, DagInfo, build_dag, update}
use open_git.Workflow.Dag.Build.{IsMap}
use open_git.Workflow.Dag.Complete.{IsRanked, IsLower, build_dag-IsRanked}
use open_git.Workflow.Dag.Cycle.{
  Marks, Search, out_of_fuel, found, clear, and_then, scan_needs, dfs, search_from, detect_cycle,
}
use open_git.Workflow.Dag.Cycle.Named.{
  Leaves, OnStack, dfs-Leaves, unseen-length, IsCycle, detect_cycle-Ends,
}

-- The jobs that are done have a rank, above those of the jobs that they need, which are done too.
abbrev IsBelow : Jobs → Marks → (Bytes → ℕ) → ℕ → Bytes → Type 0
IsBelow jobs marks rank bound x =
    (rank x ≤ bound)
    × All (λ n. is_member n jobs.names ≡ true → (1 < marks n) × (rank n < rank x)) (jobs.needs x)

abbrev Ranked : Jobs → Marks → Type 0
Ranked jobs marks =
    (rank : Bytes → ℕ) × (bound : ℕ) × ((x : Bytes) → 1 < marks x → IsBelow jobs marks rank bound x)

abbrev Keeps : Marks → Marks → Type 0
Keeps marks left =
    ((x : Bytes) → 1 < marks x → 1 < left x) × ((x : Bytes) → marks x ≡ 1 → left x ≡ 1)

abbrev Visits : Jobs → Bytes → Marks → Search → Type 0
Visits jobs node marks out_of_fuel = Unit
Visits jobs node marks (found path) = Unit
Visits jobs node marks (clear left) = Ranked jobs left × Keeps marks left × (1 < left node)

abbrev Scans : Jobs → List Bytes → Marks → Search → Type 0
Scans jobs needs marks out_of_fuel = Unit
Scans jobs needs marks (found path) = Unit
Scans jobs needs marks (clear left) =
    Ranked jobs left
    × Keeps marks left
    × All (λ n. is_member n jobs.names ≡ true → 1 < left n) needs

-- One need more, that is done.
Scans-cons :
    (jobs : Jobs) (need : Bytes) (rest : List Bytes) (marks now : Marks) (s : Search)
    → Keeps marks now
    → (is_member need jobs.names ≡ true → 1 < now need)
    → Scans jobs rest now s
    → Scans jobs (need ∷ rest) marks s
Scans-cons jobs need rest marks now out_of_fuel keeps done h = tt
Scans-cons jobs need rest marks now (found path) keeps done h = tt
Scans-cons jobs need rest marks now (clear left) keeps done h = (
  h.0,
  ((λ x k. h.1.0 x (keeps.0 x k)), λ x k. h.1.1 x (keeps.1 x k)),
  ((λ m. h.1.0 need (done m)), h.2),
)

Scans-then :
    (jobs : Jobs) (need : Bytes) (rest : List Bytes) (marks : Marks) (s : Search)
    (f : Marks → Search)
    → Visits jobs need marks s
    → ((left : Marks) → Ranked jobs left → Scans jobs rest left (f left))
    → Scans jobs (need ∷ rest) marks (and_then s f)
Scans-then jobs need rest marks out_of_fuel f h k = tt
Scans-then jobs need rest marks (found path) f h k = tt
Scans-then jobs need rest marks (clear left) f h k =
    Scans-cons jobs need rest marks left (f left) h.1 (λ _. h.2) (k left h.0)

scan-Scans :
    (jobs : Jobs) (stack : List Bytes) (go : Bytes → Marks → Search)
    → ((need : Bytes) (marks : Marks)
        → marks need ≡ 0
        → Ranked jobs marks
        → Visits jobs need marks (go need marks))
    → (needs : List Bytes) (marks : Marks) → Ranked jobs marks
    → Scans jobs needs marks (scan_needs jobs go stack needs marks)
unfolding scan_needs
scan-Scans jobs stack go goes [] marks h = (h, ((λ x k. k), λ x k. k), tt)
scan-Scans jobs stack go goes (need ∷ rest) marks h =
    let keeps : Keeps marks marks = ((λ x k. k), λ x k. k) in
    let others = scan-Scans jobs stack go goes rest marks h in
    elim (Bool-cases (is_member need jobs.names)) [
      | inr out ↦
          rw (out, scan_needs)
            (Scans-cons jobs need rest marks marks _ keeps (λ m. absurd cc) others)
      | inl job ↦ elim (Bool-cases (marks need == 1)) [
        | inl one ↦ rw (job, one, scan_needs, Scans) tt
        | inr other ↦ elim (Bool-cases (marks need == 0)) [
          | inl new ↦
              rw (job, other, new, scan_needs)
                (Scans-then jobs need rest marks (go need marks) (scan_needs jobs go stack rest)
                  (goes need marks ((==_iff (marks need) 0).0 new) h)
                  λ left r. scan-Scans jobs stack go goes rest left r)
          | inr done ↦
              rw (job, other, done, scan_needs)
                (Scans-cons jobs need rest marks marks _ keeps (λ m. ground (arith, other, done))
                  others)
        ]
      ]
    ]

-- The marks of a job that is put on the stack, and of one that is done.
Ranked-push :
    (jobs : Jobs) (marks : Marks) (node : Bytes)
    → marks node ≡ 0
    → Ranked jobs marks
    → Ranked jobs (update marks node 1)
Ranked-push jobs marks node e (rank, bound, h) = (
  rank,
  bound,
  λ x k.
      let (low, below) = h x (before x k) in
      (
        low,
        All-map _
            (λ n. is_member n jobs.names ≡ true → (1 < update marks node 1 n) × (rank n < rank x))
            (jobs.needs x) (λ n below' m. let (done, less) = below' m in (apart n done, less))
            below,
      ),
)
  where
    before : (x : Bytes) → 1 < update marks node 1 x → 1 < marks x
    before x k = ground (arith, k)

    apart : (n : Bytes) → 1 < marks n → 1 < update marks node 1 n
    apart n done = elim (Bool-cases (bytes_eq n node)) [
      | inr other ↦ rw other done
      | inl same ↦ absurd (
          let none_yet = subst (λ y. marks y ≡ 0) (sym ((bytes_eq_iff n node).0 same)) e in
          omega (arith, none_yet, done))
    ]

module _ (jobs : Jobs) (left : Marks) (node : Bytes) (on : left node ≡ 1) where
  other_of_done : (x : Bytes) → 1 < left x → bytes_eq x node ≡ false
  other_of_done x k = elim (Bool-cases (bytes_eq x node)) [
    | inr other ↦ other
    | inl same ↦ absurd (
        let one = subst (λ y. left y ≡ 1) (sym ((bytes_eq_iff x node).0 same)) on in
        omega (arith, one, k))
  ]

  Ranked-done :
      Ranked jobs left
      → All (λ n. is_member n jobs.names ≡ true → 1 < left n) (jobs.needs node)
      → Ranked jobs (update left node 2)
  Ranked-done (rank, bound, h) needs = (update rank node (bound + 1), bound + 1, below)
    where
      rank' : Bytes → ℕ
      rank' = update rank node (bound + 1)

      below :
          (x : Bytes)
          → 1 < update left node 2 x
          → IsBelow jobs (update left node 2) rank' (bound + 1) x
      below x k = elim (Bool-cases (bytes_eq x node)) [
        | inl same ↦
            subst (IsBelow jobs (update left node 2) rank' (bound + 1))
              (sym ((bytes_eq_iff x node).0 same))
              (
                rw (bytes_eq_refl node) (omega arith),
                All-map _
                    (λ n.
                      is_member n jobs.names ≡ true
                      → (1 < update left node 2 n) × (rank' n < rank' node))
                    (jobs.needs node)
                    (λ n d m.
                      let done = d m in
                      let apart = other_of_done n done in
                      (rw apart done, rw (apart, bytes_eq_refl node) (omega (arith, (h n done).0))))
                    needs,
              )
        | inr other ↦
            let (low, under) = h x (rw other at k) in
            (
              rw other (omega (arith, low)),
              All-map _
                  (λ n.
                    is_member n jobs.names ≡ true
                    → (1 < update left node 2 n) × (rank' n < rank' x))
                  (jobs.needs x)
                  (λ n d m.
                    let (done, less) = d m in
                    let apart = other_of_done n done in (rw apart done, rw (apart, other) less))
                  under,
            )
      ]

close-Visits :
    (jobs : Jobs) (node : Bytes) (marks : Marks) (s : Search)
    → marks node ≡ 0
    → Scans jobs (jobs.needs node) (update marks node 1) s
    → Visits jobs node marks (and_then s λ left. clear (update left node 2))
close-Visits jobs node marks out_of_fuel e h = tt
close-Visits jobs node marks (found path) e h = tt
close-Visits jobs node marks (clear left) e h =
    let on : left node ≡ 1 = h.1.1 node (rw (bytes_eq_refl node) refl) in
    (
      Ranked-done jobs left node on h.0 h.2,
      (
        (λ x k. elim (Bool-cases (bytes_eq x node)) [
          | inl same ↦ rw same (omega arith)
          | inr other ↦ rw other (h.1.0 x (rw other k))
        ]),
        λ x k. elim (Bool-cases (bytes_eq x node)) [
          | inl same ↦ absurd (
              let none_yet = subst (λ y. marks y ≡ 0) (sym ((bytes_eq_iff x node).0 same)) e in
              omega (arith, none_yet, k))
          | inr other ↦ rw other (h.1.1 x (rw other k))
        ],
      ),
      rw (bytes_eq_refl node) (omega arith),
    )

dfs-Visits :
    (jobs : Jobs) (fuel : ℕ) (stack : List Bytes) (node : Bytes) (marks : Marks)
    → marks node ≡ 0
    → Ranked jobs marks
    → Visits jobs node marks (dfs fuel jobs stack node marks)
unfolding dfs
dfs-Visits jobs zero stack node marks e h = tt
dfs-Visits jobs (suc fuel) stack node marks e h = close-Visits jobs node marks _ e (
    scan-Scans jobs (stack ++ node ∷ []) (dfs fuel jobs (stack ++ node ∷ []))
      (λ need marks' e' h'. dfs-Visits jobs fuel (stack ++ node ∷ []) need marks' e' h')
      (jobs.needs node) (update marks node 1) (Ranked-push jobs marks node e h))

abbrev Searches : Jobs → List Bytes → Marks → Search → Type 0
Searches jobs names marks out_of_fuel = Unit
Searches jobs names marks (found path) = Unit
Searches jobs names marks (clear left) =
    Ranked jobs left × Keeps marks left × All (λ x. 1 < left x) names

Searches-cons :
    (jobs : Jobs) (job : Bytes) (rest : List Bytes) (marks now : Marks) (s : Search)
    → Keeps marks now
    → 1 < now job
    → Searches jobs rest now s
    → Searches jobs (job ∷ rest) marks s
Searches-cons jobs job rest marks now out_of_fuel keeps done h = tt
Searches-cons jobs job rest marks now (found path) keeps done h = tt
Searches-cons jobs job rest marks now (clear left) keeps done h =
    (h.0, ((λ x k. h.1.0 x (keeps.0 x k)), λ x k. h.1.1 x (keeps.1 x k)), (h.1.0 job done, h.2))

Searches-then :
    (jobs : Jobs) (job : Bytes) (rest : List Bytes) (marks : Marks) (s : Search)
    (f : Marks → Search)
    → Visits jobs job marks s
    → Leaves jobs marks s
    → ((left : Marks)
        → Ranked jobs left
        → Leaves jobs marks (clear left)
        → Searches jobs rest left (f left))
    → Searches jobs (job ∷ rest) marks (and_then s f)
Searches-then jobs job rest marks out_of_fuel f h l k = tt
Searches-then jobs job rest marks (found path) f h l k = tt
Searches-then jobs job rest marks (clear left) f h l k =
    Searches-cons jobs job rest marks left (f left) h.1 h.2 (k left h.0 l)

search-Searches :
    (jobs : Jobs) (names : List Bytes) (marks : Marks)
    → All (λ x. is_member x jobs.names ≡ true) names
    → OnStack marks []
    → Ranked jobs marks
    → Searches jobs names marks (search_from jobs names marks)
unfolding search_from
search-Searches jobs [] marks members on h = (h, ((λ x k. k), λ x k. k), tt)
search-Searches jobs (job ∷ rest) marks members on h = elim (Bool-cases (marks job == 0)) [
  | inl new ↦
      let e = (==_iff (marks job) 0).0 new in
      rw (new, search_from)
        (Searches-then jobs job rest marks (dfs (length jobs.names) jobs [] job marks)
          (search_from jobs rest) (dfs-Visits jobs (length jobs.names) [] job marks e h)
          (dfs-Leaves jobs (length jobs.names) [] job marks members.0 e
            (unseen-length marks jobs.names) on tt)
          λ left r l. search-Searches jobs rest left members.1 (λ x k. on x (l.0 x k)) r)
  | inr seen ↦
      rw (seen, search_from)
        (Searches-cons jobs job rest marks marks _ ((λ x k. k), λ x k. k) (done (on job) seen)
          (search-Searches jobs rest marks members.1 on h))
]
  where
    done : (marks job ≡ 1 → is_member job [] ≡ true) → (marks job == 0) ≡ false → 1 < marks job
    done k seen = elim (Bool-cases (marks job == 1)) [
      | inl one ↦ absurd (member-nil job (k ((==_iff (marks job) 1).0 one)))
      | inr other ↦ ground (arith, seen, other)
    ]

no_marks-Ranked : (jobs : Jobs) → Ranked jobs (λ _. 0)
no_marks-Ranked jobs = ((λ _. 0), 0, λ x k. absurd (omega (arith, k)))

detect-Searches : (jobs : Jobs) → Searches jobs jobs.names (λ _. 0) (detect_cycle jobs)
unfolding detect_cycle
detect-Searches jobs =
    search-Searches jobs jobs.names (λ _. 0) (members_self jobs.names)
      (λ x e. absurd (omega (arith, e))) (no_marks-Ranked jobs)

-- Each job needs only jobs that there are.
abbrev pub KnowsNeeds : Jobs → Type 0
KnowsNeeds jobs =
    (x : Bytes)
    → is_member x jobs.names ≡ true
    → All (λ n. is_member n jobs.names ≡ true) (jobs.needs x)

All-at : (P : Bytes → Type 0) (xs : List Bytes) (x : Bytes) → All P xs → is_member x xs ≡ true → P x
unfolding is_member
All-at P [] x h m = absurd cc
All-at P (y ∷ ys) x h m = elim (Bool-cases (bytes_eq x y)) [
  | inl same ↦ subst P (sym ((bytes_eq_iff x y).0 same)) h.0
  | inr other ↦ All-at P ys x h.1 (rw other at m)
]

All-both :
    (P Q R : Bytes → Type 0) (xs : List Bytes)
    → ((x : Bytes) → P x → Q x → R x)
    → All P xs
    → All Q xs
    → All R xs
All-both P Q R [] f h k = tt
All-both P Q R (x ∷ xs) f h k = (f x h.0 k.0, All-both P Q R xs f h.1 k.1)

clear-IsRanked :
    (jobs : Jobs) (left : Marks)
    → KnowsNeeds jobs
    → Searches jobs jobs.names (λ _. 0) (clear left)
    → (rank : Bytes → ℕ) × IsRanked jobs rank
clear-IsRanked jobs left known ((rank, bound, h), keeps, all) = (
  rank,
  λ x m.
      All-both (λ n. is_member n jobs.names ≡ true) _ (IsLower jobs rank x) (jobs.needs x)
        (λ n k below. (k, (below k).1)) (known x m)
        ((h x (All-at (λ y. 1 < left y) jobs.names x all m)).1),
)

-- Where each job needs only jobs that there are, and `buildDAG` reports something, the search of
-- `detectCycleMessage` ends with a path, each of whose jobs is needed by the one before it, and whose
-- last job is on the path before.
pub detect_cycle-IsCycle :
    (jobs : Jobs) (info : DagInfo)
    → IsMap jobs
    → KnowsNeeds jobs
    → build_dag jobs ≡ some info
    → info.diags ≢ []
    → (path : List Bytes) × (detect_cycle jobs ≡ found path) × IsCycle jobs path
detect_cycle-IsCycle jobs info map known built reported =
    named (detect_cycle jobs) refl (detect_cycle-Ends jobs) (detect-Searches jobs)
  where
    named :
        (s : Search)
        → detect_cycle jobs ≡ s
        → Leaves jobs (λ _. 0) s
        → Searches jobs jobs.names (λ _. 0) s
        → (path : List Bytes) × (detect_cycle jobs ≡ found path) × IsCycle jobs path
    named out_of_fuel e l h = absurd l
    named (found path) e l h = (path, e, l)
    named (clear left) e l h =
        let (rank, ranked) = clear-IsRanked jobs left known h in
        let (info', built', quiet, complete) = build_dag-IsRanked jobs map rank ranked in
        let same : info' ≡ info = let both = sym built' ∙ built in cc in
        absurd (reported (subst (λ i. i.diags ≡ []) same quiet))
