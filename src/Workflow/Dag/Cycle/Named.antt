-- ===== src/Workflow/Dag/Cycle/Named.antt =====
-- `detectCycleMessage` of parser.go: the path that it prints.
use open_git.Base.{
  ℕ, zero, suc, ◌+◌, ◌≡◌, ◌≤◌, ◌<◌, refl, sym, ◌∙◌, subst, true, List, [], ◌∷◌, ◌++◌, Bytes,
  bytes_eq, bytes_eq_iff, bytes_eq_comm, members_self, is_member, is_member-append, length, ◌==◌,
  ==_iff, if◌then◌else◌, Bool-cases, inl, inr, arith, All,
}
use open_git.Workflow.Dag.{Jobs, update}
use open_git.Workflow.Dag.Cycle.{
  Marks, Search, out_of_fuel, found, clear, and_then, scan_needs, dfs, search_from, detect_cycle,
}

-- Each job of a path is a job that the one before it needs.
abbrev pub IsPath : Jobs → List Bytes → Type 0
IsPath jobs [] = Unit
IsPath jobs (x ∷ []) = Unit
IsPath jobs (x ∷ y ∷ path) =
    (is_member y (jobs.needs x) ≡ true) × (is_member y jobs.names ≡ true) × IsPath jobs (y ∷ path)

-- A path whose last job stands on it before.
abbrev pub IsCycle : Jobs → List Bytes → Type 0
IsCycle jobs path =
    (before : List Bytes) × (last : Bytes) × (path ≡ before ++ last ∷ [])
    × (is_member last before ≡ true)
    × IsPath jobs path

IsPath-snoc :
    (jobs : Jobs) (s : List Bytes) (a b : Bytes)
    → IsPath jobs (s ++ a ∷ [])
    → is_member b (jobs.needs a) ≡ true
    → is_member b jobs.names ≡ true
    → IsPath jobs ((s ++ a ∷ []) ++ b ∷ [])
IsPath-snoc jobs [] a b h e m = (e, m, tt)
IsPath-snoc jobs (x ∷ []) a b h e m = (h.0, h.1, IsPath-snoc jobs [] a b tt e m)
IsPath-snoc jobs (x ∷ y ∷ s) a b h e m = (h.0, h.1, IsPath-snoc jobs (y ∷ s) a b h.2 e m)

-- The jobs that are not seen yet.
unfoldable pub unseen : Marks → List Bytes → ℕ
unseen marks [] = 0
unseen marks (x ∷ xs) = (if marks x == 0 then 1 else 0) + unseen marks xs

unseen-le :
    (m n : Marks) (xs : List Bytes) → ((x : Bytes) → n x ≡ 0 → m x ≡ 0) → unseen n xs ≤ unseen m xs
unfolding unseen
unseen-le m n [] h = omega arith
unseen-le m n (x ∷ xs) h = ground (arith, h x, unseen-le m n xs h)

-- What a search leaves of the marks that it starts from.
abbrev pub Leaves : Jobs → Marks → Search → Type 0
Leaves jobs marks out_of_fuel = ⊥
Leaves jobs marks (found path) = IsCycle jobs path
Leaves jobs marks (clear left) =
    ((x : Bytes) → left x ≡ 1 → marks x ≡ 1) × ((x : Bytes) → left x ≡ 0 → marks x ≡ 0)

Leaves-then :
    (jobs : Jobs) (marks : Marks) (s : Search) (f : Marks → Search)
    → Leaves jobs marks s
    → ((left : Marks) → Leaves jobs marks (clear left) → Leaves jobs left (f left))
    → Leaves jobs marks (and_then s f)
Leaves-then jobs marks out_of_fuel f h k = h
Leaves-then jobs marks (found path) f h k = h
Leaves-then jobs marks (clear left) f h k = later (f left) (k left h)
  where
    later : (s : Search) → Leaves jobs left s → Leaves jobs marks s
    later out_of_fuel l = l
    later (found path) l = l
    later (clear left') l = ((λ x e. h.0 x (l.0 x e)), λ x e. h.1 x (l.1 x e))

grows : (node : Bytes) (marks : Marks) (x : Bytes) → update marks node 1 x ≡ 0 → marks x ≡ 0
grows node marks x h = ground (arith, h)

unseen-positive :
    (node : Bytes) (marks : Marks) (xs : List Bytes)
    → is_member node xs ≡ true
    → marks node ≡ 0
    → 0 < unseen marks xs
unfolding unseen is_member
unseen-positive node marks [] m e = absurd cc
unseen-positive node marks (x ∷ xs) m e = elim (Bool-cases (bytes_eq node x)) [
  | inl same ↦
      let e' : marks x ≡ 0 = subst (λ y. marks y ≡ 0) ((bytes_eq_iff node x).0 same) e in
      ground (arith, e')
  | inr other ↦ omega (arith, unseen-positive node marks xs (rw other at m) e)
]

unseen-update :
    (node : Bytes) (marks : Marks) (xs : List Bytes)
    → is_member node xs ≡ true
    → marks node ≡ 0
    → unseen (update marks node 1) xs < unseen marks xs
unfolding unseen is_member
unseen-update node marks [] m e = absurd cc
unseen-update node marks (x ∷ xs) m e =
    let le = unseen-le marks (update marks node 1) xs (grows node marks) in
    elim (Bool-cases (bytes_eq x node)) [
      | inl same ↦
          let e' : marks x ≡ 0 = subst (λ y. marks y ≡ 0) (sym ((bytes_eq_iff x node).0 same)) e in
          rw same (ground (arith, e', le))
      | inr other ↦ rw other (
          omega
            (arith, unseen-update node marks xs (ground (arith, m, other, bytes_eq_comm x node)) e))
    ]

-- The jobs that are marked as on the stack are there.
abbrev pub OnStack : Marks → List Bytes → Type 0
OnStack marks stack = (x : Bytes) → marks x ≡ 1 → is_member x stack ≡ true

OnStack-push :
    (marks : Marks) (stack : List Bytes) (node : Bytes)
    → OnStack marks stack
    → OnStack (update marks node 1) (stack ++ node ∷ [])
unfolding is_member
OnStack-push marks stack node h x e =
    is_member-append x stack (node ∷ []) ∙ elim (Bool-cases (bytes_eq x node)) [
      | inl same ↦ rw same (ground arith)
      | inr other ↦ rw (h x (rw other at e)) refl
    ]

module _ (jobs : Jobs) (fuel : ℕ) (stack : List Bytes) (node : Bytes)
    (path : IsPath jobs (stack ++ node ∷ [])) where
  scan-Leaves :
      (go : Bytes → Marks → Search)
      → ((need : Bytes) (marks : Marks)
          → is_member need jobs.names ≡ true
          → marks need ≡ 0
          → unseen marks jobs.names ≤ fuel
          → OnStack marks (stack ++ node ∷ [])
          → IsPath jobs ((stack ++ node ∷ []) ++ need ∷ [])
          → Leaves jobs marks (go need marks))
      → (needs : List Bytes) → All (λ n. is_member n (jobs.needs node) ≡ true) needs
      → (marks : Marks) → unseen marks jobs.names ≤ fuel
      → OnStack marks (stack ++ node ∷ [])
      → Leaves jobs marks (scan_needs jobs go (stack ++ node ∷ []) needs marks)
  unfolding scan_needs
  scan-Leaves go goes [] all marks few on = ((λ x e. e), λ x e. e)
  scan-Leaves go goes (need ∷ rest) all marks few on =
      elim (Bool-cases (is_member need jobs.names)) [
        | inr out ↦ rw (out, scan_needs) (scan-Leaves go goes rest all.1 marks few on)
        | inl job ↦ elim (Bool-cases (marks need == 1)) [
          | inl one ↦
              rw (job, one, scan_needs, Leaves)
                (
                  stack ++ node ∷ [],
                  need,
                  refl,
                  on need ((==_iff (marks need) 1).0 one),
                  IsPath-snoc jobs stack node need path all.0 job,
                )
          | inr other ↦ elim (Bool-cases (marks need == 0)) [
            | inl new ↦
                rw (job, other, new, scan_needs)
                  (Leaves-then jobs marks (go need marks)
                    (scan_needs jobs go (stack ++ node ∷ []) rest)
                    (goes need marks job ((==_iff (marks need) 0).0 new) few on
                      (IsPath-snoc jobs stack node need path all.0 job))
                    λ left l.
                      scan-Leaves go goes rest all.1 left
                        (omega (arith, few, unseen-le marks left jobs.names l.1))
                        (λ x e. on x (l.0 x e)))
            | inr done ↦
                rw (job, other, done, scan_needs) (scan-Leaves go goes rest all.1 marks few on)
          ]
        ]
      ]

close-Leaves :
    (jobs : Jobs) (node : Bytes) (marks : Marks) (s : Search)
    → marks node ≡ 0
    → Leaves jobs (update marks node 1) s
    → Leaves jobs marks (and_then s λ left. clear (update left node 2))
close-Leaves jobs node marks out_of_fuel e h = h
close-Leaves jobs node marks (found path) e h = h
close-Leaves jobs node marks (clear left) e h = (
  (λ x k. elim (Bool-cases (bytes_eq x node)) [
    | inl same ↦ absurd (let no' = rw same at k in omega (arith, no'))
    | inr other ↦ rw other at (h.0 x (rw other at k))
  ]),
  λ x k. elim (Bool-cases (bytes_eq x node)) [
    | inl same ↦ absurd (let no' = rw same at k in omega (arith, no'))
    | inr other ↦ rw other at (h.1 x (rw other at k))
  ],
)

pub dfs-Leaves :
    (jobs : Jobs) (fuel : ℕ) (stack : List Bytes) (node : Bytes) (marks : Marks)
    → is_member node jobs.names ≡ true
    → marks node ≡ 0
    → unseen marks jobs.names ≤ fuel
    → OnStack marks stack
    → IsPath jobs (stack ++ node ∷ [])
    → Leaves jobs marks (dfs fuel jobs stack node marks)
unfolding dfs
dfs-Leaves jobs zero stack node marks m e few on path =
    absurd (omega (arith, unseen-positive node marks jobs.names m e))
dfs-Leaves jobs (suc fuel) stack node marks m e few on path = close-Leaves jobs node marks _ e (
    scan-Leaves jobs fuel stack node path (dfs fuel jobs (stack ++ node ∷ []))
      (λ need marks' job new few' on' path'.
        dfs-Leaves jobs fuel (stack ++ node ∷ []) need marks' job new few' on' path')
      (jobs.needs node) (members_self (jobs.needs node)) (update marks node 1)
      (omega (arith, few, unseen-update node marks jobs.names m e))
      (OnStack-push marks stack node on))

pub unseen-length : (marks : Marks) (xs : List Bytes) → unseen marks xs ≤ length xs
unfolding unseen
unseen-length marks [] = omega arith
unseen-length marks (x ∷ xs) = ground (arith, unseen-length marks xs)

search-Leaves :
    (jobs : Jobs) (names : List Bytes) (marks : Marks)
    → All (λ x. is_member x jobs.names ≡ true) names
    → OnStack marks []
    → Leaves jobs marks (search_from jobs names marks)
unfolding search_from
search-Leaves jobs [] marks members on = ((λ x e. e), λ x e. e)
search-Leaves jobs (job ∷ rest) marks members on = elim (Bool-cases (marks job == 0)) [
  | inr seen ↦ rw (seen, search_from) (search-Leaves jobs rest marks members.1 on)
  | inl new ↦
      rw (new, search_from)
        (Leaves-then jobs marks (dfs (length jobs.names) jobs [] job marks) (search_from jobs rest)
          (dfs-Leaves jobs (length jobs.names) [] job marks members.0 ((==_iff (marks job) 0).0 new)
            (unseen-length marks jobs.names) on tt)
          λ left l. search-Leaves jobs rest left members.1 λ x e. on x (l.0 x e))
]

-- The search ends.
pub detect_cycle-Ends : (jobs : Jobs) → Leaves jobs (λ _. 0) (detect_cycle jobs)
unfolding detect_cycle
detect_cycle-Ends jobs =
    search-Leaves jobs jobs.names (λ _. 0) (members_self jobs.names)
      λ x e. absurd (omega (arith, e))
