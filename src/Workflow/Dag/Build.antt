-- ===== src/Workflow/Dag/Build.antt =====
-- What the first two loops of `buildDAG` leave: degrees and adjacency counted from the needs.
use open_git.Base.{
  ◌+◌, ◌*◌, ◌≡◌, true, ◌&&◌, List, [], ◌∷◌, Bytes, length, if◌then◌else◌, bytes_eq, bytes_eq_iff,
  is_member, count, count-append, arith, Bool-cases, inl, inr, sym, ap, ◌∙◌, ◌<◌, ◌≤◌,
}
use open_git.Workflow.Dag.{Jobs, Graph, add_need, add_needs, add_jobs, graph, no_graph}

module _ (names : List Bytes) (job need : Bytes) (g : Graph) where
  in_degree-add_need :
      (x : Bytes)
      → (add_need names job need g).in_degree x ≡ g.in_degree x + (if bytes_eq x job then 1 else 0)
  unfolding add_need
  in_degree-add_need x = ground (arith, bytes_eq_iff x job)

  adj-add_need :
      (z n : Bytes)
      → count z ((add_need names job need g).adj n)
        ≡ count z (g.adj n)
          + (if is_member n names && bytes_eq z job then (if bytes_eq n need then 1 else 0) else 0)
  unfolding add_need count
  adj-add_need z n = ground (arith, bytes_eq_iff n need, count-append z (g.adj need) (job ∷ []))

in_degree-add_needs :
    (names : List Bytes) (job : Bytes) (ns : List Bytes) (g : Graph) (x : Bytes)
    → (add_needs names job ns g).in_degree x
      ≡ g.in_degree x + (if bytes_eq x job then length ns else 0)
unfolding add_needs
in_degree-add_needs names job [] g x = ground arith
in_degree-add_needs names job (n ∷ ns) g x = ground (
  arith,
  in_degree-add_needs names job ns (add_need names job n g) x,
  in_degree-add_need names job n g x,
)

adj-add_needs :
    (names : List Bytes) (job : Bytes) (ns : List Bytes) (g : Graph) (z n : Bytes)
    → count z ((add_needs names job ns g).adj n)
      ≡ count z (g.adj n) + (if is_member n names && bytes_eq z job then count n ns else 0)
unfolding add_needs count
adj-add_needs names job [] g z n = ground arith
adj-add_needs names job (m ∷ ns) g z n =
    ground (
      arith,
      adj-add_needs names job ns (add_need names job m g) z n,
      adj-add_need names job m g z n,
    )

in_degree-add_jobs :
    (jobs : Jobs) (js : List Bytes) (g : Graph) (x : Bytes)
    → (add_jobs jobs js g).in_degree x ≡ g.in_degree x + count x js * length (jobs.needs x)
unfolding add_jobs count
in_degree-add_jobs jobs [] g x = omega arith
in_degree-add_jobs jobs (j ∷ js) g x =
    let step = in_degree-add_needs jobs.names j (jobs.needs j) g x in
    let rest = in_degree-add_jobs jobs js (add_needs jobs.names j (jobs.needs j) g) x in
    elim (Bool-cases (bytes_eq x j)) [
      | inl same ↦
          let e : length (jobs.needs j) ≡ length (jobs.needs x) =
            ap (λ k. length (jobs.needs k)) (sym ((bytes_eq_iff x j).0 same)) in
          rw same (omega (arith, rest, e, rw same at step))
      | inr other ↦ rw other (omega (arith, rest, rw other at step))
    ]

adj-add_jobs :
    (jobs : Jobs) (js : List Bytes) (g : Graph) (z n : Bytes)
    → is_member n jobs.names ≡ true
    → count z ((add_jobs jobs js g).adj n) ≡ count z (g.adj n) + count z js * count n (jobs.needs z)
unfolding add_jobs count
adj-add_jobs jobs [] g z n h = omega arith
adj-add_jobs jobs (j ∷ js) g z n h =
    let step = adj-add_needs jobs.names j (jobs.needs j) g z n in
    let rest = adj-add_jobs jobs js (add_needs jobs.names j (jobs.needs j) g) z n h in
    elim (Bool-cases (bytes_eq z j)) [
      | inl same ↦
          let e : count n (jobs.needs j) ≡ count n (jobs.needs z) =
            ap (λ k. count n (jobs.needs k)) (sym ((bytes_eq_iff z j).0 same)) in
          rw same (omega (arith, rest, e, rw (h, same) at step))
      | inr other ↦ rw other (omega (arith, rest, rw (h, other) at step))
    ]

-- No key twice, as in a Go map.
abbrev pub IsMap : Jobs → Type 0
IsMap jobs = (x : Bytes) → count x jobs.names ≤ 1

module _ (jobs : Jobs) (map : IsMap jobs) where
  -- The degree of a job is the number of its needs, known or not.
  pub in_degree-graph :
      (x : Bytes) → 0 < count x jobs.names → (graph jobs).in_degree x ≡ length (jobs.needs x)
  unfolding graph
  in_degree-graph x h =
      let one : count x jobs.names ≡ 1 = omega (arith, map x) in
      in_degree-add_jobs jobs jobs.names no_graph x ∙ rw one (omega arith)

  -- A job stands in the list of a known job as often as it needs it.
  pub adj-graph :
      (z n : Bytes)
      → is_member n jobs.names ≡ true
      → 0 < count z jobs.names
      → count z ((graph jobs).adj n) ≡ count n (jobs.needs z)
  unfolding graph
  adj-graph z n known h =
      let one : count z jobs.names ≡ 1 = omega (arith, map z) in
      adj-add_jobs jobs jobs.names no_graph z n known ∙ rw one (unfold count in omega arith)

  -- Only jobs stand in the lists.
  pub adj-names :
      (z n : Bytes)
      → is_member n jobs.names ≡ true
      → 0 < count z ((graph jobs).adj n)
      → 0 < count z jobs.names
  unfolding graph count
  adj-names z n known h = grind (arith, adj-add_jobs jobs jobs.names no_graph z n known)
