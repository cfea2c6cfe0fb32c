-- ===== src/Worker/Run/Order.antt =====
-- The order of the goroutines of `HandleCIRun`, for a workflow that `ParseWorkflowFull` found no
-- error in.
use open_git.Base.{
  ◌+◌, ◌≡◌, ◌<◌, ◌≤◌, refl, sym, ◌∙◌, subst, true, List, [], ◌∷◌, ◌++◌, some, Bytes, bytes_eq,
  bytes_eq_iff, is_member, is_member-count, not_member-count, count, count-append, length,
  length-le_of_count, Bool-cases, inl, inr, arith,
}
use open_git.Workflow.Dag.{Jobs, build_dag}
use open_git.Workflow.Dag.Build.{IsMap}
use open_git.Workflow.Dag.Order.{IsOrdered, build_dag-IsOrdered}
use open_git.Workflow.Dag.Complete.{build_dag-IsComplete}
use open_git.Worker.Run.{Plan, run_order}

-- The graph of a run is that of its jobs, and is without errors.
pub record IsPlanned (plan : Plan) : Type 0 where
  pub is_map : IsMap plan.jobs
  pub built : build_dag plan.jobs ≡ some plan.dag
  pub clean : plan.dag.diags ≡ []

-- What an order has: each job stands in it once, after its needs.
pub record IsSound (plan : Plan) : Type 0 where
  pub ordered : IsOrdered plan.jobs [] (run_order plan)
  pub once : (x : Bytes) → count x (run_order plan) ≤ 1
  pub complete :
      (x : Bytes) → is_member x plan.jobs.names ≡ true → is_member x (run_order plan) ≡ true

-- A job of an order is not among those before it.
ordered-count :
    (jobs : Jobs) (before xs : List Bytes)
    → IsOrdered jobs before xs
    → (x : Bytes) → (0 < count x before → count x xs ≡ 0) × (count x xs ≤ 1)
unfolding count
ordered-count jobs before [] h x = ((λ k. refl), omega arith)
ordered-count jobs before (y ∷ xs) h x =
    let rest = ordered-count jobs (before ++ y ∷ []) xs h.1 x in
    let longer = count-append x before (y ∷ []) in
    let absent = not_member-count y before h.0.1 in
    elim (Bool-cases (bytes_eq x y)) [
      | inl e ↦
          let same : count x before ≡ 0 =
            subst (λ z. count z before ≡ 0) (sym ((bytes_eq_iff x y).0 e)) absent in
          let sum : count x (before ++ y ∷ []) ≡ count x before + 1 = longer ∙ rw e (omega arith) in
          let none_left = rest.0 (omega (arith, sum)) in
          ((λ k. absurd (omega (arith, k, same))), rw e (omega (arith, none_left)))
      | inr e ↦
          let sum : count x (before ++ y ∷ []) ≡ count x before = longer ∙ rw e (omega arith) in
          (
            (λ k. rw e (omega (arith, rest.0 (omega (arith, sum, k))))),
            rw e (omega (arith, rest.1)),
          )
    ]

module _ (plan : Plan) (h : IsPlanned plan) where
  all_jobs : (x : Bytes) → is_member x plan.jobs.names ≡ true → is_member x plan.dag.order ≡ true
  all_jobs = build_dag-IsComplete plan.jobs h.is_map plan.dag h.built h.clean

  whole : run_order plan ≡ plan.dag.order
  whole =
      let le : length plan.jobs.names ≤ length plan.dag.order =
        length-le_of_count plan.jobs.names plan.dag.order λ z.
          elim (Bool-cases (is_member z plan.jobs.names)) [
            | inl e ↦ omega (arith, h.is_map z, is_member-count z plan.dag.order (all_jobs z e))
            | inr e ↦ omega (arith, not_member-count z plan.jobs.names e)
          ] in
      ground (arith, le)

  ordered : IsOrdered plan.jobs [] plan.dag.order
  ordered =
      let (info, e, o) = build_dag-IsOrdered plan.jobs h.is_map in
      let same : info ≡ plan.dag = let both = sym e ∙ h.built in cc in
      subst (λ i. IsOrdered plan.jobs [] i.order) same o

  pub IsPlanned-IsSound : IsSound plan
  IsPlanned-IsSound = record {
    ordered = rw whole ordered;
    once = λ x. rw whole (ordered-count plan.jobs [] plan.dag.order ordered x).1;
    complete = λ x m. rw whole (all_jobs x m);
  }
