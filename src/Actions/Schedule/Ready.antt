-- ===== src/Actions/Schedule/Ready.antt =====
-- Which jobs `findReadyJobs` picks, against the jobs that succeeded.
use open_git.Base.{
  ◌≡◌, ◌⊎◌, ◌↔◌, inl, inr, refl, true, not, List, [], ◌∷◌, Bytes, str_eq, str_eq_iff, bytes_eq,
  bytes_eq_iff, is_member, All, All-map, if◌then◌else◌, arith, Bool-cases, &&-split, sym, subst,
}
use open_git.Actions.Schedule.{
  Job, is_need_satisfied, build_completed_job_set, all_needs_in, all_needs_completed,
  find_ready_jobs,
}

-- Some element of a list.
abbrev pub Any : (Job → Type 0) → List Job → Type 0
Any P [] = ⊥
Any P (x ∷ xs) = P x ⊎ Any P xs

-- Some job of that name has completed with success.
abbrev pub HasSucceeded : List Job → Bytes → Type 0
HasSucceeded jobs need =
    Any (λ j. (j.name ≡ need) × (j.status ≡ "completed") × (j.conclusion ≡ "success")) jobs

abbrev pub IsReady : List Job → Job → Type 0
IsReady jobs job = (job.status ≡ "queued") × All (HasSucceeded jobs) job.needs

satisfied_iff :
    (j : Job) → (is_need_satisfied j ≡ true) → (j.status ≡ "completed") × (j.conclusion ≡ "success")
satisfied_iff j h =
    let (s, c) = &&-split (str_eq j.status "completed") (str_eq j.conclusion "success") h in
    ((str_eq_iff j.status "completed").0 s, (str_eq_iff j.conclusion "success").0 c)

completed-HasSucceeded :
    (jobs : List Job) (need : Bytes)
    → is_member need (build_completed_job_set jobs) ≡ true
    → HasSucceeded jobs need
unfolding build_completed_job_set is_member
completed-HasSucceeded [] need h = cc
completed-HasSucceeded (j ∷ jobs) need h = elim (Bool-cases (is_need_satisfied j)) [
  | inl e ↦ elim (Bool-cases (bytes_eq need j.name)) [
    | inl same ↦
        let (status, conclusion) = satisfied_iff j e in
        inl (sym ((bytes_eq_iff need j.name).0 same), status, conclusion)
    | inr other ↦ inr (completed-HasSucceeded jobs need (rw (e, other) at h))
  ]
  | inr e ↦ inr (completed-HasSucceeded jobs need (rw e at h))
]

HasSucceeded-completed :
    (jobs : List Job) (need : Bytes)
    → HasSucceeded jobs need
    → is_member need (build_completed_job_set jobs) ≡ true
unfolding build_completed_job_set is_member
HasSucceeded-completed [] need h = absurd h
HasSucceeded-completed (j ∷ jobs) need (inl h) =
    let (name, status, conclusion) = h in
    rw
      (
        (str_eq_iff j.status "completed").1 status,
        (str_eq_iff j.conclusion "success").1 conclusion,
        is_member,
        (bytes_eq_iff need j.name).1 (sym name),
      )
      refl
HasSucceeded-completed (j ∷ jobs) need (inr h) =
    let ih = HasSucceeded-completed jobs need h in
    elim (Bool-cases (is_need_satisfied j)) [
      | inl e ↦ rw (e, is_member) (ground (arith, ih))
      | inr e ↦ rw (e, is_member) ih
    ]

needs-All :
    (needs completed : List Bytes)
    → all_needs_in needs completed ≡ true
    → All (λ n. is_member n completed ≡ true) needs
unfolding all_needs_in
needs-All [] completed h = tt
needs-All (n ∷ needs) completed h = elim (Bool-cases (is_member n completed)) [
  | inl e ↦ (e, needs-All needs completed (rw e at h))
  | inr e ↦ absurd (let no = rw e at h in cc)
]

All-needs :
    (needs completed : List Bytes)
    → All (λ n. is_member n completed ≡ true) needs
    → all_needs_in needs completed ≡ true
unfolding all_needs_in
All-needs [] completed h = refl
All-needs (n ∷ needs) completed h = rw h.0 (All-needs needs completed h.1)

sum_map : {A B C D : Type 0} → (A → C) → (B → D) → A ⊎ B → C ⊎ D
sum_map f g (inl a) = inl (f a)
sum_map f g (inr b) = inr (g b)

drop_left : {A B C : Type 0} → (A → ⊥) → (B → C) → A ⊎ B → C
drop_left f g (inl a) = absurd (f a)
drop_left f g (inr b) = g b

module _ (all : List Job) where
  -- Either the job is ready and is picked, or it is not and is passed over.
  pick :
      (job : Job) (rest : List Job)
      → let picked =
          if not (str_eq job.status "queued")
          then rest
          else if all_needs_completed job (build_completed_job_set all)
          then job ∷ rest
          else rest in
        (IsReady all job × (picked ≡ job ∷ rest)) ⊎ ((IsReady all job → ⊥) × (picked ≡ rest))
  pick job rest =
      let completed = build_completed_job_set all in
      elim (Bool-cases (str_eq job.status "queued")) [
        | inl e ↦
            let queued = (str_eq_iff job.status "queued").0 e in
            elim (Bool-cases (all_needs_in job.needs completed)) [
              | inl k ↦ inl (
                (
                  queued,
                  All-map _ _ job.needs (completed-HasSucceeded all)
                      (needs-All job.needs completed k),
                ),
                rw (e, k) refl,
              )
              | inr k ↦ inr (
                (λ ready.
                    let yes =
                      All-needs job.needs completed
                        (All-map _ _ job.needs (HasSucceeded-completed all) ready.1) in
                    cc),
                rw (e, k) refl,
              )
            ]
        | inr e ↦
            inr ((λ ready. let yes = (str_eq_iff job.status "queued").1 ready.0 in cc), rw e refl)
      ]

  found-Any :
      (P : Job → Type 0) (jobs : List Job)
      → Any P (find_ready_jobs jobs (build_completed_job_set all))
      → Any (λ j. P j × IsReady all j) jobs
  unfolding find_ready_jobs
  found-Any P [] h = h
  found-Any P (job ∷ jobs) h =
      elim (pick job (find_ready_jobs jobs (build_completed_job_set all))) [
        | inl p ↦ sum_map (λ x. (x, p.0)) (found-Any P jobs) (subst (Any P) p.1 h)
        | inr p ↦ inr (found-Any P jobs (subst (Any P) p.1 h))
      ]

  ready-Any :
      (P : Job → Type 0) (jobs : List Job)
      → Any (λ j. P j × IsReady all j) jobs
      → Any P (find_ready_jobs jobs (build_completed_job_set all))
  unfolding find_ready_jobs
  ready-Any P [] h = h
  ready-Any P (job ∷ jobs) h =
      elim (pick job (find_ready_jobs jobs (build_completed_job_set all))) [
        | inl p ↦ subst (Any P) (sym p.1) (sum_map (λ x. x.0) (ready-Any P jobs) h)
        | inr p ↦ subst (Any P) (sym p.1) (drop_left (λ x. p.0 x.1) (ready-Any P jobs) h)
      ]

-- Of the jobs that `findReadyJobs` picks, some has a property exactly if some ready job has it: a
-- job that is queued, and each of whose needs is the name of a job that completed with success.
pub find_ready_jobs-Any :
    (P : Job → Type 0) (jobs : List Job)
    → Any P (find_ready_jobs jobs (build_completed_job_set jobs))
      ↔ Any (λ j. P j × IsReady jobs j) jobs
find_ready_jobs-Any P jobs = (found-Any jobs P jobs, ready-Any jobs P jobs)
