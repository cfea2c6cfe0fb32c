-- ===== src/Actions/Trigger/Pushed.antt =====
-- Which runs a push hands to the worker.
use open_git.Base.{
  ◌≡◌, ◌↔◌, ◌⊎◌, inl, inr, refl, sym, ap, subst, true, List, [], ◌∷◌, ◌++◌, Option, none, some,
  Bytes, codes, IsAmong, IsAmong-append, Bool-cases,
}
use open_git.Actions.Trigger.{
  Node, workflow_listens_to, TreeEntry, list_workflow_files, RunPayload, Services, Push, Effect,
  created, dispatched, payload_of, TriggerError, create_answered, parse_answered, blob_answered,
  push_file, push_files, on_push,
}

-- A file of the commit that can be read and parsed and listens to pushes, whose row is created and
-- whose payload the queue takes.
abbrev pub Hands : Services → Push → RunPayload → Bytes → Type 0
Hands services push payload file =
    (data' : Bytes) × (on : Node) × (id : Bytes) × (services.get_blob file ≡ some data')
    × (services.parse_workflow data' ≡ some on)
    × (workflow_listens_to on (codes "push") ≡ true)
    × (services.create_run file ≡ some id)
    × (payload ≡ payload_of services push id file (codes "push") data')
    × (services.dispatch payload ≡ true)

module _ (services : Services) (push : Push) (payload : RunPayload) (file : Bytes) where
  abbrev Made : List Effect × Option TriggerError → Type 0
  Made r = IsAmong (dispatched payload) r.0

  payload-inj : (p q : RunPayload) → dispatched p ≡ dispatched q → p ≡ q
  payload-inj p q h = cc

  module _ (data' : Bytes) (on : Node) (read : services.get_blob file ≡ some data')
      (parsed : services.parse_workflow data' ≡ some on)
      (listens : workflow_listens_to on (codes "push") ≡ true) where
    created-Hands :
        (o : Option Bytes)
        → services.create_run file ≡ o
        → Made (create_answered services push o file (codes "push") data')
        → Hands services push payload file
    created-Hands none e h = absurd h
    created-Hands (some id) e h =
        let sent = payload_of services push id file (codes "push") data' in
        elim (Bool-cases (services.dispatch sent)) [
          | inr refused ↦ absurd (lost (rw refused at h))
          | inl taken ↦
              let same = here sent (rw taken at h) in
              (
                data',
                on,
                id,
                read,
                parsed,
                listens,
                e,
                same,
                subst (λ p. services.dispatch p ≡ true) (sym same) taken,
              )
        ]
      where
        lost : (dispatched payload ≡ created file) ⊎ ⊥ → ⊥
        lost (inl k) = cc
        lost (inr k) = k

        here :
            (sent : RunPayload)
            → (dispatched payload ≡ created file) ⊎ ((dispatched payload ≡ dispatched sent) ⊎ ⊥)
            → payload ≡ sent
        here sent (inl k) = absurd cc
        here sent (inr (inl k)) = payload-inj payload sent k
        here sent (inr (inr k)) = absurd k

  parsed-Hands :
      (data' : Bytes) (o : Option Node)
      → services.get_blob file ≡ some data'
      → services.parse_workflow data' ≡ o
      → Made (parse_answered services push o file data')
      → Hands services push payload file
  parsed-Hands data' none read e h = absurd h
  parsed-Hands data' (some on) read e h =
      elim (Bool-cases (workflow_listens_to on (codes "push"))) [
        | inl listens ↦
            created-Hands data' on read e listens (services.create_run file) refl (rw listens at h)
        | inr deaf ↦ absurd (rw deaf at h)
      ]

  read-Hands :
      (o : Option Bytes)
      → services.get_blob file ≡ o
      → Made (blob_answered services push o file)
      → Hands services push payload file
  read-Hands none e h = absurd h
  read-Hands (some data') e h = parsed-Hands data' (services.parse_workflow data') e refl h

  file-Hands : Made (push_file services push file) ↔ Hands services push payload file
  unfolding push_file
  file-Hands = (read-Hands (services.get_blob file) refl, made)
    where
      made :
          Hands services push payload file
          → Made (blob_answered services push (services.get_blob file) file)
      made (data', on, id, read, parsed, listens, e, same, taken) =
          let taken' = subst (λ p. services.dispatch p ≡ true) same taken in
          rw (read, parsed, listens, e, taken') (inr (inl (ap dispatched same)))

abbrev Handed : Services → Push → RunPayload → List Bytes → Type 0
Handed services push payload files =
    (file : Bytes) × IsAmong file files × Hands services push payload file

files-Handed :
    (services : Services) (push : Push) (payload : RunPayload) (files : List Bytes)
    → IsAmong (dispatched payload) (push_files services push files).0
      ↔ Handed services push payload files
unfolding push_files
files-Handed services push payload [] = ((λ h. absurd h), λ h. h.1)
files-Handed services push payload (file ∷ files) =
    both (files-Handed services push payload files) (
      IsAmong-append (dispatched payload) (push_file services push file).0
        (push_files services push files).0)
  where
    here :
        IsAmong (dispatched payload) (push_file services push file).0
        ↔ Hands services push payload file
    here = file-Hands services push payload file

    both :
        IsAmong (dispatched payload) (push_files services push files).0
          ↔ Handed services push payload files
        → IsAmong
            (dispatched payload)
            ((push_file services push file).0 ++ (push_files services push files).0)
          ↔ (IsAmong (dispatched payload) (push_file services push file).0
              ⊎ IsAmong (dispatched payload) (push_files services push files).0)
        → IsAmong
            (dispatched payload)
            ((push_file services push file).0 ++ (push_files services push files).0)
          ↔ Handed services push payload (file ∷ files)
    both rest split = ((λ h. to (split.0 h)), λ h. split.1 (from h))
      where
        to :
            IsAmong (dispatched payload) (push_file services push file).0
              ⊎ IsAmong (dispatched payload) (push_files services push files).0
            → Handed services push payload (file ∷ files)
        to (inl h) = (file, inl refl, here.0 h)
        to (inr h) = let (other, among, hands) = rest.0 h in (other, inr among, hands)

        from :
            Handed services push payload (file ∷ files)
            → IsAmong (dispatched payload) (push_file services push file).0
              ⊎ IsAmong (dispatched payload) (push_files services push files).0
        from (other, inl same, hands) =
            inl (here.1 (subst (Hands services push payload) same hands))
        from (other, inr among, hands) = inr (rest.1 (other, among, hands))

-- A push hands a payload to the worker exactly if one of its workflow files can be read and parsed
-- and listens to pushes, the row of its run is created, the queue takes the payload, and the payload
-- is that of the file at the pushed commit: what happens to the other files does not matter.
pub on_push-Hands :
    (services : Services) (push : Push) (tree : Option (List TreeEntry)) (payload : RunPayload)
    → IsAmong (dispatched payload) (on_push services push tree).0 ↔ (
        (file : Bytes) × IsAmong file (list_workflow_files tree) × Hands services push payload file)
on_push-Hands services push tree payload =
    files-Handed services push payload (list_workflow_files tree)
