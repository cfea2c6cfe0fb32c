-- ===== src/Tests/Pushes.antt =====
-- Pushes at concrete inputs.
use open_git.Base.{
  ◌≡◌, ◌↔◌, refl, true, false, List, [], ◌∷◌, Option, none, some, Bytes, codes, bytes_eq, IsAmong,
  has_suffix, has_prefix, if◌then◌else◌,
}
use open_git.Actions.Trigger.{
  node, no_nodes, scalar, sequence, mapping, alias, workflow_listens_to, any_key, any_value,
  TreeEntry, workflow_files, list_workflow_files, RunPayload, Services, Push, created, dispatched,
  payload_of, on_push, push_file, push_files, read_failed,
}
use open_git.Actions.Trigger.Pushed.{Hands, on_push-Hands}

-- A file that cannot be read, one that listens to pushes, and a directory.
abbrev tree : Option (List TreeEntry)
tree = some (
    record { is_file = true; name = codes "a.yml" }
    ∷ record { is_file = true; name = codes "b.yaml" }
    ∷ record { is_file = false; name = codes "c.yml" }
    ∷ [])

abbrev services : Services
services = record {
  get_blob = λ file. if bytes_eq file (codes "b.yaml") then some (codes "on: [push]") else none;
  parse_workflow = λ _. some (sequence (node (scalar (codes "push")) no_nodes));
  create_run = λ _. some (codes "1");
  dispatch = λ _. true;
}

abbrev push : Push
push = record { branch = codes "main"; sha = codes "abc"; actor = codes "me" }

abbrev pushed : RunPayload
pushed = payload_of services push (codes "1") (codes "b.yaml") (codes "push") (codes "on: [push]")

pushes :
    on_push services push tree
    ≡ (created (codes "b.yaml") ∷ dispatched pushed ∷ [], some (read_failed (codes "a.yml")))
unfolding push_files push_file workflow_files has_suffix has_prefix bytes_eq workflow_listens_to
    any_value
pushes = refl

on_push-Hands_example :
    IsAmong (dispatched pushed) (on_push services push tree).0
    ↔ ((file : Bytes) × IsAmong file (list_workflow_files tree) × Hands services push pushed file)
on_push-Hands_example = on_push-Hands services push tree pushed

-- An alias is not followed.
aliased : workflow_listens_to (alias (codes "events")) (codes "push") ≡ false
unfolding workflow_listens_to
aliased = refl

listens :
    workflow_listens_to
      (mapping (node (scalar (codes "push")) (node (mapping no_nodes) no_nodes)))
      (codes "push")
    ≡ true
unfolding workflow_listens_to any_key bytes_eq
listens = refl
