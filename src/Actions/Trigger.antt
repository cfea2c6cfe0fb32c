-- ===== src/Actions/Trigger.antt =====
-- backend/internal/infrastructure/ci/trigger.go: the runs that a push creates and hands to the worker.
use open_git.Base.{
  ℕ, ◌≡◌, ◌↔◌, ◌⊎◌, inl, inr, refl, sym, ap, ◌∙◌, subst, Bool, true, false, ◌||◌, List, [], ◌∷◌,
  ◌++◌, Option, none, some, Bytes, codes, bytes_eq, has_suffix, if◌then◌else◌, IsAmong,
}
pub mod Pushed

-- `yaml.Node`, with the kinds that the code tells apart; an alias has the name of its anchor.
mutual
  pub data Node : Type 0 where
    document : Nodes → Node
    scalar : Bytes → Node
    sequence : Nodes → Node
    mapping : Nodes → Node
    alias : Bytes → Node

  pub data Nodes : Type 0 where
    no_nodes : Nodes
    node : Node → Nodes → Nodes

-- The field `Value`.
abbrev pub value_of : Node → Bytes
value_of (scalar v) = v
value_of (alias v) = v
value_of (document content) = []
value_of (sequence content) = []
value_of (mapping content) = []

unfoldable pub any_value : Nodes → Bytes → Bool
any_value no_nodes event = false
any_value (node item rest) event = bytes_eq (value_of item) event || any_value rest event

-- The keys that have a value behind them.
unfoldable pub any_key : Nodes → Bytes → Bool
any_key no_nodes event = false
any_key (node key no_nodes) event = false
any_key (node key (node val rest)) event = bytes_eq (value_of key) event || any_key rest event

unfoldable pub workflow_listens_to : Node → Bytes → Bool
workflow_listens_to (document no_nodes) event = false
workflow_listens_to (document (node first rest)) event = workflow_listens_to first event
workflow_listens_to (scalar v) event = bytes_eq v event
workflow_listens_to (sequence content) event = any_value content event
workflow_listens_to (mapping content) event = any_key content event
workflow_listens_to (alias v) event = false

-- An entry of the tree `.github/workflows`: whether it is a file, and its base name.
pub record TreeEntry : Type 0 where
  pub is_file : Bool
  pub name : Bytes

unfoldable pub workflow_files : List TreeEntry → List Bytes
workflow_files [] = []
workflow_files (entry ∷ entries) = elim entry.is_file [
  | false ↦ workflow_files entries
  | true ↦
      if has_suffix entry.name (codes ".yml") || has_suffix entry.name (codes ".yaml")
      then entry.name ∷ workflow_files entries
      else workflow_files entries
]

-- `none` for a tree that is not there.
abbrev pub list_workflow_files : Option (List TreeEntry) → List Bytes
list_workflow_files none = []
list_workflow_files (some entries) = workflow_files entries

-- The fields of `CIRunPayload` that differ between the runs of a repository.
pub record RunPayload : Type 0 where
  pub run_id : Bytes
  pub workflow_yaml : Bytes
  pub head_sha : Bytes
  pub head_branch : Bytes
  pub event : Bytes
  pub actor : Bytes
  pub workflow : Bytes

-- What git, the parser, the rows and the queue answer.
pub record Services : Type 0 where
  pub get_blob : Bytes → Option Bytes
  pub parse_workflow : Bytes → Option Node  -- the field `On`
  pub create_run : Bytes → Option Bytes  -- the id of the row of a run of a file
  pub dispatch : RunPayload → Bool

pub data TriggerError : Type 0 where
  read_failed : Bytes → TriggerError
  parse_failed : Bytes → TriggerError
  create_failed : Bytes → TriggerError
  dispatch_failed : Bytes → TriggerError

-- The rows that are created, as queued, and the payloads that are handed on.
pub data Effect : Type 0 where
  created : Bytes → Effect
  dispatched : RunPayload → Effect

pub record Push : Type 0 where
  pub branch : Bytes
  pub sha : Bytes
  pub actor : Bytes

module _ (services : Services) (push : Push) where
  abbrev pub payload_of : Bytes → Bytes → Bytes → Bytes → RunPayload
  payload_of id file event data' = record {
    run_id = id;
    workflow_yaml = data';
    head_sha = push.sha;
    head_branch = push.branch;
    event = event;
    actor = push.actor;
    workflow = file;
  }

  abbrev pub dispatch_run : Bytes → Bytes → Bytes → Bytes → List Effect × Option TriggerError
  dispatch_run id file event data' =
      if services.dispatch (payload_of id file event data')
      then (created file ∷ dispatched (payload_of id file event data') ∷ [], none)
      else (created file ∷ [], some (dispatch_failed file))

  abbrev pub create_answered :
      Option Bytes → Bytes → Bytes → Bytes → List Effect × Option TriggerError
  create_answered none file event data' = ([], some (create_failed file))
  create_answered (some id) file event data' = dispatch_run id file event data'

  abbrev pub create_and_dispatch : Bytes → Bytes → Bytes → List Effect × Option TriggerError
  create_and_dispatch file event data' = create_answered (services.create_run file) file event data'

  abbrev pub parse_answered : Option Node → Bytes → Bytes → List Effect × Option TriggerError
  parse_answered none file data' = ([], none)
  parse_answered (some on) file data' =
      if workflow_listens_to on (codes "push")
      then create_and_dispatch file (codes "push") data'
      else ([], none)

  abbrev pub blob_answered : Option Bytes → Bytes → List Effect × Option TriggerError
  blob_answered none file = ([], some (read_failed file))
  blob_answered (some data') file = parse_answered (services.parse_workflow data') file data'

  -- What the loop of `OnPush` does for one file.
  unfoldable pub push_file : Bytes → List Effect × Option TriggerError
  push_file file = blob_answered (services.get_blob file) file

  abbrev pub first_of : Option TriggerError → Option TriggerError → Option TriggerError
  first_of (some err) later = some err
  first_of none later = later

  unfoldable pub push_files : List Bytes → List Effect × Option TriggerError
  push_files [] = ([], none)
  push_files (file ∷ files) =
      let (effects, err) = push_file file in
      let (others, later) = push_files files in (effects ++ others, first_of err later)

  -- `OnPush`
  abbrev pub on_push : Option (List TreeEntry) → List Effect × Option TriggerError
  on_push tree = push_files (list_workflow_files tree)

  abbrev pub dispatch_parsed : Option Node → Bytes → Bytes → List Effect × Option TriggerError
  dispatch_parsed none file data' = ([], some (parse_failed file))
  dispatch_parsed (some on) file data' = create_and_dispatch file (codes "workflow_dispatch") data'

  abbrev pub dispatch_read : Option Bytes → Bytes → List Effect × Option TriggerError
  dispatch_read none file = ([], some (read_failed file))
  dispatch_read (some data') file = dispatch_parsed (services.parse_workflow data') file data'

  -- `DispatchWorkflow`
  abbrev pub dispatch_workflow : Bytes → List Effect × Option TriggerError
  dispatch_workflow file = dispatch_read (services.get_blob file) file

  -- `Redispatch`, of a run of a file and an event whose row is there.
  abbrev pub redispatch_read :
      Option Bytes → Bytes → Bytes → Bytes → List Effect × Option TriggerError
  redispatch_read none id file event = ([], some (read_failed file))
  redispatch_read (some data') id file event =
      if services.dispatch (payload_of id file event data')
      then (dispatched (payload_of id file event data') ∷ [], none)
      else ([], some (dispatch_failed file))

  abbrev pub redispatch : Bytes → Bytes → Bytes → List Effect × Option TriggerError
  redispatch id file event = redispatch_read (services.get_blob file) id file event
