-- ===== src/Worker/Env.antt =====
-- The environments of the steps: `mergeStringMaps`, `parseEnvToMap` and `buildStepEnv` of
-- backend/internal/worker/ci_worker.go.
use open_git.Base.{
  ◌≡◌, Bool, true, false, List, [], ◌∷◌, ◌++◌, map, Option, none, some, Bytes, bytes_eq, ◌==◌,
  if◌then◌else◌,
}
use mathlib.Core.Option
use open_git.Workflow.Dag.{sort_strings}
pub mod Layers
pub mod Keys
pub mod Trip

-- `map[string]string`: the entries, with a key at most once, in the order of the iteration.
abbrev pub StringMap : Type 0
StringMap = List (Bytes × Bytes)

unfoldable pub get : Bytes → StringMap → Option Bytes
get key [] = none
get key (found ∷ m) = if bytes_eq key found.0 then some found.1 else get key m

unfoldable pub set : StringMap → Bytes → Bytes → StringMap
set [] key val = (key, val) ∷ []
set (found ∷ m) key val =
    let rest = set m key val in if bytes_eq key found.0 then (key, val) ∷ m else found ∷ rest

-- The loop `for k, v := range m { out[k] = v }`.
unfoldable pub set_all : StringMap → StringMap → StringMap
set_all out [] = out
set_all out (e ∷ m) = set_all (set out e.0 e.1) m

unfoldable pub merge_into : StringMap → List StringMap → StringMap
merge_into out [] = out
merge_into out (m ∷ maps) = merge_into (set_all out m) maps

abbrev pub merge_string_maps : List StringMap → StringMap
merge_string_maps maps = merge_into [] maps

-- A text cut at its first `=`, found by `strings.IndexByte`.
unfoldable pub cut_equals : Bytes → Option (Bytes × Bytes)
cut_equals [] = none
cut_equals (c ∷ s) =
    if c == 61 then some ([], s) else Option.map (λ p. (c ∷ p.0, p.1)) (cut_equals s)

abbrev pub set_pair : StringMap → Option (Bytes × Bytes) → StringMap
set_pair m none = m
set_pair m (some p) = set m p.0 p.1

unfoldable pub set_env : StringMap → List Bytes → StringMap
set_env m [] = m
set_env m (pair ∷ env) = set_env (set_pair m (cut_equals pair)) env

abbrev pub parse_env_to_map : List Bytes → StringMap
parse_env_to_map env = set_env [] env

abbrev pub join : Bytes × Bytes → Bytes
join e = e.0 ++ 61 ∷ e.1

abbrev pub build_step_env : List StringMap → List Bytes → List Bytes
build_step_env layers secret_env =
    sort_strings (map join (set_env (merge_into [] layers) secret_env))
