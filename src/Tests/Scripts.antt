-- ===== src/Tests/Scripts.antt =====
-- Steps and their environments at concrete inputs.
use open_git.Base.{
  Bool, Option, zero, suc, ◌≡◌, inl, refl, true, false, List, [], ◌∷◌, ◌++◌, map, none, some, Bytes,
  codes, bytes_eq, All, index_of, has_prefix, contains,
}
use open_git.Tests.Graphs.{b, t, build_and_test}
use open_git.Worker.Run.{instances, success}
use open_git.Tests.Language.{counting}
use open_git.Workflow.Dag.{sort_strings, insert_sorted, bytes_lt}
use open_git.Workflow.Interpolate.{
  interpolate_string, interpolate_loop, interpolate_round, next_span,
}
use open_git.Worker.Mask.{mask_secrets, replace_all, has_star}
use open_git.Worker.Env.{
  StringMap, get, set, set_all, merge_into, cut_equals, set_env, parse_env_to_map, build_step_env,
}
use open_git.Worker.Env.Layers.{last, last_layer, pairs}
use open_git.Worker.Env.Keys.{has_equals}
use open_git.Worker.Env.Trip.{parse_env_to_map-build_step_env}
use open_git.Worker.Steps.{
  IrStep, Machine, RunJobSpec, Progress, SinkCall, no_progress, goes_on, next_number, output,
  error_line, run_job_steps, run_steps, run_step_at, run_if, run_kind, run_script, sink_lines,
  interpolate_env,
}
use open_git.Worker.Steps.Log.{Leaves, IsClean}
use open_git.Worker.Secrets.{SecretRow, read_secrets, load_secrets-IsClean}
use open_git.Workflow.Matrix.{Any, Combo}
use open_git.Workflow.Interpolate.{returned}
use open_git.Worker.Whole.{RunIr, IsPlanOf, job_spec, job_condition, Passes, success-Passes}
use open_git.Worker.Steps.Numbers.{IsNumbered, TakesTurns, run_job_steps-IsNumbered}
use open_git.Worker.Steps.Failing.{run_job_steps-failed}
use open_git.Worker.Steps.Ending.{Halts, run_job_steps-Halts}
use open_git.Tests.Runs.{plan, build_done, build}

-- A layer that a secret overrides.
abbrev layers : List StringMap
layers = ((codes "A", codes "1") ∷ []) ∷ ((codes "B", codes "2") ∷ (codes "A", codes "3") ∷ []) ∷ []

abbrev secret_env : List Bytes
secret_env = codes "B=hunter2" ∷ []

parse_env_to_map-build_step_env_example :
    get (codes "A") (parse_env_to_map (build_step_env layers secret_env)) ≡ some (codes "3")
unfolding last_layer last pairs cut_equals bytes_eq has_equals
parse_env_to_map-build_step_env_example =
    parse_env_to_map-build_step_env (codes "A") layers secret_env
      ((refl, tt), ((refl, (refl, tt)), tt))

environment : build_step_env layers secret_env ≡ codes "A=3" ∷ codes "B=hunter2" ∷ []
unfolding merge_into set_all set set_env cut_equals bytes_eq sort_strings insert_sorted bytes_lt
environment = refl

-- A script that prints the secret, and one that fails.
abbrev machine : Machine
machine = record {
  go = counting;
  upper_runes = λ s. s;
  fault_text = λ cond ctx fault. [];
  iterate = λ i env. env;
  stream_runner = λ i env script. elim i [
    | zero ↦ (
      record { stream = codes "stdout"; line = codes "is hunter2"; counted = next_number } ∷ [],
      none,
    )
    | suc _ ↦ ([], some (codes "exit 1"))
  ];
  run_step = λ i env script. ([], none);
  checkout = λ ref. none;
  container_action = λ i image env. ([], none);
}

abbrev spec : RunJobSpec
spec = record {
  wf_env = [];
  job_env = [];
  contexts = λ _. none;
  secret_env = secret_env;
  secret_values = codes "hunter2" ∷ [];
  use_streaming = true;
  head_sha = [];
  head_branch = codes "main";
}

abbrev script : Bytes → IrStep
script text = record {
  cond = [];
  uses = [];
  image = [];
  run = text;
  name = [];
  env = [];
  inputs = [];
}

abbrev two_scripts : List IrStep
two_scripts = script (codes "echo") ∷ script (codes "false") ∷ []

abbrev after_two : Progress
after_two = record {
  buf = output 0 [] (codes "is ***") ∷ error_line 1 (codes "exit 1") ∷ [];
  lines =
      record { step_index = 0; line_number = 1; stream = codes "stdout"; text = codes "is ***" }
      ∷ [];
  line_count = 1;
  failed = true;
}

two_run : run_job_steps machine spec two_scripts ≡ goes_on after_two
unfolding run_job_steps run_steps run_step_at run_if run_kind run_script sink_lines interpolate_env
    merge_into set_all interpolate_string interpolate_loop interpolate_round next_span index_of
    has_prefix mask_secrets replace_all
two_run = refl

abbrev rows : List SecretRow
rows = record { name = codes "B"; encrypted = codes "hunter2" } ∷ []

load_secrets-IsClean_example :
    Leaves (IsClean (codes "hunter2")) (run_job_steps machine spec two_scripts)
unfolding has_star read_secrets index_of has_prefix contains
load_secrets-IsClean_example =
    load_secrets-IsClean some rows secret_env (codes "hunter2" ∷ [])
      (record { name = codes "B"; encrypted = codes "hunter2" }) 104 (codes "unter2") machine spec
      two_scripts refl refl (inl refl) refl refl
      ((refl, refl, inl refl), ((refl, refl, inl refl), tt))

-- The workflow of the plan: the tests are the two scripts, and the build is the first of them.
abbrev steps_of : Bool → List IrStep
steps_of true = two_scripts
steps_of false = script (codes "echo") ∷ []

-- Each job has a machine of its own.
abbrev machines : Bytes → Option Combo → Machine
machines name combo = record machine { upper_runes = λ s. name ++ s }

abbrev ir : RunIr
ir = record {
  jobs = build_and_test;
  job = λ name. record { cond = []; env = []; steps = steps_of (bytes_eq name t); expansion = [] };
  env = [];
  contexts = λ _. none;
  secret_env = secret_env;
  secret_values = codes "hunter2" ∷ [];
  use_streaming = true;
  head_sha = [];
  head_branch = codes "main";
}

abbrev shown : Any → Bytes
shown _ = []

steps_run :
    (name : Bytes) (combo : Option Combo) (testing : Bool)
    → (p : Progress) × (run_job_steps
          (machines name combo)
          (job_spec counting machines shown ir name combo)
          (steps_of testing)
        ≡ goes_on p)
      × (testing ≡ p.failed)
unfolding run_job_steps run_steps run_step_at run_if run_kind run_script sink_lines interpolate_env
    merge_into set_all interpolate_string interpolate_loop interpolate_round next_span index_of
    has_prefix mask_secrets replace_all
steps_run name combo true = (_, refl, refl)
steps_run name combo false = (_, refl, refl)

plan-IsPlanOf : IsPlanOf counting machines shown ir plan
plan-IsPlanOf = record {
  jobs = refl;
  expansion = λ _. refl;
  conditions = λ name. (true, none, refl, refl);
  outcomes = λ name combo. steps_run name combo (bytes_eq name t);
}

success-Passes_example :
    (job_condition counting machines shown ir b ≡ returned true none)
    × All (λ need. build_done.results need ≡ some success) (build_and_test.needs b)
    × All (Passes counting machines shown ir b) (instances [])
unfolding bytes_eq
success-Passes_example =
    success-Passes counting machines shown ir plan build_done b plan-IsPlanOf build refl refl

takes_turns : TakesTurns machine
takes_turns zero env text = (refl, tt)
takes_turns (suc i) env text = tt

run_job_steps-IsNumbered_example : Leaves IsNumbered (run_job_steps machine spec two_scripts)
run_job_steps-IsNumbered_example = run_job_steps-IsNumbered machine spec takes_turns two_scripts

run_job_steps-failed_example :
    Leaves
      (λ r. r ≡ after_two)
      (run_job_steps machine spec (two_scripts ++ script (codes "rm") ∷ []))
run_job_steps-failed_example =
    run_job_steps-failed machine spec two_scripts (script (codes "rm") ∷ []) after_two two_run refl
      (refl, tt)

run_job_steps-Halts_example : Halts (run_job_steps machine spec two_scripts)
run_job_steps-Halts_example = run_job_steps-Halts machine spec two_scripts

-- The second call reads the count before the first has stored it: two lines with one number.
abbrev racing : List SinkCall
racing =
    record { stream = codes "stdout"; line = codes "a"; counted = next_number }
    ∷ record { stream = codes "stderr"; line = codes "b"; counted = λ n. (1, 1) }
    ∷ []

one_number :
    map (λ l. l.line_number) (sink_lines machine spec no_progress (script []) 0 racing).lines
    ≡ 1 ∷ 1 ∷ []
unfolding sink_lines mask_secrets replace_all has_prefix
one_number = refl
