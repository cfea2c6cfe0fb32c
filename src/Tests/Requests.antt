-- ===== src/Tests/Requests.antt =====
-- The limits on requests and the store of codes at concrete inputs.
use Prim.Native.Nat.{min}
use open_git.Base.{◌≡◌, refl, List, [], ◌∷◌, none, some, codes, bytes_eq, arith, if◌then◌else◌}
use open_git.Limits.RateLimit.{
  TokenBucket, Buckets, Hashing, Limits, Event, request, sweep, run, store_at,
}
use open_git.Limits.RateLimit.Window
use open_git.Limits.RateLimit.Window.{run-passed, IsConsistent, IsStore, asked}
use open_git.Limits.CodeStore.{Call, set_call, get_del_call, set, get_del, run_calls}
use open_git.Limits.CodeStore.Once.{get_del-set, get_del-once}
use open_git.Limits.AuthRateLimit.{
  AuthBuckets, Attempt, AuthLimits, with_auth_defaults, run_attempts,
}
use open_git.Limits.AuthRateLimit.Attempts.{admitted, tried, run_attempts-admitted}

abbrev hashing : Hashing
hashing = record { digest = λ s. s }

abbrev limits : Limits
limits = record { authenticated = 2; unauthenticated = 1 }

abbrev ask : Event
ask = request (record {
  authorization = codes "token x";
  real_ip = codes "h";
  created_at = 1;
  checked_at = 1;
  renewed_at = 1;
})

abbrev bucket : TokenBucket
bucket = record { limit = 2; remaining = 1; reset_at = 10 }

abbrev one_bucket : Buckets
one_bucket = store_at (codes "token:x") bucket (λ _. none)

run-passed_example :
    Window.passed hashing limits
      (codes "token:x")
      (run hashing limits (ask ∷ sweep 5 ∷ ask ∷ []) one_bucket).1
    ≡ min 1 (asked hashing limits (codes "token:x") (ask ∷ sweep 5 ∷ ask ∷ []))
unfolding bytes_eq
run-passed_example =
    run-passed hashing limits (codes "token:x") (ask ∷ sweep 5 ∷ ask ∷ []) one_bucket bucket refl
      (omega arith, (omega arith, (omega arith, tt)))

abbrev others : List Call
others = set_call 2 (codes "l") (codes "w") 5 ∷ get_del_call 3 (codes "l") ∷ []

get_del-set_example :
    (get_del 4 (codes "k") (run_calls others (set 1 (codes "k") (codes "v") 9 (λ _. none)))).0
    ≡ codes "v"
unfolding bytes_eq
get_del-set_example =
    get_del-set (λ _. none) (codes "k") (codes "v") 1 9 4 others
      ((refl, omega arith), ((refl, omega arith), tt))

get_del-once_example :
    (get_del 4
      (codes "k")
      (run_calls others (get_del 1 (codes "k") (set 0 (codes "k") (codes "v") 9 (λ _. none))).1)).0
    ≡ []
unfolding bytes_eq
get_del-once_example =
    get_del-once (set 0 (codes "k") (codes "v") 9 (λ _. none)) (codes "k") 1 4 others
      (refl, (tt, tt))

abbrev try : Attempt
try = record { real_ip = codes "h"; created_at = 1; now = 1; until_at = 1 }

abbrev few : AuthLimits
few = record { max_attempts = 2; window = 10 }

abbrev one_left : AuthBuckets
one_left ip = if bytes_eq ip (codes "h") then some (record { count = 1; reset_at = 11 }) else none

run_attempts-admitted_example :
    admitted (codes "h") (run_attempts few (try ∷ try ∷ []) one_left).1
    ≡ min 1 (tried (codes "h") (try ∷ try ∷ []))
unfolding bytes_eq with_auth_defaults
run_attempts-admitted_example =
    run_attempts-admitted few (codes "h") (try ∷ try ∷ []) one_left
      (record { count = 1; reset_at = 11 }) refl (omega arith, (omega arith, tt))
