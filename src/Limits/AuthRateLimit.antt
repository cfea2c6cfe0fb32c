-- ===== src/Limits/AuthRateLimit.antt =====
-- backend/internal/middleware/auth_rate_limit_middleware.go: how often an address may try to log in.
--
-- Times are nanoseconds. A limit or a window that is negative in Go stands here as 0, which it is
-- treated as.
use open_git.Base.{
  ℕ, suc, ◌+◌, ◌-◌, ◌*◌, ◌/◌, ◌==◌, ltb, List, [], ◌∷◌, Bytes, bytes_eq, Option, none, some,
  if◌then◌else◌,
}
pub mod Attempts

pub record AuthBucket : Type 0 where
  pub count : ℕ
  pub reset_at : ℕ

-- `sync.Map` from addresses.
abbrev pub AuthBuckets : Type 0
AuthBuckets = Bytes → Option AuthBucket

-- A request, with the clock at the three places that read it.
pub record Attempt : Type 0 where
  pub real_ip : Bytes
  pub created_at : ℕ
  pub now : ℕ
  pub until_at : ℕ

pub record AuthLimits : Type 0 where
  pub max_attempts : ℕ
  pub window : ℕ

abbrev pub nanoseconds : ℕ
nanoseconds = 1000000000

unfoldable pub with_auth_defaults : AuthLimits → AuthLimits
with_auth_defaults given = record {
  max_attempts = if ltb given.max_attempts 1 then 10 else given.max_attempts;
  window = if given.window == 0 then 15 * 60 * nanoseconds else given.window;
}

-- `LoadOrStore`: the bucket that is there, or a new one.
unfoldable pub load_or_store : AuthLimits → Attempt → Option AuthBucket → AuthBucket
load_or_store limits c none = record { count = 0; reset_at = c.created_at + limits.window }
load_or_store limits c (some bucket) = bucket

unfoldable pub restart : AuthLimits → Attempt → AuthBucket → AuthBucket
restart limits c bucket =
    if ltb bucket.reset_at c.now
    then record { count = 0; reset_at = c.now + limits.window }
    else bucket

-- The seconds that the answer asks to wait.
unfoldable pub wait_seconds : AuthBucket → Attempt → ℕ
wait_seconds bucket c =
    let seconds = (bucket.reset_at - c.until_at) / nanoseconds in
    if ltb seconds 1 then 1 else seconds

-- `none` calls the next handler, and `some` is the header of a refusal with status 429.
unfoldable pub attempt : AuthLimits → Attempt → AuthBucket → AuthBucket × Option ℕ
attempt limits c found =
    let started = restart limits c found in
    let counted : AuthBucket = record { count = started.count + 1; reset_at = started.reset_at } in
    (counted, if ltb limits.max_attempts counted.count then some (wait_seconds counted c) else none)

-- The handler that `AuthRateLimitMiddleware` returns.
unfoldable pub auth_rate_limit_middleware :
    AuthLimits → Attempt → AuthBuckets → AuthBuckets × Option ℕ
auth_rate_limit_middleware given c buckets =
    let limits = with_auth_defaults given in
    let (counted, refusal) = attempt limits c (load_or_store limits c (buckets c.real_ip)) in
    (λ ip. if bytes_eq ip c.real_ip then some counted else buckets ip, refusal)

unfoldable pub run_attempts :
    AuthLimits → List Attempt → AuthBuckets → AuthBuckets × List (Attempt × Option ℕ)
run_attempts limits [] buckets = (buckets, [])
run_attempts limits (c ∷ attempts) buckets =
    let (buckets', refusal) = auth_rate_limit_middleware limits c buckets in
    let (last, answers) = run_attempts limits attempts buckets' in (last, (c, refusal) ∷ answers)
