-- ===== src/Limits/RateLimit.antt =====
-- backend/internal/middleware/rate_limit_middleware.go: the limit on the requests of a token or of
-- an address.
--
-- Times are nanoseconds. A limit that is negative in Go stands here as 0, which it is treated as.
use open_git.Base.{
  ℕ, zero, suc, ◌+◌, ◌-◌, ◌*◌, ◌/◌, ◌==◌, ltb, leb, Bool, true, false, List, [], ◌∷◌, ◌++◌, Bytes,
  codes, bytes_eq, has_prefix, drop, length, Option, none, some, if◌then◌else◌,
}
pub mod Window

pub record TokenBucket : Type 0 where
  pub limit : ℕ
  pub remaining : ℕ
  pub reset_at : ℕ

-- `map[string]*tokenBucket`
abbrev pub Buckets : Type 0
Buckets = Bytes → Option TokenBucket

abbrev pub store_at : Bytes → TokenBucket → Buckets → Buckets
store_at key bucket buckets k = if bytes_eq k key then some bucket else buckets k

abbrev pub second : ℕ
second = 1000000000

abbrev pub hour : ℕ
hour = 3600 * second

-- One round of `cleanupExpiredBuckets`.
abbrev pub keep_unexpired : ℕ → Option TokenBucket → Option TokenBucket
keep_unexpired now none = none
keep_unexpired now (some bucket) = if ltb (bucket.reset_at + hour) now then none else some bucket

abbrev pub cleanup_expired_buckets : ℕ → Buckets → Buckets
cleanup_expired_buckets now buckets k = keep_unexpired now (buckets k)

-- The bucket, and what the map then is.
unfoldable pub get_bucket : ℕ → Bytes → ℕ → Buckets → TokenBucket × Buckets
get_bucket now key limit buckets = elim (buckets key) [
  | some bucket ↦ (bucket, buckets)
  | none ↦
      let bucket : TokenBucket = record {
        limit = limit;
        remaining = limit;
        reset_at = now + hour;
      } in
      (bucket, store_at key bucket buckets)
]

-- The SHA-256 of a text in hexadecimal digits.
pub record Hashing : Type 0 where
  pub digest : Bytes → Bytes

-- A request: the header, the address, and the clock at the three places that read it.
pub record Request : Type 0 where
  pub authorization : Bytes
  pub real_ip : Bytes
  pub created_at : ℕ
  pub checked_at : ℕ
  pub renewed_at : ℕ

pub record Limits : Type 0 where
  pub authenticated : ℕ
  pub unauthenticated : ℕ

abbrev pub with_defaults : Limits → Limits
with_defaults limits = record {
  authenticated = if ltb limits.authenticated 1 then 5000 else limits.authenticated;
  unauthenticated = if ltb limits.unauthenticated 1 then 60 else limits.unauthenticated;
}

unfoldable pub rate_limit_key_and_limit : Hashing → Limits → Request → Bytes × ℕ
rate_limit_key_and_limit hashing limits c =
    let by_address : Bytes × ℕ = (codes "ip:" ++ c.real_ip, limits.unauthenticated) in
    let by_token : Bytes → Bytes × ℕ =
      λ raw. (codes "token:" ++ hashing.digest raw, limits.authenticated) in
    if bytes_eq c.authorization []
    then by_address
    else if has_prefix c.authorization (codes "token ")
    then by_token (drop (length (codes "token ")) c.authorization)
    else if has_prefix c.authorization (codes "Bearer ")
    then by_token (drop (length (codes "Bearer ")) c.authorization)
    else by_address

-- The headers, and whether the next handler is called; if not, the status is 403.
pub record Response : Type 0 where
  pub calls_next : Bool
  pub limit : ℕ
  pub remaining : ℕ
  pub used : ℕ
  pub reset : ℕ
  pub retry_after : Option ℕ

-- `bucket.remaining` is refilled once the time of the bucket has passed.
unfoldable pub renew : Request → TokenBucket → TokenBucket
renew c bucket =
    if ltb bucket.reset_at c.checked_at
    then record { limit = bucket.limit; remaining = bucket.limit; reset_at = c.renewed_at + hour }
    else bucket

-- What the handler does to the bucket, and what it answers.
unfoldable pub spend : TokenBucket → TokenBucket × Response
spend bucket =
    let reset = bucket.reset_at / second in
    if bucket.remaining == 0
    then (
      bucket,
      record {
        calls_next = false;
        limit = bucket.limit;
        remaining = 0;
        used = bucket.limit;
        reset = reset;
        retry_after = some reset;
      },
    )
    else (let remaining = bucket.remaining - 1 in
        (
          record { limit = bucket.limit; remaining = remaining; reset_at = bucket.reset_at },
          record {
            calls_next = true;
            limit = bucket.limit;
            remaining = remaining;
            used = bucket.limit - remaining;
            reset = reset;
            retry_after = none;
          },
        ))

-- The handler that `RateLimitMiddleware` returns. The bucket is shared with the map.
unfoldable pub rate_limit_middleware : Hashing → Limits → Request → Buckets → Buckets × Response
rate_limit_middleware hashing given c buckets =
    let (key, limit) = rate_limit_key_and_limit hashing (with_defaults given) c in
    let (bucket, present) = get_bucket c.created_at key limit buckets in
    let (spent, response) = spend (renew c bucket) in (store_at key spent present, response)

-- What happens to the buckets, in the order of the locks.
pub data Event : Type 0 where
  request : Request → Event
  sweep : ℕ → Event

unfoldable pub run : Hashing → Limits → List Event → Buckets → Buckets × List (Request × Response)
run hashing limits [] buckets = (buckets, [])
run hashing limits (request c ∷ events) buckets =
    let (buckets', response) = rate_limit_middleware hashing limits c buckets in
    let (last, responses) = run hashing limits events buckets' in (last, (c, response) ∷ responses)
run hashing limits (sweep now ∷ events) buckets =
    run hashing limits events (cleanup_expired_buckets now buckets)
