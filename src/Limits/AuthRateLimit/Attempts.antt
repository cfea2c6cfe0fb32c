-- ===== src/Limits/AuthRateLimit/Attempts.antt =====
-- How many attempts of an address pass in a window.
use Prim.Native.Nat.{min}
use open_git.Base.{
  ℕ, ◌+◌, ◌-◌, ◌≡◌, ◌≤◌, refl, ◌∙◌, ap, subst, Bool, true, false, not, ◌&&◌, List, [], ◌∷◌, Bytes,
  bytes_eq, bytes_eq_iff, bytes_eq_refl, is_some, ltb, Option, none, some, if◌then◌else◌, arith,
  All, Bool-cases, inl, inr,
}
use open_git.Limits.AuthRateLimit.{
  AuthBucket, AuthBuckets, Attempt, AuthLimits, with_auth_defaults, load_or_store, restart, attempt,
  auth_rate_limit_middleware, run_attempts,
}

-- The attempts of an address.
unfoldable pub tried : Bytes → List Attempt → ℕ
tried ip [] = 0
tried ip (c ∷ attempts) = (if bytes_eq ip c.real_ip then 1 else 0) + tried ip attempts

-- Those of them that reach the next handler.
unfoldable pub admitted : Bytes → List (Attempt × Option ℕ) → ℕ
admitted ip [] = 0
admitted ip (answered ∷ rest) =
    (if bytes_eq ip answered.0.real_ip && not (is_some answered.1) then 1 else 0) + admitted ip rest

module _ (limits : AuthLimits) where
  abbrev counted : AuthBucket → AuthBucket
  counted bucket = record { count = bucket.count + 1; reset_at = bucket.reset_at }

  own-attempt :
      (c : Attempt) (buckets : AuthBuckets) (bucket : AuthBucket)
      → buckets c.real_ip ≡ some bucket
      → c.now ≤ bucket.reset_at
      → ((auth_rate_limit_middleware limits c buckets).0 c.real_ip ≡ some (counted bucket))
        × (is_some (auth_rate_limit_middleware limits c buckets).1
            ≡ ltb (with_auth_defaults limits).max_attempts (bucket.count + 1))
  unfolding auth_rate_limit_middleware load_or_store attempt restart
  own-attempt c buckets bucket e h =
      let early : ltb bucket.reset_at c.now ≡ false = ground (arith, h) in
      (
        rw (e, load_or_store, attempt, restart, early, bytes_eq_refl c.real_ip) refl,
        rw (e, load_or_store, attempt, restart, early) (refused _ _),
      )
    where
      refused : (b : Bool) (n : ℕ) → is_some (if b then some n else none) ≡ b
      refused true n = refl
      refused false n = refl

  -- Up to the end of its window exactly as many attempts of an address pass as the limit still
  -- allows it, or all of them if there are fewer, whatever other addresses do.
  pub run_attempts-admitted :
      (ip : Bytes) (attempts : List Attempt) (buckets : AuthBuckets) (bucket : AuthBucket)
      → buckets ip ≡ some bucket
      → All (λ c. c.now ≤ bucket.reset_at) attempts
      → admitted ip (run_attempts limits attempts buckets).1
        ≡ min ((with_auth_defaults limits).max_attempts - bucket.count) (tried ip attempts)
  unfolding run_attempts tried admitted
  run_attempts-admitted ip [] buckets bucket e h = omega arith
  run_attempts-admitted ip (c ∷ attempts) buckets bucket e h =
      elim (Bool-cases (bytes_eq ip c.real_ip)) [
        | inl same ↦
            let k : ip ≡ c.real_ip = (bytes_eq_iff ip c.real_ip).0 same in
            let (after, refused) =
              own-attempt c buckets bucket (subst (λ z. buckets z ≡ some bucket) k e) h.0 in
            let after' : (auth_rate_limit_middleware limits c buckets).0 ip
                ≡ some (counted bucket) =
              ap (auth_rate_limit_middleware limits c buckets).0 k ∙ after in
            let ih =
              run_attempts-admitted ip attempts (auth_rate_limit_middleware limits c buckets).0
                (counted bucket) after' h.1 in
            rw (same, admitted, refused) (ground (arith, ih))
        | inr other ↦
            let kept : (auth_rate_limit_middleware limits c buckets).0 ip ≡ some bucket =
              unfold auth_rate_limit_middleware in rw other e in
            let ih =
              run_attempts-admitted ip attempts (auth_rate_limit_middleware limits c buckets).0
                bucket kept h.1 in
            rw (other, admitted) (omega (arith, ih))
      ]
