-- ===== src/Limits/RateLimit/Window.antt =====
-- How many requests of a key pass before its bucket is renewed, and what the headers say.
use Prim.Native.Nat.{min}
use open_git.Base.{
  ℕ, ◌+◌, ◌-◌, ◌≡◌, ◌≤◌, ◌<◌, refl, ◌∙◌, ap, subst, false, ◌&&◌, List, [], ◌∷◌, Bytes, bytes_eq,
  bytes_eq_iff, bytes_eq_refl, ltb, ◌==◌, Option, none, some, Option-cases, if◌then◌else◌, arith,
  All, Bool-cases, inl, inr,
}
use open_git.Limits.RateLimit.{
  TokenBucket, Buckets, Hashing, Limits, Request, Response, Event, request, sweep,
  rate_limit_key_and_limit, with_defaults, get_bucket, renew, spend, rate_limit_middleware, run,
  keep_unexpired, cleanup_expired_buckets, store_at, hour,
}

module _ (hashing : Hashing) (limits : Limits) where
  abbrev pub key_of : Request → Bytes
  key_of c = (rate_limit_key_and_limit hashing (with_defaults limits) c).0

  -- The requests of a key.
  unfoldable pub asked : Bytes → List Event → ℕ
  asked key [] = 0
  asked key (request c ∷ events) = (if bytes_eq key (key_of c) then 1 else 0) + asked key events
  asked key (sweep now ∷ events) = asked key events

  -- Those of them that reach the next handler.
  unfoldable pub passed : Bytes → List (Request × Response) → ℕ
  passed key [] = 0
  passed key (answered ∷ rest) =
      (if bytes_eq key (key_of answered.0) && answered.1.calls_next then 1 else 0) + passed key rest

  -- No later than a time.
  abbrev pub IsBy : ℕ → Event → Type 0
  IsBy t (request c) = c.checked_at ≤ t
  IsBy t (sweep now) = now ≤ t

  other-key :
      (key : Bytes) (c : Request) (buckets : Buckets)
      → bytes_eq key (key_of c) ≡ false
      → (rate_limit_middleware hashing limits c buckets).0 key ≡ buckets key
  unfolding rate_limit_middleware get_bucket
  other-key key c buckets other = elim (Option-cases (buckets (key_of c))) [
    | inl e ↦ rw (e, get_bucket, other) refl
    | inr (bucket, e) ↦ rw (e, get_bucket, other) refl
  ]

  same-key :
      (c : Request) (buckets : Buckets) (bucket : TokenBucket)
      → buckets (key_of c) ≡ some bucket
      → c.checked_at ≤ bucket.reset_at
      → ((rate_limit_middleware hashing limits c buckets).0 (key_of c) ≡ some (spend bucket).0)
        × ((rate_limit_middleware hashing limits c buckets).1 ≡ (spend bucket).1)
  unfolding rate_limit_middleware get_bucket renew
  same-key c buckets bucket e h =
      let early : ltb bucket.reset_at c.checked_at ≡ false = ground (arith, h) in
      (
        rw (e, get_bucket, renew, early, bytes_eq_refl (key_of c)) refl,
        rw (e, get_bucket, renew, early) refl,
      )

  -- Up to the time at which its bucket is renewed, exactly as many requests of a key pass as the
  -- bucket has left, or all of them if there are fewer, whatever other keys do.
  pub run-passed :
      (key : Bytes) (events : List Event) (buckets : Buckets) (bucket : TokenBucket)
      → buckets key ≡ some bucket
      → All (IsBy bucket.reset_at) events
      → passed key (run hashing limits events buckets).1 ≡ min bucket.remaining (asked key events)
  unfolding run asked passed spend
  run-passed key [] buckets bucket e h = omega arith
  run-passed key (request c ∷ events) buckets bucket e h =
      elim (Bool-cases (bytes_eq key (key_of c))) [
        | inl same ↦
            let k : key ≡ key_of c = (bytes_eq_iff key (key_of c)).0 same in
            let (after, response) =
              same-key c buckets bucket (subst (λ z. buckets z ≡ some bucket) k e) h.0 in
            let after' : (rate_limit_middleware hashing limits c buckets).0 key
                ≡ some (spend bucket).0 =
              ap (rate_limit_middleware hashing limits c buckets).0 k ∙ after in
            elim (Bool-cases (bucket.remaining == 0)) [
              | inl out ↦
                  let ih =
                    run-passed key events (rate_limit_middleware hashing limits c buckets).0 bucket
                      (after' ∙ rw (spend, out) refl) h.1 in
                  rw (same, passed, response, spend, out) (ground (arith, ih, out))
              | inr left ↦
                  let ih =
                    run-passed key events (rate_limit_middleware hashing limits c buckets).0
                      (record {
                        limit = bucket.limit;
                        remaining = bucket.remaining - 1;
                        reset_at = bucket.reset_at;
                      })
                      (after' ∙ rw (spend, left) refl) h.1 in
                  rw (same, passed, response, spend, left) (ground (arith, ih, left))
            ]
        | inr other ↦
            let ih =
              run-passed key events (rate_limit_middleware hashing limits c buckets).0 bucket
                (other-key key c buckets other ∙ e) h.1 in
            rw (other, passed) (omega (arith, ih))
      ]
  run-passed key (sweep now ∷ events) buckets bucket e h =
      run-passed key events _ bucket (rw e (ground (arith, h.0))) h.1

  -- A bucket in which there is something to spend, and no more than its limit.
  abbrev pub IsBucket : Option TokenBucket → Type 0
  IsBucket none = Unit
  IsBucket (some bucket) = (0 < bucket.limit) × (bucket.remaining ≤ bucket.limit)

  abbrev pub IsStore : Buckets → Type 0
  IsStore buckets = (key : Bytes) → IsBucket (buckets key)

  -- The numbers of an answer agree, and a refusal says when to come back.
  abbrev pub IsConsistent : Request × Response → Type 0
  IsConsistent answered =
      let r = answered.1 in
      (r.used + r.remaining ≡ r.limit)
      × (0 < r.limit)
      × (r.calls_next ≡ false → (r.remaining ≡ 0) × (r.retry_after ≡ some r.reset))

  spend-IsConsistent :
      (c : Request) (bucket : TokenBucket)
      → IsBucket (some bucket)
      → IsBucket (some (spend bucket).0) × IsConsistent (c, (spend bucket).1)
  unfolding spend
  spend-IsConsistent c bucket h = elim (Bool-cases (bucket.remaining == 0)) [
    | inl out ↦ rw (out, spend) (h, (omega arith, h.0, λ _. (refl, refl)))
    | inr left ↦
        let some-left : 0 < bucket.remaining = ground (arith, left) in
        rw (left, spend)
          ((h.0, omega (arith, h.1)), (omega (arith, h.1, some-left), h.0, λ no. absurd cc))
  ]

  renew-IsBucket :
      (c : Request) (bucket : TokenBucket)
      → IsBucket (some bucket)
      → IsBucket (some (renew c bucket))
  unfolding renew
  renew-IsBucket c bucket h = elim (Bool-cases (ltb bucket.reset_at c.checked_at)) [
    | inl e ↦ rw (e, renew) (h.0, omega arith)
    | inr e ↦ rw (e, renew) h
  ]

  limit-positive : (c : Request) → 0 < (rate_limit_key_and_limit hashing (with_defaults limits) c).1
  unfolding rate_limit_key_and_limit
  limit-positive c = ground arith

  store_at-IsStore :
      (key : Bytes) (bucket : TokenBucket) (buckets : Buckets)
      → IsBucket (some bucket)
      → IsStore buckets
      → IsStore (store_at key bucket buckets)
  store_at-IsStore key bucket buckets b h k = elim (Bool-cases (bytes_eq k key)) [
    | inl e ↦ rw e b
    | inr e ↦ rw e (h k)
  ]

  get_bucket-IsStore :
      (now : ℕ) (key : Bytes) (limit : ℕ) (buckets : Buckets)
      → 0 < limit
      → IsStore buckets
      → IsBucket (some (get_bucket now key limit buckets).0)
        × IsStore (get_bucket now key limit buckets).1
  unfolding get_bucket
  get_bucket-IsStore now key limit buckets positive h = elim (Option-cases (buckets key)) [
    | inl e ↦
        let full : IsBucket
            (some (record { limit = limit; remaining = limit; reset_at = now + hour })) =
          (positive, omega arith) in
        rw (e, get_bucket) (full, store_at-IsStore key _ buckets full h)
    | inr (bucket, e) ↦ rw (e, get_bucket) (subst IsBucket e (h key), h)
  ]

  step-IsStore :
      (c : Request) (buckets : Buckets)
      → IsStore buckets
      → IsStore (rate_limit_middleware hashing limits c buckets).0
        × IsConsistent (c, (rate_limit_middleware hashing limits c buckets).1)
  unfolding rate_limit_middleware get_bucket
  step-IsStore c buckets h =
      let (key, limit) = rate_limit_key_and_limit hashing (with_defaults limits) c in
      let found = get_bucket c.created_at key limit buckets in
      let (b, present) = get_bucket-IsStore c.created_at key limit buckets (limit-positive c) h in
      let (spent, consistent) =
        spend-IsConsistent c (renew c found.0) (renew-IsBucket c found.0 b) in
      (store_at-IsStore key (spend (renew c found.0)).0 found.1 spent present, consistent)

  -- From buckets that have something to spend and no more than their limits, every answer's used and
  -- remaining requests sum up to its limit, which is positive, and a refusal has none remaining and
  -- carries the time of the renewal; and the buckets that are left are such again.
  run-IsConsistent :
      (events : List Event) (buckets : Buckets)
      → IsStore buckets
      → IsStore (run hashing limits events buckets).0
        × All IsConsistent (run hashing limits events buckets).1
  unfolding run
  run-IsConsistent [] buckets h = (h, tt)
  run-IsConsistent (request c ∷ events) buckets h =
      let (store, consistent) = step-IsStore c buckets h in
      let (last, rest) =
        run-IsConsistent events (rate_limit_middleware hashing limits c buckets).0 store in
      (last, (consistent, rest))
  run-IsConsistent (sweep now ∷ events) buckets h =
      run-IsConsistent events (cleanup_expired_buckets now buckets) λ k. swept (buckets k) (h k)
    where
      swept : (o : Option TokenBucket) → IsBucket o → IsBucket (keep_unexpired now o)
      swept none b = tt
      swept (some bucket) b = elim (Bool-cases (ltb (bucket.reset_at + hour) now)) [
        | inl e ↦ rw e tt
        | inr e ↦ rw e b
      ]
