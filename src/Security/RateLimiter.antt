-- ===== src/Security/RateLimiter.antt =====
-- security/rate_limiter.py: token buckets. Nothing in the code keeps a number of tokens, requests or
-- seconds from being negative. The readings of `time.monotonic()` and `time.time()` are arguments, `created` the one that
-- a new bucket takes and `now` the one that follows.
pub mod Bounds
pub mod Isolation
use Prim.Native.String.{◌++◌}
use autonomous_rover_swarm_c.Common.{
  ℕ, suc, ◌+◌, String, string_eq, Bool, true, false, not, ◌&&◌, Option, none, some, List, [], ◌∷◌,
  is_some, if◌then◌else◌, ◌==◌,
}
use autonomous_rover_swarm_c.Common.Int.{ℤ, is_zero}
use autonomous_rover_swarm_c.Common.Floats.{Floats, of_int}
use autonomous_rover_swarm_c.Common.Errors.{Result, ok, err, rate_limit_error, zero_division_error}
use autonomous_rover_swarm_c.Common.Dict.{Dict, lookup, insert}

pub data RateLimitScope : Type 0 where
  global_scope ip_scope user_scope endpoint_scope : RateLimitScope

pub record RateLimitConfig {ℓ} (F : Type ℓ) : Type ℓ where
  pub requests_per_window : ℤ
  pub window_seconds : ℤ
  pub scope : RateLimitScope
  pub burst_multiplier : F

pub record TokenBucket {ℓ} (F : Type ℓ) : Type ℓ where
  pub capacity : F
  pub refill_rate : F
  pub tokens : F
  pub last_refill : F

pub record RateLimiter {ℓ} (F : Type ℓ) : Type ℓ where
  pub config : RateLimitConfig F
  pub buckets : Dict String (TokenBucket F)
  pub endpoint_configs : Dict String (RateLimitConfig F)

-- `RateLimiter(config)`, for a configuration that is given
abbrev pub new {ℓ} : {F : Type ℓ} → RateLimitConfig F → RateLimiter F
new config = record { config = config; buckets = []; endpoint_configs = [] }

-- `f"{endpoint}:{identifier}"`
abbrev prefixed : Option String → String → String
prefixed none identifier = identifier
prefixed (some endpoint) identifier = endpoint ++ (":" ++ identifier)

module _ {ℓ} {F : Type ℓ} where
  unfoldable pub configure_endpoint : String → RateLimitConfig F → RateLimiter F → RateLimiter F
  configure_endpoint endpoint config s = record s {
    endpoint_configs = insert endpoint config s.endpoint_configs;
  }

  -- `endpoint and endpoint in self._endpoint_configs`: the configuration, if the test holds; the
  -- empty text is false.
  unfoldable pub endpoint_config : Option String → RateLimiter F → Option (RateLimitConfig F)
  endpoint_config none s = none
  endpoint_config (some endpoint) s =
      if endpoint == "" then none else lookup endpoint s.endpoint_configs

  unfoldable pub get_bucket_key : String → Option String → RateLimiter F → String
  unfolding endpoint_config
  get_bucket_key identifier endpoint s =
      if is_some (endpoint_config endpoint s) then prefixed endpoint identifier else identifier

  abbrev config_or : RateLimitConfig F → Option (RateLimitConfig F) → RateLimitConfig F
  config_or config none = config
  config_or config (some c) = c

  unfoldable pub get_config : Option String → RateLimiter F → RateLimitConfig F
  unfolding endpoint_config
  get_config endpoint s = config_or s.config (endpoint_config endpoint s)

module _ {ℓ} {F : Type ℓ} (fl : Floats F) where
  open fl use {of_nat, add, sub, mul, div, lt, le, trunc}

  -- `__post_init__`
  unfoldable pub post_init : TokenBucket F → TokenBucket F
  post_init b =
      let low : TokenBucket F =
        if lt b.tokens (of_nat 0) then record b { tokens = of_nat 0 } else b in
      if lt low.capacity low.tokens then record low { tokens = low.capacity } else low

  abbrev pub capacity_of : RateLimitConfig F → F
  capacity_of c = mul (of_int fl c.requests_per_window) c.burst_multiplier

  unfoldable pub new_bucket : RateLimitConfig F → F → TokenBucket F
  unfolding post_init
  new_bucket c created = post_init (record {
    capacity = capacity_of c;
    refill_rate = div (of_int fl c.requests_per_window) (of_int fl c.window_seconds);
    tokens = capacity_of c;
    last_refill = created;
  })

  -- The bucket, which is also stored; a window of no seconds is divided by.
  unfoldable pub get_or_create_bucket :
      String → RateLimitConfig F → F → RateLimiter F → Result (TokenBucket F)
  unfolding new_bucket
  get_or_create_bucket key config created s = elim (lookup key s.buckets) [
    | some b ↦ ok b
    | none ↦
        if is_zero config.window_seconds
        then err zero_division_error
        else ok (new_bucket config created)
  ]

  -- `min(a, b)`, which keeps the first of two equal numbers
  abbrev pub minimum : F → F → F
  minimum a b = if lt b a then b else a

  unfoldable pub refill_bucket : TokenBucket F → F → TokenBucket F
  refill_bucket b now =
      let elapsed = sub now b.last_refill in
      if lt (of_nat 0) elapsed
      then record b {
        tokens = minimum b.capacity (add b.tokens (mul elapsed b.refill_rate));
        last_refill = now;
      }
      else b

  -- The test of `try_acquire` on a bucket that has been refilled, and the change of the bucket.
  unfoldable pub take : ℤ → TokenBucket F → TokenBucket F × Bool
  take tokens b =
      if le (of_int fl tokens) b.tokens
      then (record b { tokens = sub b.tokens (of_int fl tokens) }, true)
      else (b, false)

  -- The rest of `try_acquire` after the bucket is there.
  acquire_from :
      String → ℤ → F → RateLimiter F → Result (TokenBucket F) → RateLimiter F × Result Bool
  unfolding refill_bucket take
  acquire_from key tokens now s (err e) = (s, err e)
  acquire_from key tokens now s (ok b) =
      let (b', granted) = take tokens (refill_bucket b now) in
      (record s { buckets = insert key b' s.buckets }, ok granted)

  unfoldable pub try_acquire :
      String → ℤ → Option String → (created now : F) → RateLimiter F → RateLimiter F × Result Bool
  unfolding get_config get_bucket_key get_or_create_bucket acquire_from
  try_acquire identifier tokens endpoint created now s =
      let key = get_bucket_key identifier endpoint s in
      acquire_from key tokens now s (get_or_create_bucket key (get_config endpoint s) created s)

  abbrev raise_unless : Result Bool → Result (Unit {0})
  raise_unless (ok true) = ok tt
  raise_unless (ok false) = err rate_limit_error
  raise_unless (err e) = err e

  unfoldable pub acquire :
      String
      → ℤ
      → Option String
      → (created now : F) → RateLimiter F
      → RateLimiter F × Result (Unit {0})
  unfolding try_acquire
  acquire identifier tokens endpoint created now s =
      let (s', granted) = try_acquire identifier tokens endpoint created now s in
      (s', raise_unless granted)

  unfoldable pub get_remaining : String → Option String → F → RateLimiter F → RateLimiter F × F
  unfolding get_config get_bucket_key refill_bucket
  get_remaining identifier endpoint now s =
      let key = get_bucket_key identifier endpoint s in
      elim (lookup key s.buckets) [
        | none ↦ (s, capacity_of (get_config endpoint s))
        | some b ↦
            let b' = refill_bucket b now in
            (record s { buckets = insert key b' s.buckets }, b'.tokens)
      ]

  -- `now` is read from the monotonic clock, `today` from the wall clock.
  unfoldable pub get_reset_time :
      String → Option String → (now today : F) → RateLimiter F → RateLimiter F × ℤ
  unfolding get_bucket_key refill_bucket
  get_reset_time identifier endpoint now today s =
      let key = get_bucket_key identifier endpoint s in
      elim (lookup key s.buckets) [
        | none ↦ (s, trunc today)
        | some b ↦
            let b' = refill_bucket b now in
            let needed = sub b'.capacity b'.tokens in
            (
              record s { buckets = insert key b' s.buckets },
              if le needed (of_nat 0)
                  then trunc today
                  else trunc (add today (div needed b'.refill_rate)),
            )
      ]

  -- The buckets that are kept, and the number of those that are not.
  unfoldable pub drop_stale :
      (max_age now : F) → Dict String (TokenBucket F) → Dict String (TokenBucket F) × ℕ
  drop_stale max_age now [] = ([], 0)
  drop_stale max_age now ((key, b) ∷ d) =
      let (kept, dropped) = drop_stale max_age now d in
      if lt max_age (sub now b.last_refill) then (kept, suc dropped) else ((key, b) ∷ kept, dropped)

  unfoldable pub cleanup_stale_buckets : (max_age now : F) → RateLimiter F → RateLimiter F × ℕ
  unfolding drop_stale
  cleanup_stale_buckets max_age now s =
      let (kept, dropped) = drop_stale max_age now s.buckets in
      (record s { buckets = kept }, dropped)
