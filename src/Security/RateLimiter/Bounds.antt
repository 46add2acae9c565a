-- ===== src/Security/RateLimiter/Bounds.antt =====
-- What the buckets of security/rate_limiter.py hold.
use autonomous_rover_swarm_c.Common.{
  String, string_eq, true, ◌≡◌, refl, Option, none, some, List, [], ◌∷◌, arith, ◌==◌, Bool-cases,
  inl, inr, Option-cases, All,
}
use autonomous_rover_swarm_c.Common.Int.{ℤ, pos, negsuc, is_natural}
use autonomous_rover_swarm_c.Common.Floats.{Floats, IsOrdered, of_int}
use autonomous_rover_swarm_c.Common.Errors.{Result, ok, err}
use autonomous_rover_swarm_c.Common.Dict.{Dict, lookup, insert, Each, insert-Each, lookup-Each}
use autonomous_rover_swarm_c.Security.RateLimiter.{
  RateLimiter, RateLimitConfig, TokenBucket, new, configure_endpoint, get_bucket_key, get_config,
  capacity_of, new_bucket, get_or_create_bucket, refill_bucket, take, try_acquire, get_remaining,
  get_reset_time, drop_stale, cleanup_stale_buckets, post_init, acquire_from,
}

-- What is asked of a rate limiter.
pub data Request {ℓ} (F : Type ℓ) : Type ℓ where
  configures : String → RateLimitConfig F → Request F
  acquires : String → ℤ → Option String → (created now : F) → Request F
  asks_remaining : String → Option String → (now : F) → Request F
  asks_reset : String → Option String → (now today : F) → Request F
  cleans_up : (max_age now : F) → Request F

module _ {ℓ} {F : Type ℓ} (fl : Floats F) where
  open fl use {of_nat, le}

  unfoldable pub handle : Request F → RateLimiter F → RateLimiter F
  handle (configures endpoint config) s = configure_endpoint endpoint config s
  handle (acquires identifier tokens endpoint created now) s =
      (try_acquire fl identifier tokens endpoint created now s).0
  handle (asks_remaining identifier endpoint now) s = (get_remaining fl identifier endpoint now s).0
  handle (asks_reset identifier endpoint now today) s =
      (get_reset_time fl identifier endpoint now today s).0
  handle (cleans_up max_age now) s = (cleanup_stale_buckets fl max_age now s).0

  unfoldable pub run : RateLimiter F → List (Request F) → RateLimiter F
  unfolding handle
  run s [] = s
  run s (r ∷ rs) = run (handle r s) rs

  -- A bucket holds at least nothing and at most its capacity, and is refilled at no negative rate.
  abbrev pub IsBounded : TokenBucket F → Type 0
  IsBounded b =
      (le (of_nat 0) b.tokens ≡ true)
      × (le b.tokens b.capacity ≡ true)
      × (le (of_nat 0) b.refill_rate ≡ true)

  -- No number of a configuration is negative.
  abbrev pub IsSensible : RateLimitConfig F → Type 0
  IsSensible c =
      (is_natural c.requests_per_window ≡ true)
      × (is_natural c.window_seconds ≡ true)
      × (le (of_nat 0) c.burst_multiplier ≡ true)

  pub record IsValid (s : RateLimiter F) : Type ℓ where
    pub bounded : Each IsBounded s.buckets
    pub sensible : IsSensible s.config
    pub endpoints_sensible : Each IsSensible s.endpoint_configs

  -- A request configures an endpoint sensibly, or asks for no negative number of tokens.
  abbrev pub IsSensibleRequest : Request F → Type 0
  IsSensibleRequest (configures endpoint config) = IsSensible config
  IsSensibleRequest (acquires identifier tokens endpoint created now) = is_natural tokens ≡ true
  IsSensibleRequest _ = Unit

  module _ (laws : IsOrdered fl) where
    open laws use {
      le_refl, le_trans, lt-not, le_total, of_nat-ge, add-ge, sub-ge, sub-le, mul-ge, div-ge,
    }

    of_int-ge : (i : ℤ) → is_natural i ≡ true → le (of_nat 0) (of_int fl i) ≡ true
    of_int-ge (pos n) h = of_nat-ge n
    of_int-ge (negsuc n) h = absurd (ground (arith, h))

    new_bucket-IsBounded :
        (c : RateLimitConfig F) (created : F) → IsSensible c → IsBounded (new_bucket fl c created)
    unfolding new_bucket post_init
    new_bucket-IsBounded c created h =
        let full : le (of_nat 0) (capacity_of fl c) ≡ true =
          mul-ge (of_int fl c.requests_per_window) c.burst_multiplier
            (of_int-ge c.requests_per_window h.0) h.2 in
        ground (
          arith,
          full,
          lt-not (capacity_of fl c) (of_nat 0),
          lt-not (capacity_of fl c) (capacity_of fl c),
          le_refl (capacity_of fl c),
          div-ge (of_int fl c.requests_per_window) (of_int fl c.window_seconds)
              (of_int-ge c.requests_per_window h.0) (of_int-ge c.window_seconds h.1),
        )

    refill_bucket-IsBounded :
        (b : TokenBucket F) (now : F) → IsBounded b → IsBounded (refill_bucket fl b now)
    unfolding refill_bucket
    refill_bucket-IsBounded b now h =
        let elapsed = fl.sub now b.last_refill in
        let more = fl.mul elapsed b.refill_rate in
        let sum = fl.add b.tokens more in
        ground (
          arith,
          lt-not (of_nat 0) elapsed,
          le_total elapsed (of_nat 0),
          mul-ge elapsed b.refill_rate,
          add-ge b.tokens more,
          le_trans (of_nat 0) b.tokens sum,
          le_trans (of_nat 0) b.tokens b.capacity,
          lt-not sum b.capacity,
          le_total b.capacity sum,
          le_refl b.capacity,
        )

    take-IsBounded :
        (i : ℤ) (b : TokenBucket F) → is_natural i ≡ true → IsBounded b → IsBounded (take fl i b).0
    unfolding take
    take-IsBounded i b natural h =
        let n = of_int fl i in
        ground (
          arith,
          sub-ge b.tokens n,
          sub-le b.tokens n (of_int-ge i natural),
          le_trans (fl.sub b.tokens n) b.tokens b.capacity,
        )

    get_config-IsSensible :
        (endpoint : Option String) (s : RateLimiter F)
        → IsValid s
        → IsSensible (get_config endpoint s)
    unfolding get_config
    get_config-IsSensible none s h = h.sensible
    get_config-IsSensible (some endpoint) s h = elim (Bool-cases (endpoint == "")) [
      | inl blank ↦ rw blank h.sensible
      | inr named ↦ rw named (elim (Option-cases (lookup endpoint s.endpoint_configs)) [
        | inl missing ↦ rw missing h.sensible
        | inr (c, found) ↦
            rw found
              (lookup-Each IsSensible endpoint c s.endpoint_configs h.endpoints_sensible found)
      ])
    ]

    -- The bucket that a request works on, new or old, is bounded.
    get_or_create_bucket-IsBounded :
        (key : String) (c : RateLimitConfig F) (created : F) (s : RateLimiter F) (b : TokenBucket F)
        → IsSensible c
        → IsValid s
        → get_or_create_bucket fl key c created s ≡ ok b
        → IsBounded b
    unfolding get_or_create_bucket
    get_or_create_bucket-IsBounded key c created s b hc h got =
        elim (Option-cases (lookup key s.buckets)) [
          | inl missing ↦ ground (arith, new_bucket-IsBounded c created hc)
          | inr (old, found) ↦
              ground (arith, lookup-Each IsBounded key old s.buckets h.bounded found)
        ]

    acquire_from-Each :
        (key : String) (n : ℤ) (now : F) (s : RateLimiter F) (r : Result (TokenBucket F))
        → is_natural n ≡ true
        → Each IsBounded s.buckets
        → ((b : TokenBucket F) → r ≡ ok b → IsBounded b)
        → IsValid s
        → IsValid (acquire_from fl key n now s r).0
    unfolding acquire_from
    acquire_from-Each key n now s (err e) hn hs hb h = h
    acquire_from-Each key n now s (ok b) hn hs hb h = record {
      bounded =
          insert-Each IsBounded key (take fl n (refill_bucket fl b now)).0 s.buckets
            (take-IsBounded n (refill_bucket fl b now) hn
              (refill_bucket-IsBounded b now (hb b refl)))
            hs;
      sensible = h.sensible;
      endpoints_sensible = h.endpoints_sensible;
    }

    refilled-IsValid :
        (key : String) (b : TokenBucket F) (now : F) (s : RateLimiter F)
        → IsValid s
        → lookup key s.buckets ≡ some b
        → IsValid (record s { buckets = insert key (refill_bucket fl b now) s.buckets })
    refilled-IsValid key b now s h found = record {
      bounded =
          insert-Each IsBounded key (refill_bucket fl b now) s.buckets
            (refill_bucket-IsBounded b now (lookup-Each IsBounded key b s.buckets h.bounded found))
            h.bounded;
      sensible = h.sensible;
      endpoints_sensible = h.endpoints_sensible;
    }

    drop_stale-Each :
        (max_age now : F) (d : Dict String (TokenBucket F))
        → Each IsBounded d
        → Each IsBounded (drop_stale fl max_age now d).0
    unfolding drop_stale
    drop_stale-Each max_age now [] h = tt
    drop_stale-Each max_age now ((key, b) ∷ d) h =
        elim (Bool-cases (fl.lt max_age (fl.sub now b.last_refill))) [
          | inl old ↦ rw old (drop_stale-Each max_age now d h.1)
          | inr young ↦ rw young (h.0, drop_stale-Each max_age now d h.1)
        ]

    handle-IsValid :
        (r : Request F) (s : RateLimiter F) → IsSensibleRequest r → IsValid s → IsValid (handle r s)
    unfolding handle configure_endpoint try_acquire get_remaining get_reset_time
        cleanup_stale_buckets
    handle-IsValid (configures endpoint config) s hr h = record {
      bounded = h.bounded;
      sensible = h.sensible;
      endpoints_sensible =
          insert-Each IsSensible endpoint config s.endpoint_configs hr h.endpoints_sensible;
    }
    handle-IsValid (acquires identifier tokens endpoint created now) s hr h =
        let key = get_bucket_key identifier endpoint s in
        let c = get_config endpoint s in
        acquire_from-Each key tokens now s (get_or_create_bucket fl key c created s) hr h.bounded
          (λ b.
            get_or_create_bucket-IsBounded key c created s b (get_config-IsSensible endpoint s h) h)
          h
    handle-IsValid (asks_remaining identifier endpoint now) s hr h =
        elim (Option-cases (lookup (get_bucket_key identifier endpoint s) s.buckets)) [
          | inl missing ↦ rw (handle, missing) h
          | inr (b, found) ↦
              rw (handle, found)
                (refilled-IsValid (get_bucket_key identifier endpoint s) b now s h found)
        ]
    handle-IsValid (asks_reset identifier endpoint now today) s hr h =
        elim (Option-cases (lookup (get_bucket_key identifier endpoint s) s.buckets)) [
          | inl missing ↦ rw (handle, missing) h
          | inr (b, found) ↦
              rw (handle, found)
                (refilled-IsValid (get_bucket_key identifier endpoint s) b now s h found)
        ]
    handle-IsValid (cleans_up max_age now) s hr h = record {
      bounded = drop_stale-Each max_age now s.buckets h.bounded;
      sensible = h.sensible;
      endpoints_sensible = h.endpoints_sensible;
    }

    run-IsValid :
        (s : RateLimiter F) (rs : List (Request F))
        → All IsSensibleRequest rs
        → IsValid s
        → IsValid (run s rs)
    unfolding run
    run-IsValid s [] hs h = h
    run-IsValid s (r ∷ rs) hs h = run-IsValid (handle r s) rs hs.1 (handle-IsValid r s hs.0 h)

    -- Whatever else is asked of a new rate limiter, and whatever the clock shows, every bucket holds
    -- at least nothing and at most its capacity and is refilled at no negative rate, if no request
    -- asks for a negative number of tokens, no configuration has a negative number of requests, of
    -- seconds or of bursts, and the arithmetic is ordered as that of finite floats.
    pub buckets_stay_within :
        (c : RateLimitConfig F) (rs : List (Request F))
        → IsSensible c
        → All IsSensibleRequest rs
        → (key : String) (b : TokenBucket F) → lookup key (run (new c) rs).buckets ≡ some b
        → IsBounded b
    buckets_stay_within c rs hc hs key b found =
        lookup-Each IsBounded key b (run (new c) rs).buckets
          (run-IsValid (new c) rs hs
            (record { bounded = tt; sensible = hc; endpoints_sensible = tt })).bounded
          found
