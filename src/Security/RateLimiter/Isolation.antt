-- ===== src/Security/RateLimiter/Isolation.antt =====
-- security/rate_limiter.py: whose bucket a request changes.
use text.Mathlib.TextLemmas.{nil-append, cons-append}
use Prim.Native.String.{◌++◌}
use autonomous_rover_swarm_c.Common.{
  String, string_eq, true, false, ◌≡◌, refl, ap, ◌∙◌, Option, none, some, List, [], ◌∷◌, arith,
  ◌==◌, Bool-cases, inl, inr, Option-cases, All, is_some,
}
use autonomous_rover_swarm_c.Common.Int.{ℤ}
use autonomous_rover_swarm_c.Common.Floats.{Floats}
use autonomous_rover_swarm_c.Common.Errors.{Result, ok, err}
use autonomous_rover_swarm_c.Common.Dict.{lookup, insert, lookup-insert}
use autonomous_rover_swarm_c.Security.InputValidator.{has_char}
use autonomous_rover_swarm_c.Security.RateLimiter.{
  RateLimiter, TokenBucket, configure_endpoint, get_bucket_key, endpoint_config, get_config,
  get_or_create_bucket, try_acquire, acquire_from, take, refill_bucket, get_remaining,
  get_reset_time,
}
use autonomous_rover_swarm_c.Security.RateLimiter.Bounds.{
  Request, configures, acquires, asks_remaining, asks_reset, cleans_up, handle, run,
}

-- `":"` and what follows it
colon_first : (i : String) → has_char ":" (":" ++ i) ≡ true
colon_first i = rw (cons-append ":" String.[] i) refl

-- The key of a bucket of an endpoint contains a colon.
colon_in_prefixed : (e i : String) → has_char ":" (e ++ (":" ++ i)) ≡ true
colon_in_prefixed String.[] i = rw (nil-append (":" ++ i)) (colon_first i)
colon_in_prefixed (String.◌∷◌ c e) i =
    rw (cons-append c e (":" ++ i)) (ground (arith, colon_in_prefixed e i))

other_prefixed :
    (client e i : String) → has_char ":" client ≡ false → ((e ++ (":" ++ i)) == client) ≡ false
other_prefixed client e i plain = elim (Bool-cases ((e ++ (":" ++ i)) == client)) [
  | inl same ↦
      let equal = (string_eq.beq_iff (e ++ (":" ++ i)) client).0 same in
      absurd (ground (arith, plain, colon_in_prefixed e i, ap (has_char ":") equal))
  | inr other ↦ other
]

other_key {ℓ} :
    {F : Type ℓ} (client identifier : String) (endpoint : Option String) (s : RateLimiter F)
    → has_char ":" client ≡ false
    → (identifier == client) ≡ false
    → (get_bucket_key identifier endpoint s == client) ≡ false
unfolding get_bucket_key endpoint_config
other_key client identifier none s plain other = other
other_key client identifier (some e) s plain other =
    elim (Bool-cases (is_some (endpoint_config (some e) s))) [
      | inl configured ↦ rw configured (other_prefixed client e identifier plain)
      | inr global ↦ rw global other
    ]

module _ {ℓ} {F : Type ℓ} (fl : Floats F) where
  -- A request of another client, or the configuration of an endpoint.
  abbrev pub IsOfOther : String → Request F → Type 0
  IsOfOther client (configures endpoint config) = Unit
  IsOfOther client (acquires identifier tokens endpoint created now) =
      (identifier == client) ≡ false
  IsOfOther client (asks_remaining identifier endpoint now) = (identifier == client) ≡ false
  IsOfOther client (asks_reset identifier endpoint now today) = (identifier == client) ≡ false
  IsOfOther client (cleans_up max_age now) = ⊥

  lookup-insert_other :
      (key client : String) (b : TokenBucket F) (s : RateLimiter F)
      → (key == client) ≡ false
      → lookup client (insert key b s.buckets) ≡ lookup client s.buckets
  lookup-insert_other key client b s other =
      ground (arith, other, lookup-insert key client b s.buckets)

  acquire_from-other :
      (key client : String) (n : ℤ) (now : F) (s : RateLimiter F) (r : Result (TokenBucket F))
      → (key == client) ≡ false
      → lookup client (acquire_from fl key n now s r).0.buckets ≡ lookup client s.buckets
  unfolding acquire_from
  acquire_from-other key client n now s (err e) other = refl
  acquire_from-other key client n now s (ok b) other =
      lookup-insert_other key client (take fl n (refill_bucket fl b now)).0 s other

  handle-other :
      (client : String) (r : Request F) (s : RateLimiter F)
      → has_char ":" client ≡ false
      → IsOfOther client r
      → lookup client (handle fl r s).buckets ≡ lookup client s.buckets
  unfolding handle configure_endpoint try_acquire get_remaining get_reset_time
  handle-other client (configures endpoint config) s plain other = refl
  handle-other client (acquires identifier tokens endpoint created now) s plain other =
      let key = get_bucket_key identifier endpoint s in
      acquire_from-other key client tokens now s
        (get_or_create_bucket fl key (get_config endpoint s) created s)
        (other_key client identifier endpoint s plain other)
  handle-other client (asks_remaining identifier endpoint now) s plain other =
      let key = get_bucket_key identifier endpoint s in
      elim (Option-cases (lookup key s.buckets)) [
        | inl missing ↦ rw (handle, missing) refl
        | inr (b, found) ↦
            rw (handle, found)
              (lookup-insert_other key client (refill_bucket fl b now) s
                (other_key client identifier endpoint s plain other))
      ]
  handle-other client (asks_reset identifier endpoint now today) s plain other =
      let key = get_bucket_key identifier endpoint s in
      elim (Option-cases (lookup key s.buckets)) [
        | inl missing ↦ rw (handle, missing) refl
        | inr (b, found) ↦
            rw (handle, found)
              (lookup-insert_other key client (refill_bucket fl b now) s
                (other_key client identifier endpoint s plain other))
      ]
  handle-other client (cleans_up max_age now) s plain other = absurd other

  -- The bucket that a client has for all endpoints without a configuration of their own is changed by
  -- nothing that other clients ask, for whatever endpoints, and by no configuration of an endpoint, as
  -- long as no stale buckets are cleaned up, if the client's identifier contains no colon.
  pub run-other :
      (client : String) (rs : List (Request F)) (s : RateLimiter F)
      → has_char ":" client ≡ false
      → All (IsOfOther client) rs
      → lookup client (run fl s rs).buckets ≡ lookup client s.buckets
  unfolding run
  run-other client [] s plain others = refl
  run-other client (r ∷ rs) s plain others =
      run-other client rs (handle fl r s) plain others.1 ∙ handle-other client r s plain others.0

-- Without that condition two clients can have one bucket: at an endpoint that is configured, any
-- identifier has the same key as the identifier with the endpoint and a colon before it has
-- elsewhere.
pub keys_collide {ℓ} :
    {F : Type ℓ} (e identifier : String) (s : RateLimiter F)
    → is_some (endpoint_config (some e) s) ≡ true
    → get_bucket_key identifier (some e) s ≡ get_bucket_key (e ++ (":" ++ identifier)) none s
unfolding get_bucket_key endpoint_config
keys_collide e identifier s configured = rw configured refl
