-- ===== src/Tests/Limits.antt =====
-- Runs of the rate limiter, of roles, of gossip and of a rover's state. Here a float is a natural
-- number, whose arithmetic is ordered as the interface asks.
use autonomous_rover_swarm_c.Tests.{nat_floats}
use autonomous_rover_swarm_c.Common.{
  ℕ, ◌≡◌, refl, false, [], ◌∷◌, List, some, none, String, string_eq, arith,
}
use autonomous_rover_swarm_c.Common.Int
use autonomous_rover_swarm_c.Common.Sets
use autonomous_rover_swarm_c.Common.Dict
use autonomous_rover_swarm_c.Common.Dict.{Dict, lookup}
use autonomous_rover_swarm_c.Common.Floats.{IsOrdered}
use autonomous_rover_swarm_c.Security.RateLimiter
use autonomous_rover_swarm_c.Security.RateLimiter.{
  RateLimiter, RateLimitConfig, TokenBucket, ip_scope, get_bucket_key, get_config,
  get_or_create_bucket, refill_bucket, try_acquire, acquire,
}
use autonomous_rover_swarm_c.Security.RateLimiter.Bounds
use autonomous_rover_swarm_c.Security.RateLimiter.Bounds.{
  IsBounded, Request, acquires, configures, run, buckets_stay_within,
}
use autonomous_rover_swarm_c.Security.RateLimiter.Isolation.{run-other}
use autonomous_rover_swarm_c.Security.Rbac
use autonomous_rover_swarm_c.Security.Rbac.{
  observer, admin, rover_command, rover_read, system_admin, has_permission, assign_role,
}
use autonomous_rover_swarm_c.Security.Rbac.Access
use autonomous_rover_swarm_c.Security.Rbac.Access.{Change, assigns, adds, removes, no_escalation}
use autonomous_rover_swarm_c.Swarm.Gossip.{Gossip, Message, send_all, receive}
use autonomous_rover_swarm_c.Swarm.Gossip
use autonomous_rover_swarm_c.Swarm.Gossip.Spread.{sends-ttl}
use autonomous_rover_swarm_c.Swarm.Gossip.Once
use autonomous_rover_swarm_c.Swarm.Gossip.Once.{receives, meets, sends, gossips, receive_once}

nat_floats-IsOrdered : IsOrdered nat_floats
nat_floats-IsOrdered = record {
  le_refl = λ a. ground arith;
  le_trans = λ a b c h k. ground arith;
  lt-not = λ a b. ground arith;
  le_total = λ a b h. ground arith;
  of_nat-ge = λ n. ground arith;
  add-ge = λ a b h. ground arith;
  sub-ge = λ a b h. ground arith;
  sub-le = λ a b h. ground arith;
  mul-ge = λ a b h k. ground arith;
  div-ge = λ a b h k. ground arith;
}

-- Two requests in ten seconds.
abbrev config : RateLimitConfig ℕ
config = record {
  requests_per_window = Int.pos 2;
  window_seconds = Int.pos 10;
  scope = ip_scope;
  burst_multiplier = 1;
}

abbrev requests : List (Request ℕ)
requests = acquires "ada" (Int.pos 1) none 5 5 ∷ acquires "ada" (Int.pos 1) none 6 6 ∷ []

abbrev left : TokenBucket ℕ
left = record { capacity = 2; refill_rate = 0; tokens = 0; last_refill = 6 }

ada_left : lookup "ada" (run nat_floats (RateLimiter.new config) requests).buckets ≡ some left
unfolding run Bounds.handle try_acquire lookup Dict.insert get_bucket_key get_config
    get_or_create_bucket refill_bucket RateLimiter.take
ada_left = refl

buckets_stay_within_example : IsBounded nat_floats left
buckets_stay_within_example =
    buckets_stay_within nat_floats nat_floats-IsOrdered config requests (refl, refl, refl)
      (refl, (refl, tt)) "ada" left ada_left

abbrev staff : Rbac.RbacProvider
staff = assign_role "eve" observer Rbac.new

abbrev changes : List Change
changes = assigns "ada" admin ∷ adds "bob" system_admin ∷ removes "eve" rover_read ∷ []

eve_lacks : has_permission "eve" rover_command staff ≡ false
unfolding has_permission assign_role lookup Dict.insert Sets.member
eve_lacks = refl

no_escalation_example : has_permission "eve" rover_command (Access.run staff changes) ≡ false
no_escalation_example =
    no_escalation "eve" staff changes
      (
        ground (arith, string_eq.beq_iff "ada" "eve"),
        (ground (arith, string_eq.beq_iff "bob" "eve"), (tt, tt)),
      )
      rover_command eve_lacks

abbrev news : Message ℕ
news = record { id = some "m1"; origin = some "a"; ttl = some (Int.pos 2); body = 0 }

-- A message that has no ttl, and one that has none left.
abbrev plain : Message ℕ
plain = record { id = some "m2"; origin = some "a"; ttl = none; body = 1 }

abbrev spent : Message ℕ
spent = record { id = some "m3"; origin = some "a"; ttl = some (Int.pos 0); body = 2 }

sends-ttl_example :
    send_all ("b" ∷ "c" ∷ "d" ∷ []) (news ∷ spent ∷ plain ∷ [])
    ≡ ("b", record news { ttl = some (Int.pos 1) })
      ∷ ("b", record plain { ttl = some (Int.pos 2) })
      ∷ ("c", record news { ttl = some (Int.pos 0) })
      ∷ ("c", record plain { ttl = some (Int.pos 1) })
      ∷ ("d", record plain { ttl = some (Int.pos 0) })
      ∷ []
sends-ttl_example = sends-ttl ("b" ∷ "c" ∷ "d" ∷ []) (news ∷ spent ∷ plain ∷ [])

abbrev same_order : List String → List String
same_order xs = xs

abbrev between : List (Once.Event ℕ)
between =
    receives plain ∷ meets ("c" ∷ []) ∷ sends ("c" ∷ []) ∷ gossips "5" spent ∷ receives news ∷ []

receive_once_example :
    receive news (Once.run same_order between (receive news (Gossip.new "b" 3)))
    ≡ Once.run same_order between (receive news (Gossip.new "b" 3))
receive_once_example =
    receive_once same_order news news between (Gossip.new "b" 3) refl
      (unfold Gossip.new in omega arith)

abbrev of_bob : List (Request ℕ)
of_bob =
    configures "scan" config
    ∷ acquires "bob" (Int.pos 2) (some "scan") 7 7
    ∷ acquires "bob" (Int.pos 1) none 8 8
    ∷ []

-- What bob asks leaves what ada has left.
run-other_example :
    lookup "ada" (run nat_floats (run nat_floats (RateLimiter.new config) requests) of_bob).buckets
    ≡ lookup "ada" (run nat_floats (RateLimiter.new config) requests).buckets
run-other_example =
    run-other nat_floats "ada" of_bob (run nat_floats (RateLimiter.new config) requests) refl (
      tt,
      (
        ground (arith, string_eq.beq_iff "bob" "ada"),
        (ground (arith, string_eq.beq_iff "bob" "ada"), tt),
      ),
    )
