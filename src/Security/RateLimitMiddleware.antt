-- ===== src/Security/RateLimitMiddleware.antt =====
-- security/rate_limiter.py: the headers and `RateLimitMiddleware`. `fnmatch` is the library's test of
-- a path against a pattern. A request is what the middleware reads of it.
use Prim.Native.String.{◌++◌}
use text.Mathlib.Text.{starts_with}
use autonomous_rover_swarm_c.Common.{
  suc, String, string_eq, Bool, true, false, not, ◌||◌, Option, none, some, List, [], ◌∷◌,
  if◌then◌else◌, ◌==◌,
}
use autonomous_rover_swarm_c.Common.Decimal.{show}
use autonomous_rover_swarm_c.Common.Int.{ℤ, pos, negsuc, diff, at_least_one}
use autonomous_rover_swarm_c.Common.Text.{named}
use autonomous_rover_swarm_c.Common.Floats.{Floats}
use autonomous_rover_swarm_c.Common.Errors.{Result, ok, err}
use autonomous_rover_swarm_c.Common.Dict.{Dict}
use autonomous_rover_swarm_c.Common.Sets.{member}
use autonomous_rover_swarm_c.Security.RateLimiter.{
  RateLimiter, RateLimitConfig, RateLimitScope, global_scope, ip_scope, user_scope, endpoint_scope,
  get_config, get_remaining, get_reset_time, try_acquire,
}

-- `str(i)`
unfoldable pub show_int : ℤ → String
unfolding show
show_int (pos n) = show n
show_int (negsuc n) = "-" ++ show (suc n)

-- The four headers, as texts.
pub record Headers : Type 0 where
  pub limit : String
  pub remaining : String
  pub reset : String
  pub retry_after : String

-- The clock as the calls of one check read it, in their order: `created` and `acquired` in
-- `try_acquire`, `left` in `get_remaining`, `until` and `today` in `get_reset_time`, and `last` for the
-- last header.
pub record Times {ℓ} (F : Type ℓ) : Type ℓ where
  pub created : F
  pub acquired : F
  pub left : F
  pub until : F
  pub today : F
  pub last : F

pub record RateLimitRule {ℓ} (F : Type ℓ) : Type ℓ where
  pub endpoint : String
  pub config : RateLimitConfig F
  pub methods : List String

-- What is read of a request: the identifier that the callback gives, the id of its user, and its
-- path.
pub record Request : Type 0 where
  pub base_id : String
  pub user_id : Option String
  pub path : Option String

-- `RateLimitMiddleware` beside its limiter
pub record Middleware {ℓ} (F : Type ℓ) : Type ℓ where
  pub exclude_paths : List String
  pub rules : Dict String (RateLimitRule F)

abbrev user_or_ip : Option String → String → String
user_or_ip none base_id = "ip:" ++ base_id
user_or_ip (some user_id) base_id = "user:" ++ user_id

abbrev endpoint_name : Option String → String
endpoint_name none = "endpoint:unknown"
endpoint_name (some path) = "endpoint:" ++ path

unfoldable pub get_identifier : Request → RateLimitScope → String
get_identifier r global_scope = "global"
get_identifier r ip_scope = r.base_id
get_identifier r user_scope = user_or_ip (named r.user_id) r.base_id
get_identifier r endpoint_scope = endpoint_name (named r.path)

-- `path == place or path.startswith(place + "/")`
abbrev pub under : String → String → Bool
under path place = path == place || starts_with path (place ++ "/")

unfoldable pub is_excluded : String → List String → Bool
is_excluded path [] = false
is_excluded path (excluded ∷ more) =
    let rest = is_excluded path more in if under path excluded then true else rest

module _ {ℓ} {F : Type ℓ} (fl : Floats F) (fnmatch : String → String → Bool) where
  unfoldable pub get_rate_limit_headers :
      String → Option String → Times F → RateLimiter F → RateLimiter F × Headers
  unfolding get_config get_remaining get_reset_time show show_int
  get_rate_limit_headers identifier endpoint t s =
      let config = get_config endpoint s in
      let (s', remaining) = get_remaining fl identifier endpoint t.left s in
      let (s'', reset) = get_reset_time fl identifier endpoint t.until t.today s' in
      (
        s'',
        record {
          limit = show_int config.requests_per_window;
          remaining = show_int (fl.trunc remaining);
          reset = show_int reset;
          retry_after = show (at_least_one (diff reset (fl.trunc t.last)));
        },
      )

  unfoldable pub match_rule :
      String → String → Dict String (RateLimitRule F) → Option (RateLimitRule F)
  match_rule path method [] = none
  match_rule path method ((endpoint, rule) ∷ rules) =
      let rest = match_rule path method rules in
      if not (member method rule.methods)
      then rest
      else if under path endpoint
      then some rule
      else if fnmatch path endpoint
      then some rule
      else rest

  abbrev rule_config : RateLimitConfig F → Option (RateLimitRule F) → RateLimitConfig F
  rule_config config none = config
  rule_config config (some rule) = rule.config

  abbrev rule_endpoint : Option (RateLimitRule F) → Option String
  rule_endpoint none = none
  rule_endpoint (some rule) = some rule.endpoint

  -- What follows `try_acquire`: both branches make the headers.
  answer :
      String
      → Option String
      → Times F
      → RateLimiter F
      → Result Bool
      → RateLimiter F × Result (Bool × Option Headers)
  unfolding get_rate_limit_headers
  answer identifier endpoint t s (err e) = (s, err e)
  answer identifier endpoint t s (ok granted) =
      let (s', headers) = get_rate_limit_headers identifier endpoint t s in
      (s', ok (granted, some headers))

  -- Whether the request may pass, with its headers; no headers for an excluded path.
  unfoldable pub check_rate_limit :
      Middleware F
      → Request
      → String
      → String
      → Times F
      → RateLimiter F
      → RateLimiter F × Result (Bool × Option Headers)
  unfolding is_excluded match_rule get_identifier try_acquire answer
  check_rate_limit m request path method t s =
      let rule = match_rule path method m.rules in
      let config = rule_config s.config rule in
      let endpoint = rule_endpoint rule in
      let identifier = get_identifier request config.scope in
      let (s', granted) = try_acquire fl identifier (pos 1) endpoint t.created t.acquired s in
      if is_excluded path m.exclude_paths
      then (s, ok (true, none))
      else answer identifier endpoint t s' granted
