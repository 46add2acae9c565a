-- ===== src/Security/AuditEvent.antt =====
-- security/audit.py: what an audit event is, its dictionary, and its hash. `F` is the type of a time,
-- `D` that of the details.
pub mod RoundTrip
use autonomous_rover_swarm_c.Common.{
  String, string_eq, Bool, true, false, ◌≡◌, refl, Option, none, some, List, [], ◌∷◌, if◌then◌else◌,
  ◌==◌,
}
use autonomous_rover_swarm_c.Common.Errors.{Result, ok, err, value_error, ◌>>=◌}
use autonomous_rover_swarm_c.Common.Text.{named}

pub data AuditAction : Type 0 where
  login logout authenticate authorize create read update delete execute configure deploy :
      AuditAction
  start stop restart upgrade rollback access_granted access_denied rate_limit_hit : AuditAction
  cert_expired key_rotated audit_log_read : AuditAction

pub data AuditResult : Type 0 where
  success failure partial unauthorized forbidden timeout error : AuditResult

-- `action.value`
abbrev pub action_value : AuditAction → String
action_value login = "login"
action_value logout = "logout"
action_value authenticate = "authenticate"
action_value authorize = "authorize"
action_value create = "create"
action_value read = "read"
action_value update = "update"
action_value delete = "delete"
action_value execute = "execute"
action_value configure = "configure"
action_value deploy = "deploy"
action_value start = "start"
action_value stop = "stop"
action_value restart = "restart"
action_value upgrade = "upgrade"
action_value rollback = "rollback"
action_value access_granted = "access_granted"
action_value access_denied = "access_denied"
action_value rate_limit_hit = "rate_limit_hit"
action_value cert_expired = "cert_expired"
action_value key_rotated = "key_rotated"
action_value audit_log_read = "audit_log_read"

-- `result.value`
abbrev pub result_value : AuditResult → String
result_value success = "success"
result_value failure = "failure"
result_value partial = "partial"
result_value unauthorized = "unauthorized"
result_value forbidden = "forbidden"
result_value timeout = "timeout"
result_value error = "error"

abbrev all_actions : List AuditAction
all_actions =
    login ∷ logout ∷ authenticate ∷ authorize ∷ create ∷ read ∷ update ∷ delete ∷ execute
    ∷ configure ∷ deploy ∷ start ∷ stop ∷ restart ∷ upgrade ∷ rollback ∷ access_granted
    ∷ access_denied ∷ rate_limit_hit ∷ cert_expired ∷ key_rotated ∷ audit_log_read ∷ []

abbrev all_results : List AuditResult
all_results = success ∷ failure ∷ partial ∷ unauthorized ∷ forbidden ∷ timeout ∷ error ∷ []

-- `AuditAction(text)`: the member with that value, or an error.
unfoldable pub find_action : String → List AuditAction → Result AuditAction
find_action text [] = err value_error
find_action text (a ∷ more) =
    let rest = find_action text more in if action_value a == text then ok a else rest

unfoldable pub find_result : String → List AuditResult → Result AuditResult
find_result text [] = err value_error
find_result text (r ∷ more) =
    let rest = find_result text more in if result_value r == text then ok r else rest

unfoldable pub parse_action : String → Result AuditAction
unfolding find_action
parse_action text = find_action text all_actions

unfoldable pub parse_result : String → Result AuditResult
unfolding find_result
parse_result text = find_result text all_results

pub record AuditEvent {ℓ} (F D : Type ℓ) : Type ℓ where
  pub timestamp : F
  pub event_id : String
  pub actor : String
  pub action : AuditAction
  pub resource : String
  pub result : AuditResult
  pub source_ip : Option String
  pub user_agent : Option String
  pub session_id : Option String
  pub request_id : Option String
  pub details : D
  pub previous_hash : Option String
  pub hash : Option String

-- The dictionary of an event, with its action and its result as texts.
pub record EventDict {ℓ} (F D : Type ℓ) : Type ℓ where
  pub timestamp : F
  pub event_id : String
  pub actor : String
  pub action : String
  pub resource : String
  pub result : String
  pub source_ip : Option String
  pub user_agent : Option String
  pub session_id : Option String
  pub request_id : Option String
  pub details : D
  pub previous_hash : Option String
  pub hash : Option String

-- What the hash is computed of; "previous_hash" is left out where there is none.
pub record HashInput {ℓ} (F D : Type ℓ) : Type ℓ where
  pub timestamp : F
  pub event_id : String
  pub actor : String
  pub action : AuditAction
  pub resource : String
  pub result : AuditResult
  pub source_ip : Option String
  pub details : D
  pub previous_hash : Option String

module _ {ℓ} {F D : Type ℓ} where
  unfoldable pub to_dict : AuditEvent F D → EventDict F D
  to_dict e = record {
    timestamp = e.timestamp;
    event_id = e.event_id;
    actor = e.actor;
    action = action_value e.action;
    resource = e.resource;
    result = result_value e.result;
    source_ip = e.source_ip;
    user_agent = e.user_agent;
    session_id = e.session_id;
    request_id = e.request_id;
    details = e.details;
    previous_hash = e.previous_hash;
    hash = e.hash;
  }

  abbrev with_parsed : EventDict F D → AuditAction → AuditResult → AuditEvent F D
  with_parsed d action result = record {
    timestamp = d.timestamp;
    event_id = d.event_id;
    actor = d.actor;
    action = action;
    resource = d.resource;
    result = result;
    source_ip = d.source_ip;
    user_agent = d.user_agent;
    session_id = d.session_id;
    request_id = d.request_id;
    details = d.details;
    previous_hash = d.previous_hash;
    hash = d.hash;
  }

  -- A text that names no action or no result raises.
  unfoldable pub from_dict : EventDict F D → Result (AuditEvent F D)
  unfolding parse_action parse_result
  from_dict d = do
    action ← parse_action d.action
    result ← parse_result d.result
    ok (with_parsed d action result)

  -- `digest` is the JSON text of the input, its HMAC under the secret key, and the hex digits of
  -- that: library code. An empty previous hash counts as none.
  unfoldable pub calculate_hash : (HashInput F D → String) → AuditEvent F D → Option String → String
  calculate_hash digest e previous_hash = digest (record {
    timestamp = e.timestamp;
    event_id = e.event_id;
    actor = e.actor;
    action = e.action;
    resource = e.resource;
    result = e.result;
    source_ip = e.source_ip;
    details = e.details;
    previous_hash = named previous_hash;
  })
