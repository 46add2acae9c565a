-- ===== src/Security/AuditEvent/RoundTrip.antt =====
-- `to_dict` and `from_dict` of security/audit.py.
use autonomous_rover_swarm_c.Common.{string_eq, true, ◌≡◌, refl, ◌↔◌, Key, ap, ◌==◌, ◌∙◌, sym}
use autonomous_rover_swarm_c.Common.Errors.{ok, ok-injective}
use autonomous_rover_swarm_c.Security.AuditEvent.{
  AuditAction, AuditResult, AuditEvent, action_value, result_value, find_action, find_result,
  parse_action, parse_result, to_dict, from_dict, login, logout, authenticate, authorize, create,
  read, update, delete, execute, configure, deploy, start, stop, restart, upgrade, rollback,
  access_granted, access_denied, rate_limit_hit, cert_expired, key_rotated, audit_log_read, success,
  failure, partial, unauthorized, forbidden, timeout, error,
}

pub parse_action-action_value : (a : AuditAction) → parse_action (action_value a) ≡ ok a
unfolding parse_action find_action
parse_action-action_value login = refl
parse_action-action_value logout = refl
parse_action-action_value authenticate = refl
parse_action-action_value authorize = refl
parse_action-action_value create = refl
parse_action-action_value read = refl
parse_action-action_value update = refl
parse_action-action_value delete = refl
parse_action-action_value execute = refl
parse_action-action_value configure = refl
parse_action-action_value deploy = refl
parse_action-action_value start = refl
parse_action-action_value stop = refl
parse_action-action_value restart = refl
parse_action-action_value upgrade = refl
parse_action-action_value rollback = refl
parse_action-action_value access_granted = refl
parse_action-action_value access_denied = refl
parse_action-action_value rate_limit_hit = refl
parse_action-action_value cert_expired = refl
parse_action-action_value key_rotated = refl
parse_action-action_value audit_log_read = refl

pub parse_result-result_value : (r : AuditResult) → parse_result (result_value r) ≡ ok r
unfolding parse_result find_result
parse_result-result_value success = refl
parse_result-result_value failure = refl
parse_result-result_value partial = refl
parse_result-result_value unauthorized = refl
parse_result-result_value forbidden = refl
parse_result-result_value timeout = refl
parse_result-result_value error = refl

pub action_iff : (a b : AuditAction) → ((action_value a == action_value b) ≡ true) ↔ (a ≡ b)
action_iff a b = (
  λ h. ok-injective (
      sym (parse_action-action_value a)
      ∙ ap parse_action ((string_eq.beq_iff (action_value a) (action_value b)).0 h)
      ∙ parse_action-action_value b),
  λ h. (string_eq.beq_iff (action_value a) (action_value b)).1 (ap action_value h),
)

-- Actions are the keys of an index.
instance abbrev pub action_eq : Key AuditAction
action_eq = record { beq = λ a b. action_value a == action_value b; beq_iff = action_iff }

pub result_iff : (a b : AuditResult) → ((result_value a == result_value b) ≡ true) ↔ (a ≡ b)
result_iff a b = (
  λ h. ok-injective (
      sym (parse_result-result_value a)
      ∙ ap parse_result ((string_eq.beq_iff (result_value a) (result_value b)).0 h)
      ∙ parse_result-result_value b),
  λ h. (string_eq.beq_iff (result_value a) (result_value b)).1 (ap result_value h),
)

instance abbrev pub result_eq : Key AuditResult
result_eq = record { beq = λ a b. result_value a == result_value b; beq_iff = result_iff }

-- An event is read back from its dictionary unchanged.
pub from_dict-to_dict {ℓ} : {F D : Type ℓ} (e : AuditEvent F D) → from_dict (to_dict e) ≡ ok e
unfolding from_dict to_dict
from_dict-to_dict e =
    rw (parse_action-action_value e.action) (rw (parse_result-result_value e.result) refl)
