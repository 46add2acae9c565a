-- ===== src/Security/AuditLog.antt =====
-- security/audit.py: `AuditLogger`, a chain of hashed events with indexes by actor, action and
-- resource. `digest` is the hash of an input under the secret key (see AuditEvent). What is written to
-- the log file and handed to the callback is the event that a call returns.
pub mod Chain
pub mod Restart
use autonomous_rover_swarm_c.Common.{
  ℕ, zero, suc, ◌+◌, ◌-◌, ◌*◌, String, string_eq, Bool, true, false, not, ◌&&◌, Option, none, some,
  or_else, List, [], ◌∷◌, ◌++◌, ltb, leb, eqb, length, take, drop, keep, if◌then◌else◌, ◌==◌,
  nat_eq, Key,
}
use autonomous_rover_swarm_c.Common.Errors.{
  Result, ok, err, security_error, value_error, index_error, ◌>>=◌,
}
use autonomous_rover_swarm_c.Common.Dict.{Dict, lookup, insert}
use autonomous_rover_swarm_c.Common.Sets.{member}
use autonomous_rover_swarm_c.Common.Floats.{Floats}
use autonomous_rover_swarm_c.Common.Text.{named}
use autonomous_rover_swarm_c.Security.AuditEvent.{
  AuditAction, AuditResult, AuditEvent, EventDict, HashInput, calculate_hash, to_dict, login,
  create, delete, success, unauthorized, forbidden,
}
use autonomous_rover_swarm_c.Security.AuditEvent.RoundTrip.{action_eq, result_eq}

pub record AuditLogger {ℓ} (F D : Type ℓ) : Type ℓ where
  pub max_buffer_size : ℕ
  pub events : List (AuditEvent F D)
  pub last_hash : Option String
  pub events_by_actor : Dict String (List ℕ)
  pub events_by_action : Dict AuditAction (List ℕ)
  pub events_by_resource : Dict String (List ℕ)

-- The arguments of `log_event`.
pub record Entry {ℓ} (D : Type ℓ) : Type ℓ where
  pub actor : String
  pub action : AuditAction
  pub resource : String
  pub result : AuditResult
  pub source_ip : Option String
  pub user_agent : Option String
  pub session_id : Option String
  pub request_id : Option String
  pub details : D

-- What `verify_integrity` reports, with the number and the id of the event.
pub data Mismatch : Type 0 where
  hash_mismatch : ℕ → String → Mismatch
  link_mismatch : ℕ → String → (expected got : Option String) → Mismatch

-- `if k not in d: d[k] = []`, then `d[k].append(idx)`
unfoldable pub push {ℓ} : {K : Type ℓ} ⦃k : Key K⦄ → K → ℕ → Dict K (List ℕ) → Dict K (List ℕ)
push k idx d = insert k (or_else (lookup k d) [] ++ (idx ∷ [])) d

-- `a != b`, on hashes that may be missing
abbrev pub same_hash : Option String → Option String → Bool
same_hash none none = true
same_hash (some a) (some b) = a == b
same_hash _ _ = false

module _ {ℓ} {F D : Type ℓ} where
  abbrev pub empty_logger : ℕ → AuditLogger F D
  empty_logger max_buffer_size = record {
    max_buffer_size = max_buffer_size;
    events = [];
    last_hash = none;
    events_by_actor = [];
    events_by_action = [];
    events_by_resource = [];
  }

  -- `__init__` without a log file; a short secret key raises. `key_size` is its length in bytes.
  unfoldable pub new : ℕ → ℕ → Result (AuditLogger F D)
  new key_size max_buffer_size =
      if ltb key_size 32 then err security_error else ok (empty_logger max_buffer_size)

  unfoldable pub index_event : ℕ → AuditEvent F D → AuditLogger F D → AuditLogger F D
  unfolding push
  index_event idx event s = record s {
    events_by_actor = push event.actor idx s.events_by_actor;
    events_by_action = push event.action idx s.events_by_action;
    events_by_resource = push event.resource idx s.events_by_resource;
  }

  -- `self._events.append(event)` and the index of the new event
  unfoldable pub append_event : AuditEvent F D → AuditLogger F D → AuditLogger F D
  unfolding index_event
  append_event event s =
      let kept = record s { events = s.events ++ (event ∷ []); last_hash = event.hash } in
      index_event (length s.events) event kept

  -- `_load_from_file`: the events of the lines that are not blank, up to the first line that cannot
  -- be read, which is `none`.
  unfoldable pub load_from_file : List (Option (AuditEvent F D)) → AuditLogger F D → AuditLogger F D
  unfolding append_event
  load_from_file [] s = s
  load_from_file (none ∷ lines) s = s
  load_from_file (some event ∷ lines) s = load_from_file lines (append_event event s)

  -- The loop of `_trim_buffer` over `enumerate(self._events)`, from `idx` on.
  unfoldable pub index_all : ℕ → List (AuditEvent F D) → AuditLogger F D → AuditLogger F D
  unfolding index_event
  index_all idx [] s = s
  index_all idx (event ∷ more) s = index_all (suc idx) more (index_event idx event s)

  -- The kept events, before they are indexed again.
  abbrev pub cleared : List (AuditEvent F D) → AuditLogger F D → AuditLogger F D
  cleared kept s = record s {
    events = kept;
    events_by_actor = [];
    events_by_action = [];
    events_by_resource = [];
  }

  unfoldable pub trim_buffer : AuditLogger F D → AuditLogger F D
  unfolding index_all
  trim_buffer s =
      let kept = drop (length s.events - s.max_buffer_size) s.events in
      if leb (length s.events) s.max_buffer_size then s else index_all 0 kept (cleared kept s)

  module _ (digest : HashInput F D → String) where
    -- The event that `log_event` makes; `now` is the time and `event_id` the random id.
    unfoldable pub make_event : F → String → Entry D → Option String → AuditEvent F D
    unfolding calculate_hash
    make_event now event_id e last_hash =
        let event : AuditEvent F D = record {
          timestamp = now;
          event_id = event_id;
          actor = e.actor;
          action = e.action;
          resource = e.resource;
          result = e.result;
          source_ip = e.source_ip;
          user_agent = e.user_agent;
          session_id = e.session_id;
          request_id = e.request_id;
          details = e.details;
          previous_hash = last_hash;
          hash = none;
        } in
        record event { hash = some (calculate_hash digest event last_hash) }

    unfoldable pub log_event :
        F → String → Entry D → AuditLogger F D → AuditLogger F D × AuditEvent F D
    unfolding make_event append_event trim_buffer
    log_event now event_id e s =
        let event = make_event now event_id e s.last_hash in
        let grown = append_event event s in
        (
          if ltb (s.max_buffer_size * 2) (length grown.events) then trim_buffer grown else grown,
          event,
        )

    -- `event.hash != event.calculate_hash(secret_key, event.previous_hash)`
    unfoldable pub hash_errors : ℕ → AuditEvent F D → List Mismatch
    unfolding calculate_hash
    hash_errors i e =
        if same_hash e.hash (some (calculate_hash digest e e.previous_hash))
        then []
        else hash_mismatch i e.event_id ∷ []

    unfoldable pub link_errors : ℕ → AuditEvent F D → AuditEvent F D → List Mismatch
    link_errors i prev curr =
        if same_hash curr.previous_hash prev.hash
        then []
        else link_mismatch i curr.event_id prev.hash curr.previous_hash ∷ []

    -- The loop over the events from the i-th on, after `prev`.
    unfoldable pub verify_from : ℕ → AuditEvent F D → List (AuditEvent F D) → List Mismatch
    unfolding hash_errors link_errors
    verify_from i prev [] = []
    verify_from i prev (curr ∷ more) =
        link_errors i prev curr ++ (hash_errors i curr ++ verify_from (suc i) curr more)

    -- Fewer than two events are not looked at.
    verify_events : List (AuditEvent F D) → List Mismatch
    unfolding verify_from
    verify_events [] = []
    verify_events (e ∷ []) = []
    verify_events (e ∷ e' ∷ more) = hash_errors 0 e ++ verify_from 1 e (e' ∷ more)

    unfoldable pub verify_integrity : AuditLogger F D → Bool × List Mismatch
    unfolding verify_events
    verify_integrity s = let errors = verify_events s.events in (eqb (length errors) 0, errors)
