-- ===== src/Security/AuditQuery.antt =====
-- security/audit.py: the queries of `AuditLogger`, its statistics and export, and the methods that log
-- one kind of event. `offset` and `limit` are not negative.
pub mod Indexed
pub mod Refinement
use autonomous_rover_swarm_c.Common.{
  ℕ, zero, suc, ◌+◌, String, string_eq, Bool, true, false, not, ◌&&◌, ◌||◌, Option, none, some,
  or_else, List, [], ◌∷◌, ◌++◌, map, ltb, leb, eqb, length, take, drop, keep, if◌then◌else◌, ◌==◌,
  nat_eq, Key,
}
use autonomous_rover_swarm_c.Common.Errors.{Result, ok, err, value_error, index_error, ◌>>=◌}
use autonomous_rover_swarm_c.Common.Dict.{Dict, lookup, insert}
use autonomous_rover_swarm_c.Common.Sets.{member}
use autonomous_rover_swarm_c.Common.Floats.{Floats}
use autonomous_rover_swarm_c.Security.AuditEvent.{
  AuditAction, AuditResult, AuditEvent, EventDict, HashInput, to_dict, login, create, delete,
  success, unauthorized, forbidden,
}
use autonomous_rover_swarm_c.Security.AuditEvent.RoundTrip.{action_eq, result_eq}
use autonomous_rover_swarm_c.Security.AuditLog.{AuditLogger, Entry, log_event, verify_integrity}

-- `d.get(k, [])`
abbrev pub indices {ℓ} : {K : Type ℓ} ⦃k : Key K⦄ → K → Dict K (List ℕ) → List ℕ
indices k d = or_else (lookup k d) []

-- The candidates so far (`none` is no condition) cut with the numbers found, as sets.
abbrev pub narrow : Option (List ℕ) → List ℕ → Option (List ℕ)
narrow none found = some found
narrow (some candidates) found = some (keep (λ i. member i found) candidates)

-- `if k is not None: candidates = ... & set(index.get(k, []))`
abbrev pub narrow_by {ℓ} :
    {K : Type ℓ} ⦃k : Key K⦄ → Option K → Dict K (List ℕ) → Option (List ℕ) → Option (List ℕ)
narrow_by none d candidates = candidates
narrow_by (some k) d candidates = narrow candidates (indices k d)

-- `range(start, start + n)`
abbrev pub range : ℕ → ℕ → List ℕ
range start zero = []
range start (suc n) = start ∷ range (suc start) n

-- `sorted(...)` of a set of numbers: an insertion sort, in which a number stands once.
unfoldable pub insert_number : ℕ → List ℕ → List ℕ
insert_number n [] = n ∷ []
insert_number n (m ∷ ms) =
    let rest = insert_number n ms in
    if ltb n m then n ∷ m ∷ ms else if eqb n m then m ∷ ms else m ∷ rest

unfoldable pub sort_numbers : List ℕ → List ℕ
unfolding insert_number
sort_numbers [] = []
sort_numbers (n ∷ ns) = insert_number n (sort_numbers ns)

-- The conditions of `query_events`; `none` is a condition left out.
pub record Conditions {ℓ} (F : Type ℓ) : Type ℓ where
  pub actor : Option String
  pub action : Option AuditAction
  pub resource : Option String
  pub result : Option AuditResult
  pub start_time : Option F
  pub end_time : Option F

-- What `get_statistics` gives.
pub record Statistics {ℓ} (F : Type ℓ) : Type ℓ where
  pub total_events : ℕ
  pub oldest_event : Option F
  pub newest_event : Option F
  pub by_actor : Dict String ℕ
  pub by_action : Dict AuditAction ℕ
  pub by_result : Dict AuditResult ℕ
  pub integrity_verified : Option Bool

-- `{key: len(indices) for key, indices in d.items()}`
abbrev pub sizes {ℓ} : {K : Type ℓ} → Dict K (List ℕ) → Dict K ℕ
sizes [] = []
sizes ((k, is) ∷ d) = (k, length is) ∷ sizes d

-- `k is not None and not test(k)` holds of no condition that is left out
abbrev pub when_given {ℓ} : {A : Type ℓ} → (A → Bool) → Option A → Bool
when_given test none = true
when_given test (some a) = test a

module _ {ℓ} {F D : Type ℓ} where
  -- `self._events[idx]`
  unfoldable pub event_at : List (AuditEvent F D) → ℕ → Result (AuditEvent F D)
  event_at [] idx = err index_error
  event_at (e ∷ es) zero = ok e
  event_at (e ∷ es) (suc idx) = event_at es idx

  unfoldable pub candidate_indices : Conditions F → AuditLogger F D → List ℕ
  candidate_indices q s =
      or_else
        (narrow_by q.resource s.events_by_resource
          (narrow_by q.action s.events_by_action (narrow_by q.actor s.events_by_actor none)))
        (range 0 (length s.events))

  module _ (fl : Floats F) where
    -- The three tests of the loop of `query_events`.
    unfoldable pub wanted : Conditions F → AuditEvent F D → Bool
    wanted q e =
        when_given (λ r. e.result == r) q.result
        && when_given (λ t. not (fl.lt e.timestamp t)) q.start_time
        && when_given (λ t. not (fl.lt t e.timestamp)) q.end_time

    unfoldable pub matching_at :
        Conditions F → List (AuditEvent F D) → List ℕ → Result (List (AuditEvent F D))
    unfolding event_at wanted
    matching_at q es [] = ok []
    matching_at q es (idx ∷ more) = do
      event ← event_at es idx
      rest ← matching_at q es more
      ok (if wanted q event then event ∷ rest else rest)

    -- `matching.sort(key=lambda e: e.timestamp, reverse=True)`: stable, the latest first
    unfoldable pub insert_latest : AuditEvent F D → List (AuditEvent F D) → List (AuditEvent F D)
    insert_latest e [] = e ∷ []
    insert_latest e (d ∷ ds) =
        let rest = insert_latest e ds in
        if fl.lt e.timestamp d.timestamp then d ∷ rest else e ∷ d ∷ ds

    unfoldable pub latest_first : List (AuditEvent F D) → List (AuditEvent F D)
    unfolding insert_latest
    latest_first [] = []
    latest_first (e ∷ es) = insert_latest e (latest_first es)

    unfoldable pub query_events :
        Conditions F → (limit offset : ℕ) → AuditLogger F D → Result (List (AuditEvent F D))
    unfolding candidate_indices matching_at latest_first sort_numbers
    query_events q limit offset s = do
      matching ← matching_at q s.events (sort_numbers (candidate_indices q s))
      ok (take limit (drop offset (latest_first matching)))

  -- What `export_events` writes: one dictionary for each event; "jsonl" and "json" differ in layout
  -- only. The number of events is returned.
  unfoldable pub export_events :
      Option (List (AuditEvent F D)) → String → AuditLogger F D → Result (List (EventDict F D) × ℕ)
  unfolding to_dict
  export_events events format s =
      let chosen = or_else events s.events in
      if format == "jsonl" || format == "json"
      then ok (map to_dict chosen, length chosen)
      else err value_error

  abbrev pub count_results : List (AuditEvent F D) → Dict AuditResult ℕ → Dict AuditResult ℕ
  count_results [] counts = counts
  count_results (e ∷ es) counts =
      count_results es (insert e.result (or_else (lookup e.result counts) 0 + 1) counts)

  abbrev pub last_time : AuditEvent F D → List (AuditEvent F D) → F
  last_time e [] = e.timestamp
  last_time e (e' ∷ es) = last_time e' es

  abbrev pub statistics_of : List (AuditEvent F D) → AuditLogger F D → Bool → Statistics F
  statistics_of [] s verified = record {
    total_events = 0;
    oldest_event = none;
    newest_event = none;
    by_actor = [];
    by_action = [];
    by_result = [];
    integrity_verified = none;
  }
  statistics_of (e ∷ es) s verified = record {
    total_events = length (e ∷ es);
    oldest_event = some e.timestamp;
    newest_event = some (last_time e es);
    by_actor = sizes s.events_by_actor;
    by_action = sizes s.events_by_action;
    by_result = count_results (e ∷ es) [];
    integrity_verified = some verified;
  }

  unfoldable pub get_statistics : (HashInput F D → String) → AuditLogger F D → Statistics F
  unfolding verify_integrity
  get_statistics digest s = statistics_of s.events s (verify_integrity digest s).0

-- The arguments with which the five short methods call `log_event`.
module _ {ℓ} {D : Type ℓ} where
  abbrev plain : String → AuditAction → String → AuditResult → Option String → D → Entry D
  plain actor action resource result source_ip details = record {
    actor = actor;
    action = action;
    resource = resource;
    result = result;
    source_ip = source_ip;
    user_agent = none;
    session_id = none;
    request_id = none;
    details = details;
  }

  unfoldable pub login_success : String → Option String → D → Entry D
  login_success actor source_ip details = plain actor login "session" success source_ip details

  unfoldable pub login_failure : String → Option String → D → Entry D
  login_failure actor source_ip details =
      let name = if actor == "" then "unknown" else actor in
      plain name login "session" unauthorized source_ip details

  unfoldable pub access_denied : String → AuditAction → String → Option String → D → Entry D
  access_denied actor action resource source_ip details =
      plain actor action resource forbidden source_ip details

  unfoldable pub resource_create : String → String → Option String → D → Entry D
  resource_create actor resource source_ip details =
      plain actor create resource success source_ip details

  unfoldable pub resource_delete : String → String → Option String → D → Entry D
  resource_delete actor resource source_ip details =
      plain actor delete resource success source_ip details
