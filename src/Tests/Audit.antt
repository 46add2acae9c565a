-- ===== src/Tests/Audit.antt =====
-- Runs of the audit log. The digest of an event is its id after that of its predecessor.
use Prim.Native.String.{◌++◌}
use autonomous_rover_swarm_c.Tests.{nat_floats}
use autonomous_rover_swarm_c.Common.{
  ℕ, String, true, ◌≡◌, ◌↔◌, refl, Option, if◌then◌else◌, ltb, none, some, or_else, List, [], ◌∷◌,
  map, take, drop, keep,
}
use autonomous_rover_swarm_c.Common.Errors.{ok}
use autonomous_rover_swarm_c.Security.AuditEvent.{
  EventDict, HashInput, login, delete, success, forbidden,
}
use autonomous_rover_swarm_c.Security.AuditLog
use autonomous_rover_swarm_c.Security.AuditLog.{AuditLogger, Entry, empty_logger, verify_integrity}
use autonomous_rover_swarm_c.Security.AuditLog.Chain.{
  Call, log_all, IsConsistent, verify_integrity_iff,
}
use autonomous_rover_swarm_c.Security.AuditLog.Restart.{restart, line_of, restart-verified}
use autonomous_rover_swarm_c.Security.AuditQuery.{Conditions, query_events, latest_first}
use autonomous_rover_swarm_c.Security.AuditQuery.Refinement.{matches, query_events_by_scan}

abbrev digest : HashInput ℕ ℕ → String
digest h = or_else h.previous_hash "" ++ h.event_id

abbrev ada_login : Call ℕ ℕ
ada_login = record {
  now = 5;
  event_id = "e1";
  entry = record {
    actor = "ada";
    action = login;
    resource = "session";
    result = success;
    source_ip = none;
    user_agent = none;
    session_id = none;
    request_id = none;
    details = 0;
  };
}

abbrev bob_delete : Call ℕ ℕ
bob_delete = record {
  now = 6;
  event_id = "e2";
  entry = record {
    actor = "bob";
    action = delete;
    resource = "rover";
    result = forbidden;
    source_ip = none;
    user_agent = none;
    session_id = none;
    request_id = none;
    details = 0;
  };
}

-- With a buffer of one event, the third event trims the log.
abbrev calls : List (Call ℕ ℕ)
calls = ada_login ∷ bob_delete ∷ ada_login ∷ []

abbrev fresh : AuditLogger ℕ ℕ
fresh = empty_logger 1

fresh_made : AuditLog.new 32 1 ≡ ok fresh
unfolding AuditLog.new
fresh_made = refl

-- A line is the dictionary itself.
abbrev dumps : EventDict ℕ ℕ → EventDict ℕ ℕ
dumps d = d

-- Details above 9 come back as 0.
abbrev reads : ℕ → ℕ
reads n = if ltb 9 n then 0 else n

abbrev loads : EventDict ℕ ℕ → Option (EventDict ℕ ℕ)
loads d = some (record d { details = reads d.details })

restart-verified_example :
    (verify_integrity digest (log_all digest calls fresh).0 ≡ (true, []))
    × ((t : AuditLogger ℕ ℕ) × (restart dumps loads 32 1
            (map (line_of dumps loads) (log_all digest calls fresh).1)
          ≡ ok t)
        × (t.last_hash ≡ (log_all digest calls fresh).0.last_hash)
        × (verify_integrity digest (log_all digest (bob_delete ∷ []) t).0 ≡ (true, [])))
restart-verified_example =
    restart-verified digest dumps loads reads (λ d. refl) 32 1 fresh calls (bob_delete ∷ [])
      fresh_made (refl, (refl, (refl, tt)))

verify_integrity_iff_example :
    ((verify_integrity digest (log_all digest calls fresh).0).0 ≡ true)
    ↔ IsConsistent digest (log_all digest calls fresh).0.events
verify_integrity_iff_example = verify_integrity_iff digest (log_all digest calls fresh).0

abbrev by_ada : Conditions ℕ
by_ada = record {
  actor = some "ada";
  action = none;
  resource = none;
  result = none;
  start_time = some 1;
  end_time = none;
}

query_events_by_scan_example :
    query_events nat_floats by_ada 10 0 (log_all digest calls fresh).0
    ≡ ok (
        take 10 (
          drop 0 (
            latest_first nat_floats
              (keep (matches nat_floats by_ada) (log_all digest calls fresh).0.events))))
query_events_by_scan_example = query_events_by_scan nat_floats digest 1 calls by_ada 10 0
