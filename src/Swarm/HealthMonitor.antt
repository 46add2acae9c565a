-- ===== src/Swarm/HealthMonitor.antt =====
-- swarm/health_monitor.py: the last report of each rover, and alerts. `F` is the floats, `M` the type
-- of metrics, `now` what `time.time()` returns in a call.
use autonomous_rover_swarm_c.Common.{
  ℕ, ◌+◌, ◌-◌, String, string_eq, Bool, true, false, not, ◌&&◌, ◌||◌, Option, List, [], ◌∷◌, ◌++◌,
  ltb, length, drop, if◌then◌else◌, ◌==◌,
}
use autonomous_rover_swarm_c.Common.Floats.{Floats}
use autonomous_rover_swarm_c.Common.Dict.{Dict, lookup, insert, values}

pub record Health {ℓ} (F M : Type ℓ) : Type ℓ where
  pub rover_id : String
  pub status : String
  pub last_seen : F
  pub metrics : Option M

pub record Alert {ℓ} (F M : Type ℓ) : Type ℓ where
  pub rover_id : String
  pub alert_type : String
  pub details : Option M
  pub timestamp : F

-- `SwarmHealthMonitor`
pub record HealthMonitor {ℓ} (F M : Type ℓ) : Type ℓ where
  pub node_id : String
  pub rover_health : Dict String (Health F M)
  pub running : Bool
  pub alerts : List (Alert F M)

-- `xs[-n:]`; for 0 it is the whole list.
unfoldable pub last {ℓ} : {A : Type ℓ} → ℕ → List A → List A
last n xs = if ltb 0 n then drop (length xs - n) xs else xs

module _ {ℓ} {F M : Type ℓ} where
  unfoldable pub new : String → HealthMonitor F M
  new node_id = record { node_id = node_id; rover_health = []; running = false; alerts = [] }

  -- The last 500 alerts are kept when there are more than 1000.
  unfoldable pub add_alert : String → String → Option M → F → HealthMonitor F M → HealthMonitor F M
  unfolding last
  add_alert rover_id alert_type details now s =
      let alert : Alert F M = record {
        rover_id = rover_id;
        alert_type = alert_type;
        details = details;
        timestamp = now;
      } in
      let alerts = s.alerts ++ (alert ∷ []) in
      record s { alerts = if ltb 1000 (length alerts) then last 500 alerts else alerts }

  -- `seen` is the time of the report, `now` that of the alert.
  unfoldable pub report_health :
      String → String → Option M → (seen now : F) → HealthMonitor F M → HealthMonitor F M
  unfolding add_alert
  report_health rover_id status metrics seen now s =
      let health : Health F M = record {
        rover_id = rover_id;
        status = status;
        last_seen = seen;
        metrics = metrics;
      } in
      let stored = record s { rover_health = insert rover_id health s.rover_health } in
      if status == "error" then add_alert rover_id "error" metrics now stored else stored

  unfoldable pub get_health : String → HealthMonitor F M → Option (Health F M)
  get_health rover_id s = lookup rover_id s.rover_health

  unfoldable pub recent_alerts : ℕ → HealthMonitor F M → List (Alert F M)
  unfolding last
  recent_alerts count s = last count s.alerts

  unfoldable pub start : HealthMonitor F M → HealthMonitor F M
  start s = record s { running = true }

  unfoldable pub stop : HealthMonitor F M → HealthMonitor F M
  stop s = record s { running = false }

  abbrev count : (Health F M → Bool) → List (Health F M) → ℕ
  count test [] = 0
  count test (h ∷ hs) = (if test h then 1 else 0) + count test hs

  abbrev choose : (Health F M → Bool) → List (Health F M) → List (Health F M)
  choose test [] = []
  choose test (h ∷ hs) = let rest = choose test hs in if test h then h ∷ rest else rest

  module _ (fl : Floats F) where
    open fl use {of_nat, sub, lt, le}

    -- `STALE_ROVER_TIMEOUT` is 30 seconds.
    abbrev pub is_healthy : F → Health F M → Bool
    is_healthy now h = h.status == "online" && lt (sub now h.last_seen) (of_nat 30)

    abbrev pub is_unhealthy : F → Health F M → Bool
    is_unhealthy now h = not (h.status == "online") || le (of_nat 30) (sub now h.last_seen)

    unfoldable pub all_healthy : F → HealthMonitor F M → List (Health F M)
    all_healthy now s = choose (is_healthy now) (values s.rover_health)

    unfoldable pub unhealthy_rovers : F → HealthMonitor F M → List (Health F M)
    unhealthy_rovers now s = choose (is_unhealthy now) (values s.rover_health)

    -- `swarm_health_summary`: total, online, offline, error, stale, alerts
    unfoldable pub swarm_health_summary : F → HealthMonitor F M → ℕ × ℕ × ℕ × ℕ × ℕ × ℕ
    swarm_health_summary now s =
        let all_rov = values s.rover_health in
        (
          length all_rov,
          count (λ h. h.status == "online") all_rov,
          count (λ h. h.status == "offline") all_rov,
          count (λ h. h.status == "error") all_rov,
          count (λ h. le (of_nat 30) (sub now h.last_seen)) all_rov,
          length s.alerts,
        )
