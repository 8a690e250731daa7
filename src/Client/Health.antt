-- ===== src/Client/Health.antt =====
-- client.go: the heartbeat tracker of a client, where it is enabled. Each call has the time of its clock.
use soothe_client_go.Prelude.{ℕ, Bool, false, Option, none, some}
use soothe_client_go.Heartbeat.{
  HeartbeatTracker, DaemonHealth, new_heartbeat_tracker, new_heartbeat_tracker_with_threshold,
  get_health,
}

-- EnableHeartbeatTracking keeps a tracker that is there; NewClientWithHeartbeat calls it for a new
-- client, which has none.
unfoldable pub enable_heartbeat_tracking : ℕ → Option HeartbeatTracker → Option HeartbeatTracker
enable_heartbeat_tracking now (some t) = some t
enable_heartbeat_tracking now none = some (new_heartbeat_tracker now)

unfoldable pub enable_heartbeat_tracking_with_threshold :
    ℕ → ℕ → Option HeartbeatTracker → Option HeartbeatTracker
enable_heartbeat_tracking_with_threshold threshold now tracker =
    some (new_heartbeat_tracker_with_threshold threshold now)

unfoldable pub disable_heartbeat_tracking : Option HeartbeatTracker → Option HeartbeatTracker
disable_heartbeat_tracking tracker = none

-- GetDaemonHealth
unfoldable pub get_daemon_health : ℕ → Option HeartbeatTracker → Option DaemonHealth
unfolding get_health
get_daemon_health now none = none
get_daemon_health now (some t) = some (get_health now t)

-- IsDaemonAlive
unfoldable pub is_daemon_alive : ℕ → Option HeartbeatTracker → Bool
unfolding get_daemon_health
is_daemon_alive now tracker = elim (get_daemon_health now tracker) [
  | none ↦ false
  | some health ↦ health.is_alive
]
