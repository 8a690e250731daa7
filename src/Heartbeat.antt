-- ===== src/Heartbeat.antt =====
-- heartbeat.go: whether the daemon lives, by its heartbeats. Times are seconds since some start, and
-- the clock of a call is its argument.
pub mod Waiting
use soothe_client_go.Prelude.{
  ℕ, ◌+◌, ◌-◌, String, Bool, true, false, not, ◌&&◌, ◌||◌, Option, none, some, List, [], ◌∷◌, ◌==◌,
  ltb, eqb, if◌then◌else◌,
}
use soothe_client_go.Json.{Value, str, obj, Fields, get, text_of}

-- HeartbeatTracker; `last_heartbeat` is `none` for the zero time
pub record HeartbeatTracker : Type 0 where
  pub last_heartbeat : Option ℕ
  pub daemon_state : String
  pub heartbeat_loop_id : String
  pub alive_threshold : ℕ
  pub start_time : ℕ

-- DaemonHealth
pub record DaemonHealth : Type 0 where
  pub last_heartbeat : Option ℕ
  pub state : String
  pub loop_id : String
  pub is_alive : Bool

-- NewHeartbeatTracker
abbrev pub new_heartbeat_tracker : ℕ → HeartbeatTracker
new_heartbeat_tracker now = record {
  last_heartbeat = none;
  daemon_state = "";
  heartbeat_loop_id = "";
  alive_threshold = 15;
  start_time = now;
}

-- NewHeartbeatTrackerWithThreshold
abbrev pub new_heartbeat_tracker_with_threshold : ℕ → ℕ → HeartbeatTracker
new_heartbeat_tracker_with_threshold threshold now = record (new_heartbeat_tracker now) {
  alive_threshold = threshold;
}

abbrev pub text_or : Value → String → String
text_or (str s) old = s
text_or _ old = old

-- Update
unfoldable pub update : ℕ → Fields → HeartbeatTracker → HeartbeatTracker
update now data' t = record t {
  last_heartbeat = some now;
  daemon_state = text_or (get "state" data') t.daemon_state;
  heartbeat_loop_id = text_or (get "loop_id" data') t.heartbeat_loop_id;
}

-- `timeSinceLast < t.aliveThreshold`: the zero time is longer ago than any threshold
abbrev pub is_recent : ℕ → ℕ → Option ℕ → Bool
is_recent now threshold none = false
is_recent now threshold (some last) = ltb (now - last) threshold

-- GetHealth
unfoldable pub get_health : ℕ → HeartbeatTracker → DaemonHealth
get_health now t = record {
  last_heartbeat = t.last_heartbeat;
  state = t.daemon_state;
  loop_id = t.heartbeat_loop_id;
  is_alive = is_recent now t.alive_threshold t.last_heartbeat || ltb (now - t.start_time) 20;
}

abbrev pub is_processing : HeartbeatTracker → Bool
is_processing t = t.daemon_state == "running"

abbrev pub is_idle : HeartbeatTracker → Bool
is_idle t = t.daemon_state == "idle"

abbrev pub set_alive_threshold : ℕ → HeartbeatTracker → HeartbeatTracker
set_alive_threshold threshold t = record t { alive_threshold = threshold }

-- Reset
unfoldable pub reset : ℕ → HeartbeatTracker → HeartbeatTracker
reset now t = record t {
  last_heartbeat = none;
  daemon_state = "";
  heartbeat_loop_id = "";
  start_time = now;
}

abbrev pub ignored : Value → Bool
ignored (obj data') = false
ignored _ = false

-- ProcessHeartbeatEvent, which leaves the tracker as it is and returns false in each of its cases
unfoldable pub process_heartbeat_event : Fields → Bool
process_heartbeat_event event =
    if not (text_of "type" event == "event") then false else ignored (get "data" event)

-- HeartbeatError
pub record HeartbeatError : Type 0 where
  pub last_heartbeat : Option ℕ
  pub state : String

-- What the select of WaitForAlive takes, with the tracker at that time
pub data Tick : Type 0 where
  deadline check : (now : ℕ) (tracker : HeartbeatTracker) → Tick

-- How a wait stands: it goes on, or it has returned nil or an error
pub data Wait : Type 0 where
  waiting : Wait
  alive : Wait
  timed_out : HeartbeatError → Wait

-- WaitForAlive
unfoldable pub wait_for_alive : List Tick → Wait
unfolding get_health
wait_for_alive [] = waiting
wait_for_alive (deadline now t ∷ ticks) =
    let health = get_health now t in
    timed_out (record { last_heartbeat = health.last_heartbeat; state = health.state })
wait_for_alive (check now t ∷ ticks) =
    let rest = wait_for_alive ticks in if (get_health now t).is_alive then alive else rest
