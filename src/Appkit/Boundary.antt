-- ===== src/Appkit/Boundary.antt =====
-- appkit/turn_boundary.go: when the daemon's turn has ended.
pub mod Safety
pub mod Isolation
pub mod Projected
use soothe_client_go.Prelude.{
  String, Bool, true, false, not, ◌&&◌, ◌||◌, List, [], ◌∷◌, ◌==◌, trim_space, equal_fold,
  contains_key, if◌then◌else◌,
}
use soothe_client_go.Json.{Value, Fields, get, text_of}
use soothe_client_go.Events.{stream_end}
use soothe_client_go.Protocol.{EventMessage, StatusResponse, Message, event, status, raw}
use soothe_client_go.Stream.{is_turn_end_custom_data}
use soothe_client_go.TurnId.{frame_turn_id, turn_ids_match}
use soothe_client_go.Appkit.Lifecycle.{
  TurnLifecycleGate, new_gate, observe, allow_stream_end, allow_idle_complete,
}

abbrev pub turn_end_idle : String
turn_end_idle = "status.idle"

abbrev pub turn_end_stopped : String
turn_end_stopped = "status.stopped"

-- TurnBoundary
pub record TurnBoundary : Type 0 where
  pub gate : TurnLifecycleGate
  pub ended : Bool
  pub reason : String

abbrev pub new_boundary : TurnBoundary
new_boundary = record { gate = new_gate; ended = false; reason = "" }

-- `return b.mark(reason)`, and `return false, ""`
unfoldable pub mark : String → TurnBoundary → TurnBoundary × (Bool × String)
mark reason b = (record b { ended = true; reason = reason }, (true, reason))

unfoldable pub go_on : TurnBoundary → TurnBoundary × (Bool × String)
go_on b = (b, (false, ""))

-- The tests on a status frame; `stopped` and `idle` are the tests on its state.
unfoldable pub feed_status : Bool → Bool → String → TurnBoundary → TurnBoundary × (Bool × String)
unfolding mark go_on
feed_status stopped idle frame_turn b =
    let expected = b.gate.expected_turn_id in
    if stopped && b.gate.saw_running
    then (if not (expected == "") && not (turn_ids_match expected frame_turn)
        then go_on b
        else mark turn_end_stopped b)
    else if idle && allow_idle_complete b.gate frame_turn
    then mark turn_end_idle b
    else go_on b

-- `if tid := soothe.FrameTurnID(data); tid != "" { frameTurn = tid }`
unfoldable pub data_turn : String → Value → String
data_turn frame_turn (Value.obj m) =
    let tid = frame_turn_id m in if not (tid == "") then tid else frame_turn
data_turn frame_turn _ = frame_turn

-- The tests on an event frame.
unfoldable pub feed_event : String → Value → String → TurnBoundary → TurnBoundary × (Bool × String)
unfolding mark go_on
feed_event mode data' frame_turn b =
    if mode == "custom" && (is_turn_end_custom_data data' && allow_stream_end b.gate frame_turn)
    then mark stream_end b
    else go_on b

-- A raw map of type `status` whose tests do not end the turn goes on to the event test.
unfoldable pub feed_raw : Fields → TurnBoundary → TurnBoundary × (Bool × String)
unfolding feed_status feed_event data_turn
feed_raw m b =
    let typ = text_of "type" m in
    let mode = text_of "mode" m in
    let data' = get "data" m in
    let state = text_of "state" m in
    let frame_turn = frame_turn_id m in
    let after_status =
      if typ == "event" || not (mode == "")
      then feed_event mode data' (data_turn frame_turn data') b
      else go_on b in
    let expected = b.gate.expected_turn_id in
    if typ == "status" && (state == "stopped" && b.gate.saw_running)
    then (if not (expected == "") && not (turn_ids_match expected frame_turn)
        then go_on b
        else mark turn_end_stopped b)
    else if typ == "status" && (state == "idle" && allow_idle_complete b.gate frame_turn)
    then mark turn_end_idle b
    else after_status

-- The type switch of Feed.
unfoldable pub feed_observed : Message → TurnBoundary → TurnBoundary × (Bool × String)
unfolding feed_raw
feed_observed (status m) b =
    let state = trim_space m.state in
    feed_status (equal_fold state "stopped") (equal_fold state "idle") (trim_space m.turn_id) b
feed_observed (event m) b = feed_event m.mode m.data' (data_turn (trim_space m.turn_id) m.data') b
feed_observed (raw m) b = feed_raw m b
feed_observed _ b = go_on b

-- Feed
unfoldable pub feed : TurnBoundary → Message → TurnBoundary × (Bool × String)
unfolding feed_observed
feed b msg =
    if b.ended
    then (b, (true, b.reason))
    else feed_observed msg (record b { gate = observe b.gate msg })

-- A turn's messages, one after the other.
unfoldable pub feed_all : TurnBoundary → List Message → TurnBoundary
unfolding feed
feed_all b [] = b
feed_all b (msg ∷ msgs) = feed_all (feed b msg).0 msgs

-- IsDaemonTurnEndEvent
unfoldable pub is_daemon_turn_end_event : String → Bool
is_daemon_turn_end_event completion_event =
    contains_key (trim_space completion_event) (stream_end ∷ turn_end_idle ∷ turn_end_stopped ∷ [])
