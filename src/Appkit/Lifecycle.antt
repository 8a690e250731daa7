-- ===== src/Appkit/Lifecycle.antt =====
-- appkit/turn_lifecycle_gate.go: what one turn has seen so far.
pub mod Binding
use soothe_client_go.Prelude.{
  String, Bool, true, false, not, ◌&&◌, ◌||◌, ◌==◌, trim_space, equal_fold, if◌then◌else◌,
}
use soothe_client_go.Prelude.Int.{ℤ, is_positive, is_negative, leb_ℤ}
use soothe_client_go.Json.{Fields, get, text_of}
use soothe_client_go.Protocol.{EventMessage, StatusResponse, Message, event, status, raw}
use soothe_client_go.Stream.{is_turn_progress_chunk}
use soothe_client_go.TurnId.{
  parse_turn_generation, frame_turn_id, is_turn_terminal_allowed, is_idle_terminal_allowed,
}

-- TurnLifecycleGate
pub record TurnLifecycleGate : Type 0 where
  pub saw_running : Bool
  pub saw_turn_progress : Bool
  pub expected_turn_id : String
  pub cancellation_seen : Bool

abbrev pub new_gate : TurnLifecycleGate
new_gate = record {
  saw_running = false;
  saw_turn_progress = false;
  expected_turn_id = "";
  cancellation_seen = false;
}

-- Whether a running turn `tid` takes the place of the bound id: none is bound, or it is not older.
unfoldable pub takes_over : String → String → Bool
takes_over expected tid =
    let new_gen = parse_turn_generation tid in
    let old_gen = parse_turn_generation expected in
    expected == "" || (is_positive new_gen && (is_negative old_gen || leb_ℤ old_gen new_gen))

-- The `running` case of Observe, which stands in it twice.
unfoldable pub observe_running : String → TurnLifecycleGate → TurnLifecycleGate
observe_running tid g =
    if not (tid == "") && takes_over g.expected_turn_id tid
    then record g {
      saw_running = true;
      saw_turn_progress =
          if not (g.expected_turn_id == "") && not (tid == g.expected_turn_id)
          then false
          else g.saw_turn_progress;
      expected_turn_id = tid;
    }
    else record g { saw_running = true }

unfoldable pub observe_progress : Bool → TurnLifecycleGate → TurnLifecycleGate
observe_progress progress g = if progress then record g { saw_turn_progress = true } else g

unfoldable pub observe_raw : Fields → TurnLifecycleGate → TurnLifecycleGate
unfolding observe_running observe_progress
observe_raw m g =
    let typ = text_of "type" m in
    let mode = text_of "mode" m in
    let running =
      if typ == "status" && text_of "state" m == "running"
      then observe_running (frame_turn_id m) g
      else g in
    if typ == "event" || not (mode == "")
    then observe_progress (is_turn_progress_chunk mode (get "data" m)) running
    else running

-- Observe
unfoldable pub observe : TurnLifecycleGate → Message → TurnLifecycleGate
unfolding observe_raw
observe g (status m) =
    if equal_fold (trim_space m.state) "running"
    then observe_running (trim_space m.turn_id) g
    else g
observe g (event m) = observe_progress (is_turn_progress_chunk m.mode m.data') g
observe g (raw m) = observe_raw m g
observe g _ = g

-- AllowStreamEnd
unfoldable pub allow_stream_end : TurnLifecycleGate → String → Bool
allow_stream_end g frame_turn =
    is_turn_terminal_allowed g.expected_turn_id frame_turn g.saw_running g.saw_turn_progress

-- AllowIdleComplete
unfoldable pub allow_idle_complete : TurnLifecycleGate → String → Bool
allow_idle_complete g frame_turn =
    is_idle_terminal_allowed g.expected_turn_id frame_turn g.saw_running g.saw_turn_progress
      g.cancellation_seen
