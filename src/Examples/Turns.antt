-- ===== src/Examples/Turns.antt =====
-- Turn ids, gates and boundaries.
use soothe_client_go.Prelude.{
  String, ◌≡◌, ◌≢◌, refl, true, false, some, List, [], ◌∷◌, arith, eq_iff, fold, equal_fold,
  trim_space, contains, ◌==◌,
}
use soothe_client_go.Prelude.Int.{pos}
use soothe_client_go.Prelude.Decimal.{atoi}
use soothe_client_go.Json.{Value, null, str, obj, end, field, get, as_string}
use soothe_client_go.Protocol.{
  new_envelope, new_event, new_status, EventMessage, Envelope, Message, event, status,
}
use soothe_client_go.TurnId.{
  split, last_part, format_turn_id, parse_turn_generation, frame_turn_id, turn_ids_match,
  is_turn_terminal_allowed, is_idle_terminal_allowed,
}
use soothe_client_go.TurnId.RoundTrip.{parse_turn_generation-format_turn_id}
use soothe_client_go.Stream.{is_turn_end_custom_data, is_turn_progress_chunk}
use soothe_client_go.Appkit.Lifecycle.{takes_over, allow_stream_end, allow_idle_complete, observe}
use soothe_client_go.Appkit.Lifecycle.Binding.{Follows, observe_all, observe_all-Follows}
use soothe_client_go.Appkit.Boundary.{TurnBoundary, new_boundary, feed, feed_all}
use soothe_client_go.Appkit.Boundary.Safety.{SaidBy, Justified, feed_all-Justified}
use soothe_client_go.Appkit.Boundary.Isolation.{feed-status_of_other_turn}

-- A literal's inequality.
differ : (s t : String) → (s == t) ≡ false → s ≢ t
differ s t h e = cc ((eq_iff s t).1 e)

round_trip_example : parse_turn_generation (format_turn_id " loop " (pos 12)) ≡ pos 12
unfolding trim_space
round_trip_example =
    parse_turn_generation-format_turn_id " loop " 12 (differ _ "" refl) (omega arith) (omega arith)

abbrev running : String → Message
running turn = status (record new_status { state = "Running"; loop_id = "l"; turn_id = turn })

abbrev idle : String → Message
idle turn = status (record new_status { state = "idle"; loop_id = "l"; turn_id = turn })

abbrev chunk : Message
chunk = event (record new_event {
  loop_id = "l";
  turn_id = "l:2";
  namespace = null;
  mode = "messages";
  data' = null;
})

abbrev stream_end_data : Value
stream_end_data = obj (field "type" (str "soothe.stream.end") end)

abbrev stream_end_of : String → EventMessage
stream_end_of turn = record new_event {
  loop_id = "l";
  turn_id = turn;
  namespace = null;
  mode = "custom";
  data' = stream_end_data;
}

abbrev turn : List Message
turn = running "l:2" ∷ chunk ∷ idle "l:1" ∷ event (stream_end_of "l:2") ∷ []

turn_ends : (feed_all new_boundary turn).ended ≡ true
unfolding feed_all observe takes_over trim_space allow_stream_end allow_idle_complete frame_turn_id
    is_turn_terminal_allowed is_idle_terminal_allowed turn_ids_match parse_turn_generation atoi
    last_part split contains is_turn_end_custom_data is_turn_progress_chunk equal_fold fold get
    as_string
turn_ends = refl

feed_all-Justified_example :
    SaidBy turn (feed_all new_boundary turn).reason
    × Justified (feed_all new_boundary turn).gate (feed_all new_boundary turn).reason
feed_all-Justified_example = feed_all-Justified turn turn_ends

-- A boundary in the middle of turn 2.
abbrev bound : TurnBoundary
bound = record {
  gate = record {
    saw_running = true;
    saw_turn_progress = true;
    expected_turn_id = "l:2";
    cancellation_seen = false;
  };
  ended = false;
  reason = "";
}

feed-status_of_other_turn_example :
    (feed bound
      (status (record new_status { state = "idle"; loop_id = "l"; turn_id = "l:1" }))).0.ended
    ≡ false
unfolding trim_space turn_ids_match
feed-status_of_other_turn_example =
    feed-status_of_other_turn bound
      (record new_status { state = "idle"; loop_id = "l"; turn_id = "l:1" }) refl
      (differ "l:2" "" refl) (differ "l:1" "" refl) refl

-- The frame of a stream end of turn 2, as the daemon wraps it.
abbrev wrapped : Envelope
wrapped = record (new_envelope "next") {
  payload = some (
      field "mode" (str "event") (
        field "data"
          (obj (
            field "type" (str "event") (
              field "mode" (str "custom")
                (field "turn_id" (str "l:2") (field "data" stream_end_data end)))))
          end));
}

abbrev projected : EventMessage
projected = record new_event {
  loop_id = "";
  turn_id = "";
  namespace = null;
  mode = "custom";
  data' = stream_end_data;
}

observe_all-Follows_example : Follows bound.gate (observe_all bound.gate turn)
observe_all-Follows_example = observe_all-Follows bound.gate turn
