-- ===== src/Examples/Classifiers.antt =====
-- The classifier and its thinking steps at concrete events.
use soothe_client_go.Prelude.{String, true, false, Option, none, [], ◌∷◌}
use soothe_client_go.Json.{str, obj, Fields, end, field}
use soothe_client_go.Protocol.{new_event, Message, event}
use soothe_client_go.Appkit.Classifier.{ClassifierConfig}

abbrev pub quiz_config : ClassifierConfig
quiz_config = record {
  deliverable_phases = ("quiz", true) ∷ [];
  min_deliverable_runes = 8;
  thinking_step_events = none;
  treat_status_idle_as_complete = true;
  treat_stream_end_as_complete = false;
  gate_turn_end_signals = false;
}

abbrev pub no_json : String → Option Fields
no_json text = none

abbrev pub answer : Message
answer = event (record new_event {
  loop_id = "l";
  turn_id = "l:1";
  namespace = str "soothe.output.quiz.responded";
  mode = "updates";
  data' = obj (field "content" (str "the answer") end);
})
