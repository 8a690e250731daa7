-- ===== src/Appkit/Classifier.antt =====
-- appkit/classifier.go: what a decoded event means for the turn of an application.
pub mod Content
pub mod Process
pub mod Earned
pub mod Deliverable
pub mod Replies
use Prim.Native.String.{◌++◌ as concat}
use soothe_client_go.Prelude.{
  ℕ, ◌+◌, String, Bool, true, false, not, ◌&&◌, ◌||◌, Option, none, some, List, [], ◌∷◌, ◌==◌,
  contains_key, lookup, trim_space, rune_count, drop_prefix, leb, eqb, contains, has_prefix,
  equal_fold, if◌then◌else◌,
}
use soothe_client_go.Prelude.Int.{ℤ, negsuc}
use soothe_client_go.Prelude.Decimal.{itoa}
use soothe_client_go.Json.{Value, null, str, obj, arr, Items, nil, cons, Fields, get, has, text_of}
use soothe_client_go.Events.{stream_end}
use soothe_client_go.Stream.{is_turn_end_custom_data}
use soothe_client_go.Protocol.{
  EventMessage, StatusResponse, Envelope, ErrorObject, ErrorResponse, Message, event, status,
  envelope, error_response, event_type, LoopAiMessage, loop_ai_message, loop_ai_text,
}
use soothe_client_go.Appkit.Lifecycle.{
  TurnLifecycleGate, allow_stream_end, allow_idle_complete, observe,
}
use soothe_client_go.Appkit.Boundary.{data_turn}
use soothe_client_go.Appkit.ThinkingStep.{allows, extract_thinking_step}

-- ChatEventTerminal
pub data ChatEventTerminal : Type 0 where
  continues deliverable_complete failed_complete : ChatEventTerminal

-- ChatEventResult
pub record ChatEventResult : Type 0 where
  pub content : String
  pub thinking_step : String
  pub terminal : ChatEventTerminal
  pub completion_event : String
  pub err : Option String

-- ClassifierConfig
pub record ClassifierConfig : Type 0 where
  pub deliverable_phases : List (String × Bool)
  pub min_deliverable_runes : ℕ
  pub thinking_step_events : Option (List (String × Bool))
  pub treat_status_idle_as_complete : Bool
  pub treat_stream_end_as_complete : Bool
  pub gate_turn_end_signals : Bool

-- NewEventClassifier, which panics without DeliverablePhases
abbrev pub new_event_classifier : ClassifierConfig → ClassifierConfig
new_event_classifier cfg = record cfg {
  min_deliverable_runes = if eqb cfg.min_deliverable_runes 0 then 8 else cfg.min_deliverable_runes;
}

abbrev pub history_replayed : String
history_replayed = "soothe.lifecycle.loop.history.replayed"

abbrev pub final_report : String
final_report = "soothe.output.autonomous.final_report.reported"

abbrev pub tool_call_updates_batch : String
tool_call_updates_batch = "tool_call_updates_batch"

abbrev pub stream_tool_call_update : String
stream_tool_call_update = "soothe.stream.tool_call.update"

abbrev pub deliverable_result : String → String → ChatEventResult
deliverable_result content completion_event = record {
  content = content;
  thinking_step = "";
  terminal = deliverable_complete;
  completion_event = completion_event;
  err = none;
}

abbrev pub continue_result : String → ChatEventResult
continue_result content = record {
  content = content;
  thinking_step = "";
  terminal = continues;
  completion_event = "";
  err = none;
}

abbrev pub failed_result : String → ChatEventResult
failed_result err = record {
  content = "";
  thinking_step = "";
  terminal = failed_complete;
  completion_event = "";
  err = some err;
}

-- thinkingStepResult
abbrev pub thinking_step_result : String → ChatEventResult
thinking_step_result step = record (continue_result "") { thinking_step = trim_space step }

unfoldable pub is_streaming_message_type : String → Bool
is_streaming_message_type msg_type =
    contains_key msg_type ("AIMessageChunk" ∷ "ai_chunk" ∷ "message_chunk" ∷ [])

unfoldable pub is_namespace_match : String → String → String → Bool
is_namespace_match ns data_type pattern' = contains data_type pattern' || contains ns pattern'

-- `strings.TrimPrefix(s, prefix)`
unfoldable pub trim_prefix : String → String → String
trim_prefix s prefix = if has_prefix s prefix then drop_prefix s prefix else s

abbrev pub first_of : Option ChatEventResult → Option ChatEventResult → Option ChatEventResult
first_of (some r) later = some r
first_of none later = later

abbrev pub result_or : ChatEventResult → Option ChatEventResult → ChatEventResult
result_or default' none = default'
result_or default' (some r) = r

module _ (cfg : ClassifierConfig) where
  abbrev pub is_deliverable_loop_phase : String → Bool
  is_deliverable_loop_phase phase = allows phase cfg.deliverable_phases

  -- IsSubstantiveAssistantReply
  unfoldable pub is_substantive_assistant_reply : String → Bool
  is_substantive_assistant_reply content =
      leb cfg.min_deliverable_runes (rune_count (trim_space content))

  -- IsDeliverableCompletionEvent
  unfoldable pub is_deliverable_completion_event : String → Bool
  unfolding trim_prefix
  is_deliverable_completion_event event' =
      if event' == ""
      then false
      else if contains_key event' (
          "status.idle" ∷ "status.stopped" ∷ stream_end ∷ "idle_timeout" ∷ "query_timeout"
          ∷ "stream_closed" ∷ [])
      then true
      else if event' == final_report
      then true
      else if has_prefix event' "soothe.protocol.message."
      then is_deliverable_loop_phase (trim_prefix event' "soothe.protocol.message.")
      else contains event' "soothe.output" && contains event' "responded"

  -- The choice of the reply for a deliverable outcome
  unfoldable pub final_reply : String → String → String → Option String
  unfolding is_deliverable_completion_event is_substantive_assistant_reply
  final_reply completion_event content accumulated =
      let own = trim_space content in
      let final = trim_space accumulated in
      if not (is_deliverable_completion_event completion_event)
      then none
      else if not (own == "")
      then some own
      else if not (final == "") && is_substantive_assistant_reply final
      then some final
      else none

  unfoldable pub reply_of : ChatEventTerminal → ChatEventResult → String → Option String
  unfolding final_reply
  reply_of deliverable_complete r accumulated = final_reply r.completion_event r.content accumulated
  reply_of _ r accumulated = none

  -- ResolveDeliverableFinalContent
  unfoldable pub resolve_deliverable_final_content : ChatEventResult → String → Option String
  unfolding reply_of
  resolve_deliverable_final_content r accumulated = reply_of r.terminal r accumulated
