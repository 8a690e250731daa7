-- ===== src/Appkit/Classifier/Process.antt =====
-- appkit/classifier.go: the outcome of an event by its mode, its data and its names.
use Prim.Native.String.{◌++◌ as concat}
use soothe_client_go.Prelude.{
  String, Bool, true, false, not, ◌&&◌, ◌||◌, Option, none, some, List, [], ◌∷◌, ◌==◌, trim_space,
  contains, equal_fold, if◌then◌else◌,
}
use soothe_client_go.Prelude.Decimal.{itoa}
use soothe_client_go.Json.{Value, str, obj, Fields, get, text_of}
use soothe_client_go.Events.{stream_end}
use soothe_client_go.Stream.{is_turn_end_custom_data}
use soothe_client_go.Protocol.{
  EventMessage, StatusResponse, ErrorObject, Message, event, status, envelope, error_response,
  event_type, LoopAiMessage, loop_ai_message, loop_ai_text,
}
use soothe_client_go.Appkit.Lifecycle.{
  TurnLifecycleGate, allow_stream_end, allow_idle_complete, observe,
}
use soothe_client_go.Appkit.Boundary.{data_turn}
use soothe_client_go.Appkit.ThinkingStep.{extract_thinking_step}
use soothe_client_go.Appkit.Classifier.Content.{
  Payload, first_message_payload, extract_content_from_data, messages_mode_assistant_content,
  is_terminal_message_type,
}
use soothe_client_go.Appkit.Classifier.{
  ChatEventResult, ClassifierConfig, history_replayed, tool_call_updates_batch,
  stream_tool_call_update, deliverable_result, continue_result, failed_result, thinking_step_result,
  is_streaming_message_type, is_namespace_match, first_of, result_or, is_deliverable_loop_phase,
  is_substantive_assistant_reply,
}

module _ (cfg : ClassifierConfig) where
  -- isFinalOutputEvent: the names of all phases, those that are mapped to false as well
  unfoldable pub names_phase : String → List (String × Bool) → Bool
  names_phase combined [] = false
  names_phase combined ((phase, b) ∷ more) = contains combined phase || names_phase combined more

  unfoldable pub is_final_output_event : String → String → Bool
  unfolding names_phase
  is_final_output_event data_type ns =
      let combined = concat data_type (concat " " ns) in
      if contains combined "final_report" then true else names_phase combined cfg.deliverable_phases

  -- A reply of the phase: it ends the query where the phase is deliverable and the text is long
  -- enough.
  unfoldable pub phase_result : String → String → ChatEventResult
  unfolding is_substantive_assistant_reply
  phase_result phase content =
      if is_deliverable_loop_phase cfg phase && is_substantive_assistant_reply cfg content
      then deliverable_result content (concat "soothe.protocol.message." phase)
      else continue_result content

  unfoldable pub streamed : Option Payload → Option ChatEventResult
  unfolding is_streaming_message_type
  streamed none = none
  streamed (some p) =
      if not (p.text == "") && is_streaming_message_type p.msg_type
      then some (continue_result p.text)
      else none

  -- The text of a loop-tagged message
  unfoldable pub tagged_text : LoopAiMessage → String → Option ChatEventResult
  unfolding is_streaming_message_type phase_result
  tagged_text m content =
      if content == ""
      then none
      else if is_streaming_message_type m.type'
      then some (continue_result content)
      else some (phase_result m.phase content)

  unfoldable pub tagged : Option LoopAiMessage → Option ChatEventResult
  unfolding tagged_text
  tagged none = none
  tagged (some m) = tagged_text m (loop_ai_text m)

  abbrev pub continued : Option String → Option ChatEventResult
  continued none = none
  continued (some text) = some (continue_result text)

  unfoldable pub untagged : Option Payload → Option ChatEventResult
  unfolding phase_result
  untagged none = none
  untagged (some p) =
      if p.text == ""
      then none
      else if is_terminal_message_type p.msg_type || p.msg_type == ""
      then some (phase_result p.phase p.text)
      else some (continue_result p.text)

  -- The case of mode "messages", where one of its returns is taken
  unfoldable pub messages_result : EventMessage → Option ChatEventResult
  unfolding streamed tagged untagged
  messages_result m =
      let payload = first_message_payload m.data' in
      if not (m.mode == "messages")
      then none
      else first_of (streamed payload) (
          first_of (tagged (loop_ai_message m))
            (first_of (continued (messages_mode_assistant_content m)) (untagged payload)))

  unfoldable pub output_result : String → String → String → Option String → Option ChatEventResult
  unfolding is_final_output_event
  output_result ns data_type completion_event none = none
  output_result ns data_type completion_event (some content) =
      if is_final_output_event data_type ns
      then some (deliverable_result content completion_event)
      else some (continue_result content)

  abbrev pub report_result : String → Option String → Option ChatEventResult
  report_result completion_event none = none
  report_result completion_event (some content) = some (deliverable_result content completion_event)

  -- The text of a failure behind its type
  unfoldable pub failure_text : String → String → Option String → String
  failure_text err_type message content =
      let titled : String → String = λ text. concat err_type (concat ": " text) in
      if not (message == "")
      then titled message
      else elim content [ some text ↦ titled text | none ↦ err_type ]

  abbrev pub delta_result : Value → Option ChatEventResult
  delta_result (str delta) = some (continue_result delta)
  delta_result _ = none

  -- The tests on the names of an event: its output, the end of a loop, a report, an error, a delta
  unfoldable pub output_case :
      (String → Bool) → String → String → String → Option String → Option ChatEventResult
  unfolding output_result
  output_case matches ns data_type completion_event content =
      if matches "soothe.output" || matches "responded"
      then output_result ns data_type completion_event content
      else none

  unfoldable pub progress_case : (String → Bool) → Option String → Option ChatEventResult
  progress_case matches content =
      if matches "agent_loop.completed"
        || (matches "agent_loop.reasoned" || matches "loop.completed")
      then continued content
      else none

  unfoldable pub report_case : (String → Bool) → String → Option String → Option ChatEventResult
  report_case matches completion_event content =
      if matches "final_report" then report_result completion_event content else none

  unfoldable pub error_case :
      String → String → String → String → Option String → Option ChatEventResult
  unfolding failure_text
  error_case ns data_type err_type message content =
      if contains data_type "soothe.error." || contains ns "soothe.error."
      then some (failed_result (failure_text err_type message content))
      else none

  unfoldable pub delta_case : (String → Bool) → Value → Option ChatEventResult
  delta_case matches delta =
      if matches "stream"
        || (matches "progress"
            || (matches tool_call_updates_batch || matches stream_tool_call_update))
      then delta_result delta
      else none

  unfoldable pub named_result : String → Fields → ChatEventResult
  unfolding is_namespace_match output_case progress_case report_case error_case delta_case
  named_result ns data' =
      let data_type = text_of "type" data' in
      let completion_event = if data_type == "" then ns else data_type in
      let content = extract_content_from_data data' in
      let matches : String → Bool = is_namespace_match ns data_type in
      result_or (continue_result "") (
        first_of (output_case matches ns data_type completion_event content) (
          first_of (progress_case matches content) (
            first_of (report_case matches completion_event content) (
              first_of (error_case ns data_type completion_event (text_of "message" data') content)
                (delta_case matches (get "delta" data'))))))

  -- Whether a gate that may be nil lets a stream end, or an idle status, end the turn
  abbrev pub gate_allows_end : Option TurnLifecycleGate → String → Bool
  gate_allows_end none frame_turn = false
  gate_allows_end (some g) frame_turn = allow_stream_end g frame_turn

  abbrev pub gate_allows_idle : Option TurnLifecycleGate → String → Bool
  gate_allows_idle none frame_turn = false
  gate_allows_idle (some g) frame_turn = allow_idle_complete g frame_turn

  -- The case of a stream end
  unfoldable pub stream_end_result :
      EventMessage → String → Option TurnLifecycleGate → ChatEventResult
  unfolding is_substantive_assistant_reply
  stream_end_result m accumulated gate =
      let frame_turn = data_turn (trim_space m.turn_id) m.data' in
      if cfg.treat_stream_end_as_complete
        && (is_substantive_assistant_reply cfg accumulated && gate_allows_end gate frame_turn)
      then deliverable_result (trim_space accumulated) stream_end
      else continue_result ""

  abbrev pub step_result : Option String → Option ChatEventResult
  step_result none = none
  step_result (some step) = some (thinking_step_result step)

  -- The data of an event that is a map: the replay of the history, or a thinking step
  unfoldable pub data_result : String → Option Fields → Option ChatEventResult
  data_result event' none = none
  data_result event' (some data') =
      let own = text_of "type" data' in
      let data_type = if own == "" then event' else own in
      if data_type == history_replayed
      then some (continue_result "")
      else step_result (extract_thinking_step cfg.thinking_step_events data_type data')

  abbrev pub named_or_continue : String → Option Fields → ChatEventResult
  named_or_continue ns none = continue_result ""
  named_or_continue ns (some data') = named_result ns data'

  unfoldable pub status_result :
      StatusResponse → String → Option TurnLifecycleGate → ChatEventResult
  unfolding is_substantive_assistant_reply
  status_result m accumulated gate =
      if cfg.treat_status_idle_as_complete
        && (equal_fold (trim_space m.state) "idle"
            && is_substantive_assistant_reply cfg accumulated)
      then (if cfg.gate_turn_end_signals && not (gate_allows_idle gate (trim_space m.turn_id))
          then continue_result ""
          else deliverable_result (trim_space accumulated) "status.idle")
      else continue_result ""

  abbrev pub error_text : Option ErrorObject → String
  error_text none = "daemon error [-32603]: "
  error_text (some e) = concat "daemon error [" (concat (itoa e.code) (concat "]: " e.message))

  -- `decode` is json.Unmarshal of a text into a map, `none` for its error; a text that decodes to
  -- the nil map is taken for one with an error.
  module _ (decode : String → Option Fields) where
    -- normalizeEventData; the data of a decoded message is no json.RawMessage
    abbrev pub normalize_event_data : Value → Option Fields
    normalize_event_data (obj m) = some m
    normalize_event_data (str s) = decode s
    normalize_event_data _ = none

    -- The rest of the case of an event, behind its data
    unfoldable pub plain_result : EventMessage → String → Option TurnLifecycleGate → ChatEventResult
    unfolding stream_end_result messages_result named_result
    plain_result m accumulated gate =
        if m.mode == "custom" && is_turn_end_custom_data m.data'
        then stream_end_result m accumulated gate
        else result_or (named_or_continue (event_type m) (normalize_event_data m.data'))
            (messages_result m)

    unfoldable pub event_result : EventMessage → String → Option TurnLifecycleGate → ChatEventResult
    unfolding data_result plain_result
    event_result m accumulated gate =
        result_or (plain_result m accumulated gate)
          (data_result (event_type m) (normalize_event_data m.data'))

    -- processChatEvent
    unfoldable pub process_chat_event :
        Message → String → Option TurnLifecycleGate → ChatEventResult
    unfolding event_result status_result
    process_chat_event (event m) accumulated gate = event_result m accumulated gate
    process_chat_event (envelope m) accumulated gate =
        if m.type' == "error" then failed_result (error_text m.error) else continue_result ""
    process_chat_event (error_response m) accumulated gate =
        failed_result (concat "daemon error [" (concat m.code (concat "]: " m.message)))
    process_chat_event (status m) accumulated gate = status_result m accumulated gate
    process_chat_event _ accumulated gate = continue_result ""

    -- ClassifyTurn
    unfoldable pub classify_turn :
        Message → String → Option TurnLifecycleGate → ChatEventResult × Option TurnLifecycleGate
    unfolding process_chat_event
    classify_turn msg accumulated none = (process_chat_event msg accumulated none, none)
    classify_turn msg accumulated (some g) =
        (process_chat_event msg accumulated (some (observe g msg)), some (observe g msg))

    -- Classify
    unfoldable pub classify : Message → String → ChatEventResult
    unfolding process_chat_event
    classify msg accumulated = process_chat_event msg accumulated none
