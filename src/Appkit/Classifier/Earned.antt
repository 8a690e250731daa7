-- ===== src/Appkit/Classifier/Earned.antt =====
-- appkit/classifier.go: the parts of a deliverable outcome.
use Prim.Native.String.{◌++◌ as concat}
use soothe_client_go.Prelude.{
  ◌≤◌, String, ◌≡◌, refl, sym, ap, ◌∙◌, Bool, true, false, not, ◌&&◌, ◌||◌, Option, none, some,
  List, [], ◌∷◌, ◌==◌, ◌⊎◌, inl, eq_iff, arith, contains_key, trim_space, rune_count, equal_fold,
  has_prefix, has_prefix-concat, drop_prefix-concat, rune_count-trim_space, if_cases, if◌then◌else◌,
}
use soothe_client_go.Json.{Fields, text_of}
use soothe_client_go.Events.{stream_end}
use soothe_client_go.Protocol.{
  EventMessage, StatusResponse, LoopAiMessage, loop_ai_message, loop_ai_text,
}
use soothe_client_go.Appkit.Lifecycle.{TurnLifecycleGate}
use soothe_client_go.Appkit.Boundary.{data_turn}
use soothe_client_go.Appkit.ThinkingStep.{extract_thinking_step}
use soothe_client_go.Appkit.Classifier.Content.{
  Payload, first_message_payload, extract_content_from_data, messages_mode_assistant_content,
  is_terminal_message_type,
}
use soothe_client_go.Appkit.Classifier.{
  ChatEventTerminal, deliverable_complete, ChatEventResult, ClassifierConfig, history_replayed,
  is_namespace_match, final_report, is_streaming_message_type, trim_prefix, first_of, result_or,
  is_deliverable_loop_phase, is_substantive_assistant_reply, is_deliverable_completion_event,
}
use soothe_client_go.Appkit.Classifier.Process.{
  is_final_output_event, phase_result, streamed, tagged_text, tagged, continued, untagged,
  messages_result, step_result, gate_allows_end, gate_allows_idle, stream_end_result, data_result,
  status_result,
}

abbrev markers : List String
markers =
    "status.idle" ∷ "status.stopped" ∷ stream_end ∷ "idle_timeout" ∷ "query_timeout"
    ∷ "stream_closed" ∷ []

tag : String → String
tag phase = concat "soothe.protocol.message." phase

tag_full : (phase : String) → tag phase ≡ "" → true ≡ false
unfolding tag has_prefix
tag_full phase e =
    sym (has_prefix-concat "soothe.protocol.message." phase)
    ∙ ap (λ s. has_prefix s "soothe.protocol.message.") e

module _ (cfg : ClassifierConfig) where
  -- A phase that the configuration names as deliverable gives a completion event that is recognised.
  pub phase-recognised :
      (phase : String)
      → is_deliverable_loop_phase cfg phase ≡ true
      → is_deliverable_completion_event cfg (concat "soothe.protocol.message." phase) ≡ true
  unfolding is_deliverable_completion_event trim_prefix tag
  phase-recognised phase h =
      let Holds : Bool → Type 0 = λ b. b ≡ true in
      let prefix = has_prefix-concat "soothe.protocol.message." phase in
      if_cases Holds (tag phase == "") _ _ (λ e. sym (tag_full phase ((eq_iff (tag phase) "").0 e)))
        (λ _.
          if_cases Holds (contains_key (tag phase) markers) _ _ (λ _. refl)
            (λ _.
              if_cases Holds (tag phase == final_report) _ _ (λ _. refl)
                (λ _. rw (prefix, drop_prefix-concat "soothe.protocol.message." phase) h)))

  end_recognised : is_deliverable_completion_event cfg stream_end ≡ true
  unfolding is_deliverable_completion_event
  end_recognised = refl

  idle_recognised : is_deliverable_completion_event cfg "status.idle" ≡ true
  unfolding is_deliverable_completion_event
  idle_recognised = refl

  -- The data of an event of that type says that its text is final: it matches an output event that names
  -- a final report or a deliverable phase, or it matches a final report.
  abbrev pub SaysFinal : String → Fields → Type 0
  SaysFinal ns data' =
      let matches = is_namespace_match ns (text_of "type" data') in
      (((matches "soothe.output" || matches "responded") ≡ true)
        × (is_final_output_event cfg (text_of "type" data') ns ≡ true))
      ⊎ (matches "final_report" ≡ true)

  module _ (source : Option (String × Fields)) where
    -- The content has enough runes and its event is recognised, or it is a text of the event's data,
    -- which says that it is final.
    abbrev pub IsEarnedAs : ChatEventTerminal → ChatEventResult → Type 0
    IsEarnedAs deliverable_complete r =
        ((cfg.min_deliverable_runes ≤ rune_count r.content)
          × (is_deliverable_completion_event cfg r.completion_event ≡ true))
        ⊎ ((ns : String) × (data' : Fields) × (source ≡ some (ns, data'))
            × (extract_content_from_data data' ≡ some r.content)
            × SaysFinal ns data')
    IsEarnedAs _ r = Unit

    abbrev pub IsEarned : ChatEventResult → Type 0
    IsEarned r = IsEarnedAs r.terminal r

    abbrev pub IsEarned? : Option ChatEventResult → Type 0
    IsEarned? none = Unit
    IsEarned? (some r) = IsEarned r

    pub first_of-IsEarned :
        (a b : Option ChatEventResult) → IsEarned? a → IsEarned? b → IsEarned? (first_of a b)
    first_of-IsEarned none b ha hb = hb
    first_of-IsEarned (some r) b ha hb = ha

    pub result_or-IsEarned :
        (r : ChatEventResult) (a : Option ChatEventResult)
        → IsEarned r
        → IsEarned? a
        → IsEarned (result_or r a)
    result_or-IsEarned r none hr ha = hr
    result_or-IsEarned r (some s) hr ha = ha

    enough :
        (content : String)
        → is_substantive_assistant_reply cfg content ≡ true
        → (cfg.min_deliverable_runes ≤ rune_count (trim_space content))
          × (cfg.min_deliverable_runes ≤ rune_count content)
    unfolding is_substantive_assistant_reply
    enough content h = (ground arith, ground (arith, rune_count-trim_space content))

    pub phase_result-IsEarned : (phase content : String) → IsEarned (phase_result cfg phase content)
    unfolding phase_result
    phase_result-IsEarned phase content =
        if_cases IsEarned
          (is_deliverable_loop_phase cfg phase && is_substantive_assistant_reply cfg content) _ _
          (λ both. inl ((enough content (ground arith)).1, phase-recognised phase (ground arith)))
          (λ _. tt)

    pub streamed-IsEarned : (p : Option Payload) → IsEarned? (streamed cfg p)
    unfolding streamed
    streamed-IsEarned none = tt
    streamed-IsEarned (some p) =
        if_cases IsEarned? (not (p.text == "") && is_streaming_message_type p.msg_type) _ _
          (λ _. tt) (λ _. tt)

    pub tagged-IsEarned : (m : Option LoopAiMessage) → IsEarned? (tagged cfg m)
    unfolding tagged tagged_text
    tagged-IsEarned none = tt
    tagged-IsEarned (some m) =
        if_cases IsEarned? (loop_ai_text m == "") _ _ (λ _. tt)
          (λ _.
            if_cases IsEarned? (is_streaming_message_type m.type') _ _ (λ _. tt)
              (λ _. phase_result-IsEarned m.phase (loop_ai_text m)))

    pub continued-IsEarned : (text : Option String) → IsEarned? (continued cfg text)
    continued-IsEarned none = tt
    continued-IsEarned (some text) = tt

    pub untagged-IsEarned : (p : Option Payload) → IsEarned? (untagged cfg p)
    unfolding untagged
    untagged-IsEarned none = tt
    untagged-IsEarned (some p) =
        if_cases IsEarned? (p.text == "") _ _ (λ _. tt)
          (λ _.
            if_cases IsEarned? (is_terminal_message_type p.msg_type || p.msg_type == "") _ _
              (λ _. phase_result-IsEarned p.phase p.text) (λ _. tt))

    pub messages_result-IsEarned : (m : EventMessage) → IsEarned? (messages_result cfg m)
    unfolding messages_result
    messages_result-IsEarned m =
        let payload = first_message_payload m.data' in
        let narration = messages_mode_assistant_content m in
        if_cases IsEarned? (not (m.mode == "messages")) _ _ (λ _. tt)
          (λ _. first_of-IsEarned _ _ (streamed-IsEarned payload) (
            first_of-IsEarned _ _ (tagged-IsEarned (loop_ai_message m))
              (first_of-IsEarned _ _ (continued-IsEarned narration) (untagged-IsEarned payload))))

    pub stream_end_result-IsEarned :
        (m : EventMessage) (accumulated : String) (gate : Option TurnLifecycleGate)
        → IsEarned (stream_end_result cfg m accumulated gate)
    unfolding stream_end_result
    stream_end_result-IsEarned m accumulated gate =
        let frame_turn = data_turn (trim_space m.turn_id) m.data' in
        if_cases IsEarned
          (cfg.treat_stream_end_as_complete
            && (is_substantive_assistant_reply cfg accumulated
                && gate_allows_end cfg gate frame_turn))
          _ _ (λ all. inl ((enough accumulated (ground arith)).0, end_recognised)) (λ _. tt)

    pub status_result-IsEarned :
        (m : StatusResponse) (accumulated : String) (gate : Option TurnLifecycleGate)
        → IsEarned (status_result cfg m accumulated gate)
    unfolding status_result
    status_result-IsEarned m accumulated gate =
        if_cases IsEarned
          (cfg.treat_status_idle_as_complete
            && (equal_fold (trim_space m.state) "idle"
                && is_substantive_assistant_reply cfg accumulated))
          _ _
          (λ all.
            if_cases IsEarned
              (cfg.gate_turn_end_signals && not (gate_allows_idle cfg gate (trim_space m.turn_id)))
              _ _ (λ _. tt) (λ _. inl ((enough accumulated (ground arith)).0, idle_recognised)))
          (λ _. tt)

    pub step_result-IsEarned : (step : Option String) → IsEarned? (step_result cfg step)
    step_result-IsEarned none = tt
    step_result-IsEarned (some step) = tt

    pub data_result-IsEarned :
        (event' : String) (data' : Option Fields) → IsEarned? (data_result cfg event' data')
    unfolding data_result
    data_result-IsEarned event' none = tt
    data_result-IsEarned event' (some data') =
        let own = text_of "type" data' in
        let data_type = if own == "" then event' else own in
        if_cases IsEarned? (data_type == history_replayed) _ _ (λ _. tt)
          (λ _.
            step_result-IsEarned (extract_thinking_step cfg.thinking_step_events data_type data'))
