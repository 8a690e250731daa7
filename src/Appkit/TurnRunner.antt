-- ===== src/Appkit/TurnRunner.antt =====
-- appkit/turn_runner.go: one turn, from the input to its reply or its error.
pub mod Outcome
pub mod Deltas
pub mod Execute
pub mod Input
pub mod Leftovers
use Prim.Native.String.{◌++◌ as concat}
use soothe_client_go.Prelude.{
  ℕ, String, Bool, true, false, not, ◌&&◌, ◌||◌, Option, none, some, List, [], ◌∷◌, ◌++◌, ◌==◌,
  trim_space, equal_fold, has_prefix, if◌then◌else◌,
}
use soothe_client_go.Json.{Fields}
use soothe_client_go.Stream.{is_turn_end_custom_data}
use soothe_client_go.Protocol.{EventMessage, StatusResponse, Message, event, status}
use soothe_client_go.Appkit.Boundary.{TurnBoundary, new_boundary, feed, is_daemon_turn_end_event}
use soothe_client_go.Appkit.Classifier.{
  ChatEventTerminal, failed_complete, ChatEventResult, ClassifierConfig, trim_prefix,
  is_substantive_assistant_reply, resolve_deliverable_final_content,
}
use soothe_client_go.Appkit.Classifier.Process.{classify}

-- TimeoutPolicy
pub data TimeoutPolicy : Type 0 where
  policy_fail soft_complete : TimeoutPolicy

-- TurnRunner and TurnConfig: the policies, and which of the store, the broadcaster and the two hooks
-- are not nil.
pub record TurnRunner : Type 0 where
  pub classifier : ClassifierConfig
  pub on_idle_timeout : TimeoutPolicy
  pub on_query_timeout : TimeoutPolicy
  pub on_stream_close : TimeoutPolicy
  pub has_store : Bool
  pub has_broadcaster : Bool
  pub has_on_complete : Bool
  pub has_on_error : Bool

-- What a turn does outside: the rows of the store, the events for the subscribers, the calls of the
-- hooks, and the input and the cancellation sent to the daemon. Times and the formatting of errorData are left out.
pub data Effect : Type 0 where
  append_reply : (content completion_event : String) → Effect
  append_error : (err : String) → Effect
  show_step : (data' : String) → Effect
  show_delta : (data' : String) → Effect
  show_complete : (data' : String) → Effect
  show_error : (err : String) → Effect
  call_on_complete : (content completion_event : String) → Effect
  call_on_error : (err : String) → Effect
  send_cancel : (loop_id : String) → Effect
  send_input : Effect

-- How Execute returns: nil or an error
pub data End : Type 0 where
  completed : End
  failed : (err : String) → End

-- The local variables of runTurn
pub record Turn : Type 0 where
  pub assistant_content : String
  pub armed : Bool
  pub boundary : TurnBoundary

abbrev pub new_turn : Turn
new_turn = record { assistant_content = ""; armed = false; boundary = new_boundary }

-- What the select of the loop takes: the end of the context, the idle timer, the end of the channel
-- of events, or a message
pub data Tick : Type 0 where
  cancelled deadline idle closed : Tick
  received : Message → Tick

abbrev pub when : Bool → Effect → List Effect
when b e = if b then e ∷ [] else []

-- isStatusRunningEvent
unfoldable pub is_status_running_event : Message → Bool
is_status_running_event (status m) = equal_fold (trim_space m.state) "running"
is_status_running_event _ = false

-- isStaleTurnEndEvent
unfoldable pub is_stale_turn_end_event : Message → Bool
is_stale_turn_end_event (status m) =
    let state = trim_space m.state in equal_fold state "idle" || equal_fold state "stopped"
is_stale_turn_end_event (event m) = m.mode == "custom" && is_turn_end_custom_data m.data'
is_stale_turn_end_event _ = false

-- The fold of a content into the text so far: the text with it, and what is new of it
unfoldable pub fold_content : String → String → String × String
unfolding trim_prefix
fold_content content so_far =
    if has_prefix content so_far
    then (content, trim_prefix content so_far)
    else (concat so_far content, content)

-- sendLoopCancel, for a client that is not nil; its error is only logged
unfoldable pub send_loop_cancel : String → List Effect
send_loop_cancel loop_id =
    let id = trim_space loop_id in if id == "" then [] else send_cancel id ∷ []

abbrev pub broadcast_thinking_step : TurnRunner → String → List Effect
broadcast_thinking_step r step =
    let text = trim_space step in
    when (r.has_broadcaster && not (text == "")) (show_step (concat text "\n"))

abbrev pub broadcast_delta : TurnRunner → String → List Effect
broadcast_delta r delta = when (r.has_broadcaster && not (delta == "")) (show_delta delta)

module _ (r : TurnRunner) where
  -- The three steps of a failure: persistFailed, broadcastError and onError
  abbrev pub fail_effects : String → List Effect
  fail_effects err =
      when r.has_store (append_error err)
      ++ when r.has_broadcaster (show_error err)
      ++ when r.has_on_error (call_on_error err)

  -- completeTurn, with persistResponse, broadcastComplete and onComplete
  abbrev pub complete_turn : String → String → List Effect
  complete_turn final completion_event =
      when r.has_store (append_reply final completion_event)
      ++ when r.has_broadcaster (show_complete final)
      ++ when r.has_on_complete (call_on_complete final completion_event)

  abbrev pub Step : Type 0
  Step = List Effect × Turn × Option End

  abbrev pub fail_turn : String → Turn → Step
  fail_turn err t = (fail_effects err, t, some (failed err))

  -- finishTimeout
  unfoldable pub finish_timeout : TimeoutPolicy → String → String → Turn → Step
  finish_timeout policy_fail err completion_event t = fail_turn err t
  finish_timeout soft_complete err completion_event t =
      if not (trim_space t.assistant_content == "")
      then (complete_turn t.assistant_content completion_event, t, some completed)
      else fail_turn err t

  -- The end of the loop's body, for a turn that the boundary has ended
  unfoldable pub end_turn : String → Turn → Step
  end_turn reason t =
      if is_substantive_assistant_reply r.classifier t.assistant_content
      then (complete_turn (trim_space t.assistant_content) reason, t, some completed)
      else fail_turn (concat "turn ended (" (concat reason ") with no assistant content")) t

  -- Where a reply is deliverable, unless its event is one that the boundary ends turns by
  unfoldable pub early_reply : ChatEventResult → Turn → Option String
  early_reply result t =
      if is_daemon_turn_end_event result.completion_event
      then none
      else resolve_deliverable_final_content r.classifier result t.assistant_content

  abbrev pub deliver : Option String → String → Bool × String → Turn → Step
  deliver (some final) completion_event (ended, reason) t =
      (complete_turn final completion_event, t, some completed)
  deliver none completion_event (true, reason) t = end_turn reason t
  deliver none completion_event (false, reason) t = ([], t, none)

  abbrev pub is_failure : ChatEventTerminal → Option String → Option String
  is_failure failed_complete err = err
  is_failure _ err = none

  abbrev pub prepend : List Effect → Step → Step
  prepend effects (more, t, end') = (effects ++ more, t, end')

  unfoldable pub add_content : String → Turn → List Effect × Turn
  unfolding fold_content
  add_content content t =
      let (text, delta) = fold_content content t.assistant_content in
      if content == ""
      then ([], t)
      else (broadcast_delta r delta, record t { assistant_content = text })

  unfoldable pub on_content : ChatEventResult → Bool × String → Turn → Step
  unfolding add_content early_reply end_turn
  on_content result ended t =
      let (deltas, t') = add_content result.content t in
      prepend (broadcast_thinking_step r result.thinking_step ++ deltas)
        (deliver (early_reply result t') result.completion_event ended t')

  unfoldable pub on_outcome : Option String → ChatEventResult → Bool × String → Turn → Step
  unfolding on_content
  on_outcome (some err) result ended t =
      (fail_effects err, t, some (failed (concat "process event: " err)))
  on_outcome none result ended t = on_content result ended t

  -- The handling of an outcome of the classifier
  unfoldable pub on_result : ChatEventResult → Bool × String → Turn → Step
  unfolding on_outcome
  on_result result ended t = on_outcome (is_failure result.terminal result.err) result ended t

  -- `decode` is json.Unmarshal for the classifier.
  module _ (decode : String → Option Fields) where
    -- A message of an armed turn. The source's test `ended && !armed` behind Feed never holds.
    unfoldable pub on_armed : Message → Turn → Step
    unfolding on_result
    on_armed msg t =
        let (boundary, ended) = feed t.boundary msg in
        on_result (classify r.classifier decode msg t.assistant_content) ended
          (record t { armed = true; boundary = boundary })

    unfoldable pub on_message : Message → Turn → Step
    unfolding is_status_running_event is_stale_turn_end_event on_armed
    on_message msg t =
        if not t.armed && is_stale_turn_end_event msg
        then ([], t, none)
        else if not t.armed && is_status_running_event msg
        then ([], record t { boundary = (feed t.boundary msg).0 }, none)
        else on_armed msg t

    -- One round of the loop of runTurn for the loop `loop_id`
    unfoldable pub on_tick : String → Tick → Turn → Step
    unfolding finish_timeout send_loop_cancel on_message
    on_tick loop_id cancelled t = fail_turn "context canceled" t
    on_tick loop_id deadline t =
        prepend (send_loop_cancel loop_id)
          (finish_timeout r.on_query_timeout "appkit: query timeout" "query_timeout" t)
    on_tick loop_id idle t =
        prepend (send_loop_cancel loop_id)
          (finish_timeout r.on_idle_timeout "appkit: idle timeout" "idle_timeout" t)
    on_tick loop_id closed t =
        finish_timeout r.on_stream_close "event stream closed" "stream_closed" t
    on_tick loop_id (received msg) t = on_message msg t

    abbrev pub go_on : Step → Step → Step
    go_on (effects, t, some end') rest = (effects, t, some end')
    go_on (effects, t, none) rest = prepend effects rest

    -- The loop of runTurn, over what its select takes; no end says that it waits for more
    unfoldable pub run_loop : String → List Tick → Turn → Step
    unfolding on_tick
    run_loop loop_id [] t = ([], t, none)
    run_loop loop_id (tick ∷ ticks) t =
        let out = on_tick loop_id tick t in
        let rest = run_loop loop_id ticks out.1 in go_on out rest

    -- Behind the drain of the channel: the input is sent, and its error ends the turn
    unfoldable pub send_and_run : Option String → String → List Tick → Step
    unfolding run_loop
    send_and_run (some err) loop_id ticks =
        prepend (send_input ∷ [])
          (fail_effects err, new_turn, some (failed (concat "send message: " err)))
    send_and_run none loop_id ticks = prepend (send_input ∷ []) (run_loop loop_id ticks new_turn)

    -- runTurn, for a connection with a channel of events or without, and what SendMessage returns
    unfoldable pub run_turn : Bool → Option String → String → String → List Tick → Step
    unfolding send_and_run
    run_turn has_events send_err app_key loop_id ticks =
        if has_events
        then send_and_run send_err loop_id ticks
        else fail_turn
            (concat "missing event stream for app key "
              (concat app_key (concat " (loop " (concat loop_id ")"))))
            new_turn
