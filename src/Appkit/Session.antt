-- ===== src/Appkit/Session.antt =====
-- appkit/daemon_session.go: one round of the loop of IterTurnChunks.
-- `drop` is the session's earlyDropFn; NewDaemonSession takes ShouldDropStreamChunkEarly for it.
pub mod Filter
pub mod Gate
pub mod Loop
pub mod OwnLoop
pub mod Ends
pub mod Rounds
pub mod Refines
pub mod Sockets
use soothe_client_go.Prelude.{
  ℕ, ◌+◌, String, Bool, true, false, not, ◌&&◌, ◌||◌, Option, none, some, List, [], ◌∷◌, ◌++◌, ◌==◌,
  contains, if◌then◌else◌,
}
use soothe_client_go.Json.{Value, obj, Items, Fields, get, text_of}
use soothe_client_go.Events.{stream_end}
use soothe_client_go.Stream.{is_turn_end_custom_data, is_turn_progress_chunk}
use soothe_client_go.TurnId.{
  frame_turn_id, turn_ids_match, is_turn_terminal_allowed, is_idle_terminal_allowed,
}
use soothe_client_go.Appkit.Lifecycle.{takes_over}
use soothe_client_go.Appkit.Boundary.{data_turn}
use soothe_client_go.Appkit.Frame.{unwrap_next, as_namespace}

-- TurnChunk
pub record TurnChunk : Type 0 where
  pub namespace : Items
  pub mode : String
  pub data' : Value

-- The fields of DaemonSession that a turn changes, with its two counters of TurnEventStats, the
-- local variables of the loop, and the chunks that were sent, in their order.
pub record Turn : Type 0 where
  pub loop_id : String
  pub filtered_early : ℕ
  pub post_idle_drained : ℕ
  pub end_state : String
  pub cancel_seen : Bool
  pub error_message : String
  pub query_started : Bool
  pub expected_loop_id : String
  pub expected_turn_id : String
  pub turn_progress_seen : Bool
  pub sent : List TurnChunk

-- The start of iterTurnChunksLocked.
abbrev pub new_turn : String → Turn
new_turn loop_id = record {
  loop_id = loop_id;
  filtered_early = 0;
  post_idle_drained = 0;
  end_state = "";
  cancel_seen = false;
  error_message = "";
  query_started = false;
  expected_loop_id = loop_id;
  expected_turn_id = "";
  turn_progress_seen = false;
  sent = [];
}

-- What one round of the loop meets: the context or the deadline ends it with an error before it
-- reads, or ReadEvent gives a frame, an error or nil. With a frame comes the context's error, if the
-- context is cancelled before the consumer takes the chunk; with nil, whether the connection lives.
pub data Read : Type 0 where
  stopped : (err : String) → Read
  frame : (ev : Fields) (cancelled : Option String) → Read
  failed : (err : String) → Read
  closed : (alive : Bool) → Read

-- How a round goes on: another round, the drain, or a return with an error or nil.
pub data Verdict : Type 0 where
  again : Verdict
  drain : Verdict
  returned : Option String → Verdict

abbrev pub fail : String → Turn → Verdict × Turn
fail err t = (returned (some err), record t { error_message = err })

-- A frame of another loop
unfoldable pub is_other_loop : String → Fields → Bool
is_other_loop expected ev =
    let own = text_of "loop_id" ev in
    not (expected == "") && (not (own == "") && not (own == expected))

abbrev pub status_state : Fields → String
status_state ev = if text_of "type" ev == "status" then text_of "state" ev else ""

-- A frame of another turn than the bound one. A running status is never one; a terminal status is
-- one only if it carries an id.
unfoldable pub is_other_turn : String → Fields → Bool
is_other_turn expected ev =
    let typ = text_of "type" ev in
    let state = status_state ev in
    let ev_turn = frame_turn_id ev in
    if not (expected == "") && ((typ == "event" || typ == "status") && not (state == "running"))
    then (if state == "idle" || state == "stopped"
        then not (ev_turn == "") && not (turn_ids_match expected ev_turn)
        else not (turn_ids_match expected ev_turn))
    else false

-- The text of an error frame
unfoldable pub error_text : Fields → String
error_text ev =
    let inner : String = elim (get "error" ev) [ obj err ↦ text_of "message" err | _ ↦ "" ] in
    let msg = if inner == "" then text_of "message" ev else inner in
    if msg == "" then "daemon error" else msg

-- `if lid != "" { s.loopID = lid; expectedLoopID = lid }`
unfoldable pub follow_loop : String → Turn → Turn
follow_loop lid t = if lid == "" then t else record t { loop_id = lid; expected_loop_id = lid }

-- The case of a running status
unfoldable pub on_running : String → Turn → Turn
on_running tid t =
    if not (tid == "") && takes_over t.expected_turn_id tid
    then record t {
      query_started = true;
      turn_progress_seen =
          if not (t.expected_turn_id == "") && not (tid == t.expected_turn_id)
          then false
          else t.turn_progress_seen;
      expected_turn_id = tid;
    }
    else record t { query_started = true }

abbrev pub end_turn : String → Turn → Verdict × Turn
end_turn state t = (drain, record t { end_state = state })

unfoldable pub on_stopped : String → Turn → Verdict × Turn
on_stopped tid t =
    if not (t.expected_turn_id == "") && not (turn_ids_match t.expected_turn_id tid)
    then (again, t)
    else end_turn "stopped" t

unfoldable pub on_idle : String → Turn → Verdict × Turn
on_idle tid t =
    if is_idle_terminal_allowed t.expected_turn_id tid t.query_started t.turn_progress_seen
      t.cancel_seen
    then end_turn "idle" t
    else (again, t)

-- The switch of the status case
unfoldable pub on_state : String → String → Turn → Verdict × Turn
unfolding on_running on_stopped on_idle
on_state state tid t =
    if state == "running"
    then (again, on_running tid t)
    else if t.query_started && state == "stopped"
    then on_stopped tid t
    else if t.query_started && state == "idle"
    then on_idle tid t
    else (again, t)

unfoldable pub on_status : Fields → Turn → Verdict × Turn
unfolding follow_loop on_state
on_status ev t =
    on_state (status_state ev) (frame_turn_id ev) (follow_loop (text_of "loop_id" ev) t)

unfoldable pub on_command_response : Fields → Turn → Verdict × Turn
on_command_response ev t = (
  again,
  if contains (text_of "content" ev) "Cancellation requested"
      then record t { cancel_seen = true }
      else t,
)

abbrev pub chunk_of : Fields → TurnChunk
chunk_of ev = record {
  namespace = as_namespace (get "namespace" ev);
  mode = text_of "mode" ev;
  data' = get "data" ev;
}

abbrev pub is_turn_end : TurnChunk → Bool
is_turn_end c = c.mode == "custom" && is_turn_end_custom_data c.data'

unfoldable pub type_of_data : Value → String
type_of_data (obj m) = text_of "type" m
type_of_data _ = ""

-- The end of the round, behind the `select` that sends the chunk
unfoldable pub after_send : TurnChunk → Turn → Verdict × Turn
unfolding type_of_data
after_send c t =
    if is_turn_end c
    then end_turn (if type_of_data c.data' == stream_end then "stream_end" else "completed") t
    else (again, t)

unfoldable pub send : TurnChunk → Option String → Turn → Verdict × Turn
unfolding after_send
send c (some err) t = fail err t
send c none t = after_send c (record t { sent = t.sent ++ c ∷ [] })

unfoldable pub note_progress : TurnChunk → Turn → Turn
note_progress c t =
    if is_turn_progress_chunk c.mode c.data' then record t { turn_progress_seen = true } else t

-- A turn end that the gates do not allow yet
unfoldable pub is_early_end : TurnChunk → String → Turn → Bool
is_early_end c tid t =
    is_turn_end c
    && not (
        is_turn_terminal_allowed t.expected_turn_id (data_turn tid c.data') t.query_started
          t.turn_progress_seen)

module _ (drop : Items → String → Value → Bool) where
  abbrev pub is_dropped : TurnChunk → Bool
  is_dropped c = drop c.namespace c.mode c.data'

  unfoldable pub on_event : Fields → Option String → Turn → Verdict × Turn
  unfolding send note_progress is_early_end
  on_event ev cancelled t =
      let c = chunk_of ev in
      if is_dropped c
      then (again, record t { filtered_early = t.filtered_early + 1 })
      else if is_early_end c (frame_turn_id ev) t
      then (again, t)
      else send c cancelled (note_progress c t)

  -- A frame that is unwrapped
  unfoldable pub on_frame : Fields → Option String → Turn → Verdict × Turn
  unfolding is_other_loop is_other_turn error_text on_status on_command_response on_event
  on_frame ev cancelled t =
      let typ = text_of "type" ev in
      if is_other_loop t.expected_loop_id ev
      then (again, t)
      else if is_other_turn t.expected_turn_id ev
      then (again, t)
      else if typ == "error"
      then fail (error_text ev) t
      else if typ == "status"
      then on_status ev t
      else if typ == "command_response"
      then on_command_response ev t
      else if not (typ == "event")
      then (again, t)
      else on_event ev cancelled t

  -- One round of the loop
  unfoldable pub round : Read → Turn → Verdict × Turn
  unfolding on_frame
  round (stopped err) t = fail err t
  round (frame ev cancelled) t = on_frame (unwrap_next ev) cancelled t
  round (failed err) t = fail err t
  round (closed alive) t =
      if t.query_started && not alive
      then fail "daemon connection lost" (record t { end_state = "connection_lost" })
      else (returned none, t)
