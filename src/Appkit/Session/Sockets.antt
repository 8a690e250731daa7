-- ===== src/Appkit/Session/Sockets.antt =====
-- appkit/daemon_session.go: the two sockets of a DaemonSession, its loop and the requests it makes.
-- What a client answers is given, and the calls made of the two clients are effects, in their order.
pub mod Rejoining
pub mod Turns
use mathlib.Core.Option
use soothe_client_go.Prelude.{
  ℕ, String, Bool, true, false, ◌&&◌, Option, none, some, List, [], ◌∷◌, ◌++◌, ◌==◌, if◌then◌else◌,
}
use soothe_client_go.Prelude.Int.{ℤ, pos, is_positive}
use soothe_client_go.Json.{Value, str, bool, Items, Fields, end, field, get}
use soothe_client_go.Protocol.Envelopes.{new_notification_envelope}
use soothe_client_go.Client.Connection.Handshake.{ReattachError, stale_loop, reattach_and_probe}
use soothe_client_go.Client.Connection.Handshake
use soothe_client_go.Bootstrap.{
  Answer, BootstrapError, Booted, ready, failed, LoopSessionOptions, bootstrap_loop_session,
  Connection, connected, connect_with_retries,
}
use soothe_client_go.Bootstrap
use soothe_client_go.Methods.{Asked, asks, Sending, sends, refuses, Rpc, with_text}
use soothe_client_go.Methods.Loops.{invoke_skill, loop_list}
use soothe_client_go.Methods.Helpers.{fetch_loop_history}
use soothe_client_go.Methods.Input.{
  InputOption, with_loop_id, with_subagent, with_model, with_model_params, with_attachments,
  with_clarification_mode, with_interaction_mode, with_clarification_answer, with_intent_hint,
  send_input,
}

-- The fields of DaemonSession that are about its sockets
pub record Sockets : Type 0 where
  pub workspace : String
  pub loop_id : String
  pub rpc_connected : Bool
  pub closed : Bool

pub data Effect : Type 0 where
  stream_reconnect stream_connect stream_close rpc_connect rpc_close : Effect
  reattaching : (calls : List Handshake.Call) → Effect
  bootstrapping : (calls : List Bootstrap.Call) → Effect

-- An error of the call; `connecting never_returns` stands for a call that never returns.
pub data SessionError : Type 0 where
  connecting : Connection → SessionError
  reattach_failed : ReattachError → SessionError
  bootstrap_failed : BootstrapError → SessionError

-- What the stream's client answers: IsConnectionAlive, Reconnect, the attempts of ConnectWithRetries,
-- the three requests of ReattachAndProbe and the two of BootstrapLoopSession. Reconnect and the requests
-- are taken to return.
pub record Network : Type 0 where
  pub alive : Bool
  pub reconnect_err : Option String
  pub attempts : ℕ → Bootstrap.Attempt
  pub attach_err : Option String
  pub subscribe_err : Option String
  pub probe_err : Option String
  pub loop_new : Answer
  pub loop_subscribed : Answer

-- What a call leaves behind: its effects, the session and its error
abbrev pub SessionResult : Type 0
SessionResult = List Effect × Sockets × Option SessionError

unfoldable pub settle_bootstrap : Booted → Sockets → Sockets × Option SessionError
settle_bootstrap (ready loop_id) s = (record s { loop_id = loop_id }, none)
settle_bootstrap (failed err) s = (s, some (bootstrap_failed err))

-- sessionOpts of bootstrapLoop
unfoldable pub session_options : String → Option LoopSessionOptions
session_options workspace =
    if workspace == ""
    then none
    else some (record { client_workspace = workspace; user_id = ""; client_workspace_id = "" })

-- bootstrapLoop, less the status that it makes of the loop id; NewLoop calls it without a loop id, and
-- SwitchLoop with one.
unfoldable pub bootstrap_loop : Network → String → Sockets → SessionResult
unfolding settle_bootstrap session_options bootstrap_loop_session
bootstrap_loop net resume s =
    let (calls, out) =
      bootstrap_loop_session net.loop_new net.loop_subscribed resume s.workspace
        (session_options s.workspace) in
    let (s', err) = settle_bootstrap out s in (bootstrapping calls ∷ [], s', err)

unfoldable pub connecting_error : Connection → Option SessionError
connecting_error connected = none
connecting_error other = some (connecting other)

-- A step whose error ends the call, and the rest of it
abbrev pub unless_failed :
    List Effect → Option SessionError → Sockets → SessionResult → SessionResult
unless_failed effects (some err) s rest = (effects, s, some err)
unless_failed effects none s (more, s', err) = (effects ++ more, s', err)

-- DaemonSession.Connect
unfoldable pub open_session : Network → String → Sockets → SessionResult
unfolding bootstrap_loop connecting_error connect_with_retries
open_session net resume s =
    unless_failed (stream_connect ∷ []) (connecting_error (connect_with_retries net.attempts 40)) s
      (bootstrap_loop net resume s)

-- The RPC sidecar is closed before the stream reconnects.
unfoldable pub drop_rpc : Sockets → List Effect × Sockets
drop_rpc s =
    if s.rpc_connected then (rpc_close ∷ [], record s { rpc_connected = false }) else ([], s)

-- Reconnect, and ConnectWithRetries where it fails
unfoldable pub reconnect_stream : Network → List Effect × Option SessionError
unfolding connecting_error connect_with_retries
reconnect_stream net = elim net.reconnect_err [
  | none ↦ (stream_reconnect ∷ [], none)
  | some err ↦ (
    stream_reconnect ∷ stream_close ∷ stream_connect ∷ [],
    connecting_error (connect_with_retries net.attempts 40),
  )
]

-- `errors.As(err, &stale)`
unfoldable pub after_reattach : Network → String → Option ReattachError → Sockets → SessionResult
unfolding bootstrap_loop
after_reattach net resume none s = ([], record s { loop_id = resume }, none)
after_reattach net resume (some (stale_loop stale err)) s = bootstrap_loop net "" s
after_reattach net resume (some err) s = ([], s, some (reattach_failed err))

unfoldable pub rejoin : Network → String → Sockets → SessionResult
unfolding bootstrap_loop after_reattach reattach_and_probe
rejoin net resume s =
    if resume == ""
    then bootstrap_loop net "" s
    else (let (calls, err) =
          reattach_and_probe resume net.attach_err net.subscribe_err net.probe_err in
        unless_failed (reattaching calls ∷ []) none s (after_reattach net resume err s))

-- EnsureConnected
unfoldable pub ensure_connected : Network → Sockets → SessionResult
unfolding drop_rpc reconnect_stream rejoin
ensure_connected net s =
    if net.alive
    then ([], s, none)
    else (let (dropped, s') = drop_rpc s in
        let (effects, err) = reconnect_stream net in
        unless_failed (dropped ++ effects) err s' (rejoin net s.loop_id s'))

-- DaemonSession.Close
unfoldable pub close_session : Sockets → List Effect × Sockets
close_session s =
    if s.closed
    then ([], s)
    else (stream_close ∷ rpc_close ∷ [], record s { closed = true; rpc_connected = false })

-- ensureRPCConnectedLocked, for IsConnected of the sidecar and its attempts to connect
unfoldable pub ensure_rpc_connected : Bool → (ℕ → Bootstrap.Attempt) → Sockets → SessionResult
unfolding connecting_error connect_with_retries
ensure_rpc_connected is_connected attempts s =
    if s.rpc_connected && is_connected
    then ([], s, none)
    else unless_failed (rpc_connect ∷ []) (connecting_error (connect_with_retries attempts 5)) s
        ([], record s { rpc_connected = true }, none)

-- What ListLoops, FetchLoopHistory and SetClarificationMode ask the sidecar for
unfoldable pub list_loops : ℤ → Asked
unfolding loop_list
list_loops limit = loop_list none (if is_positive limit then limit else pos 20) (pos 15000)

unfoldable pub session_history : String → Asked
unfolding fetch_loop_history
session_history loop_id = fetch_loop_history loop_id (pos 30000)

unfoldable pub set_clarification_mode : String → String → Sockets → Option Asked
unfolding with_text
set_clarification_mode mode interaction_mode s =
    if s.loop_id == ""
    then none
    else some (
        asks (record {
          payload = with_text "interaction_mode" interaction_mode (
              field "type" (str "loop_set_clarification_mode")
                (field "loop_id" (str s.loop_id) (field "mode" (str mode) end)));
          response_type = "loop_set_clarification_mode_response";
          timeout = pos 5000;
        }))

unfoldable pub is_true : Value → Bool
is_true (bool b) = b
is_true _ = false

-- `applied, _ := result["applied"].(bool)`
unfoldable pub is_applied : Fields → Bool
unfolding is_true
is_applied result = is_true (get "applied" result)

-- InvokeSkill, CancelActiveTurn and Detach, which sends only where the stream is connected
unfoldable pub invoke_session_skill : String → String → String → Asked
unfolding invoke_skill
invoke_session_skill skill args interaction_mode =
    invoke_skill skill args interaction_mode (pos 120000)

unfoldable pub cancel_active_turn : Sending
unfolding new_notification_envelope
cancel_active_turn =
    sends (new_notification_envelope "slash_command" (field "cmd" (str "/cancel") end))

unfoldable pub detach : Bool → Option Sending
unfolding new_notification_envelope
detach is_connected =
    if is_connected then some (sends (new_notification_envelope "disconnect" end)) else none

-- SendTurnOptions
pub record SendTurnOptions : Type 0 where
  pub preferred_subagent : String
  pub model : String
  pub model_params : Option Fields
  pub attachments : Option Items
  pub clarification_mode : String
  pub interaction_mode : String
  pub clarification_answer : Bool
  pub intent_hint : String

-- `if text != "" { inputOpts = append(inputOpts, option(text)) }`
unfoldable pub text_option : (String → InputOption) → String → List InputOption → List InputOption
text_option option text rest = if text == "" then rest else option text ∷ rest

unfoldable pub some_option {ℓ} :
    {A : Type ℓ} → (Option A → InputOption) → Option A → List InputOption → List InputOption
some_option option none rest = rest
some_option option (some v) rest = option (some v) ∷ rest

unfoldable pub flag_option : InputOption → Bool → List InputOption → List InputOption
flag_option option flag rest = if flag then option ∷ rest else rest

unfoldable pub turn_options : String → Option SendTurnOptions → List InputOption
unfolding text_option some_option flag_option
turn_options loop_id none = with_loop_id loop_id ∷ []
turn_options loop_id (some o) =
    let rest = text_option with_intent_hint o.intent_hint [] in
    let rest1 = flag_option with_clarification_answer o.clarification_answer rest in
    let rest2 = text_option with_interaction_mode o.interaction_mode rest1 in
    let rest3 = text_option with_clarification_mode o.clarification_mode rest2 in
    let rest4 = some_option with_attachments o.attachments rest3 in
    let rest5 = some_option with_model_params o.model_params rest4 in
    let rest6 = text_option with_model o.model rest5 in
    with_loop_id loop_id ∷ text_option with_subagent o.preferred_subagent rest6

-- SendTurn
unfoldable pub send_turn : String → Option SendTurnOptions → Sockets → Sending
unfolding turn_options send_input
send_turn text opts s =
    if s.loop_id == ""
    then refuses "active loop session"
    else send_input text (turn_options s.loop_id opts)
