-- ===== src/Client/Connection/Handshake.antt =====
-- client.go: Connect with its handshake, Reconnect, and ReattachAndProbe.
pub mod Ready
pub mod Verdicts
pub mod Attached
use soothe_client_go.Prelude.{
  ℕ, String, Bool, true, false, ◌||◌, Option, none, some, List, [], ◌∷◌, ◌==◌, if◌then◌else◌,
}
use soothe_client_go.Prelude.Int.{ℤ, negsuc, eqb_ℤ}
use soothe_client_go.Json.{
  Value, str, num, arr, Items, nil, cons, Fields, end, field, get, text_of, as_string,
}
use soothe_client_go.Multiplexer.{DaemonError, new_mux, truncate, daemon_error, map_or_nil}
use soothe_client_go.Client.Connection.{
  Client, Attempt, SendError, live, unclean, is_control_frame, send_message, close_socket,
}

-- isRetryableWarnCode
unfoldable pub is_retryable_warn_code : ℤ → Bool
is_retryable_warn_code code =
    eqb_ℤ code (negsuc 32000) || eqb_ℤ code (negsuc 32001) || eqb_ℤ code (negsuc 32002)

-- What the handshake's loop meets: a control frame that ReadEvent takes before its result, with the error
-- of writing a pong, or the result of ReadEvent, where `gone` is nil, nil. Behind a frame come the
-- context's error in the wait before a retry, and what the retry meets.
pub data Arrival : Type 0 where
  took : (pong_err : Option String) (typ : String) → Arrival
  read_failed : (err : String) → Arrival
  gone : Arrival
  arrived : (ev : Fields) (context_err : Option String) (again : Attempt) → Arrival

pub data HandshakeError : Type 0 where
  init_failed : SendError → HandshakeError
  read_error : (err : String) → HandshakeError
  closed_during_handshake : HandshakeError
  cancelled : (err : String) → HandshakeError
  retry_failed : SendError → HandshakeError
  refused : DaemonError → HandshakeError
  incompatible : (version : String) → HandshakeError
  startup_failed : HandshakeError
  degraded : HandshakeError
  unexpected_state : (state : String) → HandshakeError
  timeout : HandshakeError

-- What follows: the handshake returns, or goes on, or is blocked in SendMessage.
pub data Verdict : Type 0 where
  returns : Option HandshakeError → Client → Verdict
  goes_on : Client → Verdict
  blocked : Verdict

-- sendInit, with what follows it
unfoldable pub after_init : Option (Option SendError × Client) → Verdict
after_init none = blocked
after_init (some (some err, c)) = returns (some (retry_failed err)) c
after_init (some (none, c)) = goes_on c

-- The wait before a retry, and the retry
unfoldable pub retry : Option String → Attempt → Client → Verdict
unfolding after_init
retry (some err) again c = returns (some (cancelled err)) c
retry none again c = after_init (send_message "connection_init" again c)

-- The texts of `capabilities`, the keys of the set
unfoldable pub texts : Items → List String
texts nil = []
texts (cons (str s) items) = s ∷ texts items
texts (cons _ items) = texts items

unfoldable pub capabilities_of : Value → List String
unfolding texts
capabilities_of (arr items) = texts items
capabilities_of _ = []

abbrev pub interval_of : Value → ℤ → ℤ
interval_of (num n) old = truncate n
interval_of _ old = old

unfoldable pub version_of : String → String
version_of version = if version == "" then "1" else version

-- What the client takes over from a connection_ack
unfoldable pub take_ack : Fields → Client → Client
unfolding capabilities_of version_of
take_ack result c = record c {
  protocol_version = version_of (text_of "protocol_version" result);
  negotiated_capabilities = capabilities_of (get "capabilities" result);
  heartbeat_interval_ms = interval_of (get "heartbeat_interval_ms" result) c.heartbeat_interval_ms;
}

-- The switch on the readiness_state
unfoldable pub on_state : String → Option String → Attempt → Client → Verdict
unfolding retry
on_state state context_err again c =
    if state == "ready"
    then returns none (record c { handshake_complete = true; readiness_state = state })
    else if state == "incompatible"
    then returns (some (incompatible c.protocol_version)) c
    else if state == "error"
    then returns (some startup_failed) c
    else if state == "degraded"
    then returns (some degraded) c
    else if state == "starting" || state == "warming"
    then retry context_err again c
    else returns (some (unexpected_state state)) c

unfoldable pub on_error : Fields → Option String → Attempt → Client → Verdict
unfolding retry is_retryable_warn_code
on_error ev context_err again c =
    let e = daemon_error ev in
    if is_retryable_warn_code e.code
    then retry context_err again c
    else returns (some (refused e)) c

unfoldable pub on_frame : Fields → Option String → Attempt → Client → Verdict
unfolding on_state on_error take_ack
on_frame ev context_err again c =
    let typ = text_of "type" ev in
    if typ == "status"
    then goes_on c
    else if typ == "error"
    then on_error ev context_err again c
    else if typ == "connection_ack"
    then (let result = map_or_nil (get "result" ev) in
        on_state (text_of "readiness_state" result) context_err again (take_ack result c))
    else goes_on c

unfoldable pub on_arrival : Arrival → Client → Verdict
unfolding on_frame
on_arrival (took pong_err typ) c = goes_on (is_control_frame pong_err typ c).1
on_arrival (read_failed err) c = returns (some (read_error err)) c
on_arrival gone c = returns (some closed_during_handshake) c
on_arrival (arrived ev context_err again) c = on_frame ev context_err again c

-- The rest of the loop behind a pass
abbrev pub follow :
    (Client → Option (Option HandshakeError × Client))
    → Verdict
    → Option (Option HandshakeError × Client)
follow rest (returns err c) = some (err, c)
follow rest (goes_on c) = rest c
follow rest blocked = none

-- The loop of handshake over what it meets before its deadline; `none` where it never returns
unfoldable pub await_ack : List Arrival → Client → Option (Option HandshakeError × Client)
unfolding on_arrival
await_ack [] c = some (some timeout, c)
await_ack (a ∷ arrivals) c = follow (await_ack arrivals) (on_arrival a c)

unfoldable pub after_first :
    List Arrival → Option (Option SendError × Client) → Option (Option HandshakeError × Client)
unfolding await_ack
after_first arrivals none = none
after_first arrivals (some (some err, c)) = some (some (init_failed err), c)
after_first arrivals (some (none, c)) = await_ack arrivals c

-- handshake
unfoldable pub handshake : Attempt → List Arrival → Client → Option (Option HandshakeError × Client)
unfolding after_first
handshake first arrivals c = after_first arrivals (send_message "connection_init" first c)

pub data ConnectError : Type 0 where
  dial_error : (err : String) → ConnectError
  handshake_error : HandshakeError → ConnectError

-- What DialContext gives
pub data Dialed : Type 0 where
  dialed : (socket : ℕ) → Dialed
  dial_failed : (err : String) → Dialed

-- The fields that Connect resets for the new socket
unfoldable pub reset : ℕ → Client → Client
reset socket c = record c {
  conn = some socket;
  closed = false;
  written = [];
  disconn_ch = live none;
  once_done = false;
  disconn_cause = unclean;
  disconnected = false;
  mux = new_mux;
  pending_events = [];
  handshake_complete = false;
}

-- The teardown behind a failed handshake
unfoldable pub settle_connect :
    ℕ → Option (Option HandshakeError × Client) → Option (Option ConnectError × Client)
settle_connect socket none = none
settle_connect socket (some (none, c)) = some (none, c)
settle_connect socket (some (some err, c)) = some (
  some (handshake_error err),
  close_socket (some socket) (record c { closed = true; conn = none }),
)

-- Connect; `none` where it never returns
unfoldable pub connect :
    Dialed → Attempt → List Arrival → Client → Option (Option ConnectError × Client)
unfolding settle_connect reset handshake
connect (dial_failed err) first arrivals c = some (some (dial_error err), c)
connect (dialed socket) first arrivals c =
    settle_connect socket (handshake first arrivals (reset socket c))

-- Reconnect
unfoldable pub reconnect :
    Dialed → Attempt → List Arrival → Client → Option (Option ConnectError × Client)
unfolding connect
reconnect dial first arrivals c = connect dial first arrivals (close_socket c.conn c)

-- The requests of ReattachAndProbe
pub data Call : Type 0 where
  request_loop_reattach : (payload : Fields) → Call
  loop_subscribe : (loop_id : String) → Call
  loop_get : (loop_id : String) → Call

pub data ReattachError : Type 0 where
  missing_loop_id : ReattachError
  loop_reattach_error : (err : String) → ReattachError
  loop_subscribe_error : (err : String) → ReattachError
  stale_loop : (loop_id err : String) → ReattachError

-- The third step: every error of the probe makes the loop stale.
unfoldable pub probe : String → Option String → List Call × Option ReattachError
probe loop_id (some err) = (loop_get loop_id ∷ [], some (stale_loop loop_id err))
probe loop_id none = (loop_get loop_id ∷ [], none)

unfoldable pub subscribe_again :
    String → Option String → Option String → List Call × Option ReattachError
unfolding probe
subscribe_again loop_id (some err) probed =
    (loop_subscribe loop_id ∷ [], some (loop_subscribe_error err))
subscribe_again loop_id none probed =
    let (calls, result) = probe loop_id probed in (loop_subscribe loop_id ∷ calls, result)

unfoldable pub reattach :
    String → Option String → Option String → Option String → List Call × Option ReattachError
unfolding subscribe_again
reattach loop_id attached subscribed probed =
    let payload = field "type" (str "loop_reattach") (field "loop_id" (str loop_id) end) in
    elim attached [
      | some err ↦ (request_loop_reattach payload ∷ [], some (loop_reattach_error err))
      | none ↦
          let (calls, result) = subscribe_again loop_id subscribed probed in
          (request_loop_reattach payload ∷ calls, result)
    ]

-- ReattachAndProbe, for the errors of its three requests: the requests made, and its error
unfoldable pub reattach_and_probe :
    String → Option String → Option String → Option String → List Call × Option ReattachError
unfolding reattach
reattach_and_probe loop_id attached subscribed probed =
    if loop_id == ""
    then ([], some missing_loop_id)
    else reattach loop_id attached subscribed probed
