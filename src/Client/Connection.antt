-- ===== src/Client/Connection.antt =====
-- client.go: the connection of a client with its signal for a drop, the writing of messages, Close, and
-- the control frames.
pub mod Handshake
pub mod Signal
pub mod Keeping
pub mod Live
use soothe_client_go.Prelude.{
  ℕ, String, Bool, true, false, not, ◌&&◌, ◌||◌, Option, none, some, List, [], ◌∷◌, ◌==◌,
  if◌then◌else◌,
}
use soothe_client_go.Prelude.Int.{ℤ, pos}
use soothe_client_go.Json.{Fields}
use soothe_client_go.Multiplexer.{Mux, new_mux}

-- DisconnectCause; `unclean` is its zero value
pub data DisconnectCause : Type 0 where
  unclean : DisconnectCause
  clean : DisconnectCause

-- disconnCh, a channel with room for one cause. A send on a closed channel and a second close are
-- panics.
pub data Channel : Type 0 where
  live : (buffered : Option DisconnectCause) → Channel
  shut : (buffered : Option DisconnectCause) → Channel
  panicked : Channel

-- `select { case ch <- cause: default: }`
unfoldable pub offer_cause : DisconnectCause → Channel → Channel
offer_cause cause (live none) = live (some cause)
offer_cause cause (live (some old)) = live (some old)
offer_cause cause _ = panicked

-- `close(ch)`
unfoldable pub close_channel : Channel → Channel
close_channel (live buffered) = shut buffered
close_channel _ = panicked

-- The fields of Client that its connection is about. A socket is a number, and `closed_sockets` are
-- those that this client has closed; `written` holds the types of the messages that were written, the
-- latest first. `once_done` says whether disconnOnce has run.
pub record Client : Type 0 where
  pub conn : Option ℕ
  pub closed : Bool
  pub closed_sockets : List ℕ
  pub written : List String
  pub disconn_ch : Channel
  pub once_done : Bool
  pub disconn_cause : DisconnectCause
  pub disconnected : Bool
  pub mux : Mux
  pub pending_events : List Fields
  pub handshake_complete : Bool
  pub negotiated_capabilities : List String
  pub protocol_version : String
  pub readiness_state : String
  pub heartbeat_interval_ms : ℤ

-- NewClient
unfoldable pub new_client : Client
new_client = record {
  conn = none;
  closed = false;
  closed_sockets = [];
  written = [];
  disconn_ch = live none;
  once_done = false;
  disconn_cause = unclean;
  disconnected = false;
  mux = new_mux;
  pending_events = [];
  handshake_complete = false;
  negotiated_capabilities = [];
  protocol_version = "";
  readiness_state = "";
  heartbeat_interval_ms = pos 0;
}

-- signalDisconnect, called without `c.mu`; it is one step, as the function runs in a sync.Once
unfoldable pub signal_disconnect : DisconnectCause → Client → Client
unfolding offer_cause close_channel
signal_disconnect cause c = if c.once_done then c else record c {
  once_done = true;
  disconn_cause = cause;
  disconnected = true;
  disconn_ch = close_channel (offer_cause cause c.disconn_ch);
}

-- `c.conn != nil && !c.closed`
abbrev pub has_conn : Option ℕ → Bool
has_conn none = false
has_conn (some socket) = true

-- IsConnected
unfoldable pub is_connected : Client → Bool
is_connected c = has_conn c.conn && not c.closed

-- IsConnectionAlive
unfoldable pub is_connection_alive : Client → Bool
unfolding is_connected
is_connection_alive c = is_connected c && not c.disconnected

-- What a call of SendMessage meets: the context's error, json.Marshal's and WriteMessage's.
pub record Attempt : Type 0 where
  pub context_err : Option String
  pub marshal_err : Option String
  pub write_err : Option String

pub data SendError : Type 0 where
  not_connected : SendError
  context_over : (err : String) → SendError
  marshal_failed : (err : String) → SendError
  write_failed : (err : String) → SendError

-- `c.mu`, as the goroutine that asks for it finds it: a lock that the goroutine itself holds is never
-- given to it, which is `none`.
pub data Mutex : Type 0 where
  free : Mutex
  held : Mutex

abbrev pub lock : Mutex → Option Mutex
lock free = some held
lock held = none

-- The function of disconnOnce behind `c.mu.Lock()`
abbrev pub behind_lock : Option Mutex → Client → Option Client
behind_lock none signalled = none
behind_lock (some m) signalled = some signalled

-- signalDisconnect, called with `c.mu` in that state; a Do that has run returns at once.
unfoldable pub signal_disconnect_at : Mutex → DisconnectCause → Client → Option Client
unfolding signal_disconnect
signal_disconnect_at mu cause c =
    if c.once_done then some c else behind_lock (lock mu) (signal_disconnect cause c)

abbrev pub and_error : SendError → Option Client → Option (Option SendError × Client)
and_error e none = none
and_error e (some c) = some (some e, c)

-- WriteMessage failed while SendMessage holds `c.mu`.
unfoldable pub fail_write : String → Client → Option (Option SendError × Client)
unfolding signal_disconnect_at
fail_write err c = and_error (write_failed err) (signal_disconnect_at held unclean c)

unfoldable pub write_message : String → Attempt → Client → Option (Option SendError × Client)
unfolding fail_write
write_message typ a c = elim a.context_err [
  | some err ↦ some (some (context_over err), c)
  | none ↦ elim a.marshal_err [
    | some err ↦ some (some (marshal_failed err), c)
    | none ↦ elim a.write_err [
      | some err ↦ fail_write err c
      | none ↦ some (none, record c { written = typ ∷ c.written })
    ]
  ]
]

-- SendMessage for a message of that type, with its error; `none` where it never returns
unfoldable pub send_message : String → Attempt → Client → Option (Option SendError × Client)
unfolding is_connected write_message
send_message typ a c =
    if is_connected c then write_message typ a c else some (some not_connected, c)

-- sendPong; a pong is always marshalled
unfoldable pub send_pong : Option String → Client → Client
unfolding is_connected
send_pong write_err c = elim write_err [
  | some err ↦ c
  | none ↦ if is_connected c then record c { written = "pong" ∷ c.written } else c
]

-- isControlFrame for an Envelope of that type, given the error of writing a pong: whether the frame is
-- consumed
unfoldable pub is_control_frame : Option String → String → Client → Bool × Client
unfolding send_pong signal_disconnect
is_control_frame write_err typ c =
    if typ == "ping"
    then (true, send_pong write_err c)
    else if typ == "pong"
    then (true, c)
    else if typ == "disconnect"
    then (true, signal_disconnect clean c)
    else (false, c)

-- `conn.Close()`
abbrev pub close_socket : Option ℕ → Client → Client
close_socket none c = c
close_socket (some socket) c = record c { closed_sockets = socket ∷ c.closed_sockets }

-- Close
unfoldable pub close : Client → Client
unfolding is_connected signal_disconnect
close c =
    if is_connected c
    then signal_disconnect unclean (close_socket c.conn (record c { closed = true; conn = none }))
    else c
