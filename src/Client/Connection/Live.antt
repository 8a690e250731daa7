-- ===== src/Client/Connection/Live.antt =====
-- helpers.go: IsDaemonLive, which connects a client, asks once and closes it.
use soothe_client_go.Prelude.{
  String, Bool-cases, inl, inr, ℕ, ◌≡◌, refl, Bool, true, false, Option, none, some, List, [], ◌∷◌,
}
use soothe_client_go.Json.{Fields}
use soothe_client_go.Request.{Outcome, replied, Pass, sent_request}
use soothe_client_go.Client.Connection.Keeping.{
  Keeps, Of, client_of, send_message-keeps, is_control_frame-keeps,
}
use soothe_client_go.Client.Connection.{
  SendError, clean, send_message, is_control_frame, Client, Attempt, DisconnectCause, unclean,
  new_client, is_connected, close, signal_disconnect,
}
use soothe_client_go.Client.Connection.Handshake.{
  take_ack, ConnectError, Dialed, dialed, Arrival, took, arrived, read_failed, gone, connect,
}
use soothe_client_go.Client.Connection.Handshake.Verdicts.{Seen, asked, Reached}
use soothe_client_go.Client.Connection.Handshake.Ready.{IsSettled, connect-IsSettled}

-- The control frames that the reads of a request take, each with the error of writing a pong
unfoldable pub take_controls : List (Option String × String) → Client → Client
take_controls [] c = c
take_controls ((pong_err, typ) ∷ more) c = take_controls more (is_control_frame pong_err typ c).1

abbrev pub is_reply : Outcome → Bool
is_reply (replied result) = true
is_reply _ = false

-- What a request meets: its attempt to write, its id, the passes of its loop, and the control frames
-- that its reads take, which change other fields of the client than the passes.
pub record Meeting : Type 0 where
  pub attempt : Attempt
  pub id : String
  pub passes : List Pass
  pub controls : List (Option String × String)

abbrev pub with_outcome : Option Outcome → Client → Option (Bool × Client)
with_outcome none c = none
with_outcome (some o) c = some (is_reply o, c)

unfoldable pub after_request : Meeting → Option (Option SendError × Client) → Option (Bool × Client)
unfolding take_controls sent_request
after_request m none = none
after_request m (some (some err, c)) = some (false, c)
after_request m (some (none, c)) =
    let (found, mux) = sent_request m.id m.passes c.mux in
    with_outcome found (take_controls m.controls (record c { mux = mux }))

-- CheckDaemonStatus, whose request has a method: whether it has no error, and the client; `none` where
-- it does not return.
unfoldable pub check_status : Meeting → Client → Option (Bool × Client)
unfolding after_request
check_status m c = after_request m (send_message "request" m.attempt c)

-- The deferred Close
abbrev pub and_close : Option (Bool × Client) → Option (Bool × Client)
and_close none = none
and_close (some (answered, c)) = some (answered, close c)

unfoldable pub ask_and_close :
    Meeting → Option (Option ConnectError × Client) → Option (Bool × Client)
unfolding check_status close
ask_and_close m none = none
ask_and_close m (some (some err, c)) = some (false, c)
ask_and_close m (some (none, c)) = and_close (check_status m c)

-- IsDaemonLive: its answer and the client; `none` where it does not return
unfoldable pub is_daemon_live : Meeting → Dialed → Attempt → List Arrival → Option (Bool × Client)
unfolding ask_and_close connect
is_daemon_live m dial first arrivals = ask_and_close m (connect dial first arrivals new_client)

-- The client is not connected, and has closed the socket.
abbrev pub IsGone : ℕ → Client → Type 0
IsGone socket c = (is_connected c ≡ false) × (more : List ℕ) × (c.closed_sockets ≡ socket ∷ more)

signal_disconnect-IsGone :
    (socket : ℕ) (cause : DisconnectCause) (c : Client)
    → IsGone socket c
    → IsGone socket (signal_disconnect cause c)
unfolding signal_disconnect is_connected
signal_disconnect-IsGone socket cause c h = elim (Bool-cases c.once_done) [
  | inl e ↦ simp e h
  | inr e ↦ simp e h
]

close-IsGone :
    (socket : ℕ) (c : Client) → c.conn ≡ some socket → c.closed ≡ false → IsGone socket (close c)
unfolding close is_connected
close-IsGone socket c conn open_still =
    rw (conn, open_still) (signal_disconnect-IsGone socket unclean _ (refl, c.closed_sockets, refl))

Reached-conn :
    (socket : ℕ) (n : Seen) (arrivals : List Arrival) (c : Client)
    → Reached socket n arrivals c
    → (c.conn ≡ some socket) × (c.closed ≡ false)
Reached-conn socket n [] c h = absurd h
Reached-conn socket n (took pong_err typ ∷ arrivals) c h = Reached-conn socket _ arrivals c h
Reached-conn socket n (read_failed err ∷ arrivals) c h = absurd h
Reached-conn socket n (gone ∷ arrivals) c h = absurd h
Reached-conn socket n (arrived ev ctx again ∷ arrivals) c h = elim h [
  | inl (ready, up) ↦ (up.0, up.1)
  | inr later ↦ elim later [
    | inl (other, r) ↦ Reached-conn socket n arrivals c r
    | inr (asks, r) ↦ Reached-conn socket (asked n) arrivals c r
  ]
]

-- The client has the socket, and is not closed.
abbrev HasSocket : ℕ → Client → Type 0
HasSocket socket c = (c.conn ≡ some socket) × (c.closed ≡ false)

signal_disconnect-HasSocket :
    (socket : ℕ) (c : Client) → HasSocket socket c → HasSocket socket (signal_disconnect clean c)
unfolding signal_disconnect
signal_disconnect-HasSocket socket c h = elim (Bool-cases c.once_done) [
  | inl e ↦ simp e h
  | inr e ↦ simp e h
]

HasSocket-Keeps : (socket : ℕ) → Keeps (HasSocket socket)
unfolding take_ack
HasSocket-Keeps socket = record {
  wrote = λ typ c h. h;
  acked = λ result c h. h;
  finished = λ state c h. h;
  signalled = λ c h. signal_disconnect-HasSocket socket c h;
}

take_controls-HasSocket :
    (socket : ℕ) (controls : List (Option String × String)) (c : Client)
    → HasSocket socket c
    → HasSocket socket (take_controls controls c)
unfolding take_controls
take_controls-HasSocket socket [] c h = h
take_controls-HasSocket socket ((pong_err, typ) ∷ more) c h =
    take_controls-HasSocket socket more _
      (is_control_frame-keeps (HasSocket socket) (HasSocket-Keeps socket) pong_err typ c h)

-- RequestResponse, which is sent and waited for, ends with a reply.
abbrev pub Replies : Meeting → Type 0
Replies m =
    (c : Client) × (result : Fields) × ((sent_request m.id m.passes c.mux).0
      ≡ some (replied result))

-- What IsDaemonLive leaves behind a socket that was dialed
abbrev pub Probed : Meeting → ℕ → List Arrival → Option (Bool × Client) → Type 0
Probed m socket arrivals none = Unit
Probed m socket arrivals (some (live, c)) =
    IsGone socket c
    × (live ≡ true → Replies m × (c' : Client) × Reached socket (1, false) arrivals c')

-- A status request on a client with its socket
abbrev Asked : Meeting → ℕ → Option (Bool × Client) → Type 0
Asked m socket none = Unit
Asked m socket (some (answered, c)) = HasSocket socket c × (answered ≡ true → Replies m)

with_outcome-Asked :
    (m : Meeting) (socket : ℕ) (start c : Client) (found : Option Outcome)
    → (sent_request m.id m.passes start.mux).0 ≡ found
    → HasSocket socket c
    → Asked m socket (with_outcome found c)
with_outcome-Asked m socket start c none e h = tt
with_outcome-Asked m socket start c (some (replied result)) e h = (h, λ _. (start, result, e))
with_outcome-Asked m socket start c (some _) e h = (h, λ t. cc)

after_request-Asked :
    (m : Meeting) (socket : ℕ) (r : Option (Option SendError × Client))
    → Of (HasSocket socket) (client_of r)
    → Asked m socket (after_request m r)
unfolding after_request
after_request-Asked m socket none h = tt
after_request-Asked m socket (some (some err, c)) h = (h, λ t. cc)
after_request-Asked m socket (some (none, c)) h =
    with_outcome-Asked m socket c _ (sent_request m.id m.passes c.mux).0 refl
      (take_controls-HasSocket socket m.controls _ h)

check_status-Asked :
    (m : Meeting) (socket : ℕ) (c : Client) → HasSocket socket c → Asked m socket (check_status m c)
unfolding check_status
check_status-Asked m socket c h =
    after_request-Asked m socket _
      (send_message-keeps (HasSocket socket) (HasSocket-Keeps socket) "request" m.attempt c h)

and_close-Probed :
    (m : Meeting) (socket : ℕ) (arrivals : List Arrival) (c' : Client) (r : Option (Bool × Client))
    → Reached socket (1, false) arrivals c'
    → Asked m socket r
    → Probed m socket arrivals (and_close r)
and_close-Probed m socket arrivals c' none reached h = tt
and_close-Probed m socket arrivals c' (some (answered, c)) reached ((conn, open_still), asked) =
    (close-IsGone socket c conn open_still, λ e. (asked e, c', reached))

ask_and_close-Probed :
    (m : Meeting) (socket : ℕ) (arrivals : List Arrival) (r : Option (Option ConnectError × Client))
    → IsSettled socket arrivals r
    → Probed m socket arrivals (ask_and_close m r)
unfolding ask_and_close
ask_and_close-Probed m socket arrivals none h = tt
ask_and_close-Probed m socket arrivals (some (some err, c)) h = (h, λ e. cc)
ask_and_close-Probed m socket arrivals (some (none, c)) (reached, complete) =
    and_close-Probed m socket arrivals c (check_status m c) reached
      (check_status-Asked m socket c (Reached-conn socket (1, false) arrivals c reached))

-- IsDaemonLive with a socket that was dialed leaves no connection behind each time it returns: the
-- client is not connected and the socket is closed. The answer true comes behind the acknowledgement of a
-- ready daemon only, and where the status request was replied to.
pub is_daemon_live-Probed :
    (m : Meeting) (socket : ℕ) (first : Attempt) (arrivals : List Arrival)
    → Probed m socket arrivals (is_daemon_live m (dialed socket) first arrivals)
unfolding is_daemon_live
is_daemon_live-Probed m socket first arrivals =
    ask_and_close-Probed m socket arrivals _ (connect-IsSettled socket first arrivals new_client)
