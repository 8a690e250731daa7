-- ===== src/Request/Ready.antt =====
-- request.go: WaitForDaemonReady.
use soothe_client_go.Prelude.{
  ℕ, String, ◌≡◌, ap, subst, arith, true, not, Option, none, some, List, [], ◌∷◌, ◌==◌,
  if◌then◌else◌,
}
use soothe_client_go.Json.{Fields, get, text_of}
use soothe_client_go.Multiplexer.{map_or_nil}
use soothe_client_go.Client.Connection.{Client, Attempt}
use soothe_client_go.Client.Connection.Handshake.{Arrival, dialed, connect}
use soothe_client_go.Client.Connection.Handshake.Ready.{IsSettled, connect-IsSettled}

-- What a pass of the loop meets: the timer, or what ReadEvent returns
pub data Found : Type 0 where
  timer : Found
  read_error : (err : String) → Found
  hung_up : Found
  got : (ev : Fields) → Found

-- The state that the handshake has left, or the acknowledgement itself, or an error
pub data Readiness : Type 0 where
  known : (state : String) → Readiness
  acknowledged : (ev : Fields) → Readiness
  timed_out : Readiness
  unreadable : (err : String) → Readiness
  disconnected : Readiness
  not_ready : (state : String) → Readiness

abbrev pub state_in : Fields → String
state_in ev = text_of "readiness_state" (map_or_nil (get "result" ev))

-- A frame that is an acknowledgement ends the wait.
unfoldable pub on_ack : Fields → Readiness
on_ack ev = if state_in ev == "ready" then acknowledged ev else not_ready (state_in ev)

-- The loop; `none` where it still waits
unfoldable pub wait_for_ack : List Found → Option Readiness
unfolding on_ack
wait_for_ack [] = none
wait_for_ack (timer ∷ found) = some timed_out
wait_for_ack (read_error err ∷ found) = some (unreadable err)
wait_for_ack (hung_up ∷ found) = some disconnected
wait_for_ack (got ev ∷ found) =
    let rest = wait_for_ack found in
    if not (text_of "type" ev == "connection_ack") then rest else some (on_ack ev)

-- WaitForDaemonReady
unfoldable pub wait_for_daemon_ready : Client → List Found → Option Readiness
unfolding wait_for_ack
wait_for_daemon_ready c found =
    if c.handshake_complete then some (known c.readiness_state) else wait_for_ack found

complete_ready :
    (c : Client) (found : List Found)
    → c.handshake_complete ≡ true
    → c.readiness_state ≡ "ready"
    → wait_for_daemon_ready c found ≡ some (known "ready")
unfolding wait_for_daemon_ready
complete_ready c found complete state = ground (arith, ap known state)

-- Behind a Connect without an error, WaitForDaemonReady says that the daemon is ready without a read,
-- whatever the socket would give.
pub wait_for_daemon_ready-connect :
    (socket : ℕ) (first : Attempt) (arrivals : List Arrival) (c c' : Client) (found : List Found)
    → connect (dialed socket) first arrivals c ≡ some (none, c')
    → wait_for_daemon_ready c' found ≡ some (known "ready")
wait_for_daemon_ready-connect socket first arrivals c c' found e =
    let settled : IsSettled socket arrivals (some (none, c')) =
      subst (IsSettled socket arrivals) e (connect-IsSettled socket first arrivals c) in
    let (complete, state) = settled.1 in complete_ready c' found complete state
