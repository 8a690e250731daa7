-- ===== src/Examples/Connections.antt =====
-- Connections at concrete answers of the socket.
use soothe_client_go.Prelude.{String, ◌≡◌, refl, none, some, List, [], ◌∷◌}
use soothe_client_go.Json.{str, obj, end, field, get, as_string}
use soothe_client_go.Multiplexer.{map_or_nil}
use soothe_client_go.Client.Connection.{Client, Attempt, new_client, send_message, is_control_frame}
use soothe_client_go.Request.Ready.{
  timer, known, wait_for_daemon_ready, wait_for_daemon_ready-connect,
}
use soothe_client_go.Client.Connection.Signal.{after_all-new_client}
use soothe_client_go.Client.Connection.Keeping.{
  connects, closes, reconnects, gets_control, Op, Of, IsSignalled, after_all,
}
use soothe_client_go.Client.Connection.Handshake.{Arrival, took, arrived, dialed, connect}
use soothe_client_go.Client.Connection.Handshake.Ready.{IsSettled, connect-IsSettled}

abbrev pub well : Attempt
well = record { context_err = none; marshal_err = none; write_err = none }

abbrev pub ack : String → Arrival
ack state =
    arrived
      (field "type" (str "connection_ack")
        (field "result" (obj (field "readiness_state" (str state) end)) end))
      none well

abbrev pub starts : List Arrival
starts =
    took none "ping"
    ∷ arrived (field "type" (str "status") end) none well
    ∷ ack "starting"
    ∷ ack "ready"
    ∷ []

connect_twice : (c : Client) × (connect (dialed 1) well starts new_client ≡ some (none, c))
unfolding connect new_client get as_string send_message map_or_nil is_control_frame
connect_twice = (_, refl)

connect-IsSettled_example : IsSettled 1 starts (connect (dialed 1) well starts new_client)
connect-IsSettled_example = connect-IsSettled 1 well starts new_client

abbrev drops : List Op
drops =
    connects (dialed 1) well starts
    ∷ gets_control none "disconnect"
    ∷ closes
    ∷ reconnects (dialed 2) well starts
    ∷ closes
    ∷ []

after_all-new_client_example : Of IsSignalled (after_all drops new_client)
after_all-new_client_example = after_all-new_client drops

wait_for_daemon_ready-connect_example :
    wait_for_daemon_ready connect_twice.0 (timer ∷ []) ≡ some (known "ready")
wait_for_daemon_ready-connect_example =
    wait_for_daemon_ready-connect 1 well starts new_client connect_twice.0 (timer ∷ [])
      connect_twice.1
