-- ===== src/Client/Connection/Signal.antt =====
-- The signal for a drop, over any sequence of operations of the client.
use soothe_client_go.Prelude.{ℕ, if_cases, String, refl, Option, none, some, List, [], ◌∷◌, arith}
use soothe_client_go.Client.Connection.{
  Client, DisconnectCause, unclean, clean, offer_cause, close_channel, Attempt, new_client,
  signal_disconnect, send_pong, is_control_frame, is_connected, close, close_socket,
}
use soothe_client_go.Client.Connection.Handshake.{
  Arrival, HandshakeError, Dialed, dialed, dial_failed, take_ack, reset, settle_connect, connect,
  reconnect,
}
use soothe_client_go.Client.Connection.Keeping.{
  Op, connects, reconnects, closes, sends, gets_control, reader_fails, client_of, step, then_all,
  after_all, IsSignalled, Of, Keeps, send_message-keeps, handshake-keeps,
}

signal_disconnect-IsSignalled :
    (cause : DisconnectCause) (c : Client) → IsSignalled c → IsSignalled (signal_disconnect cause c)
unfolding signal_disconnect offer_cause close_channel
signal_disconnect-IsSignalled cause c h = ground arith

Keeps-IsSignalled : Keeps IsSignalled
unfolding take_ack
Keeps-IsSignalled = record {
  wrote = λ typ c h. h;
  acked = λ result c h. h;
  finished = λ state c h. h;
  signalled = λ c h. signal_disconnect-IsSignalled clean c h;
}

settle_connect-IsSignalled :
    (socket : ℕ) (r : Option (Option HandshakeError × Client))
    → Of IsSignalled (client_of r)
    → Of IsSignalled (client_of (settle_connect socket r))
unfolding settle_connect
settle_connect-IsSignalled socket none h = tt
settle_connect-IsSignalled socket (some (none, c)) h = h
settle_connect-IsSignalled socket (some (some e, c)) h = h

connect-IsSignalled :
    (dial : Dialed) (first : Attempt) (arrivals : List Arrival) (c : Client)
    → IsSignalled c
    → Of IsSignalled (client_of (connect dial first arrivals c))
unfolding connect reset
connect-IsSignalled (dial_failed err) first arrivals c h = h
connect-IsSignalled (dialed socket) first arrivals c h =
    settle_connect-IsSignalled socket _
      (handshake-keeps IsSignalled Keeps-IsSignalled first arrivals _ (refl, refl, refl))

close_socket-IsSignalled :
    (socket : Option ℕ) (c : Client) → IsSignalled c → IsSignalled (close_socket socket c)
close_socket-IsSignalled none c h = h
close_socket-IsSignalled (some socket) c h = h

close-IsSignalled : (c : Client) → IsSignalled c → IsSignalled (close c)
unfolding close
close-IsSignalled c h =
    if_cases IsSignalled (is_connected c) _ _
      (λ _. signal_disconnect-IsSignalled unclean _ (close_socket-IsSignalled c.conn _ h)) (λ _. h)

send_pong-IsSignalled :
    (write_err : Option String) (c : Client) → IsSignalled c → IsSignalled (send_pong write_err c)
unfolding send_pong
send_pong-IsSignalled none c h = if_cases IsSignalled (is_connected c) _ _ (λ _. h) (λ _. h)
send_pong-IsSignalled (some err) c h = h

is_control_frame-IsSignalled :
    (write_err : Option String) (typ : String) (c : Client)
    → IsSignalled c
    → IsSignalled (is_control_frame write_err typ c).1
unfolding is_control_frame
is_control_frame-IsSignalled write_err typ c h =
    ground (arith, send_pong-IsSignalled write_err c h, signal_disconnect-IsSignalled clean c h)

step-IsSignalled : (op : Op) (c : Client) → IsSignalled c → Of IsSignalled (step op c)
unfolding reconnect
step-IsSignalled (connects dial first arrivals) c h = connect-IsSignalled dial first arrivals c h
step-IsSignalled (reconnects dial first arrivals) c h =
    connect-IsSignalled dial first arrivals _ (close_socket-IsSignalled c.conn c h)
step-IsSignalled closes c h = close-IsSignalled c h
step-IsSignalled (sends typ a) c h = send_message-keeps IsSignalled Keeps-IsSignalled typ a c h
step-IsSignalled (gets_control write_err typ) c h = is_control_frame-IsSignalled write_err typ c h
step-IsSignalled reader_fails c h = signal_disconnect-IsSignalled unclean c h

then_all-keeps :
    (f : Client → Option Client) (found : Option Client)
    → ((c : Client) → IsSignalled c → Of IsSignalled (f c))
    → Of IsSignalled found
    → Of IsSignalled (then_all f found)
then_all-keeps f none more h = tt
then_all-keeps f (some c) more h = more c h

after_all-IsSignalled :
    (ops : List Op) (c : Client) → IsSignalled c → Of IsSignalled (after_all ops c)
unfolding after_all
after_all-IsSignalled [] c h = h
after_all-IsSignalled (op ∷ ops) c h =
    then_all-keeps (after_all ops) (step op c) (after_all-IsSignalled ops) (step-IsSignalled op c h)

-- The signal for a drop, after any sequence of calls that has returned: its channel was never closed
-- twice nor written to behind its end. While it is open it is empty, and disconnOnce and
-- IsDisconnected are unset; once it is closed it holds the cause that DisconnectCauseValue gives, and
-- both are set.
pub after_all-new_client : (ops : List Op) → Of IsSignalled (after_all ops new_client)
unfolding new_client
after_all-new_client ops = after_all-IsSignalled ops new_client (refl, refl, refl)
