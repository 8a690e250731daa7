-- ===== src/Client/Connection/Handshake/Ready.antt =====
-- Which frames a handshake goes through before it is complete.
use soothe_client_go.Prelude.{
  ℕ, String, ◌≡◌, inl, inr, refl, false, Option, none, some, List, [], ◌∷◌,
}
use soothe_client_go.Json.{Fields}
use soothe_client_go.Client.Connection.{Client, Attempt, SendError, is_connected}
use soothe_client_go.Client.Connection.Handshake.{
  Arrival, took, read_failed, gone, arrived, HandshakeError, ConnectError, Verdict, returns,
  goes_on, blocked, dialed, on_arrival, follow, await_ack, after_first, handshake, reset,
  settle_connect, connect,
}
use soothe_client_go.Client.Connection.Handshake.Verdicts.{
  Seen, asked, heard, is_control_frame-IsUp, IsUp, Reached, IsComplete, Case, Sent, Ends,
  Ends-weaken, send_message-Sent, on_frame-Case,
}

follow-Reached :
    (socket : ℕ) (n : Seen) (ev : Fields) (context_err : Option String) (again : Attempt)
    (arrivals : List Arrival) (v : Verdict)
    (rest : Client → Option (Option HandshakeError × Client))
    → Case socket n ev v
    → ((m : Seen) (c : Client) → IsUp socket m c → Ends socket m arrivals (rest c))
    → Ends socket n (arrived ev context_err again ∷ arrivals) (follow rest v)
follow-Reached socket n ev ctx again arrivals (returns none c) rest (ready, up, complete) more =
    (inl (ready, up), complete)
follow-Reached socket n ev ctx again arrivals (returns (some err) c) rest h more = tt
follow-Reached socket n ev ctx again arrivals blocked rest h more = tt
follow-Reached socket n ev ctx again arrivals (goes_on c) rest h more = elim h [
  | inl (other, up) ↦
      Ends-weaken socket n arrivals (arrived ev ctx again ∷ arrivals) n (rest c)
        (λ c' r. inr (inl (other, r))) (more n c up)
  | inr (asks, up) ↦
      Ends-weaken socket n arrivals (arrived ev ctx again ∷ arrivals) (asked n) (rest c)
        (λ c' r. inr (inr (asks, r))) (more (asked n) c up)
]

await_ack-Ends :
    (socket : ℕ) (n : Seen) (arrivals : List Arrival) (c : Client)
    → IsUp socket n c
    → Ends socket n arrivals (await_ack arrivals c)
unfolding await_ack on_arrival
await_ack-Ends socket n [] c up = tt
await_ack-Ends socket n (took pong_err typ ∷ arrivals) c up =
    Ends-weaken socket n arrivals (took pong_err typ ∷ arrivals) (heard pong_err typ n) _
      (λ c' r. r)
      (await_ack-Ends socket (heard pong_err typ n) arrivals _
        (is_control_frame-IsUp socket n c up pong_err typ))
await_ack-Ends socket n (read_failed err ∷ arrivals) c up = tt
await_ack-Ends socket n (gone ∷ arrivals) c up = tt
await_ack-Ends socket n (arrived ev ctx again ∷ arrivals) c up =
    follow-Reached socket n ev ctx again arrivals _ (await_ack arrivals)
      (on_frame-Case socket n ev ctx again c up)
      (λ m c' up'. await_ack-Ends socket m arrivals c' up')

-- A client after Connect has dialed: connected behind the acknowledgement of a ready daemon, or without
-- a connection, and the new socket closed.
abbrev pub IsSettled : ℕ → List Arrival → Option (Option ConnectError × Client) → Type 0
IsSettled socket arrivals none = Unit
IsSettled socket arrivals (some (none, c)) = Reached socket (1, false) arrivals c × IsComplete c
IsSettled socket arrivals (some (some err, c)) =
    (is_connected c ≡ false) × (more : List ℕ) × (c.closed_sockets ≡ socket ∷ more)

settle_connect-IsSettled :
    (socket : ℕ) (arrivals : List Arrival) (r : Option (Option HandshakeError × Client))
    → Ends socket (1, false) arrivals r
    → IsSettled socket arrivals (settle_connect socket r)
unfolding settle_connect is_connected
settle_connect-IsSettled socket arrivals none h = tt
settle_connect-IsSettled socket arrivals (some (none, c)) h = h
settle_connect-IsSettled socket arrivals (some (some err, c)) h = (refl, c.closed_sockets, refl)

after_first-Ends :
    (socket : ℕ) (arrivals : List Arrival) (r : Option (Option SendError × Client))
    → Sent socket (0, false) r
    → Ends socket (1, false) arrivals (after_first arrivals r)
unfolding after_first
after_first-Ends socket arrivals none h = tt
after_first-Ends socket arrivals (some (none, c)) h = await_ack-Ends socket (1, false) arrivals c h
after_first-Ends socket arrivals (some (some err, c)) h = tt

-- Connect with a socket that was dialed, where it returns. Without an error: the frames read are
-- control frames, discarded ones and ones that ask for another connection_init (a warning, or a daemon
-- that starts or warms up), and then the acknowledgement of a ready daemon; the client is connected to
-- the socket, its handshake is complete and ready; it has written one connection_init, one more for each
-- frame that asked, and a pong for each ping it could answer; and a drop is signalled exactly if a
-- disconnect frame was among the control frames. With an error: it is not connected, and has closed the
-- socket.
pub connect-IsSettled :
    (socket : ℕ) (first : Attempt) (arrivals : List Arrival) (c : Client)
    → IsSettled socket arrivals (connect (dialed socket) first arrivals c)
unfolding connect handshake reset
connect-IsSettled socket first arrivals c = settle_connect-IsSettled socket arrivals _ (
    after_first-Ends socket arrivals _ (
      send_message-Sent socket (0, false) _ (refl, refl, refl, refl, refl) "connection_init" first))
