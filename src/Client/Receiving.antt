-- ===== src/Client/Receiving.antt =====
-- client.go: ReceiveMessages, the goroutine that reads the socket for the application.
pub mod Account
pub mod Events
pub mod Messages
use soothe_client_go.Prelude.{
  ℕ, zero, suc, String, Bool, true, false, Option, none, some, List, [], ◌∷◌, ◌++◌, if◌then◌else◌,
}
use soothe_client_go.Json.{Value, Fields}
use soothe_client_go.Protocol.{Message, envelope}
use soothe_client_go.Protocol.Wire.{decode_message, expand_wire_messages}
use soothe_client_go.Protocol.Encoding.{encode_message}
use soothe_client_go.Protocol.Payload.{split_soothe_wire_payload}
use soothe_client_go.Multiplexer.{Mux, route}
use soothe_client_go.Client.Delivery.{Delivery, track_inbound_delivery_ack}
use soothe_client_go.Client.Connection.{
  Client, unclean, signal_disconnect, is_connected, is_control_frame, close,
}

-- The client with its acknowledgements, the messages that were sent on the channel, and whether the
-- reader runs; its end closes the channel.
pub record Receiver : Type 0 where
  pub client : Client
  pub delivery : Delivery
  pub out : List Message
  pub reader_active : Bool

-- How the goroutine stands: it goes on, or it has returned, behind a failed read or not
pub data Standing : Type 0 where
  going : Standing
  over : Standing
  broken : Standing

-- What the goroutine meets: the context at its end, a read that fails, or a payload, with the error of
-- each pong that is written and the number of messages that the channel takes before `ctx.Done()` is
-- chosen, if it is. Before a read, other goroutines may close the client or change its waiters.
pub data Round : Type 0 where
  context_done : Round
  read_failed : Round
  payload : (data' : String) (pong_err : ℕ → Option String) (room : Option ℕ) → Round
  closing : Round
  meanwhile : (change : Mux → Mux) → Round

unfoldable pub control_of : Option String → Message → Client → Bool × Client
unfolding is_control_frame
control_of pong_err (envelope m) c = is_control_frame pong_err m.type' c
control_of pong_err _ c = (false, c)

-- `select { case ch <- expanded: case <-ctx.Done(): return }`
unfoldable pub deliver : Option ℕ → Message → Receiver → Standing × Option ℕ × Receiver
deliver (some zero) m r = (over, some zero, r)
deliver (some (suc n)) m r = (going, some n, record r { out = r.out ++ m ∷ [] })
deliver none m r = (going, none, record r { out = r.out ++ m ∷ [] })

-- A heartbeat changes nothing of its tracker (Heartbeat), so that this call is left out.
unfoldable pub forward : Option ℕ → Message → Receiver → Standing × Option ℕ × Receiver
unfolding deliver
forward room m r =
    let event = encode_message m in
    let (routed, mux') = route event r.client.mux in
    let r' = record r { client = record (r.client) { mux = mux' } } in
    if routed
    then (going, room, r')
    else deliver room m (record r' { delivery = track_inbound_delivery_ack event r.delivery })

unfoldable pub take_message :
    Option String → Option ℕ → Message → Receiver → Standing × Option ℕ × Receiver
unfolding control_of forward
take_message pong_err room m r =
    let (taken, c) = control_of pong_err m r.client in
    let r' = record r { client = c } in if taken then (going, room, r') else forward room m r'

-- The rest of a payload behind a message
abbrev pub then_rest :
    (Option ℕ → Receiver → Standing × Receiver)
    → Standing × Option ℕ × Receiver
    → Standing × Receiver
then_rest rest (going, room, r) = rest room r
then_rest rest (over, room, r) = (over, r)
then_rest rest (broken, room, r) = (broken, r)

unfoldable pub take_messages :
    (ℕ → Option String) → ℕ → Option ℕ → List Message → Receiver → Standing × Receiver
unfolding take_message
take_messages pong_err i room [] r = (going, r)
take_messages pong_err i room (m ∷ ms) r =
    then_rest (λ left r'. take_messages pong_err (suc i) left ms r')
      (take_message (pong_err i) room m r)

-- `parse` is what json.Unmarshal makes of a text, and `parse_time` what time.Time makes of one.
module _ (parse : String → Option Value) (parse_time : String → Option String) where
  unfoldable pub line_messages : Option Value → List Message
  unfolding expand_wire_messages
  line_messages none = []
  line_messages (some v) = elim (decode_message parse_time v) [
    | none ↦ []
    | some m ↦ expand_wire_messages parse_time m
  ]

  unfoldable pub lines_messages : List String → List Message
  unfolding line_messages
  lines_messages [] = []
  lines_messages (line ∷ lines) = line_messages (parse line) ++ lines_messages lines

  -- The messages of a payload, in their order
  unfoldable pub payload_messages : String → List Message
  unfolding lines_messages
  payload_messages data' = lines_messages (split_soothe_wire_payload data')

  unfoldable pub receive_round : Round → Receiver → Standing × Receiver
  unfolding payload_messages take_messages is_connected signal_disconnect close
  receive_round context_done r = (over, r)
  receive_round read_failed r =
      if is_connected r.client
      then (broken, record r { client = signal_disconnect unclean r.client })
      else (over, r)
  receive_round (payload data' pong_err room) r =
      if is_connected r.client
      then take_messages pong_err 0 room (payload_messages data') r
      else (over, r)
  receive_round closing r = (going, record r { client = close r.client })
  receive_round (meanwhile change) r =
      (going, record r { client = record (r.client) { mux = change r.client.mux } })

  abbrev pub then_rounds :
      (Receiver → Standing × Receiver) → Standing × Receiver → Standing × Receiver
  then_rounds rest (going, r) = rest r
  then_rounds rest (over, r) = (over, r)
  then_rounds rest (broken, r) = (broken, r)

  unfoldable pub receive : List Round → Receiver → Standing × Receiver
  unfolding receive_round
  receive [] r = (going, r)
  receive (round ∷ rounds) r = then_rounds (receive rounds) (receive_round round r)

  unfoldable pub finish : Standing × Receiver → Receiver
  finish (going, r) = r
  finish (ended, r) = record r { reader_active = false }

  -- ReceiveMessages, with what its goroutine then meets; `none` is its error.
  unfoldable pub receive_messages : List Round → Receiver → Option Receiver
  unfolding receive finish is_connected
  receive_messages rounds r =
      if is_connected r.client
      then some (finish (receive rounds (record r { out = []; reader_active = true })))
      else none
