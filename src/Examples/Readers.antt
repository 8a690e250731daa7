-- ===== src/Examples/Readers.antt =====
-- The readers of a client at concrete payloads.
use soothe_client_go.Prelude.{
  List, String, trim_space, true, Option, none, some, [], ◌∷◌, ◌==◌, if◌then◌else◌,
}
use soothe_client_go.Protocol.{Message}
use soothe_client_go.Json.{Value, obj, str, field, end, as_string, get}
use soothe_client_go.TurnId.{split}
use soothe_client_go.Multiplexer.{route}
use soothe_client_go.Protocol.Wire.{decode_message}
use soothe_client_go.Protocol.Encoding.{encode_message}
use soothe_client_go.Protocol.Payload.{split_soothe_wire_payload}
use soothe_client_go.Request.{control, frame, payload as read_payload}
use soothe_client_go.Client.Delivery.{new_delivery}
use soothe_client_go.Client.Connection.{new_client}
use soothe_client_go.Client.Connection.Live.{Meeting, Probed, is_daemon_live, is_daemon_live-Probed}
use soothe_client_go.Client.Connection.Handshake.{dialed}
use soothe_client_go.Client.Receiving.{Receiver, payload, closing, meanwhile, receive}
use soothe_client_go.Client.Receiving.Events.{Accounts}
use soothe_client_go.Client.Receiving.Account.{all_events, receive-Accounts}
use soothe_client_go.Examples.Connections.{well, starts}

-- A text stands for a message of that type.
abbrev typed_text : String → Option Value
typed_text text = if text == "" then none else some (obj (field "type" (str text) end))

abbrev no_time : String → Option String
no_time text = none

abbrev reader : Receiver
reader = record {
  client = record new_client { conn = some 3 };
  delivery = new_delivery;
  out = [];
  reader_active = true;
}

receive-Accounts_example :
    Accounts
      (all_events typed_text no_time (
        payload "status" (λ i. none) none
        ∷ meanwhile (λ mux. mux)
        ∷ payload "status" (λ i. none) (some 0)
        ∷ closing
        ∷ []))
      reader
      (receive typed_text no_time
        (payload "status" (λ i. none) none
          ∷ meanwhile (λ mux. mux)
          ∷ payload "status" (λ i. none) (some 0)
          ∷ closing
          ∷ [])
        reader)
receive-Accounts_example =
    receive-Accounts typed_text no_time
      (payload "status" (λ i. none) none
        ∷ meanwhile (λ mux. mux)
        ∷ payload "status" (λ i. none) (some 0)
        ∷ closing
        ∷ [])
      reader

-- The status request is written, meets a ping, and is replied to.
abbrev asked_once : Meeting
asked_once = record {
  attempt = well;
  id = "r1";
  passes =
      read_payload
        (control ∷ frame (field "type" (str "response") (field "id" (str "r1") end)) ∷ [])
      ∷ [];
  controls = (none, "ping") ∷ [];
}

is_daemon_live-Probed_example :
    Probed asked_once 1 starts (is_daemon_live asked_once (dialed 1) well starts)
is_daemon_live-Probed_example = is_daemon_live-Probed asked_once 1 well starts

-- A list of one message
abbrev HasOne : List Message → Type 0
HasOne [] = ⊥
HasOne (m ∷ []) = Unit
HasOne (m ∷ ms) = ⊥

-- Of a status, a ping and a message at which the context ends, the status alone is sent.
sent_once : HasOne (
    (receive typed_text no_time
      (payload "status" (λ i. none) none
        ∷ payload "ping" (λ i. none) none
        ∷ payload "complete" (λ i. none) (some 0)
        ∷ [])
      reader).1.out)
unfolding receive new_client trim_space get as_string split_soothe_wire_payload split decode_message
    route encode_message
sent_once = tt
