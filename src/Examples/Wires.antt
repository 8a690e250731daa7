-- ===== src/Examples/Wires.antt =====
-- Messages at concrete payloads.
use soothe_client_go.Prelude.{String, ◌≡◌, refl, trim_space, false, some, Option, [], ◌∷◌, inl}
use soothe_client_go.Json.{Fields, str, obj, end, field, get, as_string}
use soothe_client_go.TurnId.{split}
use soothe_client_go.Multiplexer.{route, new_mux}
use soothe_client_go.Protocol.{
  EventMessage, new_event, Envelope, new_envelope, event, envelope, next_to_event_message,
  project_payload, payload_to_event_message,
}
use soothe_client_go.Protocol.Wire.{decode_message}
use soothe_client_go.Protocol.Encoding.{encode_message}
use soothe_client_go.Protocol.Wire.RoundTrip.{decode_message-encode_message}
use soothe_client_go.Protocol.Wire.Unrouted.{next_event-unrouted}
use soothe_client_go.Protocol.Payload.{split_soothe_wire_payload}

abbrev any_time : String → Option String
any_time s = some s

abbrev two_lines : String
two_lines = " {}\n\n {\"a\":1} \n"

two_frames : split_soothe_wire_payload two_lines ≡ "{}" ∷ "{\"a\":1}" ∷ []
unfolding split_soothe_wire_payload trim_space split
two_frames = refl

abbrev answer : Envelope
answer = record (new_envelope "response") { id = "r1"; result = some (field "ok" (str "yes") end) }

decode_message-encode_message_example :
    decode_message any_time (obj (encode_message (envelope answer))) ≡ some (envelope answer)
decode_message-encode_message_example =
    decode_message-encode_message any_time (envelope answer) (inl refl, tt)

abbrev next_frame : Fields
next_frame = field "type" (str "next") (
    field "id" (str "s1")
      (field "payload" (obj (field "mode" (str "messages") (field "data" (str "hi") end))) end))

abbrev next_event : EventMessage
next_event = record new_event { mode = "messages"; data' = str "hi" }

next_event-unrouted_example : route (encode_message (event next_event)) new_mux ≡ (false, new_mux)
unfolding decode_message get next_to_event_message project_payload payload_to_event_message
    as_string
next_event-unrouted_example = next_event-unrouted any_time next_frame next_event new_mux refl refl
