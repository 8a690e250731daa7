-- ===== src/Protocol/Wire/Unrouted.antt =====
-- Which waiter gets an event that came in a `next` frame.
use soothe_client_go.Prelude.{
  String, ◌≡◌, refl, sym, ap, ◌∙◌, subst, false, Option, none, some, arith, Option-cases, inl, inr,
}
use soothe_client_go.Json.{str, obj, Fields, get, text_of, as_string}
use soothe_client_go.Multiplexer.{Mux, route}
use soothe_client_go.Protocol.{
  EventMessage, Envelope, Message, event, envelope, inner_to_event_message,
  payload_to_event_message, project_payload, or_else, next_to_event_message,
}
use soothe_client_go.Protocol.Wire.{
  read_text, decode_envelope, decode_typed, decode_fields, decode_message, message_of,
}
use soothe_client_go.Protocol.Encoding.{event_fields, encode_message}
use soothe_client_go.Protocol.Wire.RoundTrip.{read_text-str, decode_fields-type}
use soothe_client_go.Protocol.Wire.Pieces.{get-fields_of}

abbrev OfEvent : Option EventMessage → Type 0
OfEvent none = Unit
OfEvent (some em) = em.type' ≡ "event"

-- An event among the messages has its type.
abbrev IsTyped : Option Message → Type 0
IsTyped (some (event em)) = em.type' ≡ "event"
IsTyped _ = Unit

inner-OfEvent : (inner : Fields) → OfEvent (inner_to_event_message inner)
unfolding inner_to_event_message
inner-OfEvent inner = ground arith

payload-OfEvent : (payload : Fields) → OfEvent (payload_to_event_message payload)
unfolding payload_to_event_message
payload-OfEvent payload = ground arith

or_else-OfEvent :
    (own other : Option EventMessage) → OfEvent own → OfEvent other → OfEvent (or_else own other)
or_else-OfEvent none other h k = k
or_else-OfEvent (some em) other h k = h

project_payload-OfEvent : (payload : Fields) → OfEvent (project_payload payload)
unfolding project_payload
project_payload-OfEvent payload =
    elim (get "data" payload)
      as (λ v. OfEvent (elim v [
        | obj inner ↦ or_else (inner_to_event_message inner) (payload_to_event_message payload)
        | _ ↦ payload_to_event_message payload
      ])) [
        | obj inner ↦ or_else-OfEvent _ _ (inner-OfEvent inner) (payload-OfEvent payload)
        | _ ↦ payload-OfEvent payload
      ]

next-OfEvent : (e : Envelope) → OfEvent (next_to_event_message e)
unfolding next_to_event_message
next-OfEvent e = elim (Option-cases e.payload) [
  | inl p ↦ rw (p, next_to_event_message) tt
  | inr (payload, p) ↦ rw (p, next_to_event_message) (project_payload-OfEvent payload)
]

chosen-IsTyped :
    (found : Option EventMessage) (e : Envelope)
    → OfEvent found
    → IsTyped (some (elim found [ none ↦ envelope e | some em ↦ event em ]))
chosen-IsTyped none e h = tt
chosen-IsTyped (some em) e h = h

message_of-IsTyped : (e : Envelope) → IsTyped (some (message_of e))
message_of-IsTyped e = chosen-IsTyped (next_to_event_message e) e (next-OfEvent e)

decode_typed-IsTyped :
    (parse_time : String → Option String) (fs : Fields)
    → IsTyped (decode_typed parse_time "next" fs)
unfolding decode_typed
decode_typed-IsTyped parse_time fs = elim (Option-cases (decode_envelope (λ k. get k fs))) [
  | inl e ↦ rw e tt
  | inr (env, e) ↦ rw e (message_of-IsTyped env)
]

decode_fields-IsTyped :
    (parse_time : String → Option String) (fs : Fields)
    → get "type" fs ≡ str "next"
    → IsTyped (decode_fields parse_time fs)
unfolding decode_fields
decode_fields-IsTyped parse_time fs t = elim (Option-cases (read_text (get "proto" fs))) [
  | inl e ↦ rw e tt
  | inr (proto, e) ↦
      subst IsTyped
        (sym
          (decode_fields-type parse_time fs proto "next" e (ap read_text t ∙ read_text-str "next")))
        (decode_typed-IsTyped parse_time fs)
]

route-event : (ev : Fields) (m : Mux) → text_of "type" ev ≡ "event" → route ev m ≡ (false, m)
unfolding route
route-event ev m t = rw t refl

type-event : (em : EventMessage) → text_of "type" (encode_message (event em)) ≡ em.type'
unfolding encode_message as_string
type-event em = ap as_string (get-fields_of (event_fields em) "type")

-- An event that DecodeMessage makes of a `next` frame is routed to nobody, also where a subscription
-- waits under the id of the frame: it goes on to the application, and the multiplexer stays.
pub next_event-unrouted :
    (parse_time : String → Option String) (fs : Fields) (em : EventMessage) (m : Mux)
    → get "type" fs ≡ str "next"
    → decode_message parse_time (obj fs) ≡ some (event em)
    → route (encode_message (event em)) m ≡ (false, m)
unfolding decode_message
next_event-unrouted parse_time fs em m t h =
    route-event (encode_message (event em)) m
      (type-event em ∙ subst IsTyped h (decode_fields-IsTyped parse_time fs t))
