-- ===== src/Protocol/Wire/RoundTrip.antt =====
-- What a decoded message becomes when it is written and decoded again.
use mathlib.Core.Path.{fun_ext}
use soothe_client_go.Prelude.{
  String, ◌≡◌, refl, sym, ap, ◌∙◌, true, Bool-cases, ◌⊎◌, inl, inr, Option, none, some, List, ◌==◌,
  contains_key, eq_iff, then_case,
}
use soothe_client_go.Json.{Value, null, str, obj, Fields, get}
use soothe_client_go.Protocol.{
  EventMessage, StatusResponse, Envelope, Message, event, status, envelope, error_response, raw,
  unknown, next_to_event_message,
}
use soothe_client_go.Protocol.Wire.{
  Source, read_text, decode_envelope, decode_event, decode_status, decode_typed, decode_fields,
  with_loop_id, alternative_loop_id, envelope_types, decode_message, message_of, ◌>>=◌,
}
use soothe_client_go.Protocol.Encoding.{
  fields_of, envelope_fields, event_fields, status_fields, encode_message,
}
use soothe_client_go.Protocol.Wire.Pieces.{
  find, get-fields_of, IsExact, HasExact, normal_envelope, decode_envelope-fields,
  decode_event-fields, decode_status-fields,
}

pub decode_fields-type :
    (parse_time : String → Option String) (fs : Fields) (proto typ : String)
    → read_text (get "proto" fs) ≡ some proto
    → read_text (get "type" fs) ≡ some typ
    → decode_fields parse_time fs ≡ decode_typed parse_time typ fs
unfolding decode_fields
decode_fields-type parse_time fs proto typ p t = rw (p, t) refl

decode_fields-fields_of :
    (parse_time : String → Option String) (l : List (String × Option Value)) (proto typ : String)
    → read_text (find l "proto") ≡ some proto
    → read_text (find l "type") ≡ some typ
    → decode_fields parse_time (fields_of l) ≡ decode_typed parse_time typ (fields_of l)
decode_fields-fields_of parse_time l proto typ p t =
    decode_fields-type parse_time (fields_of l) proto typ
      (ap read_text (get-fields_of l "proto") ∙ p) (ap read_text (get-fields_of l "type") ∙ t)

-- The map of fields as it is read
source-fields_of :
    (l : List (String × Option Value)) → (λ (k : String). get k (fields_of l)) ≡ find l
source-fields_of l = fun_ext (get-fields_of l)

decode_typed-envelope :
    (parse_time : String → Option String) (typ : String) (fs : Fields) (e : Envelope)
    → contains_key typ envelope_types ≡ true
    → decode_envelope (λ k. get k fs) ≡ some e
    → decode_typed parse_time typ fs ≡ some (envelope e)
unfolding decode_typed
decode_typed-envelope parse_time typ fs e known h =
    then_case (contains_key typ envelope_types) _ _ known
    ∙ ap (λ (r : Option Envelope). r >>= λ x. some (envelope x)) h

decode_typed-next :
    (parse_time : String → Option String) (fs : Fields) (e : Envelope)
    → decode_envelope (λ k. get k fs) ≡ some e
    → next_to_event_message e ≡ none
    → decode_typed parse_time "next" fs ≡ some (envelope e)
unfolding decode_typed
decode_typed-next parse_time fs e h stays =
    ap (λ (r : Option Envelope). r >>= λ x. some (message_of x)) h ∙ rw (stays, message_of) refl

decode_typed-event :
    (parse_time : String → Option String) (fs : Fields) (m : EventMessage)
    → decode_event parse_time (λ k. get k fs) ≡ some m
    → decode_typed parse_time "event" fs ≡ some (event m)
unfolding decode_typed
decode_typed-event parse_time fs m h = ap (λ (r : Option EventMessage). r >>= λ x. some (event x)) h

decode_typed-status :
    (parse_time : String → Option String) (fs : Fields) (m : StatusResponse)
    → decode_status (λ k. get k fs) ≡ some m
    → decode_typed parse_time "status" fs ≡ some (status (with_loop_id (λ k. get k fs) m))
unfolding decode_typed
decode_typed-status parse_time fs m h =
    ap (λ (r : Option StatusResponse). r >>= λ x. some (status (with_loop_id (λ k. get k fs) x))) h

read_text-null : read_text null ≡ some ""
unfolding read_text
read_text-null = refl

pub read_text-str : (s : String) → read_text (str s) ≡ some s
unfolding read_text
read_text-str s = refl

with_loop_id-status : (m : StatusResponse) → with_loop_id (find (status_fields m)) m ≡ m
unfolding with_loop_id alternative_loop_id
with_loop_id-status m = elim (Bool-cases (m.loop_id == "")) [
  | inl e ↦ rw e (ap (λ (id : String). record m { loop_id = id }) (sym ((eq_iff m.loop_id "").0 e)))
  | inr e ↦ rw e refl
]

-- The messages that are written and decoded under their own types, with numbers that a float64 holds
abbrev pub IsWire : (String → Option String) → Message → Type 0
IsWire parse_time (event m) =
    (m.type' ≡ "event") × (parse_time m.timestamp ≡ some m.timestamp) × IsExact m.seq
IsWire parse_time (status m) = (m.type' ≡ "status") × IsExact m.seq
IsWire parse_time (envelope e) =
    ((contains_key e.type' envelope_types ≡ true)
      ⊎ ((e.type' ≡ "next") × (next_to_event_message (normal_envelope e) ≡ none)))
    × HasExact e.error
IsWire parse_time _ = ⊥

abbrev pub normal_message : Message → Message
normal_message (envelope e) = envelope (normal_envelope e)
normal_message m = m

decode-envelope :
    (parse_time : String → Option String) (e : Envelope)
    → IsWire parse_time (envelope e)
    → decode_typed parse_time e.type' (fields_of (envelope_fields e))
      ≡ some (envelope (normal_envelope e))
decode-envelope parse_time e (h, small) =
    let back : decode_envelope (λ k. get k (fields_of (envelope_fields e)))
        ≡ some (normal_envelope e) =
      ap decode_envelope (source-fields_of (envelope_fields e)) ∙ decode_envelope-fields e small in
    elim h [
      | inl known ↦ decode_typed-envelope parse_time e.type' _ (normal_envelope e) known back
      | inr (next, stays) ↦
          ap (λ (typ : String). decode_typed parse_time typ (fields_of (envelope_fields e))) next
          ∙ decode_typed-next parse_time _ (normal_envelope e) back stays
    ]

-- The map that is made of a message for routing (json.Marshal and json.Unmarshal) is decoded to the
-- same message: an event or a status, and an envelope of a type of its own or of the type "next" with
-- no event in it, up to nil in the place of its empty maps; where the sequence number, or the code of an
-- error, is at most 2^53 in magnitude, which a float64 holds.
pub decode_message-encode_message :
    (parse_time : String → Option String) (m : Message)
    → IsWire parse_time m
    → decode_message parse_time (obj (encode_message m)) ≡ some (normal_message m)
unfolding decode_message encode_message
decode_message-encode_message parse_time (event m) (t, time, small) =
    decode_fields-fields_of parse_time (event_fields m) "" m.type' read_text-null
      (read_text-str m.type')
    ∙ ap (λ (typ : String). decode_typed parse_time typ (fields_of (event_fields m))) t
    ∙ decode_typed-event parse_time _ m (
        ap (decode_event parse_time) (source-fields_of (event_fields m))
        ∙ decode_event-fields parse_time m time small)
decode_message-encode_message parse_time (status m) (t, small) =
    decode_fields-fields_of parse_time (status_fields m) "" m.type' read_text-null
      (read_text-str m.type')
    ∙ ap (λ (typ : String). decode_typed parse_time typ (fields_of (status_fields m))) t
    ∙ decode_typed-status parse_time _ m
        (ap decode_status (source-fields_of (status_fields m)) ∙ decode_status-fields m small)
    ∙ ap (λ (at : Source). some (status (with_loop_id at m))) (source-fields_of (status_fields m))
    ∙ ap (λ (x : StatusResponse). some (status x)) (with_loop_id-status m)
decode_message-encode_message parse_time (envelope e) h =
    decode_fields-fields_of parse_time (envelope_fields e) e.proto e.type' (read_text-str e.proto)
      (read_text-str e.type')
    ∙ decode-envelope parse_time e h
decode_message-encode_message parse_time (raw m) h = absurd h
decode_message-encode_message parse_time (error_response m) h = absurd h
decode_message-encode_message parse_time unknown h = absurd h
