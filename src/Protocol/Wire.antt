-- ===== src/Protocol/Wire.antt =====
-- protocol.go: DecodeMessage and ExpandWireMessages over JSON values.
pub mod RoundTrip
pub mod Pieces
pub mod Unrouted
use soothe_client_go.Prelude.{
  String, Bool, true, false, not, ◌||◌, Option, none, some, List, [], ◌∷◌, ◌++◌, ◌==◌, contains_key,
  if◌then◌else◌,
}
use soothe_client_go.Prelude.Int.{ℤ, pos, eqb_ℤ}
use soothe_client_go.Json.{
  Number, Value, null, str, num, arr, obj, Items, nil, cons, Fields, end, field, get, text_of,
}
use soothe_client_go.Protocol.{
  EventMessage, new_event, zero_time, StatusResponse, ErrorObject, Envelope, Message, event, status,
  envelope, error_response, raw, unknown, next_to_event_message, first_text,
}

-- `none` is an error of json.Unmarshal.
infixl 5 ◌>>=◌
abbrev pub ◌>>=◌ {ℓ κ} : {A : Type ℓ} {B : Type κ} → Option A → (A → Option B) → Option B
none >>= f = none
some a >>= f = f a

-- json.Unmarshal of a value into a field of a struct, where a missing value and null leave its zero
-- value: a string, a map, a pointer to an ErrorObject, an int. An int takes a number that is whole.
unfoldable pub read_text : Value → Option String
read_text null = some ""
read_text (str s) = some s
read_text _ = none

unfoldable pub read_map : Value → Option (Option Fields)
read_map null = some none
read_map (obj m) = some (some m)
read_map _ = none

unfoldable pub read_int : Value → Option ℤ
read_int null = some (pos 0)
read_int (num n) = if n.exact then some n.floor else none
read_int _ = none

unfoldable pub read_items : Value → Option Items
read_items null = some nil
read_items (arr items) = some items
read_items _ = none

unfoldable pub read_strings : Items → Option (List String)
unfolding read_text
read_strings nil = some []
read_strings (cons v items) = do s ← read_text v; more ← read_strings items; some (s ∷ more)

-- The keys of a struct, as the map that is read has them; encoding/json would take a key in another
-- case as well.
abbrev pub Source : Type 0
Source = String → Value

unfoldable pub decode_error_object : Source → Option ErrorObject
unfolding read_int read_text read_map
decode_error_object at = do
  code ← read_int (at "code")
  message ← read_text (at "message")
  data' ← read_map (at "data")
  some (record { code = code; message = message; data' = data' })

unfoldable pub read_error : Value → Option (Option ErrorObject)
unfolding decode_error_object
read_error null = some none
read_error (obj m) = do e ← decode_error_object (λ k. get k m); some (some e)
read_error _ = none

unfoldable pub decode_envelope : Source → Option Envelope
unfolding read_text read_map read_error
decode_envelope at = do
  proto ← read_text (at "proto")
  type' ← read_text (at "type")
  method ← read_text (at "method")
  params ← read_map (at "params")
  id ← read_text (at "id")
  result ← read_map (at "result")
  error ← read_error (at "error")
  payload ← read_map (at "payload")
  receipt ← read_text (at "receipt")
  some (record {
    proto = proto;
    type' = type';
    method = method;
    params = params;
    id = id;
    result = result;
    error = error;
    payload = payload;
    receipt = receipt;
  })

-- The types of the frames that are decoded into an Envelope
abbrev pub envelope_types : List String
envelope_types =
    "connection_init" ∷ "connection_ack" ∷ "request" ∷ "response" ∷ "notification" ∷ "subscribe"
    ∷ "error" ∷ "complete" ∷ "unsubscribe" ∷ "ping" ∷ "pong" ∷ "receipt_response" ∷ "disconnect"
    ∷ []

-- `parse_time` is what time.Time makes of a text in a timestamp, as the text of the time, or none
-- where it refuses the text.
module _ (parse_time : String → Option String) where
  unfoldable pub read_time : Value → Option String
  read_time null = some zero_time
  read_time (str s) = parse_time s
  read_time _ = none

  unfoldable pub decode_event : Source → Option EventMessage
  unfolding read_text read_int read_time
  decode_event at = do
    request_id ← read_text (at "request_id")
    type' ← read_text (at "type")
    loop_id ← read_text (at "loop_id")
    turn_id ← read_text (at "turn_id")
    seq ← read_int (at "seq")
    mode ← read_text (at "mode")
    timestamp ← read_time (at "timestamp")
    some (record {
      request_id = request_id;
      type' = type';
      loop_id = loop_id;
      turn_id = turn_id;
      seq = seq;
      namespace = at "namespace";
      mode = mode;
      data' = at "data";
      timestamp = timestamp;
    })

unfoldable pub decode_status : Source → Option StatusResponse
unfolding read_text read_int read_items read_strings
decode_status at = do
  request_id ← read_text (at "request_id")
  type' ← read_text (at "type")
  state ← read_text (at "state")
  loop_id ← read_text (at "loop_id")
  turn_id ← read_text (at "turn_id")
  seq ← read_int (at "seq")
  workspace ← read_text (at "workspace")
  history ← read_items (at "input_history")
  input_history ← read_strings history
  conversation_history ← read_items (at "conversation_history")
  some (record {
    request_id = request_id;
    type' = type';
    state = state;
    loop_id = loop_id;
    turn_id = turn_id;
    seq = seq;
    workspace = workspace;
    input_history = input_history;
    conversation_history = conversation_history;
  })

-- The camelCase id, where the other one is missing; an error of its decoding leaves the id empty.
unfoldable pub alternative_loop_id : Value → String
alternative_loop_id (str s) = s
alternative_loop_id _ = ""

unfoldable pub with_loop_id : Source → StatusResponse → StatusResponse
unfolding alternative_loop_id
with_loop_id at m = record m {
  loop_id = first_text (m.loop_id) (alternative_loop_id (at "loopId"));
}

abbrev pub message_of : Envelope → Message
message_of env = elim (next_to_event_message env) [ none ↦ envelope env | some em ↦ event em ]

unfoldable pub decode_typed : (String → Option String) → String → Fields → Option Message
unfolding decode_envelope decode_event decode_status with_loop_id
decode_typed parse_time typ fs =
    let at : Source = λ k. get k fs in
    if contains_key typ envelope_types
    then (do env ← decode_envelope at; some (envelope env))
    else if typ == "next"
    then (do env ← decode_envelope at; some (message_of env))
    else if typ == "event"
    then (do m ← decode_event parse_time at; some (event m))
    else if typ == "status"
    then (do m ← decode_status at; some (status (with_loop_id at m)))
    else some (raw fs)

-- The probe for `proto` and `type`, and the switch on the type
unfoldable pub decode_fields : (String → Option String) → Fields → Option Message
unfolding decode_typed read_text
decode_fields parse_time fs = do
  proto ← read_text (get "proto" fs)
  typ ← read_text (get "type" fs)
  decode_typed parse_time typ fs

-- DecodeMessage of the text of that value; `none` is an error. A null is a nil map.
unfoldable pub decode_message : (String → Option String) → Value → Option Message
unfolding decode_fields
decode_message parse_time null = some (raw end)
decode_message parse_time (obj fs) = decode_fields parse_time fs
decode_message parse_time _ = none

-- The maps among the events of a batch that can be decoded. json.Marshal and json.Unmarshal give a
-- map back as it is.
unfoldable pub expand_events : (String → Option String) → Items → List Message
unfolding decode_fields
expand_events parse_time nil = []
expand_events parse_time (cons (obj fs) items) =
    let more = expand_events parse_time items in
    elim (decode_fields parse_time fs) [ none ↦ more | some m ↦ m ∷ more ]
expand_events parse_time (cons _ items) = expand_events parse_time items

unfoldable pub expand_batch : (String → Option String) → Value → List Message
unfolding expand_events
expand_batch parse_time (arr items) = expand_events parse_time items
expand_batch parse_time _ = []

-- ExpandWireMessages
unfoldable pub expand_wire_messages : (String → Option String) → Message → List Message
unfolding expand_batch
expand_wire_messages parse_time (raw m) =
    if text_of "type" m == "event_batch"
    then expand_batch parse_time (get "events" m)
    else raw m ∷ []
expand_wire_messages parse_time m = m ∷ []
