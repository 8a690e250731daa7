-- ===== src/Protocol.antt =====
-- protocol.go: decoded messages, the projection of `next` envelopes, and what is read from a
-- decoded event. A `map[string]interface{}` field that may be nil is an `Option Fields`.
pub mod LoopId
pub mod Wire
pub mod Envelopes
pub mod Encoding
pub mod Payload
use Prim.Native.String.{◌++◌ as concat}
use soothe_client_go.Prelude.{
  String, Bool, true, false, not, ◌&&◌, ◌||◌, Option, none, some, List, [], ◌∷◌, ◌==◌, contains_key,
  if◌then◌else◌,
}
use soothe_client_go.Prelude.Int.{ℤ, pos}
use soothe_client_go.TurnId.{split}
use soothe_client_go.Json.{
  Value, null, str, arr, obj, Items, nil, cons, Fields, get, has, as_string, text_of,
}

-- EventMessage, with its BaseMessage. `timestamp` is the text that time.Time makes of it.
pub record EventMessage : Type 0 where
  pub request_id : String
  pub type' : String
  pub loop_id : String
  pub turn_id : String
  pub seq : ℤ
  pub namespace : Value
  pub mode : String
  pub data' : Value
  pub timestamp : String

-- The text of the zero time
abbrev pub zero_time : String
zero_time = "0001-01-01T00:00:00Z"

-- `EventMessage{BaseMessage: BaseMessage{Type: "event"}}`
abbrev pub new_event : EventMessage
new_event = record {
  request_id = "";
  type' = "event";
  loop_id = "";
  turn_id = "";
  seq = pos 0;
  namespace = null;
  mode = "";
  data' = null;
  timestamp = zero_time;
}

-- StatusResponse, with its BaseMessage
pub record StatusResponse : Type 0 where
  pub request_id : String
  pub type' : String
  pub state : String
  pub loop_id : String
  pub turn_id : String
  pub seq : ℤ
  pub workspace : String
  pub input_history : List String
  pub conversation_history : Items

-- `StatusResponse{}` of the type "status"
abbrev pub new_status : StatusResponse
new_status = record {
  request_id = "";
  type' = "status";
  state = "";
  loop_id = "";
  turn_id = "";
  seq = pos 0;
  workspace = "";
  input_history = [];
  conversation_history = nil;
}

-- ErrorObject
pub record ErrorObject : Type 0 where
  pub code : ℤ
  pub message : String
  pub data' : Option Fields

-- Envelope
pub record Envelope : Type 0 where
  pub proto : String
  pub type' : String
  pub method : String
  pub params : Option Fields
  pub id : String
  pub result : Option Fields
  pub error : Option ErrorObject
  pub payload : Option Fields
  pub receipt : String

-- `Envelope{Type: typ}`
abbrev pub new_envelope : String → Envelope
new_envelope typ = record {
  proto = "";
  type' = typ;
  method = "";
  params = none;
  id = "";
  result = none;
  error = none;
  payload = none;
  receipt = "";
}

-- ErrorResponse
pub record ErrorResponse : Type 0 where
  pub code : String
  pub message : String

-- What a decoded `interface{}` message holds, as the type switches of the client tell it apart.
pub data Message : Type 0 where
  event : EventMessage → Message
  status : StatusResponse → Message
  envelope : Envelope → Message
  error_response : ErrorResponse → Message
  raw : Fields → Message
  unknown : Message

unfoldable pub inner_to_event_message : Fields → Option EventMessage
inner_to_event_message inner =
    let inner_type = text_of "type" inner in
    if (inner_type == "event" || inner_type == "") && has "mode" inner
    then some (record new_event {
      loop_id = text_of "loop_id" inner;
      namespace = get "namespace" inner;
      mode = text_of "mode" inner;
      data' = get "data" inner;
    })
    else none

is_text : Value → Bool
is_text (str s) = true
is_text _ = false

unfoldable pub payload_to_event_message : Fields → Option EventMessage
unfolding is_text
payload_to_event_message payload =
    if is_text (get "mode" payload) || has "data" payload
    then some (record new_event {
      loop_id = text_of "loop_id" payload;
      namespace = get "namespace" payload;
      mode = text_of "mode" payload;
      data' = get "data" payload;
    })
    else none

abbrev pub or_else : Option EventMessage → Option EventMessage → Option EventMessage
or_else none other = other
or_else (some em) other = some em

unfoldable pub project_payload : Fields → Option EventMessage
project_payload payload = elim (get "data" payload) [
  | obj inner ↦ or_else (inner_to_event_message inner) (payload_to_event_message payload)
  | _ ↦ payload_to_event_message payload
]

-- nextToEventMessage
unfoldable pub next_to_event_message : Envelope → Option EventMessage
next_to_event_message env = elim env.payload [
  | none ↦ none
  | some payload ↦ project_payload payload
]

-- `if s, ok := v.(string); ok && s != "" { return s, true }`
abbrev pub first_text : String → String → String
first_text own other = if own == "" then other else own

-- `loop_id`, or `loopId`; "" where ExtractSootheLoopID goes on
unfoldable pub loop_id_of_map : Value → String
loop_id_of_map (obj m) = first_text (text_of "loop_id" m) (text_of "loopId" m)
loop_id_of_map _ = ""

unfoldable pub loop_id_of_payload : Value → String
unfolding loop_id_of_map
loop_id_of_payload (obj payload) =
    first_text (loop_id_of_map (get "data" payload)) (text_of "loop_id" payload)
loop_id_of_payload _ = ""

-- A map that is nil reads as an empty one.
unfoldable pub payload_value : Option Fields → Value
payload_value none = null
payload_value (some payload) = obj payload

unfoldable pub loop_id_of_params : Option Fields → String
loop_id_of_params none = ""
loop_id_of_params (some params) = text_of "loop_id" params

-- ExtractSootheLoopID; the second result is whether the first is not ""
unfoldable pub extract_soothe_loop_id : Message → String
unfolding loop_id_of_payload loop_id_of_map payload_value loop_id_of_params
extract_soothe_loop_id (envelope m) =
    if m.type' == "next"
    then loop_id_of_payload (payload_value m.payload)
    else if m.type' == "status"
    then loop_id_of_params m.params
    else ""
extract_soothe_loop_id (status m) = m.loop_id
extract_soothe_loop_id (event m) = first_text m.loop_id (loop_id_of_map m.data')
extract_soothe_loop_id (raw m) =
    if text_of "type" m == "next"
    then loop_id_of_payload (get "payload" m)
    else first_text (text_of "loop_id" m) (text_of "loopId" m)
extract_soothe_loop_id _ = ""

-- EventType
unfoldable pub event_type : EventMessage → String
event_type e =
    let own : String = elim e.data' [ obj m ↦ text_of "type" m | _ ↦ "" ] in
    if not (own == "") then own else as_string e.namespace

strings_of : Items → List String
strings_of nil = []
strings_of (cons (str s) xs) = s ∷ strings_of xs
strings_of (cons _ xs) = strings_of xs

-- NamespaceParts
unfoldable pub namespace_parts : EventMessage → List String
unfolding strings_of
namespace_parts e = elim e.namespace [
  | arr ns ↦ strings_of ns
  | str s ↦ if s == "" then [] else split "." s
  | _ ↦ []
]

-- isLoopAssistantPhase
unfoldable pub is_loop_assistant_phase : String → Bool
is_loop_assistant_phase phase = contains_key phase (
    "goal_completion" ∷ "quiz" ∷ "autonomous_goal" ∷ "text_completion" ∷ "image_to_text" ∷ "ocr"
    ∷ "embed" ∷ "plan_direct" ∷ "chitchat" ∷ [])

-- LoopAIMessage
pub record LoopAiMessage : Type 0 where
  pub type' : String
  pub content : Value
  pub phase : String

-- The method LoopAIMessage
unfoldable pub tagged_message : Fields → Option LoopAiMessage
tagged_message m =
    let phase = text_of "phase" m in
    let type' = text_of "type" m in
    if phase == "" || not (is_loop_assistant_phase phase)
    then none
    else some (record {
      type' = if type' == "" then "ai" else type';
      content = get "content" m;
      phase = phase;
    })

-- The first item of the list, behind its two tests
unfoldable pub first_tagged : Items → Option LoopAiMessage
unfolding tagged_message
first_tagged (cons (obj m) xs) = tagged_message m
first_tagged _ = none

unfoldable pub data_tagged : Value → Option LoopAiMessage
unfolding first_tagged
data_tagged (arr items) = first_tagged items
data_tagged _ = none

unfoldable pub loop_ai_message : EventMessage → Option LoopAiMessage
unfolding data_tagged
loop_ai_message e = if not (e.mode == "messages") then none else data_tagged e.data'

-- The text of one content block: a string, or the `text` of a map.
unfoldable pub block_text : Value → String
block_text (str s) = s
block_text (obj m) = text_of "text" m
block_text _ = ""

unfoldable pub blocks_text : Items → String
unfolding block_text
blocks_text nil = ""
blocks_text (cons v xs) = concat (block_text v) (blocks_text xs)

-- LoopAIText
unfoldable pub loop_ai_text : LoopAiMessage → String
unfolding blocks_text
loop_ai_text m = elim m.content [
  | str s ↦ s
  | arr xs ↦ blocks_text xs
  | obj blk ↦ text_of "text" blk
  | _ ↦ ""
]
