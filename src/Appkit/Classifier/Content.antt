-- ===== src/Appkit/Classifier/Content.antt =====
-- appkit/classifier.go: the text of a message and of an event's data.
use Prim.Native.String.{◌++◌ as concat}
use soothe_client_go.Prelude.{
  String, Bool, false, not, ◌&&◌, ◌||◌, Option, none, some, List, [], ◌∷◌, ◌==◌, contains_key,
  trim_space, if◌then◌else◌,
}
use soothe_client_go.Json.{Value, str, obj, arr, Items, nil, cons, Fields, get, has, text_of}
use soothe_client_go.Protocol.{EventMessage, blocks_text}

unfoldable pub is_terminal_message_type : String → Bool
is_terminal_message_type msg_type = contains_key msg_type ("AIMessage" ∷ "ai" ∷ "assistant" ∷ [])

-- The texts of the blocks that are maps
unfoldable pub map_blocks_text : Items → String
map_blocks_text nil = ""
map_blocks_text (cons (obj m) rest) = concat (text_of "text" m) (map_blocks_text rest)
map_blocks_text (cons _ rest) = map_blocks_text rest

abbrev pub content_blocks_text : Value → String
content_blocks_text (arr items) = map_blocks_text items
content_blocks_text _ = ""

-- extractContentFromMessage; an empty list has the empty text as well as no list
unfoldable pub extract_content_from_message : Fields → String
unfolding map_blocks_text
extract_content_from_message m = elim (get "content" m) [
  | str s ↦ if s == "" then content_blocks_text (get "content_blocks" m) else s
  | arr nil ↦ content_blocks_text (get "content_blocks" m)
  | arr (cons v rest) ↦ blocks_text (cons v rest)
  | _ ↦ content_blocks_text (get "content_blocks" m)
]

pub record Payload : Type 0 where
  pub msg_type : String
  pub text : String
  pub phase : String

-- `items[0].(map[string]interface{})` of a list
unfoldable pub first_message : Value → Option Fields
first_message (arr (cons (obj m) rest)) = some m
first_message _ = none

abbrev pub payload_of : Option Fields → Option Payload
payload_of none = none
payload_of (some m) = some (record {
  msg_type = text_of "type" m;
  text = extract_content_from_message m;
  phase = text_of "phase" m;
})

-- firstMessagePayload
unfoldable pub first_message_payload : Value → Option Payload
unfolding first_message
first_message_payload data' = payload_of (first_message data')

-- The end of messagesModeAssistantContent
unfoldable pub narration : Fields → Option String
unfolding is_terminal_message_type extract_content_from_message
narration m =
    let msg_type = text_of "type" m in
    let content = trim_space (extract_content_from_message m) in
    if not (trim_space (text_of "phase" m) == "")
    then none
    else if not (msg_type == "") && not (is_terminal_message_type msg_type)
    then none
    else if content == ""
    then none
    else some content

-- messagesModeAssistantContent
unfoldable pub messages_mode_assistant_content : EventMessage → Option String
unfolding first_message narration
messages_mode_assistant_content m =
    if not (m.mode == "messages")
    then none
    else elim (first_message m.data') [ none ↦ none | some first ↦ narration first ]

unfoldable pub has_text : Fields → List String → Bool
has_text data' [] = false
has_text data' (key ∷ keys) = not (trim_space (text_of key data') == "") || has_text data' keys

-- isSubscriptionMetadataMap
unfoldable pub is_subscription_metadata_map : Fields → Bool
unfolding has_text
is_subscription_metadata_map data' =
    if not (has "loop_id" data') || not (has "latest_seq" data')
    then false
    else not (
        has_text data'
          ("content" ∷ "text" ∷ "response" ∷ "output" ∷ "message" ∷ "report" ∷ "answer" ∷ []))

unfoldable pub first_text_of : Fields → List String → Option String
first_text_of data' [] = none
first_text_of data' (key ∷ keys) =
    let later = first_text_of data' keys in
    if text_of key data' == "" then later else some (text_of key data')

abbrev pub content_keys : List String
content_keys =
    "final_stdout_message" ∷ "completion_summary" ∷ "content" ∷ "text" ∷ "response" ∷ "output"
    ∷ "message" ∷ "report" ∷ []

-- The map in `data`
unfoldable pub nested_content : Value → Option String
unfolding is_subscription_metadata_map first_text_of
nested_content (obj nested) =
    if is_subscription_metadata_map nested then none else first_text_of nested content_keys
nested_content _ = none

-- extractContentFromData
unfoldable pub extract_content_from_data : Fields → Option String
unfolding is_subscription_metadata_map first_text_of nested_content
extract_content_from_data data' =
    if is_subscription_metadata_map data' then none else elim (first_text_of data' content_keys) [
      | some text ↦ some text
      | none ↦ nested_content (get "data" data')
    ]
