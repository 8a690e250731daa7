-- ===== src/Stream.antt =====
-- stream_terminal.go: which frames end a turn, prove progress, may be dropped before a turn, and
-- want a delivery acknowledgement. A nil map reads as the empty one.
use soothe_client_go.Prelude.{
  ℕ, zero, suc, String, Bool, true, false, not, ◌&&◌, ◌||◌, none, some, List, [], ◌∷◌, ◌==◌,
  trim_space, has_prefix, contains, lowers_to, contains_key, if◌then◌else◌,
}
use soothe_client_go.Json.{Value, Fields, get, text_of, first_map?}
use soothe_client_go.Json.Size.{size_fields}
use soothe_client_go.Events.{
  stream_end, plan_created, card_created, card_updated, card_finalized, card_replay_begin,
  card_replay_end, strange_loop_completed, strange_loop_step_started, strange_loop_step_queued,
  strange_loop_step_completed,
}

-- turnEndCustomTypes
abbrev pub turn_end_custom_types : List String
turn_end_custom_types = stream_end ∷ strange_loop_completed ∷ []

-- turnProgressCustomTypes
abbrev pub turn_progress_custom_types : List String
turn_progress_custom_types =
    plan_created ∷ strange_loop_step_started ∷ strange_loop_step_queued
    ∷ strange_loop_step_completed ∷ card_created ∷ card_updated ∷ card_finalized ∷ []

-- staleTurnPendingTypes
abbrev pub stale_turn_pending_types : List String
stale_turn_pending_types =
    "connection_ack" ∷ card_replay_begin ∷ card_replay_end ∷ card_created ∷ "complete" ∷ []

is_turn_scope : String → Bool
is_turn_scope scope = scope == "" || lowers_to scope "turn"

is_turn_end_map : Fields → Bool
unfolding is_turn_scope
is_turn_end_map m =
    let custom_type = trim_space (text_of "type" m) in
    if not (contains_key custom_type turn_end_custom_types)
    then false
    else if custom_type == stream_end
    then is_turn_scope (trim_space (text_of "scope" m))
    else true

-- IsTurnEndCustomData
unfoldable pub is_turn_end_custom_data : Value → Bool
unfolding is_turn_end_map
is_turn_end_custom_data (Value.obj m) = is_turn_end_map m
is_turn_end_custom_data _ = false

is_turn_progress_map : Value → Bool
is_turn_progress_map (Value.obj m) =
    let custom_type = trim_space (text_of "type" m) in
    contains_key custom_type turn_progress_custom_types
    || has_prefix custom_type "soothe.cognition.strange_loop.step"
is_turn_progress_map _ = false

-- IsTurnProgressChunk
unfoldable pub is_turn_progress_chunk : String → Value → Bool
unfolding is_turn_progress_map
is_turn_progress_chunk mode data' =
    if mode == "messages" || mode == "updates"
    then true
    else if not (mode == "custom")
    then false
    else if is_turn_end_custom_data data'
    then false
    else is_turn_progress_map data'

-- The end of StalePendingFrameLabel: a turn end inside an `event` frame.
turn_end_label : Fields → String
turn_end_label event =
    if text_of "mode" event == "custom" && is_turn_end_custom_data (get "data" event)
    then elim (get "data" event) [ Value.obj m ↦ trim_space (text_of "type" m) | _ ↦ "" ]
    else ""

-- The `next` case, where `label` is the recursive call.
next_label : (Fields → String) → Value → String
next_label label (Value.obj payload) =
    let stale_mode = text_of "mode" payload in
    if contains_key stale_mode stale_turn_pending_types
    then stale_mode
    else elim (get "data" payload) [ Value.obj inner ↦ label inner | _ ↦ "" ]
next_label label _ = ""

-- StalePendingFrameLabel on fuel: each call goes into a smaller map.
unfoldable pub stale_label : ℕ → Fields → String
unfolding turn_end_label next_label
stale_label zero event = ""
stale_label (suc fuel) event =
    let event_type = text_of "type" event in
    if contains_key event_type stale_turn_pending_types
    then event_type
    else if event_type == "next"
    then next_label (stale_label fuel) (get "payload" event)
    else if event_type == "event"
    then turn_end_label event
    else ""

unfoldable pub stale_pending_frame_label : Fields → String
unfolding stale_label
stale_pending_frame_label event = stale_label (suc (size_fields event)) event

unfoldable pub is_stream_end_body : Fields → Bool
is_stream_end_body body = let t = text_of "type" body in t == stream_end || contains t "stream.end"

-- messagesWireTerminal of inbound_priority.go, and the same test in inboundNeedsAckFromEventShape
unfoldable pub messages_wire_terminal : Value → Bool
unfolding is_stream_end_body
messages_wire_terminal data' = elim (first_map? data') [
  | none ↦ false
  | some body ↦ is_stream_end_body body
]

-- inboundNeedsAckFromEventShape
unfoldable pub needs_ack_from_event_shape : Fields → Bool
unfolding messages_wire_terminal
needs_ack_from_event_shape event =
    let mode = text_of "mode" event in
    if mode == "custom" && is_turn_end_custom_data (get "data" event)
    then true
    else if mode == "messages"
    then messages_wire_terminal (get "data" event)
    else false

unfoldable pub needs_ack_in_payload : Value → Bool
needs_ack_in_payload (Value.obj payload) = elim (get "data" payload) [
  | Value.obj inner ↦
      if text_of "mode" payload == "event" then needs_ack_from_event_shape inner else false
  | _ ↦ false
]
needs_ack_in_payload _ = false

-- InboundNeedsDeliveryAck
unfoldable pub inbound_needs_delivery_ack : Fields → Bool
unfolding needs_ack_in_payload
inbound_needs_delivery_ack event =
    let event_type = text_of "type" event in
    if event_type == "complete"
    then true
    else if event_type == "next"
    then needs_ack_in_payload (get "payload" event)
    else if event_type == "event"
    then needs_ack_from_event_shape event
    else false

loop_id_in_payload : Value → String
loop_id_in_payload (Value.obj payload) =
    let own = trim_space (text_of "loop_id" payload) in
    if not (own == "") then own else elim (get "data" payload) [
      | Value.obj inner ↦ trim_space (text_of "loop_id" inner)
      | _ ↦ ""
    ]
loop_id_in_payload _ = ""

-- ExtractLoopIDFromInbound
unfoldable pub extract_loop_id_from_inbound : Fields → String
unfolding loop_id_in_payload
extract_loop_id_from_inbound event =
    let own = trim_space (text_of "loop_id" event) in
    if not (own == "")
    then own
    else if text_of "type" event == "next"
    then loop_id_in_payload (get "payload" event)
    else ""
