-- ===== src/Inbound.antt =====
-- inbound_priority.go: how readily a frame may be dropped when the pending buffer is full.
pub mod Priority
use soothe_client_go.Prelude.{
  ℕ, zero, suc, String, Bool, true, false, not, ◌&&◌, ◌||◌, Option, none, some, List, [], ◌∷◌, ◌==◌,
  has_prefix, contains_key, if◌then◌else◌,
}
use soothe_client_go.Json.{Value, Fields, get, to_map?, text_of, first_map?}
use soothe_client_go.Json.Size.{size_fields}
use soothe_client_go.Stream.{is_turn_end_custom_data, messages_wire_terminal}

-- DropPriorityCritical, DropPriorityHigh and DropPriorityNormal
abbrev pub critical : ℕ
critical = 0

abbrev pub high : ℕ
high = 1

abbrev pub normal : ℕ
normal = 2

is_goal_completion : Value → Bool
is_goal_completion data' = elim (first_map? data') [
  | none ↦ false
  | some first ↦ text_of "phase" first == "goal_completion"
]

custom_type_priority : String → ℕ
custom_type_priority t =
    if has_prefix t "soothe.cognition."
    then high
    else if has_prefix t "soothe.error." || t == "stream_degraded"
    then critical
    else if t == "soothe.ux.stream_tool_wire.tool_call_updates_batch"
    then high
    else normal

unfoldable pub custom_priority : Value → ℕ
unfolding custom_type_priority
custom_priority data' =
    if is_turn_end_custom_data data'
    then critical
    else elim data' [ Value.obj m ↦ custom_type_priority (text_of "type" m) | _ ↦ normal ]

-- The part of InboundFrameDropPriority behind the `next` case.
unfoldable pub plain_priority : String → Fields → ℕ
unfolding custom_priority is_goal_completion
plain_priority event_type event =
    let mode = text_of "mode" event in
    let data' = get "data" event in
    let states = "idle" ∷ "running" ∷ "stopped" ∷ "detached" ∷ [] in
    if event_type == "complete" || event_type == "error" || event_type == "connection_ack"
    then critical
    else if event_type == "status" && contains_key (text_of "state" event) states
    then critical
    else if not (event_type == "event")
    then normal
    else if mode == "custom"
    then custom_priority data'
    else if mode == "messages" && (messages_wire_terminal data' || is_goal_completion data')
    then critical
    else normal

-- The `next` case, where `priority` is the recursive call.
unfoldable pub next_priority : (Fields → ℕ) → Fields → Value → ℕ
unfolding plain_priority
next_priority priority event (Value.obj payload) =
    let inner = get "data" payload in
    if text_of "mode" payload == "messages"
      && (messages_wire_terminal inner || is_goal_completion inner)
    then critical
    else if text_of "type" payload == "complete"
    then critical
    else elim inner [
      | Value.obj frame ↦ priority frame
      | _ ↦ plain_priority (text_of "type" payload) event
    ]
next_priority priority event _ = plain_priority "next" event

-- InboundFrameDropPriority on fuel: each call goes into a smaller map.
unfoldable pub frame_drop_priority : ℕ → Fields → ℕ
unfolding next_priority
frame_drop_priority zero event = normal
frame_drop_priority (suc fuel) event =
    let event_type = text_of "type" event in
    if event_type == "event_batch" || event_type == "tool_call_updates_batch"
    then high
    else if event_type == "next"
    then next_priority (frame_drop_priority fuel) event (get "payload" event)
    else plain_priority event_type event

-- InboundFrameDropPriority; `none` is the nil map
unfoldable pub inbound_frame_drop_priority : Option Fields → ℕ
unfolding frame_drop_priority
inbound_frame_drop_priority none = critical
inbound_frame_drop_priority (some event) = frame_drop_priority (suc (suc (size_fields event))) event
