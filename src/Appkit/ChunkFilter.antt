-- ===== src/Appkit/ChunkFilter.antt =====
-- appkit/chunk_filter.go: which chunks of a stream are dropped before the turn sees them.
pub mod Kept
use Prim.Native.Char.{Char, code}
use Prim.Native.String.{[] as empty, ◌∷◌ as prepend, ◌++◌ as concat}
use soothe_client_go.Prelude.{
  ℕ, String, Bool, true, false, not, ◌&&◌, ◌||◌, Option, none, some, ◌==◌, eqb, leb, has_suffix,
  if◌then◌else◌,
}
use soothe_client_go.Json.{
  Value, null, str, arr, obj, Items, nil, cons, Fields, get, has, is_null, text_of,
}

updates_chunk_is_noop : Value → Bool
updates_chunk_is_noop (obj m) = not (has "__interrupt__" m)
updates_chunk_is_noop _ = true

-- wireBody
pub wire_body : Fields → Fields
wire_body msg = elim (get "kwargs" msg) [
  | obj kwargs ↦ kwargs
  | _ ↦ elim (get "data" msg) [ obj nested ↦ nested | _ ↦ msg ]
]

is_tool_block : Value → Bool
is_tool_block (obj m) =
    let t = text_of "type" m in t == "tool_call" || (t == "tool_call_chunk" || t == "tool_use")
is_tool_block _ = false

any_tool_block : Items → Bool
unfolding is_tool_block
any_tool_block nil = false
any_tool_block (cons item items) = is_tool_block item || any_tool_block items

has_tool_block : Value → Bool
unfolding any_tool_block
has_tool_block (arr raw) = any_tool_block raw
has_tool_block _ = false

-- dictHasToolInvocation
pub dict_has_tool_invocation : Fields → Bool
unfolding has_tool_block wire_body
dict_has_tool_invocation msg =
    let body = wire_body msg in
    not (is_null (get "tool_calls" body))
    || not (is_null (get "tool_call_chunks" body))
    || has_tool_block (get "content" body)
    || has_tool_block (get "content_blocks" body)

-- trimSpace of this file, which knows four space characters
unfoldable pub is_blank : Char → Bool
is_blank c = eqb (code c) 32 || (eqb (code c) 9 || (eqb (code c) 10 || eqb (code c) 13))

drop_left : String → String
drop_left empty = empty
drop_left (prepend c s) = let rest = drop_left s in if is_blank c then rest else prepend c s

put_left : Char → String → String
put_left c empty = if is_blank c then empty else prepend c empty
put_left c (prepend d s) = prepend c (prepend d s)

drop_right : String → String
unfolding put_left
drop_right empty = empty
drop_right (prepend c s) = put_left c (drop_right s)

trim_blank : String → String
unfolding drop_left drop_right
trim_blank s = drop_right (drop_left s)

part_text : Value → String
part_text (str s) = s
part_text (obj m) = text_of "text" m
part_text _ = ""

parts_text : Items → String
unfolding part_text
parts_text nil = ""
parts_text (cons block blocks) = concat (part_text block) (parts_text blocks)

content_text : Value → String
unfolding parts_text trim_blank
content_text (str t) = trim_blank t
content_text (arr t) = trim_blank (parts_text t)
content_text _ = ""

-- plainText
pub plain_text : Fields → String
unfolding content_text wire_body
plain_text msg =
    let content = get "content" (wire_body msg) in
    content_text (if is_null content then get "content" msg else content)

-- `raw` of messageChunkIsNonActionable
pub raw_type : Fields → String
unfolding wire_body
raw_type msg =
    let own = text_of "type" (wire_body msg) in if own == "" then text_of "type" msg else own

unfoldable pub message_is_non_actionable : Fields → Bool
unfolding raw_type dict_has_tool_invocation plain_text
message_is_non_actionable msg =
    let raw = raw_type msg in
    if raw == "tool" || (raw == "ToolMessage" || has_suffix raw "ToolMessage")
    then false
    else if dict_has_tool_invocation msg
    then false
    else if not (is_null (get "phase" (wire_body msg))) || not (is_null (get "phase" msg))
    then false
    else plain_text msg == ""

-- messageChunkIsNonActionable
unfoldable pub message_chunk_is_non_actionable : Value → Bool
unfolding message_is_non_actionable
message_chunk_is_non_actionable (arr (cons null (cons meta nil))) = true
message_chunk_is_non_actionable (arr (cons (obj msg) (cons meta nil))) =
    message_is_non_actionable msg
message_chunk_is_non_actionable _ = false

-- ShouldDropStreamChunkEarly, which does not look at the namespace
unfoldable pub should_drop_stream_chunk_early : String → Value → Bool
unfolding updates_chunk_is_noop message_chunk_is_non_actionable
should_drop_stream_chunk_early mode data' =
    if mode == "updates"
    then updates_chunk_is_noop data'
    else if mode == "messages"
    then message_chunk_is_non_actionable data'
    else false
