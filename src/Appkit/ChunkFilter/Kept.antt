-- ===== src/Appkit/ChunkFilter/Kept.antt =====
-- Which chunks the early filter must not drop.
use soothe_client_go.Prelude.{
  ◌≡◌, ◌≢◌, refl, Bool, true, false, not, ◌||◌, some, ◌==◌, eq_iff, arith, has_suffix, Bool-cases,
  inl, inr, if◌then◌else◌,
}
use soothe_client_go.Json.{
  Value, null, bool, num, str, arr, obj, Items, nil, cons, Fields, get, is_null, as_string, text_of,
}
use soothe_client_go.Protocol.{
  EventMessage, LoopAiMessage, tagged_message, first_tagged, data_tagged, loop_ai_message,
}
use soothe_client_go.Appkit.ChunkFilter.{
  wire_body, raw_type, dict_has_tool_invocation, plain_text, message_is_non_actionable,
  message_chunk_is_non_actionable, should_drop_stream_chunk_early,
}

text_not_null : (v : Value) → as_string v ≢ "" → is_null v ≡ false
unfolding as_string
text_not_null null h = absurd (h refl)
text_not_null (str s) h = refl
text_not_null (num n) h = refl
text_not_null (bool b) h = refl
text_not_null (obj m) h = refl
text_not_null (arr items) h = refl

-- The third test of four decides, whatever the others say.
third_decides :
    (a b c d : Bool)
    → (if a then false else if b then false else if c || true then false else d) ≡ false
third_decides a b c d = ground arith

tagged_has_phase :
    (m : Fields) (out : LoopAiMessage) → tagged_message m ≡ some out → text_of "phase" m ≢ ""
unfolding tagged_message
tagged_has_phase m out h empty = ground (arith, h, (eq_iff (text_of "phase" m) "").1 empty)

tagged-kept : (m : Fields) → text_of "phase" m ≢ "" → message_is_non_actionable m ≡ false
unfolding message_is_non_actionable
tagged-kept m h = rw (text_not_null (get "phase" m) h) (
    third_decides
      (raw_type m == "tool"
        || (raw_type m == "ToolMessage" || has_suffix (raw_type m) "ToolMessage"))
      (dict_has_tool_invocation m) (not (is_null (get "phase" (wire_body m)))) (plain_text m == ""))

pair-kept :
    (m : Fields) (rest : Items)
    → text_of "phase" m ≢ ""
    → message_chunk_is_non_actionable (arr (cons (obj m) rest)) ≡ false
unfolding message_chunk_is_non_actionable
pair-kept m nil h = refl
pair-kept m (cons meta nil) h = tagged-kept m h
pair-kept m (cons meta (cons more rest)) h = refl

list-kept :
    (items : Items) (out : LoopAiMessage)
    → first_tagged items ≡ some out
    → message_chunk_is_non_actionable (arr items) ≡ false
unfolding first_tagged
list-kept nil out h = cc
list-kept (cons (obj m) rest) out h = pair-kept m rest (tagged_has_phase m out h)
list-kept (cons _ rest) out h = cc

data-kept :
    (data' : Value) (out : LoopAiMessage)
    → data_tagged data' ≡ some out
    → message_chunk_is_non_actionable data' ≡ false
unfolding data_tagged
data-kept (arr items) out h = list-kept items out h
data-kept _ out h = cc

-- The early filter never drops a chunk that LoopAIMessage takes for text of the assistant: what is
-- tagged with a phase gets to the turn, even with no text in it.
pub should_drop_stream_chunk_early-keeps :
    (e : EventMessage) (out : LoopAiMessage)
    → loop_ai_message e ≡ some out
    → should_drop_stream_chunk_early e.mode e.data' ≡ false
unfolding loop_ai_message should_drop_stream_chunk_early
should_drop_stream_chunk_early-keeps e out h = elim (Bool-cases (e.mode == "messages")) [
  | inl is_messages ↦
      rw ((eq_iff e.mode "messages").0 is_messages) (data-kept e.data' out (rw is_messages at h))
  | inr other ↦ cc (rw other at h)
]
