-- ===== src/Protocol/LoopId.antt =====
-- The loop id of a message, before and after the projection of a `next` envelope.
use soothe_client_go.Prelude.{String, ◌≡◌, ◌≢◌, refl, true, some, ne→==}
use soothe_client_go.Json.{obj, Fields, get, has, text_of}
use soothe_client_go.Protocol.{
  EventMessage, new_event, Envelope, envelope, event, inner_to_event_message, project_payload,
  next_to_event_message, loop_id_of_map, loop_id_of_payload, payload_value, first_text,
  extract_soothe_loop_id,
}

first_text_named : (own other : String) → own ≢ "" → first_text own other ≡ own
first_text_named own other named = rw (ne→== own "" named) refl

abbrev frame_event : Fields → EventMessage
frame_event inner = record new_event {
  loop_id = text_of "loop_id" inner;
  namespace = get "namespace" inner;
  mode = text_of "mode" inner;
  data' = get "data" inner;
}

project_frame :
    (payload inner : Fields)
    → get "data" payload ≡ obj inner
    → text_of "type" inner ≡ "event"
    → has "mode" inner ≡ true
    → project_payload payload ≡ some (frame_event inner)
unfolding inner_to_event_message project_payload
project_frame payload inner d i mode = rw (d, project_payload) (rw (i, mode) refl)

payload_names :
    (payload inner : Fields)
    → get "data" payload ≡ obj inner
    → text_of "loop_id" inner ≢ ""
    → loop_id_of_payload (obj payload) ≡ text_of "loop_id" inner
unfolding loop_id_of_payload loop_id_of_map
payload_names payload inner d named = rw d (
    rw (ne→== (text_of "loop_id" inner) "" named)
      (rw (ne→== (text_of "loop_id" inner) "" named) refl))

-- A `next` envelope around an event frame that names its loop has that loop's id, and so has the
-- event that it is projected to.
pub extract_soothe_loop_id-next :
    (env : Envelope) (payload inner : Fields)
    → env.type' ≡ "next"
    → env.payload ≡ some payload
    → get "data" payload ≡ obj inner
    → text_of "type" inner ≡ "event"
    → has "mode" inner ≡ true
    → text_of "loop_id" inner ≢ ""
    → (e : EventMessage) × (next_to_event_message env ≡ some e)
      × (extract_soothe_loop_id (event e) ≡ text_of "loop_id" inner)
      × (extract_soothe_loop_id (envelope env) ≡ text_of "loop_id" inner)
unfolding next_to_event_message extract_soothe_loop_id payload_value
extract_soothe_loop_id-next env payload inner t p d i mode named =
    rw (t, p)
      (
        frame_event inner,
        project_frame payload inner d i mode,
        first_text_named (text_of "loop_id" inner) _ named,
        payload_names payload inner d named,
      )
