-- ===== src/Examples/Frames.antt =====
-- Priorities of frames.
use soothe_client_go.Prelude.{◌≡◌, refl, subst}
use soothe_client_go.Json.{str, obj, Fields, end, field, get, as_string, text_of}

abbrev stopped : Fields
stopped = field "type" (str "status") (field "state" (str "stopped") end)

abbrev stream_end : Fields
stream_end = field "type" (str "event") (
    field "mode" (str "custom")
      (field "data" (obj (field "type" (str "soothe.stream.end") end)) end))

abbrev wrap : Fields → Fields
wrap inner =
    field "type" (str "next")
      (field "payload" (obj (field "mode" (str "event") (field "data" (obj inner) end))) end)

wrap_payload :
    (inner : Fields)
    → get "payload" (wrap inner) ≡ obj (field "mode" (str "event") (field "data" (obj inner) end))
unfolding get
wrap_payload inner = refl

wrap_data :
    (inner : Fields)
    → get "data" (field "mode" (str "event") (field "data" (obj inner) end)) ≡ obj inner
unfolding get
wrap_data inner = refl

wrapped_is_event :
    (payload inner : Fields)
    → get "payload" (wrap stream_end) ≡ obj payload
    → get "data" payload ≡ obj inner
    → text_of "type" inner ≡ "event"
unfolding get as_string
wrapped_is_event payload inner e i =
    let shape : obj (field "mode" (str "event") (field "data" (obj stream_end) end)) ≡ obj payload =
      e in
    let same : payload ≡ field "mode" (str "event") (field "data" (obj stream_end) end) = cc in
    let data' : obj stream_end ≡ obj inner =
      subst (λ (q : Fields). get "data" q ≡ obj inner) same i in
    let frame : inner ≡ stream_end = cc in rw frame refl
