-- ===== src/Examples/Requests.antt =====
-- Requests at concrete frames of the socket.
use soothe_client_go.Prelude.{◌≡◌, refl, none, some, [], ◌∷◌, differ}
use soothe_client_go.Json.{Fields, str, end, field, get, as_string}
use soothe_client_go.Multiplexer.{result_of}
use soothe_client_go.Request.{
  frame, payload, replied, connection_closed, request_id_of, request_response,
}
use soothe_client_go.Request.{by_reader, deadline}
use soothe_client_go.Request.Subscribe.{accepted, expired, loop_subscribe, autopilot_subscribe}
use soothe_client_go.Request.Subscribe.Heard.{loop_subscribe-settles}
use soothe_client_go.Request.Settled.{controls, request_response-settles}
use soothe_client_go.Examples.Gates.{mux}

abbrev get_request : Fields
get_request = field "type" (str "loop_get") (field "request_id" (str "r1") end)

abbrev get_response : Fields
get_response = field "type" (str "response") (field "id" (str "r1") end)

request_response-settles_example :
    ((request_response
        (λ _ _ _. none)
        get_request
        "r2"
        (payload (controls 1 (frame get_response ∷ [])) ∷ [])
        mux).0
      ≡ some (replied (result_of get_response)))
    × ((request_response (λ _ _ _. none) get_request "r2" (payload (controls 1 []) ∷ []) mux).0
        ≡ some connection_closed)
unfolding get as_string request_id_of
request_response-settles_example =
    request_response-settles (λ _ _ _. none) get_request get_response "r2" 1 [] mux
      (differ "loop_get" "" refl) (differ "r1" "" refl) refl refl refl

abbrev confirmed : Fields
confirmed = field "type" (str "next") (field "id" (str "s1") end)

abbrev unknown_loop : Fields
unknown_loop = field "type" (str "error") (field "id" (str "s1") end)

loop_subscribe-settles_example :
    ((loop_subscribe none "s1" (by_reader (confirmed ∷ []) ∷ []) mux).0 ≡ some (accepted confirmed))
    × ((loop_subscribe none "s1" (by_reader (unknown_loop ∷ []) ∷ deadline ∷ []) mux).0
        ≡ some expired)
    × ((autopilot_subscribe none "s1" (by_reader (confirmed ∷ []) ∷ []) mux).0
        ≡ some (accepted confirmed))
    × ((autopilot_subscribe none "s1" (by_reader (unknown_loop ∷ []) ∷ deadline ∷ []) mux).0
        ≡ some expired)
unfolding get as_string
loop_subscribe-settles_example =
    loop_subscribe-settles "s1" confirmed (unknown_loop ∷ []) [] mux (differ "s1" "" refl) refl refl
      (refl, tt)
