-- ===== src/Examples/Gates.antt =====
-- Phases, verbosities, the early filter, the query gate, the multiplexer and loop ids.
use soothe_client_go.Prelude.{◌+◌, String, ◌≡◌, false, none, some, List, [], ◌∷◌, arith, lookup}
use soothe_client_go.Json.{null, str, arr, obj, nil, cons, Fields, end, field, get, as_string}
use soothe_client_go.Protocol.{new_envelope, new_event, EventMessage, Envelope}
use soothe_client_go.Appkit.QueryGate.{QueryGate, new_query_gate}
use soothe_client_go.Appkit.QueryGate.Flight.{
  Call, acquire_call, cancel_call, granted, ended, after_all, held, granted-balance,
}
use soothe_client_go.Multiplexer.{Mux, route}
use soothe_client_go.Multiplexer.Routing.{Bounded, route-isolates}

-- A chunk that is tagged and has no text.
abbrev narration : EventMessage
narration = record new_event {
  loop_id = "l";
  turn_id = "l:1";
  namespace = null;
  mode = "messages";
  data' = arr (cons (obj (field "phase" (str "plan_direct") end)) (cons null nil));
}

abbrev calls : List (String × Call)
calls =
    ("a", acquire_call 1 (some 7))
    ∷ ("a", acquire_call 2 none)
    ∷ ("b", acquire_call 3 none)
    ∷ ("a", cancel_call)
    ∷ ("a", acquire_call 4 none)
    ∷ []

granted-balance_example :
    granted "a" calls new_query_gate + held "a" new_query_gate
    ≡ ended "a" calls new_query_gate + held "a" (after_all calls new_query_gate)
granted-balance_example = granted-balance "a" calls new_query_gate

abbrev running : QueryGate
running = record { cancels = ("a", some 1) ∷ []; send_cancels = ("a", 7) ∷ [] }

abbrev pub mux : Mux
mux = record {
  rpcs = ("r", 0) ∷ [];
  subs = [];
  receipts = [];
  calls = λ h. record { reply = none; err = none };
  call_count = 1;
  streams = λ h. record { frames = []; done = false };
  stream_count = 0;
  channels = λ h. record { capacity = 1; received = [] };
}

abbrev response : Fields
response = field "type" (str "response") (field "id" (str "q") end)

route-isolates_example :
    ((route response mux).1.calls 0 ≡ mux.calls 0)
    × ((route response mux).1.streams 0 ≡ mux.streams 0)
unfolding lookup get as_string
route-isolates_example = route-isolates response mux 0 0 (λ e. cc e) (λ e. cc e)

mux-Bounded : Bounded mux
mux-Bounded h = omega arith

abbrev frame : Fields
frame = field "type" (str "event") (field "mode" (str "messages") (field "loop_id" (str "l") end))

abbrev payload : Fields
payload = field "data" (obj frame) end

abbrev wrapped : Envelope
wrapped = record (new_envelope "next") { payload = some payload }
