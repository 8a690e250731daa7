-- ===== src/Request.antt =====
-- request.go: RequestResponse, and the part of ReadEvent (client.go) that goes through the frames of
-- one payload of the socket.
pub mod Settled
pub mod Subscribe
pub mod Frames
pub mod Ready
use soothe_client_go.Prelude.{
  ℕ, zero, suc, String, Bool, true, false, not, ◌&&◌, ◌||◌, Option, none, some, List, [], ◌∷◌, ◌==◌,
  if◌then◌else◌,
}
use soothe_client_go.Json.{Value, Fields, end, field, text_of}
use soothe_client_go.Multiplexer.{
  Mux, PendingCall, DaemonError, register_rpc, unregister_rpc, route, daemon_error, result_of,
}

-- A message of a payload, decoded and expanded: one that isControlFrame takes (ping, pong,
-- disconnect), or another one as a map.
pub data Frame : Type 0 where
  control : Frame
  frame : Fields → Frame

-- The loop of ReadEvent over the frames of one payload. Behind the frame that it returns, the rest of
-- the payload is given up.
unfoldable pub read_frames : List Frame → Mux → Option Fields × Mux
read_frames [] m = (none, m)
read_frames (control ∷ fs) m = read_frames fs m
read_frames (frame ev ∷ fs) m =
    let (routed, m') = route ev m in
    let rest = read_frames fs m' in if routed then rest else (some ev, m)

-- How RequestResponse ends; `missing_id` is the one of AutopilotUnsubscribe alone.
pub data Outcome : Type 0 where
  replied : (result : Fields) → Outcome
  refused : DaemonError → Outcome
  missing_method : Outcome
  missing_id : Outcome
  send_failed : (err : String) → Outcome
  cancelled : Outcome
  timed_out : Outcome
  read_failed : (err : String) → Outcome
  connection_closed : Outcome

-- What a pass of the loop meets: the case that its `select` takes where it is not an answer, the
-- frames that a concurrent reader routes meanwhile, or what ReadEvent finds: an error, a connection
-- that has closed, a pending event, or a payload of the socket. What ReadEvent notes for the delivery
-- acknowledgements is left out.
pub data Pass : Type 0 where
  context_done : Pass
  deadline : Pass
  by_reader : (routed : List Fields) → Pass
  read_error : (err : String) → Pass
  hung_up : Pass
  pending : (ev : Fields) → Pass
  payload : (frames : List Frame) → Pass

-- What the channels of the waiter hold. Where both hold something Go takes either; here it is the
-- reply.
unfoldable pub answer_of : PendingCall → Option Outcome
answer_of call = elim call.reply [
  | some result ↦ some (replied result)
  | none ↦ elim call.err [ some e ↦ some (refused e) | none ↦ none ]
]

-- A frame of the request's own id that ReadEvent has returned
unfoldable pub own_frame : Fields → Option Outcome
own_frame ev =
    let typ = text_of "type" ev in
    if typ == "error"
    then some (refused (daemon_error ev))
    else if typ == "response"
    then some (replied (result_of ev))
    else none

unfoldable pub route_all : List Fields → Mux → Mux
route_all [] m = m
route_all (ev ∷ evs) m = let (_, m') = route ev m in route_all evs m'

unfoldable pub after_read : String → ℕ → Option Fields → Mux → Option Outcome × Mux
unfolding answer_of own_frame
after_read rid waiter none m =
    (elim (answer_of (m.calls waiter)) [ some o ↦ some o | none ↦ some connection_closed ], m)
after_read rid waiter (some ev) m =
    if text_of "id" ev == rid then (own_frame ev, m) else let (_, m') = route ev m in (none, m')

unfoldable pub read_pass : String → ℕ → Pass → Mux → Option Outcome × Mux
unfolding answer_of route_all after_read read_frames
read_pass rid waiter context_done m = (some cancelled, m)
read_pass rid waiter deadline m = (some timed_out, m)
read_pass rid waiter (by_reader evs) m =
    let m' = route_all evs m in (answer_of (m'.calls waiter), m')
read_pass rid waiter (read_error err) m = (some (read_failed err), m)
read_pass rid waiter hung_up m = after_read rid waiter none m
read_pass rid waiter (pending ev) m = after_read rid waiter (some ev) m
read_pass rid waiter (payload frames) m =
    let (ev, m') = read_frames frames m in after_read rid waiter ev m'

-- A pass of the loop, which first takes an answer that is there
unfoldable pub on_pass : String → ℕ → Pass → Mux → Option Outcome × Mux
unfolding read_pass answer_of
on_pass rid waiter p m = elim (answer_of (m.calls waiter)) [
  | some o ↦ (some o, m)
  | none ↦ read_pass rid waiter p m
]

-- The loop; `none` where the passes are over and the call still waits
unfoldable pub wait_response : String → ℕ → List Pass → Mux → Option Outcome × Mux
unfolding on_pass
wait_response rid waiter [] m = (none, m)
wait_response rid waiter (p ∷ ps) m =
    let (found, m') = on_pass rid waiter p m in
    elim found [ some o ↦ (some o, m') | none ↦ wait_response rid waiter ps m' ]

-- The payload without its control fields
unfoldable pub request_params : Fields → Fields
request_params end = end
request_params (field k v fs) =
    let rest = request_params fs in
    if k == "type" || k == "request_id" then rest else field k v rest

-- NewRequestEnvelopeWithID's id, for the id that NewRequestID makes
unfoldable pub request_id_of : Fields → String → String
request_id_of request fresh =
    let rid = text_of "request_id" request in if rid == "" then fresh else rid

unfoldable pub sent_request : String → List Pass → Mux → Option Outcome × Mux
unfolding wait_response
sent_request rid passes m =
    let (waiter, m') = register_rpc rid m in
    let (found, m'') = wait_response rid waiter passes m' in (found, unregister_rpc rid waiter m'')

-- RequestResponse for the answer of SendMessage, given the method, the parameters and the id of the
-- request
unfoldable pub request_response :
    (String → Fields → String → Option String)
    → Fields
    → String
    → List Pass
    → Mux
    → Option Outcome × Mux
unfolding request_params request_id_of sent_request
request_response send_message request fresh passes m =
    let method = text_of "type" request in
    let rid = request_id_of request fresh in
    if method == ""
    then (some missing_method, m)
    else elim (send_message method (request_params request) rid) [
      | some err ↦ (some (send_failed err), m)
      | none ↦ sent_request rid passes m
    ]
