-- ===== src/Request/Settled.antt =====
-- How RequestResponse ends when one payload of the socket is read.
use soothe_client_go.Prelude.{
  ℕ, zero, suc, String, ◌≡◌, ◌≢◌, refl, ap, ◌∙◌, true, Option, none, some, List, [], ◌∷◌, eqb,
  lookup, lookup-insert, eq_refl, ne→==, arith,
}
use soothe_client_go.Json.{Fields, text_of}
use soothe_client_go.Multiplexer.{Mux, PendingCall, register_rpc, route, deliver_call, result_of}
use soothe_client_go.Multiplexer.Routing.{route_response}
use soothe_client_go.Request.{
  Frame, control, frame, read_frames, Outcome, replied, connection_closed, Pass, payload, answer_of,
  after_read, read_pass, on_pass, wait_response, request_id_of, request_params, sent_request,
  request_response,
}

-- `n` control frames in front of a payload
unfoldable pub controls : ℕ → List Frame → List Frame
controls zero fs = fs
controls (suc n) fs = control ∷ controls n fs

read_frames-controls :
    (n : ℕ) (fs : List Frame) (m : Mux) → read_frames (controls n fs) m ≡ read_frames fs m
unfolding controls read_frames
read_frames-controls zero fs m = refl
read_frames-controls (suc n) fs m = read_frames-controls n fs m

read_pass-controls :
    (rid : String) (w n : ℕ) (fs : List Frame) (m : Mux)
    → read_pass rid w (payload (controls n fs)) m ≡ read_pass rid w (payload fs) m
unfolding read_pass
read_pass-controls rid w n fs m = rw (read_frames-controls n fs m) refl

abbrev waiting : PendingCall
waiting = record { reply = none; err = none }

no_reply : (w : ℕ) (m : Mux) → m.calls w ≡ waiting → (m.calls w).reply ≡ none
no_reply w m waits = ap (λ (c : PendingCall). c.reply) waits

no_err : (w : ℕ) (m : Mux) → m.calls w ≡ waiting → (m.calls w).err ≡ none
no_err w m waits = ap (λ (c : PendingCall). c.err) waits

wait_response-ends :
    (rid : String) (w : ℕ) (p : Pass) (ps : List Pass) (m : Mux) (o : Outcome)
    → m.calls w ≡ waiting
    → (read_pass rid w p m).0 ≡ some o
    → (wait_response rid w (p ∷ ps) m).0 ≡ some o
unfolding wait_response on_pass answer_of
wait_response-ends rid w p ps m o waits found =
    rw (no_reply w m waits, no_err w m waits, wait_response) (rw (found, wait_response) refl)

calls-register_rpc :
    (rid : String) (m : Mux) → (register_rpc rid m).1.calls (register_rpc rid m).0 ≡ waiting
unfolding register_rpc
calls-register_rpc rid m =
    let self : eqb m.call_count m.call_count ≡ true = ground arith in rw self refl

lookup-register_rpc :
    (rid : String) (m : Mux) → lookup rid (register_rpc rid m).1.rpcs ≡ some (register_rpc rid m).0
unfolding register_rpc
lookup-register_rpc rid m = lookup-insert rid rid m.call_count m.rpcs ∙ rw eq_refl refl

calls-deliver_call :
    (resp : Fields) (w : ℕ) (m : Mux)
    → m.calls w ≡ waiting
    → (deliver_call "response" resp w m).calls w
      ≡ record { reply = some (result_of resp); err = none }
unfolding deliver_call
calls-deliver_call resp w m waits =
    let self : eqb w w ≡ true = ground arith in rw self (rw waits refl)

after_read-answer :
    (rid : String) (w : ℕ) (result : Fields) (m : Mux)
    → m.calls w ≡ record { reply = some result; err = none }
    → (after_read rid w none m).0 ≡ some (replied result)
unfolding after_read answer_of
after_read-answer rid w result m there =
    rw (ap (λ (c : PendingCall). c.reply) there, after_read) refl

read_pass-response :
    (rid : String) (w : ℕ) (resp : Fields) (m : Mux)
    → rid ≢ ""
    → text_of "type" resp ≡ "response"
    → text_of "id" resp ≡ rid
    → lookup rid m.rpcs ≡ some w
    → m.calls w ≡ waiting
    → (read_pass rid w (payload (frame resp ∷ [])) m).0 ≡ some (replied (result_of resp))
unfolding read_pass read_frames
read_pass-response rid w resp m named t i found waits =
    let routed : route resp m ≡ (true, deliver_call "response" resp w m) =
      route_response resp m w t (rw i (ne→== rid "" named)) (rw i found)
      ∙ ap (λ (typ : String). (true, deliver_call typ resp w m)) t in
    rw routed (
      after_read-answer rid w (result_of resp) (deliver_call "response" resp w m)
        (calls-deliver_call resp w m waits))

read_pass-nothing :
    (rid : String) (w : ℕ) (m : Mux)
    → m.calls w ≡ waiting
    → (read_pass rid w (payload []) m).0 ≡ some connection_closed
unfolding read_pass read_frames after_read answer_of
read_pass-nothing rid w m waits = rw (no_reply w m waits, no_err w m waits) refl

-- How a request with a method and an id, which could be sent, ends when the first thing that it meets
-- is a payload of the socket that starts with any number of control frames (ping, pong, disconnect):
-- with the result of its response where that follows, and as on a closed connection where the payload
-- is over behind the control frames.
pub request_response-settles :
    (send_message : String → Fields → String → Option String) (request resp : Fields)
    (fresh : String) (n : ℕ) (passes : List Pass) (m : Mux)
    → text_of "type" request ≢ ""
    → request_id_of request fresh ≢ ""
    → send_message (text_of "type" request) (request_params request) (request_id_of request fresh)
      ≡ none
    → text_of "type" resp ≡ "response"
    → text_of "id" resp ≡ request_id_of request fresh
    → let first = λ (fs : List Frame). payload (controls n fs) ∷ passes in
      ((request_response send_message request fresh (first (frame resp ∷ [])) m).0
        ≡ some (replied (result_of resp)))
      × ((request_response send_message request fresh (first []) m).0 ≡ some connection_closed)
unfolding request_response sent_request
request_response-settles send_message request resp fresh n passes m method named sent t i =
    let rid = request_id_of request fresh in
    let (w, m') = register_rpc rid m in
    let waits = calls-register_rpc rid m in
    let ends = λ (fs : List Frame) (o : Outcome) (e : (read_pass rid w (payload fs) m').0 ≡ some o).
      wait_response-ends rid w (payload (controls n fs)) passes m' o waits
        (rw (read_pass-controls rid w n fs m') e) in
    rw (ne→== (text_of "type" request) "" method, sent)
      (
        ends (frame resp ∷ []) (replied (result_of resp))
            (read_pass-response rid w resp m' named t i (lookup-register_rpc rid m) waits),
        ends [] connection_closed (read_pass-nothing rid w m' waits),
      )
