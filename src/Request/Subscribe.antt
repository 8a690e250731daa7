-- ===== src/Request/Subscribe.antt =====
-- request.go and job.go: LoopSubscribe, AutopilotSubscribe, LoopDetach and AutopilotUnsubscribe.
pub mod Heard
use soothe_client_go.Prelude.{
  ℕ, String, Bool, true, false, ◌&&◌, Option, none, some, List, [], ◌∷◌, ◌==◌, if◌then◌else◌,
}
use soothe_client_go.Json.{Fields, end, get, text_of}
use soothe_client_go.Multiplexer.{
  Mux, PendingCall, register_rpc, unregister_rpc, register_subscription, unregister_subscription,
  route, map_or_nil,
}
use soothe_client_go.Request.{
  Frame, Outcome, replied, cancelled, timed_out, read_failed, missing_id, Pass, context_done,
  deadline, by_reader, read_error, hung_up, pending, payload, read_frames, route_all, answer_of,
  sent_request,
}

-- How a subscription ends. Of the frame that accepts it, LoopSubscribe gives the payload on, and
-- AutopilotSubscribe its id.
pub data Subscribed : Type 0 where
  accepted : (ev : Fields) → Subscribed
  rejected : (message : String) → Subscribed
  not_sent : (err : String) → Subscribed
  context_over : Subscribed
  expired : Subscribed
  unreadable : (err : String) → Subscribed
  disconnected : Subscribed

unfoldable pub rejection : Fields → Subscribed
rejection ev = rejected (text_of "message" (map_or_nil (get "error" ev)))

-- A frame out of the channel of the subscription
unfoldable pub confirmation : Fields → Subscribed
unfolding rejection
confirmation ev = if text_of "type" ev == "error" then rejection ev else accepted ev

unfoldable pub first_confirmation : List Fields → Option Subscribed
unfolding confirmation
first_confirmation [] = none
first_confirmation (ev ∷ evs) = some (confirmation ev)

-- What LoopSubscribe makes of a frame that ReadEvent returns; `none` where it is not its own.
unfoldable pub own_loop_frame : String → Fields → Option Subscribed
unfolding rejection
own_loop_frame sub_id ev =
    let typ = text_of "type" ev in
    let own = text_of "id" ev == sub_id in
    if typ == "error" && own
    then some (rejection ev)
    else if typ == "next" && own
    then some (accepted ev)
    else none

-- The same for AutopilotSubscribe
unfoldable pub own_autopilot_frame : String → Fields → Option Subscribed
unfolding confirmation
own_autopilot_frame sub_id ev = if text_of "id" ev == sub_id then some (confirmation ev) else none

-- The rest of the loop behind a pass
abbrev pub then_wait :
    (Mux → Option Subscribed × Mux) → Option Subscribed × Mux → Option Subscribed × Mux
then_wait rest (some s, m) = (some s, m)
then_wait rest (none, m) = rest m

-- What both loops do, for the function `own` that tells their own frames
module _ (own : String → Fields → Option Subscribed) where
  unfoldable pub after_frame : String → ℕ → Option Fields → Mux → Option Subscribed × Mux
  unfolding first_confirmation
  after_frame sub_id waiter none m = (
    elim (first_confirmation (m.streams waiter).frames) [
      | some s ↦ some s
      | none ↦ some disconnected
    ],
    m,
  )
  after_frame sub_id waiter (some ev) m = elim (own sub_id ev) [
    | some s ↦ (some s, m)
    | none ↦ let (_, m') = route ev m in (none, m')
  ]

  unfoldable pub frame_pass : String → ℕ → Pass → Mux → Option Subscribed × Mux
  unfolding first_confirmation after_frame route_all read_frames
  frame_pass sub_id waiter context_done m = (some context_over, m)
  frame_pass sub_id waiter deadline m = (some expired, m)
  frame_pass sub_id waiter (by_reader evs) m =
      let m' = route_all evs m in (first_confirmation (m'.streams waiter).frames, m')
  frame_pass sub_id waiter (read_error err) m = (some (unreadable err), m)
  frame_pass sub_id waiter hung_up m = after_frame sub_id waiter none m
  frame_pass sub_id waiter (pending ev) m = after_frame sub_id waiter (some ev) m
  frame_pass sub_id waiter (payload frames) m =
      let (ev, m') = read_frames frames m in after_frame sub_id waiter ev m'

  -- A pass of the loop, which first takes a frame that is there
  unfoldable pub on_frame_pass : String → ℕ → Pass → Mux → Option Subscribed × Mux
  unfolding frame_pass first_confirmation
  on_frame_pass sub_id waiter p m = elim (first_confirmation (m.streams waiter).frames) [
    | some s ↦ (some s, m)
    | none ↦ frame_pass sub_id waiter p m
  ]

  -- The loop; `none` where the passes are over and the call still waits
  unfoldable pub wait_confirmation : String → ℕ → List Pass → Mux → Option Subscribed × Mux
  unfolding on_frame_pass
  wait_confirmation sub_id waiter [] m = (none, m)
  wait_confirmation sub_id waiter (p ∷ ps) m =
      then_wait (wait_confirmation sub_id waiter ps) (on_frame_pass sub_id waiter p m)

  -- A subscription under a fresh id, for the error of SendMessage
  unfoldable pub subscribe : Option String → String → List Pass → Mux → Option Subscribed × Mux
  unfolding wait_confirmation
  subscribe (some err) sub_id passes m = (some (not_sent err), m)
  subscribe none sub_id passes m =
      let (waiter, m') = register_subscription sub_id m in
      let (found, m'') = wait_confirmation sub_id waiter passes m' in
      (found, unregister_subscription sub_id waiter m'')

-- LoopSubscribe
unfoldable pub loop_subscribe : Option String → String → List Pass → Mux → Option Subscribed × Mux
unfolding subscribe own_loop_frame
loop_subscribe sent sub_id passes m = subscribe own_loop_frame sent sub_id passes m

-- AutopilotSubscribe
unfoldable pub autopilot_subscribe :
    Option String → String → List Pass → Mux → Option Subscribed × Mux
unfolding subscribe own_autopilot_frame
autopilot_subscribe sent sub_id passes m = subscribe own_autopilot_frame sent sub_id passes m

-- LoopDetach, whose envelope has the id of the loop; it waits as RequestResponse does. Of an error that
-- the call reads itself it gives the message only.
unfoldable pub loop_detach : Option String → String → List Pass → Mux → Option Outcome × Mux
unfolding sent_request
loop_detach (some err) loop_id passes m = (some (Outcome.send_failed err), m)
loop_detach none loop_id passes m = sent_request loop_id passes m

-- The reply of the waiter, behind a read that gave nothing: an error that is there waits for the next
-- pass.
unfoldable pub reply_of : PendingCall → Option Outcome
reply_of call = elim call.reply [ some result ↦ some (replied result) | none ↦ none ]

-- A frame that ReadEvent returns is given up.
unfoldable pub after_nothing : Option Fields → PendingCall → Option Outcome
unfolding reply_of
after_nothing (some ev) call = none
after_nothing none call = reply_of call

-- A pass of AutopilotUnsubscribe
unfoldable pub unsubscribe_pass : ℕ → Pass → Mux → Option Outcome × Mux
unfolding route_all read_frames answer_of reply_of after_nothing
unsubscribe_pass waiter context_done m = (some cancelled, m)
unsubscribe_pass waiter deadline m = (some timed_out, m)
unsubscribe_pass waiter (by_reader evs) m =
    let m' = route_all evs m in (answer_of (m'.calls waiter), m')
unsubscribe_pass waiter (read_error err) m = (some (read_failed err), m)
unsubscribe_pass waiter hung_up m = (reply_of (m.calls waiter), m)
unsubscribe_pass waiter (pending ev) m = (none, m)
unsubscribe_pass waiter (payload frames) m =
    let (ev, m') = read_frames frames m in (after_nothing ev (m'.calls waiter), m')

abbrev pub answered_or : Option Outcome → Mux → Option Outcome × Mux → Option Outcome × Mux
answered_or (some o) m other = (some o, m)
answered_or none m other = other

abbrev pub sent_or : Option String → Option Outcome × Mux → Mux → Option Outcome × Mux
sent_or none waited m = waited
sent_or (some err) waited m = (some (Outcome.send_failed err), m)

unfoldable pub wait_unsubscribe : ℕ → List Pass → Mux → Option Outcome × Mux
unfolding unsubscribe_pass answer_of
wait_unsubscribe waiter [] m = (none, m)
wait_unsubscribe waiter (p ∷ ps) m =
    let (found, m') = answered_or (answer_of (m.calls waiter)) m (unsubscribe_pass waiter p m) in
    elim found [ some o ↦ (some o, m') | none ↦ wait_unsubscribe waiter ps m' ]

-- AutopilotUnsubscribe, for the error of SendMessage; it registers its waiter before it sends.
unfoldable pub autopilot_unsubscribe :
    Option String → String → List Pass → Mux → Option Outcome × Mux
unfolding wait_unsubscribe
autopilot_unsubscribe sent sub_id passes m =
    if sub_id == ""
    then (some missing_id, m)
    else (let (waiter, m') = register_rpc sub_id m in
        let (found, m'') = sent_or sent (wait_unsubscribe waiter passes m') m' in
        (found, unregister_rpc sub_id waiter m''))
