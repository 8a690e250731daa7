-- ===== src/Request/Subscribe/Heard.antt =====
-- Which answers to a subscription its caller hears through a concurrent reader.
use soothe_client_go.Prelude.{
  ℕ, String, ◌≡◌, ◌≢◌, refl, ap, ◌∙◌, Bool, true, false, Option, none, some, List, [], ◌∷◌, ◌==◌,
  ◌||◌, eqb, lookup, lookup-insert, eq_refl, ne→==, then_case, arith,
}
use soothe_client_go.Json.{Fields, text_of}
use soothe_client_go.Multiplexer.{
  Mux, PendingSubscription, register_subscription, route, deliver_call, deliver_stream,
  offer_within,
}
use soothe_client_go.Multiplexer.Routing.{to_waiter-keeps, to_waiter-found}
use soothe_client_go.Request.{Pass, by_reader, deadline, route_all}
use soothe_client_go.Request.Subscribe.{
  Subscribed, accepted, expired, confirmation, first_confirmation, own_loop_frame,
  own_autopilot_frame, frame_pass, on_frame_pass, then_wait, wait_confirmation, subscribe,
  loop_subscribe, autopilot_subscribe,
}

-- Frames of the daemon that report an error
abbrev pub AreErrors : List Fields → Type 0
AreErrors [] = Unit
AreErrors (ev ∷ evs) = (text_of "type" ev ≡ "error") × AreErrors evs

route-streams :
    (ev : Fields) (m : Mux) → text_of "type" ev ≡ "error" → (route ev m).1.streams ≡ m.streams
unfolding route deliver_call
route-streams ev m t =
    let typ = text_of "type" ev in
    let answers : (typ == "response" || typ == "error") ≡ true = rw t refl in
    ap (λ (r : Bool × Mux). r.1.streams)
      (then_case (typ == "response" || typ == "error") _ _ answers)
    ∙ to_waiter-keeps (λ m'. m'.streams ≡ m.streams) (text_of "id" ev) m.rpcs (deliver_call typ ev)
        m (λ w _. refl) refl

route_all-streams :
    (evs : List Fields) (m : Mux) → AreErrors evs → (route_all evs m).streams ≡ m.streams
unfolding route_all
route_all-streams [] m h = refl
route_all-streams (ev ∷ evs) m (t, h) =
    route_all-streams evs (route ev m).1 h ∙ route-streams ev m t

abbrev idle : PendingSubscription
idle = record { frames = []; done = false }

streams-register :
    (id : String) (m : Mux)
    → (register_subscription id m).1.streams (register_subscription id m).0 ≡ idle
unfolding register_subscription
streams-register id m =
    let self : eqb m.stream_count m.stream_count ≡ true = ground arith in rw self refl

lookup-register :
    (id : String) (m : Mux)
    → lookup id (register_subscription id m).1.subs ≡ some (register_subscription id m).0
unfolding register_subscription
lookup-register id m = lookup-insert id id m.stream_count m.subs ∙ rw eq_refl refl

no_frames : (w : ℕ) (m : Mux) → m.streams w ≡ idle → (m.streams w).frames ≡ []
no_frames w m quiet = ap (λ (s : PendingSubscription). s.frames) quiet

route-next :
    (ev : Fields) (w : ℕ) (m : Mux)
    → text_of "type" ev ≡ "next"
    → (text_of "id" ev == "") ≡ false
    → lookup (text_of "id" ev) m.subs ≡ some w
    → route ev m ≡ (true, deliver_stream ev w m)
unfolding route
route-next ev w m t named found =
    rw t (to_waiter-found (text_of "id" ev) m.subs (deliver_stream ev) m w named found)

deliver_stream-idle :
    (ev : Fields) (w : ℕ) (m : Mux)
    → m.streams w ≡ idle
    → ((deliver_stream ev w m).streams w).frames ≡ ev ∷ []
unfolding deliver_stream offer_within
deliver_stream-idle ev w m quiet =
    let self : eqb w w ≡ true = ground arith in
    let waits = ap (λ (s : PendingSubscription). s.done) quiet in
    rw waits (rw self (rw (no_frames w m quiet, offer_within) refl))

confirmation-next : (ev : Fields) → text_of "type" ev ≡ "next" → confirmation ev ≡ accepted ev
unfolding confirmation
confirmation-next ev t = rw t refl

found_none :
    {frames : List Fields} (m : Mux)
    → frames ≡ []
    → ◌≡◌ {A = Option Subscribed × Mux} (first_confirmation frames, m) (none, m)
unfolding first_confirmation
found_none m e = rw e refl

found_next :
    (ev : Fields) {frames : List Fields} (m : Mux)
    → frames ≡ ev ∷ []
    → text_of "type" ev ≡ "next"
    → ◌≡◌ {A = Option Subscribed × Mux} (first_confirmation frames, m) (some (accepted ev), m)
unfolding first_confirmation
found_next ev m e t = rw e (ap (λ (s : Subscribed). (some s, m)) (confirmation-next ev t))

module _ (own : String → Fields → Option Subscribed) (id : String) (w : ℕ) where
  pass-deadline :
      (m : Mux) → m.streams w ≡ idle → on_frame_pass own id w deadline m ≡ (some expired, m)
  unfolding on_frame_pass frame_pass first_confirmation
  pass-deadline m quiet = rw (no_frames w m quiet, on_frame_pass) refl

  pass-reader :
      (evs : List Fields) (m : Mux)
      → m.streams w ≡ idle
      → on_frame_pass own id w (by_reader evs) m
        ≡ (first_confirmation ((route_all evs m).streams w).frames, route_all evs m)
  unfolding on_frame_pass frame_pass
  pass-reader evs m quiet =
      rw (no_frames w m quiet, on_frame_pass) (unfold first_confirmation in refl)

  wait-deaf :
      (evs : List Fields) (passes : List Pass) (m : Mux)
      → AreErrors evs
      → m.streams w ≡ idle
      → (wait_confirmation own id w (by_reader evs ∷ deadline ∷ passes) m).0 ≡ some expired
  unfolding wait_confirmation
  wait-deaf evs passes m errors quiet =
      let later : (route_all evs m).streams w ≡ idle =
        ap (λ (s : ℕ → PendingSubscription). s w) (route_all-streams evs m errors) ∙ quiet in
      let rest = wait_confirmation own id w in
      ap (λ (r : Option Subscribed × Mux). (then_wait (rest (deadline ∷ passes)) r).0)
        (pass-reader evs m quiet ∙ found_none _ (no_frames w (route_all evs m) later))
      ∙ ap (λ (r : Option Subscribed × Mux). (then_wait (rest passes) r).0)
          (pass-deadline (route_all evs m) later)

  wait-heard :
      (ev : Fields) (passes : List Pass) (m : Mux)
      → text_of "type" ev ≡ "next"
      → m.streams w ≡ idle
      → route ev m ≡ (true, deliver_stream ev w m)
      → (wait_confirmation own id w (by_reader (ev ∷ []) ∷ passes) m).0 ≡ some (accepted ev)
  unfolding wait_confirmation route_all
  wait-heard ev passes m t quiet taken =
      let there : ((route_all (ev ∷ []) m).streams w).frames ≡ ev ∷ [] =
        ap (λ (r : Bool × Mux). (r.1.streams w).frames) taken ∙ deliver_stream-idle ev w m quiet in
      ap (λ (r : Option Subscribed × Mux). (then_wait (wait_confirmation own id w passes) r).0)
        (pass-reader (ev ∷ []) m quiet ∙ found_next ev _ there t)

subscribe-settles :
    (own : String → Fields → Option Subscribed) (id : String) (next : Fields) (errors : List Fields)
    (passes : List Pass) (m : Mux)
    → id ≢ ""
    → text_of "type" next ≡ "next"
    → text_of "id" next ≡ id
    → AreErrors errors
    → ((subscribe own none id (by_reader (next ∷ []) ∷ passes) m).0 ≡ some (accepted next))
      × ((subscribe own none id (by_reader errors ∷ deadline ∷ passes) m).0 ≡ some expired)
unfolding subscribe
subscribe-settles own id next errors passes m named t i failed =
    let (w, m') = register_subscription id m in
    let quiet = streams-register id m in
    (
      wait-heard own id w next passes m' t quiet
          (route-next next w m' t (rw i (ne→== id "" named)) (rw i (lookup-register id m))),
      wait-deaf own id w errors passes m' failed quiet,
    )

-- What LoopSubscribe and AutopilotSubscribe, once sent under an id, make of the frames that a
-- concurrent reader routes: the `next` frame of the id accepts the subscription, but errors of the
-- daemon, also those of the id, are not heard, and the call ends by its timeout.
pub loop_subscribe-settles :
    (id : String) (next : Fields) (errors : List Fields) (passes : List Pass) (m : Mux)
    → id ≢ ""
    → text_of "type" next ≡ "next"
    → text_of "id" next ≡ id
    → AreErrors errors
    → ((loop_subscribe none id (by_reader (next ∷ []) ∷ passes) m).0 ≡ some (accepted next))
      × ((loop_subscribe none id (by_reader errors ∷ deadline ∷ passes) m).0 ≡ some expired)
      × ((autopilot_subscribe none id (by_reader (next ∷ []) ∷ passes) m).0 ≡ some (accepted next))
      × ((autopilot_subscribe none id (by_reader errors ∷ deadline ∷ passes) m).0 ≡ some expired)
unfolding loop_subscribe autopilot_subscribe
loop_subscribe-settles id next errors passes m named t i failed =
    let (heard, deaf) = subscribe-settles own_loop_frame id next errors passes m named t i failed in
    let (heard', deaf') =
      subscribe-settles own_autopilot_frame id next errors passes m named t i failed in
    (heard, deaf, heard', deaf')
