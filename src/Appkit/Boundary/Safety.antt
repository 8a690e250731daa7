-- ===== src/Appkit/Boundary/Safety.antt =====
-- A turn ends only for a reason: what a boundary has seen when it reports the end.
use soothe_client_go.Prelude.{
  String, ◌≡◌, ◌≢◌, ◌⊎◌, refl, Bool, true, false, not, ◌&&◌, ◌||◌, List, [], ◌∷◌, ◌==◌, eq_iff,
  arith, inl, inr, trim_space, if◌then◌else◌, equal_fold, subst, sym, ap, if_cases,
}
use soothe_client_go.Json.{Value, Fields, get, text_of}
use soothe_client_go.Events.{stream_end}
use soothe_client_go.Protocol.{Message, event, status, envelope, error_response, raw, unknown}
use soothe_client_go.Stream.{is_turn_end_custom_data}
use soothe_client_go.TurnId.{
  frame_turn_id, turn_ids_match, is_turn_terminal_allowed, is_idle_terminal_allowed,
}
use soothe_client_go.Appkit.Lifecycle.{
  TurnLifecycleGate, observe, allow_stream_end, allow_idle_complete,
}
use soothe_client_go.Appkit.Boundary.{
  turn_end_idle, turn_end_stopped, TurnBoundary, new_boundary, mark, go_on, feed_status, data_turn,
  feed_event, feed_raw, feed_observed, feed, feed_all,
}

abbrev pub IsBound : TurnLifecycleGate → Type 0
IsBound g = trim_space g.expected_turn_id ≢ ""

-- What the gate has seen where the turn ended for this reason.
abbrev pub Justified : TurnLifecycleGate → String → Type 0
Justified g reason =
    (g.saw_running ≡ true)
    × (((reason ≡ stream_end) × (g.saw_turn_progress ≡ true) × IsBound g)
        ⊎ ((reason ≡ turn_end_idle)
            × ((g.saw_turn_progress ≡ true) ⊎ (g.cancellation_seen ≡ true))
            × IsBound g)
        ⊎ (reason ≡ turn_end_stopped))

-- The tests on a frame that can end a turn, and the reason each stands for
abbrev Shows : Bool → Bool → Bool → String → Type 0
Shows stopped idle stream reason =
    ((reason ≡ turn_end_stopped) × (stopped ≡ true))
    ⊎ (((reason ≡ turn_end_idle) × (idle ≡ true)) ⊎ ((reason ≡ stream_end) × (stream ≡ true)))

-- The frame says that a turn ends, for this reason: a status that is stopped or idle, or a custom event
-- with the data of a stream end.
abbrev pub Says : Message → String → Type 0
Says (status m) =
    let state = trim_space m.state in
    Shows (equal_fold state "stopped") (equal_fold state "idle") false
Says (event m) = Shows false false (m.mode == "custom" && is_turn_end_custom_data m.data')
Says (raw m) =
    let typ = text_of "type" m in
    let state = text_of "state" m in
    Shows (typ == "status" && state == "stopped") (typ == "status" && state == "idle")
      (text_of "mode" m == "custom" && is_turn_end_custom_data (get "data" m))
Says _ = λ reason. ⊥

-- One of the frames says so.
abbrev pub SaidBy : List Message → String → Type 0
SaidBy [] reason = ⊥
SaidBy (msg ∷ msgs) reason = Says msg reason ⊎ SaidBy msgs reason

abbrev Outcome : (String → Type 0) → TurnBoundary → TurnBoundary × (Bool × String) → Type 0
Outcome Cause b out =
    (out ≡ go_on b)
    ⊎ ((reason : String) × (Cause reason × Justified b.gate reason) × (out ≡ mark reason b))

stream_end-Justified :
    (g : TurnLifecycleGate) (t : String) → allow_stream_end g t ≡ true → Justified g stream_end
unfolding allow_stream_end is_turn_terminal_allowed turn_ids_match
stream_end-Justified g t h =
    let facts = eq_iff (trim_space g.expected_turn_id) "" in
    (ground (arith, facts), inl (refl, ground (arith, facts), ground (arith, facts)))

idle-Justified :
    (g : TurnLifecycleGate) (t : String)
    → allow_idle_complete g t ≡ true
    → Justified g turn_end_idle
unfolding allow_idle_complete is_idle_terminal_allowed
idle-Justified g t h =
    let facts = eq_iff (trim_space g.expected_turn_id) "" in
    (ground (arith, facts), inr (inl (refl, ground (arith, facts), ground (arith, facts))))

stopped-Justified : (g : TurnLifecycleGate) → g.saw_running ≡ true → Justified g turn_end_stopped
stopped-Justified g h = (h, inr (inr refl))

module _ (b : TurnBoundary) (stopped idle stream : Bool) where
  Outcome-if :
      (test : Bool) (x y : TurnBoundary × (Bool × String))
      → (test ≡ true → Outcome (Shows stopped idle stream) b x)
      → (test ≡ false → Outcome (Shows stopped idle stream) b y)
      → Outcome (Shows stopped idle stream) b (if test then x else y)
  Outcome-if = if_cases (Outcome (Shows stopped idle stream) b)

  stopped-Outcome :
      (frame_turn : String)
      → stopped ≡ true
      → b.gate.saw_running ≡ true
      → Outcome (Shows stopped idle stream) b (
          if not (b.gate.expected_turn_id == "")
            && not (turn_ids_match b.gate.expected_turn_id frame_turn)
          then go_on b
          else mark turn_end_stopped b)
  stopped-Outcome frame_turn said running =
      Outcome-if _ (go_on b) (mark turn_end_stopped b) (λ _. inl refl)
        (λ _. inr (turn_end_stopped, (inl (refl, said), stopped-Justified b.gate running), refl))

  idle-Outcome :
      (t : String)
      → idle ≡ true
      → allow_idle_complete b.gate t ≡ true
      → Outcome (Shows stopped idle stream) b (mark turn_end_idle b)
  idle-Outcome t said allowed =
      inr (turn_end_idle, (inr (inl (refl, said)), idle-Justified b.gate t allowed), refl)

  event_if :
      (mode : String) (d : Value) (t : String)
      → (mode == "custom" && is_turn_end_custom_data d) ≡ stream
      → Outcome (Shows stopped idle stream) b (feed_event mode d t b)
  unfolding feed_event
  event_if mode d t said =
      Outcome-if (mode == "custom" && (is_turn_end_custom_data d && allow_stream_end b.gate t)) _ _
        (λ h. inr (
          stream_end,
          (
            inr (inr (refl, ground (arith, said, h))),
            stream_end-Justified b.gate t (ground (arith, h)),
          ),
          refl,
        ))
        (λ _. inl refl)

module _ (b : TurnBoundary) where
  feed_status-Outcome :
      (stopped idle : Bool) (t : String)
      → Outcome (Shows stopped idle false) b (feed_status stopped idle t b)
  unfolding feed_status
  feed_status-Outcome stopped idle t =
      Outcome-if b stopped idle false (stopped && b.gate.saw_running) _ _
        (λ h. stopped-Outcome b stopped idle false t (ground (arith, h)) (ground (arith, h)))
        (λ _.
          Outcome-if b stopped idle false (idle && allow_idle_complete b.gate t) _ _
            (λ h. idle-Outcome b stopped idle false t (ground (arith, h)) (ground (arith, h)))
            (λ _. inl refl))

  pub feed_raw-Outcome : (m : Fields) → Outcome (Says (raw m)) b (feed_raw m b)
  unfolding feed_raw
  feed_raw-Outcome m =
      let state = text_of "state" m in
      let typ = text_of "type" m in
      let mode = text_of "mode" m in
      let d = get "data" m in
      let t = frame_turn_id m in
      let stopped = typ == "status" && state == "stopped" in
      let idle = typ == "status" && state == "idle" in
      let stream = mode == "custom" && is_turn_end_custom_data d in
      Outcome-if b stopped idle stream
        (typ == "status" && (state == "stopped" && b.gate.saw_running)) _ _
        (λ h. stopped-Outcome b stopped idle stream t (ground (arith, h)) (ground (arith, h)))
        (λ _.
          Outcome-if b stopped idle stream
            (typ == "status" && (state == "idle" && allow_idle_complete b.gate t)) _ _
            (λ h. idle-Outcome b stopped idle stream t (ground (arith, h)) (ground (arith, h)))
            (λ _.
              Outcome-if b stopped idle stream (typ == "event" || not (mode == "")) _ _
                (λ _. event_if b stopped idle stream mode d (data_turn t d) refl) (λ _. inl refl)))

  feed_observed-Outcome : (msg : Message) → Outcome (Says msg) b (feed_observed msg b)
  unfolding feed_observed
  feed_observed-Outcome (event m) =
      event_if b false false _ m.mode m.data' (data_turn (trim_space m.turn_id) m.data') refl
  feed_observed-Outcome (status m) =
      let state = trim_space m.state in
      feed_status-Outcome (equal_fold state "stopped") (equal_fold state "idle")
        (trim_space m.turn_id)
  feed_observed-Outcome (envelope m) = inl refl
  feed_observed-Outcome (error_response m) = inl refl
  feed_observed-Outcome (raw m) = feed_raw-Outcome m
  feed_observed-Outcome unknown = inl refl

-- What the caller of Feed is told.
abbrev pub report : TurnBoundary → Bool × String
report b = (b.ended, (if b.ended then b.reason else ""))

out-report :
    (b : TurnBoundary) (Cause : String → Type 0) (out : TurnBoundary × (Bool × String))
    → b.ended ≡ false
    → Outcome Cause b out
    → out.1 ≡ report out.0
unfolding mark go_on
out-report b Cause out open' (inl e) = rw e (rw open')
out-report b Cause out open' (inr (reason, j, e)) = rw e

-- Feed tells its caller what it keeps: whether the turn has ended, and the reason, which is empty
-- while it has not.
pub feed-report : (b : TurnBoundary) (msg : Message) → (feed b msg).1 ≡ report (feed b msg).0
unfolding feed
feed-report b msg =
    let b' = record b { gate = observe b.gate msg } in
    if_cases (λ out. out.1 ≡ report out.0) b.ended (b, (true, b.reason)) (feed_observed msg b')
      (λ e. rw e)
      (λ e. out-report b' (Says msg) (feed_observed msg b') e (feed_observed-Outcome b' msg))

-- The end is final: a boundary that has ended keeps its reason and its gate, whatever it is fed.
pub feed_all-final : (b : TurnBoundary) (msgs : List Message) → b.ended ≡ true → feed_all b msgs ≡ b
unfolding feed_all
feed_all-final b [] e = refl
feed_all-final b (msg ∷ msgs) e = rw (feed_ended b msg e) (feed_all-final b msgs e)
  where
    feed_ended : (c : TurnBoundary) (m : Message) → c.ended ≡ true → (feed c m).0 ≡ c
    feed_ended c m h = rw h

-- The end of a boundary is said by one of the frames, and justified.
abbrev Ends : List Message → TurnBoundary → Type 0
Ends msgs b = b.ended ≡ true → SaidBy msgs b.reason × Justified b.gate b.reason

feed_all-after :
    (b : TurnBoundary) (msg : Message) (msgs : List Message) (out : TurnBoundary × (Bool × String))
    → b.ended ≡ false
    → Outcome (Says msg) b out
    → ((c : TurnBoundary) → c.ended ≡ false → Ends msgs (feed_all c msgs))
    → Ends (msg ∷ msgs) (feed_all out.0 msgs)
unfolding mark go_on
feed_all-after b msg msgs out open' (inl e) more = λ h.
    let stays : out.0 ≡ b = ap (λ (o : TurnBoundary × (Bool × String)). o.0) e in
    let (said, justified) =
      subst (λ (c : TurnBoundary). Ends msgs (feed_all c msgs)) (sym stays) (more b open') h in
    (inr said, justified)
feed_all-after b msg msgs out open' (inr (reason, (said, justified), e)) more =
    let marked : TurnBoundary = record b { ended = true; reason = reason } in
    let ends : out.0 ≡ marked = ap (λ (o : TurnBoundary × (Bool × String)). o.0) e in
    subst (λ (c : TurnBoundary). Ends (msg ∷ msgs) (feed_all c msgs)) (sym ends)
      (subst (Ends (msg ∷ msgs)) (sym (feed_all-final marked msgs refl))
        (λ _. (inl said, justified)))

feed_open :
    (b : TurnBoundary) (msg : Message)
    → b.ended ≡ false
    → feed b msg ≡ feed_observed msg (record b { gate = observe b.gate msg })
unfolding feed
feed_open b msg open' =
    ap
      (λ (t : Bool).
        if t
        then (b, (true, b.reason))
        else feed_observed msg (record b { gate = observe b.gate msg }))
      open'

feed_all-Ends :
    (msgs : List Message) (b : TurnBoundary) → b.ended ≡ false → Ends msgs (feed_all b msgs)
unfolding feed_all
feed_all-Ends [] b open' = λ h. cc
feed_all-Ends (msg ∷ msgs) b open' =
    let b' = record b { gate = observe b.gate msg } in
    subst (λ (out : TurnBoundary × (Bool × String)). Ends (msg ∷ msgs) (feed_all out.0 msgs))
      (sym (feed_open b msg open'))
      (feed_all-after b' msg msgs (feed_observed msg b') open' (feed_observed-Outcome b' msg)
        (λ c e. feed_all-Ends msgs c e))

-- A turn boundary that starts fresh and reports the end after any messages: one of them says that a turn
-- ends, for the reason reported (a status that is stopped, one that is idle, or a custom event with the
-- data of a stream end); and its gate has seen the daemon running, for a stream end also turn progress
-- and a bound turn id, and for an idle status a bound turn id and progress or a cancellation.
pub feed_all-Justified :
    (msgs : List Message)
    → (feed_all new_boundary msgs).ended ≡ true
    → SaidBy msgs (feed_all new_boundary msgs).reason
      × Justified (feed_all new_boundary msgs).gate (feed_all new_boundary msgs).reason
feed_all-Justified msgs = feed_all-Ends msgs new_boundary refl
