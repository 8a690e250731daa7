-- ===== src/Appkit/Session/Gate.antt =====
-- The gate of a turn in a DaemonSession beside the gate that observes the same frames.
use soothe_client_go.Prelude.{
  String, ◌≡◌, ◌⊎◌, refl, Bool, true, false, not, ◌&&◌, ◌||◌, ◌==◌, arith, inl, inr, Bool-cases,
  if_cases,
}
use soothe_client_go.Json.{Fields, get, text_of}
use soothe_client_go.Stream.{is_turn_progress_chunk}
use soothe_client_go.TurnId.{frame_turn_id}
use soothe_client_go.Appkit.Lifecycle.{
  TurnLifecycleGate, takes_over, observe_running, observe_progress, observe_raw,
}
use soothe_client_go.Appkit.Session.{Turn, on_running}

-- `h` knows what `g` knows, and has seen at least the progress that `g` has.
abbrev pub Ahead : TurnLifecycleGate → TurnLifecycleGate → Type 0
Ahead g h =
    (h.saw_running ≡ g.saw_running)
    × (h.expected_turn_id ≡ g.expected_turn_id)
    × (h.cancellation_seen ≡ g.cancellation_seen)
    × ((g.saw_turn_progress ≡ false) ⊎ (h.saw_turn_progress ≡ true))

abbrev pub gate_of : Turn → TurnLifecycleGate
gate_of t = record {
  saw_running = t.query_started;
  saw_turn_progress = t.turn_progress_seen;
  expected_turn_id = t.expected_turn_id;
  cancellation_seen = t.cancel_seen;
}

pub gate_of-on_running :
    (tid : String) (t : Turn) → gate_of (on_running tid t) ≡ observe_running tid (gate_of t)
unfolding on_running observe_running
gate_of-on_running tid t =
    elim (Bool-cases (not (tid == "") && takes_over t.expected_turn_id tid)) [
      | inl e ↦ rw e refl
      | inr e ↦ rw e refl
    ]

running-Ahead :
    (tid : String) (g h : TurnLifecycleGate)
    → Ahead g h
    → Ahead (observe_running tid g) (observe_running tid h)
unfolding observe_running
running-Ahead tid g h (r, e, c, p) = ground arith

progress-Ahead :
    (seen : Bool) (g h : TurnLifecycleGate)
    → Ahead g h
    → Ahead (observe_progress seen g) (observe_progress seen h)
unfolding observe_progress
progress-Ahead true g h (r, e, c, p) = (r, e, c, inr refl)
progress-Ahead false g h a = a

more-Ahead : (seen : Bool) (g h : TurnLifecycleGate) → Ahead g h → Ahead g (observe_progress seen h)
unfolding observe_progress
more-Ahead true g h (r, e, c, p) = (r, e, c, inr refl)
more-Ahead false g h a = a

module _ (m : Fields) (g h : TurnLifecycleGate) (a : Ahead g h) where
  pub other-Ahead :
      (text_of "type" m == "status" && text_of "state" m == "running") ≡ false
      → Ahead g (observe_raw m h)
  unfolding observe_raw
  other-Ahead e = rw e (
      if_cases (Ahead g) (text_of "type" m == "event" || not (text_of "mode" m == "")) _ h
        (λ _. more-Ahead (is_turn_progress_chunk (text_of "mode" m) (get "data" m)) g h a) (λ _. a))

  pub status-Ahead :
      (text_of "type" m == "status" && text_of "state" m == "running") ≡ true
      → Ahead (observe_running (frame_turn_id m) g) (observe_raw m h)
  unfolding observe_raw
  status-Ahead e =
      let later = running-Ahead (frame_turn_id m) g h a in
      rw e (
        if_cases (Ahead (observe_running (frame_turn_id m) g))
          (text_of "type" m == "event" || not (text_of "mode" m == "")) _ _
          (λ _.
            more-Ahead (is_turn_progress_chunk (text_of "mode" m) (get "data" m))
              (observe_running (frame_turn_id m) g) _ later)
          (λ _. later))

  pub event-Ahead :
      text_of "type" m ≡ "event"
      → Ahead
          (observe_progress (is_turn_progress_chunk (text_of "mode" m) (get "data" m)) g)
          (observe_raw m h)
  unfolding observe_raw
  event-Ahead e =
      rw e (progress-Ahead (is_turn_progress_chunk (text_of "mode" m) (get "data" m)) g h a)
