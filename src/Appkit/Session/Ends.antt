-- ===== src/Appkit/Session/Ends.antt =====
-- appkit/daemon_session.go: what ends a turn of the session ends it for a boundary whose gate is ahead.
use soothe_client_go.Prelude.{
  String, ◌≡◌, ◌⊎◌, refl, true, false, not, ◌&&◌, ◌==◌, eq_iff, arith, inl, inr, Bool-cases,
  if_cases,
}
use soothe_client_go.Json.{Fields, get, text_of}
use soothe_client_go.Stream.{is_turn_end_custom_data, is_turn_progress_chunk}
use soothe_client_go.TurnId.{
  frame_turn_id, turn_ids_match, is_turn_terminal_allowed, is_idle_terminal_allowed,
}
use soothe_client_go.Appkit.Lifecycle.{
  TurnLifecycleGate, observe_progress, allow_stream_end, allow_idle_complete,
}
use soothe_client_go.Appkit.Boundary.{TurnBoundary, data_turn, feed_raw}
use soothe_client_go.Appkit.Session.{
  TurnChunk, Turn, Verdict, again, drain, returned, follow_loop, note_progress,
}
use soothe_client_go.Appkit.Session.Gate.{Ahead, gate_of}

-- The boundary has ended the turn, or its gate is ahead of the session's.
abbrev pub Sim : Turn → TurnBoundary → Type 0
Sim t b = (b.ended ≡ true) ⊎ Ahead (gate_of t) b.gate

-- What the boundary after the frame must be for a verdict of the session.
abbrev pub Meets : TurnBoundary → Verdict × Turn → Type 0
Meets b (again, t) = Sim t b
Meets b (drain, t) = b.ended ≡ true
Meets b (returned err, t) = Unit

pub differs : (s t u : String) → (s == t) ≡ true → (t == u) ≡ false → (s == u) ≡ false
differs s t u h e = rw ((eq_iff s t).0 h) e

-- Where the boundary ends a turn.
module _ (m : Fields) (b : TurnBoundary) where
  pub stopped-ends :
      (text_of "type" m == "status") ≡ true
      → (text_of "state" m == "stopped") ≡ true
      → b.gate.saw_running ≡ true
      → (not (b.gate.expected_turn_id == "")
          && not (turn_ids_match b.gate.expected_turn_id (frame_turn_id m)))
        ≡ false
      → (feed_raw m b).0.ended ≡ true
  unfolding feed_raw
  stopped-ends typ state running own = rw (typ, state, running, own) refl

  pub idle-ends :
      (text_of "type" m == "status") ≡ true
      → (text_of "state" m == "stopped") ≡ false
      → (text_of "state" m == "idle") ≡ true
      → allow_idle_complete b.gate (frame_turn_id m) ≡ true
      → (feed_raw m b).0.ended ≡ true
  unfolding feed_raw
  idle-ends typ not_stopped state allowed = rw (typ, not_stopped, state, allowed) refl

  pub event-ends :
      (text_of "type" m == "status") ≡ false
      → (text_of "type" m == "event") ≡ true
      → (text_of "mode" m == "custom") ≡ true
      → is_turn_end_custom_data (get "data" m) ≡ true
      → allow_stream_end b.gate (data_turn (frame_turn_id m) (get "data" m)) ≡ true
      → (feed_raw m b).0.ended ≡ true
  unfolding feed_raw
  event-ends not_status typ mode end' allowed = rw (not_status, typ, mode, end', allowed) refl

pub allow_idle_mono :
    (g h : TurnLifecycleGate) (tid : String)
    → Ahead g h
    → is_idle_terminal_allowed g.expected_turn_id tid g.saw_running g.saw_turn_progress
        g.cancellation_seen
      ≡ true
    → allow_idle_complete h tid ≡ true
unfolding allow_idle_complete is_idle_terminal_allowed
allow_idle_mono g h tid (r, e, c, p) allowed = rw (r, e, c) (ground arith)

pub allow_end_mono :
    (g h : TurnLifecycleGate) (tid : String)
    → Ahead g h
    → is_turn_terminal_allowed g.expected_turn_id tid g.saw_running g.saw_turn_progress ≡ true
    → allow_stream_end h tid ≡ true
unfolding allow_stream_end is_turn_terminal_allowed
allow_end_mono g h tid (r, e, c, p) allowed = rw (r, e) (ground arith)

pub gate_of-follow_loop : (lid : String) (t : Turn) → gate_of (follow_loop lid t) ≡ gate_of t
unfolding follow_loop
gate_of-follow_loop lid t =
    if_cases (λ (u : Turn). gate_of u ≡ gate_of t) (lid == "") t _ (λ _. refl) (λ _. refl)

pub gate_of-note_progress :
    (c : TurnChunk) (t : Turn)
    → gate_of (note_progress c t)
      ≡ observe_progress (is_turn_progress_chunk c.mode c.data') (gate_of t)
unfolding note_progress observe_progress
gate_of-note_progress c t = elim (Bool-cases (is_turn_progress_chunk c.mode c.data')) [
  | inl e ↦ rw e refl
  | inr e ↦ rw e refl
]
