-- ===== src/Appkit/Session/Rounds.antt =====
-- appkit/daemon_session.go: one round of the session's loop against one Feed of an open boundary.
use soothe_client_go.Prelude.{
  ◌+◌, String, ◌≡◌, refl, sym, ap, ◌∙◌, subst, Bool, true, false, not, ◌&&◌, Option, none, some,
  ◌==◌, eq_iff, arith, inl, inr, contains, if_cases,
}
use soothe_client_go.Json.{Value, Items, Fields, get, text_of}
use soothe_client_go.Stream.{is_turn_progress_chunk}
use soothe_client_go.TurnId.{frame_turn_id, turn_ids_match, is_idle_terminal_allowed}
use soothe_client_go.Appkit.Lifecycle.{
  TurnLifecycleGate, observe_running, observe_progress, observe_raw,
}
use soothe_client_go.Appkit.Boundary.{TurnBoundary, mark, go_on, data_turn, feed_raw}
use soothe_client_go.Appkit.Boundary.Safety.{feed_raw-Outcome}
use soothe_client_go.Appkit.Session.{
  Turn, is_other_loop, is_other_turn, follow_loop, on_running, on_stopped, on_idle, on_state,
  on_status, on_command_response, chunk_of, is_turn_end, after_send, send, note_progress,
  is_early_end, is_dropped, on_event, on_frame,
}
use soothe_client_go.Appkit.Session.Gate.{
  Ahead, gate_of, gate_of-on_running, other-Ahead, status-Ahead, event-Ahead,
}
use soothe_client_go.Appkit.Session.Ends.{
  Sim, Meets, differs, stopped-ends, idle-ends, event-ends, allow_idle_mono, allow_end_mono,
  gate_of-follow_loop, gate_of-note_progress,
}

-- A frame at a boundary that is open: `b` is the boundary once its gate has observed the frame.
module _ (m : Fields) (h : TurnLifecycleGate) (reason : String) (t : Turn)
    (a : Ahead (gate_of t) h) where
  unfoldable pub observed : TurnBoundary
  observed = record { gate = observe_raw m h; ended = false; reason = reason }

  goes_on : (u : Turn) → Ahead (gate_of u) (observe_raw m h) → Sim u (feed_raw m observed).0
  unfolding observed mark go_on
  goes_on u ahead = elim (feed_raw-Outcome observed m) [
    | inl e ↦ rw e (inr ahead)
    | inr (why, j, e) ↦ rw e (inl refl)
  ]

  unfoldable pub after : TurnBoundary
  after = (feed_raw m observed).0

  -- A frame that leaves the session's turn alone, and is no running status.
  skipped :
      (text_of "type" m == "status" && text_of "state" m == "running") ≡ false
      → (u : Turn) → gate_of u ≡ gate_of t
      → Sim u after
  unfolding after
  skipped other u e = goes_on u (
      subst (λ (g : TurnLifecycleGate). Ahead g (observe_raw m h)) (sym e)
        (other-Ahead m (gate_of t) h a other))

  module _ (is_status : (text_of "type" m == "status") ≡ true) where
    not_running :
        (text_of "state" m == "running") ≡ false
        → (text_of "type" m == "status" && text_of "state" m == "running") ≡ false
    not_running e = ground arith

    running-Meets :
        (u : Turn)
        → gate_of u ≡ gate_of t
        → (text_of "state" m == "running") ≡ true
        → Sim (on_running (frame_turn_id m) u) after
    unfolding after
    running-Meets u e running = goes_on (on_running (frame_turn_id m) u) (
        subst (λ (g : TurnLifecycleGate). Ahead g (observe_raw m h))
          (sym (gate_of-on_running (frame_turn_id m) u ∙ ap (observe_running (frame_turn_id m)) e))
          (status-Ahead m (gate_of t) h a (ground (arith, is_status, running))))

    stopped-Meets :
        (u : Turn)
        → gate_of u ≡ gate_of t
        → (text_of "state" m == "stopped") ≡ true
        → u.query_started ≡ true
        → Meets after (on_stopped (frame_turn_id m) u)
    unfolding after observed on_stopped
    stopped-Meets u e state started =
        let quiet : (text_of "state" m == "running") ≡ false =
          differs (text_of "state" m) "stopped" "running" state refl in
        let ahead = other-Ahead m (gate_of t) h a (not_running quiet) in
        if_cases (Meets after)
          (not (u.expected_turn_id == "")
            && not (turn_ids_match u.expected_turn_id (frame_turn_id m)))
          _ _ (λ _. skipped (not_running quiet) u e)
          (λ own.
            stopped-ends m observed is_status state
              (ahead.0 ∙ ap (λ (g : TurnLifecycleGate). g.saw_running) (sym e) ∙ started)
              (rw (ahead.1 ∙ ap (λ (g : TurnLifecycleGate). g.expected_turn_id) (sym e)) own))

    idle-Meets :
        (u : Turn)
        → gate_of u ≡ gate_of t
        → (text_of "state" m == "idle") ≡ true
        → Meets after (on_idle (frame_turn_id m) u)
    unfolding after observed on_idle
    idle-Meets u e state =
        let quiet : (text_of "state" m == "running") ≡ false =
          differs (text_of "state" m) "idle" "running" state refl in
        let ahead = other-Ahead m (gate_of t) h a (not_running quiet) in
        if_cases (Meets after)
          (is_idle_terminal_allowed u.expected_turn_id (frame_turn_id m) u.query_started
            u.turn_progress_seen u.cancel_seen)
          _ _
          (λ allowed.
            idle-ends m observed is_status (differs (text_of "state" m) "idle" "stopped" state refl)
              state
              (allow_idle_mono (gate_of u) (observe_raw m h) (frame_turn_id m)
                (subst (λ (g : TurnLifecycleGate). Ahead g (observe_raw m h)) (sym e) ahead)
                allowed))
          (λ _. skipped (not_running quiet) u e)

    state-Meets :
        (u : Turn)
        → gate_of u ≡ gate_of t
        → Meets after (on_state (text_of "state" m) (frame_turn_id m) u)
    unfolding on_state
    state-Meets u e =
        let state = text_of "state" m in
        if_cases (Meets after) (state == "running") _ _ (λ running. running-Meets u e running)
          (λ quiet.
            if_cases (Meets after) (u.query_started && state == "stopped") _ _
              (λ both. stopped-Meets u e (ground arith) (ground arith))
              (λ _.
                if_cases (Meets after) (u.query_started && state == "idle") _ _
                  (λ both. idle-Meets u e (ground arith)) (λ _. skipped (not_running quiet) u e)))

    status-Meets : Meets after (on_status m t)
    unfolding on_status
    status-Meets = rw is_status (
        state-Meets (follow_loop (text_of "loop_id" m) t)
          (gate_of-follow_loop (text_of "loop_id" m) t))

  module _ (is_event : text_of "type" m ≡ "event") where
    quiet_event : (text_of "type" m == "status" && text_of "state" m == "running") ≡ false
    quiet_event = rw is_event refl

    sent-Meets :
        (u : Turn)
        → gate_of u
          ≡ observe_progress (is_turn_progress_chunk (text_of "mode" m) (get "data" m)) (gate_of t)
        → is_early_end (chunk_of m) (frame_turn_id m) t ≡ false
        → Meets after (after_send (chunk_of m) u)
    unfolding after observed after_send is_early_end
    sent-Meets u e early =
        let ahead = event-Ahead m (gate_of t) h a is_event in
        if_cases (Meets after) (is_turn_end (chunk_of m)) _ _
          (λ end'.
            event-ends m observed (rw is_event refl) (rw is_event refl) (ground arith)
              (ground arith)
              (allow_end_mono (gate_of t) (observe_raw m h)
                (data_turn (frame_turn_id m) (get "data" m))
                (other-Ahead m (gate_of t) h a quiet_event) (ground arith)))
          (λ _.
            goes_on u (subst (λ (g : TurnLifecycleGate). Ahead g (observe_raw m h)) (sym e) ahead))

  command-Meets :
      (text_of "type" m == "status") ≡ false
      → contains (text_of "content" m) "Cancellation requested" ≡ false
      → Meets after (on_command_response m t)
  unfolding on_command_response
  command-Meets other quiet = rw quiet (skipped (ground arith) t refl)

  module _ (drop : Items → String → Value → Bool) (cancelled : Option String) where
    send-Meets :
        (err : Option String)
        → text_of "type" m ≡ "event"
        → is_early_end (chunk_of m) (frame_turn_id m) t ≡ false
        → Meets after (send (chunk_of m) err (note_progress (chunk_of m) t))
    unfolding send
    send-Meets none e early = sent-Meets e _ (gate_of-note_progress (chunk_of m) t) early
    send-Meets (some err) e early = tt

    event-Meets : text_of "type" m ≡ "event" → Meets after (on_event drop m cancelled t)
    unfolding on_event
    event-Meets e =
        if_cases (Meets after) (is_dropped drop (chunk_of m)) _ _
          (λ _. skipped (quiet_event e) (record t { filtered_early = t.filtered_early + 1 }) refl)
          (λ _.
            if_cases (Meets after) (is_early_end (chunk_of m) (frame_turn_id m) t) _ _
              (λ _. skipped (quiet_event e) t refl) (λ early. send-Meets cancelled e early))

    other_turn-quiet :
        is_other_turn t.expected_turn_id m ≡ true
        → (text_of "type" m == "status" && text_of "state" m == "running") ≡ false
    unfolding is_other_turn
    other_turn-quiet h = ground arith

    pub frame-Meets :
        is_other_loop t.expected_loop_id m ≡ false
        → (text_of "type" m == "command_response"
            && contains (text_of "content" m) "Cancellation requested")
          ≡ false
        → Meets after (on_frame drop m cancelled t)
    unfolding on_frame
    frame-Meets own quiet =
        let typ = text_of "type" m in
        rw own (
          if_cases (Meets after) (is_other_turn t.expected_turn_id m) _ _
            (λ other. skipped (other_turn-quiet other) t refl)
            (λ _.
              if_cases (Meets after) (typ == "error") _ _ (λ _. tt)
                (λ _.
                  if_cases (Meets after) (typ == "status") _ _ (λ e. status-Meets e)
                    (λ other.
                      if_cases (Meets after) (typ == "command_response") _ _
                        (λ e. command-Meets other (ground arith))
                        (λ _.
                          if_cases (Meets after) (not (typ == "event")) _ _
                            (λ _. skipped (ground arith) t refl)
                            (λ e. event-Meets ((eq_iff typ "event").0 (ground arith))))))))
