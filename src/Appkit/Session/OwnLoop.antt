-- ===== src/Appkit/Session/OwnLoop.antt =====
-- A session that meets frames of its own loop only stays with that loop.
use soothe_client_go.Prelude.{
  String, ◌≡◌, Bool, true, false, not, ◌||◌, Option, none, some, ◌==◌, eq_iff, arith, contains,
  if_cases,
}
use soothe_client_go.Json.{Value, Items, Fields, text_of}
use soothe_client_go.TurnId.{frame_turn_id}
use soothe_client_go.Appkit.Session.{
  TurnChunk, Turn, Verdict, is_other_loop, status_state, is_other_turn, follow_loop, on_running,
  on_stopped, on_idle, on_state, on_status, on_command_response, chunk_of, after_send, send,
  note_progress, is_early_end, is_dropped, on_event, on_frame,
}

-- The frame names the loop, or none.
abbrev pub IsOwn : String → Fields → Type 0
IsOwn loop ev = (text_of "loop_id" ev == "" || text_of "loop_id" ev == loop) ≡ true

pub own-not-other : (loop : String) (ev : Fields) → IsOwn loop ev → is_other_loop loop ev ≡ false
unfolding is_other_loop
own-not-other loop ev h = ground arith

module _ (loop : String) where
  abbrev Stays : Verdict × Turn → Type 0
  Stays out = out.1.expected_loop_id ≡ loop

  follow_loop-Stays :
      (ev : Fields) (t : Turn)
      → IsOwn loop ev
      → t.expected_loop_id ≡ loop
      → (follow_loop (text_of "loop_id" ev) t).expected_loop_id ≡ loop
  unfolding follow_loop
  follow_loop-Stays ev t own h = ground (arith, eq_iff (text_of "loop_id" ev) loop)

  on_state-Stays :
      (state tid : String) (t : Turn) → t.expected_loop_id ≡ loop → Stays (on_state state tid t)
  unfolding on_state on_running on_stopped on_idle
  on_state-Stays state tid t h = ground arith

  send-Stays :
      (c : TurnChunk) (err : Option String) (t : Turn)
      → t.expected_loop_id ≡ loop
      → Stays (send c err t)
  unfolding send after_send
  send-Stays c (some err) t h = h
  send-Stays c none t h = ground arith

  note_progress-Stays :
      (c : TurnChunk) (t : Turn)
      → t.expected_loop_id ≡ loop
      → (note_progress c t).expected_loop_id ≡ loop
  unfolding note_progress
  note_progress-Stays c t h = ground arith

  on_event-Stays :
      (drop : Items → String → Value → Bool) (ev : Fields) (err : Option String) (t : Turn)
      → t.expected_loop_id ≡ loop
      → Stays (on_event drop ev err t)
  unfolding on_event
  on_event-Stays drop ev err t h =
      if_cases Stays (is_dropped drop (chunk_of ev)) _ _ (λ _. h)
        (λ _.
          if_cases Stays (is_early_end (chunk_of ev) (frame_turn_id ev) t) _ _ (λ _. h)
            (λ _.
              send-Stays (chunk_of ev) err (note_progress (chunk_of ev) t)
                (note_progress-Stays (chunk_of ev) t h)))

  pub on_frame-Stays :
      (drop : Items → String → Value → Bool) (ev : Fields) (err : Option String) (t : Turn)
      → IsOwn loop ev
      → t.expected_loop_id ≡ loop
      → Stays (on_frame drop ev err t)
  unfolding on_frame on_status on_command_response
  on_frame-Stays drop ev err t own h =
      let typ = text_of "type" ev in
      if_cases Stays (is_other_loop t.expected_loop_id ev) _ _ (λ _. h)
        (λ _.
          if_cases Stays (is_other_turn t.expected_turn_id ev) _ _ (λ _. h)
            (λ _.
              if_cases Stays (typ == "error") _ _ (λ _. h)
                (λ _.
                  if_cases Stays (typ == "status") _ _
                    (λ _.
                      on_state-Stays (status_state ev) (frame_turn_id ev) _
                        (follow_loop-Stays ev t own h))
                    (λ _.
                      if_cases Stays (typ == "command_response") _ _
                        (λ _.
                          if_cases (λ (u : Turn). u.expected_loop_id ≡ loop)
                            (contains (text_of "content" ev) "Cancellation requested") _ _ (λ _. h)
                            (λ _. h))
                        (λ _.
                          if_cases Stays (not (typ == "event")) _ _ (λ _. h)
                            (λ _. on_event-Stays drop ev err t h))))))
