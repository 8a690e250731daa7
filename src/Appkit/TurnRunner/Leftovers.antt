-- ===== src/Appkit/TurnRunner/Leftovers.antt =====
-- appkit/turn_runner.go: frames of an earlier turn that come in before the turn shows anything.
use soothe_client_go.Prelude.{
  String, ◌≡◌, refl, true, false, not, ◌&&◌, ◌||◌, Option, none, some, List, [], ◌∷◌, ◌∙◌, arith,
  if_cases, ◌⊎◌, eq_iff, trim_space, equal_fold,
}
use soothe_client_go.Stream.{is_turn_end_custom_data}
use soothe_client_go.Json.{Fields}
use soothe_client_go.Protocol.{Message, event, status, envelope, error_response, raw, unknown}
use soothe_client_go.Appkit.TurnRunner.{
  TurnRunner, Turn, Tick, received, Step, is_status_running_event, is_stale_turn_end_event,
  on_message, on_tick, go_on, run_loop,
}

-- A status that is idle, stopped or running, or a custom event with the data of a stream end; the daemon
-- may have sent it for an earlier turn.
abbrev pub IsLeftover : Message → Type 0
IsLeftover (status m) =
    let state = trim_space m.state in
    (equal_fold state "idle" ≡ true)
    ⊎ ((equal_fold state "stopped" ≡ true) ⊎ (equal_fold state "running" ≡ true))
IsLeftover (event m) = (m.mode ≡ "custom") × (is_turn_end_custom_data m.data' ≡ true)
IsLeftover _ = ⊥

leftover_test :
    (msg : Message)
    → IsLeftover msg
    → (is_stale_turn_end_event msg || is_status_running_event msg) ≡ true
unfolding is_stale_turn_end_event is_status_running_event
leftover_test (status m) left = ground (arith, left)
leftover_test (event m) (mode, data') = ground (arith, (eq_iff m.mode "custom").1 mode, data')
leftover_test (envelope m) left = absurd left
leftover_test (error_response m) left = absurd left
leftover_test (raw m) left = absurd left
leftover_test unknown left = absurd left

abbrev pub AllLeftover : List Message → Type 0
AllLeftover [] = Unit
AllLeftover (msg ∷ msgs) = IsLeftover msg × AllLeftover msgs

abbrev pub received_all : List Message → List Tick
received_all [] = []
received_all (msg ∷ msgs) = received msg ∷ received_all msgs

module _ (r : TurnRunner) (decode : String → Option Fields) (loop_id : String) where
  -- Nothing is done, the turn goes on, and it has neither shown anything nor gained a text.
  abbrev pub IsUntouched : Turn → Step r → Type 0
  IsUntouched t out =
      (out.0 ≡ [])
      × (out.2 ≡ none)
      × (out.1.armed ≡ false)
      × (out.1.assistant_content ≡ t.assistant_content)

  leftover_running :
      (t : Turn) (msg : Message)
      → (is_stale_turn_end_event msg || is_status_running_event msg) ≡ true
      → t.armed ≡ false
      → (not t.armed && is_stale_turn_end_event msg) ≡ false
      → (not t.armed && is_status_running_event msg) ≡ false
      → true ≡ false
  leftover_running t msg left unarmed a b = ground arith

  on_message-IsUntouched :
      (msg : Message) (t : Turn)
      → IsLeftover msg
      → t.armed ≡ false
      → IsUntouched t (on_message r decode msg t)
  unfolding on_message
  on_message-IsUntouched msg t left unarmed =
      if_cases (IsUntouched t) (not t.armed && is_stale_turn_end_event msg) _ _
        (λ _. (refl, refl, unarmed, refl))
        (λ a.
          if_cases (IsUntouched t) (not t.armed && is_status_running_event msg) _ _
            (λ _. (refl, refl, unarmed, refl))
            (λ b. cc (leftover_running t msg (leftover_test msg left) unarmed a b)))

  go_on-IsUntouched :
      (t : Turn) (out rest : Step r)
      → IsUntouched t out
      → IsUntouched out.1 rest
      → IsUntouched t (go_on r decode out rest)
  go_on-IsUntouched t (effects, t', some end') rest (e, n, a, c) h = cc
  go_on-IsUntouched t (effects, t', none) (more, t'', end') (e, n, a, c) (e', n', a', c') =
      (rw (e, e') refl, n', a', c' ∙ c)

  -- Whatever statuses that are idle, stopped or running, and custom events with the data of a stream end,
  -- come in first: a turn that has shown nothing yet does nothing for them, shows nothing, gains no text
  -- and does not end.
  pub run_loop-IsUntouched :
      (msgs : List Message) (t : Turn)
      → AllLeftover msgs
      → t.armed ≡ false
      → IsUntouched t (run_loop r decode loop_id (received_all msgs) t)
  unfolding run_loop on_tick
  run_loop-IsUntouched [] t left unarmed = (refl, refl, unarmed, refl)
  run_loop-IsUntouched (msg ∷ msgs) t (left, all) unarmed =
      let out = on_message r decode msg t in
      let untouched = on_message-IsUntouched msg t left unarmed in
      go_on-IsUntouched t out (run_loop r decode loop_id (received_all msgs) out.1) untouched
        (run_loop-IsUntouched msgs out.1 all untouched.2)
