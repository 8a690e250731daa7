-- ===== src/Appkit/Boundary/Isolation.antt =====
-- The frames of another turn never end this one.
use soothe_client_go.Prelude.{
  String, ◌≡◌, ◌≢◌, ◌⊎◌, fold, refl, Bool, true, false, ne→==, arith, Bool-cases, inl, inr,
  trim_space, trim_space_idem, equal_fold, equal_fold_right, if_cases,
}
use soothe_client_go.Protocol.{EventMessage, StatusResponse, event, status}
use soothe_client_go.Stream.{is_turn_progress_chunk}
use soothe_client_go.TurnId.{turn_ids_match, is_turn_terminal_allowed, is_idle_terminal_allowed}
use soothe_client_go.Appkit.Lifecycle.{
  observe, observe_progress, allow_stream_end, allow_idle_complete,
}
use soothe_client_go.Appkit.Boundary.{
  TurnBoundary, feed_status, data_turn, feed_event, feed_observed, feed,
}

feed_status-other :
    (stopped idle : Bool) (t : String) (b : TurnBoundary)
    → b.ended ≡ false
    → b.gate.expected_turn_id ≢ ""
    → t ≢ ""
    → trim_space t ≡ t
    → turn_ids_match b.gate.expected_turn_id t ≡ false
    → (feed_status stopped idle t b).0.ended ≡ false
unfolding feed_status allow_idle_complete is_idle_terminal_allowed
feed_status-other stopped idle t b open' bound some_turn clean other =
    rw (clean, other, ne→== t "" some_turn, ne→== b.gate.expected_turn_id "" bound) (ground arith)

-- A status that is running is neither stopped nor idle.
running-not_end :
    (state : String)
    → equal_fold state "running" ≡ true
    → (equal_fold state "stopped" ≡ false) × (equal_fold state "idle" ≡ false)
running-not_end state h = (
  not_both "stopped" (Bool-cases (equal_fold state "stopped")) (unfold equal_fold fold in refl),
  not_both "idle" (Bool-cases (equal_fold state "idle")) (unfold equal_fold fold in refl),
)
  where
    not_both :
        (other : String)
        → (equal_fold state other ≡ true) ⊎ (equal_fold state other ≡ false)
        → equal_fold "running" other ≡ false
        → equal_fold state other ≡ false
    not_both other (inl e) n = cc (equal_fold_right state "running" other h e, n)
    not_both other (inr e) n = e

-- A status frame that carries the id of another turn does not end an open turn that is bound,
-- whatever its state is: running, idle, stopped or any other.
pub feed-status_of_other_turn :
    (b : TurnBoundary) (m : StatusResponse)
    → b.ended ≡ false
    → b.gate.expected_turn_id ≢ ""
    → trim_space m.turn_id ≢ ""
    → turn_ids_match b.gate.expected_turn_id (trim_space m.turn_id) ≡ false
    → (feed b (status m)).0.ended ≡ false
unfolding feed feed_observed observe
feed-status_of_other_turn b m open' bound some_turn other =
    let state = trim_space m.state in
    let t = trim_space m.turn_id in
    if_cases (λ (out : TurnBoundary × (Bool × String)). out.0.ended ≡ false) b.ended
      (b, (true, b.reason)) _ (λ _. open')
      (λ _. elim (Bool-cases (equal_fold state "running")) [
        | inl e ↦ rw (running-not_end state e).0 (rw (running-not_end state e).1 open')
        | inr e ↦ rw e (
            feed_status-other (equal_fold state "stopped") (equal_fold state "idle") t b open' bound
              some_turn (trim_space_idem m.turn_id) other)
      ])

-- A stream end whose turn id is not the bound one, of another turn or of none, does not end an open
-- turn.
pub feed-event_of_other_turn :
    (b : TurnBoundary) (m : EventMessage)
    → b.ended ≡ false
    → turn_ids_match b.gate.expected_turn_id (data_turn (trim_space m.turn_id) m.data') ≡ false
    → (feed b (event m)).0.ended ≡ false
unfolding feed feed_observed feed_event observe observe_progress allow_stream_end
    is_turn_terminal_allowed
feed-event_of_other_turn b m open' other =
    if_cases (λ (out : TurnBoundary × (Bool × String)). out.0.ended ≡ false) b.ended
      (b, (true, b.reason)) _ (λ _. open')
      (λ _. elim (Bool-cases (is_turn_progress_chunk m.mode m.data')) [
        | inl e ↦ rw (e, other) (ground arith)
        | inr e ↦ rw (e, other) (ground arith)
      ])
