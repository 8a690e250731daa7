-- ===== src/Appkit/Session/Filter.antt =====
-- What reaches the consumer of a turn.
use soothe_client_go.Prelude.{String, ◌≡◌, ◌⊎◌, Bool, true, false, [], ◌∷◌, ◌++◌}
use soothe_client_go.Json.{Value, Items, Fields, text_of}
use soothe_client_go.TurnId.{frame_turn_id, turn_ids_match}
use soothe_client_go.Appkit.Session.{Turn, Verdict, is_other_loop, chunk_of, is_dropped}

module _ (drop : Items → String → Value → Bool) (ev : Fields) (t : Turn) where
  -- The chunk of the frame may be sent: an event of the session's loop and, once a turn is bound, of
  -- that turn, which the early filter does not drop.
  abbrev pub MaySend : Type 0
  MaySend =
      (text_of "type" ev ≡ "event")
      × (is_other_loop t.expected_loop_id ev ≡ false)
      × ((t.expected_turn_id ≡ "") ⊎ (turn_ids_match t.expected_turn_id (frame_turn_id ev) ≡ true))
      × (is_dropped drop (chunk_of ev) ≡ false)

  abbrev pub Sends : Verdict × Turn → Type 0
  Sends out = (out.1.sent ≡ t.sent) ⊎ ((out.1.sent ≡ t.sent ++ chunk_of ev ∷ []) × MaySend)
