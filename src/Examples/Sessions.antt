-- ===== src/Examples/Sessions.antt =====
-- A session's turn at concrete reads.
use soothe_client_go.Prelude.{Bool, true, trim_space, String, ◌≡◌, refl, none, List, [], ◌∷◌}
use soothe_client_go.Json.{Value, Items, str, obj, Fields, field, end, get, as_string}
use soothe_client_go.TurnId.{frame_turn_id, turn_ids_match, is_idle_terminal_allowed}
use soothe_client_go.Stream.{is_turn_progress_chunk}
use soothe_client_go.Appkit.Lifecycle.{takes_over}
use soothe_client_go.Appkit.Frame.{unwrap_next}
use soothe_client_go.Appkit.ChunkFilter.{should_drop_stream_chunk_early}
use soothe_client_go.Appkit.Boundary.{new_boundary, feed_all}
use soothe_client_go.Appkit.Session.{Turn, new_turn, Read, frame}
use soothe_client_go.Appkit.Session.Loop.{turn_loop, iter_turn_chunks}
use soothe_client_go.Appkit.Session.Refines.{messages_of, turn_loop-refines}

-- What NewDaemonSession takes for its earlyDropFn.
abbrev early_drop : Items → String → Value → Bool
early_drop namespace mode data' = should_drop_stream_chunk_early mode data'

abbrev status_frame : String → String → Fields
status_frame state turn =
    field "type" (str "status")
      (field "state" (str state) (field "loop_id" (str "l") (field "turn_id" (str turn) end)))

abbrev text_frame : String → Fields
text_frame turn = field "type" (str "event") (
    field "mode" (str "messages") (
      field "loop_id" (str "l")
        (field "turn_id" (str turn) (field "data" (obj (field "content" (str "hi") end)) end))))

abbrev one_turn : List Read
one_turn =
    frame (status_frame "running" "l:2") none
    ∷ frame (text_frame "l:1") none
    ∷ frame
        (field "type" (str "next")
          (field "payload" (obj (field "data" (obj (text_frame "l:2")) end)) end))
        none
    ∷ frame (status_frame "idle" "l:2") none
    ∷ frame (text_frame "l:3") none
    ∷ []

-- The turn sends its own chunk, and in the drain that of another turn.
turn_sends : (iter_turn_chunks early_drop "l" one_turn).1.post_idle_drained ≡ 1
unfolding iter_turn_chunks as_string get unwrap_next frame_turn_id trim_space takes_over
    turn_ids_match should_drop_stream_chunk_early is_turn_progress_chunk is_idle_terminal_allowed
turn_sends = refl

turn_loop-refines_example : (feed_all new_boundary (messages_of one_turn)).ended ≡ true
unfolding as_string get unwrap_next turn_loop frame_turn_id trim_space takes_over turn_ids_match
    should_drop_stream_chunk_early is_turn_progress_chunk is_idle_terminal_allowed
turn_loop-refines_example =
    turn_loop-refines early_drop "l" one_turn
      ((refl, refl), ((refl, refl), ((refl, refl), ((refl, refl), ((refl, refl), tt))))) refl

abbrev bound_turn : Turn
bound_turn = record (new_turn "l") { expected_turn_id = "l:2"; query_started = true }
