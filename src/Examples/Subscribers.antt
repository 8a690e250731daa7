-- ===== src/Examples/Subscribers.antt =====
-- The broadcaster at concrete calls.
use soothe_client_go.Prelude.{List, [], ◌∷◌}
use soothe_client_go.Appkit.Broadcaster.{new_sse_broadcaster}
use soothe_client_go.Appkit.Broadcaster.Channels.{
  Call, subscribe_call, unsubscribe_call, broadcast_call, close_call, after_all,
  after_all-new_sse_broadcaster,
}
use soothe_client_go.Appkit.Broadcaster.Counts.{Inv}

abbrev two_subscribers : List Call
two_subscribers =
    subscribe_call "chat"
    ∷ subscribe_call "chat"
    ∷ broadcast_call "chat" (record { type' = "delta"; data' = "hi" })
    ∷ unsubscribe_call "chat" 0
    ∷ unsubscribe_call "chat" 0
    ∷ close_call "chat"
    ∷ []

after_all-new_sse_broadcaster_example : Inv (after_all two_subscribers new_sse_broadcaster)
after_all-new_sse_broadcaster_example = after_all-new_sse_broadcaster two_subscribers
