-- ===== src/Examples/Projections.antt =====
-- The card projection.
use soothe_client_go.Prelude.{false, [], ◌∷◌}
use soothe_client_go.Json.{Value, str, obj, Fields, end, field}
use soothe_client_go.Cards.{CardProjection, new_card_projection, apply_all}
use soothe_client_go.Cards.Order.{IsOrdered, apply_all-IsOrdered}

abbrev create : Value
create = obj (
    field "type" (str "soothe.card.created") (
      field "card_id" (str "c1")
        (field "data" (obj (field "type" (str "text") (field "content" (str "hi") end))) end)))

abbrev begin_replay : Fields
begin_replay = field "type" (str "soothe.card.replay.begin") end

abbrev card : Fields
card = field "id" (str "c1") (field "content" (str "hi") end)

abbrev projection : CardProjection
projection = record { cards = ("c1", card) ∷ []; order = "c1" ∷ []; replaying = false }

abbrev patch : Fields
patch = field "id" (str "c1") (field "content" (str "bye") end)

apply_all-IsOrdered_example :
    IsOrdered (apply_all (create ∷ obj begin_replay ∷ create ∷ []) new_card_projection)
apply_all-IsOrdered_example = apply_all-IsOrdered (create ∷ obj begin_replay ∷ create ∷ [])
