-- ===== src/Appkit/Boundary/Projected.antt =====
-- Turn ends that come out of `next` envelopes.
use soothe_client_go.Prelude.{
  String, ◌≡◌, refl, ap, ◌∙◌, subst, false, Option, none, some, trim_space, arith, if_cases,
  Option-cases, inl, inr,
}
use soothe_client_go.Json.{Value, obj, Fields, get}
use soothe_client_go.Protocol.{
  EventMessage, Envelope, event, or_else, inner_to_event_message, payload_to_event_message,
  project_payload, next_to_event_message,
}
use soothe_client_go.TurnId.{turn_ids_match}
use soothe_client_go.Appkit.Boundary.{TurnBoundary, data_turn, feed}
use soothe_client_go.Appkit.Boundary.Isolation.{feed-event_of_other_turn}

-- No turn id where there is a message.
abbrev NoTurnId : Option EventMessage → Type 0
NoTurnId none = Unit
NoTurnId (some em) = em.turn_id ≡ ""

or_else-NoTurnId : (x y : Option EventMessage) → NoTurnId x → NoTurnId y → NoTurnId (or_else x y)
or_else-NoTurnId none y a b = b
or_else-NoTurnId (some em) y a b = a

inner-NoTurnId : (inner : Fields) → NoTurnId (inner_to_event_message inner)
unfolding inner_to_event_message
inner-NoTurnId inner = if_cases NoTurnId _ (some _) none (λ _. refl) (λ _. tt)

payload-NoTurnId : (payload : Fields) → NoTurnId (payload_to_event_message payload)
unfolding payload_to_event_message
payload-NoTurnId payload = if_cases NoTurnId _ (some _) none (λ _. refl) (λ _. tt)

project-NoTurnId : (payload : Fields) → NoTurnId (project_payload payload)
unfolding project_payload
project-NoTurnId payload = go (get "data" payload) refl
  where
    go : (d : Value) → get "data" payload ≡ d → NoTurnId (project_payload payload)
    go (obj inner) e =
        rw (e, project_payload)
          (or_else-NoTurnId (inner_to_event_message inner) (payload_to_event_message payload)
            (inner-NoTurnId inner) (payload-NoTurnId payload))
    go _ e = rw (e, project_payload) (payload-NoTurnId payload)

next-NoTurnId : (env : Envelope) → NoTurnId (next_to_event_message env)
unfolding next_to_event_message
next-NoTurnId env = elim (Option-cases env.payload) [
  | inl e ↦ rw (e, next_to_event_message) tt
  | inr (payload, e) ↦ rw (e, next_to_event_message) (project-NoTurnId payload)
]

trim_empty : trim_space "" ≡ ""
unfolding trim_space
trim_empty = refl

no_match : (expected : String) → turn_ids_match expected "" ≡ false
unfolding turn_ids_match
no_match expected = rw trim_empty (ground arith)

-- An event that was projected out of a `next` envelope has lost the turn id of its frame: its turn
-- end ends no turn, in any state of the boundary that is open, unless the payload of the event
-- itself carries a turn id.
pub feed-projected :
    (env : Envelope) (em : EventMessage) (b : TurnBoundary)
    → next_to_event_message env ≡ some em
    → b.ended ≡ false
    → data_turn "" em.data' ≡ ""
    → (feed b (event em)).0.ended ≡ false
feed-projected env em b projected open' bare =
    let lost : em.turn_id ≡ "" = subst NoTurnId projected (next-NoTurnId env) in
    let frame_turn : data_turn (trim_space em.turn_id) em.data' ≡ "" =
      ap (λ (t : String). data_turn (trim_space t) em.data') lost
      ∙ ap (λ (t : String). data_turn t em.data') trim_empty
      ∙ bare in
    feed-event_of_other_turn b em open'
      (ap (turn_ids_match b.gate.expected_turn_id) frame_turn ∙ no_match b.gate.expected_turn_id)
