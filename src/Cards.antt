-- ===== src/Cards.antt =====
-- card_projection.go: the map from card ids to cards that the soothe.card.* frames drive.
pub mod Order
pub mod Merge
use soothe_client_go.Prelude.{
  String, Bool, true, false, not, ◌&&◌, ◌||◌, Option, none, some, List, [], ◌∷◌, ◌++◌, ◌==◌,
  trim_space, lookup, insert, if◌then◌else◌,
}
use soothe_client_go.Json.{Value, str, obj, Fields, end, field, get, put, is_null, text_of}
use soothe_client_go.Events.{
  card_created, card_updated, card_finalized, card_replay_begin, card_replay_end,
}

-- cardMutationTypes, as the values of its five keys
pub data CardFrame : Type 0 where
  created updated finalized replay_begin replay_end : CardFrame

unfoldable pub card_frame_type : String → Option CardFrame
card_frame_type t =
    if t == card_created
    then some created
    else if t == card_updated
    then some updated
    else if t == card_finalized
    then some finalized
    else if t == card_replay_begin
    then some replay_begin
    else if t == card_replay_end
    then some replay_end
    else none

-- ParsedCardFrame; `card` is nil but for a created card
pub record ParsedCardFrame : Type 0 where
  pub wire_type : CardFrame
  pub card : Option Fields
  pub patch : Fields

-- `payload["id"] = cardID` where the payload has no id and there is one
unfoldable pub with_card_id : String → Fields → Fields
with_card_id card_id payload =
    if trim_space (text_of "id" payload) == "" && not (card_id == "")
    then put "id" (str card_id) payload
    else payload

unfoldable pub card_id_of : Fields → Fields → String
card_id_of m payload =
    let own = trim_space (text_of "card_id" m) in
    if own == "" then trim_space (text_of "id" payload) else own

unfoldable pub parse_as : CardFrame → Fields → Fields → Option ParsedCardFrame
unfolding with_card_id card_id_of
parse_as replay_begin m payload =
    some (record { wire_type = replay_begin; card = none; patch = end })
parse_as replay_end m payload = some (record { wire_type = replay_end; card = none; patch = end })
parse_as created m payload =
    if is_null (get "type" payload) || is_null (get "content" payload)
    then none
    else some (record {
      wire_type = created;
      card = some (with_card_id (card_id_of m payload) payload);
      patch = end;
    })
parse_as wire_type m payload = some (record {
  wire_type = wire_type;
  card = none;
  patch = with_card_id (card_id_of m payload) payload;
})

-- The copy of `m["data"]`
unfoldable pub payload_of : Fields → Fields
payload_of m = elim (get "data" m) [ obj raw ↦ raw | _ ↦ end ]

unfoldable pub parse_map : Fields → Option ParsedCardFrame
unfolding parse_as payload_of
parse_map m = elim (card_frame_type (trim_space (text_of "type" m))) [
  | none ↦ none
  | some wire_type ↦ parse_as wire_type m (payload_of m)
]

-- ParseCardCustomPayload
unfoldable pub parse_card_custom_payload : Value → Option ParsedCardFrame
unfolding parse_map
parse_card_custom_payload (obj m) = parse_map m
parse_card_custom_payload _ = none

-- CardProjection
pub record CardProjection : Type 0 where
  pub cards : List (String × Fields)
  pub order : List String
  pub replaying : Bool

-- NewCardProjection
abbrev pub new_card_projection : CardProjection
new_card_projection = record { cards = []; order = []; replaying = false }

abbrev append_card : Option Fields → List Fields → List Fields
append_card none out = out
append_card (some c) out = c ∷ out

snapshot_from : List String → List (String × Fields) → List Fields
snapshot_from [] cards = []
snapshot_from (id ∷ order) cards = append_card (lookup id cards) (snapshot_from order cards)

-- Snapshot
unfoldable pub snapshot : CardProjection → List Fields
unfolding snapshot_from
snapshot p = snapshot_from p.order p.cards

-- Get
unfoldable pub get_card : String → CardProjection → Option Fields
get_card card_id p = lookup card_id p.cards

-- The patch of an update, without its keys `id` and `type`. The keys of a Go map differ, so the
-- order in which they are taken does not matter.
unfoldable pub is_kept_key : String → Bool
is_kept_key k = k == "id" || k == "type"

unfoldable pub merge : Fields → Fields → Fields
merge end existing = existing
merge (field k v patch) existing =
    let next = merge patch existing in if is_kept_key k then next else put k v next

abbrev exists' : Option Fields → Bool
exists' none = false
exists' (some c) = true

unfoldable pub apply_created : Option Fields → CardProjection → CardProjection
apply_created none p = p
apply_created (some card) p =
    let id = trim_space (text_of "id" card) in
    if id == "" then p else record p {
      order = if exists' (lookup id p.cards) then p.order else p.order ++ id ∷ [];
      cards = insert id card p.cards;
    }

unfoldable pub apply_patch : Option Fields → String → Fields → CardProjection → CardProjection
unfolding merge
apply_patch none id patch p = p
apply_patch (some existing) id patch p = record p {
  cards = insert id (merge patch existing) p.cards;
}

unfoldable pub apply_updated : Fields → CardProjection → CardProjection
unfolding apply_patch
apply_updated patch p =
    let id = trim_space (text_of "id" patch) in
    if id == "" then p else apply_patch (lookup id p.cards) id patch p

-- The switch of Apply.
unfoldable pub apply_frame : CardFrame → ParsedCardFrame → CardProjection → CardProjection
unfolding apply_created apply_updated
apply_frame replay_begin parsed p = record { cards = []; order = []; replaying = true }
apply_frame replay_end parsed p = record p { replaying = false }
apply_frame created parsed p = apply_created parsed.card p
apply_frame updated parsed p = apply_updated parsed.patch p
apply_frame finalized parsed p = apply_updated parsed.patch p

-- Apply: the new projection, and whether the payload was handled
unfoldable pub apply : Value → CardProjection → CardProjection × Bool
unfolding apply_frame
apply data' p = elim (parse_card_custom_payload data') [
  | none ↦ (p, false)
  | some parsed ↦ (apply_frame parsed.wire_type parsed p, true)
]

-- The payloads of a stream, one after the other.
unfoldable pub apply_all : List Value → CardProjection → CardProjection
apply_all [] p = p
apply_all (data' ∷ more) p = apply_all more (apply data' p).0
