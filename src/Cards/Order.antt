-- ===== src/Cards/Order.antt =====
-- The order of the cards, and replays.
use mathlib.Core.Bool.{◌||◌}
use soothe_client_go.Prelude.{
  suc, String, ◌≡◌, refl, ap, sym, ◌∙◌, ◌⊎◌, true, false, Option, none, some, List, [], ◌∷◌, ◌++◌,
  ◌==◌, eq_iff, eq_refl, arith, Bool-cases, inl, inr, length, trim_space, lookup, insert,
  lookup-insert, contains_key, if_cases, Option-cases,
}
use soothe_client_go.Json.{Value, obj, Fields, text_of}
use soothe_client_go.Events.{card_replay_begin}
use soothe_client_go.Cards.{
  CardFrame, created, updated, finalized, replay_begin, replay_end, ParsedCardFrame,
  card_frame_type, parse_map, parse_card_custom_payload, CardProjection, new_card_projection,
  snapshot_from, snapshot, merge, exists', apply_created, apply_patch, apply_updated, apply_frame,
  apply, apply_all,
}

-- No id twice.
abbrev pub IsDistinct : List String → Type 0
IsDistinct [] = Unit
IsDistinct (k ∷ l) = (contains_key k l ≡ false) × IsDistinct l

-- The order lists each card once, and nothing else.
pub record IsOrdered (p : CardProjection) : Type 0 where
  pub distinct : IsDistinct p.order
  pub listed : (k : String) → contains_key k p.order ≡ exists' (lookup k p.cards)

contains_key-append :
    (k j : String) (l : List String) → contains_key k (l ++ j ∷ []) ≡ (contains_key k l || k == j)
contains_key-append k j [] = ground arith
contains_key-append k j (i ∷ l) = ground (arith, contains_key-append k j l)

IsDistinct-append :
    (k : String) (l : List String)
    → contains_key k l ≡ false
    → IsDistinct l
    → IsDistinct (l ++ k ∷ [])
IsDistinct-append k [] n d = (refl, tt)
IsDistinct-append k (j ∷ l) n (first, rest) = (
  ground (arith, contains_key-append j k l, eq_iff j k, eq_iff k j),
  IsDistinct-append k l (ground arith) rest,
)

apply_created-IsOrdered :
    (card : Option Fields) (p : CardProjection) → IsOrdered p → IsOrdered (apply_created card p)
unfolding apply_created
apply_created-IsOrdered none p v = v
apply_created-IsOrdered (some card) p v =
    let id = trim_space (text_of "id" card) in
    if_cases IsOrdered (id == "") p _ (λ _. v)
      (λ _. elim (Bool-cases (exists' (lookup id p.cards))) [
        | inl e ↦ rw e (record {
          distinct = v.distinct;
          listed = λ k. ground (arith, lookup-insert id k card p.cards, v.listed k, eq_iff id k);
        })
        | inr e ↦ rw e (record {
          distinct = IsDistinct-append id p.order (rw (v.listed id) e) v.distinct;
          listed = λ k. ground (
            arith,
            lookup-insert id k card p.cards,
            v.listed k,
            contains_key-append k id p.order,
            eq_iff id k,
            eq_iff k id,
          );
        })
      ])

apply_patch-IsOrdered :
    (found : Option Fields) (id : String) (patch : Fields) (p : CardProjection)
    → lookup id p.cards ≡ found
    → IsOrdered p
    → IsOrdered (apply_patch found id patch p)
unfolding apply_patch
apply_patch-IsOrdered none id patch p e v = v
apply_patch-IsOrdered (some existing) id patch p e v = record {
  distinct = v.distinct;
  listed = λ k. listed' k (merge patch existing) (Bool-cases (id == k));
}
  where
    listed' :
        (k : String) (card : Fields)
        → ((id == k) ≡ true) ⊎ ((id == k) ≡ false)
        → contains_key k p.order ≡ exists' (lookup k (insert id card p.cards))
    listed' k card (inl same) =
        rw (lookup-insert id k card p.cards, same)
          (v.listed k
            ∙ ap (λ (x : String). exists' (lookup x p.cards)) (sym ((eq_iff id k).0 same))
            ∙ ap exists' e)
    listed' k card (inr other) = rw (lookup-insert id k card p.cards, other) (v.listed k)

apply_updated-IsOrdered :
    (patch : Fields) (p : CardProjection) → IsOrdered p → IsOrdered (apply_updated patch p)
unfolding apply_updated
apply_updated-IsOrdered patch p v =
    let id = trim_space (text_of "id" patch) in
    if_cases IsOrdered (id == "") p _ (λ _. v)
      (λ _. apply_patch-IsOrdered (lookup id p.cards) id patch p refl v)

apply_frame-IsOrdered :
    (frame : CardFrame) (parsed : ParsedCardFrame) (p : CardProjection)
    → IsOrdered p
    → IsOrdered (apply_frame frame parsed p)
unfolding apply_frame lookup
apply_frame-IsOrdered created parsed p v = apply_created-IsOrdered parsed.card p v
apply_frame-IsOrdered updated parsed p v = apply_updated-IsOrdered parsed.patch p v
apply_frame-IsOrdered finalized parsed p v = apply_updated-IsOrdered parsed.patch p v
apply_frame-IsOrdered replay_begin parsed p v = record { distinct = tt; listed = λ k. refl }
apply_frame-IsOrdered replay_end parsed p v = record { distinct = v.distinct; listed = v.listed }

pub apply-IsOrdered :
    (data' : Value) (p : CardProjection) → IsOrdered p → IsOrdered (apply data' p).0
unfolding apply
apply-IsOrdered data' p v = elim (Option-cases (parse_card_custom_payload data')) [
  | inl e ↦ rw (e, apply) v
  | inr (parsed, e) ↦ rw (e, apply) (apply_frame-IsOrdered parsed.wire_type parsed p v)
]

apply_all-keeps :
    (events : List Value) (p : CardProjection) → IsOrdered p → IsOrdered (apply_all events p)
unfolding apply_all
apply_all-keeps [] p v = v
apply_all-keeps (data' ∷ more) p v =
    apply_all-keeps more (apply data' p).0 (apply-IsOrdered data' p v)

new-IsOrdered : IsOrdered new_card_projection
unfolding lookup
new-IsOrdered = record { distinct = tt; listed = λ k. refl }

-- After any payloads, valid or not, the order of the projection lists every card once and lists
-- nothing that is not a card.
pub apply_all-IsOrdered : (events : List Value) → IsOrdered (apply_all events new_card_projection)
apply_all-IsOrdered events = apply_all-keeps events new_card_projection new-IsOrdered

length-snapshot_from :
    (order : List String) (cards : List (String × Fields))
    → ((k : String) → contains_key k order ≡ true → exists' (lookup k cards) ≡ true)
    → length (snapshot_from order cards) ≡ length order
unfolding snapshot_from
length-snapshot_from [] cards all = refl
length-snapshot_from (k ∷ order) cards all =
    let rest = length-snapshot_from order cards (λ j h. all j (ground (arith, h))) in
    elim (Option-cases (lookup k cards)) [
      | inl e ↦ cc (ap exists' e, all k (rw eq_refl))
      | inr (card, e) ↦ rw e (ap suc rest)
    ]

-- After any payloads a snapshot has exactly one card for each id of the order: no id that is listed
-- is skipped for want of its card.
pub length-snapshot :
    (events : List Value)
    → length (snapshot (apply_all events new_card_projection))
      ≡ length (apply_all events new_card_projection).order
unfolding snapshot
length-snapshot events =
    let p = apply_all events new_card_projection in
    let v = apply_all-IsOrdered events in
    length-snapshot_from p.order p.cards (λ k h. sym (v.listed k) ∙ h)

frame_of_begin : card_frame_type card_replay_begin ≡ some replay_begin
unfolding card_frame_type
frame_of_begin = refl

parse-replay_begin :
    (m : Fields)
    → trim_space (text_of "type" m) ≡ card_replay_begin
    → parse_card_custom_payload (obj m)
      ≡ some (record { wire_type = replay_begin; card = none; patch = Fields.end })
unfolding parse_card_custom_payload
parse-replay_begin m e = rw (ap card_frame_type e ∙ frame_of_begin, parse_map)

-- What a replay leaves depends on the replay alone: from a replay.begin on, the projection is the
-- one that a new projection comes to.
pub replay-forgets :
    (begin' : Fields) (events : List Value) (p : CardProjection)
    → trim_space (text_of "type" begin') ≡ card_replay_begin
    → apply_all (obj begin' ∷ events) p ≡ apply_all (obj begin' ∷ events) new_card_projection
unfolding apply_all apply
replay-forgets begin' events p e = rw (parse-replay_begin begin' e, apply)
