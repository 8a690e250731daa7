-- ===== src/Cards/Merge.antt =====
-- What an update does to a card.
use soothe_client_go.Prelude.{
  String, ◌≡◌, ◌≢◌, refl, sym, true, not, ◌&&◌, ◌||◌, some, ◌==◌, eq_iff, eq_refl, ne→==, arith,
  Bool-cases, inl, inr, trim_space, lookup-insert, if◌then◌else◌, if_cases, ap,
}
use soothe_client_go.Json.{Value, Fields, end, field, get, has, put, text_of}
use soothe_client_go.Json.Reads.{get-put}
use soothe_client_go.Cards.{CardProjection, get_card, is_kept_key, merge, apply_updated}

-- A merged card has the patch's value under each key of the patch but `id` and `type`, and else the
-- value that it had.
get-merge :
    (j : String) (patch existing : Fields)
    → get j (merge patch existing)
      ≡ (if not (is_kept_key j) && has j patch then get j patch else get j existing)
unfolding get has merge
get-merge j end existing = ground arith
get-merge j (field k v patch) existing =
    if_cases (λ next. get j next ≡ merged') (is_kept_key k) (merge patch existing)
      (put k v (merge patch existing))
      (λ kept. elim (Bool-cases (k == j)) [
        | inl e ↦ rw e (rw (get-merge j patch existing, ← same e, kept))
        | inr e ↦ rw e (get-merge j patch existing)
      ])
      (λ free. rw get-put (elim (Bool-cases (k == j)) [
        | inl e ↦ rw e (rw (← same e, free))
        | inr e ↦ rw e (get-merge j patch existing)
      ]))
  where
    merged' : Value
    merged' =
        if not (is_kept_key j) && (if k == j then true else has j patch)
        then (if k == j then v else get j patch)
        else get j existing

    same : (k == j) ≡ true → is_kept_key k ≡ is_kept_key j
    same e = ap is_kept_key ((eq_iff k j).0 e)

module _ (patch existing : Fields) (p : CardProjection) (j other : String) where
  -- An update of a card that is there merges into that card alone: a key of the patch but `id`
  -- and `type` takes the patch's value, every other key of the card stays, and so does every other
  -- card and the order of the cards.
  pub apply_updated-merges :
      trim_space (text_of "id" patch) ≢ ""
      → get_card (trim_space (text_of "id" patch)) p ≡ some existing
      → other ≢ trim_space (text_of "id" patch)
      → (merged : Fields) × (get_card (trim_space (text_of "id" patch)) (apply_updated patch p)
          ≡ some merged)
        × (get j merged ≡ (
            if not (j == "id" || j == "type") && has j patch then get j patch else get j existing))
        × (get_card other (apply_updated patch p) ≡ get_card other p)
        × ((apply_updated patch p).order ≡ p.order)
  unfolding get_card apply_updated
  apply_updated-merges named found apart =
      let id = trim_space (text_of "id" patch) in
      rw (ne→== id "" named, found)
        (
          merge patch existing,
          rw (lookup-insert, eq_refl),
          unfold is_kept_key in get-merge j patch existing,
          rw (lookup-insert, ne→== id other (λ e. apart (sym e))),
          refl,
        )
