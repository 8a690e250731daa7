-- ===== src/Client/Reading/Peeling.antt =====
-- What peeling does to the pending frames.
use soothe_client_go.Prelude.{
  ◌<◌, ◌≡◌, refl, subst, List, [], ◌∷◌, ◌++◌, ◌==◌, eq_iff, length, lt→ltb, Bool-cases, inl, inr,
}
use soothe_client_go.Json.{Fields}
use soothe_client_go.Stream.{stale_pending_frame_label}
use soothe_client_go.Client.Buffer.{cap, enqueue_pending}
use soothe_client_go.Client.Reading.{Reader, peel_pending, peel_stale_pending_control_events}

abbrev pub IsFresh : Fields → Type 0
IsFresh ev = stale_pending_frame_label ev ≡ ""

abbrev AllFresh : List Fields → Type 0
AllFresh [] = Unit
AllFresh (ev ∷ evs) = IsFresh ev × AllFresh evs

peel_pending-AllFresh : (evs : List Fields) → AllFresh (peel_pending evs).1
unfolding peel_pending
peel_pending-AllFresh [] = tt
peel_pending-AllFresh (ev ∷ evs) = elim (Bool-cases (stale_pending_frame_label ev == "")) [
  | inl e ↦ rw e ((eq_iff (stale_pending_frame_label ev) "").0 e, peel_pending-AllFresh evs)
  | inr e ↦ rw e (peel_pending-AllFresh evs)
]

-- Peeling hands back the labels of the stale pending frames, and takes the first frame that is not
-- stale out of the front of the buffer and puts it behind all others: with room in the buffer, what
-- stood in the order `ev ∷ rest` stands in the order `rest`, then `ev`.
pub peel-rotates :
    (c : Reader) (ev : Fields) (rest : List Fields)
    → (peel_pending c.buffer.pending_events).1 ≡ ev ∷ rest
    → length rest < cap c.buffer
    → let (labels, after) = peel_stale_pending_control_events c in
      (labels ≡ (peel_pending c.buffer.pending_events).0)
      × (after.buffer.pending_events ≡ rest ++ ev ∷ [])
      × (after.delivery ≡ c.delivery)
      × (after.incoming ≡ c.incoming)
unfolding peel_stale_pending_control_events enqueue_pending
peel-rotates c ev rest stay room =
    let fresh : AllFresh (ev ∷ rest) =
      subst AllFresh stay (peel_pending-AllFresh c.buffer.pending_events) in
    rw stay (rw fresh.0 (unfold cap in rw (lt→ltb _ _ room) (refl, refl, refl, refl)))
