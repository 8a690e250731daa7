-- ===== src/Client/Buffer/Bounds.antt =====
-- The size of the pending buffer, and the count of what was dropped.
use soothe_client_go.Prelude.{
  ℕ, zero, suc, ◌+◌, ◌≤◌, ◌<◌, ◌≡◌, refl, Option, none, some, max, ap, List, [], ◌∷◌, ◌++◌, length,
  length-append, arith, ltb→lt, ltb, leb, if_cases,
}
use native.Mathlib.Nat.{add-zero, zero-add, add-suc, suc-add}
use soothe_client_go.Json.{Fields}
use soothe_client_go.Inbound.{normal}
use soothe_client_go.Client.Buffer.{
  Buffer, cap, note_inbound_drop, priority, better, drop_scan, remove_at, drop_oldest, force_in,
  make_room, enqueue_pending,
}

cap_pos : (b : Buffer) → 0 < cap b
unfolding cap
cap_pos b = ground arith

-- The index that the scan finds lies in what it has scanned.
abbrev Below : ℕ → Option (ℕ × ℕ) → Type 0
Below n none = Unit
Below n (some (i, p)) = i < n

better-Below : (i p : ℕ) (best : Option (ℕ × ℕ)) → Below i best → Below (suc i) (better i p best)
unfolding better
better-Below i p none h = omega arith
better-Below i p (some (j, q)) h =
    if_cases (Below (suc i)) (ltb q p) (some (i, p)) (some (j, q)) (λ _. omega arith)
      (λ _. omega arith)

drop_scan-Below :
    (items : List Fields) (i : ℕ) (best : Option (ℕ × ℕ))
    → Below i best
    → Below (i + length items) (drop_scan items i best)
unfolding drop_scan
drop_scan-Below [] i best h = rw add-zero h
drop_scan-Below (x ∷ items) i best h =
    rw (add-suc, ← suc-add)
      (drop_scan-Below items (suc i) (better i (priority x) best)
        (better-Below i (priority x) best h))

length-remove_at :
    (i : ℕ) (l : List Fields) → i < length l → suc (length (remove_at i l)) ≡ length l
unfolding remove_at
length-remove_at i [] h = absurd (omega arith)
length-remove_at zero (x ∷ l) h = refl
length-remove_at (suc i) (x ∷ l) h = omega (arith, length-remove_at i l (omega arith))

-- One frame came in: it is resident or a drop was counted, and the buffer grew within its cap only.
abbrev pub Accounts : Buffer → Buffer → Type 0
Accounts b c =
    (length c.pending_events + c.inbound_dropped
      ≡ suc (length b.pending_events + b.inbound_dropped))
    × (length c.pending_events ≤ max (cap b) (length b.pending_events))
    × (c.inbound_max_size ≡ b.inbound_max_size)

module _ (ev : Fields) (b : Buffer) (full : cap b ≤ length b.pending_events) where
  drop_oldest-Accounts : (l : List Fields) → b.pending_events ≡ l → Accounts b (drop_oldest l ev b)
  unfolding drop_oldest note_inbound_drop
  drop_oldest-Accounts [] e =
      absurd (omega (arith, cap_pos b, ap (λ (l : List Fields). length l) e))
  drop_oldest-Accounts (x ∷ xs) e =
      let size = ap (λ (l : List Fields). length l) e in
      let grown = length-append xs (ev ∷ []) in
      (omega (arith, size, grown), omega (arith, size, grown), refl)

  force_in-Accounts : Accounts b (force_in ev b)
  unfolding force_in note_inbound_drop
  force_in-Accounts =
      if_cases (Accounts b) (leb normal (priority ev)) (note_inbound_drop b)
        (drop_oldest b.pending_events ev b) (λ _. (omega arith, omega arith, refl))
        (λ _. drop_oldest-Accounts b.pending_events refl)

  make_room-Accounts :
      (found : Option (ℕ × ℕ))
      → Below (length b.pending_events) found
      → Accounts b (make_room found ev b)
  unfolding make_room note_inbound_drop
  make_room-Accounts none h = force_in-Accounts
  make_room-Accounts (some (i, p)) h =
      let removed = length-remove_at i b.pending_events h in
      let grown = length-append (remove_at i b.pending_events) (ev ∷ []) in
      if_cases (Accounts b) (leb normal p)
        (note_inbound_drop (record b { pending_events = remove_at i b.pending_events ++ ev ∷ [] }))
        (force_in ev b) (λ _. (omega (arith, removed, grown), omega (arith, removed, grown), refl))
        (λ _. force_in-Accounts)

-- Whatever the buffer holds and whatever frame comes in: either the buffer grows by one or exactly
-- one drop is counted, the buffer never grows past its cap, and the cap stays.
pub enqueue_pending-Accounts : (ev : Fields) (b : Buffer) → Accounts b (enqueue_pending ev b)
unfolding enqueue_pending
enqueue_pending-Accounts ev b =
    let grown = length-append b.pending_events (ev ∷ []) in
    if_cases (Accounts b) (ltb (length b.pending_events) (cap b))
      (record b { pending_events = b.pending_events ++ ev ∷ [] })
      (make_room (drop_scan b.pending_events 0 none) ev b)
      (λ room. (omega (arith, grown), omega (arith, grown, ltb→lt _ _ room), refl))
      (λ full.
        make_room-Accounts ev b (ground arith) (drop_scan b.pending_events 0 none)
          (rw zero-add at (drop_scan-Below b.pending_events 0 none tt)))
