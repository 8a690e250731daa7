-- ===== src/Client/Buffer/Protection.antt =====
-- Which frames the pending buffer gives up: critical and high frames are kept, in order, as long as
-- a normal frame can go in their place.
use mathlib.Core.List.{append-nil, append_assoc}
use soothe_client_go.Prelude.{
  ℕ, zero, suc, ◌+◌, ◌≤◌, ◌<◌, ◌≡◌, ◌⊎◌, refl, ap, ◌∙◌, sym, true, false, Option, none, some, List,
  [], ◌∷◌, ◌++◌, length, length-append, arith, ltb, leb, Bool-cases, inl, inr, if◌then◌else◌,
  if_cases, lt→ltb, leb→le,
}
use soothe_client_go.Json.{Fields}
use soothe_client_go.Inbound.{normal}
use soothe_client_go.Client.Buffer.{
  Buffer, cap, note_inbound_drop, priority, better, drop_scan, remove_at, force_in, make_room,
  enqueue_pending,
}

-- The critical and high frames, in order.
pub kept : List Fields → List Fields
kept [] = []
kept (x ∷ l) = let rest = kept l in if ltb (priority x) normal then x ∷ rest else rest

abbrev pub HasNormal : List Fields → Type 0
HasNormal [] = ⊥
HasNormal (x ∷ l) = (normal ≤ priority x) ⊎ HasNormal l

abbrev pub AllKept : List Fields → Type 0
AllKept [] = Unit
AllKept (x ∷ l) = (priority x < normal) × AllKept l

kept-append : (k l : List Fields) → kept (k ++ l) ≡ kept k ++ kept l
unfolding kept
kept-append [] l = refl
kept-append (x ∷ k) l = elim (Bool-cases (ltb (priority x) normal)) [
  | inl e ↦ rw e (ap (λ (r : List Fields). x ∷ r) (kept-append k l))
  | inr e ↦ rw e (kept-append k l)
]

-- The frame at index `j` has priority `p`.
abbrev At : List Fields → ℕ → ℕ → Type 0
At [] j p = ⊥
At (x ∷ l) zero p = priority x ≡ p
At (x ∷ l) (suc j) p = At l j p

abbrev Found : List Fields → Option (ℕ × ℕ) → Type 0
Found l none = Unit
Found l (some (j, p)) = At l j p

At-append :
    (pre : List Fields) (x : Fields) (l : List Fields) → At (pre ++ x ∷ l) (length pre) (priority x)
At-append [] x l = refl
At-append (y ∷ pre) x l = At-append pre x l

better-Found :
    (full : List Fields) (n p : ℕ) (best : Option (ℕ × ℕ))
    → At full n p
    → Found full best
    → Found full (better n p best)
unfolding better
better-Found full n p none at h = at
better-Found full n p (some (j, q)) at h =
    if_cases (Found full) (ltb q p) (some (n, p)) (some (j, q)) (λ _. at) (λ _. h)

drop_scan-Found :
    (items pre full : List Fields) (n : ℕ) (best : Option (ℕ × ℕ))
    → full ≡ pre ++ items
    → n ≡ length pre
    → Found full best
    → Found full (drop_scan items n best)
unfolding drop_scan
drop_scan-Found [] pre full n best e i h = h
drop_scan-Found (x ∷ items) pre full n best e i h =
    drop_scan-Found items (pre ++ x ∷ []) full (suc n) (better n (priority x) best)
      (e ∙ sym (append_assoc pre (x ∷ []) items)) (omega (arith, length-append pre (x ∷ [])))
      (better-Found full n (priority x) best (rw (e, i) (At-append pre x items)) h)

kept-remove_at : (l : List Fields) (j p : ℕ) → At l j p → normal ≤ p → kept (remove_at j l) ≡ kept l
unfolding remove_at kept
kept-remove_at [] j p h n = absurd h
kept-remove_at (x ∷ l) zero p h n = ground arith
kept-remove_at (x ∷ l) (suc j) p h n = elim (Bool-cases (ltb (priority x) normal)) [
  | inl e ↦ rw e (ap (λ (r : List Fields). x ∷ r) (kept-remove_at l j p h n))
  | inr e ↦ rw e (kept-remove_at l j p h n)
]

abbrev found_priority : Option (ℕ × ℕ) → ℕ
found_priority none = 0
found_priority (some (j, p)) = p

better_bounds :
    (i p : ℕ) (best : Option (ℕ × ℕ))
    → (p ≤ found_priority (better i p best))
      × (found_priority best ≤ found_priority (better i p best))
      × ((found_priority (better i p best) ≡ p)
          ⊎ (found_priority (better i p best) ≡ found_priority best))
unfolding better
better_bounds i p none = ground arith
better_bounds i p (some (j, q)) = ground arith

drop_scan-grows :
    (items : List Fields) (i : ℕ) (best : Option (ℕ × ℕ))
    → found_priority best ≤ found_priority (drop_scan items i best)
unfolding drop_scan
drop_scan-grows [] i best = omega arith
drop_scan-grows (x ∷ items) i best = omega (
  arith,
  better_bounds i (priority x) best,
  drop_scan-grows items (suc i) (better i (priority x) best),
)

drop_scan-finds :
    (items : List Fields) (i : ℕ) (best : Option (ℕ × ℕ))
    → HasNormal items
    → normal ≤ found_priority (drop_scan items i best)
unfolding drop_scan
drop_scan-finds [] i best h = absurd h
drop_scan-finds (x ∷ items) i best (inl h) = omega (
  arith,
  better_bounds i (priority x) best,
  drop_scan-grows items (suc i) (better i (priority x) best),
)
drop_scan-finds (x ∷ items) i best (inr h) =
    drop_scan-finds items (suc i) (better i (priority x) best) h

drop_scan-none :
    (items : List Fields) (i : ℕ) (best : Option (ℕ × ℕ))
    → AllKept items
    → found_priority best < normal
    → found_priority (drop_scan items i best) < normal
unfolding drop_scan
drop_scan-none [] i best h small = small
drop_scan-none (x ∷ items) i best (hx, h) small =
    drop_scan-none items (suc i) (better i (priority x) best) h
      (omega (arith, better_bounds i (priority x) best))

not_less : (p : ℕ) → normal ≤ p → ltb p normal ≡ false
not_less p h = ground arith

reaches : (p : ℕ) → normal ≤ p → leb normal p ≡ true
reaches p h = ground arith

module _ (ev : Fields) (b : Buffer) where
  abbrev Protects : Buffer → Type 0
  Protects c = kept c.pending_events ≡ kept (b.pending_events ++ ev ∷ [])

  kept-normal : normal ≤ priority ev → kept (b.pending_events ++ ev ∷ []) ≡ kept b.pending_events
  kept-normal h =
      rw (kept-append b.pending_events (ev ∷ []))
        (unfold kept in rw (not_less (priority ev) h) (append-nil (kept b.pending_events)))

  kept-found :
      (j p : ℕ)
      → At b.pending_events j p
      → normal ≤ p
      → kept (remove_at j b.pending_events ++ ev ∷ []) ≡ kept (b.pending_events ++ ev ∷ [])
  kept-found j p at n =
      kept-append (remove_at j b.pending_events) (ev ∷ [])
      ∙ ap (λ (l : List Fields). l ++ kept (ev ∷ [])) (kept-remove_at b.pending_events j p at n)
      ∙ sym (kept-append b.pending_events (ev ∷ []))

  force_in-Protects : normal ≤ priority ev → Protects (force_in ev b)
  unfolding force_in note_inbound_drop
  force_in-Protects n = rw (reaches (priority ev) n) (sym (kept-normal n))

  make_room-Protects :
      (found : Option (ℕ × ℕ))
      → Found b.pending_events found
      → (normal ≤ found_priority found) ⊎ (normal ≤ priority ev)
      → Protects (make_room found ev b)
  unfolding make_room note_inbound_drop
  make_room-Protects none h (inl n) = absurd (omega arith)
  make_room-Protects none h (inr n) = force_in-Protects n
  make_room-Protects (some (j, p)) h (inl n) = rw (reaches p n) (kept-found j p h n)
  make_room-Protects (some (j, p)) h (inr n) =
      if_cases Protects (leb normal p)
        (note_inbound_drop (record b { pending_events = remove_at j b.pending_events ++ ev ∷ [] }))
        (force_in ev b) (λ e. kept-found j p h (leb→le normal p e)) (λ _. force_in-Protects n)

-- While the buffer has room, or a normal frame is resident or is the one that comes in, a critical
-- or high frame is never given up: those frames stay in their order, with the new one behind them
-- if it is of that kind.
pub enqueue_pending-Protects :
    (ev : Fields) (b : Buffer)
    → (length b.pending_events < cap b) ⊎ HasNormal b.pending_events ⊎ (normal ≤ priority ev)
    → kept (enqueue_pending ev b).pending_events ≡ kept (b.pending_events ++ ev ∷ [])
unfolding enqueue_pending
enqueue_pending-Protects ev b (inl room) = rw (lt→ltb _ _ room)
enqueue_pending-Protects ev b (inr normals) =
    if_cases (Protects ev b) (ltb (length b.pending_events) (cap b))
      (record b { pending_events = b.pending_events ++ ev ∷ [] })
      (make_room (drop_scan b.pending_events 0 none) ev b) (λ _. refl)
      (λ _.
        make_room-Protects ev b (drop_scan b.pending_events 0 none)
          (drop_scan-Found b.pending_events [] b.pending_events 0 none refl (omega arith) tt)
          (one_of normals))
  where
    one_of :
        HasNormal b.pending_events ⊎ (normal ≤ priority ev)
        → (normal ≤ found_priority (drop_scan b.pending_events 0 none)) ⊎ (normal ≤ priority ev)
    one_of (inl h) = inl (drop_scan-finds b.pending_events 0 none h)
    one_of (inr h) = inr h

make_room-none :
    (found : Option (ℕ × ℕ)) (ev : Fields) (b : Buffer)
    → found_priority found < normal
    → make_room found ev b ≡ force_in ev b
unfolding make_room
make_room-none none ev b h = refl
make_room-none (some (j, p)) ev b h = rw (below p h)
  where
    below : (q : ℕ) → q < normal → leb normal q ≡ false
    below q lt = ground arith

-- In a full buffer that holds critical and high frames only, a critical or high frame that comes in
-- pushes the oldest one out, whatever the priority of the oldest is, and one drop is counted.
pub enqueue_pending-drops_oldest :
    (ev x : Fields) (xs : List Fields) (b : Buffer)
    → b.pending_events ≡ x ∷ xs
    → cap b ≤ length b.pending_events
    → AllKept b.pending_events
    → priority ev < normal
    → ((enqueue_pending ev b).pending_events ≡ xs ++ ev ∷ [])
      × ((enqueue_pending ev b).inbound_dropped ≡ b.inbound_dropped + 1)
unfolding enqueue_pending
enqueue_pending-drops_oldest ev x xs b e full all_kept keeps =
    rw
      (
        no_room (length b.pending_events) (cap b) full,
        make_room-none (drop_scan b.pending_events 0 none) ev b
            (drop_scan-none b.pending_events 0 none all_kept (omega arith)),
      )
      (unfold force_in note_inbound_drop in rw (below (priority ev) keeps, e) (refl, refl))
  where
    no_room : (m n : ℕ) → n ≤ m → ltb m n ≡ false
    no_room m n h = ground arith

    below : (q : ℕ) → q < normal → leb normal q ≡ false
    below q lt = ground arith
