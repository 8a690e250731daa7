-- ===== src/Appkit/Pool/Grants.antt =====
-- appkit/pool.go: whom a slot belongs to after an Acquire, and two of them that overlap.
use soothe_client_go.Prelude.{
  ℕ, suc, ◌+◌, String, ◌≡◌, refl, ap, not, ◌&&◌, Option, none, some, List, [], ◌∷◌, arith, length,
  lookup, insert, lookup-insert, inl, inr, Option-cases, if_cases, length-insert_old, eq_refl,
}
use soothe_client_go.Appkit.Pool.{Slot, Pool, Effect, stats, release}
use soothe_client_go.Appkit.Pool.Acquire.{
  Answers, Outcome, ready, failed, Result, granted, refused, claim, settle, bring_up, pull,
  take_slot, reuse, replace, acquire_found, is_live, idle_too_long, acquire,
}
use soothe_client_go.Appkit.Pool.Slots.{Inv, release-frees, take_slot-Inv, claim-lookup}

-- The slots that the pool knows, which Stats returns the parts of.
abbrev pub total : Pool → ℕ
total p = (stats p).0 + (stats p).1

module _ (ans : Answers) (key ws user : String) where
  -- The key has the slot that the call returns, and none after an error.
  abbrev pub Agrees : Result → Pool → Type 0
  Agrees (granted s) p = lookup key p.active_slots ≡ some s
  Agrees (refused err) p = lookup key p.active_slots ≡ none

  abbrev pub Settled : Result × List Effect × Pool → Type 0
  Settled out = Agrees out.0 out.2

  inserted : (s : Slot) (p : Pool) → lookup key (insert key s p.active_slots) ≡ some s
  inserted s p = rw (lookup-insert key key s p.active_slots, eq_refl key) refl

  settle-Settled : (up : List Effect × Outcome) (p : Pool) → Settled (settle ans key ws up p)
  unfolding settle
  settle-Settled (calls, failed err) p = release-frees key p
  settle-Settled (calls, ready loop s) p = inserted _ p

  pull-Settled :
      (slots : List Slot) (p : Pool)
      → lookup key p.active_slots ≡ none
      → Settled (pull ans key ws user slots p)
  unfolding pull
  pull-Settled [] p h = h
  pull-Settled (s ∷ rest) p h = settle-Settled (bring_up ans key ws user s) (claim key s rest p)

  pub take_slot-Settled :
      (p : Pool) → lookup key p.active_slots ≡ none → Settled (take_slot ans key ws user p)
  unfolding take_slot pull
  take_slot-Settled p h = elim (Option-cases ans.context_err) [
    | inr (err, e) ↦ rw (e, take_slot) h
    | inl e ↦ rw (e, take_slot) (pull-Settled p.idle p h)
  ]

  replace-Settled : (p : Pool) → Settled (replace ans key ws user p)
  unfolding replace
  replace-Settled p = take_slot-Settled (release key p).1 (release-frees key p)

  reuse-Settled : (s : Slot) (p : Pool) → Settled (reuse ans key s p)
  unfolding reuse
  reuse-Settled s p = inserted _ p

  acquire_found-Settled :
      (found : Option Slot) (p : Pool)
      → lookup key p.active_slots ≡ found
      → Settled (acquire_found ans key ws user found p)
  unfolding acquire_found
  acquire_found-Settled none p h = take_slot-Settled p h
  acquire_found-Settled (some s) p h =
      if_cases Settled (is_live ans s && not (idle_too_long ans p.max_idle_time s)) _ _
        (λ _. reuse-Settled s p) (λ _. replace-Settled p)

  -- After an Acquire that nothing overlaps, the key has the slot that the call returned; after one
  -- that returned an error, the key has no slot.
  pub acquire-Settled : (p : Pool) → Settled (acquire ans key ws user p)
  unfolding acquire
  acquire-Settled p = acquire_found-Settled (lookup key p.active_slots) p refl

  pub granted-lookup :
      (out : Result × List Effect × Pool) (s : Slot)
      → Settled out
      → out.0 ≡ granted s
      → lookup key out.2.active_slots ≡ some s
  granted-lookup (granted t, calls, p) s h g = cc
  granted-lookup (refused err, calls, p) s h g = cc

  settle-total :
      (up : List Effect × Outcome) (s t : Slot) (p : Pool)
      → lookup key p.active_slots ≡ some s
      → (settle ans key ws up p).0 ≡ granted t
      → total (settle ans key ws up p).2 ≡ total p
  unfolding settle
  settle-total (calls, failed err) s t p h g = cc
  settle-total (calls, ready loop u) s t p h g =
      omega (arith, length-insert_old key _ s p.active_slots h)

  claim-total :
      (u s : Slot) (rest : List Slot) (p : Pool)
      → p.idle ≡ u ∷ rest
      → lookup key p.active_slots ≡ some s
      → suc (total (claim key u rest p)) ≡ total p
  unfolding claim
  claim-total u s rest p i h =
      omega (arith, length-insert_old key u s p.active_slots h, ap length i)

  pull-total :
      (slots : List Slot) (s t : Slot) (p : Pool)
      → p.idle ≡ slots
      → lookup key p.active_slots ≡ some s
      → (pull ans key ws user slots p).0 ≡ granted t
      → suc (total (pull ans key ws user slots p).2) ≡ total p
  unfolding pull
  pull-total [] s t p i h g = cc
  pull-total (u ∷ rest) s t p i h g = omega (
    arith,
    settle-total (bring_up ans key ws user u) u t (claim key u rest p) (claim-lookup key u rest p)
        g,
    claim-total u s rest p i h,
  )

  pub take_slot-total :
      (s t : Slot) (p : Pool)
      → lookup key p.active_slots ≡ some s
      → (take_slot ans key ws user p).0 ≡ granted t
      → suc (total (take_slot ans key ws user p).2) ≡ total p
  unfolding take_slot pull
  take_slot-total s t p h g = elim (Option-cases ans.context_err) [
    | inr (err, e) ↦ cc (rw (e, take_slot) at g)
    | inl e ↦ rw (e, take_slot) (pull-total p.idle s t p refl h (rw (e, take_slot) at g))
  ]

-- Where two calls of Acquire for one key both find no slot for it, and both then get one, the pool
-- has lost a slot: the idle and the active ones are one less than the n of the pool.
pub take_slot-leaks :
    (a b : Answers) (key ws user : String) (n : ℕ) (p : Pool) (s t : Slot)
    → Inv n p
    → lookup key p.active_slots ≡ none
    → (take_slot a key ws user p).0 ≡ granted s
    → (take_slot b key ws user (take_slot a key ws user p).2).0 ≡ granted t
    → suc (total (take_slot b key ws user (take_slot a key ws user p).2).2) ≡ n
take_slot-leaks a b key ws user n p s t inv h first second = omega (
  arith,
  (take_slot-Inv n a key ws user p inv h).1,
  take_slot-total b key ws user s t (take_slot a key ws user p).2
      (granted-lookup a key ws user (take_slot a key ws user p) s
        (take_slot-Settled a key ws user p h) first)
      second,
)
