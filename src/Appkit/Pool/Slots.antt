-- ===== src/Appkit/Pool/Slots.antt =====
-- appkit/pool.go: no slot is lost, over any sequence of calls that do not overlap.
use soothe_client_go.Prelude.{
  ℕ, zero, suc, ◌+◌, ◌<◌, ◌≤◌, String, ◌≡◌, refl, sym, ap, subst, not, ◌&&◌, Option, none, some,
  List, [], ◌∷◌, arith, length, length-append, lookup, insert, delete, lookup-delete, lookup-insert,
  ltb, lt→ltb, eqb, inl, inr, Option-cases, if_cases, if◌then◌else◌, Distinct, length-delete,
  length-insert_new, length-insert_old, delete-Distinct, insert-Distinct, eq_refl,
}
use soothe_client_go.Appkit.Pool.{
  Slot, Pool, Effect, seed, new_connection_pool, new_slot, return_slot, drop_slot, release,
  reset_session, release_found, reader_stops, reader_ends, stop,
}
use soothe_client_go.Appkit.Pool.Acquire.{
  Answers, Outcome, ready, failed, Result, claim, settle, bring_up, pull, take_slot, reuse, replace,
  acquire_found, is_live, idle_too_long, acquire,
}

-- Every slot is idle or belongs to a key, and there are n, for which the channel has room.
abbrev pub Inv : ℕ → Pool → Type 0
Inv n p = Distinct p.active_slots × (length p.idle + length p.active_slots ≡ n) × (n ≤ p.pool_size)

length-seed : (n id : ℕ) → length (seed n id) ≡ n
unfolding seed
length-seed zero id = refl
length-seed (suc n) id = ap suc (length-seed n (suc id))

pub new_connection_pool-Inv :
    (size max_idle : ℕ)
    → Inv (new_connection_pool size max_idle).pool_size (new_connection_pool size max_idle)
unfolding new_connection_pool
new_connection_pool-Inv size max_idle = (
  record { lower = tt },
  omega (arith, length-seed (if eqb size 0 then 1000 else size) 1),
  omega arith,
)

-- The fresh slot finds room in the channel.
return_slot-room :
    (s : Slot) (p : Pool)
    → length p.idle < p.pool_size
    → length (return_slot s p).idle ≡ suc (length p.idle)
unfolding return_slot
return_slot-room s p h =
    rw (lt→ltb (length p.idle) p.pool_size h) (omega (arith, length-append p.idle (s ∷ [])))

return_slot-keeps :
    (s : Slot) (p : Pool)
    → ((return_slot s p).active_slots ≡ p.active_slots)
      × ((return_slot s p).pool_size ≡ p.pool_size)
unfolding return_slot
return_slot-keeps s p =
    if_cases (λ (q : Pool). (q.active_slots ≡ p.active_slots) × (q.pool_size ≡ p.pool_size))
      (ltb (length p.idle) p.pool_size) _ _ (λ _. (refl, refl)) (λ _. (refl, refl))

return_slot-Inv :
    (n : ℕ) (s : Slot) (p : Pool)
    → Distinct p.active_slots
    → suc (length p.idle + length p.active_slots) ≡ n
    → n ≤ p.pool_size
    → Inv n (return_slot s p)
return_slot-Inv n s p d e size =
    let (same, kept) = return_slot-keeps s p in
    (
      subst Distinct (sym same) d,
      rw (same, return_slot-room s p (omega arith)) (omega arith),
      rw kept size,
    )

drop_slot-Inv :
    (n : ℕ) (key : String) (s : Slot) (p : Pool)
    → Inv n p
    → lookup key p.active_slots ≡ some s
    → Inv n (drop_slot key s p)
unfolding drop_slot new_slot
drop_slot-Inv n key s p (d, e, size) h =
    return_slot-Inv n _ _ (delete-Distinct key p.active_slots d)
      (omega (arith, length-delete key s p.active_slots d h)) size

pub release-none :
    (key : String) (p : Pool) → lookup key p.active_slots ≡ none → release key p ≡ ([], p)
unfolding release release_found
release-none key p h = ap (λ found. release_found key found p) h

pub release-some :
    (key : String) (s : Slot) (p : Pool)
    → lookup key p.active_slots ≡ some s
    → (release key p).1 ≡ drop_slot key s p
unfolding release release_found
release-some key s p h = ap (λ found. (release_found key found p).1) h

release-Inv : (n : ℕ) (key : String) (p : Pool) → Inv n p → Inv n (release key p).1
release-Inv n key p inv = elim (Option-cases (lookup key p.active_slots)) [
  | inl none' ↦ subst (Inv n) (sym (ap (λ out. out.1) (release-none key p none'))) inv
  | inr (s, found) ↦
      subst (Inv n) (sym (release-some key s p found)) (drop_slot-Inv n key s p inv found)
]

drop_slot-active :
    (key : String) (s : Slot) (p : Pool)
    → (drop_slot key s p).active_slots ≡ delete key p.active_slots
unfolding drop_slot new_slot
drop_slot-active key s p = (return_slot-keeps _ _).0

pub release-frees : (key : String) (p : Pool) → lookup key (release key p).1.active_slots ≡ none
release-frees key p = elim (Option-cases (lookup key p.active_slots)) [
  | inl none' ↦ rw (release-none key p none') none'
  | inr (s, found) ↦
      rw
        (
          release-some key s p found,
          drop_slot-active key s p,
          lookup-delete key key p.active_slots,
          eq_refl key,
        )
        refl
]

-- The entry of the key is replaced.
stamp-Inv :
    (n : ℕ) (key : String) (old new : Slot) (p : Pool)
    → Inv n p
    → lookup key p.active_slots ≡ some old
    → Inv n (record p { active_slots = insert key new p.active_slots })
stamp-Inv n key old new p (d, e, size) h = (
  insert-Distinct key new p.active_slots d,
  omega (arith, length-insert_old key new old p.active_slots h),
  size,
)

claim-Inv :
    (n : ℕ) (key : String) (s : Slot) (rest : List Slot) (p : Pool)
    → Inv n p
    → p.idle ≡ s ∷ rest
    → lookup key p.active_slots ≡ none
    → Inv n (claim key s rest p)
unfolding claim
claim-Inv n key s rest p (d, e, size) i h = (
  insert-Distinct key s p.active_slots d,
  omega (arith, length-insert_new key s p.active_slots h, ap length i),
  size,
)

pub claim-lookup :
    (key : String) (s : Slot) (rest : List Slot) (p : Pool)
    → lookup key (claim key s rest p).active_slots ≡ some s
unfolding claim
claim-lookup key s rest p = rw (lookup-insert key key s p.active_slots, eq_refl key) refl

settle-Inv :
    (n : ℕ) (ans : Answers) (key ws : String) (up : List Effect × Outcome) (s : Slot) (p : Pool)
    → Inv n p
    → lookup key p.active_slots ≡ some s
    → Inv n (settle ans key ws up p).2
unfolding settle
settle-Inv n ans key ws (calls, failed err) s p inv h = release-Inv n key p inv
settle-Inv n ans key ws (calls, ready loop s') s p inv h = stamp-Inv n key s _ p inv h

pull-Inv :
    (n : ℕ) (ans : Answers) (key ws user : String) (slots : List Slot) (p : Pool)
    → Inv n p
    → p.idle ≡ slots
    → lookup key p.active_slots ≡ none
    → Inv n (pull ans key ws user slots p).2
unfolding pull
pull-Inv n ans key ws user [] p inv i h = inv
pull-Inv n ans key ws user (s ∷ rest) p inv i h =
    settle-Inv n ans key ws (bring_up ans key ws user s) s (claim key s rest p)
      (claim-Inv n key s rest p inv i h) (claim-lookup key s rest p)

pub take_slot-Inv :
    (n : ℕ) (ans : Answers) (key ws user : String) (p : Pool)
    → Inv n p
    → lookup key p.active_slots ≡ none
    → Inv n (take_slot ans key ws user p).2
unfolding take_slot pull
take_slot-Inv n ans key ws user p inv h = elim (Option-cases ans.context_err) [
  | inr (err, e) ↦ rw (e, take_slot) inv
  | inl e ↦ rw (e, take_slot) (pull-Inv n ans key ws user p.idle p inv refl h)
]

acquire_found-Inv :
    (n : ℕ) (ans : Answers) (key ws user : String) (found : Option Slot) (p : Pool)
    → Inv n p
    → lookup key p.active_slots ≡ found
    → Inv n (acquire_found ans key ws user found p).2
unfolding acquire_found reuse replace
acquire_found-Inv n ans key ws user none p inv h = take_slot-Inv n ans key ws user p inv h
acquire_found-Inv n ans key ws user (some s) p inv h =
    if_cases (λ (out : Result × List Effect × Pool). Inv n out.2)
      (is_live ans s && not (idle_too_long ans p.max_idle_time s)) _ _
      (λ _. stamp-Inv n key s _ p inv h)
      (λ _.
        take_slot-Inv n ans key ws user (release key p).1 (release-Inv n key p inv)
          (release-frees key p))

reader_stops-Inv :
    (n : ℕ) (key : String) (found : Option Slot) (p : Pool)
    → Inv n p
    → lookup key p.active_slots ≡ found
    → Inv n (reader_stops key found p)
unfolding reader_stops
reader_stops-Inv n key none p inv h = inv
reader_stops-Inv n key (some s) p inv h = stamp-Inv n key s _ p inv h

-- A call of the pool, or the end of a reader.
pub data Call : Type 0 where
  acquire_call : (ans : Answers) (key workspace user : String) → Call
  release_call reset_call reader_end : (key : String) → Call
  stop_call : Call

pub after : Call → Pool → Pool
after (acquire_call ans key ws user) p = (acquire ans key ws user p).2
after (release_call key) p = (release key p).1
after (reset_call key) p = (reset_session key p).1
after (reader_end key) p = reader_ends key p
after stop_call p = (stop p).1

-- The slots that a pool of so many has behind a call: Stop takes them all.
abbrev pub slots_after : Call → ℕ → ℕ
slots_after stop_call n = 0
slots_after _ n = n

abbrev pub slots_after_all : List Call → ℕ → ℕ
slots_after_all [] n = n
slots_after_all (c ∷ calls) n = slots_after_all calls (slots_after c n)

pub after_all : List Call → Pool → Pool
after_all [] p = p
after_all (c ∷ calls) p = after_all calls (after c p)

after-Inv : (n : ℕ) (c : Call) (p : Pool) → Inv n p → Inv (slots_after c n) (after c p)
unfolding after acquire reader_ends stop
after-Inv n (acquire_call ans key ws user) p inv =
    acquire_found-Inv n ans key ws user (lookup key p.active_slots) p inv refl
after-Inv n (release_call key) p inv = release-Inv n key p inv
after-Inv n (reset_call key) p inv = release-Inv n key p inv
after-Inv n (reader_end key) p inv = reader_stops-Inv n key (lookup key p.active_slots) p inv refl
after-Inv n stop_call p inv = (record { lower = tt }, refl, omega arith)

after_all-Inv :
    (n : ℕ) (calls : List Call) (p : Pool)
    → Inv n p
    → Inv (slots_after_all calls n) (after_all calls p)
unfolding after_all
after_all-Inv n [] p inv = inv
after_all-Inv n (c ∷ calls) p inv =
    after_all-Inv (slots_after c n) calls (after c p) (after-Inv n c p inv)

-- No slot is lost and none is made up: after any calls on a new pool that do not overlap, whatever
-- the clients and the store answer, the keys of the active slots differ, and the idle slots and the
-- active ones together are as many as the new pool had, or none where Stop is among the calls.
pub after_all-new_connection_pool :
    (size max_idle : ℕ) (calls : List Call)
    → Inv
        (slots_after_all calls (new_connection_pool size max_idle).pool_size)
        (after_all calls (new_connection_pool size max_idle))
after_all-new_connection_pool size max_idle calls =
    after_all-Inv (new_connection_pool size max_idle).pool_size calls
      (new_connection_pool size max_idle) (new_connection_pool-Inv size max_idle)
