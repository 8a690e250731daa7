-- ===== src/Appkit/TurnRunner/Execute/Busy.antt =====
-- appkit/turn_runner.go: a call of Execute while a turn of the key is running.
use soothe_client_go.Prelude.{
  ℕ, String, ◌≡◌, refl, sym, ap, ◌∙◌, not, ◌&&◌, some, true, none, some, List, [], ◌∷◌, ◌++◌,
  lookup, subst,
}
use soothe_client_go.Appkit.QueryGate.{QueryGate, query_busy, is_active, acquire as acquire_gate}
use soothe_client_go.Appkit.Pool.{
  Slot, Pool, release, release_found, stop_effect, close_call, update_last_used, Effect as PoolCall,
}
use soothe_client_go.Appkit.Pool.Acquire.{
  Answers, Result, granted, refused, acquire, acquire_found, reuse, is_live, idle_too_long,
}
use soothe_client_go.Appkit.Pool.Grants.{Settled, acquire-Settled, acquire-Settled, granted-lookup}
use soothe_client_go.Appkit.Pool.Slots.{release-frees}
use soothe_client_go.Appkit.TurnRunner.{TurnRunner, fail_effects}
use soothe_client_go.Appkit.TurnRunner.Execute.{
  rejected, Prologue, query_busy_text, with_gate, with_connection, execute_start,
}

release-calls :
    (key : String) (s : Slot) (p : Pool)
    → lookup key p.active_slots ≡ some s
    → (release key p).0 ≡ stop_effect s ++ close_call s.slot_id ∷ []
unfolding release release_found
release-calls key s p h = ap (λ found. (release_found key found p).0) h

acquire-busy :
    (key : String) (cancel send : ℕ) (g : QueryGate)
    → is_active key g ≡ true
    → acquire_gate key (some cancel) (some send) g ≡ (some query_busy, g)
unfolding acquire_gate
acquire-busy key cancel send g busy = rw busy refl

module _ (r : TurnRunner) (ans : Answers) (key ws user : String) (cancel send : ℕ) where
  reuse-granted :
      (p : Pool) (s : Slot)
      → (reuse ans key s p).0 ≡ granted (record s { last_used = some ans.now })
  unfolding reuse
  reuse-granted p s = refl

  acquire-live :
      (p : Pool) (s : Slot)
      → lookup key p.active_slots ≡ some s
      → (is_live ans s && not (idle_too_long ans p.max_idle_time s)) ≡ true
      → acquire ans key ws user p ≡ reuse ans key s p
  unfolding acquire acquire_found
  acquire-live p s there live =
      ap (λ found. acquire_found ans key ws user found p) there ∙ rw live refl

  -- The call fails with the busy error and leaves the gate, and the connection of the key is closed.
  abbrev pub ClosesBusy : Slot → List PoolCall → QueryGate → Prologue → Type 0
  ClosesBusy s calls g o =
      (o.start ≡ rejected query_busy_text)
      × (o.effects ≡ fail_effects r query_busy_text)
      × (o.gate ≡ g)
      × (o.calls ≡ calls ++ (stop_effect s ++ close_call s.slot_id ∷ []))
      × (lookup key o.pool.active_slots ≡ none)

  with_connection-busy :
      (out : Result × List PoolCall × Pool) (s : Slot) (g : QueryGate)
      → is_active key g ≡ true
      → lookup key out.2.active_slots ≡ some s
      → out.0 ≡ granted s
      → ClosesBusy s out.1 g (with_connection r out key cancel send g)
  unfolding with_connection with_gate
  with_connection-busy (refused err, calls, p) s g busy h e = cc
  with_connection-busy (granted t, calls, p) s g busy h e =
      subst (λ answer. ClosesBusy s calls g (with_gate r answer key t calls p))
        (sym (acquire-busy key cancel send g busy))
        (refl, refl, refl, ap (λ l. calls ++ l) (release-calls key s p h), release-frees key p)

  -- Where the gate has a query of the key in flight and the pool has a live connection of the key, which
  -- has not been idle for too long, Execute fails with the busy error and announces it, and leaves the
  -- gate; but it stops the stream of this connection and closes its client, and the key has no slot any
  -- more.
  pub execute_start-busy :
      (p : Pool) (g : QueryGate) (s : Slot)
      → is_active key g ≡ true
      → lookup key p.active_slots ≡ some s
      → (is_live ans s && not (idle_too_long ans p.max_idle_time s)) ≡ true
      → ClosesBusy s (update_last_used key ∷ []) g (execute_start r ans key ws user cancel send p g)
  unfolding execute_start reuse
  execute_start-busy p g s busy there live =
      let used = record s { last_used = some ans.now } in
      let acquired = acquire-live p s there live in
      subst
        (λ (out : Result × List PoolCall × Pool).
          ClosesBusy s (update_last_used key ∷ []) g (with_connection r out key cancel send g))
        (sym acquired)
        (with_connection-busy (reuse ans key s p) used g busy
          (granted-lookup ans key ws user (reuse ans key s p) used
            (subst (Settled ans key ws user) acquired (acquire-Settled ans key ws user p))
            (reuse-granted p s))
          (reuse-granted p s))
