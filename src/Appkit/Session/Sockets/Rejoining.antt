-- ===== src/Appkit/Session/Sockets/Rejoining.antt =====
-- appkit/daemon_session.go: what EnsureConnected leaves behind.
use soothe_client_go.Prelude.{
  String, ◌≡◌, ◌≢◌, refl, sym, subst, ◌∙◌, ◌⊎◌, Bool, true, false, Option, none, some, List, [],
  ◌∷◌, ◌++◌, ◌==◌, Bool-cases, Option-cases, eq_iff, inl, inr, arith, differ, if◌then◌else◌,
}
use soothe_client_go.Client.Connection.Handshake.{
  reattach_and_probe, reattach, subscribe_again, probe,
}
use soothe_client_go.Bootstrap
use soothe_client_go.Bootstrap.{Booted, ready, failed, bootstrap_loop_session}
use soothe_client_go.Appkit.Session.Sockets.{
  Sockets, Effect, stream_reconnect, stream_connect, stream_close, rpc_close, reattaching,
  bootstrapping, SessionError, bootstrap_failed, Network, SessionResult, session_options,
  settle_bootstrap, bootstrap_loop, unless_failed, drop_rpc, reconnect_stream, after_reattach,
  rejoin, ensure_connected,
}

-- Whether a new loop was asked for
unfoldable pub bootstraps : List Effect → Bool
bootstraps [] = false
bootstraps (bootstrapping calls ∷ es) = true
bootstraps (e ∷ es) = bootstraps es

-- The session has no loop, or the daemon took the loop back and then failed the probe.
abbrev pub MayRenew : Network → Sockets → Type 0
MayRenew net s =
    (s.loop_id ≡ "")
    ⊎ ((net.attach_err ≡ none) × (net.subscribe_err ≡ none) × (net.probe_err ≢ none))

-- The session without its sidecar
abbrev pub dropped : Sockets → Sockets
dropped s = record s { rpc_connected = false }

pub data Rejoins (net : Network) (s : Sockets) : SessionResult → Type 0 where
  untouched : net.alive ≡ true → Rejoins net s ([], s, none)
  kept :
      (effects : List Effect)
      → net.alive ≡ false
      → bootstraps effects ≡ false
      → s.loop_id ≢ ""
      → net.attach_err ≡ none
      → net.subscribe_err ≡ none
      → net.probe_err ≡ none
      → Rejoins net s (effects, dropped s, none)
  renewed :
      (effects : List Effect) (calls : List Bootstrap.Call) (loop_id : String)
      → net.alive ≡ false
      → MayRenew net s
      → bootstrap_loop_session net.loop_new net.loop_subscribed "" s.workspace
          (session_options s.workspace)
        ≡ (calls, ready loop_id)
      → Rejoins net s (effects, record (dropped s) { loop_id = loop_id }, none)
  given_up :
      (effects : List Effect) (err : SessionError)
      → net.alive ≡ false
      → (bootstraps effects ≡ true → MayRenew net s)
      → Rejoins net s (effects, dropped s, some err)

drop_rpc-dropped : (s : Sockets) → (drop_rpc s).1 ≡ dropped s
unfolding drop_rpc
drop_rpc-dropped s = elim (Bool-cases s.rpc_connected) [ inl e ↦ rw e refl | inr e ↦ rw e refl ]

drop_rpc-bootstraps : (s : Sockets) → bootstraps (drop_rpc s).0 ≡ false
unfolding drop_rpc bootstraps
drop_rpc-bootstraps s = elim (Bool-cases s.rpc_connected) [ inl e ↦ rw e refl | inr e ↦ rw e refl ]

bootstraps-++ :
    (es fs : List Effect) → bootstraps es ≡ false → bootstraps (es ++ fs) ≡ bootstraps fs
unfolding bootstraps
bootstraps-++ [] fs e = refl
bootstraps-++ (bootstrapping calls ∷ es) fs e = ground arith
bootstraps-++ (stream_reconnect ∷ es) fs e = bootstraps-++ es fs e
bootstraps-++ (stream_connect ∷ es) fs e = bootstraps-++ es fs e
bootstraps-++ (stream_close ∷ es) fs e = bootstraps-++ es fs e
bootstraps-++ (Effect.rpc_connect ∷ es) fs e = bootstraps-++ es fs e
bootstraps-++ (rpc_close ∷ es) fs e = bootstraps-++ es fs e
bootstraps-++ (reattaching calls ∷ es) fs e = bootstraps-++ es fs e

absurd_of {ℓ} : {A : Type ℓ} → false ≡ true → A
absurd_of e = ground arith

not_none {ℓ} : {A : Type ℓ} {a : A} → some a ≡ none → ⊥
not_none e = cc e

module _ (net : Network) (s : Sockets) (down : net.alive ≡ false) where
  -- A new loop for the session
  booted-Rejoins :
      (pre mid : List Effect) (r : List Bootstrap.Call × Booted)
      → MayRenew net s
      → bootstrap_loop_session net.loop_new net.loop_subscribed "" s.workspace
          (session_options s.workspace)
        ≡ r
      → Rejoins net s (
          unless_failed pre none
            (dropped s)
            (unless_failed mid none (dropped s) (bootstrap_loop net "" (dropped s))))
  unfolding bootstrap_loop settle_bootstrap
  booted-Rejoins pre mid (calls, ready loop_id) may e =
      rw e (renewed (pre ++ (mid ++ bootstrapping calls ∷ [])) calls loop_id down may e)
  booted-Rejoins pre mid (calls, failed err) may e =
      rw e
        (given_up (pre ++ (mid ++ bootstrapping calls ∷ [])) (bootstrap_failed err) down (λ _. may))

  -- What the three requests of ReattachAndProbe lead to
  reattached-Rejoins :
      (pre : List Effect) (attached subscribed probed : Option String)
      → bootstraps pre ≡ false
      → s.loop_id ≢ ""
      → net.attach_err ≡ attached
      → net.subscribe_err ≡ subscribed
      → net.probe_err ≡ probed
      → Rejoins net s (
          let (calls, err) = reattach s.loop_id attached subscribed probed in
          unless_failed pre none (dropped s) (
            unless_failed
              (reattaching calls ∷ [])
              none
              (dropped s)
              (after_reattach net s.loop_id err (dropped s))))
  unfolding reattach subscribe_again probe after_reattach bootstraps
  reattached-Rejoins pre (some err) subscribed probed quiet named a b c =
      given_up _ _ down (λ t. absurd_of (sym (bootstraps-++ pre _ quiet) ∙ t))
  reattached-Rejoins pre none (some err) probed quiet named a b c =
      given_up _ _ down (λ t. absurd_of (sym (bootstraps-++ pre _ quiet) ∙ t))
  reattached-Rejoins pre none none (some err) quiet named a b c =
      booted-Rejoins pre (reattaching (reattach s.loop_id none none (some err)).0 ∷ []) _
        (inr (a, b, λ gone. not_none (sym c ∙ gone))) refl
  reattached-Rejoins pre none none none quiet named a b c =
      kept _ down (bootstraps-++ pre _ quiet) named a b c

  rejoin-Rejoins :
      (pre : List Effect)
      → bootstraps pre ≡ false
      → Rejoins net s (unless_failed pre none (dropped s) (rejoin net s.loop_id (dropped s)))
  unfolding rejoin reattach_and_probe
  rejoin-Rejoins pre quiet = elim (Bool-cases (s.loop_id == "")) [
    | inl e ↦ rw e (booted-Rejoins pre [] _ (inl ((eq_iff s.loop_id "").0 e)) refl)
    | inr e ↦ rw e (
        reattached-Rejoins pre net.attach_err net.subscribe_err net.probe_err quiet
          (differ s.loop_id "" e) refl refl refl)
  ]

  -- The stream again, where its error `r` is known
  reconnected-Rejoins :
      (pre : List Effect) (r : List Effect × Option SessionError)
      → bootstraps pre ≡ false
      → bootstraps r.0 ≡ false
      → Rejoins net s
          (unless_failed (pre ++ r.0) r.1 (dropped s) (rejoin net s.loop_id (dropped s)))
  reconnected-Rejoins pre (effects, none) quiet calm =
      rejoin-Rejoins (pre ++ effects) (bootstraps-++ pre effects quiet ∙ calm)
  reconnected-Rejoins pre (effects, some err) quiet calm =
      given_up (pre ++ effects) err down
        (λ t. absurd_of (sym (bootstraps-++ pre effects quiet ∙ calm) ∙ t))

reconnect_stream-bootstraps : (net : Network) → bootstraps (reconnect_stream net).0 ≡ false
unfolding reconnect_stream bootstraps
reconnect_stream-bootstraps net = elim (Option-cases net.reconnect_err) [
  | inl e ↦ rw e refl
  | inr (err, e) ↦ rw e refl
]

down-Rejoins :
    (net : Network) (s : Sockets)
    → net.alive ≡ false
    → Rejoins net s (
        unless_failed
          ((drop_rpc s).0 ++ (reconnect_stream net).0)
          (reconnect_stream net).1
          (drop_rpc s).1
          (rejoin net s.loop_id (drop_rpc s).1))
down-Rejoins net s e =
    subst
      (λ t. Rejoins net s (
        unless_failed ((drop_rpc s).0 ++ (reconnect_stream net).0) (reconnect_stream net).1 t
          (rejoin net s.loop_id t)))
      (sym (drop_rpc-dropped s))
      (reconnected-Rejoins net s e (drop_rpc s).0 (reconnect_stream net) (drop_rpc-bootstraps s)
        (reconnect_stream-bootstraps net))

by_alive :
    (net : Network) (s : Sockets) (alive : Bool) (r : SessionResult)
    → net.alive ≡ alive
    → (net.alive ≡ false → Rejoins net s r)
    → Rejoins net s (if alive then ([], s, none) else r)
by_alive net s true r e down = untouched e
by_alive net s false r e down = down e

-- EnsureConnected does nothing to a live stream. Otherwise the sidecar is dropped, and the session
-- keeps its loop, with no new one asked for, where the daemon takes it back and the probe finds it; it
-- gets the loop of a new session where it had none or where only the probe failed; and behind every
-- error it still has its loop, and no new one was asked for unless it may be renewed.
pub ensure_connected-Rejoins :
    (net : Network) (s : Sockets) → Rejoins net s (ensure_connected net s)
unfolding ensure_connected
ensure_connected-Rejoins net s = by_alive net s net.alive _ refl (down-Rejoins net s)
