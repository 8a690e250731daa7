-- ===== src/Appkit/QueryGate.antt =====
-- appkit/query_gate.go: one query at a time for each app key, and its cancellation.
pub mod Flight
use soothe_client_go.Prelude.{
  ℕ, String, Bool, true, false, Option, none, some, List, [], ◌∷◌, ◌++◌, lookup, insert, delete,
  if◌then◌else◌,
}

-- A query's functions are known by a number: `cancels` holds its local context.CancelFunc, `none`
-- where that is nil, and `send_cancels` what sends the daemon's cancel, which is never nil.
pub record QueryGate : Type 0 where
  pub cancels : List (String × Option ℕ)
  pub send_cancels : List (String × ℕ)

-- NewQueryGate
abbrev pub new_query_gate : QueryGate
new_query_gate = record { cancels = []; send_cancels = [] }

-- ErrQueryBusy
pub data GateError : Type 0 where
  query_busy : GateError

-- The calls that Cancel makes, in their order.
pub data Effect : Type 0 where
  daemon_cancel : ℕ → Effect
  local_cancel : ℕ → Effect

abbrev pub flat : Option (Option ℕ) → Option ℕ
flat none = none
flat (some cancel) = cancel

-- `g.cancels[appKey]`
unfoldable pub current : String → QueryGate → Option ℕ
current app_key g = flat (lookup app_key g.cancels)

abbrev pub is_some : Option ℕ → Bool
is_some none = false
is_some (some n) = true

-- IsActive
unfoldable pub is_active : String → QueryGate → Bool
unfolding current
is_active app_key g = is_some (current app_key g)

-- `if sendCancel != nil { g.sendCancels[appKey] = sendCancel }`
unfoldable pub put_sender : String → Option ℕ → List (String × ℕ) → List (String × ℕ)
put_sender app_key none senders = senders
put_sender app_key (some send) senders = insert app_key send senders

-- Acquire
unfoldable pub acquire : String → Option ℕ → Option ℕ → QueryGate → Option GateError × QueryGate
unfolding put_sender
acquire app_key cancel send g = if is_active app_key g then (some query_busy, g) else (
  none,
  record {
    cancels = insert app_key cancel g.cancels;
    send_cancels = put_sender app_key send g.send_cancels;
  },
)

-- Release
unfoldable pub release : String → QueryGate → QueryGate
release app_key g = record {
  cancels = delete app_key g.cancels;
  send_cancels = delete app_key g.send_cancels;
}

abbrev pub daemon_effect : Option ℕ → List Effect
daemon_effect none = []
daemon_effect (some send) = daemon_cancel send ∷ []

abbrev pub local_effect : Option ℕ → List Effect
local_effect none = []
local_effect (some cancel) = local_cancel cancel ∷ []

-- Cancel: whether the daemon's cancel could be sent changes nothing, and nil is returned always.
unfoldable pub cancel_query : String → QueryGate → List Effect × QueryGate
unfolding release
cancel_query app_key g = (
  daemon_effect (lookup app_key g.send_cancels) ++ local_effect (current app_key g),
  release app_key g,
)

-- SetSendCancel
unfoldable pub set_send_cancel : String → Option ℕ → QueryGate → QueryGate
unfolding put_sender
set_send_cancel app_key send g =
    if is_active app_key g
    then record g { send_cancels = put_sender app_key send g.send_cancels }
    else g

-- ReplaceCancel
unfoldable pub replace_cancel : String → Option ℕ → QueryGate → QueryGate
replace_cancel app_key none g = g
replace_cancel app_key (some cancel) g =
    if is_active app_key g then record g { cancels = insert app_key (some cancel) g.cancels } else g
