-- ===== src/Appkit/TurnRunner/Execute.antt =====
-- appkit/turn_runner.go: Execute and ExecuteReserved over the connection pool and the query gate.
pub mod Busy
use Prim.Native.String.{◌++◌ as concat}
use soothe_client_go.Prelude.{
  ℕ, String, ◌≡◌, refl, sym, ap, ◌∙◌, Bool, true, false, not, Option, none, some, List, [], ◌∷◌,
  ◌++◌, ◌==◌, lookup, if◌then◌else◌, if_cases, subst,
}
use soothe_client_go.Json.{Fields}
use soothe_client_go.Appkit.QueryGate.{
  QueryGate, GateError, query_busy, is_active, set_send_cancel, replace_cancel,
  acquire as acquire_gate, release as release_gate,
}
use soothe_client_go.Appkit.Pool.{Slot, Pool, release, Effect as PoolCall}
use soothe_client_go.Appkit.Pool.Acquire.{
  Answers, Result, granted, refused, acquire_error_text, acquire,
}
use soothe_client_go.Appkit.Pool.Grants.{Settled, acquire-Settled}
use soothe_client_go.Appkit.Pool.Slots.{release-frees}
use soothe_client_go.Appkit.TurnRunner.{
  TurnRunner, Effect, End, failed, Turn, new_turn, Tick, Step, fail_effects, run_turn,
}

-- How far a call of Execute comes before runTurn: the connection of the turn, or its error
pub data Start : Type 0 where
  started : Slot → Start
  rejected : (err : String) → Start

-- What Execute has done before runTurn, and the pool and the gate behind it
pub record Prologue : Type 0 where
  pub start : Start
  pub effects : List Effect
  pub calls : List PoolCall
  pub pool : Pool
  pub gate : QueryGate

-- The text of ErrQueryBusy
abbrev pub query_busy_text : String
query_busy_text = "appkit: query already in progress for app key"

module _ (r : TurnRunner) where
  -- Behind Acquire of the gate: a busy key releases the connection again
  unfoldable pub with_gate :
      Option GateError × QueryGate → String → Slot → List PoolCall → Pool → Prologue
  with_gate (none, g) key s calls p = record {
    start = started s;
    effects = [];
    calls = calls;
    pool = p;
    gate = g;
  }
  with_gate (some err, g) key s calls p =
      let (more, p') = release key p in
      record {
        start = rejected query_busy_text;
        effects = fail_effects r query_busy_text;
        calls = calls ++ more;
        pool = p';
        gate = g;
      }

  unfoldable pub with_connection :
      Result × List PoolCall × Pool → String → ℕ → ℕ → QueryGate → Prologue
  unfolding with_gate
  with_connection (refused err, calls, p) key cancel send g = record {
    start = rejected (acquire_error_text err);
    effects = fail_effects r (acquire_error_text err);
    calls = calls;
    pool = p;
    gate = g;
  }
  with_connection (granted s, calls, p) key cancel send g =
      with_gate (acquire_gate key (some cancel) (some send) g) key s calls p

  -- Execute up to runTurn, with the cancel functions of the turn as numbers
  unfoldable pub execute_start :
      Answers → String → String → String → ℕ → ℕ → Pool → QueryGate → Prologue
  unfolding with_connection
  execute_start ans key ws user cancel send p g =
      with_connection (acquire ans key ws user p) key cancel send g

  unfoldable pub with_reserved :
      Result × List PoolCall × Pool → String → ℕ → ℕ → QueryGate → Prologue
  with_reserved (refused err, calls, p) key cancel send g = record {
    start = rejected (acquire_error_text err);
    effects = fail_effects r (acquire_error_text err);
    calls = calls;
    pool = p;
    gate = release_gate key g;
  }
  with_reserved (granted s, calls, p) key cancel send g = record {
    start = started s;
    effects = [];
    calls = calls;
    pool = p;
    gate = set_send_cancel key (some send) (replace_cancel key (some cancel) g);
  }

  -- ExecuteReserved up to runTurn, for a gate that is not nil
  unfoldable pub execute_reserved_start :
      Answers → String → String → String → ℕ → ℕ → Pool → QueryGate → Prologue
  unfolding with_reserved
  execute_reserved_start ans key ws user cancel send p g =
      if not (is_active key g)
      then record {
        start =
            rejected
              (concat "appkit: ExecuteReserved requires an active QueryGate reservation for " key);
        effects = [];
        calls = [];
        pool = p;
        gate = g;
      }
      else with_reserved (acquire ans key ws user p) key cancel send g

  -- runTurn and the deferred Release of the gate behind its end
  unfoldable pub after_turn : String → Step r → QueryGate → Step r × QueryGate
  after_turn key (effects, t, none) g = ((effects, t, none), g)
  after_turn key (effects, t, some end') g = ((effects, t, some end'), release_gate key g)

  module _ (decode : String → Option Fields) where
    unfoldable pub run_started :
        Start → List Effect → String → Option String → List Tick → QueryGate → Step r × QueryGate
    unfolding after_turn
    run_started (rejected err) effects key send_err ticks g =
        ((effects, new_turn, some (failed err)), g)
    run_started (started s) effects key send_err ticks g =
        after_turn key (run_turn r decode s.has_events send_err key s.loop_id ticks) g

    -- What follows the prologue of Execute and of ExecuteReserved
    unfoldable pub finish_execute :
        Prologue → String → Option String → List Tick → Step r × QueryGate
    unfolding run_started
    finish_execute o key send_err ticks = run_started o.start o.effects key send_err ticks o.gate
