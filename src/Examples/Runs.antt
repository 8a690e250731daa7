-- ===== src/Examples/Runs.antt =====
-- Turns of the runner at concrete events.
use soothe_client_go.Prelude.{
  ◌≡◌, refl, true, false, none, some, List, [], ◌∷◌, arith, lookup, insert, inl, inr, has_prefix,
  drop_prefix, equal_fold, trim_space, fold,
}
use soothe_client_go.Appkit.TurnRunner.{
  TurnRunner, soft_complete, policy_fail, new_turn, Tick, received, fold_content, run_loop,
  run_turn,
}
use soothe_client_go.Protocol.{new_status, Message, status}
use soothe_client_go.Appkit.QueryGate.{
  QueryGate, new_query_gate, is_active, acquire as acquire_gate,
}
use soothe_client_go.Appkit.Pool.{Pool, update_last_used, new_connection_pool}
use soothe_client_go.Appkit.Pool.Acquire.{acquire, idle_too_long}
use soothe_client_go.Appkit.TurnRunner.Execute.{execute_start}
use soothe_client_go.Appkit.TurnRunner.Execute.Busy.{ClosesBusy, execute_start-busy}
use soothe_client_go.Appkit.TurnRunner.Deltas.{Adds, run_loop-Adds}
use soothe_client_go.Appkit.TurnRunner.Leftovers.{IsUntouched, received_all, run_loop-IsUntouched}
use soothe_client_go.Appkit.TurnRunner.Outcome.{Announced, run_turn-Announced}
use soothe_client_go.Examples.Pools.{all_well, two, slot_for}
use soothe_client_go.Examples.Classifiers.{quiz_config, no_json, answer}

abbrev runner : TurnRunner
runner = record {
  classifier = quiz_config;
  on_idle_timeout = policy_fail;
  on_query_timeout = policy_fail;
  on_stream_close = soft_complete;
  has_store = true;
  has_broadcaster = true;
  has_on_complete = false;
  has_on_error = true;
}

abbrev a_turn : List Tick
a_turn =
    received (status (record new_status { state = "idle"; loop_id = "l"; turn_id = "l:0" }))
    ∷ received (status (record new_status { state = "running"; loop_id = "l"; turn_id = "l:1" }))
    ∷ received answer
    ∷ []

-- Two fragments that are alike: the second is taken for the whole text and gets lost.
repeated_fragment : fold_content "ha" "ha" ≡ ("ha", "")
unfolding fold_content has_prefix drop_prefix
repeated_fragment = refl

run_loop-Adds_example : Adds runner new_turn (run_loop runner no_json "l" a_turn new_turn)
run_loop-Adds_example = run_loop-Adds runner refl no_json "l" a_turn new_turn

run_turn-Announced_example : Announced runner (run_turn runner no_json true none "chat" "l" a_turn)
run_turn-Announced_example =
    run_turn-Announced runner (omega arith) no_json true none "chat" "l" a_turn

abbrev busy_pool : Pool
busy_pool = (acquire all_well "chat" "ws" "u" two).2

abbrev busy_gate : QueryGate
busy_gate = (acquire_gate "chat" (some 1) (some 2) new_query_gate).1

execute_start-busy_example :
    ClosesBusy runner all_well "chat" "ws" "u" 3 4
      (slot_for 1)
      (update_last_used "chat" ∷ [])
      busy_gate
      (execute_start runner all_well "chat" "ws" "u" 3 4 busy_pool busy_gate)
unfolding is_active lookup acquire_gate insert acquire new_connection_pool idle_too_long
execute_start-busy_example =
    execute_start-busy runner all_well "chat" "ws" "u" 3 4 busy_pool busy_gate (slot_for 1) refl
      refl refl

abbrev leftovers : List Message
leftovers =
    status (record new_status { state = "running"; loop_id = "l"; turn_id = "l:0" })
    ∷ status (record new_status { state = "Idle"; loop_id = "l"; turn_id = "l:0" })
    ∷ []

run_loop-IsUntouched_example :
    IsUntouched runner no_json "l" new_turn
      (run_loop runner no_json "l" (received_all leftovers) new_turn)
unfolding equal_fold trim_space fold
run_loop-IsUntouched_example =
    run_loop-IsUntouched runner no_json "l" leftovers new_turn (inr (inr refl), (inl refl, tt)) refl
