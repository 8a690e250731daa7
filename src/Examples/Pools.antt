-- ===== src/Examples/Pools.antt =====
-- The connection pool at concrete calls.
use soothe_client_go.Prelude.{ℕ, suc, ◌≡◌, refl, true, false, none, some, [], ◌∷◌, lookup}
use soothe_client_go.Appkit.Pool.{Slot, Pool, new_connection_pool}
use soothe_client_go.Appkit.Pool.Acquire.{Answers, booted, boot_failed, take_slot, acquire}
use soothe_client_go.Appkit.Pool.Slots.{
  Inv, acquire_call, release_call, after_all, after_all-new_connection_pool,
  new_connection_pool-Inv,
}
use soothe_client_go.Appkit.Pool.Grants.{Settled, total, acquire-Settled, take_slot-leaks}

abbrev pub all_well : Answers
all_well = record {
  notified = false;
  connected = true;
  now = 5;
  context_err = none;
  connect = none;
  reattach = none;
  connect_again = none;
  boot = booted "l";
  receive_err = none;
  stored_loop = none;
  stored_type = none;
}

abbrev no_boot : Answers
no_boot = record all_well { boot = boot_failed "refused" }

abbrev pub two : Pool
two = new_connection_pool 2 0

abbrev pub slot_for : ℕ → Slot
slot_for id = record {
  slot_id = id;
  has_events = true;
  has_stream = true;
  reader_live = true;
  app_key = "chat";
  loop_id = "l";
  workspace_id = "ws";
  last_used = some 5;
}

after_all-new_connection_pool_example : Inv 2 (
    after_all
      (acquire_call all_well "chat" "ws" "u"
        ∷ acquire_call no_boot "other" "ws" "u"
        ∷ release_call "chat"
        ∷ [])
      two)
unfolding new_connection_pool
after_all-new_connection_pool_example = after_all-new_connection_pool 2 0 (
    acquire_call all_well "chat" "ws" "u"
    ∷ acquire_call no_boot "other" "ws" "u"
    ∷ release_call "chat"
    ∷ [])

acquire-Settled_example : Settled no_boot "chat" "ws" "u" (acquire no_boot "chat" "ws" "u" two)
acquire-Settled_example = acquire-Settled no_boot "chat" "ws" "u" two

take_slot-leaks_example :
    suc (total (take_slot all_well "chat" "ws" "u" (take_slot all_well "chat" "ws" "u" two).2).2)
    ≡ 2
unfolding new_connection_pool lookup take_slot
take_slot-leaks_example =
    take_slot-leaks all_well all_well "chat" "ws" "u" 2 two (slot_for 1) (slot_for 2)
      (new_connection_pool-Inv 2 0) refl refl refl
