-- ===== src/Appkit/Pool.antt =====
-- appkit/pool.go: the connection pool, whose slots are idle or belong to an app key.
pub mod Acquire
pub mod Slots
pub mod Grants
use Prim.Native.String.{◌++◌ as concat}
use soothe_client_go.Prelude.{
  ℕ, zero, suc, ◌+◌, ◌-◌, String, Bool, true, false, not, ◌&&◌, ◌||◌, Option, none, some, List, [],
  ◌∷◌, ◌++◌, ◌==◌, length, lookup, insert, delete, trim_space, has_prefix, ltb, eqb, if◌then◌else◌,
}

-- pooledConn: whether eventCh and streamCancel are not nil, and whether the reader still feeds the
-- channel. The client is known by the slot, and `last_used` is `none` for the zero time.
pub record Slot : Type 0 where
  pub slot_id : ℕ
  pub has_events : Bool
  pub has_stream : Bool
  pub reader_live : Bool
  pub app_key : String
  pub loop_id : String
  pub workspace_id : String
  pub last_used : Option ℕ

-- ConnectionPool with the parts of PoolConfig that Acquire and Release read. `idle` is the channel
-- of slots, in its order.
pub record Pool : Type 0 where
  pub pool_size : ℕ
  pub max_idle_time : ℕ
  pub idle : List Slot
  pub active_slots : List (String × Slot)
  pub registry : List (ℕ × String)
  pub next_slot_id : ℕ

-- The calls that the pool makes of a slot's client and of the store, in their order. Stopping a
-- stream is the slot's streamCancel.
pub data Effect : Type 0 where
  connect_call : (slot : ℕ) → Effect
  reattach_call : (slot : ℕ) (loop : String) → Effect
  bootstrap_call : (slot : ℕ) (workspace user : String) → Effect
  receive_call : (slot : ℕ) → Effect
  stop_stream : (slot : ℕ) → Effect
  close_call : (slot : ℕ) → Effect
  create_session : (workspace key loop kind : String) → Effect
  update_last_used : (key : String) → Effect

abbrev fresh_slot : ℕ → Slot
fresh_slot id = record {
  slot_id = id;
  has_events = false;
  has_stream = false;
  reader_live = false;
  app_key = "";
  loop_id = "";
  workspace_id = "";
  last_used = none;
}

-- The seeding loop of NewConnectionPool, from the slot with that number
unfoldable pub seed : ℕ → ℕ → List Slot
seed zero id = []
seed (suc n) id = fresh_slot id ∷ seed n (suc id)

-- NewConnectionPool
unfoldable pub new_connection_pool : ℕ → ℕ → Pool
unfolding seed
new_connection_pool size max_idle =
    let pool_size = if eqb size 0 then 1000 else size in
    record {
      pool_size = pool_size;
      max_idle_time = max_idle;
      idle = seed pool_size 1;
      active_slots = [];
      registry = [];
      next_slot_id = pool_size + 1;
    }

-- Stats
abbrev pub stats : Pool → ℕ × ℕ
stats p = (length p.active_slots, length p.idle)

-- `delete(p.registry, slotID)`
unfoldable pub unregister : ℕ → List (ℕ × String) → List (ℕ × String)
unregister id [] = []
unregister id ((i, key) ∷ more) =
    let rest = unregister id more in if eqb i id then rest else (i, key) ∷ rest

-- `p.registry[slotID] = appKey`
unfoldable pub register : ℕ → String → List (ℕ × String) → List (ℕ × String)
unfolding unregister
register id key entries = (id, key) ∷ unregister id entries

-- The select of Release: a full channel takes no slot
unfoldable pub return_slot : Slot → Pool → Pool
return_slot s p =
    if ltb (length p.idle) p.pool_size then record p { idle = p.idle ++ s ∷ [] } else p

-- newSlot
unfoldable pub new_slot : Pool → Slot × Pool
new_slot p = (fresh_slot p.next_slot_id, record p { next_slot_id = suc p.next_slot_id })

abbrev pub stop_effect : Slot → List Effect
stop_effect s = if s.has_stream then stop_stream s.slot_id ∷ [] else []

-- Release
unfoldable pub drop_slot : String → Slot → Pool → Pool
unfolding return_slot new_slot unregister
drop_slot key s p =
    let (fresh, p') = new_slot (record p {
      active_slots = delete key p.active_slots;
      registry = unregister s.slot_id p.registry;
    }) in
    return_slot fresh p'

unfoldable pub release_found : String → Option Slot → Pool → List Effect × Pool
unfolding drop_slot
release_found key none p = ([], p)
release_found key (some s) p = (stop_effect s ++ close_call s.slot_id ∷ [], drop_slot key s p)

unfoldable pub release : String → Pool → List Effect × Pool
unfolding release_found
release key p = release_found key (lookup key p.active_slots) p

-- ResetSession
abbrev pub reset_session : String → Pool → List Effect × Pool
reset_session key p = release key p

abbrev pub close_all : List Slot → List Effect
close_all [] = []
close_all (s ∷ more) = close_call s.slot_id ∷ close_all more

abbrev pub stop_all : List (String × Slot) → List Effect
stop_all [] = []
stop_all ((key, s) ∷ more) = (stop_effect s ++ close_call s.slot_id ∷ []) ++ stop_all more

abbrev pub unregister_all : List (String × Slot) → List (ℕ × String) → List (ℕ × String)
unregister_all [] entries = entries
unregister_all ((key, s) ∷ more) entries = unregister_all more (unregister s.slot_id entries)

-- Stop
unfoldable pub stop : Pool → List Effect × Pool
unfolding unregister
stop p = (
  stop_all p.active_slots ++ close_all p.idle,
  record p { idle = []; active_slots = []; registry = unregister_all p.active_slots p.registry },
)

unfoldable pub reader_stops : String → Option Slot → Pool → Pool
reader_stops key none p = p
reader_stops key (some s) p = record p {
  active_slots = insert key (record s { reader_live = false }) p.active_slots;
}

-- The end of the goroutine of startReader
unfoldable pub reader_ends : String → Pool → Pool
unfolding reader_stops
reader_ends key p = reader_stops key (lookup key p.active_slots) p
