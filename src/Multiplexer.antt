-- ===== src/Multiplexer.antt =====
-- multiplexer.go: the waiters for answers, and the routing of frames to them.
pub mod Routing
use soothe_client_go.Prelude.{
  ℕ, zero, suc, ◌+◌, String, Bool, true, false, not, ◌||◌, Option, none, some, List, [], ◌∷◌, ◌++◌,
  ◌==◌, length, ltb, eqb, lookup, insert, delete, if◌then◌else◌,
}
use soothe_client_go.Prelude.Int.{ℤ, pos, negsuc}
use soothe_client_go.Json.{Number, Value, num, obj, Fields, end, get, text_of}

-- The DaemonError of errors.go that an error frame makes
pub record DaemonError : Type 0 where
  pub code : ℤ
  pub message : String
  pub data' : Fields

-- pendingCall: its two channels hold one item each
pub record PendingCall : Type 0 where
  pub reply : Option Fields
  pub err : Option DaemonError

-- pendingSubscription: the frames in its channel, the oldest first, and whether `done` is closed
pub record PendingSubscription : Type 0 where
  pub frames : List Fields
  pub done : Bool

-- A receipt's channel, which its waiter has made
pub record Receipt : Type 0 where
  pub capacity : ℕ
  pub received : List Fields

-- mux. A waiter is a number, the pointer in Go: the maps hold the number, and the waiter itself
-- outlives its entry. The numbers from `call_count` and `stream_count` on are not in use.
pub record Mux : Type 0 where
  pub rpcs : List (String × ℕ)
  pub subs : List (String × ℕ)
  pub receipts : List (String × ℕ)
  pub calls : ℕ → PendingCall
  pub call_count : ℕ
  pub streams : ℕ → PendingSubscription
  pub stream_count : ℕ
  pub channels : ℕ → Receipt

-- newMux; the waiters that are not in use yet are empty
unfoldable pub new_mux : Mux
new_mux = record {
  rpcs = [];
  subs = [];
  receipts = [];
  calls = λ waiter. record { reply = none; err = none };
  call_count = 0;
  streams = λ waiter. record { frames = []; done = false };
  stream_count = 0;
  channels = λ channel. record { capacity = 0; received = [] };
}

abbrev pub set_at {ℓ} : {A : Type ℓ} → ℕ → A → (ℕ → A) → (ℕ → A)
set_at i x f j = if eqb i j then x else f j

-- registerRPC: the new waiter and the mux
unfoldable pub register_rpc : String → Mux → ℕ × Mux
register_rpc id m = (
  m.call_count,
  record m {
    rpcs = insert id m.call_count m.rpcs;
    calls = set_at m.call_count (record { reply = none; err = none }) m.calls;
    call_count = suc m.call_count;
  },
)

-- `if cur, ok := m[id]; ok && cur == waiter { delete(m, id) }`
unfoldable pub delete_own : String → ℕ → List (String × ℕ) → List (String × ℕ)
delete_own id waiter entries = elim (lookup id entries) [
  | none ↦ entries
  | some cur ↦ if eqb cur waiter then delete id entries else entries
]

-- The function that registerRPC returns
unfoldable pub unregister_rpc : String → ℕ → Mux → Mux
unfolding delete_own
unregister_rpc id waiter m = record m { rpcs = delete_own id waiter m.rpcs }

-- registerSubscription
unfoldable pub register_subscription : String → Mux → ℕ × Mux
register_subscription id m = (
  m.stream_count,
  record m {
    subs = insert id m.stream_count m.subs;
    streams = set_at m.stream_count (record { frames = []; done = false }) m.streams;
    stream_count = suc m.stream_count;
  },
)

-- The function that registerSubscription returns
unfoldable pub unregister_subscription : String → ℕ → Mux → Mux
unfolding delete_own
unregister_subscription id waiter m = record m {
  subs = delete_own id waiter m.subs;
  streams = set_at waiter (record (m.streams waiter) { done = true }) m.streams;
}

-- `int(f)` for a float64 in the range of int: towards zero
unfoldable pub truncate : Number → ℤ
truncate n = elim n.floor [
  | pos k ↦ pos k
  | negsuc k ↦ if n.exact then negsuc k else elim k [ zero ↦ pos 0 | suc j ↦ negsuc j ]
]

error_code : Value → ℤ
unfolding truncate
error_code (num n) = truncate n
error_code _ = negsuc 32602

-- `m, _ := v.(map[string]interface{})`, where a nil map reads as an empty one
unfoldable pub map_or_nil : Value → Fields
map_or_nil (obj m) = m
map_or_nil _ = end

unfoldable pub daemon_error : Fields → DaemonError
unfolding error_code map_or_nil
daemon_error frame =
    let err_obj = map_or_nil (get "error" frame) in
    record {
      code = error_code (get "code" err_obj);
      message = text_of "message" err_obj;
      data' = map_or_nil (get "data" err_obj);
    }

-- `result`, or the frame itself where there is none
unfoldable pub result_of : Fields → Fields
result_of frame = elim (get "result" frame) [ obj result ↦ result | _ ↦ frame ]

-- A `select` that sends on a channel with room for one item, or gives the item up
unfoldable pub offer {ℓ} : {A : Type ℓ} → Option A → A → Option A
offer none x = some x
offer (some old) x = some old

-- The same on a channel with room for `capacity` items
unfoldable pub offer_within : ℕ → List Fields → Fields → List Fields
offer_within capacity queue x = if ltb (length queue) capacity then queue ++ x ∷ [] else queue

unfoldable pub deliver_call : String → Fields → ℕ → Mux → Mux
unfolding daemon_error result_of offer
deliver_call typ frame waiter m =
    let call = m.calls waiter in
    record m {
      calls =
          set_at waiter
            (if typ == "error"
              then record call { err = offer (call.err) (daemon_error frame) }
              else record call { reply = offer (call.reply) (result_of frame) })
            m.calls;
    }

-- A subscription that is done takes the frame out of the way without keeping it.
unfoldable pub deliver_stream : Fields → ℕ → Mux → Mux
unfolding offer_within
deliver_stream frame waiter m =
    let sub = m.streams waiter in
    if sub.done then m else record m {
      streams =
          set_at waiter (record sub { frames = offer_within 16 (sub.frames) frame }) m.streams;
    }

unfoldable pub deliver_receipt : Fields → ℕ → Mux → Mux
unfolding offer_within
deliver_receipt frame waiter m =
    let box = m.channels waiter in
    record m {
      channels =
          set_at waiter (record box { received = offer_within (box.capacity) (box.received) frame })
            m.channels;
    }

-- The tail of each case: no id, no waiter, or the waiter that takes the frame.
unfoldable pub to_waiter : String → List (String × ℕ) → (ℕ → Mux → Mux) → Mux → Bool × Mux
to_waiter id entries deliver m =
    if id == ""
    then (false, m)
    else elim (lookup id entries) [ none ↦ (false, m) | some waiter ↦ (true, deliver waiter m) ]

-- route; a nil frame, which no caller has, is the empty one
unfoldable pub route : Fields → Mux → Bool × Mux
unfolding to_waiter deliver_call deliver_stream deliver_receipt
route frame m =
    let typ = text_of "type" frame in
    if typ == "response" || typ == "error"
    then to_waiter (text_of "id" frame) m.rpcs (deliver_call typ frame) m
    else if typ == "next" || typ == "complete"
    then to_waiter (text_of "id" frame) m.subs (deliver_stream frame) m
    else if typ == "receipt_response"
    then to_waiter (text_of "receipt" frame) m.receipts (deliver_receipt frame) m
    else (false, m)
