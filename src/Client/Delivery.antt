-- ===== src/Client/Delivery.antt =====
-- client.go: delivery acknowledgements. A `go` statement puts a task in `tasks`; a task runs at any
-- later time, in any order. It holds the mutex while it looks at the counter and sets it, and calls
-- Notify behind that, when other tasks may have run: `claimed` holds the numbers that were set, `sending`
-- those whose Notify is still to come, and `sent` those whose Notify was called, the newest first.
pub mod Order
pub mod Numbers
use soothe_client_go.Prelude.{
  ℕ, zero, suc, ◌+◌, String, ◌≡◌, Bool, true, false, Option, none, some, List, [], ◌∷◌, ◌++◌, ◌==◌,
  leb, lookup, insert, if◌then◌else◌,
}
use soothe_client_go.Json.{Value, arr, obj, Items, nil, cons, Fields, get, text_of}
use soothe_client_go.Json.Size.{size_fields}
use soothe_client_go.Stream.{inbound_needs_delivery_ack, extract_loop_id_from_inbound}

abbrev pub Counters : Type 0
Counters = List (String × ℕ)

-- `m[loopID]`, 0 where there is none
unfoldable pub count_of : String → Counters → ℕ
count_of k m = elim (lookup k m) [ none ↦ 0 | some n ↦ n ]

pub record Delivery : Type 0 where
  pub recv_seq : Counters
  pub acked_seq : Counters
  pub tasks : List (String × ℕ)
  pub claimed : List (String × ℕ)
  pub sending : List (String × ℕ)
  pub sent : List (String × ℕ)

abbrev pub new_delivery : Delivery
new_delivery = record {
  recv_seq = [];
  acked_seq = [];
  tasks = [];
  claimed = [];
  sending = [];
  sent = [];
}

-- sendDeliveryAck up to the end of its lock
unfoldable pub send_delivery_ack : String → ℕ → Delivery → Delivery
send_delivery_ack loop_id seq d = if leb seq (count_of loop_id d.acked_seq) then d else record d {
  acked_seq = insert loop_id seq d.acked_seq;
  claimed = (loop_id, seq) ∷ d.claimed;
  sending = (loop_id, seq) ∷ d.sending;
}

-- The call of Notify, whose error is ignored
unfoldable pub notify_ack : String → ℕ → Delivery → Delivery
notify_ack loop_id seq d = record d { sent = (loop_id, seq) ∷ d.sent }

-- The end of trackInboundDeliveryAck, for the loop of a frame that wants an acknowledgement.
unfoldable pub count_delivery : String → Delivery → Delivery
count_delivery loop_id d =
    let seq = count_of loop_id d.recv_seq + 1 in
    let counted = record d { recv_seq = insert loop_id seq d.recv_seq } in
    if leb seq (count_of loop_id d.acked_seq)
    then counted
    else record counted { tasks = d.tasks ++ (loop_id, seq) ∷ [] }

unfoldable pub track_single : Fields → Delivery → Delivery
unfolding count_delivery
track_single event d =
    let loop_id = extract_loop_id_from_inbound event in
    if inbound_needs_delivery_ack event
    then (if loop_id == "" then d else count_delivery loop_id d)
    else d

-- The loop over the events of a batch, where `track` is the recursive call.
unfoldable pub track_items : (Fields → Delivery → Delivery) → Items → Delivery → Delivery
track_items track nil d = d
track_items track (cons (obj m) items) d = track_items track items (track m d)
track_items track (cons _ items) d = track_items track items d

unfoldable pub track_events : (Fields → Delivery → Delivery) → Value → Delivery → Delivery
unfolding track_items
track_events track (arr items) d = track_items track items d
track_events track _ d = d

-- trackInboundDeliveryAck on fuel: a batch nests into smaller maps.
unfoldable pub track_fuel : ℕ → Fields → Delivery → Delivery
unfolding track_events track_single
track_fuel zero event d = d
track_fuel (suc fuel) event d =
    if text_of "type" event == "event_batch"
    then track_events (track_fuel fuel) (get "events" event) d
    else track_single event d

unfoldable pub track_inbound_delivery_ack : Fields → Delivery → Delivery
unfolding track_fuel
track_inbound_delivery_ack event d = track_fuel (suc (size_fields event)) event d

-- What may happen next: a frame comes in, one of the started tasks runs up to the end of its lock, or one
-- that has set the counter calls Notify.
pub data Step : Delivery → Delivery → Type 0 where
  receive : (d : Delivery) (event : Fields) → Step d (track_inbound_delivery_ack event d)
  run :
      (d : Delivery) (loop_id : String) (seq : ℕ) (before after : List (String × ℕ))
      → d.tasks ≡ before ++ (loop_id, seq) ∷ after
      → Step d (send_delivery_ack loop_id seq (record d { tasks = before ++ after }))
  notify :
      (d : Delivery) (loop_id : String) (seq : ℕ) (before after : List (String × ℕ))
      → d.sending ≡ before ++ (loop_id, seq) ∷ after
      → Step d (notify_ack loop_id seq (record d { sending = before ++ after }))

pub data Reach (d : Delivery) : Delivery → Type 0 where
  here : Reach d d
  next : {e f : Delivery} → Reach d e → Step e f → Reach d f
