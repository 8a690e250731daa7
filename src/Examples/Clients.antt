-- ===== src/Examples/Clients.antt =====
-- The buffer, the acknowledgements and the peeling of a client.
use soothe_client_go.Prelude.{
  ◌≤◌, ◌≡◌, refl, true, List, [], ◌∷◌, inl, inr, trim_space, arith, insert, lookup,
}
use soothe_client_go.Json.{str, Fields, end, field, get, as_string, first_map?}
use soothe_client_go.Stream.{
  inbound_needs_delivery_ack, extract_loop_id_from_inbound, messages_wire_terminal,
  stale_pending_frame_label,
}
use soothe_client_go.Inbound.{normal, inbound_frame_drop_priority}
use soothe_client_go.Client.Buffer.{Buffer, cap, priority, enqueue_pending}
use soothe_client_go.Client.Buffer.Bounds.{Accounts, enqueue_pending-Accounts}
use soothe_client_go.Client.Buffer.Protection.{kept, enqueue_pending-Protects}
use soothe_client_go.Client.Delivery.{
  Delivery, new_delivery, count_of, send_delivery_ack, track_inbound_delivery_ack, receive, run,
  notify, notify_ack, Reach, here, next,
}
use soothe_client_go.Client.Delivery.Order.{Reach-Inv}
use soothe_client_go.Client.Delivery.Numbers.{Inv}
use soothe_client_go.Client.Reading.{Reader, peel_pending, peel_stale_pending_control_events}
use soothe_client_go.Client.Reading.Peeling.{peel-rotates}

abbrev stopped : Fields
stopped = field "type" (str "status") (field "state" (str "stopped") end)

abbrev token : Fields
token = field "type" (str "event") (field "mode" (str "messages") end)

abbrev complete : Fields
complete = field "type" (str "complete") (field "loop_id" (str "l") end)

abbrev buffer : List Fields → Buffer
buffer pending = record {
  pending_events = pending;
  inbound_max_size = 2;
  inbound_dropped = 0;
  has_callback = true;
  degraded_calls = 0;
}

enqueue_pending-Accounts_example :
    Accounts
      (buffer (token ∷ stopped ∷ []))
      (enqueue_pending complete (buffer (token ∷ stopped ∷ [])))
enqueue_pending-Accounts_example = enqueue_pending-Accounts complete (buffer (token ∷ stopped ∷ []))

token_is_normal : normal ≤ priority token
unfolding priority inbound_frame_drop_priority get as_string messages_wire_terminal first_map?
token_is_normal = omega arith

-- Of a full buffer with a token and a stopped status the token goes.
enqueue_pending-Protects_example :
    kept (enqueue_pending complete (buffer (token ∷ stopped ∷ []))).pending_events
    ≡ kept (token ∷ stopped ∷ complete ∷ [])
enqueue_pending-Protects_example =
    enqueue_pending-Protects complete (buffer (token ∷ stopped ∷ []))
      (inr (inl (inl token_is_normal)))

abbrev received : Delivery
received = record {
  recv_seq = ("l", 1) ∷ [];
  acked_seq = [];
  tasks = ("l", 1) ∷ [];
  claimed = [];
  sending = [];
  sent = [];
}

abbrev acked : Delivery
acked = record {
  recv_seq = ("l", 1) ∷ [];
  acked_seq = ("l", 1) ∷ [];
  tasks = [];
  claimed = ("l", 1) ∷ [];
  sending = ("l", 1) ∷ [];
  sent = [];
}

track_complete : track_inbound_delivery_ack complete new_delivery ≡ received
unfolding track_inbound_delivery_ack inbound_needs_delivery_ack extract_loop_id_from_inbound
    count_of get as_string trim_space insert lookup
track_complete = refl

run_complete : send_delivery_ack "l" 1 (record received { tasks = [] }) ≡ acked
unfolding send_delivery_ack count_of insert lookup
run_complete = refl

acked_reached : Reach new_delivery acked
acked_reached =
    let first : Reach new_delivery received =
      rw (← track_complete) (next here (receive new_delivery complete)) in
    rw (← run_complete) (next first (run received "l" 1 [] [] refl))

Reach-Inv_example : Inv (notify_ack "l" 1 (record acked { sending = [] }))
Reach-Inv_example = Reach-Inv (next acked_reached (notify acked "l" 1 [] [] refl))

abbrev reader : Reader
reader = record {
  buffer = buffer (complete ∷ token ∷ []);
  delivery = new_delivery;
  incoming = complete ∷ [];
}

-- A label for the stale complete; the token stays.
peel-rotates_example :
    let (labels, after) = peel_stale_pending_control_events reader in
    (labels ≡ (peel_pending reader.buffer.pending_events).0)
    × (after.buffer.pending_events ≡ token ∷ [])
    × (after.delivery ≡ reader.delivery)
    × (after.incoming ≡ reader.incoming)
unfolding peel_pending stale_pending_frame_label cap get as_string
peel-rotates_example = peel-rotates reader token [] refl (omega arith)
