-- ===== src/Client/Reading.antt =====
-- client.go: reading events, and the peeling of stale frames before a turn.
pub mod Peeling
use soothe_client_go.Prelude.{
  ℕ, zero, suc, String, Bool, true, false, not, Option, none, some, List, [], ◌∷◌, ◌++◌, ◌==◌,
  if◌then◌else◌,
}
use soothe_client_go.Json.{Fields}
use soothe_client_go.Stream.{stale_pending_frame_label}
use soothe_client_go.Client.Buffer.{Buffer, enqueue_pending}
use soothe_client_go.Client.Delivery.{Delivery, track_inbound_delivery_ack}

-- The reading side of a client. `incoming` are the frames that the socket gives, decoded and not
-- taken by a waiter, each before the deadline of the read that takes it; where there is none, a
-- read gives nothing: it times out, or the connection is closed.
pub record Reader : Type 0 where
  pub buffer : Buffer
  pub delivery : Delivery
  pub incoming : List Fields

track : Fields → Reader → Reader
track ev c = record c { delivery = track_inbound_delivery_ack ev c.delivery }

read_socket : List Fields → Reader → Option Fields × Reader
unfolding track
read_socket [] c = (none, c)
read_socket (ev ∷ rest) c = (some ev, track ev (record c { incoming = rest }))

read_pending : List Fields → Reader → Option Fields × Reader
unfolding track read_socket
read_pending [] c = read_socket c.incoming c
read_pending (ev ∷ rest) c =
    (some ev, track ev (record c { buffer = record (c.buffer) { pending_events = rest } }))

-- ReadEvent
unfoldable pub read_event : Reader → Option Fields × Reader
unfolding read_pending
read_event c = read_pending c.buffer.pending_events c

-- A pending frame is handed out here without being counted for an acknowledgement.
read_before : List Fields → Reader → Option Fields × Reader
unfolding read_event
read_before [] c = read_event c
read_before (ev ∷ rest) c =
    (some ev, record c { buffer = record (c.buffer) { pending_events = rest } })

-- ReadEventWithTimeout
unfoldable pub read_event_with_timeout : Reader → Option Fields × Reader
unfolding read_before
read_event_with_timeout c = read_before c.buffer.pending_events c

-- The labels of the stale frames among the pending ones, and the frames that stay.
unfoldable pub peel_pending : List Fields → List String × List Fields
peel_pending [] = ([], [])
peel_pending (ev ∷ evs) =
    let (peeled, stay) = peel_pending evs in
    let label = stale_pending_frame_label ev in
    if not (label == "") then (label ∷ peeled, stay) else (peeled, ev ∷ stay)

-- The loop of eight live reads, with the labels peeled so far.
unfoldable pub peel_live : ℕ → List String → Reader → List String × Reader
peel_live zero peeled c = (peeled, c)
peel_live (suc rounds) peeled c =
    let (found, c') = read_event_with_timeout c in
    elim found [
      | none ↦ (peeled, c')
      | some ev ↦
          let label = stale_pending_frame_label ev in
          let again = peel_live rounds (peeled ++ label ∷ []) c' in
          if not (label == "")
          then again
          else (peeled, record c' { buffer = enqueue_pending ev (c'.buffer) })
    ]

-- PeelStalePendingControlEvents
unfoldable pub peel_stale_pending_control_events : Reader → List String × Reader
unfolding peel_pending peel_live read_event_with_timeout
peel_stale_pending_control_events c =
    let (peeled, stay) = peel_pending c.buffer.pending_events in
    peel_live 8 peeled (record c { buffer = record (c.buffer) { pending_events = stay } })
