-- ===== src/Client/Buffer.antt =====
-- client.go: the buffer of pending frames with its cap and its priority-aware drop.
pub mod Bounds
pub mod Protection
use soothe_client_go.Prelude.{
  ℕ, zero, suc, ◌+◌, Bool, true, false, ◌&&◌, Option, none, some, List, [], ◌∷◌, ◌++◌, length, ltb,
  leb, eqb, if◌then◌else◌,
}
use soothe_client_go.Json.{Fields}
use soothe_client_go.Inbound.{normal, inbound_frame_drop_priority}

-- DefaultInboundMaxSize
abbrev pub default_inbound_max_size : ℕ
default_inbound_max_size = 20000

-- The fields of Client that hold the pending frames. `degraded_calls` counts the calls of the
-- callback that were started.
pub record Buffer : Type 0 where
  pub pending_events : List Fields
  pub inbound_max_size : ℕ
  pub inbound_dropped : ℕ
  pub has_callback : Bool
  pub degraded_calls : ℕ

-- `max`, which is at least 1
unfoldable pub cap : Buffer → ℕ
cap b = if eqb b.inbound_max_size 0 then default_inbound_max_size else b.inbound_max_size

-- noteInboundDropLocked
unfoldable pub note_inbound_drop : Buffer → Buffer
note_inbound_drop b = record b {
  inbound_dropped = b.inbound_dropped + 1;
  degraded_calls =
      if b.has_callback && eqb (b.inbound_dropped + 1) 1
      then b.degraded_calls + 1
      else b.degraded_calls;
}

unfoldable pub priority : Fields → ℕ
priority item = inbound_frame_drop_priority (some item)

-- `if p > dropPri { dropPri = p; dropIdx = i }`; `none` is dropIdx == -1
unfoldable pub better : ℕ → ℕ → Option (ℕ × ℕ) → Option (ℕ × ℕ)
better i p none = some (i, p)
better i p (some (j, q)) = if ltb q p then some (i, p) else some (j, q)

-- The loop over the pending frames.
unfoldable pub drop_scan : List Fields → ℕ → Option (ℕ × ℕ) → Option (ℕ × ℕ)
drop_scan [] i best = best
drop_scan (item ∷ items) i best = drop_scan items (suc i) (better i (priority item) best)

-- `append(l[:i], l[i+1:]...)`
unfoldable pub remove_at : ℕ → List Fields → List Fields
remove_at i [] = []
remove_at zero (x ∷ xs) = xs
remove_at (suc i) (x ∷ xs) = x ∷ remove_at i xs

-- `if len(pending) > 0 { pending = pending[1:]; note }; pending = append(pending, ev)`
unfoldable pub drop_oldest : List Fields → Fields → Buffer → Buffer
drop_oldest [] ev b = record b { pending_events = ev ∷ [] }
drop_oldest (x ∷ xs) ev b = note_inbound_drop (record b { pending_events = xs ++ ev ∷ [] })

-- No normal frame is resident: the incoming frame is dropped if it is normal, else the oldest.
unfoldable pub force_in : Fields → Buffer → Buffer
unfolding note_inbound_drop drop_oldest
force_in ev b =
    if leb normal (priority ev) then note_inbound_drop b else drop_oldest b.pending_events ev b

unfoldable pub make_room : Option (ℕ × ℕ) → Fields → Buffer → Buffer
unfolding force_in
make_room none ev b = force_in ev b
make_room (some (i, p)) ev b =
    if leb normal p
    then note_inbound_drop (record b { pending_events = remove_at i b.pending_events ++ ev ∷ [] })
    else force_in ev b

-- enqueuePendingLocked
unfoldable pub enqueue_pending : Fields → Buffer → Buffer
unfolding cap make_room
enqueue_pending ev b =
    if ltb (length b.pending_events) (cap b)
    then record b { pending_events = b.pending_events ++ ev ∷ [] }
    else make_room (drop_scan b.pending_events 0 none) ev b

-- PushPendingEvent; `none` is a nil map
unfoldable pub push_pending_event : Option Fields → Buffer → Buffer
unfolding enqueue_pending
push_pending_event none b = b
push_pending_event (some ev) b = enqueue_pending ev b

-- SetInboundMaxSize, for an argument that is not negative
unfoldable pub set_inbound_max_size : ℕ → Buffer → Buffer
set_inbound_max_size n b = if ltb 0 n then record b { inbound_max_size = n } else b

-- SetStreamDegradedCallback, by whether the callback is one or nil
unfoldable pub set_stream_degraded_callback : Bool → Buffer → Buffer
set_stream_degraded_callback is_set b = record b { has_callback = is_set }
