-- ===== src/Inbound/Priority.antt =====
-- Drop priorities against delivery acknowledgements, and the fuel of the recursion.
use soothe_client_go.Prelude.{
  ℕ, zero, suc, ◌<◌, ◌≡◌, refl, true, false, some, ◌==◌, eq_iff, inl, inr, Bool-cases, arith,
}
use soothe_client_go.Json.{Value, Fields, get, text_of}
use soothe_client_go.Json.Size.{size_fields, size-obj}
use soothe_client_go.Stream.{
  needs_ack_from_event_shape, needs_ack_in_payload, inbound_needs_delivery_ack,
}
use soothe_client_go.Inbound.{
  critical, plain_priority, next_priority, frame_drop_priority, inbound_frame_drop_priority,
}

shape_critical :
    (event : Fields)
    → needs_ack_from_event_shape event ≡ true
    → plain_priority "event" event ≡ critical
unfolding needs_ack_from_event_shape plain_priority
shape_critical event h =
    let mode = text_of "mode" event in
    ground (arith, eq_iff mode "custom", eq_iff mode "messages", eq_iff "custom" "messages")

event_critical :
    (fuel : ℕ) (event : Fields)
    → text_of "type" event ≡ "event"
    → needs_ack_from_event_shape event ≡ true
    → frame_drop_priority (suc fuel) event ≡ critical
unfolding frame_drop_priority
event_critical fuel event e h = rw e (shape_critical event h)

payload_critical :
    (fuel : ℕ) (event payload : Fields) (data' : Value)
    → get "data" payload ≡ data'
    → ((inner : Fields) → data' ≡ Value.obj inner → text_of "type" inner ≡ "event")
    → needs_ack_in_payload (Value.obj payload) ≡ true
    → next_priority (frame_drop_priority (suc fuel)) event (Value.obj payload) ≡ critical
unfolding needs_ack_in_payload next_priority
payload_critical fuel event payload (Value.obj inner) e wrapped h = rw e (
    ground (
      arith,
      rw (e, needs_ack_in_payload) at h,
      λ (n : needs_ack_from_event_shape inner ≡ true).
          event_critical fuel inner (wrapped inner refl) n,
    ))
payload_critical fuel event payload _ e wrapped h = cc (rw (e, needs_ack_in_payload) at h)

next_critical :
    (fuel : ℕ) (event : Fields) (payload : Value)
    → get "payload" event ≡ payload
    → ((p inner : Fields)
        → get "payload" event ≡ Value.obj p
        → get "data" p ≡ Value.obj inner
        → text_of "type" inner ≡ "event")
    → needs_ack_in_payload payload ≡ true
    → next_priority (frame_drop_priority (suc fuel)) event payload ≡ critical
next_critical fuel event (Value.obj payload) e wrapped h =
    payload_critical fuel event payload (get "data" payload) refl
      (λ inner i. wrapped payload inner e i) h
next_critical fuel event _ e wrapped h = unfold needs_ack_in_payload in cc

complete_critical : (event : Fields) → plain_priority "complete" event ≡ critical
unfolding plain_priority
complete_critical event = refl

-- A frame that wants a delivery acknowledgement is never a candidate for dropping: its priority is
-- critical. For a `next` frame around an inner frame this asks that the inner frame has the type
-- `event`, as the daemon's frames have.
pub inbound_frame_drop_priority-critical :
    (event : Fields)
    → inbound_needs_delivery_ack event ≡ true
    → ((p inner : Fields)
        → get "payload" event ≡ Value.obj p
        → get "data" p ≡ Value.obj inner
        → text_of "type" inner ≡ "event")
    → inbound_frame_drop_priority (some event) ≡ critical
unfolding inbound_needs_delivery_ack inbound_frame_drop_priority
inbound_frame_drop_priority-critical event h wrapped =
    let t = text_of "type" event in
    elim (Bool-cases (t == "complete")) [
      | inl e ↦ rw ((eq_iff t "complete").0 e) (complete_critical event)
      | inr not_complete ↦ elim (Bool-cases (t == "next")) [
        | inl e ↦ rw ((eq_iff t "next").0 e) (
            next_critical (size_fields event) event (get "payload" event) refl wrapped
              (rw (not_complete, e) at h))
        | inr not_next ↦ elim (Bool-cases (t == "event")) [
          | inl e ↦
              event_critical (suc (size_fields event)) event ((eq_iff t "event").0 e)
                (rw (not_complete, not_next, e) at h)
          | inr not_event ↦ cc (rw (not_complete, not_next, not_event) at h)
        ]
      ]
    ]

next_priority-cong :
    (f g : Fields → ℕ) (event : Fields) (payload : Value)
    → ((p inner : Fields)
        → payload ≡ Value.obj p
        → get "data" p ≡ Value.obj inner
        → f inner ≡ g inner)
    → next_priority f event payload ≡ next_priority g event payload
unfolding next_priority
next_priority-cong f g event (Value.obj p) same = go (get "data" p) refl
  where
    go :
        (d : Value)
        → get "data" p ≡ d
        → next_priority f event (Value.obj p) ≡ next_priority g event (Value.obj p)
    go (Value.obj inner) e = rw e (rw (same p inner refl e))
    go _ e = rw e
next_priority-cong f g event _ same = refl

-- More fuel than the size of a frame never changes its drop priority.
frame_drop_priority-fuel :
    (m n : ℕ) (event : Fields)
    → size_fields event < m
    → size_fields event < n
    → frame_drop_priority m event ≡ frame_drop_priority n event
unfolding frame_drop_priority
frame_drop_priority-fuel zero n event h k = absurd (omega arith)
frame_drop_priority-fuel (suc m) zero event h k = absurd (omega arith)
frame_drop_priority-fuel (suc m) (suc n) event h k = rw (
    next_priority-cong (frame_drop_priority m) (frame_drop_priority n) event (get "payload" event)
      (λ p inner e i.
        let deeper = size-obj "data" p inner i in
        let deep = size-obj "payload" event p e in
        frame_drop_priority-fuel m n inner (omega (arith, deep, deeper))
          (omega (arith, deep, deeper))))

-- The recursion of the code ends by itself: a `next` frame around an inner frame that carries no
-- messages and is no `complete` has exactly the priority of the inner frame, at any depth.
pub inbound_frame_drop_priority-next :
    (event payload inner : Fields)
    → text_of "type" event ≡ "next"
    → get "payload" event ≡ Value.obj payload
    → get "data" payload ≡ Value.obj inner
    → (text_of "mode" payload == "messages") ≡ false
    → (text_of "type" payload == "complete") ≡ false
    → inbound_frame_drop_priority (some event) ≡ inbound_frame_drop_priority (some inner)
unfolding inbound_frame_drop_priority next_priority
inbound_frame_drop_priority-next event payload inner t p d m c =
    let deeper = size-obj "data" payload inner d in
    let deep = size-obj "payload" event payload p in
    rw (t, p)
      (rw (d, m, c)
        (frame_drop_priority-fuel (suc (size_fields event)) (suc (suc (size_fields inner))) inner
          (omega (arith, deep, deeper)) (omega arith)))
