-- ===== src/Client/Delivery/Order.antt =====
-- Acknowledgements under every interleaving of the frames and the acknowledging tasks.
use mathlib.Core.List.{Perm, perm_middle, append_assoc}
use mathlib.Core.List.Perm
use soothe_client_go.Prelude.{
  ℕ, zero, suc, ◌+◌, ◌≤◌, ◌<◌, String, ◌≡◌, ◌⊎◌, refl, ap, true, false, List, [], ◌∷◌, ◌++◌, ◌==◌,
  eq_iff, leb, leb→le, arith, insert, if_cases, inl, inr, Bool-cases, subst,
}
use soothe_client_go.Json.{Value, arr, obj, Items, nil, cons, Fields, get, text_of}
use soothe_client_go.Json.Size.{size_fields}
use soothe_client_go.Stream.{inbound_needs_delivery_ack, extract_loop_id_from_inbound}
use soothe_client_go.Client.Delivery.{
  Counters, count_of, Delivery, new_delivery, send_delivery_ack, count_delivery, track_single,
  track_items, track_events, track_fuel, track_inbound_delivery_ack, Step, receive, run, notify,
  notify_ack, Reach, here, next,
}
use soothe_client_go.Client.Delivery.Numbers.{
  count_of-insert, AllWithin, Holds, AllWithin-mono, AllWithin-append, AllWithin-middle,
  Above-within, Holds-append_left, Holds-last, Holds-middle, Inv,
}

count_delivery-Inv : (loop_id : String) (d : Delivery) → Inv d → Inv (count_delivery loop_id d)
unfolding count_delivery
count_delivery-Inv k d v =
    let seq = count_of k d.recv_seq + 1 in
    let recv = insert k seq d.recv_seq in
    let at = λ (j : String). count_of-insert k j seq d.recv_seq in
    let grows : (j : String) → count_of j d.recv_seq ≤ count_of j recv =
      λ j. ground (arith, at j, eq_iff k j) in
    rw (too_new seq (count_of k d.acked_seq) (omega (arith, v.acked_le k))) (record {
      acked_le = λ j. omega (arith, v.acked_le j, grows j);
      tasks_le =
          AllWithin-append recv d.tasks ((k, seq) ∷ [])
            (AllWithin-mono d.recv_seq recv d.tasks grows v.tasks_le)
            (ground (arith, at k, eq_iff k k), tt);
      claimed_le = v.claimed_le;
      increasing = v.increasing;
      notified = v.notified;
      current = λ j. elim (Bool-cases (k == j)) [
        | inl e ↦ rw (at j, e) (inr (rw (← (eq_iff k j).0 e) (Holds-last k seq d.tasks)))
        | inr e ↦ rw (at j, e) (still j (v.current j))
      ];
    })
  where
    too_new : (m n : ℕ) → n < m → leb m n ≡ false
    too_new m n h = ground arith

    still :
        (j : String)
        → (count_of j d.acked_seq ≡ count_of j d.recv_seq) ⊎ Holds j (count_of j d.recv_seq) d.tasks
        → (count_of j d.acked_seq ≡ count_of j d.recv_seq)
          ⊎ Holds j (count_of j d.recv_seq) (d.tasks ++ (k, count_of k d.recv_seq + 1) ∷ [])
    still j (inl h) = inl h
    still j (inr h) = inr (Holds-append_left j (count_of j d.recv_seq) d.tasks _ h)

track_single-Inv : (event : Fields) (d : Delivery) → Inv d → Inv (track_single event d)
unfolding track_single
track_single-Inv event d v =
    let loop_id = extract_loop_id_from_inbound event in
    if_cases Inv (inbound_needs_delivery_ack event) _ d
      (λ _.
        if_cases Inv (loop_id == "") d (count_delivery loop_id d) (λ _. v)
          (λ _. count_delivery-Inv loop_id d v))
      (λ _. v)

module _ (track : Fields → Delivery → Delivery)
    (keeps : (event : Fields) (d : Delivery) → Inv d → Inv (track event d)) where
  track_items-Inv : (items : Items) (d : Delivery) → Inv d → Inv (track_items track items d)
  unfolding track_items
  track_items-Inv nil d v = v
  track_items-Inv (cons (obj m) items) d v = track_items-Inv items (track m d) (keeps m d v)
  track_items-Inv (cons _ items) d v = track_items-Inv items d v

  track_events-Inv : (events : Value) (d : Delivery) → Inv d → Inv (track_events track events d)
  unfolding track_events
  track_events-Inv (arr items) d v = track_items-Inv items d v
  track_events-Inv _ d v = v

track_fuel-Inv : (fuel : ℕ) (event : Fields) (d : Delivery) → Inv d → Inv (track_fuel fuel event d)
unfolding track_fuel
track_fuel-Inv zero event d v = v
track_fuel-Inv (suc fuel) event d v =
    if_cases Inv (text_of "type" event == "event_batch") _ (track_single event d)
      (λ _. track_events-Inv (track_fuel fuel) (track_fuel-Inv fuel) (get "events" event) d v)
      (λ _. track_single-Inv event d v)

pub track_inbound_delivery_ack-Inv :
    (event : Fields) (d : Delivery) → Inv d → Inv (track_inbound_delivery_ack event d)
unfolding track_inbound_delivery_ack
track_inbound_delivery_ack-Inv event d v = track_fuel-Inv (suc (size_fields event)) event d v

module _ (d : Delivery) (k : String) (seq : ℕ) (before after : List (String × ℕ))
    (taken : d.tasks ≡ before ++ (k, seq) ∷ after) (v : Inv d) where
  split_tasks : (seq ≤ count_of k d.recv_seq) × AllWithin d.recv_seq (before ++ after)
  split_tasks =
      AllWithin-middle d.recv_seq before k seq after (subst (AllWithin d.recv_seq) taken v.tasks_le)

  -- What waited for `j` before waits still, unless it was the task that was taken.
  waiting :
      (j : String)
      → (count_of j d.acked_seq ≡ count_of j d.recv_seq)
        ⊎ (((k ≡ j) × (seq ≡ count_of j d.recv_seq))
            ⊎ Holds j (count_of j d.recv_seq) (before ++ after))
  waiting j = elim (v.current j) [
    | inl e ↦ inl e
    | inr h ↦ inr (
        Holds-middle j (count_of j d.recv_seq) before k seq after
          (subst (Holds j (count_of j d.recv_seq)) taken h))
  ]

  old_task-Inv : seq ≤ count_of k d.acked_seq → Inv (record d { tasks = before ++ after })
  old_task-Inv old = record {
    acked_le = v.acked_le;
    tasks_le = split_tasks.1;
    claimed_le = v.claimed_le;
    increasing = v.increasing;
    notified = v.notified;
    current = λ j. elim (waiting j) [
      | inl e ↦ inl e
      | inr (inl (same, top)) ↦
          inl (
            omega (arith, old, top, v.acked_le j, ap (λ (x : String). count_of x d.acked_seq) same))
      | inr (inr h) ↦ inr h
    ];
  }

  at_same : (m : Counters) (j : String) → (k == j) ≡ true → count_of k m ≡ count_of j m
  at_same m j e = ap (λ (x : String). count_of x m) ((eq_iff k j).0 e)

  same_loop :
      (j : String)
      → (k == j) ≡ true
      → count_of k d.acked_seq < seq
      → (count_of j d.acked_seq ≡ count_of j d.recv_seq)
        ⊎ (((k ≡ j) × (seq ≡ count_of j d.recv_seq))
            ⊎ Holds j (count_of j d.recv_seq) (before ++ after))
      → (seq ≡ count_of j d.recv_seq) ⊎ Holds j (count_of j d.recv_seq) (before ++ after)
  same_loop j e newer (inl done) =
      absurd
        (omega (arith, newer, done, split_tasks.0, at_same d.recv_seq j e, at_same d.acked_seq j e))
  same_loop j e newer (inr (inl (same, top))) = inl top
  same_loop j e newer (inr (inr h)) = inr h

  other_loop :
      (j : String)
      → (k == j) ≡ false
      → (count_of j d.acked_seq ≡ count_of j d.recv_seq)
        ⊎ (((k ≡ j) × (seq ≡ count_of j d.recv_seq))
            ⊎ Holds j (count_of j d.recv_seq) (before ++ after))
      → (count_of j d.acked_seq ≡ count_of j d.recv_seq)
        ⊎ Holds j (count_of j d.recv_seq) (before ++ after)
  other_loop j e (inl done) = inl done
  other_loop j e (inr (inl (same, top))) = cc ((eq_iff k j).1 same)
  other_loop j e (inr (inr h)) = inr h

  new_task-Inv :
      count_of k d.acked_seq < seq
      → Inv (record d {
        tasks = before ++ after;
        acked_seq = insert k seq d.acked_seq;
        claimed = (k, seq) ∷ d.claimed;
        sending = (k, seq) ∷ d.sending;
      })
  new_task-Inv newer =
      let acked = insert k seq d.acked_seq in
      let at = λ (j : String). count_of-insert k j seq d.acked_seq in
      let grows : (j : String) → count_of j d.acked_seq ≤ count_of j acked =
        λ j. ground (arith, at j, eq_iff k j) in
      record {
        acked_le = λ j. elim (Bool-cases (k == j)) [
          | inl e ↦ rw (at j, e) (omega (arith, split_tasks.0, at_same d.recv_seq j e))
          | inr e ↦ rw (at j, e) (v.acked_le j)
        ];
        tasks_le = split_tasks.1;
        claimed_le = (
          ground (arith, at k, eq_iff k k),
          AllWithin-mono d.acked_seq acked d.claimed grows v.claimed_le,
        );
        increasing = (Above-within d.acked_seq k seq d.claimed v.claimed_le newer, v.increasing);
        notified = Perm.cons (k, seq) v.notified;
        current = λ j. elim (Bool-cases (k == j)) [
          | inl e ↦ rw (at j, e) (same_loop j e newer (waiting j))
          | inr e ↦ rw (at j, e) (other_loop j e (waiting j))
        ];
      }

  run-Inv : Inv (send_delivery_ack k seq (record d { tasks = before ++ after }))
  unfolding send_delivery_ack
  run-Inv =
      if_cases Inv (leb seq (count_of k d.acked_seq)) (record d { tasks = before ++ after }) _
        (λ old. old_task-Inv (leb→le _ _ old)) (λ new. new_task-Inv (ground arith))

notify-Inv :
    (d : Delivery) (k : String) (seq : ℕ) (before after : List (String × ℕ))
    → d.sending ≡ before ++ (k, seq) ∷ after
    → Inv d
    → Inv (notify_ack k seq (record d { sending = before ++ after }))
unfolding notify_ack
notify-Inv d k seq before after taken v = record {
  acked_le = v.acked_le;
  tasks_le = v.tasks_le;
  claimed_le = v.claimed_le;
  increasing = v.increasing;
  notified =
      Perm.trans (subst (λ l. Perm d.claimed (l ++ d.sent)) taken v.notified)
        (moved before after d.sent);
  current = v.current;
}
  where
    moved :
        (xs ys zs : List (String × ℕ))
        → Perm ((xs ++ (k, seq) ∷ ys) ++ zs) ((xs ++ ys) ++ (k, seq) ∷ zs)
    moved xs ys zs =
        rw (append_assoc xs ((k, seq) ∷ ys) zs, append_assoc xs ys ((k, seq) ∷ zs))
          (Perm.append_left xs (Perm.symm (perm_middle ys zs)))

Step-Inv : {d e : Delivery} → Step d e → Inv d → Inv e
Step-Inv (receive d event) v = track_inbound_delivery_ack-Inv event d v
Step-Inv (run d k seq before after taken) v = run-Inv d k seq before after taken v
Step-Inv (notify d k seq before after taken) v = notify-Inv d k seq before after taken v

new_delivery-Inv : Inv new_delivery
new_delivery-Inv = record {
  acked_le = λ k. omega arith;
  tasks_le = tt;
  claimed_le = tt;
  increasing = tt;
  notified = Perm.refl [];
  current = λ k. inl refl;
}

-- Under every interleaving of incoming frames, tasks that set the counter and tasks that call Notify,
-- from a new client: no counter is ahead of the frames received; the numbers that the tasks set strictly
-- increase for each loop; each of them has had its Notify, or waits for it, exactly once; and each counter
-- is at the last frame of its loop, or a task with the number of that frame waits. The order in which the
-- notifications go out is left open.
pub Reach-Inv : {d : Delivery} → Reach new_delivery d → Inv d
Reach-Inv here = new_delivery-Inv
Reach-Inv (next r step) = Step-Inv step (Reach-Inv r)
