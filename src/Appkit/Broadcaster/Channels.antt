-- ===== src/Appkit/Broadcaster/Channels.antt =====
-- appkit/broadcaster.go: no channel is closed twice, and none is used behind its end.
use soothe_client_go.Prelude.{
  ℕ, suc, ◌+◌, ◌≤◌, String, ◌≡◌, refl, ap, Option, none, some, List, [], ◌∷◌, ◌++◌, arith, lookup,
  eqb, inl, inr, Bool-cases, Distinct, delete-Distinct, insert-Distinct, if◌then◌else◌,
}
use soothe_client_go.Appkit.Broadcaster.{
  SseEvent, Channel, Broadcaster, new_sse_broadcaster, subs_or_none, subscribe, drop_channel,
  put_subs, unsubscribe_from, unsubscribe, offer_all, broadcast_to, broadcast, chans_of, close_for,
  close, all_chans, close_all,
}
use soothe_client_go.Appkit.Broadcaster.Counts.{
  occurs, occurs-append, chans_of-append, chans_of-offer_all, drop_channel-occurs, under,
  count-insert, count-delete, seen, Inv,
}

new_sse_broadcaster-Inv : Inv new_sse_broadcaster
unfolding occurs
new_sse_broadcaster-Inv = (record { lower = tt }, λ c. omega arith, λ c h. omega arith)

-- What keeps the keys, the next number and the sight of every channel keeps the invariant.
same-Inv :
    (b b' : Broadcaster)
    → Inv b
    → Distinct b'.subscribers
    → ((c : ℕ) → seen c b' ≡ seen c b)
    → b'.next_chan ≡ b.next_chan
    → Inv b'
same-Inv b b' (d, once, later) d' same next = (
  d',
  λ c. omega (arith, same c, once c),
  λ c h. omega (arith, same c, later c (omega (arith, h, next))),
)

subscribe-seen :
    (c : ℕ) (key : String) (b : Broadcaster)
    → seen c (subscribe key b).1 ≡ seen c b + (if eqb b.next_chan c then 1 else 0)
unfolding subscribe occurs
subscribe-seen c key b =
    let subs = subs_or_none (lookup key b.subscribers) in
    let new : List Channel = record { chan = b.next_chan; queue = [] } ∷ [] in
    omega (
      arith,
      count-insert c key (subs ++ new) b.subscribers,
      ap (occurs c) (chans_of-append subs new),
      occurs-append c (chans_of subs) (b.next_chan ∷ []),
    )

one_more : (next c n : ℕ) → n ≤ 1 → (next ≤ c → n ≡ 0) → n + (if eqb next c then 1 else 0) ≤ 1
one_more next c n once later = elim (Bool-cases (eqb next c)) [
  | inl e ↦ rw e (omega (arith, later (ground arith)))
  | inr e ↦ rw e (omega arith)
]

none_more : (next c n : ℕ) → suc next ≤ c → n ≡ 0 → n + (if eqb next c then 1 else 0) ≡ 0
none_more next c n h later = elim (Bool-cases (eqb next c)) [
  | inl e ↦ ground arith
  | inr e ↦ rw e (omega arith)
]

subscribe-Inv : (key : String) (b : Broadcaster) → Inv b → Inv (subscribe key b).1
unfolding subscribe
subscribe-Inv key b (d, once, later) =
    let subs = subs_or_none (lookup key b.subscribers) in
    (
      insert-Distinct key (subs ++ record { chan = b.next_chan; queue = [] } ∷ []) b.subscribers d,
      λ c. rw (subscribe-seen c key b) (one_more b.next_chan c (seen c b) (once c) (later c)),
      λ c h.
          rw (subscribe-seen c key b)
            (none_more b.next_chan c (seen c b) h (later c (omega arith))),
    )

put_subs-count :
    (c : ℕ) (key : String) (subs : List Channel) (m : List (String × List Channel))
    → Distinct m
    → occurs c (all_chans (put_subs key subs m)) + occurs c (chans_of (subs_or_none (lookup key m)))
      ≡ occurs c (all_chans m) + occurs c (chans_of subs)
unfolding put_subs occurs
put_subs-count c key [] m d = omega (arith, count-delete c key m d)
put_subs-count c key (s ∷ subs) m d = count-insert c key (s ∷ subs) m

put_subs-Distinct :
    (key : String) (subs : List Channel) (m : List (String × List Channel))
    → Distinct m
    → Distinct (put_subs key subs m)
unfolding put_subs
put_subs-Distinct key [] m d = delete-Distinct key m d
put_subs-Distinct key (s ∷ subs) m d = insert-Distinct key (s ∷ subs) m d

unsubscribe_from-Inv :
    (found : Option (List Channel)) (key : String) (ch : ℕ) (b : Broadcaster)
    → Inv b
    → lookup key b.subscribers ≡ found
    → Inv (unsubscribe_from found key ch b)
unfolding unsubscribe_from
unsubscribe_from-Inv none key ch b inv h = inv
unsubscribe_from-Inv (some subs) key ch b inv h =
    same-Inv b (unsubscribe_from (some subs) key ch b) inv
      (put_subs-Distinct key (drop_channel ch subs).0 b.subscribers inv.0)
      (λ c. omega (
        arith,
        put_subs-count c key (drop_channel ch subs).0 b.subscribers inv.0,
        drop_channel-occurs c ch subs,
        occurs-append c (drop_channel ch subs).1 b.closed,
        ap (under c) h,
      ))
      refl

broadcast_to-Inv :
    (found : Option (List Channel)) (key : String) (ev : SseEvent) (b : Broadcaster)
    → Inv b
    → lookup key b.subscribers ≡ found
    → Inv (broadcast_to found key ev b)
unfolding broadcast_to
broadcast_to-Inv none key ev b inv h = inv
broadcast_to-Inv (some subs) key ev b inv h =
    same-Inv b (broadcast_to (some subs) key ev b) inv
      (insert-Distinct key (offer_all ev subs) b.subscribers inv.0)
      (λ c. omega (
        arith,
        count-insert c key (offer_all ev subs) b.subscribers,
        ap (occurs c) (chans_of-offer_all ev subs),
        ap (under c) h,
      ))
      refl

close_for-Inv :
    (found : Option (List Channel)) (key : String) (b : Broadcaster)
    → Inv b
    → lookup key b.subscribers ≡ found
    → Inv (close_for found key b)
unfolding close_for
close_for-Inv none key b inv h = inv
close_for-Inv (some subs) key b inv h =
    same-Inv b (close_for (some subs) key b) inv (delete-Distinct key b.subscribers inv.0)
      (λ c. omega (
        arith,
        count-delete c key b.subscribers inv.0,
        occurs-append c (chans_of subs) b.closed,
        ap (under c) h,
      ))
      refl

close_all-Inv : (b : Broadcaster) → Inv b → Inv (close_all b)
unfolding close_all occurs
close_all-Inv b inv =
    same-Inv b (close_all b) inv (record { lower = tt })
      (λ c. omega (arith, occurs-append c (all_chans b.subscribers) b.closed)) refl

-- A call of the broadcaster
pub data Call : Type 0 where
  subscribe_call close_call : (key : String) → Call
  unsubscribe_call : (key : String) (ch : ℕ) → Call
  broadcast_call : (key : String) (ev : SseEvent) → Call
  close_all_call : Call

pub after : Call → Broadcaster → Broadcaster
after (subscribe_call key) b = (subscribe key b).1
after (close_call key) b = close key b
after (unsubscribe_call key ch) b = unsubscribe key ch b
after (broadcast_call key ev) b = broadcast key ev b
after close_all_call b = close_all b

pub after_all : List Call → Broadcaster → Broadcaster
after_all [] b = b
after_all (call ∷ calls) b = after_all calls (after call b)

after-Inv : (call : Call) (b : Broadcaster) → Inv b → Inv (after call b)
unfolding after unsubscribe broadcast close
after-Inv (subscribe_call key) b inv = subscribe-Inv key b inv
after-Inv (close_call key) b inv = close_for-Inv (lookup key b.subscribers) key b inv refl
after-Inv (unsubscribe_call key ch) b inv =
    unsubscribe_from-Inv (lookup key b.subscribers) key ch b inv refl
after-Inv (broadcast_call key ev) b inv =
    broadcast_to-Inv (lookup key b.subscribers) key ev b inv refl
after-Inv close_all_call b inv = close_all-Inv b inv

after_all-Inv : (calls : List Call) (b : Broadcaster) → Inv b → Inv (after_all calls b)
unfolding after_all
after_all-Inv [] b inv = inv
after_all-Inv (call ∷ calls) b inv = after_all-Inv calls (after call b) (after-Inv call b inv)

-- After any calls of a new broadcaster the keys differ, and a channel stands at most once among the
-- open ones and those that were closed: none is closed twice, and none is open behind its end, where an
-- event sent to it would panic. A channel that is still to be made is not among them.
pub after_all-new_sse_broadcaster : (calls : List Call) → Inv (after_all calls new_sse_broadcaster)
after_all-new_sse_broadcaster calls =
    after_all-Inv calls new_sse_broadcaster new_sse_broadcaster-Inv
