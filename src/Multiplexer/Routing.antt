-- ===== src/Multiplexer/Routing.antt =====
-- Which waiter gets a frame.
use soothe_client_go.Prelude.{
  ℕ, suc, ◌≤◌, String, ◌≡◌, ◌≢◌, refl, ap, ◌∙◌, Bool, true, false, Option, none, some, List, [],
  ◌∷◌, length, length-append, ◌||◌, ◌==◌, eq_refl, ne→==, arith, eqb, lookup, insert, lookup-insert,
  Bool-cases, Option-cases, inl, inr, if_cases, then_case,
}
use soothe_client_go.Json.{Fields, text_of}
use soothe_client_go.Multiplexer.{
  PendingSubscription, Mux, set_at, register_rpc, register_subscription, unregister_subscription,
  delete_own, unregister_rpc, offer_within, deliver_call, deliver_stream, deliver_receipt,
  to_waiter, route, result_of,
}

-- A frame for which nobody waits is not taken: it goes on to the application, and the mux stays.
pub route-unmatched :
    (frame : Fields) (m : Mux)
    → lookup (text_of "id" frame) m.rpcs ≡ none
    → lookup (text_of "id" frame) m.subs ≡ none
    → lookup (text_of "receipt" frame) m.receipts ≡ none
    → route frame m ≡ (false, m)
unfolding route to_waiter
route-unmatched frame m r s p = rw (r, s, p) (ground arith)

-- A property of the mux that a delivery to the waiter of the id keeps is kept by each case of route.
pub to_waiter-keeps :
    (P : Mux → Type 0) (id : String) (entries : List (String × ℕ)) (deliver : ℕ → Mux → Mux)
    (m : Mux)
    → ((w : ℕ) → lookup id entries ≡ some w → P (deliver w m))
    → P m
    → P (to_waiter id entries deliver m).1
unfolding to_waiter
to_waiter-keeps P id entries deliver m kept here =
    if_cases (λ (r : Bool × Mux). P r.1) (id == "") (false, m) _ (λ _. here)
      (λ _. elim (Option-cases (lookup id entries)) [
        | inl e ↦ rw e here
        | inr (w, e) ↦ rw e (kept w e)
      ])

route-keeps :
    (P : Mux → Type 0) (frame : Fields) (m : Mux)
    → ((w : ℕ)
        → lookup (text_of "id" frame) m.rpcs ≡ some w
        → P (deliver_call (text_of "type" frame) frame w m))
    → ((w : ℕ) → lookup (text_of "id" frame) m.subs ≡ some w → P (deliver_stream frame w m))
    → ((w : ℕ) → P (deliver_receipt frame w m))
    → P m
    → P (route frame m).1
unfolding route
route-keeps P frame m calls streams channels here =
    let typ = text_of "type" frame in
    let Q = λ (r : Bool × Mux). P r.1 in
    if_cases Q (typ == "response" || typ == "error") _ _
      (λ _. to_waiter-keeps P (text_of "id" frame) m.rpcs (deliver_call typ frame) m calls here)
      (λ _.
        if_cases Q (typ == "next" || typ == "complete") _ _
          (λ _. to_waiter-keeps P (text_of "id" frame) m.subs (deliver_stream frame) m streams here)
          (λ _.
            if_cases Q (typ == "receipt_response") _ _
              (λ _.
                to_waiter-keeps P (text_of "receipt" frame) m.receipts (deliver_receipt frame) m
                  (λ w _. channels w) here)
              (λ _. here)))

set_at-other {ℓ} :
    {A : Type ℓ} (w h : ℕ) (x : A) (f : ℕ → A) → eqb w h ≡ false → set_at w x f h ≡ f h
set_at-other w h x f e = rw e refl

apart : (found : Option ℕ) (w h : ℕ) → found ≢ some h → found ≡ some w → eqb w h ≡ false
apart found w h other e = elim (Bool-cases (eqb w h)) [
  | inl same ↦ absurd (other (e ∙ ap some (ground (arith, same))))
  | inr differ ↦ differ
]

-- A frame reaches at most the waiter that is registered under its id: every other call keeps its
-- reply and its error, and every other subscription its frames.
pub route-isolates :
    (frame : Fields) (m : Mux) (h i : ℕ)
    → lookup (text_of "id" frame) m.rpcs ≢ some h
    → lookup (text_of "id" frame) m.subs ≢ some i
    → ((route frame m).1.calls h ≡ m.calls h) × ((route frame m).1.streams i ≡ m.streams i)
unfolding deliver_call deliver_stream deliver_receipt
route-isolates frame m h i rpc sub =
    route-keeps (λ (n : Mux). (n.calls h ≡ m.calls h) × (n.streams i ≡ m.streams i)) frame m
      (λ w e. (set_at-other w h _ m.calls (apart _ w h rpc e), refl))
      (λ w e.
        if_cases (λ (n : Mux). (n.calls h ≡ m.calls h) × (n.streams i ≡ m.streams i))
          (m.streams w).done m _ (λ _. (refl, refl))
          (λ _. (refl, set_at-other w i _ m.streams (apart _ w i sub e))))
      (λ w. (refl, refl)) (refl, refl)

-- No subscription holds more than its channel has room for.
abbrev pub Bounded : Mux → Type 0
Bounded m = (h : ℕ) → length (m.streams h).frames ≤ 16

offer_within-bound :
    (capacity : ℕ) (queue : List Fields) (x : Fields)
    → length queue ≤ capacity
    → length (offer_within capacity queue x) ≤ capacity
unfolding offer_within
offer_within-bound capacity queue x h = ground (arith, length-append queue (x ∷ []))

set_at-Bounded :
    (w : ℕ) (sub : PendingSubscription) (f : ℕ → PendingSubscription)
    → length sub.frames ≤ 16
    → ((h : ℕ) → length (f h).frames ≤ 16)
    → (h : ℕ) → length (set_at w sub f h).frames ≤ 16
set_at-Bounded w sub f own others h =
    if_cases (λ (s : PendingSubscription). length s.frames ≤ 16) (eqb w h) sub (f h) (λ _. own)
      (λ _. others h)

-- The channel of a subscription never holds more than 16 frames: routing keeps that, and so do
-- registering and unregistering.
pub route-Bounded :
    (frame : Fields) (id : String) (w : ℕ) (m : Mux)
    → Bounded m
    → Bounded (route frame m).1
      × Bounded (register_subscription id m).1
      × Bounded (unregister_subscription id w m)
unfolding deliver_call deliver_stream deliver_receipt register_subscription unregister_subscription
route-Bounded frame id w m v = (
  route-keeps Bounded frame m (λ _ _. v)
      (λ u _.
        if_cases Bounded (m.streams u).done m _ (λ _. v)
          (λ _.
            set_at-Bounded u _ m.streams (offer_within-bound 16 (m.streams u).frames frame (v u))
              v))
      (λ _. v) v,
  set_at-Bounded m.stream_count _ m.streams (omega arith) v,
  set_at-Bounded w _ m.streams (v w) v,
)

is_answer : (typ : String) → typ ≡ "response" → (typ == "response" || typ == "error") ≡ true
is_answer typ t = rw t refl

pub to_waiter-found :
    (id : String) (entries : List (String × ℕ)) (deliver : ℕ → Mux → Mux) (m : Mux) (w : ℕ)
    → (id == "") ≡ false
    → lookup id entries ≡ some w
    → to_waiter id entries deliver m ≡ (true, deliver w m)
unfolding to_waiter
to_waiter-found id entries deliver m w named found = rw (named, found) refl

pub route_response :
    (frame : Fields) (m : Mux) (w : ℕ)
    → text_of "type" frame ≡ "response"
    → (text_of "id" frame == "") ≡ false
    → lookup (text_of "id" frame) m.rpcs ≡ some w
    → route frame m ≡ (true, deliver_call (text_of "type" frame) frame w m)
unfolding route
route_response frame m w t named found =
    let typ = text_of "type" frame in
    then_case (typ == "response" || typ == "error") _ _ (is_answer typ t)
    ∙ to_waiter-found (text_of "id" frame) m.rpcs (deliver_call typ frame) m w named found

delete_own-other :
    (id : String) (w : ℕ) (entries : List (String × ℕ)) (cur : ℕ)
    → lookup id entries ≡ some cur
    → eqb cur w ≡ false
    → delete_own id w entries ≡ entries
unfolding delete_own
delete_own-other id w entries cur e other = rw (e, delete_own) (rw other refl)

-- When an id is registered twice, the waiter that came first gives up only what is its own: after
-- it has unregistered, a response under the id still goes to the second waiter, and only to it.
pub register_rpc-again :
    (id : String) (frame : Fields) (m : Mux)
    → id ≢ ""
    → text_of "type" frame ≡ "response"
    → text_of "id" frame ≡ id
    → let (first, once) = register_rpc id m in
      let (second, twice) = register_rpc id once in
      let (taken, after) = route frame (unregister_rpc id first twice) in
      (taken ≡ true)
      × ((after.calls second).reply ≡ some (result_of frame))
      × ((after.calls first).reply ≡ none)
unfolding register_rpc
register_rpc-again id frame m named t i =
    let n = m.call_count in
    let entries = insert id (suc n) (insert id n m.rpcs) in
    let there : lookup id entries ≡ some (suc n) =
      lookup-insert id id (suc n) (insert id n m.rpcs) ∙ rw eq_refl refl in
    let kept : delete_own id n entries ≡ entries =
      delete_own-other id n entries (suc n) there (ground arith) in
    let self : (k : ℕ) → eqb k k ≡ true = λ k. ground arith in
    let behind : eqb (suc n) n ≡ false = ground arith in
    let twice = (register_rpc id (register_rpc id m).1).1 in
    let routed =
      route_response frame (unregister_rpc id n twice) (suc n) t (rw i (ne→== id "" named))
        (rw i (unfold unregister_rpc in rw kept there)) in
    rw routed (
      unfold deliver_call unregister_rpc in rw (t, self (suc n), self n, behind) (refl, refl, refl))
