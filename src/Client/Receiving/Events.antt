-- ===== src/Client/Receiving/Events.antt =====
-- client.go: what ReceiveMessages makes of the messages that come, as an account that is kept over its steps.
use mathlib.Core.List.{append_assoc, append-nil}
use soothe_client_go.Prelude.{
  ◌≡◌, refl, sym, ap, ◌∙◌, Bool, false, Option, none, some, List, [], ◌∷◌, ◌++◌, ◌==◌, ◌||◌,
  if◌then◌else◌,
}
use soothe_client_go.Protocol.{Message, envelope}
use soothe_client_go.Protocol.Encoding.{encode_message}
use soothe_client_go.Multiplexer.{Mux, route}
use soothe_client_go.Client.Delivery.{Delivery, track_inbound_delivery_ack}
use soothe_client_go.Client.Receiving.{Receiver, Standing, going}

-- What comes to the reader: a message, or a change that another goroutine makes of the waiters
pub data Event : Type 0 where
  came : Message → Event
  changed : (Mux → Mux) → Event

abbrev pub came_all : List Message → List Event
came_all [] = []
came_all (m ∷ ms) = came m ∷ came_all ms

-- A protocol frame, which the client answers or takes note of itself
abbrev pub is_control : Message → Bool
is_control (envelope m) = m.type' == "ping" || m.type' == "pong" || m.type' == "disconnect"
is_control _ = false

-- The waiters behind an event: a message that is no control frame is offered to them.
abbrev pub offered : Event → Mux → Mux
offered (came m) mux = if is_control m then mux else (route (encode_message m) mux).1
offered (changed f) mux = f mux

-- The message of an event that no waiter takes
abbrev pub left_over : Event → Mux → List Message
left_over (came m) mux =
    if is_control m then [] else if (route (encode_message m) mux).0 then [] else m ∷ []
left_over (changed f) mux = []

unfoldable pub offered_all : List Event → Mux → Mux
offered_all [] mux = mux
offered_all (e ∷ es) mux = offered_all es (offered e mux)

unfoldable pub left_over_all : List Event → Mux → List Message
left_over_all [] mux = []
left_over_all (e ∷ es) mux = left_over e mux ++ left_over_all es (offered e mux)

-- Each message is counted for an acknowledgement, in their order.
unfoldable pub count_all : List Message → Delivery → Delivery
count_all [] d = d
count_all (m ∷ ms) d = count_all ms (track_inbound_delivery_ack (encode_message m) d)

abbrev pub one : Option Message → List Message
one none = []
one (some m) = m ∷ []

-- Of the events only a first part is heard where the reader ends. The messages heard that are neither
-- control frames nor taken by a waiter are sent on the channel in their order, and counted; the last of
-- them may be counted and lost.
pub record Accounts (events : List Event) (r : Receiver) (out : Standing × Receiver) : Type 0 where
  pub heard : List Event
  pub unheard : List Event
  pub fresh : List Message
  pub lost : Option Message
  pub all : events ≡ heard ++ unheard
  pub mux_is : out.1.client.mux ≡ offered_all heard r.client.mux
  pub left_is : fresh ++ one lost ≡ left_over_all heard r.client.mux
  pub out_is : out.1.out ≡ r.out ++ fresh
  pub counted_is : out.1.delivery ≡ count_all (fresh ++ one lost) r.delivery
  pub whole : out.0 ≡ going → (unheard ≡ []) × (lost ≡ none)

offered_all-append :
    (xs ys : List Event) (m : Mux) → offered_all (xs ++ ys) m ≡ offered_all ys (offered_all xs m)
unfolding offered_all
offered_all-append [] ys m = refl
offered_all-append (x ∷ xs) ys m = offered_all-append xs ys (offered x m)

left_over_all-append :
    (xs ys : List Event) (m : Mux)
    → left_over_all (xs ++ ys) m ≡ left_over_all xs m ++ left_over_all ys (offered_all xs m)
unfolding left_over_all offered_all
left_over_all-append [] ys m = refl
left_over_all-append (x ∷ xs) ys m =
    ap (◌++◌ (left_over x m)) (left_over_all-append xs ys (offered x m)) ∙ simp append_assoc

count_all-append :
    (xs ys : List Message) (d : Delivery) → count_all (xs ++ ys) d ≡ count_all ys (count_all xs d)
unfolding count_all
count_all-append [] ys d = refl
count_all-append (x ∷ xs) ys d =
    count_all-append xs ys (track_inbound_delivery_ack (encode_message x) d)

-- Nothing was lost on the way to a reader that goes on.
module _ {xs : List Event} {r r' : Receiver} (first : Accounts xs r (going, r')) where
  heard_all : first.heard ≡ xs
  heard_all = sym (first.all ∙ ap (◌++◌ first.heard) (first.whole refl).0 ∙ append-nil first.heard)

  kept_all : first.fresh ++ one first.lost ≡ first.fresh
  kept_all = ap (λ l. first.fresh ++ one l) (first.whole refl).1 ∙ append-nil first.fresh

  pub then_Accounts :
      (ys : List Event) (out : Standing × Receiver) → Accounts ys r' out → Accounts (xs ++ ys) r out
  then_Accounts ys out next = record {
    heard = first.heard ++ next.heard;
    unheard = next.unheard;
    fresh = first.fresh ++ next.fresh;
    lost = next.lost;
    all =
        ap (λ l. l ++ ys) (sym heard_all)
        ∙ ap (◌++◌ first.heard) next.all
        ∙ sym (append_assoc first.heard next.heard next.unheard);
    mux_is =
        next.mux_is
        ∙ ap (offered_all next.heard) first.mux_is
        ∙ sym (offered_all-append first.heard next.heard r.client.mux);
    left_is =
        append_assoc first.fresh next.fresh (one next.lost)
        ∙ ap (◌++◌ first.fresh) (next.left_is ∙ ap (left_over_all next.heard) first.mux_is)
        ∙ ap (λ l. l ++ left_over_all next.heard (offered_all first.heard r.client.mux))
            (sym kept_all ∙ first.left_is)
        ∙ sym (left_over_all-append first.heard next.heard r.client.mux);
    out_is =
        next.out_is
        ∙ ap (λ l. l ++ next.fresh) first.out_is
        ∙ append_assoc r.out first.fresh next.fresh;
    counted_is =
        next.counted_is
        ∙ ap (count_all (next.fresh ++ one next.lost))
            (first.counted_is ∙ ap (λ l. count_all l r.delivery) kept_all)
        ∙ sym (count_all-append first.fresh (next.fresh ++ one next.lost) r.delivery)
        ∙ ap (λ l. count_all l r.delivery)
            (sym (append_assoc first.fresh next.fresh (one next.lost)));
    whole = next.whole;
  }

-- What comes behind the end is not heard.
pub ended_Accounts :
    {xs : List Event} {r : Receiver} (ys : List Event) (out : Standing × Receiver)
    → (out.0 ≡ going → ⊥)
    → Accounts xs r out
    → Accounts (xs ++ ys) r out
ended_Accounts ys out ended a = record {
  heard = a.heard;
  unheard = a.unheard ++ ys;
  fresh = a.fresh;
  lost = a.lost;
  all = ap (λ l. l ++ ys) a.all ∙ append_assoc a.heard a.unheard ys;
  mux_is = a.mux_is;
  left_is = a.left_is;
  out_is = a.out_is;
  counted_is = a.counted_is;
  whole = λ g. absurd (ended g);
}
