-- ===== src/Client/Receiving/Messages.antt =====
-- client.go: the account of a single message of ReceiveMessages.
use mathlib.Core.List.{append-nil}
use soothe_client_go.Prelude.{
  ℕ, zero, suc, String, List, ◌++◌, ◌≡◌, refl, sym, ◌∙◌, true, false, Option, none, some, [], ◌∷◌,
  Bool-cases, inl, inr, arith, ◌==◌,
}
use soothe_client_go.Protocol.{Message, event, status, envelope, error_response, raw, unknown}
use soothe_client_go.Protocol.Encoding.{encode_message}
use soothe_client_go.Multiplexer.{route}
use soothe_client_go.Client.Delivery.{track_inbound_delivery_ack}
use soothe_client_go.Client.Connection.{
  Client, DisconnectCause, unclean, clean, signal_disconnect, is_connected, send_pong,
  is_control_frame, close_socket, close,
}
use soothe_client_go.Client.Receiving.{
  Receiver, Standing, going, control_of, deliver, forward, take_message,
}
use soothe_client_go.Client.Receiving.Events.{
  Event, came, is_control, offered, left_over, offered_all, left_over_all, count_all, one, Accounts,
}

control_of-control :
    (pong_err : Option String) (m : Message) (c : Client)
    → is_control m ≡ true
    → (control_of pong_err m c).0 ≡ true
unfolding control_of is_control_frame
control_of-control pong_err (envelope m) c e = ground arith
control_of-control pong_err (event m) c e = cc
control_of-control pong_err (status m) c e = cc
control_of-control pong_err (error_response m) c e = cc
control_of-control pong_err (raw m) c e = cc
control_of-control pong_err unknown c e = cc

control_of-other :
    (pong_err : Option String) (m : Message) (c : Client)
    → is_control m ≡ false
    → control_of pong_err m c ≡ (false, c)
unfolding control_of is_control_frame
control_of-other pong_err (envelope m) c e = ground arith
control_of-other pong_err (event m) c e = refl
control_of-other pong_err (status m) c e = refl
control_of-other pong_err (error_response m) c e = refl
control_of-other pong_err (raw m) c e = refl
control_of-other pong_err unknown c e = refl

pub signal_disconnect-mux :
    (cause : DisconnectCause) (c : Client) → (signal_disconnect cause c).mux ≡ c.mux
unfolding signal_disconnect
signal_disconnect-mux cause c = elim (Bool-cases c.once_done) [
  | inl e ↦ rw e refl
  | inr e ↦ rw e refl
]

send_pong-mux : (pong_err : Option String) (c : Client) → (send_pong pong_err c).mux ≡ c.mux
unfolding send_pong
send_pong-mux (some err) c = refl
send_pong-mux none c = elim (Bool-cases (is_connected c)) [ inl e ↦ rw e refl | inr e ↦ rw e refl ]

is_control_frame-mux :
    (pong_err : Option String) (typ : String) (c : Client)
    → (is_control_frame pong_err typ c).1.mux ≡ c.mux
unfolding is_control_frame
is_control_frame-mux pong_err typ c = elim (Bool-cases (typ == "ping")) [
  | inl e ↦ rw e (send_pong-mux pong_err c)
  | inr e ↦ elim (Bool-cases (typ == "pong")) [
    | inl e' ↦ rw (e, e') refl
    | inr e' ↦ elim (Bool-cases (typ == "disconnect")) [
      | inl e'' ↦ rw (e, e', e'') (signal_disconnect-mux clean c)
      | inr e'' ↦ rw (e, e', e'') refl
    ]
  ]
]

control_of-mux :
    (pong_err : Option String) (m : Message) (c : Client) → (control_of pong_err m c).1.mux ≡ c.mux
unfolding control_of
control_of-mux pong_err (envelope m) c = is_control_frame-mux pong_err m.type' c
control_of-mux pong_err (event m) c = refl
control_of-mux pong_err (status m) c = refl
control_of-mux pong_err (error_response m) c = refl
control_of-mux pong_err (raw m) c = refl
control_of-mux pong_err unknown c = refl

close_socket-mux : (socket : Option ℕ) (c : Client) → (close_socket socket c).mux ≡ c.mux
close_socket-mux none c = refl
close_socket-mux (some socket) c = refl

pub close-mux : (c : Client) → (close c).mux ≡ c.mux
unfolding close
close-mux c = elim (Bool-cases (is_connected c)) [
  | inl e ↦ rw e (signal_disconnect-mux unclean _ ∙ close_socket-mux c.conn _)
  | inr e ↦ rw e refl
]

-- The rest of a payload is left out.
abbrev pub standing_of : Standing × Option ℕ × Receiver → Standing × Receiver
standing_of (s, left, r) = (s, r)

-- An event is heard as a whole where the reader has dealt with it.
heard_Accounts :
    (e : Event) (r : Receiver) (out : Standing × Receiver) (fresh : List Message)
    (lost : Option Message)
    → out.1.client.mux ≡ offered e r.client.mux
    → fresh ++ one lost ≡ left_over e r.client.mux
    → out.1.out ≡ r.out ++ fresh
    → out.1.delivery ≡ count_all (fresh ++ one lost) r.delivery
    → (out.0 ≡ going → lost ≡ none)
    → Accounts (e ∷ []) r out
unfolding offered_all left_over_all
heard_Accounts e r out fresh lost mux left sent counted whole = record {
  heard = e ∷ [];
  unheard = [];
  fresh = fresh;
  lost = lost;
  all = refl;
  mux_is = mux;
  left_is = left ∙ sym (append-nil (left_over e r.client.mux));
  out_is = sent;
  counted_is = counted;
  whole = λ g. (refl, whole g);
}

-- Only the waiters and the flags of the client have changed.
pub passed_Accounts :
    (e : Event) (r : Receiver) (c : Client)
    → c.mux ≡ offered e r.client.mux
    → left_over e r.client.mux ≡ []
    → Accounts (e ∷ []) r (going, record r { client = c })
unfolding count_all
passed_Accounts e r c mux left =
    heard_Accounts e r (going, record r { client = c }) [] none mux (sym left)
      (sym (append-nil r.out)) refl (λ g. refl)

-- A message that a client does not take itself
module _ (m : Message) (r : Receiver) (plain : is_control m ≡ false) where
  -- No waiter takes it either.
  deliver-Accounts :
      (room : Option ℕ)
      → (route (encode_message m) r.client.mux).0 ≡ false
      → Accounts (came m ∷ []) r (
          standing_of (
            deliver room m (record r {
              client = record (r.client) { mux = (route (encode_message m) r.client.mux).1 };
              delivery = track_inbound_delivery_ack (encode_message m) r.delivery;
            })))
  unfolding deliver count_all
  deliver-Accounts (some zero) e =
      heard_Accounts (came m) r _ [] (some m) (rw plain refl) (rw (plain, e) refl)
        (sym (append-nil r.out)) refl (λ g. cc)
  deliver-Accounts (some (suc n)) e =
      heard_Accounts (came m) r _ (m ∷ []) none (rw plain refl) (rw (plain, e) refl) refl refl
        (λ g. refl)
  deliver-Accounts none e =
      heard_Accounts (came m) r _ (m ∷ []) none (rw plain refl) (rw (plain, e) refl) refl refl
        (λ g. refl)

  forward-Accounts : (room : Option ℕ) → Accounts (came m ∷ []) r (standing_of (forward room m r))
  unfolding forward
  forward-Accounts room = elim (Bool-cases (route (encode_message m) r.client.mux).0) [
    | inl e ↦ rw e (passed_Accounts (came m) r _ (rw plain refl) (rw (plain, e) refl))
    | inr e ↦ rw e (deliver-Accounts room e)
  ]

-- Nothing was heard, or only the waiters or the flags of the client changed.
pub quiet-Accounts :
    (s : Standing) (r : Receiver) (c : Client)
    → c.mux ≡ r.client.mux
    → Accounts [] r (s, record r { client = c })
unfolding offered_all left_over_all count_all
quiet-Accounts s r c same = record {
  heard = [];
  unheard = [];
  fresh = [];
  lost = none;
  all = refl;
  mux_is = same;
  left_is = refl;
  out_is = sym (append-nil r.out);
  counted_is = refl;
  whole = λ g. (refl, refl);
}

pub take_message-Accounts :
    (pong_err : Option String) (room : Option ℕ) (m : Message) (r : Receiver)
    → Accounts (came m ∷ []) r (standing_of (take_message pong_err room m r))
unfolding take_message
take_message-Accounts pong_err room m r = elim (Bool-cases (is_control m)) [
  | inl e ↦ rw (control_of-control pong_err m r.client e) (
      passed_Accounts (came m) r (control_of pong_err m r.client).1
        (rw e (control_of-mux pong_err m r.client)) (rw e refl))
  | inr e ↦ rw (control_of-other pong_err m r.client e) (forward-Accounts m r e room)
]
