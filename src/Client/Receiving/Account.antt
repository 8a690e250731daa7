-- ===== src/Client/Receiving/Account.antt =====
-- client.go: where the messages go that ReceiveMessages reads.
use soothe_client_go.Prelude.{
  ℕ, suc, String, ◌≡◌, refl, Option, List, [], ◌∷◌, ◌++◌, Bool-cases, inl, inr,
}
use soothe_client_go.Json.{Value}
use soothe_client_go.Protocol.{Message}
use soothe_client_go.Multiplexer.{Mux}
use soothe_client_go.Client.Connection.{Client, unclean, is_connected, close}
use soothe_client_go.Client.Receiving.{
  Receiver, Standing, going, over, broken, Round, context_done, read_failed, payload, closing,
  meanwhile, take_message, then_rest, take_messages, payload_messages, receive_round, then_rounds,
  receive,
}
use soothe_client_go.Client.Receiving.Events.{
  Event, came, changed, came_all, Accounts, then_Accounts, ended_Accounts,
}
use soothe_client_go.Client.Receiving.Messages.{
  signal_disconnect-mux, close-mux, standing_of, quiet-Accounts, passed_Accounts,
  take_message-Accounts,
}

rest_Accounts :
    (m : Message) (ms : List Message) (r : Receiver) (first : Standing × Option ℕ × Receiver)
    (rest : Option ℕ → Receiver → Standing × Receiver)
    → Accounts (came m ∷ []) r (standing_of first)
    → ((left : Option ℕ) (r' : Receiver) → Accounts (came_all ms) r' (rest left r'))
    → Accounts (came m ∷ came_all ms) r (then_rest rest first)
rest_Accounts m ms r (going, left, r') rest a next =
    then_Accounts a (came_all ms) (rest left r') (next left r')
rest_Accounts m ms r (over, left, r') rest a next =
    ended_Accounts (came_all ms) (over, r') (λ g. cc) a
rest_Accounts m ms r (broken, left, r') rest a next =
    ended_Accounts (came_all ms) (broken, r') (λ g. cc) a

take_messages-Accounts :
    (pong_err : ℕ → Option String) (i : ℕ) (room : Option ℕ) (ms : List Message) (r : Receiver)
    → Accounts (came_all ms) r (take_messages pong_err i room ms r)
unfolding take_messages
take_messages-Accounts pong_err i room [] r = quiet-Accounts going r r.client refl
take_messages-Accounts pong_err i room (m ∷ ms) r =
    rest_Accounts m ms r (take_message (pong_err i) room m r)
      (λ left r'. take_messages pong_err (suc i) left ms r')
      (take_message-Accounts (pong_err i) room m r)
      (λ left r'. take_messages-Accounts pong_err (suc i) left ms r')

-- A reader that ends before it hears anything
unheard_Accounts :
    (events : List Event) (s : Standing) (r : Receiver) (c : Client)
    → (s ≡ going → ⊥)
    → c.mux ≡ r.client.mux
    → Accounts events r (s, record r { client = c })
unheard_Accounts events s r c ended same =
    ended_Accounts events (s, record r { client = c }) ended (quiet-Accounts s r c same)

changed-Accounts :
    (f : Mux → Mux) (r : Receiver)
    → Accounts
        (changed f ∷ [])
        r
        (going, record r { client = record (r.client) { mux = f r.client.mux } })
changed-Accounts f r = passed_Accounts (changed f) r _ refl refl

module _ (parse : String → Option Value) (parse_time : String → Option String) where
  -- What the rounds bring to the reader
  abbrev pub round_events : Round → List Event
  round_events (payload data' pong_err room) = came_all (payload_messages parse parse_time data')
  round_events (meanwhile f) = changed f ∷ []
  round_events _ = []

  abbrev pub all_events : List Round → List Event
  all_events [] = []
  all_events (round ∷ rounds) = round_events round ++ all_events rounds

  receive_round-Accounts :
      (round : Round) (r : Receiver)
      → Accounts (round_events round) r (receive_round parse parse_time round r)
  unfolding receive_round
  receive_round-Accounts context_done r = quiet-Accounts over r r.client refl
  receive_round-Accounts read_failed r = elim (Bool-cases (is_connected r.client)) [
    | inl e ↦ rw e (quiet-Accounts broken r _ (signal_disconnect-mux unclean r.client))
    | inr e ↦ rw e (quiet-Accounts over r r.client refl)
  ]
  receive_round-Accounts (payload data' pong_err room) r =
      elim (Bool-cases (is_connected r.client)) [
        | inl e ↦ rw e (take_messages-Accounts pong_err 0 room _ r)
        | inr e ↦ rw e (unheard_Accounts _ over r r.client (λ g. cc) refl)
      ]
  receive_round-Accounts closing r = quiet-Accounts going r (close r.client) (close-mux r.client)
  receive_round-Accounts (meanwhile f) r = changed-Accounts f r

  rounds_Accounts :
      (xs ys : List Event) (r : Receiver) (first : Standing × Receiver)
      (rest : Receiver → Standing × Receiver)
      → Accounts xs r first
      → ((r' : Receiver) → Accounts ys r' (rest r'))
      → Accounts (xs ++ ys) r (then_rounds parse parse_time rest first)
  rounds_Accounts xs ys r (going, r') rest a next = then_Accounts a ys (rest r') (next r')
  rounds_Accounts xs ys r (over, r') rest a next = ended_Accounts ys (over, r') (λ g. cc) a
  rounds_Accounts xs ys r (broken, r') rest a next = ended_Accounts ys (broken, r') (λ g. cc) a

  -- Whatever comes to the goroutine of ReceiveMessages, and whatever other goroutines do to the waiters
  -- meanwhile: it hears the messages of the payloads up to its end, offers each that is no control
  -- frame to the waiters, and sends those that no waiter takes on the channel, in their order, each
  -- counted for an acknowledgement; all but perhaps the last one, which may be counted and not sent.
  -- While it goes on, it has heard everything and lost nothing.
  pub receive-Accounts :
      (rounds : List Round) (r : Receiver)
      → Accounts (all_events rounds) r (receive parse parse_time rounds r)
  unfolding receive
  receive-Accounts [] r = quiet-Accounts going r r.client refl
  receive-Accounts (round ∷ rounds) r =
      rounds_Accounts (round_events round) (all_events rounds) r
        (receive_round parse parse_time round r) (receive parse parse_time rounds)
        (receive_round-Accounts round r) (receive-Accounts rounds)
