-- ===== src/Client/Connection/Handshake/Verdicts.antt =====
-- client.go: what one arrival leads to in a handshake.
use soothe_client_go.Prelude.{
  ℕ, suc, Bool, Bool-cases, sym, subst, if◌then◌else◌, String, ◌≡◌, ◌≢◌, ◌⊎◌, inl, inr, refl, true,
  false, ◌||◌, Option, none, some, List, [], ◌∷◌, ◌==◌, differ, length, eq_iff, if_cases, arith,
}
use soothe_client_go.Json.{Fields, get, text_of}
use soothe_client_go.Multiplexer.{map_or_nil, daemon_error}
use soothe_client_go.Client.Connection.{
  Client, Attempt, SendError, is_connected, send_message, write_message, fail_write,
  signal_disconnect_at, signal_disconnect, send_pong, is_control_frame, clean,
}
use soothe_client_go.Client.Connection.Handshake.{
  Arrival, took, arrived, HandshakeError, Verdict, returns, goes_on, blocked,
  is_retryable_warn_code, retry, after_init, on_state, on_error, on_frame, take_ack,
}

abbrev state_of : Fields → String
state_of ev = text_of "readiness_state" (map_or_nil (get "result" ev))

-- The acknowledgement of a daemon that is ready
abbrev IsReady : Fields → Type 0
IsReady ev = (text_of "type" ev ≡ "connection_ack") × (state_of ev ≡ "ready")

-- A frame that the handshake discards
abbrev IsOther : Fields → Type 0
IsOther ev = (text_of "type" ev ≢ "error") × (text_of "type" ev ≢ "connection_ack")

-- A frame that asks for another connection_init
abbrev AsksAgain : Fields → Type 0
AsksAgain ev =
    ((text_of "type" ev ≡ "error") × (is_retryable_warn_code (daemon_error ev).code ≡ true))
    ⊎ ((text_of "type" ev ≡ "connection_ack")
        × ((state_of ev ≡ "starting") ⊎ (state_of ev ≡ "warming")))

-- How many messages were written, and whether a drop was announced
abbrev pub Seen : Type 0
Seen = ℕ × Bool

abbrev pub asked : Seen → Seen
asked (n, dropped) = (suc n, dropped)

abbrev pub with_pong : Option String → ℕ → ℕ
with_pong none n = suc n
with_pong (some err) n = n

-- A ping is answered by a pong, where that can be written; a disconnect frame announces a drop.
abbrev pub heard : Option String → String → Seen → Seen
heard pong_err typ (n, dropped) =
    ((if typ == "ping" then with_pong pong_err n else n), typ == "disconnect" || dropped)

-- A connected client that has written so many messages to its socket, for which a drop is signalled
-- exactly if one was announced
abbrev pub IsUp : ℕ → Seen → Client → Type 0
IsUp socket n c =
    (c.conn ≡ some socket)
    × (c.closed ≡ false)
    × (c.once_done ≡ n.1)
    × (c.disconnected ≡ n.1)
    × (length c.written ≡ n.0)

-- The handshake has come to a ready daemon's acknowledgement, with `n` seen before.
abbrev pub Reached : ℕ → Seen → List Arrival → Client → Type 0
Reached socket n [] c = ⊥
Reached socket n (took pong_err typ ∷ arrivals) c = Reached socket (heard pong_err typ n) arrivals c
Reached socket n (arrived ev context_err again ∷ arrivals) c =
    (IsReady ev × IsUp socket n c)
    ⊎ ((IsOther ev × Reached socket n arrivals c)
        ⊎ (AsksAgain ev × Reached socket (asked n) arrivals c))
Reached socket n (_ ∷ arrivals) c = ⊥

abbrev pub IsComplete : Client → Type 0
IsComplete c = (c.handshake_complete ≡ true) × (c.readiness_state ≡ "ready")

abbrev pub Case : ℕ → Seen → Fields → Verdict → Type 0
Case socket n ev (returns none c) = IsReady ev × IsUp socket n c × IsComplete c
Case socket n ev (returns (some err) c) = Unit
Case socket n ev (goes_on c) =
    (IsOther ev × IsUp socket n c) ⊎ (AsksAgain ev × IsUp socket (asked n) c)
Case socket n ev blocked = Unit

-- The end of a retry
abbrev Again : ℕ → Seen → Verdict → Type 0
Again socket n (returns none c) = ⊥
Again socket n (returns (some err) c) = Unit
Again socket n (goes_on c) = IsUp socket (asked n) c
Again socket n blocked = Unit

abbrev pub Sent : ℕ → Seen → Option (Option SendError × Client) → Type 0
Sent socket n (some (none, c)) = IsUp socket (asked n) c
Sent socket n _ = Unit

-- How the handshake ends
abbrev pub Ends : ℕ → Seen → List Arrival → Option (Option HandshakeError × Client) → Type 0
Ends socket n arrivals (some (none, c)) = Reached socket n arrivals c × IsComplete c
Ends socket n arrivals _ = Unit

pub Ends-weaken :
    (socket : ℕ) (m : Seen) (arrivals more : List Arrival) (n : Seen)
    (r : Option (Option HandshakeError × Client))
    → ((c : Client) → Reached socket n arrivals c → Reached socket m more c)
    → Ends socket n arrivals r
    → Ends socket m more r
Ends-weaken socket m arrivals more n (some (none, c)) step (there, complete) =
    (step c there, complete)
Ends-weaken socket m arrivals more n (some (some err, c)) step h = tt
Ends-weaken socket m arrivals more n none step h = tt

starts :
    (state : String)
    → (state == "starting" || state == "warming") ≡ true
    → (state ≡ "starting") ⊎ (state ≡ "warming")
starts state h = ground (arith, eq_iff state "starting", eq_iff state "warming")

module _ (socket : ℕ) (n : Seen) (c : Client) (up : IsUp socket n c) where
  pub send_message-Sent : (typ : String) (a : Attempt) → Sent socket n (send_message typ a c)
  unfolding send_message write_message fail_write signal_disconnect_at is_connected
  send_message-Sent typ a = ground arith

module _ (socket : ℕ) (n : Seen) (c : Client) (up : IsUp socket n c) where
  send_pong-IsUp :
      (pong_err : Option String) → IsUp socket (with_pong pong_err n.0, n.1) (send_pong pong_err c)
  unfolding send_pong is_connected
  send_pong-IsUp none = ground arith
  send_pong-IsUp (some err) = up

  signal_disconnect-IsUp : IsUp socket (n.0, true) (signal_disconnect clean c)
  unfolding signal_disconnect
  signal_disconnect-IsUp = ground arith

  pub is_control_frame-IsUp :
      (pong_err : Option String) (typ : String)
      → IsUp socket (heard pong_err typ n) (is_control_frame pong_err typ c).1
  unfolding is_control_frame
  is_control_frame-IsUp pong_err typ =
      let Goal =
        λ (t : String). IsUp socket (heard pong_err t n) (is_control_frame pong_err t c).1 in
      let at = λ (t : String) (e : (typ == t) ≡ true). sym ((eq_iff typ t).0 e) in
      elim (Bool-cases (typ == "ping")) [
        | inl e ↦ subst Goal (at "ping" e) (send_pong-IsUp pong_err)
        | inr e ↦ elim (Bool-cases (typ == "pong")) [
          | inl e' ↦ subst Goal (at "pong" e') up
          | inr e' ↦ elim (Bool-cases (typ == "disconnect")) [
            | inl e'' ↦ subst Goal (at "disconnect" e'') signal_disconnect-IsUp
            | inr e'' ↦ rw (e, e', e'') up
          ]
        ]
      ]

after_init-Again :
    (socket : ℕ) (n : Seen) (r : Option (Option SendError × Client))
    → Sent socket n r
    → Again socket n (after_init r)
unfolding after_init
after_init-Again socket n none h = tt
after_init-Again socket n (some (none, c)) h = h
after_init-Again socket n (some (some err, c)) h = tt

retry-Again :
    (socket : ℕ) (n : Seen) (context_err : Option String) (again : Attempt) (c : Client)
    → IsUp socket n c
    → Again socket n (retry context_err again c)
unfolding retry
retry-Again socket n none again c up =
    after_init-Again socket n _ (send_message-Sent socket n c up "connection_init" again)
retry-Again socket n (some err) again c up = tt

Again-Case :
    (socket : ℕ) (n : Seen) (ev : Fields) (v : Verdict)
    → AsksAgain ev
    → Again socket n v
    → Case socket n ev v
Again-Case socket n ev (returns none c) asks h = absurd h
Again-Case socket n ev (returns (some err) c) asks h = tt
Again-Case socket n ev (goes_on c) asks h = inr (asks, h)
Again-Case socket n ev blocked asks h = tt

module _ (socket : ℕ) (n : Seen) (ev : Fields) (context_err : Option String) (again : Attempt)
    (c : Client) (up : IsUp socket n c) where
  on_error-Case : text_of "type" ev ≡ "error" → Case socket n ev (on_error ev context_err again c)
  unfolding on_error
  on_error-Case t =
      if_cases (Case socket n ev) (is_retryable_warn_code (daemon_error ev).code) _ _
        (λ warns.
          Again-Case socket n ev _ (inl (t, warns)) (retry-Again socket n context_err again c up))
        (λ _. tt)

  on_state-Case :
      text_of "type" ev ≡ "connection_ack"
      → Case socket n ev (on_state (state_of ev) context_err again c)
  unfolding on_state
  on_state-Case t =
      let P = Case socket n ev in
      let state = state_of ev in
      if_cases P (state == "ready") _ _
        (λ e. let ready = (eq_iff state "ready").0 e in ((t, ready), up, (refl, ready)))
        (λ _.
          if_cases P (state == "incompatible") _ _ (λ _. tt)
            (λ _.
              if_cases P (state == "error") _ _ (λ _. tt)
                (λ _.
                  if_cases P (state == "degraded") _ _ (λ _. tt)
                    (λ _.
                      if_cases P (state == "starting" || state == "warming") _ _
                        (λ e.
                          Again-Case socket n ev _ (inr (t, starts state e))
                            (retry-Again socket n context_err again c up))
                        (λ _. tt)))))

module _ (socket : ℕ) (n : Seen) (ev : Fields) (context_err : Option String) (again : Attempt)
    (c : Client) (up : IsUp socket n c) where
  pub on_frame-Case : Case socket n ev (on_frame ev context_err again c)
  unfolding on_frame
  on_frame-Case =
      let P = Case socket n ev in
      let typ = text_of "type" ev in
      let result = map_or_nil (get "result" ev) in
      if_cases P (typ == "status") _ _
        (λ e.
          let t = (eq_iff typ "status").0 e in
          inl (
            (rw t (differ "status" "error" refl), rw t (differ "status" "connection_ack" refl)),
            up,
          ))
        (λ _.
          if_cases P (typ == "error") _ _
            (λ e. on_error-Case socket n ev context_err again c up ((eq_iff typ "error").0 e))
            (λ not_error.
              if_cases P (typ == "connection_ack") _ _
                (λ e.
                  on_state-Case socket n ev context_err again (take_ack result c)
                    (unfold take_ack in up) ((eq_iff typ "connection_ack").0 e))
                (λ not_ack.
                  inl ((differ typ "error" not_error, differ typ "connection_ack" not_ack), up))))
