-- ===== src/Client/Connection/Keeping.antt =====
-- client.go: what the operations of a connection keep, for any predicate that the first steps keep.
use soothe_client_go.Prelude.{
  String, ◌≡◌, Bool, true, false, Option, none, some, List, [], ◌∷◌, arith,
}
use soothe_client_go.Json.{Fields, get, text_of}
use soothe_client_go.Multiplexer.{map_or_nil}
use soothe_client_go.Client.Connection.{
  Client, DisconnectCause, unclean, clean, Channel, live, shut, panicked, Attempt, SendError,
  signal_disconnect, write_message, signal_disconnect_at, send_pong, fail_write, send_message,
  is_control_frame, close,
}
use soothe_client_go.Client.Connection.Handshake.{
  Arrival, Verdict, returns, goes_on, blocked, HandshakeError, Dialed, retry, after_init, on_state,
  on_error, on_frame, on_arrival, follow, after_first, await_ack, handshake, take_ack, connect,
  reconnect, read_failed, gone, arrived, took,
}

-- What is done to a client, one call after the other.
pub data Op : Type 0 where
  connects : Dialed → Attempt → List Arrival → Op
  reconnects : Dialed → Attempt → List Arrival → Op
  closes : Op
  sends : (typ : String) → Attempt → Op
  gets_control : (write_err : Option String) (typ : String) → Op
  reader_fails : Op

abbrev pub client_of {ℓ} : {E : Type ℓ} → Option (E × Client) → Option Client
client_of none = none
client_of (some (e, c)) = some c

-- `none` where the call never returns; then it holds `c.mu`, and no later call returns.
abbrev pub step : Op → Client → Option Client
step (connects dial first arrivals) c = client_of (connect dial first arrivals c)
step (reconnects dial first arrivals) c = client_of (reconnect dial first arrivals c)
step closes c = some (close c)
step (sends typ a) c = client_of (send_message typ a c)
step (gets_control write_err typ) c = some (is_control_frame write_err typ c).1
step reader_fails c = some (signal_disconnect unclean c)

abbrev pub then_all : (Client → Option Client) → Option Client → Option Client
then_all f none = none
then_all f (some c) = f c

unfoldable pub after_all : List Op → Client → Option Client
after_all [] c = some c
after_all (op ∷ ops) c = then_all (after_all ops) (step op c)

-- What the channel, disconnOnce, `disconnected` and the cause have to do with each other.
abbrev Agrees : Channel → Bool → Bool → DisconnectCause → Type 0
Agrees (live b) once dropped cause = (b ≡ none) × (once ≡ false) × (dropped ≡ false)
Agrees (shut b) once dropped cause = (b ≡ some cause) × (once ≡ true) × (dropped ≡ true)
Agrees panicked once dropped cause = ⊥

abbrev pub IsSignalled : Client → Type 0
IsSignalled c = Agrees c.disconn_ch c.once_done c.disconnected c.disconn_cause

abbrev pub Of : (Client → Type 0) → Option Client → Type 0
Of P none = Unit
Of P (some c) = P c

abbrev OfVerdict : (Client → Type 0) → Verdict → Type 0
OfVerdict P (returns err c) = P c
OfVerdict P (goes_on c) = P c
OfVerdict P blocked = Unit

-- What a handshake does to a client keeps the property.
pub record Keeps (P : Client → Type 0) : Type 0 where
  pub wrote : (typ : String) (c : Client) → P c → P (record c { written = typ ∷ c.written })
  pub acked : (result : Fields) (c : Client) → P c → P (take_ack result c)
  pub finished :
      (state : String) (c : Client)
      → P c
      → P (record c { handshake_complete = true; readiness_state = state })
  pub signalled : (c : Client) → P c → P (signal_disconnect clean c)

-- A property of the client that each change of a handshake keeps is kept by the handshake.
module _ (P : Client → Type 0) (keeps : Keeps P) where
  open keeps use {wrote, acked, finished, signalled}

  write_message-keeps :
      (typ : String) (a : Attempt) (c : Client) → P c → Of P (client_of (write_message typ a c))
  unfolding write_message fail_write signal_disconnect_at
  write_message-keeps typ a c here = ground (arith, wrote typ c here)

  pub send_message-keeps :
      (typ : String) (a : Attempt) (c : Client) → P c → Of P (client_of (send_message typ a c))
  unfolding send_message
  send_message-keeps typ a c here = ground (arith, write_message-keeps typ a c here)

  after_init-keeps :
      (r : Option (Option SendError × Client)) → Of P (client_of r) → OfVerdict P (after_init r)
  unfolding after_init
  after_init-keeps none h = tt
  after_init-keeps (some (none, c)) h = h
  after_init-keeps (some (some e, c)) h = h

  retry-keeps :
      (context_err : Option String) (again : Attempt) (c : Client)
      → P c
      → OfVerdict P (retry context_err again c)
  unfolding retry
  retry-keeps none again c here =
      after_init-keeps _ (send_message-keeps "connection_init" again c here)
  retry-keeps (some err) again c here = here

  on_state-keeps :
      (state : String) (context_err : Option String) (again : Attempt) (c : Client)
      → P c
      → OfVerdict P (on_state state context_err again c)
  unfolding on_state
  on_state-keeps state context_err again c here =
      ground (arith, finished state c here, retry-keeps context_err again c here)

  on_error-keeps :
      (ev : Fields) (context_err : Option String) (again : Attempt) (c : Client)
      → P c
      → OfVerdict P (on_error ev context_err again c)
  unfolding on_error
  on_error-keeps ev context_err again c here = ground (arith, retry-keeps context_err again c here)

  on_frame-keeps :
      (ev : Fields) (context_err : Option String) (again : Attempt) (c : Client)
      → P c
      → OfVerdict P (on_frame ev context_err again c)
  unfolding on_frame
  on_frame-keeps ev context_err again c here =
      let result = map_or_nil (get "result" ev) in
      ground (
        arith,
        on_error-keeps ev context_err again c here,
        on_state-keeps (text_of "readiness_state" result) context_err again (take_ack result c)
            (acked result c here),
      )

  pub is_control_frame-keeps :
      (pong_err : Option String) (typ : String) (c : Client)
      → P c
      → P (is_control_frame pong_err typ c).1
  unfolding is_control_frame send_pong
  is_control_frame-keeps none typ c here = ground (arith, wrote "pong" c here, signalled c here)
  is_control_frame-keeps (some err) typ c here = ground (arith, signalled c here)

  on_arrival-keeps : (a : Arrival) (c : Client) → P c → OfVerdict P (on_arrival a c)
  unfolding on_arrival
  on_arrival-keeps (took pong_err typ) c here = is_control_frame-keeps pong_err typ c here
  on_arrival-keeps (read_failed err) c here = here
  on_arrival-keeps gone c here = here
  on_arrival-keeps (arrived ev context_err again) c here =
      on_frame-keeps ev context_err again c here

  follow-keeps :
      (rest : Client → Option (Option HandshakeError × Client)) (v : Verdict)
      → ((c : Client) → P c → Of P (client_of (rest c)))
      → OfVerdict P v
      → Of P (client_of (follow rest v))
  follow-keeps rest (returns err c) more here = here
  follow-keeps rest (goes_on c) more here = more c here
  follow-keeps rest blocked more here = tt

  await_ack-keeps :
      (arrivals : List Arrival) (c : Client) → P c → Of P (client_of (await_ack arrivals c))
  unfolding await_ack
  await_ack-keeps [] c here = here
  await_ack-keeps (a ∷ arrivals) c here =
      follow-keeps (await_ack arrivals) (on_arrival a c) (await_ack-keeps arrivals)
        (on_arrival-keeps a c here)

  after_first-keeps :
      (arrivals : List Arrival) (r : Option (Option SendError × Client))
      → Of P (client_of r)
      → Of P (client_of (after_first arrivals r))
  unfolding after_first
  after_first-keeps arrivals none h = tt
  after_first-keeps arrivals (some (none, c)) h = await_ack-keeps arrivals c h
  after_first-keeps arrivals (some (some e, c)) h = h

  pub handshake-keeps :
      (first : Attempt) (arrivals : List Arrival) (c : Client)
      → P c
      → Of P (client_of (handshake first arrivals c))
  unfolding handshake
  handshake-keeps first arrivals c here =
      after_first-keeps arrivals _ (send_message-keeps "connection_init" first c here)
