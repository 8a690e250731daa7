-- ===== src/Methods.antt =====
-- The requests of request.go, send_methods.go, job.go, autopilot.go and helpers.go: what each call
-- asks the daemon for. A timeout is a number of milliseconds.
pub mod Loops
pub mod Sends
pub mod Jobs
pub mod Autopilot
pub mod Helpers
pub mod Splits
pub mod Input
pub mod Twins
pub mod Commands
use soothe_client_go.Prelude.{
  ℕ, ◌*◌, String, Bool, true, false, Option, none, some, List, [], ◌∷◌, ◌==◌, if◌then◌else◌,
}
use soothe_client_go.Prelude.Int.{ℤ, pos, is_positive}
use soothe_client_go.Json.{Value, str, bool, obj, num, Fields, end, field, put}
use soothe_client_go.Protocol.{Envelope}
use soothe_client_go.Protocol.Envelopes.{new_request_envelope_with_id, new_notification_envelope}

-- A call of RequestResponse
pub record Rpc : Type 0 where
  pub payload : Fields
  pub response_type : String
  pub timeout : ℤ

-- What a blocking method does first: it asks, or returns the error that something is required.
pub data Asked : Type 0 where
  asks : Rpc → Asked
  lacks : (what : String) → Asked

-- The same for a method that only sends
pub data Sending : Type 0 where
  sends : Envelope → Sending
  refuses : (what : String) → Sending

-- `if timeout <= 0 { timeout = seconds * time.Second }`
unfoldable pub or_default : ℕ → ℤ → ℤ
or_default seconds timeout = if is_positive timeout then timeout else pos (seconds * 1000)

abbrev pub int_value : ℤ → Value
int_value n = num (record { floor = n; exact = true })

-- `if text != "" { payload[key] = text }`
unfoldable pub with_text : String → String → Fields → Fields
with_text key text payload = if text == "" then payload else put key (str text) payload

-- `if n > 0 { payload[key] = n }`
unfoldable pub with_positive : String → ℤ → Fields → Fields
with_positive key n payload = if is_positive n then put key (int_value n) payload else payload

-- `if flag { payload[key] = true }`
unfoldable pub with_flag : String → Bool → Fields → Fields
with_flag key flag payload = if flag then put key (bool true) payload else payload

-- `if m != nil { payload[key] = m }`
unfoldable pub with_map : String → Option Fields → Fields → Fields
with_map key none payload = payload
with_map key (some m) payload = put key (obj m) payload

abbrev pub typed : String → Fields
typed method = field "type" (str method) end

abbrev pub of_loop : String → String → Fields
of_loop method loop_id = field "type" (str method) (field "loop_id" (str loop_id) end)

-- RequestResponse with the default of a timeout in seconds
abbrev pub ask : Fields → String → ℕ → ℤ → Asked
ask payload response seconds timeout =
    asks
      (record { payload = payload; response_type = response; timeout = or_default seconds timeout })

-- `if text == "" { return nil, fmt.Errorf("… is required") }`
abbrev pub required : String → String → Asked → Asked
required what text other = if text == "" then lacks what else other

-- optRequestID
unfoldable pub opt_request_id : List String → String
opt_request_id [] = ""
opt_request_id (id ∷ more) = id

-- SendMessage of a request, for the optional ids of the call
unfoldable pub request : String → Fields → List String → String → Sending
unfolding opt_request_id new_request_envelope_with_id
request method params ids fresh =
    sends (new_request_envelope_with_id method params (opt_request_id ids) fresh)

abbrev pub of_id : String → String → Fields
of_id key id = field key (str id) end

abbrev pub required_to_send : String → String → Sending → Sending
required_to_send what text other = if text == "" then refuses what else other
