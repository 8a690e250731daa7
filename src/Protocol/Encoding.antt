-- ===== src/Protocol/Encoding.antt =====
-- protocol.go: the maps that json.Marshal and json.Unmarshal make of the messages, which client.go routes.
use soothe_client_go.Prelude.{
  ℕ, zero, suc, ◌+◌, ◌*◌, ◌/◌, ◌%◌, ltb, leb, eqb, ◌||◌, ◌&&◌, String, true, Option, none, some,
  List, [], ◌∷◌, ◌==◌, if◌then◌else◌,
}
use soothe_client_go.Prelude.Int.{ℤ, pos, negsuc, negate, eqb_ℤ}
use soothe_client_go.Json.{Value, null, str, num, arr, obj, Items, nil, cons, Fields, end, field}
use soothe_client_go.Protocol.{
  EventMessage, StatusResponse, ErrorObject, Envelope, Message, event, status, envelope, raw,
}

-- What json.Marshal writes of a field with `omitempty`, if anything
abbrev pub some_text : String → Option Value
some_text s = if s == "" then none else some (str s)

abbrev pub some_map : Option Fields → Option Value
some_map none = none
some_map (some end) = none
some_map (some (field k v fs)) = some (obj (field k v fs))

-- The nearest multiple of a unit, the even one of two that are as near
abbrev nearest : ℕ → ℕ → ℕ
nearest unit n =
    let q = n / unit in
    let twice = 2 * (n % unit) in
    if ltb twice unit || (eqb twice unit && eqb (q % 2) 0) then q * unit else (q + 1) * unit

-- The rounding of a number between 2^53 and 2^64 to 53 bits; the unit doubles with the number, so that
-- eleven units are enough.
unfoldable pub float64_above : ℕ → ℕ → ℕ → ℕ
float64_above zero unit n = nearest unit n
float64_above (suc fuel) unit n =
    let rest = float64_above fuel (2 * unit) n in
    if ltb n (9007199254740992 * unit) then nearest unit n else rest

-- json.Unmarshal into an interface makes a float64 of a number, which holds each whole number up to
-- 2^53, and of those above the nearest with 53 bits.
unfoldable pub float64_nat : ℕ → ℕ
unfolding float64_above
float64_nat n = if leb n 9007199254740992 then n else float64_above 10 2 n

unfoldable pub float64_int : ℤ → ℤ
unfolding float64_nat
float64_int (pos n) = pos (float64_nat n)
float64_int (negsuc n) = negate (float64_nat (suc n))

abbrev pub int_value : ℤ → Value
int_value n = num (record { floor = float64_int n; exact = true })

abbrev pub some_int : ℤ → Option Value
some_int n = if eqb_ℤ n (pos 0) then none else some (int_value n)

abbrev pub some_value : Value → Option Value
some_value null = none
some_value (str s) = some (str s)
some_value (num n) = some (num n)
some_value (Value.bool b) = some (Value.bool b)
some_value (obj m) = some (obj m)
some_value (arr items) = some (arr items)

abbrev pub items_of : List String → Items
items_of [] = nil
items_of (s ∷ more) = cons (str s) (items_of more)

abbrev pub some_items : Items → Option Value
some_items nil = none
some_items (cons v items) = some (arr (cons v items))

-- A map of the fields that are written
unfoldable pub fields_of : List (String × Option Value) → Fields
fields_of [] = end
fields_of ((k, none) ∷ more) = fields_of more
fields_of ((k, some v) ∷ more) = field k v (fields_of more)

abbrev pub error_fields : ErrorObject → List (String × Option Value)
error_fields e =
    ("code", some (int_value e.code))
    ∷ ("message", some (str e.message))
    ∷ ("data", some_map e.data')
    ∷ []

unfoldable pub some_error : Option ErrorObject → Option Value
unfolding fields_of
some_error none = none
some_error (some e) = some (obj (fields_of (error_fields e)))

abbrev pub envelope_fields : Envelope → List (String × Option Value)
envelope_fields e =
    ("proto", some (str e.proto))
    ∷ ("type", some (str e.type'))
    ∷ ("method", some_text e.method)
    ∷ ("params", some_map e.params)
    ∷ ("id", some_text e.id)
    ∷ ("result", some_map e.result)
    ∷ ("error", some_error e.error)
    ∷ ("payload", some_map e.payload)
    ∷ ("receipt", some_text e.receipt)
    ∷ []

abbrev pub event_fields : EventMessage → List (String × Option Value)
event_fields e =
    ("request_id", some_text e.request_id)
    ∷ ("type", some (str e.type'))
    ∷ ("loop_id", some_text e.loop_id)
    ∷ ("turn_id", some_text e.turn_id)
    ∷ ("seq", some_int e.seq)
    ∷ ("namespace", some_value e.namespace)
    ∷ ("mode", some_text e.mode)
    ∷ ("data", some e.data')
    ∷ ("timestamp", some (str e.timestamp))
    ∷ []

abbrev pub status_fields : StatusResponse → List (String × Option Value)
status_fields m =
    ("request_id", some_text m.request_id)
    ∷ ("type", some (str m.type'))
    ∷ ("state", some (str m.state))
    ∷ ("loop_id", some_text m.loop_id)
    ∷ ("turn_id", some_text m.turn_id)
    ∷ ("seq", some_int m.seq)
    ∷ ("workspace", some (str m.workspace))
    ∷ ("input_history", some_items (items_of m.input_history))
    ∷ ("conversation_history", some_items m.conversation_history)
    ∷ []

-- The map that json.Marshal and json.Unmarshal make of a decoded message
unfoldable pub encode_message : Message → Fields
unfolding fields_of some_error
encode_message (event m) = fields_of (event_fields m)
encode_message (status m) = fields_of (status_fields m)
encode_message (envelope m) = fields_of (envelope_fields m)
encode_message (raw m) = m
encode_message _ = end
