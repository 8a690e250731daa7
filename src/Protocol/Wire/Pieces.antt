-- ===== src/Protocol/Wire/Pieces.antt =====
-- protocol.go: each piece of a message is read back from the fields that are written of it.
use mathlib.Core.Path.{fun_ext}
use soothe_client_go.Prelude.{
  ℕ, suc, ◌≤◌, String, ◌≡◌, refl, sym, ap, ◌∙◌, Bool-cases, inl, inr, Option, none, some, List, [],
  ◌∷◌, ◌==◌, eq_iff, arith, if◌then◌else◌,
}
use soothe_client_go.Prelude.Int.{ℤ, pos, negsuc, negate}
use soothe_client_go.Json.{
  Value, null, str, num, arr, obj, Items, nil, cons, Fields, end, field, get,
}
use soothe_client_go.Protocol.{EventMessage, StatusResponse, ErrorObject, Envelope}
use soothe_client_go.Protocol.Wire.{
  Source, read_text, read_map, read_int, read_items, read_strings, read_error, decode_error_object,
  decode_envelope, decode_event, decode_status, ◌>>=◌,
}
use soothe_client_go.Protocol.Encoding.{
  float64_nat, float64_int, some_text, some_map, some_int, some_value, some_items, items_of,
  fields_of, some_error, error_fields, envelope_fields, event_fields, status_fields,
}

-- A field that is written, or what the others have
abbrev from : Option Value → Value → Value
from none other = other
from (some v) other = v

abbrev pub find : List (String × Option Value) → Source
find [] j = null
find ((k, v) ∷ more) j = if k == j then from v (find more j) else find more j

pub get-fields_of : (l : List (String × Option Value)) (j : String) → get j (fields_of l) ≡ find l j
unfolding get fields_of
get-fields_of [] j = refl
get-fields_of ((k, none) ∷ more) j = ground (arith, get-fields_of more j)
get-fields_of ((k, some v) ∷ more) j =
    ap (λ (rest : Value). if k == j then v else rest) (get-fields_of more j)

-- No key stands twice.
read_text-some_text : (s : String) → read_text (from (some_text s) null) ≡ some s
unfolding read_text
read_text-some_text s = elim (Bool-cases (s == "")) [
  | inl e ↦ rw e (ap some (sym ((eq_iff s "").0 e)))
  | inr e ↦ rw e refl
]

-- An empty map is read back as a nil map.
abbrev normal_map : Option Fields → Option Fields
normal_map (some end) = none
normal_map m = m

read_map-some_map : (m : Option Fields) → read_map (from (some_map m) null) ≡ some (normal_map m)
unfolding read_map
read_map-some_map none = refl
read_map-some_map (some end) = refl
read_map-some_map (some (field k v fs)) = refl

-- A float64 holds the number.
abbrev pub IsExact : ℤ → Type 0
IsExact (pos n) = n ≤ 9007199254740992
IsExact (negsuc n) = suc n ≤ 9007199254740992

float64_nat-exact : (n : ℕ) → n ≤ 9007199254740992 → float64_nat n ≡ n
unfolding float64_nat
float64_nat-exact n small = ground (arith, small)

float64_int-exact : (n : ℤ) → IsExact n → float64_int n ≡ n
unfolding float64_int
float64_int-exact (pos n) small = ap pos (float64_nat-exact n small)
float64_int-exact (negsuc n) small = ap negate (float64_nat-exact (suc n) small)

read_int-some_int : (n : ℤ) → IsExact n → read_int (from (some_int n) null) ≡ some n
unfolding read_int
read_int-some_int (pos n) small = ground (arith, float64_int-exact (pos n) small)
read_int-some_int (negsuc n) small = ap some (float64_int-exact (negsuc n) small)

from-some_value : (v : Value) → from (some_value v) null ≡ v
from-some_value null = refl
from-some_value (str s) = refl
from-some_value (num n) = refl
from-some_value (Value.bool b) = refl
from-some_value (obj m) = refl
from-some_value (arr items) = refl

read_items-some_items : (items : Items) → read_items (from (some_items items) null) ≡ some items
unfolding read_items
read_items-some_items nil = refl
read_items-some_items (cons v items) = refl

read_strings-items_of : (l : List String) → read_strings (items_of l) ≡ some l
unfolding read_strings read_text
read_strings-items_of [] = refl
read_strings-items_of (s ∷ more) = rw (read_strings-items_of more) refl

abbrev normal_error : Option ErrorObject → Option ErrorObject
normal_error none = none
normal_error (some e) = some (record e { data' = normal_map e.data' })

decode_error_object-fields :
    (e : ErrorObject)
    → IsExact e.code
    → decode_error_object (find (error_fields e)) ≡ some (record e { data' = normal_map e.data' })
unfolding decode_error_object read_int read_text
decode_error_object-fields e small =
    rw (float64_int-exact e.code small, read_map-some_map e.data') refl

read_error-null : read_error null ≡ some none
unfolding read_error
read_error-null = refl

read_error-obj :
    (m : Fields) (e : ErrorObject)
    → decode_error_object (λ k. get k m) ≡ some e
    → read_error (obj m) ≡ some (some e)
unfolding read_error
read_error-obj m e h = ap (λ (r : Option ErrorObject). r >>= λ x. some (some x)) h

abbrev pub HasExact : Option ErrorObject → Type 0
HasExact none = Unit
HasExact (some e) = IsExact e.code

read_error-some_error :
    (e : Option ErrorObject)
    → HasExact e
    → read_error (from (some_error e) null) ≡ some (normal_error e)
unfolding some_error
read_error-some_error none small = read_error-null
read_error-some_error (some e) small = read_error-obj (fields_of (error_fields e)) _ (
    ap decode_error_object (fun_ext (get-fields_of (error_fields e)))
    ∙ decode_error_object-fields e small)

-- A message with nil in the place of empty maps
abbrev pub normal_envelope : Envelope → Envelope
normal_envelope e = record e {
  params = normal_map e.params;
  result = normal_map e.result;
  error = normal_error e.error;
  payload = normal_map e.payload;
}

pub decode_envelope-fields :
    (e : Envelope)
    → HasExact e.error
    → decode_envelope (find (envelope_fields e)) ≡ some (normal_envelope e)
unfolding decode_envelope
decode_envelope-fields e small =
    rw
      (
        read_text-some_text e.method,
        read_map-some_map e.params,
        read_text-some_text e.id,
        read_map-some_map e.result,
        read_error-some_error e.error small,
        read_map-some_map e.payload,
        read_text-some_text e.receipt,
      )
      refl

pub decode_event-fields :
    (parse_time : String → Option String) (m : EventMessage)
    → parse_time m.timestamp ≡ some m.timestamp
    → IsExact m.seq
    → decode_event parse_time (find (event_fields m)) ≡ some m
unfolding decode_event
decode_event-fields parse_time m h small =
    rw
      (
        read_text-some_text m.request_id,
        read_text-some_text m.loop_id,
        read_text-some_text m.turn_id,
        read_int-some_int m.seq small,
        read_text-some_text m.mode,
        h,
        from-some_value m.namespace,
      )
      refl

pub decode_status-fields :
    (m : StatusResponse) → IsExact m.seq → decode_status (find (status_fields m)) ≡ some m
unfolding decode_status
decode_status-fields m small =
    rw
      (
        read_text-some_text m.request_id,
        read_text-some_text m.loop_id,
        read_text-some_text m.turn_id,
        read_int-some_int m.seq small,
        read_items-some_items (items_of m.input_history),
        read_strings-items_of m.input_history,
        read_items-some_items m.conversation_history,
      )
      refl
