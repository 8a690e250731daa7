-- ===== src/Json.antt =====
-- The values that flow through the client as Go's `interface{}` (encoding/json), with the
-- conversions of session.go, appkit/events.go and the map reads of Go.
pub mod Size
pub mod Reads
use soothe_client_go.Prelude.{
  ℕ, suc, ◌+◌, String, Bool, true, false, Option, none, some, List, [], ◌∷◌, ◌==◌, if◌then◌else◌,
}
use soothe_client_go.Prelude.Int.{ℤ, pos, negsuc}

-- A number, as far as the client looks at one: the greatest integer below it, and whether it is
-- that integer.
pub record Number : Type 0 where
  pub floor : ℤ
  pub exact : Bool

mutual
  -- map[string]interface{}, which for reads is also the nil map where it is `end`
  pub data Fields : Type 0 where
    end : Fields
    field : (name : String) (value : Value) (rest : Fields) → Fields

  -- []interface{}
  pub data Items : Type 0 where
    nil : Items
    cons : (first : Value) (rest : Items) → Items

  pub data Value : Type 0 where
    null : Value
    str : String → Value
    num : Number → Value
    bool : Bool → Value
    obj : Fields → Value
    arr : Items → Value

-- `m[k]`: nil for a missing key
unfoldable pub get : String → Fields → Value
get k end = null
get k (field j v fs) = if j == k then v else get k fs

-- `_, ok := m[k]`
unfoldable pub has : String → Fields → Bool
has k end = false
has k (field j v fs) = if j == k then true else has k fs

-- `m[k] = v`
unfoldable pub put : String → Value → Fields → Fields
put k v end = field k v end
put k v (field j w fs) = if j == k then field k v fs else field j w (put k v fs)

-- `s, ok := v.(string)`
abbrev pub to_string? : Value → Option String
to_string? (str s) = some s
to_string? _ = none

-- `m, ok := v.(map[string]interface{})`
abbrev pub to_map? : Value → Option Fields
to_map? (obj fs) = some fs
to_map? _ = none

-- `a, ok := v.([]interface{})`
abbrev pub to_list? : Value → Option Items
to_list? (arr xs) = some xs
to_list? _ = none

-- `b, _ := v.(bool)`
abbrev pub to_bool : Value → Bool
to_bool (bool b) = b
to_bool _ = false

abbrev pub is_null : Value → Bool
is_null null = true
is_null _ = false

-- asString of session.go and appkit/events.go
unfoldable pub as_string : Value → String
as_string (str s) = s
as_string _ = ""

-- `arr[0]`, where there is one
abbrev pub head? : Items → Option Value
head? nil = none
head? (cons v xs) = some v

-- `body, _ := arr[0].(map[string]interface{})` behind `ok && len(arr) > 0`
unfoldable pub first_map? : Value → Option Fields
first_map? (arr (cons (obj fs) xs)) = some fs
first_map? _ = none

abbrev pub text_of : String → Fields → String
text_of k fs = as_string (get k fs)
