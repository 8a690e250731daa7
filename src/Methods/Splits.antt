-- ===== src/Methods/Splits.antt =====
-- What RequestResponse (request.go) takes out of the payloads that the methods build.
use soothe_client_go.Prelude.{
  String, ◌≡◌, refl, ap, ◌∙◌, Bool, true, false, Option, none, some, ◌==◌, Bool-cases, eq_iff, inl,
  inr, arith,
}
use soothe_client_go.Prelude.Int.{ℤ, is_positive}
use soothe_client_go.Json.{Value, str, bool, obj, Fields, end, field, get, put, text_of, as_string}
use soothe_client_go.Json.Reads.{get-put}
use soothe_client_go.Request.{request_params}
use soothe_client_go.Methods.{
  with_text, with_positive, with_flag, with_map, typed, int_value, of_loop, of_id,
}

-- A key that is added where it is no control field
abbrev IsPlain : String → Type 0
IsPlain k = ((k == "type") ≡ false) × ((k == "request_id") ≡ false)

request_params-put :
    (k : String) (v : Value) (fs : Fields)
    → IsPlain k
    → request_params (put k v fs) ≡ put k v (request_params fs)
unfolding request_params put
request_params-put k v end (t, r) = rw (t, r) refl
request_params-put k v (field j w fs) (t, r) =
    ground (arith, eq_iff j k, request_params-put k v fs (t, r))

-- A payload with its method and its parameters
pub record Splits (payload : Fields) (method : String) (params : Fields) : Type 0 where
  pub method_is : text_of "type" payload ≡ method
  pub params_are : request_params payload ≡ params
  pub no_id : text_of "request_id" payload ≡ ""

text_of-put :
    (k j : String) (v : Value) (fs : Fields)
    → (k == j) ≡ false
    → text_of j (put k v fs) ≡ text_of j fs
text_of-put k j v fs e = ap as_string (get-put k j v fs ∙ rw e refl)

module _ (k : String) (plain : IsPlain k) (payload : Fields) (method : String) (params : Fields)
    (here : Splits payload method params) where
  put-Splits : (v : Value) → Splits (put k v payload) method (put k v params)
  put-Splits v = record {
    method_is = text_of-put k "type" v payload plain.0 ∙ here.method_is;
    params_are = request_params-put k v payload plain ∙ ap (put k v) here.params_are;
    no_id = text_of-put k "request_id" v payload plain.1 ∙ here.no_id;
  }

  pub with_text-Splits : (s : String) → Splits (with_text k s payload) method (with_text k s params)
  unfolding with_text
  with_text-Splits s = elim (Bool-cases (s == "")) [
    | inl e ↦ rw e here
    | inr e ↦ rw e (put-Splits (str s))
  ]

  pub with_positive-Splits :
      (n : ℤ) → Splits (with_positive k n payload) method (with_positive k n params)
  unfolding with_positive
  with_positive-Splits n = elim (Bool-cases (is_positive n)) [
    | inl e ↦ rw e (put-Splits (int_value n))
    | inr e ↦ rw e here
  ]

  pub with_flag-Splits : (b : Bool) → Splits (with_flag k b payload) method (with_flag k b params)
  unfolding with_flag
  with_flag-Splits true = put-Splits (bool true)
  with_flag-Splits false = here

  pub with_map-Splits :
      (m : Option Fields) → Splits (with_map k m payload) method (with_map k m params)
  unfolding with_map
  with_map-Splits none = here
  with_map-Splits (some m) = put-Splits (obj m)

-- What splits a payload also says of the envelope that is made of its parts.
pub made :
    (payload : Fields) (method : String) (params : Fields)
    → Splits payload method params
    → (text_of "type" payload ≡ method)
      × (◌≡◌ {A = Option Fields} (some (request_params payload)) (some params))
      × (text_of "request_id" payload ≡ "")
      × (◌≡◌ {A = String} "request" "request")
made payload method params h = (h.method_is, ap some h.params_are, h.no_id, refl)

pub typed-Splits : (method : String) → Splits (typed method) method end
unfolding request_params get as_string
typed-Splits method = record { method_is = refl; params_are = refl; no_id = refl }

-- A payload with one parameter
pub one-Splits :
    (method k : String) (v : Value)
    → IsPlain k
    → Splits (field "type" (str method) (field k v end)) method (field k v end)
unfolding request_params get as_string
one-Splits method k v (t, r) = record {
  method_is = refl;
  params_are = rw (t, r) refl;
  no_id = rw r refl;
}

pub two-Splits :
    (method k j : String) (v w : Value)
    → IsPlain k
    → IsPlain j
    → Splits
        (field "type" (str method) (field k v (field j w end)))
        method
        (field k v (field j w end))
unfolding request_params get as_string
two-Splits method k j v w (t, r) (t', r') = record {
  method_is = refl;
  params_are = rw (t, r, t', r') refl;
  no_id = rw (r, r') refl;
}

pub of_loop-Splits :
    (method loop_id : String) → Splits (of_loop method loop_id) method (of_id "loop_id" loop_id)
of_loop-Splits method loop_id = one-Splits method "loop_id" (str loop_id) (refl, refl)
