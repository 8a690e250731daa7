-- ===== src/Appkit/TurnRunner/Input.antt =====
-- appkit/turn_runner.go: the message that starts a turn, and the silence that ends one.
use soothe_client_go.Prelude.{
  ℕ, String, ◌≡◌, refl, sym, ap, ◌∙◌, Bool, true, false, ◌&&◌, Option, none, some, ◌==◌, trim_space,
  ltb, eqb, Bool-cases, inl, inr, eq_iff, if◌then◌else◌,
}
use soothe_client_go.Json.{
  Value, str, bool, obj, arr, Items, nil, cons, Fields, end, field, get, put, text_of, as_string,
}
use soothe_client_go.Json.Reads.{get-put}

-- InputOpts
pub record InputOpts : Type 0 where
  pub intent_hint : String
  pub preferred_subagent : String
  pub intake_scope : String
  pub interaction_mode : String
  pub response_schema : Fields
  pub response_schema_name : String
  pub response_schema_strict : Option Bool

-- `if h := strings.TrimSpace(text); h != "" { params[key] = h }`
unfoldable pub put_trimmed : String → String → Fields → Fields
put_trimmed key text params =
    let h = trim_space text in if h == "" then params else put key (str h) params

abbrev pub is_end : Fields → Bool
is_end end = true
is_end (field k v rest) = false

abbrev pub put_strict : Option Bool → Fields → Fields
put_strict none params = params
put_strict (some strict) params = put "response_schema_strict" (bool strict) params

-- The hints of the options, in the code's order
unfoldable pub put_options : Option InputOpts → Fields → Fields
unfolding put_trimmed
put_options none params = params
put_options (some opts) params =
    let hinted = put_trimmed "interaction_mode" opts.interaction_mode (
      put_trimmed "intake_scope" opts.intake_scope (
        put_trimmed "preferred_subagent" opts.preferred_subagent
          (put_trimmed "intent_hint" opts.intent_hint params))) in
    let schema =
      if is_end opts.response_schema
      then hinted
      else put "response_schema" (obj opts.response_schema) hinted in
    put_strict opts.response_schema_strict
      (put_trimmed "response_schema_name" opts.response_schema_name schema)

abbrev pub put_attachments : Items → Fields → Fields
put_attachments nil params = params
put_attachments (cons a more) params = put "attachments" (arr (cons a more)) params

-- `if loopID != "" { params["loop_id"] = loopID }`
unfoldable pub address : String → Fields → Fields
address loop_id params = if loop_id == "" then params else put "loop_id" (str loop_id) params

-- The params of the message
unfoldable pub input_params : String → String → Items → Option InputOpts → Fields
unfolding put_options address
input_params text loop_id attachments opts =
    put_options opts
      (put_attachments attachments (address loop_id (field "content" (str text) end)))

-- InputMessageForLoop: all its three returns are this map
unfoldable pub input_message_for_loop : String → String → Items → Option InputOpts → Fields
unfolding input_params
input_message_for_loop text loop_id attachments opts = field "proto" (str "1") (
    field "type" (str "notification") (
      field "method" (str "loop_input")
        (field "params" (obj (input_params text loop_id attachments opts)) end)))

-- idleTimeoutForTurn, with durations that are not negative; zero is no timeout
unfoldable pub idle_timeout_for_turn : ℕ → ℕ → Bool → ℕ
idle_timeout_for_turn idle floor has_attachments =
    if eqb idle 0
    then 0
    else if has_attachments && (ltb 0 floor && ltb idle floor)
    then floor
    else idle

module _ (k : String) where
  put_if :
      (b : Bool) (key : String) (v : Value) (params : Fields)
      → (key == k) ≡ false
      → get k (if b then params else put key v params) ≡ get k params
  put_if true key v params other = refl
  put_if false key v params other = rw (get-put key k v params, other) refl

  put_trimmed_keeps :
      (key text : String) (params : Fields)
      → (key == k) ≡ false
      → get k (put_trimmed key text params) ≡ get k params
  unfolding put_trimmed
  put_trimmed_keeps key text params other =
      put_if (trim_space text == "") key (str (trim_space text)) params other

  -- The keys of the options are other keys.
  abbrev IsFree : Type 0
  IsFree =
      (("intent_hint" == k) ≡ false)
      × (("preferred_subagent" == k) ≡ false)
      × (("intake_scope" == k) ≡ false)
      × (("interaction_mode" == k) ≡ false)
      × (("response_schema" == k) ≡ false)
      × (("response_schema_name" == k) ≡ false)
      × (("response_schema_strict" == k) ≡ false)
      × (("attachments" == k) ≡ false)

  put_strict_keeps :
      (strict : Option Bool) (params : Fields)
      → IsFree
      → get k (put_strict strict params) ≡ get k params
  put_strict_keeps none params free = refl
  put_strict_keeps (some strict) params free =
      put_if false "response_schema_strict" (bool strict) params free.6

  put_options_keeps :
      (opts : Option InputOpts) (params : Fields)
      → IsFree
      → get k (put_options opts params) ≡ get k params
  unfolding put_options
  put_options_keeps none params free = refl
  put_options_keeps (some opts) params free =
      let a = put_trimmed "intent_hint" opts.intent_hint params in
      let b = put_trimmed "preferred_subagent" opts.preferred_subagent a in
      let c = put_trimmed "intake_scope" opts.intake_scope b in
      let d = put_trimmed "interaction_mode" opts.interaction_mode c in
      let e =
        if is_end opts.response_schema
        then d
        else put "response_schema" (obj opts.response_schema) d in
      put_strict_keeps opts.response_schema_strict
        (put_trimmed "response_schema_name" opts.response_schema_name e) free
      ∙ put_trimmed_keeps "response_schema_name" opts.response_schema_name e free.5
      ∙ put_if (is_end opts.response_schema) "response_schema" (obj opts.response_schema) d free.4
      ∙ put_trimmed_keeps "interaction_mode" opts.interaction_mode c free.3
      ∙ put_trimmed_keeps "intake_scope" opts.intake_scope b free.2
      ∙ put_trimmed_keeps "preferred_subagent" opts.preferred_subagent a free.1
      ∙ put_trimmed_keeps "intent_hint" opts.intent_hint params free.0

  put_attachments_keeps :
      (attachments : Items) (params : Fields)
      → IsFree
      → get k (put_attachments attachments params) ≡ get k params
  put_attachments_keeps nil params free = refl
  put_attachments_keeps (cons a more) params free =
      put_if false "attachments" (arr (cons a more)) params free.7

addressed_to :
    (text loop_id : String)
    → text_of "loop_id" (address loop_id (field "content" (str text) end)) ≡ loop_id
unfolding address as_string get put
addressed_to text loop_id = elim (Bool-cases (loop_id == "")) [
  | inl e ↦ rw e (sym ((eq_iff loop_id "").0 e))
  | inr e ↦ rw e refl
]

-- Whatever the attachments and the options, the params of the input carry its text and its loop id, or
-- no loop id where that is empty.
pub input_params-addresses :
    (text loop_id : String) (attachments : Items) (opts : Option InputOpts)
    → (text_of "content" (input_params text loop_id attachments opts) ≡ text)
      × (text_of "loop_id" (input_params text loop_id attachments opts) ≡ loop_id)
unfolding input_params address as_string get
input_params-addresses text loop_id attachments opts =
    let addressed = address loop_id (field "content" (str text) end) in
    let whole = put_attachments attachments addressed in
    let content_free : IsFree "content" = (refl, refl, refl, refl, refl, refl, refl, refl) in
    let loop_free : IsFree "loop_id" = (refl, refl, refl, refl, refl, refl, refl, refl) in
    (
      ap as_string (
          put_options_keeps "content" opts whole content_free
          ∙ put_attachments_keeps "content" attachments addressed content_free
          ∙ put_if "content" (loop_id == "") "loop_id" (str loop_id)
              (field "content" (str text) end) refl),
      ap as_string (
            put_options_keeps "loop_id" opts whole loop_free
            ∙ put_attachments_keeps "loop_id" attachments addressed loop_free)
          ∙ addressed_to text loop_id,
    )
