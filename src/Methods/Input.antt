-- ===== src/Methods/Input.antt =====
-- send_methods.go: SendInput with its options.
pub mod Values
use mathlib.Core.Option
use soothe_client_go.Prelude.{
  String, Bool, true, false, Option, none, some, List, [], ◌∷◌, ◌==◌, trim_space, if◌then◌else◌,
}
use soothe_client_go.Json.{Value, str, bool, obj, arr, Items, nil, cons, Fields, end, field, put}
use soothe_client_go.Protocol.Envelopes.{new_notification_envelope}
use soothe_client_go.Methods.{Sending, sends, with_text, with_flag, with_map, required_to_send}

-- inputOptions
pub record InputOptions : Type 0 where
  pub loop_id : String
  pub preferred_subagent : String
  pub intake_scope : String
  pub model : String
  pub model_params : Option Fields
  pub attachments : Option Items
  pub intent_hint : String
  pub response_schema : Option Fields
  pub response_schema_name : String
  pub response_schema_strict : Option Bool
  pub clarification_mode : String
  pub interaction_mode : String
  pub clarification_answer : Bool
  pub clarification_answers : Option (List String)

-- `&inputOptions{}`
abbrev pub no_options : InputOptions
no_options = record {
  loop_id = "";
  preferred_subagent = "";
  intake_scope = "";
  model = "";
  model_params = none;
  attachments = none;
  intent_hint = "";
  response_schema = none;
  response_schema_name = "";
  response_schema_strict = none;
  clarification_mode = "";
  interaction_mode = "";
  clarification_answer = false;
  clarification_answers = none;
}

-- InputOption
abbrev pub InputOption : Type 0
InputOption = InputOptions → InputOptions

unfoldable pub with_loop_id : String → InputOption
with_loop_id loop_id o = record o { loop_id = loop_id }

unfoldable pub with_subagent : String → InputOption
with_subagent name o = record o { preferred_subagent = name }

unfoldable pub with_intake_scope : String → InputOption
with_intake_scope scope o = record o { intake_scope = scope }

unfoldable pub with_attachments : Option Items → InputOption
with_attachments attachments o = record o { attachments = attachments }

unfoldable pub with_model : String → InputOption
with_model model o = record o { model = model }

unfoldable pub with_model_params : Option Fields → InputOption
with_model_params params o = record o { model_params = params }

unfoldable pub with_intent_hint : String → InputOption
with_intent_hint hint o = record o { intent_hint = hint }

unfoldable pub with_response_schema : Option Fields → InputOption
with_response_schema schema o = record o { response_schema = schema }

unfoldable pub with_response_schema_name : String → InputOption
with_response_schema_name name o = record o { response_schema_name = name }

unfoldable pub with_response_schema_strict : Bool → InputOption
with_response_schema_strict strict o = record o { response_schema_strict = some strict }

unfoldable pub with_clarification_mode : String → InputOption
with_clarification_mode mode o = record o { clarification_mode = mode }

unfoldable pub with_interaction_mode : String → InputOption
with_interaction_mode mode o = record o { interaction_mode = mode }

unfoldable pub with_clarification_answer : InputOption
with_clarification_answer o = record o { clarification_answer = true }

unfoldable pub with_clarification_answers : Option (List String) → InputOption
with_clarification_answers answers o = record o { clarification_answers = answers }

-- `for _, opt := range opts { opt(o) }`
unfoldable pub apply_options : List InputOption → InputOptions → InputOptions
apply_options [] o = o
apply_options (opt ∷ opts) o = apply_options opts (opt o)

-- `if v != nil { params[key] = v }`
unfoldable pub with_value : String → Option Value → Fields → Fields
with_value key none params = params
with_value key (some v) params = put key v params

unfoldable pub strings : List String → Items
strings [] = nil
strings (s ∷ ss) = cons (str s) (strings ss)

-- The parameters of loop_input
unfoldable pub input_params : String → InputOptions → Fields
unfolding with_text with_map with_flag with_value strings
input_params text o =
    let p1 = field "loop_id" (str (trim_space o.loop_id)) (field "content" (str text) end) in
    let p2 = with_text "preferred_subagent" o.preferred_subagent p1 in
    let p3 = with_text "intake_scope" o.intake_scope p2 in
    let p4 = with_value "attachments" (Option.map arr o.attachments) p3 in
    let p5 = with_text "model" o.model p4 in
    let p6 = with_map "model_params" o.model_params p5 in
    let p7 = with_text "intent_hint" o.intent_hint p6 in
    let p8 = with_map "response_schema" o.response_schema p7 in
    let p9 = with_text "response_schema_name" o.response_schema_name p8 in
    let p10 = with_value "response_schema_strict" (Option.map bool o.response_schema_strict) p9 in
    let p11 = with_text "clarification_mode" o.clarification_mode p10 in
    let p12 = with_text "interaction_mode" o.interaction_mode p11 in
    let p13 = with_flag "clarification_answer" o.clarification_answer p12 in
    with_value "clarification_answers"
      (Option.map (λ answers. arr (strings answers)) o.clarification_answers) p13

-- SendInput
unfoldable pub send_input : String → List InputOption → Sending
unfolding apply_options input_params new_notification_envelope
send_input text opts =
    let o = apply_options opts no_options in
    required_to_send "loopID" (trim_space o.loop_id)
      (sends (new_notification_envelope "loop_input" (input_params text o)))
