-- ===== src/Methods/Input/Values.antt =====
-- send_methods.go: the parameters of a loop_input, read as a table.
use mathlib.Core.Option
use soothe_client_go.Prelude.{
  String, ◌≡◌, refl, ap, subst, ◌∙◌, Bool, true, false, ◌&&◌, Option, none, some, List, [], ◌∷◌,
  ◌==◌, Bool-cases, both, eq_iff, inl, inr, arith, trim_space, if◌then◌else◌,
}
use soothe_client_go.Json.{Value, null, str, bool, obj, arr, Fields, end, get, put}
use soothe_client_go.Json.Reads.{get-put}
use soothe_client_go.Methods.{with_text, with_flag, with_map}
use soothe_client_go.Methods.Input.{InputOptions, with_value, strings, input_params}

abbrev pub Entry : Type 0
Entry = String × Option Value

-- An option that is not set is empty.
abbrev pub text_value : String → Option Value
text_value s = if s == "" then none else some (str s)

abbrev pub flag_value : Bool → Option Value
flag_value b = if b then some (bool true) else none

-- The parameters that come of the options, with the key of each
abbrev pub option_entries : InputOptions → List Entry
option_entries o =
    ("preferred_subagent", text_value o.preferred_subagent)
    ∷ ("intake_scope", text_value o.intake_scope)
    ∷ ("attachments", Option.map arr o.attachments)
    ∷ ("model", text_value o.model)
    ∷ ("model_params", Option.map obj o.model_params)
    ∷ ("intent_hint", text_value o.intent_hint)
    ∷ ("response_schema", Option.map obj o.response_schema)
    ∷ ("response_schema_name", text_value o.response_schema_name)
    ∷ ("response_schema_strict", Option.map bool o.response_schema_strict)
    ∷ ("clarification_mode", text_value o.clarification_mode)
    ∷ ("interaction_mode", text_value o.interaction_mode)
    ∷ ("clarification_answer", flag_value o.clarification_answer)
    ∷ (
      "clarification_answers",
      Option.map (λ answers. arr (strings answers)) o.clarification_answers,
    )
    ∷ []

abbrev pub or_else : Option Value → Value → Value
or_else none d = d
or_else (some v) d = v

-- The value of a key in a table, or else `d`
unfoldable pub value_in : String → List Entry → Value → Value
value_in k [] d = d
value_in k ((j, v) ∷ es) d = let rest = value_in k es d in if j == k then or_else v d else rest

-- The parameters of loop_input as a table
abbrev pub input_entries : String → InputOptions → List Entry
input_entries text o =
    ("loop_id", some (str (trim_space o.loop_id))) ∷ ("content", some (str text)) ∷ option_entries o

put_entries : List Entry → Fields → Fields
put_entries [] fs = fs
put_entries ((j, v) ∷ es) fs = put_entries es (with_value j v fs)

-- A key is not in a table.
unfoldable absent : String → List Entry → Bool
absent j [] = true
absent j ((i, v) ∷ es) = let rest = absent j es in if i == j then false else rest

unfoldable distinct : List Entry → Bool
unfolding absent
distinct [] = true
distinct ((j, v) ∷ es) = absent j es && distinct es

value_in-absent :
    (k : String) (es : List Entry) (d : Value) → absent k es ≡ true → value_in k es d ≡ d
unfolding absent value_in
value_in-absent k [] d e = refl
value_in-absent k ((j, v) ∷ es) d e = ground (arith, value_in-absent k es d)

get-with_value :
    (k j : String) (v : Option Value) (fs : Fields)
    → (j == k) ≡ true
    → get k (with_value j v fs) ≡ or_else v (get k fs)
unfolding with_value
get-with_value k j none fs e = refl
get-with_value k j (some v) fs e = get-put j k v fs ∙ rw e refl

get-with_other :
    (k j : String) (v : Option Value) (fs : Fields)
    → (j == k) ≡ false
    → get k (with_value j v fs) ≡ get k fs
unfolding with_value
get-with_other k j none fs e = refl
get-with_other k j (some v) fs e = get-put j k v fs ∙ rw e refl

get-put_entries :
    (k : String) (es : List Entry) (fs : Fields)
    → distinct es ≡ true
    → get k (put_entries es fs) ≡ value_in k es (get k fs)
unfolding put_entries distinct value_in
get-put_entries k [] fs e = refl
get-put_entries k ((j, v) ∷ es) fs e =
    let fs' = with_value j v fs in
    let (fresh, rest) = both (absent j es) (distinct es) e in
    elim (Bool-cases (j == k)) [
      | inl same ↦
          let gone = subst (λ x. absent x es ≡ true) ((eq_iff j k).0 same) fresh in
          get-put_entries k es fs' rest
          ∙ value_in-absent k es (get k fs') gone
          ∙ rw same (get-with_value k j v fs same)
      | inr other ↦
          get-put_entries k es fs' rest
          ∙ rw other (ap (value_in k es) (get-with_other k j v fs other))
    ]

with_text-value :
    (k s : String) (fs fs' : Fields) → fs ≡ fs' → with_text k s fs ≡ with_value k (text_value s) fs'
unfolding with_text with_value
with_text-value k s fs fs' e = elim (Bool-cases (s == "")) [
  | inl t ↦ rw t e
  | inr t ↦ rw t (ap (put k (str s)) e)
]

with_map-value :
    (k : String) (m : Option Fields) (fs fs' : Fields)
    → fs ≡ fs'
    → with_map k m fs ≡ with_value k (Option.map obj m) fs'
unfolding with_map with_value
with_map-value k none fs fs' e = e
with_map-value k (some m) fs fs' e = ap (put k (obj m)) e

with_flag-value :
    (k : String) (b : Bool) (fs fs' : Fields)
    → fs ≡ fs'
    → with_flag k b fs ≡ with_value k (flag_value b) fs'
unfolding with_flag with_value
with_flag-value k true fs fs' e = ap (put k (bool true)) e
with_flag-value k false fs fs' e = e

input_params-entries :
    (text : String) (o : InputOptions)
    → input_params text o ≡ put_entries (input_entries text o) end
unfolding input_params put_entries with_value put
input_params-entries text o =
    ap
      (with_value "clarification_answers"
        (Option.map (λ answers. arr (strings answers)) o.clarification_answers))
      (with_flag-value _ o.clarification_answer _ _ (
        with_text-value _ o.interaction_mode _ _ (
          with_text-value _ o.clarification_mode _ _ (
            ap (with_value "response_schema_strict" (Option.map bool o.response_schema_strict)) (
              with_text-value _ o.response_schema_name _ _ (
                with_map-value _ o.response_schema _ _ (
                  with_text-value _ o.intent_hint _ _ (
                    with_map-value _ o.model_params _ _ (
                      with_text-value _ o.model _ _ (
                        ap (with_value "attachments" (Option.map arr o.attachments)) (
                          with_text-value _ o.intake_scope _ _
                            (with_text-value _ o.preferred_subagent _ _ refl))))))))))))

-- Under each key, the parameters of loop_input hold the value of its option where that is set, and nothing
-- else; the loop id is trimmed.
pub input_params-values :
    (k text : String) (o : InputOptions)
    → get k (input_params text o) ≡ value_in k (input_entries text o) null
unfolding distinct absent get
input_params-values k text o =
    ap (get k) (input_params-entries text o) ∙ get-put_entries k (input_entries text o) end refl
