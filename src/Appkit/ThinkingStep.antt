-- ===== src/Appkit/ThinkingStep.antt =====
-- appkit/thinking_step.go: the line that a progress event shows to the user.
pub mod Bounds
use Prim.Native.String.{◌++◌ as concat}
use soothe_client_go.Prelude.{
  ℕ, ◌+◌, String, Bool, true, false, not, ◌&&◌, ◌||◌, Option, none, some, List, [], ◌∷◌, ◌==◌,
  contains_key, lookup, trim_space, rune_count, take_runes, ltb, if◌then◌else◌,
}
use soothe_client_go.Prelude.Int.{ℤ, is_positive, eqb_ℤ, pos}
use soothe_client_go.Prelude.Decimal.{itoa}
use soothe_client_go.Json.{Value, Number, str, num, Fields, get, text_of}
use soothe_client_go.Events.{plan_created}

abbrev pub max_thinking_step_runes : ℕ
max_thinking_step_runes = 280

abbrev pub plan_batch_started : String
plan_batch_started = "soothe.cognition.plan.batch.started"

abbrev pub goal_created : String
goal_created = "soothe.cognition.goal.created"

abbrev pub tool_started : String
tool_started = "soothe.tool.execution.started"

-- defaultThinkingStepEvents
abbrev pub default_thinking_step_events : List (String × Bool)
default_thinking_step_events =
    ("soothe.cognition.plan.step.started", true)
    ∷ ("soothe.cognition.plan.step.completed", true)
    ∷ ("soothe.cognition.plan.step.failed", true)
    ∷ ("soothe.lifecycle.iteration.started", true)
    ∷ ("soothe.agent.loop.step.started", true)
    ∷ ("soothe.agent.loop.started", true)
    ∷ (plan_batch_started, true)
    ∷ (plan_created, true)
    ∷ (goal_created, true)
    ∷ (tool_started, true)
    ∷ []

-- `m[key]` of a map[string]bool
abbrev pub is_listed : Option Bool → Bool
is_listed none = false
is_listed (some b) = b

unfoldable pub allows : String → List (String × Bool) → Bool
allows key m = is_listed (lookup key m)

-- strField
unfoldable pub str_field : Fields → List String → String
str_field data' [] = ""
str_field data' (key ∷ keys) =
    let s = trim_space (text_of key data') in
    let rest = str_field data' keys in if s == "" then rest else s

-- formatPlanStepLine
unfoldable pub format_plan_step_line : Fields → String → String
unfolding str_field
format_plan_step_line data' suffix =
    let step_id = str_field data' ("step_id" ∷ []) in
    let desc = str_field data' ("description" ∷ []) in
    if not (step_id == "") && not (suffix == "")
    then concat "Step " (concat step_id (concat ": " suffix))
    else if not (step_id == "") && not (desc == "")
    then concat "Step " (concat step_id (concat ": " desc))
    else if not (step_id == "")
    then concat "Step " step_id
    else if not (desc == "") && not (suffix == "")
    then concat "Step: " suffix
    else if not (desc == "")
    then concat "Step: " desc
    else if not (suffix == "")
    then concat "Step: " suffix
    else ""

-- formatAgentStepLine
unfoldable pub format_agent_step_line : Fields → String → String
unfolding str_field
format_agent_step_line data' suffix =
    let step_id = str_field data' ("step_id" ∷ []) in
    let desc = str_field data' ("description" ∷ []) in
    if not (step_id == "") && not (desc == "")
    then concat "Step " (concat step_id (concat ": " desc))
    else if not (desc == "")
    then (if not (suffix == "") then concat "Step: " suffix else concat "Step: " desc)
    else if not (step_id == "")
    then concat "Step " step_id
    else ""

-- The case of a failed step
unfoldable pub failed_step_line : Fields → String
unfolding str_field
failed_step_line data' =
    let step_id = str_field data' ("step_id" ∷ []) in
    let err = str_field data' ("error" ∷ []) in
    if not (step_id == "") && not (err == "")
    then concat "Step " (concat step_id (concat " failed: " err))
    else if not (step_id == "")
    then concat "Step " (concat step_id " failed")
    else if not (err == "")
    then concat "Step failed: " err
    else ""

-- The case of a batch: a count that is above zero, cut to an integer
unfoldable pub batch_line : Value → String
batch_line (num n) =
    if is_positive n.floor || (eqb_ℤ n.floor (pos 0) && not n.exact)
    then concat "Running " (concat (itoa n.floor) " steps in parallel")
    else ""
batch_line _ = ""

-- `if g := strField(data, keys...); g != "" { line = title + g }`
unfoldable pub titled_line : String → List String → Fields → String
unfolding str_field
titled_line title keys data' =
    let g = str_field data' keys in if g == "" then "" else concat title g

-- The switch of extractThinkingStep; its default returns no line
unfoldable pub thinking_line : String → Fields → String
unfolding format_plan_step_line format_agent_step_line failed_step_line batch_line titled_line
thinking_line event_type data' =
    if event_type == "soothe.cognition.plan.step.started"
    then format_plan_step_line data' ""
    else if event_type == "soothe.cognition.plan.step.completed"
    then format_plan_step_line data' "done"
    else if event_type == "soothe.cognition.plan.step.failed"
    then failed_step_line data'
    else if event_type == "soothe.agent.loop.step.started"
    then format_agent_step_line data' ""
    else if event_type == plan_batch_started
    then batch_line (get "parallel_count" data')
    else if event_type == plan_created || event_type == "soothe.agent.loop.started"
    then titled_line "Goal: " ("goal" ∷ []) data'
    else if event_type == goal_created
    then titled_line "Goal: " ("friendly_message" ∷ "description" ∷ []) data'
    else if event_type == "soothe.lifecycle.iteration.started"
    then titled_line "Iteration: " ("goal_description" ∷ []) data'
    else if event_type == tool_started
    then titled_line "Tool: " ("tool_name" ∷ "name" ∷ []) data'
    else ""

-- The end of extractThinkingStep
unfoldable pub bound_line : String → Option String
bound_line raw =
    let line = trim_space raw in
    if line == ""
    then none
    else if ltb max_thinking_step_runes (rune_count line)
    then some (concat (take_runes max_thinking_step_runes line) "…")
    else some line

-- extractThinkingStep, with ThinkingStepEvents where the config has them
unfoldable pub extract_thinking_step :
    Option (List (String × Bool)) → String → Fields → Option String
unfolding allows thinking_line bound_line
extract_thinking_step events raw data' =
    let event_type = trim_space raw in
    let allow : List (String × Bool) = elim events [
      | none ↦ default_thinking_step_events
      | some own ↦ own
    ] in
    if raw == ""
    then none
    else if not (allows event_type allow)
    then none
    else bound_line (thinking_line event_type data')
