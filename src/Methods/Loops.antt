-- ===== src/Methods/Loops.antt =====
-- request.go: the convenience methods over RequestResponse.
use soothe_client_go.Prelude.{String, Bool, Option, none}
use soothe_client_go.Prelude.Int.{ℤ}
use soothe_client_go.Json.{str, obj, Fields, end, field}
use soothe_client_go.Methods.{
  Asked, with_text, with_positive, with_flag, with_map, typed, of_loop, ask, or_default,
}

-- ListSkills
unfoldable pub list_skills : ℤ → Asked
unfolding or_default
list_skills timeout = ask (typed "skills_list") "skills_list_response" 15 timeout

-- ListModels
unfoldable pub list_models : ℤ → Asked
unfolding or_default
list_models timeout = ask (typed "models_list") "models_list_response" 15 timeout

-- InvokeSkill
unfoldable pub invoke_skill : String → String → String → ℤ → Asked
unfolding or_default with_text
invoke_skill skill args interaction_mode timeout =
    ask
      (with_text "interaction_mode" interaction_mode (
        field "type" (str "invoke_skill")
          (field "skill" (str skill) (field "args" (str args) end))))
      "invoke_skill_response" 120 timeout

-- CommandRequest
unfoldable pub command_request : String → String → Option Fields → ℤ → Asked
unfolding or_default with_text with_map
command_request command loop_id params timeout =
    ask
      (with_map "params" params (
        with_text "loop_id" loop_id
          (field "type" (str "command_request") (field "command" (str command) end))))
      "command_response" 30 timeout

-- LoopList
unfoldable pub loop_list : Option Fields → ℤ → ℤ → Asked
unfolding or_default with_positive with_map
loop_list filter limit timeout =
    ask (with_positive "limit" limit (with_map "filter" filter (typed "loop_list")))
      "loop_list_response" 15 timeout

-- LoopGet
unfoldable pub loop_get : String → Bool → ℤ → Asked
unfolding or_default with_flag
loop_get loop_id verbose timeout =
    ask (with_flag "verbose" verbose (of_loop "loop_get" loop_id)) "loop_get_response" 15 timeout

-- LoopTree
unfoldable pub loop_tree : String → String → ℤ → Asked
unfolding or_default with_text
loop_tree loop_id format timeout =
    ask (with_text "format" format (of_loop "loop_tree" loop_id)) "loop_tree_response" 15 timeout

-- LoopPrune
unfoldable pub loop_prune : String → ℤ → Bool → ℤ → Asked
unfolding or_default with_flag with_positive
loop_prune loop_id retention_days dry_run timeout =
    ask
      (with_flag "dry_run" dry_run
        (with_positive "retention_days" retention_days (of_loop "loop_prune" loop_id)))
      "loop_prune_response" 30 timeout

-- LoopDelete
unfoldable pub loop_delete : String → ℤ → Asked
unfolding or_default
loop_delete loop_id timeout = ask (of_loop "loop_delete" loop_id) "loop_delete_response" 10 timeout

-- LoopReattach
unfoldable pub loop_reattach : String → ℤ → Asked
unfolding or_default
loop_reattach loop_id timeout =
    ask (of_loop "loop_reattach" loop_id) "loop_reattach_response" 15 timeout

-- LoopNew
unfoldable pub loop_new : ℤ → Asked
unfolding or_default
loop_new timeout = ask (typed "loop_new") "loop_new_response" 15 timeout

-- LoopInput
unfoldable pub loop_input : String → String → ℤ → Asked
unfolding or_default
loop_input loop_id content timeout =
    ask
      (field "type" (str "loop_input")
        (field "loop_id" (str loop_id) (field "content" (str content) end)))
      "loop_input_response" 60 timeout

-- CommandClear, CommandExit, CommandQuit, CommandDetach, CommandCancel, CommandMemory, CommandHistory,
-- CommandReview, CommandPlan and CommandAutopilotDashboard, each with its command, and CommandPolicy and
-- CommandConfig with an empty loop id
unfoldable pub loop_command : String → String → ℤ → Asked
unfolding command_request
loop_command command loop_id timeout = command_request command loop_id none (or_default 10 timeout)

-- LoopMessages
unfoldable pub loop_messages : String → ℤ → ℤ → Bool → ℤ → Asked
unfolding or_default with_flag with_positive
loop_messages loop_id limit offset include_events timeout =
    ask
      (with_flag "include_events" include_events (
        with_positive "offset" offset
          (with_positive "limit" limit (of_loop "loop_messages" loop_id))))
      "loop_messages_response" 15 timeout

-- LoopStateGet
unfoldable pub loop_state_get : String → ℤ → Asked
unfolding or_default
loop_state_get loop_id timeout =
    ask (of_loop "loop_state_get" loop_id) "loop_state_get_response" 15 timeout

-- LoopStateUpdate
unfoldable pub loop_state_update : String → Fields → String → ℤ → Asked
unfolding or_default with_text
loop_state_update loop_id values as_node timeout =
    ask
      (with_text "as_node" as_node (
        field "type" (str "loop_state_update")
          (field "loop_id" (str loop_id) (field "values" (obj values) end))))
      "loop_state_update_response" 15 timeout

-- MCPStatus
unfoldable pub mcp_status : ℤ → Asked
unfolding or_default
mcp_status timeout = ask (typed "mcp_status") "mcp_status_response" 15 timeout

-- LoopHistoryFetch
unfoldable pub loop_history_fetch : String → ℤ → Asked
unfolding or_default
loop_history_fetch loop_id timeout =
    ask (of_loop "loop_history_fetch" loop_id) "loop_history_fetch_response" 15 timeout

-- LoopExecutionStateFetch
unfoldable pub loop_execution_state_fetch : String → ℤ → Asked
unfolding or_default
loop_execution_state_fetch loop_id timeout =
    ask (of_loop "loop_execution_state_fetch" loop_id) "loop_execution_state_fetch_response" 15
      timeout
