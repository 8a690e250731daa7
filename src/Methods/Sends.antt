-- ===== src/Methods/Sends.antt =====
-- send_methods.go: the methods that send a request or a notification and do not wait.
use soothe_client_go.Prelude.{String, Bool, Option, List, ◌==◌, if◌then◌else◌}
use soothe_client_go.Prelude.Int.{ℤ}
use soothe_client_go.Json.{str, obj, Fields, end, field}
use soothe_client_go.Methods.{
  Sending, sends, with_text, with_positive, with_flag, with_map, opt_request_id, request, of_id,
}
use soothe_client_go.Protocol.Envelopes.{
  new_notification_envelope, new_subscribe_envelope, new_unsubscribe_envelope, new_plain_envelope,
}

-- SendCommand
unfoldable pub send_command : String → Sending
unfolding new_notification_envelope
send_command cmd = sends (new_notification_envelope "slash_command" (of_id "cmd" cmd))

-- SendDetach
unfoldable pub send_detach : Sending
unfolding new_plain_envelope
send_detach = sends (new_plain_envelope "disconnect")

-- SendDaemonStatus
unfoldable pub send_daemon_status : List String → String → Sending
unfolding request
send_daemon_status ids fresh = request "daemon_status" end ids fresh

-- SendDaemonShutdown
unfoldable pub send_daemon_shutdown : List String → String → Sending
unfolding request
send_daemon_shutdown ids fresh = request "daemon_shutdown" end ids fresh

-- SendConfigGet
unfoldable pub send_config_get : String → List String → String → Sending
unfolding request
send_config_get section ids fresh = request "config_get" (of_id "section" section) ids fresh

-- SendSkillsList
unfoldable pub send_skills_list : List String → String → Sending
unfolding request
send_skills_list ids fresh = request "skills_list" end ids fresh

-- SendModelsList
unfoldable pub send_models_list : List String → String → Sending
unfolding request
send_models_list ids fresh = request "models_list" end ids fresh

-- SendInvokeSkill
unfoldable pub send_invoke_skill : String → String → List String → String → Sending
unfolding request with_text
send_invoke_skill skill args ids fresh =
    request "invoke_skill" (with_text "args" args (of_id "skill" skill)) ids fresh

-- SendLoopList
unfoldable pub send_loop_list : Option Fields → ℤ → List String → String → Sending
unfolding request with_positive with_map
send_loop_list filter limit ids fresh =
    request "loop_list" (with_positive "limit" limit (with_map "filter" filter end)) ids fresh

-- SendLoopGet
unfoldable pub send_loop_get : String → Bool → List String → String → Sending
unfolding request with_flag
send_loop_get loop_id verbose ids fresh =
    request "loop_get" (with_flag "verbose" verbose (of_id "loop_id" loop_id)) ids fresh

-- SendLoopTree
unfoldable pub send_loop_tree : String → String → List String → String → Sending
unfolding request with_text
send_loop_tree loop_id format ids fresh =
    request "loop_tree" (with_text "format" format (of_id "loop_id" loop_id)) ids fresh

-- SendLoopPrune
unfoldable pub send_loop_prune : String → ℤ → List String → String → Sending
unfolding request with_positive
send_loop_prune loop_id keep_latest ids fresh =
    request "loop_prune" (with_positive "keep_latest" keep_latest (of_id "loop_id" loop_id)) ids
      fresh

-- SendLoopDelete
unfoldable pub send_loop_delete : String → List String → String → Sending
unfolding request
send_loop_delete loop_id ids fresh = request "loop_delete" (of_id "loop_id" loop_id) ids fresh

-- SendLoopReattach
unfoldable pub send_loop_reattach : String → List String → String → Sending
unfolding request
send_loop_reattach loop_id ids fresh = request "loop_reattach" (of_id "loop_id" loop_id) ids fresh

-- SendLoopSubscribe
unfoldable pub send_loop_subscribe : String → String → String → List String → String → Sending
unfolding with_text opt_request_id new_subscribe_envelope
send_loop_subscribe loop_id wire_tier stream_delivery ids fresh =
    let params =
      with_text "stream_delivery" stream_delivery
        (with_text "wire_tier" wire_tier (of_id "loop_id" loop_id)) in
    let rid = opt_request_id ids in
    let env = new_subscribe_envelope "loop_events" params fresh in
    sends (if rid == "" then env else record env { id = rid })

-- SendLoopDetach
unfoldable pub send_loop_detach : String → List String → Sending
unfolding opt_request_id new_unsubscribe_envelope
send_loop_detach loop_id ids =
    let rid = opt_request_id ids in
    sends (new_unsubscribe_envelope (if rid == "" then loop_id else rid))

-- SendLoopNew
unfoldable pub send_loop_new : String → String → String → Bool → List String → String → Sending
unfolding request with_text with_flag
send_loop_new client_workspace user_id client_workspace_id is_ephemeral ids fresh =
    request "loop_new"
      (with_flag "is_ephemeral" is_ephemeral (
        with_text "client_workspace_id" client_workspace_id
          (with_text "user_id" user_id (with_text "client_workspace" client_workspace end))))
      ids fresh

-- SendLoopInput
unfoldable pub send_loop_input : String → String → Sending
unfolding new_notification_envelope
send_loop_input loop_id content = sends (
    new_notification_envelope "loop_input"
      (field "loop_id" (str loop_id) (field "content" (str content) end)))

-- SendLoopMessages
unfoldable pub send_loop_messages : String → ℤ → ℤ → Bool → List String → String → Sending
unfolding request with_flag with_positive
send_loop_messages loop_id limit offset include_events ids fresh =
    request "loop_messages"
      (with_flag "include_events" include_events
        (with_positive "offset" offset (with_positive "limit" limit (of_id "loop_id" loop_id))))
      ids fresh

-- SendLoopStateGet
unfoldable pub send_loop_state_get : String → List String → String → Sending
unfolding request
send_loop_state_get loop_id ids fresh = request "loop_state_get" (of_id "loop_id" loop_id) ids fresh

-- SendLoopStateUpdate
unfoldable pub send_loop_state_update : String → Fields → String → List String → String → Sending
unfolding request with_text
send_loop_state_update loop_id values as_node ids fresh =
    request "loop_state_update"
      (with_text "as_node" as_node
        (field "loop_id" (str loop_id) (field "values" (obj values) end)))
      ids fresh

-- SendMCPStatus
unfoldable pub send_mcp_status : List String → String → Sending
unfolding request
send_mcp_status ids fresh = request "mcp_status" end ids fresh

-- SendLoopHistoryFetch
unfoldable pub send_loop_history_fetch : String → List String → String → Sending
unfolding request
send_loop_history_fetch loop_id ids fresh =
    request "loop_history_fetch" (of_id "loop_id" loop_id) ids fresh

-- SendLoopExecutionStateFetch
unfoldable pub send_loop_execution_state_fetch : String → List String → String → Sending
unfolding request
send_loop_execution_state_fetch loop_id ids fresh =
    request "loop_execution_state_fetch" (of_id "loop_id" loop_id) ids fresh

-- SendConfigReload
unfoldable pub send_config_reload : List String → String → Sending
unfolding request
send_config_reload ids fresh = request "config_reload" end ids fresh

-- SendAuth
unfoldable pub send_auth : String → String → List String → String → Sending
unfolding request
send_auth access_key secret_key ids fresh =
    request "auth" (field "access_key" (str access_key) (field "secret_key" (str secret_key) end))
      ids fresh

-- SendAuthRefresh
unfoldable pub send_auth_refresh : String → List String → String → Sending
unfolding request
send_auth_refresh refresh_token ids fresh =
    request "auth_refresh" (of_id "refresh_token" refresh_token) ids fresh

-- SendCronAdd
unfoldable pub send_cron_add : String → ℤ → List String → String → Sending
unfolding request with_positive
send_cron_add text priority ids fresh =
    request "cron_add" (with_positive "priority" priority (of_id "text" text)) ids fresh

-- SendCronList
unfoldable pub send_cron_list : String → List String → String → Sending
unfolding request with_text
send_cron_list status ids fresh = request "cron_list" (with_text "status" status end) ids fresh

-- SendCronShow
unfoldable pub send_cron_show : String → List String → String → Sending
unfolding request
send_cron_show job_id ids fresh = request "cron_show" (of_id "job_id" job_id) ids fresh

-- SendCronCancel
unfoldable pub send_cron_cancel : String → List String → String → Sending
unfolding request
send_cron_cancel job_id ids fresh = request "cron_cancel" (of_id "job_id" job_id) ids fresh
