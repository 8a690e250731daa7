-- ===== src/Methods/Twins.antt =====
-- The requests that both a blocking method and a method that only sends make. Left out is LoopPrune of the
-- client, whose parameters are not those of SendLoopPrune; prune_loop is LoopPrune of helpers.go.
use soothe_client_go.Prelude.{String, ◌≡◌, Bool, false, Option, some, List, ◌==◌}
use soothe_client_go.Prelude.Int.{ℤ}
use soothe_client_go.Json.{Fields, text_of}
use soothe_client_go.Protocol.{Envelope}
use soothe_client_go.Request.{request_params}
use soothe_client_go.Methods.{Asked, asks, lacks, Sending, sends, refuses}
use soothe_client_go.Methods.Loops
use soothe_client_go.Methods.Sends
use soothe_client_go.Methods.Jobs
use soothe_client_go.Methods.Helpers

-- A request with its arguments
pub data Twin : Type 0 where
  skills_list models_list mcp_status daemon_status daemon_shutdown config_reload : Twin
  config_get : (section : String) → Twin
  loop_list : (filter : Option Fields) (limit : ℤ) → Twin
  loop_get : (loop_id : String) (verbose : Bool) → Twin
  loop_tree : (loop_id format : String) → Twin
  loop_delete loop_reattach loop_state_get loop_history_fetch loop_execution_state_fetch :
      (loop_id : String) → Twin
  loop_messages : (loop_id : String) (limit offset : ℤ) (include_events : Bool) → Twin
  loop_state_update : (loop_id : String) (values : Fields) (as_node : String) → Twin
  auth : (access_key secret_key : String) → Twin
  auth_refresh : (refresh_token : String) → Twin
  cron_list : (status : String) → Twin
  cron_add : (text : String) (priority : ℤ) → Twin
  cron_show cron_cancel : (job_id : String) → Twin
  invoke_skill : (skill args : String) → Twin
  loop_new : Twin
  prune_loop : (loop_id : String) (keep_latest : ℤ) → Twin
  job_create : (goal workspace : String) → Twin
  job_status job_pause job_resume job_cancel job_dag : (job_id : String) → Twin

-- The method that waits for the answer
abbrev pub waits : Twin → ℤ → Asked
waits skills_list timeout = Loops.list_skills timeout
waits models_list timeout = Loops.list_models timeout
waits mcp_status timeout = Loops.mcp_status timeout
waits daemon_status timeout = Helpers.check_daemon_status timeout
waits daemon_shutdown timeout = Helpers.request_daemon_shutdown timeout
waits config_reload timeout = Helpers.request_daemon_config_reload timeout
waits (config_get section) timeout = Helpers.fetch_config_section section timeout
waits (loop_list filter limit) timeout = Loops.loop_list filter limit timeout
waits (loop_get loop_id verbose) timeout = Loops.loop_get loop_id verbose timeout
waits (loop_tree loop_id format) timeout = Loops.loop_tree loop_id format timeout
waits (loop_delete loop_id) timeout = Loops.loop_delete loop_id timeout
waits (loop_reattach loop_id) timeout = Loops.loop_reattach loop_id timeout
waits (loop_state_get loop_id) timeout = Loops.loop_state_get loop_id timeout
waits (loop_history_fetch loop_id) timeout = Loops.loop_history_fetch loop_id timeout
waits (loop_execution_state_fetch loop_id) timeout =
    Loops.loop_execution_state_fetch loop_id timeout
waits (loop_messages loop_id limit offset include_events) timeout =
    Loops.loop_messages loop_id limit offset include_events timeout
waits (loop_state_update loop_id values as_node) timeout =
    Loops.loop_state_update loop_id values as_node timeout
waits (auth access_key secret_key) timeout = Helpers.request_auth access_key secret_key timeout
waits (auth_refresh refresh_token) timeout = Helpers.request_auth_refresh refresh_token timeout
waits (cron_list status) timeout = Jobs.cron_list status timeout
waits (cron_add text priority) timeout = Jobs.cron_add text priority timeout
waits (cron_show job_id) timeout = Jobs.cron_show job_id timeout
waits (cron_cancel job_id) timeout = Jobs.cron_cancel job_id timeout
waits (invoke_skill skill args) timeout = Loops.invoke_skill skill args "" timeout
waits loop_new timeout = Loops.loop_new timeout
waits (prune_loop loop_id keep_latest) timeout = Helpers.prune_loop loop_id keep_latest timeout
waits (job_create goal workspace) timeout = Jobs.job_create goal workspace timeout
waits (job_status job_id) timeout = Jobs.job_status job_id timeout
waits (job_pause job_id) timeout = Jobs.job_pause job_id timeout
waits (job_resume job_id) timeout = Jobs.job_resume job_id timeout
waits (job_cancel job_id) timeout = Jobs.job_cancel job_id timeout
waits (job_dag job_id) timeout = Jobs.job_dag job_id timeout

-- The method that sends the request and does not wait
abbrev pub only_sends : Twin → List String → String → Sending
only_sends skills_list ids fresh = Sends.send_skills_list ids fresh
only_sends models_list ids fresh = Sends.send_models_list ids fresh
only_sends mcp_status ids fresh = Sends.send_mcp_status ids fresh
only_sends daemon_status ids fresh = Sends.send_daemon_status ids fresh
only_sends daemon_shutdown ids fresh = Sends.send_daemon_shutdown ids fresh
only_sends config_reload ids fresh = Sends.send_config_reload ids fresh
only_sends (config_get section) ids fresh = Sends.send_config_get section ids fresh
only_sends (loop_list filter limit) ids fresh = Sends.send_loop_list filter limit ids fresh
only_sends (loop_get loop_id verbose) ids fresh = Sends.send_loop_get loop_id verbose ids fresh
only_sends (loop_tree loop_id format) ids fresh = Sends.send_loop_tree loop_id format ids fresh
only_sends (loop_delete loop_id) ids fresh = Sends.send_loop_delete loop_id ids fresh
only_sends (loop_reattach loop_id) ids fresh = Sends.send_loop_reattach loop_id ids fresh
only_sends (loop_state_get loop_id) ids fresh = Sends.send_loop_state_get loop_id ids fresh
only_sends (loop_history_fetch loop_id) ids fresh = Sends.send_loop_history_fetch loop_id ids fresh
only_sends (loop_execution_state_fetch loop_id) ids fresh =
    Sends.send_loop_execution_state_fetch loop_id ids fresh
only_sends (loop_messages loop_id limit offset include_events) ids fresh =
    Sends.send_loop_messages loop_id limit offset include_events ids fresh
only_sends (loop_state_update loop_id values as_node) ids fresh =
    Sends.send_loop_state_update loop_id values as_node ids fresh
only_sends (auth access_key secret_key) ids fresh = Sends.send_auth access_key secret_key ids fresh
only_sends (auth_refresh refresh_token) ids fresh = Sends.send_auth_refresh refresh_token ids fresh
only_sends (cron_list status) ids fresh = Sends.send_cron_list status ids fresh
only_sends (cron_add text priority) ids fresh = Sends.send_cron_add text priority ids fresh
only_sends (cron_show job_id) ids fresh = Sends.send_cron_show job_id ids fresh
only_sends (cron_cancel job_id) ids fresh = Sends.send_cron_cancel job_id ids fresh
only_sends (invoke_skill skill args) ids fresh = Sends.send_invoke_skill skill args ids fresh
only_sends loop_new ids fresh = Sends.send_loop_new "" "" "" false ids fresh
only_sends (prune_loop loop_id keep_latest) ids fresh =
    Sends.send_loop_prune loop_id keep_latest ids fresh
only_sends (job_create goal workspace) ids fresh = Jobs.send_job_create goal workspace ids fresh
only_sends (job_status job_id) ids fresh = Jobs.send_job_status job_id ids fresh
only_sends (job_pause job_id) ids fresh = Jobs.send_job_pause job_id ids fresh
only_sends (job_resume job_id) ids fresh = Jobs.send_job_resume job_id ids fresh
only_sends (job_cancel job_id) ids fresh = Jobs.send_job_cancel job_id ids fresh
only_sends (job_dag job_id) ids fresh = Jobs.send_job_dag job_id ids fresh

-- An argument that only one of the two methods asks for, or sends where it is empty, is not empty.
abbrev pub Fits : Twin → Type 0
Fits (cron_add text priority) = (text == "") ≡ false
Fits (cron_show job_id) = (job_id == "") ≡ false
Fits (cron_cancel job_id) = (job_id == "") ≡ false
Fits (prune_loop loop_id keep_latest) = (loop_id == "") ≡ false
Fits (invoke_skill skill args) = (args == "") ≡ false
Fits _ = Unit

-- RequestResponse makes of the payload the envelope that is sent: its method is there, and the
-- payload carries no id of its own.
abbrev pub Makes : Fields → Envelope → Type 0
Makes payload env =
    (text_of "type" payload ≡ env.method)
    × (some (request_params payload) ≡ env.params)
    × (text_of "request_id" payload ≡ "")
    × (env.type' ≡ "request")

abbrev pub Agree : Asked → Sending → Type 0
Agree (asks call) (sends env) = Makes call.payload env
Agree (lacks what) (refuses other) = what ≡ other
Agree _ _ = ⊥
