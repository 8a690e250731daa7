-- ===== src/Methods/Commands.antt =====
-- command_client.go: one-shot requests, each over a connection of its own.
use Prim.Native.String.{◌++◌ as concat}
use soothe_client_go.Prelude.{ℕ, String, Option, none, some, List, [], ◌∷◌, ◌==◌, if◌then◌else◌}
use soothe_client_go.Prelude.Int.{ℤ}
use soothe_client_go.Json.{str, Fields, end, field, put}
use soothe_client_go.Bootstrap
use soothe_client_go.Bootstrap.{Connection, connected, connect_with_retries}
use soothe_client_go.Methods.{Asked, asks, or_default}
use soothe_client_go.Methods.Jobs
use soothe_client_go.Methods.Autopilot

-- NewCommandClient's timeout
unfoldable pub command_timeout : ℤ → ℤ
unfolding or_default
command_timeout timeout = or_default 30 timeout

-- The calls of a client
pub data Effect : Type 0 where
  client_connect : Effect
  client_call : (asked : Asked) → Effect
  client_close : Effect

pub data CommandError : Type 0 where
  missing_method : CommandError
  unconnected : Connection → CommandError

unfoldable pub call_if_connected : Connection → Asked → List Effect × Option CommandError
call_if_connected connected asked = (client_connect ∷ client_call asked ∷ client_close ∷ [], none)
call_if_connected failed asked = (client_connect ∷ client_close ∷ [], some (unconnected failed))

-- withClient, for the attempts of ConnectWithRetries; the answer is that of the call.
unfoldable pub with_client : (ℕ → Bootstrap.Attempt) → Asked → List Effect × Option CommandError
unfolding call_if_connected connect_with_retries
with_client attempts asked = call_if_connected (connect_with_retries attempts 5) asked

-- What the methods of CommandClient ask the client for, by their name without its first word
pub data JobCommand : Type 0 where
  create : (goal workspace : String) → JobCommand
  status pause resume cancel dag : (job_id : String) → JobCommand
  guidance : (job_id text goal_id : String) → JobCommand

unfoldable pub ask_for_job : JobCommand → ℤ → Asked
unfolding Jobs.job_create Jobs.job_status Jobs.job_pause Jobs.job_resume Jobs.job_cancel
    Jobs.job_dag Jobs.job_guidance
ask_for_job (create goal workspace) timeout = Jobs.job_create goal workspace timeout
ask_for_job (status job_id) timeout = Jobs.job_status job_id timeout
ask_for_job (pause job_id) timeout = Jobs.job_pause job_id timeout
ask_for_job (resume job_id) timeout = Jobs.job_resume job_id timeout
ask_for_job (cancel job_id) timeout = Jobs.job_cancel job_id timeout
ask_for_job (dag job_id) timeout = Jobs.job_dag job_id timeout
ask_for_job (guidance job_id text goal_id) timeout = Jobs.job_guidance job_id text goal_id timeout

pub data AutopilotCommand : Type 0 where
  status list_goals cancel_all wake dream list_jobs top : AutopilotCommand
  submit : (description : String) (priority : ℤ) (workspace : String) → AutopilotCommand
  get_goal cancel_goal resume get_job : (id : String) → AutopilotCommand

unfoldable pub ask_autopilot : AutopilotCommand → ℤ → Asked
unfolding Autopilot.autopilot_status Autopilot.autopilot_submit Autopilot.autopilot_list_goals
    Autopilot.autopilot_get_goal Autopilot.autopilot_cancel_goal Autopilot.autopilot_cancel_all
    Autopilot.autopilot_wake Autopilot.autopilot_dream Autopilot.autopilot_resume
    Autopilot.autopilot_list_jobs Autopilot.autopilot_get_job Autopilot.autopilot_top
ask_autopilot AutopilotCommand.status timeout = Autopilot.autopilot_status timeout
ask_autopilot (submit description priority workspace) timeout =
    Autopilot.autopilot_submit description priority workspace timeout
ask_autopilot list_goals timeout = Autopilot.autopilot_list_goals timeout
ask_autopilot (get_goal id) timeout = Autopilot.autopilot_get_goal id timeout
ask_autopilot (cancel_goal id) timeout = Autopilot.autopilot_cancel_goal id timeout
ask_autopilot cancel_all timeout = Autopilot.autopilot_cancel_all timeout
ask_autopilot wake timeout = Autopilot.autopilot_wake timeout
ask_autopilot dream timeout = Autopilot.autopilot_dream timeout
ask_autopilot (AutopilotCommand.resume id) timeout = Autopilot.autopilot_resume id timeout
ask_autopilot list_jobs timeout = Autopilot.autopilot_list_jobs timeout
ask_autopilot (get_job id) timeout = Autopilot.autopilot_get_job id timeout
ask_autopilot top timeout = Autopilot.autopilot_top timeout

pub data CronCommand : Type 0 where
  add : (text : String) (priority : ℤ) → CronCommand
  list : (status : String) → CronCommand
  show cancel : (job_id : String) → CronCommand

unfoldable pub ask_cron : CronCommand → ℤ → Asked
unfolding Jobs.cron_add Jobs.cron_list Jobs.cron_show Jobs.cron_cancel
ask_cron (add text priority) timeout = Jobs.cron_add text priority timeout
ask_cron (list filter) timeout = Jobs.cron_list filter timeout
ask_cron (show job_id) timeout = Jobs.cron_show job_id timeout
ask_cron (CronCommand.cancel job_id) timeout = Jobs.cron_cancel job_id timeout

-- `for k, v := range params { payload[k] = v }`
unfoldable pub put_all : Fields → Fields → Fields
put_all end payload = payload
put_all (field k v params) payload = put_all params (put k v payload)

-- Request: a parameter named type takes the place of the method.
unfoldable pub request_once :
    (ℕ → Bootstrap.Attempt) → String → Fields → ℤ → List Effect × Option CommandError
unfolding with_client put_all
request_once attempts method params timeout =
    if method == ""
    then ([], some missing_method)
    else with_client attempts (
        asks (record {
          payload = put_all params (field "type" (str method) end);
          response_type = concat method "_response";
          timeout = timeout;
        }))
