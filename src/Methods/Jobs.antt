-- ===== src/Methods/Jobs.antt =====
-- job.go: the requests about jobs and cron.
use soothe_client_go.Prelude.{String, List}
use soothe_client_go.Prelude.Int.{ℤ}
use soothe_client_go.Json.{str, Fields, end, field}
use soothe_client_go.Methods.{
  Asked, Sending, with_text, with_positive, typed, ask, required, required_to_send, request, of_id,
  or_default,
}

-- SendJobCreate
unfoldable pub send_job_create : String → String → List String → String → Sending
unfolding request with_text
send_job_create goal workspace ids fresh =
    required_to_send "goal" goal
      (request "job_create" (with_text "workspace" workspace (of_id "goal" goal)) ids fresh)

-- SendJobStatus
unfoldable pub send_job_status : String → List String → String → Sending
unfolding request
send_job_status job_id ids fresh =
    required_to_send "job_id" job_id (request "job_status" (of_id "job_id" job_id) ids fresh)

-- SendJobPause
unfoldable pub send_job_pause : String → List String → String → Sending
unfolding request
send_job_pause job_id ids fresh =
    required_to_send "job_id" job_id (request "job_pause" (of_id "job_id" job_id) ids fresh)

-- SendJobResume
unfoldable pub send_job_resume : String → List String → String → Sending
unfolding request
send_job_resume job_id ids fresh =
    required_to_send "job_id" job_id (request "job_resume" (of_id "job_id" job_id) ids fresh)

-- SendJobCancel
unfoldable pub send_job_cancel : String → List String → String → Sending
unfolding request
send_job_cancel job_id ids fresh =
    required_to_send "job_id" job_id (request "job_cancel" (of_id "job_id" job_id) ids fresh)

-- SendJobDag
unfoldable pub send_job_dag : String → List String → String → Sending
unfolding request
send_job_dag job_id ids fresh =
    required_to_send "job_id" job_id (request "job_dag" (of_id "job_id" job_id) ids fresh)

-- JobCreate
unfoldable pub job_create : String → String → ℤ → Asked
unfolding or_default with_text
job_create goal workspace timeout = required "goal" goal (
    ask
      (with_text "workspace" workspace
        (field "type" (str "job_create") (field "goal" (str goal) end)))
      "job_create_response" 15 timeout)

-- `{"type": method, "job_id": jobID}`
abbrev pub of_job : String → String → Fields
of_job method job_id = field "type" (str method) (field "job_id" (str job_id) end)

-- JobStatus
unfoldable pub job_status : String → ℤ → Asked
unfolding or_default
job_status job_id timeout =
    required "job_id" job_id (ask (of_job "job_status" job_id) "job_status_response" 15 timeout)

-- JobPause
unfoldable pub job_pause : String → ℤ → Asked
unfolding or_default
job_pause job_id timeout =
    required "job_id" job_id (ask (of_job "job_pause" job_id) "job_pause_response" 15 timeout)

-- JobResume
unfoldable pub job_resume : String → ℤ → Asked
unfolding or_default
job_resume job_id timeout =
    required "job_id" job_id (ask (of_job "job_resume" job_id) "job_resume_response" 15 timeout)

-- JobCancel
unfoldable pub job_cancel : String → ℤ → Asked
unfolding or_default
job_cancel job_id timeout =
    required "job_id" job_id (ask (of_job "job_cancel" job_id) "job_cancel_response" 15 timeout)

-- JobDag
unfoldable pub job_dag : String → ℤ → Asked
unfolding or_default
job_dag job_id timeout =
    required "job_id" job_id (ask (of_job "job_dag" job_id) "job_dag_response" 15 timeout)

-- JobGuidance
unfoldable pub job_guidance : String → String → String → ℤ → Asked
unfolding or_default with_text
job_guidance job_id text goal_id timeout = required "job_id" job_id (
    required "text" text (
      ask
        (with_text "goal_id" goal_id (
          field "type" (str "job_guidance")
            (field "job_id" (str job_id) (field "content" (str text) end))))
        "job_guidance_response" 30 timeout))

-- CronAdd
unfoldable pub cron_add : String → ℤ → ℤ → Asked
unfolding or_default with_positive
cron_add text priority timeout = required "text" text (
    ask
      (with_positive "priority" priority
        (field "type" (str "cron_add") (field "text" (str text) end)))
      "cron_add_response" 30 timeout)

-- CronList
unfoldable pub cron_list : String → ℤ → Asked
unfolding or_default with_text
cron_list status timeout =
    ask (with_text "status" status (typed "cron_list")) "cron_list_response" 15 timeout

-- CronShow
unfoldable pub cron_show : String → ℤ → Asked
unfolding or_default
cron_show job_id timeout =
    required "job_id" job_id (ask (of_job "cron_show" job_id) "cron_show_response" 15 timeout)

-- CronCancel
unfoldable pub cron_cancel : String → ℤ → Asked
unfolding or_default
cron_cancel job_id timeout =
    required "job_id" job_id (ask (of_job "cron_cancel" job_id) "cron_cancel_response" 15 timeout)
