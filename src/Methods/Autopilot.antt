-- ===== src/Methods/Autopilot.antt =====
-- autopilot.go: the requests about autopilot goals.
use soothe_client_go.Prelude.{String, Bool, false, if◌then◌else◌}
use soothe_client_go.Prelude.Int.{ℤ, pos, is_positive}
use soothe_client_go.Json.{str, bool, end, field}
use soothe_client_go.Methods.{Asked, with_text, typed, ask, required, int_value, or_default}

-- AutopilotStatus
unfoldable pub autopilot_status : ℤ → Asked
unfolding or_default
autopilot_status timeout = ask (typed "autopilot_status") "autopilot_status" 15 timeout

-- AutopilotSubmit; a priority that is not positive is 50
unfoldable pub autopilot_submit : String → ℤ → String → ℤ → Asked
unfolding or_default with_text
autopilot_submit description priority workspace timeout = required "description" description (
    ask
      (with_text "workspace" workspace (
        field "type" (str "autopilot_submit") (
          field "description" (str description) (
            field "priority" (int_value (if is_positive priority then priority else pos 50)) end))))
      "autopilot_submit" 15 timeout)

-- AutopilotListGoals
unfoldable pub autopilot_list_goals : ℤ → Asked
unfolding or_default
autopilot_list_goals timeout = ask (typed "autopilot_list_goals") "autopilot_list_goals" 15 timeout

-- AutopilotGetGoal
unfoldable pub autopilot_get_goal : String → ℤ → Asked
unfolding or_default
autopilot_get_goal goal_id timeout = required "goal_id" goal_id (
    ask (field "type" (str "autopilot_get_goal") (field "goal_id" (str goal_id) end))
      "autopilot_get_goal" 15 timeout)

-- AutopilotCancelGoal
unfoldable pub autopilot_cancel_goal : String → ℤ → Asked
unfolding or_default
autopilot_cancel_goal goal_id timeout = required "goal_id" goal_id (
    ask (field "type" (str "autopilot_cancel_goal") (field "goal_id" (str goal_id) end))
      "autopilot_cancel_goal" 15 timeout)

-- AutopilotCancelAll
unfoldable pub autopilot_cancel_all : ℤ → Asked
unfolding or_default
autopilot_cancel_all timeout = ask (typed "autopilot_cancel_all") "autopilot_cancel_all" 15 timeout

-- AutopilotWake
unfoldable pub autopilot_wake : ℤ → Asked
unfolding or_default
autopilot_wake timeout = ask (typed "autopilot_wake") "autopilot_wake" 15 timeout

-- AutopilotDream
unfoldable pub autopilot_dream : ℤ → Asked
unfolding or_default
autopilot_dream timeout = ask (typed "autopilot_dream") "autopilot_dream" 15 timeout

-- AutopilotResume
unfoldable pub autopilot_resume : String → ℤ → Asked
unfolding or_default
autopilot_resume goal_id timeout = required "goal_id" goal_id (
    ask (field "type" (str "autopilot_resume") (field "goal_id" (str goal_id) end))
      "autopilot_resume" 15 timeout)

-- AutopilotListJobs
unfoldable pub autopilot_list_jobs : ℤ → Asked
unfolding or_default
autopilot_list_jobs timeout = ask (typed "autopilot_list_jobs") "autopilot_list_jobs" 15 timeout

-- AutopilotGetJob
unfoldable pub autopilot_get_job : String → ℤ → Asked
unfolding or_default
autopilot_get_job job_id timeout = required "job_id" job_id (
    ask (field "type" (str "autopilot_get_job") (field "job_id" (str job_id) end))
      "autopilot_get_job" 15 timeout)

-- AutopilotTopWithTerminal
unfoldable pub autopilot_top_with_terminal : Bool → ℤ → Asked
unfolding or_default
autopilot_top_with_terminal include_terminal timeout =
    ask (field "type" (str "autopilot_top") (field "include_terminal" (bool include_terminal) end))
      "autopilot_top" 15 timeout

-- AutopilotTop
unfoldable pub autopilot_top : ℤ → Asked
unfolding autopilot_top_with_terminal
autopilot_top timeout = autopilot_top_with_terminal false timeout
