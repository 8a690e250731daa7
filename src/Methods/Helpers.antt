-- ===== src/Methods/Helpers.antt =====
-- helpers.go: the daemon RPCs that are functions of a client.
use soothe_client_go.Prelude.{String, Bool, List, [], ◌∷◌, ◌==◌, ◌||◌}
use soothe_client_go.Prelude.Int.{ℤ}
use soothe_client_go.Json.{str, obj, arr, Items, nil, cons, Fields, end, field, get, text_of}
use soothe_client_go.Methods.{Asked, with_positive, typed, of_loop, ask, required, or_default}

-- CheckDaemonStatus
unfoldable pub check_daemon_status : ℤ → Asked
unfolding or_default
check_daemon_status timeout = ask (typed "daemon_status") "daemon_status_response" 5 timeout

-- RequestDaemonShutdown: its request
unfoldable pub request_daemon_shutdown : ℤ → Asked
unfolding or_default
request_daemon_shutdown timeout = ask (typed "daemon_shutdown") "shutdown_ack" 10 timeout

-- RequestDaemonShutdown: whether the response acknowledges
unfoldable pub is_shutdown_acknowledged : Fields → Bool
is_shutdown_acknowledged resp = text_of "status" resp == "acknowledged"

-- The maps among the items
unfoldable pub maps_of : Items → List Fields
maps_of nil = []
maps_of (cons (obj m) items) = m ∷ maps_of items
maps_of (cons _ items) = maps_of items

-- FetchSkillsCatalog: what it makes of the response; its request is that of ListSkills. A catalog that
-- is not there is a nil slice.
unfoldable pub skills_of : Fields → List Fields
unfolding maps_of
skills_of resp = elim (get "skills" resp) [ arr items ↦ maps_of items | _ ↦ [] ]

-- FetchConfigSection: its request
unfoldable pub fetch_config_section : String → ℤ → Asked
unfolding or_default
fetch_config_section section timeout =
    ask (field "type" (str "config_get") (field "section" (str section) end)) "config_get_response"
      5 timeout

-- FetchConfigSection: the section of the response, or the response
unfoldable pub config_section : String → Fields → Fields
config_section section resp = elim (get section resp) [ obj m ↦ m | _ ↦ resp ]

-- RequestDaemonConfigReload: its request
unfoldable pub request_daemon_config_reload : ℤ → Asked
unfolding or_default
request_daemon_config_reload timeout =
    ask (typed "config_reload") "config_reload_response" 10 timeout

-- RequestDaemonConfigReload: whether the response acknowledges
unfoldable pub is_reload_acknowledged : Fields → Bool
is_reload_acknowledged resp =
    let status = text_of "status" resp in status == "reloaded" || status == "ok"

-- FetchLoopHistory
unfoldable pub fetch_loop_history : String → ℤ → Asked
unfolding or_default
fetch_loop_history loop_id timeout =
    required "loop_id" loop_id
      (ask (of_loop "loop_history_fetch" loop_id) "loop_history_fetch_response" 15 timeout)

-- FetchLoopExecutionState
unfoldable pub fetch_loop_execution_state : String → ℤ → Asked
unfolding or_default
fetch_loop_execution_state loop_id timeout = required "loop_id" loop_id (
    ask (of_loop "loop_execution_state_fetch" loop_id) "loop_execution_state_fetch_response" 15
      timeout)

-- RequestAuth
unfoldable pub request_auth : String → String → ℤ → Asked
unfolding or_default
request_auth access_key secret_key timeout =
    ask
      (field "type" (str "auth")
        (field "access_key" (str access_key) (field "secret_key" (str secret_key) end)))
      "auth_response" 15 timeout

-- RequestAuthRefresh
unfoldable pub request_auth_refresh : String → ℤ → Asked
unfolding or_default
request_auth_refresh refresh_token timeout =
    ask (field "type" (str "auth_refresh") (field "refresh_token" (str refresh_token) end))
      "auth_refresh_response" 15 timeout

-- LoopTree of helpers.go
unfoldable pub fetch_loop_tree : String → ℤ → Asked
unfolding or_default
fetch_loop_tree loop_id timeout =
    required "loop_id" loop_id (ask (of_loop "loop_tree" loop_id) "loop_tree_response" 15 timeout)

-- LoopPrune of helpers.go
unfoldable pub prune_loop : String → ℤ → ℤ → Asked
unfolding or_default with_positive
prune_loop loop_id keep_latest timeout = required "loop_id" loop_id (
    ask (with_positive "keep_latest" keep_latest (of_loop "loop_prune" loop_id))
      "loop_prune_response" 15 timeout)

-- LoopDelete of helpers.go
unfoldable pub delete_loop : String → ℤ → Asked
unfolding or_default
delete_loop loop_id timeout =
    required "loop_id" loop_id
      (ask (of_loop "loop_delete" loop_id) "loop_delete_response" 15 timeout)

-- LoopReattach of helpers.go
unfoldable pub reattach_loop : String → ℤ → Asked
unfolding or_default
reattach_loop loop_id timeout =
    required "loop_id" loop_id
      (ask (of_loop "loop_reattach" loop_id) "loop_reattach_response" 15 timeout)
