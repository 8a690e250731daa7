-- ===== src/Bootstrap.antt =====
-- session.go: the start of a session, and the connection to a daemon that may not be ready.
pub mod Outcome
use soothe_client_go.Prelude.{
  ℕ, zero, suc, String, Bool, true, false, not, ◌&&◌, Option, none, some, List, [], ◌∷◌, ◌==◌,
  trim_space, eqb, if◌then◌else◌,
}
use soothe_client_go.Json.{Value, null, str, bool, Fields, end, field, get, put, text_of}

-- LoopSessionOptions
pub record LoopSessionOptions : Type 0 where
  pub client_workspace : String
  pub user_id : String
  pub client_workspace_id : String

-- The requests that BootstrapLoopSession makes of the client
pub data Call : Type 0 where
  request_loop_new : (payload : Fields) → Call
  loop_subscribe : (loop_id : String) → Call

pub data BootstrapError : Type 0 where
  loop_new_error : (err : String) → BootstrapError
  missing_loop_id : BootstrapError
  loop_subscribe_error : (err : String) → BootstrapError
  loop_subscribe_failed : (response : Fields) → BootstrapError

-- A response, or the error of the request
pub data Answer : Type 0 where
  answered : (response : Fields) → Answer
  unanswered : (err : String) → Answer

pub data Booted : Type 0 where
  ready : (loop_id : String) → Booted
  failed : BootstrapError → Booted

-- `if v := strings.TrimSpace(text); v != "" { payload[key] = v }`
unfoldable pub put_text : String → String → Fields → Fields
put_text key text payload =
    let v = trim_space text in if v == "" then payload else put key (str v) payload

abbrev pub workspace_of : Option LoopSessionOptions → String → String
workspace_of none workspace = workspace
workspace_of (some opts) workspace =
    if trim_space opts.client_workspace == "" then workspace else opts.client_workspace

abbrev pub put_user : Option LoopSessionOptions → Fields → Fields
put_user none payload = payload
put_user (some opts) payload =
    put_text "client_workspace_id" opts.client_workspace_id
      (put_text "user_id" opts.user_id payload)

-- The payload of loop_new
unfoldable pub new_payload : String → Option LoopSessionOptions → Fields
unfolding put_text
new_payload workspace opts =
    put_user opts (
      put_text "client_workspace" (workspace_of opts workspace) (field "type" (str "loop_new") end))

-- `ok, has := subResp["success"].(bool); has && !ok`
unfoldable pub is_refusal : Value → Bool
is_refusal (bool ok) = not ok
is_refusal _ = false

unfoldable pub after_subscribe : String → Answer → Booted
unfolding is_refusal
after_subscribe loop_id (unanswered err) = failed (loop_subscribe_error err)
after_subscribe loop_id (answered response) =
    if is_refusal (get "success" response)
    then failed (loop_subscribe_failed response)
    else ready loop_id

-- The subscription, for the answer to LoopSubscribe
unfoldable pub subscribe_to : String → Answer → List Call × Booted
unfolding after_subscribe
subscribe_to loop_id sub = (loop_subscribe loop_id ∷ [], after_subscribe loop_id sub)

unfoldable pub after_loop_new : Fields → Answer → Answer → List Call × Booted
unfolding subscribe_to
after_loop_new payload (unanswered err) sub =
    (request_loop_new payload ∷ [], failed (loop_new_error err))
after_loop_new payload (answered response) sub =
    let loop_id = trim_space (text_of "loop_id" response) in
    let (calls, out) = subscribe_to loop_id sub in
    if loop_id == ""
    then (request_loop_new payload ∷ [], failed missing_loop_id)
    else (request_loop_new payload ∷ calls, out)

-- BootstrapLoopSession, for the answers to loop_new and to LoopSubscribe
unfoldable pub bootstrap_loop_session :
    Answer → Answer → String → String → Option LoopSessionOptions → List Call × Booted
unfolding new_payload subscribe_to after_loop_new
bootstrap_loop_session new sub resume workspace opts =
    let loop_id = trim_space resume in
    if loop_id == ""
    then after_loop_new (new_payload workspace opts) new sub
    else subscribe_to loop_id sub

-- How a call of Connect ends; it never returns where SendMessage does not.
pub data Tried : Type 0 where
  succeeded : Tried
  refused : (err : String) → Tried
  hangs : Tried

-- An attempt to connect, and the context's error if that ends the wait behind it
pub record Attempt : Type 0 where
  pub tried : Tried
  pub context_err : Option String

pub data Connection : Type 0 where
  connected : Connection
  cancelled : (err : String) → Connection
  gave_up : (attempts : ℕ) (last_err : String) → Connection
  never_returns : Connection

abbrev pub err_text : Tried → String
err_text (refused err) = err
err_text _ = ""

-- The body of the loop, with the rounds behind it
unfoldable pub after_attempt : Tried → Option String → Connection → Connection
after_attempt succeeded ended rest = connected
after_attempt hangs ended rest = never_returns
after_attempt (refused err) (some ended) rest = cancelled ended
after_attempt (refused err) none rest = rest

module _ (attempts : ℕ → Attempt) where
  -- The loop, with so many attempts left, at that attempt; `last_err` is lastErr
  unfoldable pub retry : ℕ → ℕ → String → Connection
  unfolding after_attempt
  retry zero i last_err = gave_up i last_err
  retry (suc n) i last_err =
      let rest = retry n (suc i) (err_text (attempts i).tried) in
      after_attempt (attempts i).tried (attempts i).context_err rest

  -- ConnectWithRetries
  unfoldable pub connect_with_retries : ℕ → Connection
  unfolding retry
  connect_with_retries max_retries = retry (if eqb max_retries 0 then 40 else max_retries) 0 ""
