-- ===== src/Examples/Rejoins.antt =====
-- The sockets of a session at concrete answers.
use soothe_client_go.Prelude.{trim_space, true, false, none, some, refl, ◌≡◌}
use soothe_client_go.Json.{as_string, get, end, field, str, bool}
use soothe_client_go.Bootstrap.{answered, succeeded}
use soothe_client_go.Appkit.Session.Sockets.{
  Sockets, Network, SendTurnOptions, ensure_connected, send_turn,
}
use soothe_client_go.Appkit.Session.Sockets.Rejoining.{Rejoins, ensure_connected-Rejoins}
use soothe_client_go.Appkit.Session.Sockets.Turns.{IsTurn, send_turn-IsTurn}

abbrev on_loop : Sockets
on_loop = record { workspace = ""; loop_id = "l1"; rpc_connected = true; closed = false }

-- The loop is taken back, and the probe does not find it.
abbrev stale : Network
stale = record {
  alive = false;
  reconnect_err = none;
  attempts = λ i. record { tried = succeeded; context_err = none };
  attach_err = none;
  subscribe_err = none;
  probe_err = some "not found";
  loop_new = answered (field "loop_id" (str "l2") end);
  loop_subscribed = answered (field "success" (bool true) end);
}

stale_renewed : (ensure_connected stale on_loop).1.loop_id ≡ "l2"
unfolding ensure_connected trim_space as_string get
stale_renewed = refl

ensure_connected-Rejoins_example : Rejoins stale on_loop (ensure_connected stale on_loop)
ensure_connected-Rejoins_example = ensure_connected-Rejoins stale on_loop

abbrev some_options : SendTurnOptions
some_options = record {
  preferred_subagent = "";
  model = "openai:gpt";
  model_params = none;
  attachments = none;
  clarification_mode = "auto";
  interaction_mode = "";
  clarification_answer = true;
  intent_hint = "";
}

send_turn-IsTurn_example :
    IsTurn "l1" "hi" some_options (send_turn "hi" (some some_options) on_loop)
send_turn-IsTurn_example = send_turn-IsTurn "hi" some_options on_loop
