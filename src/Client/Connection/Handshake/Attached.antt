-- ===== src/Client/Connection/Handshake/Attached.antt =====
-- What ReattachAndProbe has asked for.
use soothe_client_go.Prelude.{
  String, ◌≡◌, refl, Option, none, some, List, [], ◌∷◌, ◌==◌, eq_iff, if_cases,
}
use soothe_client_go.Json.{str, end, field}
use soothe_client_go.Client.Connection.Handshake.{
  Call, request_loop_reattach, loop_subscribe, loop_get, ReattachError, missing_loop_id,
  loop_reattach_error, loop_subscribe_error, stale_loop, probe, subscribe_again, reattach,
  reattach_and_probe,
}

abbrev attach : String → Call
attach loop_id =
    request_loop_reattach (field "type" (str "loop_reattach") (field "loop_id" (str loop_id) end))

-- What the requests and the error say of each other, for the errors of the three requests.
abbrev pub Explains :
    String
    → Option String
    → Option String
    → Option String
    → List Call × Option ReattachError
    → Type 0
Explains loop_id attached subscribed probed (calls, none) =
    (calls ≡ attach loop_id ∷ loop_subscribe loop_id ∷ loop_get loop_id ∷ [])
    × (attached ≡ none)
    × (subscribed ≡ none)
    × (probed ≡ none)
Explains loop_id attached subscribed probed (calls, some (stale_loop id err)) =
    (calls ≡ attach loop_id ∷ loop_subscribe loop_id ∷ loop_get loop_id ∷ [])
    × (id ≡ loop_id)
    × (attached ≡ none)
    × (subscribed ≡ none)
    × (probed ≡ some err)
Explains loop_id attached subscribed probed (calls, some (loop_subscribe_error err)) =
    (calls ≡ attach loop_id ∷ loop_subscribe loop_id ∷ [])
    × (attached ≡ none)
    × (subscribed ≡ some err)
Explains loop_id attached subscribed probed (calls, some (loop_reattach_error err)) =
    (calls ≡ attach loop_id ∷ []) × (attached ≡ some err)
Explains loop_id attached subscribed probed (calls, some missing_loop_id) =
    (calls ≡ []) × (loop_id ≡ "")

reattach-Explains :
    (loop_id : String) (attached subscribed probed : Option String)
    → Explains loop_id attached subscribed probed (reattach loop_id attached subscribed probed)
unfolding reattach subscribe_again probe
reattach-Explains loop_id (some err) subscribed probed = (refl, refl)
reattach-Explains loop_id none (some err) probed = (refl, refl, refl)
reattach-Explains loop_id none none (some err) = (refl, refl, refl, refl, refl)
reattach-Explains loop_id none none none = (refl, refl, refl, refl)

-- ReattachAndProbe makes its three requests in their order up to the first that fails, and reports
-- that one: no error where all three succeed, a stale loop where only the probe fails, and with no
-- request at all a missing loop id.
pub reattach_and_probe-Explains :
    (loop_id : String) (attached subscribed probed : Option String)
    → Explains loop_id attached subscribed probed
        (reattach_and_probe loop_id attached subscribed probed)
unfolding reattach_and_probe
reattach_and_probe-Explains loop_id attached subscribed probed =
    if_cases (Explains loop_id attached subscribed probed) (loop_id == "") _ _
      (λ e. (refl, (eq_iff loop_id "").0 e))
      (λ _. reattach-Explains loop_id attached subscribed probed)
