-- ===== src/Events.antt =====
-- events.go: the event names of the wire protocol that the client tests for, and the parser of
-- four-part event names.
pub mod Splitting
use Prim.Native.Char.{code}
use Prim.Native.String.{[] as empty, ◌∷◌ as prepend, ◌++◌ as concat}
use soothe_client_go.Prelude.{
  String, not, Option, none, some, List, [], ◌∷◌, ◌++◌, ◌==◌, eqb, if◌then◌else◌,
}

abbrev pub stream_end : String
stream_end = "soothe.stream.end"

abbrev pub plan_created : String
plan_created = "soothe.cognition.plan.created"

abbrev pub card_created : String
card_created = "soothe.card.created"

abbrev pub card_updated : String
card_updated = "soothe.card.updated"

abbrev pub card_finalized : String
card_finalized = "soothe.card.finalized"

abbrev pub card_replay_begin : String
card_replay_begin = "soothe.card.replay.begin"

abbrev pub card_replay_end : String
card_replay_end = "soothe.card.replay.end"

abbrev pub strange_loop_completed : String
strange_loop_completed = "soothe.cognition.strange_loop.completed"

abbrev pub strange_loop_step_started : String
strange_loop_step_started = "soothe.cognition.strange_loop.step.started"

abbrev pub strange_loop_step_queued : String
strange_loop_step_queued = "soothe.cognition.strange_loop.step.queued"

abbrev pub strange_loop_step_completed : String
strange_loop_step_completed = "soothe.cognition.strange_loop.step.completed"

-- The loop of splitNamespace: `part` is `ns[start:i]`, and `parts` what is done.
unfoldable pub split_loop : List String → String → String → List String
split_loop parts part empty = parts ++ part ∷ []
split_loop parts part (prepend c s) =
    let dot = eqb (code c) 46 in
    split_loop (if dot then parts ++ part ∷ [] else parts)
      (if dot then "" else concat part (prepend c "")) s

-- splitNamespace
unfoldable pub split_namespace : String → List String
unfolding split_loop
split_namespace ns = split_loop [] "" ns

-- ParseNamespace: domain, component and action, or `none` for `ok == false`
unfoldable pub namespace_parts : List String → Option (String × String × String)
namespace_parts (root ∷ domain ∷ component ∷ action ∷ more) =
    if not (root == "soothe")
    then none
    else if domain == "internal"
    then none
    else some (domain, component, action)
namespace_parts _ = none

unfoldable pub parse_namespace : String → Option (String × String × String)
unfolding namespace_parts
parse_namespace ns = namespace_parts (split_namespace ns)
