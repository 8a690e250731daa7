-- ===== src/Intent.antt =====
-- intent_hints.go and verbosity.go: the phases that may end a turn, and what a verbosity shows.
use soothe_client_go.Prelude.{String, ◌≡◌, true, List, [], ◌∷◌, contains_key, arith}
use soothe_client_go.Protocol.{is_loop_assistant_phase}

-- DefaultDeliverablePhases
abbrev pub default_deliverable_phases : List String
default_deliverable_phases =
    "quiz" ∷ "goal_completion" ∷ "text_completion" ∷ "image_to_text" ∷ "ocr" ∷ "embed" ∷ "chitchat"
    ∷ []

-- A phase that may end a turn is a phase that tags assistant text, so that its text is streamed.
pub deliverable-IsAssistant :
    (phase : String)
    → contains_key phase default_deliverable_phases ≡ true
    → is_loop_assistant_phase phase ≡ true
unfolding is_loop_assistant_phase
deliverable-IsAssistant phase h = ground (arith, h)
