-- ===== src/Appkit/ThinkingStep/Bounds.antt =====
-- appkit/thinking_step.go: a thinking step is a short line that is not empty.
use Prim.Native.String.{◌++◌ as concat}
use soothe_client_go.Prelude.{
  ◌≤◌, ◌<◌, String, ◌≡◌, refl, Bool, true, false, not, Option, none, some, List, ◌==◌, arith,
  trim_space, rune_count, take_runes, ltb, rune_count-take_runes, rune_count-concat, if_cases,
}
use soothe_client_go.Json.{Fields}
use soothe_client_go.Appkit.ThinkingStep.{
  max_thinking_step_runes, allows, thinking_line, bound_line, extract_thinking_step,
}

some_rune : (s : String) → (s == "") ≡ false → 0 < rune_count s
unfolding rune_count
some_rune Prim.Native.String.[] h = cc
some_rune (Prim.Native.String.◌∷◌ c s) h = omega arith

one_dot : rune_count "…" ≡ 1
unfolding rune_count
one_dot = refl

module _ (events : List (String × Bool)) (event_type : String) where
  -- A line, where there is one, has a rune and at most 281, which are 280 and the dots, and the
  -- allowlist has the event.
  abbrev pub IsShown : Option String → Type 0
  IsShown none = Unit
  IsShown (some line) =
      (0 < rune_count line)
      × (rune_count line ≤ 281)
      × (allows (trim_space event_type) events ≡ true)

  bound_line-IsShown :
      (raw : String) → allows (trim_space event_type) events ≡ true → IsShown (bound_line raw)
  unfolding bound_line
  bound_line-IsShown raw listed =
      let line = trim_space raw in
      let dots = rune_count-concat (take_runes max_thinking_step_runes line) "…" in
      if_cases IsShown (line == "") _ _ (λ _. tt)
        (λ full.
          if_cases IsShown (ltb max_thinking_step_runes (rune_count line)) _ _
            (λ long. (
              omega (arith, dots, one_dot),
              omega (arith, dots, one_dot, rune_count-take_runes max_thinking_step_runes line),
              listed,
            ))
            (λ short. (some_rune line full, ground arith, listed)))

  -- A thinking step is a line of at least one rune and at most 281, and only an event that the
  -- allowlist has gives one.
  pub extract_thinking_step-IsShown :
      (data' : Fields) → IsShown (extract_thinking_step (some events) event_type data')
  unfolding extract_thinking_step
  extract_thinking_step-IsShown data' =
      if_cases IsShown (event_type == "") _ _ (λ _. tt)
        (λ _.
          if_cases IsShown (not (allows (trim_space event_type) events)) _ _ (λ _. tt)
            (λ listed.
              bound_line-IsShown (thinking_line (trim_space event_type) data') (ground arith)))
