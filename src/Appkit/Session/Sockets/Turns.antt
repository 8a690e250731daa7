-- ===== src/Appkit/Session/Sockets/Turns.antt =====
-- appkit/daemon_session.go: what SendTurn sends for the options of a turn.
use soothe_client_go.Prelude.{
  String, ◌≡◌, ◌≢◌, refl, sym, ap, subst, ◌∙◌, Bool, true, false, Option, none, some, List, [],
  ◌==◌, Bool-cases, eq_iff, inl, inr, trim_space, differ, if◌then◌else◌,
}
use soothe_client_go.Json.{null, Fields, get}
use soothe_client_go.Protocol.Envelopes.{new_notification_envelope}
use soothe_client_go.Methods.{Sending, sends, refuses, required_to_send}
use soothe_client_go.Methods.Input.{
  InputOptions, no_options, InputOption, apply_options, input_params, with_loop_id, with_subagent,
  with_model, with_model_params, with_attachments, with_clarification_mode, with_interaction_mode,
  with_clarification_answer, with_intent_hint, send_input,
}
use soothe_client_go.Methods.Input.Values.{value_in, input_entries, input_params-values}
use soothe_client_go.Appkit.Session.Sockets.{
  Sockets, SendTurnOptions, send_turn, turn_options, text_option, some_option, flag_option,
}

-- The options of a turn as those of an input
abbrev pub turn_input : String → SendTurnOptions → InputOptions
turn_input loop_id o = record no_options {
  loop_id = loop_id;
  preferred_subagent = o.preferred_subagent;
  model = o.model;
  model_params = o.model_params;
  attachments = o.attachments;
  clarification_mode = o.clarification_mode;
  interaction_mode = o.interaction_mode;
  clarification_answer = o.clarification_answer;
  intent_hint = o.intent_hint;
}

text_option-applied :
    (option : String → InputOption) (text : String) (rest : List InputOption) (x : InputOptions)
    → option "" x ≡ x
    → apply_options (text_option option text rest) x ≡ apply_options rest (option text x)
unfolding text_option apply_options
text_option-applied option text rest x same = elim (Bool-cases (text == "")) [
  | inl e ↦
      let empty : option text x ≡ x = ap (λ s. option s x) ((eq_iff text "").0 e) ∙ same in
      rw e (ap (apply_options rest) (sym empty))
  | inr e ↦ rw e refl
]

some_option-applied {ℓ} :
    {A : Type ℓ}
    → (option : Option A → InputOption) (v : Option A) (rest : List InputOption) (x : InputOptions)
    → option none x ≡ x
    → apply_options (some_option option v rest) x ≡ apply_options rest (option v x)
unfolding some_option apply_options
some_option-applied option none rest x same = ap (apply_options rest) (sym same)
some_option-applied option (some v) rest x same = refl

flag_option-applied :
    (option : InputOption) (flag : Bool) (rest : List InputOption) (x : InputOptions)
    → apply_options (flag_option option flag rest) x
      ≡ apply_options rest (if flag then option x else x)
unfolding flag_option apply_options
flag_option-applied option true rest x = refl
flag_option-applied option false rest x = refl

answer_set :
    (flag : Bool) (x : InputOptions)
    → x.clarification_answer ≡ false
    → (if flag then with_clarification_answer x else x) ≡ record x { clarification_answer = flag }
unfolding with_clarification_answer
answer_set true x e = refl
answer_set false x e = ap (λ b. record x { clarification_answer = b }) e

turn_options-applied :
    (loop_id : String) (o : SendTurnOptions)
    → apply_options (turn_options loop_id (some o)) no_options ≡ turn_input loop_id o
unfolding turn_options apply_options with_loop_id with_subagent with_model with_model_params
    with_attachments with_clarification_mode with_interaction_mode with_intent_hint
turn_options-applied loop_id o =
    text_option-applied with_subagent o.preferred_subagent _ _ refl
    ∙ text_option-applied with_model o.model _ _ refl
    ∙ some_option-applied with_model_params o.model_params _ _ refl
    ∙ some_option-applied with_attachments o.attachments _ _ refl
    ∙ text_option-applied with_clarification_mode o.clarification_mode _ _ refl
    ∙ text_option-applied with_interaction_mode o.interaction_mode _ _ refl
    ∙ flag_option-applied with_clarification_answer o.clarification_answer _ _
    ∙ ap (apply_options (text_option with_intent_hint o.intent_hint []))
        (answer_set o.clarification_answer _ refl)
    ∙ text_option-applied with_intent_hint o.intent_hint [] _ refl

-- The notification of a turn, or the refusal of a session without a loop
abbrev pub IsTurn : String → String → SendTurnOptions → Sending → Type 0
IsTurn loop_id text o (refuses what) = trim_space loop_id ≡ ""
IsTurn loop_id text o (sends env) =
    (trim_space loop_id ≢ "")
    × (env.type' ≡ "notification")
    × (env.method ≡ "loop_input")
    × (env.id ≡ "")
    × ((params : Fields) × (env.params ≡ some params)
        × ((k : String)
            → get k params ≡ value_in k (input_entries text (turn_input loop_id o)) null))

-- What SendInput makes of options that are applied
abbrev input_of : String → InputOptions → Sending
input_of text x =
    required_to_send "loopID" (trim_space x.loop_id)
      (sends (new_notification_envelope "loop_input" (input_params text x)))

input_of-IsTurn :
    (loop_id text : String) (o : SendTurnOptions)
    → IsTurn loop_id text o (input_of text (turn_input loop_id o))
unfolding new_notification_envelope
input_of-IsTurn loop_id text o = elim (Bool-cases (trim_space loop_id == "")) [
  | inl e ↦ rw e ((eq_iff (trim_space loop_id) "").0 e)
  | inr e ↦ rw e (
    differ (trim_space loop_id) "" e,
    refl,
    refl,
    refl,
    (
      input_params text (turn_input loop_id o),
      refl,
      λ k. input_params-values k text (turn_input loop_id o),
    ),
  )
]

-- A turn is sent as one loop_input notification for the loop of the session, whose parameters hold under each
-- key the option of the turn that is set, and nothing under any other key; it is refused exactly where the
-- loop id is blank.
pub send_turn-IsTurn :
    (text : String) (o : SendTurnOptions) (s : Sockets)
    → IsTurn s.loop_id text o (send_turn text (some o) s)
unfolding send_turn send_input trim_space
send_turn-IsTurn text o s = elim (Bool-cases (s.loop_id == "")) [
  | inl e ↦ rw e (ap trim_space ((eq_iff s.loop_id "").0 e))
  | inr e ↦ rw e (
      subst (λ x. IsTurn s.loop_id text o (input_of text x))
        (sym (turn_options-applied s.loop_id o)) (input_of-IsTurn s.loop_id text o))
]
