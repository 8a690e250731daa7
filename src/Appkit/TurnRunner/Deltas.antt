-- ===== src/Appkit/TurnRunner/Deltas.antt =====
-- appkit/turn_runner.go: what a subscriber is shown of the text adds up to the text.
use Prim.Native.String.{[] as empty, ◌∷◌ as prefixed, ◌++◌ as concat}
use Prim.Native.Char.{code}
use text.Mathlib.TextLemmas.{nil-append, cons-append, append-nil, append_assoc}
use text.Mathlib.TextEquality.{Char-path}
use soothe_client_go.Prelude.{
  both, ℕ, String, ◌≡◌, refl, sym, ap, ◌∙◌, Bool, true, false, not, ◌&&◌, Option, none, some, List,
  [], ◌∷◌, ◌++◌, ◌==◌, eq_iff, arith, trim_space, has_prefix, drop_prefix, if_cases, eqb,
  Bool-cases, inl, inr,
}
use soothe_client_go.Json.{Fields}
use soothe_client_go.Protocol.{Message}
use soothe_client_go.Appkit.Boundary.{feed}
use soothe_client_go.Appkit.Classifier.{
  ChatEventResult, trim_prefix, is_substantive_assistant_reply,
}
use soothe_client_go.Appkit.Classifier.Process.{classify}
use soothe_client_go.Appkit.TurnRunner.{
  TimeoutPolicy, policy_fail, soft_complete, TurnRunner, Effect, append_reply, append_error,
  show_step, show_delta, show_complete, show_error, call_on_complete, call_on_error, send_cancel,
  send_input, End, completed, failed, Turn, Tick, cancelled, deadline, idle, closed, received, when,
  is_status_running_event, is_stale_turn_end_event, fold_content, send_loop_cancel,
  broadcast_thinking_step, broadcast_delta, fail_effects, complete_turn, Step, finish_timeout,
  end_turn, early_reply, deliver, is_failure, prepend, add_content, on_content, on_outcome,
  on_result, on_armed, on_message, on_tick, go_on, run_loop,
}

eqb→eq : (m n : ℕ) → eqb m n ≡ true → m ≡ n
eqb→eq m n h = ground arith

-- A text goes on behind a prefix with what is left of it.
concat-drop_prefix : (s p : String) → has_prefix s p ≡ true → concat p (drop_prefix s p) ≡ s
unfolding has_prefix drop_prefix
concat-drop_prefix s empty h = nil-append s
concat-drop_prefix empty (prefixed d p) h = cc
concat-drop_prefix (prefixed c s) (prefixed d p) h =
    let (same, rest) = both (eqb (code c) (code d)) (has_prefix s p) h in
    cons-append d p (drop_prefix s p)
    ∙ ap (λ e. prefixed e (concat p (drop_prefix s p)))
        (sym (Char-path c d (eqb→eq (code c) (code d) same)))
    ∙ ap (λ t. prefixed c t) (concat-drop_prefix s p rest)

-- The fragments among the effects, in a row
abbrev pub shown : List Effect → String
shown [] = ""
shown (show_delta delta ∷ effects) = concat delta (shown effects)
shown (_ ∷ effects) = shown effects

shown-append : (xs ys : List Effect) → shown (xs ++ ys) ≡ concat (shown xs) (shown ys)
shown-append [] ys = sym (nil-append (shown ys))
shown-append (show_delta delta ∷ xs) ys =
    ap (concat delta) (shown-append xs ys) ∙ sym (append_assoc delta (shown xs) (shown ys))
shown-append (append_reply c e ∷ xs) ys = shown-append xs ys
shown-append (append_error e ∷ xs) ys = shown-append xs ys
shown-append (show_step d ∷ xs) ys = shown-append xs ys
shown-append (show_complete d ∷ xs) ys = shown-append xs ys
shown-append (show_error e ∷ xs) ys = shown-append xs ys
shown-append (call_on_complete c e ∷ xs) ys = shown-append xs ys
shown-append (call_on_error e ∷ xs) ys = shown-append xs ys
shown-append (send_cancel l ∷ xs) ys = shown-append xs ys
shown-append (send_input ∷ xs) ys = shown-append xs ys

fold_content-adds :
    (content so_far : String)
    → concat so_far (fold_content content so_far).1 ≡ (fold_content content so_far).0
unfolding fold_content trim_prefix
fold_content-adds content so_far =
    if_cases (λ (out : String × String). concat so_far out.1 ≡ out.0) (has_prefix content so_far) _
      _ (λ h. rw h (concat-drop_prefix content so_far h)) (λ _. refl)

silent_append : (xs ys : List Effect) → shown xs ≡ "" → shown ys ≡ "" → shown (xs ++ ys) ≡ ""
silent_append xs ys hx hy = shown-append xs ys ∙ rw (hx, hy) (nil-append "")

silent_when : (b : Bool) (e : Effect) → shown (e ∷ []) ≡ "" → shown (when b e) ≡ ""
silent_when true e h = h
silent_when false e h = refl

module _ (r : TurnRunner) where
  -- The text before and what was shown make up the text after.
  abbrev pub Adds : Turn → Step r → Type 0
  Adds t (effects, t', end') = concat t.assistant_content (shown effects) ≡ t'.assistant_content

  silent_three :
      (a b c : Bool) (x y z : Effect)
      → shown (x ∷ []) ≡ ""
      → shown (y ∷ []) ≡ ""
      → shown (z ∷ []) ≡ ""
      → shown (when a x ++ when b y ++ when c z) ≡ ""
  silent_three a b c x y z hx hy hz =
      silent_append (when a x ++ when b y) (when c z)
        (silent_append (when a x) (when b y) (silent_when a x hx) (silent_when b y hy))
        (silent_when c z hz)

  fail_effects-silent : (err : String) → shown (fail_effects r err) ≡ ""
  fail_effects-silent err =
      silent_three r.has_store r.has_broadcaster r.has_on_error (append_error err) (show_error err)
        (call_on_error err) refl refl refl

  complete_turn-silent : (final ev : String) → shown (complete_turn r final ev) ≡ ""
  complete_turn-silent final ev =
      silent_three r.has_store r.has_broadcaster r.has_on_complete (append_reply final ev)
        (show_complete final) (call_on_complete final ev) refl refl refl

  send_loop_cancel-silent : (loop_id : String) → shown (send_loop_cancel loop_id) ≡ ""
  unfolding send_loop_cancel
  send_loop_cancel-silent loop_id =
      if_cases (λ (xs : List Effect). shown xs ≡ "") (trim_space loop_id == "") _ _ (λ _. refl)
        (λ _. refl)

  send_loop_cancel-quiet :
      (loop_id : String) (t : Turn)
      → concat t.assistant_content (shown (send_loop_cancel loop_id)) ≡ t.assistant_content
  send_loop_cancel-quiet loop_id t =
      rw (send_loop_cancel-silent loop_id) (append-nil t.assistant_content)

  silent-Adds :
      (effects : List Effect) (t : Turn) (end' : Option End)
      → shown effects ≡ ""
      → Adds t (effects, t, end')
  silent-Adds effects t end' h = rw h (append-nil t.assistant_content)

  fail-Adds : (err said : String) (t : Turn) → Adds t (fail_effects r err, t, some (failed said))
  fail-Adds err said t =
      silent-Adds (fail_effects r err) t (some (failed said)) (fail_effects-silent err)

  complete-Adds :
      (final ev : String) (t : Turn) → Adds t (complete_turn r final ev, t, some completed)
  complete-Adds final ev t =
      silent-Adds (complete_turn r final ev) t (some completed) (complete_turn-silent final ev)

  prepend-Adds :
      (effects : List Effect) (t u : Turn) (out : Step r)
      → concat t.assistant_content (shown effects) ≡ u.assistant_content
      → Adds u out
      → Adds t (prepend r effects out)
  prepend-Adds effects t u (more, t', end') h adds =
      ap (concat t.assistant_content) (shown-append effects more)
      ∙ sym (append_assoc t.assistant_content (shown effects) (shown more))
      ∙ ap (λ s. concat s (shown more)) h
      ∙ adds

  finish_timeout-Adds :
      (policy : TimeoutPolicy) (err ev : String) (t : Turn)
      → Adds t (finish_timeout r policy err ev t)
  unfolding finish_timeout
  finish_timeout-Adds policy_fail err ev t = fail-Adds err err t
  finish_timeout-Adds soft_complete err ev t =
      if_cases (Adds t) (not (trim_space t.assistant_content == "")) _ _
        (λ _. complete-Adds t.assistant_content ev t) (λ _. fail-Adds err err t)

  abbrev no_content : String → String
  no_content reason = concat "turn ended (" (concat reason ") with no assistant content")

  end_turn-Adds : (reason : String) (t : Turn) → Adds t (end_turn r reason t)
  unfolding end_turn
  end_turn-Adds reason t =
      if_cases (Adds t) (is_substantive_assistant_reply r.classifier t.assistant_content) _ _
        (λ _. complete-Adds (trim_space t.assistant_content) reason t)
        (λ _. fail-Adds (no_content reason) (no_content reason) t)

  deliver-Adds :
      (final : Option String) (ev : String) (ended : Bool × String) (t : Turn)
      → Adds t (deliver r final ev ended t)
  deliver-Adds (some final) ev (ended, reason) t = complete-Adds final ev t
  deliver-Adds none ev (true, reason) t = end_turn-Adds reason t
  deliver-Adds none ev (false, reason) t = silent-Adds [] t none refl

  module _ (heard : r.has_broadcaster ≡ true) where
    broadcast_delta-shown : (delta : String) → shown (broadcast_delta r delta) ≡ delta
    broadcast_delta-shown delta = rw heard (elim (Bool-cases (delta == "")) [
      | inl none' ↦ rw none' (sym ((eq_iff delta "").0 none'))
      | inr some' ↦ rw some' (append-nil delta)
    ])

    add_content-Adds :
        (content : String) (t : Turn)
        → concat t.assistant_content (shown (add_content r content t).0)
          ≡ (add_content r content t).1.assistant_content
    unfolding add_content
    add_content-Adds content t =
        if_cases
          (λ (out : List Effect × Turn).
            concat t.assistant_content (shown out.0) ≡ out.1.assistant_content)
          (content == "") _ _ (λ _. append-nil t.assistant_content)
          (λ _.
            rw (broadcast_delta-shown (fold_content content t.assistant_content).1)
              (fold_content-adds content t.assistant_content))

    step-silent : (step : String) → shown (broadcast_thinking_step r step) ≡ ""
    step-silent step = silent_when _ (show_step (concat (trim_space step) "\n")) refl

    on_content-Adds :
        (result : ChatEventResult) (ended : Bool × String) (t : Turn)
        → Adds t (on_content r result ended t)
    unfolding on_content
    on_content-Adds result ended t =
        let (deltas, t') = add_content r result.content t in
        prepend-Adds (broadcast_thinking_step r result.thinking_step ++ deltas) t t'
          (deliver r (early_reply r result t') result.completion_event ended t')
          (ap (concat t.assistant_content) (
              shown-append (broadcast_thinking_step r result.thinking_step) deltas
              ∙ ap (λ s. concat s (shown deltas)) (step-silent result.thinking_step)
              ∙ nil-append (shown deltas))
            ∙ add_content-Adds result.content t)
          (deliver-Adds (early_reply r result t') result.completion_event ended t')

    on_outcome-Adds :
        (err : Option String) (result : ChatEventResult) (ended : Bool × String) (t : Turn)
        → Adds t (on_outcome r err result ended t)
    unfolding on_outcome
    on_outcome-Adds (some err) result ended t = fail-Adds err (concat "process event: " err) t
    on_outcome-Adds none result ended t = on_content-Adds result ended t

    module _ (decode : String → Option Fields) where
      on_message-Adds : (msg : Message) (t : Turn) → Adds t (on_message r decode msg t)
      unfolding on_message on_armed on_result
      on_message-Adds msg t =
          let result = classify r.classifier decode msg t.assistant_content in
          if_cases (Adds t) (not t.armed && is_stale_turn_end_event msg) _ _
            (λ _. silent-Adds [] t none refl)
            (λ _.
              if_cases (Adds t) (not t.armed && is_status_running_event msg) _ _
                (λ _. append-nil t.assistant_content)
                (λ _.
                  on_outcome-Adds (is_failure r result.terminal result.err) result
                    (feed t.boundary msg).1
                    (record t { armed = true; boundary = (feed t.boundary msg).0 })))

      on_tick-Adds :
          (loop_id : String) (tick : Tick) (t : Turn) → Adds t (on_tick r decode loop_id tick t)
      unfolding on_tick
      on_tick-Adds loop_id cancelled t = fail-Adds "context canceled" "context canceled" t
      on_tick-Adds loop_id deadline t =
          prepend-Adds (send_loop_cancel loop_id) t t
            (finish_timeout r r.on_query_timeout "appkit: query timeout" "query_timeout" t)
            (send_loop_cancel-quiet loop_id t)
            (finish_timeout-Adds r.on_query_timeout "appkit: query timeout" "query_timeout" t)
      on_tick-Adds loop_id idle t =
          prepend-Adds (send_loop_cancel loop_id) t t
            (finish_timeout r r.on_idle_timeout "appkit: idle timeout" "idle_timeout" t)
            (send_loop_cancel-quiet loop_id t)
            (finish_timeout-Adds r.on_idle_timeout "appkit: idle timeout" "idle_timeout" t)
      on_tick-Adds loop_id closed t =
          finish_timeout-Adds r.on_stream_close "event stream closed" "stream_closed" t
      on_tick-Adds loop_id (received msg) t = on_message-Adds msg t

      go_on-Adds :
          (t : Turn) (out rest : Step r)
          → Adds t out
          → Adds out.1 rest
          → Adds t (go_on r decode out rest)
      go_on-Adds t (effects, t', some end') rest h hr = h
      go_on-Adds t (effects, t', none) rest h hr = prepend-Adds effects t t' rest h hr

      -- Where there is a broadcaster, the fragments that it is given from one point of a turn on,
      -- behind the text that the turn had there, are the text that the turn has in the end.
      pub run_loop-Adds :
          (loop_id : String) (ticks : List Tick) (t : Turn)
          → Adds t (run_loop r decode loop_id ticks t)
      unfolding run_loop
      run_loop-Adds loop_id [] t = append-nil t.assistant_content
      run_loop-Adds loop_id (tick ∷ ticks) t =
          let out = on_tick r decode loop_id tick t in
          go_on-Adds t out (run_loop r decode loop_id ticks out.1) (on_tick-Adds loop_id tick t)
            (run_loop-Adds loop_id ticks out.1)
