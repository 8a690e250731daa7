-- ===== src/Appkit/TurnRunner/Outcome.antt =====
-- appkit/turn_runner.go: a turn announces one outcome, when it ends.
use Prim.Native.String.{◌++◌ as concat}
use mathlib.Core.List.{append_assoc}
use soothe_client_go.Prelude.{
  ◌<◌, String, ◌≡◌, refl, sym, ap, ◌∙◌, subst, Bool, true, false, not, ◌&&◌, Option, none, some,
  List, [], ◌∷◌, ◌++◌, ◌==◌, eq_iff, arith, trim_space, rune_count, if_cases, Bool-cases, inl, inr,
}
use soothe_client_go.Json.{Fields}
use soothe_client_go.Protocol.{Message}
use soothe_client_go.Appkit.Boundary.{feed, is_daemon_turn_end_event}
use soothe_client_go.Appkit.Classifier.{
  ChatEventResult, is_substantive_assistant_reply, resolve_deliverable_final_content,
}
use soothe_client_go.Appkit.Classifier.Process.{classify}
use soothe_client_go.Appkit.TurnRunner.{
  TimeoutPolicy, policy_fail, soft_complete, TurnRunner, Effect, show_step, show_delta, send_cancel,
  send_input, completed, failed, Turn, new_turn, Tick, cancelled, deadline, idle, closed, received,
  when, is_status_running_event, is_stale_turn_end_event, fold_content, send_loop_cancel,
  broadcast_thinking_step, fail_effects, complete_turn, Step, finish_timeout, end_turn, early_reply,
  deliver, is_failure, prepend, add_content, on_content, on_outcome, on_result, on_armed,
  on_message, on_tick, go_on, run_loop, send_and_run, run_turn, send_and_run, run_turn,
}
use soothe_client_go.Appkit.Classifier.Replies.{resolve-IsReply, IsReply}

-- What a turn does before its outcome
abbrev pub IsProgress : Effect → Type 0
IsProgress (show_step text) = Unit
IsProgress (show_delta text) = Unit
IsProgress (send_cancel loop_id) = Unit
IsProgress send_input = Unit
IsProgress _ = ⊥

abbrev pub AllProgress : List Effect → Type 0
AllProgress [] = Unit
AllProgress (e ∷ effects) = IsProgress e × AllProgress effects

all_append : (xs ys : List Effect) → AllProgress xs → AllProgress ys → AllProgress (xs ++ ys)
all_append [] ys hx hy = hy
all_append (x ∷ xs) ys (h, hx) hy = (h, all_append xs ys hx hy)

all_when : (b : Bool) (e : Effect) → IsProgress e → AllProgress (when b e)
all_when true e h = (h, tt)
all_when false e h = tt

send_loop_cancel-AllProgress : (loop_id : String) → AllProgress (send_loop_cancel loop_id)
unfolding send_loop_cancel
send_loop_cancel-AllProgress loop_id =
    if_cases AllProgress (trim_space loop_id == "") _ _ (λ _. tt) (λ _. (tt, tt))

module _ (r : TurnRunner) where
  -- A turn that goes on has shown progress only; one that is completed has shown the reply, which is
  -- not empty, in all three places behind that, and one that failed has shown its error there.
  abbrev pub Announced : Step r → Type 0
  Announced (effects, t, none) = AllProgress effects
  Announced (effects, t, some completed) =
      (before : List Effect) × (final : String) × (completion_event : String) × AllProgress before
      × (effects ≡ before ++ complete_turn r final completion_event)
      × ((final == "") ≡ false)
  Announced (effects, t, some (failed said)) =
      (before : List Effect) × (err : String) × AllProgress before
      × (effects ≡ before ++ fail_effects r err)

  prepend-Announced :
      (effects : List Effect) (out : Step r)
      → AllProgress effects
      → Announced out
      → Announced (prepend r effects out)
  prepend-Announced effects (more, t, none) h announced = all_append effects more h announced
  prepend-Announced effects (more, t, some completed) h (before, final, ev, all, e, full) = (
    effects ++ before,
    final,
    ev,
    all_append effects before h all,
    ap (λ l. effects ++ l) e ∙ sym (append_assoc effects before (complete_turn r final ev)),
    full,
  )
  prepend-Announced effects (more, t, some (failed said)) h (before, err, all, e) = (
    effects ++ before,
    err,
    all_append effects before h all,
    ap (λ l. effects ++ l) e ∙ sym (append_assoc effects before (fail_effects r err)),
  )

  fail-Announced :
      (err said : String) (t : Turn) → Announced (fail_effects r err, t, some (failed said))
  fail-Announced err said t = ([], err, tt, refl)

  complete-Announced :
      (final ev : String) (t : Turn)
      → (final == "") ≡ false
      → Announced (complete_turn r final ev, t, some completed)
  complete-Announced final ev t full = ([], final, ev, tt, refl, full)

  full_text : (s : String) → (trim_space s == "") ≡ false → (s == "") ≡ false
  unfolding trim_space
  full_text s h = elim (Bool-cases (s == "")) [
    | inl e ↦ cc (subst (λ u. (trim_space u == "") ≡ false) ((eq_iff s "").0 e) h)
    | inr e ↦ e
  ]

  finish_timeout-Announced :
      (policy : TimeoutPolicy) (err ev : String) (t : Turn)
      → Announced (finish_timeout r policy err ev t)
  unfolding finish_timeout
  finish_timeout-Announced policy_fail err ev t = fail-Announced err err t
  finish_timeout-Announced soft_complete err ev t =
      if_cases Announced (not (trim_space t.assistant_content == "")) _ _
        (λ h.
          complete-Announced t.assistant_content ev t
            (full_text t.assistant_content (ground arith)))
        (λ _. fail-Announced err err t)

  module _ (enough : 0 < r.classifier.min_deliverable_runes) where
    substantive_full :
        (s : String)
        → is_substantive_assistant_reply r.classifier s ≡ true
        → (trim_space s == "") ≡ false
    unfolding is_substantive_assistant_reply rune_count
    substantive_full s h = elim (Bool-cases (trim_space s == "")) [
      | inl e ↦ ground (arith, enough, ap rune_count ((eq_iff (trim_space s) "").0 e))
      | inr e ↦ e
    ]

    no_content : String → String
    no_content reason = concat "turn ended (" (concat reason ") with no assistant content")

    end_turn-Announced : (reason : String) (t : Turn) → Announced (end_turn r reason t)
    unfolding end_turn no_content
    end_turn-Announced reason t =
        if_cases Announced (is_substantive_assistant_reply r.classifier t.assistant_content) _ _
          (λ long.
            complete-Announced (trim_space t.assistant_content) reason t
              (substantive_full t.assistant_content long))
          (λ _. fail-Announced (no_content reason) (no_content reason) t)

    abbrev IsFull? : Option String → Type 0
    IsFull? none = Unit
    IsFull? (some final) = (final == "") ≡ false

    reply_full :
        (result : ChatEventResult) (text : String) (final : Option String)
        → IsReply r.classifier result text final
        → IsFull? final
    reply_full result text none h = tt
    reply_full result text (some final) h = h.0

    early_reply-full : (result : ChatEventResult) (t : Turn) → IsFull? (early_reply r result t)
    unfolding early_reply
    early_reply-full result t =
        if_cases IsFull? (is_daemon_turn_end_event result.completion_event) _ _ (λ _. tt)
          (λ _.
            reply_full result t.assistant_content
              (resolve_deliverable_final_content r.classifier result t.assistant_content)
              (resolve-IsReply r.classifier result t.assistant_content))

    deliver-Announced :
        (final : Option String) (ev : String) (ended : Bool × String) (t : Turn)
        → IsFull? final
        → Announced (deliver r final ev ended t)
    deliver-Announced (some final) ev (ended, reason) t full = complete-Announced final ev t full
    deliver-Announced none ev (true, reason) t full = end_turn-Announced reason t
    deliver-Announced none ev (false, reason) t full = tt

    add_content-AllProgress :
        (content : String) (t : Turn) → AllProgress (add_content r content t).0
    unfolding add_content
    add_content-AllProgress content t =
        if_cases (λ (out : List Effect × Turn). AllProgress out.0) (content == "") _ _ (λ _. tt)
          (λ _. all_when _ (show_delta (fold_content content t.assistant_content).1) tt)

    on_content-Announced :
        (result : ChatEventResult) (ended : Bool × String) (t : Turn)
        → Announced (on_content r result ended t)
    unfolding on_content
    on_content-Announced result ended t =
        let (deltas, t') = add_content r result.content t in
        prepend-Announced (broadcast_thinking_step r result.thinking_step ++ deltas)
          (deliver r (early_reply r result t') result.completion_event ended t')
          (all_append (broadcast_thinking_step r result.thinking_step) deltas
            (all_when _ (show_step (concat (trim_space result.thinking_step) "\n")) tt)
            (add_content-AllProgress result.content t))
          (deliver-Announced (early_reply r result t') result.completion_event ended t'
            (early_reply-full result t'))

    on_outcome-Announced :
        (err : Option String) (result : ChatEventResult) (ended : Bool × String) (t : Turn)
        → Announced (on_outcome r err result ended t)
    unfolding on_outcome
    on_outcome-Announced (some err) result ended t =
        fail-Announced err (concat "process event: " err) t
    on_outcome-Announced none result ended t = on_content-Announced result ended t

    module _ (decode : String → Option Fields) where
      on_message-Announced : (msg : Message) (t : Turn) → Announced (on_message r decode msg t)
      unfolding on_message on_armed on_result
      on_message-Announced msg t =
          let result = classify r.classifier decode msg t.assistant_content in
          if_cases Announced (not t.armed && is_stale_turn_end_event msg) _ _ (λ _. tt)
            (λ _.
              if_cases Announced (not t.armed && is_status_running_event msg) _ _ (λ _. tt)
                (λ _.
                  on_outcome-Announced (is_failure r result.terminal result.err) result
                    (feed t.boundary msg).1
                    (record t { armed = true; boundary = (feed t.boundary msg).0 })))

      cancelled_first :
          (loop_id : String) (policy : TimeoutPolicy) (err ev : String) (t : Turn)
          → Announced (prepend r (send_loop_cancel loop_id) (finish_timeout r policy err ev t))
      cancelled_first loop_id policy err ev t =
          prepend-Announced (send_loop_cancel loop_id) (finish_timeout r policy err ev t)
            (send_loop_cancel-AllProgress loop_id) (finish_timeout-Announced policy err ev t)

      on_tick-Announced :
          (loop_id : String) (tick : Tick) (t : Turn) → Announced (on_tick r decode loop_id tick t)
      unfolding on_tick
      on_tick-Announced loop_id cancelled t = fail-Announced "context canceled" "context canceled" t
      on_tick-Announced loop_id deadline t =
          cancelled_first loop_id r.on_query_timeout "appkit: query timeout" "query_timeout" t
      on_tick-Announced loop_id idle t =
          cancelled_first loop_id r.on_idle_timeout "appkit: idle timeout" "idle_timeout" t
      on_tick-Announced loop_id closed t =
          finish_timeout-Announced r.on_stream_close "event stream closed" "stream_closed" t
      on_tick-Announced loop_id (received msg) t = on_message-Announced msg t

      go_on-Announced :
          (out rest : Step r) → Announced out → Announced rest → Announced (go_on r decode out rest)
      go_on-Announced (effects, t, some end') rest h hr = h
      go_on-Announced (effects, t, none) rest h hr = prepend-Announced effects rest h hr

      run_loop-Announced :
          (loop_id : String) (ticks : List Tick) (t : Turn)
          → Announced (run_loop r decode loop_id ticks t)
      unfolding run_loop
      run_loop-Announced loop_id [] t = tt
      run_loop-Announced loop_id (tick ∷ ticks) t =
          let out = on_tick r decode loop_id tick t in
          let rest = run_loop r decode loop_id ticks out.1 in
          go_on-Announced out rest (on_tick-Announced loop_id tick t)
            (run_loop-Announced loop_id ticks out.1)

      send_and_run-Announced :
          (err : Option String) (loop_id : String) (ticks : List Tick)
          → Announced (send_and_run r decode err loop_id ticks)
      unfolding send_and_run
      send_and_run-Announced (some err) loop_id ticks =
          prepend-Announced (send_input ∷ [])
            (fail_effects r err, new_turn, some (failed (concat "send message: " err))) (tt, tt)
            (fail-Announced err (concat "send message: " err) new_turn)
      send_and_run-Announced none loop_id ticks =
          prepend-Announced (send_input ∷ []) (run_loop r decode loop_id ticks new_turn) (tt, tt)
            (run_loop-Announced loop_id ticks new_turn)

      -- A turn announces its outcome once, when it ends, and nothing behind that: until then it does
      -- nothing but show progress, send the input and send cancellations; a completed turn then hands
      -- one reply that is not empty to the store, the subscribers and the hook, and a failed one hands
      -- them one error. The classifier wants at least one rune of a reply.
      pub run_turn-Announced :
          (has_events : Bool) (err : Option String) (key loop_id : String) (ticks : List Tick)
          → Announced (run_turn r decode has_events err key loop_id ticks)
      unfolding run_turn
      run_turn-Announced has_events err key loop_id ticks =
          let missing =
            concat "missing event stream for app key "
              (concat key (concat " (loop " (concat loop_id ")"))) in
          if_cases Announced has_events _ _ (λ _. send_and_run-Announced err loop_id ticks)
            (λ _. fail-Announced missing missing new_turn)
