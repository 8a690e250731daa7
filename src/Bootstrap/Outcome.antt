-- ===== src/Bootstrap/Outcome.antt =====
-- session.go: what a session's start and a connection with retries end in.
use soothe_client_go.Prelude.{
  ℕ, zero, suc, ◌+◌, ◌<◌, String, ◌≡◌, refl, true, false, Option, none, some, List, [], ◌∷◌, ◌==◌,
  ◌⊎◌, inl, inr, trim_space, if_cases,
}
use soothe_client_go.Json.{Fields, get, text_of}
use soothe_client_go.Bootstrap.{
  LoopSessionOptions, Call, request_loop_new, loop_subscribe, Answer, answered, unanswered, Booted,
  ready, failed, new_payload, is_refusal, after_subscribe, subscribe_to, after_loop_new,
  bootstrap_loop_session, Attempt, succeeded, refused, hangs, Connection, never_returns, connected,
  cancelled, gave_up,
}

module _ (attempts : ℕ → Attempt) where
  -- An attempt that failed, with a wait behind it that was not cut off
  abbrev pub IsMissed : ℕ → Type 0
  IsMissed i =
      ((err : String) × ((attempts i).tried ≡ refused err)) × ((attempts i).context_err ≡ none)

  -- All from the first number, so many, were missed.
  abbrev pub AllMissed : ℕ → ℕ → Type 0
  AllMissed zero from = Unit
  AllMissed (suc n) from = IsMissed from × AllMissed n (suc from)

  -- The first attempt that was not missed, within the number of attempts, succeeded, was cut off, or never
  -- returned; or all of them were missed.
  abbrev pub Explains : ℕ → ℕ → Connection → Type 0
  Explains n from connected =
      (k : ℕ) × (k < n) × AllMissed k from × ((attempts (from + k)).tried ≡ succeeded)
  Explains n from (cancelled err) =
      (k : ℕ) × (k < n) × AllMissed k from × ((attempts (from + k)).context_err ≡ some err)
  Explains n from never_returns =
      (k : ℕ) × (k < n) × AllMissed k from × ((attempts (from + k)).tried ≡ hangs)
  Explains n from (gave_up tried last_err) = AllMissed n from × (tried ≡ from + n)

-- A loop that is ready has an id and is subscribed to, behind a request for it if none was given.
abbrev pub IsReady : String → List Call × Booted → Type 0
IsReady resume (calls, failed err) = Unit
IsReady resume (calls, ready id) =
    ((id == "") ≡ false)
    × (((calls ≡ loop_subscribe id ∷ []) × (id ≡ trim_space resume))
        ⊎ ((payload : Fields) × (calls ≡ request_loop_new payload ∷ loop_subscribe id ∷ [])
            × ((trim_space resume == "") ≡ true)))

subscribe_to-IsReady :
    (resume id : String) (sub : Answer)
    → (id == "") ≡ false
    → id ≡ trim_space resume
    → IsReady resume (subscribe_to id sub)
unfolding subscribe_to after_subscribe
subscribe_to-IsReady resume id (unanswered err) full e = tt
subscribe_to-IsReady resume id (answered response) full e =
    if_cases (λ (out : Booted). IsReady resume (loop_subscribe id ∷ [], out))
      (is_refusal (get "success" response)) _ _ (λ _. tt) (λ _. (full, inl (refl, e)))

new_loop-IsReady :
    (resume id : String) (payload : Fields) (sub : Answer)
    → (id == "") ≡ false
    → (trim_space resume == "") ≡ true
    → IsReady resume (request_loop_new payload ∷ (subscribe_to id sub).0, (subscribe_to id sub).1)
unfolding subscribe_to after_subscribe
new_loop-IsReady resume id payload (unanswered err) full blank = tt
new_loop-IsReady resume id payload (answered response) full blank =
    if_cases
      (λ (out : Booted). IsReady resume (request_loop_new payload ∷ loop_subscribe id ∷ [], out))
      (is_refusal (get "success" response)) _ _ (λ _. tt) (λ _. (full, inr (payload, refl, blank)))

after_loop_new-IsReady :
    (resume : String) (payload : Fields) (new sub : Answer)
    → (trim_space resume == "") ≡ true
    → IsReady resume (after_loop_new payload new sub)
unfolding after_loop_new
after_loop_new-IsReady resume payload (unanswered err) sub blank = tt
after_loop_new-IsReady resume payload (answered response) sub blank =
    let id = trim_space (text_of "loop_id" response) in
    if_cases (IsReady resume) (id == "") _ _ (λ _. tt)
      (λ full. new_loop-IsReady resume id payload sub full blank)

-- A session that is ready has a loop with an id, and its last call subscribes to it. Where there was an
-- id to resume this is the id, without the white space around it, and the only call; where there was
-- none, one request for a new loop comes before.
pub bootstrap_loop_session-IsReady :
    (new sub : Answer) (resume workspace : String) (opts : Option LoopSessionOptions)
    → IsReady resume (bootstrap_loop_session new sub resume workspace opts)
unfolding bootstrap_loop_session
bootstrap_loop_session-IsReady new sub resume workspace opts =
    if_cases (IsReady resume) (trim_space resume == "") _ _
      (λ blank. after_loop_new-IsReady resume (new_payload workspace opts) new sub blank)
      (λ full. subscribe_to-IsReady resume (trim_space resume) sub full refl)
