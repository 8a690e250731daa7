-- ===== src/Appkit/Pool/Acquire.antt =====
-- appkit/pool.go: Acquire, with the reattachment and the bootstrap of a loop.
use Prim.Native.String.{◌++◌ as concat}
use soothe_client_go.Prelude.{
  ℕ, ◌-◌, String, Bool, true, false, not, ◌&&◌, ◌||◌, Option, none, some, List, [], ◌∷◌, ◌++◌, ◌==◌,
  lookup, insert, trim_space, has_prefix, ltb, if◌then◌else◌,
}
use soothe_client_go.Appkit.Pool.{
  Slot, Pool, Effect, register, stop_effect, release, connect_call, reattach_call, bootstrap_call,
  receive_call, create_session, update_last_used,
}

pub data AcquireError : Type 0 where
  pool_exhausted : AcquireError
  context_done : (err : String) → AcquireError
  acquire_failed : (err : String) → AcquireError

-- The text of the error
abbrev pub acquire_error_text : AcquireError → String
acquire_error_text pool_exhausted = "appkit: connection pool exhausted"
acquire_error_text (context_done err) = err
acquire_error_text (acquire_failed err) = err

pub data Booted : Type 0 where
  booted : (loop_id : String) → Booted
  boot_failed : (err : String) → Booted

-- What the client, the bootstrap function, the store, the clock and the context answer to one call
-- of Acquire. `connect_again` is the second Connect, behind a reattachment that failed; a loop id
-- of GetLoopIDForSession is `none` where it returns an error or not ok. The context's error counts
-- where the select takes it.
pub record Answers : Type 0 where
  pub notified : Bool
  pub connected : Bool
  pub now : ℕ
  pub context_err : Option String
  pub connect : Option String
  pub reattach : Option String
  pub connect_again : Option String
  pub boot : Booted
  pub receive_err : Option String
  pub stored_loop : Option String
  pub stored_type : Option String

-- loopIDFor
unfoldable pub loop_id_for : Option String → Option String
loop_id_for none = none
loop_id_for (some raw) =
    let id = trim_space raw in if id == "" || has_prefix id "pending-" then none else some id

-- sessionTypeFor
unfoldable pub session_type_for : Option String → String
session_type_for none = ""
session_type_for (some kind) = trim_space kind

-- startReader
unfoldable pub start_reader : Option String → Slot → List Effect × Slot
start_reader (some err) s = (
  stop_effect s ++ receive_call s.slot_id ∷ [],
  record s { has_stream = false; reader_live = false },
)
start_reader none s = (
  stop_effect s ++ receive_call s.slot_id ∷ [],
  record s { has_events = true; has_stream = true; reader_live = true },
)

-- How a slot that was taken is made ready: the loop it serves, or why it cannot
pub data Outcome : Type 0 where
  ready : (loop_id : String) (slot : Slot) → Outcome
  failed : AcquireError → Outcome

-- bootstrapNew
unfoldable pub bootstrap_new : Answers → String → String → Slot → List Effect × Outcome
unfolding start_reader
bootstrap_new ans ws user s = elim ans.boot [
  | boot_failed err ↦ (bootstrap_call s.slot_id ws user ∷ [], failed (acquire_failed err))
  | booted loop ↦
      let (calls, s') = start_reader ans.receive_err s in
      (bootstrap_call s.slot_id ws user ∷ calls, ready loop s')
]

-- `p.store.CreateSession`, whose error is only logged
abbrev pub session_effect : String → String → String → Outcome → List Effect
session_effect ws key kind (ready loop s) = create_session ws key loop kind ∷ []
session_effect ws key kind (failed err) = []

-- The error is wrapped: `fmt.Errorf(title + "%w", err)`.
abbrev pub wrap : String → Outcome → Outcome
wrap title (failed (acquire_failed err)) = failed (acquire_failed (concat title err))
wrap title out = out

-- The connection and the bootstrap of a fresh loop, at first or behind a reattachment that failed
unfoldable pub fresh_loop :
    Bool → Option String → Answers → String → String → String → Slot → List Effect × Outcome
unfolding bootstrap_new session_type_for
fresh_loop again (some err) ans key ws user s = (
  connect_call s.slot_id ∷ [],
  wrap (if again then "connect after reattach fail: " else "connect: ")
      (failed (acquire_failed err)),
)
fresh_loop again none ans key ws user s =
    let (calls, out) = bootstrap_new ans ws user s in
    (
      connect_call s.slot_id
          ∷ (calls ++ session_effect ws key (session_type_for ans.stored_type) out),
      wrap (if again then "bootstrap after reattach fail: " else "bootstrap new loop: ") out,
    )

-- resumeAndReattach: the slot whose reader was started, or none for an error
unfoldable pub resume_and_reattach : Answers → String → Slot → List Effect × Option Slot
unfolding start_reader
resume_and_reattach ans loop s = elim ans.connect [
  | some err ↦ (connect_call s.slot_id ∷ [], none)
  | none ↦ elim ans.reattach [
    | some err ↦ (connect_call s.slot_id ∷ reattach_call s.slot_id loop ∷ [], none)
    | none ↦
        let (calls, s') = start_reader ans.receive_err s in
        (connect_call s.slot_id ∷ reattach_call s.slot_id loop ∷ calls, some s')
  ]
]

-- The branches of Acquire behind the slot that it took
unfoldable pub bring_up : Answers → String → String → String → Slot → List Effect × Outcome
unfolding fresh_loop resume_and_reattach loop_id_for
bring_up ans key ws user s = elim (loop_id_for ans.stored_loop) [
  | none ↦ fresh_loop false ans.connect ans key ws user s
  | some loop ↦
      let (calls, resumed) = resume_and_reattach ans loop s in
      elim resumed [
        | some s' ↦ (calls, ready loop s')
        | none ↦
            let (more, out) = fresh_loop true ans.connect_again ans key ws user s in
            (calls ++ more, out)
      ]
]

pub data Result : Type 0 where
  granted : Slot → Result
  refused : AcquireError → Result

-- A slot is pulled from the channel and belongs to the key.
unfoldable pub claim : String → Slot → List Slot → Pool → Pool
unfolding register
claim key s rest p = record p {
  idle = rest;
  active_slots = insert key s p.active_slots;
  registry = register s.slot_id key p.registry;
}

-- The end of Acquire: the slot is released after an error, and stamped otherwise
unfoldable pub settle :
    Answers → String → String → List Effect × Outcome → Pool → Result × List Effect × Pool
unfolding release
settle ans key ws (calls, failed err) p =
    let (more, p') = release key p in (refused err, calls ++ more, p')
settle ans key ws (calls, ready loop s) p =
    let s' = record s {
      app_key = key;
      loop_id = loop;
      workspace_id = ws;
      last_used = some ans.now;
    } in
    (
      granted s',
      calls ++ update_last_used key ∷ [],
      record p { active_slots = insert key s' p.active_slots },
    )

-- The slots in the channel
unfoldable pub pull :
    Answers → String → String → String → List Slot → Pool → Result × List Effect × Pool
unfolding claim bring_up settle
pull ans key ws user [] p = (refused pool_exhausted, [], p)
pull ans key ws user (s ∷ rest) p =
    settle ans key ws (bring_up ans key ws user s) (claim key s rest p)

-- The second half of Acquire, from the select
unfoldable pub take_slot : Answers → String → String → String → Pool → Result × List Effect × Pool
unfolding pull
take_slot ans key ws user p = elim ans.context_err [
  | some err ↦ (refused (context_done err), [], p)
  | none ↦ pull ans key ws user p.idle p
]

-- isConnected and eventStreamLive
abbrev pub is_live : Answers → Slot → Bool
is_live ans s = (ans.connected && not ans.notified) && (s.has_events && s.reader_live)

unfoldable pub idle_too_long : Answers → ℕ → Slot → Bool
idle_too_long ans max s = elim s.last_used [
  | none ↦ false
  | some used ↦ ltb 0 max && ltb max (ans.now - used)
]

-- `existing.lastUsed = time.Now()`
unfoldable pub reuse : Answers → String → Slot → Pool → Result × List Effect × Pool
reuse ans key s p =
    let s' = record s { last_used = some ans.now } in
    (
      granted s',
      update_last_used key ∷ [],
      record p { active_slots = insert key s' p.active_slots },
    )

unfoldable pub replace : Answers → String → String → String → Pool → Result × List Effect × Pool
unfolding release take_slot
replace ans key ws user p =
    let (calls, p') = release key p in
    let (out, more, p'') = take_slot ans key ws user p' in (out, calls ++ more, p'')

unfoldable pub acquire_found :
    Answers → String → String → String → Option Slot → Pool → Result × List Effect × Pool
unfolding idle_too_long reuse replace take_slot
acquire_found ans key ws user none p = take_slot ans key ws user p
acquire_found ans key ws user (some s) p =
    if is_live ans s && not (idle_too_long ans p.max_idle_time s)
    then reuse ans key s p
    else replace ans key ws user p

-- Acquire
unfoldable pub acquire : Answers → String → String → String → Pool → Result × List Effect × Pool
unfolding acquire_found
acquire ans key ws user p = acquire_found ans key ws user (lookup key p.active_slots) p
