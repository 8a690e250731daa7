-- ===== src/Appkit/QueryGate/Flight.antt =====
-- appkit/query_gate.go: the grants of a key, over any sequence of calls.
use soothe_client_go.Prelude.{
  ℕ, ◌+◌, String, ◌≡◌, refl, sym, ◌∙◌, ap, Bool, true, false, Option, none, some, List, [], ◌∷◌,
  ◌==◌, eq_iff, eq_refl, arith, lookup, insert, delete, lookup-insert, lookup-delete, Bool-cases,
  inl, inr, if_cases, if◌then◌else◌,
}
use soothe_client_go.Appkit.QueryGate.{
  QueryGate, GateError, query_busy, daemon_cancel, local_cancel, flat, put_sender, current, is_some,
  is_active, acquire, release, cancel_query, set_send_cancel, replace_cancel,
}

-- A call of the gate, by a client that passes a cancel function to Acquire.
pub data Call : Type 0 where
  acquire_call : (cancel : ℕ) (send : Option ℕ) → Call
  release_call cancel_call : Call
  set_send_call replace_call : Option ℕ → Call

-- A call for the key, and the gate after it.
pub after : String → Call → QueryGate → QueryGate
unfolding acquire
after key (acquire_call c s) g = (acquire key (some c) s g).1
after key release_call g = release key g
after key cancel_call g = (cancel_query key g).1
after key (set_send_call s) g = set_send_cancel key s g
after key (replace_call c) g = replace_cancel key c g

-- Whether a call grants a query for `k`: an Acquire that returns no error.
abbrev no_error : Option GateError → ℕ
no_error none = 1
no_error (some e) = 0

pub grants : String → String → Call → QueryGate → ℕ
grants k key (acquire_call c s) g = if key == k then no_error (acquire key (some c) s g).0 else 0
grants k key _ g = 0

abbrev pub held : String → QueryGate → ℕ
held k g = if is_active k g then 1 else 0

-- Whether a call ends a query for `k` that is in flight: a Release or a Cancel.
pub ends : String → String → Call → QueryGate → ℕ
ends k key release_call g = if key == k then held k g else 0
ends k key cancel_call g = if key == k then held k g else 0
ends k key _ g = 0

pub granted : String → List (String × Call) → QueryGate → ℕ
granted k [] g = 0
granted k ((key, c) ∷ calls) g = grants k key c g + granted k calls (after key c g)

pub ended : String → List (String × Call) → QueryGate → ℕ
ended k [] g = 0
ended k ((key, c) ∷ calls) g = ends k key c g + ended k calls (after key c g)

pub after_all : List (String × Call) → QueryGate → QueryGate
after_all [] g = g
after_all ((key, c) ∷ calls) g = after_all calls (after key c g)

abbrev in_flight : Option (Option ℕ) → Bool
in_flight found = is_some (flat found)

in_flight_if :
    (b : Bool) (c : ℕ) (found : Option (Option ℕ))
    → in_flight (if b then some (some c) else found) ≡ (if b then true else in_flight found)
in_flight_if true c found = refl
in_flight_if false c found = refl

in_flight_unless :
    (b : Bool) (found : Option (Option ℕ))
    → in_flight (if b then none else found) ≡ (if b then false else in_flight found)
in_flight_unless true found = refl
in_flight_unless false found = refl

is_active-insert :
    (key k : String) (c : ℕ) (g : QueryGate) (senders : List (String × ℕ))
    → is_active k (record { cancels = insert key (some c) g.cancels; send_cancels = senders })
      ≡ (if key == k then true else is_active k g)
unfolding is_active
is_active-insert key k c g senders =
    ap in_flight (lookup-insert key k (some c) g.cancels)
    ∙ in_flight_if (key == k) c (lookup k g.cancels)

is_active-release :
    (key k : String) (g : QueryGate)
    → is_active k (release key g) ≡ (if key == k then false else is_active k g)
unfolding is_active release
is_active-release key k g =
    ap in_flight (lookup-delete key k g.cancels) ∙ in_flight_unless (key == k) (lookup k g.cancels)

held_at :
    (key k : String) (g : QueryGate) (b : Bool)
    → (key == k) ≡ true
    → is_active key g ≡ b
    → is_active k g ≡ b
held_at key k g b same h = ap (λ (j : String). is_active j g) (sym ((eq_iff key k).0 same)) ∙ h

acquire_busy :
    (key : String) (c : ℕ) (s : Option ℕ) (g : QueryGate)
    → is_active key g ≡ true
    → acquire key (some c) s g ≡ (some query_busy, g)
unfolding acquire
acquire_busy key c s g busy = rw busy refl

acquire_free :
    (key : String) (c : ℕ) (s : Option ℕ) (g : QueryGate)
    → is_active key g ≡ false
    → acquire key (some c) s g ≡ (
      none,
      record {
        cancels = insert key (some c) g.cancels;
        send_cancels = put_sender key s g.send_cancels;
      },
    )
unfolding acquire
acquire_free key c s g free = rw free refl

-- One that was not held counts for one, if it is the key.
now_held :
    (same before : Bool)
    → (same ≡ true → before ≡ false)
    → (if same then 1 else 0) + (if before then 1 else 0)
      ≡ (if (if same then true else before) then 1 else 0)
now_held same before h = ground (arith, h)

acquire_balance :
    (k key : String) (c : ℕ) (s : Option ℕ) (g : QueryGate)
    → grants k key (acquire_call c s) g + held k g ≡ held k (after key (acquire_call c s) g)
unfolding grants after
acquire_balance k key c s g = elim (Bool-cases (is_active key g)) [
  | inl busy ↦ rw (acquire_busy key c s g busy, after) (ground arith)
  | inr free ↦
      rw (acquire_free key c s g free, after)
        (rw (is_active-insert key k c g (put_sender key s g.send_cancels))
          (now_held (key == k) (is_active k g) (λ same. held_at key k g false same free)))
]

is_active-set_send_cancel :
    (key k : String) (s : Option ℕ) (g : QueryGate)
    → is_active k (set_send_cancel key s g) ≡ is_active k g
unfolding set_send_cancel current
is_active-set_send_cancel key k s g =
    if_cases (λ (h : QueryGate). is_active k h ≡ is_active k g) (is_active key g)
      (record g { send_cancels = put_sender key s g.send_cancels }) g
      (λ _. unfold is_active in refl) (λ _. refl)

is_active-replace_cancel :
    (key k : String) (c : Option ℕ) (g : QueryGate)
    → is_active k (replace_cancel key c g) ≡ is_active k g
unfolding replace_cancel
is_active-replace_cancel key k none g = refl
is_active-replace_cancel key k (some c) g =
    if_cases (λ (h : QueryGate). is_active k h ≡ is_active k g) (is_active key g)
      (record g { cancels = insert key (some c) g.cancels }) g
      (λ busy.
        is_active-insert key k c g g.send_cancels ∙ ground (arith, held_at key k g true, busy))
      (λ _. refl)

call_balance :
    (k key : String) (c : Call) (g : QueryGate)
    → grants k key c g + held k g ≡ ends k key c g + held k (after key c g)
unfolding grants ends after cancel_query
call_balance k key (acquire_call c s) g = omega (arith, acquire_balance k key c s g)
call_balance k key release_call g = rw (is_active-release key k g) (ground arith)
call_balance k key cancel_call g = rw (is_active-release key k g) (ground arith)
call_balance k key (set_send_call s) g = rw (is_active-set_send_cancel key k s g) refl
call_balance k key (replace_call c) g = rw (is_active-replace_cancel key k c g) refl

-- Whatever is called, for whatever keys, by clients that pass a cancel function to Acquire: the
-- grants of a key are as many as the calls of Release and Cancel that ended one, whoever made them, and
-- one more exactly while the key is held. So Acquire never grants a key twice without such a call between.
pub granted-balance :
    (k : String) (calls : List (String × Call)) (g : QueryGate)
    → granted k calls g + held k g ≡ ended k calls g + held k (after_all calls g)
unfolding granted ended after_all
granted-balance k [] g = refl
granted-balance k ((key, c) ∷ calls) g =
    omega (arith, call_balance k key c g, granted-balance k calls (after key c g))

gone {ℓ} : {V : Type ℓ} (k : String) (m : List (String × V)) → lookup k (delete k m) ≡ none
gone k m = lookup-delete k k m ∙ rw eq_refl refl

none_current : (k : String) (g : QueryGate) → current k (release k g) ≡ none
unfolding current release
none_current k g = ap flat (gone k g.cancels)

released : (k : String) (g : QueryGate) → is_active k (release k g) ≡ false
released k g = is_active-release k k g ∙ rw eq_refl refl

no_effects : (k : String) (g : QueryGate) → (cancel_query k (release k g)).0 ≡ []
unfolding cancel_query
no_effects k g =
    let no_sender : lookup k (release k g).send_cancels ≡ none =
      unfold release in gone k g.send_cancels in
    rw (no_sender, none_current k g) refl

-- Cancel of a query in flight that has both its functions tells the daemon first and cancels the
-- local context after that; the key is free from then on, and a second Cancel calls nothing.
pub cancel_query-order :
    (k : String) (cancel send : ℕ) (g : QueryGate)
    → current k g ≡ some cancel
    → lookup k g.send_cancels ≡ some send
    → let (effects, after_cancel) = cancel_query k g in
      (effects ≡ daemon_cancel send ∷ local_cancel cancel ∷ [])
      × (is_active k after_cancel ≡ false)
      × ((cancel_query k after_cancel).0 ≡ [])
unfolding cancel_query
cancel_query-order k cancel send g c s =
    rw (c, s)
      (
        refl,
        is_active-release k k g ∙ rw eq_refl refl,
        rw (gone k g.send_cancels, none_current k g) refl,
      )

-- A query that starts once the one before it was cancelled is not safe from it: when the cancelled
-- query makes its own Release, late, the key of the second is free, no cancel function of the second
-- has been called, and a third query is granted while the second runs.
pub late_release-frees :
    (k : String) (c d : ℕ) (s : Option ℕ) (g : QueryGate)
    → is_active k g ≡ false
    → let cancelled = cancel_query k (acquire k (some c) s g).1 in
      let second = acquire k (some d) none cancelled.1 in
      ((acquire k (some c) s g).0 ≡ none)
      × (second.0 ≡ none)
      × (is_active k second.1 ≡ true)
      × (is_active k (release k second.1) ≡ false)
      × ((cancel_query k (release k second.1)).0 ≡ [])
unfolding cancel_query
late_release-frees k c d s g free =
    let first = (acquire k (some c) s g).1 in
    let granted_again = acquire_free k d none (release k first) (released k first) in
    let second = (acquire k (some d) none (release k first)).1 in
    (
      ap (λ (r : Option GateError × QueryGate). r.0) (acquire_free k c s g free),
      ap (λ (r : Option GateError × QueryGate). r.0) granted_again,
      ap (λ (r : Option GateError × QueryGate). is_active k r.1) granted_again
          ∙ is_active-insert k k d (release k first) _
          ∙ rw eq_refl refl,
      released k second,
      no_effects k second,
    )
