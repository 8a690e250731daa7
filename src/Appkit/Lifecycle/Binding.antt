-- ===== src/Appkit/Lifecycle/Binding.antt =====
-- How a gate binds to a turn: what any sequence of messages can do to the bound turn id.
use soothe_client_go.Prelude.{
  String, ◌≡◌, ◌≢◌, refl, ◌∙◌, Bool, true, false, List, [], ◌∷◌, ◌==◌, eq_iff, ne→==, arith, ◌&&◌,
  ◌||◌, not, Bool-cases, inl, inr, trim_space, equal_fold,
}
use soothe_client_go.Prelude.Int.{ℤ, pos, negsuc, leb_ℤ, is_positive, is_negative}
use soothe_client_go.Json.{Fields, get, text_of}
use soothe_client_go.Protocol.{Message, event, status, envelope, error_response, raw, unknown}
use soothe_client_go.Stream.{is_turn_progress_chunk}
use soothe_client_go.TurnId.{parse_turn_generation, frame_turn_id, is_turn_terminal_allowed}
use soothe_client_go.Appkit.Lifecycle.{
  TurnLifecycleGate, takes_over, allow_stream_end, observe_running, observe_progress, observe_raw,
  observe,
}

-- `h` may come after `g`: running and cancellation are kept, a bound turn stays bound, and its
-- generation does not fall.
pub record Follows (g h : TurnLifecycleGate) : Type 0 where
  pub running : g.saw_running ≡ true → h.saw_running ≡ true
  pub cancellation : h.cancellation_seen ≡ g.cancellation_seen
  pub bound : g.expected_turn_id ≢ "" → h.expected_turn_id ≢ ""
  pub newer :
      g.expected_turn_id ≢ ""
      → leb_ℤ (parse_turn_generation g.expected_turn_id) (parse_turn_generation h.expected_turn_id)
        ≡ true

leb_ℤ_refl : (i : ℤ) → leb_ℤ i i ≡ true
leb_ℤ_refl (pos n) = ground arith
leb_ℤ_refl (negsuc n) = ground arith

leb_ℤ_trans : (i j k : ℤ) → leb_ℤ i j ≡ true → leb_ℤ j k ≡ true → leb_ℤ i k ≡ true
leb_ℤ_trans (pos i) (pos j) (pos k) p q = ground arith
leb_ℤ_trans (pos i) (pos j) (negsuc k) p q = cc
leb_ℤ_trans (pos i) (negsuc j) k p q = cc
leb_ℤ_trans (negsuc i) j (pos k) p q = refl
leb_ℤ_trans (negsuc i) (pos j) (negsuc k) p q = cc
leb_ℤ_trans (negsuc i) (negsuc j) (negsuc k) p q = ground arith

leb_ℤ_sign : (i j : ℤ) → is_positive j ≡ true → is_negative i ≡ true → leb_ℤ i j ≡ true
leb_ℤ_sign (pos i) j p q = cc
leb_ℤ_sign (negsuc i) (pos j) p q = refl
leb_ℤ_sign (negsuc i) (negsuc j) p q = cc

Follows-refl : (g : TurnLifecycleGate) → Follows g g
Follows-refl g = record {
  running = λ h. h;
  cancellation = refl;
  bound = λ h. h;
  newer = λ _. leb_ℤ_refl (parse_turn_generation g.expected_turn_id);
}

takes_over-newer :
    (expected tid : String)
    → expected ≢ ""
    → takes_over expected tid ≡ true
    → leb_ℤ (parse_turn_generation expected) (parse_turn_generation tid) ≡ true
unfolding takes_over
takes_over-newer expected tid n h =
    let old = parse_turn_generation expected in
    let new = parse_turn_generation tid in ground (arith, eq_iff expected "", leb_ℤ_sign old new)

observe_running-Follows : (tid : String) (g : TurnLifecycleGate) → Follows g (observe_running tid g)
unfolding observe_running
observe_running-Follows tid g =
    let expected = g.expected_turn_id in
    ground (
      arith,
      eq_iff tid "",
      eq_iff expected "",
      eq_iff tid expected,
      takes_over-newer expected tid,
      leb_ℤ_refl (parse_turn_generation expected),
    )

observe_progress-Follows : (p : Bool) (g : TurnLifecycleGate) → Follows g (observe_progress p g)
unfolding observe_progress
observe_progress-Follows true g = record {
  running = λ h. h;
  cancellation = refl;
  bound = λ h. h;
  newer = λ _. leb_ℤ_refl (parse_turn_generation g.expected_turn_id);
}
observe_progress-Follows false g = Follows-refl g

Follows-trans : {g h k : TurnLifecycleGate} → Follows g h → Follows h k → Follows g k
Follows-trans {g} {h} {k} a b = record {
  running = λ r. b.running (a.running r);
  cancellation = b.cancellation ∙ a.cancellation;
  bound = λ n. b.bound (a.bound n);
  newer = λ n.
      leb_ℤ_trans (parse_turn_generation g.expected_turn_id)
        (parse_turn_generation h.expected_turn_id) (parse_turn_generation k.expected_turn_id)
        (a.newer n) (b.newer (a.bound n));
}

observe_raw-Follows : (m : Fields) (g : TurnLifecycleGate) → Follows g (observe_raw m g)
unfolding observe_raw
observe_raw-Follows m g =
    let typ = text_of "type" m in
    let mode = text_of "mode" m in
    let running = observe_running (frame_turn_id m) g in
    let progress = is_turn_progress_chunk mode (get "data" m) in
    elim (Bool-cases (typ == "status" && text_of "state" m == "running")) [
      | inl a ↦ elim (Bool-cases (typ == "event" || not (mode == ""))) [
        | inl b ↦
            rw (a, b)
              (Follows-trans {h = running} (observe_running-Follows (frame_turn_id m) g)
                (observe_progress-Follows progress running))
        | inr b ↦ rw (a, b) (observe_running-Follows (frame_turn_id m) g)
      ]
      | inr a ↦ elim (Bool-cases (typ == "event" || not (mode == ""))) [
        | inl b ↦ rw (a, b) (observe_progress-Follows progress g)
        | inr b ↦ rw (a, b) (Follows-refl g)
      ]
    ]

pub observe-Follows : (g : TurnLifecycleGate) (msg : Message) → Follows g (observe g msg)
unfolding observe
observe-Follows g (status m) = elim (Bool-cases (equal_fold (trim_space m.state) "running")) [
  | inl e ↦ rw e (observe_running-Follows (trim_space m.turn_id) g)
  | inr e ↦ rw e (Follows-refl g)
]
observe-Follows g (event m) = observe_progress-Follows (is_turn_progress_chunk m.mode m.data') g
observe-Follows g (envelope m) = Follows-refl g
observe-Follows g (error_response m) = Follows-refl g
observe-Follows g (raw m) = observe_raw-Follows m g
observe-Follows g unknown = Follows-refl g

pub observe_all : TurnLifecycleGate → List Message → TurnLifecycleGate
observe_all g [] = g
observe_all g (msg ∷ msgs) = observe_all (observe g msg) msgs

-- Whatever messages a gate observes, in whatever order: what it saw running stays seen, its
-- cancellation flag stays as it was, a bound turn is never unbound, and the generation of the bound
-- turn never falls, so a late frame of an earlier turn cannot take the gate back.
pub observe_all-Follows :
    (g : TurnLifecycleGate) (msgs : List Message) → Follows g (observe_all g msgs)
unfolding observe_all
observe_all-Follows g [] = Follows-refl g
observe_all-Follows g (msg ∷ msgs) =
    Follows-trans {h = observe g msg} (observe-Follows g msg)
      (observe_all-Follows (observe g msg) msgs)

-- A running status of another turn that takes over leaves no progress behind: the terminal frames
-- of the new turn are refused until the new turn has made progress itself.
pub observe_running-rebinds :
    (tid frame_turn : String) (g : TurnLifecycleGate)
    → tid ≢ ""
    → g.expected_turn_id ≢ ""
    → tid ≢ g.expected_turn_id
    → takes_over g.expected_turn_id tid ≡ true
    → allow_stream_end (observe_running tid g) frame_turn ≡ false
unfolding observe_running allow_stream_end is_turn_terminal_allowed
observe_running-rebinds tid frame_turn g a b c h =
    rw (ne→== tid "" a, ne→== g.expected_turn_id "" b, ne→== tid g.expected_turn_id c, h)
