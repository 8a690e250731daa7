-- ===== src/Appkit/Session/Refines.antt =====
-- The loop of a DaemonSession against the TurnBoundary of TurnRunner, which is to end a turn by the
-- same contract.
use soothe_client_go.Prelude.{
  String, ◌≡◌, refl, Bool, true, false, not, ◌&&◌, Option, List, [], ◌∷◌, ◌==◌, inl, inr, contains,
  Bool-cases,
}
use soothe_client_go.Json.{Value, Items, Fields, text_of}
use soothe_client_go.Protocol.{Message, raw}
use soothe_client_go.Appkit.Lifecycle.{observe}
use soothe_client_go.Appkit.Boundary.{TurnBoundary, new_boundary, feed, feed_all}
use soothe_client_go.Appkit.Boundary.Safety.{feed_all-final}
use soothe_client_go.Appkit.Frame.{unwrap_next}
use soothe_client_go.Appkit.Session.{
  Turn, new_turn, Read, stopped, frame, failed, closed, Verdict, again, drain, returned, on_frame,
  round,
}
use soothe_client_go.Appkit.Session.Loop.{proceed, turn_loop}
use soothe_client_go.Appkit.Session.OwnLoop.{IsOwn, own-not-other, on_frame-Stays}
use soothe_client_go.Appkit.Session.Gate.{Ahead, gate_of}
use soothe_client_go.Appkit.Session.Ends.{Sim, Meets}
use soothe_client_go.Appkit.Session.Rounds.{observed, after, frame-Meets}

-- A read that a turn on `loop` may meet: a frame of that loop or of none, which does not confirm a
-- cancellation; or any other read.
abbrev pub IsPlain : String → Read → Type 0
IsPlain loop (frame ev cancelled) =
    IsOwn loop (unwrap_next ev)
    × ((text_of "type" (unwrap_next ev) == "command_response"
          && contains (text_of "content" (unwrap_next ev)) "Cancellation requested")
        ≡ false)
IsPlain loop _ = Unit

abbrev pub AllPlain : String → List Read → Type 0
AllPlain loop [] = Unit
AllPlain loop (read ∷ reads) = IsPlain loop read × AllPlain loop reads

-- The frames among the reads, unwrapped, as messages for a boundary
abbrev pub messages_of : List Read → List Message
messages_of [] = []
messages_of (frame ev cancelled ∷ reads) = raw (unwrap_next ev) ∷ messages_of reads
messages_of (_ ∷ reads) = messages_of reads

ended-Meets : (b : TurnBoundary) (out : Verdict × Turn) → b.ended ≡ true → Meets b out
ended-Meets b (again, t) e = inl e
ended-Meets b (drain, t) e = e
ended-Meets b (returned err, t) e = tt

feed_ended : (b : TurnBoundary) (msg : Message) → b.ended ≡ true → (feed b msg).0 ≡ b
unfolding feed
feed_ended b msg e = rw e refl

feed_open :
    (b : TurnBoundary) (m : Fields) (t : Turn) (a : Ahead (gate_of t) b.gate)
    → b.ended ≡ false
    → (feed b (raw m)).0 ≡ after m b.gate b.reason t a
unfolding feed observe after observed
feed_open b m t a e = rw e refl

stays_ended :
    (b : TurnBoundary) (msgs : List Message) → b.ended ≡ true → (feed_all b msgs).ended ≡ true
stays_ended b msgs e = rw (feed_all-final b msgs e) e

module _ (drop : Items → String → Value → Bool) (loop : String) where
  feed-Meets :
      (ev : Fields) (err : Option String) (b : TurnBoundary) (t : Turn)
      → IsOwn loop ev
      → (text_of "type" ev == "command_response"
          && contains (text_of "content" ev) "Cancellation requested")
        ≡ false
      → t.expected_loop_id ≡ loop
      → Sim t b
      → Meets (feed b (raw ev)).0 (on_frame drop ev err t)
  feed-Meets ev err b t own quiet at sim = elim (Bool-cases b.ended) [
    | inl e ↦ rw (feed_ended b (raw ev) e) (ended-Meets b _ e)
    | inr open' ↦ elim sim [
      | inl e ↦ cc
      | inr a ↦
          rw (feed_open b ev t a open')
            (frame-Meets ev b.gate b.reason t a drop err (rw at (own-not-other loop ev own)) quiet)
    ]
  ]

  proceed-Ends :
      (v : Verdict) (t : Turn) (reads : List Read) (b : TurnBoundary)
      (rest : Verdict × Turn × List Read)
      → Meets b (v, t)
      → (Sim t b → rest.0 ≡ drain → (feed_all b (messages_of reads)).ended ≡ true)
      → (proceed v t reads rest).0 ≡ drain
      → (feed_all b (messages_of reads)).ended ≡ true
  unfolding proceed
  proceed-Ends again t reads b rest meets go h = go meets h
  proceed-Ends drain t reads b rest meets go h = stays_ended b (messages_of reads) meets
  proceed-Ends (returned err) t reads b rest meets go h = cc

  turn_loop-Ends :
      (reads : List Read) (b : TurnBoundary) (t : Turn)
      → AllPlain loop reads
      → t.expected_loop_id ≡ loop
      → Sim t b
      → (turn_loop drop reads t).0 ≡ drain
      → (feed_all b (messages_of reads)).ended ≡ true
  unfolding turn_loop round feed_all
  turn_loop-Ends [] b t plain at sim h = cc
  turn_loop-Ends (stopped err ∷ reads) b t plain at sim h = unfold proceed in cc
  turn_loop-Ends (failed err ∷ reads) b t plain at sim h = unfold proceed in cc
  turn_loop-Ends (closed alive ∷ reads) b t plain at sim h =
      elim (Bool-cases (t.query_started && not alive)) [
        | inl lost ↦ unfold proceed in cc (rw lost at h)
        | inr quiet ↦ unfold proceed in cc (rw quiet at h)
      ]
  turn_loop-Ends (frame ev err ∷ reads) b t (plain, all) at sim h =
      let (v, u) = on_frame drop (unwrap_next ev) err t in
      let b' = (feed b (raw (unwrap_next ev))).0 in
      proceed-Ends v u reads b' (turn_loop drop reads u)
        (feed-Meets (unwrap_next ev) err b t plain.0 plain.1 at sim)
        (turn_loop-Ends reads b' u all (on_frame-Stays loop drop (unwrap_next ev) err t plain.0 at))
        h

  -- Every end of a turn that the session sees is one that the boundary sees: when the loop goes on to
  -- the drain after some reads, a fresh boundary that is fed the frames of these reads has ended. The
  -- reads are frames of the session's loop or of none, and none confirms a cancellation.
  pub turn_loop-refines :
      (reads : List Read)
      → AllPlain loop reads
      → (turn_loop drop reads (new_turn loop)).0 ≡ drain
      → (feed_all new_boundary (messages_of reads)).ended ≡ true
  turn_loop-refines reads plain h =
      turn_loop-Ends reads new_boundary (new_turn loop) plain refl
        (inr (refl, refl, refl, inl refl)) h
