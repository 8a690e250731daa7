-- ===== src/Appkit/Session/Loop.antt =====
-- appkit/daemon_session.go: the loop of IterTurnChunks, and the drain after the end of a turn.
use soothe_client_go.Prelude.{
  ◌+◌, String, Bool, true, false, not, Option, none, some, List, [], ◌∷◌, ◌++◌, ◌==◌, if◌then◌else◌,
}
use soothe_client_go.Json.{Value, Items, Fields, text_of}
use soothe_client_go.Appkit.Frame.{unwrap_next}
use soothe_client_go.Appkit.Session.{
  Turn, new_turn, Read, Verdict, is_other_loop, follow_loop, chunk_of, is_dropped, round, again,
  drain, returned, frame,
}

-- Another round, or the end of the loop with the reads that are left
unfoldable pub proceed :
    Verdict → Turn → List Read → Verdict × Turn × List Read → Verdict × Turn × List Read
proceed again t reads rest = rest
proceed drain t reads rest = (drain, t, reads)
proceed (returned err) t reads rest = (returned err, t, reads)

module _ (drop : Items → String → Value → Bool) where
  -- A round of drainAfterIdle; the second result is whether the drain goes on. `expected_loop_id` is
  -- the drain's own `exp`, which starts as the loop's.
  unfoldable pub drain_event : Fields → Option String → Turn → Turn × Bool
  drain_event ev cancelled t =
      let c = chunk_of ev in
      if is_dropped drop c
      then (record t { filtered_early = t.filtered_early + 1 }, true)
      else elim cancelled [
        | none ↦ (
          record t { post_idle_drained = t.post_idle_drained + 1; sent = t.sent ++ c ∷ [] },
          true,
        )
        | some err ↦ (record t { post_idle_drained = t.post_idle_drained + 1 }, false)
      ]

  unfoldable pub drain_frame : Fields → Option String → Turn → Turn × Bool
  unfolding drain_event follow_loop
  drain_frame ev cancelled t =
      let typ = text_of "type" ev in
      if is_other_loop t.expected_loop_id ev
      then (t, true)
      else if typ == "error"
      then (t, false)
      else if typ == "status"
      then (follow_loop (text_of "loop_id" ev) t, true)
      else if not (typ == "event")
      then (t, true)
      else drain_event ev cancelled t

  -- drainAfterIdle; any read but a frame ends it, as do its deadline and the context
  unfoldable pub drain_after_idle : List Read → Turn → Turn
  unfolding drain_frame
  drain_after_idle [] t = t
  drain_after_idle (frame ev cancelled ∷ reads) t =
      let (t', more) = drain_frame (unwrap_next ev) cancelled t in
      let rest = drain_after_idle reads t' in if more then rest else t'
  drain_after_idle (_ ∷ reads) t = t

  -- The loop of iterTurnChunksLocked, up to the drain, with the reads that are left: the verdict
  -- `again` says that it waits for another read.
  unfoldable pub turn_loop : List Read → Turn → Verdict × Turn × List Read
  unfolding round proceed
  turn_loop [] t = (again, t, [])
  turn_loop (read ∷ reads) t =
      let (v, t') = round drop read t in proceed v t' reads (turn_loop reads t')

  unfoldable pub finish : Verdict → Turn → List Read → Verdict × Turn
  unfolding drain_after_idle
  finish drain t reads = (returned none, drain_after_idle reads t)
  finish v t reads = (v, t)

  -- iterTurnChunksLocked
  unfoldable pub iter_turn_chunks : String → List Read → Verdict × Turn
  unfolding turn_loop finish
  iter_turn_chunks loop_id reads =
      let (v, t, rest) = turn_loop reads (new_turn loop_id) in finish v t rest
