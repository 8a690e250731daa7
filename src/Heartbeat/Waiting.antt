-- ===== src/Heartbeat/Waiting.antt =====
-- heartbeat.go: what WaitForAlive has seen when it returns.
use soothe_client_go.Prelude.{
  ◌-◌, ◌≡◌, refl, true, false, ◌||◌, List, [], ◌∷◌, ◌⊎◌, inl, inr, ltb, if_cases,
}
use soothe_client_go.Heartbeat.{
  is_recent, get_health, Tick, deadline, check, Wait, waiting, alive, timed_out, wait_for_alive,
}

-- What a wait that returns has seen: nil behind a check that found the daemon alive, where the checks
-- before did not; an error behind the deadline, with the tracker's state at that time.
abbrev pub Saw : List Tick → Wait → Type 0
Saw [] out = out ≡ waiting
Saw (deadline now t ∷ ticks) out =
    out ≡ timed_out (record { last_heartbeat = t.last_heartbeat; state = t.daemon_state })
Saw (check now t ∷ ticks) out =
    (((get_health now t).is_alive ≡ true) × (out ≡ alive))
    ⊎ (((get_health now t).is_alive ≡ false) × Saw ticks out)

pub wait_for_alive-Saw : (ticks : List Tick) → Saw ticks (wait_for_alive ticks)
unfolding wait_for_alive get_health
wait_for_alive-Saw [] = refl
wait_for_alive-Saw (deadline now t ∷ ticks) = refl
wait_for_alive-Saw (check now t ∷ ticks) =
    if_cases (Saw (check now t ∷ ticks))
      (is_recent now t.alive_threshold t.last_heartbeat || ltb (now - t.start_time) 20) _ _
      (λ h. inl (h, refl)) (λ h. inr (h, wait_for_alive-Saw ticks))
