-- ===== src/Examples/Starts.antt =====
-- Session starts at concrete answers.
use soothe_client_go.Prelude.{ℕ, zero, suc, none}
use soothe_client_go.Bootstrap.{Attempt, succeeded, refused}

-- The daemon is ready at the third attempt.
abbrev third : ℕ → Attempt
third (suc (suc zero)) = record { tried = succeeded; context_err = none }
third _ = record { tried = refused "no daemon"; context_err = none }
