-- ===== src/RunRecovery/Attempts.antt =====
-- How often a run is resumed by itself: packages/core/src/runtime-recovery.ts.
use uma_agent.Base.{ℕ, String, List, length, select, eqs}
use uma_agent.RunRecovery.{RunRow}

-- The rows of the run.
abbrev pub occurrences : String → List RunRow → ℕ
occurrences id rs = length (select (λ r. eqs r.id id) rs)
