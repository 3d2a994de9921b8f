-- ===== src/ToolLoop/Tests.antt =====
-- Runs of the guard at concrete inputs. The input of a call is a text that stands for its digest.
use uma_agent.Base.{
  ◌↔◌, ◌+◌, ◌≤◌, String, ◌≡◌, ◌≢◌, refl, List, [], ◌∷◌, none, some, arith, length, max, same,
  last_n, texts_differ,
}
use uma_agent.ToolLoop.{
  ToolRecord, RunAction, critical, warning, repeat, ping_pong, empty_guard, check, judge,
  repeat_count, stalls, signatures, new_guard, trim, ping_pongs, alternates,
}
use uma_agent.ToolLoop.Windows.{turns, ping_pong_iff}
use uma_agent.ToolLoop.Repeats.{check_all, sixth_repeat_stops}
use uma_agent.ToolLoop.Invariant.{calls, returns, IsValid, run, run-new_guard}

abbrev text_digest : String → String
text_digest t = t

abbrev entry : String → String → ToolRecord
entry key sig = record { idempotency_key = key; signature = sig; result = none }

abbrev back_and_forth : List ToolRecord
back_and_forth =
    entry "1" "a"
    ∷ entry "2" "b"
    ∷ entry "3" "a"
    ∷ entry "4" "b"
    ∷ entry "5" "a"
    ∷ entry "6" "b"
    ∷ entry "7" "a"
    ∷ entry "8" "b"
    ∷ entry "9" "a"
    ∷ entry "10" "b"
    ∷ []

a_ne_b : ◌≢◌ {A = String} "a" "b"
unfolding same
a_ne_b = texts_differ "a" "b" refl

judged :
    judge "b" back_and_forth
    ≡ some (record { level = critical; pattern_ = ping_pong; count = 5; signature = "b" })
unfolding judge repeat_count stalls same ping_pongs alternates
judged = refl

ping_pong_iff_example :
    (judge "b" back_and_forth
      ≡ some (record { level = critical; pattern_ = ping_pong; count = 5; signature = "b" }))
    ↔ ((a : String) × (b : String) × (a ≢ b)
        × (last_n 10 (signatures back_and_forth) ≡ turns 10 a b))
unfolding repeat_count stalls same
ping_pong_iff_example = ping_pong_iff "b" back_and_forth (omega arith) refl

sixth_repeat_stops_example :
    (check text_digest "read" "x" "6"
      (check_all text_digest "read" "x" ("1" ∷ "2" ∷ "3" ∷ "4" ∷ "5" ∷ []) empty_guard)).1
    ≡ some (record {
      level = critical;
      pattern_ = repeat;
      count = repeat_count "read:x" empty_guard.records + 5 + 1;
      signature = "read:x";
    })
unfolding check_all check same
sixth_repeat_stops_example =
    sixth_repeat_stops text_digest "read" "x" ("1" ∷ "2" ∷ "3" ∷ "4" ∷ "5" ∷ []) "6" empty_guard
      (refl, (refl, (refl, (refl, (refl, tt))))) (omega arith) (omega arith) refl

abbrev past : List (RunAction String)
past =
    record { idempotency_key = "1"; tool_name = "read"; input = "x"; result = some "y" }
    ∷ record { idempotency_key = "2"; tool_name = "read"; input = "x"; result = none }
    ∷ []

run-new_guard_example :
    IsValid
      (run text_digest (calls "list" "z" "3" ∷ returns "3" "w" ∷ []) (new_guard text_digest past))
    × (length
          (run text_digest
            (calls "list" "z" "3" ∷ returns "3" "w" ∷ [])
            (new_guard text_digest past)).records
        ≤ max 64 2)
run-new_guard_example = run-new_guard text_digest past (calls "list" "z" "3" ∷ returns "3" "w" ∷ [])

-- The third equal call is warned about.
third_repeat :
    (check text_digest "read" "x" "3"
      (check_all text_digest "read" "x" ("1" ∷ "2" ∷ []) empty_guard)).1
    ≡ some (record { level = warning; pattern_ = repeat; count = 3; signature = "read:x" })
unfolding check_all check same judge repeat_count stalls trim ping_pongs
third_repeat = refl
