-- ===== src/Llm/Breaker/Scenarios.antt =====
-- Runs of the breaker of runtime/llm/circuit_breaker.go.
use jarvinx.Shared.{◌*◌, ◌≡◌, refl, [], ◌∷◌, arith, All}
use jarvinx.Shared.Int.{pos}
use jarvinx.Shared.Clock.{second}
use jarvinx.Llm.Breaker.{
  CircuitBreaker, state_open, allows, succeeds, fails, new_circuit_breaker, default_circuit_breaker,
  run, stats,
}
use jarvinx.Llm.Breaker.Trip.{IsValid, run-IsValid}
use jarvinx.Llm.Breaker.Gate.{IsRefused, answers, answers-run_blocks}

abbrev tripped : CircuitBreaker
tripped = record {
  max_failures = pos 3;
  reset_timeout = 30 * second;
  state = state_open;
  failures = pos 3;
  last_failure = 100 * second;
  successes = pos 0;
}

default_is_three : default_circuit_breaker ≡ new_circuit_breaker (pos 3) (30 * second)
unfolding default_circuit_breaker
default_is_three = refl

run-IsValid_example :
    IsValid 3 (run (new_circuit_breaker (pos 3) 30) (fails 1 ∷ succeeds ∷ fails 5 ∷ allows 9 ∷ []))
run-IsValid_example = run-IsValid 3 30 _ (omega arith) (omega arith)

answers-run_blocks_example :
    All IsRefused (answers tripped (allows (101 * second) ∷ succeeds ∷ allows (129 * second) ∷ []))
    × ((run tripped (allows (101 * second) ∷ succeeds ∷ allows (129 * second) ∷ [])).state
        ≡ state_open)
answers-run_blocks_example =
    answers-run_blocks tripped (allows (101 * second) ∷ succeeds ∷ allows (129 * second) ∷ []) refl
      (omega arith)

stats_example : (stats tripped).failures ≡ pos 3
unfolding stats
stats_example = refl
