-- ===== src/Llm/Breaker.antt =====
-- runtime/llm/circuit_breaker.go. A method that mutates `*CircuitBreaker` returns the new record;
-- the instant that it reads from the clock is an argument. The mutex makes each method one step.
pub mod Trip
pub mod Gate
mod Scenarios
use jarvinx.Shared.{
  ℕ, zero, suc, ◌≡◌, refl, Bool, List, [], ◌∷◌, Option, none, some, leb, if◌then◌else◌, ◌*◌,
}
use jarvinx.Shared.Int.{ℤ, pos, inc, leb_ℤ}
use jarvinx.Shared.Clock.{Time, Duration, since, second}
use jarvinx.Shared.Text.{Text, codes}

pub data CircuitState : Type 0 where
  state_closed state_open state_half_open : CircuitState

-- CircuitState.String; the `default` branch has no value of this type.
unfoldable pub string : CircuitState → Text
string state_closed = codes "closed"
string state_open = codes "open"
string state_half_open = codes "half-open"

pub data Error : Type 0 where
  err_circuit_open : Error

pub record CircuitBreaker : Type 0 where
  pub max_failures : ℤ
  pub reset_timeout : Duration
  pub state : CircuitState
  pub failures : ℤ
  pub last_failure : Time
  pub successes : ℤ

unfoldable pub new_circuit_breaker : ℤ → Duration → CircuitBreaker
new_circuit_breaker max timeout = record {
  max_failures = max;
  reset_timeout = timeout;
  state = state_closed;
  failures = pos 0;
  last_failure = 0;
  successes = pos 0;
}

unfoldable pub default_circuit_breaker : CircuitBreaker
unfolding new_circuit_breaker
default_circuit_breaker = new_circuit_breaker (pos 3) (30 * second)

allow_in : CircuitState → Time → CircuitBreaker → CircuitBreaker × Option Error
allow_in state_closed now cb = (cb, none)
allow_in state_open now cb =
    if leb cb.reset_timeout (since now cb.last_failure)
    then (record cb { state = state_half_open; successes = pos 0 }, none)
    else (cb, some err_circuit_open)
allow_in state_half_open now cb = (cb, none)

unfoldable pub allow : Time → CircuitBreaker → CircuitBreaker × Option Error
unfolding allow_in since
allow now cb = allow_in cb.state now cb

succeed_in : CircuitState → CircuitBreaker → CircuitBreaker
succeed_in state_half_open cb =
    let cb' = record cb { successes = inc cb.successes } in
    if leb_ℤ (pos 1) cb'.successes then record cb' { state = state_closed } else cb'
succeed_in _ cb = cb

unfoldable pub record_success : CircuitBreaker → CircuitBreaker
unfolding succeed_in inc
record_success cb = succeed_in cb.state (record cb { failures = pos 0 })

fail_in : CircuitState → CircuitBreaker → CircuitBreaker
fail_in state_closed cb =
    if leb_ℤ cb.max_failures cb.failures then record cb { state = state_open } else cb
fail_in state_half_open cb = record cb { state = state_open; successes = pos 0 }
fail_in state_open cb = cb

unfoldable pub record_failure : Time → CircuitBreaker → CircuitBreaker
unfolding fail_in inc
record_failure now cb =
    fail_in cb.state (record cb { failures = inc cb.failures; last_failure = now })

pub record CircuitStats : Type 0 where
  pub state_name : Text
  pub failures : ℤ
  pub max_failures : ℤ

unfoldable pub stats : CircuitBreaker → CircuitStats
unfolding string
stats cb = record {
  state_name = string cb.state;
  failures = cb.failures;
  max_failures = cb.max_failures;
}

-- The calls that clients make, each with the instant at which it reads the clock.
pub data Call : Type 0 where
  allows : Time → Call
  succeeds : Call
  fails : Time → Call

unfoldable pub step : CircuitBreaker → Call → CircuitBreaker × Option Error
step cb (allows now) = allow now cb
step cb succeeds = (record_success cb, none)
step cb (fails now) = (record_failure now cb, none)

unfoldable pub run : CircuitBreaker → List Call → CircuitBreaker
run cb [] = cb
run cb (c ∷ cs) = run (step cb c).0 cs
