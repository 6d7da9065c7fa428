-- ===== src/Llm/Ollama.antt =====
-- The retries of runtime/llm/ollama.go. One call of ThinkWithDecision is a run of its loop over the attempts; what
-- the network, the context, the clock and the random numbers answer at each attempt is a parameter.
pub mod Retry
pub mod Outage
mod Scenarios
use jarvinx.Shared.{
  ℕ, zero, suc, ◌+◌, ◌*◌, ◌/◌, ◌%◌, Bool, true, false, List, [], ◌∷◌, ◌++◌, Option, none, some, ◌⊎◌,
  inl, inr, ltb, ◌==◌, if◌then◌else◌,
}
use jarvinx.Shared.Int.{ℤ, pos, pos_part, ltb_ℤ}
use jarvinx.Shared.Clock.{Time, Duration, second}
use jarvinx.Shared.Float.{Float64}
use jarvinx.Shared.Text.{Text, codes}
use jarvinx.Llm.Breaker
use jarvinx.Llm.Breaker.{CircuitBreaker, CircuitStats, err_circuit_open}
use jarvinx.Llm.Chat.{OllamaClient, OllamaRequest, Exchange, ThinkError, ResponseDecoder, think}
use jarvinx.Llm.Parser.{Decision, Decoder, ErrInvalidDecision, fallback_decision, parse_decision}

abbrev pub millisecond : Duration
millisecond = 1000000

pub record RetryConfig : Type 0 where
  pub max_attempts : ℤ
  pub delay : Duration
  pub jitter : Duration

abbrev pub default_retry_config : RetryConfig
default_retry_config = record {
  max_attempts = pos 3;
  delay = 2 * second;
  jitter = 1000 * millisecond;
}

-- `draw n` is rand.Intn n for n at least 1; `none`: rand.Intn panics, its argument is 0.
unfoldable pub sleep_duration : (ℕ → ℕ) → RetryConfig → Option Duration
sleep_duration draw r =
    if r.jitter == 0
    then some r.delay
    else if r.jitter / millisecond == 0
    then none
    else some (r.delay + draw (r.jitter / millisecond) * millisecond)

pub data CallError : Type 0 where
  circuit_open : Breaker.Error → CallError
  context_done : Text → CallError
  attempt_failed : ℕ → ThinkError → CallError
  attempt_unparsed : ℕ → ErrInvalidDecision → CallError

-- At attempt i: the error of the context if it is done, the network, the instant at which a failure is
-- recorded, and the random numbers.
pub record Surroundings : Type 0 where
  pub cancelled : ℕ → Option Text
  pub net : ℕ → Text × OllamaRequest → Exchange
  pub clock : ℕ → Time
  pub draw : ℕ → ℕ → ℕ
  pub decode_response : ResponseDecoder

-- What a call returns, and the breaker that it leaves.
pub record Answer (F : Type 0) : Type 0 where
  pub decision : Decision F
  pub attempts : ℤ
  pub error : Option CallError
  pub circuit : CircuitBreaker

-- How one pass of the loop ends: by return, by `continue`, or by a panic of the sleep before it.
pub data Pass (F : Type 0) : Type 0 where
  returns : Answer F → Pass F
  continues : CallError → CircuitBreaker → Pass F
  panics : Pass F

module _ {F : Type 0} where
  rested : Option Duration → CallError → CircuitBreaker → Pass F
  rested none error cb = panics
  rested (some pause) error cb = continues error cb

  -- The last attempt is not followed by a sleep.
  pub retried : Surroundings → RetryConfig → ℕ → CallError → CircuitBreaker → Pass F
  unfolding rested sleep_duration
  retried w retry attempt error cb =
      if ltb_ℤ (pos attempt) retry.max_attempts
      then rested (sleep_duration (w.draw attempt) retry) error cb
      else continues error cb

  parsed :
      Surroundings
      → RetryConfig
      → ℕ
      → CircuitBreaker
      → Decision F × Option ErrInvalidDecision
      → Pass F
  unfolding retried Breaker.record_success
  parsed w retry attempt cb (d, some error) =
      retried w retry attempt (attempt_unparsed attempt error) cb
  parsed w retry attempt cb (d, none) = returns (record {
    decision = d;
    attempts = pos attempt;
    error = none;
    circuit = Breaker.record_success cb;
  })

module _ {F : Type 0} ⦃fl : Float64 F⦄ (dec : Decoder F) (w : Surroundings) where
  heard : RetryConfig → ℕ → CircuitBreaker → ThinkError ⊎ Text → Pass F
  unfolding parsed retried parse_decision Breaker.record_failure
  heard retry attempt cb (inl error) =
      retried w retry attempt (attempt_failed attempt error)
        (Breaker.record_failure (w.clock attempt) cb)
  heard retry attempt cb (inr raw) = parsed w retry attempt cb (parse_decision dec raw)

  -- One pass, once the context has been looked at.
  attempt_once :
      OllamaClient → Text → Text → RetryConfig → ℕ → CircuitBreaker → Option Text → Pass F
  unfolding heard think fallback_decision Breaker.record_failure
  attempt_once c system user retry attempt cb (some error) = returns (record {
    decision = fallback_decision (codes "context cancelled");
    attempts = pos attempt;
    error = some (context_done error);
    circuit = Breaker.record_failure (w.clock attempt) cb;
  })
  attempt_once c system user retry attempt cb none =
      heard retry attempt cb (think w.decode_response (w.net attempt) c system user)

  -- The loop with n attempts left; `none` is a panic. After the last one, the failure of the call is
  -- recorded as well.
  unfoldable pub think_loop :
      OllamaClient
      → Text
      → Text
      → RetryConfig
      → ℕ
      → ℕ
      → Option CallError
      → CircuitBreaker
      → Option (Answer F)
  unfolding attempt_once fallback_decision Breaker.record_failure
  think_loop c system user retry zero attempt last cb = some (record {
    decision = fallback_decision (codes "all attempts failed");
    attempts = retry.max_attempts;
    error = last;
    circuit = Breaker.record_failure (w.clock attempt) cb;
  })
  think_loop c system user retry (suc n) attempt last cb =
      elim (attempt_once c system user retry attempt cb (w.cancelled attempt)) [
        | returns answer ↦ some answer
        | continues error cb' ↦ think_loop c system user retry n (suc attempt) (some error) cb'
        | panics ↦ none
      ]

  admitted :
      OllamaClient
      → Text
      → Text
      → RetryConfig
      → CircuitBreaker × Option Breaker.Error
      → Option (Answer F)
  unfolding think_loop fallback_decision
  admitted c system user retry (cb, some error) = some (record {
    decision = fallback_decision (codes "circuit breaker open");
    attempts = pos 0;
    error = some (circuit_open error);
    circuit = cb;
  })
  admitted c system user retry (cb, none) =
      think_loop c system user retry (pos_part retry.max_attempts) 1 none cb

  -- The breaker is asked at the instant `clock 0`.
  unfoldable pub think_with_decision : OllamaClient → Text → Text → RetryConfig → Option (Answer F)
  unfolding admitted Breaker.allow
  think_with_decision c system user retry =
      admitted c system user retry (Breaker.allow (w.clock 0) c.circuit)

unfoldable pub circuit_stats : OllamaClient → CircuitStats
unfolding Breaker.stats
circuit_stats c = Breaker.stats c.circuit
