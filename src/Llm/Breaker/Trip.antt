-- ===== src/Llm/Breaker/Trip.antt =====
-- When the breaker of runtime/llm/circuit_breaker.go opens.
use jarvinx.Shared.{ℕ, suc, ◌+◌, ◌<◌, ◌≡◌, List, [], ◌∷◌, arith, leb, if◌then◌else◌, length}
use jarvinx.Shared.Int.{pos, two63, pos_part, neg_part}
use jarvinx.Shared.Clock.{Time}
use jarvinx.Llm.Breaker.{
  state_closed, state_open, state_half_open, CircuitBreaker, Call, new_circuit_breaker, allow,
  record_success, record_failure, step, run, allows, succeeds, fails,
}

-- What holds between two calls, for a limit of `max` failures.
pub record IsValid (max : ℕ) (cb : CircuitBreaker) : Type 0 where
  pub positive : 0 < max
  pub limit : cb.max_failures ≡ pos max
  pub counted : cb.state ≡ state_closed → neg_part cb.failures ≡ 0
  pub below : cb.state ≡ state_closed → pos_part cb.failures < max
  pub fresh : cb.state ≡ state_half_open → cb.successes ≡ pos 0

new-IsValid : (max timeout : ℕ) → 0 < max → IsValid max (new_circuit_breaker (pos max) timeout)
unfolding new_circuit_breaker
new-IsValid max timeout h = ground arith

step-IsValid :
    (max : ℕ) (cb : CircuitBreaker) (c : Call)
    → max < two63
    → IsValid max cb
    → IsValid max (step cb c).0
unfolding step allow record_success record_failure
step-IsValid max cb (allows now) h v = ground arith
step-IsValid max cb succeeds h v = ground arith
step-IsValid max cb (fails now) h v = ground arith

run-IsValid' :
    (max : ℕ) (cb : CircuitBreaker) (cs : List Call)
    → max < two63
    → IsValid max cb
    → IsValid max (run cb cs)
unfolding run
run-IsValid' max cb [] h v = v
run-IsValid' max cb (c ∷ cs) h v = run-IsValid' max (step cb c).0 cs h (step-IsValid max cb c h v)

-- After any calls at all, a breaker made with a positive limit is valid: while it is closed it
-- has counted fewer failures than the limit, and while it is half-open no success.
pub run-IsValid :
    (max timeout : ℕ) (cs : List Call)
    → 0 < max
    → max < two63
    → IsValid max (run (new_circuit_breaker (pos max) timeout) cs)
run-IsValid max timeout cs p h = run-IsValid' max _ cs h (new-IsValid max timeout p)

abbrev pub failing : List Time → List Call
failing [] = []
failing (now ∷ ts) = fails now ∷ failing ts

abbrev Counted : ℕ → ℕ → CircuitBreaker → Type 0
Counted max n cb =
    (cb.max_failures ≡ pos max)
    × (cb.failures ≡ pos n)
    × (cb.state ≡ (if leb max n then state_open else state_closed))

fail-Counted :
    (max n now : ℕ) (cb : CircuitBreaker)
    → n + 1 < two63
    → Counted max n cb
    → Counted max (suc n) (record_failure now cb)
unfolding record_failure
fail-Counted max n now cb h v = ground arith

failing-Counted :
    (max n : ℕ) (cb : CircuitBreaker) (ts : List Time)
    → n + length ts < two63
    → Counted max n cb
    → Counted max (n + length ts) (run cb (failing ts))
unfolding run step
failing-Counted max n cb [] h v = ground arith
failing-Counted max n cb (now ∷ ts) h v =
    ground
      (arith, fail-Counted max n now cb, failing-Counted max (suc n) (record_failure now cb) ts)

-- Consecutive failures of a new breaker open it exactly when they reach the limit, for fewer
-- failures than an int can count.
pub failing-trips :
    (max timeout : ℕ) (ts : List Time)
    → 0 < max
    → length ts < two63
    → (run (new_circuit_breaker (pos max) timeout) (failing ts)).state
      ≡ (if leb max (length ts) then state_open else state_closed)
unfolding new_circuit_breaker
failing-trips max timeout ts p h =
    ground (arith, failing-Counted max 0 (new_circuit_breaker (pos max) timeout) ts)
