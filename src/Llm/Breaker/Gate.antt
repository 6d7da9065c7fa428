-- ===== src/Llm/Breaker/Gate.antt =====
-- What the breaker of runtime/llm/circuit_breaker.go lets through.
use jarvinx.Shared.{
  ◌+◌, ◌≤◌, ◌<◌, ◌≡◌, ◌↔◌, refl, ◌⊎◌, inl, List, [], ◌∷◌, Option, none, some, arith, All,
}
use jarvinx.Shared.Int.{pos}
use jarvinx.Shared.Clock.{Time, since}
use jarvinx.Llm.Breaker.{
  state_closed, state_open, state_half_open, Error, err_circuit_open, CircuitBreaker, Call, allow,
  record_success, record_failure, step, run, allows, succeeds, fails,
}

-- A call is refused exactly when the breaker is open and its timeout has not passed since the last
-- failure, and a refused call changes nothing.
pub allow-refuses_iff :
    (now : Time) (cb : CircuitBreaker)
    → ((allow now cb).1 ≡ some err_circuit_open)
      ↔ ((cb.state ≡ state_open) × (since now cb.last_failure < cb.reset_timeout))
unfolding allow
allow-refuses_iff now cb = (λ h. ground arith, λ h. ground arith)

-- The calls all read the clock in [from, until), and none of them goes back in time.
abbrev pub Within : Time → Time → List Call → Type 0
Within from until [] = Unit
Within from until (allows now ∷ cs) = (from ≤ now) × (now < until) × Within now until cs
Within from until (succeeds ∷ cs) = Within from until cs
Within from until (fails now ∷ cs) = (from ≤ now) × (now < until) × Within now until cs

-- The answers to the calls of Allow, in order.
unfoldable pub answers : CircuitBreaker → List Call → List (Option Error)
answers cb [] = []
answers cb (allows now ∷ cs) = (allow now cb).1 ∷ answers (allow now cb).0 cs
answers cb (succeeds ∷ cs) = answers (record_success cb) cs
answers cb (fails now ∷ cs) = answers (record_failure now cb) cs

abbrev pub IsRefused : Option Error → Type 0
IsRefused r = r ≡ some err_circuit_open

allow-open :
    (now : Time) (cb : CircuitBreaker)
    → cb.state ≡ state_open
    → now < cb.last_failure + cb.reset_timeout
    → cb.last_failure ≤ now
    → allow now cb ≡ (cb, some err_circuit_open)
unfolding allow
allow-open now cb o l g = ground arith

blocks :
    (from until : Time) (cb : CircuitBreaker) (cs : List Call)
    → cb.state ≡ state_open
    → cb.last_failure ≤ from
    → until ≤ cb.last_failure + cb.reset_timeout
    → Within from until cs
    → All IsRefused (answers cb cs) × ((run cb cs).state ≡ state_open)
unfolding answers run step record_success record_failure
blocks from until cb [] o l u w = (tt, o)
blocks from until cb (allows t ∷ cs) o l u w =
    ground (arith, allow-open t cb o, blocks t until cb cs)
blocks from until cb (succeeds ∷ cs) o l u w =
    ground (arith, blocks from until (record_success cb) cs)
blocks from until cb (fails t ∷ cs) o l u w =
    ground (arith, blocks t until (record_failure t cb) cs)

-- An open breaker refuses every call of Allow until its timeout has passed since the failure that
-- it last recorded, whatever successes and failures are reported meanwhile, and stays open.
pub answers-run_blocks :
    (cb : CircuitBreaker) (cs : List Call)
    → cb.state ≡ state_open
    → Within cb.last_failure (cb.last_failure + cb.reset_timeout) cs
    → All IsRefused (answers cb cs) × ((run cb cs).state ≡ state_open)
answers-run_blocks cb cs o w = blocks _ _ cb cs o (omega arith) (omega arith) w

-- Once the timeout of an open breaker has passed, one call is let through, and its outcome decides:
-- a success closes the breaker with no failure counted, and a failure opens it for a whole timeout
-- from that failure.
pub probe_decides :
    (now later : Time) (cb : CircuitBreaker)
    → cb.state ≡ state_open
    → cb.reset_timeout ≤ since now cb.last_failure
    → let probing = (allow now cb).0 in
      ((allow now cb).1 ≡ none)
      × ((record_success probing).state ≡ state_closed)
      × ((record_success probing).failures ≡ pos 0)
      × ((record_failure later probing).state ≡ state_open)
      × ((record_failure later probing).last_failure ≡ later)
unfolding allow record_success record_failure
probe_decides now later cb o h = ground arith

abbrev pub asking : List Time → List Call
asking [] = []
asking (now ∷ ts) = allows now ∷ asking ts

abbrev pub IsGranted : Option Error → Type 0
IsGranted r = r ≡ none

granted :
    (cb : CircuitBreaker) (ts : List Time)
    → (cb.state ≡ state_half_open) ⊎ (cb.state ≡ state_closed)
    → All IsGranted (answers cb (asking ts)) × (run cb (asking ts) ≡ cb)
unfolding answers run step allow
granted cb [] h = (tt, refl)
granted cb (t ∷ ts) h = ground (arith, granted cb ts h)

-- A half-open breaker lets any number of calls through before the first outcome is recorded: no
-- call of Allow takes the trial from the next.
pub asking-IsGranted :
    (cb : CircuitBreaker) (ts : List Time)
    → cb.state ≡ state_half_open
    → All IsGranted (answers cb (asking ts)) × (run cb (asking ts) ≡ cb)
asking-IsGranted cb ts h = granted cb ts (inl h)
