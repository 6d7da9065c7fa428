-- ===== src/Llm/Ollama/Outage.antt =====
-- ThinkWithDecision of runtime/llm/ollama.go and the circuit breaker while the server is down.
use jarvinx.Shared.{
  ℕ, zero, suc, ◌+◌, ◌<◌, ◌≡◌, refl, ap, ◌∙◌, List, [], ◌∷◌, Option, none, some, inl, arith, leb,
  if◌then◌else◌, length,
}
use jarvinx.Shared.Int.{pos, pos_part, two63}
use jarvinx.Shared.Clock.{Time}
use jarvinx.Shared.Float.{Float64}
use jarvinx.Shared.Text.{Text, codes}
use jarvinx.Llm.Breaker
use jarvinx.Llm.Breaker.{CircuitBreaker, state_open, state_closed, new_circuit_breaker, run, fails}
use jarvinx.Llm.Breaker.Trip.{failing, failing-trips}
use jarvinx.Llm.Parser.{Decoder, fallback_decision}
use jarvinx.Llm.Chat.{OllamaClient, ThinkError, think}
use jarvinx.Llm.Ollama.{
  RetryConfig, Surroundings, Answer, CallError, attempt_failed, heard, attempt_once, think_loop,
  admitted, think_with_decision, continues,
}
use jarvinx.Llm.Ollama.Retry.{IsRestful, retried-continues}

-- The instants at which the attempts from number k on record a failure, and the end of the call.
abbrev pub failure_times : Surroundings → ℕ → ℕ → List Time
failure_times w k zero = w.clock k ∷ []
failure_times w k (suc n) = w.clock k ∷ failure_times w (suc k) n

failure_times-length : (w : Surroundings) (k n : ℕ) → length (failure_times w k n) ≡ n + 1
failure_times-length w k zero = omega arith
failure_times-length w k (suc n) = omega (arith, failure_times-length w (suc k) n)

-- The context is never done and no request succeeds.
abbrev pub IsDown : Surroundings → OllamaClient → Text → Text → Type 0
IsDown w c system user =
    (i : ℕ)
    → (w.cancelled i ≡ none)
      × (error : ThinkError) × (think w.decode_response (w.net i) c system user ≡ inl error)

module _ {F : Type 0} ⦃fl : Float64 F⦄ (dec : Decoder F) (w : Surroundings) where
  attempt_down :
      (c : OllamaClient) (system user : Text) (retry : RetryConfig) (k : ℕ) (cb : CircuitBreaker)
      → IsRestful retry
      → IsDown w c system user
      → (error : CallError) × (attempt_once dec w c system user retry k cb (w.cancelled k)
          ≡ continues error (Breaker.record_failure (w.clock k) cb))
  unfolding attempt_once heard
  attempt_down c system user retry k cb h d = (
    attempt_failed k (d k).1,
    rw ((d k).0, (d k).2)
        (retried-continues w retry k (attempt_failed k (d k).1)
          (Breaker.record_failure (w.clock k) cb) h),
  )

  loop_down :
      (c : OllamaClient) (system user : Text) (retry : RetryConfig) (n k : ℕ)
      (last : Option CallError) (cb : CircuitBreaker)
      → IsRestful retry
      → IsDown w c system user
      → (a : Answer F) × (think_loop dec w c system user retry n k last cb ≡ some a)
        × (a.decision ≡ fallback_decision (codes "all attempts failed"))
        × (a.attempts ≡ retry.max_attempts)
        × (a.circuit ≡ run cb (failing (failure_times w k n)))
  unfolding think_loop run Breaker.step
  loop_down c system user retry zero k last cb h d = (_, refl, refl, refl, refl)
  loop_down c system user retry (suc n) k last cb h d =
      let (error, e) = attempt_down c system user retry k cb h d in
      rw (think_loop, e)
        (loop_down c system user retry n (suc k) (some error)
          (Breaker.record_failure (w.clock k) cb) h d)

  -- If the server is down throughout a call of n attempts that starts with a new breaker of a positive
  -- limit, n + 1 below 2 ^ 63, the call returns the fallback after n attempts and leaves the breaker
  -- open exactly if the limit is at most n + 1: the end of the call counts as one more failure.
  pub think_with_decision-trips :
      (c : OllamaClient) (system user : Text) (retry : RetryConfig) (max timeout n : ℕ)
      → 0 < max
      → n + 1 < two63
      → c.circuit ≡ new_circuit_breaker (pos max) timeout
      → retry.max_attempts ≡ pos n
      → IsRestful retry
      → IsDown w c system user
      → (a : Answer F) × (think_with_decision dec w c system user retry ≡ some a)
        × (a.decision ≡ fallback_decision (codes "all attempts failed"))
        × (a.attempts ≡ pos n)
        × (a.circuit.state ≡ (if leb max (n + 1) then state_open else state_closed))
  unfolding think_with_decision admitted Breaker.allow new_circuit_breaker
  think_with_decision-trips c system user retry max timeout n p b ec er h d =
      let fresh = new_circuit_breaker (pos max) timeout in
      let times = failure_times w 1 n in
      let (a, returned, decided, tried, left) = loop_down c system user retry n 1 none fresh h d in
      let asked : Breaker.allow (w.clock 0) c.circuit ≡ (fresh, none) =
        ap (Breaker.allow (w.clock 0)) ec in
      (
        a,
        ap (admitted dec w c system user retry) asked
            ∙ ap (λ m. think_loop dec w c system user retry (pos_part m) 1 none fresh) er
            ∙ returned,
        decided,
        tried ∙ er,
        ap (λ (cb : CircuitBreaker). cb.state) left
            ∙ failing-trips max timeout times p (omega (arith, failure_times-length w 1 n))
            ∙ ap (λ k. if leb max k then state_open else state_closed) (failure_times-length w 1 n),
      )
