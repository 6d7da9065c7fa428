-- ===== src/Llm/Ollama/Retry.antt =====
-- The answers of ThinkWithDecision of runtime/llm/ollama.go.
use jarvinx.Shared.{
  ℕ, zero, suc, ◌+◌, ◌*◌, ◌/◌, ◌≤◌, ◌≡◌, ◌≢◌, refl, [], Option, none, some, ◌⊎◌, inl, inr, arith,
  Bool-cases,
}
use jarvinx.Shared.Int.{pos, pos_part, ltb_ℤ}
use jarvinx.Shared.Clock.{Duration}
use jarvinx.Shared.Float.{Float64}
use jarvinx.Shared.Text.{Text, codes}
use jarvinx.Llm.Breaker
use jarvinx.Llm.Breaker.{CircuitBreaker, Error}
use jarvinx.Llm.Parser.{Decision, Decoder, ErrInvalidDecision, fallback_decision, parse_decision}
use jarvinx.Llm.Parser.Safe.{IsSafe, parse_decision-IsSafe, fallback_decision-IsSafe}
use jarvinx.Llm.Chat.{OllamaClient, ThinkError, think}
use jarvinx.Llm.Ollama.{
  millisecond, RetryConfig, Surroundings, Answer, CallError, Pass, returns, continues, panics,
  attempt_unparsed, attempt_failed, retried, rested, parsed, heard, attempt_once, think_loop,
  admitted, think_with_decision, sleep_duration,
}

-- The sleep between two attempts does not panic: a jitter below a millisecond would.
abbrev pub IsRestful : RetryConfig → Type 0
IsRestful retry = (retry.jitter ≡ 0) ⊎ (millisecond ≤ retry.jitter)

rests :
    (draw : ℕ → ℕ) (retry : RetryConfig)
    → IsRestful retry
    → (pause : Duration) × (sleep_duration draw retry ≡ some pause)
unfolding sleep_duration
rests draw retry (inl none_set) = (retry.delay, ground arith)
rests draw retry (inr enough) =
    let whole : 1 ≤ retry.jitter / millisecond = omega arith in
    (retry.delay + draw (retry.jitter / millisecond) * millisecond, ground arith)

module _ {F : Type 0} where
  pub retried-continues :
      (w : Surroundings) (retry : RetryConfig) (attempt : ℕ) (error : CallError)
      (cb : CircuitBreaker)
      → IsRestful retry
      → retried {F = F} w retry attempt error cb ≡ continues error cb
  unfolding retried rested
  retried-continues w retry attempt error cb h =
      let (pause, e) = rests (w.draw attempt) retry h in
      elim (Bool-cases (ltb_ℤ (pos attempt) retry.max_attempts)) [
        | inl more ↦ rw (more, e) refl
        | inr final ↦ rw final refl
      ]

module _ {F : Type 0} ⦃fl : Float64 F⦄ where
  -- A safe decision, which neither acts nor names a command if the call failed.
  pub record IsSound (a : Answer F) : Type 0 where
    pub safe : IsSafe a.decision
    pub passive : a.error ≢ none → (a.decision.action ≡ codes "log") × (a.decision.command ≡ [])

  fallback-IsSound : (a : Answer F) (raw : Text) → a.decision ≡ fallback_decision raw → IsSound a
  unfolding fallback_decision
  fallback-IsSound a raw e = record {
    safe = rw e (fallback_decision-IsSafe raw);
    passive = λ h. rw e (refl, refl);
  }

  IsSoundPass : Pass F → Type 0
  IsSoundPass (returns a) = IsSound a
  IsSoundPass (continues error cb) = Unit
  IsSoundPass panics = zero ≡ suc zero

  parsed-IsSoundPass :
      (w : Surroundings) (retry : RetryConfig) (attempt : ℕ) (cb : CircuitBreaker)
      (p : Decision F × Option ErrInvalidDecision)
      → IsRestful retry
      → IsSafe p.0
      → IsSoundPass (parsed w retry attempt cb p)
  unfolding parsed IsSoundPass
  parsed-IsSoundPass w retry attempt cb (d, some error) h s =
      rw (retried-continues w retry attempt (attempt_unparsed attempt error) cb h) tt
  parsed-IsSoundPass w retry attempt cb (d, none) h s = record {
    safe = s;
    passive = λ n. absurd (n refl);
  }

  module _ (dec : Decoder F) (w : Surroundings) where
    heard-IsSoundPass :
        (retry : RetryConfig) (attempt : ℕ) (cb : CircuitBreaker) (r : ThinkError ⊎ Text)
        → IsRestful retry
        → IsSoundPass (heard dec w retry attempt cb r)
    unfolding heard IsSoundPass
    heard-IsSoundPass retry attempt cb (inl error) h =
        rw
          (retried-continues w retry attempt (attempt_failed attempt error)
            (Breaker.record_failure (w.clock attempt) cb) h)
          tt
    heard-IsSoundPass retry attempt cb (inr raw) h =
        parsed-IsSoundPass w retry attempt cb (parse_decision dec raw) h
          (parse_decision-IsSafe dec raw).0

    attempt_once-IsSoundPass :
        (c : OllamaClient) (system user : Text) (retry : RetryConfig) (attempt : ℕ)
        (cb : CircuitBreaker) (o : Option Text)
        → IsRestful retry
        → IsSoundPass (attempt_once dec w c system user retry attempt cb o)
    unfolding attempt_once
    attempt_once-IsSoundPass c system user retry attempt cb (some error) h =
        unfold IsSoundPass in fallback-IsSound _ (codes "context cancelled") refl
    attempt_once-IsSoundPass c system user retry attempt cb none h =
        heard-IsSoundPass retry attempt cb (think w.decode_response (w.net attempt) c system user) h

    abbrev IsAnswered : Option (Answer F) → Type 0
    IsAnswered o = (a : Answer F) × (o ≡ some a) × IsSound a

    think_loop-IsAnswered :
        (c : OllamaClient) (system user : Text) (retry : RetryConfig) (n attempt : ℕ)
        (last : Option CallError) (cb : CircuitBreaker)
        → IsRestful retry
        → IsAnswered (think_loop dec w c system user retry n attempt last cb)
    unfolding think_loop
    think_loop-IsAnswered c system user retry zero attempt last cb h =
        (_, refl, fallback-IsSound _ (codes "all attempts failed") refl)
    think_loop-IsAnswered c system user retry (suc n) attempt last cb h =
        go (attempt_once dec w c system user retry attempt cb (w.cancelled attempt))
          (attempt_once-IsSoundPass c system user retry attempt cb (w.cancelled attempt) h)
          (λ error cb'.
            think_loop-IsAnswered c system user retry n (suc attempt) (some error) cb' h)
      where
        go :
            (p : Pass F)
            → IsSoundPass p
            → ((error : CallError) (cb' : CircuitBreaker)
                → IsAnswered
                    (think_loop dec w c system user retry n (suc attempt) (some error) cb'))
            → IsAnswered (elim p [
              | returns answer ↦ some answer
              | continues error cb' ↦
                  think_loop dec w c system user retry n (suc attempt) (some error) cb'
              | panics ↦ none
            ])
        go (returns a) s again = (a, refl, unfold IsSoundPass in s)
        go (continues error cb') s again = again error cb'
        go panics s again = absurd (unfold IsSoundPass in omega (arith, s))

    admitted-IsAnswered :
        (c : OllamaClient) (system user : Text) (retry : RetryConfig)
        (p : CircuitBreaker × Option Error)
        → IsRestful retry
        → IsAnswered (admitted dec w c system user retry p)
    unfolding admitted
    admitted-IsAnswered c system user retry (cb, some error) h =
        (_, refl, fallback-IsSound _ (codes "circuit breaker open") refl)
    admitted-IsAnswered c system user retry (cb, none) h =
        think_loop-IsAnswered c system user retry (pos_part retry.max_attempts) 1 none cb h

    -- Whatever the breaker, the network, the context and the language model do, a call of
    -- ThinkWithDecision whose jitter is none or at least a millisecond returns; its decision is safe,
    -- and with an error it only logs and names no command.
    pub think_with_decision-IsSound :
        (c : OllamaClient) (system user : Text) (retry : RetryConfig)
        → IsRestful retry
        → (a : Answer F) × (think_with_decision dec w c system user retry ≡ some a) × IsSound a
    unfolding think_with_decision
    think_with_decision-IsSound c system user retry h =
        admitted-IsAnswered c system user retry (Breaker.allow (w.clock 0) c.circuit) h
