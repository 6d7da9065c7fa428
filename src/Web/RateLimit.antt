-- ===== src/Web/RateLimit.antt =====
-- runtime/web/ratelimit.go. The lock is held throughout Allow, so it is one step; the clock reading is
-- its argument, and `seconds` is Duration.Seconds.
pub mod Pace
use jarvinx.Shared.{ℕ, ◌-◌, Bool, true, false, if◌then◌else◌}
use jarvinx.Shared.Clock.{Time, Duration}
use jarvinx.Shared.Float.{Float64}

pub record TokenBucket (F : Type 0) : Type 0 where
  pub tokens : F
  pub capacity : F
  pub refill_rate : F
  pub last_refill : Time

module _ {F : Type 0} where
  unfoldable pub new_token_bucket : Time → F → F → TokenBucket F
  new_token_bucket now rate_per_sec capacity = record {
    tokens = capacity;
    capacity = capacity;
    refill_rate = rate_per_sec;
    last_refill = now;
  }

  module _ ⦃fl : Float64 F⦄ where
    -- The tokens after the time since the last refill, at most the capacity.
    refilled : (Duration → F) → Time → TokenBucket F → F
    refilled seconds now b =
        let tokens = fl.add b.tokens (fl.mul (seconds (now - b.last_refill)) b.refill_rate) in
        if fl.lt b.capacity tokens then b.capacity else tokens

    unfoldable pub allow : (Duration → F) → Time → TokenBucket F → TokenBucket F × Bool
    unfolding refilled
    allow seconds now b =
        let tokens = refilled seconds now b in
        if fl.le (fl.decimal 1 0) tokens
        then (record b { tokens = fl.sub tokens (fl.decimal 1 0); last_refill = now }, true)
        else (record b { tokens = tokens; last_refill = now }, false)
