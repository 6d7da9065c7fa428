-- ===== src/Shared/Clock.antt =====
-- Go's `time`: an instant is the count of nanoseconds since the zero `time.Time`, so the zero
-- value is 0. Readings of the clock that are subtracted are monotonic, so a difference is not
-- negative, and `time.Since` saturates at the greatest Duration.
use jarvinx.Shared.Tests.{ltb, if◌then◌else◌}
use jarvinx.Shared.Int.{ℤ}
use Prim.Native.Nat.{ℕ, ◌-◌, ◌≤◌}
use mathlib.Core.Path.{◌≡◌}
use native.Mathlib.Omega.{arith}

abbrev pub Time : Type 0
Time = ℕ

abbrev pub Duration : Type 0
Duration = ℕ

abbrev pub second : Duration
second = 1000000000

abbrev pub max_duration : Duration
max_duration = 9223372036854775807

-- What the time zone of the machine decides: the hour, the minute and the day of the week (0 is
-- Sunday) of an instant, and the instant of an hour and a minute on the day of another one.
pub record LocalTime : Type 0 where
  pub hour : Time → ℕ
  pub minute : Time → ℕ
  pub weekday : Time → ℕ
  pub on_day : Time → ℤ → ℤ → Time

-- time.Since(t), read at the instant `now`.
unfoldable pub since : Time → Time → Duration
since now t = if ltb max_duration (now - t) then max_duration else now - t

pub since_bounds : (now t : Time) → now - t ≤ max_duration → since now t ≡ now - t
unfolding since
since_bounds now t h = ground arith
