-- ===== src/Tools/Network.antt =====
-- runtime/tools/network.go. The counters of the interfaces are an argument, `none` if they could not be
-- read; a counter is a uint64.
use jarvinx.Shared.{
  ℕ, ◌-◌, Bool, true, false, ◌||◌, List, [], ◌∷◌, Option, none, some, ltb, if◌then◌else◌,
}
use jarvinx.Shared.Float.{Float64}

pub record NetCounters : Type 0 where
  pub recv : ℕ
  pub sent : ℕ

unfoldable pub read_net_counters : Option (List NetCounters) → NetCounters × Bool
read_net_counters none = (record { recv = 0; sent = 0 }, false)
read_net_counters (some []) = (record { recv = 0; sent = 0 }, false)
read_net_counters (some (first ∷ others)) = (record { recv = first.recv; sent = first.sent }, true)

module _ {F : Type 0} ⦃fl : Float64 F⦄ where
  unfoldable pub per_second : ℕ → F → F
  per_second bytes elapsed =
      fl.div (fl.div (fl.div (fl.decimal bytes 0) elapsed) (fl.decimal 1024 0)) (fl.decimal 1024 0)

  -- The difference is taken where it does not wrap around.
  unfoldable pub delta_mbps : NetCounters → NetCounters → F → F × F
  unfolding per_second
  delta_mbps prev curr elapsed =
      if fl.le elapsed (fl.decimal 0 0) || (ltb curr.recv prev.recv || ltb curr.sent prev.sent)
      then (fl.decimal 0 0, fl.decimal 0 0)
      else (per_second (curr.recv - prev.recv) elapsed, per_second (curr.sent - prev.sent) elapsed)
