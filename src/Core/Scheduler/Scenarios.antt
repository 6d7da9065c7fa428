-- ===== src/Core/Scheduler/Scenarios.antt =====
-- Runs of runtime/core/scheduler.go.
use jarvinx.Shared.{ℕ, ◌*◌, ◌≡◌, false, List, [], ◌∷◌, Option, none, some}
use jarvinx.Shared.Clock.{Time, second, since}
use jarvinx.Shared.Float.{thousandths, seconds}
use jarvinx.Tools.Network.{NetCounters, delta_mbps}
use jarvinx.Tools.Observation.{Usage, Readings, observe_with_context}
use jarvinx.Core.Scheduler.{Scheduler, Tick, start, tick}
use jarvinx.Core.Scheduler.Rates.{after, expected, tick-expected}

abbrev usage : Usage ℕ
usage = record { total = 8 * 1073741824; used = 4 * 1073741824; used_percent = 50000 }

abbrev answered : Readings ℕ
answered = record {
  cancelled = false;
  percents = some (12000 ∷ []);
  memory = some usage;
  swap = none;
  load = none;
  disk = some usage;
  procs = none;
  time = second;
}

abbrev a_tick : Option (List NetCounters) → Time → Tick ℕ
a_tick counters now = record {
  interval = 15 * second;
  readings = answered;
  ctx_done = false;
  counters = counters;
  now = now;
  later = now;
}

abbrev counted : ℕ → Option (List NetCounters)
counted mebibytes = some (record { recv = mebibytes * 1048576; sent = 0 } ∷ [])

abbrev a_scheduler : Scheduler
a_scheduler = record { interval = 15 * second }

-- The counters cannot be read at 15 seconds; the rate at 30 seconds is that of all 30 mebibytes in the
-- last 15 seconds.
tick-expected_example :
    (tick
      (λ procs. procs)
      (a_tick (counted 30) (30 * second))
      (after (λ procs. procs) (a_tick none (15 * second) ∷ []) (start a_scheduler (counted 0) 0))).1
    ≡ expected
        (λ procs. procs)
        (a_tick (counted 30) (30 * second))
        (observe_with_context (λ procs. procs) answered)
        (delta_mbps
          (record { recv = 0; sent = 0 })
          (record { recv = 30 * 1048576; sent = 0 })
          (seconds (since (30 * second) (15 * second))))
unfolding observe_with_context
tick-expected_example =
    tick-expected (λ procs. procs) (a_tick none (15 * second) ∷ [])
      (a_tick (counted 30) (30 * second)) a_scheduler (counted 0) 0
