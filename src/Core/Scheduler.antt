-- ===== src/Core/Scheduler.antt =====
-- runtime/core/scheduler.go. The lock covers the interval alone, which the terminal may change between
-- two ticks, so a tick reads it from its argument. What a tick publishes is its outcome.
pub mod Rates
mod Scenarios
use jarvinx.Shared.{
  ℕ, Bool, true, false, ◌&&◌, not, List, [], ◌∷◌, Option, none, some, map, ◌==◌, if◌then◌else◌,
}
use jarvinx.Shared.Clock.{Time, Duration, since}
use jarvinx.Shared.Float.{Float64, seconds}
use jarvinx.Memory.Records
use jarvinx.Memory.Records.{Snapshot}
use jarvinx.Tools.Processes.{ProcInfo}
use jarvinx.Tools.Network.{NetCounters, read_net_counters, delta_mbps}
use jarvinx.Tools.Observation.{
  SystemState, Readings, ObserveError, Observed, observed, not_observed, panicked,
  observe_with_context,
}

pub record Scheduler : Type 0 where
  pub interval : Duration

unfoldable pub new_scheduler : Duration → Scheduler
new_scheduler interval = record { interval = interval }

unfoldable pub set_interval : Duration → Scheduler → Scheduler
set_interval d s = record s { interval = d }

-- The variables of Start.
pub record Loop : Type 0 where
  pub current_interval : Duration
  pub prev_net : NetCounters
  pub has_net : Bool
  pub prev_net_at : Time

-- A tick: the interval of the scheduler, what the machine answers, whether the context is done after a
-- failed observation, and the clock when the rates are computed and after.
pub record Tick (F : Type 0) : Type 0 where
  pub interval : Duration
  pub readings : Readings F
  pub ctx_done : Bool
  pub counters : Option (List NetCounters)
  pub now : Time
  pub later : Time

-- The loop ends, the process crashes, an error is published, or a snapshot.
pub data Outcome (F : Type 0) : Type 0 where
  stopped crashed : Outcome F
  published_error : ObserveError → Outcome F
  published : Snapshot F → Outcome F

unfoldable pub to_mem_proc_infos : List ProcInfo → List Records.ProcInfo
to_mem_proc_infos [] = []
to_mem_proc_infos (p ∷ procs) =
    record { pid = p.pid; name = p.name; mem_mb = p.mem_mb } ∷ to_mem_proc_infos procs

unfoldable pub start : Scheduler → Option (List NetCounters) → Time → Loop
unfolding read_net_counters
start s counters now =
    let (prev_net, has_net) = read_net_counters counters in
    record {
      current_interval = s.interval;
      prev_net = prev_net;
      has_net = has_net;
      prev_net_at = now;
    }

-- The ticker is made anew if the interval has changed.
unfoldable pub reticked : Duration → Loop → Loop
reticked new_interval l =
    if new_interval == l.current_interval then l else record l { current_interval = new_interval }

module _ {F : Type 0} where
  unfoldable pub to_snapshot : SystemState F → Snapshot F
  unfolding to_mem_proc_infos
  to_snapshot state = record {
    timestamp = state.timestamp;
    cpu_percent = state.cpu_percent;
    mem_used = state.mem_used;
    mem_total = state.mem_total;
    mem_percent = state.mem_percent;
    swap_used = state.swap_used;
    swap_total = state.swap_total;
    swap_percent = state.swap_percent;
    disk_used = state.disk_used;
    disk_total = state.disk_total;
    disk_percent = state.disk_percent;
    net_recv_mbps = state.net_recv_mbps;
    net_sent_mbps = state.net_sent_mbps;
    load_avg1 = state.load_avg1;
    load_avg5 = state.load_avg5;
    load_avg15 = state.load_avg15;
    top_procs = to_mem_proc_infos state.top_procs;
  }

  unfoldable pub keep_counters : Tick F → NetCounters × Bool → Loop → Loop
  keep_counters t (curr_net, ok) l =
      let kept = if ok then record l { prev_net = curr_net; has_net = true } else l in
      record kept { prev_net_at = t.later }

  module _ ⦃fl : Float64 F⦄ where
    -- The rates of a state, if there are two readings of the counters.
    unfoldable pub with_rates : Tick F → NetCounters × Bool → Loop → SystemState F → SystemState F
    unfolding delta_mbps seconds since
    with_rates t (curr_net, ok) l state =
        let (recv, sent) = delta_mbps l.prev_net curr_net (seconds (since t.now l.prev_net_at)) in
        if ok && l.has_net
        then record state { net_recv_mbps = recv; net_sent_mbps = sent }
        else state

    unfoldable pub on_observed : Tick F → Observed F → Loop → Loop × Outcome F
    unfolding with_rates keep_counters to_snapshot read_net_counters
    on_observed t (not_observed error) l =
        (l, if t.ctx_done then stopped else published_error error)
    on_observed t panicked l = (l, crashed)
    on_observed t (observed state) l =
        let read = read_net_counters t.counters in
        (keep_counters t read l, published (to_snapshot (with_rates t read l state)))

    -- The branch `case <-ticker.C` of Start.
    unfoldable pub tick : (List ProcInfo → List ProcInfo) → Tick F → Loop → Loop × Outcome F
    unfolding on_observed reticked observe_with_context
    tick sort t l = on_observed t (observe_with_context sort t.readings) (reticked t.interval l)
