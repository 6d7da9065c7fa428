-- ===== src/Tools/Observation.antt =====
-- The observations of runtime/tools/system.go. What the libraries read from the operating system is an
-- argument. Display prints and is not modelled.
use jarvinx.Shared.{ℕ, ◌/◌, Bool, List, [], ◌∷◌, Option, none, some, if◌then◌else◌}
use jarvinx.Shared.Clock.{Time}
use jarvinx.Shared.Float.{Float64}
use jarvinx.Tools.Processes.{ProcInfo, Process, top_processes}

pub record SystemState (F : Type 0) : Type 0 where
  pub timestamp : Time
  pub cpu_percent : F
  pub mem_total : ℕ
  pub mem_used : ℕ
  pub mem_percent : F
  pub swap_total : ℕ
  pub swap_used : ℕ
  pub swap_percent : F
  pub disk_total : ℕ
  pub disk_used : ℕ
  pub disk_percent : F
  pub net_recv_mbps : F
  pub net_sent_mbps : F
  pub load_avg1 : F
  pub load_avg5 : F
  pub load_avg15 : F
  pub top_procs : List ProcInfo

-- The memory, the swap or a disk, in bytes.
pub record Usage (F : Type 0) : Type 0 where
  pub total : ℕ
  pub used : ℕ
  pub used_percent : F

pub record Load (F : Type 0) : Type 0 where
  pub load1 : F
  pub load5 : F
  pub load15 : F

-- What is read, or `none` for an error; the time is that of the end.
pub record Readings (F : Type 0) : Type 0 where
  pub cancelled : Bool
  pub percents : Option (List F)
  pub memory : Option (Usage F)
  pub swap : Option (Usage F)
  pub load : Option (Load F)
  pub disk : Option (Usage F)
  pub procs : Option (List Process)
  pub time : Time

pub data ObserveError : Type 0 where
  context_done cpu_failed mem_failed disk_failed : ObserveError

-- `panicked`: there is no percentage in the answer.
pub data Observed (F : Type 0) : Type 0 where
  observed : SystemState F → Observed F
  not_observed : ObserveError → Observed F
  panicked : Observed F

module _ {F : Type 0} ⦃fl : Float64 F⦄ where
  -- Whole mebibytes; nothing if the swap cannot be read.
  swap_of : Option (Usage F) → Usage F
  swap_of none = record { total = 0; used = 0; used_percent = fl.decimal 0 0 }
  swap_of (some s) = record {
    total = s.total / 1024 / 1024;
    used = s.used / 1024 / 1024;
    used_percent = s.used_percent;
  }

  unfoldable pub read_load_avg : Option (Load F) → Load F
  read_load_avg none = record {
    load1 = fl.decimal 0 0;
    load5 = fl.decimal 0 0;
    load15 = fl.decimal 0 0;
  }
  read_load_avg (some l) = l

  module _ (sort : List ProcInfo → List ProcInfo) where
    -- The state that is returned after all was read; the rates of the network are left out.
    unfoldable pub state_of : Readings F → Usage F → Usage F → F → SystemState F
    unfolding swap_of read_load_avg top_processes
    state_of r mem disk cpu =
        let swap = swap_of r.swap in
        let load = read_load_avg r.load in
        record {
          timestamp = r.time;
          cpu_percent = cpu;
          mem_total = mem.total / 1024 / 1024;
          mem_used = mem.used / 1024 / 1024;
          mem_percent = mem.used_percent;
          swap_total = swap.total;
          swap_used = swap.used;
          swap_percent = swap.used_percent;
          disk_total = disk.total / 1024 / 1024 / 1024;
          disk_used = disk.used / 1024 / 1024 / 1024;
          disk_percent = disk.used_percent;
          net_recv_mbps = fl.decimal 0 0;
          net_sent_mbps = fl.decimal 0 0;
          load_avg1 = load.load1;
          load_avg5 = load.load5;
          load_avg15 = load.load15;
          top_procs = top_processes sort r.procs 5;
        }

    -- The answers are looked at in the order of the code.
    unfoldable pub observation :
        Readings F → Option (List F) → Option (Usage F) → Option (Usage F) → Observed F
    unfolding state_of
    observation r none mem disk = not_observed cpu_failed
    observation r (some percents) none disk = not_observed mem_failed
    observation r (some percents) (some mem) none = not_observed disk_failed
    observation r (some []) (some mem) (some disk) = panicked
    observation r (some (cpu ∷ others)) (some mem) (some disk) = observed (state_of r mem disk cpu)

    unfoldable pub observe : Readings F → Observed F
    unfolding observation
    observe r = observation r r.percents r.memory r.disk

    unfoldable pub observe_with_context : Readings F → Observed F
    unfolding observation
    observe_with_context r =
        if r.cancelled then not_observed context_done else observation r r.percents r.memory r.disk
