-- ===== src/Memory/Records.antt =====
-- The records of runtime/memory/state.go and runtime/memory/proc.go, over the type `F` of float64.
use jarvinx.Shared.{ℕ, List, []}
use jarvinx.Shared.Int.{ℤ, pos}
use jarvinx.Shared.Clock.{Time}
use jarvinx.Shared.Float.{Float64}
use jarvinx.Shared.Text.{Text}

pub record ProcInfo : Type 0 where
  pub pid : ℤ
  pub name : Text
  pub mem_mb : ℕ

pub record Snapshot (F : Type 0) : Type 0 where
  pub timestamp : Time
  pub cpu_percent : F
  pub mem_used : ℕ
  pub mem_total : ℕ
  pub mem_percent : F
  pub swap_used : ℕ
  pub swap_total : ℕ
  pub swap_percent : F
  pub disk_used : ℕ
  pub disk_total : ℕ
  pub disk_percent : F
  pub net_recv_mbps : F
  pub net_sent_mbps : F
  pub load_avg1 : F
  pub load_avg5 : F
  pub load_avg15 : F
  pub top_procs : List ProcInfo

pub record CycleRecord (F : Type 0) : Type 0 where
  pub snapshot : Snapshot F
  pub action : Text
  pub analysis : Text
  pub reason : Text
  pub command : Text
  pub cycle_num : ℤ
  pub timestamp : Time
  pub trigger_cpu : F
  pub trigger_ram : F
  pub trigger_disk : F
  pub confidence : F

-- The fields that the literal leaves out are zero.
unfoldable pub new_cycle_record :
    {F : Type 0} ⦃fl : Float64 F⦄ → Snapshot F → Text → Text → Text → Text → CycleRecord F
new_cycle_record ⦃fl⦄ snap action analysis reason command = record {
  snapshot = snap;
  action = action;
  analysis = analysis;
  reason = reason;
  command = command;
  cycle_num = pos 0;
  timestamp = snap.timestamp;
  trigger_cpu = fl.decimal 0 0;
  trigger_ram = fl.decimal 0 0;
  trigger_disk = fl.decimal 0 0;
  confidence = fl.decimal 0 0;
}

-- A machine with the given loads, for runs of the code.
abbrev pub loaded : ℕ → ℕ → ℕ → Snapshot ℕ
loaded cpu mem disk = record {
  timestamp = 0;
  cpu_percent = cpu;
  mem_used = 4000;
  mem_total = 8000;
  mem_percent = mem;
  swap_used = 0;
  swap_total = 0;
  swap_percent = 0;
  disk_used = 50;
  disk_total = 100;
  disk_percent = disk;
  net_recv_mbps = 0;
  net_sent_mbps = 0;
  load_avg1 = 0;
  load_avg5 = 0;
  load_avg15 = 0;
  top_procs = [];
}
