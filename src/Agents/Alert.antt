-- ===== src/Agents/Alert.antt =====
-- runtime/agents/alert_agent.go. Analyze holds the lock throughout, so it is one step. The log file
-- and the terminal are outputs: Dispatch hands every alert to both and to the dispatcher.
pub mod Track
pub mod Rule
pub mod Load
pub mod Sound
mod Scenarios
use jarvinx.Shared.{
  ℕ, ◌+◌, Bool, true, false, ◌&&◌, List, [], ◌∷◌, ◌++◌, Option, none, some, if◌then◌else◌,
}
use jarvinx.Shared.Int.{ℤ, pos, negsuc, inc, ◌-ℤ◌, leb_ℤ}
use jarvinx.Shared.Clock.{Time, second}
use jarvinx.Shared.Float.{Float64}
use jarvinx.Shared.Text.{Text, codes}
use jarvinx.Memory.Records.{Snapshot}
use jarvinx.Agents.Base
use jarvinx.Agents.Base.{BaseAgent}
use jarvinx.Agents.Records.{
  Alert, AlertLevel, alert_warning, alert_critical, Message, sustained_load, disk_usage,
}
use jarvinx.Agents.Notifier.{NotifierDispatcher, Outcome, Request, dispatch}

pub record AlertState : Type 0 where
  pub cpu_cycles : ℤ
  pub ram_cycles : ℤ
  pub disk_cycles : ℤ
  pub last_alert_cpu : ℤ
  pub last_alert_ram : ℤ
  pub last_alert_dsk : ℤ
  pub current_cycle : ℤ

pub record AlertAgent (F : Type 0) : Type 0 where
  pub base : BaseAgent
  pub cpu_threshold : F
  pub ram_threshold : F
  pub disk_threshold : F
  pub min_cycles : ℤ
  pub cooldown : ℤ
  pub alert_file : Text
  pub dispatcher : NotifierDispatcher
  pub dry_run : Bool
  pub state : AlertState

abbrev pub cpu_metric : Text
cpu_metric = codes "CPU"

abbrev pub ram_metric : Text
ram_metric = codes "RAM"

abbrev pub disk_metric : Text
disk_metric = codes "DISK"

-- The state of one sustained metric: its cycles above the threshold and the cycle of its last alert.
pub record Tracker : Type 0 where
  pub cycles : ℤ
  pub last_alert : ℤ

-- The test that the CPU block and the RAM block both make, on their own counters.
unfoldable pub sustained : Bool → ℤ → ℤ → ℤ → Tracker → Tracker × Bool
sustained above min_cycles cooldown current t =
    if above
    then (let t' = record t { cycles = inc t.cycles } in
        if leb_ℤ min_cycles t'.cycles && leb_ℤ cooldown (current -ℤ t'.last_alert)
        then (record t' { last_alert = current }, true)
        else (t', false))
    else (record t { cycles = pos 0 }, false)

module _ {F : Type 0} where
  unfoldable pub new_alert_agent : F → F → F → ℤ → ℤ → Text → NotifierDispatcher → AlertAgent F
  unfolding Base.new_base_agent
  new_alert_agent cpu ram disk min_cycles cooldown file dispatcher = record {
    base = Base.new_base_agent (codes "alert") (15000000000);
    cpu_threshold = cpu;
    ram_threshold = ram;
    disk_threshold = disk;
    min_cycles = min_cycles;
    cooldown = cooldown;
    alert_file = file;
    dispatcher = dispatcher;
    dry_run = dispatcher.dry_run;
    state = record {
      cpu_cycles = pos 0;
      ram_cycles = pos 0;
      disk_cycles = pos 0;
      last_alert_cpu = negsuc 998;
      last_alert_ram = negsuc 998;
      last_alert_dsk = negsuc 998;
      current_cycle = pos 0;
    };
  }

  -- The alert of a sustained metric.
  load_alert : Snapshot F → Text → F → F → ℤ → Alert F
  load_alert snap metric value threshold cycles = record {
    timestamp = snap.timestamp;
    level = alert_critical;
    metric = metric;
    value = value;
    threshold = threshold;
    message = sustained_load metric value cycles;
    cycles_above = cycles;
  }

  module _ ⦃fl : Float64 F⦄ where
    unfoldable pub cpu_above : AlertAgent F → Snapshot F → Bool
    cpu_above a snap = fl.le a.cpu_threshold snap.cpu_percent

    unfoldable pub ram_above : AlertAgent F → Snapshot F → Bool
    ram_above a snap = fl.le a.ram_threshold snap.mem_percent

    unfoldable pub disk_above : AlertAgent F → Snapshot F → Bool
    disk_above a snap = fl.le a.disk_threshold snap.disk_percent

    unfoldable pub check_cpu : AlertAgent F → Snapshot F → AlertState → AlertState × List (Alert F)
    unfolding load_alert cpu_above
    check_cpu a snap s =
        let (t, fires) =
          sustained (cpu_above a snap) a.min_cycles a.cooldown s.current_cycle
            (record { cycles = s.cpu_cycles; last_alert = s.last_alert_cpu }) in
        (
          record s { cpu_cycles = t.cycles; last_alert_cpu = t.last_alert },
          if fires
              then load_alert snap cpu_metric snap.cpu_percent a.cpu_threshold t.cycles ∷ []
              else [],
        )

    unfoldable pub check_ram : AlertAgent F → Snapshot F → AlertState → AlertState × List (Alert F)
    unfolding load_alert ram_above
    check_ram a snap s =
        let (t, fires) =
          sustained (ram_above a snap) a.min_cycles a.cooldown s.current_cycle
            (record { cycles = s.ram_cycles; last_alert = s.last_alert_ram }) in
        (
          record s { ram_cycles = t.cycles; last_alert_ram = t.last_alert },
          if fires
              then load_alert snap ram_metric snap.mem_percent a.ram_threshold t.cycles ∷ []
              else [],
        )

    -- The disk has no counter of cycles: one cycle at the threshold is enough.
    unfoldable pub check_disk : AlertAgent F → Snapshot F → AlertState → AlertState × List (Alert F)
    unfolding disk_above
    check_disk a snap s =
        if disk_above a snap && leb_ℤ a.cooldown (s.current_cycle -ℤ s.last_alert_dsk)
        then (
          record s { last_alert_dsk = s.current_cycle },
          record {
            timestamp = snap.timestamp;
            level = alert_warning;
            metric = disk_metric;
            value = snap.disk_percent;
            threshold = a.disk_threshold;
            message = disk_usage snap.disk_percent;
            cycles_above = pos 0;
          }
              ∷ [],
        )
        else (s, [])

    unfoldable pub analyze : Snapshot F → AlertAgent F → AlertAgent F × List (Alert F)
    unfolding check_cpu check_ram check_disk
    analyze snap a =
        let s = a.state in
        let s0 = record s { current_cycle = inc s.current_cycle } in
        let (s1, cpu) = check_cpu a snap s0 in
        let (s2, ram) = check_ram a snap s1 in
        let (s3, disk) = check_disk a snap s2 in (record a { state = s3 }, cpu ++ (ram ++ disk))

    -- Each alert is logged, printed and handed to the dispatcher before the next.
    unfoldable pub dispatch_all :
        (ℕ → Request F → Option ℕ) → AlertAgent F → List (Alert F) → List (Alert F × List Outcome)
    unfolding dispatch
    dispatch_all net a [] = []
    dispatch_all net a (x ∷ xs) = (x, (dispatch net a.dispatcher x).0) ∷ dispatch_all net a xs

    recorded : Time → List (Alert F) → BaseAgent → BaseAgent
    recorded now [] b = Base.record_success now b
    recorded now (_ ∷ _) b = Base.record_alert now b

    unfoldable pub run :
        (ℕ → Request F → Option ℕ)
        → Time
        → Snapshot F
        → AlertAgent F
        → AlertAgent F × List (Alert F × List Outcome)
    unfolding analyze recorded dispatch_all
    run net now snap a =
        let (a', alerts) = analyze snap a in
        (record a' { base = recorded now alerts a'.base }, dispatch_all net a' alerts)

    -- The agent after a history of snapshots, newest first.
    unfoldable pub after : List (Snapshot F) → AlertAgent F → AlertAgent F
    after [] a = a
    after (x ∷ h) a = (analyze x (after h a)).0
