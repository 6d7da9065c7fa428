-- ===== src/Agents/DailyReport.antt =====
-- runtime/agents/daily_report.go. The lock is held throughout a send, so it is one step; the readings of
-- the clock are its arguments, and the store is any implementation.
pub mod Numbers
mod Scenarios
use jarvinx.Shared.{
  ℕ, ◌*◌, Bool, true, false, not, ◌&&◌, List, [], ◌∷◌, Option, none, some, ltb, ◌==◌, if◌then◌else◌,
  length,
}
use jarvinx.Shared.Int.{ℤ, pos, eq_ℤ}
use jarvinx.Shared.Clock.{Time, Duration, LocalTime, second, since}
use jarvinx.Shared.Float.{Float64}
use jarvinx.Shared.Text.{Text, codes}
use jarvinx.Memory.Records.{Snapshot, CycleRecord}
use jarvinx.Memory.Store.{Store}
use jarvinx.Llm.Context.{Counts, Format, bump, count_of}
use jarvinx.Agents.Records.{ReportData, Alert, alert_warning, daily_report}
use jarvinx.Agents.Notifier.{NotifierDispatcher, Outcome, Request, dispatch}

pub record DailyReporter : Type 0 where
  pub dispatcher : NotifierDispatcher
  pub hour : ℤ
  pub minute : ℤ
  pub dry_run : Bool
  pub last_sent : Time

unfoldable pub new_daily_reporter : NotifierDispatcher → ℤ → ℤ → Bool → DailyReporter
new_daily_reporter dispatcher hour minute dry_run = record {
  dispatcher = dispatcher;
  hour = hour;
  minute = minute;
  dry_run = dry_run;
  last_sent = 0;
}

-- What a send does: nothing is sent in a dry run, which logs the report.
pub record Sending (F : Type 0) : Type 0 where
  pub reporter : DailyReporter
  pub logged : Option (ReportData F)
  pub outcomes : List Outcome
  pub requests : List (Request F)

-- What the loop of buildReport carries.
pub record Sums (F : Type 0) : Type 0 where
  pub actions : Counts
  pub cpu_sum : F
  pub ram_sum : F
  pub cpu_max : F
  pub ram_max : F
  pub disk_max : F

module _ {F : Type 0} ⦃fl : Float64 F⦄ where
  -- `if x > max { max = x }`
  larger : F → F → F
  larger max x = if fl.lt max x then x else max

  unfoldable pub added : CycleRecord F → Sums F → Sums F
  unfolding bump larger
  added c s = record {
    actions = bump c.action s.actions;
    cpu_sum = fl.add s.cpu_sum c.snapshot.cpu_percent;
    ram_sum = fl.add s.ram_sum c.snapshot.mem_percent;
    cpu_max = larger s.cpu_max c.snapshot.cpu_percent;
    ram_max = larger s.ram_max c.snapshot.mem_percent;
    disk_max = larger s.disk_max c.snapshot.disk_percent;
  }

  unfoldable pub sum_up : Sums F → List (CycleRecord F) → Sums F
  unfolding added
  sum_up s [] = s
  sum_up s (c ∷ cycles) = sum_up (added c s) cycles

  unfoldable pub no_sums : Sums F
  no_sums = record {
    actions = [];
    cpu_sum = fl.decimal 0 0;
    ram_sum = fl.decimal 0 0;
    cpu_max = fl.decimal 0 0;
    ram_max = fl.decimal 0 0;
    disk_max = fl.decimal 0 0;
  }

  -- The report on the cycles that were read; without cycles, all but the date is zero.
  unfoldable pub report_on : Format F → Time → List (CycleRecord F) → ReportData F
  unfolding sum_up no_sums count_of
  report_on fmt now [] = record {
    date = now;
    total_cycles = 0;
    actions = [];
    cpu_avg = fl.decimal 0 0;
    cpu_max = fl.decimal 0 0;
    ram_avg = fl.decimal 0 0;
    ram_max = fl.decimal 0 0;
    disk_max = fl.decimal 0 0;
    alert_count = 0;
    execute_count = 0;
  }
  report_on fmt now (c ∷ cycles) =
      let s = sum_up no_sums (c ∷ cycles) in
      let total = length (c ∷ cycles) in
      record {
        date = now;
        total_cycles = total;
        actions = s.actions;
        cpu_avg = fl.div s.cpu_sum (fmt.float total);
        cpu_max = s.cpu_max;
        ram_avg = fl.div s.ram_sum (fmt.float total);
        ram_max = s.ram_max;
        disk_max = s.disk_max;
        alert_count = count_of (codes "alert") s.actions;
        execute_count = count_of (codes "execute") s.actions;
      }

  unfoldable pub deliver :
      (ℕ → Request F → Option ℕ) → Time → Time → ReportData F → DailyReporter → Sending F
  unfolding dispatch
  deliver net made sent report r =
      let alert : Alert F = record {
        timestamp = made;
        level = alert_warning;
        metric = codes "DAILY REPORT";
        value = fl.decimal 0 0;
        threshold = fl.decimal 0 0;
        message = daily_report report;
        cycles_above = pos 0;
      } in
      let (outcomes, requests) = dispatch net r.dispatcher alert in
      if r.dry_run
      then record {
        reporter = record r { last_sent = sent };
        logged = some report;
        outcomes = [];
        requests = [];
      }
      else record {
        reporter = record r { last_sent = sent };
        logged = none;
        outcomes = outcomes;
        requests = requests;
      }

  -- `none`: reading the cycles panicked.
  unfoldable pub reported : Format F → Time → Option (List (CycleRecord F)) → Option (ReportData F)
  unfolding report_on
  reported fmt now none = none
  reported fmt now (some cycles) = some (report_on fmt now cycles)

  module _ {S : Type 0} (store : Store F S) where
    unfoldable pub build_report : Format F → Time → S → Option (ReportData F)
    unfolding reported
    build_report fmt now s = reported fmt now (store.last_cycles (pos 5760) s)

    -- The clock is read for the date, for the alert and for the time of the send.
    unfoldable pub send_report :
        Format F
        → (ℕ → Request F → Option ℕ)
        → Time
        → Time
        → Time
        → S
        → DailyReporter
        → Option (Sending F)
    unfolding build_report deliver
    send_report fmt net dated made sent s r = elim (build_report fmt dated s) [
      | none ↦ none
      | some report ↦ some (deliver net made sent report r)
    ]

-- Whether a tick of the minute at `t` sends; the time since the last send is read at `now`.
unfoldable pub is_due : LocalTime → Time → Time → DailyReporter → Bool
is_due local t now r =
    eq_ℤ (pos (local.hour t)) r.hour
    && eq_ℤ (pos (local.minute t)) r.minute
    && not (ltb (since now r.last_sent) (120 * second))
