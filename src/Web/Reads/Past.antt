-- ===== src/Web/Reads/Past.antt =====
-- The handlers of runtime/web/server.go that show the past and the reports. `none` is a panic.
use jarvinx.Shared.{
  ℕ, ◌+◌, ◌*◌, ◌-◌, true, false, List, [], Option, none, some, ltb, if◌then◌else◌, ◌>>=◌,
}
use jarvinx.Shared.Int.{ℤ, pos}
use jarvinx.Shared.Clock.{Time, second}
use jarvinx.Shared.Float.{Float64}
use jarvinx.Shared.Text.{Text, codes, text_eq}
use jarvinx.Memory.Records.{Snapshot, CycleRecord}
use jarvinx.Memory.State.{last, last_cycles}
use jarvinx.Memory.Store.{HistoryReader}
use jarvinx.Llm.Context.Prompt.{build_adaptive_context}
use jarvinx.Agents.DailyReport.{DailyReporter}
use jarvinx.Web.Reads.{time_if_set}
use jarvinx.Web.Server.{Server, World}
use jarvinx.Web.Responses.{
  Request, Reply, HistoryFullResponse, LlmContextResponse, report_json, full_json, context_json,
  http_error, write_json,
}

unfoldable pub last_sent_part : Option DailyReporter → Option Time
unfolding time_if_set
last_sent_part none = none
last_sent_part (some r) = time_if_set r.last_sent

-- The name of the range, its days and the hours of a bucket.
unfoldable pub range_of : Text → Text × ℕ × ℤ
unfolding text_eq
range_of range =
    if text_eq range (codes "30d")
    then (range, 30, pos 6)
    else if text_eq range (codes "90d")
    then (range, 90, pos 24)
    else (codes "7d", 7, pos 1)

module _ {F : Type 0} ⦃fl : Float64 F⦄ where
  -- The next time of the day at which a report is due.
  unfoldable pub next_send : World F → ℤ → ℤ → Time
  next_send w hour minute =
      let next = w.local.on_day w.now hour minute in
      if ltb next w.now then next + 24 * 3600 * second else next

  unfoldable pub next_part : World F → Server F → Option DailyReporter → Option Time
  unfolding next_send
  next_part w s none = none
  next_part w s (some r) = some (next_send w s.cfg.daily_report_hour s.cfg.daily_report_minute)

  unfoldable pub handle_daily_report : World F → Server F → Reply F → Reply F
  unfolding last_sent_part next_part write_json
  handle_daily_report w s reply =
      write_json w.failure
        (report_json (record {
          enabled = s.cfg.daily_report_enabled;
          scheduled_at = (s.cfg.daily_report_hour, s.cfg.daily_report_minute);
          last_sent = last_sent_part s.daily_reporter;
          next_send = next_part w s s.daily_reporter;
        }))
        reply

  unfoldable pub context_response :
      World F → Server F → List (CycleRecord F) → List (Snapshot F) → LlmContextResponse F
  unfolding build_adaptive_context
  context_response w s cycles snapshots =
      let ctx =
        build_adaptive_context w.fmt w.order w.local w.now cycles snapshots
          s.cfg.cpu_alert_threshold s.cfg.ram_alert_threshold s.cfg.disk_alert_threshold in
      record {
        cycle_count = ctx.cycle_count;
        dominant_action = ctx.dominant_action;
        alert_rate = ctx.alert_rate;
        cpu_trend = ctx.cpu_trend;
        ram_trend = ctx.ram_trend;
        disk_trend = ctx.disk_trend;
        cpu_forecast = ctx.cpu_forecast;
        ram_forecast = ctx.ram_forecast;
        disk_forecast = ctx.disk_forecast;
        recent_alerts = ctx.recent_alerts;
      }

  unfoldable pub handle_llm_context : World F → Server F → Reply F → Option (Reply F)
  unfolding last last_cycles context_response write_json
  handle_llm_context w s reply = do
    cycles ← last_cycles (pos 20) s.state
    snapshots ← last (pos 10) s.state
    some (write_json w.failure (context_json (context_response w s cycles snapshots)) reply)

  no_history : HistoryFullResponse F
  no_history = record {
    range = [];
    from = 0;
    to = 0;
    bucket_hours = pos 0;
    buckets = [];
    total_snapshots = pos 0;
    available = false;
  }

  unfoldable pub full_part : World F → Text → Option (HistoryReader F) → HistoryFullResponse F
  unfolding no_history range_of
  full_part w range none = no_history
  full_part w range (some history) =
      let (name, days, bucket_hours) = range_of range in
      let from = w.now - days * 24 * 3600 * second in
      record {
        range = name;
        from = from;
        to = w.later;
        bucket_hours = bucket_hours;
        buckets = history.snapshot_buckets from bucket_hours;
        total_snapshots = history.total_snapshots from;
        available = true;
      }

  unfoldable pub handle_history_full : World F → Request → Server F → Reply F → Reply F
  unfolding text_eq full_part http_error write_json
  handle_history_full w r s reply =
      if text_eq r.method (codes "GET")
      then write_json w.failure (full_json (full_part w r.range s.history)) reply
      else http_error (codes "method not allowed") 405 reply
