-- ===== src/Llm/Context/Prompt.antt =====
-- AdaptiveContext and its text, of runtime/llm/context_builder.go.
use jarvinx.Shared.{
  ℕ, Bool, false, ◌||◌, List, [], ◌∷◌, ltb, leb, ◌==◌, if◌then◌else◌, length, take,
}
use jarvinx.Shared.Clock.{Time, LocalTime}
use jarvinx.Shared.Float.{Float64}
use jarvinx.Shared.Text.{Text, codes}
use jarvinx.Shared.Parse.{replace_all}
use jarvinx.Memory.Records.{Snapshot, CycleRecord}
use jarvinx.Llm.Context.{
  Format, Counts, count_of, dominant_key, count_actions, collect_alerts, stable_streak,
  trend_with_threshold, compute_correlation, forecast_cycles, time_period,
}

pub record AdaptiveContext (F : Type 0) : Type 0 where
  pub dominant_action : Text
  pub alert_rate : F
  pub cpu_trend : Text
  pub ram_trend : Text
  pub disk_trend : Text
  pub recent_alerts : List Text
  pub cycle_count : ℕ
  pub similar_decisions : List Text
  pub time_of_day : Text
  pub is_weekend : Bool
  pub correlation : Text
  pub stable_streak : ℕ
  pub cpu_forecast : Text
  pub ram_forecast : Text
  pub disk_forecast : Text

-- `if len(s) > 200 { s = s[:200] }`
unfoldable pub truncated : Text → Text
truncated s = if ltb 200 (length s) then take 200 s else s

unfoldable pub sanitize_similar_decision : Text → Text
unfolding truncated replace_all
sanitize_similar_decision s = truncated (replace_all 13 32 (replace_all 10 32 s))

module _ {F : Type 0} ⦃fl : Float64 F⦄ where
  unfoldable pub empty_context : AdaptiveContext F
  empty_context = record {
    dominant_action = [];
    alert_rate = fl.decimal 0 0;
    cpu_trend = [];
    ram_trend = [];
    disk_trend = [];
    recent_alerts = [];
    cycle_count = 0;
    similar_decisions = [];
    time_of_day = [];
    is_weekend = false;
    correlation = [];
    stable_streak = 0;
    cpu_forecast = [];
    ram_forecast = [];
    disk_forecast = [];
  }

  -- The part under `if len(cycles) > 0`.
  unfoldable pub with_cycles :
      Format F → (Counts → Counts) → List (CycleRecord F) → AdaptiveContext F → AdaptiveContext F
  unfolding count_of dominant_key count_actions collect_alerts
  with_cycles fmt order [] ctx = ctx
  with_cycles fmt order (c ∷ cycles) ctx =
      let all = c ∷ cycles in
      let counts = count_actions [] all in
      record ctx {
        cycle_count = length all;
        dominant_action = dominant_key order counts;
        alert_rate =
            fl.mul (fl.div (fmt.float (count_of (codes "alert") counts)) (fmt.float (length all)))
              (fl.decimal 100 0);
        recent_alerts = collect_alerts [] all;
      }

  -- The part under `if len(snapshots) >= 3`.
  unfoldable pub with_snapshots :
      Format F → List (Snapshot F) → F → F → F → AdaptiveContext F → AdaptiveContext F
  unfolding trend_with_threshold compute_correlation forecast_cycles
  with_snapshots fmt snaps cpu ram disk ctx =
      if leb 3 (length snaps)
      then record ctx {
        cpu_trend = trend_with_threshold fmt (λ s. s.cpu_percent) cpu snaps;
        ram_trend = trend_with_threshold fmt (λ s. s.mem_percent) ram snaps;
        disk_trend = trend_with_threshold fmt (λ s. s.disk_percent) disk snaps;
        correlation = compute_correlation fmt snaps;
        cpu_forecast = forecast_cycles fmt (λ s. s.cpu_percent) cpu snaps;
        ram_forecast = forecast_cycles fmt (λ s. s.mem_percent) ram snaps;
        disk_forecast = forecast_cycles fmt (λ s. s.disk_percent) disk snaps;
      }
      else ctx

  -- The map of the counts yields its entries in the order that `order` gives.
  unfoldable pub build_adaptive_context :
      Format F
      → (Counts → Counts)
      → LocalTime
      → Time
      → List (CycleRecord F)
      → List (Snapshot F)
      → F
      → F
      → F
      → AdaptiveContext F
  unfolding empty_context with_cycles with_snapshots time_period stable_streak
  build_adaptive_context fmt order local now cycles snaps cpu ram disk =
      let ctx =
        with_snapshots fmt snaps cpu ram disk (with_cycles fmt order cycles empty_context) in
      record ctx {
        time_of_day = time_period (local.hour now);
        is_weekend = local.weekday now == 6 || local.weekday now == 0;
        stable_streak = stable_streak cycles;
      }
