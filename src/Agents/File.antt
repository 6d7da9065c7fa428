-- ===== src/Agents/File.antt =====
-- runtime/agents/file_agent.go. The maps of the agent are functions. Of what a run logs, its alerts are
-- kept, each with whether it is simulated.
pub mod Memory
mod Scenarios
use jarvinx.Shared.{
  ℕ, suc, ◌*◌, Bool, true, false, List, [], ◌∷◌, ◌++◌, map, Option, none, some, if◌then◌else◌,
}
use jarvinx.Shared.Int.{ℤ}
use jarvinx.Shared.Clock.{Time, second, since}
use jarvinx.Shared.Float.{Float64, from_int, minutes}
use jarvinx.Shared.Text.{Text, codes, text_eq}
use jarvinx.Tools.Files.{FileInfo, DirStats}
use jarvinx.Agents.Base
use jarvinx.Agents.Base.{BaseAgent}

pub record FileAgent (F : Type 0) : Type 0 where
  pub base : BaseAgent
  pub watch_paths : List Text
  pub max_size_mb : ℤ
  pub dry_run : Bool
  pub prev_sizes : Text → Option F
  pub prev_times : Text → Option Time

-- A file that is large, or a directory that grew: the megabytes, the rate per minute and the size.
pub data FileAlert (F : Type 0) : Type 0 where
  large_file : (simulated : Bool) → FileInfo F → FileAlert F
  has_grown : (simulated : Bool) → (path : Text) → (growth rate total : F) → FileAlert F

-- The turn of a path: whether the context is done, what ScanDirectory returns, and the clock when the
-- rate is computed and at the end.
pub record Turn (F : Type 0) : Type 0 where
  pub ctx_done : Bool
  pub stats : DirStats F
  pub now : Time
  pub later : Time

unfoldable pub new_file_agent : {F : Type 0} → List Text → ℤ → Bool → FileAgent F
unfolding Base.new_base_agent
new_file_agent watch_paths max_size_mb dry_run = record {
  base = Base.new_base_agent (codes "file") (300 * second);
  watch_paths = watch_paths;
  max_size_mb = max_size_mb;
  dry_run = dry_run;
  prev_sizes = λ path. none;
  prev_times = λ path. none;
}

-- The agent after a run, whether its context was done, and its alerts.
pub record Ran (F : Type 0) : Type 0 where
  pub agent : FileAgent F
  pub ctx_done : Bool
  pub alerts : List (FileAlert F)

module _ {F : Type 0} where
  unfoldable pub keep_size : Text → Turn F → FileAgent F → FileAgent F
  unfolding text_eq
  keep_size path t a = record a {
    prev_sizes = λ other. if text_eq path other then some t.stats.total_mb else a.prev_sizes other;
    prev_times = λ other. if text_eq path other then some t.later else a.prev_times other;
  }

  -- The end of Run.
  unfoldable pub count_run : Time → List (FileAlert F) → BaseAgent → BaseAgent
  unfolding Base.record_success Base.record_alert
  count_run now [] b = Base.record_success now b
  count_run now (_ ∷ _) b = Base.record_alert now b

  module _ ⦃fl : Float64 F⦄ where
    -- Megabytes per minute since the last scan, zero if that is not known.
    unfoldable pub rate_of : F → Option Time → Time → F
    unfolding minutes since
    rate_of growth none now = fl.decimal 0 0
    rate_of growth (some prev_time) now =
        let elapsed = minutes (since now prev_time) in
        if fl.lt (fl.decimal 0 0) elapsed then fl.div growth elapsed else fl.decimal 0 0

    unfoldable pub growth_alerts : Text → Turn F → Option F → FileAgent F → List (FileAlert F)
    unfolding rate_of from_int
    growth_alerts path t none a = []
    growth_alerts path t (some prev) a =
        let growth = fl.sub t.stats.total_mb prev in
        if fl.lt (fl.div (from_int a.max_size_mb) (fl.decimal 2 0)) growth
        then has_grown a.dry_run path growth (rate_of growth (a.prev_times path) t.now)
            t.stats.total_mb
          ∷ []
        else []

    -- The alerts on a path whose scan gave no error.
    unfoldable pub path_alerts : Text → Turn F → FileAgent F → List (FileAlert F)
    unfolding growth_alerts
    path_alerts path t a =
        map (large_file a.dry_run) t.stats.large_files ++ growth_alerts path t (a.prev_sizes path) a

    -- The loop of Run; `turns` gives the turn of each path by its place in the list.
    unfoldable pub scan_paths : List Text → (ℕ → Turn F) → FileAgent F → Ran F
    unfolding path_alerts keep_size text_eq
    scan_paths [] turns a = record { agent = a; ctx_done = false; alerts = [] }
    scan_paths (path ∷ paths) turns a =
        let t = turns 0 in
        let next = λ (n : ℕ). turns (suc n) in
        let skipped = scan_paths paths next a in
        let rest = scan_paths paths next (keep_size path t a) in
        if t.ctx_done
        then record { agent = a; ctx_done = true; alerts = [] }
        else if text_eq t.stats.error []
        then record rest { alerts = path_alerts path t a ++ rest.alerts }
        else skipped

    unfoldable pub run_on : List Text → (ℕ → Turn F) → Time → FileAgent F → Ran F
    unfolding scan_paths count_run Base.record_success
    run_on [] turns now a = record {
      agent = record a { base = Base.record_success now a.base };
      ctx_done = false;
      alerts = [];
    }
    run_on (path ∷ paths) turns now a =
        let ran = scan_paths (path ∷ paths) turns a in
        if ran.ctx_done then ran else record ran {
          agent = record ran.agent { base = count_run now ran.alerts ran.agent.base };
        }

    -- A run; the clock is read once more at its end. A run whose context was done counts nothing.
    unfoldable pub run : (ℕ → Turn F) → Time → FileAgent F → Ran F
    unfolding run_on
    run turns now a = run_on a.watch_paths turns now a
