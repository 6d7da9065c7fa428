-- ===== src/Config/Env/Settings.antt =====
-- FromEnv of runtime/config/env.go, one step for each variable, in the order of the code.
pub mod Steps
pub mod Kept
use jarvinx.Shared.{
  ℕ, ◌*◌, suc, ◌-◌, Bool, true, false, ◌&&◌, ◌||◌, not, List, [], ◌∷◌, ◌++◌, Option, none, some,
  if◌then◌else◌,
}
use jarvinx.Shared.Int.{mebibytes, ℤ, pos, negsuc, leb_ℤ, wrap64}
use jarvinx.Shared.Text.{Text, codes, text_eq}
use jarvinx.Shared.Bytes.{trim_bytes}
use jarvinx.Shared.Clock.{Duration}
use jarvinx.Shared.Parse.{atoi, split}
use jarvinx.Config.{Config}
use jarvinx.Config.Env.{Env, Loading, text_setting, flag, warned_setting, quiet_setting}

-- A number that Atoi reads and that is from 0 to the given one.
unfoldable pub between : ℕ → Option ℤ → Option ℤ
between top none = none
between top (some i) = if leb_ℤ (pos 0) i && leb_ℤ i (pos top) then some i else none

-- The origins of a list with commas, trimmed, without empty ones.
kept_origins : List Text → List Text
unfolding trim_bytes text_eq
kept_origins [] = []
kept_origins (o ∷ origins) =
    let rest = kept_origins origins in
    if text_eq (trim_bytes o) [] then rest else trim_bytes o ∷ rest

unfoldable pub origins_of : Text → List Text
unfolding kept_origins split
origins_of v = kept_origins (split 44 v)

unfoldable pub run_settings : {F : Type 0} → List (Loading F → Loading F) → Loading F → Loading F
run_settings [] l = l
run_settings (f ∷ settings) l = run_settings settings (f l)

module _ {F : Type 0} (env : Env) (parse_float : Text → Option F)
    (parse_duration : Text → Option Duration) where
  -- The model, the interval, the thresholds, the alerts, the log and the dry run.
  abbrev pub core_settings : List (Loading F → Loading F)
  core_settings =
      text_setting env (codes "JARVINX_MODEL") (λ v c. record c { model = v })
      ∷ text_setting env (codes "JARVINX_OLLAMA_URL") (λ v c. record c { ollama_url = v })
      ∷ warned_setting env (codes "JARVINX_INTERVAL") parse_duration
          (λ d c. record c { interval = d })
      ∷ warned_setting env (codes "JARVINX_CPU_THRESHOLD") parse_float
          (λ f c. record c { cpu_alert_threshold = f })
      ∷ warned_setting env (codes "JARVINX_RAM_THRESHOLD") parse_float
          (λ f c. record c { ram_alert_threshold = f })
      ∷ warned_setting env (codes "JARVINX_DISK_THRESHOLD") parse_float
          (λ f c. record c { disk_alert_threshold = f })
      ∷ warned_setting env (codes "JARVINX_ALERT_COOLDOWN") atoi
          (λ i c. record c { alert_cooldown = i })
      ∷ warned_setting env (codes "JARVINX_ALERT_MIN_CYCLES") atoi
          (λ i c. record c { alert_min_cycles = i })
      ∷ quiet_setting env (codes "JARVINX_LOG_MAX_MB") atoi
          (λ i c. record c { log_max_size_bytes = mebibytes i })
      ∷ quiet_setting env (codes "JARVINX_LOG_MAX_BACKUPS") atoi
          (λ i c. record c { log_max_backups = i })
      ∷ flag env (codes "JARVINX_DRY_RUN") (codes "true") (λ c. record c { dry_run = true })
      ∷ []

  -- The port, the notifications, the report and the origins.
  abbrev pub web_settings : List (Loading F → Loading F)
  web_settings =
      warned_setting env (codes "JARVINX_PORT") atoi (λ i c. record c { web_port = i })
      ∷ text_setting env (codes "DISCORD_WEBHOOK") (λ v c. record c { discord_webhook = v })
      ∷ text_setting env (codes "SLACK_WEBHOOK") (λ v c. record c { slack_webhook = v })
      ∷ text_setting env (codes "NTFY_URL") (λ v c. record c { ntfy_url = v })
      ∷ text_setting env (codes "NTFY_TOPIC") (λ v c. record c { ntfy_topic = v })
      ∷ text_setting env (codes "GOTIFY_URL") (λ v c. record c { gotify_url = v })
      ∷ text_setting env (codes "GOTIFY_TOKEN") (λ v c. record c { gotify_token = v })
      ∷ flag env (codes "JARVINX_DAILY_REPORT") (codes "true")
          (λ c. record c { daily_report_enabled = true })
      ∷ quiet_setting env (codes "JARVINX_REPORT_HOUR") (λ v. between 23 (atoi v))
          (λ i c. record c { daily_report_hour = i })
      ∷ quiet_setting env (codes "JARVINX_REPORT_MINUTE") (λ v. between 59 (atoi v))
          (λ i c. record c { daily_report_minute = i })
      ∷ text_setting env (codes "JARVINX_ALLOWED_ORIGINS")
          (λ v c. record c { allowed_origins = c.allowed_origins ++ origins_of v })
      ∷ []

  -- The agents, the stores, the guard and the token.
  abbrev pub agent_settings : List (Loading F → Loading F)
  agent_settings =
      flag env (codes "JARVINX_DOCKER_ENABLED") (codes "false")
        (λ c. record c { docker_enabled = false })
      ∷ text_setting env (codes "JARVINX_DOCKER_WATCH")
          (λ v c. record c { docker_watch_list = split 44 v })
      ∷ text_setting env (codes "JARVINX_FILE_WATCH")
          (λ v c. record c { file_watch_paths = split 44 v })
      ∷ quiet_setting env (codes "JARVINX_FILE_MAX_MB") atoi
          (λ i c. record c { file_max_size_mb = i })
      ∷ flag env (codes "JARVINX_FILE_ENABLED") (codes "false")
          (λ c. record c { file_enabled = false })
      ∷ text_setting env (codes "JARVINX_SQLITE_PATH") (λ v c. record c { sqlite_path = v })
      ∷ warned_setting env (codes "JARVINX_EXEC_COOLDOWN") parse_duration
          (λ d c. record c { exec_cooldown = d })
      ∷ text_setting env (codes "JARVINX_QDRANT_URL") (λ v c. record c { qdrant_url = v })
      ∷ text_setting env (codes "JARVINX_EMBED_MODEL") (λ v c. record c { embed_model = v })
      ∷ text_setting env (codes "JARVINX_API_TOKEN") (λ v c. record c { api_token = v })
      ∷ []

  unfoldable pub from_env : Config F → Loading F
  unfolding run_settings
  from_env c =
      run_settings (core_settings ++ web_settings ++ agent_settings)
        (record { config = c; warnings = [] })
