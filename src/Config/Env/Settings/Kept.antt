-- ===== src/Config/Env/Settings/Kept.antt =====
-- What FromEnv of runtime/config/env.go keeps.
use jarvinx.Shared.{
  ℕ, ◌≡◌, refl, sym, ap, ◌∙◌, arith, true, false, ◌&&◌, List, [], ◌++◌, Option, none, some, All,
}
use jarvinx.Shared.Int.{mebibytes, ℤ, pos, leb_ℤ}
use jarvinx.Shared.Reverse.{All-append}
use jarvinx.Shared.Text.{Text, codes, text_eq}
use jarvinx.Shared.Clock.{Duration}
use jarvinx.Shared.Parse.{atoi, split}
use jarvinx.Config.{Config}
use jarvinx.Config.Env.{Env}
use jarvinx.Config.Env.Settings.{
  between, origins_of, core_settings, web_settings, agent_settings, from_env,
}
use jarvinx.Config.Env.Settings.Steps.{
  Keeps, text_setting-Keeps, flag-Keeps, warned_setting-Keeps, quiet_setting-Keeps,
  run_settings-Keeps,
}
use mathlib.Core.List.{append_assoc, append-nil}

-- A number from 0 to the given one.
abbrev pub IsBetween : ℕ → ℤ → Type 0
IsBetween top i = (leb_ℤ (pos 0) i && leb_ℤ i (pos top)) ≡ true

between-IsBetween : (top : ℕ) (o : Option ℤ) (i : ℤ) → between top o ≡ some i → IsBetween top i
unfolding between
between-IsBetween top none i e = ground arith
between-IsBetween top (some j) i e = ground arith

-- What a step keeps of the configuration that FromEnv started from.
abbrev pub IsKept : {F : Type 0} → Config F → Config F → Type 0
IsKept start c =
    (IsBetween 23 start.daily_report_hour → IsBetween 23 c.daily_report_hour)
    × (IsBetween 59 start.daily_report_minute → IsBetween 59 c.daily_report_minute)
    × (start.dry_run ≡ true → c.dry_run ≡ true)
    × (text_eq start.api_token [] ≡ false → text_eq c.api_token [] ≡ false)
    × ((more : List Text) × (c.allowed_origins ≡ start.allowed_origins ++ more))

origins_after :
    {F : Type 0} (start c : Config F) (more : List Text)
    → ((m : List Text) × (c.allowed_origins ≡ start.allowed_origins ++ m))
    → ((m : List Text) × (c.allowed_origins ++ more ≡ start.allowed_origins ++ m))
origins_after start c more (m, e) =
    (m ++ more, ap (λ l. l ++ more) e ∙ append_assoc start.allowed_origins m more)

module _ {F : Type 0} (env : Env) (parse_float : Text → Option F)
    (parse_duration : Text → Option Duration) where
  core_settings-Keeps :
      (start : Config F) → All (Keeps (IsKept start)) (core_settings env parse_float parse_duration)
  unfolding mebibytes
  core_settings-Keeps start =
      let P = IsKept start in
      (
        text_setting-Keeps P env (codes "JARVINX_MODEL") (λ v c. record c { model = v })
            (λ v c given p. p),
        (
          text_setting-Keeps P env (codes "JARVINX_OLLAMA_URL") (λ v c. record c { ollama_url = v })
              (λ v c given p. p),
          (
            warned_setting-Keeps P env (codes "JARVINX_INTERVAL") parse_duration
                (λ d c. record c { interval = d }) (λ v a c e p. p),
            (
              warned_setting-Keeps P env (codes "JARVINX_CPU_THRESHOLD") parse_float
                  (λ f c. record c { cpu_alert_threshold = f }) (λ v a c e p. p),
              (
                warned_setting-Keeps P env (codes "JARVINX_RAM_THRESHOLD") parse_float
                    (λ f c. record c { ram_alert_threshold = f }) (λ v a c e p. p),
                (
                  warned_setting-Keeps P env (codes "JARVINX_DISK_THRESHOLD") parse_float
                      (λ f c. record c { disk_alert_threshold = f }) (λ v a c e p. p),
                  (
                    warned_setting-Keeps P env (codes "JARVINX_ALERT_COOLDOWN") atoi
                        (λ i c. record c { alert_cooldown = i }) (λ v a c e p. p),
                    (
                      warned_setting-Keeps P env (codes "JARVINX_ALERT_MIN_CYCLES") atoi
                          (λ i c. record c { alert_min_cycles = i }) (λ v a c e p. p),
                      (
                        quiet_setting-Keeps P env (codes "JARVINX_LOG_MAX_MB") atoi
                            (λ i c. record c { log_max_size_bytes = mebibytes i }) (λ v a c e p. p),
                        (
                          quiet_setting-Keeps P env (codes "JARVINX_LOG_MAX_BACKUPS") atoi
                              (λ i c. record c { log_max_backups = i }) (λ v a c e p. p),
                          (
                            flag-Keeps P env (codes "JARVINX_DRY_RUN") (codes "true")
                                (λ c. record c { dry_run = true })
                                (λ c p. (p.0, p.1, λ on. refl, p.3, p.4)),
                            tt,
                          ),
                        ),
                      ),
                    ),
                  ),
                ),
              ),
            ),
          ),
        ),
      )

  web_settings-Keeps :
      (start : Config F) → All (Keeps (IsKept start)) (web_settings env parse_float parse_duration)
  unfolding mebibytes
  web_settings-Keeps start =
      let P = IsKept start in
      (
        warned_setting-Keeps P env (codes "JARVINX_PORT") atoi (λ i c. record c { web_port = i })
            (λ v a c e p. p),
        (
          text_setting-Keeps P env (codes "DISCORD_WEBHOOK")
              (λ v c. record c { discord_webhook = v }) (λ v c given p. p),
          (
            text_setting-Keeps P env (codes "SLACK_WEBHOOK") (λ v c. record c { slack_webhook = v })
                (λ v c given p. p),
            (
              text_setting-Keeps P env (codes "NTFY_URL") (λ v c. record c { ntfy_url = v })
                  (λ v c given p. p),
              (
                text_setting-Keeps P env (codes "NTFY_TOPIC") (λ v c. record c { ntfy_topic = v })
                    (λ v c given p. p),
                (
                  text_setting-Keeps P env (codes "GOTIFY_URL") (λ v c. record c { gotify_url = v })
                      (λ v c given p. p),
                  (
                    text_setting-Keeps P env (codes "GOTIFY_TOKEN")
                        (λ v c. record c { gotify_token = v }) (λ v c given p. p),
                    (
                      flag-Keeps P env (codes "JARVINX_DAILY_REPORT") (codes "true")
                          (λ c. record c { daily_report_enabled = true }) (λ c p. p),
                      (
                        quiet_setting-Keeps P env (codes "JARVINX_REPORT_HOUR")
                            (λ v. between 23 (atoi v)) (λ i c. record c { daily_report_hour = i })
                            (λ v i c e p.
                              (λ h. between-IsBetween 23 (atoi v) i e, p.1, p.2, p.3, p.4)),
                        (
                          quiet_setting-Keeps P env (codes "JARVINX_REPORT_MINUTE")
                              (λ v. between 59 (atoi v))
                              (λ i c. record c { daily_report_minute = i })
                              (λ v i c e p.
                                (p.0, λ m. between-IsBetween 59 (atoi v) i e, p.2, p.3, p.4)),
                          (
                            text_setting-Keeps P env (codes "JARVINX_ALLOWED_ORIGINS")
                                (λ v c. record c {
                                  allowed_origins = c.allowed_origins ++ origins_of v;
                                })
                                (λ v c given p.
                                  (p.0, p.1, p.2, p.3, origins_after start c (origins_of v) p.4)),
                            tt,
                          ),
                        ),
                      ),
                    ),
                  ),
                ),
              ),
            ),
          ),
        ),
      )

  agent_settings-Keeps :
      (start : Config F)
      → All (Keeps (IsKept start)) (agent_settings env parse_float parse_duration)
  unfolding mebibytes
  agent_settings-Keeps start =
      let P = IsKept start in
      (
        flag-Keeps P env (codes "JARVINX_DOCKER_ENABLED") (codes "false")
            (λ c. record c { docker_enabled = false }) (λ c p. p),
        (
          text_setting-Keeps P env (codes "JARVINX_DOCKER_WATCH")
              (λ v c. record c { docker_watch_list = split 44 v }) (λ v c given p. p),
          (
            text_setting-Keeps P env (codes "JARVINX_FILE_WATCH")
                (λ v c. record c { file_watch_paths = split 44 v }) (λ v c given p. p),
            (
              quiet_setting-Keeps P env (codes "JARVINX_FILE_MAX_MB") atoi
                  (λ i c. record c { file_max_size_mb = i }) (λ v a c e p. p),
              (
                flag-Keeps P env (codes "JARVINX_FILE_ENABLED") (codes "false")
                    (λ c. record c { file_enabled = false }) (λ c p. p),
                (
                  text_setting-Keeps P env (codes "JARVINX_SQLITE_PATH")
                      (λ v c. record c { sqlite_path = v }) (λ v c given p. p),
                  (
                    warned_setting-Keeps P env (codes "JARVINX_EXEC_COOLDOWN") parse_duration
                        (λ d c. record c { exec_cooldown = d }) (λ v a c e p. p),
                    (
                      text_setting-Keeps P env (codes "JARVINX_QDRANT_URL")
                          (λ v c. record c { qdrant_url = v }) (λ v c given p. p),
                      (
                        text_setting-Keeps P env (codes "JARVINX_EMBED_MODEL")
                            (λ v c. record c { embed_model = v }) (λ v c given p. p),
                        (
                          text_setting-Keeps P env (codes "JARVINX_API_TOKEN")
                              (λ v c. record c { api_token = v })
                              (λ v c given p. (p.0, p.1, p.2, λ set. given, p.4)),
                          tt,
                        ),
                      ),
                    ),
                  ),
                ),
              ),
            ),
          ),
        ),
      )

  -- Whatever the environment holds, FromEnv keeps an hour and a minute of the report that are in their
  -- ranges there, leaves a dry run and a token of the API on, and keeps the allowed origins, to which it
  -- only adds.
  pub from_env-IsKept : (c : Config F) → IsKept c (from_env env parse_float parse_duration c).config
  unfolding from_env
  from_env-IsKept c =
      run_settings-Keeps (IsKept c)
        (core_settings env parse_float parse_duration
          ++ web_settings env parse_float parse_duration
          ++ agent_settings env parse_float parse_duration)
        (All-append (Keeps (IsKept c)) (core_settings env parse_float parse_duration)
          (web_settings env parse_float parse_duration
            ++ agent_settings env parse_float parse_duration)
          (core_settings-Keeps c)
          (All-append (Keeps (IsKept c)) (web_settings env parse_float parse_duration)
            (agent_settings env parse_float parse_duration) (web_settings-Keeps c)
            (agent_settings-Keeps c)))
        (record { config = c; warnings = [] })
        (λ h. h, λ m. m, λ d. d, λ t. t, ([], sym (append-nil c.allowed_origins)))
