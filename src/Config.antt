-- ===== src/Config.antt =====
-- runtime/config/config.go.
pub mod Validate
pub mod Env
use jarvinx.Shared.{ℕ, ◌*◌, Bool, true, false, List, [], ◌∷◌}
use jarvinx.Shared.Int.{ℤ, pos}
use jarvinx.Shared.Clock.{Duration, second}
use jarvinx.Shared.Float.{Float64}
use jarvinx.Shared.Text.{Text, codes}

abbrev pub min_interval : Duration
min_interval = 5 * second

abbrev pub max_interval : Duration
max_interval = 3600 * second

pub record Config (F : Type 0) : Type 0 where
  pub interval : Duration
  pub dry_run : Bool
  pub ollama_url : Text
  pub model : Text
  pub log_file : Text
  pub state_file : Text
  pub sqlite_path : Text
  pub cpu_alert_threshold : F
  pub ram_alert_threshold : F
  pub disk_alert_threshold : F
  pub api_token : Text
  pub web_port : ℤ
  pub alert_file : Text
  pub alert_cooldown : ℤ
  pub alert_min_cycles : ℤ
  pub discord_webhook : Text
  pub slack_webhook : Text
  pub ntfy_url : Text
  pub ntfy_topic : Text
  pub gotify_url : Text
  pub gotify_token : Text
  pub allowed_origins : List Text
  pub log_max_size_bytes : ℤ
  pub log_max_backups : ℤ
  pub alert_max_size_bytes : ℤ
  pub alert_max_backups : ℤ
  pub docker_enabled : Bool
  pub docker_watch_list : List Text
  pub file_enabled : Bool
  pub file_watch_paths : List Text
  pub file_max_size_mb : ℤ
  pub daily_report_enabled : Bool
  pub daily_report_hour : ℤ
  pub daily_report_minute : ℤ
  pub exec_cooldown : Duration
  pub qdrant_url : Text
  pub embed_model : Text

unfoldable pub default_config : {F : Type 0} ⦃fl : Float64 F⦄ → Config F
default_config ⦃fl⦄ = record {
  interval = 15 * second;
  dry_run = false;
  ollama_url = codes "http://localhost:11434";
  model = codes "llama3.1:8b";
  log_file = codes "logs.jsonl";
  state_file = codes "state.json";
  sqlite_path = [];
  cpu_alert_threshold = fl.decimal 85 0;
  ram_alert_threshold = fl.decimal 90 0;
  disk_alert_threshold = fl.decimal 85 0;
  api_token = [];
  web_port = pos 8080;
  alert_file = codes "alerts.jsonl";
  alert_cooldown = pos 5;
  alert_min_cycles = pos 2;
  discord_webhook = [];
  slack_webhook = [];
  ntfy_url = [];
  ntfy_topic = [];
  gotify_url = [];
  gotify_token = [];
  allowed_origins = codes "http://localhost:3000" ∷ codes "http://localhost:8080" ∷ [];
  log_max_size_bytes = pos (10 * 1024 * 1024);
  log_max_backups = pos 3;
  alert_max_size_bytes = pos (5 * 1024 * 1024);
  alert_max_backups = pos 3;
  docker_enabled = true;
  docker_watch_list = [];
  file_enabled = true;
  file_watch_paths = [];
  file_max_size_mb = pos 500;
  daily_report_enabled = false;
  daily_report_hour = pos 8;
  daily_report_minute = pos 0;
  exec_cooldown = 300 * second;
  qdrant_url = [];
  embed_model = codes "nomic-embed-text";
}
