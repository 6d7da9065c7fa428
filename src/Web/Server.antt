-- ===== src/Web/Server.antt =====
-- The state of the server of runtime/web/server.go: the components that it shows, reached by pointers, are
-- its fields.
use jarvinx.Shared.{ℕ, Bool, List, Option}
use jarvinx.Shared.Int.{ℤ}
use jarvinx.Shared.Clock.{Time, Duration, LocalTime}
use jarvinx.Shared.Float.{Float64}
use jarvinx.Shared.Text.{Text}
use jarvinx.Config.{Config}
use jarvinx.Memory.State.{State}
use jarvinx.Memory.Store.{HistoryReader}
use jarvinx.Memory.Logger.{Logger, Disk}
use jarvinx.Llm.Context.{Format, Counts}
use jarvinx.Tools.Docker.{DockerAnswer, RawContainer}
use jarvinx.Agents.DailyReport.{DailyReporter}
use jarvinx.Agents.Registry.{Registry}
use jarvinx.Core.Orchestrator.{ExecuteGuard}
use jarvinx.Web.RateLimit.{TokenBucket, new_token_bucket}
use jarvinx.Web.Responses.{StoredAlert, Json}

-- `index` is the embedded static/index.html, and `allowed_origins` holds the keys of the map.
pub record Server (F : Type 0) : Type 0 where
  pub cfg : Config F
  pub state : State F
  pub registry : Registry F
  pub main_logger : Option Logger
  pub alert_logger : Option Logger
  pub daily_reporter : Option DailyReporter
  pub exec_guard : Option ExecuteGuard
  pub history : Option (HistoryReader F)
  pub port : ℤ
  pub index : Option (List ℕ)
  pub allowed_origins : List Text
  pub limit_toggle : TokenBucket F
  pub limit_send_report : TokenBucket F

-- The file of the alerts, as it opens: its bytes, or an error, which os.IsNotExist tells apart.
pub data Opening : Type 0 where
  opened : List ℕ → Opening
  not_existing : Opening
  unreadable : Opening

-- The surroundings of a request: the instants at which its handler reads the clock, the first and the
-- later ones, the start of the program, what the files and the Docker daemon answer, and the libraries:
-- encoding/json, fmt, the time zone and the order in which a map yields its entries.
pub record World (F : Type 0) : Type 0 where
  pub now : Time
  pub later : Time
  pub start_time : Time
  pub seconds : Duration → F
  pub fmt : Format F
  pub order : Counts → Counts
  pub local : LocalTime
  pub alert_file : Opening
  pub disk : Disk F
  pub docker_version : DockerAnswer
  pub docker_list : DockerAnswer
  pub unix : ℤ → Time
  pub parse_containers : Text → Option (List RawContainer)
  pub decode_alert : List ℕ → Option (StoredAlert F)
  -- The name in the object that the given bytes start with; the flag tells that there were more bytes.
  pub decode_toggle : List ℕ → Bool → Option Text
  pub failure : Json F → Option Text

module _ {F : Type 0} ⦃fl : Float64 F⦄ where
  unfoldable pub new_server :
      Config F
      → State F
      → Registry F
      → Option Logger
      → Option Logger
      → Option DailyReporter
      → Option ExecuteGuard
      → Option (HistoryReader F)
      → ℤ
      → Option (List ℕ)
      → Time
      → Server F
  unfolding new_token_bucket
  new_server cfg state registry main alert reporter guard history port index now = record {
    cfg = cfg;
    state = state;
    registry = registry;
    main_logger = main;
    alert_logger = alert;
    daily_reporter = reporter;
    exec_guard = guard;
    history = history;
    port = port;
    index = index;
    allowed_origins = cfg.allowed_origins;
    limit_toggle = new_token_bucket now (fl.decimal 1 0) (fl.decimal 1 0);
    limit_send_report = new_token_bucket now (fl.decimal 1 0) (fl.decimal 1 0);
  }
