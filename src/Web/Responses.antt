-- ===== src/Web/Responses.antt =====
-- The requests and the responses of runtime/web/server.go. A field whose text is formatted from a value
-- keeps the value; one that `omitempty` leaves out is `none` or empty.
use jarvinx.Shared.{ℕ, Bool, List, [], ◌∷◌, Option, none, some, if◌then◌else◌}
use jarvinx.Shared.Int.{ℤ}
use jarvinx.Shared.Clock.{Time, Duration}
use jarvinx.Shared.Text.{Text, codes, text_eq}
use jarvinx.Memory.Records.{CycleRecord}
use jarvinx.Memory.Store.{SnapshotBucket}
use jarvinx.Memory.Logger.Status.{LogStatus}
use jarvinx.Tools.Docker.{ContainerState}
use jarvinx.Tools.Shell.{CommandError}
use jarvinx.Agents.Base.{AgentStatus}

-- What the server reads of a request: the header fields and the parameters of the query are empty if they
-- are missing.
pub record Request : Type 0 where
  pub method : Text
  pub path : Text
  pub authorization : Text
  pub origin : Text
  pub level : Text
  pub limit : Text
  pub range : Text
  pub body : List ℕ

pub record GuardStatus (F : Type 0) : Type 0 where
  pub last_cmd : Text
  pub cooldown_remaining_seconds : F

pub record ExecLastResult (F : Type 0) : Type 0 where
  pub command : Text
  pub output : Text
  pub error : Option CommandError
  pub success : Bool
  pub duration_ms : F
  pub timed_out : Bool

pub record StatusResponse (F : Type 0) : Type 0 where
  pub online : Bool
  pub model : Text
  pub interval : Duration
  pub cycle_num : ℤ
  pub uptime : Text
  pub dry_run : Bool
  pub circuit_state : Text
  pub last_cycle : Option (CycleRecord F)
  pub exec_guard : GuardStatus F
  pub last_exec_result : Option (ExecLastResult F)

pub record HistoryResponse (F : Type 0) : Type 0 where
  pub cycles : List (CycleRecord F)
  pub total : ℤ

pub record AgentStatusResponse : Type 0 where
  pub agents : List AgentStatus
  pub total : ℕ

pub record ToggleResponse : Type 0 where
  pub name : Text
  pub enabled : Bool
  pub message : Text

pub record DockerResponse : Type 0 where
  pub available : Bool
  pub containers : List ContainerState
  pub total : ℕ
  pub running : ℕ
  pub exited : ℕ

-- `none` is the zero LogStatus.
pub record LogsStatusResponse (F : Type 0) : Type 0 where
  pub main_log : Option (LogStatus F)
  pub alert_log : Option (LogStatus F)

pub record FileAgentResponse : Type 0 where
  pub enabled : Bool
  pub watch_paths : List Text
  pub max_size_mb : ℤ
  pub last_run : Option Time
  pub run_count : ℤ
  pub alert_count : ℤ
  pub last_error : Text

pub record DailyReportResponse : Type 0 where
  pub enabled : Bool
  pub scheduled_at : ℤ × ℤ
  pub last_sent : Option Time
  pub next_send : Option Time

pub record SendReportResponse : Type 0 where
  pub sent : Bool
  pub message : Text

pub record HistoryFullResponse (F : Type 0) : Type 0 where
  pub range : Text
  pub from : Time
  pub to : Time
  pub bucket_hours : ℤ
  pub buckets : List (SnapshotBucket F)
  pub total_snapshots : ℤ
  pub available : Bool

-- An alert as a line of the log holds it, with its texts.
pub record StoredAlert (F : Type 0) : Type 0 where
  pub timestamp : Time
  pub level : Text
  pub metric : Text
  pub value : F
  pub threshold : F
  pub message : Text
  pub cycles_above : ℤ

pub record AlertsResponse (F : Type 0) : Type 0 where
  pub alerts : List (StoredAlert F)
  pub total : ℕ

pub record LlmContextResponse (F : Type 0) : Type 0 where
  pub cycle_count : ℕ
  pub dominant_action : Text
  pub alert_rate : F
  pub cpu_trend : Text
  pub ram_trend : Text
  pub disk_trend : Text
  pub cpu_forecast : Text
  pub ram_forecast : Text
  pub disk_forecast : Text
  pub recent_alerts : List Text

-- What is encoded as JSON.
pub data Json (F : Type 0) : Type 0 where
  status_json : StatusResponse F → Json F
  history_json : HistoryResponse F → Json F
  agents_json : AgentStatusResponse → Json F
  toggle_json : ToggleResponse → Json F
  docker_json : DockerResponse → Json F
  logs_json : LogsStatusResponse F → Json F
  file_json : FileAgentResponse → Json F
  report_json : DailyReportResponse → Json F
  sent_json : SendReportResponse → Json F
  full_json : HistoryFullResponse F → Json F
  alerts_json : AlertsResponse F → Json F
  context_json : LlmContextResponse F → Json F

-- What is written to the connection.
pub data Body (F : Type 0) : Type 0 where
  empty : Body F
  encoded : Json F → Body F
  message : Text → Body F
  page : List ℕ → Body F
  static_file : Text → Body F

pub record Reply (F : Type 0) : Type 0 where
  pub status : ℕ
  pub headers : List (Text × Text)
  pub body : Body F

-- Header().Set: the one field of the name takes the value.
unfoldable pub set_header : Text → Text → List (Text × Text) → List (Text × Text)
unfolding text_eq
set_header name value [] = (name, value) ∷ []
set_header name value ((n, v) ∷ headers) =
    let rest = set_header name value headers in
    if text_eq n name then (name, value) ∷ headers else (n, v) ∷ rest

-- Header().Get, empty if the field is missing.
unfoldable pub header : Text → List (Text × Text) → Text
unfolding text_eq
header name [] = []
header name ((n, v) ∷ headers) =
    let rest = header name headers in if text_eq n name then v else rest

module _ {F : Type 0} where
  -- A reply under way: status 200 unless WriteHeader says otherwise.
  unfoldable pub set : Text → Text → Reply F → Reply F
  unfolding set_header
  set name value w = record w { headers = set_header name value w.headers }

  -- http.Error
  unfoldable pub http_error : Text → ℕ → Reply F → Reply F
  unfolding set
  http_error text code w =
      let w1 = set (codes "Content-Type") (codes "text/plain; charset=utf-8") w in
      let w2 = set (codes "X-Content-Type-Options") (codes "nosniff") w1 in
      record w2 { status = code; body = message text }

  unfoldable pub finished : Option Text → Json F → Reply F → Reply F
  unfolding http_error
  finished none v w = record w { body = encoded v }
  finished (some error) v w = http_error error 500 w

  -- `failure` is the error of encoding/json on what it cannot encode, as NaN.
  unfoldable pub write_json : (Json F → Option Text) → Json F → Reply F → Reply F
  unfolding set finished
  write_json failure v w =
      finished (failure v) v (set (codes "Content-Type") (codes "application/json") w)
