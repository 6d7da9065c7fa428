-- ===== src/Web/Scenarios.antt =====
-- Runs of runtime/web/.
use jarvinx.Shared.{
  ℕ, ◌+◌, ◌*◌, ◌/◌, ◌≤◌, ◌≡◌, refl, arith, true, false, [], ◌∷◌, ◌++◌, none, some, if◌then◌else◌,
  length, last_of,
}
use jarvinx.Shared.Int.{pos}
use jarvinx.Shared.Clock.{second}
use jarvinx.Shared.Float.{thousandths}
use jarvinx.Shared.Scan.{scan_lines}
use jarvinx.Shared.Text.{Text, codes, text_eq}
use jarvinx.Config.{Config, default_config}
use jarvinx.Memory.Records.{CycleRecord, loaded, new_cycle_record}
use jarvinx.Memory.State.{State, add_cycle}
use jarvinx.Memory.State.Window.{add_all_cycles, numbered}
use jarvinx.Memory.Logger.{Logger}
use jarvinx.Tools.Docker.{unanswered}
use jarvinx.Agents.Base.{new_base_agent}
use jarvinx.Agents.Registry.{Registry, other_agent, new_registry, register, get}
use jarvinx.Web.RateLimit.{new_token_bucket, allow}
use jarvinx.Web.RateLimit.Pace.{answers, spaced, answers_lem}
use jarvinx.Web.Server.{Server, World, opened, new_server}
use jarvinx.Web.Responses.{
  Request, Reply, StoredAlert, empty, alerts_json, history_json, HistoryResponse, write_json,
}
use jarvinx.Web.Reads.{handle_history}
use jarvinx.Web.Reads.Newest.{handle_history-add_all_cycles}
use jarvinx.Web.Alerts.{limit_of, handle_alerts}
use jarvinx.Web.Alerts.Newest.{matching, newest, handle_alerts-newest}
use jarvinx.Web.Changes.{decode_body}
use jarvinx.Web.Changes.Toggle.{acts, toggled}
use jarvinx.Web.Middleware.Effects.{Finds, serve-get}
use jarvinx.Web.Middleware.{carries, is_allowed, serve}
use jarvinx.Web.Middleware.Access.{IsUntouched, serve-IsUntouched}
use jarvinx.Web.Middleware.Origins.{serve-Names}
use jarvinx.Web.Middleware.Origins.Handlers.{Names}
use mathlib.Core.List.{reverse}

abbrev an_alert : Text → StoredAlert ℕ
an_alert level = record {
  timestamp = 5;
  level = level;
  metric = codes "CPU";
  value = 95000;
  threshold = 85000;
  message = codes "CPU";
  cycles_above = pos 3;
}

-- Lines `w` and `c` hold a warning and a critical alert; a body is the name that it gives.
abbrev quiet_world : World ℕ
quiet_world = record {
  now = 100 * second;
  later = 100 * second;
  start_time = second;
  seconds = λ d. d / 1000000;
  fmt = record { fixed = λ n x. []; int = λ n. []; float = λ n. n * 1000 };
  order = λ counts. counts;
  local = record { hour = λ t. 8; minute = λ t. 0; weekday = λ t. 1; on_day = λ t h m. t };
  alert_file = opened (codes "w\nc\n?\nw\n");
  disk = record {
    stat_fails = λ l. false;
    archive_fails = λ l. false;
    open_fails = λ l. false;
    encode = λ snap. none;
  };
  docker_version = unanswered;
  docker_list = unanswered;
  unix = λ z. 0;
  parse_containers = λ text. none;
  decode_alert = λ line.
      if text_eq line (codes "w")
      then some (an_alert (codes "warning"))
      else if text_eq line (codes "c")
      then some (an_alert (codes "critical"))
      else none;
  decode_toggle = λ bytes more. some bytes;
  failure = λ v. none;
}

abbrev no_cycles : State ℕ
no_cycles = record {
  fields = record { version = pos 1; history = []; cycles = []; cycle_num = pos 0 };
  file = none;
  writable = true;
}

abbrev a_log : Logger
a_log = record {
  filepath = codes "alerts.jsonl";
  max_bytes = 1000;
  max_backups = 3;
  current = none;
  backups = λ i. none;
}

abbrev agents : Registry ℕ
unfolding register new_registry new_base_agent
agents = register (other_agent (new_base_agent (codes "file") 60)) new_registry

abbrev guarded_config : Config ℕ
unfolding default_config
guarded_config = record default_config { api_token = codes "secret" }

abbrev a_server : State ℕ → Server ℕ
unfolding new_server new_token_bucket
a_server state =
    new_server guarded_config state agents none (some a_log) none none none (pos 8080) none 0

abbrev a_request : Text → Text → Request
a_request method path = record {
  method = method;
  path = path;
  authorization = codes "Bearer guess";
  origin = codes "http://localhost:3000";
  level = codes "warning";
  limit = codes "1";
  range = [];
  body = codes "file";
}

abbrev blank : Reply ℕ
blank = record { status = 200; headers = []; body = empty }

serve-IsUntouched_example :
    IsUntouched
      (λ path. path)
      (a_server no_cycles)
      (serve
        (λ path. path)
        quiet_world
        (a_request (codes "POST") (codes "/api/agents/toggle"))
        (a_server no_cycles))
unfolding text_eq a_server guarded_config carries
serve-IsUntouched_example =
    serve-IsUntouched (λ path. path) quiet_world
      (a_request (codes "POST") (codes "/api/agents/toggle")) (a_server no_cycles) refl refl

serve-Names_example : Names (codes "http://localhost:3000") (
    serve
      (λ path. path)
      quiet_world
      (a_request (codes "GET") (codes "/api/status"))
      (a_server no_cycles))
unfolding is_allowed a_server guarded_config
serve-Names_example =
    serve-Names (λ path. path) quiet_world (a_request (codes "GET") (codes "/api/status"))
      (a_server no_cycles)

abbrev with_token : Request → Request
with_token r = record r { authorization = codes "Bearer secret" }

serve-get_example : Finds (codes "file") (toggled (get (codes "file") agents)) (
    serve
      (λ path. path)
      quiet_world
      (with_token (a_request (codes "POST") (codes "/api/agents/toggle")))
      (a_server no_cycles))
unfolding a_server agents get acts toggled text_eq allow decode_body guarded_config carries
serve-get_example =
    serve-get (λ path. path) (codes "file") quiet_world
      (with_token (a_request (codes "POST") (codes "/api/agents/toggle"))) (a_server no_cycles)

handle_alerts-newest_example :
    let r = a_request (codes "GET") (codes "/api/alerts") in
    let shown =
      newest
        (limit_of r.limit)
        (matching quiet_world.decode_alert r.level (scan_lines (codes "w\nc\n?\nw\n"))) in
    (handle_alerts quiet_world r (a_server no_cycles) blank
      ≡ write_json quiet_world.failure (alerts_json shown) blank)
    × (1 ≤ limit_of r.limit)
    × (length shown.alerts ≤ 500)
unfolding text_eq a_server
handle_alerts-newest_example =
    handle_alerts-newest quiet_world (a_request (codes "GET") (codes "/api/alerts"))
      (a_server no_cycles) blank a_log (codes "w\nc\n?\nw\n") refl refl refl

abbrev a_cycle : CycleRecord ℕ
unfolding new_cycle_record
a_cycle = new_cycle_record (loaded 10 20 30) (codes "log") (codes "ok") (codes "") (codes "")

handle_history-add_all_cycles_example :
    let shown : HistoryResponse ℕ = record {
      cycles =
          reverse (last_of 10 (no_cycles.fields.cycles ++ numbered 0 (a_cycle ∷ a_cycle ∷ [])));
      total = pos 2;
    } in
    handle_history quiet_world (a_server (add_all_cycles (a_cycle ∷ a_cycle ∷ []) no_cycles)) blank
    ≡ some (write_json quiet_world.failure (history_json shown) blank)
unfolding add_cycle a_server
handle_history-add_all_cycles_example =
    handle_history-add_all_cycles quiet_world
      (a_server (add_all_cycles (a_cycle ∷ a_cycle ∷ []) no_cycles)) blank 0
      (a_cycle ∷ a_cycle ∷ []) no_cycles refl refl (omega arith)

answers_lem_example :
    answers (new_token_bucket 0 second second) (second ∷ (second + 1) ∷ (2 * second) ∷ [])
    ≡ spaced none (second ∷ (second + 1) ∷ (2 * second) ∷ [])
answers_lem_example =
    answers_lem 0 (second ∷ (second + 1) ∷ (2 * second) ∷ [])
      (omega arith, (omega arith, (omega arith, tt)))
