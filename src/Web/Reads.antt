-- ===== src/Web/Reads.antt =====
-- The handlers of runtime/web/server.go that only read. `none` is a panic, which net/http recovers from.
pub mod Past
pub mod Newest
use jarvinx.Shared.{
  ℕ, suc, ◌+◌, ◌*◌, ◌/◌, ◌%◌, Bool, true, false, List, [], ◌∷◌, ◌++◌, Option, none, some, ltb, ◌==◌,
  if◌then◌else◌, length, reverse_in_place, ◌>>=◌,
}
use jarvinx.Shared.Int.{ℤ, pos}
use jarvinx.Shared.Clock.{Time, Duration, second, since}
use jarvinx.Shared.Float.{Float64}
use jarvinx.Shared.Text.{Text, codes, text_eq}
use jarvinx.Memory.Records.{CycleRecord}
use jarvinx.Memory.State.{last, last_cycles}
use jarvinx.Memory.Store.{HistoryReader}
use jarvinx.Memory.Logger.{Logger, Disk}
use jarvinx.Memory.Logger.Status.{LogStatus, log_status}
use jarvinx.Llm.Breaker.{CircuitStats}
use jarvinx.Llm.Context.{Format}
use jarvinx.Llm.Context.Prompt.{build_adaptive_context}
use jarvinx.Tools.Docker.{ContainerState, DockerError, docker_available, list_containers}
use jarvinx.Tools.Shell.{CommandResult}
use jarvinx.Agents.Base
use jarvinx.Agents.Base.{AgentStatus}
use jarvinx.Agents.Registry.{Agent, base, get, statuses, registry_circuit_stats}
use jarvinx.Agents.DailyReport.{DailyReporter}
use jarvinx.Core.Orchestrator.{ExecuteGuard, exec_guard_status, last_exec_result_status}
use jarvinx.Web.Server.{Server, World}
use jarvinx.Web.Responses.{
  Request, Reply, Json, GuardStatus, ExecLastResult, StatusResponse, DockerResponse,
  FileAgentResponse, HistoryResponse, HistoryFullResponse, status_json, history_json, agents_json,
  docker_json, logs_json, file_json, report_json, full_json, context_json, page, http_error,
  write_json, set,
}

-- int(d.Hours()) and the like are taken as whole divisions.
unfoldable pub format_uptime : (ℕ → Text) → Duration → Text
format_uptime int d =
    let h = d / (3600 * second) in
    let m = d / (60 * second) % 60 in
    let s = d / second % 60 in
    if ltb 0 h
    then int h ++ codes "h " ++ int m ++ codes "m " ++ int s ++ codes "s"
    else int m ++ codes "m " ++ int s ++ codes "s"

unfoldable pub circuit_name : Option CircuitStats → Text
circuit_name none = codes "unknown"
circuit_name (some stats) = stats.state_name

-- The first cycle, if there is one.
unfoldable pub first_cycle : {F : Type 0} → List (CycleRecord F) → Option (CycleRecord F)
first_cycle [] = none
first_cycle (c ∷ cycles) = some c

unfoldable pub time_if_set : Time → Option Time
time_if_set t = if t == 0 then none else some t

-- The loop that counts the containers which a field tells apart.
count_containers : (ContainerState → Bool) → List ContainerState → ℕ
count_containers test [] = 0
count_containers test (c ∷ containers) =
    let rest = count_containers test containers in if test c then suc rest else rest

unfoldable pub docker_part : List ContainerState × Option DockerError → DockerResponse
unfolding count_containers
docker_part (containers, none) = record {
  available = true;
  containers = containers;
  total = length containers;
  running = count_containers (λ c. c.running) containers;
  exited = count_containers (λ c. c.exited) containers;
}
docker_part (containers, some error) = record {
  available = true;
  containers = [];
  total = 0;
  running = 0;
  exited = 0;
}

module _ {F : Type 0} ⦃fl : Float64 F⦄ where
  unfoldable pub guard_part : World F → Option ExecuteGuard → GuardStatus F
  unfolding exec_guard_status
  guard_part w none = record { last_cmd = []; cooldown_remaining_seconds = fl.decimal 0 0 }
  guard_part w (some g) =
      let (last_cmd, remaining) = exec_guard_status w.later g in
      record { last_cmd = last_cmd; cooldown_remaining_seconds = w.seconds remaining }

  shown_result : World F → Option CommandResult → Option (ExecLastResult F)
  shown_result w none = none
  shown_result w (some r) = some (record {
    command = r.command;
    output = r.output;
    error = r.error;
    success = r.success;
    duration_ms = w.fmt.float (r.duration / 1000000);
    timed_out = r.timed_out;
  })

  unfoldable pub result_part : World F → Option ExecuteGuard → Option (ExecLastResult F)
  unfolding last_exec_result_status shown_result
  result_part w none = none
  result_part w (some g) = shown_result w (last_exec_result_status g)

  unfoldable pub status_response : World F → Server F → List (CycleRecord F) → StatusResponse F
  unfolding format_uptime registry_circuit_stats circuit_name first_cycle guard_part result_part
  status_response w s cycles = record {
    online = true;
    model = s.cfg.model;
    interval = s.cfg.interval;
    cycle_num = s.state.fields.cycle_num;
    uptime = format_uptime w.fmt.int (since w.now w.start_time);
    dry_run = s.cfg.dry_run;
    circuit_state = circuit_name (registry_circuit_stats s.registry);
    last_cycle = first_cycle cycles;
    exec_guard = guard_part w s.exec_guard;
    last_exec_result = result_part w s.exec_guard;
  }

  unfoldable pub handle_status : World F → Server F → Reply F → Option (Reply F)
  unfolding last_cycles status_response write_json
  handle_status w s reply = do
    cycles ← last_cycles (pos 1) s.state
    some (write_json w.failure (status_json (status_response w s cycles)) reply)

  unfoldable pub history_response : Server F → List (CycleRecord F) → HistoryResponse F
  history_response s cycles = record {
    cycles = reverse_in_place cycles;
    total = s.state.fields.cycle_num;
  }

  unfoldable pub handle_history : World F → Server F → Reply F → Option (Reply F)
  unfolding last_cycles history_response write_json
  handle_history w s reply = do
    cycles ← last_cycles (pos 10) s.state
    some (write_json w.failure (history_json (history_response s cycles)) reply)

  unfoldable pub handle_agents : World F → Server F → Reply F → Reply F
  unfolding statuses write_json
  handle_agents w s reply =
      let all = statuses s.registry in
      write_json w.failure (agents_json (record { agents = all; total = length all })) reply

  unfoldable pub file_part : Option (Agent F) → Server F → FileAgentResponse
  unfolding base Base.status time_if_set
  file_part none s = record {
    enabled = false;
    watch_paths = s.cfg.file_watch_paths;
    max_size_mb = s.cfg.file_max_size_mb;
    last_run = none;
    run_count = pos 0;
    alert_count = pos 0;
    last_error = [];
  }
  file_part (some a) s =
      let status = Base.status (base a) in
      record {
        enabled = status.enabled;
        watch_paths = s.cfg.file_watch_paths;
        max_size_mb = s.cfg.file_max_size_mb;
        last_run = time_if_set status.last_run;
        run_count = status.run_count;
        alert_count = status.alert_count;
        last_error = status.last_error;
      }

  unfoldable pub handle_file : World F → Server F → Reply F → Reply F
  unfolding file_part get write_json
  handle_file w s reply =
      write_json w.failure (file_json (file_part (get (codes "file") s.registry) s)) reply

  unfoldable pub index_part : Option (List ℕ) → Reply F → Reply F
  unfolding http_error set
  index_part none reply = http_error (codes "404 page not found") 404 reply
  index_part (some bytes) reply =
      let typed = set (codes "Content-Type") (codes "text/html; charset=utf-8") reply in
      record typed { body = page bytes }

  unfoldable pub handle_index : Server F → Reply F → Reply F
  unfolding index_part
  handle_index s reply = index_part s.index reply

  unfoldable pub status_of : World F → Option Logger → Option (LogStatus F)
  unfolding log_status
  status_of w none = none
  status_of w (some l) = some (log_status w.fmt.float w.disk l)

  unfoldable pub handle_logs_status : World F → Server F → Reply F → Reply F
  unfolding status_of write_json
  handle_logs_status w s reply =
      write_json w.failure
        (logs_json
          (record { main_log = status_of w s.main_logger; alert_log = status_of w s.alert_logger }))
        reply

  -- The part after the daemon has answered.
  unfoldable pub docker_listing : World F → Reply F → Option (Reply F)
  unfolding list_containers docker_part write_json
  docker_listing w reply = do
    answer ← list_containers w.unix w.parse_containers w.docker_list
    some (write_json w.failure (docker_json (docker_part answer)) reply)

  unfoldable pub handle_docker : World F → Reply F → Option (Reply F)
  unfolding docker_available docker_listing write_json
  handle_docker w reply =
      let absent : DockerResponse = record {
        available = false;
        containers = [];
        total = 0;
        running = 0;
        exited = 0;
      } in
      if docker_available w.docker_version
      then docker_listing w reply
      else some (write_json w.failure (docker_json absent) reply)
