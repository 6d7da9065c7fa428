-- ===== src/Agents/Docker/Scenarios.antt =====
-- Runs of runtime/agents/docker_agent.go.
use jarvinx.Shared.{◌≡◌, refl, Bool, true, false, List, [], ◌∷◌}
use jarvinx.Shared.Int.{pos}
use jarvinx.Shared.Text.{Text, codes, text_eq}
use jarvinx.Tools.Docker.{ContainerState}
use jarvinx.Agents.Docker.{new_docker_agent, detect_changes, keep_states}
use jarvinx.Agents.Docker.Watch.{detect_changes-keep_states}

abbrev container : Text → Text → Bool → Bool → ContainerState
container name status running exited = record {
  id = codes "0123456789ab";
  name = name;
  image = codes "img";
  status = status;
  running = running;
  exited = exited;
  unhealthy = running;
  restart_count = pos 0;
  created_at = 0;
}

abbrev both : List ContainerState
both =
    container (codes "web") (codes "running") true false
    ∷ container (codes "db") (codes "exited") false true
    ∷ []

detect_changes-keep_states_example :
    detect_changes (keep_states both (new_docker_agent false [])) both ≡ []
unfolding text_eq
detect_changes-keep_states_example =
    detect_changes-keep_states (new_docker_agent false []) both ((refl, tt), (tt, tt))
      (refl, (refl, tt))
