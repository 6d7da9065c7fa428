-- ===== src/Agents/Docker.antt =====
-- runtime/agents/docker_agent.go. The maps of the agent are functions. What a run logs besides its
-- alerts is not kept. `strings.EqualFold` is a parameter.
pub mod Watch
mod Scenarios
use jarvinx.Shared.{
  ℕ, suc, ◌*◌, Bool, true, false, not, ◌&&◌, ◌||◌, List, [], ◌∷◌, ◌++◌, Option, none, some,
  if◌then◌else◌,
}
use jarvinx.Shared.Clock.{Time, second}
use jarvinx.Shared.Text.{Text, codes, text_eq}
use jarvinx.Tools.Docker.{
  ContainerState, RawContainer, DockerAnswer, DockerError, docker_available, list_containers,
}
use jarvinx.Agents.Base
use jarvinx.Agents.Base.{BaseAgent}
use jarvinx.Shared.Int.{ℤ}

pub record DockerAgent : Type 0 where
  pub base : BaseAgent
  pub dry_run : Bool
  pub watch_list : List Text
  pub prev_states : Text → Option Text
  pub prev_unhealthy : Text → Bool

unfoldable pub new_docker_agent : Bool → List Text → DockerAgent
unfolding Base.new_base_agent
new_docker_agent dry_run watch_list = record {
  base = Base.new_base_agent (codes "docker") (30 * second);
  dry_run = dry_run;
  watch_list = watch_list;
  prev_states = λ name. none;
  prev_unhealthy = λ name. false;
}

-- An alert keeps the name and the image of its container.
pub data DockerAlert : Type 0 where
  found_exited : (name image : Text) → DockerAlert
  just_stopped : (name image : Text) → DockerAlert
  is_unhealthy : (name image : Text) → DockerAlert

-- The state that a container was in, if it was seen in that state.
unfoldable pub was : Text → Option Text → Bool
unfolding text_eq
was state none = false
was state (some prev) = text_eq prev state

unfoldable pub is_seen : Option Text → Bool
is_seen none = false
is_seen (some prev) = true

-- One turn of the loop of detectChanges: the alerts on one container, by what was kept of it.
unfoldable pub alerts_from : Option Text → Bool → ContainerState → List DockerAlert
unfolding was is_seen
alerts_from prev prev_unhealthy c =
    let stopped =
      if was (codes "running") prev && c.exited then just_stopped c.name c.image ∷ [] else [] in
    let sick = if c.unhealthy && not prev_unhealthy then is_unhealthy c.name c.image ∷ [] else [] in
    if not (is_seen prev) && c.exited then found_exited c.name c.image ∷ [] else stopped ++ sick

unfoldable pub alerts_on : DockerAgent → ContainerState → List DockerAlert
unfolding alerts_from
alerts_on a c = alerts_from (a.prev_states c.name) (a.prev_unhealthy c.name) c

unfoldable pub detect_changes : DockerAgent → List ContainerState → List DockerAlert
unfolding alerts_on
detect_changes a [] = []
detect_changes a (c ∷ containers) = alerts_on a c ++ detect_changes a containers

-- The loop that keeps the states for the next run.
unfoldable pub keep_states : List ContainerState → DockerAgent → DockerAgent
unfolding text_eq
keep_states [] a = a
keep_states (c ∷ containers) a = keep_states containers (record a {
  prev_states = λ name. if text_eq c.name name then some c.status else a.prev_states name;
  prev_unhealthy = λ name. if text_eq c.name name then c.unhealthy else a.prev_unhealthy name;
})

count_run : Time → List DockerAlert → BaseAgent → BaseAgent
unfolding Base.record_success Base.record_alert
count_run now [] b = Base.record_success now b
count_run now (_ ∷ _) b = Base.record_alert now b

pub record Ran : Type 0 where
  pub agent : DockerAgent
  pub error : Option DockerError
  pub alerts : List DockerAlert

module _ (equal_fold : Text → Text → Bool) where
  is_watched : List Text → ContainerState → Bool
  is_watched [] c = false
  is_watched (w ∷ watch_list) c = equal_fold c.name w || is_watched watch_list c

  unfoldable pub filter_watch_list : List Text → List ContainerState → List ContainerState
  unfolding is_watched
  filter_watch_list watch_list [] = []
  filter_watch_list watch_list (c ∷ containers) =
      let rest = filter_watch_list watch_list containers in
      if is_watched watch_list c then c ∷ rest else rest

  unfoldable pub watched : List Text → List ContainerState → List ContainerState
  unfolding filter_watch_list
  watched [] containers = containers
  watched (w ∷ watch_list) containers = filter_watch_list (w ∷ watch_list) containers

  -- The part of Run after the containers were listed.
  unfoldable pub survey : Time → List ContainerState → DockerAgent → DockerAgent × List DockerAlert
  unfolding watched detect_changes keep_states count_run
  survey now containers a =
      let watched' = watched a.watch_list containers in
      let alerts = detect_changes a watched' in
      let kept = keep_states watched' a in
      (record kept { base = count_run now alerts kept.base }, alerts)

  ran : Time → List ContainerState × Option DockerError → DockerAgent → (DockerError → Text) → Ran
  unfolding survey Base.record_error
  ran now (containers, none) a describe =
      let (a', alerts) = survey now containers a in
      record { agent = a'; error = none; alerts = alerts }
  ran now (containers, some error) a describe = record {
    agent = record a { base = Base.record_error now (describe error) a.base };
    error = some error;
    alerts = [];
  }

  module _ (unix : ℤ → Time) (parse : Text → Option (List RawContainer)) where
    -- The daemon is asked for its version, and if it answers, for its containers. `none` is a panic.
    unfoldable pub run :
        Time → DockerAnswer → DockerAnswer → (DockerError → Text) → DockerAgent → Option Ran
    unfolding docker_available list_containers ran Base.record_success
    run now version listing describe a =
        if not (docker_available version)
        then some (record {
          agent = record a { base = Base.record_success now a.base };
          error = none;
          alerts = [];
        })
        else elim (list_containers unix parse listing) [
          | none ↦ none
          | some answer ↦ some (ran now answer a describe)
        ]

-- The counts by status that a run logs.
unfoldable pub count_by_status : Text → List ContainerState → ℕ
unfolding text_eq
count_by_status status [] = 0
count_by_status status (c ∷ containers) =
    let rest = count_by_status status containers in
    if text_eq c.status status then suc rest else rest
