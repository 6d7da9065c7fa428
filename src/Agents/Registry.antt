-- ===== src/Agents/Registry.antt =====
-- runtime/agents/registry.go. An agent is known by what all agents share; those that are modelled keep
-- their own state as well. A change of an agent goes through the pointer in the list, so it is a change
-- of the list.
pub mod Switch
use jarvinx.Shared.{Bool, true, false, List, [], ◌∷◌, ◌++◌, map, Option, none, some, if◌then◌else◌}
use jarvinx.Shared.Text.{Text, text_eq}
use jarvinx.Llm.Breaker.{CircuitStats}
use jarvinx.Llm.Ollama.{circuit_stats}
use jarvinx.Agents.Base
use jarvinx.Agents.Base.{BaseAgent, AgentStatus}
use jarvinx.Agents.Alert.{AlertAgent}
use jarvinx.Agents.System.{SystemAgent}

-- The implementations of the interface `Agent`.
pub data Agent (F : Type 0) : Type 0 where
  system_agent : SystemAgent F → Agent F
  alert_agent : AlertAgent F → Agent F
  other_agent : BaseAgent → Agent F

pub record Registry (F : Type 0) : Type 0 where
  pub agents : List (Agent F)

module _ {F : Type 0} where
  unfoldable pub base : Agent F → BaseAgent
  base (system_agent a) = a.base
  base (alert_agent a) = a.base
  base (other_agent b) = b

  -- A method of the embedded BaseAgent.
  unfoldable pub on_base : (BaseAgent → BaseAgent) → Agent F → Agent F
  on_base f (system_agent a) = system_agent (record a { base = f a.base })
  on_base f (alert_agent a) = alert_agent (record a { base = f a.base })
  on_base f (other_agent b) = other_agent (f b)

  unfoldable pub new_registry : Registry F
  new_registry = record { agents = [] }

  unfoldable pub register : Agent F → Registry F → Registry F
  register a r = record r { agents = r.agents ++ a ∷ [] }

  unfoldable pub find : Text → List (Agent F) → Option (Agent F)
  unfolding text_eq base
  find name [] = none
  find name (a ∷ agents) = if text_eq (base a).name name then some a else find name agents

  unfoldable pub get : Text → Registry F → Option (Agent F)
  unfolding find
  get name r = find name r.agents

  -- Get, and a method of the agent that it finds.
  unfoldable pub change : (BaseAgent → BaseAgent) → Text → List (Agent F) → List (Agent F) × Bool
  unfolding text_eq base on_base
  change f name [] = ([], false)
  change f name (a ∷ agents) =
      let (rest, found) = change f name agents in
      if text_eq (base a).name name then (on_base f a ∷ agents, true) else (a ∷ rest, found)

  unfoldable pub enable : Text → Registry F → Registry F × Bool
  unfolding change Base.enable
  enable name r =
      let (agents, found) = change Base.enable name r.agents in
      (record r { agents = agents }, found)

  unfoldable pub disable : Text → Registry F → Registry F × Bool
  unfolding change Base.disable
  disable name r =
      let (agents, found) = change Base.disable name r.agents in
      (record r { agents = agents }, found)

  unfoldable pub statuses : Registry F → List AgentStatus
  unfolding base Base.status
  statuses r = map (λ a. Base.status (base a)) r.agents

  stats_of : List (Agent F) → Option CircuitStats
  unfolding circuit_stats
  stats_of [] = none
  stats_of (system_agent a ∷ agents) = some (circuit_stats a.client)
  stats_of (_ ∷ agents) = stats_of agents

  unfoldable pub registry_circuit_stats : Registry F → Option CircuitStats
  unfolding stats_of
  registry_circuit_stats r = stats_of r.agents
