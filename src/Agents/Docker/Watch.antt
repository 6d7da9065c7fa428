-- ===== src/Agents/Docker/Watch.antt =====
-- The alerts of runtime/agents/docker_agent.go from one run to the next.
use jarvinx.Shared.{
  ◌≡◌, refl, ◌∙◌, Bool, true, false, not, ◌&&◌, List, [], ◌∷◌, some, All, Bool-cases, inl, inr,
}
use jarvinx.Shared.Text.{Text, codes, text_eq, text_eq_refl, text_eq→≡}
use jarvinx.Tools.Docker.{ContainerState}
use jarvinx.Agents.Docker.{
  DockerAgent, was, is_seen, alerts_from, alerts_on, detect_changes, keep_states,
}

-- Containers of different names.
abbrev pub IsDistinct : List ContainerState → Type 0
IsDistinct [] = Unit
IsDistinct (c ∷ containers) =
    All (λ other. text_eq other.name c.name ≡ false) containers × IsDistinct containers

-- The flag of a container that ListContainers made: it tells of the state.
abbrev pub IsExitedAsSaid : ContainerState → Type 0
IsExitedAsSaid c = c.exited ≡ text_eq c.status (codes "exited")

-- What an agent knows of a container.
abbrev pub IsKnown : DockerAgent → ContainerState → Type 0
IsKnown a c = (a.prev_states c.name ≡ some c.status) × (a.prev_unhealthy c.name ≡ c.unhealthy)

keep_states-other :
    (containers : List ContainerState) (a : DockerAgent) (name : Text)
    → All (λ other. text_eq other.name name ≡ false) containers
    → ((keep_states containers a).prev_states name ≡ a.prev_states name)
      × ((keep_states containers a).prev_unhealthy name ≡ a.prev_unhealthy name)
unfolding keep_states
keep_states-other [] a name apart = (refl, refl)
keep_states-other (c ∷ containers) a name (differs, apart) =
    let kept = keep_states-other containers (keep_states (c ∷ []) a) name apart in
    (kept.0 ∙ rw differs refl, kept.1 ∙ rw differs refl)

keep_states-IsKnown :
    (containers : List ContainerState) (a : DockerAgent)
    → IsDistinct containers
    → All (IsKnown (keep_states containers a)) containers
unfolding keep_states
keep_states-IsKnown [] a d = tt
keep_states-IsKnown (c ∷ containers) a (fresh, d) =
    let kept = keep_states-other containers (keep_states (c ∷ []) a) c.name fresh in
    (
      (kept.0 ∙ rw (text_eq_refl c.name) refl, kept.1 ∙ rw (text_eq_refl c.name) refl),
      keep_states-IsKnown containers (keep_states (c ∷ []) a) d,
    )

not_stopped :
    (status : Text) → (text_eq status (codes "running") && text_eq status (codes "exited")) ≡ false
unfolding text_eq
not_stopped status = elim (Bool-cases (text_eq status (codes "running"))) [
  | inl running ↦ rw (text_eq→≡ status (codes "running") running) refl
  | inr other ↦ rw other refl
]

and_not : (b : Bool) → (b && not b) ≡ false
and_not true = refl
and_not false = refl

alerts_on-known :
    (a : DockerAgent) (c : ContainerState) → IsKnown a c → IsExitedAsSaid c → alerts_on a c ≡ []
unfolding alerts_on alerts_from was is_seen
alerts_on-known a c (state, health) said =
    rw (state, health, said, not_stopped c.status, and_not c.unhealthy) refl

detect_changes-known :
    (a : DockerAgent) (containers : List ContainerState)
    → All (IsKnown a) containers
    → All IsExitedAsSaid containers
    → detect_changes a containers ≡ []
unfolding detect_changes
detect_changes-known a [] known said = refl
detect_changes-known a (c ∷ containers) (k, known) (s, said) =
    rw (alerts_on-known a c k s, detect_changes-known a containers known said) refl

-- When the agent has surveyed some containers, of different names and as ListContainers makes them, and
-- surveys them again in the same states, it raises no alert.
pub detect_changes-keep_states :
    (a : DockerAgent) (containers : List ContainerState)
    → IsDistinct containers
    → All IsExitedAsSaid containers
    → detect_changes (keep_states containers a) containers ≡ []
detect_changes-keep_states a containers d said =
    detect_changes-known (keep_states containers a) containers (keep_states-IsKnown containers a d)
      said
