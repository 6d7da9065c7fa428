-- ===== src/Agents/Registry/Switch.antt =====
-- Enable and Disable of runtime/agents/registry.go.
use jarvinx.Shared.{
  ◌≡◌, refl, ap, ◌∙◌, Bool, true, false, List, [], ◌∷◌, Option, none, some, Bool-cases, inl, inr,
}
use jarvinx.Shared.Text.{Text, text_eq, text_eq→≡}
use jarvinx.Agents.Base
use jarvinx.Agents.Base.{BaseAgent}
use jarvinx.Agents.Registry.{
  Agent, Registry, system_agent, alert_agent, other_agent, base, on_base, find, get, change, enable,
  disable,
}

module _ {F : Type 0} where
  -- What a search finds once a method was called on what it found before.
  abbrev pub changed : (BaseAgent → BaseAgent) → Option (Agent F) → Option (Agent F)
  unfolding on_base
  changed f none = none
  changed f (some a) = some (on_base f a)

  abbrev pub is_some : Option (Agent F) → Bool
  is_some none = false
  is_some (some a) = true

  pub on_base-name :
      (f : BaseAgent → BaseAgent) (a : Agent F)
      → ((b : BaseAgent) → (f b).name ≡ b.name)
      → (base (on_base f a)).name ≡ (base a).name
  unfolding base on_base
  on_base-name f (system_agent a) k = k a.base
  on_base-name f (alert_agent a) k = k a.base
  on_base-name f (other_agent b) k = k b

  pub find-change :
      (f : BaseAgent → BaseAgent) (name : Text) (agents : List (Agent F))
      → ((b : BaseAgent) → (f b).name ≡ b.name)
      → (find name (change f name agents).0 ≡ changed f (find name agents))
        × ((change f name agents).1 ≡ is_some (find name agents))
  unfolding find change
  find-change f name [] k = (refl, refl)
  find-change f name (a ∷ agents) k = elim (Bool-cases (text_eq (base a).name name)) [
    | inl here ↦ rw (here, on_base-name f a k, here) (refl, refl)
    | inr there ↦ rw (there, there) (find-change f name agents k)
  ]

  pub find-change_other :
      (f : BaseAgent → BaseAgent) (name other : Text) (agents : List (Agent F))
      → ((b : BaseAgent) → (f b).name ≡ b.name)
      → text_eq name other ≡ false
      → find other (change f name agents).0 ≡ find other agents
  unfolding find change
  find-change_other f name other [] k d = refl
  find-change_other f name other (a ∷ agents) k d = elim (Bool-cases (text_eq (base a).name name)) [
    | inl here ↦
        let missed : text_eq (base a).name other ≡ false =
          ap (λ s. text_eq s other) (text_eq→≡ (base a).name name here) ∙ d in
        rw (here, on_base-name f a k, missed) refl
    | inr there ↦ rw (there, find-change_other f name other agents k d) refl
  ]

  -- What a switch by name does to what Get finds: under that name, the agent that was found has been
  -- switched, and the answer is whether there was one; under any other name nothing changes.
  abbrev pub IsSwitched : (BaseAgent → BaseAgent) → Text → Registry F → Registry F × Bool → Type 0
  IsSwitched f name r after =
      (get name after.0 ≡ changed f (get name r))
      × (after.1 ≡ is_some (get name r))
      × ((other : Text) → text_eq name other ≡ false → get other after.0 ≡ get other r)

  -- Enable and Disable switch the agent that Get finds under the name, answer whether there was one, and
  -- leave what Get finds under every other name as it was.
  pub switches_lem :
      (name : Text) (r : Registry F)
      → IsSwitched Base.enable name r (enable name r)
        × IsSwitched Base.disable name r (disable name r)
  unfolding get enable disable Base.enable Base.disable
  switches_lem name r =
      let on = find-change Base.enable name r.agents (λ b. refl) in
      let off = find-change Base.disable name r.agents (λ b. refl) in
      (
        (on.0, on.1, λ other d. find-change_other Base.enable name other r.agents (λ b. refl) d),
        (off.0, off.1, λ other d. find-change_other Base.disable name other r.agents (λ b. refl) d),
      )
