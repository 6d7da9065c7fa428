-- ===== src/Web/Changes/Toggle.antt =====
-- What handleAgentToggle of runtime/web/server.go does to the agents.
use jarvinx.Shared.{
  ◌≡◌, refl, ap, ◌∙◌, Bool, true, false, not, ◌&&◌, [], ◌∷◌, Option, none, some, Bool-cases, inl,
  inr, if◌then◌else◌,
}
use jarvinx.Shared.Float.{Float64}
use jarvinx.Shared.Text.{Text, codes, text_eq, text_eq→≡}
use jarvinx.Agents.Base
use jarvinx.Agents.Base.{BaseAgent}
use jarvinx.Agents.Registry.{Agent, base, on_base, get, system_agent, alert_agent, other_agent}
use jarvinx.Agents.Registry.Switch.{changed, find-change, find-change_other}
use jarvinx.Web.RateLimit.{TokenBucket, allow}
use jarvinx.Web.Server.{Server, World}
use jarvinx.Web.Responses.{Request, Reply}
use jarvinx.Web.Changes.{
  replied, toggle, switched, found_agent, decoded, decode_body, admitted_toggle,
  handle_agent_toggle,
}

-- The name that a decoded body gives is not empty and is this one.
abbrev pub asks : Option Text → Text → Bool
asks none name = false
asks (some []) name = false
asks (some (c ∷ s)) name = text_eq (c ∷ s) name

-- An agent after a toggle: it is enabled exactly if it was not.
abbrev pub negated : BaseAgent → BaseAgent
negated b = record b { enabled = not b.enabled }

module _ {F : Type 0} where
  unfoldable pub toggled : Option (Agent F) → Option (Agent F)
  unfolding on_base
  toggled none = none
  toggled (some a) = some (on_base negated a)

  toggle-negated : (a : Agent F) → on_base (toggle a) a ≡ on_base negated a
  unfolding toggle base on_base Base.enable Base.disable
  toggle-negated (system_agent a) = elim (Bool-cases a.base.enabled) [
    | inl on ↦ rw on refl
    | inr off ↦ rw off refl
  ]
  toggle-negated (alert_agent a) = elim (Bool-cases a.base.enabled) [
    | inl on ↦ rw on refl
    | inr off ↦ rw off refl
  ]
  toggle-negated (other_agent b) = elim (Bool-cases b.enabled) [
    | inl on ↦ rw on refl
    | inr off ↦ rw off refl
  ]

  toggle-name : (a : Agent F) (b : BaseAgent) → (toggle a b).name ≡ b.name
  unfolding toggle Base.enable Base.disable
  toggle-name a b = elim (Bool-cases (base a).enabled) [
    | inl on ↦ rw on refl
    | inr off ↦ rw off refl
  ]

  pub found_agent-get :
      (w : World F) (asked other : Text) (a : Option (Agent F)) (s : Server F) (reply : Reply F)
      → get asked s.registry ≡ a
      → get other (found_agent w asked a s reply).server.registry
        ≡ (if text_eq asked other then toggled (get other s.registry) else get other s.registry)
  unfolding found_agent replied switched get toggled
  found_agent-get w asked other none s reply here = elim (Bool-cases (text_eq asked other)) [
    | inl same ↦ rw (same, ← text_eq→≡ asked other same, here) refl
    | inr apart ↦ rw apart refl
  ]
  found_agent-get w asked other (some a) s reply here = elim (Bool-cases (text_eq asked other)) [
    | inl same ↦
        rw (same, ← text_eq→≡ asked other same, here)
          ((find-change (toggle a) asked s.registry.agents (toggle-name a)).0
            ∙ ap (changed (toggle a)) here
            ∙ ap some (toggle-negated a))
    | inr apart ↦
        rw (apart, find-change_other (toggle a) asked other s.registry.agents (toggle-name a) apart)
          refl
  ]

  decoded-get :
      (w : World F) (asked : Option Text) (other : Text) (s : Server F) (reply : Reply F)
      → get other (decoded w asked s reply).server.registry
        ≡ (if asks asked other then toggled (get other s.registry) else get other s.registry)
  unfolding decoded replied
  decoded-get w none other s reply = refl
  decoded-get w (some []) other s reply = refl
  decoded-get w (some (c ∷ name)) other s reply =
      found_agent-get w (c ∷ name) other (get (c ∷ name) s.registry) s reply refl

  admitted_toggle-get :
      (w : World F) (r : Request) (b : TokenBucket F × Bool) (other : Text) (s : Server F)
      (reply : Reply F)
      → get other (admitted_toggle w r b s reply).server.registry ≡ (
          if b.1 && asks (decode_body w r.body) other
          then toggled (get other s.registry)
          else get other s.registry)
  unfolding admitted_toggle replied
  admitted_toggle-get w r (bucket, false) other s reply = refl
  admitted_toggle-get w r (bucket, true) other s reply =
      decoded-get w (decode_body w r.body) other (record s { limit_toggle = bucket }) reply

  -- A request that handleAgentToggle acts on: a POST that the rate limiter lets through and whose body
  -- names this agent.
  unfoldable pub acts : ⦃fl : Float64 F⦄ → World F → Request → Server F → Text → Bool
  unfolding allow
  acts w r s name =
      text_eq r.method (codes "POST")
      && ((allow w.seconds w.now s.limit_toggle).1 && asks (decode_body w r.body) name)

  pub handle_agent_toggle-get :
      ⦃fl : Float64 F⦄ (w : World F) (r : Request) (other : Text) (s : Server F) (reply : Reply F)
      → get other (handle_agent_toggle w r s reply).server.registry
        ≡ (if acts w r s other then toggled (get other s.registry) else get other s.registry)
  unfolding handle_agent_toggle replied acts
  handle_agent_toggle-get w r other s reply = elim (Bool-cases (text_eq r.method (codes "POST"))) [
    | inl post ↦
        rw (post) (admitted_toggle-get w r (allow w.seconds w.now s.limit_toggle) other s reply)
    | inr other' ↦ rw other' refl
  ]
