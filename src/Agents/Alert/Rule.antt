-- ===== src/Agents/Alert/Rule.antt =====
-- When Analyze of runtime/agents/alert_agent.go raises an alert.
use jarvinx.Shared.{
  ℕ, suc, ◌+◌, ◌<◌, ◌≡◌, refl, ap, sym, ◌∙◌, Bool, false, ◌&&◌, ◌||◌, List, [], ◌∷◌, map, arith,
  if◌then◌else◌, Bool-cases, inl, inr, length,
}
use jarvinx.Shared.Int.{pos, negsuc, inc, inc-pos, ◌-ℤ◌, leb_ℤ, two63}
use jarvinx.Shared.Float.{Float64}
use jarvinx.Shared.Text.{Text, text_eq}
use jarvinx.Memory.Records.{Snapshot}
use jarvinx.Agents.Records.{Alert}
use mathlib.Core.Path.{subst}
use jarvinx.Agents.Alert.{
  AlertState, AlertAgent, cpu_metric, ram_metric, disk_metric, Tracker, sustained, cpu_above,
  ram_above, disk_above, analyze, after,
}
use jarvinx.Agents.Alert.Track.{
  leading, IsSpaced, IsBelow, last_cycle, rule, sustained_lem, rule-IsSpaced,
}

module _ {F : Type 0} where
  abbrev pub has_metric : Text → List (Alert F) → Bool
  has_metric m [] = false
  has_metric m (x ∷ xs) = text_eq x.metric m || has_metric m xs

  module _ ⦃fl : Float64 F⦄ where
    -- Whether the analysis of a snapshot raises an alert for the metric.
    abbrev pub emits : Text → Snapshot F → AlertAgent F → Bool
    emits m x a = has_metric m (analyze x a).1

    -- The cycles in which it did, newest first.
    abbrev pub alert_cycles : Text → AlertAgent F → List (Snapshot F) → List ℕ
    alert_cycles m a [] = []
    alert_cycles m a (x ∷ h) =
        let rest = alert_cycles m a h in
        if emits m x (after h a) then (length h + 1) ∷ rest else rest

    unfoldable pub cpu_tracker : AlertAgent F → Tracker
    cpu_tracker a = record { cycles = a.state.cpu_cycles; last_alert = a.state.last_alert_cpu }

    unfoldable pub ram_tracker : AlertAgent F → Tracker
    ram_tracker a = record { cycles = a.state.ram_cycles; last_alert = a.state.last_alert_ram }

    pub step_cpu :
        (x : Snapshot F) (a : AlertAgent F)
        → let (t, fires) =
            sustained
              (cpu_above a x)
              a.min_cycles
              a.cooldown
              (inc a.state.current_cycle)
              (cpu_tracker a) in
          (emits cpu_metric x a ≡ fires) × (cpu_tracker (analyze x a).0 ≡ t)
    unfolding analyze text_eq cpu_tracker
    step_cpu x a = ground arith

    pub step_ram :
        (x : Snapshot F) (a : AlertAgent F)
        → let (t, fires) =
            sustained
              (ram_above a x)
              a.min_cycles
              a.cooldown
              (inc a.state.current_cycle)
              (ram_tracker a) in
          (emits ram_metric x a ≡ fires) × (ram_tracker (analyze x a).0 ≡ t)
    unfolding analyze text_eq ram_tracker
    step_ram x a = ground arith

    step_disk :
        (x : Snapshot F) (a : AlertAgent F)
        → (emits disk_metric x a
            ≡ disk_above a x
              && leb_ℤ a.cooldown (inc a.state.current_cycle -ℤ a.state.last_alert_dsk))
          × ((analyze x a).0.state.last_alert_dsk ≡ (
              if emits disk_metric x a then inc a.state.current_cycle else a.state.last_alert_dsk))
    unfolding analyze text_eq
    step_disk x a = ground arith

    -- Analyze changes the state alone, and counts the cycle.
    step_rest :
        (x : Snapshot F) (a : AlertAgent F)
        → ((analyze x a).0.state.current_cycle ≡ inc a.state.current_cycle)
          × ((analyze x a).0 ≡ record a { state = (analyze x a).0.state })
    unfolding analyze
    step_rest x a = (ground arith, refl)

    after_config :
        (h : List (Snapshot F)) (a : AlertAgent F)
        → after h a ≡ record a { state = (after h a).state }
    unfolding after
    after_config [] a = refl
    after_config (x ∷ h) a =
        (step_rest x (after h a)).1
        ∙ ap {A = AlertAgent F} (λ b. record b { state = (analyze x (after h a)).0.state })
            (after_config h a)

    -- What Analyze does for one sustained metric.
    module _ (m : Text) (above : AlertAgent F → Snapshot F → Bool)
        (tracker : AlertAgent F → Tracker)
        (steady : (a : AlertAgent F) (s : AlertState) → above (record a { state = s }) ≡ above a)
        (step : (x : Snapshot F) (a : AlertAgent F)
          → let (t, fires) =
              sustained
                (above a x)
                a.min_cycles
                a.cooldown
                (inc a.state.current_cycle)
                (tracker a) in
            (emits m x a ≡ fires) × (tracker (analyze x a).0 ≡ t))
        (a : AlertAgent F) (start : a.state.current_cycle ≡ pos 0)
        (zero_start : tracker a ≡ record { cycles = pos 0; last_alert = negsuc 998 }) where
      -- The agent has followed the history.
      record Follows (h : List (Snapshot F)) : Type 0 where
        current : (after h a).state.current_cycle ≡ pos (length h)
        cycles : (tracker (after h a)).cycles ≡ pos (leading (map (above a) h))
        last_alert : (tracker (after h a)).last_alert ≡ last_cycle (alert_cycles m a h)
        below : IsBelow (length h) (alert_cycles m a h)
        spaced : IsSpaced a.cooldown (alert_cycles m a h)

      length-map : (h : List (Snapshot F)) → length (map (above a) h) ≡ length h
      length-map [] = refl
      length-map (x ∷ h) = ap suc (length-map h)

      -- One more snapshot.
      cycle_lem :
          (x : Snapshot F) (h : List (Snapshot F))
          → length h + 1 + 999 < two63
          → Follows h
          → (emits m x (after h a)
              ≡ rule a.min_cycles a.cooldown (above a x) (map (above a) h) (alert_cycles m a h))
            × ((tracker (after (x ∷ h) a)).cycles ≡ pos (leading (map (above a) (x ∷ h))))
            × ((tracker (after (x ∷ h) a)).last_alert ≡ last_cycle (alert_cycles m a (x ∷ h)))
      unfolding after
      cycle_lem x h l v =
          let b = after h a in
          let same_above : above b x ≡ above a x =
            ap (λ c. above c x) (after_config h a) ∙ ap (λ f. f x) (steady a b.state) in
          let same_min : b.min_cycles ≡ a.min_cycles = ap (λ c. c.min_cycles) (after_config h a) in
          let same_cooldown : b.cooldown ≡ a.cooldown = ap (λ c. c.cooldown) (after_config h a) in
          let counted : inc b.state.current_cycle ≡ pos (length (map (above a) h) + 1) =
            rw (v.current, length-map h) (inc-pos (length h) (omega arith)) in
          let lem =
            sustained_lem a.min_cycles a.cooldown (above a x) (map (above a) h) (alert_cycles m a h)
              (tracker b) (rw (length-map h) l) (rw (length-map h) v.below) v.cycles v.last_alert in
          let facts = step x b in
          let taken : sustained (above b x) b.min_cycles b.cooldown (inc b.state.current_cycle)
                (tracker b)
              ≡ sustained (above a x) a.min_cycles a.cooldown (pos (length (map (above a) h) + 1))
                  (tracker b) =
            cc (same_above, same_min, same_cooldown, counted) in
          let fires = facts.0 ∙ ap (λ r. r.1) taken in
          (
            fires ∙ lem.0,
            ap (λ t. t.cycles) (facts.1 ∙ ap (λ r. r.0) taken) ∙ lem.1,
            ap (λ t. t.last_alert) (facts.1 ∙ ap (λ r. r.0) taken) ∙ lem.2 ∙ (λ i. last_cycle (
                if sym fires i
                then (length-map h i + 1) ∷ alert_cycles m a h
                else alert_cycles m a h)),
          )

      next_current :
          (x : Snapshot F) (h : List (Snapshot F))
          → length h + 1 < two63
          → Follows h
          → (after (x ∷ h) a).state.current_cycle ≡ pos (length (x ∷ h))
      unfolding after
      next_current x h l v =
          (step_rest x (after h a)).0 ∙ rw v.current (inc-pos (length h) l ∙ ap pos (omega arith))

      next-IsBelow :
          (x : Snapshot F) (h : List (Snapshot F))
          → Follows h
          → IsBelow (length (x ∷ h)) (alert_cycles m a (x ∷ h))
      next-IsBelow x h v = elim (Bool-cases (emits m x (after h a))) [
        | inl fires ↦ rw fires (omega arith)
        | inr silent ↦ rw silent (below_weak (alert_cycles m a h) v.below)
      ]
        where
          below_weak : (ms : List ℕ) → IsBelow (length h) ms → IsBelow (suc (length h)) ms
          below_weak [] b = tt
          below_weak (n ∷ ms) b = omega arith

      next-IsSpaced :
          (x : Snapshot F) (h : List (Snapshot F))
          → length h + 1 + 999 < two63
          → Follows h
          → IsSpaced a.cooldown (alert_cycles m a (x ∷ h))
      next-IsSpaced x h l v = elim (Bool-cases (emits m x (after h a))) [
        | inl fires ↦ rw fires (
            subst (λ k. IsSpaced a.cooldown ((k + 1) ∷ alert_cycles m a h)) (length-map h)
              (rule-IsSpaced a.min_cycles a.cooldown (above a x) (map (above a) h)
                (alert_cycles m a h) (sym (cycle_lem x h l v).0 ∙ fires) (rw (length-map h) v.below)
                v.spaced))
        | inr silent ↦ rw silent v.spaced
      ]

      follows : (h : List (Snapshot F)) → length h + 999 < two63 → Follows h
      unfolding after
      follows [] l = record {
        current = start;
        cycles = ap (λ t. t.cycles) zero_start;
        last_alert = ap (λ t. t.last_alert) zero_start;
        below = tt;
        spaced = tt;
      }
      follows (x ∷ h) l =
          let v = follows h (omega arith) in
          let c = cycle_lem x h (omega arith) v in
          record {
            current = next_current x h (omega arith) v;
            cycles = c.1;
            last_alert = c.2;
            below = next-IsBelow x h v;
            spaced = next-IsSpaced x h (omega arith) v;
          }

      pub metric_rule :
          (x : Snapshot F) (h : List (Snapshot F))
          → length h + 1000 < two63
          → (emits m x (after h a)
              ≡ rule a.min_cycles a.cooldown (above a x) (map (above a) h) (alert_cycles m a h))
            × IsSpaced a.cooldown (alert_cycles m a (x ∷ h))
      metric_rule x h l =
          let v = follows h (omega arith) in
          ((cycle_lem x h (omega arith) v).0, next-IsSpaced x h (omega arith) v)
