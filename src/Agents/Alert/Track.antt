-- ===== src/Agents/Alert/Track.antt =====
-- The counters of one sustained metric in runtime/agents/alert_agent.go, against its history.
use jarvinx.Shared.{
  ℕ, suc, ◌+◌, ◌-◌, ◌≤◌, ◌<◌, ◌≡◌, Bool, true, false, ◌&&◌, List, [], ◌∷◌, arith, if◌then◌else◌,
  length,
}
use jarvinx.Shared.Int.{ℤ, pos, negsuc, inc-pos, ◌-ℤ◌, leb_ℤ, ◌≤ℤ◌, two63}
use jarvinx.Agents.Alert.{Tracker, sustained}

-- For how many cycles the metric has been above its threshold without a break: histories are
-- newest first.
abbrev pub leading : List Bool → ℕ
leading [] = 0
leading (true ∷ h) = suc (leading h)
leading (false ∷ h) = 0

-- The cycles since the last alert, for the cycles of the alerts, newest first. The agent starts as
-- if it had raised one 999 cycles before the first.
abbrev pub elapsed : ℕ → List ℕ → ℕ
elapsed n [] = n + 999
elapsed n (m ∷ _) = n - m

-- Consecutive alerts are at least the cooldown apart.
abbrev pub IsSpaced : ℤ → List ℕ → Type 0
IsSpaced cooldown [] = Unit {0}
IsSpaced cooldown (n ∷ []) = Unit {0}
IsSpaced cooldown (n ∷ m ∷ ms) = (m < n) × (cooldown ≤ℤ pos (n - m)) × IsSpaced cooldown (m ∷ ms)

abbrev pub last_cycle : List ℕ → ℤ
last_cycle [] = negsuc 998
last_cycle (n ∷ _) = pos n

abbrev pub IsBelow : ℕ → List ℕ → Type 0
IsBelow n [] = Unit {0}
IsBelow n (m ∷ _) = m ≤ n

-- Cycle n of the agent, with `b` telling whether the metric is above.
module _ (min_cycles cooldown : ℤ) where
  abbrev pub rule : Bool → List Bool → List ℕ → Bool
  rule b h ms =
      b
      && leb_ℤ min_cycles (pos (leading (b ∷ h)))
      && leb_ℤ cooldown (pos (elapsed (length h + 1) ms))

  elapsed_lem :
      (n : ℕ) (ms : List ℕ)
      → n + 1 + 999 < two63
      → IsBelow n ms
      → pos (n + 1) -ℤ last_cycle ms ≡ pos (elapsed (n + 1) ms)
  unfolding ◌-ℤ◌
  elapsed_lem n [] h b = ground arith
  elapsed_lem n (m ∷ ms) h b = ground arith

  leading-le : (h : List Bool) → leading h ≤ length h
  leading-le [] = omega arith
  leading-le (true ∷ h) = omega (arith, leading-le h)
  leading-le (false ∷ h) = omega arith

  -- One cycle: the test is the rule, and the counters stay those of the history.
  pub sustained_lem :
      (b : Bool) (h : List Bool) (ms : List ℕ) (t : Tracker)
      → length h + 1 + 999 < two63
      → IsBelow (length h) ms
      → t.cycles ≡ pos (leading h)
      → t.last_alert ≡ last_cycle ms
      → let (t', fires) = sustained b min_cycles cooldown (pos (length h + 1)) t in
        (fires ≡ rule b h ms)
        × (t'.cycles ≡ pos (leading (b ∷ h)))
        × (t'.last_alert ≡ last_cycle (if fires then (length h + 1) ∷ ms else ms))
  unfolding sustained
  sustained_lem false h ms t l b c e = ground arith
  sustained_lem true h ms t l b c e =
      ground (arith, elapsed_lem (length h) ms l b, inc-pos (leading h), leading-le h)

  -- The rule keeps the alerts apart.
  pub rule-IsSpaced :
      (b : Bool) (h : List Bool) (ms : List ℕ)
      → rule b h ms ≡ true
      → IsBelow (length h) ms
      → IsSpaced cooldown ms
      → IsSpaced cooldown ((length h + 1) ∷ ms)
  rule-IsSpaced b h [] r u v = tt
  rule-IsSpaced b h (m ∷ ms) r u v = ground arith
