-- ===== src/Llm/Context.antt =====
-- runtime/llm/context_builder.go: what the prompt says of the recent past. A string is the list of its
-- bytes here. The elements of a slice are counted by natural numbers. The formatting of numbers by
-- `fmt` is a parameter.
pub mod Prompt
pub mod Counting
pub mod Summary
pub mod Adaptive
pub mod Lines
mod Scenarios
use jarvinx.Shared.{
  ℕ, zero, suc, ◌+◌, ◌-◌, ◌/◌, Bool, true, false, not, ◌&&◌, ◌||◌, List, [], ◌∷◌, ◌++◌, map, ltb,
  leb, ◌==◌, if◌then◌else◌, length, take, drop,
}
use jarvinx.Shared.Clock.{Time, LocalTime}
use jarvinx.Shared.Float.{Float64}
use jarvinx.Shared.Text.{Text, codes, utf8, text_eq}
use jarvinx.Memory.Records.{Snapshot, CycleRecord}
use mathlib.Core.List.{reverse}
use Prim.Native.String.{String}

-- The bytes of a literal.
abbrev pub bytes : String → Text
unfolding utf8
bytes s = utf8 (codes s)

-- What the prompts are made from.
pub record SystemContext (F : Type 0) : Type 0 where
  pub timestamp : Time
  pub cpu_percent : F
  pub mem_used : ℕ
  pub mem_total : ℕ
  pub mem_percent : F
  pub disk_used : ℕ
  pub disk_total : ℕ
  pub disk_percent : F
  pub history : List (Snapshot F)
  pub cycles : List (CycleRecord F)
  pub cpu_threshold : F
  pub ram_threshold : F
  pub disk_threshold : F
  pub goos : Text
  pub similar_decisions : List Text

-- The verb %.nf, the verb %d and the conversion of an int to float64.
pub record Format (F : Type 0) : Type 0 where
  pub fixed : ℕ → F → Text
  pub int : ℕ → Text
  pub float : ℕ → F

-- A map from actions to counts: its entries, each key once.
abbrev pub Counts : Type 0
Counts = List (Text × ℕ)

-- `counts[action]++`
unfoldable pub bump : Text → Counts → Counts
unfolding text_eq
bump action [] = (action, 1) ∷ []
bump action ((k, n) ∷ counts) =
    let rest = bump action counts in if text_eq k action then (k, suc n) ∷ counts else (k, n) ∷ rest

-- `counts[action]`
unfoldable pub count_of : Text → Counts → ℕ
unfolding text_eq
count_of action [] = 0
count_of action ((k, n) ∷ counts) =
    let rest = count_of action counts in if text_eq k action then n else rest

-- The loop of dominantKey over the entries, in the order in which the map yields them.
unfoldable pub best_of : Text → ℕ → Counts → Text × ℕ
best_of best max [] = (best, max)
best_of best max ((k, v) ∷ counts) =
    best_of (if ltb max v then k else best) (if ltb max v then v else max) counts

unfoldable pub dominant_key : (Counts → Counts) → Counts → Text
unfolding best_of
dominant_key order counts = (best_of [] 0 (order counts)).0

correlation_text : Bool → Bool → Text
correlation_text cpu_rising ram_rising =
    if ram_rising && not cpu_rising
    then bytes "RAM↑ CPU stable → memory leak potentiel"
    else if cpu_rising && not ram_rising
    then bytes "CPU↑ RAM stable → surge de traitement"
    else if cpu_rising && ram_rising
    then bytes "CPU↑ RAM↑ → surcharge générale"
    else []

module _ {F : Type 0} where
  unfoldable pub is_alert : CycleRecord F → Bool
  is_alert c = text_eq c.action (codes "alert")

  unfoldable pub count_actions : Counts → List (CycleRecord F) → Counts
  unfolding bump
  count_actions counts [] = counts
  count_actions counts (c ∷ cycles) = count_actions (bump c.action counts) cycles

  -- The loop that collects the analyses of alerts, up to three.
  unfoldable pub collect_alerts : List Text → List (CycleRecord F) → List Text
  unfolding is_alert
  collect_alerts recent [] = recent
  collect_alerts recent (c ∷ cycles) =
      collect_alerts
        (if is_alert c && ltb (length recent) 3 then recent ++ c.analysis ∷ [] else recent) cycles

  -- The loop of stableStreak, from the newest cycle back.
  unfoldable pub streak_back : List (CycleRecord F) → ℕ
  unfolding is_alert
  streak_back [] = 0
  streak_back (c ∷ cycles) = let rest = streak_back cycles in if is_alert c then 0 else suc rest

  unfoldable pub stable_streak : List (CycleRecord F) → ℕ
  unfolding streak_back
  stable_streak cycles = streak_back (reverse cycles)

  -- The getter at the first and at the last snapshot of a slice that starts with `s`.
  last_value : (Snapshot F → F) → Snapshot F → List (Snapshot F) → F
  last_value getter s [] = getter s
  last_value getter s (s' ∷ snaps) = last_value getter s' snaps

  module _ ⦃fl : Float64 F⦄ where
    sum : (Snapshot F → F) → F → List (Snapshot F) → F
    sum getter total [] = total
    sum getter total (s ∷ snaps) = sum getter (fl.add total (getter s)) snaps

    unfoldable pub average : Format F → (Snapshot F → F) → List (Snapshot F) → F
    unfolding sum
    average fmt getter [] = fl.decimal 0 0
    average fmt getter (s ∷ snaps) =
        fl.div (sum getter (fl.decimal 0 0) (s ∷ snaps)) (fmt.float (suc (length snaps)))

    unfoldable pub slope_of : Format F → (Snapshot F → F) → List (Snapshot F) → F
    unfolding last_value
    slope_of fmt getter [] = fl.decimal 0 0
    slope_of fmt getter (s ∷ []) = fl.decimal 0 0
    slope_of fmt getter (s ∷ s' ∷ snaps) =
        fl.div (fl.sub (last_value getter s' snaps) (getter s)) (fmt.float (suc (length snaps)))

    percent : Format F → F → Text
    percent fmt x = fmt.fixed 1 x ++ bytes "%"

    -- The switch of trendWithThreshold; a > b is b < a, and a >= b is b <= a.
    trend_text : Format F → F → F → F → F → Text
    unfolding percent
    trend_text fmt first last current threshold =
        let diff = fl.sub last first in
        if fl.le threshold current
        then bytes "critique (" ++ percent fmt current ++ bytes ") — action requise"
        else if fl.le (fl.mul threshold (fl.decimal 85 2)) current
        then bytes "élevé (" ++ percent fmt current ++ bytes ")"
        else if fl.lt (fl.decimal 10 0) diff
        then bytes "en hausse ("
          ++ percent fmt first
          ++ bytes " → "
          ++ percent fmt last
          ++ bytes ")"
        else if fl.lt diff (fl.sub (fl.decimal 0 0) (fl.decimal 10 0))
        then bytes "en baisse ("
          ++ percent fmt first
          ++ bytes " → "
          ++ percent fmt last
          ++ bytes ")"
        else bytes "stable (" ++ percent fmt current ++ bytes ")"

    unfoldable pub trend_with_threshold : Format F → (Snapshot F → F) → F → List (Snapshot F) → Text
    unfolding trend_text average last_value
    trend_with_threshold fmt getter threshold [] = bytes "insufficient data"
    trend_with_threshold fmt getter threshold (s ∷ snaps) =
        let all = s ∷ snaps in
        let half = length all / 2 in
        if ltb (length all) 3
        then bytes "insufficient data"
        else trend_text fmt (average fmt getter (take half all))
            (average fmt getter (drop half all)) (last_value getter s snaps) threshold

    unfoldable pub compute_correlation : Format F → List (Snapshot F) → Text
    unfolding slope_of correlation_text
    compute_correlation fmt snaps =
        if ltb (length snaps) 3
        then []
        else correlation_text (fl.lt (fl.decimal 2 0) (slope_of fmt (λ s. s.cpu_percent) snaps))
            (fl.lt (fl.decimal 2 0) (slope_of fmt (λ s. s.mem_percent) snaps))

    forecast_text : Format F → F → F → F → Text
    forecast_text fmt current threshold delta =
        let remaining = fl.div (fl.sub threshold current) delta in
        if fl.le threshold current
        then []
        else if fl.le delta (fl.decimal 0 0)
        then []
        else if fl.lt (fl.decimal 100 0) remaining
        then []
        else bytes "~" ++ fmt.fixed 0 remaining ++ bytes " cycles avant seuil"

    unfoldable pub forecast_cycles : Format F → (Snapshot F → F) → F → List (Snapshot F) → Text
    unfolding slope_of last_value forecast_text
    forecast_cycles fmt getter threshold [] = []
    forecast_cycles fmt getter threshold (s ∷ snaps) =
        if ltb (length (s ∷ snaps)) 3
        then []
        else forecast_text fmt (last_value getter s snaps) threshold
            (slope_of fmt getter (s ∷ snaps))

unfoldable pub time_period : ℕ → Text
time_period h =
    if ltb h 6
    then bytes "nuit"
    else if ltb h 12
    then bytes "matin"
    else if ltb h 18
    then bytes "journée"
    else bytes "soirée"
