-- ===== src/Llm/Context/Summary.antt =====
-- What BuildAdaptiveContext of runtime/llm/context_builder.go says of the cycles.
use jarvinx.Shared.{
  ℕ, suc, ◌+◌, ◌≤◌, ◌≡◌, refl, sym, ap, ◌∙◌, arith, true, false, List, [], ◌∷◌, ◌++◌, ltb, leb,
  Bool-cases, inl, inr, if◌then◌else◌, All, length, take, ◌↔◌, length-append,
}
use jarvinx.Shared.Clock.{Time, LocalTime}
use jarvinx.Shared.Float.{Float64}
use jarvinx.Shared.Text.{Text}
use jarvinx.Memory.Records.{Snapshot, CycleRecord}
use jarvinx.Llm.Context.{
  Format, Counts, count_of, count_actions, best_of, dominant_key, is_alert, collect_alerts,
  streak_back, stable_streak,
}
use jarvinx.Llm.Context.Counting.{
  occurrences, count_of-count_actions, count_actions-IsDistinct, IsCounted, entries-IsCounted,
  count_of-bounded,
}
use jarvinx.Llm.Context.Prompt.{
  AdaptiveContext, with_cycles, with_snapshots, empty_context, build_adaptive_context,
}
use mathlib.Core.Path.{subst}
use jarvinx.Shared.Reverse.{take-all, length-reverse, All-reverse}
use mathlib.Core.List.{append_assoc, append-nil, reverse, reverse-append, reverse-cons}

-- Two lists of entries in which the same things hold of all entries: those of one map in two orders.
abbrev pub IsOrder : (Counts → Counts) → Type 1
IsOrder order = (counts : Counts) (P : Text × ℕ → Type 0) → All P counts ↔ All P (order counts)

best_of-larger :
    (best k : Text) (max v : ℕ) (entries : Counts)
    → ltb max v ≡ true
    → best_of best max ((k, v) ∷ entries) ≡ best_of k v entries
unfolding best_of
best_of-larger best k max v entries more = rw more refl

best_of-smaller :
    (best k : Text) (max v : ℕ) (entries : Counts)
    → ltb max v ≡ false
    → best_of best max ((k, v) ∷ entries) ≡ best_of best max entries
unfolding best_of
best_of-smaller best k max v entries less = rw less refl

-- A number that the best count and the counts of all entries do not exceed.
abbrev IsAbove : ℕ → Counts → ℕ → Type 0
IsAbove max entries m = (max ≤ m) × All (λ e. e.1 ≤ m) entries

best_of-IsMaximal :
    (best : Text) (max : ℕ) (entries : Counts) → IsAbove max entries (best_of best max entries).1
unfolding best_of
best_of-IsMaximal best max [] = (omega arith, tt)
best_of-IsMaximal best max ((k, v) ∷ entries) = elim (Bool-cases (ltb max v)) [
  | inl more ↦
      let (lower, rest) = best_of-IsMaximal k v entries in
      subst (λ e. IsAbove max ((k, v) ∷ entries) e.1)
        (sym (best_of-larger best k max v entries more)) (ground arith, (lower, rest))
  | inr less ↦
      let (lower, rest) = best_of-IsMaximal best max entries in
      subst (λ e. IsAbove max ((k, v) ∷ entries) e.1)
        (sym (best_of-smaller best k max v entries less)) (lower, (ground arith, rest))
]

-- The best entry is the one that the loop starts from, or one of the entries.
best_of-holds :
    (P : Text × ℕ → Type 0) (best : Text) (max : ℕ) (entries : Counts)
    → P (best, max)
    → All P entries
    → P (best_of best max entries)
unfolding best_of
best_of-holds P best max [] p h = p
best_of-holds P best max ((k, v) ∷ entries) p (first, h) = elim (Bool-cases (ltb max v)) [
  | inl more ↦ rw more (best_of-holds P k v entries first h)
  | inr less ↦ rw less (best_of-holds P best max entries p h)
]

take-append_whole : {A : Type 0} (xs ys : List A) → take (length xs) (xs ++ ys) ≡ xs
take-append_whole [] ys = refl
take-append_whole (x ∷ xs) ys = ap (λ l. x ∷ l) (take-append_whole xs ys)

take-append_of : {A : Type 0} (n : ℕ) (xs ys : List A) → length xs ≡ n → take n (xs ++ ys) ≡ xs
take-append_of n xs ys e = rw (← e) (take-append_whole xs ys)

at_most : (n m : ℕ) → n ≤ m → ltb n m ≡ false → n ≡ m
at_most n m h k = ground arith

below→ : (n : ℕ) → ltb n 3 ≡ true → n + 1 ≤ 3
below→ n h = ground arith

module _ {F : Type 0} where
  dominant_key-IsMaximal :
      (order : Counts → Counts) (cycles : List (CycleRecord F)) (action : Text)
      → IsOrder order
      → occurrences action cycles
        ≤ occurrences (dominant_key order (count_actions [] cycles)) cycles
  unfolding dominant_key count_of
  dominant_key-IsMaximal order cycles action same =
      let counts = count_actions [] cycles in
      let best = best_of [] 0 (order counts) in
      let counted =
        (same counts (IsCounted counts)).0
          (entries-IsCounted counts (count_actions-IsDistinct [] cycles tt)) in
      let below : All (λ e. e.1 ≤ best.1) counts =
        (same counts (λ e. e.1 ≤ best.1)).1 (best_of-IsMaximal [] 0 (order counts)).1 in
      let own : best.1 ≤ count_of best.0 counts =
        best_of-holds (IsCounted counts) [] 0 (order counts) (omega arith) counted in
      let most : count_of action counts ≤ best.1 = count_of-bounded action counts best.1 below in
      omega (
        arith,
        own,
        most,
        count_of-count_actions action [] cycles,
        count_of-count_actions best.0 [] cycles,
      )

  -- The analyses of the alerts among some cycles.
  abbrev pub analyses : List (CycleRecord F) → List Text
  analyses [] = []
  analyses (c ∷ cycles) =
      let rest = analyses cycles in if is_alert c then c.analysis ∷ rest else rest

  collect_alerts-analyses :
      (recent : List Text) (cycles : List (CycleRecord F))
      → length recent ≤ 3
      → collect_alerts recent cycles ≡ take 3 (recent ++ analyses cycles)
  unfolding collect_alerts
  collect_alerts-analyses recent [] h = rw append-nil (sym (take-all 3 recent h))
  collect_alerts-analyses recent (c ∷ cycles) h = elim (Bool-cases (is_alert c)) [
    | inr quiet ↦ rw quiet (collect_alerts-analyses recent cycles h)
    | inl alert ↦ elim (Bool-cases (ltb (length recent) 3)) [
      | inl room ↦
          let longer : length (recent ++ c.analysis ∷ []) ≤ 3 =
            omega (arith, length-append recent (c.analysis ∷ []), below→ (length recent) room) in
          rw
            (
              alert,
              room,
              collect_alerts-analyses (recent ++ c.analysis ∷ []) cycles longer,
              append_assoc,
            )
            refl
      | inr full ↦
          let whole = at_most (length recent) 3 h full in
          rw
            (
              alert,
              full,
              collect_alerts-analyses recent cycles h,
              take-append_of 3 recent (analyses cycles) whole,
              take-append_of 3 recent (c.analysis ∷ analyses cycles) whole,
            )
            refl
    ]
  ]

  -- The cycles after the last alert.
  streak_back-alert :
      (newer older : List (CycleRecord F)) (c : CycleRecord F)
      → All (λ r. is_alert r ≡ false) newer
      → is_alert c ≡ true
      → streak_back (newer ++ c ∷ older) ≡ length newer
  unfolding streak_back
  streak_back-alert [] older c quiet alert = rw alert refl
  streak_back-alert (r ∷ newer) older c (q, quiet) alert =
      rw q (ap suc (streak_back-alert newer older c quiet alert))

  stable_streak-alert :
      (cycles older newer : List (CycleRecord F)) (c : CycleRecord F)
      → cycles ≡ older ++ c ∷ newer
      → is_alert c ≡ true
      → All (λ r. is_alert r ≡ false) newer
      → stable_streak cycles ≡ length newer
  unfolding stable_streak
  stable_streak-alert cycles older newer c e alert quiet =
      rw (e, reverse-append older (c ∷ newer), reverse-cons c newer, append_assoc)
        (streak_back-alert (reverse newer) (reverse older) c (All-reverse _ newer quiet) alert
          ∙ length-reverse newer)

module _ {F : Type 0} ⦃fl : Float64 F⦄ where
  with_snapshots-keeps :
      (fmt : Format F) (snaps : List (Snapshot F)) (cpu ram disk : F) (ctx : AdaptiveContext F)
      → let after = with_snapshots fmt snaps cpu ram disk ctx in
        (after.cycle_count ≡ ctx.cycle_count)
        × (after.dominant_action ≡ ctx.dominant_action)
        × (after.recent_alerts ≡ ctx.recent_alerts)
  unfolding with_snapshots
  with_snapshots-keeps fmt snaps cpu ram disk ctx = elim (Bool-cases (leb 3 (length snaps))) [
    | inl enough ↦ rw (with_snapshots, enough) (refl, refl, refl)
    | inr few ↦ rw (with_snapshots, few) (refl, refl, refl)
  ]

  with_cycles-IsSummary :
      (fmt : Format F) (order : Counts → Counts) (cycles : List (CycleRecord F))
      → IsOrder order
      → let ctx = with_cycles fmt order cycles empty_context in
        (ctx.cycle_count ≡ length cycles)
        × ((action : Text) → occurrences action cycles ≤ occurrences ctx.dominant_action cycles)
        × (ctx.recent_alerts ≡ take 3 (analyses cycles))
  unfolding with_cycles empty_context
  with_cycles-IsSummary fmt order [] same = (refl, λ action. omega arith, refl)
  with_cycles-IsSummary fmt order (c ∷ cycles) same = (
    refl,
    λ action. dominant_key-IsMaximal order (c ∷ cycles) action same,
    collect_alerts-analyses [] (c ∷ cycles) (omega arith),
  )

  -- Of any cycles, whatever the order of the map: the dominant action is that of as many cycles
  -- as any other action, the recent alerts are the analyses of the first three alerts, so the oldest ones,
  -- and the streak is the number of cycles after the last alert, if there is one.
  pub build_adaptive_context-IsSummary :
      (fmt : Format F) (order : Counts → Counts) (local : LocalTime) (now : Time)
      (cycles : List (CycleRecord F)) (snaps : List (Snapshot F)) (cpu ram disk : F)
      → IsOrder order
      → let ctx = build_adaptive_context fmt order local now cycles snaps cpu ram disk in
        (ctx.cycle_count ≡ length cycles)
        × ((action : Text) → occurrences action cycles ≤ occurrences ctx.dominant_action cycles)
        × (ctx.recent_alerts ≡ take 3 (analyses cycles))
        × ((older newer : List (CycleRecord F)) (c : CycleRecord F)
            → cycles ≡ older ++ c ∷ newer
            → is_alert c ≡ true
            → All (λ r. is_alert r ≡ false) newer
            → ctx.stable_streak ≡ length newer)
  unfolding build_adaptive_context
  build_adaptive_context-IsSummary fmt order local now cycles snaps cpu ram disk same =
      let kept =
        with_snapshots-keeps fmt snaps cpu ram disk (with_cycles fmt order cycles empty_context) in
      let summary = with_cycles-IsSummary fmt order cycles same in
      (
        kept.0 ∙ summary.0,
        λ action.
            subst (λ d. occurrences action cycles ≤ occurrences d cycles) (sym kept.1)
              (summary.1 action),
        kept.2 ∙ summary.2,
        λ older newer c e alert quiet. stable_streak-alert cycles older newer c e alert quiet,
      )
