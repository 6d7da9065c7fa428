-- ===== src/Agents/Alert/Sound.antt =====
-- What the alerts of runtime/agents/alert_agent.go say.
use jarvinx.Shared.{
  ◌≡◌, refl, ◌⊎◌, inl, inr, true, List, [], ◌∷◌, ◌++◌, arith, All, Bool-cases, Bool,
}
use jarvinx.Shared.Int.{ℤ, ◌≤ℤ◌, leb_ℤ, ◌-ℤ◌, inc}
use jarvinx.Shared.Float.{Float64}
use jarvinx.Memory.Records.{Snapshot}
use jarvinx.Agents.Records.{Alert, alert_warning, alert_critical}
use jarvinx.Agents.Alert.{
  AlertState, AlertAgent, Tracker, cpu_metric, ram_metric, disk_metric, cpu_above, ram_above,
  disk_above, sustained, check_cpu, check_ram, check_disk, analyze,
}

module _ {F : Type 0} ⦃fl : Float64 F⦄ (x : Snapshot F) (a : AlertAgent F) where
  -- The alert is true of the snapshot and of the agent's settings.
  abbrev pub IsTrue : Alert F → Type 0
  IsTrue al =
      (fl.le al.threshold al.value ≡ true)
      × (al.timestamp ≡ x.timestamp)
      × (((al.metric ≡ cpu_metric)
            × (al.level ≡ alert_critical)
            × (al.value ≡ x.cpu_percent)
            × (al.threshold ≡ a.cpu_threshold)
            × (a.min_cycles ≤ℤ al.cycles_above))
          ⊎ (((al.metric ≡ ram_metric)
                × (al.level ≡ alert_critical)
                × (al.value ≡ x.mem_percent)
                × (al.threshold ≡ a.ram_threshold)
                × (a.min_cycles ≤ℤ al.cycles_above))
              ⊎ ((al.metric ≡ disk_metric)
                  × (al.level ≡ alert_warning)
                  × (al.value ≡ x.disk_percent)
                  × (al.threshold ≡ a.disk_threshold))))

  All-append : (xs ys : List (Alert F)) → All IsTrue xs → All IsTrue ys → All IsTrue (xs ++ ys)
  All-append [] ys h k = k
  All-append (y ∷ xs) ys h k = (h.0, All-append xs ys h.1 k)

  sustained_fires :
      (b : Bool) (min cooldown current : ℤ) (t : Tracker)
      → (sustained b min cooldown current t).1 ≡ true
      → (b ≡ true) × (min ≤ℤ (sustained b min cooldown current t).0.cycles)
  unfolding sustained
  sustained_fires b min cooldown current t h = ground arith

  cpu-IsTrue : (s : AlertState) → All IsTrue (check_cpu a x s).1
  unfolding check_cpu cpu_above
  cpu-IsTrue s =
      elim (Bool-cases (sustained (cpu_above a x) a.min_cycles a.cooldown s.current_cycle t).1) [
        | inl fires ↦
            let (above, enough) = sustained_fires _ _ _ _ t fires in
            rw fires ((above, refl, inl (refl, refl, refl, refl, enough)), tt)
        | inr silent ↦ rw silent tt
      ]
    where
      t : Tracker
      t = record { cycles = s.cpu_cycles; last_alert = s.last_alert_cpu }

  ram-IsTrue : (s : AlertState) → All IsTrue (check_ram a x s).1
  unfolding check_ram ram_above
  ram-IsTrue s =
      elim (Bool-cases (sustained (ram_above a x) a.min_cycles a.cooldown s.current_cycle t).1) [
        | inl fires ↦
            let (above, enough) = sustained_fires _ _ _ _ t fires in
            rw fires ((above, refl, inr (inl (refl, refl, refl, refl, enough))), tt)
        | inr silent ↦ rw silent tt
      ]
    where
      t : Tracker
      t = record { cycles = s.ram_cycles; last_alert = s.last_alert_ram }

  disk-IsTrue : (s : AlertState) → All IsTrue (check_disk a x s).1
  unfolding check_disk disk_above
  disk-IsTrue s = elim (Bool-cases (disk_above a x)) [
    | inl above ↦ elim (Bool-cases (leb_ℤ a.cooldown (s.current_cycle -ℤ s.last_alert_dsk))) [
      | inl rested ↦ rw (above, rested) ((above, refl, inr (inr (refl, refl, refl, refl))), tt)
      | inr tired ↦ rw (above, tired) tt
    ]
    | inr below ↦ rw below tt
  ]

  -- Every alert that an analysis raises is true: it names the metric, the value and the configured
  -- threshold, the value is at the threshold or above, CPU and RAM alerts are critical and have
  -- lasted at least `min_cycles` cycles, and disk alerts are warnings.
  pub analyze-IsTrue : All IsTrue (analyze x a).1
  unfolding analyze
  analyze-IsTrue =
      let s0 = record (a.state) { current_cycle = inc a.state.current_cycle } in
      let s1 = (check_cpu a x s0).0 in
      let s2 = (check_ram a x s1).0 in
      All-append _ _ (cpu-IsTrue s0) (All-append _ _ (ram-IsTrue s1) (disk-IsTrue s2))
