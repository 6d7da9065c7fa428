-- ===== src/Core/Orchestrator/Execute.antt =====
-- What handleObserved of runtime/core/orchestrator.go runs.
use jarvinx.Shared.{
  ◌≡◌, refl, Bool, true, false, not, ◌&&◌, ◌||◌, ltb, List, [], ◌∷◌, none, some, arith,
  if◌then◌else◌, Bool-cases, Option-cases, inl, inr, All,
}
use jarvinx.Shared.Int.{pos}
use jarvinx.Shared.Clock.{since}
use jarvinx.Shared.Float.{Float64}
use jarvinx.Shared.Text.{Text, text_eq}
use jarvinx.Memory.Records.{Snapshot, CycleRecord}
use jarvinx.Memory.Store.{Store, EventLog}
use jarvinx.Tools.Shell.{Machine, execute_command, default_command_timeout}
use jarvinx.Tools.Shell.Whitelist.{IsListed, execute_command_with_timeout-IsListed}
use jarvinx.Core.Orchestrator.{
  ExecuteGuard, Orchestrator, Effects, World, allow, should_execute, handle_observed, carry_out,
  permitted, follow_up, no_effects, left_behind, is_zero, set_last_result,
}

-- Only listed processes, and none in a dry run.
abbrev pub IsSafe : Bool → Effects → Type 0
IsSafe dry e = All IsListed e.processes × (dry ≡ true → (e.processes ≡ []) × (e.published ≡ []))

carry_out-IsSafe :
    (dry : Bool) (m : Machine) (cmd : Text) (g : ExecuteGuard)
    → IsSafe dry (carry_out dry m cmd g).1
unfolding carry_out execute_command
carry_out-IsSafe true m cmd g = (tt, λ h. (refl, refl))
carry_out-IsSafe false m cmd g =
    (execute_command_with_timeout-IsListed m cmd default_command_timeout, λ h. cc)

permitted-IsSafe :
    (dry : Bool) (m : Machine) (cmd : Text) (a : ExecuteGuard × Bool)
    → IsSafe dry (permitted dry m cmd a).1
unfolding permitted
permitted-IsSafe dry m cmd (g, false) = (tt, λ h. (refl, refl))
permitted-IsSafe dry m cmd (g, true) = carry_out-IsSafe dry m cmd g

-- The guard ran this command less than the cooldown ago.
abbrev pub is_repeated : World → Text → ExecuteGuard → Bool
is_repeated w cmd g = text_eq cmd g.last_cmd && ltb (since w.checked g.last_exec_at) g.cooldown

module _ {F : Type 0} ⦃fl : Float64 F⦄ where
  follow_up-IsSafe :
      (w : World) (dry : Bool) (snap : Snapshot F) (cycles : List (CycleRecord F))
      (g : ExecuteGuard)
      → IsSafe dry (follow_up w dry snap cycles g).1
  unfolding follow_up
  follow_up-IsSafe w dry snap [] g = (tt, λ h. (refl, refl))
  follow_up-IsSafe w dry snap (c ∷ cs) g = elim (Bool-cases (text_eq c.command [])) [
    | inl empty ↦ rw empty (tt, λ h. (refl, refl))
    | inr named ↦ elim (Bool-cases (should_execute c snap)) [
      | inl wanted ↦
          rw (named, wanted)
            (permitted-IsSafe dry w.machine c.command (allow w.checked w.stamped c.command g))
      | inr stale ↦ rw (named, stale) (tt, λ h. (refl, refl))
    ]
  ]

  -- The metrics that may have led to a cycle: each value then, 0 if it did not, and now.
  abbrev pub metrics : CycleRecord F → Snapshot F → List (F × F)
  metrics c snap =
      (c.trigger_cpu, snap.cpu_percent)
      ∷ (c.trigger_ram, snap.mem_percent)
      ∷ (c.trigger_disk, snap.disk_percent)
      ∷ []

  abbrev pub any_trigger : List (F × F) → Bool
  any_trigger [] = false
  any_trigger ((trigger, current) ∷ rest) = not (fl.eq trigger (fl.decimal 0 0)) || any_trigger rest

  -- Some metric is above 0 then and more than 5 lower now.
  abbrev pub any_fallen : List (F × F) → Bool
  any_fallen [] = false
  any_fallen ((trigger, current) ∷ rest) =
      (fl.lt (fl.decimal 0 0) trigger && fl.lt current (fl.sub trigger (fl.decimal 5 0)))
      || any_fallen rest

  -- The load that led to the cycle is gone.
  abbrev pub is_over : CycleRecord F → Snapshot F → Bool
  is_over c snap = any_trigger (metrics c snap) && any_fallen (metrics c snap)

  -- The command of the cycle is to be run.
  abbrev pub is_due : World → CycleRecord F → Snapshot F → ExecuteGuard → Bool
  is_due w c snap g =
      not (text_eq c.command []) && (not (is_over c snap) && not (is_repeated w c.command g))

  pub should_execute-is_over :
      (c : CycleRecord F) (snap : Snapshot F) → should_execute c snap ≡ not (is_over c snap)
  unfolding should_execute left_behind is_zero
  should_execute-is_over c snap = ground arith

  -- What is done, when the newest cycle is looked at.
  abbrev pub IsDone :
      World → Bool → CycleRecord F → Snapshot F → ExecuteGuard → ExecuteGuard × Effects → Type 0
  IsDone w dry c snap g (g', e) =
      let run = is_due w c snap g && not dry in
      (e.published ≡ (if run then (execute_command w.machine c.command).0 ∷ [] else []))
      × (e.processes ≡ (if run then (execute_command w.machine c.command).1 else []))
      × (g'.last_cmd ≡ (if is_due w c snap g then c.command else g.last_cmd))
      × (g'.last_exec_at ≡ (if is_due w c snap g then w.stamped else g.last_exec_at))

  follow_up-IsDone :
      (w : World) (dry : Bool) (snap : Snapshot F) (c : CycleRecord F) (cs : List (CycleRecord F))
      (g : ExecuteGuard)
      → IsDone w dry c snap g (follow_up w dry snap (c ∷ cs) g)
  unfolding follow_up permitted carry_out allow no_effects set_last_result
  follow_up-IsDone w dry snap c cs g =
      rw (should_execute-is_over c snap) (ground arith, ground arith, ground arith, ground arith)

  module _ {S L : Type 0} (store : Store F S) (log : EventLog F L) where
    -- Whatever the store holds, an observed snapshot starts only processes of the whitelist, and in a
    -- dry run it starts none and publishes nothing.
    pub handle_observed-IsSafe :
        (w : World) (s : S) (snap : Snapshot F) (o : Orchestrator F L)
        {after : Orchestrator F L × Effects}
        → handle_observed store log w s snap o ≡ some after
        → IsSafe o.dry_run after.1
    unfolding handle_observed
    handle_observed-IsSafe w s snap o {after} e = elim (Bool-cases o.locked) [
      | inl locked ↦
          let nothing : after.1 ≡ no_effects none = ground arith in
          rw nothing (unfold no_effects in (tt, λ h. (refl, refl)))
      | inr free ↦ elim (Option-cases (store.last_cycles (pos 1) s)) [
        | inl panic ↦ absurd (ground arith)
        | inr (cycles, found) ↦
            let (guard, effects) = follow_up w o.dry_run snap cycles o.exec_guard in
            let done : after.1 ≡ record effects { log_error = (log.write snap o.logger).1 } =
              ground arith in
            rw done (follow_up-IsSafe w o.dry_run snap cycles o.exec_guard)
      ]
    ]

    -- When the previous snapshot is done with and there is a cycle, the handling of a snapshot
    -- completes and keeps the snapshot. The newest cycle's command is due if there is one, the load that
    -- led to the cycle is not over (some trigger is not 0, and some metric is more than 5 below its
    -- trigger, which is above 0), and it is not the guard's last command less than the cooldown ago. If
    -- it is due the guard keeps it and the time, and else what it had; if it is due and this is no dry
    -- run the command is executed, so its processes are started and its result published, and else
    -- nothing is started or published.
    pub handle_observed-IsDone :
        (w : World) (s : S) (snap : Snapshot F) (o : Orchestrator F L) (c : CycleRecord F)
        (cs : List (CycleRecord F))
        → o.locked ≡ false
        → store.last_cycles (pos 1) s ≡ some (c ∷ cs)
        → (after : Orchestrator F L × Effects) × (handle_observed store log w s snap o ≡ some after)
          × (after.0.last_snap ≡ snap)
          × IsDone w o.dry_run c snap o.exec_guard (after.0.exec_guard, after.1)
    unfolding handle_observed
    handle_observed-IsDone w s snap o c cs u e =
        let (guard, effects) = follow_up w o.dry_run snap (c ∷ cs) o.exec_guard in
        (
          (
            record o { logger = (log.write snap o.logger).0; last_snap = snap; exec_guard = guard },
            record effects { log_error = (log.write snap o.logger).1 },
          ),
          simp (u, e),
          refl,
          follow_up-IsDone w o.dry_run snap c cs o.exec_guard,
        )
