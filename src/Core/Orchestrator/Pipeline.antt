-- ===== src/Core/Orchestrator/Pipeline.antt =====
-- From a decision of runtime/llm/parser.go through the cycle that runtime/agents/system_agent.go
-- records to what runtime/core/orchestrator.go executes.
use jarvinx.Shared.{
  ◌≡◌, refl, sym, ap, ◌∙◌, Bool, true, false, not, ◌&&◌, arith, if◌then◌else◌, List, [], ◌∷◌, some,
  inr,
}
use jarvinx.Shared.Int.{ℤ, pos}
use jarvinx.Shared.Float.{Float64}
use jarvinx.Shared.Text.{Text, codes, text_eq, trim_space}
use jarvinx.Memory.Records.{Snapshot, CycleRecord, new_cycle_record}
use jarvinx.Memory.Store.{Store, EventLog}
use jarvinx.Llm.Parser.{Decision, is_valid_action, validate_decision}
use jarvinx.Agents.System.{to_record}
use jarvinx.Tools.Shell.{execute_command}
use jarvinx.Core.Orchestrator.{
  ExecuteGuard, Orchestrator, Effects, World, allow, should_execute, handle_observed,
}
use jarvinx.Core.Orchestrator.Execute.{
  is_over, is_repeated, is_due, should_execute-is_over, handle_observed-IsDone,
}
use mathlib.Core.Path.{subst}

not_is_true : (b : Bool) → not b ≡ true → b ≡ false
not_is_true true h = sym h
not_is_true false h = refl

none_of : (a b c : Bool) → a ≡ false → b ≡ false → c ≡ false → (not a && (not b && not c)) ≡ true
none_of a b c p q r = rw (p, q, r) refl

chosen :
    {A : Type 0} (due dry : Bool) (xs : List A)
    → due ≡ true
    → dry ≡ false
    → (if due && not dry then xs else []) ≡ xs
chosen due dry xs d w = rw (d, w) refl

allow-is_repeated :
    (w : World) (cmd : Text) (g : ExecuteGuard)
    → (allow w.checked w.stamped cmd g).1 ≡ not (is_repeated w cmd g)
unfolding allow
allow-is_repeated w cmd g = ground arith

module _ {F : Type 0} ⦃fl : Float64 F⦄ {S L : Type 0} (store : Store F S) (log : EventLog F L) where
  -- A cycle without triggers is always followed up.
  to_record_untriggered :
      (seen snap : Snapshot F) (d : Decision F) (n : ℤ)
      → fl.eq (fl.decimal 0 0) (fl.decimal 0 0) ≡ true
      → text_eq d.action (codes "execute") ≡ false
      → should_execute (record (to_record seen d) { cycle_num = n }) snap ≡ true
  unfolding to_record new_cycle_record should_execute
  to_record_untriggered seen snap d n z e = rw e (rw z refl)

  to_record-command :
      (seen : Snapshot F) (d : Decision F)
      → text_eq d.action (codes "execute") ≡ false
      → (to_record seen d).command ≡ d.command
  unfolding to_record new_cycle_record
  to_record-command seen d e = rw e refl

  -- The confidence that an execution needs does not protect the other actions: a decision to log, alert
  -- or suggest that names a command is valid as it stands, whatever its confidence, and when its cycle is
  -- the newest, an orchestrator that is not in a dry run and whose guard lets the command through
  -- executes it at the next snapshot. 0 is taken to equal itself.
  pub unconfirmed_executes :
      (w : World) (s : S) (seen snap : Snapshot F) (o : Orchestrator F L) (d : Decision F) (n : ℤ)
      (cs : List (CycleRecord F))
      → fl.eq (fl.decimal 0 0) (fl.decimal 0 0) ≡ true
      → text_eq (trim_space d.analysis) [] ≡ false
      → is_valid_action d.action ≡ true
      → text_eq d.action (codes "execute") ≡ false
      → text_eq d.command [] ≡ false
      → store.last_cycles (pos 1) s ≡ some (record (to_record seen d) { cycle_num = n } ∷ cs)
      → o.locked ≡ false
      → o.dry_run ≡ false
      → (allow w.checked w.stamped d.command o.exec_guard).1 ≡ true
      → (validate_decision d ≡ inr d)
        × (after : Orchestrator F L × Effects) × (handle_observed store log w s snap o ≡ some after)
        × (after.1.published ≡ (execute_command w.machine d.command).0 ∷ [])
  unfolding validate_decision
  unconfirmed_executes w s seen snap o d n cs z a v e c newest free wet allowed =
      let cycle = record (to_record seen d) { cycle_num = n } in
      let (after, handled, kept, done) =
        handle_observed-IsDone store log w s snap o cycle cs free newest in
      let same : cycle.command ≡ d.command = to_record-command seen d e in
      let lasts =
        not_is_true (is_over cycle snap)
          (sym (should_execute-is_over cycle snap) ∙ to_record_untriggered seen snap d n z e) in
      let fresh =
        not_is_true (is_repeated w d.command o.exec_guard)
          (sym (allow-is_repeated w d.command o.exec_guard) ∙ allowed) in
      let fresh' = subst (λ cmd. is_repeated w cmd o.exec_guard ≡ false) (sym same) fresh in
      let named = subst (λ cmd. text_eq cmd [] ≡ false) (sym same) c in
      let due : is_due w cycle snap o.exec_guard ≡ true =
        none_of (text_eq cycle.command []) (is_over cycle snap)
          (is_repeated w cycle.command o.exec_guard) named lasts fresh' in
      (
        rw (a, v, e) refl,
        after,
        handled,
        done.0
            ∙ chosen (is_due w cycle snap o.exec_guard) o.dry_run _ due wet
            ∙ ap (λ cmd. (execute_command w.machine cmd).0 ∷ []) same,
      )
