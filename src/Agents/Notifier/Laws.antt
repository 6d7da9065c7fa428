-- ===== src/Agents/Notifier/Laws.antt =====
-- What Dispatch of runtime/agents/notifier.go sends.
use jarvinx.Shared.{
  ℕ, ◌+◌, ◌≡◌, refl, ◌↔◌, true, false, List, [], ◌∷◌, map, Option, some, arith, if◌then◌else◌,
}
use jarvinx.Agents.Records.{Alert}
use jarvinx.Agents.Notifier.{
  Notifier, name, Request, request, wanted_status, send, NotifierDispatcher, Outcome, simulated,
  notified, dispatch_from, dispatch, outcome,
}

module _ {F : Type 0} (net : ℕ → Request F → Option ℕ) (alert : Alert F) where
  dry_from :
      (i : ℕ) (ns : List Notifier)
      → dispatch_from net true alert i ns ≡ (map (λ n. simulated (name n)) ns, [])
  unfolding dispatch_from
  dry_from i [] = refl
  dry_from i (n ∷ ns) = ground (arith, dry_from (i + 1) ns)

  live_from :
      (i : ℕ) (ns : List Notifier)
      → (dispatch_from net false alert i ns).1 ≡ map (λ n. request n alert) ns
  unfolding dispatch_from
  live_from i [] = refl
  live_from i (n ∷ ns) = ground (arith, live_from (i + 1) ns)

  -- In a dry run no request is made and each channel is logged as simulated; otherwise each channel
  -- gets exactly one request, in the order of registration, whether or not the others answered.
  pub dispatch-requests :
      (d : NotifierDispatcher)
      → (dispatch net d alert).1
        ≡ (if d.dry_run then [] else map (λ n. request n alert) d.notifiers)
  unfolding dispatch
  dispatch-requests d = ground (arith, dry_from 0 d.notifiers, live_from 0 d.notifiers)

  -- The outcomes that answers from number i on should lead to.
  abbrev pub Reported : ℕ → List Notifier → List Outcome → Type 0
  Reported i [] [] = Unit {0}
  Reported i [] (_ ∷ _) = ⊥
  Reported i (_ ∷ _) [] = ⊥
  Reported i (n ∷ ns) (o ∷ os) =
      ((o ≡ notified (name n)) ↔ (net i (request n alert) ≡ some (wanted_status n)))
      × Reported (i + 1) ns os

  outcome_iff :
      (n : Notifier) (answer : Option ℕ)
      → (outcome (name n) (send n answer) ≡ notified (name n)) ↔ (answer ≡ some (wanted_status n))
  unfolding outcome send
  outcome_iff n answer = (λ h. ground arith, λ h. ground arith)

  Reported-dispatch_from :
      (i : ℕ) (ns : List Notifier) → Reported i ns (dispatch_from net false alert i ns).0
  unfolding dispatch_from
  Reported-dispatch_from i [] = tt
  Reported-dispatch_from i (n ∷ ns) =
      (outcome_iff n (net i (request n alert)), Reported-dispatch_from (i + 1) ns)

  -- Outside a dry run a channel is logged as notified exactly when it answered with the status that
  -- it promises: 204 for Discord and 200 for the others.
  pub dispatch-Reported :
      (d : NotifierDispatcher) → d.dry_run ≡ false → Reported 0 d.notifiers (dispatch net d alert).0
  unfolding dispatch
  dispatch-Reported d live = rw live (Reported-dispatch_from 0 d.notifiers)
