-- ===== src/Core/Bus/Scenarios.antt =====
-- Runs of runtime/core/bus.go, with numbers for payloads.
use jarvinx.Shared.{ℕ, ◌≡◌, refl, [], ◌∷◌, ◌++◌, List, arith}
use jarvinx.Shared.Text.{codes}
use mathlib.Core.List.{Sublist}
use jarvinx.Core.Bus.{
  Event, event_observed, Action, sends, takes, offers, receives, act, after, received, sent,
  sent_by, new_bus, new_subscriber, subscribe, len,
}
use jarvinx.Core.Bus.Delivery.{flow, IsPaced, received-Sublist}
use jarvinx.Core.Bus.Drained.{drained, received-drained}

abbrev numbered : ℕ → Event ℕ
numbered n = record { type = event_observed; payload = n }

-- With a buffer of one: the third event finds the dispatch buffer full. Newest action first.
abbrev crowded : List (Action ℕ)
crowded =
    receives ∷ offers ∷ takes ∷ sends (numbered 3) ∷ sends (numbered 2) ∷ sends (numbered 1) ∷ []

crowded_loses :
    received 1 crowded (new_subscriber (codes "web"))
      ++ flow (after 1 crowded (new_subscriber (codes "web")))
    ≡ numbered 1 ∷ numbered 2 ∷ []
unfolding received after act flow new_subscriber
crowded_loses = refl

subscribes_twice : len (subscribe (codes "a") (subscribe (codes "a") (new_bus {P = ℕ} 10))) ≡ 2
unfolding len subscribe new_bus
subscribes_twice = refl

received-Sublist_example :
    Sublist
      (received 1 crowded (new_subscriber (codes "web"))
        ++ flow (after 1 crowded (new_subscriber (codes "web"))))
      (numbered 1 ∷ numbered 2 ∷ numbered 3 ∷ [])
unfolding sent
received-Sublist_example = received-Sublist 1 crowded (codes "web")

-- With a buffer of two: one event is in the goroutine's hand, one waits.
abbrev busy : List (Action ℕ)
busy = sends (numbered 2) ∷ takes ∷ sends (numbered 1) ∷ []

received-drained_example :
    received 2 (drained 2 busy) (new_subscriber (codes "web")) ≡ numbered 1 ∷ numbered 2 ∷ []
unfolding sent IsPaced after act flow new_subscriber sent_by
received-drained_example = received-drained 2 busy (codes "web") (omega arith) refl
