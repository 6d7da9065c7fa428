-- ===== src/Core/Bus/Registered.antt =====
-- The list of subscribers of runtime/core/bus.go.
use jarvinx.Shared.{ℕ, ◌≡◌, refl, ap, ◌∙◌, true, false, List, [], ◌∷◌, ◌++◌, map, Option, some, All}
use jarvinx.Shared.Text.{Text, text_eq, text_eq_refl}
use mathlib.Core.List.{map-append}
use jarvinx.Core.Bus.{
  Event, Subscriber, Bus, send, close_quit, new_subscriber, subscribe, unsubscribe, removed,
  publish,
}

module _ {P : Type 0} where
  -- No subscriber has that name.
  abbrev pub IsUnused : Text → List (Subscriber P) → Type 0
  IsUnused name subs = All (λ s. text_eq s.name name ≡ false) subs

  removed-last :
      (name : Text) (subs : List (Subscriber P)) (last : Subscriber P)
      → text_eq last.name name ≡ true
      → IsUnused name subs
      → removed name (subs ++ last ∷ []) ≡ (subs, some (close_quit last))
  unfolding removed
  removed-last name [] last e h = rw e refl
  removed-last name (s ∷ subs) last e h = rw (h.0, removed-last name subs last e h.1) refl

  send-IsUnused :
      (size : ℕ) (e : Event P) (name : Text) (subs : List (Subscriber P))
      → IsUnused name subs
      → IsUnused name (map (send size e) subs)
  unfolding send
  send-IsUnused size e name [] h = tt
  send-IsUnused size e name (s ∷ subs) h = (h.0, send-IsUnused size e name subs h.1)

  -- A subscriber of a new name that unsubscribes after an event was published leaves the bus as the event
  -- alone would have left it; its own goroutine is told to stop.
  pub unsubscribe-publish-subscribe :
      (name : Text) (e : Event P) (b : Bus P)
      → IsUnused name b.subscribers
      → ((unsubscribe name (publish e (subscribe name b))).0 ≡ publish e b)
        × ((unsubscribe name (publish e (subscribe name b))).1
            ≡ some (close_quit (send b.buffer_size e (new_subscriber name))))
  unfolding unsubscribe publish subscribe
  unsubscribe-publish-subscribe name e b h =
      let new = send b.buffer_size e (new_subscriber name) in
      let others = map (send b.buffer_size e) b.subscribers in
      let gone : removed name
            (map (send b.buffer_size e) (b.subscribers ++ new_subscriber name ∷ []))
          ≡ (others, some (close_quit new)) =
        ap (removed name)
          (map-append (send b.buffer_size e) b.subscribers (new_subscriber name ∷ []))
        ∙ removed-last name others new (unfold new_subscriber send in text_eq_refl name)
            (send-IsUnused b.buffer_size e name b.subscribers h) in
      (
        ap (λ (r : List (Subscriber P) × Option (Subscriber P)). record b { subscribers = r.0 })
            gone,
        ap (λ (r : List (Subscriber P) × Option (Subscriber P)). r.1) gone,
      )
