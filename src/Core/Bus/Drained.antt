-- ===== src/Core/Bus/Drained.antt =====
-- What a subscriber of runtime/core/bus.go delivers when its goroutine and its consumer go on.
use jarvinx.Shared.{
  ℕ, zero, suc, ◌+◌, ◌-◌, ◌≤◌, ◌≡◌, refl, sym, ap, ◌∙◌, Bool, false, List, [], ◌∷◌, ◌++◌, Option,
  none, some, ◌⊎◌, arith, inl, inr, length, length-append, lt→ltb,
}
use jarvinx.Shared.Text.{Text}
use jarvinx.Core.Bus.{
  Event, Subscriber, Action, takes, offers, receives, act, after, received, sent, sent_by, offer,
  take_event, take_from, takes_in, offer_event, offers_in, receive, receives_in, new_subscriber,
}
use jarvinx.Core.Bus.Delivery.{flow, IsPaced, act-IsKept, received-paced}
use mathlib.Core.Path.{subst}
use mathlib.Core.List.{append-nil}

-- A step of the goroutine that takes an event and one that offers it, and a receive; n times, newest
-- action first, after a history.
abbrev pub drained : {P : Type 0} → ℕ → List (Action P) → List (Action P)
drained zero h = h
drained (suc n) h = receives ∷ offers ∷ takes ∷ drained n h

module _ {P : Type 0} (size : ℕ) where
  abbrev running : Text → List (Event P) → Option (Event P) → List (Event P) → Bool → Subscriber P
  running name ch hand dispatch quit = record {
    name = name;
    ch = ch;
    dispatch = dispatch;
    quit = quit;
    hand = hand;
    stopped = false;
  }

  -- What a round leaves of a subscriber: a state after the goroutine's steps, and one after the receive.
  abbrev IsLeft : ℕ → Subscriber P → Type 0
  IsLeft flowing o =
      (length (flow (receive o).0) ≤ flowing - 1)
      × (length (flow o) ≤ flowing)
      × ((receive o).0.stopped ≡ false)

  abbrev IsRound : Subscriber P → Type 0
  IsRound s =
      IsLeft (length (flow s)) (offer_event size (take_event s))
      × (length (flow (take_event s)) ≤ length (flow s))

  offer-room :
      (x : Event P) (ch : List (Event P)) → suc (length ch) ≤ size → offer size x ch ≡ ch ++ x ∷ []
  unfolding offer
  offer-room x ch room = rw (lt→ltb (length ch) size (omega arith)) refl

  -- The receive after the steps of the goroutine.
  left :
      (name : Text) (ch dispatch : List (Event P)) (quit : Bool) (flowing : ℕ)
      → length ch + length dispatch ≤ flowing
      → suc (length dispatch) ≤ length ch + length dispatch ⊎ (length dispatch ≡ 0)
      → IsLeft flowing (running name ch none dispatch quit)
  unfolding receive receives_in flow
  left name [] dispatch quit flowing few (inl some') = absurd (omega arith)
  left name [] dispatch quit flowing few (inr empty) = (omega arith, omega arith, refl)
  left name (y ∷ ch) dispatch quit flowing few some' =
      (omega (arith, length-append ch dispatch), omega (arith, length-append ch dispatch), refl)

  holding :
      (name : Text) (ch : List (Event P)) (x : Event P) (dispatch : List (Event P)) (quit : Bool)
      (flowing : ℕ)
      → length ch + suc (length dispatch) ≤ flowing
      → flowing ≤ size
      → IsLeft flowing (offer_event size (running name ch (some x) dispatch quit))
  unfolding offer_event offers_in
  holding name ch x dispatch quit flowing few room =
      subst (λ q. IsLeft flowing (running name q none dispatch quit))
        (sym (offer-room x ch (omega arith)))
        (left name (ch ++ x ∷ []) dispatch quit flowing (omega (arith, length-append ch (x ∷ [])))
          (inl (omega (arith, length-append ch (x ∷ [])))))

  by_hand :
      (name : Text) (ch : List (Event P)) (hand : Option (Event P)) (dispatch : List (Event P))
      (quit : Bool)
      → length (flow (running name ch hand dispatch quit)) ≤ size
      → IsRound (running name ch hand dispatch quit)
  unfolding flow take_event takes_in take_from
  by_hand name ch (some x) dispatch quit room = (
    holding name ch x dispatch quit _ (omega (arith, length-append ch (x ∷ dispatch))) room,
    omega arith,
  )
  by_hand name ch none (x ∷ dispatch) quit room = (
    holding name ch x dispatch quit _ (omega (arith, length-append ch (x ∷ dispatch))) room,
    omega arith,
  )
  by_hand name ch none [] quit room = (
    unfold offer_event offers_in in
        left name ch [] quit _ (omega (arith, length-append {A = Event P} ch [])) (inr refl),
    omega arith,
  )

  take_event-IsRound : (s : Subscriber P) → s.stopped ≡ false → length (flow s) ≤ size → IsRound s
  take_event-IsRound s goes room =
      let same : s ≡ running s.name s.ch s.hand s.dispatch s.quit =
        ap (λ b. record s { stopped = b }) goes in
      subst IsRound (sym same) (
        by_hand s.name s.ch s.hand s.dispatch s.quit
          (subst (λ r. length (flow r) ≤ size) same room))

  length-zero : (xs : List (Event P)) → length xs ≤ 0 → xs ≡ []
  length-zero [] few = refl
  length-zero (x ∷ xs) few = absurd (omega arith)

  -- What is known of a subscriber after a history.
  record IsCalm (name : Text) (h : List (Action P)) : Type 0 where
    paced : IsPaced size h (new_subscriber name)
    room : length (flow (after size h (new_subscriber name))) ≤ size
    goes : (after size h (new_subscriber name)).stopped ≡ false

  paced-room :
      (h : List (Action P)) (name : Text)
      → IsPaced size h (new_subscriber name)
      → length (flow (after size h (new_subscriber name))) ≤ size
  unfolding IsPaced after
  paced-room [] name p = unfold flow new_subscriber in omega arith
  paced-room (a ∷ h) name p =
      let s = after size h (new_subscriber name) in
      let out = act size a s in
      omega (
        arith,
        p.0,
        ap length ((act-IsKept size a s).1 p.0),
        length-append out.1 (flow out.0),
        length-append (flow s) (sent_by a),
      )

  drained-IsCalm :
      (n : ℕ) (h : List (Action P)) (name : Text)
      → IsCalm name h
      → IsCalm name (drained n h)
        × (length (flow (after size (drained n h) (new_subscriber name)))
            ≤ length (flow (after size h (new_subscriber name))) - n)
  unfolding IsPaced after act sent_by
  drained-IsCalm zero h name calm = (calm, omega arith)
  drained-IsCalm (suc n) h name calm =
      let (before, fewer) = drained-IsCalm n h name calm in
      let s = after size (drained n h) (new_subscriber name) in
      let ((shorter, offered, goes'), taken) = take_event-IsRound s before.goes before.room in
      (
        record {
          paced = (
            omega (arith, before.room, offered),
            (omega (arith, before.room, taken), (omega (arith, before.room), before.paced)),
          );
          room = omega (arith, before.room, shorter);
          goes = goes';
        },
        omega (arith, shorter, fewer),
      )

  drained-sent : (n : ℕ) (h : List (Action P)) → sent (drained n h) ≡ sent h
  unfolding sent sent_by
  drained-sent zero h = refl
  drained-sent (suc n) h =
      append-nil ((sent (drained n h) ++ []) ++ [])
      ∙ append-nil (sent (drained n h) ++ [])
      ∙ append-nil (sent (drained n h))
      ∙ drained-sent n h

  -- When at most as many events as the consumer's buffer holds were on their way to it at any time, one
  -- that is sent included, and the goroutine has not stopped, then as many rounds as there are events on
  -- their way, in each of which the goroutine takes an event and offers it and the consumer receives,
  -- are enough: the consumer has then received exactly the events that were sent, in their order.
  pub received-drained :
      (h : List (Action P)) (name : Text)
      → IsPaced size h (new_subscriber name)
      → (after size h (new_subscriber name)).stopped ≡ false
      → let n = length (flow (after size h (new_subscriber name))) in
        received size (drained n h) (new_subscriber name) ≡ sent h
  received-drained h name paced goes =
      let n = length (flow (after size h (new_subscriber name))) in
      let (calm, few) =
        drained-IsCalm n h name
          (record { paced = paced; room = paced-room h name paced; goes = goes }) in
      let rest = flow (after size (drained n h) (new_subscriber name)) in
      let empty : rest ≡ [] = length-zero rest (omega (arith, few)) in
      let got = received size (drained n h) (new_subscriber name) in
      sym (append-nil got)
      ∙ ap (λ r. got ++ r) (sym empty)
      ∙ received-paced size (drained n h) name calm.paced
      ∙ drained-sent n h
