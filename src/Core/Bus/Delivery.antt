-- ===== src/Core/Bus/Delivery.antt =====
-- What a subscriber of runtime/core/bus.go delivers, over any sequence of its steps.
use jarvinx.Shared.{
  ℕ, ◌+◌, ◌*◌, ◌≤◌, ◌≡◌, refl, sym, ap, ◌∙◌, Bool, true, false, List, [], ◌∷◌, ◌++◌, Option, none,
  some, arith, ltb, if◌then◌else◌, Bool-cases, inl, inr, length, length-append,
}
use jarvinx.Shared.Text.{Text}
use jarvinx.Core.Bus.{
  Event, Subscriber, Action, sends, takes, offers, receives, quits, stops, act, after, received,
  sent, sent_by, offer, send, take_event, take_from, takes_in, offer_event, offers_in, stop,
  stops_in, receive, receives_in, close_quit, new_subscriber,
}
use mathlib.Core.Path.{subst}
use mathlib.Core.List.{append_assoc, append-nil, Sublist}
use mathlib.Core.List.Sublist as Sub

abbrev pub held {ℓ} : {A : Type ℓ} → Option A → List A
held none = []
held (some a) = a ∷ []

-- What is on its way to the consumer, the next event first.
unfoldable pub flow : {P : Type 0} → Subscriber P → List (Event P)
flow s = s.ch ++ (held s.hand ++ s.dispatch)

module _ {ℓ} {A : Type ℓ} where
  equal-Sublist : {xs ys : List A} → xs ≡ ys → Sublist xs ys
  equal-Sublist {xs} e = subst (λ ys. Sublist xs ys) e (Sub.refl xs)

  nil-Sublist : (xs : List A) → Sublist [] xs
  nil-Sublist [] = Sub.refl []
  nil-Sublist (x ∷ xs) = Sub.cons x (nil-Sublist xs)

  grow : (xs ys : List A) → Sublist xs (xs ++ ys)
  grow xs ys =
      subst (λ l. Sublist l (xs ++ ys)) (append-nil xs) (Sub.append (Sub.refl xs) (nil-Sublist ys))

  append_three : (a b c d : List A) → a ++ (b ++ (c ++ d)) ≡ (a ++ (b ++ c)) ++ d
  append_three a b c d =
      ap (λ r. a ++ r) (sym (append_assoc b c d)) ∙ sym (append_assoc a (b ++ c) d)

-- An action moves events on: what it hands to the consumer and what is on its way after it, from what
-- was on its way before and what it sends. It drops none while at most `size` are on their way.
abbrev pub IsKept :
    {P : Type 0} → ℕ → Subscriber P → List (Event P) → Subscriber P × List (Event P) → Type 0
IsKept size s new out =
    Sublist (out.1 ++ flow out.0) (flow s ++ new)
    × (length (flow s) + length new ≤ size → out.1 ++ flow out.0 ≡ flow s ++ new)

module _ {P : Type 0} (size : ℕ) where
  moved :
      (s : Subscriber P) (new : List (Event P)) (out : Subscriber P × List (Event P))
      → out.1 ++ flow out.0 ≡ flow s ++ new
      → IsKept size s new out
  moved s new out e = (equal-Sublist e, λ h. e)

  send-IsKept : (e : Event P) (s : Subscriber P) → IsKept size s (e ∷ []) (send size e s, [])
  unfolding send flow offer
  send-IsKept e s = elim (Bool-cases (ltb (length s.dispatch) (size * 2))) [
    | inl room ↦
        let same = append_three s.ch (held s.hand) s.dispatch (e ∷ []) in
        rw room (equal-Sublist same, λ h. same)
    | inr full ↦ rw full (
      grow (s.ch ++ (held s.hand ++ s.dispatch)) (e ∷ []),
      λ h. absurd (
          ground (
            arith,
            length-append s.ch (held s.hand ++ s.dispatch),
            length-append (held s.hand) s.dispatch,
          )),
    )
  ]

  still : (s : Subscriber P) → IsKept size s [] (s, [])
  still s = moved s [] (s, []) (sym (append-nil (flow s)))

  if-IsKept :
      (s x y : Subscriber P) (b : Bool)
      → IsKept size s [] (x, [])
      → IsKept size s [] (y, [])
      → IsKept size s [] (if b then x else y, [])
  if-IsKept s x y true h k = h
  if-IsKept s x y false h k = k

  take_from-IsKept :
      (q : List (Event P)) (s : Subscriber P)
      → s.dispatch ≡ q
      → s.hand ≡ none
      → IsKept size s [] (take_from q s, [])
  unfolding take_from
  take_from-IsKept [] s e h = still s
  take_from-IsKept (x ∷ q) s e h =
      moved s [] (take_from (x ∷ q) s, [])
        (unfold flow in rw (e, h) (sym (append-nil (s.ch ++ (x ∷ q)))))

  take_event-IsKept : (s : Subscriber P) → IsKept size s [] (take_event s, [])
  unfolding take_event
  take_event-IsKept s = go s.hand refl
    where
      go : (o : Option (Event P)) → s.hand ≡ o → IsKept size s [] (takes_in o s, [])
      go (some x) h = unfold takes_in in still s
      go none h =
          unfold takes_in in
          if-IsKept s s (take_from s.dispatch s) s.stopped (still s)
            (take_from-IsKept s.dispatch s refl h)

  offer_event-IsKept : (s : Subscriber P) → IsKept size s [] (offer_event size s, [])
  unfolding offer_event
  offer_event-IsKept s = go s.hand refl
    where
      go : (o : Option (Event P)) → s.hand ≡ o → IsKept size s [] (offers_in size o s, [])
      go none h = unfold offers_in in still s
      go (some x) h =
          unfold offers_in flow offer in
          rw h (elim (Bool-cases (ltb (length s.ch) size)) [
            | inl room ↦
                let same =
                  append_assoc s.ch (x ∷ []) s.dispatch
                  ∙ sym (append-nil (s.ch ++ (x ∷ s.dispatch))) in
                rw room (equal-Sublist same, λ k. same)
            | inr full ↦ rw full (
              Sub.trans (Sub.append (Sub.refl s.ch) (Sub.cons x (Sub.refl s.dispatch)))
                  (grow (s.ch ++ (x ∷ s.dispatch)) []),
              λ k. absurd (ground (arith, length-append s.ch (x ∷ s.dispatch))),
            )
          ])

  stop-IsKept : (s : Subscriber P) → IsKept size s [] (stop s, [])
  unfolding stop
  stop-IsKept s = go s.hand refl
    where
      go : (o : Option (Event P)) → s.hand ≡ o → IsKept size s [] (stops_in o s, [])
      go (some x) h = unfold stops_in in still s
      go none h =
          unfold stops_in in
          if-IsKept s (record s { stopped = true }) s s.quit (unfold flow in still s) (still s)

  receive-IsKept : (s : Subscriber P) → IsKept size s [] (receive s)
  unfolding receive
  receive-IsKept s = go s.ch refl
    where
      go : (q : List (Event P)) → s.ch ≡ q → IsKept size s [] (receives_in q s)
      go [] h = unfold receives_in in still s
      go (x ∷ q) h =
          unfold receives_in in
          moved s [] (record s { ch = q }, x ∷ []) (unfold flow in rw h (sym (append-nil _)))

  pub act-IsKept : (a : Action P) (s : Subscriber P) → IsKept size s (sent_by a) (act size a s)
  unfolding act sent_by
  act-IsKept (sends e) s = send-IsKept e s
  act-IsKept takes s = take_event-IsKept s
  act-IsKept offers s = offer_event-IsKept s
  act-IsKept receives s = receive-IsKept s
  act-IsKept quits s = unfold close_quit flow in still s
  act-IsKept stops s = stop-IsKept s

  -- At most `size` events are on their way to the consumer at any time, one that is sent included.
  unfoldable pub IsPaced : List (Action P) → Subscriber P → Type 0
  IsPaced [] s = Unit {0}
  IsPaced (a ∷ h) s = (length (flow (after size h s)) + length (sent_by a) ≤ size) × IsPaced h s

  -- The consumer receives, in the order in which they were sent, some of the events that were sent, each
  -- at most once, and what is on its way after them continues that sequence.
  pub received-Sublist :
      (h : List (Action P)) (name : Text)
      → Sublist
          (received size h (new_subscriber name) ++ flow (after size h (new_subscriber name)))
          (sent h)
  unfolding received after sent
  received-Sublist [] name = unfold flow new_subscriber in Sub.refl []
  received-Sublist (a ∷ h) name =
      let s = after size h (new_subscriber name) in
      let before = received size h (new_subscriber name) in
      let joined = Sub.append (Sub.refl before) (act-IsKept a s).0 in
      let carried = Sub.append (received-Sublist h name) (Sub.refl (sent_by a)) in
      Sub.trans (equal-Sublist (append_assoc before (act size a s).1 (flow (act size a s).0))) (
        Sub.trans joined
          (Sub.trans (equal-Sublist (sym (append_assoc before (flow s) (sent_by a)))) carried))

  -- While at most as many events are on their way as the consumer's buffer holds, none is dropped: what
  -- it has received and what its channels and its goroutine hold is then exactly what was sent. Of what
  -- the goroutine has not taken when it stops, nothing is said.
  pub received-paced :
      (h : List (Action P)) (name : Text)
      → IsPaced h (new_subscriber name)
      → received size h (new_subscriber name) ++ flow (after size h (new_subscriber name)) ≡ sent h
  unfolding received after sent IsPaced
  received-paced [] name p = unfold flow new_subscriber in refl
  received-paced (a ∷ h) name p =
      let s = after size h (new_subscriber name) in
      let before = received size h (new_subscriber name) in
      append_assoc before (act size a s).1 (flow (act size a s).0)
      ∙ ap (λ r. before ++ r) ((act-IsKept a s).1 p.0)
      ∙ sym (append_assoc before (flow s) (sent_by a))
      ∙ ap (λ r. r ++ sent_by a) (received-paced h name p.1)
