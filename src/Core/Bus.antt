-- ===== src/Core/Bus.antt =====
-- runtime/core/bus.go. A subscriber and its goroutine make atomic steps: a channel operation each. Of
-- the scheduler nothing is assumed: any sequence of steps can occur, and a step that cannot be made
-- changes nothing. The buffer of a channel is taken to have room for at least one event; NewRuntime
-- makes it 10.
pub mod Delivery
pub mod Drained
pub mod Registered
mod Scenarios
use jarvinx.Shared.{
  ℕ, suc, ◌+◌, ◌*◌, Bool, true, false, ◌&&◌, not, List, [], ◌∷◌, ◌++◌, map, Option, none, some, ltb,
  if◌then◌else◌, length,
}
use jarvinx.Shared.Text.{Text, text_eq}

pub data EventType : Type 0 where
  event_observed event_decided event_executed event_logged event_error : EventType

pub record Event (P : Type 0) : Type 0 where
  pub type : EventType
  pub payload : P

-- `hand` is the event that the goroutine has taken from `dispatch` and not yet offered to `ch`.
pub record Subscriber (P : Type 0) : Type 0 where
  pub name : Text
  pub ch : List (Event P)
  pub dispatch : List (Event P)
  pub quit : Bool
  pub hand : Option (Event P)
  pub stopped : Bool

pub record Bus (P : Type 0) : Type 0 where
  pub subscribers : List (Subscriber P)
  pub buffer_size : ℕ

module _ {P : Type 0} where
  -- A send that does not block: dropped when the buffer is full.
  offer : ℕ → Event P → List (Event P) → List (Event P)
  offer capacity e queue = if ltb (length queue) capacity then queue ++ e ∷ [] else queue

  -- The send of Publish to one subscriber.
  unfoldable pub send : ℕ → Event P → Subscriber P → Subscriber P
  unfolding offer
  send buffer_size e s = record s { dispatch = offer (buffer_size * 2) e s.dispatch }

  -- The branch `case e := <-s.dispatch` of run.
  take_from : List (Event P) → Subscriber P → Subscriber P
  take_from [] s = s
  take_from (e ∷ queue) s = record s { dispatch = queue; hand = some e }

  takes_in : Option (Event P) → Subscriber P → Subscriber P
  unfolding take_from
  takes_in (some e) s = s
  takes_in none s = if s.stopped then s else take_from s.dispatch s

  unfoldable pub take_event : Subscriber P → Subscriber P
  unfolding takes_in
  take_event s = takes_in s.hand s

  -- The inner select of run.
  offers_in : ℕ → Option (Event P) → Subscriber P → Subscriber P
  unfolding offer
  offers_in buffer_size none s = s
  offers_in buffer_size (some e) s = record s { ch = offer buffer_size e s.ch; hand = none }

  unfoldable pub offer_event : ℕ → Subscriber P → Subscriber P
  unfolding offers_in
  offer_event buffer_size s = offers_in buffer_size s.hand s

  -- The branch `case <-s.quit` of run, which closes ch.
  stops_in : Option (Event P) → Subscriber P → Subscriber P
  stops_in (some e) s = s
  stops_in none s = if s.quit then record s { stopped = true } else s

  unfoldable pub stop : Subscriber P → Subscriber P
  unfolding stops_in
  stop s = stops_in s.hand s

  -- The consumer's receive: the event, if there is one.
  receives_in : List (Event P) → Subscriber P → Subscriber P × List (Event P)
  receives_in [] s = (s, [])
  receives_in (e ∷ queue) s = (record s { ch = queue }, e ∷ [])

  unfoldable pub receive : Subscriber P → Subscriber P × List (Event P)
  unfolding receives_in
  receive s = receives_in s.ch s

  unfoldable pub new_subscriber : Text → Subscriber P
  new_subscriber name = record {
    name = name;
    ch = [];
    dispatch = [];
    quit = false;
    hand = none;
    stopped = false;
  }

  unfoldable pub new_bus : ℕ → Bus P
  new_bus buffer_size = record { subscribers = []; buffer_size = buffer_size }

  unfoldable pub subscribe : Text → Bus P → Bus P
  unfolding new_subscriber
  subscribe name b = record b { subscribers = b.subscribers ++ new_subscriber name ∷ [] }

  unfoldable pub publish : Event P → Bus P → Bus P
  unfolding send
  publish e b = record b { subscribers = map (send b.buffer_size e) b.subscribers }

  unfoldable pub close_quit : Subscriber P → Subscriber P
  close_quit s = record s { quit = true }

  -- The first subscriber of that name leaves the list; its goroutine is told to stop. It is returned
  -- as well, since its channels live on.
  removed : Text → List (Subscriber P) → List (Subscriber P) × Option (Subscriber P)
  unfolding text_eq close_quit
  removed name [] = ([], none)
  removed name (s ∷ subs) =
      let (rest, gone) = removed name subs in
      if text_eq s.name name then (subs, some (close_quit s)) else (s ∷ rest, gone)

  unfoldable pub unsubscribe : Text → Bus P → Bus P × Option (Subscriber P)
  unfolding removed
  unsubscribe name b =
      let (subs, gone) = removed name b.subscribers in (record b { subscribers = subs }, gone)

  unfoldable pub len : Bus P → ℕ
  len b = length b.subscribers

-- What can happen to one subscriber.
pub data Action (P : Type 0) : Type 0 where
  sends : Event P → Action P
  takes offers receives quits stops : Action P

module _ {P : Type 0} where
  unfoldable pub act : ℕ → Action P → Subscriber P → Subscriber P × List (Event P)
  unfolding send take_event offer_event receive close_quit stop
  act size (sends e) s = (send size e s, [])
  act size takes s = (take_event s, [])
  act size offers s = (offer_event size s, [])
  act size receives s = receive s
  act size quits s = (close_quit s, [])
  act size stops s = (stop s, [])

  -- The subscriber after a history, newest action first, and what its consumer has received by then,
  -- oldest event first.
  unfoldable pub after : ℕ → List (Action P) → Subscriber P → Subscriber P
  after size [] s = s
  after size (a ∷ h) s = (act size a (after size h s)).0

  unfoldable pub received : ℕ → List (Action P) → Subscriber P → List (Event P)
  unfolding after
  received size [] s = []
  received size (a ∷ h) s = received size h s ++ (act size a (after size h s)).1

  unfoldable pub sent_by : Action P → List (Event P)
  sent_by (sends e) = e ∷ []
  sent_by _ = []

  unfoldable pub sent : List (Action P) → List (Event P)
  unfolding sent_by
  sent [] = []
  sent (a ∷ h) = sent h ++ sent_by a
