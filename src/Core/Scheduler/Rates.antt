-- ===== src/Core/Scheduler/Rates.antt =====
-- The rates of the network that runtime/core/scheduler.go publishes.
use jarvinx.Shared.{
  ◌≡◌, refl, ap, ◌∙◌, Bool, true, false, List, [], ◌∷◌, Option, none, some, Bool-cases, inl, inr,
  ◌==◌, if◌then◌else◌,
}
use jarvinx.Shared.Clock.{Time, Duration, since}
use jarvinx.Shared.Float.{Float64, seconds}
use jarvinx.Tools.Processes.{ProcInfo}
use jarvinx.Tools.Network.{NetCounters, read_net_counters, delta_mbps}
use jarvinx.Tools.Observation.{
  SystemState, Readings, Usage, Observed, observation, state_of, observed, not_observed, panicked,
  observe_with_context,
}
use jarvinx.Core.Scheduler.{
  Scheduler, Loop, Tick, Outcome, stopped, crashed, published_error, published, start, reticked,
  to_snapshot, with_rates, keep_counters, on_observed, tick,
}

-- The first interface, if the counters could be read.
abbrev pub reading : Option (List NetCounters) → Option NetCounters
reading none = none
reading (some []) = none
reading (some (first ∷ others)) = some first

abbrev pub or_else : Option NetCounters → Option NetCounters → Option NetCounters
or_else none older = older
or_else (some net) older = some net

-- What a loop keeps of the counters, if it has any.
abbrev pub kept_net : Loop → Option NetCounters
kept_net l = if l.has_net then some l.prev_net else none

abbrev pub is_observed : {F : Type 0} → Observed F → Bool
is_observed (observed state) = true
is_observed (not_observed error) = false
is_observed panicked = false

reticked-net :
    (i : Duration) (l : Loop)
    → (kept_net (reticked i l) ≡ kept_net l) × ((reticked i l).prev_net_at ≡ l.prev_net_at)
unfolding reticked
reticked-net i l = elim (Bool-cases (i == l.current_interval)) [
  | inl same ↦ rw same (refl, refl)
  | inr differs ↦ rw differs (refl, refl)
]

start-net :
    (s : Scheduler) (counters : Option (List NetCounters)) (now : Time)
    → kept_net (start s counters now) ≡ reading counters
unfolding start read_net_counters
start-net s none now = refl
start-net s (some []) now = refl
start-net s (some (first ∷ others)) now = refl

keep_counters-net :
    {F : Type 0} (t : Tick F) (counters : Option (List NetCounters)) (l : Loop)
    → kept_net (keep_counters t (read_net_counters counters) l)
      ≡ or_else (reading counters) (kept_net l)
unfolding keep_counters read_net_counters
keep_counters-net t none l = refl
keep_counters-net t (some []) l = refl
keep_counters-net t (some (first ∷ others)) l = refl

module _ {F : Type 0} where
  -- The rates between two readings, and zero if one is missing.
  abbrev pub rates : ⦃fl : Float64 F⦄ → Option NetCounters → Option NetCounters → F → F × F
  rates ⦃fl⦄ none curr elapsed = (fl.decimal 0 0, fl.decimal 0 0)
  rates ⦃fl⦄ (some prev) none elapsed = (fl.decimal 0 0, fl.decimal 0 0)
  rates (some prev) (some curr) elapsed = delta_mbps prev curr elapsed

  module _ ⦃fl : Float64 F⦄ (sort : List ProcInfo → List ProcInfo) where
    -- The newest reading of the ticks that observed the machine, newest first, and of the start.
    abbrev pub last_reading : List (Tick F) → Option NetCounters → Option NetCounters
    last_reading [] at_start = at_start
    last_reading (t ∷ past) at_start =
        let older = last_reading past at_start in
        if is_observed (observe_with_context sort t.readings)
        then or_else (reading t.counters) older
        else older

    -- The time of the newest tick that observed the machine, or of the start.
    abbrev pub last_time : List (Tick F) → Time → Time
    last_time [] at_start = at_start
    last_time (t ∷ past) at_start =
        let older = last_time past at_start in
        if is_observed (observe_with_context sort t.readings) then t.later else older

    -- The loop after some ticks, newest first.
    abbrev pub after : List (Tick F) → Loop → Loop
    after [] l = l
    after (t ∷ past) l = (tick sort t (after past l)).0

    on_observed-net :
        (t : Tick F) (o : Observed F) (l : Loop)
        → (kept_net (on_observed t o l).0
            ≡ (if is_observed o then or_else (reading t.counters) (kept_net l) else kept_net l))
          × ((on_observed t o l).0.prev_net_at ≡ (if is_observed o then t.later else l.prev_net_at))
    unfolding on_observed keep_counters
    on_observed-net t (observed state) l = (keep_counters-net t t.counters l, refl)
    on_observed-net t (not_observed error) l = (refl, refl)
    on_observed-net t panicked l = (refl, refl)

    after-net :
        (past : List (Tick F)) (s : Scheduler) (counters : Option (List NetCounters)) (now : Time)
        → let l = after past (start s counters now) in
          (kept_net l ≡ last_reading past (reading counters)) × (l.prev_net_at ≡ last_time past now)
    unfolding tick start
    after-net [] s counters now = (start-net s counters now, refl)
    after-net (t ∷ past) s counters now =
        let l = after past (start s counters now) in
        let o = observe_with_context sort t.readings in
        let (net, time) = after-net past s counters now in
        let (net', time') = reticked-net t.interval l in
        let (net'', time'') = on_observed-net t o (reticked t.interval l) in
        (net'' ∙ rw (net', net) refl, time'' ∙ rw (time', time) refl)

    -- A state as the observation makes it: without rates.
    HasNoRates : Observed F → Type 0
    HasNoRates (observed state) =
        (state.net_recv_mbps ≡ fl.decimal 0 0) × (state.net_sent_mbps ≡ fl.decimal 0 0)
    HasNoRates (not_observed error) = Unit
    HasNoRates panicked = Unit

    observation-HasNoRates :
        (r : Readings F) (percents : Option (List F)) (mem disk : Option (Usage F))
        → HasNoRates (observation sort r percents mem disk)
    unfolding observation state_of HasNoRates
    observation-HasNoRates r none mem disk = tt
    observation-HasNoRates r (some percents) none disk = tt
    observation-HasNoRates r (some percents) (some mem) none = tt
    observation-HasNoRates r (some []) (some mem) (some disk) = tt
    observation-HasNoRates r (some (cpu ∷ others)) (some mem) (some disk) = (refl, refl)

    observe_with_context-HasNoRates : (r : Readings F) → HasNoRates (observe_with_context sort r)
    unfolding observe_with_context HasNoRates
    observe_with_context-HasNoRates r = elim (Bool-cases r.cancelled) [
      | inl over ↦ rw over tt
      | inr runs ↦ rw runs (observation-HasNoRates r r.percents r.memory r.disk)
    ]

    -- The state with some rates.
    abbrev pub rated : SystemState F → F × F → SystemState F
    rated state (recv, sent) = record state { net_recv_mbps = recv; net_sent_mbps = sent }

    unrated :
        (state : SystemState F)
        → HasNoRates (observed state)
        → state ≡ rated state (fl.decimal 0 0, fl.decimal 0 0)
    unfolding HasNoRates
    unrated state (recv, sent) =
        let both : (state.net_recv_mbps, state.net_sent_mbps) ≡ (fl.decimal 0 0, fl.decimal 0 0) =
          rw (recv, sent) refl in
        ap (λ r. rated state r) both

    -- What a tick has to do, by what it observes.
    abbrev pub expected : Tick F → Observed F → F × F → Outcome F
    expected t (observed state) r = published (to_snapshot (rated state r))
    expected t (not_observed error) r = if t.ctx_done then stopped else published_error error
    expected t panicked r = crashed

    with_rates-rated :
        (t : Tick F) (counters : Option (List NetCounters)) (l : Loop) (state : SystemState F)
        → HasNoRates (observed state)
        → with_rates t (read_net_counters counters) l state
          ≡ rated state
              (rates (kept_net l) (reading counters) (seconds (since t.now l.prev_net_at)))
    unfolding with_rates read_net_counters
    with_rates-rated t none l state zero' = elim (Bool-cases l.has_net) [
      | inl has ↦ rw has (unrated state zero')
      | inr lacks ↦ rw lacks (unrated state zero')
    ]
    with_rates-rated t (some []) l state zero' = elim (Bool-cases l.has_net) [
      | inl has ↦ rw has (unrated state zero')
      | inr lacks ↦ rw lacks (unrated state zero')
    ]
    with_rates-rated t (some (first ∷ others)) l state zero' = elim (Bool-cases l.has_net) [
      | inl has ↦ rw has refl
      | inr lacks ↦ rw lacks (unrated state zero')
    ]

    on_observed-expected :
        (t : Tick F) (o : Observed F) (l : Loop)
        → HasNoRates o
        → (on_observed t o l).1
          ≡ expected t o
              (rates (kept_net l) (reading t.counters) (seconds (since t.now l.prev_net_at)))
    unfolding on_observed
    on_observed-expected t (observed state) l zero' =
        ap (λ state. published (to_snapshot state)) (with_rates-rated t t.counters l state zero')
    on_observed-expected t (not_observed error) l zero' = refl
    on_observed-expected t panicked l zero' = refl

    -- After any ticks, a tick that observes the machine publishes a snapshot of it, and the rates of the
    -- network in the snapshot are those between the newest reading of the counters that succeeded in an
    -- earlier tick that observed the machine, or at the start, and the reading of this tick, over the
    -- time since the newest such tick or the start, whether or not its reading succeeded; they are zero
    -- if one of the readings is missing. A tick that does not observe it publishes the error, or ends
    -- the loop if the context is done.
    pub tick-expected :
        (past : List (Tick F)) (t : Tick F) (s : Scheduler) (counters : Option (List NetCounters))
        (now : Time)
        → (tick sort t (after past (start s counters now))).1
          ≡ expected t (observe_with_context sort t.readings) (
              rates
                (last_reading past (reading counters))
                (reading t.counters)
                (seconds (since t.now (last_time past now))))
    unfolding tick
    tick-expected past t s counters now =
        let l = after past (start s counters now) in
        let (net, time) = after-net past s counters now in
        let (net', time') = reticked-net t.interval l in
        on_observed-expected t (observe_with_context sort t.readings) (reticked t.interval l)
          (observe_with_context-HasNoRates t.readings)
        ∙ rw (net', time', net, time) refl
