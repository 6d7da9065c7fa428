-- ===== src/Agents/File/Memory.antt =====
-- What the agent of runtime/agents/file_agent.go remembers of its scans.
use jarvinx.Shared.{
  ℕ, suc, ◌≡◌, refl, ap, ◌∙◌, Bool, ◌&&◌, List, [], ◌∷◌, Option, none, some, Bool-cases, inl, inr,
  if◌then◌else◌,
}
use jarvinx.Shared.Clock.{Time}
use jarvinx.Shared.Float.{Float64, from_int}
use jarvinx.Shared.Text.{Text, text_eq}
use jarvinx.Shared.Int.{ℤ}
use jarvinx.Agents.File.{
  FileAgent, FileAlert, has_grown, Turn, new_file_agent, keep_size, scan_paths, run_on, run,
  rate_of, growth_alerts,
}

-- A run: the turns of its paths and the time of its end.
abbrev pub Run : Type 0 → Type 0
Run F = (ℕ → Turn F) × Time

module _ {F : Type 0} where
  -- A scan, or if there is none what was remembered before.
  abbrev pub recalled : Option (F × Time) → Option F × Option Time → Option F × Option Time
  recalled none older = older
  recalled (some (size, time)) older = (some size, some time)

  abbrev pub or_older : Option (F × Time) → Option (F × Time) → Option (F × Time)
  or_older none older = older
  or_older (some scan) older = some scan

  -- What an agent remembers of a path: the size and the time of a scan.
  abbrev pub remembered : FileAgent F → Text → Option F × Option Time
  remembered a name = (a.prev_sizes name, a.prev_times name)

  -- The last scan of the path in a run that gave no error, before the context was done.
  abbrev pub last_scan : List Text → (ℕ → Turn F) → Text → Option (F × Time)
  last_scan [] turns name = none
  last_scan (path ∷ paths) turns name =
      let t = turns 0 in
      let later = last_scan paths (λ n. turns (suc n)) name in
      let this =
        if text_eq path name && text_eq t.stats.error []
        then some (t.stats.total_mb, t.later)
        else none in
      if t.ctx_done then none else or_older later this

  -- The last such scan of some runs, the newest run first.
  abbrev pub last_scan_of : List (Run F) → List Text → Text → Option (F × Time)
  last_scan_of [] paths name = none
  last_scan_of ((turns, end) ∷ past) paths name =
      or_older (last_scan paths turns name) (last_scan_of past paths name)

  recalled-or_older :
      (x y : Option (F × Time)) (older : Option F × Option Time)
      → recalled x (recalled y older) ≡ recalled (or_older x y) older
  recalled-or_older none y older = refl
  recalled-or_older (some scan) y older = refl

  keep_size-remembered :
      (path : Text) (t : Turn F) (a : FileAgent F) (name : Text)
      → remembered (keep_size path t a) name
        ≡ (if text_eq path name then (some t.stats.total_mb, some t.later) else remembered a name)
  unfolding keep_size
  keep_size-remembered path t a name = elim (Bool-cases (text_eq path name)) [
    | inl same ↦ rw same refl
    | inr apart ↦ rw apart refl
  ]

  -- What a run must not change.
  abbrev configuration : FileAgent F → List Text × ℤ × Bool
  configuration a = (a.watch_paths, a.max_size_mb, a.dry_run)

  module _ ⦃fl : Float64 F⦄ where
    scan_paths-remembered :
        (paths : List Text) (turns : ℕ → Turn F) (a : FileAgent F) (name : Text)
        → remembered (scan_paths paths turns a).agent name
          ≡ recalled (last_scan paths turns name) (remembered a name)
    unfolding scan_paths keep_size
    scan_paths-remembered [] turns a name = refl
    scan_paths-remembered (path ∷ paths) turns a name =
        let t = turns 0 in
        let next = λ (n : ℕ). turns (suc n) in
        elim (Bool-cases t.ctx_done) [
          | inl over ↦ rw over refl
          | inr goes ↦ elim (Bool-cases (text_eq t.stats.error [])) [
            | inl sound ↦ elim (Bool-cases (text_eq path name)) [
              | inl same ↦
                  rw (goes, sound, same)
                    (scan_paths-remembered paths next (keep_size path t a) name
                      ∙ rw same (
                          recalled-or_older (last_scan paths next name)
                            (some (t.stats.total_mb, t.later)) (remembered a name)))
              | inr apart ↦
                  rw (goes, sound, apart)
                    (scan_paths-remembered paths next (keep_size path t a) name
                      ∙ rw apart
                          (recalled-or_older (last_scan paths next name) none (remembered a name)))
            ]
            | inr broken ↦ elim (Bool-cases (text_eq path name)) [
              | inl same ↦
                  rw (goes, broken, same)
                    (scan_paths-remembered paths next a name
                      ∙ recalled-or_older (last_scan paths next name) none (remembered a name))
              | inr apart ↦
                  rw (goes, broken, apart)
                    (scan_paths-remembered paths next a name
                      ∙ recalled-or_older (last_scan paths next name) none (remembered a name))
            ]
          ]
        ]

    scan_paths-configuration :
        (paths : List Text) (turns : ℕ → Turn F) (a : FileAgent F)
        → configuration (scan_paths paths turns a).agent ≡ configuration a
    unfolding scan_paths keep_size
    scan_paths-configuration [] turns a = refl
    scan_paths-configuration (path ∷ paths) turns a =
        let t = turns 0 in
        let next = λ (n : ℕ). turns (suc n) in
        elim (Bool-cases t.ctx_done) [
          | inl over ↦ rw over refl
          | inr goes ↦ elim (Bool-cases (text_eq t.stats.error [])) [
            | inl sound ↦
                rw (goes, sound) (scan_paths-configuration paths next (keep_size path t a))
            | inr broken ↦ rw (goes, broken) (scan_paths-configuration paths next a)
          ]
        ]

    run_on-remembered :
        (paths : List Text) (turns : ℕ → Turn F) (end : Time) (a : FileAgent F) (name : Text)
        → (remembered (run_on paths turns end a).agent name
            ≡ recalled (last_scan paths turns name) (remembered a name))
          × (configuration (run_on paths turns end a).agent ≡ configuration a)
    unfolding run_on
    run_on-remembered [] turns end a name = (refl, refl)
    run_on-remembered (path ∷ paths) turns end a name =
        let kept = scan_paths-remembered (path ∷ paths) turns a name in
        let same = scan_paths-configuration (path ∷ paths) turns a in
        elim (Bool-cases (scan_paths (path ∷ paths) turns a).ctx_done) [
          | inl over ↦ rw over (kept, same)
          | inr ended ↦ rw ended (kept, same)
        ]

    -- The agent after some runs, the newest first.
    abbrev pub after : List (Run F) → FileAgent F → FileAgent F
    after [] a = a
    after ((turns, end) ∷ past) a = (run turns end (after past a)).agent

    after-remembered :
        (past : List (Run F)) (paths : List Text) (max_size_mb : ℤ) (dry_run : Bool) (name : Text)
        → let a = after past (new_file_agent paths max_size_mb dry_run) in
          (remembered a name ≡ recalled (last_scan_of past paths name) (none, none))
          × (configuration a ≡ (paths, max_size_mb, dry_run))
    unfolding run new_file_agent
    after-remembered [] paths max_size_mb dry_run name = (refl, refl)
    after-remembered ((turns, end) ∷ past) paths max_size_mb dry_run name =
        let a = after past (new_file_agent paths max_size_mb dry_run) in
        let (kept, same) = after-remembered past paths max_size_mb dry_run name in
        let (kept', same') = run_on-remembered a.watch_paths turns end a name in
        (
          kept'
              ∙ rw (kept, ap (λ c. c.0) same)
                  (recalled-or_older (last_scan paths turns name) (last_scan_of past paths name)
                    (none, none)),
          same' ∙ same,
        )

    -- The alert on growth since a scan.
    abbrev pub grown : ℤ → Bool → Text → Turn F → Option (F × Time) → List (FileAlert F)
    grown max_size_mb dry_run path t none = []
    grown max_size_mb dry_run path t (some (size, time)) =
        let growth = fl.sub t.stats.total_mb size in
        if fl.lt (fl.div (from_int max_size_mb) (fl.decimal 2 0)) growth
        then has_grown dry_run path growth (rate_of growth (some time) t.now) t.stats.total_mb ∷ []
        else []

    growth_alerts-grown :
        (paths : List Text) (max_size_mb : ℤ) (dry_run : Bool) (path : Text) (t : Turn F)
        (a : FileAgent F) (scan : Option (F × Time))
        → remembered a path ≡ recalled scan (none, none)
        → configuration a ≡ (paths, max_size_mb, dry_run)
        → growth_alerts path t (a.prev_sizes path) a ≡ grown max_size_mb dry_run path t scan
    unfolding growth_alerts
    growth_alerts-grown paths max_size_mb dry_run path t a none kept same =
        rw (ap (λ k. k.0) kept) refl
    growth_alerts-grown paths max_size_mb dry_run path t a (some (size, time)) kept same =
        rw (ap (λ k. k.0) kept, ap (λ k. k.1) kept, ap (λ c. c.1) same, ap (λ c. c.2) same) refl

    -- After any runs of a new agent, the alert on the growth of a path compares its size with that of
    -- the last scan of the path, in any run, that gave no error and came before the context was done,
    -- and divides by the time since that scan; there is none if there was no such scan or the growth is
    -- not above half the limit.
    pub growth_alerts-after :
        (past : List (Run F)) (paths : List Text) (max_size_mb : ℤ) (dry_run : Bool) (path : Text)
        (t : Turn F)
        → let a = after past (new_file_agent paths max_size_mb dry_run) in
          growth_alerts path t (a.prev_sizes path) a
          ≡ grown max_size_mb dry_run path t (last_scan_of past paths path)
    unfolding growth_alerts
    growth_alerts-after past paths max_size_mb dry_run path t =
        let a = after past (new_file_agent paths max_size_mb dry_run) in
        let (kept, same) = after-remembered past paths max_size_mb dry_run path in
        growth_alerts-grown paths max_size_mb dry_run path t a (last_scan_of past paths path) kept
          same
