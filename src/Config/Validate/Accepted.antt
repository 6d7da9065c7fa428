-- ===== src/Config/Validate/Accepted.antt =====
-- What a configuration that Validate of runtime/config/validate.go accepts fulfils.
use jarvinx.Shared.{
  ◌≤◌, ◌≡◌, ◌≢◌, refl, Bool, true, false, ◌||◌, List, [], ◌∷◌, ◌++◌, some, ◌⊎◌, inl, inr, arith,
  if◌then◌else◌, Bool-cases, Option-cases, All,
}
use jarvinx.Shared.Int.{ℤ, pos, ◌≤ℤ◌, ltb_ℤ}
use jarvinx.Shared.Float.{Float64}
use jarvinx.Shared.Text.{Text, codes, text_eq, text_eq→≡, trim_space, has_prefix}
use jarvinx.Config.{Config, min_interval, max_interval}
use jarvinx.Config.Validate.{
  Url, Library, ConfigError, check, each, together, is_blank, validate_threshold, check_parsed,
  validate_webhook_url, validate_file_path, validate_origin, checks, validate, is_sensitive,
  is_under, trim_seps_left, trim_seps, lower, blocked_paths, no_items,
}

-- What holds of each part.
abbrev pub IsPercentage : {F : Type 0} ⦃fl : Float64 F⦄ → F → Type 0
IsPercentage ⦃fl⦄ v = (fl.le v (fl.decimal 0 0) ≡ false) × (fl.lt (fl.decimal 100 0) v ≡ false)

abbrev pub IsHttps : Library → Text → Type 0
IsHttps lib raw =
    (raw ≡ [])
    ⊎ ((u : Url) × (lib.parse_url raw ≡ some u)
        × (u.scheme ≡ codes "https")
        × (text_eq u.host [] ≡ false))

abbrev pub IsOrigin : Text → Type 0
IsOrigin origin = has_prefix origin (codes "http://") || has_prefix origin (codes "https://") ≡ true

-- A path that is not one of these, and does not start with the other two texts. The first is "/" and the
-- eighth "c:\" without its separator.
abbrev pub refused : List (Text × Text × Text)
refused =
    (codes "", codes "//", codes "/\\")
    ∷ (codes "/etc", codes "/etc/", codes "/etc\\")
    ∷ (codes "/sys", codes "/sys/", codes "/sys\\")
    ∷ (codes "/proc", codes "/proc/", codes "/proc\\")
    ∷ (codes "/dev", codes "/dev/", codes "/dev\\")
    ∷ (codes "/boot", codes "/boot/", codes "/boot\\")
    ∷ (codes "/root", codes "/root/", codes "/root\\")
    ∷ (codes "c:", codes "c:\\/", codes "c:\\\\")
    ∷ (codes "c:\\windows", codes "c:\\windows/", codes "c:\\windows\\")
    ∷ (
      codes "c:\\windows\\system32",
      codes "c:\\windows\\system32/",
      codes "c:\\windows\\system32\\",
    )
    ∷ []

abbrev pub IsApart : Text → Text × Text × Text → Type 0
IsApart path (name, slash, backslash) =
    (text_eq path name ≡ false)
    × (has_prefix path slash ≡ false)
    × (has_prefix path backslash ≡ false)

-- A path as it is compared: without spaces around it and separators after it, in lower case.
abbrev pub compared : Library → Text → Text
compared lib raw = lower lib (trim_seps (trim_space raw))

abbrev pub IsWatchable : Library → Text → Type 0
IsWatchable lib raw =
    (text_eq (trim_space raw) [] ≡ false) × All (IsApart (compared lib raw)) refused

pub record IsAccepted {F : Type 0} ⦃fl : Float64 F⦄ (lib : Library) (c : Config F) : Type 0 where
  pub interval : (min_interval ≤ c.interval) × (c.interval ≤ max_interval)
  pub cpu : IsPercentage c.cpu_alert_threshold
  pub ram : IsPercentage c.ram_alert_threshold
  pub disk : IsPercentage c.disk_alert_threshold
  pub min_cycles : (pos 1 ≤ℤ c.alert_min_cycles) × (c.alert_min_cycles ≤ℤ pos 20)
  pub cooldown : pos 1 ≤ℤ c.alert_cooldown
  pub port : (pos 1024 ≤ℤ c.web_port) × (c.web_port ≤ℤ pos 65535)
  pub origins : (c.allowed_origins ≢ []) × All IsOrigin c.allowed_origins
  pub named :
      All
        (λ s. is_blank s ≡ false)
        (c.log_file ∷ c.state_file ∷ c.alert_file ∷ c.ollama_url ∷ c.model ∷ [])
  pub webhooks :
      All (IsHttps lib) (c.discord_webhook ∷ c.slack_webhook ∷ c.ntfy_url ∷ c.gotify_url ∷ [])
  pub paths : All (IsWatchable lib) c.file_watch_paths
  pub hour : (pos 0 ≤ℤ c.daily_report_hour) × (c.daily_report_hour ≤ℤ pos 23)
  pub minute : (pos 0 ≤ℤ c.daily_report_minute) × (c.daily_report_minute ≤ℤ pos 59)

check-nil : (b : Bool) (e : ConfigError) → check b e ≡ [] → b ≡ false
unfolding check
check-nil true e h = absurd (ground arith)
check-nil false e h = refl

guarded-nil :
    (b c : Bool) (e e' : ConfigError)
    → (if b then e ∷ [] else check c e') ≡ []
    → (b ≡ false) × (c ≡ false)
guarded-nil true c e e' h = absurd (ground arith)
guarded-nil false c e e' h = (refl, check-nil c e' h)

left_nil : (xs ys : List ConfigError) → xs ++ ys ≡ [] → xs ≡ []
left_nil [] ys h = refl
left_nil (x ∷ xs) ys h = absurd (ground arith)

right_nil : (xs ys : List ConfigError) → xs ++ ys ≡ [] → ys ≡ []
right_nil [] ys h = h
right_nil (x ∷ xs) ys h = absurd (ground arith)

together-nil : (ess : List (List ConfigError)) → together ess ≡ [] → All (λ es. es ≡ []) ess
unfolding together
together-nil [] h = tt
together-nil (es ∷ ess) h =
    (left_nil es (together ess) h, together-nil ess (right_nil es (together ess) h))

each-nil :
    (f : Text → List ConfigError) (P : Text → Type 0) (xs : List Text)
    → ((x : Text) → f x ≡ [] → P x)
    → each f xs ≡ []
    → All P xs
unfolding each
each-nil f P [] k h = tt
each-nil f P (x ∷ xs) k h =
    (k x (left_nil (f x) (each f xs) h), each-nil f P xs k (right_nil (f x) (each f xs) h))

not_less : (a b : ℤ) → ltb_ℤ a b ≡ false → b ≤ℤ a
not_less a b h = ground arith

in_range : (a low high : ℤ) → ltb_ℤ a low || ltb_ℤ high a ≡ false → (low ≤ℤ a) × (a ≤ℤ high)
in_range a low high h = ground arith

not_empty : (xs : List Text) → no_items xs ≡ false → xs ≢ []
unfolding no_items
not_empty [] h = absurd (ground arith)
not_empty (x ∷ xs) h = λ e. ground arith

module _ {F : Type 0} ⦃fl : Float64 F⦄ where
  threshold-IsPercentage : (name : Text) (v : F) → validate_threshold name v ≡ [] → IsPercentage v
  unfolding validate_threshold
  threshold-IsPercentage name v h = guarded-nil _ _ _ _ h

validate_origin-IsOrigin : (origin : Text) → validate_origin origin ≡ [] → IsOrigin origin
unfolding validate_origin check
validate_origin-IsOrigin origin h = ground arith

webhook-IsHttps :
    (lib : Library) (name raw : Text) → validate_webhook_url lib name raw ≡ [] → IsHttps lib raw
unfolding validate_webhook_url check_parsed check
webhook-IsHttps lib name raw h = elim (Bool-cases (text_eq raw [])) [
  | inl absent ↦ inl (text_eq→≡ raw [] absent)
  | inr given ↦ elim (Option-cases (lib.parse_url raw)) [
    | inl failed ↦ absurd (ground arith)
    | inr (u, parsed) ↦
        inr (u, parsed, ground (arith, text_eq→≡ u.scheme (codes "https")), ground arith)
  ]
]

no_disjunct : (a b c : Bool) → (a || b || c) ≡ false → (a ≡ false) × (b ≡ false) × (c ≡ false)
no_disjunct a b c h = (ground arith, ground arith, ground arith)

no_either : (a b : Bool) → (a || b) ≡ false → (a ≡ false) × (b ≡ false)
no_either a b h = (ground arith, ground arith)

-- What a blocked entry refuses, as the check computes it.
abbrev refused_by : Library → Text → Text × Text × Text
refused_by lib b = (lower lib (trim_seps b), lower lib b ++ codes "/", lower lib b ++ codes "\\")

is_sensitive-IsApart :
    (lib : Library) (path : Text) (bs : List Text)
    → is_sensitive lib path bs ≡ false
    → All (λ b. IsApart path (refused_by lib b)) bs
unfolding is_sensitive is_under
is_sensitive-IsApart lib path [] h = tt
is_sensitive-IsApart lib path (b ∷ bs) h =
    let (here, later) = no_either _ _ h in
    (no_disjunct _ _ _ here, is_sensitive-IsApart lib path bs later)

blocked_paths-refused :
    (lib : Library) (path : Text)
    → All (λ b. IsApart path (refused_by lib b)) blocked_paths
    → All (IsApart path) refused
unfolding lower trim_seps trim_seps_left
blocked_paths-refused lib path h = h

path-IsWatchable :
    (lib : Library) (raw : Text) → validate_file_path lib raw ≡ [] → IsWatchable lib raw
unfolding validate_file_path
path-IsWatchable lib raw h =
    let (named, allowed) = guarded-nil _ _ _ _ h in
    (
      named,
      blocked_paths-refused lib (compared lib raw)
          (is_sensitive-IsApart lib (compared lib raw) blocked_paths allowed),
    )

module _ {F : Type 0} ⦃fl : Float64 F⦄ where
  -- A configuration for which Validate collects no message: the interval is between 5 seconds and an
  -- hour, no threshold is at most 0 or above 100, the cycles, the cooldown, the port and the hour of the
  -- report are in their ranges, there are origins and each is an HTTP or HTTPS one, the files, the URL of
  -- the model server and the model are not blank, each webhook is absent or an HTTPS URL with a host,
  -- and no watched path is blank or, as it is written but without spaces around it and separators after
  -- it and in lower case, equal to a blocked name or to one followed by a separator and more: "/",
  -- "/etc", "/sys", "/proc", "/dev", "/boot", "/root", "c:\" and the two Windows directories. "/" and
  -- "c:\" count with their own separator, so only what has one more after it is refused, and a path
  -- that leads to a blocked one by dots is not.
  pub validate-IsAccepted : (lib : Library) (c : Config F) → validate lib c ≡ [] → IsAccepted lib c
  unfolding validate checks
  validate-IsAccepted lib c h =
      let (
        short,
        (
          long,
          (
            cpu,
            (
              ram,
              (
                disk,
                (
                  low,
                  (
                    high,
                    (
                      cooldown,
                      (
                        port,
                        (
                          origins,
                          (
                            each_origin,
                            (
                              log,
                              (
                                state,
                                (
                                  alert,
                                  (
                                    url,
                                    (
                                      model,
                                      (
                                        discord,
                                        (slack, (ntfy, (gotify, (paths, (hour, (minute, end)))))),
                                      ),
                                    ),
                                  ),
                                ),
                              ),
                            ),
                          ),
                        ),
                      ),
                    ),
                  ),
                ),
              ),
            ),
          ),
        ),
      ) =
        together-nil (checks lib c) h in
      record {
        interval = (ground (arith, check-nil _ _ short), ground (arith, check-nil _ _ long));
        cpu = threshold-IsPercentage (codes "CPUAlertThreshold") c.cpu_alert_threshold cpu;
        ram = threshold-IsPercentage (codes "RAMAlertThreshold") c.ram_alert_threshold ram;
        disk = threshold-IsPercentage (codes "DiskAlertThreshold") c.disk_alert_threshold disk;
        min_cycles = (
          not_less c.alert_min_cycles (pos 1) (check-nil _ _ low),
          not_less (pos 20) c.alert_min_cycles (check-nil _ _ high),
        );
        cooldown = not_less c.alert_cooldown (pos 1) (check-nil _ _ cooldown);
        port = in_range c.web_port (pos 1024) (pos 65535) (check-nil _ _ port);
        origins = (
          not_empty c.allowed_origins (check-nil _ _ origins),
          each-nil validate_origin IsOrigin c.allowed_origins validate_origin-IsOrigin each_origin,
        );
        named = (
          check-nil _ _ log,
          (
            check-nil _ _ state,
            (check-nil _ _ alert, (check-nil _ _ url, (check-nil _ _ model, tt))),
          ),
        );
        webhooks = (
          webhook-IsHttps lib _ _ discord,
          (
            webhook-IsHttps lib _ _ slack,
            (webhook-IsHttps lib _ _ ntfy, (webhook-IsHttps lib _ _ gotify, tt)),
          ),
        );
        paths =
            each-nil (validate_file_path lib) (IsWatchable lib) c.file_watch_paths
              (path-IsWatchable lib) paths;
        hour = in_range c.daily_report_hour (pos 0) (pos 23) (check-nil _ _ hour);
        minute = in_range c.daily_report_minute (pos 0) (pos 59) (check-nil _ _ minute);
      }
