-- ===== src/Config/Validate.antt =====
-- runtime/config/validate.go. url.Parse and the lower case of letters outside ASCII are parameters; an
-- error keeps what its text is formatted from.
pub mod Accepted
mod Scenarios
use jarvinx.Shared.{
  ℕ, ◌+◌, Bool, true, false, not, ◌&&◌, ◌||◌, List, [], ◌∷◌, ◌++◌, map, Option, none, some, ltb,
  leb, ◌==◌, if◌then◌else◌,
}
use jarvinx.Shared.Int.{ℤ, pos, ltb_ℤ}
use jarvinx.Shared.Clock.{Duration}
use jarvinx.Shared.Float.{Float64}
use jarvinx.Shared.Text.{Text, codes, text_eq, trim_space, has_prefix}
use jarvinx.Config.{Config, min_interval, max_interval}
use mathlib.Core.List.{reverse}

-- The scheme and the host of a parsed URL.
pub record Url : Type 0 where
  pub scheme : Text
  pub host : Text

pub record Library : Type 0 where
  pub parse_url : Text → Option Url
  pub unicode_lower : ℕ → ℕ

pub data ConfigError : Type 0 where
  interval_short interval_long : Duration → ConfigError
  threshold_low threshold_high : Text → ConfigError
  min_cycles_low min_cycles_high cooldown_low : ℤ → ConfigError
  bad_port : ℤ → ConfigError
  no_origins : ConfigError
  bad_origin : Text → ConfigError
  empty_field : Text → ConfigError
  bad_url bad_scheme no_host : Text → ConfigError
  empty_path : ConfigError
  sensitive_path : Text → ConfigError
  bad_hour bad_minute : ℤ → ConfigError

unfoldable pub check : Bool → ConfigError → List ConfigError
check true e = e ∷ []
check false e = []

unfoldable pub each : (Text → List ConfigError) → List Text → List ConfigError
each f [] = []
each f (x ∷ xs) = f x ++ each f xs

unfoldable pub together : List (List ConfigError) → List ConfigError
together [] = []
together (es ∷ rest) = es ++ together rest

abbrev pub is_blank : Text → Bool
unfolding trim_space text_eq
is_blank s = text_eq (trim_space s) []

module _ {F : Type 0} ⦃fl : Float64 F⦄ where
  unfoldable pub validate_threshold : Text → F → List ConfigError
  unfolding check
  validate_threshold name value =
      if fl.le value (fl.decimal 0 0)
      then threshold_low name ∷ []
      else check (fl.lt (fl.decimal 100 0) value) (threshold_high name)

check_parsed : Text → Option Url → List ConfigError
unfolding check
check_parsed name none = bad_url name ∷ []
check_parsed name (some u) =
    if not (text_eq u.scheme (codes "https"))
    then bad_scheme name ∷ []
    else check (text_eq u.host []) (no_host name)

unfoldable pub validate_webhook_url : Library → Text → Text → List ConfigError
unfolding check_parsed text_eq
validate_webhook_url lib name raw =
    if text_eq raw [] then [] else check_parsed name (lib.parse_url raw)

-- strings.TrimRight with the separators / and \.
unfoldable pub trim_seps_left : Text → Text
trim_seps_left [] = []
trim_seps_left (c ∷ s) = if c == 47 || c == 92 then trim_seps_left s else c ∷ s

unfoldable pub trim_seps : Text → Text
unfolding trim_seps_left
trim_seps s = reverse (trim_seps_left (reverse s))

unfoldable pub lower : Library → Text → Text
lower lib s =
    map
      (λ c. if ltb c 128 then (if leb 65 c && leb c 90 then c + 32 else c) else lib.unicode_lower c)
      s

abbrev pub blocked_paths : List Text
blocked_paths =
    codes "/"
    ∷ codes "/etc"
    ∷ codes "/sys"
    ∷ codes "/proc"
    ∷ codes "/dev"
    ∷ codes "/boot"
    ∷ codes "/root"
    ∷ codes "c:\\"
    ∷ codes "c:\\windows"
    ∷ codes "c:\\windows\\system32"
    ∷ []

-- The test of one blocked entry.
unfoldable pub is_under : Library → Text → Text → Bool
unfolding text_eq has_prefix lower trim_seps
is_under lib normalized b =
    text_eq normalized (lower lib (trim_seps b))
    || has_prefix normalized (lower lib b ++ codes "/")
    || has_prefix normalized (lower lib b ++ codes "\\")

unfoldable pub is_sensitive : Library → Text → List Text → Bool
unfolding is_under
is_sensitive lib normalized [] = false
is_sensitive lib normalized (b ∷ bs) = is_under lib normalized b || is_sensitive lib normalized bs

unfoldable pub validate_file_path : Library → Text → List ConfigError
unfolding is_sensitive check lower trim_seps trim_space
validate_file_path lib raw =
    let path = trim_space raw in
    if text_eq path []
    then empty_path ∷ []
    else check (is_sensitive lib (lower lib (trim_seps path)) blocked_paths) (sensitive_path path)

unfoldable pub validate_origin : Text → List ConfigError
unfolding check has_prefix
validate_origin origin =
    check (not (has_prefix origin (codes "http://")) && not (has_prefix origin (codes "https://")))
      (bad_origin origin)

no_items : List Text → Bool
no_items [] = true
no_items (_ ∷ _) = false

module _ {F : Type 0} ⦃fl : Float64 F⦄ (lib : Library) where
  -- What each check of Validate adds to the messages, in order.
  unfoldable pub checks : Config F → List (List ConfigError)
  unfolding check each is_blank validate_threshold validate_webhook_url validate_file_path
      validate_origin no_items
  checks c =
      check (ltb c.interval min_interval) (interval_short c.interval)
      ∷ check (ltb max_interval c.interval) (interval_long c.interval)
      ∷ validate_threshold (codes "CPUAlertThreshold") c.cpu_alert_threshold
      ∷ validate_threshold (codes "RAMAlertThreshold") c.ram_alert_threshold
      ∷ validate_threshold (codes "DiskAlertThreshold") c.disk_alert_threshold
      ∷ check (ltb_ℤ c.alert_min_cycles (pos 1)) (min_cycles_low c.alert_min_cycles)
      ∷ check (ltb_ℤ (pos 20) c.alert_min_cycles) (min_cycles_high c.alert_min_cycles)
      ∷ check (ltb_ℤ c.alert_cooldown (pos 1)) (cooldown_low c.alert_cooldown)
      ∷ check (ltb_ℤ c.web_port (pos 1024) || ltb_ℤ (pos 65535) c.web_port) (bad_port c.web_port)
      ∷ check (no_items c.allowed_origins) no_origins
      ∷ each validate_origin c.allowed_origins
      ∷ check (is_blank c.log_file) (empty_field (codes "LogFile"))
      ∷ check (is_blank c.state_file) (empty_field (codes "StateFile"))
      ∷ check (is_blank c.alert_file) (empty_field (codes "AlertFile"))
      ∷ check (is_blank c.ollama_url) (empty_field (codes "OllamaURL"))
      ∷ check (is_blank c.model) (empty_field (codes "Model"))
      ∷ validate_webhook_url lib (codes "DISCORD_WEBHOOK") c.discord_webhook
      ∷ validate_webhook_url lib (codes "SLACK_WEBHOOK") c.slack_webhook
      ∷ validate_webhook_url lib (codes "NTFY_URL") c.ntfy_url
      ∷ validate_webhook_url lib (codes "GOTIFY_URL") c.gotify_url
      ∷ each (validate_file_path lib) c.file_watch_paths
      ∷ check (ltb_ℤ c.daily_report_hour (pos 0) || ltb_ℤ (pos 23) c.daily_report_hour)
          (bad_hour c.daily_report_hour)
      ∷ check (ltb_ℤ c.daily_report_minute (pos 0) || ltb_ℤ (pos 59) c.daily_report_minute)
          (bad_minute c.daily_report_minute)
      ∷ []

  -- The messages that Validate collects; it returns no error if there is none.
  unfoldable pub validate : Config F → List ConfigError
  unfolding together checks
  validate c = together (checks c)
