-- ===== src/Config/Env/Scenarios.antt =====
-- Runs of runtime/config/env.go.
use jarvinx.Shared.{ℕ, ◌≡◌, refl, [], ◌∷◌, ◌++◌, Option, none, some, if◌then◌else◌}
use jarvinx.Shared.Clock.{Duration}
use jarvinx.Shared.Float.{thousandths}
use jarvinx.Shared.Scan.{scan_lines}
use jarvinx.Shared.Text.{Text, codes, text_eq}
use jarvinx.Config.{default_config}
use jarvinx.Config.Env.{Env}
use jarvinx.Config.Env.Dotenv.{load_env}
use jarvinx.Config.Env.Dotenv.Priority.{or_else, first_value, load_env_lem}
use jarvinx.Config.Env.Settings.{from_env}
use jarvinx.Config.Env.Settings.Kept.{IsKept, from_env-IsKept}

-- One variable, an hour out of range.
abbrev late : Env
late name = if text_eq name (codes "JARVINX_REPORT_HOUR") then codes "24" else []

abbrev no_floats : Text → Option ℕ
no_floats v = none

abbrev no_durations : Text → Option Duration
no_durations v = none

from_env-IsKept_example :
    IsKept default_config (from_env late no_floats no_durations default_config).config
from_env-IsKept_example = from_env-IsKept late no_floats no_durations default_config

-- A line that ends with a character whose last byte is no white space of its own, and one that ends with
-- a white space of two bytes.
keeps_letters :
    load_env
      (some (codes "A=b" ++ 0xC3 ∷ 0xA0 ∷ codes "\nB=c" ++ 0xC2 ∷ 0xA0 ∷ []))
      late
      (codes "A")
    ≡ codes "b" ++ 0xC3 ∷ 0xA0 ∷ []
unfolding load_env text_eq
keeps_letters = refl

cuts_spaces :
    load_env
      (some (codes "A=b" ++ 0xC3 ∷ 0xA0 ∷ codes "\nB=c" ++ 0xC2 ∷ 0xA0 ∷ []))
      late
      (codes "B")
    ≡ codes "c"
unfolding load_env text_eq
cuts_spaces = refl

load_env_lem_example :
    load_env (some (codes "A=1\nJARVINX_REPORT_HOUR=7\n")) late (codes "A")
    ≡ or_else
        (late (codes "A"))
        (first_value (scan_lines (codes "A=1\nJARVINX_REPORT_HOUR=7\n")) (codes "A"))
load_env_lem_example = load_env_lem (codes "A=1\nJARVINX_REPORT_HOUR=7\n") (codes "A") late
