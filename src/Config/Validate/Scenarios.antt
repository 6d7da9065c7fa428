-- ===== src/Config/Validate/Scenarios.antt =====
-- Runs of runtime/config/validate.go, on numbers of thousandths.
use jarvinx.Shared.{ℕ, ◌≡◌, refl, [], ◌∷◌, none, some}
use jarvinx.Shared.Float.{thousandths}
use jarvinx.Shared.Text.{codes}
use jarvinx.Config.{Config, default_config}
use jarvinx.Config.Validate.{Library, validate, validate_file_path, sensitive_path}
use jarvinx.Config.Validate.Accepted.{IsAccepted, validate-IsAccepted}

-- No URL parses.
abbrev no_urls : Library
no_urls = record { parse_url = λ s. none; unicode_lower = λ c. c }

abbrev standard : Config ℕ
unfolding default_config
standard = default_config

blocks_etc :
    validate_file_path no_urls (codes " /ETC/ssh/ ") ≡ sensitive_path (codes "/ETC/ssh/") ∷ []
unfolding validate_file_path
blocks_etc = refl

-- A path is not cleaned first.
passes_dots : validate_file_path no_urls (codes "/tmp/../etc/shadow") ≡ []
unfolding validate_file_path
passes_dots = refl

-- Every URL has the scheme https and the host h.
abbrev one_host : Library
one_host = record {
  parse_url = λ s. some (record { scheme = codes "https"; host = codes "h" });
  unicode_lower = λ c. c;
}

abbrev watching : Config ℕ
unfolding standard
watching = record standard {
  discord_webhook = codes "https://h/hook";
  file_watch_paths = codes " /Home/User/ " ∷ codes "/etcetera" ∷ [];
}

validate-IsAccepted_example : IsAccepted one_host watching
unfolding validate watching
validate-IsAccepted_example = validate-IsAccepted one_host watching refl
