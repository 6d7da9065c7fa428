-- ===== src/Config/Env.antt =====
-- runtime/config/env.go. The environment is a function from names to values, empty for a missing one.
-- `strconv.ParseFloat` and `time.ParseDuration` are parameters; durations are not negative.
pub mod Dotenv
pub mod Settings
mod Scenarios
use jarvinx.Shared.{
  ℕ, ◌*◌, Bool, true, false, ◌&&◌, ◌||◌, List, [], ◌∷◌, ◌++◌, Option, none, some, ◌==◌,
  if◌then◌else◌,
}
use jarvinx.Shared.Int.{ℤ, pos, negsuc, leb_ℤ}
use jarvinx.Shared.Text.{Text, codes, text_eq}
use jarvinx.Shared.Clock.{Duration}
use jarvinx.Shared.Parse.{atoi}
use jarvinx.Config.{Config}

abbrev pub Env : Type 0
Env = Text → Text

-- The configuration and the variables whose values were invalid, with a warning.
pub record Loading (F : Type 0) : Type 0 where
  pub config : Config F
  pub warnings : List (Text × Text)

module _ {F : Type 0} where
  -- `if v := os.Getenv(name); v != "" { ... }`
  unfoldable pub setting : Env → Text → (Text → Loading F → Loading F) → Loading F → Loading F
  unfolding text_eq
  setting env name f l = if text_eq (env name) [] then l else f (env name) l

  unfoldable pub configured : (Config F → Config F) → Loading F → Loading F
  configured f l = record l { config = f l.config }

  unfoldable pub text_setting : Env → Text → (Text → Config F → Config F) → Loading F → Loading F
  unfolding setting configured
  text_setting env name f = setting env name (λ v. configured (f v))

  -- A flag that one value sets.
  unfoldable pub flag : Env → Text → Text → (Config F → Config F) → Loading F → Loading F
  unfolding text_eq configured
  flag env name value f l = if text_eq (env name) value then configured f l else l

  unfoldable pub parsed_or :
      {A : Type 0}
      → (Loading F → Loading F)
      → (A → Config F → Config F)
      → Option A
      → Loading F
      → Loading F
  unfolding configured
  parsed_or warn f none l = warn l
  parsed_or warn f (some a) l = configured (f a) l

  -- A value that does not parse is passed over, with a warning or without.
  unfoldable pub warned_setting :
      {A : Type 0}
      → Env
      → Text
      → (Text → Option A)
      → (A → Config F → Config F)
      → Loading F
      → Loading F
  unfolding setting parsed_or
  warned_setting env name parse f =
      setting env name
        (λ v. parsed_or (λ l. record l { warnings = l.warnings ++ (name, v) ∷ [] }) f (parse v))

  unfoldable pub quiet_setting :
      {A : Type 0}
      → Env
      → Text
      → (Text → Option A)
      → (A → Config F → Config F)
      → Loading F
      → Loading F
  unfolding setting parsed_or
  quiet_setting env name parse f = setting env name (λ v. parsed_or (λ l. l) f (parse v))
