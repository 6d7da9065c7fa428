-- ===== src/Config/Env/Settings/Steps.antt =====
-- The steps of FromEnv of runtime/config/env.go keep what their setters keep.
use jarvinx.Shared.{
  ◌≡◌, refl, false, List, [], ◌∷◌, ◌++◌, Option, none, some, All, Bool-cases, inl, inr,
}
use jarvinx.Shared.Text.{Text, text_eq}
use jarvinx.Config.{Config}
use jarvinx.Config.Env.{
  Env, Loading, setting, configured, text_setting, flag, parsed_or, warned_setting, quiet_setting,
}
use jarvinx.Config.Env.Settings.{run_settings}

module _ {F : Type 0} (P : Config F → Type 0) where
  -- A step that does not lose P.
  abbrev pub Keeps : (Loading F → Loading F) → Type 0
  Keeps f = (l : Loading F) → P l.config → P (f l).config

  setting-Keeps :
      (env : Env) (name : Text) (f : Text → Loading F → Loading F)
      → ((v : Text) → text_eq v [] ≡ false → Keeps (f v))
      → Keeps (setting env name f)
  unfolding setting
  setting-Keeps env name f k l p = elim (Bool-cases (text_eq (env name) [])) [
    | inl missing ↦ rw missing p
    | inr given ↦ rw given (k (env name) given l p)
  ]

  pub text_setting-Keeps :
      (env : Env) (name : Text) (f : Text → Config F → Config F)
      → ((v : Text) (c : Config F) → text_eq v [] ≡ false → P c → P (f v c))
      → Keeps (text_setting env name f)
  unfolding text_setting configured
  text_setting-Keeps env name f k =
      setting-Keeps env name (λ v. configured (f v)) (λ v given l p. k v l.config given p)

  pub flag-Keeps :
      (env : Env) (name value : Text) (f : Config F → Config F)
      → ((c : Config F) → P c → P (f c))
      → Keeps (flag env name value f)
  unfolding flag configured
  flag-Keeps env name value f k l p = elim (Bool-cases (text_eq (env name) value)) [
    | inl on ↦ rw on (k l.config p)
    | inr off ↦ rw off p
  ]

  parsed_or-Keeps :
      {A : Type 0} (warn : Loading F → Loading F) (f : A → Config F → Config F) (o : Option A)
      → Keeps warn
      → ((a : A) (c : Config F) → o ≡ some a → P c → P (f a c))
      → Keeps (parsed_or warn f o)
  unfolding parsed_or configured
  parsed_or-Keeps warn f none w k l p = w l p
  parsed_or-Keeps warn f (some a) w k l p = k a l.config refl p

  pub warned_setting-Keeps :
      {A : Type 0} (env : Env) (name : Text) (parse : Text → Option A) (f : A → Config F → Config F)
      → ((v : Text) (a : A) (c : Config F) → parse v ≡ some a → P c → P (f a c))
      → Keeps (warned_setting env name parse f)
  unfolding warned_setting
  warned_setting-Keeps env name parse f k =
      setting-Keeps env name
        (λ v. parsed_or (λ l. record l { warnings = l.warnings ++ (name, v) ∷ [] }) f (parse v))
        (λ v given.
          parsed_or-Keeps (λ l. record l { warnings = l.warnings ++ (name, v) ∷ [] }) f (parse v)
            (λ l p. p) (k v))

  pub quiet_setting-Keeps :
      {A : Type 0} (env : Env) (name : Text) (parse : Text → Option A) (f : A → Config F → Config F)
      → ((v : Text) (a : A) (c : Config F) → parse v ≡ some a → P c → P (f a c))
      → Keeps (quiet_setting env name parse f)
  unfolding quiet_setting
  quiet_setting-Keeps env name parse f k =
      setting-Keeps env name (λ v. parsed_or (λ l. l) f (parse v))
        (λ v given. parsed_or-Keeps (λ l. l) f (parse v) (λ l p. p) (k v))

  pub run_settings-Keeps :
      (settings : List (Loading F → Loading F)) → All Keeps settings → Keeps (run_settings settings)
  unfolding run_settings
  run_settings-Keeps [] k l p = p
  run_settings-Keeps (f ∷ settings) (first, k) l p = run_settings-Keeps settings k (f l) (first l p)
