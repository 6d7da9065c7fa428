-- ===== src/Config/Env/Dotenv.antt =====
-- LoadEnv of runtime/config/env.go. The file is its bytes, `none` if it does not open; the
-- names and the values of the environment are bytes too.
pub mod Priority
use jarvinx.Shared.{
  ℕ, ◌≡◌, refl, sym, ap, ◌∙◌, Bool, true, false, ◌&&◌, ◌||◌, List, [], ◌∷◌, ◌++◌, Option, none,
  some, ◌==◌, if◌then◌else◌, Bool-cases, Option-cases, inl, inr,
}
use jarvinx.Shared.Text.{Text, codes, text_eq, text_eq→≡, text_eq_refl, has_prefix}
use jarvinx.Shared.Bytes.{trim_bytes}
use jarvinx.Shared.Scan.{scan_lines}
use jarvinx.Config.Env.{Env}

-- The text before and after the first such character: strings.SplitN in two.
unfoldable pub cut_at : ℕ → Text → Option (Text × Text)
cut_at sep [] = none
cut_at sep (c ∷ s) =
    let rest = cut_at sep s in
    if c == sep
    then some ([], s)
    else elim rest [ none ↦ none | some (before, after) ↦ some (c ∷ before, after) ]

unfoldable pub occurs_in : ℕ → Text → Bool
occurs_in b [] = false
occurs_in b (c ∷ s) = c == b || occurs_in b s

-- os.Setenv, which fails on an empty name and on one that holds `=` or a zero, and on such a value.
unfoldable pub set_env : Text → Text → Env → Env
unfolding text_eq occurs_in
set_env key val env =
    if text_eq key [] || occurs_in 61 key || occurs_in 0 key || occurs_in 0 val
    then env
    else λ name. if text_eq key name then val else env name

-- A variable that is set already keeps its value.
unfoldable pub assign : Option (Text × Text) → Env → Env
unfolding set_env text_eq trim_bytes
assign none env = env
assign (some (key, val)) env =
    if text_eq (env (trim_bytes key)) [] then set_env (trim_bytes key) (trim_bytes val) env else env

unfoldable pub load_line : Text → Env → Env
unfolding assign cut_at text_eq has_prefix trim_bytes
load_line line env =
    let trimmed = trim_bytes line in
    if text_eq trimmed [] || has_prefix trimmed (codes "#")
    then env
    else assign (cut_at 61 trimmed) env

unfoldable pub load_lines : List Text → Env → Env
unfolding load_line
load_lines [] env = env
load_lines (line ∷ lines) env = load_lines lines (load_line line env)

unfoldable pub load_env : Option (List ℕ) → Env → Env
unfolding load_lines scan_lines
load_env none env = env
load_env (some bytes) env = load_lines (scan_lines bytes) env
