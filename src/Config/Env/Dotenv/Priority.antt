-- ===== src/Config/Env/Dotenv/Priority.antt =====
-- What LoadEnv of runtime/config/env.go does to the environment.
use mathlib.Core.Path.{subst}
use jarvinx.Shared.{
  ℕ, arith, ◌≡◌, refl, sym, ap, ◌∙◌, true, false, not, ◌&&◌, ◌||◌, List, [], ◌∷◌, Option, none,
  some, Bool-cases, inl, inr, if◌then◌else◌,
}
use jarvinx.Shared.Text.{Text, codes, text_eq, text_eq→≡, has_prefix}
use jarvinx.Shared.Bytes.{trim_bytes}
use jarvinx.Shared.Scan.{scan_lines}
use jarvinx.Config.Env.{Env}
use jarvinx.Config.Env.Dotenv.{occurs_in, set_env, assign, cut_at, load_line, load_lines, load_env}

-- The value that a name and a value, not trimmed yet, give to a variable: none if it has another name,
-- or if the operating system takes no such name or value.
abbrev pub value_of : Text → Text → Text → Text
value_of key val name =
    if text_eq key name
      && not (text_eq key [] || occurs_in 61 key || occurs_in 0 key || occurs_in 0 val)
    then val
    else []

abbrev pub value_of_pair : Option (Text × Text) → Text → Text
value_of_pair none name = []
value_of_pair (some (key, val)) name = value_of (trim_bytes key) (trim_bytes val) name

-- The value that a trimmed line gives to a variable, empty if it gives it none: the line is no comment,
-- the name stands before its first `=` and the value after it, both trimmed.
abbrev pub value_after : Text → Text → Text
value_after trimmed name =
    if has_prefix trimmed (codes "#") then [] else value_of_pair (cut_at 61 trimmed) name

abbrev pub value_in : Text → Text → Text
value_in line name = value_after (trim_bytes line) name

abbrev pub first_value : List Text → Text → Text
first_value [] name = []
first_value (line ∷ lines) name =
    let rest = first_value lines name in
    if text_eq (value_in line name) [] then rest else value_in line name

-- The value of a variable, or the given one if it is not set.
abbrev pub or_else : Text → Text → Text
or_else [] other = other
or_else (c ∷ v) other = c ∷ v

or_else_nothing : (v : Text) → v ≡ or_else v []
or_else_nothing [] = refl
or_else_nothing (c ∷ v) = refl

or_else_set : (v other : Text) → text_eq v [] ≡ false → v ≡ or_else v other
unfolding text_eq
or_else_set [] other h = ground arith
or_else_set (c ∷ v) other h = refl

set_env-or_else :
    (key val name : Text) (env : Env)
    → text_eq (env key) [] ≡ true
    → set_env key val env name ≡ or_else (env name) (set_env key val (λ n. []) name)
unfolding set_env
set_env-or_else key val name env unset =
    elim (Bool-cases (text_eq key [] || occurs_in 61 key || occurs_in 0 key || occurs_in 0 val)) [
      | inl bad ↦ rw bad (or_else_nothing (env name))
      | inr fine ↦ elim (Bool-cases (text_eq key name)) [
        | inl same ↦ rw (fine, same, ← text_eq→≡ key name same, text_eq→≡ (env key) [] unset) refl
        | inr other ↦ rw (fine, other) (or_else_nothing (env name))
      ]
    ]

set_env-other :
    (key val name : Text) → text_eq key name ≡ false → set_env key val (λ n. []) name ≡ []
unfolding set_env
set_env-other key val name other =
    elim (Bool-cases (text_eq key [] || occurs_in 61 key || occurs_in 0 key || occurs_in 0 val)) [
      | inl bad ↦ rw bad refl
      | inr fine ↦ rw (fine, other) refl
    ]

kept-or_else :
    (key val name : Text) (env : Env)
    → text_eq (env key) [] ≡ false
    → env name ≡ or_else (env name) (set_env key val (λ n. []) name)
kept-or_else key val name env given = elim (Bool-cases (text_eq key name)) [
  | inl same ↦
      or_else_set (env name) _
        (subst (λ k. text_eq (env k) [] ≡ false) (text_eq→≡ key name same) given)
  | inr other ↦ rw (set_env-other key val name other) (or_else_nothing (env name))
]

assign-or_else :
    (pair : Option (Text × Text)) (name : Text) (env : Env)
    → assign pair env name ≡ or_else (env name) (assign pair (λ n. []) name)
unfolding assign text_eq
assign-or_else none name env = or_else_nothing (env name)
assign-or_else (some (key, val)) name env = elim (Bool-cases (text_eq (env (trim_bytes key)) [])) [
  | inl unset ↦ rw unset (set_env-or_else (trim_bytes key) (trim_bytes val) name env unset)
  | inr given ↦ rw given (kept-or_else (trim_bytes key) (trim_bytes val) name env given)
]

set_env-value_of : (key val name : Text) → set_env key val (λ n. []) name ≡ value_of key val name
unfolding set_env
set_env-value_of key val name = elim (Bool-cases (text_eq key name)) [
  | inl same ↦
      elim (Bool-cases (text_eq key [] || occurs_in 61 key || occurs_in 0 key || occurs_in 0 val)) [
        | inl bad ↦ rw (bad, same) refl
        | inr fine ↦ rw (fine, same) refl
      ]
  | inr other ↦
      elim (Bool-cases (text_eq key [] || occurs_in 61 key || occurs_in 0 key || occurs_in 0 val)) [
        | inl bad ↦ rw (bad, other) refl
        | inr fine ↦ rw (fine, other) refl
      ]
]

assign-value_of_pair :
    (pair : Option (Text × Text)) (name : Text)
    → assign pair (λ n. []) name ≡ value_of_pair pair name
unfolding assign text_eq
assign-value_of_pair none name = refl
assign-value_of_pair (some (key, val)) name =
    set_env-value_of (trim_bytes key) (trim_bytes val) name

value_after-or_else :
    (trimmed name : Text) (env : Env)
    → (if text_eq trimmed [] || has_prefix trimmed (codes "#")
          then env
          else assign (cut_at 61 trimmed) env)
        name
      ≡ or_else (env name) (value_after trimmed name)
unfolding text_eq has_prefix cut_at
value_after-or_else [] name env = or_else_nothing (env name)
value_after-or_else (c ∷ s) name env = elim (Bool-cases (has_prefix (c ∷ s) (codes "#"))) [
  | inl skipped ↦ rw skipped (or_else_nothing (env name))
  | inr read ↦ rw read (
      assign-or_else (cut_at 61 (c ∷ s)) name env
      ∙ ap (or_else (env name)) (assign-value_of_pair (cut_at 61 (c ∷ s)) name))
]

load_line-or_else :
    (line name : Text) (env : Env)
    → load_line line env name ≡ or_else (env name) (value_in line name)
unfolding load_line
load_line-or_else line name env = value_after-or_else (trim_bytes line) name env

or_else-or_else : (a b c : Text) → or_else (or_else a b) c ≡ or_else a (or_else b c)
or_else-or_else [] b c = refl
or_else-or_else (x ∷ a) b c = refl

first_value-or_else :
    (line : Text) (lines : List Text) (name : Text)
    → first_value (line ∷ lines) name ≡ or_else (value_in line name) (first_value lines name)
unfolding text_eq
first_value-or_else line lines name = go (value_in line name) (first_value lines name)
  where
    go : (v rest : Text) → (if text_eq v [] then rest else v) ≡ or_else v rest
    go [] rest = refl
    go (c ∷ v) rest = refl

load_lines-or_else :
    (lines : List Text) (name : Text) (env : Env)
    → load_lines lines env name ≡ or_else (env name) (first_value lines name)
unfolding load_lines
load_lines-or_else [] name env = or_else_nothing (env name)
load_lines-or_else (line ∷ lines) name env =
    load_lines-or_else lines name (load_line line env)
    ∙ ap (λ v. or_else v (first_value lines name)) (load_line-or_else line name env)
    ∙ or_else-or_else (env name) (value_in line name) (first_value lines name)
    ∙ ap (or_else (env name)) (sym (first_value-or_else line lines name))

-- After LoadEnv a variable has the value that it had, if it was set, and else the first value that a line
-- of the file gives it and that is not empty, if there is one.
pub load_env_lem :
    (bytes : List ℕ) (name : Text) (env : Env)
    → load_env (some bytes) env name ≡ or_else (env name) (first_value (scan_lines bytes) name)
unfolding load_env
load_env_lem bytes name env = load_lines-or_else (scan_lines bytes) name env
