-- ===== src/Tools/Shell/Whitelist.antt =====
-- Nothing but the whitelist of runtime/tools/shell.go is ever run.
use jarvinx.Shared.{
  ◌≡◌, refl, ◌≢◌, ◌⊎◌, inl, inr, ◌↔◌, Bool, true, false, List, [], ◌∷◌, Option, none, some, arith,
  Bool-cases, All,
}
use jarvinx.Shared.Clock.{Duration}
use jarvinx.Shared.Text.{Text, text_eq, trim_space}
use jarvinx.Tools.Shell.{
  CommandSpec, lookup, command_specs, windows_specs, CommandResult, Machine, adapted, finished,
  executed, dry_result, execute_command_dry_run, execute_command_with_timeout,
}

abbrev pub IsIn : CommandSpec → List (Text × CommandSpec) → Type 0
IsIn spec [] = ⊥
IsIn spec ((key, s) ∷ specs) = (spec ≡ s) ⊎ IsIn spec specs

abbrev pub IsListed : CommandSpec → Type 0
IsListed spec = IsIn spec command_specs ⊎ IsIn spec windows_specs

lookup-IsIn :
    (cmd : Text) (specs : List (Text × CommandSpec)) {spec : CommandSpec}
    → lookup cmd specs ≡ some spec
    → IsIn spec specs
unfolding lookup
lookup-IsIn cmd [] e = cc
lookup-IsIn cmd ((key, s) ∷ specs) e = elim (Bool-cases (text_eq cmd key)) [
  | inl hit ↦ inl (ground arith)
  | inr miss ↦ inr (lookup-IsIn cmd specs (ground arith))
]

adapted-IsListed :
    (windows : Bool) (cmd : Text) (spec : CommandSpec)
    → IsIn spec command_specs
    → IsListed (adapted windows cmd spec)
unfolding adapted
adapted-IsListed false cmd spec h = inl h
adapted-IsListed true cmd spec h = go (lookup cmd windows_specs) refl
  where
    go :
        (o : Option CommandSpec)
        → lookup cmd windows_specs ≡ o
        → IsListed (elim o [ none ↦ spec | some win ↦ win ])
    go none e = inl h
    go (some win) e = inr (lookup-IsIn cmd windows_specs e)

executed-IsListed :
    (m : Machine) (timeout : Duration) (cmd : Text) (o : Option CommandSpec)
    → lookup cmd command_specs ≡ o
    → All IsListed (executed m timeout cmd o).1
unfolding executed
executed-IsListed m timeout cmd none e = tt
executed-IsListed m timeout cmd (some spec) e =
    (adapted-IsListed m.windows cmd spec (lookup-IsIn cmd command_specs e), tt)

-- Whatever text is executed, on any machine and with any timeout, every process that is started is
-- one of the listed binaries with its listed arguments.
pub execute_command_with_timeout-IsListed :
    (m : Machine) (cmd : Text) (timeout : Duration)
    → All IsListed (execute_command_with_timeout m cmd timeout).1
unfolding execute_command_with_timeout
execute_command_with_timeout-IsListed m cmd timeout =
    executed-IsListed m timeout (trim_space cmd) (lookup (trim_space cmd) command_specs) refl

-- A result is a success exactly when it carries no error, and a timeout is no success.
abbrev pub IsCoherent : CommandResult → Type 0
IsCoherent r = ((r.success ≡ true) ↔ (r.error ≡ none)) × (r.timed_out ≡ true → r.success ≡ false)

finished-IsCoherent :
    (cmd : Text) (timeout duration : Duration) (o : Text × Bool × Option Text)
    → IsCoherent (finished cmd timeout duration o)
unfolding finished
finished-IsCoherent cmd timeout duration (output, true, error) = ((λ h. cc, λ h. cc), λ h. refl)
finished-IsCoherent cmd timeout duration (output, false, some message) =
    ((λ h. cc, λ h. cc), λ h. refl)
finished-IsCoherent cmd timeout duration (output, false, none) = ((λ h. refl, λ h. refl), λ h. cc)

executed-IsCoherent :
    (m : Machine) (timeout : Duration) (cmd : Text) (o : Option CommandSpec)
    → IsCoherent (executed m timeout cmd o).0
unfolding executed
executed-IsCoherent m timeout cmd none = ((λ h. cc, λ h. cc), λ h. refl)
executed-IsCoherent m timeout cmd (some spec) = finished-IsCoherent _ _ _ _

dry_result_iff :
    (m : Machine) (timeout : Duration) (cmd : Text) (o : Option CommandSpec)
    → ((dry_result cmd o).success ≡ true) ↔ ((executed m timeout cmd o).1 ≢ [])
unfolding dry_result executed
dry_result_iff m timeout cmd none = (λ h. cc, λ n. absurd (n refl))
dry_result_iff m timeout cmd (some spec) = (λ h e. cc, λ n. refl)

dry_result-IsCoherent : (cmd : Text) (o : Option CommandSpec) → IsCoherent (dry_result cmd o)
unfolding dry_result
dry_result-IsCoherent cmd none = ((λ h. cc, λ h. cc), λ h. refl)
dry_result-IsCoherent cmd (some spec) = ((λ h. refl, λ h. refl), λ h. cc)

-- A dry run succeeds exactly for the texts for which the real run starts a process, and the results
-- of both say success exactly when they carry no error.
pub dry_run-agrees :
    (m : Machine) (cmd : Text) (timeout : Duration)
    → (((execute_command_dry_run cmd).success ≡ true)
        ↔ ((execute_command_with_timeout m cmd timeout).1 ≢ []))
      × IsCoherent (execute_command_dry_run cmd)
      × IsCoherent (execute_command_with_timeout m cmd timeout).0
unfolding execute_command_with_timeout execute_command_dry_run
dry_run-agrees m cmd timeout =
    let name = trim_space cmd in
    let found = lookup name command_specs in
    (
      dry_result_iff m timeout name found,
      dry_result-IsCoherent name found,
      executed-IsCoherent m timeout name found,
    )
