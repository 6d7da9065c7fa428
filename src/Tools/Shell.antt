-- ===== src/Tools/Shell.antt =====
-- runtime/tools/shell.go. Running a binary is the operating system's: its outcome is a parameter,
-- and the binaries that are run are counted by the specification of the process that is started.
pub mod Whitelist
use jarvinx.Shared.{
  ℕ, Bool, true, false, ◌&&◌, List, [], ◌∷◌, ◌++◌, Option, none, some, ltb, if◌then◌else◌, length,
  take,
}
use jarvinx.Shared.Clock.{Duration, second}
use jarvinx.Shared.Text.{Text, codes, text_eq, trim_space}

-- A binary and its direct arguments.
pub record CommandSpec : Type 0 where
  pub bin : Text
  pub args : List Text

unfoldable pub lookup : Text → List (Text × CommandSpec) → Option CommandSpec
unfolding text_eq
lookup cmd [] = none
lookup cmd ((key, spec) ∷ specs) = if text_eq cmd key then some spec else lookup cmd specs

abbrev pub command_specs : List (Text × CommandSpec)
command_specs =
    (codes "docker ps", record { bin = codes "docker"; args = codes "ps" ∷ [] })
    ∷ (
      codes "docker stats",
      record { bin = codes "docker"; args = codes "stats" ∷ codes "--no-stream" ∷ [] },
    )
    ∷ (codes "uptime", record { bin = codes "uptime"; args = [] })
    ∷ (codes "df -h", record { bin = codes "df"; args = codes "-h" ∷ [] })
    ∷ (codes "free -h", record { bin = codes "free"; args = codes "-h" ∷ [] })
    ∷ []

abbrev pub windows_specs : List (Text × CommandSpec)
windows_specs =
    (
      codes "uptime",
      record { bin = codes "cmd"; args = codes "/C" ∷ codes "net statistics workstation" ∷ [] },
    )
    ∷ (
      codes "df -h",
      record {
        bin = codes "wmic";
        args = codes "logicaldisk" ∷ codes "get" ∷ codes "size,freespace,caption" ∷ [];
      },
    )
    ∷ (
      codes "free -h",
      record {
        bin = codes "wmic";
        args = codes "OS" ∷ codes "get" ∷ codes "FreePhysicalMemory,TotalVisibleMemorySize" ∷ [];
      },
    )
    ∷ []

-- The error of a result: its text is formatted from what the constructor holds.
pub data CommandError : Type 0 where
  not_allowed : Text → CommandError
  timeout_after : Duration → CommandError
  run_error : Text → CommandError

pub record CommandResult : Type 0 where
  pub command : Text
  pub output : Text
  pub error : Option CommandError
  pub duration : Duration
  pub success : Bool
  pub timed_out : Bool

-- What command.Run did: the text of its error if it failed, what it wrote, how long it took, and
-- whether the deadline of the context had passed when it returned.
pub record ProcessResult : Type 0 where
  pub failure : Option Text
  pub stdout : Text
  pub stderr : Text
  pub duration : Duration
  pub deadline_exceeded : Bool

-- The operating system, as far as ExecuteCommand sees it.
pub record Machine : Type 0 where
  pub windows : Bool
  pub start : CommandSpec → Duration → ProcessResult

abbrev pub default_command_timeout : Duration
default_command_timeout = 10000000000

blocked : Text → CommandResult
blocked cmd = record {
  command = cmd;
  output = [];
  error = some (not_allowed cmd);
  duration = 0;
  success = false;
  timed_out = false;
}

dry_result : Text → Option CommandSpec → CommandResult
unfolding blocked
dry_result cmd none = blocked cmd
dry_result cmd (some spec) = record {
  command = cmd;
  output = codes "[dry-run] commande simulée";
  error = none;
  duration = 0;
  success = true;
  timed_out = false;
}

unfoldable pub execute_command_dry_run : Text → CommandResult
unfolding dry_result lookup trim_space
execute_command_dry_run cmd =
    let name = trim_space cmd in dry_result name (lookup name command_specs)

-- runDirect returns the output, whether it timed out, and the error.
unfoldable pub run_direct : ProcessResult → Text × Bool × Option Text
unfolding trim_space
run_direct p = if p.deadline_exceeded then ([], true, none) else elim p.failure [
  | none ↦ (trim_space p.stdout, false, none)
  | some message ↦ ([], false, some (trim_space (elim p.stderr [ [] ↦ message | c ∷ s ↦ c ∷ s ])))
]

-- The Windows equivalent, where there is one.
adapted : Bool → Text → CommandSpec → CommandSpec
unfolding lookup
adapted false cmd spec = spec
adapted true cmd spec = elim (lookup cmd windows_specs) [ none ↦ spec | some win ↦ win ]

finished : Text → Duration → Duration → Text × Bool × Option Text → CommandResult
finished cmd timeout duration (output, true, error) = record {
  command = cmd;
  output = [];
  error = some (timeout_after timeout);
  duration = duration;
  success = false;
  timed_out = true;
}
finished cmd timeout duration (output, false, some message) = record {
  command = cmd;
  output = [];
  error = some (run_error message);
  duration = duration;
  success = false;
  timed_out = false;
}
finished cmd timeout duration (output, false, none) = record {
  command = cmd;
  output = output;
  error = none;
  duration = duration;
  success = true;
  timed_out = false;
}

-- The result, and the processes that were started.
executed : Machine → Duration → Text → Option CommandSpec → CommandResult × List CommandSpec
unfolding blocked adapted finished run_direct
executed m timeout cmd none = (blocked cmd, [])
executed m timeout cmd (some spec) =
    let spec' = adapted m.windows cmd spec in
    let p = m.start spec' timeout in (finished cmd timeout p.duration (run_direct p), spec' ∷ [])

unfoldable pub execute_command_with_timeout :
    Machine → Text → Duration → CommandResult × List CommandSpec
unfolding executed lookup trim_space
execute_command_with_timeout m cmd timeout =
    let name = trim_space cmd in executed m timeout name (lookup name command_specs)

unfoldable pub execute_command : Machine → Text → CommandResult × List CommandSpec
unfolding execute_command_with_timeout
execute_command m cmd = execute_command_with_timeout m cmd default_command_timeout
