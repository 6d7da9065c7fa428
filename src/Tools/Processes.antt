-- ===== src/Tools/Processes.antt =====
-- runtime/tools/process.go. What the library for processes answers is an argument, and so is
-- `sort.Slice`, which puts equal items in any order.
use jarvinx.Shared.{
  ℕ, ◌/◌, Bool, List, [], ◌∷◌, Option, none, some, ltb, if◌then◌else◌, length, take,
}
use jarvinx.Shared.Int.{ℤ}
use jarvinx.Shared.Text.{Text}

pub record ProcInfo : Type 0 where
  pub pid : ℤ
  pub name : Text
  pub mem_mb : ℕ

-- A process when its turn comes: whether the time is up, its name and its resident bytes, if they are
-- answered.
pub record Process : Type 0 where
  pub is_late : Bool
  pub pid : ℤ
  pub name : Option Text
  pub rss : Option ℕ

named : Process → Option Text → Option ℕ → List ProcInfo → List ProcInfo
named p none rss infos = infos
named p (some name) none infos = infos
named p (some name) (some rss) infos =
    record { pid = p.pid; name = name; mem_mb = rss / 1024 / 1024 } ∷ infos

unfoldable pub proc_infos : List Process → List ProcInfo
unfolding named
proc_infos [] = []
proc_infos (p ∷ procs) =
    let rest = proc_infos procs in if p.is_late then [] else named p p.name p.rss rest

module _ (sort : List ProcInfo → List ProcInfo) where
  unfoldable pub top_processes : Option (List Process) → ℕ → List ProcInfo
  unfolding proc_infos
  top_processes none n = []
  top_processes (some procs) n =
      let infos = sort (proc_infos procs) in if ltb n (length infos) then take n infos else infos
