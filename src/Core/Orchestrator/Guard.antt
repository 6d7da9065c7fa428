-- ===== src/Core/Orchestrator/Guard.antt =====
-- The execute guard of runtime/core/orchestrator.go over any sequence of commands.
use jarvinx.Shared.{
  ◌+◌, ◌≤◌, ◌<◌, ◌≡◌, refl, sym, ap, ◌∙◌, ◌↔◌, true, false, List, [], ◌∷◌, arith, if◌then◌else◌,
  Bool-cases, inl, inr,
}
use jarvinx.Shared.Clock.{Time, Duration, since, max_duration}
use jarvinx.Shared.Text.{Text, text_eq, text_eq_refl}
use jarvinx.Core.Orchestrator.{ExecuteGuard, allow, cooldown_remaining}

pub record Attempt : Type 0 where
  pub checked : Time
  pub stamped : Time
  pub cmd : Text

-- The attempts that the guard lets through, oldest first.
unfoldable pub granted : ExecuteGuard → List Attempt → List Attempt
granted g [] = []
granted g (r ∷ rs) =
    let rest = granted (allow r.checked r.stamped r.cmd g).0 rs in
    if (allow r.checked r.stamped r.cmd g).1 then r ∷ rest else rest

-- The clock does not go back.
abbrev pub IsInOrder : Time → List Attempt → Type 0
IsInOrder now [] = Unit {0}
IsInOrder now (r ∷ rs) = (now ≤ r.checked) × (r.checked ≤ r.stamped) × IsInOrder r.stamped rs

-- A command that is let through right after itself is so at least the cooldown later.
abbrev pub IsCooled : Duration → Text → Time → List Attempt → Type 0
IsCooled cooldown cmd at [] = Unit {0}
IsCooled cooldown cmd at (r ∷ rs) =
    (r.cmd ≡ cmd → at + cooldown ≤ r.stamped) × IsCooled cooldown r.cmd r.stamped rs

text_eq-true : (s t : Text) → s ≡ t → text_eq s t ≡ true
text_eq-true s t e = ap (text_eq s) (sym e) ∙ text_eq_refl s

allow_late :
    (checked stamped : Time) (cmd : Text) (g : ExecuteGuard)
    → g.cooldown ≤ max_duration
    → g.last_exec_at ≤ checked
    → checked ≤ stamped
    → (allow checked stamped cmd g).1 ≡ true
    → cmd ≡ g.last_cmd
    → g.last_exec_at + g.cooldown ≤ stamped
unfolding allow since
allow_late checked stamped cmd g m o p e s = ground (arith, text_eq-true cmd g.last_cmd s)

allow_guard :
    (checked stamped : Time) (cmd : Text) (g : ExecuteGuard)
    → (allow checked stamped cmd g).0 ≡ (
        if (allow checked stamped cmd g).1
        then record g { last_cmd = cmd; last_exec_at = stamped }
        else g)
unfolding allow
allow_guard checked stamped cmd g = ground arith

earlier :
    (now later : Time) (rs : List Attempt) → now ≤ later → IsInOrder later rs → IsInOrder now rs
earlier now later [] h o = tt
earlier now later (r ∷ rs) h o = (omega arith, o.1, o.2)

-- Over any attempts with a clock that does not go back, a command that is let through twice in a
-- row, the guard's last command included, runs again only after the cooldown.
pub granted-IsCooled :
    (g : ExecuteGuard) (rs : List Attempt)
    → g.cooldown ≤ max_duration
    → IsInOrder g.last_exec_at rs
    → IsCooled g.cooldown g.last_cmd g.last_exec_at (granted g rs)
unfolding granted
granted-IsCooled g [] m o = tt
granted-IsCooled g (r ∷ rs) m o = elim (Bool-cases (allow r.checked r.stamped r.cmd g).1) [
  | inl let_in ↦
      let after : (allow r.checked r.stamped r.cmd g).0
          ≡ record g { last_cmd = r.cmd; last_exec_at = r.stamped } =
        allow_guard r.checked r.stamped r.cmd g ∙ rw let_in in
      rw (let_in, after)
        (
          allow_late r.checked r.stamped r.cmd g m o.0 o.1 let_in,
          granted-IsCooled (record g { last_cmd = r.cmd; last_exec_at = r.stamped }) rs m o.2,
        )
  | inr refused ↦
      let after : (allow r.checked r.stamped r.cmd g).0 ≡ g =
        allow_guard r.checked r.stamped r.cmd g ∙ rw refused in
      rw (refused, after)
        (granted-IsCooled g rs m (earlier g.last_exec_at r.stamped rs (omega arith) o.2))
]

-- Each command differs from the one before it.
abbrev pub IsAlternating : Text → List Attempt → Type 0
IsAlternating cmd [] = Unit {0}
IsAlternating cmd (r ∷ rs) = (text_eq r.cmd cmd ≡ false) × IsAlternating r.cmd rs

-- The guard remembers the last command alone: attempts that alternate between commands are all let
-- through, however often each of them comes.
pub granted_alternating :
    (g : ExecuteGuard) (rs : List Attempt) → IsAlternating g.last_cmd rs → granted g rs ≡ rs
unfolding granted allow
granted_alternating g [] h = refl
granted_alternating g (r ∷ rs) h =
    ground
      (arith, granted_alternating (record g { last_cmd = r.cmd; last_exec_at = r.stamped }) rs h.1)

-- The status that is shown agrees with the guard: the last command is refused exactly while some
-- of the cooldown remains.
pub allow-cooldown_remaining_iff :
    (now stamped : Time) (g : ExecuteGuard)
    → ((allow now stamped g.last_cmd g).1 ≡ false) ↔ (0 < cooldown_remaining now g)
unfolding allow cooldown_remaining
allow-cooldown_remaining_iff now stamped g =
    (λ h. ground (arith, text_eq_refl g.last_cmd), λ h. ground (arith, text_eq_refl g.last_cmd))
