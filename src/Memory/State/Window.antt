-- ===== src/Memory/State/Window.antt =====
-- The state of runtime/memory/state.go is a window on all that was added to it.
use jarvinx.Shared.{
  ℕ, ◌+◌, ◌-◌, ◌≤◌, ◌<◌, ◌≡◌, refl, sym, ap, ◌∙◌, List, [], ◌∷◌, ◌++◌, some, arith, ltb, inl, inr,
  Bool-cases, length, drop, last_of, last_of-append, length-drop, drop-drop,
}
use jarvinx.Shared.Int.{pos, inc, inc-pos, two63}
use jarvinx.Memory.Records.{Snapshot, CycleRecord}
use jarvinx.Memory.State.{State, trim, last_items, add, add_cycle, last, last_cycles, current_cycle}
use mathlib.Core.Path.{subst}
use mathlib.Core.List.{append_assoc, append-nil}

module _ {ℓ} {A : Type ℓ} where
  trim-last_of : (xs : List A) → trim xs ≡ last_of 20 xs
  unfolding trim
  trim-last_of xs = elim (Bool-cases (ltb 20 (length xs))) [
    | inl long ↦ rw long
    | inr short ↦ let none_dropped : length xs - 20 ≡ 0 = ground arith in rw (short, none_dropped)
  ]

  -- A smaller window on a window.
  last_of-last_of : (n m : ℕ) (xs : List A) → n ≤ m → last_of n (last_of m xs) ≡ last_of n xs
  last_of-last_of n m xs h =
      rw drop-drop (ap (λ k. drop k xs) (omega (arith, length-drop (length xs - m) xs)))

  length-last_of : (n : ℕ) (xs : List A) → length (last_of n xs) ≤ n
  length-last_of n xs = omega (arith, length-drop (length xs - n) xs)

  -- The window on few items is all of them.
  pub last_of-all : (n : ℕ) (xs : List A) → length xs ≤ n → last_of n xs ≡ xs
  last_of-all n xs h = let none_dropped : length xs - n ≡ 0 = omega arith in rw none_dropped refl

  pub last_items-last_of : (n : ℕ) (xs : List A) → last_items (pos n) xs ≡ some (last_of n xs)
  unfolding last_items
  last_items-last_of n xs = elim (Bool-cases (ltb (length xs) n)) [
    | inl short ↦
        let whole : length xs - n ≡ length xs - length xs = ground arith in rw (short, whole)
    | inr long ↦ rw long
  ]

module _ {F : Type 0} where
  abbrev pub add_all : List (Snapshot F) → State F → State F
  add_all [] s = s
  add_all (x ∷ xs) s = add_all xs (add x s).0

  abbrev pub add_all_cycles : List (CycleRecord F) → State F → State F
  add_all_cycles [] s = s
  add_all_cycles (r ∷ rs) s = add_all_cycles rs (add_cycle r s).0

  history-add :
      (x : Snapshot F) (s : State F)
      → (add x s).0.fields.history ≡ last_of 20 (s.fields.history ++ x ∷ [])
  unfolding add
  history-add x s = trim-last_of (s.fields.history ++ x ∷ [])

  history-add_all :
      (xs : List (Snapshot F)) (s : State F)
      → last_of 20 (add_all xs s).fields.history ≡ last_of 20 (s.fields.history ++ xs)
  history-add_all [] s = rw append-nil
  history-add_all (x ∷ xs) s =
      history-add_all xs (add x s).0
      ∙ rw (history-add x s) (last_of-append 20 (s.fields.history ++ x ∷ []) xs ∙ rw append_assoc)

  abbrev pub number : ℕ → CycleRecord F → CycleRecord F
  number n r = record r { cycle_num = pos (n + 1) }

  -- The records as AddCycle numbers them, from n + 1 on.
  abbrev pub numbered : ℕ → List (CycleRecord F) → List (CycleRecord F)
  numbered n [] = []
  numbered n (r ∷ rs) = number n r ∷ numbered (n + 1) rs

  -- The number of the newest cycle, and the cycles, after AddCycle.
  pub add_cycle_fields :
      (r : CycleRecord F) (n : ℕ) (s : State F)
      → s.fields.cycle_num ≡ pos n
      → n + 1 < two63
      → ((add_cycle r s).0.fields.cycle_num ≡ pos (n + 1))
        × ((add_cycle r s).0.fields.cycles ≡ last_of 20 (s.fields.cycles ++ number n r ∷ []))
  unfolding add_cycle
  add_cycle_fields r n s e h =
      rw (e, inc-pos n h) (refl, trim-last_of (s.fields.cycles ++ number n r ∷ []))

  pub add_all_cycles_fields :
      (rs : List (CycleRecord F)) (n : ℕ) (s : State F)
      → s.fields.cycle_num ≡ pos n
      → n + length rs < two63
      → ((add_all_cycles rs s).fields.cycle_num ≡ pos (n + length rs))
        × (last_of 20 (add_all_cycles rs s).fields.cycles
            ≡ last_of 20 (s.fields.cycles ++ numbered n rs))
  add_all_cycles_fields [] n s e h = (ground arith, rw append-nil)
  add_all_cycles_fields (r ∷ rs) n s e h =
      let (num, cs) = add_cycle_fields r n s e (omega arith) in
      let (nums, css) = add_all_cycles_fields rs (n + 1) (add_cycle r s).0 num (omega arith) in
      (
        nums ∙ ap pos (omega arith),
        css
            ∙ rw cs (
                last_of-append 20 (s.fields.cycles ++ number n r ∷ []) (numbered (n + 1) rs)
                ∙ rw append_assoc),
      )

  add_cycle-IsShort :
      (r : CycleRecord F) (s : State F) → length (add_cycle r s).0.fields.cycles ≤ 20
  unfolding add_cycle
  add_cycle-IsShort r s =
      subst (λ xs. length xs ≤ 20)
        (sym
          (trim-last_of (s.fields.cycles ++ record r { cycle_num = inc s.fields.cycle_num } ∷ [])))
        (length-last_of 20
          (s.fields.cycles ++ record r { cycle_num = inc s.fields.cycle_num } ∷ []))

  pub add_all_cycles-IsShort :
      (rs : List (CycleRecord F)) (s : State F)
      → length s.fields.cycles ≤ 20
      → length (add_all_cycles rs s).fields.cycles ≤ 20
  add_all_cycles-IsShort [] s h = h
  add_all_cycles-IsShort (r ∷ rs) s h =
      add_all_cycles-IsShort rs (add_cycle r s).0 (add_cycle-IsShort r s)

  -- After any snapshots were added, Last(n) for n up to 20 returns the last n of all that the
  -- history held and all that was added, in order.
  pub last-add_all :
      (n : ℕ) (xs : List (Snapshot F)) (s : State F)
      → n ≤ 20
      → last (pos n) (add_all xs s) ≡ some (last_of n (s.fields.history ++ xs))
  unfolding last
  last-add_all n xs s h =
      last_items-last_of n _
      ∙ ap some (
          sym (last_of-last_of n 20 _ h)
          ∙ ap (last_of n) (history-add_all xs s)
          ∙ last_of-last_of n 20 _ h)

  -- AddCycle numbers the records one after the other from the state's counter on, and
  -- LastCycles(n) for n up to 20 returns the last n of all the cycles, numbers included.
  pub last_cycles-add_all_cycles :
      (n num : ℕ) (rs : List (CycleRecord F)) (s : State F)
      → n ≤ 20
      → s.fields.cycle_num ≡ pos num
      → num + length rs < two63
      → (current_cycle (add_all_cycles rs s) ≡ pos (num + length rs))
        × (last_cycles (pos n) (add_all_cycles rs s)
            ≡ some (last_of n (s.fields.cycles ++ numbered num rs)))
  unfolding last_cycles current_cycle
  last_cycles-add_all_cycles n num rs s h e b =
      let (nums, cs) = add_all_cycles_fields rs num s e b in
      (
        nums,
        last_items-last_of n _
            ∙ ap some
                (sym (last_of-last_of n 20 _ h) ∙ ap (last_of n) cs ∙ last_of-last_of n 20 _ h),
      )
