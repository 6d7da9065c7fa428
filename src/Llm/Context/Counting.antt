-- ===== src/Llm/Context/Counting.antt =====
-- The counts of the actions of runtime/llm/context_builder.go.
use jarvinx.Shared.{
  ℕ, suc, ◌+◌, ◌≤◌, ◌≡◌, refl, sym, ap, ◌∙◌, arith, Bool, true, false, List, [], ◌∷◌, Bool-cases,
  inl, inr, if◌then◌else◌, All,
}
use jarvinx.Shared.Text.{Text, text_eq, text_eq→≡, text_eq_refl}
use jarvinx.Memory.Records.{CycleRecord}
use jarvinx.Llm.Context.{Counts, bump, count_of, count_actions}

-- How many of the cycles have this action.
abbrev pub occurrences : {F : Type 0} → Text → List (CycleRecord F) → ℕ
occurrences action [] = 0
occurrences action (c ∷ cycles) =
    let rest = occurrences action cycles in if text_eq c.action action then suc rest else rest

abbrev one_if : Bool → ℕ
one_if true = 1
one_if false = 0

apart :
    (k action other : Text)
    → text_eq k action ≡ false
    → text_eq k other ≡ true
    → text_eq action other ≡ false
apart k action other differs same = elim (Bool-cases (text_eq action other)) [
  | inr no_match ↦ no_match
  | inl match ↦
      let k≡action : k ≡ action = text_eq→≡ k other same ∙ sym (text_eq→≡ action other match) in
      absurd (cc (differs, ap (λ t. text_eq t action) k≡action, text_eq_refl action))
]

count_of-bump :
    (action other : Text) (counts : Counts)
    → count_of other (bump action counts) ≡ count_of other counts + one_if (text_eq action other)
unfolding count_of bump
count_of-bump action other [] = ground arith
count_of-bump action other ((k, n) ∷ counts) = elim (Bool-cases (text_eq k action)) [
  | inl same ↦ rw (same, text_eq→≡ k action same) (ground arith)
  | inr differs ↦
      rw (differs, count_of-bump action other counts)
        (elim (Bool-cases (text_eq k other)) [
          | inl here ↦ rw (here, apart k action other differs here) (omega arith)
          | inr there ↦ rw there refl
        ])
]

module _ {F : Type 0} where
  pub count_of-count_actions :
      (other : Text) (counts : Counts) (cycles : List (CycleRecord F))
      → count_of other (count_actions counts cycles)
        ≡ count_of other counts + occurrences other cycles
  unfolding count_actions
  count_of-count_actions other counts [] = omega arith
  count_of-count_actions other counts (c ∷ cycles) =
      count_of-count_actions other (bump c.action counts) cycles
      ∙ rw (count_of-bump c.action other counts) (ground arith)

  -- All the cycles, counted in a new map.
  pub count_of-new :
      (other : Text) (cycles : List (CycleRecord F))
      → count_of other (count_actions [] cycles) ≡ occurrences other cycles
  unfolding count_of
  count_of-new other cycles = count_of-count_actions other [] cycles ∙ omega arith

-- No other entry has this key.
abbrev pub IsFresh : Text → Counts → Type 0
IsFresh k counts = All (λ e. text_eq k e.0 ≡ false) counts

abbrev pub IsDistinct : Counts → Type 0
IsDistinct [] = Unit
IsDistinct ((k, n) ∷ counts) = IsFresh k counts × IsDistinct counts

bump-IsFresh :
    (k action : Text) (counts : Counts)
    → IsFresh k counts
    → text_eq k action ≡ false
    → IsFresh k (bump action counts)
unfolding bump
bump-IsFresh k action [] fresh differs = (differs, tt)
bump-IsFresh k action ((k', n) ∷ counts) (first, fresh) differs =
    elim (Bool-cases (text_eq k' action)) [
      | inl same ↦ rw same (first, fresh)
      | inr other ↦ rw other (first, bump-IsFresh k action counts fresh differs)
    ]

bump-IsDistinct :
    (action : Text) (counts : Counts) → IsDistinct counts → IsDistinct (bump action counts)
unfolding bump
bump-IsDistinct action [] d = (tt, tt)
bump-IsDistinct action ((k, n) ∷ counts) (fresh, d) = elim (Bool-cases (text_eq k action)) [
  | inl same ↦ rw same (fresh, d)
  | inr differs ↦
      rw differs (bump-IsFresh k action counts fresh differs, bump-IsDistinct action counts d)
]

module _ {F : Type 0} where
  pub count_actions-IsDistinct :
      (counts : Counts) (cycles : List (CycleRecord F))
      → IsDistinct counts
      → IsDistinct (count_actions counts cycles)
  unfolding count_actions
  count_actions-IsDistinct counts [] d = d
  count_actions-IsDistinct counts (c ∷ cycles) d =
      count_actions-IsDistinct (bump c.action counts) cycles (bump-IsDistinct c.action counts d)

-- The count of an entry is not above that of its key.
abbrev pub IsCounted : Counts → Text × ℕ → Type 0
IsCounted counts e = e.1 ≤ count_of e.0 counts

IsCounted-cons :
    (k : Text) (n : ℕ) (counts entries : Counts)
    → IsFresh k entries
    → All (IsCounted counts) entries
    → All (IsCounted ((k, n) ∷ counts)) entries
unfolding count_of
IsCounted-cons k n counts [] fresh h = tt
IsCounted-cons k n counts (e ∷ entries) (first, fresh) (counted, h) =
    (rw first counted, IsCounted-cons k n counts entries fresh h)

pub entries-IsCounted : (counts : Counts) → IsDistinct counts → All (IsCounted counts) counts
unfolding count_of
entries-IsCounted [] d = tt
entries-IsCounted ((k, n) ∷ counts) (fresh, d) = (
  rw (text_eq_refl k) (omega arith),
  IsCounted-cons k n counts counts fresh (entries-IsCounted counts d),
)

pub count_of-bounded :
    (a : Text) (counts : Counts) (m : ℕ) → All (λ e. e.1 ≤ m) counts → count_of a counts ≤ m
unfolding count_of
count_of-bounded a [] m h = omega arith
count_of-bounded a ((k, n) ∷ counts) m (first, h) = elim (Bool-cases (text_eq k a)) [
  | inl here ↦ rw here first
  | inr there ↦ rw there (count_of-bounded a counts m h)
]
