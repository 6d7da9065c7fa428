-- ===== src/Llm/Context/Lines.antt =====
-- The similar decisions in the prompt, of runtime/llm/context_builder.go: what an earlier reply of the
-- model says cannot break out of its line.
use jarvinx.Shared.{
  ℕ, zero, suc, ◌+◌, ◌*◌, ◌≤◌, ◌≡◌, refl, ◌∙◌, arith, false, List, [], ◌∷◌, ◌++◌, ltb, ◌==◌,
  Bool-cases, inl, inr, if◌then◌else◌, length, take, length-append, length-take,
}
use jarvinx.Shared.Text.{Text, utf8}
use jarvinx.Shared.Parse.{replace_all}
use jarvinx.Llm.Context.Prompt.{truncated, sanitize_similar_decision}
use jarvinx.Llm.Context.Adaptive.{item, decision_lines}

-- How often a byte occurs.
abbrev pub occurs : ℕ → Text → ℕ
occurs b [] = 0
occurs b (c ∷ s) = let rest = occurs b s in if c == b then suc rest else rest

occurs-append : (b : ℕ) (s t : Text) → occurs b (s ++ t) ≡ occurs b s + occurs b t
occurs-append b [] t = omega arith
occurs-append b (c ∷ s) t = ground (arith, occurs-append b s t)

occurs-take : (b n : ℕ) (s : Text) → occurs b s ≡ 0 → occurs b (take n s) ≡ 0
occurs-take b zero s h = refl
occurs-take b (suc n) [] h = refl
occurs-take b (suc n) (c ∷ s) h = ground (arith, occurs-take b n s)

occurs-replace_all :
    (b new : ℕ) (s : Text) → (new == b) ≡ false → occurs b (replace_all b new s) ≡ 0
unfolding replace_all
occurs-replace_all b new [] h = refl
occurs-replace_all b new (c ∷ s) h = ground (arith, occurs-replace_all b new s)

occurs-replace_all_other :
    (b old new : ℕ) (s : Text)
    → (new == b) ≡ false
    → occurs b s ≡ 0
    → occurs b (replace_all old new s) ≡ 0
unfolding replace_all
occurs-replace_all_other b old new [] h k = refl
occurs-replace_all_other b old new (c ∷ s) h k =
    ground (arith, occurs-replace_all_other b old new s)

truncated-IsShort : (s : Text) → length (truncated s) ≤ 200
unfolding truncated
truncated-IsShort s = elim (Bool-cases (ltb 200 (length s))) [
  | inl long ↦ rw long (omega (arith, length-take 200 s))
  | inr short ↦ rw short (ground arith)
]

occurs-truncated : (b : ℕ) (s : Text) → occurs b s ≡ 0 → occurs b (truncated s) ≡ 0
unfolding truncated
occurs-truncated b s h = elim (Bool-cases (ltb 200 (length s))) [
  | inl long ↦ rw long (occurs-take b 200 s h)
  | inr short ↦ rw short h
]

-- What is left of a decision holds no line break and at most 200 bytes.
abbrev pub IsLine : Text → Type 0
IsLine s = (occurs 10 s ≡ 0) × (occurs 13 s ≡ 0) × (length s ≤ 200)

pub sanitize_similar_decision-IsLine : (s : Text) → IsLine (sanitize_similar_decision s)
unfolding sanitize_similar_decision
sanitize_similar_decision-IsLine s = (
  occurs-truncated 10 (replace_all 13 32 (replace_all 10 32 s)) (
      occurs-replace_all_other 10 13 32 (replace_all 10 32 s) refl
        (occurs-replace_all 10 32 s refl)),
  occurs-truncated 13 (replace_all 13 32 (replace_all 10 32 s))
      (occurs-replace_all 13 32 (replace_all 10 32 s) refl),
  truncated-IsShort (replace_all 13 32 (replace_all 10 32 s)),
)

item-line : (s : Text) → occurs 10 s ≡ 0 → occurs 10 (item s) ≡ 1
unfolding item utf8
item-line s h = occurs-append 10 s (10 ∷ []) ∙ rw h refl

length-item : (s : Text) → length (item s) ≡ 5 + length s
unfolding item utf8
length-item s = omega (arith, length-append s (10 ∷ []))

-- However long the similar decisions are and whatever they hold, the prompt has one line for each of
-- them: as many line breaks as decisions, and at most 205 bytes for each.
pub decision_lines_lem :
    (decisions : List Text)
    → (occurs 10 (decision_lines decisions) ≡ length decisions)
      × (length (decision_lines decisions) ≤ 205 * length decisions)
unfolding decision_lines
decision_lines_lem [] = (refl, omega arith)
decision_lines_lem (d ∷ decisions) =
    let line = sanitize_similar_decision d in
    let (unbroken, _, short) = sanitize_similar_decision-IsLine d in
    let (count, size) = decision_lines_lem decisions in
    (
      occurs-append 10 (item line) (decision_lines decisions)
          ∙ omega (arith, item-line line unbroken, count),
      omega (
        arith,
        length-append (item line) (decision_lines decisions),
        length-item line,
        short,
        size,
      ),
    )
