-- ===== src/Llm/Parser/Wrapped.antt =====
-- The cleaning of runtime/llm/parser.go on text that holds one object: what precedes the object has
-- no opening brace and what follows it no closing brace.
use jarvinx.Shared.{
  ℕ, zero, suc, ◌+◌, ◌≤◌, ◌≡◌, refl, ap, ◌∙◌, true, false, [], ◌∷◌, ◌++◌, none, some, arith, ◌==◌,
  Bool-cases, inl, inr, All, length, take, drop, drop-append, length-append,
}
use jarvinx.Shared.Text.{Text, is_space, trim_left, has_prefix, trim_prefix}
use jarvinx.Llm.Parser.{
  open_brace, close_brace, index, last_index, cut_before, cut_after, strip_before, strip_after,
}
use native.Mathlib.Nat.{suc-add}
use mathlib.Core.List.{reverse_aux}

-- c does not occur in s.
abbrev pub IsFree : ℕ → Text → Type 0
IsFree c s = All (λ x. (x == c) ≡ false) s

drop-IsFree : (c n : ℕ) (s : Text) → IsFree c s → IsFree c (drop n s)
drop-IsFree c zero s h = h
drop-IsFree c (suc n) [] h = tt
drop-IsFree c (suc n) (x ∷ s) h = drop-IsFree c n s h.1

pub reverse_aux-IsFree : (c : ℕ) (s t : Text) → IsFree c s → IsFree c t → IsFree c (reverse_aux s t)
reverse_aux-IsFree c [] t h k = k
reverse_aux-IsFree c (x ∷ s) t h k = reverse_aux-IsFree c s (x ∷ t) h.1 (h.0, k)

-- s is t after a first c and what precedes it.
pub record IsMarked (c : ℕ) (t s : Text) : Type 0 where
  pub front : Text
  pub free : IsFree c front
  pub split : s ≡ front ++ (c ∷ t)

trim_left-IsMarked :
    (c : ℕ) (t front : Text)
    → is_space c ≡ false
    → IsFree c front
    → IsMarked c t (trim_left (front ++ (c ∷ t)))
unfolding trim_left
trim_left-IsMarked c t [] b h = rw b (record { front = []; free = tt; split = refl })
trim_left-IsMarked c t (x ∷ s) b h = elim (Bool-cases (is_space x)) [
  | inl blank ↦ rw blank (trim_left-IsMarked c t s b h.1)
  | inr text ↦ rw text (record { front = x ∷ s; free = h; split = refl })
]

has_prefix-marked :
    (c : ℕ) (t front p : Text) → IsFree c p → has_prefix (front ++ (c ∷ t)) p ≡ has_prefix front p
unfolding has_prefix
has_prefix-marked c t [] [] h = refl
has_prefix-marked c t (x ∷ s) [] h = refl
has_prefix-marked c t [] (y ∷ p) h = ground (arith, h.0)
has_prefix-marked c t (x ∷ s) (y ∷ p) h = rw (has_prefix-marked c t s p h.1)

has_prefix-length : (s p : Text) → has_prefix s p ≡ true → length p ≤ length s
unfolding has_prefix
has_prefix-length s [] h = omega arith
has_prefix-length [] (y ∷ p) h = absurd (ground arith)
has_prefix-length (x ∷ s) (y ∷ p) h = ground (arith, has_prefix-length s p)

pub trim_prefix-IsMarked :
    (c : ℕ) (t s p : Text) → IsFree c p → IsMarked c t s → IsMarked c t (trim_prefix s p)
unfolding trim_prefix
trim_prefix-IsMarked c t s p h m = elim (Bool-cases (has_prefix m.front p)) [
  | inl found ↦
      rw (m.split, has_prefix-marked c t m.front p h, found)
        (record {
          front = drop (length p) m.front;
          free = drop-IsFree c (length p) m.front m.free;
          split = drop-append (length p) m.front (c ∷ t) (has_prefix-length m.front p found);
        })
  | inr missing ↦
      rw (m.split, has_prefix-marked c t m.front p h, missing)
        (record { front = m.front; free = m.free; split = refl })
]

pub trim_left-IsMarked' :
    (c : ℕ) (t s : Text) → is_space c ≡ false → IsMarked c t s → IsMarked c t (trim_left s)
trim_left-IsMarked' c t s b m = rw m.split (trim_left-IsMarked c t m.front b m.free)

index-marked :
    (c : ℕ) (t front : Text) → IsFree c front → index c (front ++ (c ∷ t)) ≡ some (length front)
unfolding index
index-marked c t [] h = ground arith
index-marked c t (x ∷ s) h = rw (h.0, index-marked c t s h.1)

drop-length : (s t : Text) → drop (length s) (s ++ t) ≡ t
drop-length [] t = refl
drop-length (x ∷ s) t = drop-length s t

take-length : (c : ℕ) (s t : Text) → take (length s + 1) (s ++ (c ∷ t)) ≡ s ++ (c ∷ [])
take-length c [] t = refl
take-length c (x ∷ s) t = rw suc-add (ap (λ r. x ∷ r) (take-length c s t))

cut_before-marked :
    (c : ℕ) (t front : Text) → cut_before (front ++ (c ∷ t)) (some (length front)) ≡ c ∷ t
unfolding cut_before
cut_before-marked c t [] = refl
cut_before-marked c t (x ∷ front) = ground (arith, drop-length front (c ∷ t))

pub strip_before-marked : (t s : Text) → IsMarked open_brace t s → strip_before s ≡ open_brace ∷ t
unfolding strip_before
strip_before-marked t s m = rw m.split (
    ap (cut_before (m.front ++ (open_brace ∷ t))) (index-marked open_brace t m.front m.free)
    ∙ cut_before-marked open_brace t m.front)

last_index-free : (c : ℕ) (s : Text) → IsFree c s → last_index c s ≡ none
unfolding last_index
last_index-free c [] h = refl
last_index-free c (x ∷ s) h = rw (last_index-free c s h.1, h.0)

last_index-marked :
    (c : ℕ) (s post : Text) → IsFree c post → last_index c (s ++ (c ∷ post)) ≡ some (length s)
unfolding last_index
last_index-marked c [] post h = rw (last_index-free c post h) (ground arith)
last_index-marked c (x ∷ s) post h = rw (last_index-marked c s post h)

cut_after-marked :
    (c : ℕ) (s post : Text) → cut_after (s ++ (c ∷ post)) (some (length s)) ≡ s ++ (c ∷ [])
unfolding cut_after
cut_after-marked c s [] = ground (arith, length-append s (c ∷ []))
cut_after-marked c s (x ∷ post) =
    ground (arith, length-append s (c ∷ x ∷ post), take-length c s (x ∷ post))

pub strip_after-marked :
    (s post : Text)
    → IsFree close_brace post
    → strip_after (s ++ (close_brace ∷ post)) ≡ s ++ (close_brace ∷ [])
unfolding strip_after
strip_after-marked s post h =
    ap (cut_after (s ++ (close_brace ∷ post))) (last_index-marked close_brace s post h)
    ∙ cut_after-marked close_brace s post
