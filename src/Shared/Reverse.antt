-- ===== src/Shared/Reverse.antt =====
-- The loop that reverses a slice in place, as the library's reverse.
use jarvinx.Shared.Lists.{
  All, length, take, length-append, last_or, init, swap_ends, reverse_in_place,
}
use Prim.Native.Nat.{ℕ, zero, suc, ◌≤◌}
use mathlib.Core.Path.{◌≡◌, refl, sym, ap, ◌∙◌, subst}
use mathlib.Core.List.{List, [], ◌∷◌, ◌++◌, reverse, reverse-append, reverse-cons}
use native.Mathlib.Omega.{arith}

module _ {ℓ} {A : Type ℓ} where
  init-append-last_or : (y : A) (ys : List A) → init y ys ++ last_or y ys ∷ [] ≡ y ∷ ys
  init-append-last_or y [] = refl
  init-append-last_or y (z ∷ zs) = ap (λ l. y ∷ l) (init-append-last_or z zs)

  length-init : (y : A) (ys : List A) → length (init y ys) ≡ length ys
  length-init y [] = refl
  length-init y (z ∷ zs) = ap suc (length-init z zs)

  swap_ends-reverse : (n : ℕ) (xs : List A) → length xs ≤ n → swap_ends n xs ≡ reverse xs
  swap_ends-reverse zero [] h = refl
  swap_ends-reverse zero (x ∷ xs) h = absurd (omega arith)
  swap_ends-reverse (suc n) [] h = refl
  swap_ends-reverse (suc n) (x ∷ []) h = refl
  swap_ends-reverse (suc n) (x ∷ y ∷ ys) h =
      let turned : reverse (y ∷ ys) ≡ last_or y ys ∷ reverse (init y ys) =
        ap reverse (sym (init-append-last_or y ys))
        ∙ reverse-append (init y ys) (last_or y ys ∷ []) in
      rw
        (
          reverse-cons x (y ∷ ys),
          turned,
          swap_ends-reverse n (init y ys) (omega (arith, length-init y ys)),
        )
        refl

  pub reverse_in_place-reverse : (xs : List A) → reverse_in_place xs ≡ reverse xs
  reverse_in_place-reverse xs = swap_ends-reverse (length xs) xs (omega arith)

  pub length-reverse : (xs : List A) → length (reverse xs) ≡ length xs
  length-reverse [] = refl
  length-reverse (x ∷ xs) =
      ap length (reverse-cons x xs)
      ∙ omega (arith, length-append (reverse xs) (x ∷ []), length-reverse xs)

  pub take-all : (n : ℕ) (xs : List A) → length xs ≤ n → take n xs ≡ xs
  take-all zero [] h = refl
  take-all zero (x ∷ xs) h = absurd (omega arith)
  take-all (suc n) [] h = refl
  take-all (suc n) (x ∷ xs) h = ap (λ l. x ∷ l) (take-all n xs (omega arith))

pub All-append {ℓ κ} :
    {A : Type ℓ} (P : A → Type κ) (xs ys : List A) → All P xs → All P ys → All P (xs ++ ys)
All-append P [] ys h k = k
All-append P (x ∷ xs) ys (p, h) k = (p, All-append P xs ys h k)

pub All-reverse {ℓ κ} : {A : Type ℓ} (P : A → Type κ) (xs : List A) → All P xs → All P (reverse xs)
All-reverse P [] h = tt
All-reverse P (x ∷ xs) (p, h) =
    subst (All P) (sym (reverse-cons x xs))
      (All-append P (reverse xs) (x ∷ []) (All-reverse P xs h) (p, tt))
