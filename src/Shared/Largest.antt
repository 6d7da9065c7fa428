-- ===== src/Shared/Largest.antt =====
-- Lists that are sorted with the largest item first, as `sort.Slice` leaves them: it promises a
-- permutation of the items in their order, and nothing on the order of equal ones.
use jarvinx.Shared.Lists.{length, take, length-take, All}
use Prim.Native.Nat.{ℕ, zero, suc, min}
use mathlib.Core.Path.{◌≡◌, refl, ap, ◌∙◌, subst}
use mathlib.Core.Logic.{◌⊎◌, inl, inr}
use mathlib.Core.List.{List, [], ◌∷◌, Memᴰ, Permᴰ}
use mathlib.Core.List.Permᴰ

module _ {A : Type 0} where
  -- No item is larger than one before it.
  abbrev pub IsDescending : (A → A → Type 0) → List A → Type 0
  IsDescending le [] = Unit
  IsDescending le (x ∷ xs) = All (λ y. le y x) xs × IsDescending le xs

  -- A list as sorting leaves it.
  abbrev pub IsSortOf : (A → A → Type 0) → List A → List A → Type 0
  IsSortOf le xs sorted = Permᴰ sorted xs × IsDescending le sorted

  pub All-Permᴰ : (P : A → Type 0) {xs ys : List A} → Permᴰ xs ys → All P xs → All P ys
  All-Permᴰ P Permᴰ.nil none' = tt
  All-Permᴰ P (Permᴰ.cons e p) (x, xs) = (subst P e x, All-Permᴰ P p xs)
  All-Permᴰ P (Permᴰ.swap e f) (a, (b, xs)) = (subst P f b, (subst P e a, xs))
  All-Permᴰ P (Permᴰ.trans p q) xs = All-Permᴰ P q (All-Permᴰ P p xs)

  length-Permᴰ : {xs ys : List A} → Permᴰ xs ys → length xs ≡ length ys
  length-Permᴰ Permᴰ.nil = refl
  length-Permᴰ (Permᴰ.cons e p) = ap suc (length-Permᴰ p)
  length-Permᴰ (Permᴰ.swap e f) = refl
  length-Permᴰ (Permᴰ.trans p q) = length-Permᴰ p ∙ length-Permᴰ q

  All-map : (P Q : A → Type 0) → ((x : A) → P x → Q x) → (xs : List A) → All P xs → All Q xs
  All-map P Q f [] h = tt
  All-map P Q f (x ∷ xs) (p, ps) = (f x p, All-map P Q f xs ps)

  All-take : (P : A → Type 0) (n : ℕ) (xs : List A) → All P xs → All P (take n xs)
  All-take P zero xs ps = tt
  All-take P (suc n) [] h = tt
  All-take P (suc n) (x ∷ xs) (p, ps) = (p, All-take P n xs ps)

  -- The item is kept, or none of those kept is smaller.
  abbrev pub IsKeptOr : (A → A → Type 0) → List A → A → Type 0
  IsKeptOr le kept x = Memᴰ x kept ⊎ All (λ y. le x y) kept

  keeps-more :
      (le : A → A → Type 0) (x : A) (kept : List A) (y : A)
      → le y x × IsKeptOr le kept y
      → IsKeptOr le (x ∷ kept) y
  keeps-more le x kept y (below, inl kept') = inl (Memᴰ.tail kept')
  keeps-more le x kept y (below, inr smaller) = inr (below, smaller)

  All-zip : (P Q : A → Type 0) (xs : List A) → All P xs → All Q xs → All (λ x. P x × Q x) xs
  All-zip P Q [] h k = tt
  All-zip P Q (x ∷ xs) (p, ps) (q, qs) = ((p, q), All-zip P Q xs ps qs)

  All-of : (P : A → Type 0) (xs : List A) → ((x : A) → P x) → All P xs
  All-of P [] f = tt
  All-of P (x ∷ xs) f = (f x, All-of P xs f)

  take-IsKeptOr :
      (le : A → A → Type 0) (n : ℕ) (xs : List A)
      → IsDescending le xs
      → All (IsKeptOr le (take n xs)) xs
  take-IsKeptOr le zero xs d = All-of (IsKeptOr le []) xs (λ x. inr tt)
  take-IsKeptOr le (suc n) [] d = tt
  take-IsKeptOr le (suc n) (x ∷ xs) (below, d) = (
    inl (Memᴰ.head refl),
    All-map (λ y. le y x × IsKeptOr le (take n xs) y) (IsKeptOr le (x ∷ take n xs))
        (keeps-more le x (take n xs)) xs
        (All-zip (λ y. le y x) (IsKeptOr le (take n xs)) xs below (take-IsKeptOr le n xs d)),
  )

  -- The first n items of a sorted list are n of the items, or all, and no other item is larger than one
  -- of them.
  pub take-IsSortOf :
      (le : A → A → Type 0) (P : A → Type 0) (n : ℕ) (xs sorted : List A)
      → IsSortOf le xs sorted
      → All P xs
      → (length (take n sorted) ≡ min n (length xs))
        × All (IsKeptOr le (take n sorted)) xs
        × All P (take n sorted)
  take-IsSortOf le P n xs sorted (perm, d) ps = (
    length-take n sorted ∙ ap (min n) (length-Permᴰ perm),
    All-Permᴰ (IsKeptOr le (take n sorted)) perm (take-IsKeptOr le n sorted d),
    All-take P n sorted (All-Permᴰ P (Permᴰ.symm perm) ps),
  )
