-- ===== src/Prelude/Sorting.antt =====
-- Python's stable `sorted` by a strict order test on the keys, as insertion sort.
use mathlib.Core.Bool.{Bool, true, not, ◌&&◌, ◌||◌}
use mathlib.Core.List.{List, [], ◌∷◌}
use Prim.Native.Nat.{ℕ, ◌+◌}
use mathlib.Core.Logic.{inl, inr}
use native.Mathlib.Omega.{arith}
use mathlib.Core.Path.{◌≡◌, refl}
use misscomputer_subnet.Prelude.Lists.{all, any, All, total, count}
use misscomputer_subnet.Prelude.Tests.{if◌then◌else◌, Bool-cases}

module _ {ℓ} {A : Type ℓ} (before : A → A → Bool) where
  -- Insert in front of the first element that does not come strictly before `x`.
  unfoldable pub insert : A → List A → List A
  insert x [] = x ∷ []
  insert x (y ∷ ys) = let rest = insert x ys in if before y x then y ∷ rest else x ∷ y ∷ ys

  -- `sorted(xs)`, where `before a b` is the strict order of the keys
  unfoldable pub sort : List A → List A
  unfolding insert
  sort [] = []
  sort (x ∷ xs) = insert x (sort xs)

  -- No element comes before the one that precedes it, which is when `sorted(xs)` is `xs`.
  unfoldable pub is_sorted : List A → Bool
  is_sorted [] = true
  is_sorted (x ∷ []) = true
  is_sorted (x ∷ y ∷ ys) = not (before y x) && is_sorted (y ∷ ys)

-- Sorting keeps a test that holds of all elements.
module _ {A : Type 0} (before : A → A → Bool) (p : A → Bool) where
  all-insert : (x : A) (xs : List A) → all p (insert before x xs) ≡ (p x && all p xs)
  unfolding insert
  all-insert x [] = refl
  all-insert x (y ∷ ys) = ground (arith, all-insert x ys)

  pub all-sort : (xs : List A) → all p (sort before xs) ≡ all p xs
  unfolding sort
  all-sort [] = refl
  all-sort (x ∷ xs) = ground (arith, all-insert x (sort before xs), all-sort xs)

module _ {ℓ κ} {A : Type ℓ} (before : A → A → Bool) (P : A → Type κ) where
  All-insert : (x : A) (xs : List A) → P x → All P xs → All P (insert before x xs)
  unfolding insert
  All-insert x [] p a = (p, tt)
  All-insert x (y ∷ ys) p a = elim (Bool-cases (before y x)) [
    | inl later ↦ rw later (a.0, All-insert x ys p a.1)
    | inr here ↦ rw here (p, a)
  ]

  pub All-sort : (xs : List A) → All P xs → All P (sort before xs)
  unfolding sort
  All-sort [] a = tt
  All-sort (x ∷ xs) a = All-insert x (sort before xs) a.0 (All-sort xs a.1)

module _ {ℓ} {A : Type ℓ} (before : A → A → Bool) (f : A → ℕ) where
  total-insert : (x : A) (xs : List A) → total f (insert before x xs) ≡ f x + total f xs
  unfolding insert
  total-insert x [] = refl
  total-insert x (y ∷ ys) = ground (arith, total-insert x ys)

  pub total-sort : (xs : List A) → total f (sort before xs) ≡ total f xs
  unfolding sort
  total-sort [] = refl
  total-sort (x ∷ xs) = omega (arith, total-insert x (sort before xs), total-sort xs)

module _ {ℓ} {A : Type ℓ} (before : A → A → Bool) (p : A → Bool) where
  any-insert : (x : A) (xs : List A) → any p (insert before x xs) ≡ (p x || any p xs)
  unfolding insert
  any-insert x [] = refl
  any-insert x (y ∷ ys) = ground (arith, any-insert x ys)

  pub any-sort : (xs : List A) → any p (sort before xs) ≡ any p xs
  unfolding sort
  any-sort [] = refl
  any-sort (x ∷ xs) = ground (arith, any-insert x (sort before xs), any-sort xs)

  count-insert : (x : A) (xs : List A) → count p (insert before x xs) ≡ count p (x ∷ xs)
  unfolding insert
  count-insert x [] = refl
  count-insert x (y ∷ ys) = ground (arith, count-insert x ys)

  pub count-sort : (xs : List A) → count p (sort before xs) ≡ count p xs
  unfolding sort
  count-sort [] = refl
  count-sort (x ∷ xs) = ground (arith, count-insert x (sort before xs), count-sort xs)
