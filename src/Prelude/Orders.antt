-- ===== src/Prelude/Orders.antt =====
-- Lists in another order: what holds of all pairs, and `sorted` of a list without equal keys.
use mathlib.Core.Bool.{Bool, true, false, not, ◌&&◌, ◌||◌}
use mathlib.Core.List.{List, [], ◌∷◌, Permᴰ, map}
use Prim.Native.Nat.{suc}
use mathlib.Core.Path.{◌≡◌, refl, sym, ap, subst, ◌∙◌}
use native.Mathlib.Omega.{arith}
use misscomputer_subnet.Prelude.Lists.{all, any, All, distinct, length}
use misscomputer_subnet.Prelude.Sorting.{insert, sort}
use misscomputer_subnet.Prelude.Texts.{Text, text_eq}

pub length-perm {ℓ} : {A : Type ℓ} (xs ys : List A) → Permᴰ xs ys → length xs ≡ length ys
length-perm _ _ Permᴰ.nil = refl
length-perm _ _ (Permᴰ.cons {l₁} {l₂} e p) = ap suc (length-perm l₁ l₂ p)
length-perm _ _ (Permᴰ.swap e f) = refl
length-perm xs ys (Permᴰ.trans {l₂} p q) = length-perm xs l₂ p ∙ length-perm l₂ ys q

pub all-perm {ℓ} : {A : Type ℓ} (p : A → Bool) (xs ys : List A) → Permᴰ xs ys → all p xs ≡ all p ys
all-perm p _ _ Permᴰ.nil = refl
all-perm p _ _ (Permᴰ.cons {a} {b} {l₁} {l₂} e d) = rw e (ap (λ t. p b && t) (all-perm p l₁ l₂ d))
all-perm p _ _ (Permᴰ.swap {a} {b} {l} e f) = rw (← e, ← f) (ground arith)
all-perm p xs ys (Permᴰ.trans {l₂} c d) = all-perm p xs l₂ c ∙ all-perm p l₂ ys d

pub All-perm {ℓ κ} :
    {A : Type ℓ} (P : A → Type κ) (xs ys : List A) → Permᴰ xs ys → All P xs → All P ys
All-perm P _ _ Permᴰ.nil a = tt
All-perm P _ _ (Permᴰ.cons {a} {b} {l₁} {l₂} e d) (first, rest) =
    (subst P e first, All-perm P l₁ l₂ d rest)
All-perm P _ _ (Permᴰ.swap e f) (first, (second, rest)) =
    (subst P f second, (subst P e first, rest))
All-perm P xs ys (Permᴰ.trans {l₂} c d) a = All-perm P l₂ ys d (All-perm P xs l₂ c a)

-- The test holds of any two elements, the earlier one first.
abbrev pub pairs {ℓ} : {A : Type ℓ} → (A → A → Bool) → List A → Bool
pairs r [] = true
pairs r (x ∷ xs) = all (r x) xs && pairs r xs

module _ {ℓ} {A : Type ℓ} (r : A → A → Bool) (symmetric : (x y : A) → r x y ≡ r y x) where
  pairs-swap : (a b : A) (l : List A) → pairs r (a ∷ b ∷ l) ≡ pairs r (b ∷ a ∷ l)
  pairs-swap a b l = ground (arith, symmetric a b)

  pub pairs-perm : (xs ys : List A) → Permᴰ xs ys → pairs r xs ≡ pairs r ys
  pairs-perm _ _ Permᴰ.nil = refl
  pairs-perm _ _ (Permᴰ.cons {a} {b} {l₁} {l₂} e d) =
      rw e (ground (arith, all-perm (r b) l₁ l₂ d, pairs-perm l₁ l₂ d))
  pairs-perm _ _ (Permᴰ.swap {a} {b} {a'} {b'} {l} e f) =
      let same : b ∷ a ∷ l ≡ a' ∷ b' ∷ l = cc (e, f) in pairs-swap a b l ∙ ap (pairs r) same
  pairs-perm xs ys (Permᴰ.trans {l₂} c d) = pairs-perm xs l₂ c ∙ pairs-perm l₂ ys d

pub distinct-pairs {ℓ} :
    {A : Type ℓ} (key : A → Text) (xs : List A)
    → distinct text_eq (map key xs) ≡ pairs (λ x y. not (text_eq (key x) (key y))) xs
distinct-pairs key [] = refl
distinct-pairs key (x ∷ xs) = ground (arith, others xs, distinct-pairs key xs)
  where
    others :
        (ys : List _)
        → not (any (text_eq (key x)) (map key ys)) ≡ all (λ y. not (text_eq (key x) (key y))) ys
    others [] = refl
    others (y ∷ ys) = ground (arith, others ys)

pub pairs_mono {ℓ} :
    {A : Type ℓ} (r s : A → A → Bool)
    → ((x y : A) → r x y ≡ true → s x y ≡ true)
    → (xs : List A) → pairs r xs ≡ true
    → pairs s xs ≡ true
pairs_mono r s f [] h = refl
pairs_mono r s f (x ∷ xs) h =
    ground (arith, others xs (ground arith), pairs_mono r s f xs (ground arith))
  where
    others : (ys : List _) → all (r x) ys ≡ true → all (s x) ys ≡ true
    others [] h = refl
    others (y ∷ ys) h = ground (arith, f x y (ground arith), others ys (ground arith))

module _ {ℓ} {A : Type ℓ} (before : A → A → Bool)
    (transitive : (x y z : A) → before x y ≡ true → before y z ≡ true → before x z ≡ true)
    (asymmetric : (x y : A) → before x y ≡ true → before y x ≡ false) where
  abbrev pub ordered : A → A → Bool
  ordered x y = before x y || before y x

  insert_comm :
      (a b : A) (ys : List A)
      → ordered a b ≡ true
      → insert before a (insert before b ys) ≡ insert before b (insert before a ys)
  unfolding insert
  insert_comm a b [] h = ground (arith, asymmetric a b, asymmetric b a)
  insert_comm a b (y ∷ ys) h = ground (
    arith,
    insert_comm a b ys h,
    asymmetric a b,
    asymmetric b a,
    transitive y a b,
    transitive y b a,
  )

  -- Two orders of a list in which no two keys are equal are sorted to the same list.
  pub sort-perm :
      (xs ys : List A) → Permᴰ xs ys → pairs ordered xs ≡ true → sort before xs ≡ sort before ys
  unfolding sort
  sort-perm _ _ Permᴰ.nil h = refl
  sort-perm _ _ (Permᴰ.cons {a} {b} {l₁} {l₂} e d) h =
      rw e (ap (insert before b) (sort-perm l₁ l₂ d (ground arith)))
  sort-perm _ _ (Permᴰ.swap {a} {b} {l} e f) h =
      rw (← e, ← f) (insert_comm a b (sort before l) (ground arith))
  sort-perm xs ys (Permᴰ.trans {l₂} c d) h =
      sort-perm xs l₂ c h
      ∙ sort-perm l₂ ys d (sym (pairs-perm ordered (λ x y. swapped x y) xs l₂ c) ∙ h)
    where
      swapped : (x y : A) → ordered x y ≡ ordered y x
      swapped x y = ground arith
