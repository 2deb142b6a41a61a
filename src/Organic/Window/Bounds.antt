-- ===== src/Organic/Window/Bounds.antt =====
-- The sums of a window and the number of rows in them (src/misscomputer_subnet/organic_scoring.py).
use misscomputer_subnet.Prelude.{
  ℕ, suc, ◌+◌, ◌*◌, ◌≤◌, ◌<◌, ◌≡◌, refl, ◌∙◌, inl, inr, Text, text_eq, Bool, true, false, ◌&&◌,
  Option, none, some, List, [], ◌∷◌, ◌==◌, All, total, count, if◌then◌else◌, Bool-cases, ok, err,
  arith,
}
use misscomputer_subnet.Prelude.Fractions.{
  Fraction, fraction, fraction-le, fraction-pos, add_fractions-le, add_fractions-pos,
}
use misscomputer_subnet.Organic.Types.{EndpointEpochTally}
use misscomputer_subnet.Organic.Tally.{identity_agrees, Raises}
use misscomputer_subnet.Organic.Epoch.{row_is_eligible}
use misscomputer_subnet.Organic.Epoch.Sound.{IsRated}
use misscomputer_subnet.Organic.Window.{
  Share, WindowProgress, no_fraction, add_share, rated, add_rated, with_share, seen, next,
  add_endpoint, add_endpoints,
}

-- A share is a sum of as many fractions of at most one as it counts.
abbrev pub IsShare : Share → Type 0
IsShare s =
    (s.sum.numerator ≤ s.count * s.sum.denominator) × (0 < s.sum.denominator) × (0 < s.count)

abbrev IsPart : Fraction → Type 0
IsPart q = (q.numerator ≤ q.denominator) × (0 < q.denominator)

abbrev pub count_of : Share → ℕ
count_of s = s.count

one_more : (n : ℕ) → n + 1 ≡ suc n
one_more n = omega arith

add_share-IsShare :
    (uid : ℕ) (hotkey : Text) (q : Fraction)
    → IsPart q
    → (ss : List Share) → All IsShare ss
    → All IsShare (add_share uid hotkey q ss)
unfolding add_share
add_share-IsShare uid hotkey q (small, pos) [] a =
    let none_ = no_fraction in
    (
      (
        add_fractions-le 0 none_ q (omega arith) small (omega arith) pos,
        add_fractions-pos none_ q (omega arith) pos,
        omega arith,
      ),
      tt,
    )
add_share-IsShare uid hotkey q (small, pos) (s ∷ ss) (first, rest) =
    elim (Bool-cases (s.miner_uid == uid && text_eq s.miner_hotkey hotkey)) [
      | inr other ↦ rw other (first, add_share-IsShare uid hotkey q (small, pos) ss rest)
      | inl own ↦ rw own (
        (
          rw (one_more s.count) (add_fractions-le s.count s.sum q first.0 small first.1 pos),
          add_fractions-pos s.sum q first.1 pos,
          omega arith,
        ),
        rest,
      )
    ]

total-add_share :
    (uid : ℕ) (hotkey : Text) (q : Fraction) (ss : List Share)
    → total count_of (add_share uid hotkey q ss) ≡ suc (total count_of ss)
unfolding add_share
total-add_share uid hotkey q [] = refl
total-add_share uid hotkey q (s ∷ ss) = ground (arith, total-add_share uid hotkey q ss)

rated-fraction :
    (n d : Option ℕ) (p q : Fraction)
    → n ≡ some p.numerator
    → d ≡ some p.denominator
    → rated n d ≡ ok q
    → fraction p.numerator p.denominator ≡ q
rated-fraction none d p q a b h = absurd (ground arith)
rated-fraction (some n) none p q a b h = absurd (ground arith)
rated-fraction (some n) (some d) p q a b h = ground arith

-- what a rated row puts into the sums
rated-IsPart :
    (min_attempts : ℕ) (e : EndpointEpochTally) (q : Fraction)
    → IsRated min_attempts e
    → rated e.availability_numerator e.availability_denominator ≡ ok q
    → IsPart q
rated-IsPart min_attempts e q (inr (_, none_, _)) h = absurd (ground arith)
rated-IsPart min_attempts e q (inl (_, _, (p, top, bottom, _, small, pos))) h =
    let same =
      rated-fraction e.availability_numerator e.availability_denominator p q top bottom h in
    rw (← same) (
      omega (arith, fraction-le 1 p.numerator p.denominator (omega (arith, small)) pos),
      fraction-pos p.numerator p.denominator pos,
    )

-- The shares are sound and count the rows so far.
abbrev pub IsTallied : ℕ → WindowProgress → Type 0
IsTallied n p = All IsShare p.shares × (total count_of p.shares ≡ n)

pub nothing_more : (n : ℕ) (p : WindowProgress) → IsTallied n p → IsTallied (0 + n) p
nothing_more n p (shares, counts) = (shares, omega (arith, counts))

abbrev rated_rows : List EndpointEpochTally → ℕ
rated_rows es = count row_is_eligible es

add_rated-IsTallied :
    (n : ℕ) (e : EndpointEpochTally) (p p' : WindowProgress) (r : Raises Fraction)
    → ((q : Fraction) → r ≡ ok q → IsPart q)
    → IsTallied n p
    → add_rated e p r ≡ ok p'
    → IsTallied (1 + n) p'
add_rated-IsTallied n e p p' (err c) part a h = absurd (ground arith)
add_rated-IsTallied n e p p' (ok q) part (shares, counts) h =
    let same : with_share e p q ≡ p' = ground arith in
    rw (← same) (
      add_share-IsShare e.miner_uid e.miner_hotkey q (part q refl) p.shares shares,
      omega (arith, counts, total-add_share e.miner_uid e.miner_hotkey q p.shares),
    )

abbrev one_if : Bool → ℕ
one_if true = 1
one_if false = 0

add_endpoint-IsTallied :
    (min_attempts n : ℕ) (e : EndpointEpochTally) (p p' : WindowProgress)
    → IsRated min_attempts e
    → IsTallied n p
    → add_endpoint e p ≡ ok p'
    → IsTallied (one_if (row_is_eligible e) + n) p'
unfolding add_endpoint
add_endpoint-IsTallied min_attempts n e p p' r a h =
    elim (Bool-cases (identity_agrees e.miner_uid e.miner_hotkey p.identities)) [
      | inr conflict ↦ absurd (ground arith)
      | inl agrees ↦ elim (Bool-cases (row_is_eligible e)) [
        | inr skipped ↦
            let same : seen e p ≡ p' = ground arith in
            rw skipped (rw (← same) (nothing_more n (seen e p) a))
        | inl rates ↦ rw rates (
            add_rated-IsTallied n e (seen e p) p'
              (rated e.availability_numerator e.availability_denominator)
              (λ q. rated-IsPart min_attempts e q r) a (ground arith))
      ]
    ]

moved : (b : Bool) (m n : ℕ) → m + (one_if b + n) ≡ (if b then suc m else m) + n
moved true m n = omega arith
moved false m n = omega arith

pub add_endpoints-IsTallied :
    (min_attempts n : ℕ) (es : List EndpointEpochTally) (p p' : WindowProgress)
    → All (IsRated min_attempts) es
    → IsTallied n p
    → add_endpoints es p ≡ ok p'
    → IsTallied (rated_rows es + n) p'
unfolding add_endpoints
add_endpoints-IsTallied min_attempts n [] p p' r a h =
    let same : p ≡ p' = ground arith in rw (← same) (nothing_more n p a)
add_endpoints-IsTallied min_attempts n (e ∷ es) p p' (r, rs) a h =
    go (add_endpoint e p)
      (λ q. add_endpoints-IsTallied min_attempts (one_if (row_is_eligible e) + n) es q p' rs) refl h
  where
    go :
        (call : Raises WindowProgress)
        → ((q : WindowProgress)
            → IsTallied (one_if (row_is_eligible e) + n) q
            → add_endpoints es q ≡ ok p'
            → IsTallied (rated_rows es + (one_if (row_is_eligible e) + n)) p')
        → add_endpoint e p ≡ call
        → next call (λ q. add_endpoints es q) ≡ ok p'
        → IsTallied (rated_rows (e ∷ es) + n) p'
    go (err c) more first h = absurd (ground arith)
    go (ok q) more first h =
        let done = more q (add_endpoint-IsTallied min_attempts n e p q r a first) h in
        (done.0, done.1 ∙ moved (row_is_eligible e) (rated_rows es) n)
