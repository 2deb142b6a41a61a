-- ===== src/Organic/Tally/Counts.antt =====
-- What the tallies of an epoch count (src/misscomputer_subnet/organic_scoring.py).
use misscomputer_subnet.Prelude.{
  ℕ, suc, ◌+◌, ◌/◌, ◌≤◌, ◌≡◌, refl, inl, inr, text_eq, Bool, true, false, List, [], ◌∷◌, all, All,
  total, length, Bool-cases, ok, err, ◌>>=◌, arith,
}
use misscomputer_subnet.Organic.Types.{OrganicProbeObservation}
use misscomputer_subnet.Organic.Tally.{
  Tally, Progress, Raises, max_attempts_per_endpoint, counted, empty_tally, count_once, with_head,
  with_tail, tally_observation, add_observation, tally_all, one_if, is_fraud,
}

-- Every attempt is counted once, by what it is attributed to, and there are 1 to 16 of them.
pub record IsCounted (t : Tally) : Type 0 where
  pub split : t.attempts ≡ t.successes + t.application_failures + t.miner_failures + t.path_failures
  pub some_attempt : 1 ≤ t.attempts
  pub few : t.attempts ≤ max_attempts_per_endpoint
  pub frauds : t.frauds ≤ t.attempts

abbrev pub attempts_of : Tally → ℕ
attempts_of t = t.attempts

one_if-le : (b : Bool) → one_if b ≤ 1
one_if-le true = omega arith
one_if-le false = omega arith

counted-split :
    (o : OrganicProbeObservation) (t : Tally)
    → t.attempts ≡ t.successes + t.application_failures + t.miner_failures + t.path_failures
    → (counted o t).attempts
      ≡ (counted o t).successes
        + (counted o t).application_failures
        + (counted o t).miner_failures
        + (counted o t).path_failures
unfolding counted
counted-split o t h = ground arith

counted-IsCounted :
    (o : OrganicProbeObservation) (t : Tally)
    → t.attempts ≡ t.successes + t.application_failures + t.miner_failures + t.path_failures
    → t.attempts + 1 ≤ max_attempts_per_endpoint
    → t.frauds ≤ t.attempts
    → IsCounted (counted o t) × ((counted o t).attempts ≡ suc t.attempts)
unfolding counted
counted-IsCounted o t split few frauds = (
  record {
    split = counted-split o t split;
    some_attempt = omega arith;
    few = few;
    frauds = omega (arith, one_if-le (is_fraud o.attestation_status));
  },
  omega arith,
)

pub count_once-counted :
    (o : OrganicProbeObservation) (t u : Tally)
    → count_once o t ≡ ok u
    → (u ≡ counted o t) × (t.attempts + 1 ≤ max_attempts_per_endpoint)
count_once-counted o t u h = (ground arith, ground arith)

pub with_head-parts :
    (r : Raises Tally) (ts us : List Tally)
    → with_head r ts ≡ ok us
    → (u : Tally) × (r ≡ ok u) × (us ≡ u ∷ ts)
with_head-parts (ok u) ts us h = (u, refl, ground arith)
with_head-parts (err e) ts us h = absurd (ground arith)

pub with_tail-parts :
    (t : Tally) (r : Raises (List Tally)) (us : List Tally)
    → with_tail t r ≡ ok us
    → (rest : List Tally) × (r ≡ ok rest) × (us ≡ t ∷ rest)
with_tail-parts t (ok rest) us h = (rest, refl, ground arith)
with_tail-parts t (err e) us h = absurd (ground arith)

tally_observation-IsCounted :
    (o : OrganicProbeObservation) (ts us : List Tally)
    → All IsCounted ts
    → tally_observation o ts ≡ ok us
    → All IsCounted us × (total attempts_of us ≡ suc (total attempts_of ts))
unfolding tally_observation
tally_observation-IsCounted o [] us a h =
    let (c, one) = counted-IsCounted o (empty_tally o) refl (omega arith) (omega arith) in
    let e : us ≡ counted o (empty_tally o) ∷ [] = ground arith in rw e ((c, tt), omega arith)
tally_observation-IsCounted o (t ∷ ts) us a h =
    elim (Bool-cases (text_eq t.endpoint_id o.endpoint_id)) [
      | inl own ↦
          let (u, once, e) = with_head-parts (count_once o t) ts us (ground arith) in
          let (same, few) = count_once-counted o t u once in
          let (c, more) = counted-IsCounted o t a.0.split few a.0.frauds in
          rw (e, same) ((c, a.1), omega arith)
      | inr other ↦
          let (rest, below, e) = with_tail-parts t (tally_observation o ts) us (ground arith) in
          let (c, more) = tally_observation-IsCounted o ts rest a.1 below in
          rw e ((a.0, c), omega arith)
    ]

pub add_observation-tallies :
    (epoch_seconds epoch_index : ℕ) (o : OrganicProbeObservation) (p q : Progress)
    → add_observation epoch_seconds epoch_index o p ≡ ok q
    → (o.issued_at / epoch_seconds ≡ epoch_index) × (tally_observation o p.tallies ≡ ok q.tallies)
unfolding add_observation
add_observation-tallies epoch_seconds epoch_index o p q h = (ground arith, ground arith)

pub nothing :
    (epoch_seconds epoch_index : ℕ) (p q : Progress)
    → tally_all epoch_seconds epoch_index [] p ≡ ok q
    → q ≡ p
unfolding tally_all
nothing epoch_seconds epoch_index p q h = ground arith

pub tally_all-step :
    (epoch_seconds epoch_index : ℕ) (o : OrganicProbeObservation)
    (os : List OrganicProbeObservation) (p q : Progress)
    → tally_all epoch_seconds epoch_index (o ∷ os) p ≡ ok q
    → (m : Progress) × (add_observation epoch_seconds epoch_index o p ≡ ok m)
      × (tally_all epoch_seconds epoch_index os m ≡ ok q)
unfolding tally_all
tally_all-step epoch_seconds epoch_index o os p q h =
    go (add_observation epoch_seconds epoch_index o p) h
  where
    go :
        (r : Raises Progress)
        → (r >>= λ m. tally_all epoch_seconds epoch_index os m) ≡ ok q
        → (m : Progress) × (r ≡ ok m) × (tally_all epoch_seconds epoch_index os m ≡ ok q)
    go (ok m) h = (m, refl, h)
    go (err e) h = absurd (ground arith)

-- The loop over the observations keeps the tallies sound and counts each observation once.
pub tally_all-IsCounted :
    (epoch_seconds epoch_index : ℕ) (os : List OrganicProbeObservation) (p q : Progress)
    → All IsCounted p.tallies
    → tally_all epoch_seconds epoch_index os p ≡ ok q
    → All IsCounted q.tallies
      × (total attempts_of q.tallies ≡ total attempts_of p.tallies + length os)
tally_all-IsCounted epoch_seconds epoch_index [] p q a h =
    let e : q ≡ p = nothing epoch_seconds epoch_index p q h in rw e (a, omega arith)
tally_all-IsCounted epoch_seconds epoch_index (o ∷ os) p q a h =
    let (m, first, rest) = tally_all-step epoch_seconds epoch_index o os p q h in
    let (when, counts) = add_observation-tallies epoch_seconds epoch_index o p m first in
    let (c, one) = tally_observation-IsCounted o p.tallies m.tallies a counts in
    let (d, all) = tally_all-IsCounted epoch_seconds epoch_index os m q c rest in (d, omega arith)
