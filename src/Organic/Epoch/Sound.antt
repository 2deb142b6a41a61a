-- ===== src/Organic/Epoch/Sound.antt =====
-- What an epoch's rows say (src/misscomputer_subnet/organic_scoring.py).
use misscomputer_subnet.Prelude.{
  ℕ, ◌+◌, ◌*◌, ◌≤◌, ◌≡◌, refl, ◌∙◌, ◌⊎◌, inl, inr, Text, Bool, false, none, some, List, [], ◌∷◌,
  All, All-map, map, total, length, ok, err, arith, count, true,
}
use misscomputer_subnet.Prelude.Sorting.{sort, All-sort, total-sort}
use misscomputer_subnet.Prelude.Fractions.{
  Fraction, fraction, fraction-value, fraction-pos, fraction-le,
}
use misscomputer_subnet.Organic.Types.{
  none_, application, miner, path, OrganicProbeObservation, ServingCorroboration,
  EndpointEpochTally, Disposition, abstain_insufficient_attempts, eligible,
  excluded_app_inconclusive, excluded_common_mode,
}
use misscomputer_subnet.Organic.Tally.{
  Tally, Progress, Raises, tally_all, max_attempts_per_endpoint,
}
use misscomputer_subnet.Organic.Tally.Counts.{IsCounted, attempts_of, tally_all-IsCounted}
use misscomputer_subnet.Organic.Tally.Attributed.{
  at, attributed_to, is_fraudulent, count_at, IsTallyOf, tally_all-IsTallyOf,
}
use misscomputer_subnet.Organic.Epoch.{
  is_common_mode, inconclusive_deployments, disposition_of, endpoint_windows, endpoint_row,
  EpochFields, endpoint_before, row_is_eligible, row_of, epoch_rows, epoch_of_tallies, derive_epoch,
  finish,
}

-- The attempts of a row are split by what they are attributed to.
abbrev pub IsSplit : EndpointEpochTally → Type 0
IsSplit e =
    (e.attempts ≡ e.successes + e.application_failures + e.miner_failures + e.path_failures)
    × (1 ≤ e.attempts)
    × (e.attempts ≤ max_attempts_per_endpoint)

-- The row counts the observations of its endpoint, by what they are attributed to, and those with a
-- fraudulent statement.
abbrev pub IsCountOf : List OrganicProbeObservation → EndpointEpochTally → Type 0
IsCountOf os e =
    (e.attempts ≡ count (at e.endpoint_id) os)
    × (e.successes ≡ count_at (attributed_to none_) os e.endpoint_id)
    × (e.application_failures ≡ count_at (attributed_to application) os e.endpoint_id)
    × (e.miner_failures ≡ count_at (attributed_to miner) os e.endpoint_id)
    × (e.path_failures ≡ count_at (attributed_to path) os e.endpoint_id)
    × (e.fraudulent_attestations ≡ count_at is_fraudulent os e.endpoint_id)

count_at-all :
    (os : List OrganicProbeObservation) (x : Text) → count_at (λ o. true) os x ≡ count (at x) os
count_at-all [] x = refl
count_at-all (o ∷ os) x = ground (arith, count_at-all os x)

-- An eligible row has enough attempts, and its availability is its successes over its attempts, in
-- numbers of which the first is at most the second; any other row has none.
abbrev pub IsRated : ℕ → EndpointEpochTally → Type 0
IsRated min_attempts e =
    ((e.disposition ≡ eligible)
      × (min_attempts ≤ e.attempts)
      × ((q : Fraction) × (e.availability_numerator ≡ some q.numerator)
          × (e.availability_denominator ≡ some q.denominator)
          × (q.numerator * e.attempts ≡ e.successes * q.denominator)
          × (q.numerator ≤ q.denominator)
          × (1 ≤ q.denominator)))
    ⊎ ((row_is_eligible e ≡ false)
        × (e.availability_numerator ≡ none)
        × (e.availability_denominator ≡ none))

disposition_of-eligible :
    (common_mode : Bool) (inconclusive : List Text) (min_attempts : ℕ) (t : Tally)
    → disposition_of common_mode inconclusive min_attempts t ≡ eligible
    → min_attempts ≤ t.attempts
unfolding disposition_of
disposition_of-eligible common_mode inconclusive min_attempts t h = ground arith

endpoint_row-IsRated :
    (d : Disposition) (min_attempts : ℕ) (windows : List ServingCorroboration) (t : Tally)
    → IsCounted t
    → (d ≡ eligible → min_attempts ≤ t.attempts)
    → IsRated min_attempts (endpoint_row d windows t)
unfolding endpoint_row
endpoint_row-IsRated eligible min_attempts windows t c enough = inl (
  refl,
  enough refl,
  (
    fraction t.successes t.attempts,
    refl,
    refl,
    fraction-value t.successes t.attempts,
    omega (
      arith,
      c.split,
      fraction-le 1 t.successes t.attempts (omega (arith, c.split)) c.some_attempt,
    ),
    fraction-pos t.successes t.attempts c.some_attempt,
  ),
)
endpoint_row-IsRated abstain_insufficient_attempts min_attempts windows t c enough =
    inr (refl, refl, refl)
endpoint_row-IsRated excluded_app_inconclusive min_attempts windows t c enough =
    inr (refl, refl, refl)
endpoint_row-IsRated excluded_common_mode min_attempts windows t c enough = inr (refl, refl, refl)

endpoint_row-IsSplit :
    (d : Disposition) (windows : List ServingCorroboration) (t : Tally)
    → IsCounted t
    → IsSplit (endpoint_row d windows t)
unfolding endpoint_row
endpoint_row-IsSplit d windows t c = (c.split, c.some_attempt, c.few)

endpoint_row-IsCountOf :
    (os : List OrganicProbeObservation) (d : Disposition) (windows : List ServingCorroboration)
    (t : Tally)
    → IsTallyOf os t
    → IsCountOf os (endpoint_row d windows t)
unfolding endpoint_row
endpoint_row-IsCountOf os d windows t c = (
  c.attempts ∙ count_at-all os t.endpoint_id,
  c.successes,
  c.application_failures,
  c.miner_failures,
  c.path_failures,
  c.frauds,
)

total-map-attempts :
    (row : Tally → EndpointEpochTally)
    → ((t : Tally) → (row t).attempts ≡ t.attempts)
    → (ts : List Tally)
    → total (λ (e : EndpointEpochTally). e.attempts) (map row ts) ≡ total attempts_of ts
total-map-attempts row same [] = refl
total-map-attempts row same (t ∷ ts) = omega (arith, same t, total-map-attempts row same ts)

module _ (epoch_seconds epoch_index min_attempts : ℕ)
    (corroboration : List ServingCorroboration) where
  epoch_rows_sound :
      (ts : List Tally)
      → All IsCounted ts
      → All
          (λ e. IsSplit e × IsRated min_attempts e)
          (epoch_rows epoch_seconds epoch_index min_attempts corroboration ts)
        × (total
              (λ (e : EndpointEpochTally). e.attempts)
              (epoch_rows epoch_seconds epoch_index min_attempts corroboration ts)
            ≡ total attempts_of ts)
  unfolding epoch_rows
  epoch_rows_sound ts a =
      let d = λ (t : Tally).
        disposition_of (is_common_mode ts) (inconclusive_deployments ts) min_attempts t in
      let w =
        λ (t : Tally). endpoint_windows epoch_seconds epoch_index corroboration t.endpoint_id in
      (
        All-map IsCounted (λ e. IsSplit e × IsRated min_attempts e)
            (row_of epoch_seconds epoch_index min_attempts corroboration ts)
            (λ t c. (
              endpoint_row-IsSplit (d t) (w t) t c,
              endpoint_row-IsRated (d t) min_attempts (w t) t c (
                  disposition_of-eligible (is_common_mode ts) (inconclusive_deployments ts)
                    min_attempts t),
            ))
            (sort endpoint_before ts) (All-sort endpoint_before IsCounted ts a),
        total-map-attempts (row_of epoch_seconds epoch_index min_attempts corroboration ts)
              (λ t. refl) (sort endpoint_before ts)
            ∙ total-sort endpoint_before attempts_of ts,
      )

  epoch_rows-IsCountOf :
      (os : List OrganicProbeObservation) (ts : List Tally)
      → All (IsTallyOf os) ts
      → All (IsCountOf os) (epoch_rows epoch_seconds epoch_index min_attempts corroboration ts)
  unfolding epoch_rows
  epoch_rows-IsCountOf os ts a =
      All-map (IsTallyOf os) (IsCountOf os)
        (row_of epoch_seconds epoch_index min_attempts corroboration ts)
        (λ t c.
          endpoint_row-IsCountOf os
            (disposition_of (is_common_mode ts) (inconclusive_deployments ts) min_attempts t)
            (endpoint_windows epoch_seconds epoch_index corroboration t.endpoint_id) t c)
        (sort endpoint_before ts) (All-sort endpoint_before (IsTallyOf os) ts a)

  pub derive_epoch-tallies :
      (observations : List OrganicProbeObservation) (fields : EpochFields)
      → derive_epoch epoch_seconds epoch_index min_attempts corroboration observations ≡ ok fields
      → (p : Progress) × (tally_all epoch_seconds epoch_index observations
            (record { tallies = []; fraud = []; identities = [] })
          ≡ ok p)
        × (fields ≡ epoch_of_tallies epoch_seconds epoch_index min_attempts corroboration p)
  unfolding derive_epoch
  derive_epoch-tallies observations fields h =
      go
        (tally_all epoch_seconds epoch_index observations
          (record { tallies = []; fraud = []; identities = [] }))
        h
    where
      go :
          (r : Raises Progress)
          → finish epoch_seconds epoch_index min_attempts corroboration r ≡ ok fields
          → (p : Progress) × (r ≡ ok p)
            × (fields ≡ epoch_of_tallies epoch_seconds epoch_index min_attempts corroboration p)
      go (ok p) h = (p, refl, ground arith)
      go (err e) h = absurd (ground arith)

  -- If the observations of an epoch are accepted, the attempts of its rows add up to the number of
  -- the observations; each row's attempts, 1 to 16 of them, are the observations of its endpoint,
  -- and its successes, application, miner and path failures are those among them with that
  -- attribution, and add up to the attempts; its frauds are those with a fraudulent statement; an eligible
  -- row has the least number of attempts, and its availability is its successes over its attempts,
  -- at most one; and a row that is not eligible has no availability.
  pub derive_epoch_sound :
      (observations : List OrganicProbeObservation) (fields : EpochFields)
      → derive_epoch epoch_seconds epoch_index min_attempts corroboration observations ≡ ok fields
      → (total (λ (e : EndpointEpochTally). e.attempts) fields.endpoints ≡ length observations)
        × All (λ e. IsSplit e × IsRated min_attempts e) fields.endpoints
        × All (IsCountOf observations) fields.endpoints
  unfolding epoch_of_tallies
  derive_epoch_sound observations fields h =
      let (p, tallied, e) = derive_epoch-tallies observations fields h in
      let (counted, all) =
        tally_all-IsCounted epoch_seconds epoch_index observations
          (record { tallies = []; fraud = []; identities = [] }) p tt tallied in
      let (rows, attempts) = epoch_rows_sound p.tallies counted in
      let count_rows =
        epoch_rows-IsCountOf observations p.tallies
          (tally_all-IsTallyOf epoch_seconds epoch_index observations p tallied) in
      rw e (omega (arith, attempts, all), rows, count_rows)
