-- ===== src/Organic/Epoch/CommonMode.antt =====
-- When an epoch is marked unavailable (src/misscomputer_subnet/organic_scoring.py).
use misscomputer_subnet.Prelude.{
  ℕ, ◌*◌, ◌≤◌, ◌<◌, ◌≡◌, ◌↔◌, refl, ◌∙◌, Text, Bool, true, not, ◌||◌, List, [], ◌∷◌, ◌==◌, all, All,
  map, count, count-le-length, length, ok, arith,
}
use misscomputer_subnet.Prelude.Sorting.{sort, All-sort, count-sort}
use misscomputer_subnet.Organic.Types.{
  path, OrganicProbeObservation, ServingCorroboration, EndpointEpochTally, common_mode_unavailable,
}
use misscomputer_subnet.Organic.Tally.{Tally}
use misscomputer_subnet.Organic.Tally.Attributed.{
  at, attributed_to, count_at, IsTallyOf, tally_all-IsTallyOf,
}
use misscomputer_subnet.Organic.Epoch.Sound.{derive_epoch-tallies}
use misscomputer_subnet.Organic.Epoch.{
  is_common_mode, endpoint_row, EpochFields, endpoint_before, status_of, row_of, epoch_rows,
  epoch_of_tallies, derive_epoch, is_path_down,
}

-- whether every observation of the endpoint is a path failure
abbrev pub saw_path_only : List OrganicProbeObservation → Text → Bool
saw_path_only os x = all (λ (o : OrganicProbeObservation). not (at x o) || attributed_to path o) os

count_at-le :
    (os : List OrganicProbeObservation) (x : Text)
    → count_at (attributed_to path) os x ≤ count_at (λ o. true) os x
count_at-le [] x = omega arith
count_at-le (o ∷ os) x = ground (arith, count_at-le os x)

saw_path_only-count :
    (os : List OrganicProbeObservation) (x : Text)
    → (count_at (attributed_to path) os x == count_at (λ o. true) os x) ≡ saw_path_only os x
saw_path_only-count [] x = refl
saw_path_only-count (o ∷ os) x = ground (arith, saw_path_only-count os x, count_at-le os x)

is_path_down-saw :
    (os : List OrganicProbeObservation) (t : Tally)
    → IsTallyOf os t
    → is_path_down t ≡ saw_path_only os t.endpoint_id
is_path_down-saw os t c = rw (c.path_failures, c.attempts) (saw_path_only-count os t.endpoint_id)

module _ (row : Tally → EndpointEpochTally)
    (same : (t : Tally) → (row t).endpoint_id ≡ t.endpoint_id) where
  count-rows :
      (os : List OrganicProbeObservation) (ts : List Tally)
      → All (IsTallyOf os) ts
      → count (λ (e : EndpointEpochTally). saw_path_only os e.endpoint_id) (map row ts)
        ≡ count is_path_down ts
  count-rows os [] a = refl
  count-rows os (t ∷ ts) a =
      let head : saw_path_only os (row t).endpoint_id ≡ is_path_down t =
        rw (same t, is_path_down-saw os t a.0) refl in
      ground (arith, head, count-rows os ts a.1)

  length-rows : (ts : List Tally) → length (map row ts) ≡ count (λ (t : Tally). true) ts
  length-rows [] = refl
  length-rows (t ∷ ts) = omega (arith, length-rows ts)

length-count : (ts : List Tally) → count (λ (t : Tally). true) ts ≡ length ts
length-count [] = refl
length-count (t ∷ ts) = omega (arith, length-count ts)

module _ (epoch_seconds epoch_index min_attempts : ℕ) (c : List ServingCorroboration) where
  row_of-endpoint :
      (all_ : List Tally) (t : Tally)
      → (row_of epoch_seconds epoch_index min_attempts c all_ t).endpoint_id ≡ t.endpoint_id
  unfolding endpoint_row
  row_of-endpoint all_ t = refl

  epoch_rows-length :
      (ts : List Tally)
      → length (epoch_rows epoch_seconds epoch_index min_attempts c ts) ≡ length ts
  unfolding epoch_rows
  epoch_rows-length ts =
      length-rows (row_of epoch_seconds epoch_index min_attempts c ts) (row_of-endpoint ts)
        (sort endpoint_before ts)
      ∙ count-sort endpoint_before (λ (t : Tally). true) ts
      ∙ length-count ts

  epoch_rows-count :
      (os : List OrganicProbeObservation) (ts : List Tally)
      → All (IsTallyOf os) ts
      → count
          (λ (e : EndpointEpochTally). saw_path_only os e.endpoint_id)
          (epoch_rows epoch_seconds epoch_index min_attempts c ts)
        ≡ count is_path_down ts
  unfolding epoch_rows
  epoch_rows-count os ts a =
      count-rows (row_of epoch_seconds epoch_index min_attempts c ts) (row_of-endpoint ts) os
        (sort endpoint_before ts) (All-sort endpoint_before (IsTallyOf os) ts a)
      ∙ count-sort endpoint_before is_path_down ts

  -- An epoch is marked unavailable exactly if more than half of its rows are of endpoints of which
  -- every observation is a path failure.
  pub common_mode_iff :
      (observations : List OrganicProbeObservation) (fields : EpochFields)
      → derive_epoch epoch_seconds epoch_index min_attempts c observations ≡ ok fields
      → (fields.epoch_status ≡ common_mode_unavailable) ↔ (
          length fields.endpoints
          < count
              (λ (e : EndpointEpochTally). saw_path_only observations e.endpoint_id)
              fields.endpoints
            * 2)
  unfolding epoch_of_tallies status_of is_common_mode
  common_mode_iff observations fields h =
      let (p, tallied, e) =
        derive_epoch-tallies epoch_seconds epoch_index min_attempts c observations fields h in
      let down =
        epoch_rows-count observations p.tallies
          (tally_all-IsTallyOf epoch_seconds epoch_index observations p tallied) in
      rw (e, down, epoch_rows-length p.tallies)
        (ground (arith, count-le-length is_path_down p.tallies))
