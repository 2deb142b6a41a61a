-- ===== src/Organic/Epoch/Modes.antt =====
-- What an epoch's dispositions depend on (src/misscomputer_subnet/organic_scoring.py).
use misscomputer_subnet.Prelude.{
  ℕ, ◌≤◌, ◌≡◌, ◌↔◌, refl, sym, ap, ◌∙◌, inl, inr, Text, text_eq, text_lt, text_eq_refl, text_eq_iff,
  text_eq_sym, keep, Bool, true, ◌&&◌, List, [], ◌∷◌, ltb, leb, any, All, map, count, Bool-cases,
  ok, err, arith,
}
use misscomputer_subnet.Prelude.Sorting.{sort, any-sort}
use misscomputer_subnet.Organic.Types.{
  OrganicProbeObservation, ServingCorroboration, EndpointEpochTally, Disposition,
  excluded_common_mode, common_mode_unavailable,
}
use misscomputer_subnet.Organic.Tally.{Tally, Progress, Raises, tally_all}
use misscomputer_subnet.Organic.Epoch.Sound.{derive_epoch-tallies}
use misscomputer_subnet.Organic.Epoch.{
  is_common_mode, inconclusive_deployments, disposition_of, endpoint_windows, endpoint_row,
  EpochFields, endpoint_before, row_is_eligible, status_of, row_of, epoch_rows, epoch_of_tallies,
  derive_epoch, finish, app_fails, app_failing, distinct_texts,
}

-- a row, and an epoch's fields, without the counters of the serving windows
abbrev pub without_windows : EndpointEpochTally → EndpointEpochTally
without_windows e = record e { corroborating_windows = 0; corroborating_requests = 0 }

abbrev pub uncorroborated : Raises EpochFields → Raises EpochFields
uncorroborated (ok f) = ok (record f { endpoints = map without_windows f.endpoints })
uncorroborated (err e) = err e

endpoint_row-without_windows :
    (d : Disposition) (v w : List ServingCorroboration) (t : Tally)
    → without_windows (endpoint_row d v t) ≡ without_windows (endpoint_row d w t)
unfolding endpoint_row
endpoint_row-without_windows d v w t = refl

endpoint_row-disposition :
    (d : Disposition) (w : List ServingCorroboration) (t : Tally)
    → (endpoint_row d w t).disposition ≡ d
unfolding endpoint_row
endpoint_row-disposition d w t = refl

module _ (epoch_seconds epoch_index min_attempts : ℕ) where
  module _ (c d : List ServingCorroboration) (all : List Tally) where
    same_rows :
        (ts : List Tally)
        → map without_windows (map (row_of epoch_seconds epoch_index min_attempts c all) ts)
          ≡ map without_windows (map (row_of epoch_seconds epoch_index min_attempts d all) ts)
    same_rows [] = refl
    same_rows (t ∷ ts) = cc (
      endpoint_row-without_windows
          (disposition_of (is_common_mode all) (inconclusive_deployments all) min_attempts t)
          (endpoint_windows epoch_seconds epoch_index c t.endpoint_id)
          (endpoint_windows epoch_seconds epoch_index d t.endpoint_id) t,
      same_rows ts,
    )

    same_eligible :
        (ts : List Tally)
        → count row_is_eligible (map (row_of epoch_seconds epoch_index min_attempts c all) ts)
          ≡ count row_is_eligible (map (row_of epoch_seconds epoch_index min_attempts d all) ts)
    unfolding endpoint_row
    same_eligible [] = refl
    same_eligible (t ∷ ts) = ground (arith, same_eligible ts)

  epoch_of_tallies-blind :
      (c d : List ServingCorroboration) (p : Progress)
      → uncorroborated (ok (epoch_of_tallies epoch_seconds epoch_index min_attempts c p))
        ≡ uncorroborated (ok (epoch_of_tallies epoch_seconds epoch_index min_attempts d p))
  unfolding epoch_of_tallies epoch_rows status_of
  epoch_of_tallies-blind c d p = ground (
    arith,
    same_rows c d p.tallies (sort endpoint_before p.tallies),
    same_eligible c d p.tallies (sort endpoint_before p.tallies),
  )

  -- The counters of serving windows are never read by the score: with other counters an epoch is
  -- refused with the same error, or has the same fields but for the counters of its rows.
  pub derive_epoch-uncorroborated :
      (c d : List ServingCorroboration) (observations : List OrganicProbeObservation)
      → uncorroborated (derive_epoch epoch_seconds epoch_index min_attempts c observations)
        ≡ uncorroborated (derive_epoch epoch_seconds epoch_index min_attempts d observations)
  unfolding derive_epoch
  derive_epoch-uncorroborated c d observations = go (
      tally_all epoch_seconds epoch_index observations
        (record { tallies = []; fraud = []; identities = [] }))
    where
      go :
          (r : Raises Progress)
          → uncorroborated (finish epoch_seconds epoch_index min_attempts c r)
            ≡ uncorroborated (finish epoch_seconds epoch_index min_attempts d r)
      go (ok p) = epoch_of_tallies-blind c d p
      go (err e) = refl

  disposition_of-common_mode :
      (inconclusive : List Text) (t : Tally)
      → disposition_of true inconclusive min_attempts t ≡ excluded_common_mode
  unfolding disposition_of
  disposition_of-common_mode inconclusive t = refl

  excluded_rows :
      (c : List ServingCorroboration) (all ts : List Tally)
      → is_common_mode all ≡ true
      → All
          (λ (e : EndpointEpochTally). e.disposition ≡ excluded_common_mode)
          (map (row_of epoch_seconds epoch_index min_attempts c all) ts)
  excluded_rows c all [] h = tt
  excluded_rows c all (t ∷ ts) h = (
    endpoint_row-disposition _ _ t
        ∙ rw h (disposition_of-common_mode (inconclusive_deployments all) t),
    excluded_rows c all ts h,
  )

  status_of-common_mode :
      (common_mode : Bool) (rows : List EndpointEpochTally)
      → status_of common_mode rows ≡ common_mode_unavailable
      → common_mode ≡ true
  unfolding status_of
  status_of-common_mode common_mode rows h = ground arith

  -- In an epoch that is marked unavailable no endpoint is scored: every row is excluded.
  pub common_mode_excludes :
      (c : List ServingCorroboration) (observations : List OrganicProbeObservation)
      (fields : EpochFields)
      → derive_epoch epoch_seconds epoch_index min_attempts c observations ≡ ok fields
      → fields.epoch_status ≡ common_mode_unavailable
      → All (λ (e : EndpointEpochTally). e.disposition ≡ excluded_common_mode) fields.endpoints
  unfolding epoch_of_tallies epoch_rows
  common_mode_excludes c observations fields h status =
      let (p, tallied, e) =
        derive_epoch-tallies epoch_seconds epoch_index min_attempts c observations fields h in
      let down =
        status_of-common_mode (is_common_mode p.tallies)
          (epoch_rows epoch_seconds epoch_index min_attempts c p.tallies)
          (sym (ap (λ (f : EpochFields). f.epoch_status) e) ∙ status) in
      rw e (excluded_rows c p.tallies (sort endpoint_before p.tallies) down)

-- A replica that fails makes its deployment's name stand among the failing ones.
failing_names :
    (deployment : Text) (ts : List Tally)
    → any (text_eq deployment) (
        map
          (λ (t : Tally). t.deployment_id)
          (keep (λ (t : Tally). ltb 0 t.application_failures) ts))
      ≡ ltb 0 (count (app_fails deployment) ts)
failing_names deployment [] = refl
failing_names deployment (t ∷ ts) =
    ground (arith, failing_names deployment ts, text_eq_sym deployment t.deployment_id)

any-distinct_texts :
    (deployment : Text) (ts : List Text)
    → any (text_eq deployment) (distinct_texts ts) ≡ any (text_eq deployment) ts
any-distinct_texts deployment [] = refl
any-distinct_texts deployment (t ∷ ts) = elim (Bool-cases (text_eq deployment t)) [
  | inr other ↦ ground (arith, any-distinct_texts deployment ts)
  | inl own ↦
      let same : deployment ≡ t = (text_eq_iff deployment t).0 own in
      let ih = rw same at (any-distinct_texts deployment ts) in
      rw same (ground (arith, ih, text_eq_refl t))
]

any-keep :
    (deployment : Text) (p : Text → Bool) (ts : List Text)
    → any (text_eq deployment) (keep p ts) ≡ (p deployment && any (text_eq deployment) ts)
any-keep deployment p [] = ground arith
any-keep deployment p (t ∷ ts) = elim (Bool-cases (text_eq deployment t)) [
  | inr other ↦ ground (arith, any-keep deployment p ts)
  | inl own ↦
      let same : deployment ≡ t = (text_eq_iff deployment t).0 own in
      let ih = rw same at (any-keep deployment p ts) in rw same (ground (arith, ih, text_eq_refl t))
]

-- A deployment is inconclusive exactly if two or more of its replicas saw an application failure.
pub inconclusive_iff :
    (deployment : Text) (ts : List Tally)
    → (any (text_eq deployment) (inconclusive_deployments ts) ≡ true)
      ↔ (2 ≤ app_failing ts deployment)
unfolding inconclusive_deployments
inconclusive_iff deployment ts =
    let names = distinct_texts (
      map (λ (t : Tally). t.deployment_id)
        (keep (λ (t : Tally). ltb 0 t.application_failures) ts)) in
    ground (
      arith,
      any-sort text_lt (text_eq deployment) (keep (λ d. leb 2 (app_failing ts d)) names),
      any-keep deployment (λ d. leb 2 (app_failing ts d)) names,
      any-distinct_texts deployment (
          map (λ (t : Tally). t.deployment_id)
            (keep (λ (t : Tally). ltb 0 t.application_failures) ts)),
      failing_names deployment ts,
    )
