-- ===== src/Organic/Score/Grounded.antt =====
-- What the observations of a scored epoch rest on (src/misscomputer_subnet/organic_scoring.py).
use misscomputer_subnet.Prelude.{
  ◌/◌, ◌≤◌, ◌≡◌, ◌↔◌, refl, Text, text_eq, text_eq_sym, Bool, true, false, not, ◌&&◌, List, [], ◌∷◌,
  ltb, ◌==◌, any, All, map, distinct, length, ok, err, ◌>>=◌, ◌>>◌, raise_if, arith,
}
use misscomputer_subnet.Prelude.Sorting.{sort}
use misscomputer_subnet.Organic.Types.{
  MinerProbeAttestationV2, OrganicProbeObservation, ScoringRejectionCode,
}
use misscomputer_subnet.Organic.Tally.{Raises}
use misscomputer_subnet.Organic.Epoch.{EpochFields, derive_epoch}
use misscomputer_subnet.Organic.Evidence.{verify_against_manifest}
use misscomputer_subnet.Organic.Window.{OrganicEpochScore}
use misscomputer_subnet.Organic.Score.{
  manifest_get, observation_before, Seen, is_seen, mark_seen, nothing_seen, Request,
  policy_is_valid, windows_of, check_observation, check_observations, finish_score,
  score_organic_epoch, max_observations,
}

abbrev pub nonces_of : List OrganicProbeObservation → List Text
nonces_of os = map (λ (o : OrganicProbeObservation). o.probe_nonce) os

abbrev pub digests_of : List OrganicProbeObservation → List Text
digests_of os = map (λ (o : OrganicProbeObservation). o.observation_digest_sha256) os

-- no element of the list is the text
abbrev fresh : Text → List Text → Bool
fresh t ts = not (any (text_eq t) ts)

-- no text of the one list stands in the other
abbrev disjoint : List Text → List Text → Bool
disjoint [] seen = true
disjoint (t ∷ ts) seen = fresh t seen && disjoint ts seen

disjoint-cons :
    (ts seen : List Text) (t : Text) → disjoint ts (t ∷ seen) ≡ (fresh t ts && disjoint ts seen)
disjoint-cons [] seen t = refl
disjoint-cons (u ∷ ts) seen t = ground (arith, disjoint-cons ts seen t, text_eq_sym u t)

disjoint-nil : (ts : List Text) → disjoint ts [] ≡ true
disjoint-nil [] = refl
disjoint-nil (t ∷ ts) = disjoint-nil ts

module _ (signature_valid : Text → MinerProbeAttestationV2 → Bool)
    (digest : OrganicEpochScore → Text) (r : Request) where
  -- What the checks ask of one observation, whatever was seen before it.
  abbrev pub Passes : OrganicProbeObservation → Type 0
  Passes o = check_observation signature_valid digest r o nothing_seen ≡ ok tt

  check_observation_iff :
      (o : OrganicProbeObservation) (seen : Seen)
      → (check_observation signature_valid digest r o seen ≡ ok tt
          → Passes o × (is_seen o seen ≡ false))
        × (Passes o
            → is_seen o seen ≡ false
            → check_observation signature_valid digest r o seen ≡ ok tt)
  unfolding check_observation
  check_observation_iff o seen =
      go (not (text_eq o.validator_hotkey r.validator_hotkey)) (is_seen o seen)
        (not (o.issued_at / r.epoch_seconds == r.epoch_index))
        (verify_against_manifest signature_valid o
          (manifest_get o.manifest_digest_sha256 r.manifests))
    where
      chain : (a b c : Bool) → Raises (Unit {0}) → Raises (Unit {0})
      chain a b c last =
          raise_if a ScoringRejectionCode.scoring_validator_mismatch
          >> (raise_if b ScoringRejectionCode.scoring_observation_duplicate
              >> (raise_if c ScoringRejectionCode.scoring_epoch_mismatch >> last))

      go :
          (a b c : Bool) (last : Raises (Unit {0}))
          → (chain a b c last ≡ ok tt → (chain a false c last ≡ ok tt) × (b ≡ false))
            × (chain a false c last ≡ ok tt → b ≡ false → chain a b c last ≡ ok tt)
      go a true c last = (λ h. absurd (ground arith), λ h k. absurd (ground arith))
      go a false c last = (λ h. (h, refl), λ h k. h)

  abbrev AreNew : List OrganicProbeObservation → Seen → Type 0
  AreNew os seen =
      (distinct text_eq (digests_of os) ≡ true)
      × (distinct text_eq (nonces_of os) ≡ true)
      × (disjoint (digests_of os) seen.digests ≡ true)
      × (disjoint (nonces_of os) seen.nonces ≡ true)

  AreNew-cons :
      (o : OrganicProbeObservation) (os : List OrganicProbeObservation) (seen : Seen)
      → (is_seen o seen ≡ false → AreNew os (mark_seen o seen) → AreNew (o ∷ os) seen)
        × (AreNew (o ∷ os) seen → (is_seen o seen ≡ false) × AreNew os (mark_seen o seen))
  AreNew-cons o os seen =
      let d = disjoint-cons (digests_of os) seen.digests o.observation_digest_sha256 in
      let n = disjoint-cons (nonces_of os) seen.nonces o.probe_nonce in
      (
        λ a (b, c, e, f).
            (ground (arith, d), ground (arith, n), ground (arith, d), ground (arith, n)),
        λ (b, c, e, f).
            (ground arith, (ground arith, ground arith, ground (arith, d), ground (arith, n))),
      )

  check_observations-cons :
      (o : OrganicProbeObservation) (os : List OrganicProbeObservation) (seen : Seen)
      → (check_observations signature_valid digest r (o ∷ os) seen ≡ ok tt
          → (check_observation signature_valid digest r o seen ≡ ok tt)
            × (check_observations signature_valid digest r os (mark_seen o seen) ≡ ok tt))
        × (check_observation signature_valid digest r o seen ≡ ok tt
            → check_observations signature_valid digest r os (mark_seen o seen) ≡ ok tt
            → check_observations signature_valid digest r (o ∷ os) seen ≡ ok tt)
  unfolding check_observations
  check_observations-cons o os seen =
      go (check_observation signature_valid digest r o seen)
        (check_observations signature_valid digest r os (mark_seen o seen))
    where
      go :
          (a b : Raises (Unit {0}))
          → ((a >> b) ≡ ok tt → (a ≡ ok tt) × (b ≡ ok tt))
            × (a ≡ ok tt → b ≡ ok tt → (a >> b) ≡ ok tt)
      go (ok tt) b = (λ h. (refl, h), λ h k. k)
      go (err e) b = (λ h. absurd (ground arith), λ h k. absurd (ground arith))

  -- The loop accepts exactly the lists whose observations pass on their own, with new digests and
  -- nonces.
  pub check_observations-passed :
      (os : List OrganicProbeObservation) (seen : Seen)
      → check_observations signature_valid digest r os seen ≡ ok tt
      → All Passes os × AreNew os seen
  check_observations-passed [] seen h = (tt, (refl, refl, refl, refl))
  check_observations-passed (o ∷ os) seen h =
      let (a, b) = (check_observations-cons o os seen).0 h in
      let (passes, new) = (check_observation_iff o seen).0 a in
      let (rest, news) = check_observations-passed os (mark_seen o seen) b in
      ((passes, rest), (AreNew-cons o os seen).0 new news)

  pub check_observations-Passes :
      (os : List OrganicProbeObservation) (seen : Seen)
      → All Passes os
      → AreNew os seen
      → check_observations signature_valid digest r os seen ≡ ok tt
  unfolding check_observations
  check_observations-Passes [] seen a n = refl
  check_observations-Passes (o ∷ os) seen (passes, rest) n =
      let (new, news) = (AreNew-cons o os seen).1 n in
      (check_observations-cons o os seen).1 ((check_observation_iff o seen).1 passes new)
        (check_observations-Passes os (mark_seen o seen) rest news)

  pub check_observations-unseen :
      (os : List OrganicProbeObservation)
      → (check_observations signature_valid digest r os nothing_seen ≡ ok tt) ↔ (
          All Passes os
          × (distinct text_eq (digests_of os) ≡ true)
          × (distinct text_eq (nonces_of os) ≡ true))
  check_observations-unseen os = (
    λ h. let (a, (d, n, _, _)) = check_observations-passed os nothing_seen h in (a, d, n),
    λ (a, d, n).
        check_observations-Passes os nothing_seen a
          (d, n, disjoint-nil (digests_of os), disjoint-nil (nonces_of os)),
  )

  pub score_organic_epoch-parts :
      (os : List OrganicProbeObservation) (v : OrganicEpochScore)
      → score_organic_epoch signature_valid digest r os ≡ ok v
      → (policy_is_valid r ≡ true)
        × (length os ≤ max_observations)
        × (check_observations signature_valid digest r os nothing_seen ≡ ok tt)
        × ((fields : EpochFields) × (derive_epoch r.epoch_seconds r.epoch_index r.min_attempts
                (windows_of r)
                (sort observation_before os)
              ≡ ok fields)
            × (finish_score signature_valid digest r (sort observation_before os) fields ≡ v))
  unfolding score_organic_epoch
  score_organic_epoch-parts os v h =
      go (policy_is_valid r) (ltb max_observations (length os))
        (check_observations signature_valid digest r os nothing_seen)
        (derive_epoch r.epoch_seconds r.epoch_index r.min_attempts (windows_of r)
          (sort observation_before os))
        refl h
    where
      go :
          (a b : Bool) (c : Raises (Unit {0})) (d : Raises EpochFields)
          → ltb max_observations (length os) ≡ b
          → (raise_if (not a) ScoringRejectionCode.scoring_policy_invalid
              >> (raise_if b ScoringRejectionCode.scoring_attempts_overflow
                  >> (c
                      >> (d >>= λ fields. ok (
                          finish_score signature_valid digest r
                            (sort observation_before os)
                            fields)))))
            ≡ ok v
          → (a ≡ true)
            × (length os ≤ max_observations)
            × (c ≡ ok tt)
            × ((fields : EpochFields) × (d ≡ ok fields)
                × (finish_score signature_valid digest r (sort observation_before os) fields ≡ v))
      go false b c d e h = absurd (ground arith)
      go true true c d e h = absurd (ground arith)
      go true false (err x) d e h = absurd (ground arith)
      go true false (ok tt) (err x) e h = absurd (ground arith)
      go true false (ok tt) (ok fields) e h =
          (refl, ground arith, refl, (fields, refl, ground arith))
