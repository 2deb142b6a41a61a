-- ===== src/Organic/Score/Backed.antt =====
-- Every success that a scored epoch counts is a miner's own statement
-- (src/misscomputer_subnet/organic_scoring.py).
use misscomputer_subnet.Prelude.{
  ℕ, map, keep, ◌/◌, ◌≡◌, refl, ◌⊎◌, inl, inr, Text, text_eq, text_eq_iff, Bool, true, false, not,
  some, List, [], ◌∷◌, ◌==◌, All, distinct, Bool-cases, Option-cases, ok, ◌>>◌, raise_if, arith,
}
use misscomputer_subnet.Prelude.Sorting.{sort}
use misscomputer_subnet.Organic.Types.{
  MinerProbeAttestationV2, OrganicProbeObservation, ActiveAssignmentManifestV2,
  ScoringRejectionCode, ServingCorroboration,
}
use misscomputer_subnet.Organic.Tally.{Raises, is_success}
use misscomputer_subnet.Organic.Evidence.{Published, canonical_observation, verify_against_manifest}
use misscomputer_subnet.Organic.Evidence.Backed.{
  IsPublished, IsSigned, verify-IsPublished, success-IsSigned,
}
use misscomputer_subnet.Organic.Window.{OrganicEpochScore}
use misscomputer_subnet.Organic.Tally.{evidence_of}
use misscomputer_subnet.Organic.Tally.Attributed.{is_fraudulent, tally_all-fraud}
use misscomputer_subnet.Organic.Epoch.Sound.{derive_epoch-tallies}
use misscomputer_subnet.Organic.Epoch.{EpochFields, derive_epoch, epoch_of_tallies, fraud_before}
use misscomputer_subnet.Organic.Score.{
  manifest_get, observation_before, Request, check_observation, score_organic_epoch, windows_of,
}
use misscomputer_subnet.Organic.Score.Grounded.{
  nonces_of, Passes, check_observations-unseen, score_organic_epoch-parts,
}

-- Every derived field of the record is what `_derive_epoch` gives for the record's own observations,
-- and its fraud evidence is that of the observations with a fraudulent statement.
abbrev pub IsRederived : OrganicEpochScore → Type 0
IsRederived v =
    (fields : EpochFields) × (derive_epoch v.epoch_seconds v.epoch_index v.min_attempts
        v.corroboration v.observations
      ≡ ok fields)
    × (v.epoch_status ≡ fields.epoch_status)
    × (v.sampled_endpoint_count ≡ fields.sampled_endpoint_count)
    × (v.path_unavailable_endpoint_count ≡ fields.path_unavailable_endpoint_count)
    × (v.inconclusive ≡ fields.inconclusive)
    × (v.endpoints ≡ fields.endpoints)
    × (v.fraud_evidence ≡ sort fraud_before (map evidence_of (keep is_fraudulent v.observations)))

derive_epoch-fraud :
    (epoch_seconds epoch_index min_attempts : ℕ) (c : List ServingCorroboration)
    (os : List OrganicProbeObservation) (fields : EpochFields)
    → derive_epoch epoch_seconds epoch_index min_attempts c os ≡ ok fields
    → fields.fraud_evidence ≡ sort fraud_before (map evidence_of (keep is_fraudulent os))
unfolding epoch_of_tallies
derive_epoch-fraud epoch_seconds epoch_index min_attempts c os fields h =
    let (p, tallied, e) =
      derive_epoch-tallies epoch_seconds epoch_index min_attempts c os fields h in
    let collected =
      tally_all-fraud epoch_seconds epoch_index os
        (record { tallies = []; fraud = []; identities = [] }) p tallied in
    rw (e, collected) refl

module _ (signature_valid : Text → MinerProbeAttestationV2 → Bool)
    (digest : OrganicEpochScore → Text) (r : Request) where
  -- The observation is the validator's own, of this epoch, and of a replica that a given manifest
  -- publishes; if it counts as a success, the replica's miner signed for this very request.
  abbrev pub IsGrounded : OrganicProbeObservation → Type 0
  IsGrounded o =
      (o.validator_hotkey ≡ r.validator_hotkey)
      × (o.issued_at / r.epoch_seconds ≡ r.epoch_index)
      × ((m : ActiveAssignmentManifestV2) × (manifest_get o.manifest_digest_sha256 r.manifests
            ≡ some m)
          × ((p : Published) × IsPublished signature_valid o m p
              × ((is_success o.attribution ≡ false) ⊎ IsSigned signature_valid o p)))

  check_observation-passed :
      (o : OrganicProbeObservation)
      → Passes signature_valid digest r o
      → (o.validator_hotkey ≡ r.validator_hotkey)
        × (o.issued_at / r.epoch_seconds ≡ r.epoch_index)
        × (verify_against_manifest signature_valid o
              (manifest_get o.manifest_digest_sha256 r.manifests)
            ≡ ok tt)
  unfolding check_observation
  check_observation-passed o h =
      let (a, b, c) =
        go (text_eq o.validator_hotkey r.validator_hotkey)
          (o.issued_at / r.epoch_seconds == r.epoch_index)
          (verify_against_manifest signature_valid o
            (manifest_get o.manifest_digest_sha256 r.manifests))
          h in
      ((text_eq_iff o.validator_hotkey r.validator_hotkey).0 a, ground arith, c)
    where
      go :
          (a c : Bool) (last : Raises (Unit {0}))
          → (raise_if (not a) ScoringRejectionCode.scoring_validator_mismatch
              >> (raise_if false ScoringRejectionCode.scoring_observation_duplicate
                  >> (raise_if (not c) ScoringRejectionCode.scoring_epoch_mismatch >> last)))
            ≡ ok tt
          → (a ≡ true) × (c ≡ true) × (last ≡ ok tt)
      go false c last h = absurd (ground arith)
      go true false last h = absurd (ground arith)
      go true true last h = (refl, refl, h)

  Passes-IsGrounded :
      (o : OrganicProbeObservation)
      → canonical_observation o ≡ true
      → Passes signature_valid digest r o
      → IsGrounded o
  unfolding verify_against_manifest
  Passes-IsGrounded o c h =
      let (own, current, bound) = check_observation-passed o h in
      (
        own,
        current,
        elim (Option-cases (manifest_get o.manifest_digest_sha256 r.manifests)) [
          | inl missing ↦ absurd (ground arith)
          | inr (m, known) ↦
              let (p, published, checked, consistent) =
                verify-IsPublished signature_valid o m (rw known at bound) in
              (
                m,
                known,
                (
                  p,
                  published,
                  elim (Bool-cases (is_success o.attribution)) [
                    | inr fails ↦ inl fails
                    | inl s ↦ inr (success-IsSigned signature_valid o p c s checked consistent)
                  ],
                ),
              )
        ],
      )

  -- If an epoch is scored, its record holds the given observations in their canonical order and
  -- every derived field follows from them, the fraud evidence being that of the observations with a
  -- fraudulent statement; no nonce stands twice; every observation is the validator's own, of this
  -- epoch and of a replica that a given manifest publishes at that time; and for every success the
  -- miner of that replica signed this very request, to the ticket, nonce, method and path, and the response that
  -- was seen, at a time from 2 s before the issue to 32 s after it, and the status is expected.
  pub score_organic_epoch-IsGrounded :
      (observations : List OrganicProbeObservation) (v : OrganicEpochScore)
      → All (λ o. canonical_observation o ≡ true) observations
      → score_organic_epoch signature_valid digest r observations ≡ ok v
      → (v.observations ≡ sort observation_before observations)
        × IsRederived v
        × (distinct text_eq (nonces_of observations) ≡ true)
        × All IsGrounded observations
  score_organic_epoch-IsGrounded observations v c h =
      let (_, _, checked, (fields, derived, same)) =
        score_organic_epoch-parts signature_valid digest r observations v h in
      let (passes, _, nonces) =
        (check_observations-unseen signature_valid digest r observations).0 checked in
      let fraud =
        derive_epoch-fraud r.epoch_seconds r.epoch_index r.min_attempts (windows_of r)
          (sort observation_before observations) fields derived in
      rw (← same) (
        refl,
        (fields, derived, refl, refl, refl, refl, refl, fraud),
        nonces,
        both observations c passes,
      )
    where
      both :
          (os : List OrganicProbeObservation)
          → All (λ o. canonical_observation o ≡ true) os
          → All (Passes signature_valid digest r) os
          → All IsGrounded os
      both [] c a = tt
      both (o ∷ os) (c, cs) (a, as_) = (Passes-IsGrounded o c a, both os cs as_)
