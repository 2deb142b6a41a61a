-- ===== src/Organic/Evidence/Backed.antt =====
-- What an observation that passes `_verify_against_manifest`
-- (src/misscomputer_subnet/organic_scoring.py) rests on.
use misscomputer_subnet.Prelude.{
  ◌+◌, ◌*◌, ◌≤◌, ◌<◌, ◌≡◌, refl, inl, inr, Text, text_eq_iff, Bool, true, false, not, Option, none,
  some, Option-cases, ok, ◌>>◌, raise_if, arith,
}
use misscomputer_subnet.Organic.Types.{
  Attribution, application, miner, path, none_, ProbeFailureCode, attestation_fraud,
  attestation_invalid, attestation_missing, connection_failed, edge_generated, marker_missing,
  response_oversized, timeout, tls_certificate_invalid, tls_handshake_failed, tls_pin_mismatch,
  transport_error, unexpected_status, AttestationStatus, MinerProbeAttestationV2,
  OrganicProbeObservation, ActiveAssignmentManifestV2, ScoringRejectionCode,
}
use misscomputer_subnet.Organic.Tally.{is_success}
use misscomputer_subnet.Organic.Evidence.{
  canonical_observation, Published, find_replica, effective_expires_at_epoch, valid_at, misbinds,
  verify_attestation_v2, in_expected, matches_entry, inconsistent, unverified, verify_entry,
  verify_against_manifest, is_given, is_verified, same_attribution, attribution_of,
  failure_attribution, has_succeeded, expected_verdict, verdict_is_verified, AttestationVerdict,
  or_zero, or_empty,
}

blames_someone : (code : ProbeFailureCode) → is_success (attribution_of code) ≡ false
blames_someone attestation_fraud = refl
blames_someone attestation_invalid = refl
blames_someone attestation_missing = refl
blames_someone connection_failed = refl
blames_someone edge_generated = refl
blames_someone marker_missing = refl
blames_someone response_oversized = refl
blames_someone timeout = refl
blames_someone tls_certificate_invalid = refl
blames_someone tls_handshake_failed = refl
blames_someone tls_pin_mismatch = refl
blames_someone transport_error = refl
blames_someone unexpected_status = refl

no_failure :
    (a : Attribution) (code : Option ProbeFailureCode)
    → is_success a ≡ true
    → same_attribution a (failure_attribution code) ≡ true
    → is_given code ≡ false
no_failure none_ none h k = refl
no_failure none_ (some code) h k = absurd (ground (arith, blames_someone code))
no_failure application code h k = absurd (ground arith)
no_failure miner code h k = absurd (ground arith)
no_failure path code h k = absurd (ground arith)

-- A success needs a recorded statement that counts as verified.
canonical_observation-success :
    (o : OrganicProbeObservation)
    → canonical_observation o ≡ true
    → is_success o.attribution ≡ true
    → (has_succeeded o.outcome ≡ true)
      × (is_verified o.attestation_status ≡ true)
      × (is_given o.attestation ≡ true)
unfolding canonical_observation
canonical_observation-success o c h =
    let blameless : same_attribution o.attribution (failure_attribution o.failure_code) ≡ true =
      ground arith in
    let clean = no_failure o.attribution o.failure_code h blameless in
    let succeeded : has_succeeded o.outcome ≡ true = ground arith in
    let checked : is_verified o.attestation_status ≡ true = ground arith in
    (succeeded, checked, ground arith)

module _ (signature_valid : Text → MinerProbeAttestationV2 → Bool) where
  -- The observation names a replica that the manifest publishes, at a time the manifest covers.
  abbrev pub IsPublished : OrganicProbeObservation → ActiveAssignmentManifestV2 → Published → Type 0
  IsPublished o m p =
      (find_replica m o.endpoint_id ≡ some p)
      × (o.deployment_id ≡ p.deployment.deployment_id)
      × (o.generation ≡ p.replica.generation)
      × (o.miner_uid ≡ p.replica.miner_uid)
      × (o.miner_hotkey ≡ p.replica.miner_hotkey)
      × (m.issued_at_epoch ≤ o.issued_at)
      × (o.issued_at < effective_expires_at_epoch m)

  -- The replica's miner signed a statement on this very request: its ticket, nonce, method, path and
  -- artifact, and a time from 2 s before its issue to 32 s after it, and on the response
  -- status and body that were seen; and the status is expected.
  abbrev pub IsSigned : OrganicProbeObservation → Published → Type 0
  IsSigned o p =
      (a : MinerProbeAttestationV2) × (o.attestation ≡ some a)
      × (signature_valid p.replica.miner_service_public_key a ≡ true)
      × (a.endpoint_id ≡ p.replica.endpoint_id)
      × (a.generation ≡ p.replica.generation)
      × (a.ticket_digest ≡ p.replica.ticket_digest)
      × (a.probe_nonce ≡ o.probe_nonce)
      × (a.validator_hotkey ≡ o.validator_hotkey)
      × (a.artifact_digest ≡ p.deployment.artifact_digest)
      × (a.request_method ≡ o.request_method)
      × (a.request_path ≡ o.request_path)
      × (o.issued_at * 1000000000 ≤ a.observed_at + 2000000000)
      × (a.observed_at ≤ o.issued_at * 1000000000 + 32000000000)
      × (a.response_status ≡ or_zero o.response_status)
      × (a.response_body_sha256 ≡ or_empty o.response_body_sha256)
      × (in_expected p o.response_status ≡ true)

  verify_entry-passed :
      (o : OrganicProbeObservation) (m : ActiveAssignmentManifestV2) (p : Published)
      → verify_entry signature_valid o m (some p) ≡ ok tt
      → (matches_entry o m p ≡ true)
        × (valid_at m o.issued_at ≡ true)
        × (unverified signature_valid o p o.attestation ≡ false)
        × (inconsistent o p ≡ false)
  verify_entry-passed o m p h =
      go (matches_entry o m p) (valid_at m o.issued_at)
        (unverified signature_valid o p o.attestation) (inconsistent o p) h
    where
      go :
          (a b c d : Bool)
          → (raise_if (not a) ScoringRejectionCode.scoring_observation_unpublished
              >> (raise_if (not b) ScoringRejectionCode.scoring_outside_manifest_horizon
                  >> (raise_if c ScoringRejectionCode.scoring_attestation_unverified
                      >> raise_if d ScoringRejectionCode.scoring_outcome_inconsistent)))
            ≡ ok tt
          → (a ≡ true) × (b ≡ true) × (c ≡ false) × (d ≡ false)
      go a b c d h = ground arith

  verify_attestation_v2-verified :
      (a : MinerProbeAttestationV2) (p : Published) (o : OrganicProbeObservation)
      → verdict_is_verified (verify_attestation_v2 signature_valid a p o) ≡ true
      → (signature_valid p.replica.miner_service_public_key a ≡ true)
        × (misbinds a p o ≡ false)
        × (a.response_status ≡ or_zero o.response_status)
        × (a.response_body_sha256 ≡ or_empty o.response_body_sha256)
  unfolding verify_attestation_v2
  verify_attestation_v2-verified a p o h = (
    ground arith,
    ground arith,
    ground arith,
    (text_eq_iff a.response_body_sha256 (or_empty o.response_body_sha256)).0 (ground arith),
  )

  misbinds-not :
      (a : MinerProbeAttestationV2) (p : Published) (o : OrganicProbeObservation)
      → misbinds a p o ≡ false
      → (a.endpoint_id ≡ p.replica.endpoint_id)
        × (a.generation ≡ p.replica.generation)
        × (a.ticket_digest ≡ p.replica.ticket_digest)
        × (a.probe_nonce ≡ o.probe_nonce)
        × (a.validator_hotkey ≡ o.validator_hotkey)
        × (a.artifact_digest ≡ p.deployment.artifact_digest)
        × (a.request_method ≡ o.request_method)
        × (a.request_path ≡ o.request_path)
        × (o.issued_at * 1000000000 ≤ a.observed_at + 2000000000)
        × (a.observed_at ≤ o.issued_at * 1000000000 + 32000000000)
  misbinds-not a p o h = (
    (text_eq_iff a.endpoint_id p.replica.endpoint_id).0 (ground arith),
    ground arith,
    (text_eq_iff a.ticket_digest p.replica.ticket_digest).0 (ground arith),
    (text_eq_iff a.probe_nonce o.probe_nonce).0 (ground arith),
    (text_eq_iff a.validator_hotkey o.validator_hotkey).0 (ground arith),
    (text_eq_iff a.artifact_digest p.deployment.artifact_digest).0 (ground arith),
    (text_eq_iff a.request_method o.request_method).0 (ground arith),
    (text_eq_iff a.request_path o.request_path).0 (ground arith),
    ground arith,
    ground arith,
  )

  pub verify-IsPublished :
      (o : OrganicProbeObservation) (m : ActiveAssignmentManifestV2)
      → verify_against_manifest signature_valid o (some m) ≡ ok tt
      → (p : Published) × IsPublished o m p
        × (unverified signature_valid o p o.attestation ≡ false)
        × (inconsistent o p ≡ false)
  unfolding verify_against_manifest valid_at
  verify-IsPublished o m h = elim (Option-cases (find_replica m o.endpoint_id)) [
    | inl missing ↦ absurd (ground arith)
    | inr (p, found) ↦
        let (matches, horizon, checked, consistent) = verify_entry-passed o m p (rw found at h) in
        (
          p,
          (
            found,
            (text_eq_iff o.deployment_id p.deployment.deployment_id).0 (ground arith),
            ground arith,
            ground arith,
            (text_eq_iff o.miner_hotkey p.replica.miner_hotkey).0 (ground arith),
            ground arith,
            ground arith,
          ),
          checked,
          consistent,
        )
  ]

  -- an observation that is counted as a success
  pub success-IsSigned :
      (o : OrganicProbeObservation) (p : Published)
      → canonical_observation o ≡ true
      → is_success o.attribution ≡ true
      → unverified signature_valid o p o.attestation ≡ false
      → inconsistent o p ≡ false
      → IsSigned o p
  unfolding verify_attestation_v2
  success-IsSigned o p c s checked consistent =
      let (succeeded, recorded, given) = canonical_observation-success o c s in
      elim (Option-cases o.attestation) [
        | inl missing ↦ absurd (ground arith)
        | inr (a, stated) ↦
            let verdict : verdict_is_verified (verify_attestation_v2 signature_valid a p o) ≡ true =
              go o.attestation_status (verify_attestation_v2 signature_valid a p o) recorded
                (rw stated at checked) in
            let (signed, bound, seen, body) = verify_attestation_v2-verified a p o verdict in
            let (b0, b1, b2, b3, b4, b5, b6, b7, b8, b9) = misbinds-not a p o bound in
            (a, stated, signed, b0, b1, b2, b3, b4, b5, b6, b7, b8, b9, seen, body, ground arith)
      ]
    where
      go :
          (status : AttestationStatus) (v : AttestationVerdict)
          → is_verified status ≡ true
          → not (expected_verdict status v) ≡ false
          → verdict_is_verified v ≡ true
      go AttestationStatus.verified v r h = ground arith
      go AttestationStatus.fraudulent v r h = absurd (ground arith)
      go AttestationStatus.rejected v r h = absurd (ground arith)
      go AttestationStatus.not_presented v r h = absurd (ground arith)
