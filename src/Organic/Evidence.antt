-- ===== src/Organic/Evidence.antt =====
-- The binding of an observation to its evidence: `verify_attestation_v2`, `find_replica` and the
-- checks of OrganicProbeObservation (src/misscomputer_subnet/organic_probe.py),
-- `organic_manifest_valid_at` (organic_manifest.py) and `_verify_against_manifest`
-- (organic_scoring.py).
pub mod Backed
use misscomputer_subnet.Prelude.{
  ℕ, ◌+◌, ◌*◌, ◌^◌, min, Text, text_eq, Bool, true, false, not, ◌&&◌, ◌||◌, Option, none, some,
  List, [], ◌∷◌, ltb, leb, ◌==◌, any, find, if◌then◌else◌, Result, ok, err, ◌>>◌, raise_if,
}
use misscomputer_subnet.Organic.Types.{
  Attribution, application, miner, none_, path, AttestationStatus, fraudulent, not_presented,
  rejected, verified, ProbeOutcome, failure, success, ProbeFailureCode, attestation_fraud,
  attestation_invalid, attestation_missing, connection_failed, edge_generated, marker_missing,
  response_oversized, timeout, tls_certificate_invalid, tls_handshake_failed, tls_pin_mismatch,
  transport_error, unexpected_status, MinerProbeAttestationV2, OrganicProbeObservation,
  OrganicAssignedReplica, OrganicDeploymentAssignment, ActiveAssignmentManifestV2,
  ScoringRejectionCode, scoring_attestation_unverified, scoring_manifest_unknown,
  scoring_observation_unpublished, scoring_outcome_inconsistent, scoring_outside_manifest_horizon,
}
use misscomputer_subnet.Organic.Tally.{Raises, is_success, is_application, is_fraud, same_bool}

abbrev pub attestation_clock_skew_nanos : ℕ
attestation_clock_skew_nanos = 2000000000

abbrev pub probe_authorization_validity_nanos : ℕ
probe_authorization_validity_nanos = 30000000000

-- `_ATTRIBUTION`
abbrev pub attribution_of : ProbeFailureCode → Attribution
attribution_of attestation_fraud = miner
attribution_of attestation_invalid = miner
attribution_of attestation_missing = miner
attribution_of connection_failed = path
attribution_of edge_generated = path
attribution_of marker_missing = application
attribution_of response_oversized = application
attribution_of timeout = path
attribution_of tls_certificate_invalid = path
attribution_of tls_handshake_failed = path
attribution_of tls_pin_mismatch = path
attribution_of transport_error = path
attribution_of unexpected_status = application

abbrev pub failure_attribution : Option ProbeFailureCode → Attribution
failure_attribution none = none_
failure_attribution (some code) = attribution_of code

abbrev pub same_attribution : Attribution → Attribution → Bool
same_attribution application a = is_application a
same_attribution miner miner = true
same_attribution miner _ = false
same_attribution none_ a = is_success a
same_attribution path path = true
same_attribution path _ = false

abbrev pub has_succeeded : ProbeOutcome → Bool
has_succeeded success = true
has_succeeded failure = false

abbrev pub is_given {ℓ} : {A : Type ℓ} → Option A → Bool
is_given none = false
is_given (some a) = true

abbrev pub is_verified : AttestationStatus → Bool
is_verified verified = true
is_verified _ = false

abbrev pub is_fraud_code : Option ProbeFailureCode → Bool
is_fraud_code (some attestation_fraud) = true
is_fraud_code _ = false

abbrev pub status_is : ℕ → Option ℕ → Bool
status_is n none = false
status_is n (some m) = n == m

abbrev pub digest_is : Text → Option Text → Bool
digest_is t none = false
digest_is t (some u) = text_eq t u

abbrev pub binds : OrganicProbeObservation → MinerProbeAttestationV2 → Bool
binds o a =
    text_eq a.endpoint_id o.endpoint_id
    && text_eq a.probe_nonce o.probe_nonce
    && text_eq a.validator_hotkey o.validator_hotkey
    && status_is a.response_status o.response_status
    && digest_is a.response_body_sha256 o.response_body_sha256

abbrev pub unbound : OrganicProbeObservation → Option MinerProbeAttestationV2 → Bool
unbound o none = false
unbound o (some a) = not (binds o a)

-- `canonical_observation`, but for the digest of the record itself
unfoldable pub canonical_observation : OrganicProbeObservation → Bool
canonical_observation o =
    same_bool (has_succeeded o.outcome) (not (is_given o.failure_code))
    && same_attribution o.attribution (failure_attribution o.failure_code)
    && (not (has_succeeded o.outcome)
        || (o.upstream_marker
            && is_given o.response_status
            && is_given o.response_body_sha256
            && is_verified o.attestation_status))
    && same_bool (is_fraud o.attestation_status || is_verified o.attestation_status)
        (is_given o.attestation)
    && same_bool (is_fraud o.attestation_status) (is_fraud_code o.failure_code)
    && not (is_verified o.attestation_status && unbound o o.attestation)
    && not (is_application o.attribution && not o.upstream_marker)

pub data AttestationVerdict : Type 0 where
  content_mismatch fraudulent_statement signature_invalid verified_statement : AttestationVerdict

pub record Published : Type 0 where
  pub deployment : OrganicDeploymentAssignment
  pub replica : OrganicAssignedReplica

abbrev pub names_endpoint : Text → OrganicAssignedReplica → Bool
names_endpoint endpoint_id r = text_eq r.endpoint_id endpoint_id

abbrev pub published_in :
    OrganicDeploymentAssignment
    → Option OrganicAssignedReplica
    → Option Published
    → Option Published
published_in d none rest = rest
published_in d (some r) rest = some (record { deployment = d; replica = r })

abbrev find_in : Text → List OrganicDeploymentAssignment → Option Published
find_in endpoint_id [] = none
find_in endpoint_id (d ∷ ds) =
    published_in d (find (names_endpoint endpoint_id) d.replicas) (find_in endpoint_id ds)

-- `find_replica`
unfoldable pub find_replica : ActiveAssignmentManifestV2 → Text → Option Published
find_replica manifest endpoint_id = find_in endpoint_id manifest.deployments

abbrev pub earliest_lease : ℕ → List OrganicAssignedReplica → ℕ
earliest_lease limit [] = limit
earliest_lease limit (r ∷ rs) = min r.expires_at_epoch (earliest_lease limit rs)

abbrev pub earliest_expiry : ℕ → List OrganicDeploymentAssignment → ℕ
earliest_expiry limit [] = limit
earliest_expiry limit (d ∷ ds) = earliest_lease (earliest_expiry limit ds) d.replicas

-- `organic_manifest_effective_expires_at_epoch`
unfoldable pub effective_expires_at_epoch : ActiveAssignmentManifestV2 → ℕ
effective_expires_at_epoch m = earliest_expiry m.expires_at_epoch m.deployments

-- `organic_manifest_valid_at`
unfoldable pub valid_at : ActiveAssignmentManifestV2 → ℕ → Bool
unfolding effective_expires_at_epoch
valid_at m instant = leb m.issued_at_epoch instant && ltb instant (effective_expires_at_epoch m)

abbrev pub misbinds : MinerProbeAttestationV2 → Published → OrganicProbeObservation → Bool
misbinds a p o =
    not (
      text_eq a.endpoint_id p.replica.endpoint_id
      && a.generation == p.replica.generation
      && text_eq a.ticket_digest p.replica.ticket_digest
      && text_eq a.artifact_digest p.deployment.artifact_digest
      && text_eq a.validator_hotkey o.validator_hotkey
      && text_eq a.probe_nonce o.probe_nonce
      && text_eq a.request_method o.request_method
      && text_eq a.request_path o.request_path)
    || ltb (a.observed_at + attestation_clock_skew_nanos) (o.issued_at * 10 ^ 9)
    || ltb
        (o.issued_at * 10 ^ 9 + probe_authorization_validity_nanos + attestation_clock_skew_nanos)
        a.observed_at

abbrev pub or_zero : Option ℕ → ℕ
or_zero none = 0
or_zero (some n) = n

abbrev pub or_empty : Option Text → Text
or_empty none = []
or_empty (some t) = t

abbrev pub verdict_is_fraud : AttestationVerdict → Bool
verdict_is_fraud fraudulent_statement = true
verdict_is_fraud _ = false

abbrev pub verdict_is_verified : AttestationVerdict → Bool
verdict_is_verified verified_statement = true
verdict_is_verified _ = false

abbrev pub expected_verdict : AttestationStatus → AttestationVerdict → Bool
expected_verdict status v = if is_fraud status then verdict_is_fraud v else verdict_is_verified v

abbrev pub in_expected : Published → Option ℕ → Bool
in_expected p none = false
in_expected p (some n) = any (◌==◌ n) p.deployment.health.expected_statuses

abbrev pub is_unexpected_status : Option ProbeFailureCode → Bool
is_unexpected_status (some unexpected_status) = true
is_unexpected_status _ = false

abbrev pub is_marker_missing : Option ProbeFailureCode → Bool
is_marker_missing (some marker_missing) = true
is_marker_missing _ = false

-- whether the observation names what the manifest published
abbrev pub matches_entry : OrganicProbeObservation → ActiveAssignmentManifestV2 → Published → Bool
matches_entry o m p =
    text_eq o.trust_policy_digest_sha256 m.trust_policy_digest_sha256
    && text_eq o.deployment_id p.deployment.deployment_id
    && text_eq o.assignment_digest_sha256 p.deployment.assignment_digest_sha256
    && o.generation == p.replica.generation
    && o.miner_uid == p.replica.miner_uid
    && text_eq o.miner_hotkey p.replica.miner_hotkey
    && text_eq o.request_method p.deployment.health.method
    && text_eq o.request_path p.deployment.health.path

abbrev pub inconsistent : OrganicProbeObservation → Published → Bool
inconsistent o p =
    (has_succeeded o.outcome && not (in_expected p o.response_status))
    || (is_unexpected_status o.failure_code && in_expected p o.response_status)
    || (is_marker_missing o.failure_code && not (in_expected p o.response_status))
    || (is_marker_missing o.failure_code && not (is_given p.deployment.health.response_marker))

module _ (signature_valid : Text → MinerProbeAttestationV2 → Bool) where
  -- `verify_attestation_v2`, for an observation's request and response
  unfoldable pub verify_attestation_v2 :
      MinerProbeAttestationV2 → Published → OrganicProbeObservation → AttestationVerdict
  verify_attestation_v2 a p o =
      if not (signature_valid p.replica.miner_service_public_key a)
      then signature_invalid
      else if misbinds a p o
      then fraudulent_statement
      else if not (
          a.response_status == or_zero o.response_status
          && text_eq a.response_body_sha256 (or_empty o.response_body_sha256))
      then content_mismatch
      else verified_statement

  abbrev pub unverified :
      OrganicProbeObservation → Published → Option MinerProbeAttestationV2 → Bool
  unverified o p none = false
  unverified o p (some a) =
      not (expected_verdict o.attestation_status (verify_attestation_v2 a p o))

  abbrev pub verify_entry :
      OrganicProbeObservation → ActiveAssignmentManifestV2 → Option Published → Raises (Unit {0})
  verify_entry o m none = err scoring_observation_unpublished
  verify_entry o m (some p) = do
    raise_if (not (matches_entry o m p)) scoring_observation_unpublished
    raise_if (not (valid_at m o.issued_at)) scoring_outside_manifest_horizon
    raise_if (unverified o p o.attestation) scoring_attestation_unverified
    raise_if (inconsistent o p) scoring_outcome_inconsistent

  -- `_verify_against_manifest`
  unfoldable pub verify_against_manifest :
      OrganicProbeObservation → Option ActiveAssignmentManifestV2 → Raises (Unit {0})
  unfolding verify_attestation_v2 find_replica valid_at
  verify_against_manifest o none = err scoring_manifest_unknown
  verify_against_manifest o (some m) = verify_entry o m (find_replica m o.endpoint_id)
