-- ===== src/Organic/Types.antt =====
-- The records of src/misscomputer_subnet/organic_scoring.py, and the fields of a probe observation
-- (src/misscomputer_subnet/organic_probe.py) and of a manifest (organic_contracts.py) that scoring
-- reads. A timestamp enters as its seconds
-- since 1970.
use misscomputer_subnet.Prelude.{ℕ, Text, Bool, Option, List}

pub data Attribution : Type 0 where
  application miner none_ path : Attribution

pub data AttestationStatus : Type 0 where
  fraudulent not_presented rejected verified : AttestationStatus

pub data ProbeOutcome : Type 0 where
  failure success : ProbeOutcome

pub data ProbeFailureCode : Type 0 where
  attestation_fraud attestation_invalid attestation_missing connection_failed : ProbeFailureCode
  edge_generated marker_missing response_oversized timeout : ProbeFailureCode
  tls_certificate_invalid tls_handshake_failed tls_pin_mismatch : ProbeFailureCode
  transport_error unexpected_status : ProbeFailureCode

-- `observed_at` in nanoseconds since 1970
pub record MinerProbeAttestationV2 : Type 0 where
  pub endpoint_id : Text
  pub generation : ℕ
  pub ticket_digest : Text
  pub artifact_digest : Text
  pub validator_hotkey : Text
  pub probe_nonce : Text
  pub request_method : Text
  pub request_path : Text
  pub observed_at : ℕ
  pub response_status : ℕ
  pub response_body_sha256 : Text
  pub signature : Text

pub record OrganicProbeObservation : Type 0 where
  pub validator_hotkey : Text
  pub manifest_digest_sha256 : Text
  pub trust_policy_digest_sha256 : Text
  pub deployment_id : Text
  pub assignment_digest_sha256 : Text
  pub endpoint_id : Text
  pub generation : ℕ
  pub miner_uid : ℕ
  pub miner_hotkey : Text
  pub probe_nonce : Text
  pub issued_at : ℕ
  pub request_method : Text
  pub request_path : Text
  pub outcome : ProbeOutcome
  pub failure_code : Option ProbeFailureCode
  pub attribution : Attribution
  pub upstream_marker : Bool
  pub response_status : Option ℕ
  pub response_body_sha256 : Option Text
  pub attestation_status : AttestationStatus
  pub attestation : Option MinerProbeAttestationV2
  pub observation_digest_sha256 : Text

pub record OrganicHealthProbe : Type 0 where
  pub method : Text
  pub path : Text
  pub expected_statuses : List ℕ
  pub response_marker : Option Text

pub record OrganicAssignedReplica : Type 0 where
  pub miner_uid : ℕ
  pub miner_hotkey : Text
  pub miner_service_public_key : Text
  pub generation : ℕ
  pub endpoint_id : Text
  pub ticket_digest : Text
  pub expires_at_epoch : ℕ

pub record OrganicDeploymentAssignment : Type 0 where
  pub deployment_id : Text
  pub artifact_digest : Text
  pub health : OrganicHealthProbe
  pub replicas : List OrganicAssignedReplica
  pub assignment_digest_sha256 : Text

pub record ActiveAssignmentManifestV2 : Type 0 where
  pub trust_policy_digest_sha256 : Text
  pub finalized_height : ℕ
  pub finalized_block_hash : Text
  pub finalized_epoch : ℕ
  pub issued_at_epoch : ℕ
  pub expires_at_epoch : ℕ
  pub deployments : List OrganicDeploymentAssignment
  pub manifest_digest_sha256 : Text

pub data ScoringRejectionCode : Type 0 where
  scoring_attempts_overflow scoring_attestation_unverified : ScoringRejectionCode
  scoring_epoch_mismatch scoring_epochs_invalid scoring_identity_conflict : ScoringRejectionCode
  scoring_manifest_unknown scoring_observation_duplicate : ScoringRejectionCode
  scoring_observation_unpublished scoring_outcome_inconsistent : ScoringRejectionCode
  scoring_outside_manifest_horizon scoring_policy_invalid : ScoringRejectionCode
  scoring_validator_mismatch : ScoringRejectionCode

pub data EpochStatus : Type 0 where
  common_mode_unavailable no_eligible_endpoints scored : EpochStatus

pub data Disposition : Type 0 where
  abstain_insufficient_attempts eligible : Disposition
  excluded_app_inconclusive excluded_common_mode : Disposition

pub record ServingCorroboration : Type 0 where
  pub endpoint_id : Text
  pub window_start_epoch : ℕ
  pub window_digest_sha256 : Text
  pub requests : ℕ
  pub origin : Bool

pub record FraudEvidence : Type 0 where
  pub miner_uid : ℕ
  pub miner_hotkey : Text
  pub endpoint_id : Text
  pub observation_digest_sha256 : Text

pub record EndpointEpochTally : Type 0 where
  pub deployment_id : Text
  pub endpoint_id : Text
  pub miner_uid : ℕ
  pub miner_hotkey : Text
  pub attempts : ℕ
  pub successes : ℕ
  pub application_failures : ℕ
  pub miner_failures : ℕ
  pub path_failures : ℕ
  pub fraudulent_attestations : ℕ
  pub disposition : Disposition
  pub availability_numerator : Option ℕ
  pub availability_denominator : Option ℕ
  pub corroborating_windows : ℕ
  pub corroborating_requests : ℕ
