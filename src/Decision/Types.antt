-- ===== src/Decision/Types.antt =====
-- The records of src/misscomputer_subnet/validator_decision.py.
use misscomputer_subnet.Prelude.{ℕ, Text, Option, List}
use misscomputer_subnet.Organic.Types.{ActiveAssignmentManifestV2}
use misscomputer_subnet.Organic.Window.{OrganicEpochScore, OrganicAvailabilityScore}

pub data ManifestFetchStatus : Type 0 where
  rejected unavailable verified : ManifestFetchStatus

pub data MinerClassification : Type 0 where
  fraud_evidence scored unscored : MinerClassification

pub data AbstainReason : Type 0 where
  insufficient_scored_epochs no_positive_evidence registered_set_unbound : AbstainReason
  terminal_manifest_policy_rejected terminal_manifest_rejected : AbstainReason
  terminal_manifest_stale terminal_manifest_unavailable : AbstainReason

pub data DecisionRejectionCode : Type 0 where
  decision_epoch_invalid decision_epochs_invalid : DecisionRejectionCode
  decision_manifest_missing decision_not_submittable : DecisionRejectionCode
  decision_terminal_invalid decision_trust_policy_invalid : DecisionRejectionCode
  decision_trust_policy_missing decision_validator_mismatch : DecisionRejectionCode
  decision_window_invalid : DecisionRejectionCode

pub record WeightDecisionPolicy : Type 0 where
  pub min_scored_epochs : ℕ
  pub max_registered_height_gap : ℕ

pub record RegisteredMiner : Type 0 where
  pub uid : ℕ
  pub hotkey : Text

pub record RegisteredMinerSet : Type 0 where
  pub finalized_height : ℕ
  pub finalized_block_hash : Text
  pub finalized_epoch : ℕ
  pub validator_uid : ℕ
  pub validator_hotkey : Text
  pub miners : List RegisteredMiner
  pub metagraph_identity_fingerprint_sha256 : Text

pub record TerminalManifestObservation : Type 0 where
  pub status : ManifestFetchStatus
  pub evaluated_at_epoch : ℕ
  pub manifest : Option ActiveAssignmentManifestV2
  pub rejection_code : Option Text

-- `AssignmentManifestTrustPolicy`: its digest, and its document
pub record TrustPolicyDocument : Type 0 where
  pub trust_policy_digest_sha256 : Text
  pub document : Text

-- the weight is a float
pub record WeightDecisionRow : Type 0 where
  pub uid : ℕ
  pub hotkey : Text
  pub classification : MinerClassification
  pub weight : ℕ
  pub eligible_endpoint_epochs : ℕ
  pub availability_numerator : Option ℕ
  pub availability_denominator : Option ℕ

pub data Outcome : Type 0 where
  abstain submit : Outcome

-- `ValidatorWeightDecision` without its own digest; the five `terminal_` fields of the manifest are
-- those of `terminal_manifest`
pub record ValidatorWeightDecision : Type 0 where
  pub validator_uid : ℕ
  pub validator_hotkey : Text
  pub window_start_epoch : ℕ
  pub window_end_epoch : ℕ
  pub decision : Outcome
  pub abstain_reasons : List AbstainReason
  pub decision_policy : WeightDecisionPolicy
  pub trust_policies : List TrustPolicyDocument
  pub terminal_manifest_status : ManifestFetchStatus
  pub terminal_manifest_rejection_code : Option Text
  pub terminal_evaluated_at_epoch : ℕ
  pub terminal_manifest : Option ActiveAssignmentManifestV2
  pub manifests : List ActiveAssignmentManifestV2
  pub epochs : List OrganicEpochScore
  pub availability_score : Option OrganicAvailabilityScore
  pub scored_epoch_count : ℕ
  pub registered_finalized_height : ℕ
  pub registered_finalized_block_hash : Text
  pub registered_finalized_epoch : ℕ
  pub registered_miner_count : ℕ
  pub metagraph_identity_fingerprint_sha256 : Text
  pub rows : List WeightDecisionRow
  pub weight_plan_rows_digest_sha256 : Option Text
