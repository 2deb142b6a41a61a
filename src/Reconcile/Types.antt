-- ===== src/Reconcile/Types.antt =====
-- The records of src/misscomputer_subnet/weight_reconciliation.py, and what the outside answers.
use misscomputer_subnet.Prelude.{ℕ, Text, Bool, Option, List, Result}
use misscomputer_subnet.Chain.{MetagraphSnapshot}
use misscomputer_subnet.Executor.Types.{AuditStatus}
use misscomputer_subnet.Executor.Audit.{AuditState}

-- the code of a `WeightReconciliationError`
pub data ReconciliationCode : Type 0 where
  audit_state_unavailable audit_state_changed audit_state_invalid : ReconciliationCode
  attempt_not_found audit_identity_mismatch : ReconciliationCode
  chain_evidence_unavailable chain_evidence_invalid : ReconciliationCode

-- A call ends by such an error, or by a cancellation, which no `except Exception` sees.
pub data ReportFault : Type 0 where
  rejected : ReconciliationCode → ReportFault
  cancelled : ReportFault

abbrev pub Raises : Type 0 → Type 0
Raises A = Result ReportFault A

pub data CallAnswer (A : Type 0) : Type 0 where
  returns : A → CallAnswer A
  fails cancels : CallAnswer A

-- one entry of a dictionary from UIDs to floats
pub record UidWeight : Type 0 where
  pub uid : ℕ
  pub weight : ℕ

-- What the audit file and the chain answer in one call, and whether `close` is cancelled.
pub record ChainAnswers : Type 0 where
  pub audit_state : Result ReconciliationCode AuditState
  pub opening : CallAnswer (Unit {0})
  pub snapshot : CallAnswer MetagraphSnapshot
  pub row : CallAnswer (List UidWeight)
  pub close_cancelled : Bool

pub data ChainCall : Type 0 where
  open_call sync_call weights_call close_call : ChainCall

pub data EvidenceRelation : Type 0 where
  consistent different unavailable : EvidenceRelation

pub data IdentityStatus : Type 0 where
  exact changed validator_missing : IdentityStatus

pub data RetryDisposition : Type 0 where
  eligible_pre_send blocked_requires_operator : RetryDisposition

pub data Conclusion : Type 0 where
  never_started finalized_submission not_proof_of_inclusion may_be_overwritten : Conclusion
  outcome_unresolved : Conclusion

-- `WeightReconciliationReport` without its own digest and that of the audit state
pub record WeightReconciliationReport : Type 0 where
  pub attempt_id : Text
  pub attempt_status : AuditStatus
  pub submission_started : Bool
  pub network : Text
  pub netuid : ℕ
  pub validator_hotkey : Text
  pub evidence_block : ℕ
  pub validator_uid : Option ℕ
  pub target_identity_status : IdentityStatus
  pub evidence_relation : EvidenceRelation
  pub expected_row_digest_sha256 : Text
  pub observed_row_digest_sha256 : Option Text
  pub retry_disposition : RetryDisposition
  pub conclusion : Conclusion
  pub alert_required : Bool

pub record Arguments : Type 0 where
  pub network : Text
  pub netuid : ℕ
  pub validator_hotkey : Text
  pub attempt_id : Option Text

-- the outcome of a call, and the calls of the chain that it made
pub record ReportRun : Type 0 where
  pub outcome : Raises WeightReconciliationReport
  pub calls : List ChainCall
