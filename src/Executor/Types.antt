-- ===== src/Executor/Types.antt =====
-- The records of src/misscomputer_subnet/weight_executor.py, and what it takes from libraries.
use misscomputer_subnet.Prelude.{ℕ, Text, codes, Bool, Option, List}
use misscomputer_subnet.Prelude.Floats.{Floats}
use misscomputer_subnet.Plan.Checks.{SplitUrl}
use misscomputer_subnet.Plan.Identity.{SnapshotDocument}
use misscomputer_subnet.Plan.Types.{WeightPlan}

-- the codes that a `WeightExecutionError` carries
pub data ErrorCode : Type 0 where
  invalid_identity invalid_integer invalid_weights invalid_plan no_valid_planned_hotkeys : ErrorCode
  wrong_network wrong_netuid wrong_validator unsupported_version_key : ErrorCode
  unfinalized_chain_state invalid_chain_state chain_rollback expired_plan : ErrorCode
  validator_not_permitted : ErrorCode
  network_confirmation_required netuid_confirmation_required : ErrorCode
  plan_digest_confirmation_required execution_digest_confirmation_required : ErrorCode
  environment_acknowledgement_required audit_state_required : ErrorCode
  audit_state_unsafe audit_state_invalid audit_state_full idempotency_blocked : ErrorCode
  chain_preflight_failed commit_reveal_unsupported submitter_unavailable : ErrorCode
  signer_hotkey_mismatch signer_unavailable pre_send_state_changed : ErrorCode
  pre_send_state_unavailable submission_ambiguous submission_failed : ErrorCode
  submission_confirmed_audit_failed : ErrorCode

-- the text of a code that the send check or the signer may raise
unfoldable pub code_text : ErrorCode → Text
code_text invalid_identity = codes "invalid_identity"
code_text invalid_integer = codes "invalid_integer"
code_text invalid_weights = codes "invalid_weights"
code_text invalid_plan = codes "invalid_plan"
code_text no_valid_planned_hotkeys = codes "no_valid_planned_hotkeys"
code_text wrong_network = codes "wrong_network"
code_text wrong_netuid = codes "wrong_netuid"
code_text wrong_validator = codes "wrong_validator"
code_text unsupported_version_key = codes "unsupported_version_key"
code_text unfinalized_chain_state = codes "unfinalized_chain_state"
code_text invalid_chain_state = codes "invalid_chain_state"
code_text chain_rollback = codes "chain_rollback"
code_text expired_plan = codes "expired_plan"
code_text validator_not_permitted = codes "validator_not_permitted"
code_text network_confirmation_required = codes "network_confirmation_required"
code_text netuid_confirmation_required = codes "netuid_confirmation_required"
code_text plan_digest_confirmation_required = codes "plan_digest_confirmation_required"
code_text execution_digest_confirmation_required = codes "execution_digest_confirmation_required"
code_text environment_acknowledgement_required = codes "environment_acknowledgement_required"
code_text audit_state_required = codes "audit_state_required"
code_text audit_state_unsafe = codes "audit_state_unsafe"
code_text audit_state_invalid = codes "audit_state_invalid"
code_text audit_state_full = codes "audit_state_full"
code_text idempotency_blocked = codes "idempotency_blocked"
code_text chain_preflight_failed = codes "chain_preflight_failed"
code_text commit_reveal_unsupported = codes "commit_reveal_unsupported"
code_text submitter_unavailable = codes "submitter_unavailable"
code_text signer_hotkey_mismatch = codes "signer_hotkey_mismatch"
code_text signer_unavailable = codes "signer_unavailable"
code_text pre_send_state_changed = codes "pre_send_state_changed"
code_text pre_send_state_unavailable = codes "pre_send_state_unavailable"
code_text submission_ambiguous = codes "submission_ambiguous"
code_text submission_failed = codes "submission_failed"
code_text submission_confirmed_audit_failed = codes "submission_confirmed_audit_failed"

-- A call ends by a `WeightExecutionError`, or by a cancellation, which no `except Exception` sees.
pub data Fault : Type 0 where
  failed_with : ErrorCode → Fault
  cancelled : Fault

pub record ExecutionWeight : Type 0 where
  pub hotkey : Text
  pub planned_uid : ℕ
  pub uid : ℕ
  pub weight : ℕ

pub record OmittedWeight : Type 0 where
  pub hotkey : Text
  pub planned_uid : ℕ

pub record ExecutionVector : Type 0 where
  pub plan_digest_sha256 : Text
  pub network : Text
  pub netuid : ℕ
  pub validator_hotkey : Text
  pub version_key : ℕ
  pub weights : List ExecutionWeight
  pub omitted : List OmittedWeight

pub data AuditStatus : Type 0 where
  in_progress confirmed failed ambiguous : AuditStatus

pub data ReceiptOutcome : Type 0 where
  confirmed pre_send_failure definite_failure ambiguous : ReceiptOutcome

pub record AuditReceipt : Type 0 where
  pub outcome : ReceiptOutcome
  pub extrinsic_ref : Option Text
  pub error_code : Option Text

pub record AuditAttempt : Type 0 where
  pub attempt_id : Text
  pub attempt_key : Text
  pub execution_digest_sha256 : Text
  pub vector : ExecutionVector
  pub preflight_block : ℕ
  pub send_check_block : Option ℕ
  pub status : AuditStatus
  pub submission_started : Bool
  pub started_at : Text
  pub updated_at : Text
  pub receipt : Option AuditReceipt

-- What is computed by libraries: float arithmetic, URL splitting, timestamps, and the digests, each
-- the SHA-256 of the canonical JSON of its argument's document.
pub record Env : Type 0 where
  pub floats : Floats
  pub urlsplit : Text → Option SplitUrl
  pub is_utc_instant : Text → Bool
  pub plan_digest : WeightPlan → Text
  pub vector_digest : ExecutionVector → Text
  pub snapshot_digest : SnapshotDocument → Text
  pub key_digest : Text → Text → Text
  pub id_digest : Text → Text → Text → Text → Text
  -- the length of the canonical bytes of an audit state
  pub state_size : List AuditAttempt → ℕ
