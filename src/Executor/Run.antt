-- ===== src/Executor/Run.antt =====
-- `_pre_send_failure`, `_execute_weight_plan` and `run_weight_executor` of
-- src/misscomputer_subnet/weight_executor.py. The state file passes from run to run, under the
-- store's exclusive lock.
pub mod Gates
pub mod Effect
pub mod Confirmed
pub mod Once
pub mod History
use misscomputer_subnet.Prelude.{
  ℕ, Text, codes, text_eq, Bool, true, false, not, ◌&&◌, ◌||◌, Option, none, some, List, [], ◌∷◌,
  ltb, leb, ◌==◌, is_some, if◌then◌else◌, Result, ok, err, ◌>>=◌, ◌>>◌, raise_if,
}
use misscomputer_subnet.Chain.{MetagraphSnapshot}
use misscomputer_subnet.Plan.Types.{WeightPlan}
use misscomputer_subnet.Plan.Identity.{snapshot_identity_fingerprint}
use misscomputer_subnet.Executor.Types.{
  ErrorCode, code_text, Fault, failed_with, cancelled, ExecutionVector, AuditStatus, ReceiptOutcome,
  AuditReceipt, AuditAttempt, Env, invalid_plan, wrong_network, wrong_netuid, wrong_validator,
  unsupported_version_key, network_confirmation_required, netuid_confirmation_required,
  plan_digest_confirmation_required, execution_digest_confirmation_required,
  environment_acknowledgement_required, audit_state_required, audit_state_unsafe,
  audit_state_invalid, idempotency_blocked, chain_preflight_failed, commit_reveal_unsupported,
  submitter_unavailable, signer_hotkey_mismatch, signer_unavailable, pre_send_state_changed,
  pre_send_state_unavailable, submission_ambiguous, submission_failed,
  submission_confirmed_audit_failed,
}
use misscomputer_subnet.Executor.Vector.{Raises, plan_protocol_version_key, derive_execution_vector}
use misscomputer_subnet.Executor.Audit.{
  AuditState, PersistAnswer, Store, valid_receipt, check_state, blocking_attempt, start_attempt,
  mark_submission_started, finish_attempt,
}
use misscomputer_subnet.Executor.Outside.{
  Config, Reply, SubmissionResult, SubmitAnswer, Answers, Report, World, Stops, lift, present,
  or_code, or_own_code, stop_if, is_text, is_number, is_path, acknowledgement_value, Prepared,
  SendView, answered, raised_code, raised, returned, timed_out, lost, validated, confirmed,
}
use misscomputer_subnet.Executor.Stages.{
  validate_execution_gates, prepare, check_mode, open_store, load_signer, fingerprint, send_check,
}

module _ (env : Env) (config : Config) (answers : Answers) where
  abbrev idle : Store → World
  idle store = record { store = store; submitted = []; receipt = none; audit_failed = false }

  -- `_pre_send_failure` and the raise after it; a cancellation leaves the attempt as it is
  unfoldable pub pre_send_failure : Text → Fault → Store → Stops Report × World
  pre_send_failure attempt_id cancelled store = (err cancelled, idle store)
  pre_send_failure attempt_id (failed_with c) store =
      let (result, after) =
        finish_attempt env answers.failure_answer attempt_id AuditStatus.failed
          (record {
            outcome = ReceiptOutcome.pre_send_failure;
            extrinsic_ref = none;
            error_code = some (code_text c);
          })
          answers.failure_time store in
      elim result [
        | err e ↦ (err (failed_with e), idle after)
        | ok _ ↦ (err (failed_with c), idle after)
      ]

  abbrev persisted : Result ErrorCode AuditAttempt → Bool
  persisted (ok _) = true
  persisted (err _) = false

  -- `_ExecutionResources.finish_submission`, then the caller's `ending`
  unfoldable pub finish_submission :
      Text
      → ExecutionVector
      → AuditStatus
      → AuditReceipt
      → Stops Report
      → Store
      → Stops Report × World
  finish_submission attempt_id sent status receipt ending store =
      let (result, after) =
        finish_attempt env answers.finish_answer attempt_id status receipt answers.finish_time
          store in
      if valid_receipt receipt
      then (
        ending,
        record {
          store = after;
          submitted = sent ∷ [];
          receipt = some receipt;
          audit_failed = not (persisted result);
        },
      )
      else (
        err (failed_with audit_state_invalid),
        record { store = store; submitted = sent ∷ []; receipt = none; audit_failed = false },
      )

  abbrev ambiguous_end : Text → ExecutionVector → Option Text → Text → Store → Stops Report × World
  ambiguous_end attempt_id sent ref code =
      finish_submission attempt_id sent AuditStatus.ambiguous
        (record { outcome = ReceiptOutcome.ambiguous; extrinsic_ref = ref; error_code = some code })
        (err (failed_with submission_ambiguous))

  abbrev rejected_code : Option Text → Text
  rejected_code (some (c ∷ cs)) = c ∷ cs
  rejected_code _ = codes "chain_rejected"

  -- the end after a result with these fields `success`, `extrinsic_ref` and `error_code`
  unfoldable pub result_end :
      Bool
      → Option Text
      → Option Text
      → Text
      → (vector sent : ExecutionVector) → Store
      → Stops Report × World
  result_end true none code attempt_id vector sent =
      ambiguous_end attempt_id sent none (codes "missing_extrinsic_reference")
  result_end true (some ref) code attempt_id vector sent =
      finish_submission attempt_id sent AuditStatus.confirmed
        (record { outcome = ReceiptOutcome.confirmed; extrinsic_ref = some ref; error_code = none })
        (ok (confirmed vector ref))
  result_end false ref code attempt_id vector sent =
      finish_submission attempt_id sent AuditStatus.failed
        (record {
          outcome = ReceiptOutcome.definite_failure;
          extrinsic_ref = ref;
          error_code = some (rejected_code code);
        })
        (err (failed_with submission_failed))

  -- what follows the call of the submitter
  unfoldable pub after_submit :
      SubmitAnswer → Text → (vector sent : ExecutionVector) → Store → Stops Report × World
  unfolding result_end
  after_submit timed_out attempt_id vector sent =
      ambiguous_end attempt_id sent none (codes "submission_timeout")
  after_submit (lost ref) attempt_id vector sent =
      ambiguous_end attempt_id sent ref (codes "submission_exception")
  after_submit SubmitAnswer.interrupted attempt_id vector sent = λ store. (
    err cancelled,
    record { store = store; submitted = sent ∷ []; receipt = none; audit_failed = false },
  )
  after_submit (returned r) attempt_id vector sent =
      result_end r.success r.extrinsic_ref r.error_code attempt_id vector sent

  -- mark the attempt as started, and only then submit
  unfoldable pub send : Prepared → Text → SendView → Store → Stops Report × World
  send prepared attempt_id view store =
      let (result, after) =
        mark_submission_started env answers.mark_answer attempt_id view.block answers.mark_time
          store in
      elim result [
        | err e ↦ (err (failed_with e), idle after)
        | ok _ ↦ after_submit answers.submission attempt_id prepared.vector view.vector after
      ]

  unfoldable pub attempt_submission : Prepared → Text → Store → Stops Report × World
  attempt_submission prepared attempt_id store =
      elim (load_signer env config answers >> send_check env config answers prepared) [
        | err fault ↦ pre_send_failure attempt_id fault store
        | ok view ↦ send prepared attempt_id view store
      ]

  unfoldable pub submit_once : Prepared → Store → Stops Report × World
  submit_once prepared store =
      if is_some (blocking_attempt (env.plan_digest prepared.plan) store.memory)
      then (err (failed_with idempotency_blocked), idle store)
      else let (result, after) =
          start_attempt env answers.start_answer prepared.vector prepared.snapshot.block
            answers.start_time answers.nonce store in
        elim result [
          | err e ↦ (err (failed_with e), idle after)
          | ok attempt ↦ attempt_submission prepared attempt.attempt_id after
        ]

  abbrev closed : AuditState → Store
  closed disk = record { disk = disk; memory = [] }

  unfoldable pub with_store : Prepared → AuditState → Stops Report × World
  with_store prepared disk = elim (open_store env config answers disk) [
    | err e ↦ (err (failed_with e), idle (closed disk))
    | ok store ↦ submit_once prepared store
  ]

  abbrev pub execute_prepared : Prepared → AuditState → Stops Report × World
  execute_prepared prepared disk =
      if config.execute
      then elim (check_mode env config answers) [
        | err fault ↦ (err fault, idle (closed disk))
        | ok _ ↦ with_store prepared disk
      ]
      else (ok (validated prepared.vector), idle (closed disk))

  -- `_execute_weight_plan`
  unfoldable pub execute_weight_plan : AuditState → Stops Report × World
  execute_weight_plan disk = elim (prepare env config answers) [
    | err fault ↦ (err fault, idle (closed disk))
    | ok prepared ↦ execute_prepared prepared disk
  ]

  -- `run_weight_executor`, without the retirement of its resources: a confirmation whose audit
  -- write failed is raised as such
  abbrev reported : Stops Report × World → Stops Report × World
  reported (err fault, world) = (err fault, world)
  reported (ok report, world) = (
    if world.audit_failed then err (failed_with submission_confirmed_audit_failed) else ok report,
    world,
  )

  unfoldable pub run_weight_executor : AuditState → Stops Report × World
  run_weight_executor disk = reported (execute_weight_plan disk)
