-- ===== src/Executor/Stages.antt =====
-- The stages of `_execute_weight_plan` of src/misscomputer_subnet/weight_executor.py that read and
-- check: `_validate_execution_gates`, the preparation, the opening of the audit store and of the
-- signer, and the last look at the chain.
use misscomputer_subnet.Prelude.{
  Text, text_eq, Bool, true, false, not, ◌&&◌, Option, none, some, ltb, ◌==◌, is_some,
  if◌then◌else◌, ok, err, ◌>>=◌, ◌>>◌,
}
use misscomputer_subnet.Chain.{MetagraphSnapshot}
use misscomputer_subnet.Plan.Types.{WeightPlan}
use misscomputer_subnet.Plan.Identity.{snapshot_identity_fingerprint}
use misscomputer_subnet.Executor.Types.{
  failed_with, Env, invalid_plan, wrong_network, wrong_netuid, wrong_validator,
  unsupported_version_key, network_confirmation_required, netuid_confirmation_required,
  plan_digest_confirmation_required, execution_digest_confirmation_required,
  environment_acknowledgement_required, audit_state_required, audit_state_unsafe,
  chain_preflight_failed, commit_reveal_unsupported, submitter_unavailable, signer_hotkey_mismatch,
  signer_unavailable, pre_send_state_changed, pre_send_state_unavailable,
}
use misscomputer_subnet.Executor.Vector.{Raises, plan_protocol_version_key, derive_execution_vector}
use misscomputer_subnet.Executor.Audit.{AuditState, Store, check_state}
use misscomputer_subnet.Executor.Outside.{
  Config, Answers, Stops, lift, present, or_code, or_own_code, stop_if, is_text, is_number, is_path,
  acknowledgement_value, Prepared, SendView,
}

abbrev differs_from : Option Text → Text → Bool
differs_from none digest = false
differs_from (some expected) digest = not (text_eq digest expected)

abbrev same_text : Option Text → Option Text → Stops Bool
same_text (some a) (some b) = ok (text_eq a b)
same_text _ _ = err (failed_with pre_send_state_unavailable)

module _ (env : Env) (config : Config) (answers : Answers) where
  unfoldable pub validate_execution_gates : WeightPlan → Stops (Unit {0})
  validate_execution_gates plan = do
    stop_if
        (not (
          is_text config.confirm_network config.network
          && is_text config.confirm_network plan.network))
        network_confirmation_required
    stop_if
        (not (
          is_number config.confirm_netuid config.netuid
          && is_number config.confirm_netuid plan.netuid))
        netuid_confirmation_required
    stop_if (not (is_text config.confirm_plan_digest (env.plan_digest plan)))
        plan_digest_confirmation_required
    stop_if (not (is_some config.confirm_execution_digest)) execution_digest_confirmation_required
    stop_if (not (is_text answers.acknowledgement acknowledgement_value))
        environment_acknowledgement_required
    stop_if (not (is_path config.audit_state_path)) audit_state_required
    same ← present answers.same_path audit_state_unsafe
    stop_if same audit_state_unsafe

  -- everything up to the adjusted execution vector, which a dry run reports
  unfoldable pub prepare : Stops Prepared
  prepare = do
    plan ← present answers.plan_file invalid_plan
    stop_if (not (text_eq plan.network config.network)) wrong_network
    stop_if (not (plan.netuid == config.netuid)) wrong_netuid
    stop_if (not (text_eq plan.validator_hotkey config.validator_hotkey)) wrong_validator
    stop_if (not (plan.version_key == plan_protocol_version_key)) unsupported_version_key
    (if config.execute then validate_execution_gates plan else ok tt)
    snapshot ← or_code answers.first_sync chain_preflight_failed
    vector ← lift (
        derive_execution_vector env plan snapshot config.network config.netuid
          config.validator_hotkey)
    stop_if (differs_from config.confirm_execution_digest (env.vector_digest vector))
        execution_digest_confirmation_required
    ok (record { plan = plan; snapshot = snapshot; vector = vector })

  -- the checks of an executing run before the audit store is opened
  unfoldable pub check_mode : Stops (Unit {0})
  check_mode = do
    commit_reveal ← or_code answers.first_commit_reveal chain_preflight_failed
    stop_if commit_reveal commit_reveal_unsupported
    stop_if (not answers.has_submitter) submitter_unavailable

  -- `AuditStateStore(path)`: the file's attempts, if the file is sound
  unfoldable pub open_store : AuditState → Raises Store
  open_store disk = elim answers.open_fault [
    | some c ↦ err c
    | none ↦ check_state disk >> ok (record { disk = disk; memory = disk })
  ]

  unfoldable pub load_signer : Stops (Unit {0})
  load_signer = do
    hotkey ← or_own_code answers.submitter signer_unavailable
    stop_if (not (text_eq hotkey config.validator_hotkey)) signer_hotkey_mismatch
    or_own_code answers.submitter_open signer_unavailable

  abbrev pub fingerprint : MetagraphSnapshot → Option Text
  fingerprint = snapshot_identity_fingerprint env.floats env.urlsplit env.snapshot_digest

  -- the final look at the chain
  unfoldable pub send_check : Prepared → Stops SendView
  send_check prepared = do
    now ← or_own_code answers.send_sync pre_send_state_unavailable
    stop_if (ltb now.block prepared.snapshot.block) pre_send_state_changed
    same ←
        (if now.block == prepared.snapshot.block
          then same_text (fingerprint now) (fingerprint prepared.snapshot)
          else ok true)
    stop_if (not same) pre_send_state_changed
    vector ← lift (
        derive_execution_vector env prepared.plan now config.network config.netuid
          config.validator_hotkey)
    commit_reveal ← or_own_code answers.send_commit_reveal pre_send_state_unavailable
    stop_if commit_reveal commit_reveal_unsupported
    stop_if (not (text_eq (env.vector_digest vector) (env.vector_digest prepared.vector)))
        pre_send_state_changed
    ok (record { block = now.block; vector = vector })
