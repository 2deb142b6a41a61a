-- ===== src/Executor/Run/Gates.antt =====
-- Under what conditions a run of src/misscomputer_subnet/weight_executor.py gives a vector to the
-- submitter.
use misscomputer_subnet.Prelude.{
  ◌≡◌, refl, sym, ap, ◌∙◌, ◌⊎◌, inl, inr, Text, text_eq, text_eq_iff, Bool, true, false, Option,
  none, some, [], ◌∷◌, ltb, arith, is_some, Bool-cases, Result, ok, err,
}
use misscomputer_subnet.Chain.{MetagraphSnapshot}
use misscomputer_subnet.Plan.Types.{WeightPlan}
use misscomputer_subnet.Executor.Types.{
  Fault, failed_with, cancelled, ExecutionVector, AuditStatus, AuditReceipt, Env,
}
use misscomputer_subnet.Executor.Vector.{derive_execution_vector}
use misscomputer_subnet.Executor.Vector.Preflight.{IsCurrent, derive-IsCurrent}
use misscomputer_subnet.Executor.Audit.{
  AuditState, Store, blocking_attempt, start_attempt, mark_submission_started, valid_receipt,
}
use misscomputer_subnet.Executor.Outside.{
  Config, answered, Answers, Report, World, Prepared, SendView, SubmitAnswer, returned, timed_out,
  lost, is_text, acknowledgement_value,
}
use misscomputer_subnet.Executor.Stages.{
  prepare, check_mode, open_store, load_signer, send_check, validate_execution_gates,
}
use misscomputer_subnet.Executor.Run.{
  with_store, reported, finish_submission, result_end, after_submit, pre_send_failure, send,
  attempt_submission, submit_once, execute_weight_plan, run_weight_executor,
}

pub cases : {E A : Type 0} (r : Result E A) → ((a : A) × (r ≡ ok a)) ⊎ ((e : E) × (r ≡ err e))
cases (ok a) = inl (a, refl)
cases (err e) = inr (e, refl)

module _ (env : Env) (config : Config) (answers : Answers) where
  -- What `send_check` has seen when it returns.
  pub send_check-looked :
      (p : Prepared) (view : SendView)
      → send_check env config answers p ≡ ok view
      → (now : MetagraphSnapshot) × (answers.send_sync ≡ answered now)
        × (ltb now.block p.snapshot.block ≡ false)
        × (derive_execution_vector env p.plan now config.network config.netuid
              config.validator_hotkey
            ≡ ok view.vector)
        × (answers.send_commit_reveal ≡ answered false)
        × (text_eq (env.vector_digest view.vector) (env.vector_digest p.vector) ≡ true)
  unfolding send_check
  send_check-looked p view h = ground arith

  gates_parts :
      (plan : WeightPlan)
      → validate_execution_gates env config answers plan ≡ ok tt
      → (is_text config.confirm_plan_digest (env.plan_digest plan) ≡ true)
        × (is_some config.confirm_execution_digest ≡ true)
        × (is_text answers.acknowledgement acknowledgement_value ≡ true)
        × (answers.same_path ≡ some false)
  unfolding validate_execution_gates
  gates_parts plan h = ground arith

  pub prepare-checked :
      (p : Prepared)
      → prepare env config answers ≡ ok p
      → (answers.plan_file ≡ some p.plan)
        × (answers.first_sync ≡ answered p.snapshot)
        × (config.execute ≡ true → validate_execution_gates env config answers p.plan ≡ ok tt)
        × (derive_execution_vector env p.plan p.snapshot config.network config.netuid
              config.validator_hotkey
            ≡ ok p.vector)
  unfolding prepare
  prepare-checked p h = ground arith

  module _ (v : ExecutionVector) where
    finish_submission-sends :
        (id : Text) (w : ExecutionVector) (status : AuditStatus) (receipt : AuditReceipt)
        (ending : Result Fault Report) (store : Store)
        → (finish_submission env config answers id w status receipt ending store).1.submitted
          ≡ w ∷ []
    unfolding finish_submission
    finish_submission-sends id w status receipt ending store =
        elim (Bool-cases (valid_receipt receipt)) [
          | inl valid ↦ ground arith
          | inr bad ↦ ground arith
        ]

    result_end-sends :
        (success : Bool) (ref code : Option Text) (id : Text) (u w : ExecutionVector)
        (store : Store)
        → (result_end env config answers success ref code id u w store).1.submitted ≡ w ∷ []
    unfolding result_end
    result_end-sends true none code id u w store = finish_submission-sends _ _ _ _ _ _
    result_end-sends true (some ref) code id u w store = finish_submission-sends _ _ _ _ _ _
    result_end-sends false ref code id u w store = finish_submission-sends _ _ _ _ _ _

    after_submit-sends :
        (answer : SubmitAnswer) (id : Text) (u w : ExecutionVector) (store : Store)
        → (after_submit env config answers answer id u w store).1.submitted ≡ w ∷ []
    unfolding after_submit
    after_submit-sends timed_out id u w store = finish_submission-sends _ _ _ _ _ _
    after_submit-sends (lost ref) id u w store = finish_submission-sends _ _ _ _ _ _
    after_submit-sends SubmitAnswer.interrupted id u w store = refl
    after_submit-sends (returned r) id u w store = result_end-sends _ _ _ _ _ _ _

    pre_send_failure-silent :
        (id : Text) (fault : Fault) (store : Store)
        → (pre_send_failure env config answers id fault store).1.submitted ≡ []
    unfolding pre_send_failure
    pre_send_failure-silent id cancelled store = refl
    pre_send_failure-silent id (failed_with c) store = ground arith

    send-sends :
        (p : Prepared) (id : Text) (view : SendView) (store : Store)
        → (send env config answers p id view store).1.submitted ≡ v ∷ []
        → v ≡ view.vector
    unfolding send
    send-sends p id view store h = ground (
      arith,
      after_submit-sends answers.submission id p.vector view.vector
          (mark_submission_started env answers.mark_answer id view.block answers.mark_time store).1,
    )

    -- what the run had checked when it submitted
    abbrev Sent : Prepared → Type 0
    Sent p =
        (view : SendView) × (load_signer env config answers ≡ ok tt)
        × (send_check env config answers p ≡ ok view)
        × (v ≡ view.vector)

    attempt-sends :
        (p : Prepared) (id : Text) (store : Store)
        → (attempt_submission env config answers p id store).1.submitted ≡ v ∷ []
        → Sent p
    unfolding attempt_submission
    attempt-sends p id store h = elim (cases (load_signer env config answers)) [
      | inr (fault, failed) ↦ absurd (ground (arith, pre_send_failure-silent id fault store))
      | inl (t, loaded) ↦ elim (cases (send_check env config answers p)) [
        | inr (fault, failed) ↦ absurd (ground (arith, pre_send_failure-silent id fault store))
        | inl (view, checked) ↦
            (view, ground arith, checked, send-sends p id view store (ground arith))
      ]
    ]

    submit_once-sends :
        (p : Prepared) (store : Store)
        → (submit_once env config answers p store).1.submitted ≡ v ∷ []
        → Sent p
    unfolding submit_once
    submit_once-sends p store h =
        let started =
          start_attempt env answers.start_answer p.vector p.snapshot.block answers.start_time
            answers.nonce store in
        elim (Bool-cases (is_some (blocking_attempt (env.plan_digest p.plan) store.memory))) [
          | inl taken ↦ absurd (ground arith)
          | inr free ↦ elim (cases started.0) [
            | inr (e, failed) ↦ absurd (ground arith)
            | inl (a, done) ↦ attempt-sends p a.attempt_id started.1 (ground arith)
          ]
        ]

    with_store-sends :
        (p : Prepared) (disk : AuditState)
        → (with_store env config answers p disk).1.submitted ≡ v ∷ []
        → Sent p
    unfolding with_store
    with_store-sends p disk h = elim (cases (open_store env config answers disk)) [
      | inr (e, failed) ↦ absurd (ground arith)
      | inl (store, opened) ↦ submit_once-sends p store (ground arith)
    ]

    execute-sends :
        (disk : AuditState)
        → (execute_weight_plan env config answers disk).1.submitted ≡ v ∷ []
        → (p : Prepared) × (prepare env config answers ≡ ok p)
          × (config.execute ≡ true)
          × (check_mode env config answers ≡ ok tt)
          × Sent p
    unfolding execute_weight_plan
    execute-sends disk h = elim (cases (prepare env config answers)) [
      | inr (e, failed) ↦ absurd (ground arith)
      | inl (p, prepared) ↦ elim (Bool-cases config.execute) [
        | inr dry ↦ absurd (ground arith)
        | inl wet ↦ elim (cases (check_mode env config answers)) [
          | inr (e, failed) ↦ absurd (ground arith)
          | inl (t, mode) ↦ (p, prepared, wet, ground arith, with_store-sends p disk (ground arith))
        ]
      ]
    ]

    reported_submits :
        (r : Result Fault Report × World)
        → (reported env config answers r).1.submitted ≡ r.1.submitted
    reported_submits (err fault, world) = refl
    reported_submits (ok report, world) = refl

    run-sends :
        (disk : AuditState)
        → (run_weight_executor env config answers disk).1.submitted ≡ v ∷ []
        → (p : Prepared) × (prepare env config answers ≡ ok p)
          × (config.execute ≡ true)
          × (check_mode env config answers ≡ ok tt)
          × Sent p
    unfolding run_weight_executor
    run-sends disk h =
        execute-sends disk
          (sym (reported_submits (execute_weight_plan env config answers disk)) ∙ h)

  -- A run that is not to execute submits nothing and leaves the audit state file as it is.
  pub dry_run_silent :
      (disk : AuditState)
      → config.execute ≡ false
      → ((run_weight_executor env config answers disk).1.submitted ≡ [])
        × ((run_weight_executor env config answers disk).1.store.disk ≡ disk)
  unfolding run_weight_executor execute_weight_plan
  dry_run_silent disk dry = elim (cases (prepare env config answers)) [
    | inr (e, failed) ↦ (ground arith, ground arith)
    | inl (p, prepared) ↦ (ground arith, ground arith)
  ]

  is_text-eq : (o : Option Text) (t : Text) → is_text o t ≡ true → o ≡ some t
  is_text-eq none t h = absurd (ground arith)
  is_text-eq (some s) t h = ap some ((text_eq_iff s t).0 h)

  load_signer-parts :
      load_signer env config answers ≡ ok tt
      → (hotkey : Text) × (answers.submitter ≡ answered hotkey)
        × (text_eq hotkey config.validator_hotkey ≡ true)
  unfolding load_signer
  load_signer-parts h = ground arith

  load_signer-hotkey :
      load_signer env config answers ≡ ok tt → answers.submitter ≡ answered config.validator_hotkey
  load_signer-hotkey h =
      let (hotkey, answer, same) = load_signer-parts h in
      answer ∙ ap answered ((text_eq_iff hotkey config.validator_hotkey).0 same)

  -- If a run gives a vector to the submitter, then the operator had confirmed the plan's digest and
  -- acknowledged the submission, the signer's hotkey is the configured one, and the chain's last
  -- answer, with commit-reveal off, is a state that fits the plan and from which the vector is
  -- derived.
  pub submission_gated :
      (v : ExecutionVector) (disk : AuditState)
      → (run_weight_executor env config answers disk).1.submitted ≡ v ∷ []
      → (plan : WeightPlan) × (now : MetagraphSnapshot) × (answers.plan_file ≡ some plan)
        × (config.confirm_plan_digest ≡ some (env.plan_digest plan))
        × (answers.acknowledgement ≡ some acknowledgement_value)
        × (answers.submitter ≡ answered config.validator_hotkey)
        × (answers.send_sync ≡ answered now)
        × (answers.send_commit_reveal ≡ answered false)
        × IsCurrent plan now
        × (derive_execution_vector env plan now config.network config.netuid config.validator_hotkey
            ≡ ok v)
  submission_gated v disk h =
      let (p, prepared, wet, mode, (view, loaded, checked, same)) = run-sends v disk h in
      let (file, synced, gates, derived) = prepare-checked p prepared in
      let (plan_digest, has_digest, acknowledged, apart) = gates_parts p.plan (gates wet) in
      let (now, sent_sync, newer, rederived, reveal, digest) = send_check-looked p view checked in
      let derives = rederived ∙ ap ok (sym same) in
      (
        p.plan,
        now,
        file,
        is_text-eq config.confirm_plan_digest (env.plan_digest p.plan) plan_digest,
        is_text-eq answers.acknowledgement acknowledgement_value acknowledged,
        load_signer-hotkey loaded,
        sent_sync,
        reveal,
        derive-IsCurrent env p.plan now config.network config.netuid config.validator_hotkey v
            derives,
        derives,
      )
