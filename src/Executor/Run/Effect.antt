-- ===== src/Executor/Run/Effect.antt =====
-- What one run of the executor may do to the audit state file and to the chain, and that every end
-- of a run after its attempt is appended stays within it
-- (src/misscomputer_subnet/weight_executor.py).
use misscomputer_subnet.Prelude.{
  ◌≡◌, refl, ◌⊎◌, inl, inr, Text, Bool, true, false, Option, none, some, [], ◌∷◌, ◌++◌, arith, any,
  Bool-cases, Result,
}
use misscomputer_subnet.Executor.Types.{
  Fault, failed_with, cancelled, ExecutionVector, AuditStatus, ReceiptOutcome, AuditReceipt,
  AuditAttempt, Env, code_text,
}
use misscomputer_subnet.Executor.Audit.{AuditState, is_final, blocks, valid_receipt}
use misscomputer_subnet.Executor.Audit.Effects.{synced, IsFresh, finished, finish_cases}
use misscomputer_subnet.Executor.Outside.{
  Config, Answers, Report, World, SubmitAnswer, returned, timed_out, lost,
}
use misscomputer_subnet.Executor.Run.{pre_send_failure, finish_submission, result_end, after_submit}

-- The submitted vector is of the attempt's plan, and has its digest.
abbrev pub Agrees : Env → ExecutionVector → AuditAttempt → Type 0
Agrees env v a =
    (v.plan_digest_sha256 ≡ a.vector.plan_digest_sha256)
    × (env.vector_digest v ≡ env.vector_digest a.vector)

-- A run leaves the state file as it was and submits nothing; or it appends one attempt, of a plan
-- that no earlier attempt blocks, and has submitted nothing or one vector that agrees with that
-- attempt, in which case the attempt blocks its plan.
abbrev pub Effect : Env → AuditState → World → Type 0
Effect env old w =
    ((w.store.disk ≡ old) × (w.submitted ≡ []))
    ⊎ ((a : AuditAttempt) × (w.store.disk ≡ old ++ a ∷ [])
        × (any (blocks a.vector.plan_digest_sha256) old ≡ false)
        × ((w.submitted ≡ [])
            ⊎ ((v : ExecutionVector) × (w.submitted ≡ v ∷ [])
                × Agrees env v a
                × (is_final a.status a.submission_started ≡ true))))

-- An attempt that has been started is final, whatever its status.
started-is_final : (s : AuditStatus) → is_final s true ≡ true
started-is_final AuditStatus.in_progress = refl
started-is_final AuditStatus.confirmed = refl
started-is_final AuditStatus.failed = refl
started-is_final AuditStatus.ambiguous = refl

module _ (env : Env) (config : Config) (answers : Answers) (old : AuditState) where
  -- The facts about the attempt that a run has appended.
  module _ (a : AuditAttempt) (fresh : IsFresh old a)
      (progress : a.status ≡ AuditStatus.in_progress)
      (unblocked : any (blocks a.vector.plan_digest_sha256) old ≡ false) where
    pub finish_submission-Effect :
        (sent : ExecutionVector) (status : AuditStatus) (receipt : AuditReceipt)
        (ending : Result Fault Report)
        → Agrees env sent a
        → a.submission_started ≡ true
        → Effect env old
            (finish_submission env config answers a.attempt_id sent status receipt ending
              (synced (old ++ a ∷ []))).1
    unfolding finish_submission
    finish_submission-Effect sent status receipt ending agrees started =
        let final = started-is_final a.status in
        let final' = started-is_final status in
        elim (Bool-cases (valid_receipt receipt)) [
          | inr bad ↦
              inr (a, ground arith, unblocked, inr (sent, ground arith, agrees, ground arith))
          | inl valid ↦
              elim (finish_cases env answers.finish_answer old a fresh progress status receipt
                answers.finish_time) [
                  | inl done ↦ inr (
                    finished status receipt answers.finish_time a,
                    ground arith,
                    unblocked,
                    inr (sent, ground arith, agrees, ground arith),
                  )
                  | inr (e, failed, wrote) ↦ elim wrote [
                    | inl same ↦
                        inr (
                          a,
                          ground arith,
                          unblocked,
                          inr (sent, ground arith, agrees, ground arith),
                        )
                    | inr new ↦ inr (
                      finished status receipt answers.finish_time a,
                      ground arith,
                      unblocked,
                      inr (sent, ground arith, agrees, ground arith),
                    )
                  ]
                ]
        ]

    pub pre_send_failure-Effect :
        (fault : Fault)
        → Effect env old
            (pre_send_failure env config answers a.attempt_id fault (synced (old ++ a ∷ []))).1
    unfolding pre_send_failure
    pre_send_failure-Effect cancelled = inr (a, refl, unblocked, inl refl)
    pre_send_failure-Effect (failed_with c) =
        let receipt : AuditReceipt = record {
          outcome = ReceiptOutcome.pre_send_failure;
          extrinsic_ref = none;
          error_code = some (code_text c);
        } in
        let u = finished AuditStatus.failed receipt answers.failure_time a in
        elim (finish_cases env answers.failure_answer old a fresh progress AuditStatus.failed
          receipt answers.failure_time) [
            | inl done ↦ inr (u, ground arith, unblocked, inl (ground arith))
            | inr (e, failed, wrote) ↦ elim wrote [
              | inl same ↦ inr (a, ground arith, unblocked, inl (ground arith))
              | inr new ↦ inr (u, ground arith, unblocked, inl (ground arith))
            ]
          ]

    pub result_end-Effect :
        (success : Bool) (ref code : Option Text) (vector sent : ExecutionVector)
        → Agrees env sent a
        → a.submission_started ≡ true
        → Effect env old
            (result_end env config answers success ref code a.attempt_id vector sent
              (synced (old ++ a ∷ []))).1
    unfolding result_end
    result_end-Effect true none code vector sent agrees started =
        finish_submission-Effect _ _ _ _ agrees started
    result_end-Effect true (some ref) code vector sent agrees started =
        finish_submission-Effect _ _ _ _ agrees started
    result_end-Effect false ref code vector sent agrees started =
        finish_submission-Effect _ _ _ _ agrees started

    pub after_submit-Effect :
        (answer : SubmitAnswer) (vector sent : ExecutionVector)
        → Agrees env sent a
        → a.submission_started ≡ true
        → Effect env old
            (after_submit env config answers answer a.attempt_id vector sent
              (synced (old ++ a ∷ []))).1
    unfolding after_submit
    after_submit-Effect timed_out vector sent agrees started =
        finish_submission-Effect _ _ _ _ agrees started
    after_submit-Effect (lost ref) vector sent agrees started =
        finish_submission-Effect _ _ _ _ agrees started
    after_submit-Effect SubmitAnswer.interrupted vector sent agrees started =
        let final = started-is_final a.status in
        inr (a, refl, unblocked, inr (sent, refl, agrees, ground arith))
    after_submit-Effect (returned r) vector sent agrees started =
        result_end-Effect r.success r.extrinsic_ref r.error_code vector sent agrees started
