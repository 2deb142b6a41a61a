-- ===== src/Executor/Run/Once.antt =====
-- Every run of the executor stays within its effect
-- (src/misscomputer_subnet/weight_executor.py).
use misscomputer_subnet.Prelude.{
  ◌≡◌, refl, sym, ap, ◌∙◌, ◌⊎◌, inl, inr, Text, text_eq_iff, true, false, [], ◌∷◌, ◌++◌, arith, any,
  is_some, Bool-cases, Result, ok, err, ◌>>◌,
}
use misscomputer_subnet.Executor.Types.{
  ErrorCode, Fault, cancelled, ExecutionVector, AuditStatus, AuditAttempt, Env,
}
use misscomputer_subnet.Executor.Audit.{
  AuditState, Store, blocks, blocking_attempt, start_attempt, mark_submission_started,
}
use misscomputer_subnet.Executor.Audit.Effects.{synced, IsFresh, marked, mark_cases, start_cases}
use misscomputer_subnet.Executor.Vector.Weights.{derive-plan_digest}
use misscomputer_subnet.Executor.Run.Gates.{cases, send_check-looked, prepare-checked}
use misscomputer_subnet.Executor.Outside.{Config, Answers, Report, World, Prepared, SendView}
use misscomputer_subnet.Executor.Stages.{prepare, check_mode, open_store, load_signer, send_check}
use misscomputer_subnet.Executor.Run.{
  with_store, reported, pre_send_failure, after_submit, send, attempt_submission, submit_once,
  execute_weight_plan, run_weight_executor,
}
use misscomputer_subnet.Executor.Run.Effect.{
  Agrees, Effect, pre_send_failure-Effect, after_submit-Effect,
}

module _ (env : Env) (config : Config) (answers : Answers) (old : AuditState) where
  module _ (prepared : Prepared) where
    send_marked :
        (id : Text) (view : SendView) (store after : Store) (u : AuditAttempt)
        → mark_submission_started env answers.mark_answer id view.block answers.mark_time store
          ≡ (ok u, after)
        → send env config answers prepared id view store
          ≡ after_submit env config answers answers.submission id prepared.vector view.vector after
    unfolding send
    send_marked id view store after u h = ground arith

    send_stopped :
        (id : Text) (view : SendView) (store : Store) (e : ErrorCode)
        → (mark_submission_started env answers.mark_answer id view.block answers.mark_time store).0
          ≡ err e
        → ((send env config answers prepared id view store).1.store
            ≡ (mark_submission_started env answers.mark_answer id view.block answers.mark_time
                store).1)
          × ((send env config answers prepared id view store).1.submitted ≡ [])
    unfolding send
    send_stopped id view store e h = ground arith

    send-Effect :
        (a : AuditAttempt) (view : SendView)
        → IsFresh old a
        → Agrees env view.vector a
        → a.status ≡ AuditStatus.in_progress
        → any (blocks a.vector.plan_digest_sha256) old ≡ false
        → Effect env old
            (send env config answers prepared a.attempt_id view (synced (old ++ a ∷ []))).1
    send-Effect a view fresh agrees progress unblocked =
        let m = marked view.block answers.mark_time a in
        elim (mark_cases env answers.mark_answer old a fresh progress view.block
          answers.mark_time) [
            | inl done ↦
                rw
                  (send_marked a.attempt_id view (synced (old ++ a ∷ [])) (synced (old ++ m ∷ [])) m
                    done)
                  (after_submit-Effect env config answers old m fresh progress unblocked
                    answers.submission prepared.vector view.vector agrees refl)
            | inr (e, failed, wrote) ↦
                let (stopped, none_sent) =
                  send_stopped a.attempt_id view (synced (old ++ a ∷ [])) e failed in
                elim wrote [
                  | inl kept ↦
                      inr (a, ap (λ (s : Store). s.disk) stopped ∙ kept, unblocked, inl none_sent)
                  | inr new ↦
                      inr (m, ap (λ (s : Store). s.disk) stopped ∙ new, unblocked, inl none_sent)
                ]
          ]

    -- The look at the chain ends with a vector of the same digests, if the prepared one is of the
    -- prepared plan.
    look-Agrees :
        (a : AuditAttempt) (view : SendView)
        → prepared.vector.plan_digest_sha256 ≡ env.plan_digest prepared.plan
        → a.vector ≡ prepared.vector
        → send_check env config answers prepared ≡ ok view
        → Agrees env view.vector a
    look-Agrees a view of_plan same h =
        let (now, synced', newer, derives, reveal, digest) =
          send_check-looked env config answers prepared view h in
        (
          derive-plan_digest env prepared.plan now config.network config.netuid
                config.validator_hotkey view.vector derives
              ∙ sym of_plan
              ∙ ap (λ (v : ExecutionVector). v.plan_digest_sha256) (sym same),
          (text_eq_iff (env.vector_digest view.vector) (env.vector_digest prepared.vector)).0 digest
              ∙ ap env.vector_digest (sym same),
        )

    attempt_refused :
        (id : Text) (store : Store) (fault : Fault)
        → (load_signer env config answers >> send_check env config answers prepared) ≡ err fault
        → attempt_submission env config answers prepared id store
          ≡ pre_send_failure env config answers id fault store
    unfolding attempt_submission
    attempt_refused id store fault h = ground arith

    attempt_looked :
        (id : Text) (store : Store) (view : SendView)
        → load_signer env config answers ≡ ok tt
        → send_check env config answers prepared ≡ ok view
        → attempt_submission env config answers prepared id store
          ≡ send env config answers prepared id view store
    unfolding attempt_submission
    attempt_looked id store view h k = ground arith

    attempt_submission-Effect :
        (a : AuditAttempt)
        → IsFresh old a
        → prepared.vector.plan_digest_sha256 ≡ env.plan_digest prepared.plan
        → a.vector ≡ prepared.vector
        → a.status ≡ AuditStatus.in_progress
        → any (blocks a.vector.plan_digest_sha256) old ≡ false
        → Effect env old
            (attempt_submission env config answers prepared a.attempt_id (synced (old ++ a ∷ []))).1
    attempt_submission-Effect a fresh of_plan same progress unblocked =
        elim (cases (load_signer env config answers)) [
          | inr (fault, failed) ↦
              rw (attempt_refused a.attempt_id (synced (old ++ a ∷ [])) fault (ground arith))
                (pre_send_failure-Effect env config answers old a fresh progress unblocked fault)
          | inl (t, loaded) ↦ elim (cases (send_check env config answers prepared)) [
            | inr (fault, failed) ↦
                rw (attempt_refused a.attempt_id (synced (old ++ a ∷ [])) fault (ground arith))
                  (pre_send_failure-Effect env config answers old a fresh progress unblocked fault)
            | inl (view, looked) ↦
                rw (attempt_looked a.attempt_id (synced (old ++ a ∷ [])) view (ground arith) looked)
                  (send-Effect a view fresh (look-Agrees a view of_plan same looked) progress
                    unblocked)
          ]
        ]

    -- a start that returns leads to the attempt, and one that raises ends the run
    submit_started :
        (a : AuditAttempt) (after : Store)
        → is_some (blocking_attempt (env.plan_digest prepared.plan) old) ≡ false
        → start_attempt env answers.start_answer prepared.vector prepared.snapshot.block
            answers.start_time answers.nonce
            (synced old)
          ≡ (ok a, after)
        → submit_once env config answers prepared (synced old)
          ≡ attempt_submission env config answers prepared a.attempt_id after
    unfolding submit_once
    submit_started a after free h = ground arith

    submit_stopped :
        (e : ErrorCode)
        → is_some (blocking_attempt (env.plan_digest prepared.plan) old) ≡ false
        → (start_attempt env answers.start_answer prepared.vector prepared.snapshot.block
            answers.start_time answers.nonce
            (synced old)).0
          ≡ err e
        → ((submit_once env config answers prepared (synced old)).1.store
            ≡ (start_attempt env answers.start_answer prepared.vector prepared.snapshot.block
                answers.start_time answers.nonce
                (synced old)).1)
          × ((submit_once env config answers prepared (synced old)).1.submitted ≡ [])
    unfolding submit_once
    submit_stopped e free h = ground arith

    submit_blocked :
        is_some (blocking_attempt (env.plan_digest prepared.plan) old) ≡ true
        → Effect env old (submit_once env config answers prepared (synced old)).1
    unfolding submit_once
    submit_blocked taken = inl (ground arith)

    submit_once-Effect :
        prepared.vector.plan_digest_sha256 ≡ env.plan_digest prepared.plan
        → Effect env old (submit_once env config answers prepared (synced old)).1
    submit_once-Effect of_plan =
        elim (Bool-cases (is_some (blocking_attempt (env.plan_digest prepared.plan) old))) [
          | inl taken ↦ submit_blocked taken
          | inr free ↦
              elim (start_cases env answers.start_answer prepared.vector prepared.snapshot.block
                answers.start_time answers.nonce old) [
                  | inl (a, started, fresh, (same, progress, unstarted, unblocked)) ↦
                      rw (submit_started a (synced (old ++ a ∷ [])) free started) (
                        attempt_submission-Effect a fresh of_plan same progress (rw same unblocked))
                  | inr (e, failed, wrote) ↦
                      let (stopped, none_sent) = submit_stopped e free failed in
                      elim wrote [
                        | inl kept ↦ inl (ap (λ (s : Store). s.disk) stopped ∙ kept, none_sent)
                        | inr (a, new, (same, progress, unstarted, unblocked)) ↦ inr (
                          a,
                          ap (λ (s : Store). s.disk) stopped ∙ new,
                          rw same unblocked,
                          inl none_sent,
                        )
                      ]
                ]
        ]

  open_store-synced :
      (store : Store) → open_store env config answers old ≡ ok store → store ≡ synced old
  unfolding open_store
  open_store-synced store h = ground arith

  with_store_opened :
      (prepared : Prepared) (store : Store)
      → open_store env config answers old ≡ ok store
      → with_store env config answers prepared old ≡ submit_once env config answers prepared store
  unfolding with_store
  with_store_opened prepared store h = ground arith

  with_store_refused :
      (prepared : Prepared) (e : ErrorCode)
      → open_store env config answers old ≡ err e
      → Effect env old (with_store env config answers prepared old).1
  unfolding with_store
  with_store_refused prepared e h = inl (ground arith)

  with_store-Effect :
      (prepared : Prepared)
      → prepared.vector.plan_digest_sha256 ≡ env.plan_digest prepared.plan
      → Effect env old (with_store env config answers prepared old).1
  with_store-Effect prepared of_plan = go (open_store env config answers old) refl
    where
      go :
          (r : Result ErrorCode Store)
          → open_store env config answers old ≡ r
          → Effect env old (with_store env config answers prepared old).1
      go (err e) h = with_store_refused prepared e h
      go (ok store) h =
          rw (with_store_opened prepared store h, open_store-synced store h)
            (submit_once-Effect prepared of_plan)

  prepare-of_plan :
      (prepared : Prepared)
      → prepare env config answers ≡ ok prepared
      → prepared.vector.plan_digest_sha256 ≡ env.plan_digest prepared.plan
  prepare-of_plan prepared h =
      let (file, synced', gates, derives) = prepare-checked env config answers prepared h in
      derive-plan_digest env prepared.plan prepared.snapshot config.network config.netuid
        config.validator_hotkey prepared.vector derives

  execute_stored :
      (prepared : Prepared)
      → prepare env config answers ≡ ok prepared
      → config.execute ≡ true
      → check_mode env config answers ≡ ok tt
      → execute_weight_plan env config answers old ≡ with_store env config answers prepared old
  unfolding execute_weight_plan
  execute_stored prepared done wet mode = ground arith

  execute_unprepared :
      (fault : Fault)
      → prepare env config answers ≡ err fault
      → Effect env old (execute_weight_plan env config answers old).1
  unfolding execute_weight_plan
  execute_unprepared fault h = inl (ground arith)

  -- how a run that does not get to its store ends
  execute_idle :
      (prepared : Prepared) (fault : Fault)
      → prepare env config answers ≡ ok prepared
      → (config.execute ≡ false) ⊎ (check_mode env config answers ≡ err fault)
      → Effect env old (execute_weight_plan env config answers old).1
  unfolding execute_weight_plan
  execute_idle prepared fault done (inl dry) = inl (ground arith)
  execute_idle prepared fault done (inr failed) = elim (Bool-cases config.execute) [
    | inl wet ↦ inl (ground arith)
    | inr dry ↦ inl (ground arith)
  ]

  execute-Effect : Effect env old (execute_weight_plan env config answers old).1
  execute-Effect = elim (cases (prepare env config answers)) [
    | inr (fault, failed) ↦ execute_unprepared fault failed
    | inl (prepared, done) ↦ elim (Bool-cases config.execute) [
      | inr dry ↦ execute_idle prepared cancelled done (inl dry)
      | inl wet ↦ elim (cases (check_mode env config answers)) [
        | inr (fault, failed) ↦ execute_idle prepared fault done (inr failed)
        | inl (t, mode) ↦
            rw (execute_stored prepared done wet (ground arith))
              (with_store-Effect prepared (prepare-of_plan prepared done))
      ]
    ]
  ]

  reported_world : (r : Result Fault Report × World) → (reported env config answers r).1 ≡ r.1
  reported_world (err fault, world) = refl
  reported_world (ok report, world) = refl

  -- Whatever the outside answers, one run leaves the audit state file as it was and submits
  -- nothing; or it appends one attempt, of a plan that no earlier attempt blocks, and has submitted
  -- nothing, or one vector with the plan and the digest of that attempt's, and then the attempt
  -- blocks its plan.
  pub run_weight_executor-Effect : Effect env old (run_weight_executor env config answers old).1
  unfolding run_weight_executor
  run_weight_executor-Effect =
      rw (reported_world (execute_weight_plan env config answers old)) execute-Effect
