-- ===== src/Executor/Run/Confirmed.antt =====
-- What a confirmed report of the executor rests on
-- (src/misscomputer_subnet/weight_executor.py).
use misscomputer_subnet.Prelude.{
  ◌≡◌, refl, inl, inr, Text, Bool, true, false, Option, none, some, [], ◌∷◌, arith, is_some,
  if◌then◌else◌, Bool-cases, Result, ok, err, ◌>>◌, In, ◌⊎◌,
}
use misscomputer_subnet.Executor.Types.{
  ErrorCode, Fault, failed_with, cancelled, idempotency_blocked, ExecutionVector, AuditStatus,
  ReceiptOutcome, AuditReceipt, AuditAttempt, Env,
}
use misscomputer_subnet.Executor.Audit.{
  AuditState, Store, valid_receipt, blocking_attempt, start_attempt, mark_submission_started,
  finish_attempt,
}
use misscomputer_subnet.Executor.Audit.Recorded.{finish_attempt-Recorded}
use misscomputer_subnet.Executor.Outside.{
  Config, Answers, Report, validated, confirmed, World, Prepared, SendView, SubmitAnswer, returned,
  timed_out, lost,
}
use misscomputer_subnet.Executor.Stages.{prepare, check_mode, open_store, load_signer, send_check}
use misscomputer_subnet.Executor.Run.{
  idle, closed, finish_submission, result_end, after_submit, pre_send_failure, send,
  attempt_submission, submit_once, with_store, execute_weight_plan, run_weight_executor, reported,
}

module _ (env : Env) (config : Config) (answers : Answers) (v : ExecutionVector) (ref : Text) where
  -- A vector was submitted, and the run holds a confirmed receipt with the reference.
  abbrev pub Confirmed : World → Type 0
  Confirmed w =
      (sent : ExecutionVector) × (w.submitted ≡ sent ∷ [])
      × (w.receipt
          ≡ some (record {
            outcome = ReceiptOutcome.confirmed;
            extrinsic_ref = some ref;
            error_code = none;
          }))

  abbrev confirmed_receipt : Text → AuditReceipt
  confirmed_receipt r = record {
    outcome = ReceiptOutcome.confirmed;
    extrinsic_ref = some r;
    error_code = none;
  }

  -- the last write of a confirmed run
  abbrev finish : Text → Text → Store → Result ErrorCode AuditAttempt × Store
  finish r id store =
      finish_attempt env answers.finish_answer id AuditStatus.confirmed (confirmed_receipt r)
        answers.finish_time store

  -- an attempt of the file is confirmed by the receipt
  abbrev pub IsRecorded : World → Type 0
  IsRecorded w =
      (a : AuditAttempt) × In a w.store.disk
      × (a.status ≡ AuditStatus.confirmed)
      × (a.receipt
          ≡ some (record {
            outcome = ReceiptOutcome.confirmed;
            extrinsic_ref = some ref;
            error_code = none;
          }))

  abbrev IsBacked : World → Type 0
  IsBacked w = Confirmed w × ((w.audit_failed ≡ true) ⊎ IsRecorded w)

  -- an ending that raises never becomes a report
  finish_submission-raises :
      (id : Text) (w : ExecutionVector) (status : AuditStatus) (receipt : AuditReceipt)
      (fault : Fault) (store : Store)
      → (finish_submission env config answers id w status receipt (err fault) store).0
        ≡ ok (confirmed v ref)
      → IsBacked (finish_submission env config answers id w status receipt (err fault) store).1
  unfolding finish_submission
  finish_submission-raises id w status receipt fault store h =
      elim (Bool-cases (valid_receipt receipt)) [
        | inl valid ↦ absurd (ground arith)
        | inr bad ↦ absurd (ground arith)
      ]

  confirming :
      (r id : Text) (code : Option Text) (u w : ExecutionVector) (store : Store)
      → (result_end env config answers true (some r) code id u w store).0 ≡ ok (confirmed v ref)
      → IsBacked (result_end env config answers true (some r) code id u w store).1
  unfolding finish_submission result_end
  confirming r id code u w store h = elim (Bool-cases (valid_receipt (confirmed_receipt r))) [
    | inr bad ↦ absurd (ground arith)
    | inl good ↦ go good (finish r id store).0 refl
  ]
    where
      go :
          valid_receipt (confirmed_receipt r) ≡ true
          → (f : Result ErrorCode AuditAttempt) → (finish r id store).0 ≡ f
          → IsBacked (result_end env config answers true (some r) code id u w store).1
      go good (err e) k = ((w, ground arith, ground arith), inl (ground arith))
      go good (ok a) k =
          let same : r ≡ ref = ground arith in
          let (b, place, status, receipt) =
            finish_attempt-Recorded env answers.finish_answer id AuditStatus.confirmed
              (confirmed_receipt r) answers.finish_time a store k in
          let file : (result_end env config answers true (some r) code id u w store).1.store.disk
              ≡ (finish r id store).1.disk =
            ground arith in
          ((w, ground arith, ground arith), inr (b, rw file place, status, rw same at receipt))

  result_end-Confirmed :
      (success : Bool) (r code : Option Text) (id : Text) (u w : ExecutionVector) (store : Store)
      → (result_end env config answers success r code id u w store).0 ≡ ok (confirmed v ref)
      → IsBacked (result_end env config answers success r code id u w store).1
  unfolding result_end
  result_end-Confirmed true none code id u w store h = finish_submission-raises _ _ _ _ _ _ h
  result_end-Confirmed true (some r) code id u w store h = confirming r id code u w store h
  result_end-Confirmed false r code id u w store h = finish_submission-raises _ _ _ _ _ _ h

  after_submit-Confirmed :
      (answer : SubmitAnswer) (id : Text) (u w : ExecutionVector) (store : Store)
      → (after_submit env config answers answer id u w store).0 ≡ ok (confirmed v ref)
      → IsBacked (after_submit env config answers answer id u w store).1
  unfolding after_submit
  after_submit-Confirmed timed_out id u w store h = finish_submission-raises _ _ _ _ _ _ h
  after_submit-Confirmed (lost r) id u w store h = finish_submission-raises _ _ _ _ _ _ h
  after_submit-Confirmed SubmitAnswer.interrupted id u w store h = absurd (ground arith)
  after_submit-Confirmed (returned r) id u w store h = result_end-Confirmed _ _ _ _ _ _ _ h

  pre_send_failure-raises :
      (id : Text) (fault : Fault) (store : Store)
      → (pre_send_failure env config answers id fault store).0 ≡ ok (confirmed v ref)
      → IsBacked (pre_send_failure env config answers id fault store).1
  unfolding pre_send_failure
  pre_send_failure-raises id cancelled store h = absurd (ground arith)
  pre_send_failure-raises id (failed_with c) store h = absurd (ground arith)

  send-Confirmed :
      (p : Prepared) (id : Text) (view : SendView) (store : Store)
      → (send env config answers p id view store).0 ≡ ok (confirmed v ref)
      → IsBacked (send env config answers p id view store).1
  unfolding send
  send-Confirmed p id view store h =
      go (mark_submission_started env answers.mark_answer id view.block answers.mark_time store).0
        (mark_submission_started env answers.mark_answer id view.block answers.mark_time store).1 h
    where
      go :
          (r : Result ErrorCode AuditAttempt) (after : Store)
          → (elim r as (λ _. Result Fault Report × World) [
            | err e ↦ (err (failed_with e), idle env config answers after)
            | ok _ ↦
                after_submit env config answers answers.submission id p.vector view.vector after
          ]).0
            ≡ ok (confirmed v ref)
          → IsBacked
              (elim r as (λ _. Result Fault Report × World) [
                | err e ↦ (err (failed_with e), idle env config answers after)
                | ok _ ↦
                    after_submit env config answers answers.submission id p.vector view.vector after
              ]).1
      go (err e) after h = absurd (ground arith)
      go (ok a) after h = after_submit-Confirmed _ _ _ _ _ h

  attempt_submission-Confirmed :
      (p : Prepared) (id : Text) (store : Store)
      → (attempt_submission env config answers p id store).0 ≡ ok (confirmed v ref)
      → IsBacked (attempt_submission env config answers p id store).1
  unfolding attempt_submission
  attempt_submission-Confirmed p id store h =
      go (load_signer env config answers >> send_check env config answers p) h
    where
      go :
          (r : Result Fault SendView)
          → (elim r as (λ _. Result Fault Report × World) [
            | err fault ↦ pre_send_failure env config answers id fault store
            | ok view ↦ send env config answers p id view store
          ]).0
            ≡ ok (confirmed v ref)
          → IsBacked
              (elim r as (λ _. Result Fault Report × World) [
                | err fault ↦ pre_send_failure env config answers id fault store
                | ok view ↦ send env config answers p id view store
              ]).1
      go (err fault) h = pre_send_failure-raises id fault store h
      go (ok view) h = send-Confirmed p id view store h

  submit_once-Confirmed :
      (p : Prepared) (store : Store)
      → (submit_once env config answers p store).0 ≡ ok (confirmed v ref)
      → IsBacked (submit_once env config answers p store).1
  unfolding submit_once
  submit_once-Confirmed p store h =
      go (is_some (blocking_attempt (env.plan_digest p.plan) store.memory))
        (start_attempt env answers.start_answer p.vector p.snapshot.block answers.start_time
          answers.nonce store).0
        (start_attempt env answers.start_answer p.vector p.snapshot.block answers.start_time
          answers.nonce store).1
        h
    where
      started : Result ErrorCode AuditAttempt → Store → Result Fault Report × World
      started r after = elim r [
        | err e ↦ (err (failed_with e), idle env config answers after)
        | ok a ↦ attempt_submission env config answers p a.attempt_id after
      ]

      chosen : Bool → Result ErrorCode AuditAttempt → Store → Result Fault Report × World
      chosen blocked r after =
          if blocked
          then (err (failed_with idempotency_blocked), idle env config answers store)
          else started r after

      go :
          (blocked : Bool) (r : Result ErrorCode AuditAttempt) (after : Store)
          → (chosen blocked r after).0 ≡ ok (confirmed v ref)
          → IsBacked (chosen blocked r after).1
      go true r after h = absurd (ground arith)
      go false (err e) after h = absurd (ground arith)
      go false (ok a) after h = attempt_submission-Confirmed p a.attempt_id after h

  with_store-Confirmed :
      (p : Prepared) (disk : AuditState)
      → (with_store env config answers p disk).0 ≡ ok (confirmed v ref)
      → IsBacked (with_store env config answers p disk).1
  unfolding with_store
  with_store-Confirmed p disk h = go (open_store env config answers disk) h
    where
      opened : Result ErrorCode Store → Result Fault Report × World
      opened r = elim r [
        | err e ↦ (err (failed_with e), idle env config answers (closed env config answers disk))
        | ok store ↦ submit_once env config answers p store
      ]

      go :
          (r : Result ErrorCode Store) → (opened r).0 ≡ ok (confirmed v ref) → IsBacked (opened r).1
      go (err e) h = absurd (ground arith)
      go (ok store) h = submit_once-Confirmed p store h

  execute-Confirmed :
      (disk : AuditState)
      → (execute_weight_plan env config answers disk).0 ≡ ok (confirmed v ref)
      → IsBacked (execute_weight_plan env config answers disk).1
  unfolding execute_weight_plan
  execute-Confirmed disk h =
      go (prepare env config answers) config.execute (check_mode env config answers) h
    where
      unsent : Result Fault Report → Result Fault Report × World
      unsent r = (r, idle env config answers (closed env config answers disk))

      moded : Prepared → Result Fault (Unit {0}) → Result Fault Report × World
      moded p mode = elim mode [
        | err fault ↦ unsent (err fault)
        | ok _ ↦ with_store env config answers p disk
      ]

      chosen : Result Fault Prepared → Bool → Result Fault (Unit {0}) → Result Fault Report × World
      chosen r execute mode = elim r [
        | err fault ↦ unsent (err fault)
        | ok p ↦ if execute then moded p mode else unsent (ok (validated p.vector))
      ]

      go :
          (r : Result Fault Prepared) (execute : Bool) (mode : Result Fault (Unit {0}))
          → (chosen r execute mode).0 ≡ ok (confirmed v ref)
          → IsBacked (chosen r execute mode).1
      go (err fault) execute mode h = absurd (ground arith)
      go (ok p) false mode h = absurd (ground arith)
      go (ok p) true (err fault) h = absurd (ground arith)
      go (ok p) true (ok _) h = with_store-Confirmed p disk h

  -- what is reported is what the run ended with, unless the last audit write failed
  reported-ok :
      (r : Result Fault Report × World)
      → (reported env config answers r).0 ≡ ok (confirmed v ref)
      → (r.0 ≡ ok (confirmed v ref))
        × (r.1.audit_failed ≡ false)
        × ((reported env config answers r).1 ≡ r.1)
  reported-ok (err fault, world) h = absurd (ground arith)
  reported-ok (ok report, world) h = (ground arith, ground arith, refl)

  -- If a run reports a confirmation, it has submitted one vector, holds the confirmed receipt with
  -- the reported reference, the last write of the audit state did not fail, and the state file
  -- holds an attempt that is confirmed by that receipt.
  pub confirmed_submitted :
      (disk : AuditState)
      → (run_weight_executor env config answers disk).0 ≡ ok (confirmed v ref)
      → Confirmed (run_weight_executor env config answers disk).1
        × ((run_weight_executor env config answers disk).1.audit_failed ≡ false)
        × IsRecorded (run_weight_executor env config answers disk).1
  unfolding run_weight_executor
  confirmed_submitted disk h =
      let (ended, written, same) = reported-ok (execute_weight_plan env config answers disk) h in
      let (held, backed) = execute-Confirmed disk ended in
      let recorded : IsRecorded (execute_weight_plan env config answers disk).1 = elim backed [
        | inl failed ↦ absurd (ground arith)
        | inr file ↦ file
      ] in
      rw same (held, written, recorded)
