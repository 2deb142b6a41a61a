-- ===== src/Reconcile/Retry.antt =====
-- What a report says about trying again (src/misscomputer_subnet/weight_reconciliation.py), and what
-- the executor does (src/misscomputer_subnet/weight_executor.py).
use misscomputer_subnet.Prelude.{
  ℕ, ◌≡◌, refl, ap, ◌∙◌, ◌⊎◌, inl, inr, Text, text_eq_refl, Bool, true, false, not, ◌&&◌, Option,
  none, some, is_some, List, [], ◌∷◌, In, here, there, any-In, find, if◌then◌else◌, Bool-cases, ok,
  err, arith,
}
use misscomputer_subnet.Executor.Types.{
  idempotency_blocked, ExecutionVector, AuditStatus, AuditAttempt, Env,
}
use misscomputer_subnet.Executor.Audit.{
  AuditState, PersistAnswer, Store, is_final, blocks, blocking_attempt, has_id, start_attempt,
}
use misscomputer_subnet.Executor.Audit.Effects.{is_some-blocking_attempt}
use misscomputer_subnet.Reconcile.Types.{
  rejected, attempt_not_found, Raises, CallAnswer, ChainAnswers, Arguments,
  WeightReconciliationReport, UidWeight, eligible_pre_send, blocked_requires_operator,
}
use misscomputer_subnet.Reconcile.{
  Evidence, Observation, is_failed, is_unresolved, last_with, found_or, always, select_attempt,
  retry_disposition_of, report_of, observe, conclude, with_chain, with_attempt,
  reconcile_weight_attempt,
}

find-In :
    (p : AuditAttempt → Bool) (state : AuditState) (a : AuditAttempt)
    → find p state ≡ some a
    → In a state
find-In p [] a h = absurd (ground arith)
find-In p (x ∷ xs) a h = elim (Bool-cases (p x)) [
  | inl found ↦ let same : x ≡ a = ground arith in rw (← same) here
  | inr other ↦ there (find-In p xs a (ground arith))
]

last_or-In :
    (p : AuditAttempt → Bool) (x : AuditAttempt) (xs : AuditState) (a : AuditAttempt)
    (later : Option AuditAttempt)
    → (later ≡ some a → In a xs)
    → (elim later [ some found ↦ some found | none ↦ if p x then some x else none ]) ≡ some a
    → In a (x ∷ xs)
last_or-In p x xs a (some b) more h = there (more h)
last_or-In p x xs a none more h = let same : x ≡ a = ground arith in rw (← same) here

last_with-In :
    (p : AuditAttempt → Bool) (state : AuditState) (a : AuditAttempt)
    → last_with p state ≡ some a
    → In a state
last_with-In p [] a h = absurd (ground arith)
last_with-In p (x ∷ xs) a h = last_or-In p x xs a (last_with p xs) (last_with-In p xs a) h

found_or-In :
    (state : AuditState) (a : AuditAttempt) (other : Raises AuditAttempt) (o : Option AuditAttempt)
    → (other ≡ ok a → In a state)
    → (o ≡ some a → In a state)
    → found_or other o ≡ ok a
    → In a state
found_or-In state a other none f g h = f h
found_or-In state a other (some b) f g h = g (ground arith)

select_attempt-In :
    (state : AuditState) (attempt_id : Option Text) (a : AuditAttempt)
    → select_attempt state attempt_id ≡ ok a
    → In a state
unfolding select_attempt
select_attempt-In state (some attempt_id) a h =
    found_or-In state a (err (rejected attempt_not_found)) (find (has_id attempt_id) state)
      (λ e. absurd (ground arith)) (find-In (has_id attempt_id) state a) h
select_attempt-In state none a h =
    found_or-In state a (found_or (err (rejected attempt_not_found)) (last_with always state))
      (last_with is_unresolved state)
      (found_or-In state a (err (rejected attempt_not_found)) (last_with always state)
        (λ e. absurd (ground arith)) (last_with-In always state a))
      (last_with-In is_unresolved state a) h

module _ (is_close : ℕ → ℕ → ℕ → Bool) (row_digest : List UidWeight → Text) (args : Arguments)
    (answers : ChainAnswers) where
  conclude-reported :
      (attempt : AuditAttempt) (close_cancelled : Bool) (o : Observation is_close row_digest)
      (report : WeightReconciliationReport)
      → (conclude is_close row_digest args attempt close_cancelled o).outcome ≡ ok report
      → (e : Evidence) × (report ≡ report_of is_close row_digest args attempt e)
  conclude-reported attempt true o report h = absurd (ground arith)
  conclude-reported attempt false o report h = go o.seen h
    where
      go :
          (r : Raises Evidence)
          → (elim r as (λ _. Raises WeightReconciliationReport) [
            | err e ↦ err e
            | ok e ↦ ok (report_of is_close row_digest args attempt e)
          ])
            ≡ ok report
          → (e : Evidence) × (report ≡ report_of is_close row_digest args attempt e)
      go (err e) h = absurd (ground arith)
      go (ok e) h = (e, ground arith)

  with_chain-reported :
      (attempt : AuditAttempt) (opening : CallAnswer (Unit {0}))
      (report : WeightReconciliationReport)
      → (with_chain is_close row_digest args answers attempt opening).outcome ≡ ok report
      → (e : Evidence) × (report ≡ report_of is_close row_digest args attempt e)
  with_chain-reported attempt CallAnswer.fails report h = absurd (ground arith)
  with_chain-reported attempt CallAnswer.cancels report h = absurd (ground arith)
  with_chain-reported attempt (CallAnswer.returns _) report h =
      conclude-reported attempt answers.close_cancelled
        (observe is_close row_digest args answers attempt answers.snapshot) report h

  with_attempt-reported :
      (r : Raises AuditAttempt) (report : WeightReconciliationReport)
      → (with_attempt is_close row_digest args answers r).outcome ≡ ok report
      → (a : AuditAttempt) × (r ≡ ok a)
        × ((e : Evidence) × (report ≡ report_of is_close row_digest args a e))
  with_attempt-reported (err e) report h = absurd (ground arith)
  with_attempt-reported (ok a) report h =
      (a, refl, with_chain-reported a answers.opening report (ground arith))

  pub reconcile-reported :
      (state : AuditState) (report : WeightReconciliationReport)
      → answers.audit_state ≡ ok state
      → (reconcile_weight_attempt is_close row_digest args answers).outcome ≡ ok report
      → (a : AuditAttempt) × (select_attempt state args.attempt_id ≡ ok a)
        × ((e : Evidence) × (report ≡ report_of is_close row_digest args a e))
  unfolding reconcile_weight_attempt
  reconcile-reported state report l h =
      with_attempt-reported (select_attempt state args.attempt_id) report (rw l at h)

retry-eligible :
    (status : AuditStatus) (started : Bool)
    → (is_failed status && not started) ≡ not (is_final status started)
retry-eligible AuditStatus.in_progress started = refl
retry-eligible AuditStatus.confirmed started = refl
retry-eligible AuditStatus.ambiguous started = refl
retry-eligible AuditStatus.failed true = refl
retry-eligible AuditStatus.failed false = refl

start_attempt-blocked :
    (env : Env) (answer : PersistAnswer) (vector : ExecutionVector) (preflight_block : ℕ)
    (timestamp nonce : Text) (a : AuditAttempt) (store : Store)
    → In a store.memory
    → is_final a.status a.submission_started ≡ true
    → start_attempt env answer
        (record vector { plan_digest_sha256 = a.vector.plan_digest_sha256 })
        preflight_block
        timestamp
        nonce
        store
      ≡ (err idempotency_blocked, store)
unfolding start_attempt
start_attempt-blocked env answer vector preflight_block timestamp nonce a store m final =
    let plan = a.vector.plan_digest_sha256 in
    let blocked : blocks plan a ≡ true = ground (arith, text_eq_refl plan) in
    let found : is_some (blocking_attempt plan store.memory) ≡ true =
      is_some-blocking_attempt plan store.memory ∙ any-In (blocks plan) m blocked in
    rw found refl

-- A report is about an attempt of the audit state. It either calls the attempt eligible for another
-- try, and then the attempt does not forbid one of its plan; or it calls it blocked, and then the
-- executor's store with that state refuses to start any attempt of the same plan, and is unchanged.
pub reconcile-start_attempt :
    (is_close : ℕ → ℕ → ℕ → Bool) (row_digest : List UidWeight → Text) (args : Arguments)
    (answers : ChainAnswers) (state : AuditState) (report : WeightReconciliationReport) (env : Env)
    (answer : PersistAnswer) (vector : ExecutionVector) (preflight_block : ℕ)
    (timestamp nonce : Text) (store : Store)
    → answers.audit_state ≡ ok state
    → (reconcile_weight_attempt is_close row_digest args answers).outcome ≡ ok report
    → store.memory ≡ state
    → (a : AuditAttempt) × In a state
      × (report.attempt_id ≡ a.attempt_id)
      × (((report.retry_disposition ≡ eligible_pre_send)
            × (blocks a.vector.plan_digest_sha256 a ≡ false))
          ⊎ ((report.retry_disposition ≡ blocked_requires_operator)
              × (start_attempt env answer
                    (record vector { plan_digest_sha256 = a.vector.plan_digest_sha256 })
                    preflight_block
                    timestamp
                    nonce
                    store
                  ≡ (err idempotency_blocked, store))))
unfolding retry_disposition_of
reconcile-start_attempt is_close row_digest args answers state report env answer vector
      preflight_block timestamp nonce store l h s =
    let (a, selected, (e, same)) =
      reconcile-reported is_close row_digest args answers state report l h in
    let m = select_attempt-In state args.attempt_id a selected in
    (
      a,
      m,
      ap (λ (r : WeightReconciliationReport). r.attempt_id) same,
      elim (Bool-cases (is_final a.status a.submission_started)) [
        | inr open_again ↦ inl (
          ap (λ (r : WeightReconciliationReport). r.retry_disposition) same
              ∙ ground (arith, retry-eligible a.status a.submission_started),
          ground arith,
        )
        | inl final ↦ inr (
          ap (λ (r : WeightReconciliationReport). r.retry_disposition) same
              ∙ ground (arith, retry-eligible a.status a.submission_started),
          start_attempt-blocked env answer vector preflight_block timestamp nonce a store (rw s m)
              final,
        )
      ],
    )
