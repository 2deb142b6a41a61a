-- ===== src/Reconcile.antt =====
-- The read-only report on a durable execution attempt
-- (src/misscomputer_subnet/weight_reconciliation.py), over the audit state of Executor/Audit.
pub mod Types
pub mod Row
pub mod Retry
pub mod Lifecycle
mod Tests
use misscomputer_subnet.Prelude.{
  ℕ, Text, text_eq, Bool, true, false, not, ◌&&◌, ◌||◌, Option, none, some, List, [], ◌∷◌, ◌++◌,
  ltb, ◌==◌, all, any, map, find, distinct, length, if◌then◌else◌, Result, ok, err,
}
use misscomputer_subnet.Prelude.Sorting.{sort}
use misscomputer_subnet.Chain.{NeuronRecord, MetagraphSnapshot, by_hotkey}
use misscomputer_subnet.Executor.Types.{ExecutionWeight, AuditStatus, AuditAttempt}
use misscomputer_subnet.Executor.Audit.{AuditState, has_id, is_in_progress}
use misscomputer_subnet.Reconcile.Types.{
  ReconciliationCode, audit_state_unavailable, audit_state_changed, audit_state_invalid,
  attempt_not_found, audit_identity_mismatch, chain_evidence_unavailable, chain_evidence_invalid,
  ReportFault, rejected, cancelled, Raises, CallAnswer, returns, fails, cancels, UidWeight,
  ChainAnswers, ChainCall, open_call, sync_call, weights_call, close_call, EvidenceRelation,
  consistent, different, unavailable, IdentityStatus, exact, changed, validator_missing,
  RetryDisposition, eligible_pre_send, blocked_requires_operator, Conclusion, never_started,
  finalized_submission, not_proof_of_inclusion, may_be_overwritten, outcome_unresolved,
  WeightReconciliationReport, Arguments, ReportRun,
}
use misscomputer_subnet.Reconcile.Row.{
  put, put_all, expected_row, weight_at, has_uid, same_uids, close_at, row_relation, uid_before,
  digest_of,
}

abbrev pub is_failed : AuditStatus → Bool
is_failed AuditStatus.failed = true
is_failed _ = false

abbrev pub is_confirmed : AuditStatus → Bool
is_confirmed AuditStatus.confirmed = true
is_confirmed _ = false

abbrev is_ambiguous : AuditStatus → Bool
is_ambiguous AuditStatus.ambiguous = true
is_ambiguous _ = false

abbrev pub is_unresolved : AuditAttempt → Bool
is_unresolved a =
    is_in_progress a.status || is_ambiguous a.status || (is_failed a.status && a.submission_started)

-- the first element with `p` of `reversed(xs)`
abbrev pub last_with {ℓ} : {A : Type ℓ} → (A → Bool) → List A → Option A
last_with p [] = none
last_with p (a ∷ rest) = elim (last_with p rest) [
  | some found ↦ some found
  | none ↦ if p a then some a else none
]

abbrev always : AuditAttempt → Bool
always a = true

abbrev pub found_or : Raises AuditAttempt → Option AuditAttempt → Raises AuditAttempt
found_or other none = other
found_or other (some a) = ok a

-- `_select_attempt`
unfoldable pub select_attempt : AuditState → Option Text → Raises AuditAttempt
select_attempt state (some attempt_id) =
    found_or (err (rejected attempt_not_found)) (find (has_id attempt_id) state)
select_attempt state none =
    found_or (found_or (err (rejected attempt_not_found)) (last_with always state))
      (last_with is_unresolved state)

abbrev is_current : Option NeuronRecord → ExecutionWeight → Bool
is_current none w = false
is_current (some n) w = n.active && n.uid == w.uid

abbrev neuron_of : MetagraphSnapshot → Text → Option NeuronRecord
neuron_of snapshot hotkey =
    last_with (λ (n : NeuronRecord). text_eq n.hotkey hotkey) snapshot.neurons

-- `_target_identity_status`
unfoldable pub target_identity_status : AuditAttempt → MetagraphSnapshot → Option ℕ → IdentityStatus
target_identity_status attempt snapshot none = validator_missing
target_identity_status attempt snapshot (some uid) =
    if all (λ (w : ExecutionWeight). is_current (neuron_of snapshot w.hotkey) w)
      attempt.vector.weights
    then exact
    else changed

abbrev pub permitted_uid : Option NeuronRecord → Option ℕ
permitted_uid none = none
permitted_uid (some n) = if n.active && n.validator_permit then some n.uid else none

abbrev pub is_ambiguous_view : MetagraphSnapshot → Bool
is_ambiguous_view s =
    not (distinct text_eq (map (λ (n : NeuronRecord). n.hotkey) s.neurons))
    || not (distinct ◌==◌ (map (λ (n : NeuronRecord). n.uid) s.neurons))

unfoldable pub retry_disposition_of : AuditAttempt → RetryDisposition
retry_disposition_of a =
    if is_failed a.status && not a.submission_started
    then eligible_pre_send
    else blocked_requires_operator

abbrev conclusion_from : EvidenceRelation → Conclusion
conclusion_from consistent = not_proof_of_inclusion
conclusion_from different = may_be_overwritten
conclusion_from unavailable = outcome_unresolved

unfoldable pub conclusion_of : AuditAttempt → EvidenceRelation → Conclusion
conclusion_of a relation =
    if is_failed a.status && not a.submission_started
    then never_started
    else if is_confirmed a.status
    then finalized_submission
    else conclusion_from relation

unfoldable pub alert_of : AuditAttempt → Bool
alert_of a = not (is_failed a.status && not a.submission_started) && not (is_confirmed a.status)

-- what the `try` block leaves
pub record Evidence : Type 0 where
  pub block : ℕ
  pub validator_uid : Option ℕ
  pub observed : Option (List UidWeight)
  pub relation : EvidenceRelation
  pub identity_status : IdentityStatus

-- `row_digest` is the SHA-256 of the canonical JSON of a row that is sorted by UID.
module _ (is_close : ℕ → ℕ → ℕ → Bool) (row_digest : List UidWeight → Text) where
  abbrev pub evidence_without_row : AuditAttempt → MetagraphSnapshot → Evidence
  evidence_without_row attempt snapshot = record {
    block = snapshot.block;
    validator_uid = none;
    observed = none;
    relation = unavailable;
    identity_status = target_identity_status attempt snapshot none;
  }

  abbrev pub evidence_with_row : AuditAttempt → MetagraphSnapshot → ℕ → List UidWeight → Evidence
  evidence_with_row attempt snapshot uid row = record {
    block = snapshot.block;
    validator_uid = some uid;
    observed = some row;
    relation = row_relation is_close (expected_row attempt) row;
    identity_status = target_identity_status attempt snapshot (some uid);
  }

  -- the outcome of the `try` block, and its calls after `sync`
  pub record Observation : Type 0 where
    pub seen : Raises Evidence
    pub reads : List ChainCall

  abbrev pub observe_row :
      AuditAttempt → MetagraphSnapshot → ℕ → CallAnswer (List UidWeight) → Observation
  observe_row attempt snapshot uid (returns row) = record {
    seen = ok (evidence_with_row attempt snapshot uid row);
    reads = weights_call ∷ [];
  }
  observe_row attempt snapshot uid fails = record {
    seen = err (rejected chain_evidence_unavailable);
    reads = weights_call ∷ [];
  }
  observe_row attempt snapshot uid cancels = record {
    seen = err cancelled;
    reads = weights_call ∷ [];
  }

  abbrev pub observe_as :
      AuditAttempt → MetagraphSnapshot → CallAnswer (List UidWeight) → Option ℕ → Observation
  observe_as attempt snapshot row none = record {
    seen = ok (evidence_without_row attempt snapshot);
    reads = [];
  }
  observe_as attempt snapshot row (some uid) = observe_row attempt snapshot uid row

  abbrev pub observe :
      Arguments → ChainAnswers → AuditAttempt → CallAnswer MetagraphSnapshot → Observation
  observe args answers attempt fails = record {
    seen = err (rejected chain_evidence_unavailable);
    reads = [];
  }
  observe args answers attempt cancels = record { seen = err cancelled; reads = [] }
  observe args answers attempt (returns snapshot) =
      if is_ambiguous_view snapshot
      then record { seen = err (rejected chain_evidence_invalid); reads = [] }
      else observe_as attempt snapshot answers.row
          (permitted_uid (by_hotkey snapshot args.validator_hotkey))

  abbrev pub report_of : Arguments → AuditAttempt → Evidence → WeightReconciliationReport
  report_of args attempt e = record {
    attempt_id = attempt.attempt_id;
    attempt_status = attempt.status;
    submission_started = attempt.submission_started;
    network = args.network;
    netuid = args.netuid;
    validator_hotkey = args.validator_hotkey;
    evidence_block = e.block;
    validator_uid = e.validator_uid;
    target_identity_status = e.identity_status;
    evidence_relation = e.relation;
    expected_row_digest_sha256 = row_digest (sort uid_before (expected_row attempt));
    observed_row_digest_sha256 = digest_of row_digest e.observed;
    retry_disposition = retry_disposition_of attempt;
    conclusion = conclusion_of attempt e.relation;
    alert_required = alert_of attempt;
  }

  -- A cancelled `close` takes the place of the outcome.
  abbrev pub conclude : Arguments → AuditAttempt → Bool → Observation → ReportRun
  conclude args attempt true o = record {
    outcome = err cancelled;
    calls = open_call ∷ sync_call ∷ (o.reads ++ close_call ∷ []);
  }
  conclude args attempt false o = record {
    outcome = elim o.seen [ err e ↦ err e | ok e ↦ ok (report_of args attempt e) ];
    calls = open_call ∷ sync_call ∷ (o.reads ++ close_call ∷ []);
  }

  abbrev pub with_chain :
      Arguments → ChainAnswers → AuditAttempt → CallAnswer (Unit {0}) → ReportRun
  with_chain args answers attempt fails = record {
    outcome = err (rejected chain_evidence_unavailable);
    calls = open_call ∷ [];
  }
  with_chain args answers attempt cancels = record {
    outcome = err cancelled;
    calls = open_call ∷ [];
  }
  with_chain args answers attempt (returns _) =
      conclude args attempt answers.close_cancelled (observe args answers attempt answers.snapshot)

  abbrev pub with_attempt : Arguments → ChainAnswers → Raises AuditAttempt → ReportRun
  with_attempt args answers (err e) = record { outcome = err e; calls = [] }
  with_attempt args answers (ok attempt) =
      if not (
        text_eq attempt.vector.network args.network
        && attempt.vector.netuid == args.netuid
        && text_eq attempt.vector.validator_hotkey args.validator_hotkey)
      then record { outcome = err (rejected audit_identity_mismatch); calls = [] }
      else with_chain args answers attempt answers.opening

  abbrev pub with_state :
      Arguments → ChainAnswers → Result ReconciliationCode AuditState → ReportRun
  with_state args answers (err code) = record { outcome = err (rejected code); calls = [] }
  with_state args answers (ok state) =
      with_attempt args answers (select_attempt state args.attempt_id)

  -- `reconcile_weight_attempt`
  unfoldable pub reconcile_weight_attempt : Arguments → ChainAnswers → ReportRun
  unfolding select_attempt row_relation target_identity_status retry_disposition_of conclusion_of
      alert_of
  reconcile_weight_attempt args answers = with_state args answers answers.audit_state
