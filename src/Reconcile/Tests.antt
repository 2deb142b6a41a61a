-- ===== src/Reconcile/Tests.antt =====
-- Reports on small audit states; a float is a number of hundredths.
use misscomputer_subnet.Prelude.{
  ℕ, ◌+◌, ◌-◌, ◌≡◌, ◌⊎◌, refl, Text, codes, text_eq, Bool, true, false, none, some, List, [], ◌∷◌,
  In, ltb, leb, ◌==◌, length, ok, err,
}
use misscomputer_subnet.Chain.{NeuronRecord, by_hotkey}
use misscomputer_subnet.Executor.Types.{
  idempotency_blocked, ExecutionVector, AuditStatus, AuditAttempt, Env,
}
use misscomputer_subnet.Executor.Audit.{stored, Store, blocks, start_attempt}
use misscomputer_subnet.Reconcile.Types.{
  ChainAnswers, returns, fails, cancels, Arguments, UidWeight, WeightReconciliationReport, exact,
  consistent, eligible_pre_send, blocked_requires_operator, not_proof_of_inclusion, rejected,
  cancelled, chain_evidence_unavailable,
}
use misscomputer_subnet.Reconcile.Row.{row_relation}
use misscomputer_subnet.Reconcile.{
  select_attempt, target_identity_status, retry_disposition_of, conclusion_of, alert_of,
  reconcile_weight_attempt,
}
use misscomputer_subnet.Reconcile.Retry.{reconcile-start_attempt}
use misscomputer_subnet.Reconcile.Lifecycle.{IsClosed, reconcile-IsClosed}
use misscomputer_subnet.Prelude.Sorting.{sort, insert}

abbrev near : ℕ → ℕ → ℕ → Bool
near n a b = leb (a - b) n

abbrev row_text : List UidWeight → Text
row_text row = length row ∷ []

abbrev the_vector : ExecutionVector
the_vector = record {
  plan_digest_sha256 = codes "p";
  network = codes "finney";
  netuid = 24;
  validator_hotkey = codes "v";
  version_key = 0;
  weights = record { hotkey = codes "m"; planned_uid = 2; uid = 2; weight = 100 } ∷ [];
  omitted = [];
}

abbrev lost_attempt : AuditAttempt
lost_attempt = record {
  attempt_id = codes "i";
  attempt_key = codes "k";
  execution_digest_sha256 = codes "x";
  vector = the_vector;
  preflight_block = 7;
  send_check_block = none;
  status = AuditStatus.ambiguous;
  submission_started = true;
  started_at = codes "t";
  updated_at = codes "t";
  receipt = none;
}

abbrev the_neuron : ℕ → Text → NeuronRecord
the_neuron uid hotkey = record {
  uid = uid;
  hotkey = hotkey;
  validator_permit = true;
  tao_stake = 0;
  axon = none;
  active = true;
}

abbrev the_answers : ChainAnswers
the_answers = record {
  audit_state = ok (lost_attempt ∷ []);
  opening = returns tt;
  snapshot = returns (record {
    network = codes "finney";
    netuid = 24;
    block = 9;
    tempo = 360;
    neurons = the_neuron 1 (codes "v") ∷ the_neuron 2 (codes "m") ∷ [];
    finalized = true;
  });
  row = returns (record { uid = 2; weight = 99 } ∷ []);
  close_cancelled = false;
}

abbrev the_arguments : Arguments
the_arguments = record {
  network = codes "finney";
  netuid = 24;
  validator_hotkey = codes "v";
  attempt_id = none;
}

abbrev the_report : WeightReconciliationReport
the_report = record {
  attempt_id = codes "i";
  attempt_status = AuditStatus.ambiguous;
  submission_started = true;
  network = codes "finney";
  netuid = 24;
  validator_hotkey = codes "v";
  evidence_block = 9;
  validator_uid = some 1;
  target_identity_status = exact;
  evidence_relation = consistent;
  expected_row_digest_sha256 = 1 ∷ [];
  observed_row_digest_sha256 = some (1 ∷ []);
  retry_disposition = blocked_requires_operator;
  conclusion = not_proof_of_inclusion;
  alert_required = true;
}

report_test :
    (reconcile_weight_attempt near row_text the_arguments the_answers).outcome ≡ ok the_report
unfolding reconcile_weight_attempt select_attempt row_relation target_identity_status
    retry_disposition_of conclusion_of alert_of by_hotkey text_eq sort insert
report_test = refl

unopened_test :
    (reconcile_weight_attempt near row_text the_arguments
      (record the_answers { opening = fails })).outcome
    ≡ err (rejected chain_evidence_unavailable)
unfolding reconcile_weight_attempt select_attempt text_eq
unopened_test = refl

cancelled_test :
    (reconcile_weight_attempt near row_text the_arguments
      (record the_answers { row = cancels })).outcome
    ≡ err cancelled
unfolding reconcile_weight_attempt select_attempt by_hotkey text_eq
cancelled_test = refl

abbrev the_store : Store
the_store = record { disk = lost_attempt ∷ []; memory = lost_attempt ∷ [] }

abbrev plain_env : Env
plain_env = record {
  floats = record {
    zero_float = 0;
    one_float = 100;
    is_finite = λ x. true;
    lt_float = ltb;
    le_float = leb;
    add_float = λ x y. x + y;
    sub_float = λ x y. x - y;
    div_float = λ x y. x;
    fsum = length;
    is_close_to_one = λ x. x == 100;
    of_int = λ z. none;
  };
  urlsplit = λ t. none;
  is_utc_instant = λ t. true;
  plan_digest = λ p. codes "p";
  vector_digest = λ v. codes "x";
  snapshot_digest = λ d. codes "s";
  key_digest = λ p e. codes "k";
  id_digest = λ a b c d. a;
  state_size = length;
}

reconcile-start_attempt_example :
    (a : AuditAttempt) × In a (lost_attempt ∷ [])
    × (the_report.attempt_id ≡ a.attempt_id)
    × (((the_report.retry_disposition ≡ eligible_pre_send)
          × (blocks a.vector.plan_digest_sha256 a ≡ false))
        ⊎ ((the_report.retry_disposition ≡ blocked_requires_operator)
            × (start_attempt plain_env stored
                  (record the_vector { plan_digest_sha256 = a.vector.plan_digest_sha256 })
                  8
                  (codes "t")
                  (codes "n")
                  the_store
                ≡ (err idempotency_blocked, the_store))))
reconcile-start_attempt_example =
    reconcile-start_attempt near row_text the_arguments the_answers (lost_attempt ∷ []) the_report
      plain_env stored the_vector 8 (codes "t") (codes "n") the_store refl report_test refl

reconcile-IsClosed_example :
    IsClosed the_answers.opening
      (reconcile_weight_attempt near row_text the_arguments the_answers).calls
reconcile-IsClosed_example = reconcile-IsClosed near row_text the_arguments the_answers
