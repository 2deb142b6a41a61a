-- ===== src/Executor/Tests.antt =====
-- Runs of the executor on a small plan, with stand-ins for the libraries: a float is a number of
-- hundredths, and the digests are constants.
use misscomputer_subnet.Prelude.{
  ℕ, ◌+◌, ◌-◌, ◌*◌, ◌/◌, ◌≤◌, ◌<◌, ◌≡◌, max, arith, all, refl, Text, codes, text_eq, text_lt, Bool,
  true, false, Option, none, some, List, [], ◌∷◌, any, ltb, leb, ◌==◌, length, ok, err,
}
use misscomputer_subnet.Prelude.Int.{ℤ, pos, negsuc}
use misscomputer_subnet.Prelude.Floats.{Floats}
use misscomputer_subnet.Chain.{NeuronRecord, MetagraphSnapshot, by_hotkey, epoch}
use misscomputer_subnet.Plan.Checks.{valid_text, has_scheme_mark, valid_network, expiry_limit}
use misscomputer_subnet.Plan.Types.{WeightPlan, valid_entry, valid_snapshot, valid_plan}
use misscomputer_subnet.Executor.Types.{
  ExecutionVector, Env, AuditAttempt, AuditStatus, ReceiptOutcome, failed_with, code_text,
  idempotency_blocked,
}
use misscomputer_subnet.Executor.Audit.{
  stored, blocks, is_safe_code, valid_receipt, check_state, blocking_attempt, execution_attempt_key,
  valid_timestamp, valid_attempt, persist, new_attempt, start_attempt, update_attempt,
  mark_submission_started, finish_attempt,
}
use misscomputer_subnet.Executor.Outside.{
  Config, Answers, answered, returned, acknowledgement_value, confirmed,
}
use misscomputer_subnet.Executor.Stages.{
  validate_execution_gates, prepare, check_mode, open_store, load_signer, send_check,
}
use misscomputer_subnet.Executor.Run.{
  pre_send_failure, finish_submission, result_end, after_submit, send, attempt_submission,
  submit_once, with_store, execute_weight_plan, run_weight_executor,
}
use misscomputer_subnet.Plan.Normalize.{
  current_neuron, max_index_from, max_index, add_at, normalize,
}
use misscomputer_subnet.Executor.Vector.{
  resolve, assign, check_weight, check_weights, check_omitted, check_vector,
  validate_execution_preflight, vector_of, derive_execution_vector,
}
use misscomputer_subnet.Plan.Identity.{
  valid_neuron, valid_metagraph, snapshot_document, snapshot_identity_fingerprint,
}
use misscomputer_subnet.Prelude.Sorting.{insert, sort, is_sorted}
use misscomputer_subnet.Plan.Build.{
  WeightRow, accepts_row, positive_targets, conservative_expiry_block, build_weight_plan,
}
use misscomputer_subnet.Plan.Build.Executable.{is_miner, build-preflight, build-miners}
use misscomputer_subnet.Plan.Expiry.{plan_one_epoch, expiry_limit-bounds}
use misscomputer_subnet.Executor.Vector.Preflight.{IsCurrent, derive-IsCurrent}
use misscomputer_subnet.Executor.Vector.Weights.{
  occurrences, is_current, is_gone, derive_partitions, derive_current,
}
use misscomputer_subnet.Executor.Run.Gates.{dry_run_silent, submission_gated}
use misscomputer_subnet.Executor.Run.Confirmed.{Confirmed, IsRecorded, confirmed_submitted}
use misscomputer_subnet.Executor.Run.Effect.{Effect}
use misscomputer_subnet.Executor.Run.Once.{run_weight_executor-Effect}
use misscomputer_subnet.Executor.Run.History.{
  Job, run_all, submissions, used, plan_submitted_once, blocked_stays,
}

abbrev sum : List ℕ → ℕ
sum [] = 0
sum (x ∷ xs) = x + sum xs

abbrev hundredths : ℤ → Option ℕ
hundredths (pos n) = some (n * 100)
hundredths (negsuc n) = none

abbrev test_floats : Floats
test_floats = record {
  zero_float = 0;
  one_float = 100;
  is_finite = λ x. true;
  lt_float = ltb;
  le_float = leb;
  add_float = λ x y. x + y;
  sub_float = λ x y. x - y;
  div_float = λ x y. (x * 100) / y;
  fsum = sum;
  is_close_to_one = λ x. x == 100;
  of_int = hundredths;
}

abbrev plan_hash : Text
plan_hash = codes "aaaaaaaaaaaaaaaaaaaaaaaaaaaaaaaaaaaaaaaaaaaaaaaaaaaaaaaaaaaaaaaa"

abbrev vector_hash : Text
vector_hash = codes "bbbbbbbbbbbbbbbbbbbbbbbbbbbbbbbbbbbbbbbbbbbbbbbbbbbbbbbbbbbbbbbb"

abbrev test_env : Env
test_env = record {
  floats = test_floats;
  urlsplit = λ t. none;
  is_utc_instant = λ t. true;
  plan_digest = λ p. plan_hash;
  vector_digest = λ v. vector_hash;
  snapshot_digest = λ d. codes "s";
  key_digest = λ p e. vector_hash;
  id_digest = λ a b c d. a;
  state_size = λ s. length s * 1000;
}

abbrev neuron : ℕ → Text → Bool → NeuronRecord
neuron uid hotkey permit = record {
  uid = uid;
  hotkey = hotkey;
  validator_permit = permit;
  tao_stake = 0;
  axon = none;
  active = true;
}

-- The planned miner `m1` has moved from UID 1 to UID 3, and `m2` has gone.
abbrev test_snapshot : MetagraphSnapshot
test_snapshot = record {
  network = codes "finney";
  netuid = 7;
  block = 105;
  tempo = 100;
  neurons = neuron 0 (codes "v") true ∷ neuron 3 (codes "m1") false ∷ [];
  finalized = true;
}

abbrev test_plan : WeightPlan
test_plan = record {
  network = codes "finney";
  netuid = 7;
  validator_hotkey = codes "v";
  snapshot = record {
    block = 101;
    tempo = 100;
    epoch = 1;
    finalized = true;
    identity_fingerprint = plan_hash;
  };
  weights =
      record { uid = 1; hotkey = codes "m1"; weight = 60 }
      ∷ record { uid = 2; hotkey = codes "m2"; weight = 40 }
      ∷ [];
  version_key = 2;
  created_block = 101;
  expires_at_block = 120;
}

abbrev test_config : Config
test_config = record {
  network = codes "finney";
  netuid = 7;
  validator_hotkey = codes "v";
  execute = true;
  confirm_network = some (codes "finney");
  confirm_netuid = some 7;
  confirm_plan_digest = some plan_hash;
  confirm_execution_digest = some vector_hash;
  audit_state_path = some (codes "/state");
}

abbrev test_answers : Answers
test_answers = record {
  plan_file = some test_plan;
  acknowledgement = some acknowledgement_value;
  same_path = some false;
  first_sync = answered test_snapshot;
  first_commit_reveal = answered false;
  has_submitter = true;
  open_fault = none;
  start_answer = stored;
  start_time = codes "t0";
  nonce = codes "cccccccccccccccccccccccccccccccccccccccccccccccccccccccccccccccc";
  submitter = answered (codes "v");
  submitter_open = answered tt;
  send_sync = answered test_snapshot;
  send_commit_reveal = answered false;
  failure_answer = stored;
  failure_time = codes "t1";
  mark_answer = stored;
  mark_time = codes "t2";
  submission =
      returned (record { success = true; extrinsic_ref = some (codes "0x1"); error_code = none });
  finish_answer = stored;
  finish_time = codes "t3";
}

abbrev test_job : Job
test_job = record { config = test_config; answers = test_answers }

abbrev test_vector : ExecutionVector
test_vector = record {
  plan_digest_sha256 = plan_hash;
  network = codes "finney";
  netuid = 7;
  validator_hotkey = codes "v";
  version_key = 2;
  weights = record { hotkey = codes "m1"; planned_uid = 1; uid = 3; weight = 100 } ∷ [];
  omitted = record { hotkey = codes "m2"; planned_uid = 2 } ∷ [];
}

program : Unit {0}
unfolding is_safe_code valid_receipt check_state blocking_attempt execution_attempt_key
    valid_timestamp valid_attempt persist new_attempt start_attempt update_attempt
    mark_submission_started finish_attempt validate_execution_gates prepare check_mode open_store
    load_signer send_check pre_send_failure finish_submission result_end after_submit send
    attempt_submission submit_once with_store execute_weight_plan run_weight_executor code_text
    current_neuron resolve max_index_from max_index add_at normalize assign check_weight
    check_weights check_omitted check_vector validate_execution_preflight vector_of
    derive_execution_vector run_all valid_neuron valid_metagraph snapshot_document
    snapshot_identity_fingerprint valid_text has_scheme_mark valid_network insert sort is_sorted
    text_eq text_lt by_hotkey valid_entry valid_snapshot valid_plan expiry_limit accepts_row
    positive_targets conservative_expiry_block build_weight_plan epoch
program = tt

-- The moved miner is submitted at its new UID, with the whole weight.
confirmed_run :
    (run_weight_executor test_env test_config test_answers []).0
    ≡ ok (confirmed test_vector (codes "0x1"))
unfolding program
confirmed_run = refl

-- the audit state that the first run leaves
abbrev confirmed_attempt : AuditAttempt
confirmed_attempt = record {
  attempt_id = codes "cccccccccccccccccccccccccccccccccccccccccccccccccccccccccccccccc";
  attempt_key = vector_hash;
  execution_digest_sha256 = vector_hash;
  vector = test_vector;
  preflight_block = 105;
  send_check_block = some 105;
  status = AuditStatus.confirmed;
  submission_started = true;
  started_at = codes "t0";
  updated_at = codes "t3";
  receipt = some (record {
    outcome = ReceiptOutcome.confirmed;
    extrinsic_ref = some (codes "0x1");
    error_code = none;
  });
}

confirmed_state :
    (run_weight_executor test_env test_config test_answers []).1.store.disk ≡ confirmed_attempt ∷ []
unfolding program
confirmed_state = refl

second_run_blocked :
    (run_weight_executor test_env test_config test_answers (confirmed_attempt ∷ [])).0
    ≡ err (failed_with idempotency_blocked)
unfolding program
second_run_blocked = refl

two_runs :
    run_all test_env (test_job ∷ test_job ∷ []) [] ≡ (test_vector ∷ [], confirmed_attempt ∷ [])
unfolding program
two_runs = refl

plan_submitted_once_example :
    submissions plan_hash (run_all test_env (test_job ∷ test_job ∷ []) []).0
      + used (any (blocks plan_hash) [])
    ≤ 1
plan_submitted_once_example = plan_submitted_once test_env plan_hash (test_job ∷ test_job ∷ []) []

blocked_stays_example :
    any (blocks plan_hash) (run_all test_env (test_job ∷ []) (confirmed_attempt ∷ [])).1 ≡ true
unfolding program
blocked_stays_example =
    blocked_stays test_env plan_hash (test_job ∷ []) (confirmed_attempt ∷ []) refl

run_weight_executor-Effect_example :
    Effect test_env [] (run_weight_executor test_env test_config test_answers []).1
run_weight_executor-Effect_example = run_weight_executor-Effect test_env test_config test_answers []

dry_run_silent_example :
    ((run_weight_executor test_env
        (record test_config { execute = false })
        test_answers
        []).1.submitted
      ≡ [])
    × ((run_weight_executor test_env
          (record test_config { execute = false })
          test_answers
          []).1.store.disk
        ≡ [])
dry_run_silent_example =
    dry_run_silent test_env (record test_config { execute = false }) test_answers [] refl

submission_gated_example :
    (plan : WeightPlan) × (now : MetagraphSnapshot) × (some test_plan ≡ some plan)
    × (some plan_hash ≡ some (test_env.plan_digest plan))
    × (some acknowledgement_value ≡ some acknowledgement_value)
    × (answered (codes "v") ≡ answered (codes "v"))
    × (answered test_snapshot ≡ answered now)
    × (answered false ≡ answered false)
    × IsCurrent plan now
    × (derive_execution_vector test_env plan now (codes "finney") 7 (codes "v") ≡ ok test_vector)
unfolding program
submission_gated_example = submission_gated test_env test_config test_answers test_vector [] refl

test_derived :
    derive_execution_vector test_env test_plan test_snapshot (codes "finney") 7 (codes "v")
    ≡ ok test_vector
unfolding program
test_derived = refl

derive-IsCurrent_example : IsCurrent test_plan test_snapshot
derive-IsCurrent_example =
    derive-IsCurrent test_env test_plan test_snapshot (codes "finney") 7 (codes "v") test_vector
      test_derived

derive_partitions_example :
    occurrences (codes "m2") (codes "m1" ∷ []) + occurrences (codes "m2") (codes "m2" ∷ [])
    ≡ occurrences (codes "m2") (codes "m1" ∷ codes "m2" ∷ [])
derive_partitions_example =
    derive_partitions test_env test_plan test_snapshot (codes "finney") 7 (codes "v") test_vector
      (codes "m2") test_derived

derive_current_example :
    (all (is_current test_snapshot.neurons) test_vector.weights ≡ true)
    × (all (is_gone test_snapshot.neurons) test_vector.omitted ≡ true)
derive_current_example =
    derive_current test_env test_plan test_snapshot (codes "finney") 7 (codes "v") test_vector
      test_derived

-- block 119 is the last one of the plan
plan_one_epoch_example : (119 / 100 ≡ 1) × (119 < 101 + max 1 (100 / 4))
unfolding program
plan_one_epoch_example =
    plan_one_epoch test_floats test_env.urlsplit test_plan 119 refl refl (omega arith) (omega arith)

expiry_limit-bounds_example :
    (190 < expiry_limit 190 100)
    × (expiry_limit 190 100 ≤ 190 + max 1 (100 / 4))
    × (expiry_limit 190 100 ≤ (190 / 100 + 1) * 100)
expiry_limit-bounds_example = expiry_limit-bounds 190 100 (omega arith) (omega arith)

-- The window ends at the epoch's end.
limit_at_boundary : expiry_limit 190 100 ≡ 200
unfolding expiry_limit
limit_at_boundary = refl

-- The rows of `build_weight_plan`, in hundredths; a weight of zero gives no entry.
abbrev test_rows : List WeightRow
test_rows =
    record { miner_hotkey = codes "m1"; weight = 50 }
    ∷ record { miner_hotkey = codes "m3"; weight = 0 }
    ∷ []

abbrev rows_snapshot : MetagraphSnapshot
rows_snapshot = record test_snapshot {
  neurons =
      neuron 0 (codes "v") true ∷ neuron 3 (codes "m1") false ∷ neuron 4 (codes "m3") false ∷ [];
}

abbrev digest_env : Env
digest_env = record test_env { snapshot_digest = λ d. plan_hash }

abbrev built_plan : WeightPlan
built_plan = record {
  network = codes "finney";
  netuid = 7;
  validator_hotkey = codes "v";
  snapshot = record {
    block = 105;
    tempo = 100;
    epoch = 1;
    finalized = true;
    identity_fingerprint = plan_hash;
  };
  weights = record { uid = 3; hotkey = codes "m1"; weight = 100 } ∷ [];
  version_key = 2;
  created_block = 105;
  expires_at_block = 130;
}

rows_built :
    build_weight_plan test_floats test_env.urlsplit digest_env.snapshot_digest rows_snapshot
      (codes "v")
      test_rows
      2
    ≡ some built_plan
unfolding program
rows_built = refl

build-preflight_example :
    validate_execution_preflight digest_env built_plan rows_snapshot (codes "finney") 7 (codes "v")
    ≡ ok tt
build-preflight_example =
    build-preflight digest_env rows_snapshot (codes "v") test_rows 2 built_plan rows_built refl

build-miners_example : all (is_miner (codes "v") rows_snapshot.neurons) built_plan.weights ≡ true
build-miners_example =
    build-miners digest_env rows_snapshot (codes "v") test_rows 2 built_plan rows_built

confirmed_submitted_example :
    Confirmed test_env test_config test_answers test_vector
      (codes "0x1")
      (run_weight_executor test_env test_config test_answers []).1
    × ((run_weight_executor test_env test_config test_answers []).1.audit_failed ≡ false)
    × IsRecorded test_env test_config test_answers test_vector
        (codes "0x1")
        (run_weight_executor test_env test_config test_answers []).1
confirmed_submitted_example =
    confirmed_submitted test_env test_config test_answers test_vector (codes "0x1") [] confirmed_run
