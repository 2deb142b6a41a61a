-- ===== src/Decision/Tests.antt =====
-- A decision on the sample epoch; a float is a number of thousandths.
use misscomputer_subnet.Prelude.{
  total, ℕ, ◌+◌, ◌-◌, ◌*◌, ◌/◌, ◌≤◌, ◌≡◌, refl, Text, codes, text_eq, text_lt, Bool, true, false,
  none, some, List, [], ◌∷◌, All, ltb, leb, ◌==◌, length, ok, Option,
}
use misscomputer_subnet.Prelude.Int.{ℤ, pos, negsuc}
use misscomputer_subnet.Prelude.Sorting.{is_sorted}
use misscomputer_subnet.Chain.{NeuronRecord, MetagraphSnapshot, epoch}
use misscomputer_subnet.Plan.Checks.{valid_text, has_scheme_mark, valid_network, expiry_limit}
use misscomputer_subnet.Plan.Types.{WeightPlan, valid_entry, valid_snapshot, valid_plan}
use misscomputer_subnet.Plan.Identity.{
  valid_neuron, valid_metagraph, snapshot_document, snapshot_identity_fingerprint,
}
use misscomputer_subnet.Plan.Normalize.{
  current_neuron, max_index_from, max_index, add_at, normalize,
}
use misscomputer_subnet.Plan.Build.{
  accepts_row, positive_targets, conservative_expiry_block, build_weight_plan,
}
use misscomputer_subnet.Executor.Types.{Env}
use misscomputer_subnet.Decision.Plan.{
  eligible_weight_targets, is_submission, is_bound, build_weight_plan_from_decision,
}
use misscomputer_subnet.Decision.Plan.Earned.{IsPaid, plan_entries-IsPaid}
use misscomputer_subnet.Prelude.Floats.{Floats}
use misscomputer_subnet.Prelude.Sorting.{sort, insert}
use misscomputer_subnet.Prelude.Gcd.{gcd}
use misscomputer_subnet.Prelude.Fractions.{fraction, add_fractions, divide_fraction}
use misscomputer_subnet.Plan.Build.{WeightRow}
use misscomputer_subnet.Organic.Types.{ActiveAssignmentManifestV2}
use misscomputer_subnet.Organic.Tally.{identity_agrees}
use misscomputer_subnet.Organic.Evidence.{effective_expires_at_epoch}
use misscomputer_subnet.Organic.Window.{
  epoch_before, add_share, add_frauds, add_endpoint, add_endpoints, add_epochs, check_window,
  miner_row, aggregate_organic_window,
}
use misscomputer_subnet.Organic.Score.{manifest_get}
use misscomputer_subnet.Organic.Samples.{the_manifest, the_score, the_availability}
use misscomputer_subnet.Decision.Types.{
  verified, unavailable, scored, unscored, no_positive_evidence, insufficient_scored_epochs,
  terminal_manifest_stale, terminal_manifest_unavailable, TrustPolicyDocument, WeightDecisionRow,
  submit, ValidatorWeightDecision,
}
use misscomputer_subnet.Decision.Rules.{abstain_reasons, derive_rows}
use misscomputer_subnet.Decision.{
  Window, terminal_of, sealed_manifests, sealed_policies, score_of, check_epochs, terminal_admitted,
  decide_weight_submission,
}
use misscomputer_subnet.Decision.Reasons.{IsTerminal}
use misscomputer_subnet.Decision.Submitted.{IsEarned, scored_points, decide_submit}

abbrev sum : List ℕ → ℕ
sum [] = 0
sum (x ∷ xs) = x + sum xs

abbrev whole : ℤ → Option ℕ
whole (pos n) = some (n * 1000)
whole (negsuc n) = none

abbrev snapshot_hash : Text
snapshot_hash = codes "aaaaaaaaaaaaaaaaaaaaaaaaaaaaaaaaaaaaaaaaaaaaaaaaaaaaaaaaaaaaaaaa"

abbrev thousandths : Floats
thousandths = record {
  zero_float = 0;
  one_float = 1000;
  is_finite = λ x. true;
  lt_float = ltb;
  le_float = leb;
  add_float = λ x y. x + y;
  sub_float = λ x y. x - y;
  div_float = λ x y. (x * 1000) / y;
  fsum = sum;
  is_close_to_one = λ x. x == 1000;
  of_int = whole;
}

abbrev ratio : ℕ → ℕ → ℕ
ratio n d = (n * 1000) / d

abbrev by_document : TrustPolicyDocument → ActiveAssignmentManifestV2 → ℕ → Bool
by_document p m at = text_eq p.document (codes "good")

abbrev rows_text : List WeightRow → Text
rows_text rows = length rows ∷ []

abbrev the_policy : TrustPolicyDocument
the_policy = record { trust_policy_digest_sha256 = codes "p"; document = codes "good" }

abbrev the_window : Window
the_window = record {
  manifests = the_manifest ∷ [];
  terminal = record {
    status = verified;
    evaluated_at_epoch = 3310;
    manifest = some the_manifest;
    rejection_code = none;
  };
  registered = record {
    finalized_height = 60;
    finalized_block_hash = codes "g";
    finalized_epoch = 1;
    validator_uid = 9;
    validator_hotkey = codes "v";
    miners = record { uid = 1; hotkey = codes "h1" } ∷ record { uid = 2; hotkey = codes "h2" } ∷ [];
    metagraph_identity_fingerprint_sha256 = snapshot_hash;
  };
  trust_policies = the_policy ∷ [];
  window_start_epoch = 3000;
  window_end_epoch = 3300;
  decision_policy = record { min_scored_epochs = 1; max_registered_height_gap = 600 };
}

abbrev the_rows : List WeightDecisionRow
the_rows =
    record {
      uid = 1;
      hotkey = codes "h1";
      classification = scored;
      weight = 1000;
      eligible_endpoint_epochs = 1;
      availability_numerator = some 1;
      availability_denominator = some 1;
    }
    ∷ record {
      uid = 2;
      hotkey = codes "h2";
      classification = unscored;
      weight = 0;
      eligible_endpoint_epochs = 0;
      availability_numerator = none;
      availability_denominator = none;
    }
    ∷ []

abbrev the_decision : ValidatorWeightDecision
the_decision = record {
  validator_uid = 9;
  validator_hotkey = codes "v";
  window_start_epoch = 3000;
  window_end_epoch = 3300;
  decision = submit;
  abstain_reasons = [];
  decision_policy = the_window.decision_policy;
  trust_policies = the_policy ∷ [];
  terminal_manifest_status = verified;
  terminal_manifest_rejection_code = none;
  terminal_evaluated_at_epoch = 3310;
  terminal_manifest = some the_manifest;
  manifests = the_manifest ∷ [];
  epochs = the_score ∷ [];
  availability_score = some the_availability;
  scored_epoch_count = 1;
  registered_finalized_height = 60;
  registered_finalized_block_hash = codes "g";
  registered_finalized_epoch = 1;
  registered_miner_count = 2;
  metagraph_identity_fingerprint_sha256 = snapshot_hash;
  rows = the_rows;
  weight_plan_rows_digest_sha256 = some (2 ∷ []);
}

submit_test :
    decide_weight_submission thousandths ratio by_document rows_text (the_score ∷ []) the_window
    ≡ ok the_decision
unfolding decide_weight_submission check_epochs terminal_of sealed_manifests sealed_policies
    score_of derive_rows abstain_reasons manifest_get effective_expires_at_epoch
    aggregate_organic_window check_window add_epochs add_endpoints add_endpoint add_share add_frauds
    identity_agrees miner_row divide_fraction add_fractions fraction gcd sort insert text_eq text_lt
submit_test = refl

empty_test :
    abstain_reasons unavailable none false 3300 0 the_window.registered the_window.decision_policy 0
    ≡ insufficient_scored_epochs ∷ no_positive_evidence ∷ terminal_manifest_unavailable ∷ []
unfolding abstain_reasons sort insert
empty_test = refl

stale_test :
    abstain_reasons verified
      (some the_manifest)
      true
      8000
      1
      the_window.registered
      the_window.decision_policy
      1
    ≡ terminal_manifest_stale ∷ []
unfolding abstain_reasons sort insert effective_expires_at_epoch text_eq
stale_test = refl

decide_submit_example :
    IsTerminal the_window the_decision.terminal_manifest (
      terminal_admitted thousandths ratio by_document rows_text the_decision.terminal_manifest
        the_decision.trust_policies the_window.terminal.evaluated_at_epoch)
    × (the_window.decision_policy.min_scored_epochs ≤ total scored_points (the_score ∷ []))
    × (score_of (sort epoch_before (the_score ∷ [])) ≡ ok the_decision.availability_score)
    × All (IsEarned thousandths ratio the_decision.availability_score) the_decision.rows
decide_submit_example =
    decide_submit thousandths ratio by_document rows_text (the_score ∷ []) the_window the_decision
      submit_test refl

abbrev the_neuron : ℕ → Text → Bool → NeuronRecord
the_neuron uid hotkey permit = record {
  uid = uid;
  hotkey = hotkey;
  validator_permit = permit;
  tao_stake = 0;
  axon = none;
  active = true;
}

abbrev the_snapshot : MetagraphSnapshot
the_snapshot = record {
  network = codes "finney";
  netuid = 24;
  block = 60;
  tempo = 60;
  neurons =
      the_neuron 9 (codes "v") true
      ∷ the_neuron 1 (codes "h1") false
      ∷ the_neuron 2 (codes "h2") false
      ∷ [];
  finalized = true;
}

abbrev the_env : Env
the_env = record {
  floats = thousandths;
  urlsplit = λ t. none;
  is_utc_instant = λ t. true;
  plan_digest = λ p. codes "p";
  vector_digest = λ v. codes "x";
  snapshot_digest = λ d. snapshot_hash;
  key_digest = λ p e. codes "k";
  id_digest = λ a b c d. a;
  state_size = length;
}

abbrev the_plan : WeightPlan
the_plan = record {
  network = codes "finney";
  netuid = 24;
  validator_hotkey = codes "v";
  snapshot = record {
    block = 60;
    tempo = 60;
    epoch = 1;
    finalized = true;
    identity_fingerprint = snapshot_hash;
  };
  weights = record { uid = 1; hotkey = codes "h1"; weight = 1000 } ∷ [];
  version_key = 2;
  created_block = 60;
  expires_at_block = 75;
}

plan_test :
    build_weight_plan_from_decision thousandths the_env.urlsplit the_env.snapshot_digest rows_text
      the_decision the_snapshot
      (codes "g")
      2
    ≡ some the_plan
unfolding build_weight_plan_from_decision is_submission is_bound eligible_weight_targets
    current_neuron max_index_from max_index add_at normalize valid_neuron valid_metagraph
    snapshot_document snapshot_identity_fingerprint valid_text has_scheme_mark valid_network insert
    sort is_sorted text_eq text_lt valid_entry valid_snapshot valid_plan expiry_limit accepts_row
    positive_targets conservative_expiry_block build_weight_plan epoch
plan_test = refl

-- The decision is refused on a chain segment with another block hash.
other_hash_test :
    build_weight_plan_from_decision thousandths the_env.urlsplit the_env.snapshot_digest rows_text
      the_decision the_snapshot
      (codes "h")
      2
    ≡ none
unfolding build_weight_plan_from_decision is_submission is_bound current_neuron valid_network
    text_eq valid_text has_scheme_mark
other_hash_test = refl

plan_entries-IsPaid_example :
    (the_snapshot.block ≡ the_decision.registered_finalized_height)
    × (score_of (sort epoch_before (the_score ∷ [])) ≡ ok the_decision.availability_score)
    × All (IsPaid thousandths ratio the_decision.availability_score) the_plan.weights
plan_entries-IsPaid_example =
    plan_entries-IsPaid the_env ratio by_document rows_text (the_score ∷ []) the_window the_decision
      the_snapshot (codes "g") 2 the_plan refl submit_test plan_test
