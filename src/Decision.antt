-- ===== src/Decision.antt =====
-- `decide_weight_submission` of src/misscomputer_subnet/validator_decision.py: from the scored epochs
-- of a window to the sealed decision to submit weights or to abstain.
pub mod Types
pub mod Rules
pub mod Reasons
pub mod Submitted
pub mod Plan
mod Tests
use misscomputer_subnet.Prelude.{
  ℕ, ◌+◌, ◌-◌, ◌^◌, Text, text_eq, text_lt, Bool, true, false, not, ◌&&◌, ◌||◌, Option, none, some,
  List, [], ◌∷◌, ◌++◌, ltb, leb, ◌==◌, all, any, map, find, count, distinct, length, if◌then◌else◌,
  Result, ok, err, ◌>>=◌, ◌>>◌, raise_if,
}
use misscomputer_subnet.Prelude.Floats.{Floats}
use misscomputer_subnet.Prelude.Sorting.{sort}
use misscomputer_subnet.Plan.Build.{WeightRow}
use misscomputer_subnet.Organic.Types.{ActiveAssignmentManifestV2}
use misscomputer_subnet.Organic.Epoch.{distinct_texts}
use misscomputer_subnet.Organic.Evidence.{effective_expires_at_epoch, is_given}
use misscomputer_subnet.Organic.Window.{
  OrganicEpochScore, MinerAvailability, OrganicAvailabilityScore, max_epochs, is_scored, index_of,
  epoch_before, aggregate_organic_window,
}
use misscomputer_subnet.Organic.Score.{manifest_get}
use misscomputer_subnet.Decision.Types.{
  ManifestFetchStatus, rejected, unavailable, verified, MinerClassification, fraud_evidence, scored,
  unscored, AbstainReason, insufficient_scored_epochs, no_positive_evidence, registered_set_unbound,
  terminal_manifest_policy_rejected, terminal_manifest_rejected, terminal_manifest_stale,
  terminal_manifest_unavailable, DecisionRejectionCode, decision_epoch_invalid,
  decision_epochs_invalid, decision_manifest_missing, decision_terminal_invalid,
  decision_trust_policy_invalid, decision_trust_policy_missing, decision_validator_mismatch,
  decision_window_invalid, WeightDecisionPolicy, RegisteredMiner, RegisteredMinerSet,
  TerminalManifestObservation, TrustPolicyDocument, WeightDecisionRow, Outcome, abstain, submit,
  ValidatorWeightDecision,
}
use misscomputer_subnet.Decision.Rules.{
  Raises, max_epoch, max_trust_policies, reason_if, is_unbound, manifest_reasons, terminal_reasons,
  abstain_reasons, scored_miners, row_from, derive_rows, positive_rows, plan_rows,
}

-- the arguments of the call
pub record Window : Type 0 where
  pub manifests : List ActiveAssignmentManifestV2
  pub terminal : TerminalManifestObservation
  pub registered : RegisteredMinerSet
  pub trust_policies : List TrustPolicyDocument
  pub window_start_epoch : ℕ
  pub window_end_epoch : ℕ
  pub decision_policy : WeightDecisionPolicy

abbrev is_rejected : ManifestFetchStatus → Bool
is_rejected rejected = true
is_rejected _ = false

abbrev same_bool : Bool → Bool → Bool
same_bool true b = b
same_bool false b = not b

-- The terminal manifest, if the fetch gave one that is verified.
abbrev pub manifest_of :
    (end : ℕ)
    → TerminalManifestObservation
    → ManifestFetchStatus
    → Option ActiveAssignmentManifestV2
    → Raises (Option ActiveAssignmentManifestV2)
manifest_of end t verified none = err decision_terminal_invalid
manifest_of end t verified (some m) =
    if is_given t.rejection_code || ltb t.evaluated_at_epoch end
    then err decision_terminal_invalid
    else ok (some m)
manifest_of end t status m =
    if is_given m || not (same_bool (is_rejected status) (is_given t.rejection_code))
    then err decision_terminal_invalid
    else ok none

unfoldable pub terminal_of : Window → Raises (Option ActiveAssignmentManifestV2)
terminal_of w = manifest_of w.window_end_epoch w.terminal w.terminal.status w.terminal.manifest

abbrev pub needed_by : List OrganicEpochScore → List Text
needed_by [] = []
needed_by (v ∷ vs) = v.manifest_digests ++ needed_by vs

abbrev pub with_terminal : Option ActiveAssignmentManifestV2 → List Text → List Text
with_terminal none needed = needed
with_terminal (some m) needed = m.manifest_digest_sha256 ∷ needed

abbrev pub also_available :
    Option ActiveAssignmentManifestV2
    → List ActiveAssignmentManifestV2
    → List ActiveAssignmentManifestV2
also_available none manifests = manifests
also_available (some m) manifests = manifests ++ m ∷ []

abbrev pub given_ones {ℓ} : {A : Type ℓ} → List (Option A) → List A
given_ones [] = []
given_ones (none ∷ rest) = given_ones rest
given_ones (some a ∷ rest) = a ∷ given_ones rest

-- `sealed_manifests`
unfoldable pub sealed_manifests :
    List OrganicEpochScore
    → Option ActiveAssignmentManifestV2
    → List ActiveAssignmentManifestV2
    → List ActiveAssignmentManifestV2
sealed_manifests values terminal manifests = given_ones (
    map (λ key. manifest_get key (also_available terminal manifests))
      (sort text_lt (distinct_texts (with_terminal terminal (needed_by values)))))

-- `policies.get(digest)`: of two policies with the digest, the later one
abbrev pub policy_get : Text → List TrustPolicyDocument → Option TrustPolicyDocument
policy_get digest [] = none
policy_get digest (p ∷ ps) = elim (policy_get digest ps) [
  | some later ↦ some later
  | none ↦ if text_eq p.trust_policy_digest_sha256 digest then some p else none
]

-- `named`
abbrev pub named_by : List ActiveAssignmentManifestV2 → List Text
named_by manifests =
    distinct_texts
      (map (λ (m : ActiveAssignmentManifestV2). m.trust_policy_digest_sha256) manifests)

unfoldable pub sealed_policies :
    List ActiveAssignmentManifestV2 → List TrustPolicyDocument → Raises (List TrustPolicyDocument)
sealed_policies manifests policies = do
  raise_if
      (ltb max_trust_policies (
        length (
          distinct_texts
            (map (λ (p : TrustPolicyDocument). p.trust_policy_digest_sha256) policies))))
      decision_trust_policy_invalid
  raise_if (not (all (λ digest. is_given (policy_get digest policies)) (named_by manifests)))
      decision_trust_policy_missing
  ok (given_ones (map (λ digest. policy_get digest policies) (sort text_lt (named_by manifests))))

-- the score of the window's epochs, if there are any
abbrev pub or_invalid :
    {E : Type 0} → Result E OrganicAvailabilityScore → Raises (Option OrganicAvailabilityScore)
or_invalid (ok score) = ok (some score)
or_invalid (err e) = err decision_epochs_invalid

unfoldable pub score_of : List OrganicEpochScore → Raises (Option OrganicAvailabilityScore)
score_of [] = ok none
score_of (v ∷ vs) = or_invalid (aggregate_organic_window (v ∷ vs))

unfoldable pub check_epochs : Window → List OrganicEpochScore → Raises (Unit {0})
check_epochs w values = do
  raise_if (not (leb w.window_start_epoch max_epoch && leb w.window_end_epoch max_epoch))
      decision_epoch_invalid
  raise_if (leb w.window_end_epoch w.window_start_epoch) decision_window_invalid
  raise_if (not (distinct ◌==◌ (map index_of values)) || ltb max_epochs (length values))
      decision_epochs_invalid
  raise_if
      (any
        (λ (v : OrganicEpochScore). not (text_eq v.validator_hotkey w.registered.validator_hotkey))
        values)
      decision_validator_mismatch
  raise_if (not (all (λ key. is_given (manifest_get key w.manifests)) (needed_by values)))
      decision_manifest_missing
  raise_if (not (leb w.terminal.evaluated_at_epoch max_epoch)) decision_epoch_invalid

abbrev pub scored_epochs : List OrganicEpochScore → ℕ
scored_epochs values = count (λ (v : OrganicEpochScore). is_scored v.epoch_status) values

abbrev pub outcome_of : List AbstainReason → Outcome
outcome_of [] = submit
outcome_of (reason ∷ reasons) = abstain

abbrev digest_if : Outcome → Text → Option Text
digest_if submit digest = some digest
digest_if abstain digest = none

-- `admits policy m at` are the admission of a manifest under a policy and the check of its
-- identities; `row_digest` is the digest of the rows' canonical JSON.
module _ (fl : Floats) (ratio : ℕ → ℕ → ℕ)
    (admits : TrustPolicyDocument → ActiveAssignmentManifestV2 → ℕ → Bool)
    (row_digest : List WeightRow → Text) where
  abbrev admitted_by : ActiveAssignmentManifestV2 → ℕ → Option TrustPolicyDocument → Bool
  admitted_by m evaluated none = false
  admitted_by m evaluated (some p) = admits p m evaluated

  -- `_terminal_admitted`
  abbrev pub terminal_admitted :
      Option ActiveAssignmentManifestV2 → List TrustPolicyDocument → ℕ → Bool
  terminal_admitted none policies evaluated = false
  terminal_admitted (some m) policies evaluated = admitted_by m evaluated (
      find
        (λ (p : TrustPolicyDocument).
          text_eq p.trust_policy_digest_sha256 m.trust_policy_digest_sha256)
        policies)

  abbrev pub reasons_of :
      Window
      → List OrganicEpochScore
      → Option ActiveAssignmentManifestV2
      → List TrustPolicyDocument
      → List WeightDecisionRow
      → List AbstainReason
  reasons_of w values terminal policies rows =
      abstain_reasons w.terminal.status terminal
        (terminal_admitted terminal policies w.terminal.evaluated_at_epoch) w.window_end_epoch
        (scored_epochs values) w.registered w.decision_policy (positive_rows fl ratio rows)

  abbrev pub decided :
      Window
      → List OrganicEpochScore
      → Option ActiveAssignmentManifestV2
      → List TrustPolicyDocument
      → Option OrganicAvailabilityScore
      → List WeightDecisionRow
      → List AbstainReason
      → ValidatorWeightDecision
  decided w values terminal policies score rows reasons = record {
    validator_uid = w.registered.validator_uid;
    validator_hotkey = w.registered.validator_hotkey;
    window_start_epoch = w.window_start_epoch;
    window_end_epoch = w.window_end_epoch;
    decision = outcome_of reasons;
    abstain_reasons = reasons;
    decision_policy = w.decision_policy;
    trust_policies = policies;
    terminal_manifest_status = w.terminal.status;
    terminal_manifest_rejection_code = w.terminal.rejection_code;
    terminal_evaluated_at_epoch = w.terminal.evaluated_at_epoch;
    terminal_manifest = terminal;
    manifests = sealed_manifests values terminal w.manifests;
    epochs = values;
    availability_score = score;
    scored_epoch_count = scored_epochs values;
    registered_finalized_height = w.registered.finalized_height;
    registered_finalized_block_hash = w.registered.finalized_block_hash;
    registered_finalized_epoch = w.registered.finalized_epoch;
    registered_miner_count = length w.registered.miners;
    metagraph_identity_fingerprint_sha256 = w.registered.metagraph_identity_fingerprint_sha256;
    rows = rows;
    weight_plan_rows_digest_sha256 = digest_if (outcome_of reasons) (row_digest (plan_rows rows));
  }

  abbrev pub decide_from :
      Window
      → List OrganicEpochScore
      → Option ActiveAssignmentManifestV2
      → List TrustPolicyDocument
      → Option OrganicAvailabilityScore
      → ValidatorWeightDecision
  decide_from w values terminal policies score =
      let rows = derive_rows fl ratio w.registered.miners score in
      decided w values terminal policies score rows (reasons_of w values terminal policies rows)

  abbrev pub decide_sorted : Window → List OrganicEpochScore → Raises ValidatorWeightDecision
  decide_sorted w values = do
    check_epochs w values
    terminal ← terminal_of w
    policies ← sealed_policies (sealed_manifests values terminal w.manifests) w.trust_policies
    score ← score_of values
    ok (decide_from w values terminal policies score)

  -- `decide_weight_submission`, up to the checks that the sealed decision makes of itself
  unfoldable pub decide_weight_submission :
      List OrganicEpochScore → Window → Raises ValidatorWeightDecision
  unfolding check_epochs terminal_of sealed_policies score_of derive_rows abstain_reasons
  decide_weight_submission epochs w = decide_sorted w (sort epoch_before epochs)
