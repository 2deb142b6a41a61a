-- ===== src/Decision/Rules.antt =====
-- The rules of src/misscomputer_subnet/validator_decision.py: the reasons to abstain, and the rows of
-- a decision.
use misscomputer_subnet.Prelude.{
  ℕ, ◌-◌, ◌^◌, text_eq, Bool, true, false, not, ◌&&◌, ◌||◌, Option, none, some, List, [], ◌∷◌, ◌++◌,
  ltb, leb, ◌==◌, map, find, count, if◌then◌else◌, Result,
}
use misscomputer_subnet.Prelude.Floats.{Floats}
use misscomputer_subnet.Prelude.Sorting.{sort}
use misscomputer_subnet.Plan.Build.{WeightRow}
use misscomputer_subnet.Organic.Types.{ActiveAssignmentManifestV2}
use misscomputer_subnet.Organic.Evidence.{effective_expires_at_epoch}
use misscomputer_subnet.Organic.Window.{MinerAvailability, OrganicAvailabilityScore}
use misscomputer_subnet.Decision.Types.{
  ManifestFetchStatus, rejected, unavailable, verified, fraud_evidence, scored, unscored,
  AbstainReason, insufficient_scored_epochs, no_positive_evidence, registered_set_unbound,
  terminal_manifest_policy_rejected, terminal_manifest_rejected, terminal_manifest_stale,
  terminal_manifest_unavailable, DecisionRejectionCode, WeightDecisionPolicy, RegisteredMiner,
  RegisteredMinerSet, WeightDecisionRow,
}

abbrev pub Raises : Type 0 → Type 0
Raises A = Result DecisionRejectionCode A

abbrev pub max_epoch : ℕ
max_epoch = 2 ^ 63 - 1

abbrev pub max_trust_policies : ℕ
max_trust_policies = 16

-- the place of a reason in the order of their texts
abbrev rank : AbstainReason → ℕ
rank insufficient_scored_epochs = 0
rank no_positive_evidence = 1
rank registered_set_unbound = 2
rank terminal_manifest_policy_rejected = 3
rank terminal_manifest_rejected = 4
rank terminal_manifest_stale = 5
rank terminal_manifest_unavailable = 6

abbrev reason_before : AbstainReason → AbstainReason → Bool
reason_before a b = ltb (rank a) (rank b)

abbrev pub reason_if : Bool → AbstainReason → List AbstainReason
reason_if true reason = reason ∷ []
reason_if false reason = []

-- whether the registered set and the manifest are not views of one chain
abbrev pub is_unbound :
    RegisteredMinerSet → ActiveAssignmentManifestV2 → WeightDecisionPolicy → Bool
is_unbound r m policy =
    ltb r.finalized_height m.finalized_height
    || ltb policy.max_registered_height_gap (r.finalized_height - m.finalized_height)
    || ltb r.finalized_epoch m.finalized_epoch
    || (r.finalized_height == m.finalized_height
        && (not (text_eq r.finalized_block_hash m.finalized_block_hash)
            || not (r.finalized_epoch == m.finalized_epoch)))

abbrev pub manifest_reasons :
    ActiveAssignmentManifestV2
    → (admitted : Bool) (window_end_epoch : ℕ) → RegisteredMinerSet
    → WeightDecisionPolicy
    → List AbstainReason
manifest_reasons m admitted window_end_epoch r policy =
    reason_if (leb (effective_expires_at_epoch m) window_end_epoch) terminal_manifest_stale
    ++ (reason_if (not admitted) terminal_manifest_policy_rejected
        ++ reason_if (is_unbound r m policy) registered_set_unbound)

abbrev pub terminal_reasons :
    ManifestFetchStatus
    → Option ActiveAssignmentManifestV2
    → (admitted : Bool) (window_end_epoch : ℕ) → RegisteredMinerSet
    → WeightDecisionPolicy
    → List AbstainReason
terminal_reasons unavailable m admitted end r policy = terminal_manifest_unavailable ∷ []
terminal_reasons rejected m admitted end r policy = terminal_manifest_rejected ∷ []
terminal_reasons verified none admitted end r policy = []
terminal_reasons verified (some m) admitted end r policy = manifest_reasons m admitted end r policy

-- `_abstain_reasons`; no reason is added twice
unfoldable pub abstain_reasons :
    ManifestFetchStatus
    → Option ActiveAssignmentManifestV2
    → (admitted : Bool) (window_end_epoch scored_epochs : ℕ) → RegisteredMinerSet
    → WeightDecisionPolicy
    → (positive_rows : ℕ) → List AbstainReason
abstain_reasons status m admitted end scored_epochs r policy positive_rows = sort reason_before (
    terminal_reasons status m admitted end r policy
    ++ (reason_if (ltb scored_epochs policy.min_scored_epochs) insufficient_scored_epochs
        ++ reason_if (positive_rows == 0) no_positive_evidence))

abbrev pub is_of : RegisteredMiner → MinerAvailability → Bool
is_of miner a = a.miner_uid == miner.uid && text_eq a.miner_hotkey miner.hotkey

abbrev pub scored_miners : Option OrganicAvailabilityScore → List MinerAvailability
scored_miners none = []
scored_miners (some score) = score.miners

-- `ratio n d` is `float(Fraction(n, d))`.
module _ (fl : Floats) (ratio : ℕ → ℕ → ℕ) where
  abbrev pub row_from : RegisteredMiner → Option MinerAvailability → WeightDecisionRow
  row_from miner none = record {
    uid = miner.uid;
    hotkey = miner.hotkey;
    classification = unscored;
    weight = fl.zero_float;
    eligible_endpoint_epochs = 0;
    availability_numerator = none;
    availability_denominator = none;
  }
  row_from miner (some a) = record {
    uid = miner.uid;
    hotkey = miner.hotkey;
    classification = if ltb 0 a.fraudulent_attestations then fraud_evidence else scored;
    weight =
        if ltb 0 a.fraudulent_attestations
        then fl.zero_float
        else ratio a.availability_numerator a.availability_denominator;
    eligible_endpoint_epochs = a.eligible_endpoint_epochs;
    availability_numerator = some a.availability_numerator;
    availability_denominator = some a.availability_denominator;
  }

  -- `_derive_rows`; a score lists each miner once
  unfoldable pub derive_rows :
      List RegisteredMiner → Option OrganicAvailabilityScore → List WeightDecisionRow
  derive_rows miners score =
      map (λ (miner : RegisteredMiner). row_from miner (find (is_of miner) (scored_miners score)))
        miners

  abbrev pub positive_rows : List WeightDecisionRow → ℕ
  positive_rows rows = count (λ (r : WeightDecisionRow). fl.lt_float fl.zero_float r.weight) rows

abbrev pub plan_row : WeightDecisionRow → WeightRow
plan_row r = record { miner_hotkey = r.hotkey; weight = r.weight }

-- `_plan_rows`
abbrev pub plan_rows : List WeightDecisionRow → List WeightRow
plan_rows rows = map plan_row rows
