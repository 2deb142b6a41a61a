-- ===== src/Decision/Plan.antt =====
-- `eligible_weight_targets` and `build_weight_plan_from_decision` of
-- src/misscomputer_subnet/weight_plan.py, with `_validated_weight_submission` of
-- validator_decision.py. `none` stands for a call that raises.
pub mod Earned
use misscomputer_subnet.Prelude.{
  ℕ, ◌/◌, Text, codes, text_eq, Bool, true, false, not, ◌&&◌, ◌||◌, Option, none, some, List, [],
  ◌∷◌, leb, ◌==◌, all, any, map, keep, if◌then◌else◌,
}
use misscomputer_subnet.Prelude.Floats.{Floats}
use misscomputer_subnet.Chain.{NeuronRecord, MetagraphSnapshot}
use misscomputer_subnet.Plan.Checks.{valid_text, valid_network, SplitUrl, max_block}
use misscomputer_subnet.Plan.Types.{WeightPlan}
use misscomputer_subnet.Plan.Identity.{
  SnapshotDocument, valid_neuron, snapshot_identity_fingerprint,
}
use misscomputer_subnet.Plan.Normalize.{current_neuron}
use misscomputer_subnet.Plan.Build.{WeightRow, build_weight_plan}
use misscomputer_subnet.Decision.Types.{
  RegisteredMiner, WeightDecisionRow, Outcome, submit, ValidatorWeightDecision,
}
use misscomputer_subnet.Decision.Rules.{plan_rows}

abbrev is_target : Text → NeuronRecord → Bool
is_target validator_hotkey n = not (text_eq n.hotkey validator_hotkey) && n.active

-- `eligible_weight_targets`, of neurons that are valid
unfoldable pub eligible_weight_targets : MetagraphSnapshot → Text → List RegisteredMiner
eligible_weight_targets s validator_hotkey =
    map (λ (n : NeuronRecord). target n) (keep (is_target validator_hotkey) s.neurons)
  where
    target : NeuronRecord → RegisteredMiner
    target n = record { uid = n.uid; hotkey = n.hotkey }

abbrev pub is_submit : Outcome → Bool
is_submit submit = true
is_submit _ = false

abbrev pub digest_matches : Text → Option Text → Bool
digest_matches digest none = false
digest_matches digest (some committed) = text_eq digest committed

abbrev pub has_uid : ℕ → Option NeuronRecord → Bool
has_uid uid none = false
has_uid uid (some n) = n.uid == uid

abbrev pub row_is_current : List NeuronRecord → WeightDecisionRow → Bool
row_is_current neurons r = has_uid r.uid (current_neuron r.hotkey neurons)

abbrev same_identity : WeightDecisionRow → RegisteredMiner → Bool
same_identity r t = r.uid == t.uid && text_eq r.hotkey t.hotkey

-- whether the rows and the targets are the same pairs
abbrev pub covers : List WeightDecisionRow → List RegisteredMiner → Bool
covers rows targets =
    all (λ (r : WeightDecisionRow). any (same_identity r) targets) rows
    && all (λ (t : RegisteredMiner). any (λ (r : WeightDecisionRow). same_identity r t) rows)
        targets

module _ (fl : Floats) (urlsplit : Text → Option SplitUrl) (sha256 : SnapshotDocument → Text)
    (row_digest : List WeightRow → Text) where
  -- `_validated_weight_submission`, of a decision that `revalidate` accepts
  unfoldable pub is_submission : ValidatorWeightDecision → Bool
  is_submission d =
      is_submit d.decision
      && digest_matches (row_digest (plan_rows d.rows)) d.weight_plan_rows_digest_sha256

  -- the decision's identities are those of the snapshot
  unfoldable pub is_bound : ValidatorWeightDecision → MetagraphSnapshot → Text → Bool
  unfolding eligible_weight_targets snapshot_identity_fingerprint
  is_bound d s finalized_block_hash =
      s.finalized
      && (valid_network urlsplit s.network && text_eq s.network (codes "finney") && s.netuid == 24)
      && (leb s.block max_block && leb 1 s.tempo && leb s.tempo max_block)
      && s.block == d.registered_finalized_height
      && s.block / s.tempo == d.registered_finalized_epoch
      && text_eq finalized_block_hash d.registered_finalized_block_hash
      && has_uid d.validator_uid (current_neuron d.validator_hotkey s.neurons)
      && all (row_is_current s.neurons) d.rows
      && digest_matches d.metagraph_identity_fingerprint_sha256
          (snapshot_identity_fingerprint fl urlsplit sha256 s)
      && (valid_text 256 d.validator_hotkey && all (valid_neuron fl urlsplit) s.neurons)
      && covers d.rows (eligible_weight_targets s d.validator_hotkey)

  unfoldable pub build_weight_plan_from_decision :
      ValidatorWeightDecision
      → MetagraphSnapshot
      → (finalized_block_hash : Text) (version_key : ℕ) → Option WeightPlan
  unfolding is_submission is_bound build_weight_plan
  build_weight_plan_from_decision d s finalized_block_hash version_key =
      if is_submission d && is_bound d s finalized_block_hash
      then build_weight_plan fl urlsplit sha256 s d.validator_hotkey (plan_rows d.rows) version_key
      else none
