-- ===== src/Plan/Identity.antt =====
-- `_validate_snapshot_neuron` and `snapshot_identity_fingerprint` of
-- src/misscomputer_subnet/weight_plan.py. The SHA-256 of the canonical JSON document is a parameter.
use misscomputer_subnet.Prelude.{
  ℕ, ◌/◌, Text, text_eq, Bool, true, not, ◌&&◌, Option, none, some, List, leb, ◌==◌, all, map,
  distinct, length, if◌then◌else◌,
}
use misscomputer_subnet.Prelude.Floats.{Floats}
use misscomputer_subnet.Prelude.Sorting.{sort}
use misscomputer_subnet.Chain.{NeuronRecord, MetagraphSnapshot}
use misscomputer_subnet.Plan.Checks.{
  valid_text, valid_network, SplitUrl, max_block, max_neurons, max_uid,
}
use misscomputer_subnet.Plan.Types.{key_lt, nat_beq}

-- The document that is hashed; the stake is rendered by `float.hex`, so it enters by its value.
pub record SnapshotDocument : Type 0 where
  pub network : Text
  pub netuid : ℕ
  pub block : ℕ
  pub tempo : ℕ
  pub epoch : ℕ
  pub neurons : List NeuronRecord

module _ (fl : Floats) (urlsplit : Text → Option SplitUrl) where
  abbrev valid_axon : Option Text → Bool
  valid_axon none = true
  valid_axon (some axon) = valid_text 4096 axon

  unfoldable pub valid_neuron : NeuronRecord → Bool
  valid_neuron n =
      leb n.uid max_uid
      && valid_text 256 n.hotkey
      && (fl.is_finite n.tao_stake && not (fl.lt_float n.tao_stake fl.zero_float))
      && valid_axon n.axon

  abbrev neuron_before : NeuronRecord → NeuronRecord → Bool
  neuron_before a b = key_lt a.uid a.hotkey b.uid b.hotkey

  -- whether `snapshot_identity_fingerprint` does not raise
  unfoldable pub valid_metagraph : MetagraphSnapshot → Bool
  valid_metagraph s =
      valid_network urlsplit s.network
      && leb s.netuid 65535
      && leb s.block max_block
      && (leb 1 s.tempo && leb s.tempo max_block)
      && s.finalized
      && not (length s.neurons == 0)
      && leb (length s.neurons) max_neurons
      && all valid_neuron s.neurons
      && distinct nat_beq (map (λ (n : NeuronRecord). n.uid) s.neurons)
      && distinct text_eq (map (λ (n : NeuronRecord). n.hotkey) s.neurons)

  unfoldable pub snapshot_document : MetagraphSnapshot → SnapshotDocument
  snapshot_document s = record {
    network = s.network;
    netuid = s.netuid;
    block = s.block;
    tempo = s.tempo;
    epoch = s.block / s.tempo;
    neurons = sort neuron_before s.neurons;
  }

  -- `none` where it raises
  unfoldable pub snapshot_identity_fingerprint :
      (SnapshotDocument → Text) → MetagraphSnapshot → Option Text
  unfolding valid_metagraph snapshot_document
  snapshot_identity_fingerprint sha256 s =
      if valid_metagraph s then some (sha256 (snapshot_document s)) else none
