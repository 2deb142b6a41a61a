-- ===== src/Chain.antt =====
-- The metagraph view of src/misscomputer_subnet/chain.py (`NeuronRecord`, `MetagraphSnapshot`). A
-- float is its 64-bit pattern; `repr` is the parameter that prints one.
use misscomputer_subnet.Prelude.{
  ℕ, Text, text_eq, text_lt, Bool, true, false, not, ◌&&◌, Option, none, some, List, [], map, ◌/◌,
  max, ltb, ◌==◌, find, if◌then◌else◌,
}
use misscomputer_subnet.Prelude.Sorting.{sort}

pub record NeuronRecord : Type 0 where
  pub uid : ℕ
  pub hotkey : Text
  pub validator_permit : Bool
  pub tao_stake : ℕ
  pub axon : Option Text
  pub active : Bool

pub record MetagraphSnapshot : Type 0 where
  pub network : Text
  pub netuid : ℕ
  pub block : ℕ
  pub tempo : ℕ
  pub neurons : List NeuronRecord
  pub finalized : Bool

unfoldable pub epoch : MetagraphSnapshot → ℕ
epoch s = s.block / max s.tempo 1

unfoldable pub by_hotkey : MetagraphSnapshot → Text → Option NeuronRecord
by_hotkey s hotkey = find (λ (n : NeuronRecord). text_eq n.hotkey hotkey) s.neurons

-- one entry of the tuple that `identity_fingerprint` sorts
pub record NeuronIdentity : Type 0 where
  pub uid : ℕ
  pub hotkey : Text
  pub validator_permit : Bool
  pub stake_repr : Text
  pub axon : Text
  pub active : Bool

abbrev pub or_empty : Option Text → Text
or_empty none = []
or_empty (some t) = t

abbrev pub bool_eq : Bool → Bool → Bool
bool_eq true b = b
bool_eq false b = not b

-- Python's `<` on two such tuples: the first difference decides.
abbrev decided : Bool → Bool → Bool → Bool
decided same below rest = if same then rest else below

unfoldable pub identity_lt : NeuronIdentity → NeuronIdentity → Bool
identity_lt a b = decided (a.uid == b.uid) (ltb a.uid b.uid) (
    decided (text_eq a.hotkey b.hotkey) (text_lt a.hotkey b.hotkey) (
      decided (bool_eq a.validator_permit b.validator_permit)
        (not a.validator_permit && b.validator_permit)
        (decided (text_eq a.stake_repr b.stake_repr) (text_lt a.stake_repr b.stake_repr)
          (decided (text_eq a.axon b.axon) (text_lt a.axon b.axon) (not a.active && b.active)))))

unfoldable pub identity_eq : NeuronIdentity → NeuronIdentity → Bool
identity_eq a b =
    a.uid == b.uid
    && text_eq a.hotkey b.hotkey
    && bool_eq a.validator_permit b.validator_permit
    && text_eq a.stake_repr b.stake_repr
    && text_eq a.axon b.axon
    && bool_eq a.active b.active

pub record Fingerprint : Type 0 where
  pub network : Text
  pub netuid : ℕ
  pub block : ℕ
  pub tempo : ℕ
  pub neurons : List NeuronIdentity

module _ (repr : ℕ → Text) where
  unfoldable pub neuron_identity : NeuronRecord → NeuronIdentity
  neuron_identity n = record {
    uid = n.uid;
    hotkey = n.hotkey;
    validator_permit = n.validator_permit;
    stake_repr = repr n.tao_stake;
    axon = or_empty n.axon;
    active = n.active;
  }

  unfoldable pub identity_fingerprint : MetagraphSnapshot → Fingerprint
  identity_fingerprint s = record {
    network = s.network;
    netuid = s.netuid;
    block = s.block;
    tempo = s.tempo;
    neurons = sort identity_lt (map neuron_identity s.neurons);
  }
