-- ===== src/Plan/Build.antt =====
-- `build_weight_plan` of src/misscomputer_subnet/weight_plan.py, for rows whose fields have the right
-- types. `none` stands for a `WeightPlanError`.
pub mod Executable
use misscomputer_subnet.Prelude.{
  ℕ, ◌+◌, ◌/◌, Text, text_eq, Bool, true, false, not, ◌&&◌, ◌||◌, Option, none, some, List, [], ◌∷◌,
  ltb, leb, ◌==◌, all, any, map, distinct, length, if◌then◌else◌,
}
use misscomputer_subnet.Prelude.Floats.{Floats}
use misscomputer_subnet.Prelude.Sorting.{sort}
use misscomputer_subnet.Chain.{NeuronRecord, MetagraphSnapshot, epoch}
use misscomputer_subnet.Plan.Checks.{valid_text, SplitUrl, expiry_limit, max_neurons, max_block}
use misscomputer_subnet.Plan.Types.{
  WeightPlan, WeightPlanEntry, WeightPlanSnapshot, valid_entry, valid_snapshot, valid_plan, nat_beq,
  entry_before,
}
use misscomputer_subnet.Plan.Identity.{SnapshotDocument, snapshot_identity_fingerprint}
use misscomputer_subnet.Plan.Normalize.{current_neuron, is_permitted, normalize}

-- a row; the weight is `float(raw_weight)`
pub record WeightRow : Type 0 where
  pub miner_hotkey : Text
  pub weight : ℕ

-- The entries keep the weights of the rows until they are normalized.
abbrev pub with_weights : List WeightPlanEntry → List ℕ → List WeightPlanEntry
with_weights [] ws = []
with_weights (e ∷ es) [] = []
with_weights (e ∷ es) (w ∷ ws) = record e { weight = w } ∷ with_weights es ws

module _ (fl : Floats) (validator_hotkey : Text) (neurons : List NeuronRecord) where
  -- whether a row of a hotkey with this neuron is accepted
  abbrev is_target : Text → Option NeuronRecord → Bool
  is_target hotkey none = false
  is_target hotkey (some n) = not (text_eq hotkey validator_hotkey) && n.active

  unfoldable pub accepts_row : List Text → WeightRow → Bool
  accepts_row seen row =
      valid_text 256 row.miner_hotkey
      && not (any (λ t. text_eq row.miner_hotkey t) seen)
      && (fl.is_finite row.weight
          && fl.le_float fl.zero_float row.weight
          && fl.le_float row.weight fl.one_float)
      && is_target row.miner_hotkey (current_neuron row.miner_hotkey neurons)

  abbrev add_positive :
      WeightRow → Option NeuronRecord → List WeightPlanEntry → List WeightPlanEntry
  add_positive row none rest = rest
  add_positive row (some n) rest =
      if fl.lt_float fl.zero_float row.weight
      then record { uid = n.uid; hotkey = row.miner_hotkey; weight = row.weight } ∷ rest
      else rest

  abbrev prepend : Option (List WeightPlanEntry) → WeightRow → Option (List WeightPlanEntry)
  prepend none row = none
  prepend (some rest) row = some (add_positive row (current_neuron row.miner_hotkey neurons) rest)

  -- the loop over the rows, as the list `positive` that it leaves
  unfoldable pub positive_targets : List Text → List WeightRow → Option (List WeightPlanEntry)
  positive_targets seen [] = some []
  positive_targets seen (row ∷ rows) =
      let rest = positive_targets (row.miner_hotkey ∷ seen) rows in
      if accepts_row seen row then prepend rest row else none

module _ (fl : Floats) (urlsplit : Text → Option SplitUrl) (sha256 : SnapshotDocument → Text) where
  abbrev pub weights_of : List WeightPlanEntry → List ℕ
  weights_of entries = map (λ (e : WeightPlanEntry). e.weight) entries

  -- `conservative_expiry_block`
  unfoldable pub conservative_expiry_block : MetagraphSnapshot → Option ℕ
  conservative_expiry_block s =
      if leb s.block max_block
        && (leb 1 s.tempo && leb s.tempo max_block)
        && ltb s.block (expiry_limit s.block s.tempo)
      then some (expiry_limit s.block s.tempo)
      else none

  -- the plan of normalized entries, if its records accept their fields
  abbrev pub checked_plan : WeightPlan → Option WeightPlan
  checked_plan p =
      if all (valid_entry fl) p.weights && valid_snapshot p.snapshot && valid_plan fl urlsplit p
      then some p
      else none

  abbrev pub plan_of :
      MetagraphSnapshot
      → Text
      → (version_key : ℕ) → (fingerprint : Text) → List WeightPlanEntry
      → (expiry : ℕ) → WeightPlan
  plan_of s validator_hotkey version_key fingerprint entries expiry = record {
    network = s.network;
    netuid = s.netuid;
    validator_hotkey = validator_hotkey;
    snapshot = record {
      block = s.block;
      tempo = s.tempo;
      epoch = epoch s;
      finalized = s.finalized;
      identity_fingerprint = fingerprint;
    };
    weights = entries;
    version_key = version_key;
    created_block = s.block;
    expires_at_block = expiry;
  }

  abbrev pub normalized : List WeightPlanEntry → Option (List WeightPlanEntry)
  normalized positive =
      let ordered = sort entry_before positive in
      let total = fl.fsum (weights_of ordered) in
      if not (length positive == 0)
        && distinct nat_beq (map (λ (e : WeightPlanEntry). e.uid) ordered)
        && (fl.is_finite total && not (fl.le_float total fl.zero_float))
      then some (with_weights ordered (normalize fl total (weights_of ordered)))
      else none

  abbrev pub finish :
      MetagraphSnapshot
      → Text
      → ℕ
      → Option Text
      → Option (List WeightPlanEntry)
      → Option ℕ
      → Option WeightPlan
  finish s hotkey version_key (some fingerprint) (some entries) (some expiry) =
      checked_plan (plan_of s hotkey version_key fingerprint entries expiry)
  finish s hotkey version_key _ _ _ = none

  abbrev pub entries_of : Option (List WeightPlanEntry) → Option (List WeightPlanEntry)
  entries_of none = none
  entries_of (some positive) = normalized positive

  unfoldable pub build_weight_plan :
      MetagraphSnapshot
      → (validator_hotkey : Text) → List WeightRow
      → (version_key : ℕ) → Option WeightPlan
  build_weight_plan s validator_hotkey rows version_key =
      if valid_text 256 validator_hotkey
        && is_permitted (current_neuron validator_hotkey s.neurons)
        && (not (length rows == 0) && leb (length rows) max_neurons)
      then finish s validator_hotkey version_key
          (snapshot_identity_fingerprint fl urlsplit sha256 s)
          (entries_of (positive_targets fl validator_hotkey s.neurons [] rows))
          (conservative_expiry_block s)
      else none
