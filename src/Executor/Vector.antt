-- ===== src/Executor/Vector.antt =====
-- `ExecutionVector`, `validate_execution_preflight` and `derive_execution_vector` of
-- src/misscomputer_subnet/weight_executor.py.
pub mod Preflight
pub mod Weights
use misscomputer_subnet.Prelude.{
  ℕ, zero, suc, Text, text_eq, Bool, true, false, not, ◌&&◌, ◌||◌, Option, none, some, List, [],
  ◌∷◌, ◌++◌, ltb, leb, ◌==◌, all, any, map, distinct, length, if◌then◌else◌, Result, ok, err, ◌>>=◌,
  ◌>>◌, raise_if,
}
use misscomputer_subnet.Prelude.Floats.{Floats}
use misscomputer_subnet.Prelude.Sorting.{sort, is_sorted}
use misscomputer_subnet.Chain.{NeuronRecord, MetagraphSnapshot, by_hotkey}
use misscomputer_subnet.Plan.Checks.{valid_text, valid_network, max_version_key}
use misscomputer_subnet.Plan.Types.{
  WeightPlan, WeightPlanEntry, valid_weight, is_digest, key_lt, nat_beq,
}
use misscomputer_subnet.Plan.Identity.{snapshot_identity_fingerprint}
use misscomputer_subnet.Plan.Normalize.{current_neuron, is_permitted, normalize}
use misscomputer_subnet.Executor.Types.{
  ErrorCode, invalid_identity, invalid_integer, invalid_weights, invalid_plan,
  no_valid_planned_hotkeys, wrong_network, wrong_netuid, wrong_validator, unsupported_version_key,
  unfinalized_chain_state, invalid_chain_state, chain_rollback, expired_plan,
  validator_not_permitted, ExecutionWeight, OmittedWeight, ExecutionVector, Env,
}

abbrev pub plan_protocol_version_key : ℕ
plan_protocol_version_key = 2

abbrev pub Raises : Type 0 → Type 0
Raises A = Result ErrorCode A

abbrev weight_before : ExecutionWeight → ExecutionWeight → Bool
weight_before a b = key_lt a.uid a.hotkey b.uid b.hotkey

abbrev pub omitted_before : OmittedWeight → OmittedWeight → Bool
omitted_before a b = key_lt a.planned_uid a.hotkey b.planned_uid b.hotkey

-- a planned target that is still an active neuron: its current UID, and its planned weight
pub record Retained : Type 0 where
  pub uid : ℕ
  pub hotkey : Text
  pub planned_uid : ℕ
  pub weight : ℕ

abbrev pub retained_before : Retained → Retained → Bool
retained_before a b = key_lt a.uid a.hotkey b.uid b.hotkey

abbrev pub all_hotkeys : ExecutionVector → List Text
all_hotkeys v =
    map (λ (w : ExecutionWeight). w.hotkey) v.weights
    ++ map (λ (o : OmittedWeight). o.hotkey) v.omitted

abbrev pub is_active : Option NeuronRecord → Bool
is_active none = false
is_active (some n) = n.active

-- The loop over the planned entries, as the lists `retained` and `omitted` that it leaves.
unfoldable pub resolve :
    List NeuronRecord → List WeightPlanEntry → List Retained × List OmittedWeight
resolve neurons [] = ([], [])
resolve neurons (planned ∷ rest) =
    let (retained, omitted) = resolve neurons rest in
    elim (current_neuron planned.hotkey neurons) [
      | none ↦ (retained, record { hotkey = planned.hotkey; planned_uid = planned.uid } ∷ omitted)
      | some neuron ↦
          if neuron.active
          then (
            record {
              uid = neuron.uid;
              hotkey = planned.hotkey;
              planned_uid = planned.uid;
              weight = planned.weight;
            }
                ∷ retained,
            omitted,
          )
          else (retained, record { hotkey = planned.hotkey; planned_uid = planned.uid } ∷ omitted)
    ]

abbrev weighted : List Retained → List ℕ → List ExecutionWeight
weighted [] ws = []
weighted (r ∷ rs) [] = []
weighted (r ∷ rs) (w ∷ ws) =
    record { hotkey = r.hotkey; planned_uid = r.planned_uid; uid = r.uid; weight = w }
    ∷ weighted rs ws

-- `tuple(ExecutionWeight(...) ...)`, without the checks of the entries
unfoldable pub assign : List Retained → List ℕ → List ExecutionWeight
assign = weighted

abbrev pub fingerprinted : Option Text → Bool
fingerprinted none = false
fingerprinted (some _) = true

module _ (env : Env) where
  -- `ExecutionWeight.__post_init__`
  unfoldable pub check_weight : ExecutionWeight → Raises (Unit {0})
  check_weight w = do
    raise_if (not (valid_text 256 w.hotkey)) invalid_identity
    raise_if (not (leb w.planned_uid 65535)) invalid_integer
    raise_if (not (leb w.uid 65535)) invalid_integer
    raise_if (not (valid_weight env.floats w.weight)) invalid_weights

  unfoldable pub check_weights : List ExecutionWeight → Raises (Unit {0})
  check_weights [] = ok tt
  check_weights (w ∷ ws) = check_weight w >> check_weights ws

  -- `OmittedWeight.__post_init__`
  unfoldable pub check_omitted : List OmittedWeight → Raises (Unit {0})
  check_omitted [] = ok tt
  check_omitted (o ∷ os) = do
    raise_if (not (valid_text 256 o.hotkey)) invalid_identity
    raise_if (not (leb o.planned_uid 65535)) invalid_integer
    check_omitted os

  -- `ExecutionVector.__post_init__`
  unfoldable pub check_vector : ExecutionVector → Raises (Unit {0})
  check_vector v = do
    raise_if (not (is_digest v.plan_digest_sha256)) invalid_plan
    raise_if (not (valid_network env.urlsplit v.network)) invalid_identity
    raise_if (not (leb v.netuid 65535)) invalid_integer
    raise_if (not (valid_text 256 v.validator_hotkey)) invalid_identity
    raise_if (not (leb v.version_key max_version_key)) invalid_integer
    raise_if (length v.weights == 0) no_valid_planned_hotkeys
    raise_if (not (is_sorted weight_before v.weights)) invalid_weights
    raise_if (not (is_sorted omitted_before v.omitted)) invalid_weights
    raise_if (not (distinct text_eq (all_hotkeys v))) invalid_weights
    raise_if (not (distinct nat_beq (map (λ (w : ExecutionWeight). w.uid) v.weights)))
        invalid_weights
    raise_if
        (not (
          env.floats.is_close_to_one
            (env.floats.fsum (map (λ (w : ExecutionWeight). w.weight) v.weights))))
        invalid_weights

  unfoldable pub validate_execution_preflight :
      WeightPlan → MetagraphSnapshot → Text → ℕ → Text → Raises (Unit {0})
  validate_execution_preflight plan snapshot network netuid validator_hotkey = do
    raise_if (not (text_eq plan.network network) || not (text_eq snapshot.network network))
        wrong_network
    raise_if (not (plan.netuid == netuid) || not (snapshot.netuid == netuid)) wrong_netuid
    raise_if (not (text_eq plan.validator_hotkey validator_hotkey)) wrong_validator
    raise_if (not (plan.version_key == plan_protocol_version_key)) unsupported_version_key
    raise_if (not snapshot.finalized) unfinalized_chain_state
    raise_if
        (not (
          fingerprinted
            (snapshot_identity_fingerprint env.floats env.urlsplit env.snapshot_digest snapshot)))
        invalid_chain_state
    raise_if (ltb snapshot.block plan.created_block) chain_rollback
    raise_if (leb plan.expires_at_block snapshot.block) expired_plan
    raise_if (not (is_permitted (by_hotkey snapshot validator_hotkey))) validator_not_permitted

  -- the vector built from what the loop retained and omitted
  unfoldable pub vector_of :
      WeightPlan → Text → ℕ → Text → List Retained → List OmittedWeight → ExecutionVector
  unfolding assign
  vector_of plan network netuid validator_hotkey retained omitted =
      let ordered = sort retained_before retained in
      let planned = map (λ (r : Retained). r.weight) ordered in
      record {
        plan_digest_sha256 = env.plan_digest plan;
        network = network;
        netuid = netuid;
        validator_hotkey = validator_hotkey;
        version_key = plan.version_key;
        weights = assign ordered (normalize env.floats (env.floats.fsum planned) planned);
        omitted = sort omitted_before omitted;
      }

  abbrev total_of : List Retained → ℕ
  total_of retained =
      env.floats.fsum (map (λ (r : Retained). r.weight) (sort retained_before retained))

  -- An omitted entry is checked when the loop makes it, before the retained ones.
  unfoldable pub derive_execution_vector :
      WeightPlan → MetagraphSnapshot → Text → ℕ → Text → Raises ExecutionVector
  derive_execution_vector plan snapshot network netuid validator_hotkey = do
    validate_execution_preflight plan snapshot network netuid validator_hotkey
    let (retained, omitted) = resolve snapshot.neurons plan.weights
    let total = total_of retained
    let vector = vector_of plan network netuid validator_hotkey retained omitted
    check_omitted omitted
    raise_if (length retained == 0) no_valid_planned_hotkeys
    raise_if (not (env.floats.is_finite total) || env.floats.le_float total env.floats.zero_float)
        invalid_weights
    check_weights vector.weights
    check_vector vector
    ok vector
