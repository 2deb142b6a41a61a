-- ===== src/Executor/Vector/Preflight.antt =====
-- What an accepted preflight says of the chain (`validate_execution_preflight` and
-- `derive_execution_vector` of src/misscomputer_subnet/weight_executor.py).
use misscomputer_subnet.Prelude.{
  ℕ, ◌≤◌, ◌<◌, ◌≡◌, sym, ◌∙◌, Text, text_eq, text_eq_iff, true, false, arith, ltb, leb, ◌==◌, ok,
}
use misscomputer_subnet.Chain.{MetagraphSnapshot, by_hotkey}
use misscomputer_subnet.Plan.Types.{WeightPlan}
use misscomputer_subnet.Executor.Types.{ExecutionVector, Env}
use misscomputer_subnet.Plan.Normalize.{is_permitted}
use misscomputer_subnet.Executor.Vector.{
  plan_protocol_version_key, validate_execution_preflight, derive_execution_vector,
}

-- The chain state fits the plan: it is finalized, of the plan's network and subnet, not older than
-- the plan and not at its expiry, and the plan's validator is an active neuron with a permit.
pub record IsCurrent (plan : WeightPlan) (s : MetagraphSnapshot) : Type 0 where
  pub same_network : s.network ≡ plan.network
  pub same_netuid : s.netuid ≡ plan.netuid
  pub version : plan.version_key ≡ plan_protocol_version_key
  pub finalized : s.finalized ≡ true
  pub not_older : plan.created_block ≤ s.block
  pub not_expired : s.block < plan.expires_at_block
  pub permitted : is_permitted (by_hotkey s plan.validator_hotkey) ≡ true

module _ (env : Env) (plan : WeightPlan) (s : MetagraphSnapshot) (network : Text) (netuid : ℕ)
    (hotkey : Text) where
  preflight_parts :
      validate_execution_preflight env plan s network netuid hotkey ≡ ok tt
      → (text_eq plan.network network ≡ true)
        × (text_eq s.network network ≡ true)
        × ((plan.netuid == netuid) ≡ true)
        × ((s.netuid == netuid) ≡ true)
        × (text_eq plan.validator_hotkey hotkey ≡ true)
        × ((plan.version_key == plan_protocol_version_key) ≡ true)
        × (s.finalized ≡ true)
        × (ltb s.block plan.created_block ≡ false)
        × (leb plan.expires_at_block s.block ≡ false)
        × (is_permitted (by_hotkey s hotkey) ≡ true)
  unfolding validate_execution_preflight
  preflight_parts h = ground arith

  derive_preflight :
      (v : ExecutionVector)
      → derive_execution_vector env plan s network netuid hotkey ≡ ok v
      → validate_execution_preflight env plan s network netuid hotkey ≡ ok tt
  unfolding derive_execution_vector
  derive_preflight v h = ground arith

  -- A vector is derived only from chain state that fits the plan.
  pub derive-IsCurrent :
      (v : ExecutionVector)
      → derive_execution_vector env plan s network netuid hotkey ≡ ok v
      → IsCurrent plan s
  derive-IsCurrent v h =
      let (pn, sn, pi, si, ph, version, final, newer, alive, permit) =
        preflight_parts (derive_preflight v h) in
      let same : plan.validator_hotkey ≡ hotkey = (text_eq_iff plan.validator_hotkey hotkey).0 ph in
      record {
        same_network =
            (text_eq_iff s.network network).0 sn ∙ sym ((text_eq_iff plan.network network).0 pn);
        same_netuid = ground arith;
        version = ground arith;
        finalized = final;
        not_older = ground arith;
        not_expired = ground arith;
        permitted = rw same permit;
      }
