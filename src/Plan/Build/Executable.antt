-- ===== src/Plan/Build/Executable.antt =====
-- What `build_weight_plan` of src/misscomputer_subnet/weight_plan.py promises to
-- src/misscomputer_subnet/weight_executor.py.
use misscomputer_subnet.Prelude.{
  ℕ, ◌≡◌, refl, ap, ◌∙◌, inl, inr, Text, text_eq, text_eq_iff, text_eq_refl, Bool, true, false, not,
  ◌&&◌, Option, none, some, List, [], ◌∷◌, all, any, map, find, distinct, arith, Bool-cases,
  Option-cases, ok,
}
use misscomputer_subnet.Prelude.Floats.{Floats}
use misscomputer_subnet.Prelude.Sorting.{sort, all-sort}
use misscomputer_subnet.Chain.{NeuronRecord, MetagraphSnapshot, by_hotkey}
use misscomputer_subnet.Plan.Types.{
  entry_before, WeightPlan, WeightPlanEntry, valid_snapshot, valid_plan,
}
use misscomputer_subnet.Plan.Identity.{valid_metagraph, snapshot_identity_fingerprint}
use misscomputer_subnet.Plan.Normalize.{at_uid, normalize, current_neuron, is_permitted}
use misscomputer_subnet.Plan.Build.{
  with_weights, accepts_row, WeightRow, positive_targets, conservative_expiry_block,
  build_weight_plan, entries_of, plan_of,
}
use misscomputer_subnet.Plan.Expiry.{plan-window}
use misscomputer_subnet.Executor.Types.{Env}
use misscomputer_subnet.Executor.Vector.{plan_protocol_version_key, validate_execution_preflight}

abbrev hotkey_of : NeuronRecord → Text
hotkey_of n = n.hotkey

current_neuron-absent :
    (hotkey : Text) (neurons : List NeuronRecord)
    → any (text_eq hotkey) (map hotkey_of neurons) ≡ false
    → current_neuron hotkey neurons ≡ none
unfolding current_neuron
current_neuron-absent hotkey [] h = refl
current_neuron-absent hotkey (n ∷ rest) h =
    let k = current_neuron-absent hotkey rest (ground arith) in
    elim (Bool-cases (text_eq n.hotkey hotkey)) [
      | inr other ↦ ground arith
      | inl own ↦
          let same : n.hotkey ≡ hotkey = (text_eq_iff n.hotkey hotkey).0 own in
          let h' = rw same at h in absurd (ground (arith, text_eq_refl hotkey))
    ]

-- Where no hotkey stands twice, the first neuron of a hotkey is the one that a dictionary keeps.
find-current_neuron :
    (hotkey : Text) (neurons : List NeuronRecord)
    → distinct text_eq (map hotkey_of neurons) ≡ true
    → find (λ (n : NeuronRecord). text_eq n.hotkey hotkey) neurons ≡ current_neuron hotkey neurons
unfolding current_neuron
find-current_neuron hotkey [] h = refl
find-current_neuron hotkey (n ∷ rest) h =
    let k = find-current_neuron hotkey rest (ground arith) in
    elim (Bool-cases (text_eq n.hotkey hotkey)) [
      | inr other ↦ elim (Option-cases (current_neuron hotkey rest)) [
        | inl nobody ↦ ground arith
        | inr (m, found) ↦ ground arith
      ]
      | inl own ↦
          let same : n.hotkey ≡ hotkey = (text_eq_iff n.hotkey hotkey).0 own in
          ground (arith, current_neuron-absent n.hotkey rest (ground arith))
    ]

-- The entry is for an active neuron at its UID, and not for the validator itself.
abbrev pub is_miner : Text → List NeuronRecord → WeightPlanEntry → Bool
is_miner validator_hotkey neurons e =
    not (text_eq e.hotkey validator_hotkey) && at_uid e.uid (current_neuron e.hotkey neurons)

positive_targets-miners :
    (fl : Floats) (hotkey : Text) (neurons : List NeuronRecord) (seen : List Text)
    (rows : List WeightRow) (positive : List WeightPlanEntry)
    → positive_targets fl hotkey neurons seen rows ≡ some positive
    → all (is_miner hotkey neurons) positive ≡ true
unfolding positive_targets accepts_row
positive_targets-miners fl hotkey neurons seen [] positive h = ground arith
positive_targets-miners fl hotkey neurons seen (row ∷ rows) positive h =
    elim (Option-cases (positive_targets fl hotkey neurons (row.miner_hotkey ∷ seen) rows)) [
      | inl refused ↦ absurd (ground arith)
      | inr (rest, accepted) ↦
          let later =
            positive_targets-miners fl hotkey neurons (row.miner_hotkey ∷ seen) rows rest
              accepted in
          elim (Option-cases (current_neuron row.miner_hotkey neurons)) [
            | inl nobody ↦ absurd (ground arith)
            | inr (n, found) ↦ elim (Bool-cases (fl.lt_float fl.zero_float row.weight)) [
              | inr nothing ↦ let same : positive ≡ rest = ground arith in rw same later
              | inl weighty ↦
                  let same : positive
                      ≡ record { uid = n.uid; hotkey = row.miner_hotkey; weight = row.weight }
                        ∷ rest =
                    ground arith in
                  rw same (ground arith)
            ]
          ]
    ]

with_weights-miners :
    (hotkey : Text) (neurons : List NeuronRecord) (es : List WeightPlanEntry) (ws : List ℕ)
    → all (is_miner hotkey neurons) es ≡ true
    → all (is_miner hotkey neurons) (with_weights es ws) ≡ true
with_weights-miners hotkey neurons [] ws h = refl
with_weights-miners hotkey neurons (e ∷ es) [] h = refl
with_weights-miners hotkey neurons (e ∷ es) (w ∷ ws) h =
    ground (arith, with_weights-miners hotkey neurons es ws)

module _ (env : Env) (s : MetagraphSnapshot) (hotkey : Text) (rows : List WeightRow)
    (version_key : ℕ) (p : WeightPlan) where
  abbrev pub built : Option WeightPlan
  built = build_weight_plan env.floats env.urlsplit env.snapshot_digest s hotkey rows version_key

  pub built-parts :
      built ≡ some p
      → (fingerprint : Text) × (entries : List WeightPlanEntry) × (expiry : ℕ)
        × (snapshot_identity_fingerprint env.floats env.urlsplit env.snapshot_digest s
            ≡ some fingerprint)
        × (entries_of env.floats env.urlsplit env.snapshot_digest
              (positive_targets env.floats hotkey s.neurons [] rows)
            ≡ some entries)
        × (is_permitted (current_neuron hotkey s.neurons) ≡ true)
        × (p
            ≡ plan_of env.floats env.urlsplit env.snapshot_digest s hotkey version_key fingerprint
                entries expiry)
        × (valid_snapshot p.snapshot ≡ true)
        × (valid_plan env.floats env.urlsplit p ≡ true)
  unfolding build_weight_plan
  built-parts h =
      elim (Option-cases
        (snapshot_identity_fingerprint env.floats env.urlsplit env.snapshot_digest s)) [
          | inl none_hashed ↦ absurd (ground arith)
          | inr (fingerprint, hashed) ↦
              elim (Option-cases (
                entries_of env.floats env.urlsplit env.snapshot_digest
                  (positive_targets env.floats hotkey s.neurons [] rows))) [
                    | inl refused ↦ absurd (ground arith)
                    | inr (entries, accepted) ↦
                        elim (Option-cases (
                          conservative_expiry_block env.floats env.urlsplit env.snapshot_digest
                            s)) [
                              | inl late ↦ absurd (ground arith)
                              | inr (expiry, limited) ↦ (
                                fingerprint,
                                entries,
                                expiry,
                                hashed,
                                accepted,
                                ground arith,
                                ground arith,
                                ground arith,
                                ground arith,
                              )
                            ]
                  ]
        ]

  hashed-parts :
      (fingerprint : Text)
      → snapshot_identity_fingerprint env.floats env.urlsplit env.snapshot_digest s
        ≡ some fingerprint
      → (s.finalized ≡ true) × (distinct text_eq (map hotkey_of s.neurons) ≡ true)
  unfolding snapshot_identity_fingerprint valid_metagraph
  hashed-parts fingerprint h = (ground arith, ground arith)

  -- A plan that is built for the executor's version key passes the executor's preflight on the
  -- snapshot it was built from.
  pub build-preflight :
      built ≡ some p
      → version_key ≡ plan_protocol_version_key
      → validate_execution_preflight env p s s.network s.netuid hotkey ≡ ok tt
  unfolding validate_execution_preflight by_hotkey
  build-preflight h version =
      let (fingerprint, entries, expiry, hashed, accepted, permitted, same, valid_s, valid_p) =
        built-parts h in
      let (final, apart) = hashed-parts fingerprint hashed in
      let (at, live, limit) = plan-window env.floats env.urlsplit p valid_p in
      let first = find-current_neuron hotkey s.neurons apart in
      let network : text_eq p.network s.network ≡ true =
        (text_eq_iff p.network s.network).1 (ap (λ (x : WeightPlan). x.network) same) in
      let own_network = text_eq_refl s.network in
      let netuid : p.netuid ≡ s.netuid = ap (λ (x : WeightPlan). x.netuid) same in
      let validator : text_eq p.validator_hotkey hotkey ≡ true =
        (text_eq_iff p.validator_hotkey hotkey).1
          (ap (λ (x : WeightPlan). x.validator_hotkey) same) in
      let key : p.version_key ≡ version_key = ap (λ (x : WeightPlan). x.version_key) same in
      let created : p.created_block ≡ s.block = ap (λ (x : WeightPlan). x.created_block) same in
      let allowed = ap is_permitted first ∙ permitted in ground arith

  entries-miners :
      (entries : List WeightPlanEntry)
      → entries_of env.floats env.urlsplit env.snapshot_digest
          (positive_targets env.floats hotkey s.neurons [] rows)
        ≡ some entries
      → all (is_miner hotkey s.neurons) entries ≡ true
  entries-miners entries h =
      elim (Option-cases (positive_targets env.floats hotkey s.neurons [] rows)) [
        | inl refused ↦ absurd (ground arith)
        | inr (positive, accepted) ↦
            let ordered = sort entry_before positive in
            let planned = map (λ (e : WeightPlanEntry). e.weight) ordered in
            let same : entries
                ≡ with_weights ordered (normalize env.floats (env.floats.fsum planned) planned) =
              ground arith in
            rw same (
              with_weights-miners hotkey s.neurons ordered _ (
                all-sort entry_before (is_miner hotkey s.neurons) positive
                ∙ positive_targets-miners env.floats hotkey s.neurons [] rows positive accepted))
      ]

  -- Every entry of a built plan is for an active neuron of the snapshot at its UID, and none is for
  -- the validator.
  pub build-miners : built ≡ some p → all (is_miner hotkey s.neurons) p.weights ≡ true
  build-miners h =
      let (fingerprint, entries, expiry, hashed, accepted, permitted, same, valid_s, valid_p) =
        built-parts h in
      rw (ap (λ (x : WeightPlan). x.weights) same) (entries-miners entries accepted)
