-- ===== src/Executor/Vector/Weights.antt =====
-- The targets of a derived execution vector (`derive_execution_vector` of
-- src/misscomputer_subnet/weight_executor.py).
use misscomputer_subnet.Prelude.{
  ℕ, zero, suc, ◌+◌, ◌≡◌, refl, ap, ◌∙◌, Text, text_eq, Bool, true, not, List, [], ◌∷◌, ◌++◌, arith,
  map, all, inl, inr, Option-cases, Bool-cases, length, if◌then◌else◌, ok,
}
use misscomputer_subnet.Prelude.Floats.{Floats}
use misscomputer_subnet.Prelude.Sorting.{all-sort, insert, sort}
use misscomputer_subnet.Chain.{NeuronRecord, MetagraphSnapshot}
use misscomputer_subnet.Plan.Types.{WeightPlan, WeightPlanEntry}
use misscomputer_subnet.Executor.Types.{ExecutionWeight, OmittedWeight, ExecutionVector, Env}
use misscomputer_subnet.Plan.Normalize.{at_uid, current_neuron, add_at, normalize}
use misscomputer_subnet.Executor.Vector.{
  Retained, retained_before, omitted_before, is_active, resolve, assign, vector_of,
  derive_execution_vector,
}

-- how often a text stands in a list
abbrev pub occurrences : Text → List Text → ℕ
occurrences t [] = 0
occurrences t (x ∷ xs) = let n = occurrences t xs in if text_eq x t then suc n else n

occurrences-append :
    (t : Text) (xs ys : List Text) → occurrences t (xs ++ ys) ≡ occurrences t xs + occurrences t ys
occurrences-append t [] ys = omega arith
occurrences-append t (x ∷ xs) ys = ground (arith, occurrences-append t xs ys)

-- Sorting keeps how often a text is the name of an element.
module _ {A : Type 0} (before : A → A → Bool) (name : A → Text) (t : Text) where
  occurrences-insert :
      (x : A) (xs : List A)
      → occurrences t (map name (insert before x xs)) ≡ occurrences t (name x ∷ map name xs)
  unfolding insert
  occurrences-insert x [] = refl
  occurrences-insert x (y ∷ ys) = ground (arith, occurrences-insert x ys)

  occurrences-sort :
      (xs : List A) → occurrences t (map name (sort before xs)) ≡ occurrences t (map name xs)
  unfolding sort
  occurrences-sort [] = refl
  occurrences-sort (x ∷ xs) =
      ground (arith, occurrences-insert x (sort before xs), occurrences-sort xs)

abbrev retained_hotkey : Retained → Text
retained_hotkey r = r.hotkey

abbrev omitted_hotkey : OmittedWeight → Text
omitted_hotkey o = o.hotkey

abbrev weight_hotkey : ExecutionWeight → Text
weight_hotkey w = w.hotkey

abbrev planned_hotkey : WeightPlanEntry → Text
planned_hotkey e = e.hotkey

occurrences-resolve :
    (t : Text) (neurons : List NeuronRecord) (entries : List WeightPlanEntry)
    → occurrences t (map retained_hotkey (resolve neurons entries).0)
        + occurrences t (map omitted_hotkey (resolve neurons entries).1)
      ≡ occurrences t (map planned_hotkey entries)
unfolding resolve
occurrences-resolve t neurons [] = refl
occurrences-resolve t neurons (e ∷ rest) = ground (arith, occurrences-resolve t neurons rest)

module _ (fl : Floats) where
  length-add_at : (i amount : ℕ) (xs : List ℕ) → length (add_at fl i amount xs) ≡ length xs
  unfolding add_at
  length-add_at i amount [] = refl
  length-add_at zero amount (x ∷ xs) = refl
  length-add_at (suc i) amount (x ∷ xs) = ap suc (length-add_at i amount xs)

  length-normalize :
      (total : ℕ) (rs : List Retained)
      → length (normalize fl total (map (λ (r : Retained). r.weight) rs)) ≡ length rs
  unfolding normalize
  length-normalize total rs =
      length-add_at _ _ (map (λ w. fl.div_float w total) (map (λ (r : Retained). r.weight) rs))
      ∙ lengths rs
    where
      lengths :
          (rs : List Retained)
          → length (map (λ w. fl.div_float w total) (map (λ (r : Retained). r.weight) rs))
            ≡ length rs
      lengths [] = refl
      lengths (r ∷ rs) = ap suc (lengths rs)

occurrences-assign :
    (t : Text) (rs : List Retained) (ws : List ℕ)
    → length ws ≡ length rs
    → occurrences t (map weight_hotkey (assign rs ws)) ≡ occurrences t (map retained_hotkey rs)
unfolding assign
occurrences-assign t [] ws h = refl
occurrences-assign t (r ∷ rs) [] h = absurd (ground arith)
occurrences-assign t (r ∷ rs) (w ∷ ws) h = ground (arith, occurrences-assign t rs ws)

-- The weight's hotkey belongs to an active neuron, at the weight's UID.
abbrev pub is_current : List NeuronRecord → ExecutionWeight → Bool
is_current neurons w = at_uid w.uid (current_neuron w.hotkey neurons)

-- The omitted hotkey belongs to no active neuron.
abbrev pub is_gone : List NeuronRecord → OmittedWeight → Bool
is_gone neurons o = not (is_active (current_neuron o.hotkey neurons))

abbrev retained_current : List NeuronRecord → Retained → Bool
retained_current neurons r = at_uid r.uid (current_neuron r.hotkey neurons)

resolve-current :
    (neurons : List NeuronRecord) (entries : List WeightPlanEntry)
    → (all (retained_current neurons) (resolve neurons entries).0 ≡ true)
      × (all (is_gone neurons) (resolve neurons entries).1 ≡ true)
unfolding resolve
resolve-current neurons [] = (refl, refl)
resolve-current neurons (e ∷ rest) =
    let (retained, omitted) = resolve-current neurons rest in
    elim (Option-cases (current_neuron e.hotkey neurons)) [
      | inl none_found ↦ (ground arith, ground arith)
      | inr (n, found) ↦ elim (Bool-cases n.active) [
        | inl active ↦ (ground arith, ground arith)
        | inr inactive ↦ (ground arith, ground arith)
      ]
    ]

assign-current :
    (neurons : List NeuronRecord) (rs : List Retained) (ws : List ℕ)
    → all (retained_current neurons) rs ≡ true
    → all (is_current neurons) (assign rs ws) ≡ true
unfolding assign
assign-current neurons [] ws h = refl
assign-current neurons (r ∷ rs) [] h = refl
assign-current neurons (r ∷ rs) (w ∷ ws) h = ground (arith, assign-current neurons rs ws)

module _ (env : Env) (plan : WeightPlan) (s : MetagraphSnapshot) (network : Text) (netuid : ℕ)
    (hotkey : Text) where
  derive-vector_of :
      (v : ExecutionVector)
      → derive_execution_vector env plan s network netuid hotkey ≡ ok v
      → v
        ≡ vector_of env plan network netuid hotkey
            (resolve s.neurons plan.weights).0
            (resolve s.neurons plan.weights).1
  unfolding derive_execution_vector
  derive-vector_of v h = ground arith

  -- A derived vector carries the plan's digest.
  pub derive-plan_digest :
      (v : ExecutionVector)
      → derive_execution_vector env plan s network netuid hotkey ≡ ok v
      → v.plan_digest_sha256 ≡ env.plan_digest plan
  unfolding vector_of
  derive-plan_digest v h = ap (λ (x : ExecutionVector). x.plan_digest_sha256) (derive-vector_of v h)

  vector_of-occurrences :
      (t : Text) (retained : List Retained) (omitted : List OmittedWeight)
      → occurrences t
            (map weight_hotkey (vector_of env plan network netuid hotkey retained omitted).weights)
          + occurrences t (
              map omitted_hotkey
                (vector_of env plan network netuid hotkey retained omitted).omitted)
        ≡ occurrences t (map retained_hotkey retained) + occurrences t (map omitted_hotkey omitted)
  unfolding vector_of
  vector_of-occurrences t retained omitted =
      let ordered = sort retained_before retained in
      let planned = map (λ (r : Retained). r.weight) ordered in
      omega (
        arith,
        occurrences-assign t ordered (normalize env.floats (env.floats.fsum planned) planned)
            (length-normalize env.floats (env.floats.fsum planned) ordered),
        occurrences-sort retained_before retained_hotkey t retained,
        occurrences-sort omitted_before omitted_hotkey t omitted,
      )

  -- The targets and the omitted entries of a derived vector together name every hotkey as often
  -- as the plan does: no planned hotkey is lost, doubled or added.
  pub derive_partitions :
      (v : ExecutionVector) (t : Text)
      → derive_execution_vector env plan s network netuid hotkey ≡ ok v
      → occurrences t (map weight_hotkey v.weights) + occurrences t (map omitted_hotkey v.omitted)
        ≡ occurrences t (map planned_hotkey plan.weights)
  derive_partitions v t h = rw (derive-vector_of v h) (
      vector_of-occurrences t (resolve s.neurons plan.weights).0 (resolve s.neurons plan.weights).1
      ∙ occurrences-resolve t s.neurons plan.weights)

  vector_of-current :
      (neurons : List NeuronRecord) (retained : List Retained) (omitted : List OmittedWeight)
      → all (retained_current neurons) retained ≡ true
      → all (is_gone neurons) omitted ≡ true
      → (all
            (is_current neurons)
            (vector_of env plan network netuid hotkey retained omitted).weights
          ≡ true)
        × (all (is_gone neurons) (vector_of env plan network netuid hotkey retained omitted).omitted
            ≡ true)
  unfolding vector_of
  vector_of-current neurons retained omitted h k = (
    assign-current neurons (sort retained_before retained) _
        (all-sort retained_before (retained_current neurons) retained ∙ h),
    all-sort omitted_before (is_gone neurons) omitted ∙ k,
  )

  -- In a derived vector every weight is for a hotkey that is an active neuron of the snapshot, at
  -- its current UID, and every omitted hotkey is no active neuron of it.
  pub derive_current :
      (v : ExecutionVector)
      → derive_execution_vector env plan s network netuid hotkey ≡ ok v
      → (all (is_current s.neurons) v.weights ≡ true) × (all (is_gone s.neurons) v.omitted ≡ true)
  derive_current v h =
      let (current, gone) = resolve-current s.neurons plan.weights in
      rw (derive-vector_of v h) (
        vector_of-current s.neurons (resolve s.neurons plan.weights).0
          (resolve s.neurons plan.weights).1 current gone)
