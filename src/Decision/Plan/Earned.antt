-- ===== src/Decision/Plan/Earned.antt =====
-- Whom a plan that is built from a decision pays (src/misscomputer_subnet/weight_plan.py).
use misscomputer_subnet.Prelude.{
  ℕ, ◌≡◌, refl, sym, ap, ◌∙◌, inl, inr, Text, Bool, true, false, Option, none, some, List, [], ◌∷◌,
  In, here, there, All, all, all-In, map, Bool-cases, Option-cases, ok, arith,
}
use misscomputer_subnet.Prelude.Floats.{Floats}
use misscomputer_subnet.Prelude.Sorting.{sort, All-sort}
use misscomputer_subnet.Chain.{NeuronRecord, MetagraphSnapshot}
use misscomputer_subnet.Plan.Types.{WeightPlan, WeightPlanEntry, entry_before}
use misscomputer_subnet.Plan.Normalize.{current_neuron, normalize}
use misscomputer_subnet.Plan.Build.{
  WeightRow, with_weights, accepts_row, positive_targets, entries_of, build_weight_plan,
}
use misscomputer_subnet.Plan.Build.Executable.{built-parts}
use misscomputer_subnet.Executor.Types.{Env}
use misscomputer_subnet.Organic.Types.{ActiveAssignmentManifestV2}
use misscomputer_subnet.Organic.Window.{
  OrganicEpochScore, MinerAvailability, OrganicAvailabilityScore, epoch_before,
}
use misscomputer_subnet.Decision.Types.{
  TrustPolicyDocument, WeightDecisionRow, Outcome, submit, abstain, ValidatorWeightDecision,
}
use misscomputer_subnet.Decision.Rules.{plan_row, plan_rows, scored_miners}
use misscomputer_subnet.Decision.{Window, score_of, decide_weight_submission}
use misscomputer_subnet.Decision.Submitted.{IsEarned, decide_submit}
use misscomputer_subnet.Decision.Plan.{
  is_submit, has_uid, row_is_current, is_submission, is_bound, build_weight_plan_from_decision,
}

-- The entry is for a row of its hotkey with a weight above zero, at the UID of the current neuron.
abbrev IsRow : Floats → List NeuronRecord → List WeightRow → WeightPlanEntry → Type 0
IsRow fl neurons rows e =
    (w : WeightRow) × In w rows
    × (w.miner_hotkey ≡ e.hotkey)
    × (fl.lt_float fl.zero_float w.weight ≡ true)
    × (has_uid e.uid (current_neuron e.hotkey neurons) ≡ true)

module _ (fl : Floats) (hotkey : Text) (neurons : List NeuronRecord)
    (all_rows : List WeightRow) where
  positive_targets-IsRow :
      (seen : List Text) (rows : List WeightRow) (positive : List WeightPlanEntry)
      → ((w : WeightRow) → In w rows → In w all_rows)
      → positive_targets fl hotkey neurons seen rows ≡ some positive
      → All (IsRow fl neurons all_rows) positive
  unfolding positive_targets accepts_row
  positive_targets-IsRow seen [] positive f h =
      let same : [] ≡ positive = ground arith in rw (← same) tt
  positive_targets-IsRow seen (row ∷ rows) positive f h =
      elim (Option-cases (positive_targets fl hotkey neurons (row.miner_hotkey ∷ seen) rows)) [
        | inl refused ↦ absurd (ground arith)
        | inr (rest, accepted) ↦
            let later =
              positive_targets-IsRow (row.miner_hotkey ∷ seen) rows rest (λ w m. f w (there m))
                accepted in
            elim (Option-cases (current_neuron row.miner_hotkey neurons)) [
              | inl nobody ↦ absurd (ground arith)
              | inr (n, found) ↦ elim (Bool-cases (fl.lt_float fl.zero_float row.weight)) [
                | inr nothing ↦ let same : positive ≡ rest = ground arith in rw same later
                | inl weighty ↦
                    let same : positive
                        ≡ record { uid = n.uid; hotkey = row.miner_hotkey; weight = row.weight }
                          ∷ rest =
                      ground arith in
                    rw same ((row, f row here, refl, weighty, rw found (ground arith)), later)
              ]
            ]
      ]

  with_weights-IsRow :
      (es : List WeightPlanEntry) (ws : List ℕ)
      → All (IsRow fl neurons all_rows) es
      → All (IsRow fl neurons all_rows) (with_weights es ws)
  with_weights-IsRow [] ws a = tt
  with_weights-IsRow (e ∷ es) [] a = tt
  with_weights-IsRow (e ∷ es) (w ∷ ws) (first, rest) = (first, with_weights-IsRow es ws rest)

In-plan_rows :
    (rows : List WeightDecisionRow) (w : WeightRow)
    → In w (plan_rows rows)
    → (r : WeightDecisionRow) × In r rows × (plan_row r ≡ w)
In-plan_rows [] w m = elim m [ ]
In-plan_rows (r ∷ rows) _ here = (r, here, refl)
In-plan_rows (r ∷ rows) w (there m) = let (q, n, e) = In-plan_rows rows w m in (q, there n, e)

All-In {ℓ κ} : {A : Type ℓ} (P : A → Type κ) (xs : List A) (x : A) → All P xs → In x xs → P x
All-In P [] x a m = elim m [ ]
All-In P (y ∷ ys) _ (first, rest) here = first
All-In P (y ∷ ys) x (first, rest) (there m) = All-In P ys x rest m

-- The entry is for a row of the decision with a weight above zero.
abbrev pub IsWeighted : Floats → ValidatorWeightDecision → WeightPlanEntry → Type 0
IsWeighted fl d e =
    (r : WeightDecisionRow) × In r d.rows
    × (r.uid ≡ e.uid)
    × (r.hotkey ≡ e.hotkey)
    × (fl.lt_float fl.zero_float r.weight ≡ true)

same_uid : (a b : ℕ) (n : Option NeuronRecord) → has_uid a n ≡ true → has_uid b n ≡ true → a ≡ b
same_uid a b none h k = absurd (ground arith)
same_uid a b (some n) h k = ground arith

IsRow-IsWeighted :
    (fl : Floats) (neurons : List NeuronRecord) (d : ValidatorWeightDecision) (e : WeightPlanEntry)
    → all (row_is_current neurons) d.rows ≡ true
    → IsRow fl neurons (plan_rows d.rows) e
    → IsWeighted fl d e
IsRow-IsWeighted fl neurons d e current (w, m, own, weighty, at) =
    let (r, n, same) = In-plan_rows d.rows w m in
    let hotkey : r.hotkey ≡ e.hotkey = ap (λ (x : WeightRow). x.miner_hotkey) same ∙ own in
    let known : has_uid r.uid (current_neuron e.hotkey neurons) ≡ true =
      rw (← hotkey) (all-In (row_is_current neurons) n current) in
    (
      r,
      n,
      same_uid r.uid e.uid (current_neuron e.hotkey neurons) known at,
      hotkey,
      ap (λ (x : WeightRow). fl.lt_float fl.zero_float x.weight) same ∙ weighty,
    )

All-both {ℓ κ ν} :
    {A : Type ℓ} (P : A → Type κ) (Q : A → Type ν) (f : (x : A) → P x → Q x) (xs : List A)
    → All P xs
    → All Q xs
All-both P Q f [] a = tt
All-both P Q f (x ∷ xs) (first, rest) = (f x first, All-both P Q f xs rest)

module _ (env : Env) (row_digest : List WeightRow → Text) where
  entries-IsRow :
      (s : MetagraphSnapshot) (hotkey : Text) (rows : List WeightRow)
      (entries : List WeightPlanEntry)
      → entries_of env.floats env.urlsplit env.snapshot_digest
          (positive_targets env.floats hotkey s.neurons [] rows)
        ≡ some entries
      → All (IsRow env.floats s.neurons rows) entries
  entries-IsRow s hotkey rows entries h =
      elim (Option-cases (positive_targets env.floats hotkey s.neurons [] rows)) [
        | inl refused ↦ absurd (ground arith)
        | inr (positive, accepted) ↦
            let ordered = sort entry_before positive in
            let planned = map (λ (e : WeightPlanEntry). e.weight) ordered in
            let same : entries
                ≡ with_weights ordered (normalize env.floats (env.floats.fsum planned) planned) =
              ground arith in
            rw same (
              with_weights-IsRow env.floats hotkey s.neurons rows ordered _ (
                All-sort entry_before (IsRow env.floats s.neurons rows) positive (
                  positive_targets-IsRow env.floats hotkey s.neurons rows [] rows positive
                    (λ w m. m) accepted)))
      ]

  pub built-IsWeighted :
      (d : ValidatorWeightDecision) (s : MetagraphSnapshot) (hash : Text) (version_key : ℕ)
      (p : WeightPlan)
      → build_weight_plan_from_decision env.floats env.urlsplit env.snapshot_digest row_digest d s
          hash version_key
        ≡ some p
      → (d.decision ≡ submit)
        × (s.block ≡ d.registered_finalized_height)
        × All (IsWeighted env.floats d) p.weights
  unfolding build_weight_plan_from_decision is_submission is_bound
  built-IsWeighted d s hash version_key p h =
      let built : build_weight_plan env.floats env.urlsplit env.snapshot_digest s d.validator_hotkey
            (plan_rows d.rows) version_key
          ≡ some p =
        ground arith in
      let (fingerprint, entries, expiry, hashed, accepted, permitted, same, valid_s, valid_p) =
        built-parts env s d.validator_hotkey (plan_rows d.rows) version_key p built in
      (
        submitted d.decision (ground arith),
        ground arith,
        rw (ap (λ (x : WeightPlan). x.weights) same) (
            All-both (IsRow env.floats s.neurons (plan_rows d.rows)) (IsWeighted env.floats d)
              (λ e. IsRow-IsWeighted env.floats s.neurons d e (ground arith)) entries
              (entries-IsRow s d.validator_hotkey (plan_rows d.rows) entries accepted)),
      )
    where
      submitted : (o : Outcome) → is_submit o ≡ true → o ≡ submit
      submitted submit e = refl
      submitted abstain e = absurd (ground arith)

-- The entry is for a miner of the score with a good availability and no fraud evidence.
abbrev pub IsPaid :
    Floats → (ℕ → ℕ → ℕ) → Option OrganicAvailabilityScore → WeightPlanEntry → Type 0
IsPaid fl ratio score e =
    (a : MinerAvailability) × In a (scored_miners score)
    × (a.miner_uid ≡ e.uid)
    × (a.miner_hotkey ≡ e.hotkey)
    × (a.fraudulent_attestations ≡ 0)
    × (fl.lt_float fl.zero_float (ratio a.availability_numerator a.availability_denominator) ≡ true)

IsWeighted-IsPaid :
    (fl : Floats) (ratio : ℕ → ℕ → ℕ) (d : ValidatorWeightDecision) (e : WeightPlanEntry)
    → fl.lt_float fl.zero_float fl.zero_float ≡ false
    → All (IsEarned fl ratio d.availability_score) d.rows
    → IsWeighted fl d e
    → IsPaid fl ratio d.availability_score e
IsWeighted-IsPaid fl ratio d e strict earned (r, m, uid, hotkey, weighty) =
    go (All-In (IsEarned fl ratio d.availability_score) d.rows r earned m)
  where
    go : IsEarned fl ratio d.availability_score r → IsPaid fl ratio d.availability_score e
    go (inl nothing) = absurd (ground (arith, ap (fl.lt_float fl.zero_float) nothing))
    go (inr (a, n, a_uid, a_hotkey, honest, share)) = (
      a,
      n,
      a_uid ∙ uid,
      a_hotkey ∙ hotkey,
      honest,
      sym (ap (fl.lt_float fl.zero_float) share) ∙ weighty,
    )

-- A plan that is built from a decision, which was made from an epochs' window, is for the snapshot
-- at the height that was registered, and each of its entries is for the UID and hotkey of a miner
-- that the window's score lists with an availability above zero and without fraud evidence. That
-- zero is not below zero is all that is asked of the floats.
pub plan_entries-IsPaid :
    (env : Env) (ratio : ℕ → ℕ → ℕ)
    (admits : TrustPolicyDocument → ActiveAssignmentManifestV2 → ℕ → Bool)
    (row_digest : List WeightRow → Text) (epochs : List OrganicEpochScore) (w : Window)
    (d : ValidatorWeightDecision) (s : MetagraphSnapshot) (hash : Text) (version_key : ℕ)
    (p : WeightPlan)
    → env.floats.lt_float env.floats.zero_float env.floats.zero_float ≡ false
    → decide_weight_submission env.floats ratio admits row_digest epochs w ≡ ok d
    → build_weight_plan_from_decision env.floats env.urlsplit env.snapshot_digest row_digest d s
        hash version_key
      ≡ some p
    → (s.block ≡ d.registered_finalized_height)
      × (score_of (sort epoch_before epochs) ≡ ok d.availability_score)
      × All (IsPaid env.floats ratio d.availability_score) p.weights
plan_entries-IsPaid env ratio admits row_digest epochs w d s hash version_key p strict decided
      built =
    let (submits, block, weighted) = built-IsWeighted env row_digest d s hash version_key p built in
    let (_, _, scored, earned) =
      decide_submit env.floats ratio admits row_digest epochs w d decided submits in
    (
      block,
      scored,
      All-both (IsWeighted env.floats d) (IsPaid env.floats ratio d.availability_score)
          (λ e. IsWeighted-IsPaid env.floats ratio d e strict earned) p.weights weighted,
    )
