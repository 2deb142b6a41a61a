-- ===== src/Decision/Submitted.antt =====
-- What a decision to submit rests on (src/misscomputer_subnet/validator_decision.py).
use misscomputer_subnet.Prelude.{
  ℕ, ◌≤◌, ◌≡◌, refl, ap, ◌∙◌, ◌⊎◌, inl, inr, Text, text_eq_iff, Bool, true, Option, none, some,
  List, [], ◌∷◌, In, here, there, All, total, if◌then◌else◌, ltb, find, Bool-cases, ok, err, ◌>>=◌,
  ◌>>◌, arith,
}
use misscomputer_subnet.Prelude.Floats.{Floats}
use misscomputer_subnet.Prelude.Sorting.{sort, total-sort}
use misscomputer_subnet.Plan.Build.{WeightRow}
use misscomputer_subnet.Organic.Types.{
  ActiveAssignmentManifestV2, EpochStatus, scored, common_mode_unavailable, no_eligible_endpoints,
}
use misscomputer_subnet.Organic.Window.{
  OrganicEpochScore, MinerAvailability, OrganicAvailabilityScore, epoch_before, is_scored,
}
use misscomputer_subnet.Decision.Types.{
  AbstainReason, RegisteredMiner, TrustPolicyDocument, WeightDecisionRow, submit,
  ValidatorWeightDecision,
}
use misscomputer_subnet.Decision.Rules.{
  is_of, Raises, scored_miners, row_from, derive_rows, positive_rows,
}
use misscomputer_subnet.Decision.{
  Window, terminal_of, sealed_manifests, sealed_policies, score_of, check_epochs, scored_epochs,
  outcome_of, terminal_admitted, reasons_of, decide_from, decide_sorted, decide_weight_submission,
}
use misscomputer_subnet.Decision.Reasons.{IsTerminal, abstain_reasons-none}

-- The row has no weight, or its weight is the availability of a scored miner with the row's UID and
-- hotkey, against whom there is no fraud evidence.
abbrev pub IsEarned :
    Floats → (ℕ → ℕ → ℕ) → Option OrganicAvailabilityScore → WeightDecisionRow → Type 0
IsEarned fl ratio score row =
    (row.weight ≡ fl.zero_float)
    ⊎ ((a : MinerAvailability) × In a (scored_miners score)
        × (a.miner_uid ≡ row.uid)
        × (a.miner_hotkey ≡ row.hotkey)
        × (a.fraudulent_attestations ≡ 0)
        × (row.weight ≡ ratio a.availability_numerator a.availability_denominator))

find-found :
    (p : MinerAvailability → Bool) (as_ : List MinerAvailability) (a : MinerAvailability)
    → find p as_ ≡ some a
    → In a as_ × (p a ≡ true)
find-found p [] a h = absurd (ground arith)
find-found p (x ∷ xs) a h = elim (Bool-cases (p x)) [
  | inl passes ↦ let same : x ≡ a = ground arith in rw (← same) (here, passes)
  | inr fails ↦ let (m, e) = find-found p xs a (ground arith) in (there m, e)
]

row_from-IsEarned :
    (fl : Floats) (ratio : ℕ → ℕ → ℕ) (score : Option OrganicAvailabilityScore)
    (miner : RegisteredMiner) (o : Option MinerAvailability)
    → find (is_of miner) (scored_miners score) ≡ o
    → IsEarned fl ratio score (row_from fl ratio miner o)
row_from-IsEarned fl ratio score miner none h = inl refl
row_from-IsEarned fl ratio score miner (some a) h =
    let (m, own) = find-found (is_of miner) (scored_miners score) a h in
    elim (Bool-cases (ltb 0 a.fraudulent_attestations)) [
      | inl fraud ↦ inl (rw fraud refl)
      | inr honest ↦ inr (
        a,
        m,
        ground arith,
        (text_eq_iff a.miner_hotkey miner.hotkey).0 (ground arith),
        ground arith,
        rw honest refl,
      )
    ]

derive_rows-IsEarned :
    (fl : Floats) (ratio : ℕ → ℕ → ℕ) (score : Option OrganicAvailabilityScore)
    (miners : List RegisteredMiner)
    → All (IsEarned fl ratio score) (derive_rows fl ratio miners score)
unfolding derive_rows
derive_rows-IsEarned fl ratio score [] = tt
derive_rows-IsEarned fl ratio score (miner ∷ miners) = (
  row_from-IsEarned fl ratio score miner (find (is_of miner) (scored_miners score)) refl,
  derive_rows-IsEarned fl ratio score miners,
)

-- one for a scored epoch
abbrev pub points : EpochStatus → ℕ
points scored = 1
points common_mode_unavailable = 0
points no_eligible_endpoints = 0

points-is_scored : (s : EpochStatus) → points s ≡ (if is_scored s then 1 else 0)
points-is_scored scored = refl
points-is_scored common_mode_unavailable = refl
points-is_scored no_eligible_endpoints = refl

abbrev pub scored_points : OrganicEpochScore → ℕ
scored_points v = points v.epoch_status

module _ (fl : Floats) (ratio : ℕ → ℕ → ℕ)
    (admits : TrustPolicyDocument → ActiveAssignmentManifestV2 → ℕ → Bool)
    (row_digest : List WeightRow → Text) where
  decide_sorted-parts :
      (w : Window) (values : List OrganicEpochScore) (d : ValidatorWeightDecision)
      → decide_sorted fl ratio admits row_digest w values ≡ ok d
      → (terminal : Option ActiveAssignmentManifestV2) × (policies : List TrustPolicyDocument)
        × (score : Option OrganicAvailabilityScore) × (terminal_of w ≡ ok terminal)
        × (score_of values ≡ ok score)
        × (decide_from fl ratio admits row_digest w values terminal policies score ≡ d)
  decide_sorted-parts w values d h = go (check_epochs w values) (terminal_of w) refl h
    where
      inner :
          (terminal : Option ActiveAssignmentManifestV2) (q : Raises (List TrustPolicyDocument))
          (r : Raises (Option OrganicAvailabilityScore))
          → terminal_of w ≡ ok terminal
          → score_of values ≡ r
          → (q >>= λ policies. r >>= λ score.
              ok (decide_from fl ratio admits row_digest w values terminal policies score))
            ≡ ok d
          → (terminal : Option ActiveAssignmentManifestV2) × (policies : List TrustPolicyDocument)
            × (score : Option OrganicAvailabilityScore) × (terminal_of w ≡ ok terminal)
            × (score_of values ≡ ok score)
            × (decide_from fl ratio admits row_digest w values terminal policies score ≡ d)
      inner terminal (err e) r a b h = absurd (ground arith)
      inner terminal (ok policies) (err e) a b h = absurd (ground arith)
      inner terminal (ok policies) (ok score) a b h =
          (terminal, policies, score, a, b, ground arith)

      go :
          (c : Raises (Unit {0})) (t : Raises (Option ActiveAssignmentManifestV2))
          → terminal_of w ≡ t
          → (c
              >> (t >>= λ terminal.
                  (sealed_policies (sealed_manifests values terminal w.manifests) w.trust_policies
                    >>= λ policies. score_of values >>= λ score.
                        ok (
                          decide_from fl ratio admits row_digest w values terminal policies
                            score))))
            ≡ ok d
          → (terminal : Option ActiveAssignmentManifestV2) × (policies : List TrustPolicyDocument)
            × (score : Option OrganicAvailabilityScore) × (terminal_of w ≡ ok terminal)
            × (score_of values ≡ ok score)
            × (decide_from fl ratio admits row_digest w values terminal policies score ≡ d)
      go (err e) t a h = absurd (ground arith)
      go (ok tt) (err e) a h = absurd (ground arith)
      go (ok tt) (ok terminal) a h =
          inner terminal
            (sealed_policies (sealed_manifests values terminal w.manifests) w.trust_policies)
            (score_of values) a refl h

  scored_epochs-total :
      (values : List OrganicEpochScore) → scored_epochs values ≡ total scored_points values
  scored_epochs-total [] = refl
  scored_epochs-total (v ∷ values) =
      ground (arith, scored_epochs-total values, points-is_scored v.epoch_status)

  submitted-reasons : (reasons : List AbstainReason) → outcome_of reasons ≡ submit → reasons ≡ []
  submitted-reasons [] h = refl
  submitted-reasons (x ∷ xs) h = absurd (ground arith)

  -- A decision to submit rests on a terminal manifest that is verified and admitted, was looked at
  -- after the window's end and is still valid at it; on a registered set that is not of an earlier
  -- height or epoch than the manifest's block, not further above it than the policy allows, and, at
  -- the same height, of the same block hash and epoch; on enough epochs whose status is scored; and every row's weight is zero, or the availability that the score of
  -- the window's epochs gives to the miner of the row, without fraud evidence.
  pub decide_submit :
      (epochs : List OrganicEpochScore) (w : Window) (d : ValidatorWeightDecision)
      → decide_weight_submission fl ratio admits row_digest epochs w ≡ ok d
      → d.decision ≡ submit
      → IsTerminal w d.terminal_manifest (
          terminal_admitted fl ratio admits row_digest d.terminal_manifest d.trust_policies
            w.terminal.evaluated_at_epoch)
        × (w.decision_policy.min_scored_epochs ≤ total scored_points epochs)
        × (score_of (sort epoch_before epochs) ≡ ok d.availability_score)
        × All (IsEarned fl ratio d.availability_score) d.rows
  unfolding decide_weight_submission
  decide_submit epochs w d h submits =
      let values = sort epoch_before epochs in
      let (terminal, policies, score, t, given, same) = decide_sorted-parts w values d h in
      let rows = derive_rows fl ratio w.registered.miners score in
      let none_left =
        submitted-reasons (reasons_of fl ratio admits row_digest w values terminal policies rows)
          (ap (λ (x : ValidatorWeightDecision). x.decision) same ∙ submits) in
      let (chain, enough, _) =
        abstain_reasons-none w terminal
          (terminal_admitted fl ratio admits row_digest terminal policies
            w.terminal.evaluated_at_epoch)
          (scored_epochs values) (positive_rows fl ratio rows) t none_left in
      let scored_enough : w.decision_policy.min_scored_epochs ≤ total scored_points epochs =
        omega (
          arith,
          scored_epochs-total values,
          total-sort epoch_before scored_points epochs,
          enough,
        ) in
      rw (← same)
        (chain, scored_enough, given, derive_rows-IsEarned fl ratio score w.registered.miners)
