-- ===== src/Organic/Tests.antt =====
-- The scoring of organic endpoints on the samples.
use mathlib.Core.List.{Permᴰ}
use misscomputer_subnet.Prelude.{
  count, ◌*◌, ◌<◌, ◌≡◌, ◌↔◌, refl, codes, text_eq, text_lt, true, [], ◌∷◌, All, total, length,
  distinct, ok, err,
}
use misscomputer_subnet.Prelude.Sorting.{sort, insert}
use misscomputer_subnet.Prelude.Gcd.{gcd}
use misscomputer_subnet.Prelude.Fractions.{fraction, add_fractions, divide_fraction}
use misscomputer_subnet.Organic.Types.{
  EndpointEpochTally, excluded_common_mode, common_mode_unavailable, scoring_observation_duplicate,
  scoring_manifest_unknown,
}
use misscomputer_subnet.Organic.Tally.{
  tally_observation, identity_agrees, add_observation, tally_all,
}
use misscomputer_subnet.Organic.Epoch.{
  app_failing, inconclusive_deployments, status_of, epoch_rows, epoch_of_tallies, derive_epoch,
}
use misscomputer_subnet.Organic.Epoch.CommonMode.{saw_path_only, common_mode_iff}
use misscomputer_subnet.Organic.Epoch.Sound.{IsSplit, IsCountOf, IsRated, derive_epoch_sound}
use misscomputer_subnet.Organic.Epoch.Modes.{
  uncorroborated, derive_epoch-uncorroborated, common_mode_excludes,
}
use misscomputer_subnet.Organic.Evidence.{canonical_observation, verify_against_manifest}
use misscomputer_subnet.Organic.Window.{
  MinerAvailability, add_share, add_frauds, add_endpoint, add_endpoints, add_epochs, check_window,
  miner_row, aggregate_organic_window,
}
use misscomputer_subnet.Organic.Window.Means.{IsDerived, IsMean, eligible_rows, aggregate-IsMean}
use misscomputer_subnet.Organic.Score.{
  manifest_get, observation_before, check_observation, check_observations, score_organic_epoch,
}
use misscomputer_subnet.Organic.Score.Grounded.{nonces_of}
use misscomputer_subnet.Organic.Score.Backed.{
  IsGrounded, IsRederived, score_organic_epoch-IsGrounded,
}
use misscomputer_subnet.Organic.Score.Order.{score_organic_epoch-order}
use misscomputer_subnet.Organic.Samples.{
  signed_by, no_digest, good_probe, lost_probe, probes, the_request, scored_fields, down_fields,
  the_score, the_availability, the_window, failing_pair,
}

scored_test : derive_epoch 300 10 2 [] probes ≡ ok scored_fields
unfolding derive_epoch tally_all add_observation tally_observation identity_agrees epoch_of_tallies
    epoch_rows status_of text_eq text_lt sort insert fraction gcd inconclusive_deployments
scored_test = refl

down_test : derive_epoch 300 10 2 [] (lost_probe ∷ []) ≡ ok down_fields
unfolding derive_epoch tally_all add_observation tally_observation identity_agrees epoch_of_tallies
    epoch_rows status_of text_eq text_lt sort insert fraction gcd inconclusive_deployments
down_test = refl

score_test : score_organic_epoch signed_by no_digest the_request probes ≡ ok the_score
unfolding score_organic_epoch derive_epoch tally_all add_observation tally_observation
    identity_agrees epoch_of_tallies epoch_rows status_of text_eq text_lt sort insert fraction gcd
    inconclusive_deployments check_observations check_observation verify_against_manifest
    manifest_get
score_test = refl

unpublished_test :
    score_organic_epoch signed_by no_digest (record the_request { manifests = [] }) probes
    ≡ err scoring_manifest_unknown
unfolding score_organic_epoch check_observations check_observation verify_against_manifest
    manifest_get text_eq
unpublished_test = refl

repeated_test :
    score_organic_epoch signed_by no_digest the_request (lost_probe ∷ lost_probe ∷ [])
    ≡ err scoring_observation_duplicate
unfolding score_organic_epoch check_observations check_observation verify_against_manifest
    manifest_get text_eq
repeated_test = refl

canonical_test : All (λ o. canonical_observation o ≡ true) probes
unfolding canonical_observation text_eq
canonical_test = (refl, (refl, (refl, tt)))

swapped_probes : Permᴰ probes (good_probe (codes "n2") ∷ good_probe (codes "n1") ∷ lost_probe ∷ [])
swapped_probes = Permᴰ.swap refl refl

window_test : aggregate_organic_window (the_score ∷ []) ≡ ok the_availability
unfolding aggregate_organic_window check_window add_epochs add_endpoints add_endpoint add_share
    add_frauds identity_agrees miner_row divide_fraction add_fractions fraction gcd sort insert
    text_eq text_lt
window_test = refl

derive_epoch_sound_example :
    (total (λ (e : EndpointEpochTally). e.attempts) scored_fields.endpoints ≡ length probes)
    × All (λ e. IsSplit e × IsRated 2 e) scored_fields.endpoints
    × All (IsCountOf probes) scored_fields.endpoints
derive_epoch_sound_example = derive_epoch_sound 300 10 2 [] probes scored_fields scored_test

derive_epoch-uncorroborated_example :
    uncorroborated (derive_epoch 300 10 2 the_window probes)
    ≡ uncorroborated (derive_epoch 300 10 2 [] probes)
derive_epoch-uncorroborated_example = derive_epoch-uncorroborated 300 10 2 the_window [] probes

common_mode_iff_example : (down_fields.epoch_status ≡ common_mode_unavailable) ↔ (
    length down_fields.endpoints
    < count
        (λ (e : EndpointEpochTally). saw_path_only (lost_probe ∷ []) e.endpoint_id)
        down_fields.endpoints
      * 2)
common_mode_iff_example = common_mode_iff 300 10 2 [] (lost_probe ∷ []) down_fields down_test

common_mode_excludes_example :
    All (λ (e : EndpointEpochTally). e.disposition ≡ excluded_common_mode) down_fields.endpoints
common_mode_excludes_example =
    common_mode_excludes 300 10 2 [] (lost_probe ∷ []) down_fields down_test refl

inconclusive_test : inconclusive_deployments failing_pair ≡ codes "d" ∷ []
unfolding inconclusive_deployments app_failing text_eq text_lt sort insert
inconclusive_test = refl

score_organic_epoch-IsGrounded_example :
    (the_score.observations ≡ sort observation_before probes)
    × IsRederived the_score
    × (distinct text_eq (nonces_of probes) ≡ true)
    × All (IsGrounded signed_by no_digest the_request) probes
score_organic_epoch-IsGrounded_example =
    score_organic_epoch-IsGrounded signed_by no_digest the_request probes the_score canonical_test
      score_test

score_organic_epoch-order_example :
    score_organic_epoch signed_by no_digest the_request
      (good_probe (codes "n2") ∷ good_probe (codes "n1") ∷ lost_probe ∷ [])
    ≡ ok the_score
score_organic_epoch-order_example =
    score_organic_epoch-order signed_by no_digest the_request probes
      (good_probe (codes "n2") ∷ good_probe (codes "n1") ∷ lost_probe ∷ []) the_score swapped_probes
      score_test

the_score-IsDerived : All IsDerived (the_score ∷ [])
the_score-IsDerived = ((scored_fields, scored_test, refl), tt)

aggregate-IsMean_example :
    All IsMean the_availability.miners
    × (total (λ (m : MinerAvailability). m.eligible_endpoint_epochs) the_availability.miners
        ≡ total eligible_rows (the_score ∷ []))
aggregate-IsMean_example =
    aggregate-IsMean (the_score ∷ []) the_availability the_score-IsDerived window_test
