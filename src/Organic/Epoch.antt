-- ===== src/Organic/Epoch.antt =====
-- The rest of `_derive_epoch` (src/misscomputer_subnet/organic_scoring.py): dispositions,
-- availabilities and the status of the epoch.
pub mod Sound
pub mod Modes
pub mod CommonMode
use misscomputer_subnet.Prelude.{
  ℕ, zero, suc, ◌+◌, ◌*◌, ◌/◌, Text, text_eq, text_lt, Bool, true, false, not, ◌&&◌, ◌||◌, Option,
  none, some, List, [], ◌∷◌, ltb, leb, ◌==◌, any, map, keep, take, total, count, length,
  if◌then◌else◌, Result, ok, err,
}
use misscomputer_subnet.Prelude.Sorting.{sort}
use misscomputer_subnet.Prelude.Fractions.{Fraction, fraction}
use misscomputer_subnet.Organic.Types.{
  OrganicProbeObservation, ServingCorroboration, FraudEvidence, EndpointEpochTally, Disposition,
  abstain_insufficient_attempts, eligible, excluded_app_inconclusive, excluded_common_mode,
  EpochStatus, common_mode_unavailable, no_eligible_endpoints, scored,
}
use misscomputer_subnet.Organic.Tally.{Tally, Progress, Raises, tally_all}

abbrev pub max_corroboration_windows : ℕ
max_corroboration_windows = 64

-- whether every attempt at the endpoint ended in a path failure
abbrev pub is_path_down : Tally → Bool
is_path_down t = t.path_failures == t.attempts

abbrev pub path_down : List Tally → ℕ
path_down ts = count is_path_down ts

unfoldable pub is_common_mode : List Tally → Bool
is_common_mode ts = ltb 0 (length ts) && ltb (length ts) (path_down ts * 2)

abbrev pub app_fails : Text → Tally → Bool
app_fails deployment_id t = ltb 0 t.application_failures && text_eq t.deployment_id deployment_id

-- `app_failing[deployment_id]`
unfoldable pub app_failing : List Tally → Text → ℕ
app_failing ts deployment_id = count (app_fails deployment_id) ts

-- The list without the elements that stand again further on.
abbrev pub distinct_texts : List Text → List Text
distinct_texts [] = []
distinct_texts (t ∷ ts) = if any (text_eq t) ts then distinct_texts ts else t ∷ distinct_texts ts

unfoldable pub inconclusive_deployments : List Tally → List Text
unfolding app_failing
inconclusive_deployments ts = sort text_lt (
    keep (λ deployment. leb 2 (app_failing ts deployment))
      (distinct_texts (
        map (λ (t : Tally). t.deployment_id)
          (keep (λ (t : Tally). ltb 0 t.application_failures) ts))))

unfoldable pub disposition_of :
    (common_mode : Bool) (inconclusive : List Text) (min_attempts : ℕ) → Tally → Disposition
disposition_of common_mode inconclusive min_attempts t =
    if common_mode
    then excluded_common_mode
    else if any (text_eq t.deployment_id) inconclusive
    then excluded_app_inconclusive
    else if ltb t.attempts min_attempts
    then abstain_insufficient_attempts
    else eligible

abbrev pub is_eligible : Disposition → Bool
is_eligible eligible = true
is_eligible _ = false

abbrev pub availability : Disposition → Tally → Option Fraction
availability eligible t = some (fraction t.successes t.attempts)
availability _ t = none

abbrev numerator_of : Option Fraction → Option ℕ
numerator_of none = none
numerator_of (some q) = some q.numerator

abbrev denominator_of : Option Fraction → Option ℕ
denominator_of none = none
denominator_of (some q) = some q.denominator

-- the last window of each digest
abbrev latest : List ServingCorroboration → List ServingCorroboration
latest [] = []
latest (w ∷ ws) =
    if any (λ (v : ServingCorroboration). text_eq v.window_digest_sha256 w.window_digest_sha256) ws
    then latest ws
    else w ∷ latest ws

abbrev digest_before : ServingCorroboration → ServingCorroboration → Bool
digest_before a b = text_lt a.window_digest_sha256 b.window_digest_sha256

-- the corroborating windows of an endpoint, in the order of their digests
unfoldable pub endpoint_windows :
    (epoch_seconds epoch_index : ℕ) → List ServingCorroboration → Text → List ServingCorroboration
endpoint_windows epoch_seconds epoch_index corroboration endpoint_id =
    take max_corroboration_windows (
      sort digest_before (
        latest (
          keep
            (λ (w : ServingCorroboration).
              not w.origin
              && text_eq w.endpoint_id endpoint_id
              && leb (epoch_index * epoch_seconds) w.window_start_epoch
              && ltb w.window_start_epoch (epoch_index * epoch_seconds + epoch_seconds))
            corroboration)))

unfoldable pub endpoint_row : Disposition → List ServingCorroboration → Tally → EndpointEpochTally
endpoint_row disposition windows t = record {
  deployment_id = t.deployment_id;
  endpoint_id = t.endpoint_id;
  miner_uid = t.miner_uid;
  miner_hotkey = t.miner_hotkey;
  attempts = t.attempts;
  successes = t.successes;
  application_failures = t.application_failures;
  miner_failures = t.miner_failures;
  path_failures = t.path_failures;
  fraudulent_attestations = t.frauds;
  disposition = disposition;
  availability_numerator = numerator_of (availability disposition t);
  availability_denominator = denominator_of (availability disposition t);
  corroborating_windows = length windows;
  corroborating_requests = total (λ (w : ServingCorroboration). w.requests) windows;
}

-- the derived fields of an epoch record
pub record EpochFields : Type 0 where
  pub epoch_status : EpochStatus
  pub sampled_endpoint_count : ℕ
  pub path_unavailable_endpoint_count : ℕ
  pub inconclusive : List Text
  pub endpoints : List EndpointEpochTally
  pub fraud_evidence : List FraudEvidence

abbrev pub endpoint_before : Tally → Tally → Bool
endpoint_before a b = text_lt a.endpoint_id b.endpoint_id

abbrev pub fraud_before : FraudEvidence → FraudEvidence → Bool
fraud_before a b = text_lt a.observation_digest_sha256 b.observation_digest_sha256

abbrev pub row_is_eligible : EndpointEpochTally → Bool
row_is_eligible e = is_eligible e.disposition

unfoldable pub status_of : Bool → List EndpointEpochTally → EpochStatus
status_of common_mode rows =
    if common_mode
    then common_mode_unavailable
    else if count row_is_eligible rows == 0
    then no_eligible_endpoints
    else scored

module _ (epoch_seconds epoch_index min_attempts : ℕ)
    (corroboration : List ServingCorroboration) where
  -- the row of one of the tallies
  abbrev pub row_of : List Tally → Tally → EndpointEpochTally
  row_of ts t =
      endpoint_row (disposition_of (is_common_mode ts) (inconclusive_deployments ts) min_attempts t)
        (endpoint_windows epoch_seconds epoch_index corroboration t.endpoint_id) t

  unfoldable pub epoch_rows : List Tally → List EndpointEpochTally
  unfolding disposition_of is_common_mode inconclusive_deployments endpoint_row endpoint_windows
  epoch_rows ts = map (row_of ts) (sort endpoint_before ts)

  unfoldable pub epoch_of_tallies : Progress → EpochFields
  epoch_of_tallies p = record {
    epoch_status = status_of (is_common_mode p.tallies) (epoch_rows p.tallies);
    sampled_endpoint_count = length p.tallies;
    path_unavailable_endpoint_count = path_down p.tallies;
    inconclusive = inconclusive_deployments p.tallies;
    endpoints = epoch_rows p.tallies;
    fraud_evidence = sort fraud_before p.fraud;
  }

  abbrev finish : Raises Progress → Raises EpochFields
  finish (ok p) = ok (epoch_of_tallies p)
  finish (err e) = err e

  -- `_derive_epoch`
  unfoldable pub derive_epoch : List OrganicProbeObservation → Raises EpochFields
  derive_epoch observations = finish (
      tally_all epoch_seconds epoch_index observations
        (record { tallies = []; fraud = []; identities = [] }))
