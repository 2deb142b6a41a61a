-- ===== src/Organic/Score.antt =====
-- `score_organic_epoch` of src/misscomputer_subnet/organic_scoring.py: the checks of every
-- observation in front of `_derive_epoch`, and the sealed record.
pub mod Grounded
pub mod Backed
pub mod Order
use misscomputer_subnet.Prelude.{
  ℕ, ◌*◌, ◌/◌, Text, text_eq, text_lt, Bool, true, false, not, ◌&&◌, ◌||◌, Option, none, some, List,
  [], ◌∷◌, ltb, leb, ◌==◌, any, map, length, if◌then◌else◌, Result, ok, err, ◌>>=◌, ◌>>◌, raise_if,
}
use misscomputer_subnet.Prelude.Sorting.{sort}
use misscomputer_subnet.Organic.Types.{
  MinerProbeAttestationV2, OrganicProbeObservation, ServingCorroboration,
  ActiveAssignmentManifestV2, ScoringRejectionCode, scoring_attempts_overflow,
  scoring_epoch_mismatch, scoring_observation_duplicate, scoring_policy_invalid,
  scoring_validator_mismatch,
}
use misscomputer_subnet.Organic.Tally.{Raises, max_attempts_per_endpoint}
use misscomputer_subnet.Organic.Epoch.{EpochFields, derive_epoch, distinct_texts}
use misscomputer_subnet.Organic.Evidence.{verify_against_manifest}
use misscomputer_subnet.Organic.Window.{OrganicEpochScore}

abbrev pub max_observations : ℕ
max_observations = 4096 * 8 * 16

-- `_manifest_index(manifests).get(digest)`: of two manifests with the digest, the later one
unfoldable pub manifest_get :
    Text → List ActiveAssignmentManifestV2 → Option ActiveAssignmentManifestV2
manifest_get digest [] = none
manifest_get digest (m ∷ ms) = elim (manifest_get digest ms) [
  | some later ↦ some later
  | none ↦ if text_eq m.manifest_digest_sha256 digest then some m else none
]

-- `_observation_order`
abbrev pub observation_before : OrganicProbeObservation → OrganicProbeObservation → Bool
observation_before a b =
    if not (text_eq a.endpoint_id b.endpoint_id)
    then text_lt a.endpoint_id b.endpoint_id
    else if not (a.issued_at == b.issued_at)
    then ltb a.issued_at b.issued_at
    else text_lt a.probe_nonce b.probe_nonce

abbrev same_window : ServingCorroboration → ServingCorroboration → Bool
same_window a b =
    text_eq a.endpoint_id b.endpoint_id && text_eq a.window_digest_sha256 b.window_digest_sha256

abbrev pub window_before : ServingCorroboration → ServingCorroboration → Bool
window_before a b =
    if not (text_eq a.endpoint_id b.endpoint_id)
    then text_lt a.endpoint_id b.endpoint_id
    else text_lt a.window_digest_sha256 b.window_digest_sha256

-- the last window of each endpoint and digest
abbrev pub last_windows : List ServingCorroboration → List ServingCorroboration
last_windows [] = []
last_windows (w ∷ ws) = if any (same_window w) ws then last_windows ws else w ∷ last_windows ws

-- `seen_digests` and `seen_nonces`
pub record Seen : Type 0 where
  pub digests : List Text
  pub nonces : List Text

abbrev pub is_seen : OrganicProbeObservation → Seen → Bool
is_seen o seen =
    any (text_eq o.observation_digest_sha256) seen.digests
    || any (text_eq o.probe_nonce) seen.nonces

abbrev pub mark_seen : OrganicProbeObservation → Seen → Seen
mark_seen o seen = record {
  digests = o.observation_digest_sha256 ∷ seen.digests;
  nonces = o.probe_nonce ∷ seen.nonces;
}

abbrev pub nothing_seen : Seen
nothing_seen = record { digests = []; nonces = [] }

-- the arguments of the call
pub record Request : Type 0 where
  pub manifests : List ActiveAssignmentManifestV2
  pub validator_hotkey : Text
  pub epoch_index : ℕ
  pub epoch_seconds : ℕ
  pub min_attempts : ℕ
  pub corroboration : List ServingCorroboration

abbrev pub policy_is_valid : Request → Bool
policy_is_valid r =
    leb 60 r.epoch_seconds
    && leb r.epoch_seconds 3600
    && leb 1 r.min_attempts
    && leb r.min_attempts max_attempts_per_endpoint

abbrev pub windows_of : Request → List ServingCorroboration
windows_of r = sort window_before (last_windows r.corroboration)

-- The record without its digest.
abbrev pub unsigned_record :
    Request → List OrganicProbeObservation → EpochFields → OrganicEpochScore
unsigned_record r values fields = record {
  validator_hotkey = r.validator_hotkey;
  epoch_seconds = r.epoch_seconds;
  epoch_index = r.epoch_index;
  min_attempts = r.min_attempts;
  manifest_digests =
      sort text_lt
        (distinct_texts (map (λ (o : OrganicProbeObservation). o.manifest_digest_sha256) values));
  epoch_status = fields.epoch_status;
  sampled_endpoint_count = fields.sampled_endpoint_count;
  path_unavailable_endpoint_count = fields.path_unavailable_endpoint_count;
  inconclusive = fields.inconclusive;
  endpoints = fields.endpoints;
  fraud_evidence = fields.fraud_evidence;
  corroboration = windows_of r;
  observations = values;
  epoch_score_digest_sha256 = [];
}

abbrev pub sealed : Text → OrganicEpochScore → OrganicEpochScore
sealed digest record_ = record record_ { epoch_score_digest_sha256 = digest }

-- `signature_valid` is the check of a miner's signature under its service key, `digest` the digest
-- of the canonical JSON of the unsigned record.
module _ (signature_valid : Text → MinerProbeAttestationV2 → Bool)
    (digest : OrganicEpochScore → Text) where
  unfoldable pub check_observation : Request → OrganicProbeObservation → Seen → Raises (Unit {0})
  unfolding verify_against_manifest manifest_get
  check_observation r o seen = do
    raise_if (not (text_eq o.validator_hotkey r.validator_hotkey)) scoring_validator_mismatch
    raise_if (is_seen o seen) scoring_observation_duplicate
    raise_if (not (o.issued_at / r.epoch_seconds == r.epoch_index)) scoring_epoch_mismatch
    verify_against_manifest signature_valid o (manifest_get o.manifest_digest_sha256 r.manifests)

  unfoldable pub check_observations :
      Request → List OrganicProbeObservation → Seen → Raises (Unit {0})
  unfolding check_observation
  check_observations r [] seen = ok tt
  check_observations r (o ∷ os) seen = do
    check_observation r o seen
    check_observations r os (mark_seen o seen)

  abbrev pub finish_score : Request → List OrganicProbeObservation → EpochFields → OrganicEpochScore
  finish_score r values fields =
      sealed (digest (unsigned_record r values fields)) (unsigned_record r values fields)

  -- `score_organic_epoch`, up to the checks that the sealed record makes of itself
  unfoldable pub score_organic_epoch :
      Request → List OrganicProbeObservation → Raises OrganicEpochScore
  unfolding check_observations derive_epoch
  score_organic_epoch r observations = do
    raise_if (not (policy_is_valid r)) scoring_policy_invalid
    raise_if (ltb max_observations (length observations)) scoring_attempts_overflow
    check_observations r observations nothing_seen
    fields ←
        derive_epoch r.epoch_seconds r.epoch_index r.min_attempts (windows_of r)
          (sort observation_before observations)
    ok (finish_score r (sort observation_before observations) fields)
