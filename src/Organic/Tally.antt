-- ===== src/Organic/Tally.antt =====
-- The first loop of `_derive_epoch` (src/misscomputer_subnet/organic_scoring.py): a tally for each
-- endpoint, in the order of its first observation.
pub mod Counts
pub mod Attributed
use misscomputer_subnet.Prelude.{
  ℕ, suc, ◌+◌, ◌/◌, Text, text_eq, Bool, true, false, not, ◌&&◌, List, [], ◌∷◌, ◌++◌, ltb, ◌==◌,
  all, if◌then◌else◌, Result, ok, err, ◌>>=◌, ◌>>◌, raise_if,
}
use misscomputer_subnet.Organic.Types.{
  Attribution, application, miner, none_, path, AttestationStatus, fraudulent,
  OrganicProbeObservation, ScoringRejectionCode, scoring_attempts_overflow, scoring_epoch_mismatch,
  scoring_identity_conflict, FraudEvidence,
}

abbrev pub max_attempts_per_endpoint : ℕ
max_attempts_per_endpoint = 16

-- `_Tally` under its endpoint; the counts are its dictionary by attribution, and of frauds
pub record Tally : Type 0 where
  pub endpoint_id : Text
  pub deployment_id : Text
  pub miner_uid : ℕ
  pub miner_hotkey : Text
  pub attempts : ℕ
  pub successes : ℕ
  pub application_failures : ℕ
  pub miner_failures : ℕ
  pub path_failures : ℕ
  pub frauds : ℕ

pub record Identity : Type 0 where
  pub uid : ℕ
  pub hotkey : Text

abbrev pub Raises : Type 0 → Type 0
Raises A = Result ScoringRejectionCode A

abbrev pub is_fraud : AttestationStatus → Bool
is_fraud fraudulent = true
is_fraud _ = false

abbrev pub one_if : Bool → ℕ
one_if true = 1
one_if false = 0

abbrev pub is_success : Attribution → Bool
is_success none_ = true
is_success _ = false

abbrev pub is_application : Attribution → Bool
is_application application = true
is_application _ = false

abbrev pub is_miner_failure : Attribution → Bool
is_miner_failure miner = true
is_miner_failure _ = false

abbrev pub is_path : Attribution → Bool
is_path path = true
is_path _ = false

-- the observation counted in the tally
unfoldable pub counted : OrganicProbeObservation → Tally → Tally
counted o t = record t {
  attempts = t.attempts + 1;
  successes = t.successes + one_if (is_success o.attribution);
  application_failures = t.application_failures + one_if (is_application o.attribution);
  miner_failures = t.miner_failures + one_if (is_miner_failure o.attribution);
  path_failures = t.path_failures + one_if (is_path o.attribution);
  frauds = t.frauds + one_if (is_fraud o.attestation_status);
}

abbrev pub empty_tally : OrganicProbeObservation → Tally
empty_tally o = record {
  endpoint_id = o.endpoint_id;
  deployment_id = o.deployment_id;
  miner_uid = o.miner_uid;
  miner_hotkey = o.miner_hotkey;
  attempts = 0;
  successes = 0;
  application_failures = 0;
  miner_failures = 0;
  path_failures = 0;
  frauds = 0;
}

abbrev same_endpoint : Tally → OrganicProbeObservation → Bool
same_endpoint t o =
    text_eq t.deployment_id o.deployment_id
    && t.miner_uid == o.miner_uid
    && text_eq t.miner_hotkey o.miner_hotkey

-- count in the tally of the endpoint
abbrev pub count_once : OrganicProbeObservation → Tally → Raises Tally
count_once o t =
    if not (same_endpoint t o)
    then err scoring_identity_conflict
    else if ltb max_attempts_per_endpoint (t.attempts + 1)
    then err scoring_attempts_overflow
    else ok (counted o t)

abbrev pub with_head : Raises Tally → List Tally → Raises (List Tally)
with_head (ok t) rest = ok (t ∷ rest)
with_head (err e) rest = err e

abbrev pub with_tail : Tally → Raises (List Tally) → Raises (List Tally)
with_tail t (ok rest) = ok (t ∷ rest)
with_tail t (err e) = err e

unfoldable pub tally_observation : OrganicProbeObservation → List Tally → Raises (List Tally)
unfolding counted
tally_observation o [] = ok (counted o (empty_tally o) ∷ [])
tally_observation o (t ∷ ts) =
    let rest = tally_observation o ts in
    if text_eq t.endpoint_id o.endpoint_id then with_head (count_once o t) ts else with_tail t rest

-- The dictionaries `identities` and `hotkeys` hold the same pairs; a pair agrees if it has the UID
-- exactly if it has the hotkey.
abbrev pub same_bool : Bool → Bool → Bool
same_bool true b = b
same_bool false b = not b

unfoldable pub identity_agrees : ℕ → Text → List Identity → Bool
identity_agrees uid hotkey known =
    all (λ (i : Identity). same_bool (i.uid == uid) (text_eq i.hotkey hotkey)) known

-- the variables of the loop
pub record Progress : Type 0 where
  pub tallies : List Tally
  pub fraud : List FraudEvidence
  pub identities : List Identity

abbrev pub evidence_of : OrganicProbeObservation → FraudEvidence
evidence_of o = record {
  miner_uid = o.miner_uid;
  miner_hotkey = o.miner_hotkey;
  endpoint_id = o.endpoint_id;
  observation_digest_sha256 = o.observation_digest_sha256;
}

unfoldable pub add_observation :
    (epoch_seconds epoch_index : ℕ) → OrganicProbeObservation → Progress → Raises Progress
add_observation epoch_seconds epoch_index o p = do
  raise_if (not (o.issued_at / epoch_seconds == epoch_index)) scoring_epoch_mismatch
  raise_if (not (identity_agrees o.miner_uid o.miner_hotkey p.identities)) scoring_identity_conflict
  tallies ← tally_observation o p.tallies
  ok (record {
    tallies = tallies;
    fraud = if is_fraud o.attestation_status then p.fraud ++ evidence_of o ∷ [] else p.fraud;
    identities = record { uid = o.miner_uid; hotkey = o.miner_hotkey } ∷ p.identities;
  })

unfoldable pub tally_all :
    (epoch_seconds epoch_index : ℕ) → List OrganicProbeObservation → Progress → Raises Progress
tally_all epoch_seconds epoch_index [] p = ok p
tally_all epoch_seconds epoch_index (o ∷ os) p = do
  p' ← add_observation epoch_seconds epoch_index o p
  tally_all epoch_seconds epoch_index os p'
