-- ===== src/Organic/Window.antt =====
-- `aggregate_organic_window` of src/misscomputer_subnet/organic_scoring.py: the mean availability of
-- each miner over its eligible endpoints in all epochs of a window.
mod Bounds
pub mod Means
use misscomputer_subnet.Prelude.{
  ℕ, suc, ◌+◌, ◌*◌, Text, text_eq, text_lt, Bool, true, false, not, ◌&&◌, ◌||◌, Option, none, some,
  List, [], ◌∷◌, ◌++◌, ltb, leb, ◌==◌, all, any, map, keep, distinct, length, if◌then◌else◌, Result,
  ok, err, ◌>>=◌, ◌>>◌, raise_if,
}
use misscomputer_subnet.Prelude.Sorting.{sort}
use misscomputer_subnet.Prelude.Fractions.{Fraction, fraction, add_fractions, divide_fraction}
use misscomputer_subnet.Organic.Types.{
  OrganicProbeObservation, ServingCorroboration, EndpointEpochTally, FraudEvidence, EpochStatus,
  scored, ScoringRejectionCode, scoring_epochs_invalid, scoring_identity_conflict,
  scoring_outcome_inconsistent, scoring_validator_mismatch,
}
use misscomputer_subnet.Organic.Tally.{Identity, identity_agrees, Raises}
use misscomputer_subnet.Organic.Epoch.{row_is_eligible, fraud_before}

abbrev pub max_epochs : ℕ
max_epochs = 2016

-- `OrganicEpochScore`
pub record OrganicEpochScore : Type 0 where
  pub validator_hotkey : Text
  pub epoch_seconds : ℕ
  pub epoch_index : ℕ
  pub min_attempts : ℕ
  pub manifest_digests : List Text
  pub epoch_status : EpochStatus
  pub sampled_endpoint_count : ℕ
  pub path_unavailable_endpoint_count : ℕ
  pub inconclusive : List Text
  pub endpoints : List EndpointEpochTally
  pub fraud_evidence : List FraudEvidence
  pub corroboration : List ServingCorroboration
  pub observations : List OrganicProbeObservation
  pub epoch_score_digest_sha256 : Text

-- What the loop holds for one miner: the entries of `sums` and `counts` under its key.
pub record Share : Type 0 where
  pub miner_uid : ℕ
  pub miner_hotkey : Text
  pub sum : Fraction
  pub count : ℕ

pub record FraudCount : Type 0 where
  pub miner_hotkey : Text
  pub count : ℕ

pub record WindowProgress : Type 0 where
  pub shares : List Share
  pub fraud_counts : List FraudCount
  pub identities : List Identity

pub record MinerAvailability : Type 0 where
  pub miner_uid : ℕ
  pub miner_hotkey : Text
  pub eligible_endpoint_epochs : ℕ
  pub availability_numerator : ℕ
  pub availability_denominator : ℕ
  pub fraudulent_attestations : ℕ

pub record OrganicAvailabilityScore : Type 0 where
  pub validator_hotkey : Text
  pub epoch_seconds : ℕ
  pub epoch_indexes : List ℕ
  pub epoch_score_digests : List Text
  pub abstained_epochs : List ℕ
  pub miners : List MinerAvailability
  pub fraud_evidence : List FraudEvidence

-- `Fraction()`
abbrev pub no_fraction : Fraction
no_fraction = record { numerator = 0; denominator = 1 }

abbrev pub add_to_share : Fraction → Share → Share
add_to_share q s = record s { sum = add_fractions s.sum q; count = s.count + 1 }

-- `sums[key] += q; counts[key] += 1`
unfoldable pub add_share : ℕ → Text → Fraction → List Share → List Share
unfolding add_fractions
add_share uid hotkey q [] =
    add_to_share q (record { miner_uid = uid; miner_hotkey = hotkey; sum = no_fraction; count = 0 })
    ∷ []
add_share uid hotkey q (s ∷ ss) =
    let rest = add_share uid hotkey q ss in
    if s.miner_uid == uid && text_eq s.miner_hotkey hotkey then add_to_share q s ∷ ss else s ∷ rest

-- `fraud_counts[hotkey] += n`
unfoldable pub add_frauds : Text → ℕ → List FraudCount → List FraudCount
add_frauds hotkey n [] = record { miner_hotkey = hotkey; count = n } ∷ []
add_frauds hotkey n (f ∷ fs) =
    let rest = add_frauds hotkey n fs in
    if text_eq f.miner_hotkey hotkey then record f { count = f.count + n } ∷ fs else f ∷ rest

abbrev pub frauds_of : Text → List FraudCount → ℕ
frauds_of hotkey [] = 0
frauds_of hotkey (f ∷ fs) = if text_eq f.miner_hotkey hotkey then f.count else frauds_of hotkey fs

-- the availability that a row carries, refused when it has none
abbrev pub rated : Option ℕ → Option ℕ → Raises Fraction
rated none d = err scoring_outcome_inconsistent
rated (some n) none = err scoring_outcome_inconsistent
rated (some n) (some d) = if d == 0 then err scoring_outcome_inconsistent else ok (fraction n d)

abbrev pub with_share : EndpointEpochTally → WindowProgress → Fraction → WindowProgress
with_share e p q = record p { shares = add_share e.miner_uid e.miner_hotkey q p.shares }

abbrev pub add_rated : EndpointEpochTally → WindowProgress → Raises Fraction → Raises WindowProgress
add_rated e p (err c) = err c
add_rated e p (ok q) = ok (with_share e p q)

-- what a row adds to the sums
abbrev pub add_row : EndpointEpochTally → WindowProgress → Raises WindowProgress
add_row e p =
    if not (row_is_eligible e)
    then ok p
    else add_rated e p (rated e.availability_numerator e.availability_denominator)

abbrev pub seen : EndpointEpochTally → WindowProgress → WindowProgress
seen e p = record p {
  identities = record { uid = e.miner_uid; hotkey = e.miner_hotkey } ∷ p.identities;
  fraud_counts = add_frauds e.miner_hotkey e.fraudulent_attestations p.fraud_counts;
}

unfoldable pub add_endpoint : EndpointEpochTally → WindowProgress → Raises WindowProgress
unfolding add_share add_frauds identity_agrees
add_endpoint e p =
    if not (identity_agrees e.miner_uid e.miner_hotkey p.identities)
    then err scoring_identity_conflict
    else add_row e (seen e p)

abbrev pub next : {A : Type 0} → Raises A → (A → Raises WindowProgress) → Raises WindowProgress
next (err c) rest = err c
next (ok a) rest = rest a

unfoldable pub add_endpoints : List EndpointEpochTally → WindowProgress → Raises WindowProgress
unfolding add_endpoint
add_endpoints [] p = ok p
add_endpoints (e ∷ es) p = next (add_endpoint e p) (λ p'. add_endpoints es p')

unfoldable pub add_epochs : List OrganicEpochScore → WindowProgress → Raises WindowProgress
unfolding add_endpoints
add_epochs [] p = ok p
add_epochs (v ∷ vs) p = next (add_endpoints v.endpoints p) (λ p'. add_epochs vs p')

-- the order of the keys of `sums`
abbrev pub share_before : Share → Share → Bool
share_before a b =
    if a.miner_uid == b.miner_uid
    then text_lt a.miner_hotkey b.miner_hotkey
    else ltb a.miner_uid b.miner_uid

unfoldable pub miner_row : List FraudCount → Share → MinerAvailability
unfolding divide_fraction
miner_row frauds s = record {
  miner_uid = s.miner_uid;
  miner_hotkey = s.miner_hotkey;
  eligible_endpoint_epochs = s.count;
  availability_numerator = (divide_fraction s.sum s.count).numerator;
  availability_denominator = (divide_fraction s.sum s.count).denominator;
  fraudulent_attestations = frauds_of s.miner_hotkey frauds;
}

abbrev pub is_scored : EpochStatus → Bool
is_scored scored = true
is_scored _ = false

abbrev pub index_of : OrganicEpochScore → ℕ
index_of v = v.epoch_index

abbrev pub epoch_before : OrganicEpochScore → OrganicEpochScore → Bool
epoch_before a b = ltb a.epoch_index b.epoch_index

abbrev pub all_fraud : List OrganicEpochScore → List FraudEvidence
all_fraud [] = []
all_fraud (v ∷ vs) = v.fraud_evidence ++ all_fraud vs

abbrev pub window_score :
    OrganicEpochScore → List OrganicEpochScore → WindowProgress → OrganicAvailabilityScore
window_score first values p = record {
  validator_hotkey = first.validator_hotkey;
  epoch_seconds = first.epoch_seconds;
  epoch_indexes = map index_of values;
  epoch_score_digests = map (λ (v : OrganicEpochScore). v.epoch_score_digest_sha256) values;
  abstained_epochs =
      map index_of (keep (λ (v : OrganicEpochScore). not (is_scored v.epoch_status)) values);
  miners = map (miner_row p.fraud_counts) (sort share_before p.shares);
  fraud_evidence = sort fraud_before (all_fraud values);
}

abbrev nothing_seen : WindowProgress
nothing_seen = record { shares = []; fraud_counts = []; identities = [] }

-- the checks in front of the loops
unfoldable pub check_window : OrganicEpochScore → List OrganicEpochScore → Raises (Unit {0})
check_window first values = do
  raise_if (ltb max_epochs (length values)) scoring_epochs_invalid
  raise_if
      (not (distinct ◌==◌ (map index_of values))
        || any (λ (v : OrganicEpochScore). not (v.epoch_seconds == first.epoch_seconds)) values)
      scoring_epochs_invalid
  raise_if
      (any (λ (v : OrganicEpochScore). not (text_eq v.validator_hotkey first.validator_hotkey))
        values)
      scoring_validator_mismatch

abbrev pub aggregate_sorted : List OrganicEpochScore → Raises OrganicAvailabilityScore
aggregate_sorted [] = err scoring_epochs_invalid
aggregate_sorted (first ∷ rest) = do
  check_window first (first ∷ rest)
  p ← add_epochs (first ∷ rest) nothing_seen
  ok (window_score first (first ∷ rest) p)

-- `aggregate_organic_window`, on epochs that `revalidate` accepts
unfoldable pub aggregate_organic_window : List OrganicEpochScore → Raises OrganicAvailabilityScore
unfolding check_window add_epochs
aggregate_organic_window epochs = aggregate_sorted (sort epoch_before epochs)
