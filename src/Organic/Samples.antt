-- ===== src/Organic/Samples.antt =====
-- A manifest with two replicas and an epoch of three observations of them, for the tests; a
-- signature verifies if it repeats the key.
use misscomputer_subnet.Prelude.{
  ◌*◌, ◌^◌, Text, codes, text_eq, Bool, true, false, none, some, List, [], ◌∷◌, ok, err,
}
use misscomputer_subnet.Organic.Types.{
  none_, path, AttestationStatus, MinerProbeAttestationV2, OrganicProbeObservation, success,
  failure, timeout, OrganicAssignedReplica, ActiveAssignmentManifestV2, ServingCorroboration,
  EndpointEpochTally, eligible, abstain_insufficient_attempts, excluded_common_mode,
  common_mode_unavailable, scored,
}
use misscomputer_subnet.Organic.Tally.{Tally, Raises}
use misscomputer_subnet.Organic.Epoch.{EpochFields}
use misscomputer_subnet.Organic.Window.{OrganicEpochScore, OrganicAvailabilityScore}
use misscomputer_subnet.Organic.Score.{Request}

abbrev pub signed_by : Text → MinerProbeAttestationV2 → Bool
signed_by key a = text_eq key a.signature

abbrev pub no_digest : OrganicEpochScore → Text
no_digest v = codes "sealed"

abbrev pub first_replica : OrganicAssignedReplica
first_replica = record {
  miner_uid = 1;
  miner_hotkey = codes "h1";
  miner_service_public_key = codes "k1";
  generation = 1;
  endpoint_id = codes "e1";
  ticket_digest = codes "t1";
  expires_at_epoch = 9000;
}

abbrev pub second_replica : OrganicAssignedReplica
second_replica = record first_replica {
  miner_uid = 2;
  miner_hotkey = codes "h2";
  miner_service_public_key = codes "k2";
  endpoint_id = codes "e2";
}

abbrev pub the_manifest : ActiveAssignmentManifestV2
the_manifest = record {
  trust_policy_digest_sha256 = codes "p";
  finalized_height = 50;
  finalized_block_hash = codes "f";
  finalized_epoch = 1;
  issued_at_epoch = 2000;
  expires_at_epoch = 8000;
  deployments =
      record {
        deployment_id = codes "d";
        artifact_digest = codes "a";
        health = record {
          method = codes "GET";
          path = codes "/";
          expected_statuses = 200 ∷ [];
          response_marker = none;
        };
        replicas = first_replica ∷ second_replica ∷ [];
        assignment_digest_sha256 = codes "s";
      }
      ∷ [];
  manifest_digest_sha256 = codes "m";
}

abbrev pub statement : Text → MinerProbeAttestationV2
statement nonce = record {
  endpoint_id = codes "e1";
  generation = 1;
  ticket_digest = codes "t1";
  artifact_digest = codes "a";
  validator_hotkey = codes "v";
  probe_nonce = nonce;
  request_method = codes "GET";
  request_path = codes "/";
  observed_at = 3001 * 10 ^ 9;
  response_status = 200;
  response_body_sha256 = codes "b";
  signature = codes "k1";
}

abbrev pub good_probe : Text → OrganicProbeObservation
good_probe nonce = record {
  validator_hotkey = codes "v";
  manifest_digest_sha256 = codes "m";
  trust_policy_digest_sha256 = codes "p";
  deployment_id = codes "d";
  assignment_digest_sha256 = codes "s";
  endpoint_id = codes "e1";
  generation = 1;
  miner_uid = 1;
  miner_hotkey = codes "h1";
  probe_nonce = nonce;
  issued_at = 3000;
  request_method = codes "GET";
  request_path = codes "/";
  outcome = success;
  failure_code = none;
  attribution = none_;
  upstream_marker = true;
  response_status = some 200;
  response_body_sha256 = some (codes "b");
  attestation_status = AttestationStatus.verified;
  attestation = some (statement nonce);
  observation_digest_sha256 = nonce;
}

abbrev pub lost_probe : OrganicProbeObservation
lost_probe = record (good_probe (codes "n3")) {
  endpoint_id = codes "e2";
  miner_uid = 2;
  miner_hotkey = codes "h2";
  outcome = failure;
  failure_code = some timeout;
  attribution = path;
  upstream_marker = false;
  response_status = none;
  response_body_sha256 = none;
  attestation_status = AttestationStatus.not_presented;
  attestation = none;
}

abbrev pub probes : List OrganicProbeObservation
probes = good_probe (codes "n1") ∷ good_probe (codes "n2") ∷ lost_probe ∷ []

abbrev pub the_request : Request
the_request = record {
  manifests = the_manifest ∷ [];
  validator_hotkey = codes "v";
  epoch_index = 10;
  epoch_seconds = 300;
  min_attempts = 2;
  corroboration = [];
}

abbrev pub no_fields : EpochFields
no_fields = record {
  epoch_status = common_mode_unavailable;
  sampled_endpoint_count = 0;
  path_unavailable_endpoint_count = 0;
  inconclusive = [];
  endpoints = [];
  fraud_evidence = [];
}

abbrev pub fields_of : Raises EpochFields → EpochFields
fields_of (ok f) = f
fields_of (err e) = no_fields

abbrev pub good_row : EndpointEpochTally
good_row = record {
  deployment_id = codes "d";
  endpoint_id = codes "e1";
  miner_uid = 1;
  miner_hotkey = codes "h1";
  attempts = 2;
  successes = 2;
  application_failures = 0;
  miner_failures = 0;
  path_failures = 0;
  fraudulent_attestations = 0;
  disposition = eligible;
  availability_numerator = some 1;
  availability_denominator = some 1;
  corroborating_windows = 0;
  corroborating_requests = 0;
}

abbrev pub lost_row : EndpointEpochTally
lost_row = record good_row {
  endpoint_id = codes "e2";
  miner_uid = 2;
  miner_hotkey = codes "h2";
  attempts = 1;
  successes = 0;
  path_failures = 1;
  disposition = abstain_insufficient_attempts;
  availability_numerator = none;
  availability_denominator = none;
}

abbrev pub scored_fields : EpochFields
scored_fields = record {
  epoch_status = scored;
  sampled_endpoint_count = 2;
  path_unavailable_endpoint_count = 1;
  inconclusive = [];
  endpoints = good_row ∷ lost_row ∷ [];
  fraud_evidence = [];
}

abbrev pub down_fields : EpochFields
down_fields = record {
  epoch_status = common_mode_unavailable;
  sampled_endpoint_count = 1;
  path_unavailable_endpoint_count = 1;
  inconclusive = [];
  endpoints = record lost_row { disposition = excluded_common_mode } ∷ [];
  fraud_evidence = [];
}

abbrev pub the_score : OrganicEpochScore
the_score = record {
  validator_hotkey = codes "v";
  epoch_seconds = 300;
  epoch_index = 10;
  min_attempts = 2;
  manifest_digests = codes "m" ∷ [];
  epoch_status = scored;
  sampled_endpoint_count = 2;
  path_unavailable_endpoint_count = 1;
  inconclusive = [];
  endpoints = good_row ∷ lost_row ∷ [];
  fraud_evidence = [];
  corroboration = [];
  observations = probes;
  epoch_score_digest_sha256 = codes "sealed";
}

abbrev pub the_availability : OrganicAvailabilityScore
the_availability = record {
  validator_hotkey = codes "v";
  epoch_seconds = 300;
  epoch_indexes = 10 ∷ [];
  epoch_score_digests = codes "sealed" ∷ [];
  abstained_epochs = [];
  miners =
      record {
        miner_uid = 1;
        miner_hotkey = codes "h1";
        eligible_endpoint_epochs = 1;
        availability_numerator = 1;
        availability_denominator = 1;
        fraudulent_attestations = 0;
      }
      ∷ [];
  fraud_evidence = [];
}

abbrev pub the_window : List ServingCorroboration
the_window =
    record {
      endpoint_id = codes "e1";
      window_start_epoch = 3000;
      window_digest_sha256 = codes "w";
      requests = 99;
      origin = false;
    }
    ∷ []

abbrev pub failing : Text → Tally
failing endpoint = record {
  endpoint_id = endpoint;
  deployment_id = codes "d";
  miner_uid = 1;
  miner_hotkey = codes "h1";
  attempts = 2;
  successes = 1;
  application_failures = 1;
  miner_failures = 0;
  path_failures = 0;
  frauds = 0;
}

abbrev pub failing_pair : List Tally
failing_pair = failing (codes "e1") ∷ failing (codes "e2") ∷ []
