-- ===== src/Lib.antt =====
-- Verification of the Python side of the subnet (src/misscomputer_subnet), for a reader who has
-- the repository at hand. Paths are from the repository's root.
--
-- The program. A validator measures miners, decides on weights, writes them into a plan
-- (weight_plan.py) and gives the plan, adjusted to the chain's current state, to the chain
-- through a signer (weight_executor.py, chain.py). What became of an attempt is reported by
-- comparing the audit state with the chain (weight_reconciliation.py). Validator, miner and
-- agent talk over a local bridge whose requests are signed and kept from replay (auth.py).
-- Releases of static sites can be revoked by signed, cumulative snapshots
-- (static_revocation.py). A miner's score is the availability of the organic endpoints assigned
-- to it, by the validator's own probes (organic_scoring.py); at the end of a window the
-- validator decides to submit weights or to abstain (validator_decision.py). Every public route
-- reads its request body by one bounded reader (ingress.py).
--
-- The files.
--   Prelude         tests on numbers, Python's list idioms, texts as lists of code points, results
--                   of calls that raise, JSON values, float operations as a parameter, `sorted`
--   Auth            auth.py: Rows and Store are the tables of SQLiteNonceStore and
--                   SQLiteBridgeReplay with check_and_store and reserve; Bridge is bridge_headers
--                   and verify_bridge_headers; Client is BridgeClient.request with its retries;
--                   Binding is sign_service_binding and verify_service_binding. The files Replay,
--                   Window, Nonces and Client/Retries hold the proofs
--   Chain           chain.py: NeuronRecord, MetagraphSnapshot, epoch, by_hotkey,
--                   identity_fingerprint
--   Plan            weight_plan.py: Checks (texts, network identities, the expiry limit), Types (the
--                   plan's records, and their __post_init__ as Boolean tests), Identity
--                   (snapshot_identity_fingerprint), Normalize and Build (build_weight_plan),
--                   Expiry and Build/Executable (proofs)
--   Executor        weight_executor.py: Types (records and error codes), Vector
--                   (validate_execution_preflight, derive_execution_vector; proofs in
--                   Vector/Preflight and Vector/Weights), Audit (the operations of AuditStateStore;
--                   proofs in Audit/Effects and Audit/Recorded), Outside (configuration and answers of a run), Stages
--                   (what _execute_weight_plan reads and checks), Run (the rest of it, and
--                   run_weight_executor; proofs in Run/Gates, Run/Effect, Run/Confirmed, Run/Once
--                   and Run/History)
--   Revocation      static_revocation.py: the snapshots, advance_static_site_release_revocation and
--                   revocation_freshness; Verify is verify_static_site_release_revocation and
--                   static_index_revoked, with the proofs about it in Revoked; HighWater is the
--                   durable high water under a sequence of offers, and Gate is _revocation_gate and
--                   _install_revocation_high_water of static_runtime.py, with its proofs in
--                   Gate/Successor and Gate/Replaced
--   Organic         organic_scoring.py: Tally and Epoch are _derive_epoch, Evidence is
--                   _verify_against_manifest with verify_attestation_v2 and find_replica of
--                   organic_probe.py and organic_manifest_valid_at of organic_manifest.py, Score is
--                   score_organic_epoch, Window is aggregate_organic_window. The proofs stand in
--                   Tally/Counts, Tally/Attributed, Epoch/Sound, Epoch/Modes, Epoch/CommonMode,
--                   Evidence/Backed, Score/Grounded, Score/Backed, Score/Order, Window/Bounds and
--                   Window/Means
--   Ingress         ingress.py: _declared_length and read_request_body; the proofs are in Bounds
--   Reconcile       weight_reconciliation.py: Types and Row (records, rows of weights), and
--                   reconcile_weight_attempt over the audit state of Executor/Audit; the proofs are in
--                   Retry and Lifecycle
--   Decision        validator_decision.py: Rules (_abstain_reasons, _derive_rows) and
--                   decide_weight_submission; Plan is build_weight_plan_from_decision of
--                   weight_plan.py; the proofs are in Reasons, Submitted and Plan/Earned
-- Tests modules run the definitions on small inputs and apply the theorems.
--
-- How code and model correspond. A frozen dataclass is a record, and its __post_init__ is a
-- Boolean test or a result, in the order of the source's checks where the error differs. A call
-- that raises returns a `Result`; a method that changes an object takes the object's state and
-- returns it. What the outside answers is data: the record `Answers` lists, for one run of the
-- executor, what the plan file, the clock, the chain, the signer and each write of the audit
-- state return or raise, cancellation included; a write of the state file is `stored`, or raises
-- before (`refused`) or after (`installed`, `uncleaned`) the new file is in place. An audit
-- store holds the file and the state in memory. `run_all` passes the file from run to run, one
-- after another, as the store's exclusive lock makes them. The dictionaries of the scoring are
-- lists with one entry for each key; a Fraction is a reduced pair of natural numbers, and a
-- timestamp of an observation is the number of seconds since 1970.
--
-- Parameters. SHA-256, HMAC, canonical JSON, UTF-8, int(), urlsplit, timestamps, signature keys
-- and IEEE arithmetic are fields of the records Runtime, Keys, Floats, Env and Codec, the check
-- of a miner's statement and the digest of a score are functions that scoring takes, `int` and
-- `str` ones that the body reader takes, the closeness of two weights one that a report takes,
-- the verification of a snapshot with its release proofs one that the gate takes, and `float` of
-- a fraction and the admission of a manifest under a trust policy ones that a
-- decision takes; a float is its 64-bit pattern, and the body reader's clock counts in whole
-- ticks. No theorem assumes more of them than its hypotheses name.
--
-- Bounds. All loops are structural: over lists, and in BridgeClient.request over the number of
-- retries left, but for Euclid's algorithm, which recurs on Acc. No definition has fuel. Blocks,
-- UIDs, ports and version keys are natural numbers, with the source's range checks; Python's
-- integers do not wrap.
--
-- Not modelled. Types of dynamic values (a field that is no int, a bool in place of an int),
-- file descriptors, locks and directory pinning, HTTP and TLS, logging, command lines, and the
-- cleanup after a run. Which of its errors an audit attempt raises where a check of its vector or
-- of an integer fails. What a sealed score or decision checks about itself when it is parsed.
-- The validator and miner services, static scoring, the sending of probes, relays, the signer
-- process, quorum reads and release checks are outside this library, as is the Go side.
pub mod Prelude
pub mod Auth
pub mod Chain
pub mod Plan
pub mod Executor
pub mod Revocation
pub mod Organic
pub mod Ingress
pub mod Reconcile
pub mod Decision
