-- ===== src/Executor/Audit.antt =====
-- The audit state of src/misscomputer_subnet/weight_executor.py: receipts, attempts, and the
-- operations of `AuditStateStore`. The file system is the answer to each `_persist`.
pub mod Effects
pub mod Recorded
use misscomputer_subnet.Prelude.{
  ℕ, zero, suc, ◌+◌, ◌*◌, ◌^◌, Text, text_eq, Bool, true, false, not, ◌&&◌, ◌||◌, Option, none,
  some, List, [], ◌∷◌, ◌++◌, ltb, leb, ◌==◌, any, map, find, distinct, length, is_some,
  if◌then◌else◌, Result, ok, err, ◌>>=◌, ◌>>◌, raise_if,
}
use misscomputer_subnet.Plan.Checks.{valid_text, max_block}
use misscomputer_subnet.Plan.Types.{is_digest}
use misscomputer_subnet.Executor.Types.{
  ErrorCode, audit_state_unsafe, audit_state_invalid, audit_state_full, idempotency_blocked,
  ExecutionVector, AuditStatus, ReceiptOutcome, AuditReceipt, AuditAttempt, Env,
}
use misscomputer_subnet.Executor.Vector.{Raises, check_vector}

abbrev pub max_audit_attempts : ℕ
max_audit_attempts = 4096

-- `MAX_WEIGHT_PLAN_BYTES`, 16 MiB
abbrev pub max_state_bytes : ℕ
max_state_bytes = 16 * 2 ^ 20

-- `AuditState.attempts`; the state has no other field of its own
abbrev pub AuditState : Type 0
AuditState = List AuditAttempt

abbrev is_code_character : ℕ → Bool
is_code_character c = (leb b'a' c && leb c b'z') || (leb b'0' c && leb c b'9') || c == b'_'

-- `_safe_error_code(code) == code`: its lower-casing leaves such a code alone
unfoldable pub is_safe_code : Text → Bool
is_safe_code t =
    not (length t == 0) && leb (length t) 64 && not (any (λ c. not (is_code_character c)) t)

abbrev safe_or_none : (Text → Bool) → Option Text → Bool
safe_or_none p none = true
safe_or_none p (some t) = p t

abbrev is_confirmed : ReceiptOutcome → Bool
is_confirmed ReceiptOutcome.confirmed = true
is_confirmed _ = false

-- `AuditReceipt.__post_init__`; a safe reference is 1 to 256 graphic characters
unfoldable pub valid_receipt : AuditReceipt → Bool
valid_receipt r =
    safe_or_none (valid_text 256) r.extrinsic_ref
    && safe_or_none is_safe_code r.error_code
    && (if is_confirmed r.outcome
        then is_some r.extrinsic_ref && not (is_some r.error_code)
        else is_some r.error_code)

abbrev outcome_code : ReceiptOutcome → ℕ
outcome_code ReceiptOutcome.confirmed = 0
outcome_code ReceiptOutcome.pre_send_failure = 1
outcome_code ReceiptOutcome.definite_failure = 2
outcome_code ReceiptOutcome.ambiguous = 3

abbrev has_outcome : ReceiptOutcome → Option AuditReceipt → Bool
has_outcome o none = false
has_outcome o (some r) = outcome_code o == outcome_code r.outcome

-- whether the receipt fits the status
abbrev pub receipt_fits : AuditStatus → Bool → Option AuditReceipt → Bool
receipt_fits AuditStatus.in_progress started receipt = not (is_some receipt)
receipt_fits AuditStatus.confirmed started receipt = has_outcome ReceiptOutcome.confirmed receipt
receipt_fits AuditStatus.ambiguous started receipt = has_outcome ReceiptOutcome.ambiguous receipt
receipt_fits AuditStatus.failed true receipt = has_outcome ReceiptOutcome.definite_failure receipt
receipt_fits AuditStatus.failed false receipt = has_outcome ReceiptOutcome.pre_send_failure receipt

abbrev needs_start : AuditStatus → Bool
needs_start AuditStatus.confirmed = true
needs_start AuditStatus.ambiguous = true
needs_start _ = false

abbrev block_fits : ℕ → Option ℕ → Bool
block_fits preflight none = true
block_fits preflight (some block) = leb block max_block && leb preflight block

abbrev pub is_in_progress : AuditStatus → Bool
is_in_progress AuditStatus.in_progress = true
is_in_progress _ = false

-- what `PersistAnswer` a `_persist` meets: it is stored; it raises before the new file takes the
-- old one's place; or after that; or in the clean-up, when the store holds the new state already
pub data PersistAnswer : Type 0 where
  stored refused installed uncleaned : PersistAnswer

-- the state file, and the state that the store holds
pub record Store : Type 0 where
  pub disk : AuditState
  pub memory : AuditState

abbrev pub Call : Type 0 → Type 0
Call A = Store → Result ErrorCode A × Store

-- `AuditState.__post_init__`
unfoldable pub check_state : AuditState → Raises (Unit {0})
check_state attempts = do
  raise_if (ltb max_audit_attempts (length attempts)) audit_state_full
  raise_if (not (distinct text_eq (map (λ (a : AuditAttempt). a.attempt_id) attempts)))
      audit_state_invalid

-- Whether an attempt forbids another one of its plan.
abbrev pub is_final : AuditStatus → Bool → Bool
is_final AuditStatus.failed started = started
is_final _ started = true

abbrev pub blocks : Text → AuditAttempt → Bool
blocks plan_digest a =
    text_eq a.vector.plan_digest_sha256 plan_digest && is_final a.status a.submission_started

-- the last element with `p`: the first that a loop over `reversed(xs)` meets
abbrev find_last : (AuditAttempt → Bool) → AuditState → Option AuditAttempt
find_last p [] = none
find_last p (a ∷ rest) = elim (find_last p rest) [
  | some found ↦ some found
  | none ↦ if p a then some a else none
]

unfoldable pub blocking_attempt : Text → AuditState → Option AuditAttempt
blocking_attempt plan_digest attempts = find_last (blocks plan_digest) attempts

abbrev pub has_id : Text → AuditAttempt → Bool
has_id attempt_id a = text_eq a.attempt_id attempt_id

abbrev pub count : (AuditAttempt → Bool) → AuditState → ℕ
count p [] = 0
count p (a ∷ rest) = let n = count p rest in if p a then suc n else n

-- `attempts[index] = updated`, at the one attempt with the id
abbrev pub replace : Text → AuditAttempt → AuditState → AuditState
replace attempt_id updated [] = []
replace attempt_id updated (a ∷ rest) =
    (if has_id attempt_id a then updated else a) ∷ replace attempt_id updated rest

module _ (env : Env) where
  -- `execution_attempt_key`
  unfoldable pub execution_attempt_key : Text → Text → Raises Text
  execution_attempt_key plan_digest execution_digest =
      if is_digest plan_digest && is_digest execution_digest
      then ok (env.key_digest plan_digest execution_digest)
      else err audit_state_invalid

  -- `_validate_timestamp`
  unfoldable pub valid_timestamp : Text → Bool
  valid_timestamp t = leb (length t) 40 && env.is_utc_instant t

  abbrev is_key : Raises Text → Text → Bool
  is_key (ok key) t = text_eq t key
  is_key (err _) t = false

  abbrev checks : Raises (Unit {0}) → Bool
  checks (ok _) = true
  checks (err _) = false

  -- `AuditAttempt.__post_init__`; which of its errors it raises is left out
  unfoldable pub valid_attempt : AuditAttempt → Bool
  valid_attempt a =
      is_digest a.attempt_id
      && is_digest a.attempt_key
      && is_key (execution_attempt_key a.vector.plan_digest_sha256 a.execution_digest_sha256)
          a.attempt_key
      && leb a.preflight_block max_block
      && block_fits a.preflight_block a.send_check_block
      && valid_timestamp a.started_at
      && valid_timestamp a.updated_at
      && not (length a.vector.weights == 0)
      && checks (check_vector env a.vector)
      && text_eq (env.vector_digest a.vector) a.execution_digest_sha256
      && receipt_fits a.status a.submission_started a.receipt
      && not (a.submission_started && not (is_some a.send_check_block))
      && not (not a.submission_started && is_some a.send_check_block)
      && not (needs_start a.status && not a.submission_started)

  -- `AuditState(...)` and `_persist` of it
  unfoldable pub persist : PersistAnswer → AuditState → Call (Unit {0})
  persist answer state store = elim (check_state state) [
    | err e ↦ (err e, store)
    | ok _ ↦
        if ltb max_state_bytes (env.state_size state)
        then (err audit_state_full, store)
        else elim answer [
          | stored ↦ (ok tt, record store { disk = state; memory = state })
          | refused ↦ (err audit_state_unsafe, store)
          | installed ↦ (err audit_state_unsafe, record store { disk = state })
          | uncleaned ↦ (err audit_state_unsafe, record store { disk = state; memory = state })
        ]
  ]

  unfoldable pub new_attempt : ExecutionVector → ℕ → Text → Text → Text → AuditAttempt
  new_attempt vector preflight_block timestamp nonce key = record {
    attempt_id = env.id_digest nonce (env.vector_digest vector) vector.plan_digest_sha256 timestamp;
    attempt_key = key;
    execution_digest_sha256 = env.vector_digest vector;
    vector = vector;
    preflight_block = preflight_block;
    send_check_block = none;
    status = AuditStatus.in_progress;
    submission_started = false;
    started_at = timestamp;
    updated_at = timestamp;
    receipt = none;
  }

  abbrev append_attempt : PersistAnswer → AuditAttempt → Call AuditAttempt
  append_attempt answer attempt store =
      let (result, after) = persist answer (store.memory ++ attempt ∷ []) store in
      elim result [ err e ↦ (err e, after) | ok _ ↦ (ok attempt, after) ]

  abbrev add_attempt : PersistAnswer → AuditAttempt → Call AuditAttempt
  add_attempt answer attempt store =
      if valid_attempt attempt
      then append_attempt answer attempt store
      else (err audit_state_invalid, store)

  unfoldable pub start_attempt :
      PersistAnswer → ExecutionVector → ℕ → Text → Text → Call AuditAttempt
  start_attempt answer vector preflight_block timestamp nonce store =
      if is_some (blocking_attempt vector.plan_digest_sha256 store.memory)
      then (err idempotency_blocked, store)
      else if not (valid_timestamp timestamp && is_digest nonce)
      then (err audit_state_invalid, store)
      else elim (execution_attempt_key vector.plan_digest_sha256 (env.vector_digest vector)) [
        | err e ↦ (err e, store)
        | ok key ↦ add_attempt answer (new_attempt vector preflight_block timestamp nonce key) store
      ]

  -- `_update_attempt`, given the attempt with the id
  unfoldable pub update_attempt :
      PersistAnswer → Text → AuditAttempt → AuditAttempt → Call AuditAttempt
  update_attempt answer attempt_id current updated store =
      if not (count (has_id attempt_id) store.memory == 1)
      then (err audit_state_invalid, store)
      else if not (is_in_progress current.status)
      then (err audit_state_invalid, store)
      else let (result, after) = persist answer (replace attempt_id updated store.memory) store in
        elim result [ err e ↦ (err e, after) | ok _ ↦ (ok updated, after) ]

  -- find the attempt, build the new one, check it, and store it
  abbrev modify : PersistAnswer → Text → (AuditAttempt → AuditAttempt) → Call AuditAttempt
  modify answer attempt_id change store = elim (find (has_id attempt_id) store.memory) [
    | none ↦ (err audit_state_invalid, store)
    | some current ↦
        if valid_attempt (change current)
        then update_attempt answer attempt_id current (change current) store
        else (err audit_state_invalid, store)
  ]

  unfoldable pub mark_submission_started : PersistAnswer → Text → ℕ → Text → Call AuditAttempt
  mark_submission_started answer attempt_id send_check_block timestamp =
      modify answer attempt_id (λ current. record current {
        send_check_block = some send_check_block;
        submission_started = true;
        updated_at = timestamp;
      })

  unfoldable pub finish_attempt :
      PersistAnswer → Text → AuditStatus → AuditReceipt → Text → Call AuditAttempt
  finish_attempt answer attempt_id status receipt timestamp store =
      if valid_receipt receipt
      then modify answer attempt_id
          (λ current. record current {
            status = status;
            receipt = some receipt;
            updated_at = timestamp;
          })
          store
      else (err audit_state_invalid, store)
