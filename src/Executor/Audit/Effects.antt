-- ===== src/Executor/Audit/Effects.antt =====
-- What each operation of `AuditStateStore` does to the state file and to the store's memory
-- (src/misscomputer_subnet/weight_executor.py).
use misscomputer_subnet.Prelude.{
  ℕ, ◌≡◌, refl, sym, ◌∙◌, ◌⊎◌, inl, inr, Text, text_eq, text_eq_refl, Bool, true, false, ◌&&◌, some,
  [], ◌∷◌, ◌++◌, arith, any, ltb, map, find, distinct, is_some, if◌then◌else◌, Bool-cases, Result,
  ok, err,
}
use misscomputer_subnet.Plan.Types.{is_digest}
use misscomputer_subnet.Executor.Types.{
  ErrorCode, audit_state_full, audit_state_unsafe, audit_state_invalid, idempotency_blocked,
  ExecutionVector, AuditStatus, AuditReceipt, AuditAttempt, Env,
}
use misscomputer_subnet.Executor.Audit.{
  AuditState, PersistAnswer, Store, check_state, persist, blocks, blocking_attempt, has_id, count,
  replace, valid_attempt, modify, new_attempt, start_attempt, update_attempt,
  mark_submission_started, finish_attempt, valid_receipt, stored, refused, installed, uncleaned,
  max_state_bytes, valid_timestamp, execution_attempt_key,
}

-- The store just after it has read or written `state`.
abbrev pub synced : AuditState → Store
synced state = record { disk = state; memory = state }

pub is_some-blocking_attempt :
    (plan : Text) (state : AuditState)
    → is_some (blocking_attempt plan state) ≡ any (blocks plan) state
unfolding blocking_attempt
is_some-blocking_attempt plan [] = refl
is_some-blocking_attempt plan (a ∷ rest) = ground (arith, is_some-blocking_attempt plan rest)

-- No attempt of `old` has the identifier of `a`.
abbrev pub IsFresh : AuditState → AuditAttempt → Type 0
IsFresh old a = any (has_id a.attempt_id) old ≡ false

distinct-IsFresh :
    (old : AuditState) (a : AuditAttempt)
    → distinct text_eq (map (λ (x : AuditAttempt). x.attempt_id) (old ++ a ∷ [])) ≡ true
    → IsFresh old a
distinct-IsFresh [] a h = refl
distinct-IsFresh (x ∷ rest) a h = ground (arith, distinct-IsFresh rest a, last_differs rest)
  where
    last_differs :
        (xs : AuditState)
        → any (text_eq x.attempt_id) (map (λ (y : AuditAttempt). y.attempt_id) (xs ++ a ∷ []))
          ≡ false
        → text_eq x.attempt_id a.attempt_id ≡ false
    last_differs [] e = ground arith
    last_differs (y ∷ ys) e = ground (arith, last_differs ys)

check_state-IsFresh :
    (old : AuditState) (a : AuditAttempt) → check_state (old ++ a ∷ []) ≡ ok tt → IsFresh old a
unfolding check_state
check_state-IsFresh old a h = distinct-IsFresh old a (ground arith)

find-last :
    (old : AuditState) (a : AuditAttempt)
    → IsFresh old a
    → find (has_id a.attempt_id) (old ++ a ∷ []) ≡ some a
find-last [] a h = ground (arith, text_eq_refl a.attempt_id)
find-last (x ∷ rest) a h = ground (arith, find-last rest a)

replace-last :
    (old : AuditState) (a u : AuditAttempt)
    → IsFresh old a
    → replace a.attempt_id u (old ++ a ∷ []) ≡ old ++ u ∷ []
replace-last [] a u h = ground (arith, text_eq_refl a.attempt_id)
replace-last (x ∷ rest) a u h = ground (arith, replace-last rest a u)

-- How a call that wants to store `new` over `old` may leave the file.
abbrev pub Wrote : AuditState → AuditState → Store → Type 0
Wrote old new after = (after.disk ≡ old) ⊎ (after.disk ≡ new)

-- A `_persist` that returns has stored the state, and one that raises has left the old file or the
-- new one.
module _ (env : Env) (answer : PersistAnswer) (state : AuditState) (store : Store) where
  abbrev PersistCases : Result ErrorCode (Unit {0}) × Store → Type 0
  PersistCases r =
      ((r ≡ (ok tt, synced state)) × (check_state state ≡ ok tt))
      ⊎ ((e : ErrorCode) × (r.0 ≡ err e) × Wrote store.disk state r.1)

  persist_cases : PersistCases (persist env answer state store)
  unfolding persist
  persist_cases =
      go (check_state state) refl (ltb max_state_bytes (env.state_size state)) refl answer refl
    where
      go :
          (c : Result ErrorCode (Unit {0}))
          → check_state state ≡ c
          → (big : Bool) → ltb max_state_bytes (env.state_size state) ≡ big
          → (a : PersistAnswer) → answer ≡ a
          → PersistCases (persist env answer state store)
      go (err e) h big hb a ha = inr (e, ground arith, ground arith)
      go (ok _) h true hb a ha = inr (audit_state_full, ground arith, ground arith)
      go (ok _) h false hb stored ha = inl (ground arith, h)
      go (ok _) h false hb refused ha = inr (audit_state_unsafe, ground arith, ground arith)
      go (ok _) h false hb installed ha = inr (audit_state_unsafe, ground arith, ground arith)
      go (ok _) h false hb uncleaned ha = inr (audit_state_unsafe, ground arith, ground arith)

-- A start appends one attempt in progress to a file that does not block its plan, or raises.
module _ (env : Env) (answer : PersistAnswer) (vector : ExecutionVector) (block : ℕ)
    (timestamp nonce : Text) (old : AuditState) where
  abbrev pub start : Result ErrorCode AuditAttempt × Store
  start = start_attempt env answer vector block timestamp nonce (synced old)

  abbrev pub Appends : AuditAttempt → Type 0
  Appends a =
      (a.vector ≡ vector)
      × (a.status ≡ AuditStatus.in_progress)
      × (a.submission_started ≡ false)
      × (any (blocks vector.plan_digest_sha256) old ≡ false)

  abbrev pub StartCases : Result ErrorCode AuditAttempt × Store → Type 0
  StartCases r =
      ((a : AuditAttempt) × (r ≡ (ok a, synced (old ++ a ∷ []))) × IsFresh old a × Appends a)
      ⊎ ((e : ErrorCode) × (r.0 ≡ err e)
          × ((r.1.disk ≡ old) ⊎ ((a : AuditAttempt) × (r.1.disk ≡ old ++ a ∷ []) × Appends a)))

  abbrev fresh_attempt : Text → AuditAttempt
  fresh_attempt = new_attempt env vector block timestamp nonce

  -- Where no guard raises, the start is the storing of the appended state.
  start_appends :
      (key : Text)
      → is_some (blocking_attempt vector.plan_digest_sha256 old) ≡ false
      → (valid_timestamp env timestamp && is_digest nonce) ≡ true
      → execution_attempt_key env vector.plan_digest_sha256 (env.vector_digest vector) ≡ ok key
      → valid_attempt env (fresh_attempt key) ≡ true
      → StartCases start
  unfolding start_attempt
  start_appends key free stamped keyed valid =
      let a = fresh_attempt key in
      let unblocked = sym (is_some-blocking_attempt vector.plan_digest_sha256 old) ∙ free in
      elim (persist_cases env answer (old ++ a ∷ []) (synced old)) [
        | inl (done, checked) ↦
            inl (a, ground arith, check_state-IsFresh old a checked, appended key unblocked)
        | inr (e, failed, wrote) ↦ inr (
          e,
          ground arith,
          elim wrote [
            | inl same ↦ inl (ground arith)
            | inr new ↦ inr (a, ground arith, appended key unblocked)
          ],
        )
      ]
    where
      appended :
          (k : Text)
          → any (blocks vector.plan_digest_sha256) old ≡ false
          → Appends (fresh_attempt k)
      appended k unblocked = unfold new_attempt in (refl, refl, refl, unblocked)

  pub start_cases : StartCases start
  unfolding start_attempt
  start_cases = elim (Bool-cases (is_some (blocking_attempt vector.plan_digest_sha256 old))) [
    | inl taken ↦ inr (idempotency_blocked, ground arith, inl (ground arith))
    | inr free ↦ elim (Bool-cases (valid_timestamp env timestamp && is_digest nonce)) [
      | inr bad ↦ inr (audit_state_invalid, ground arith, inl (ground arith))
      | inl stamped ↦
          keyed free stamped
            (execution_attempt_key env vector.plan_digest_sha256 (env.vector_digest vector)) refl
    ]
  ]
    where
      keyed :
          is_some (blocking_attempt vector.plan_digest_sha256 old) ≡ false
          → (valid_timestamp env timestamp && is_digest nonce) ≡ true
          → (k : Result ErrorCode Text)
          → execution_attempt_key env vector.plan_digest_sha256 (env.vector_digest vector) ≡ k
          → StartCases start
      keyed free stamped (err e) h = inr (e, ground arith, inl (ground arith))
      keyed free stamped (ok key) h = elim (Bool-cases (valid_attempt env (fresh_attempt key))) [
        | inl valid ↦ start_appends key free stamped h valid
        | inr bad ↦ inr (audit_state_invalid, ground arith, inl (ground arith))
      ]

count-absent : (id : Text) (xs : AuditState) → any (has_id id) xs ≡ false → count (has_id id) xs ≡ 0
count-absent id [] h = refl
count-absent id (x ∷ xs) h = ground (arith, count-absent id xs)

count-last :
    (old : AuditState) (a : AuditAttempt)
    → IsFresh old a
    → count (has_id a.attempt_id) (old ++ a ∷ []) ≡ 1
count-last [] a h = ground (arith, text_eq_refl a.attempt_id)
count-last (x ∷ rest) a h = ground (arith, count-last rest a)

-- Changing the last attempt of a synced store, while it is in progress: it is replaced, or the
-- call raises with the old file or the new one in place.
module _ (env : Env) (answer : PersistAnswer) (old : AuditState) (a u : AuditAttempt) where
  abbrev pub Changes : Result ErrorCode AuditAttempt × Store → Type 0
  Changes r =
      (r ≡ (ok u, synced (old ++ u ∷ [])))
      ⊎ ((e : ErrorCode) × (r.0 ≡ err e) × Wrote (old ++ a ∷ []) (old ++ u ∷ []) r.1)

  update_cases :
      IsFresh old a
      → a.status ≡ AuditStatus.in_progress
      → Changes (update_attempt env answer a.attempt_id a u (synced (old ++ a ∷ [])))
  unfolding update_attempt
  update_cases fresh progress =
      let one = count-last old a fresh in
      let replaced = replace-last old a u fresh in
      elim (persist_cases env answer (replace a.attempt_id u (old ++ a ∷ []))
        (synced (old ++ a ∷ []))) [
          | inl (done, checked) ↦ inl (ground arith)
          | inr (e, failed, wrote) ↦ inr (
            e,
            ground arith,
            elim wrote [ inl same ↦ inl (ground arith) | inr new ↦ inr (ground arith) ],
          )
        ]

-- the attempt that `mark_submission_started` puts in place of `a`
abbrev pub marked : ℕ → Text → AuditAttempt → AuditAttempt
marked block timestamp a = record a {
  send_check_block = some block;
  submission_started = true;
  updated_at = timestamp;
}

-- the attempt that `finish_attempt` puts in place of `a`
abbrev pub finished : AuditStatus → AuditReceipt → Text → AuditAttempt → AuditAttempt
finished status receipt timestamp a = record a {
  status = status;
  receipt = some receipt;
  updated_at = timestamp;
}

module _ (env : Env) (answer : PersistAnswer) (old : AuditState) (a : AuditAttempt)
    (fresh : IsFresh old a) (progress : a.status ≡ AuditStatus.in_progress) where
  modify_found :
      (change : AuditAttempt → AuditAttempt)
      → modify env answer a.attempt_id change (synced (old ++ a ∷ [])) ≡ (
          if valid_attempt env (change a)
          then update_attempt env answer a.attempt_id a (change a) (synced (old ++ a ∷ []))
          else (err audit_state_invalid, synced (old ++ a ∷ [])))
  modify_found change = ground (arith, find-last old a fresh)

  modify_cases :
      (change : AuditAttempt → AuditAttempt)
      → Changes env answer old a
          (change a)
          (modify env answer a.attempt_id change (synced (old ++ a ∷ [])))
  modify_cases change = rw (modify_found change) (elim (Bool-cases (valid_attempt env (change a))) [
    | inl valid ↦ rw valid (update_cases env answer old a (change a) fresh progress)
    | inr bad ↦ rw bad (inr (audit_state_invalid, refl, inl refl))
  ])

  pub mark_cases :
      (block : ℕ) (timestamp : Text)
      → Changes env answer old a
          (marked block timestamp a)
          (mark_submission_started env answer a.attempt_id block timestamp (synced (old ++ a ∷ [])))
  unfolding mark_submission_started
  mark_cases block timestamp = modify_cases (marked block timestamp)

  pub finish_cases :
      (status : AuditStatus) (receipt : AuditReceipt) (timestamp : Text)
      → Changes env answer old a
          (finished status receipt timestamp a)
          (finish_attempt env answer a.attempt_id status receipt timestamp (synced (old ++ a ∷ [])))
  unfolding finish_attempt
  finish_cases status receipt timestamp = elim (Bool-cases (valid_receipt receipt)) [
    | inl valid ↦ rw valid (modify_cases (finished status receipt timestamp))
    | inr bad ↦ rw bad (inr (audit_state_invalid, refl, inl refl))
  ]
