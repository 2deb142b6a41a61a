-- ===== src/Executor/Audit/Recorded.antt =====
-- Where the attempt that `finish_attempt` returns stands
-- (src/misscomputer_subnet/weight_executor.py).
use misscomputer_subnet.Prelude.{
  ◌≡◌, ◌≤◌, refl, inl, inr, Text, Bool, true, false, some, [], ◌∷◌, ◌==◌, arith, find, In, here,
  there, ltb, Bool-cases, Option-cases, Result, ok, err,
}
use misscomputer_subnet.Executor.Types.{ErrorCode, AuditStatus, AuditReceipt, AuditAttempt, Env}
use misscomputer_subnet.Executor.Audit.{
  AuditState, PersistAnswer, Store, check_state, persist, has_id, count, replace, valid_attempt,
  update_attempt, finish_attempt, valid_receipt, is_in_progress, stored, refused, installed,
  uncleaned, max_state_bytes,
}

-- An attempt of the state has the status and the receipt.
abbrev pub Recorded : AuditStatus → AuditReceipt → AuditState → Type 0
Recorded status receipt state =
    (a : AuditAttempt) × In a state × (a.status ≡ status) × (a.receipt ≡ some receipt)

In-replace :
    (id : Text) (u : AuditAttempt) (state : AuditState)
    → (count (has_id id) state == 1) ≡ true
    → In u (replace id u state)
In-replace id u state h = go state (ground arith)
  where
    go : (xs : AuditState) → 1 ≤ count (has_id id) xs → In u (replace id u xs)
    go [] k = absurd (ground arith)
    go (x ∷ xs) k = elim (Bool-cases (has_id id x)) [
      | inl found ↦ rw found here
      | inr other ↦ there (go xs (ground arith))
    ]

module _ (env : Env) (answer : PersistAnswer) where
  persist-disk :
      (state : AuditState) (store : Store)
      → (persist env answer state store).0 ≡ ok tt
      → (persist env answer state store).1.disk ≡ state
  unfolding persist
  persist-disk state store h =
      go (check_state state) refl (ltb max_state_bytes (env.state_size state)) refl answer refl
    where
      go :
          (c : Result ErrorCode (Unit {0}))
          → check_state state ≡ c
          → (big : Bool) → ltb max_state_bytes (env.state_size state) ≡ big
          → (a : PersistAnswer) → answer ≡ a
          → (persist env answer state store).1.disk ≡ state
      go (err e) k big hb a ha = absurd (ground arith)
      go (ok _) k true hb a ha = absurd (ground arith)
      go (ok _) k false hb stored ha = ground arith
      go (ok _) k false hb refused ha = absurd (ground arith)
      go (ok _) k false hb installed ha = absurd (ground arith)
      go (ok _) k false hb uncleaned ha = absurd (ground arith)

  update_attempt-In :
      (id : Text) (current updated u : AuditAttempt) (store : Store)
      → (update_attempt env answer id current updated store).0 ≡ ok u
      → In updated (update_attempt env answer id current updated store).1.disk
  unfolding update_attempt
  update_attempt-In id current updated u store h =
      elim (Bool-cases (count (has_id id) store.memory == 1)) [
        | inr several ↦ absurd (ground arith)
        | inl one ↦ elim (Bool-cases (is_in_progress current.status)) [
          | inr over ↦ absurd (ground arith)
          | inl going ↦
              go one going (persist env answer (replace id updated store.memory) store).0 refl
        ]
      ]
    where
      go :
          (count (has_id id) store.memory == 1) ≡ true
          → is_in_progress current.status ≡ true
          → (r : Result ErrorCode (Unit {0}))
          → (persist env answer (replace id updated store.memory) store).0 ≡ r
          → In updated (update_attempt env answer id current updated store).1.disk
      go one going (err e) k = absurd (ground arith)
      go one going (ok _) k =
          let kept = persist-disk (replace id updated store.memory) store k in
          let same : (update_attempt env answer id current updated store).1.disk
              ≡ replace id updated store.memory =
            ground arith in
          rw same (In-replace id updated store.memory one)

  -- A `finish_attempt` that returns has left an attempt with the status and the receipt in the file.
  pub finish_attempt-Recorded :
      (id : Text) (status : AuditStatus) (receipt : AuditReceipt) (timestamp : Text)
      (u : AuditAttempt) (store : Store)
      → (finish_attempt env answer id status receipt timestamp store).0 ≡ ok u
      → Recorded status receipt (finish_attempt env answer id status receipt timestamp store).1.disk
  unfolding finish_attempt
  finish_attempt-Recorded id status receipt timestamp u store h =
      elim (Bool-cases (valid_receipt receipt)) [
        | inr bad ↦ absurd (ground arith)
        | inl good ↦ elim (Option-cases (find (has_id id) store.memory)) [
          | inl unknown ↦ absurd (ground arith)
          | inr (current, found) ↦ elim (Bool-cases (valid_attempt env (after current))) [
            | inr bad ↦ absurd (ground arith)
            | inl valid ↦
                let done = update_attempt-In id current (after current) u store (ground arith) in
                let same : finish_attempt env answer id status receipt timestamp store
                    ≡ update_attempt env answer id current (after current) store =
                  ground arith in
                rw same (after current, done, refl, refl)
          ]
        ]
      ]
    where
      after : AuditAttempt → AuditAttempt
      after current = record current {
        status = status;
        receipt = some receipt;
        updated_at = timestamp;
      }
