-- ===== src/Reconcile/Lifecycle.antt =====
-- The calls of the chain that a report makes (src/misscomputer_subnet/weight_reconciliation.py).
use misscomputer_subnet.Prelude.{
  ℕ, ◌≡◌, refl, ◌⊎◌, inl, inr, Text, text_eq, Bool, true, false, ◌&&◌, Option, none, some, List, [],
  ◌∷◌, ◌==◌, Bool-cases, Result, ok, err,
}
use misscomputer_subnet.Chain.{MetagraphSnapshot, by_hotkey}
use misscomputer_subnet.Executor.Types.{AuditAttempt}
use misscomputer_subnet.Executor.Audit.{AuditState}
use misscomputer_subnet.Reconcile.Types.{
  Raises, CallAnswer, returns, fails, cancels, ChainAnswers, ReconciliationCode, ChainCall,
  open_call, sync_call, weights_call, close_call, Arguments, UidWeight,
}
use misscomputer_subnet.Reconcile.{
  Observation, select_attempt, observe_as, observe, permitted_uid, is_ambiguous_view, conclude,
  with_chain, with_attempt, with_state, reconcile_weight_attempt,
}

-- the calls of a chain that was opened: the metagraph, at most one row, and the end
abbrev pub opened_calls : Bool → List ChainCall
opened_calls true = open_call ∷ sync_call ∷ weights_call ∷ close_call ∷ []
opened_calls false = open_call ∷ sync_call ∷ close_call ∷ []

-- No call; or the chain could not be opened; or it was opened, and is closed by the last call.
abbrev pub IsClosed : CallAnswer (Unit {0}) → List ChainCall → Type 0
IsClosed opening calls =
    (calls ≡ [])
    ⊎ (((calls ≡ open_call ∷ []) × ((opening ≡ fails) ⊎ (opening ≡ cancels)))
        ⊎ ((opening ≡ returns tt) × ((with_row : Bool) × (calls ≡ opened_calls with_row))))

module _ (is_close : ℕ → ℕ → ℕ → Bool) (row_digest : List UidWeight → Text) (args : Arguments)
    (answers : ChainAnswers) where
  abbrev row_calls : Bool → List ChainCall
  row_calls true = weights_call ∷ []
  row_calls false = []

  observe_as-reads :
      (attempt : AuditAttempt) (snapshot : MetagraphSnapshot) (row : CallAnswer (List UidWeight))
      (uid : Option ℕ)
      → (with_row : Bool) × ((observe_as is_close row_digest attempt snapshot row uid).reads
          ≡ row_calls with_row)
  observe_as-reads attempt snapshot row none = (false, refl)
  observe_as-reads attempt snapshot fails (some uid) = (true, refl)
  observe_as-reads attempt snapshot cancels (some uid) = (true, refl)
  observe_as-reads attempt snapshot (returns r) (some uid) = (true, refl)

  observe-reads :
      (attempt : AuditAttempt) (snapshot : CallAnswer MetagraphSnapshot)
      → (with_row : Bool) × ((observe is_close row_digest args answers attempt snapshot).reads
          ≡ row_calls with_row)
  observe-reads attempt fails = (false, refl)
  observe-reads attempt cancels = (false, refl)
  observe-reads attempt (returns snapshot) = elim (Bool-cases (is_ambiguous_view snapshot)) [
    | inl unclear ↦ (false, rw unclear refl)
    | inr clear ↦
        let (b, e) =
          observe_as-reads attempt snapshot answers.row
            (permitted_uid (by_hotkey snapshot args.validator_hotkey)) in
        (b, rw clear e)
  ]

  conclude-calls :
      (attempt : AuditAttempt) (cancelled : Bool) (o : Observation is_close row_digest)
      (with_row : Bool)
      → o.reads ≡ row_calls with_row
      → (conclude is_close row_digest args attempt cancelled o).calls ≡ opened_calls with_row
  conclude-calls attempt true o true e = rw e refl
  conclude-calls attempt true o false e = rw e refl
  conclude-calls attempt false o true e = rw e refl
  conclude-calls attempt false o false e = rw e refl

  with_chain-IsClosed :
      (attempt : AuditAttempt) (opening : CallAnswer (Unit {0}))
      → IsClosed opening (with_chain is_close row_digest args answers attempt opening).calls
  with_chain-IsClosed attempt fails = inr (inl (refl, inl refl))
  with_chain-IsClosed attempt cancels = inr (inl (refl, inr refl))
  with_chain-IsClosed attempt (returns tt) =
      let (b, e) = observe-reads attempt answers.snapshot in
      inr (
        inr (
          refl,
          (
            b,
            conclude-calls attempt answers.close_cancelled
                (observe is_close row_digest args answers attempt answers.snapshot) b e,
          ),
        ))

  with_attempt-IsClosed :
      (r : Raises AuditAttempt)
      → IsClosed answers.opening (with_attempt is_close row_digest args answers r).calls
  with_attempt-IsClosed (err e) = inl refl
  with_attempt-IsClosed (ok a) =
      elim (Bool-cases (
        text_eq a.vector.network args.network
        && a.vector.netuid == args.netuid
        && text_eq a.vector.validator_hotkey args.validator_hotkey)) [
          | inr other ↦ rw other (inl refl)
          | inl own ↦ rw own (with_chain-IsClosed a answers.opening)
        ]

  with_state-IsClosed :
      (r : Result ReconciliationCode AuditState)
      → IsClosed answers.opening (with_state is_close row_digest args answers r).calls
  with_state-IsClosed (err e) = inl refl
  with_state-IsClosed (ok state) = with_attempt-IsClosed (select_attempt state args.attempt_id)

  -- Whatever the audit file and the chain answer, cancellations included, a report makes no call of
  -- the chain, or only the one that fails to open it, or it opens the chain, reads the metagraph and
  -- at most one row, and closes the chain by its last call.
  pub reconcile-IsClosed :
      IsClosed answers.opening (reconcile_weight_attempt is_close row_digest args answers).calls
  unfolding reconcile_weight_attempt
  reconcile-IsClosed = with_state-IsClosed answers.audit_state
