-- ===== src/Auth/Nonces.antt =====
-- Replay protection of `SQLiteNonceStore` (src/misscomputer_subnet/auth.py).
use misscomputer_subnet.Prelude.{
  ℕ, ◌+◌, ◌≤◌, ◌<◌, ◌≡◌, inl, inr, Text, text_eq, text_eq_refl, Bool, true, false, ◌&&◌, List, [],
  ◌∷◌, arith, ◌==◌, any, Bool-cases,
}
use misscomputer_subnet.Auth.Rows
use misscomputer_subnet.Auth.Store.{NonceRow, check_and_store}

abbrev matches : Text → ℕ → NonceRow → Bool
matches hotkey nonce_ns r = text_eq hotkey r.hotkey && nonce_ns == r.nonce_ns

abbrev expiry : NonceRow → ℕ
expiry r = r.expires_at_ns

-- A call of the store: its clock, hotkey and nonce.
pub record NonceCall : Type 0 where
  pub clock : ℕ
  pub hotkey : Text
  pub nonce_ns : ℕ

module _ (retention_ns : ℕ) where
  unfoldable pub run_nonces : List NonceCall → List NonceRow → List NonceRow
  run_nonces [] rows = rows
  run_nonces (c ∷ cs) rows =
      run_nonces cs (check_and_store retention_ns c.clock c.hotkey c.nonce_ns rows).1

  abbrev pub CallsBefore : ℕ → List NonceCall → Type 0
  CallsBefore last [] = Unit
  CallsBefore last (c ∷ cs) = (c.clock ≤ last) × CallsBefore last cs

  store_keeps :
      (hotkey : Text) (nonce bound now : ℕ) (other : Text) (m : ℕ) (rows : List NonceRow)
      → now < bound
      → Rows.keeps expiry (matches hotkey nonce) bound rows ≡ true
      → Rows.keeps expiry
          (matches hotkey nonce)
          bound
          (check_and_store retention_ns now other m rows).1
        ≡ true
  unfolding check_and_store
  store_keeps hotkey nonce bound now other m rows h k =
      let survives = Rows.keeps-live expiry (matches hotkey nonce) bound now rows h k in
      elim (Bool-cases (any (matches other m) (Rows.live expiry now rows))) [
        | inl taken ↦ rw taken k
        | inr free ↦ rw free (ground (arith, survives))
      ]

  run_keeps :
      (hotkey : Text) (nonce bound last : ℕ) (calls : List NonceCall) (rows : List NonceRow)
      → last < bound
      → CallsBefore last calls
      → Rows.keeps expiry (matches hotkey nonce) bound rows ≡ true
      → Rows.keeps expiry (matches hotkey nonce) bound (run_nonces calls rows) ≡ true
  unfolding run_nonces
  run_keeps hotkey nonce bound last [] rows h b k = k
  run_keeps hotkey nonce bound last (c ∷ cs) rows h b k =
      run_keeps hotkey nonce bound last cs
        (check_and_store retention_ns c.clock c.hotkey c.nonce_ns rows).1 h b.1
        (store_keeps hotkey nonce bound c.clock c.hotkey c.nonce_ns rows (omega arith) k)

  store_records :
      (hotkey : Text) (nonce now : ℕ) (rows : List NonceRow)
      → (check_and_store retention_ns now hotkey nonce rows).0 ≡ true
      → Rows.keeps expiry
          (matches hotkey nonce)
          (now + retention_ns)
          (check_and_store retention_ns now hotkey nonce rows).1
        ≡ true
  unfolding check_and_store
  store_records hotkey nonce now rows h =
      elim (Bool-cases (any (matches hotkey nonce) (Rows.live expiry now rows))) [
        | inl taken ↦ let bad : false ≡ true = (rw taken at h) in absurd (cc bad)
        | inr free ↦ rw free (ground (arith, text_eq_refl hotkey))
      ]

  -- A nonce that the store has accepted for a hotkey is refused, with the table left alone, at
  -- every later call within the retention time, whatever other calls of the store stand between
  -- the two, if none of them reads a later clock than the last call.
  pub check_and_store_once :
      (hotkey : Text) (nonce now later : ℕ) (rows : List NonceRow) (calls : List NonceCall)
      → (check_and_store retention_ns now hotkey nonce rows).0 ≡ true
      → CallsBefore later calls
      → later < now + retention_ns
      → let after = run_nonces calls (check_and_store retention_ns now hotkey nonce rows).1 in
        check_and_store retention_ns later hotkey nonce after ≡ (false, after)
  unfolding check_and_store
  check_and_store_once hotkey nonce now later rows calls accepted order early =
      let bound = now + retention_ns in
      let after = run_nonces calls (check_and_store retention_ns now hotkey nonce rows).1 in
      let kept =
        run_keeps hotkey nonce bound later calls
          (check_and_store retention_ns now hotkey nonce rows).1 early order
          (store_records hotkey nonce now rows accepted) in
      rw (
        Rows.any-keeps expiry (matches hotkey nonce) bound (Rows.live expiry later after)
          (Rows.keeps-live expiry (matches hotkey nonce) bound later after early kept))
