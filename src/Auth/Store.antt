-- ===== src/Auth/Store.antt =====
-- The SQLite replay tables of `SQLiteNonceStore` and `SQLiteBridgeReplay`. A table is the list of
-- its rows; one call is one immediate transaction under the store's lock, and the clock reading
-- that the call makes is an argument.
use misscomputer_subnet.Prelude.{
  ℕ, ◌+◌, Text, text_eq, Bool, true, false, ◌&&◌, List, ◌∷◌, ◌==◌, ltb, any, keep, if◌then◌else◌,
}

-- a row of `btauth_nonces`, with the primary key (hotkey, nonce_ns)
pub record NonceRow : Type 0 where
  pub hotkey : Text
  pub nonce_ns : ℕ
  pub expires_at_ns : ℕ

-- a row of `python_bridge_nonces`, with the primary key nonce
pub record BridgeRow : Type 0 where
  pub nonce : Text
  pub expires_at_ns : ℕ

-- Deletes the expired rows and inserts the new one; a row with the same key is an integrity error,
-- and the rollback undoes the deletions too.
unfoldable pub check_and_store :
    (retention_ns now_ns : ℕ) → Text → ℕ → List NonceRow → Bool × List NonceRow
check_and_store retention_ns now_ns hotkey_ss58 nonce_ns rows =
    let live = keep (λ (r : NonceRow). ltb now_ns r.expires_at_ns) rows in
    if any (λ (r : NonceRow). text_eq hotkey_ss58 r.hotkey && nonce_ns == r.nonce_ns) live
    then (false, rows)
    else (
      true,
      record { hotkey = hotkey_ss58; nonce_ns = nonce_ns; expires_at_ns = now_ns + retention_ns }
          ∷ live,
    )

unfoldable pub reserve : (now_ns : ℕ) → Text → ℕ → List BridgeRow → Bool × List BridgeRow
reserve now_ns nonce expires_at_ns rows =
    let live = keep (λ (r : BridgeRow). ltb now_ns r.expires_at_ns) rows in
    if any (λ (r : BridgeRow). text_eq nonce r.nonce) live
    then (false, rows)
    else (true, record { nonce = nonce; expires_at_ns = expires_at_ns } ∷ live)
