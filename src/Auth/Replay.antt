-- ===== src/Auth/Replay.antt =====
-- Calls of `SQLiteBridgeReplay.reserve` (src/misscomputer_subnet/auth.py).
use misscomputer_subnet.Prelude.{
  ℕ, ◌≤◌, ◌<◌, ◌≡◌, inl, inr, Text, text_eq, text_eq_refl, Bool, true, false, List, [], ◌∷◌, arith,
  any, Bool-cases,
}
use misscomputer_subnet.Auth.Rows
use misscomputer_subnet.Auth.Store.{BridgeRow, reserve}

-- Some row keeps `nonce` until `bound` at least.
abbrev pub keeps : Text → ℕ → List BridgeRow → Bool
keeps nonce = Rows.keeps (λ (r : BridgeRow). r.expires_at_ns) (λ r. text_eq nonce r.nonce)

abbrev live : ℕ → List BridgeRow → List BridgeRow
live = Rows.live (λ (r : BridgeRow). r.expires_at_ns)

abbrev names : Text → List BridgeRow → Bool
names nonce = any (λ (r : BridgeRow). text_eq nonce r.nonce)

keeps-live :
    (nonce : Text) (bound now : ℕ) (rows : List BridgeRow)
    → now < bound
    → keeps nonce bound rows ≡ true
    → keeps nonce bound (live now rows) ≡ true
keeps-live nonce =
    Rows.keeps-live (λ (r : BridgeRow). r.expires_at_ns) (λ (r : BridgeRow). text_eq nonce r.nonce)

names-keeps :
    (nonce : Text) (bound : ℕ) (rows : List BridgeRow)
    → keeps nonce bound rows ≡ true
    → names nonce rows ≡ true
names-keeps nonce =
    Rows.any-keeps (λ (r : BridgeRow). r.expires_at_ns) (λ (r : BridgeRow). text_eq nonce r.nonce)

-- A row that outlives the clock of a call survives the call.
pub reserve_keeps :
    (nonce : Text) (bound now : ℕ) (other : Text) (expires : ℕ) (rows : List BridgeRow)
    → now < bound
    → keeps nonce bound rows ≡ true
    → keeps nonce bound (reserve now other expires rows).1 ≡ true
unfolding reserve
reserve_keeps nonce bound now other expires rows h k =
    let survives = keeps-live nonce bound now rows h k in
    elim (Bool-cases (names other (live now rows))) [
      | inl taken ↦ rw taken k
      | inr free ↦ rw free (ground (arith, survives))
    ]

pub reserve_refuses :
    (nonce : Text) (bound now expires : ℕ) (rows : List BridgeRow)
    → now < bound
    → keeps nonce bound rows ≡ true
    → reserve now nonce expires rows ≡ (false, rows)
unfolding reserve
reserve_refuses nonce bound now expires rows h k =
    rw (names-keeps nonce bound (live now rows) (keeps-live nonce bound now rows h k))

pub reserve_records :
    (nonce : Text) (now expires : ℕ) (rows : List BridgeRow)
    → (reserve now nonce expires rows).0 ≡ true
    → keeps nonce expires (reserve now nonce expires rows).1 ≡ true
unfolding reserve
reserve_records nonce now expires rows h = elim (Bool-cases (names nonce (live now rows))) [
  | inl taken ↦ let bad : false ≡ true = (rw taken at h) in absurd (cc bad)
  | inr free ↦ rw free (ground (arith, text_eq_refl nonce))
]

-- A call of `reserve` by some other request: the clock that it reads, its nonce, its expiry.
pub record StoreCall : Type 0 where
  pub clock : ℕ
  pub nonce : Text
  pub expires : ℕ

unfoldable pub run_calls : List StoreCall → List BridgeRow → List BridgeRow
run_calls [] rows = rows
run_calls (c ∷ cs) rows = run_calls cs (reserve c.clock c.nonce c.expires rows).1

abbrev pub CallsBefore : ℕ → List StoreCall → Type 0
CallsBefore last [] = Unit
CallsBefore last (c ∷ cs) = (c.clock ≤ last) × CallsBefore last cs

pub run_calls_keeps :
    (nonce : Text) (bound last : ℕ) (calls : List StoreCall) (rows : List BridgeRow)
    → last < bound
    → CallsBefore last calls
    → keeps nonce bound rows ≡ true
    → keeps nonce bound (run_calls calls rows) ≡ true
unfolding run_calls
run_calls_keeps nonce bound last [] rows h b k = k
run_calls_keeps nonce bound last (c ∷ cs) rows h b k =
    run_calls_keeps nonce bound last cs (reserve c.clock c.nonce c.expires rows).1 h b.1
      (reserve_keeps nonce bound c.clock c.nonce c.expires rows (omega arith) k)

names-live :
    (nonce : Text) (now : ℕ) (rows : List BridgeRow)
    → names nonce rows ≡ false
    → names nonce (live now rows) ≡ false
names-live nonce =
    Rows.any-live (λ (r : BridgeRow). r.expires_at_ns) (λ (r : BridgeRow). text_eq nonce r.nonce)

-- Once the clock has reached the expiry of a recorded nonce, the nonce is free again.
pub reserve_again :
    (nonce : Text) (now expires later expires' : ℕ) (rows : List BridgeRow)
    → (reserve now nonce expires rows).0 ≡ true
    → expires ≤ later
    → (reserve later nonce expires' (reserve now nonce expires rows).1).0 ≡ true
unfolding reserve
reserve_again nonce now expires later expires' rows h past =
    elim (Bool-cases (names nonce (live now rows))) [
      | inl taken ↦ let bad : false ≡ true = (rw taken at h) in absurd (cc bad)
      | inr free ↦ rw free (ground (arith, names-live nonce later (live now rows) free))
    ]
