-- ===== src/Auth/Rows.antt =====
-- Rows of a replay table with an expiry: which survive a deletion of the expired ones.
use misscomputer_subnet.Prelude.{
  ℕ, ◌<◌, ◌≡◌, Bool, true, false, ◌&&◌, List, [], ◌∷◌, arith, ltb, leb, any, keep,
}

module _ {R : Type 0} (expires : R → ℕ) where
  -- the rows that `DELETE ... WHERE expires_at_ns <= now` leaves
  abbrev pub live : ℕ → List R → List R
  live now = keep (λ r. ltb now (expires r))

  module _ (p : R → Bool) where
    -- Some row with `p` is kept until `bound` at least.
    abbrev pub keeps : ℕ → List R → Bool
    keeps bound = any (λ r. p r && leb bound (expires r))

    pub keeps-live :
        (bound now : ℕ) (rows : List R)
        → now < bound
        → keeps bound rows ≡ true
        → keeps bound (live now rows) ≡ true
    keeps-live bound now [] h k = k
    keeps-live bound now (r ∷ rows) h k = ground (arith, keeps-live bound now rows h)

    pub any-keeps : (bound : ℕ) (rows : List R) → keeps bound rows ≡ true → any p rows ≡ true
    any-keeps bound [] k = k
    any-keeps bound (r ∷ rows) k = ground (arith, any-keeps bound rows)

    pub any-live : (now : ℕ) (rows : List R) → any p rows ≡ false → any p (live now rows) ≡ false
    any-live now [] h = h
    any-live now (r ∷ rows) h = ground (arith, any-live now rows)
