-- ===== src/Plan/Expiry.antt =====
-- The expiry of a weight plan (`_conservative_expiry_limit` and `WeightPlan` of
-- src/misscomputer_subnet/weight_plan.py).
use misscomputer_subnet.Prelude.{
  ℕ, ◌+◌, ◌*◌, ◌/◌, ◌≤◌, ◌<◌, ◌≡◌, sym, ◌∙◌, Text, true, Option, min, max, arith,
}
use native.Mathlib.Nat.{lt-div-mul-add, div-eq_of_lt-le, div-mul-le_self}
use misscomputer_subnet.Prelude.Floats.{Floats}
use misscomputer_subnet.Plan.Checks.{SplitUrl, expiry_limit, max_block}
use misscomputer_subnet.Plan.Types.{WeightPlan, valid_snapshot, valid_plan}

next_epoch-after : (block tempo : ℕ) → 1 ≤ tempo → block < (block / tempo + 1) * tempo
next_epoch-after block tempo h = omega (arith, lt-div-mul-add {a = block} {b = tempo} h)

-- the two minima of the limit
limited : (a b c : ℕ) → (min (min a b) c ≤ a) × (min (min a b) c ≤ b)
limited a b c = (omega arith, omega arith)

above : (n a b c : ℕ) → n < a → n < b → n < c → n < min (min a b) c
above n a b c h k l = omega arith

expiry_limit-le :
    (block tempo : ℕ)
    → (expiry_limit block tempo ≤ block + max 1 (tempo / 4))
      × (expiry_limit block tempo ≤ (block / tempo + 1) * tempo)
unfolding expiry_limit
expiry_limit-le block tempo =
    limited (block + max 1 (tempo / 4)) ((block / tempo + 1) * tempo) max_block

-- For a block below the greatest one and a positive tempo the limit is later than the block, at
-- most a quarter of the tempo later (one block for a tempo below eight), and not after the block
-- that starts the next epoch.
pub expiry_limit-bounds :
    (block tempo : ℕ)
    → block < max_block
    → 1 ≤ tempo
    → (block < expiry_limit block tempo)
      × (expiry_limit block tempo ≤ block + max 1 (tempo / 4))
      × (expiry_limit block tempo ≤ (block / tempo + 1) * tempo)
unfolding expiry_limit
expiry_limit-bounds block tempo h k =
    let (quarter, boundary) = expiry_limit-le block tempo in
    (
      above block (block + max 1 (tempo / 4)) ((block / tempo + 1) * tempo) max_block (omega arith)
          (next_epoch-after block tempo k) h,
      quarter,
      boundary,
    )

module _ (fl : Floats) (urlsplit : Text → Option SplitUrl) (p : WeightPlan) where
  pub plan-window :
      valid_plan fl urlsplit p ≡ true
      → (p.created_block ≡ p.snapshot.block)
        × (p.created_block < p.expires_at_block)
        × (p.expires_at_block ≤ expiry_limit p.snapshot.block p.snapshot.tempo)
  unfolding valid_plan
  plan-window h = (ground arith, ground arith, ground arith)

  snapshot-epoch :
      valid_snapshot p.snapshot ≡ true
      → (1 ≤ p.snapshot.tempo)
        × (p.snapshot.epoch ≡ p.snapshot.block / p.snapshot.tempo)
        × (p.snapshot.block ≤ max_block)
  unfolding valid_snapshot
  snapshot-epoch h = (ground arith, ground arith, ground arith)

  -- A valid plan over a valid snapshot is live in one epoch only: every block from its creation to
  -- the one before its expiry lies in the snapshot's epoch, and such a block is less than a quarter
  -- of the tempo (or one block) after the snapshot.
  pub plan_one_epoch :
      (block : ℕ)
      → valid_snapshot p.snapshot ≡ true
      → valid_plan fl urlsplit p ≡ true
      → p.created_block ≤ block
      → block < p.expires_at_block
      → (block / p.snapshot.tempo ≡ p.snapshot.epoch)
        × (block < p.snapshot.block + max 1 (p.snapshot.tempo / 4))
  plan_one_epoch block s v after before =
      let (at, live, limit) = plan-window v in
      let (positive, epoch, bounded) = snapshot-epoch s in
      let (quarter, boundary) = expiry_limit-le p.snapshot.block p.snapshot.tempo in
      let q = p.snapshot.block / p.snapshot.tempo in
      (
        div-eq_of_lt-le {k = q} p.snapshot.tempo {m = block}
              (omega (arith, div-mul-le_self p.snapshot.block p.snapshot.tempo)) (omega arith)
            ∙ sym epoch,
        omega arith,
      )
