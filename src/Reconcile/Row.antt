-- ===== src/Reconcile/Row.antt =====
-- Rows of weights (src/misscomputer_subnet/weight_reconciliation.py): what an attempt sent and what
-- the chain holds.
use misscomputer_subnet.Prelude.{
  ℕ, Text, Bool, false, not, ◌&&◌, Option, none, some, List, [], ◌∷◌, ltb, ◌==◌, all, any, length,
  if◌then◌else◌,
}
use misscomputer_subnet.Prelude.Sorting.{sort}
use misscomputer_subnet.Executor.Types.{ExecutionWeight, AuditAttempt}
use misscomputer_subnet.Reconcile.Types.{UidWeight, EvidenceRelation, consistent, different}

-- `row[uid] = weight`
abbrev pub put : ℕ → ℕ → List UidWeight → List UidWeight
put uid weight [] = record { uid = uid; weight = weight } ∷ []
put uid weight (w ∷ ws) =
    let rest = put uid weight ws in
    if w.uid == uid then record { uid = uid; weight = weight } ∷ ws else w ∷ rest

abbrev pub put_all : List ExecutionWeight → List UidWeight → List UidWeight
put_all [] row = row
put_all (w ∷ ws) row = put_all ws (put w.uid w.weight row)

abbrev pub expected_row : AuditAttempt → List UidWeight
expected_row attempt = put_all attempt.vector.weights []

abbrev pub weight_at : ℕ → List UidWeight → Option ℕ
weight_at uid [] = none
weight_at uid (w ∷ ws) = if w.uid == uid then some w.weight else weight_at uid ws

abbrev pub has_uid : ℕ → List UidWeight → Bool
has_uid uid row = any (λ (w : UidWeight). w.uid == uid) row

abbrev pub same_uids : List UidWeight → List UidWeight → Bool
same_uids a b =
    all (λ (w : UidWeight). has_uid w.uid b) a && all (λ (w : UidWeight). has_uid w.uid a) b

abbrev pub close_at : (ℕ → ℕ → Bool) → ℕ → Option ℕ → Bool
close_at is_close expected none = false
close_at is_close expected (some observed) = is_close expected observed

-- `_row_relation`; `is_close n a b` is `math.isclose(a, b, rel_tol=0.0, abs_tol=t)` for the
-- tolerance `t = max(2.0 / 65_535.0, n / 65_535.0)` of a row of `n` weights
unfoldable pub row_relation :
    (is_close : ℕ → ℕ → ℕ → Bool) (expected observed : List UidWeight) → EvidenceRelation
row_relation is_close expected observed =
    if not (same_uids expected observed)
    then different
    else if all
        (λ (w : UidWeight).
          close_at (is_close (length expected)) w.weight (weight_at w.uid observed))
        expected
    then consistent
    else different

abbrev pub uid_before : UidWeight → UidWeight → Bool
uid_before a b = ltb a.uid b.uid

abbrev pub digest_of : (List UidWeight → Text) → Option (List UidWeight) → Option Text
digest_of row_digest none = none
digest_of row_digest (some row) = some (row_digest (sort uid_before row))
