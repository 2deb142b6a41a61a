-- ===== src/Organic/Window/Means.antt =====
-- The mean availability of a window's miners (src/misscomputer_subnet/organic_scoring.py).
use misscomputer_subnet.Prelude.{
  ℕ, ◌+◌, ◌≤◌, ◌≡◌, refl, List, [], ◌∷◌, All, All-map, map, total, count, ok, err, ◌>>=◌, ◌>>◌,
  arith,
}
use misscomputer_subnet.Prelude.Sorting.{sort, All-sort, total-sort}
use misscomputer_subnet.Prelude.Fractions.{divide_fraction-le, divide_fraction-pos}
use misscomputer_subnet.Organic.Types.{EndpointEpochTally}
use misscomputer_subnet.Organic.Tally.{Raises}
use misscomputer_subnet.Organic.Epoch.{row_is_eligible, EpochFields, derive_epoch}
use misscomputer_subnet.Organic.Epoch.Sound.{IsRated, IsSplit, derive_epoch_sound}
use misscomputer_subnet.Organic.Window.{
  OrganicEpochScore, Share, FraudCount, WindowProgress, MinerAvailability, OrganicAvailabilityScore,
  next, add_endpoints, add_epochs, share_before, miner_row, window_score, nothing_seen,
  check_window, aggregate_sorted, aggregate_organic_window, epoch_before,
}
use misscomputer_subnet.Organic.Window.Bounds.{
  IsShare, count_of, IsTallied, nothing_more, add_endpoints-IsTallied,
}

-- The record's endpoints are what `_derive_epoch` gives for the record's own observations.
abbrev pub IsDerived : OrganicEpochScore → Type 0
IsDerived v =
    (fields : EpochFields) × (derive_epoch v.epoch_seconds v.epoch_index v.min_attempts
        v.corroboration v.observations
      ≡ ok fields)
    × (v.endpoints ≡ fields.endpoints)

abbrev pub eligible_rows : OrganicEpochScore → ℕ
eligible_rows v = count row_is_eligible v.endpoints

All-right :
    (P Q : EndpointEpochTally → Type 0) (es : List EndpointEpochTally)
    → All (λ e. P e × Q e) es
    → All Q es
All-right P Q [] a = tt
All-right P Q (e ∷ es) (first, rest) = (first.1, All-right P Q es rest)

IsDerived-IsRated : (v : OrganicEpochScore) → IsDerived v → All (IsRated v.min_attempts) v.endpoints
IsDerived-IsRated v (fields, derived, same) =
    let sound =
      derive_epoch_sound v.epoch_seconds v.epoch_index v.min_attempts v.corroboration v.observations
        fields derived in
    rw same (All-right IsSplit (IsRated v.min_attempts) fields.endpoints sound.1)

add_epochs-IsTallied :
    (n : ℕ) (vs : List OrganicEpochScore) (p p' : WindowProgress)
    → All IsDerived vs
    → IsTallied n p
    → add_epochs vs p ≡ ok p'
    → IsTallied (total eligible_rows vs + n) p'
unfolding add_epochs
add_epochs-IsTallied n [] p p' d a h =
    let same : p ≡ p' = ground arith in rw (← same) (nothing_more n p a)
add_epochs-IsTallied n (v ∷ vs) p p' (d, ds) a h =
    go (add_endpoints v.endpoints p) (λ q. add_epochs-IsTallied (eligible_rows v + n) vs q p' ds)
      refl h
  where
    go :
        (call : Raises WindowProgress)
        → ((q : WindowProgress)
            → IsTallied (eligible_rows v + n) q
            → add_epochs vs q ≡ ok p'
            → IsTallied (total eligible_rows vs + (eligible_rows v + n)) p')
        → add_endpoints v.endpoints p ≡ call
        → next call (λ q. add_epochs vs q) ≡ ok p'
        → IsTallied (total eligible_rows (v ∷ vs) + n) p'
    go (err c) more first h = absurd (ground arith)
    go (ok q) more first h =
        let done =
          more q
            (add_endpoints-IsTallied v.min_attempts n v.endpoints p q (IsDerived-IsRated v d) a
              first)
            h in
        (done.0, ground (arith, done.1))

-- A miner row counts at least one endpoint-epoch, and its availability is at most one.
abbrev pub IsMean : MinerAvailability → Type 0
IsMean m =
    (1 ≤ m.eligible_endpoint_epochs)
    × (m.availability_numerator ≤ m.availability_denominator)
    × (1 ≤ m.availability_denominator)

miner_row-IsMean : (frauds : List FraudCount) (s : Share) → IsShare s → IsMean (miner_row frauds s)
unfolding miner_row
miner_row-IsMean frauds s (small, pos, some_row) = (
  some_row,
  divide_fraction-le s.count s.sum small some_row pos,
  divide_fraction-pos s.count s.sum some_row pos,
)

total-miner_row :
    (frauds : List FraudCount) (ss : List Share)
    → total (λ (m : MinerAvailability). m.eligible_endpoint_epochs) (map (miner_row frauds) ss)
      ≡ total count_of ss
unfolding miner_row
total-miner_row frauds [] = refl
total-miner_row frauds (s ∷ ss) = ground (arith, total-miner_row frauds ss)

aggregate_sorted-progress :
    (vs : List OrganicEpochScore) (score : OrganicAvailabilityScore)
    → aggregate_sorted vs ≡ ok score
    → (first : OrganicEpochScore) × ((p : WindowProgress) × (add_epochs vs nothing_seen ≡ ok p)
        × (window_score first vs p ≡ score)
        × (check_window first vs ≡ ok tt))
aggregate_sorted-progress [] score h = absurd (ground arith)
aggregate_sorted-progress (v ∷ vs) score h =
    go (check_window v (v ∷ vs)) (add_epochs (v ∷ vs) nothing_seen) refl refl h
  where
    go :
        (c : Raises (Unit {0})) (r : Raises WindowProgress)
        → check_window v (v ∷ vs) ≡ c
        → add_epochs (v ∷ vs) nothing_seen ≡ r
        → (c >> (r >>= λ p. ok (window_score v (v ∷ vs) p))) ≡ ok score
        → (first : OrganicEpochScore) × ((p : WindowProgress) × (add_epochs (v ∷ vs) nothing_seen
              ≡ ok p)
            × (window_score first (v ∷ vs) p ≡ score)
            × (check_window first (v ∷ vs) ≡ ok tt))
    go (err e) r a b h = absurd (ground arith)
    go (ok u) (err e) a b h = absurd (ground arith)
    go (ok u) (ok p) a b h = (v, (p, b, ground arith, a))

-- If the window of epochs whose rows follow from their observations is accepted, each listed miner
-- has at least one eligible endpoint-epoch and a mean availability of at most one, and all eligible
-- endpoint-epochs of the epochs are counted for one miner.
pub aggregate-IsMean :
    (epochs : List OrganicEpochScore) (score : OrganicAvailabilityScore)
    → All IsDerived epochs
    → aggregate_organic_window epochs ≡ ok score
    → All IsMean score.miners
      × (total (λ (m : MinerAvailability). m.eligible_endpoint_epochs) score.miners
          ≡ total eligible_rows epochs)
unfolding aggregate_organic_window
aggregate-IsMean epochs score d h =
    let vs = sort epoch_before epochs in
    let (first, (p, added, same, _)) = aggregate_sorted-progress vs score h in
    let tallied =
      add_epochs-IsTallied 0 vs nothing_seen p (All-sort epoch_before IsDerived epochs d) (tt, refl)
        added in
    rw (← same) (
      All-map IsShare IsMean (miner_row p.fraud_counts) (miner_row-IsMean p.fraud_counts)
          (sort share_before p.shares) (All-sort share_before IsShare p.shares tallied.0),
      omega (
        arith,
        total-miner_row p.fraud_counts (sort share_before p.shares),
        total-sort share_before count_of p.shares,
        tallied.1,
        total-sort epoch_before eligible_rows epochs,
      ),
    )
