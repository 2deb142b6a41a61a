-- ===== src/Decision/Reasons.antt =====
-- When no reason to abstain is left (src/misscomputer_subnet/validator_decision.py).
use misscomputer_subnet.Prelude.{
  ℕ, ◌+◌, ◌≤◌, ◌<◌, ◌≡◌, refl, Bool, true, false, not, Option, none, some, List, [], ◌∷◌, ◌++◌, ltb,
  leb, ◌==◌, ok, arith, ◌⊎◌, inl, inr, text_eq, text_eq_iff, Bool-cases,
}
use misscomputer_subnet.Prelude.Sorting.{insert, sort}
use misscomputer_subnet.Organic.Types.{ActiveAssignmentManifestV2}
use misscomputer_subnet.Organic.Evidence.{effective_expires_at_epoch, is_given}
use misscomputer_subnet.Decision.Types.{
  ManifestFetchStatus, rejected, unavailable, verified, AbstainReason, insufficient_scored_epochs,
  no_positive_evidence, WeightDecisionPolicy, RegisteredMinerSet, TerminalManifestObservation,
}
use misscomputer_subnet.Decision.Rules.{
  reason_if, manifest_reasons, terminal_reasons, abstain_reasons,
}
use misscomputer_subnet.Decision.{Window, manifest_of, terminal_of}

insert-nonempty {ℓ} :
    {A : Type ℓ} (before : A → A → Bool) (x : A) (ys : List A) → insert before x ys ≡ [] → ⊥
unfolding insert
insert-nonempty before x [] h = ground arith
insert-nonempty before x (y ∷ ys) h = ground arith

sort-nil {ℓ} : {A : Type ℓ} (before : A → A → Bool) (xs : List A) → sort before xs ≡ [] → xs ≡ []
unfolding sort
sort-nil before [] h = refl
sort-nil before (x ∷ xs) h = absurd (insert-nonempty before x (sort before xs) h)

no_reason :
    (a : Bool) (reason : AbstainReason) (rest : List AbstainReason)
    → (reason_if a reason ++ rest) ≡ []
    → (a ≡ false) × (rest ≡ [])
no_reason true reason rest h = absurd (ground arith)
no_reason false reason rest h = (refl, h)

-- The set is of a later block, or of the same block at the same epoch.
abbrev pub SameBlock : ActiveAssignmentManifestV2 → RegisteredMinerSet → Type 0
SameBlock m r =
    (m.finalized_height < r.finalized_height)
    ⊎ ((r.finalized_block_hash ≡ m.finalized_block_hash) × (r.finalized_epoch ≡ m.finalized_epoch))

-- The manifest is verified, not before the window's end, and still valid at it, and the registered
-- set belongs to its chain.
abbrev pub IsTerminal : Window → Option ActiveAssignmentManifestV2 → Bool → Type 0
IsTerminal w terminal admitted =
    (m : ActiveAssignmentManifestV2) × (terminal ≡ some m)
    × (w.terminal.manifest ≡ some m)
    × (admitted ≡ true)
    × (w.window_end_epoch ≤ w.terminal.evaluated_at_epoch)
    × (w.window_end_epoch < effective_expires_at_epoch m)
    × (m.finalized_height ≤ w.registered.finalized_height)
    × (w.registered.finalized_height
        ≤ m.finalized_height + w.decision_policy.max_registered_height_gap)
    × (m.finalized_epoch ≤ w.registered.finalized_epoch)
    × SameBlock m w.registered

manifest_of-verified :
    (end : ℕ) (t : TerminalManifestObservation) (given terminal : Option ActiveAssignmentManifestV2)
    → manifest_of end t verified given ≡ ok terminal
    → (given ≡ terminal) × (is_given terminal ≡ true) × (end ≤ t.evaluated_at_epoch)
manifest_of-verified end t none terminal h = absurd (ground arith)
manifest_of-verified end t (some m) none h = absurd (ground arith)
manifest_of-verified end t (some m) (some n) h = (ground arith, refl, ground arith)

terminal_reasons-none :
    (status : ManifestFetchStatus) (m : Option ActiveAssignmentManifestV2) (admitted : Bool)
    (end : ℕ) (r : RegisteredMinerSet) (policy : WeightDecisionPolicy) (rest : List AbstainReason)
    → (terminal_reasons status m admitted end r policy ++ rest) ≡ []
    → (status ≡ verified) × (terminal_reasons verified m admitted end r policy ≡ []) × (rest ≡ [])
terminal_reasons-none unavailable m admitted end r policy rest h = absurd (ground arith)
terminal_reasons-none rejected m admitted end r policy rest h = absurd (ground arith)
terminal_reasons-none verified m admitted end r policy rest h =
    go (terminal_reasons verified m admitted end r policy) h
  where
    go :
        (front : List AbstainReason)
        → (front ++ rest) ≡ []
        → (verified ≡ verified) × (front ≡ []) × (rest ≡ [])
    go [] h = (refl, refl, h)
    go (x ∷ xs) h = absurd (ground arith)

manifest_reasons-none :
    (m : ActiveAssignmentManifestV2) (admitted : Bool) (end : ℕ) (r : RegisteredMinerSet)
    (policy : WeightDecisionPolicy)
    → manifest_reasons m admitted end r policy ≡ []
    → (admitted ≡ true)
      × (end < effective_expires_at_epoch m)
      × (m.finalized_height ≤ r.finalized_height)
      × (r.finalized_height ≤ m.finalized_height + policy.max_registered_height_gap)
      × (m.finalized_epoch ≤ r.finalized_epoch)
      × SameBlock m r
manifest_reasons-none m admitted end r policy h =
    let (live, h1) = no_reason (leb (effective_expires_at_epoch m) end) _ _ h in
    let (trusted, h2) = no_reason (not admitted) _ _ h1 in
    let same : text_eq r.finalized_block_hash m.finalized_block_hash ≡ true
        → r.finalized_block_hash ≡ m.finalized_block_hash =
      (text_eq_iff r.finalized_block_hash m.finalized_block_hash).0 in
    (
      ground arith,
      ground arith,
      ground arith,
      ground arith,
      ground arith,
      elim (Bool-cases (ltb m.finalized_height r.finalized_height)) [
        | inl later ↦ inl (ground arith)
        | inr level ↦ inr (same (ground arith), ground arith)
      ],
    )

pub abstain_reasons-none :
    (w : Window) (terminal : Option ActiveAssignmentManifestV2) (admitted : Bool)
    (scored_count positive : ℕ)
    → terminal_of w ≡ ok terminal
    → abstain_reasons w.terminal.status terminal admitted w.window_end_epoch scored_count
        w.registered w.decision_policy positive
      ≡ []
    → IsTerminal w terminal admitted
      × (w.decision_policy.min_scored_epochs ≤ scored_count)
      × (1 ≤ positive)
unfolding abstain_reasons terminal_of
abstain_reasons-none w terminal admitted scored_count positive t h =
    let (status, chain, rest) =
      terminal_reasons-none w.terminal.status terminal admitted w.window_end_epoch w.registered
        w.decision_policy _ (sort-nil _ _ h) in
    let (enough, last) =
      no_reason (ltb scored_count w.decision_policy.min_scored_epochs) insufficient_scored_epochs _
        rest in
    let (given, some_, late) =
      manifest_of-verified w.window_end_epoch w.terminal w.terminal.manifest terminal
        (rw status at t) in
    (go terminal given some_ late chain, ground arith, some_positive positive last)
  where
    some_positive : (n : ℕ) → reason_if (n == 0) no_positive_evidence ≡ [] → 1 ≤ n
    some_positive n e = ground arith

    go :
        (m : Option ActiveAssignmentManifestV2)
        → w.terminal.manifest ≡ m
        → is_given m ≡ true
        → w.window_end_epoch ≤ w.terminal.evaluated_at_epoch
        → terminal_reasons verified m admitted w.window_end_epoch w.registered w.decision_policy
          ≡ []
        → IsTerminal w m admitted
    go none a b c e = absurd (ground arith)
    go (some m) a b c e =
        let (trusted, live, above, near, epoch, block) =
          manifest_reasons-none m admitted w.window_end_epoch w.registered w.decision_policy e in
        (m, refl, a, trusted, c, live, above, near, epoch, block)
