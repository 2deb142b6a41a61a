-- ===== src/Revocation/Gate/Replaced.antt =====
-- When `_revocation_gate` of src/misscomputer_subnet/static_runtime.py replaces the stored high water.
use misscomputer_subnet.Prelude.{
  ℕ, ◌+◌, ◌*◌, ◌≤◌, ◌<◌, ◌≡◌, refl, ◌⊎◌, inl, inr, Bool, true, false, Option, none, some, List,
  Result, ok, err, arith, Option-cases,
}
use misscomputer_subnet.Revocation.{
  VerifiedRevocation, RevocationCode, advance_static_site_release_revocation, revocation_freshness,
}
use misscomputer_subnet.Revocation.Gate.{
  BoundCode, HighWaterState, Offer, loaded, no_snapshot, snapshot_unavailable, snapshot_load_failed,
  InstallAnswer, installed, failed_before, failed_after, GateResult, advance_disk, read_high_water,
  install_revocation_high_water, offer_snapshot, revocation_gate, is_future, max_max_age_seconds,
  close_gate,
}
use misscomputer_subnet.Revocation.Gate.Successor.{
  IsSuccessor, advance-IsSuccessor, IsSuccessor-advance, advance-first,
}

-- Either the gate finds the snapshot dated in the future, or its issue lies before now and 301 s.
future-cases :
    (v : VerifiedRevocation) (now : ℕ)
    → ((is_future (revocation_freshness v now max_max_age_seconds) ≡ true)
        × ((now + 62162035501) * 1000000000 ≤ v.snapshot.issued_at))
      ⊎ ((v.snapshot.issued_at < (now + 62162035501) * 1000000000)
          × (is_future (revocation_freshness v now max_max_age_seconds) ≡ false))
unfolding revocation_freshness
future-cases v now = ground arith

module _ (verify : List ℕ → Result BoundCode VerifiedRevocation) where
  -- What stands behind a replacement of the stored bytes by others.
  pub record IsReplacement (now : ℕ) (before : Option (List ℕ)) (bytes : List ℕ) : Type 0 where
    pub new : VerifiedRevocation
    pub verified : verify bytes ≡ ok new
    pub not_future : new.snapshot.issued_at < (now + 62162035501) * 1000000000
    pub follows :
        (before ≡ none)
        ⊎ ((stored : List ℕ) × (old : VerifiedRevocation) × (before ≡ some stored)
            × (verify stored ≡ ok old)
            × IsSuccessor old.snapshot new.snapshot)

  -- The offered bytes do not verify, or to a snapshot that is dated in the future or is no successor
  -- of the stored one.
  abbrev pub Unfit : ℕ → Option (List ℕ) → List ℕ → Type 0
  Unfit now before bytes =
      ((e : BoundCode) × (verify bytes ≡ err e))
      ⊎ ((new : VerifiedRevocation) × (verify bytes ≡ ok new)
          × (((now + 62162035501) * 1000000000 ≤ new.snapshot.issued_at)
              ⊎ ((stored : List ℕ) × (old : VerifiedRevocation) × (before ≡ some stored)
                  × (verify stored ≡ ok old)
                  × ¬ IsSuccessor old.snapshot new.snapshot)))

  -- why the file is kept
  abbrev pub Kept : Bool → InstallAnswer → ℕ → Option (List ℕ) → Offer → Type 0
  Kept readable answer now before offer =
      (¬ ((bytes : List ℕ) × (offer ≡ loaded bytes)))
      ⊎ (readable ≡ false)
      ⊎ (answer ≡ failed_before)
      ⊎ ((stored : List ℕ) × (e : BoundCode) × (before ≡ some stored) × (verify stored ≡ err e))
      ⊎ ((bytes : List ℕ) × (offer ≡ loaded bytes) × Unfit now before bytes)

  -- The disk is kept, or replaced by the offer.
  abbrev pub Moves : Bool → InstallAnswer → ℕ → HighWaterState → Offer → HighWaterState → Type 0
  Moves readable answer now before offer after =
      ((after.disk ≡ before.disk) × Kept readable answer now before.disk offer)
      ⊎ ((bytes : List ℕ) × (offer ≡ loaded bytes)
          × (after.disk ≡ some bytes)
          × IsReplacement now before.disk bytes)

  advance_disk-cases :
      (answer : InstallAnswer) (state : HighWaterState) (held : Option VerifiedRevocation)
      (bytes : List ℕ) (offered : VerifiedRevocation) (r : Result RevocationCode Bool)
      → (((advance_disk answer state held bytes offered r).1.disk ≡ state.disk)
          × ((answer ≡ failed_before) ⊎ ¬ (r ≡ ok true)))
        ⊎ ((r ≡ ok true) × ((advance_disk answer state held bytes offered r).1.disk ≡ some bytes))
  unfolding advance_disk
  advance_disk-cases installed state held bytes offered (ok true) = inr (refl, refl)
  advance_disk-cases failed_before state held bytes offered (ok true) = inl (refl, inl refl)
  advance_disk-cases failed_after state held bytes offered (ok true) = inr (refl, refl)
  advance_disk-cases answer state held bytes offered (ok false) =
      inl (ground arith, inr (λ e. absurd (ground arith)))
  advance_disk-cases answer state held bytes offered (err e) =
      inl (ground arith, inr (λ e. absurd (ground arith)))

  read-none :
      (disk : Option (List ℕ))
      → read_high_water verify disk ≡ none
      → (stored : List ℕ) × (e : BoundCode) × (disk ≡ some stored) × (verify stored ≡ err e)
  unfolding read_high_water
  read-none none h = absurd (ground arith)
  read-none (some stored) h = go (verify stored) refl
    where
      go :
          (r : Result BoundCode VerifiedRevocation)
          → verify stored ≡ r
          → (s : List ℕ) × (e : BoundCode) × (some stored ≡ some s) × (verify s ≡ err e)
      go (ok v) k = absurd (ground arith)
      go (err e) k = (stored, e, refl, k)

  read-refuses :
      (disk : Option (List ℕ)) (held : Option VerifiedRevocation) (offered : VerifiedRevocation)
      → read_high_water verify disk ≡ some held
      → ¬ (advance_static_site_release_revocation held offered ≡ ok true)
      → (stored : List ℕ) × (old : VerifiedRevocation) × (disk ≡ some stored)
        × (verify stored ≡ ok old)
        × ¬ IsSuccessor old.snapshot offered.snapshot
  unfolding read_high_water
  read-refuses none held offered h refuses =
      let same : held ≡ none = ground arith in absurd (rw same at refuses (advance-first offered))
  read-refuses (some stored) held offered h refuses = go (verify stored) refl
    where
      go :
          (r : Result BoundCode VerifiedRevocation)
          → verify stored ≡ r
          → (s : List ℕ) × (old : VerifiedRevocation) × (some stored ≡ some s)
            × (verify s ≡ ok old)
            × ¬ IsSuccessor old.snapshot offered.snapshot
      go (err e) k = absurd (ground arith)
      go (ok old) k =
          let same : held ≡ some old = ground arith in
          (stored, old, refl, k, λ s. refuses (rw same (IsSuccessor-advance old offered s)))

  read-follows :
      (disk : Option (List ℕ)) (held : Option VerifiedRevocation) (offered : VerifiedRevocation)
      → read_high_water verify disk ≡ some held
      → advance_static_site_release_revocation held offered ≡ ok true
      → (disk ≡ none)
        ⊎ ((stored : List ℕ) × (old : VerifiedRevocation) × (disk ≡ some stored)
            × (verify stored ≡ ok old)
            × IsSuccessor old.snapshot offered.snapshot)
  unfolding read_high_water
  read-follows none held offered h accepted = inl refl
  read-follows (some stored) held offered h accepted = go (verify stored) refl
    where
      go :
          (r : Result BoundCode VerifiedRevocation)
          → verify stored ≡ r
          → (some stored ≡ none)
            ⊎ ((s : List ℕ) × (old : VerifiedRevocation) × (some stored ≡ some s)
                × (verify s ≡ ok old)
                × IsSuccessor old.snapshot offered.snapshot)
      go (err e) k = absurd (ground arith)
      go (ok old) k =
          let same : held ≡ some old = ground arith in
          inr (stored, old, refl, k, advance-IsSuccessor old offered (rw same at accepted))

  install-Moves :
      (readable : Bool) (answer : InstallAnswer) (now : ℕ) (state : HighWaterState) (bytes : List ℕ)
      (offered : VerifiedRevocation)
      → verify bytes ≡ ok offered
      → offered.snapshot.issued_at < (now + 62162035501) * 1000000000
      → Moves readable answer now state
          (loaded bytes)
          (install_revocation_high_water verify readable answer state bytes offered).1
  unfolding install_revocation_high_water
  install-Moves false answer now state bytes offered h early = inl (refl, inr (inl refl))
  install-Moves true answer now state bytes offered h early =
      elim (Option-cases (read_high_water verify state.disk)) [
        | inl unread ↦ inl (ground arith, inr (inr (inr (inl (read-none state.disk unread)))))
        | inr (held, read) ↦
            elim (advance_disk-cases answer state held bytes offered
              (advance_static_site_release_revocation held offered)) [
                | inl (same, inl failed) ↦ inl (ground arith, inr (inr (inl failed)))
                | inl (same, inr refuses) ↦
                    let late = read-refuses state.disk held offered read refuses in
                    inl (
                      ground arith,
                      inr (inr (inr (inr (bytes, refl, inr (offered, h, inr late))))),
                    )
                | inr (accepted, written) ↦ inr (
                  bytes,
                  refl,
                  ground arith,
                  record {
                    new = offered;
                    verified = h;
                    not_future = early;
                    follows = read-follows state.disk held offered read accepted;
                  },
                )
              ]
      ]

  offer-Moves :
      (readable : Bool) (answer : InstallAnswer) (now : ℕ) (state : HighWaterState) (offer : Offer)
      → Moves readable answer now state offer
          (offer_snapshot verify readable answer now state offer).1
  unfolding offer_snapshot
  offer-Moves readable answer now state no_snapshot =
      inl (refl, inl (λ (bytes, e). absurd (ground arith)))
  offer-Moves readable answer now state snapshot_unavailable =
      inl (refl, inl (λ (bytes, e). absurd (ground arith)))
  offer-Moves readable answer now state snapshot_load_failed =
      inl (refl, inl (λ (bytes, e). absurd (ground arith)))
  offer-Moves readable answer now state (loaded bytes) = go (verify bytes) refl
    where
      go :
          (r : Result BoundCode VerifiedRevocation)
          → verify bytes ≡ r
          → Moves readable answer now state
              (loaded bytes)
              (offer_snapshot verify readable answer now state (loaded bytes)).1
      go (err e) h = inl (ground arith, inr (inr (inr (inr (bytes, refl, inl (e, h))))))
      go (ok offered) h = elim (future-cases offered now) [
        | inl (future, ahead) ↦
            inl (ground arith, inr (inr (inr (inr (bytes, refl, inr (offered, h, inl ahead))))))
        | inr (early, kept) ↦ elim (install-Moves readable answer now state bytes offered h early) [
          | inl (same, why) ↦ inl (ground arith, why)
          | inr (b, e, written, replaced) ↦ inr (b, e, ground arith, replaced)
        ]
      ]

  -- A gate replaces the stored high water by the offered bytes, which verify to a snapshot that is
  -- issued before now and 301 s; and if there was a high water, it still verified, and the new
  -- snapshot has a greater sequence number, was not issued earlier and repeats each of its release
  -- and signer entries. Or it leaves it as it is: then no bytes were loaded, the file could not be
  -- read or the write failed before it, the stored bytes do not verify, or the offered ones do not,
  -- or to a snapshot that is dated ahead or is no such successor of the stored one.
  pub revocation_gate-Moves :
      (readable : Bool) (answer : InstallAnswer) (now max_age : ℕ) (state : HighWaterState)
      (offer : Offer)
      → Moves readable answer now state offer
          (revocation_gate verify readable answer now max_age state offer).1
  unfolding revocation_gate
  revocation_gate-Moves readable answer now max_age state offer =
      go (offer_snapshot verify readable answer now state offer)
        (offer-Moves readable answer now state offer)
    where
      go :
          (step : Option GateResult × HighWaterState)
          → Moves readable answer now state offer step.1
          → Moves readable answer now state offer (close_gate verify now max_age step).1
      go (none, after) m = m
      go (some result, after) m = m
