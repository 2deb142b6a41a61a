-- ===== src/Revocation/HighWater.antt =====
-- The durable high water of revocations: `advance_static_site_release_revocation` of
-- src/misscomputer_subnet/static_revocation.py over a sequence of offers, as
-- src/misscomputer_subnet/static_runtime.py makes them.
use misscomputer_subnet.Prelude.{
  ℕ, ◌+◌, ◌≤◌, ◌<◌, ◌*◌, ◌≡◌, ◌↔◌, refl, ap, ◌∙◌, ◌⊎◌, inl, inr, Text, text_eq, text_eq_iff, Bool,
  true, false, not, ◌&&◌, ◌||◌, Option, none, some, List, [], ◌∷◌, ◌==◌, any, Result, ok, err,
  arith,
}
use misscomputer_subnet.Revocation.{
  ReleaseReason, credential_harvesting, illegal_content, malware, phishing, platform_integrity,
  RevokedRelease, RevokedSignerKey, VerifiedRevocation, RevocationCode, is_takedown,
  release_revoked, site_revoked, signer_revoked, release_eq, signer_eq, is_subset, is_cumulative,
  advance_static_site_release_revocation, revocation_freshness, release_code, revocation_stale,
  revocation_issued_in_future,
}

-- the high water after an offer that is installed if it is accepted; a refused offer, and a replay,
-- leave it alone
unfoldable pub persist_revocation :
    Option VerifiedRevocation → VerifiedRevocation → Option VerifiedRevocation
persist_revocation held offered = elim (advance_static_site_release_revocation held offered) [
  | ok true ↦ some offered
  | ok false ↦ held
  | err _ ↦ held
]

unfoldable pub persist_all :
    Option VerifiedRevocation → List VerifiedRevocation → Option VerifiedRevocation
unfolding persist_revocation
persist_all held [] = held
persist_all held (offered ∷ rest) = persist_all (persist_revocation held offered) rest

-- what a validator asks a revocation
pub data Question : Type 0 where
  release : Text → Question
  site : Text → Question
  signer : (key_id public_key_hex : Text) → Question

-- whether it denies
unfoldable pub denies : VerifiedRevocation → Question → Bool
denies v (release digest) = release_revoked v digest
denies v (site digest) = site_revoked v digest
denies v (signer key_id public_key_hex) = signer_revoked v key_id public_key_hex

module _ {A : Type 0} (eq : A → A → Bool) (p : A → Bool)
    (respects : (a b : A) → eq a b ≡ true → p a ≡ true → p b ≡ true) where
  any-equal : (a : A) (ys : List A) → any (eq a) ys ≡ true → p a ≡ true → any p ys ≡ true
  any-equal a [] h k = absurd (ground arith)
  any-equal a (y ∷ ys) h k = ground (arith, respects a y, any-equal a ys)

  -- What holds of an element of a set holds of one of a greater set.
  any-subset : (xs ys : List A) → is_subset eq xs ys ≡ true → any p xs ≡ true → any p ys ≡ true
  any-subset [] ys h k = absurd (ground arith)
  any-subset (x ∷ xs) ys h k = ground (arith, any-equal x ys, any-subset xs ys)

pub release_eq-parts :
    (a b : RevokedRelease)
    → release_eq a b ≡ true
    → ((release_code a.reason_category == release_code b.reason_category) ≡ true)
      × (a.release_digest ≡ b.release_digest)
      × (a.site_digest ≡ b.site_digest)
unfolding release_eq
release_eq-parts a b h = (
  ground arith,
  (text_eq_iff a.release_digest b.release_digest).0 (ground arith),
  (text_eq_iff a.site_digest b.site_digest).0 (ground arith),
)

pub signer_eq-parts :
    (a b : RevokedSignerKey)
    → signer_eq a b ≡ true
    → (a.key_id ≡ b.key_id) × (a.public_key_hex ≡ b.public_key_hex)
unfolding signer_eq
signer_eq-parts a b h = (
  (text_eq_iff a.key_id b.key_id).0 (ground arith),
  (text_eq_iff a.public_key_hex b.public_key_hex).0 (ground arith),
)

is_takedown-code : (r : ReleaseReason) → is_takedown r ≡ not (release_code r == 2)
unfolding is_takedown
is_takedown-code credential_harvesting = refl
is_takedown-code illegal_content = refl
is_takedown-code ReleaseReason.key_compromise = refl
is_takedown-code malware = refl
is_takedown-code phishing = refl
is_takedown-code platform_integrity = refl

takedown-respects :
    (digest : Text) (a b : RevokedRelease)
    → release_eq a b ≡ true
    → (text_eq a.site_digest digest && is_takedown a.reason_category) ≡ true
    → (text_eq b.site_digest digest && is_takedown b.reason_category) ≡ true
takedown-respects digest a b e h =
    let (code, same_release, same_site) = release_eq-parts a b e in
    let h' = rw same_site at h in
    ground (arith, is_takedown-code a.reason_category, is_takedown-code b.reason_category)

signer-respects :
    (key_id public_key_hex : Text) (a b : RevokedSignerKey)
    → signer_eq a b ≡ true
    → (text_eq a.key_id key_id || text_eq a.public_key_hex public_key_hex) ≡ true
    → (text_eq b.key_id key_id || text_eq b.public_key_hex public_key_hex) ≡ true
signer-respects key_id public_key_hex a b e h =
    let (same_id, same_key) = signer_eq-parts a b e in rw (same_id, same_key) at h

-- A cumulative snapshot denies what the older one denies.
denies-cumulative :
    (old new : VerifiedRevocation) (q : Question)
    → is_cumulative old.snapshot new.snapshot ≡ true
    → denies old q ≡ true
    → denies new q ≡ true
unfolding denies release_revoked site_revoked signer_revoked
denies-cumulative old new (release digest) h k =
    any-subset release_eq (λ (r : RevokedRelease). text_eq r.release_digest digest)
      (λ a b e p. rw ((release_eq-parts a b e).1) at p) old.snapshot.revoked_releases
      new.snapshot.revoked_releases (ground arith) k
denies-cumulative old new (site digest) h k =
    any-subset release_eq
      (λ (r : RevokedRelease). text_eq r.site_digest digest && is_takedown r.reason_category)
      (takedown-respects digest) old.snapshot.revoked_releases new.snapshot.revoked_releases
      (ground arith) k
denies-cumulative old new (signer key_id public_key_hex) h k =
    any-subset signer_eq
      (λ (x : RevokedSignerKey). text_eq x.key_id key_id || text_eq x.public_key_hex public_key_hex)
      (signer-respects key_id public_key_hex) old.snapshot.revoked_signer_keys
      new.snapshot.revoked_signer_keys (ground arith) k

advance-accepts :
    (held offered : VerifiedRevocation)
    → advance_static_site_release_revocation (some held) offered ≡ ok true
    → (held.snapshot.sequence < offered.snapshot.sequence)
      × (held.snapshot.issued_at ≤ offered.snapshot.issued_at)
      × (is_cumulative held.snapshot offered.snapshot ≡ true)
unfolding advance_static_site_release_revocation
advance-accepts held offered h = (ground arith, ground arith, ground arith)

persist-cases :
    (held offered : VerifiedRevocation)
    → (persist_revocation (some held) offered ≡ some held)
      ⊎ ((persist_revocation (some held) offered ≡ some offered)
          × (advance_static_site_release_revocation (some held) offered ≡ ok true))
unfolding persist_revocation
persist-cases held offered = go (advance_static_site_release_revocation (some held) offered) refl
  where
    go :
        (r : Result RevocationCode Bool)
        → advance_static_site_release_revocation (some held) offered ≡ r
        → (persist_revocation (some held) offered ≡ some held)
          ⊎ ((persist_revocation (some held) offered ≡ some offered)
              × (advance_static_site_release_revocation (some held) offered ≡ ok true))
    go (ok true) h = inr (ground arith, h)
    go (ok false) h = inl (ground arith)
    go (err e) h = inl (ground arith)

-- What the high water denies it denies after any further offers, accepted or refused, and its
-- sequence number never falls.
pub denied_stays :
    (q : Question) (held : VerifiedRevocation) (offers : List VerifiedRevocation)
    → denies held q ≡ true
    → (last : VerifiedRevocation) × (persist_all (some held) offers ≡ some last)
      × (denies last q ≡ true)
      × (held.snapshot.sequence ≤ last.snapshot.sequence)
unfolding persist_all
denied_stays q held [] h = (held, refl, h, omega arith)
denied_stays q held (offered ∷ rest) h = elim (persist-cases held offered) [
  | inl kept ↦ rw kept (denied_stays q held rest h)
  | inr (replaced, accepted) ↦
      let (later, newer, cumulative) = advance-accepts held offered accepted in
      let (last, ends, denied, grows) =
        denied_stays q offered rest (denies-cumulative held offered q cumulative h) in
      (last, ap (λ o. persist_all o rest) replaced ∙ ends, denied, omega arith)
]

-- Exactly when a validator may rely on the high water, in nanoseconds since the 1st of March of the
-- year 0, 62162035200 s before 1970: it may if the issue lies before now and 301 s, and not more than
-- the greatest age before now; it refuses the high water as issued in the future, or else as stale,
-- exactly in the other cases.
pub freshness_iff :
    (held : VerifiedRevocation) (now max_age : ℕ)
    → ((revocation_freshness held now max_age ≡ none) ↔ (
        (held.snapshot.issued_at < (now + 62162035501) * 1000000000)
        × ((now + 62162035200) * 1000000000 ≤ held.snapshot.issued_at + max_age * 1000000000)))
      × ((revocation_freshness held now max_age ≡ some revocation_issued_in_future)
          ↔ ((now + 62162035501) * 1000000000 ≤ held.snapshot.issued_at))
      × ((revocation_freshness held now max_age ≡ some revocation_stale) ↔ (
          (held.snapshot.issued_at < (now + 62162035501) * 1000000000)
          × (held.snapshot.issued_at + max_age * 1000000000 < (now + 62162035200) * 1000000000)))
unfolding revocation_freshness
freshness_iff held now max_age = (ground arith, ground arith, ground arith)
