-- ===== src/Revocation/Gate/Successor.antt =====
-- Snapshots that may follow one another, as `advance_static_site_release_revocation` of
-- src/misscomputer_subnet/static_revocation.py decides.
use misscomputer_subnet.Prelude.{
  text_eq_iff, ℕ, ◌≤◌, ◌<◌, ◌≡◌, ◌∙◌, refl, ap, sym, true, none, some, List, [], ◌∷◌, ◌==◌, In, All,
  ok, arith, if◌then◌else◌,
}
use misscomputer_subnet.Revocation.{
  ReleaseReason, credential_harvesting, illegal_content, malware, phishing, platform_integrity,
  SignerKeyReason, key_retired, RevokedRelease, RevokedSignerKey, VerifiedRevocation, release_code,
  signer_code, release_eq, signer_eq, is_subset, advance_static_site_release_revocation,
  StaticSiteReleaseRevocation,
}
use misscomputer_subnet.Revocation.HighWater.{release_eq-parts, signer_eq-parts}
use misscomputer_subnet.Revocation.Revoked.{any-has, has-any}

-- an entry of the list repeats the release entry
abbrev pub Repeats : List RevokedRelease → RevokedRelease → Type 0
Repeats xs r =
    (s : RevokedRelease) × In s xs
    × (s.reason_category ≡ r.reason_category)
    × (s.release_digest ≡ r.release_digest)
    × (s.site_digest ≡ r.site_digest)

-- an entry of the list repeats the signer's entry
abbrev pub RepeatsSigner : List RevokedSignerKey → RevokedSignerKey → Type 0
RepeatsSigner xs k =
    (j : RevokedSignerKey) × In j xs
    × (j.key_id ≡ k.key_id)
    × (j.public_key_hex ≡ k.public_key_hex)
    × (j.reason_category ≡ k.reason_category)

abbrev release_reason : ℕ → ReleaseReason
release_reason n =
    if n == 0
    then credential_harvesting
    else if n == 1
    then illegal_content
    else if n == 2
    then ReleaseReason.key_compromise
    else if n == 3
    then malware
    else if n == 4
    then phishing
    else platform_integrity

reason-code : (r : ReleaseReason) → release_reason (release_code r) ≡ r
reason-code credential_harvesting = refl
reason-code illegal_content = refl
reason-code ReleaseReason.key_compromise = refl
reason-code malware = refl
reason-code phishing = refl
reason-code platform_integrity = refl

same_reason : (a b : ReleaseReason) → release_code a ≡ release_code b → a ≡ b
same_reason a b h = sym (reason-code a) ∙ ap release_reason h ∙ reason-code b

same_signer_reason : (a b : SignerKeyReason) → (signer_code a == signer_code b) ≡ true → a ≡ b
same_signer_reason SignerKeyReason.key_compromise SignerKeyReason.key_compromise h = refl
same_signer_reason SignerKeyReason.key_compromise key_retired h = absurd (ground arith)
same_signer_reason key_retired SignerKeyReason.key_compromise h = absurd (ground arith)
same_signer_reason key_retired key_retired h = refl

releases-repeat :
    (xs ys : List RevokedRelease) → is_subset release_eq xs ys ≡ true → All (Repeats ys) xs
releases-repeat [] ys h = tt
releases-repeat (x ∷ xs) ys h =
    let (y, place, same) = any-has (release_eq x) ys (ground arith) in
    let (reason, digest, site) = release_eq-parts x y same in
    (
      (
        y,
        place,
        same_reason y.reason_category x.reason_category (ground arith),
        sym digest,
        sym site,
      ),
      releases-repeat xs ys (ground arith),
    )

signers-repeat :
    (xs ys : List RevokedSignerKey) → is_subset signer_eq xs ys ≡ true → All (RepeatsSigner ys) xs
unfolding signer_eq
signers-repeat [] ys h = tt
signers-repeat (x ∷ xs) ys h =
    let (y, place, same) = any-has (signer_eq x) ys (ground arith) in
    let (key_id, key) = signer_eq-parts x y same in
    (
      (
        y,
        place,
        sym key_id,
        sym key,
        sym (same_signer_reason x.reason_category y.reason_category (ground arith)),
      ),
      signers-repeat xs ys (ground arith),
    )

-- The new snapshot may follow the old one.
pub record IsSuccessor (old new : StaticSiteReleaseRevocation) : Type 0 where
  pub newer : old.sequence < new.sequence
  pub later : old.issued_at ≤ new.issued_at
  pub releases : All (Repeats new.revoked_releases) old.revoked_releases
  pub signers : All (RepeatsSigner new.revoked_signer_keys) old.revoked_signer_keys

pub advance-IsSuccessor :
    (held offered : VerifiedRevocation)
    → advance_static_site_release_revocation (some held) offered ≡ ok true
    → IsSuccessor held.snapshot offered.snapshot
unfolding advance_static_site_release_revocation
advance-IsSuccessor held offered h = record {
  newer = ground arith;
  later = ground arith;
  releases =
      releases-repeat held.snapshot.revoked_releases offered.snapshot.revoked_releases
        (ground arith);
  signers =
      signers-repeat held.snapshot.revoked_signer_keys offered.snapshot.revoked_signer_keys
        (ground arith);
}

repeat-release :
    (xs ys : List RevokedRelease) → All (Repeats ys) xs → is_subset release_eq xs ys ≡ true
unfolding release_eq
repeat-release [] ys a = refl
repeat-release (x ∷ xs) ys ((y, place, reason, digest, site), rest) =
    let same : release_eq x y ≡ true = ground (
      arith,
      ap release_code reason,
      (text_eq_iff x.release_digest y.release_digest).1 (sym digest),
      (text_eq_iff x.site_digest y.site_digest).1 (sym site),
    ) in
    ground (arith, has-any (release_eq x) place same, repeat-release xs ys rest)

repeat-signer :
    (xs ys : List RevokedSignerKey) → All (RepeatsSigner ys) xs → is_subset signer_eq xs ys ≡ true
unfolding signer_eq
repeat-signer [] ys a = refl
repeat-signer (x ∷ xs) ys ((y, place, key_id, key, reason), rest) =
    let same : signer_eq x y ≡ true = ground (
      arith,
      ap signer_code reason,
      (text_eq_iff x.key_id y.key_id).1 (sym key_id),
      (text_eq_iff x.public_key_hex y.public_key_hex).1 (sym key),
    ) in
    ground (arith, has-any (signer_eq x) place same, repeat-signer xs ys rest)

pub IsSuccessor-advance :
    (held offered : VerifiedRevocation)
    → IsSuccessor held.snapshot offered.snapshot
    → advance_static_site_release_revocation (some held) offered ≡ ok true
unfolding advance_static_site_release_revocation
IsSuccessor-advance held offered s = ground (
  arith,
  s.newer,
  s.later,
  repeat-release held.snapshot.revoked_releases offered.snapshot.revoked_releases s.releases,
  repeat-signer held.snapshot.revoked_signer_keys offered.snapshot.revoked_signer_keys s.signers,
)

pub advance-first :
    (offered : VerifiedRevocation) → advance_static_site_release_revocation none offered ≡ ok true
unfolding advance_static_site_release_revocation
advance-first offered = refl
