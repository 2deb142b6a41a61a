-- ===== src/Revocation.antt =====
-- Signed revocations of static site releases (src/misscomputer_subnet/static_revocation.py). A
-- timestamp enters as the number that `_rfc3339nano_instant` reads from it, counted from the 1st of
-- March of the year 0; earlier ones are left out.
pub mod Verify
pub mod HighWater
pub mod Revoked
pub mod Gate
mod Tests
use misscomputer_subnet.Prelude.{
  ℕ, ◌+◌, ◌*◌, ◌/◌, ◌^◌, Text, codes, text_eq, text_lt, Bool, true, false, not, ◌&&◌, ◌||◌, Option,
  none, some, List, [], ◌∷◌, ◌++◌, ltb, leb, ◌==◌, all, any, find, map, distinct, length,
  if◌then◌else◌, Result, ok, err,
}

pub data ReleaseReason : Type 0 where
  credential_harvesting illegal_content key_compromise malware phishing platform_integrity :
      ReleaseReason

pub data SignerKeyReason : Type 0 where
  key_compromise key_retired : SignerKeyReason

pub record RevokedRelease : Type 0 where
  pub reason_category : ReleaseReason
  pub release_digest : Text
  pub site_digest : Text

pub record RevokedSignerKey : Type 0 where
  pub key_id : Text
  pub public_key_hex : Text
  pub reason_category : SignerKeyReason

pub record StaticSiteReleaseRevocation : Type 0 where
  pub issued_at : ℕ
  pub revoked_releases : List RevokedRelease
  pub revoked_signer_keys : List RevokedSignerKey
  pub sequence : ℕ
  pub signature : Text
  pub signer_key_id : Text

pub record StaticReleaseKey : Type 0 where
  pub key_id : Text
  pub public_key_hex : Text
  pub valid_from_epoch : ℕ
  pub valid_until_epoch : ℕ

-- a trust policy, of revocations or of releases, as far as it is read here
pub record TrustPolicy : Type 0 where
  pub trusted_keys : List StaticReleaseKey
  pub digest_sha256 : Text

pub record VerifiedRevocation : Type 0 where
  pub snapshot : StaticSiteReleaseRevocation
  pub snapshot_digest : Text
  pub stored : List ℕ
  pub policy_digest_sha256 : Text

pub data RevocationCode : Type 0 where
  revocation_snapshot_invalid revocation_signer_untrusted : RevocationCode
  revocation_signer_outside_validity revocation_signature_invalid : RevocationCode
  revocation_rollback revocation_equivocation revocation_not_cumulative : RevocationCode

pub data FreshnessCode : Type 0 where
  revocation_stale revocation_issued_in_future : FreshnessCode

-- `any(left >= right for left, right in zip(xs, xs[1:]))` is false
abbrev pub ascending : List Text → Bool
ascending [] = true
ascending (x ∷ []) = true
ascending (x ∷ y ∷ ys) = text_lt x y && ascending (y ∷ ys)

-- `StaticSiteReleaseRevocation.strictly_ordered`
unfoldable pub strictly_ordered : StaticSiteReleaseRevocation → Bool
strictly_ordered s =
    ascending (map (λ (r : RevokedRelease). r.release_digest) s.revoked_releases)
    && ascending (map (λ (k : RevokedSignerKey). k.key_id) s.revoked_signer_keys)
    && distinct text_eq (map (λ (k : RevokedSignerKey). k.public_key_hex) s.revoked_signer_keys)

-- whether the reason is one of `TAKEDOWN_REASONS`
unfoldable pub is_takedown : ReleaseReason → Bool
is_takedown ReleaseReason.key_compromise = false
is_takedown _ = true

unfoldable pub release_revoked : VerifiedRevocation → Text → Bool
release_revoked v release_digest =
    any (λ (r : RevokedRelease). text_eq r.release_digest release_digest)
      v.snapshot.revoked_releases

unfoldable pub site_revoked : VerifiedRevocation → Text → Bool
unfolding is_takedown
site_revoked v site_digest =
    any (λ (r : RevokedRelease). text_eq r.site_digest site_digest && is_takedown r.reason_category)
      v.snapshot.revoked_releases

unfoldable pub signer_revoked : VerifiedRevocation → (key_id public_key_hex : Text) → Bool
signer_revoked v key_id public_key_hex =
    any
      (λ (k : RevokedSignerKey). text_eq k.key_id key_id || text_eq k.public_key_hex public_key_hex)
      v.snapshot.revoked_signer_keys

abbrev pub release_code : ReleaseReason → ℕ
release_code credential_harvesting = 0
release_code illegal_content = 1
release_code ReleaseReason.key_compromise = 2
release_code malware = 3
release_code phishing = 4
release_code platform_integrity = 5

abbrev pub signer_code : SignerKeyReason → ℕ
signer_code SignerKeyReason.key_compromise = 0
signer_code key_retired = 1

-- equality of two entries, field by field
unfoldable pub release_eq : RevokedRelease → RevokedRelease → Bool
release_eq a b =
    release_code a.reason_category == release_code b.reason_category
    && text_eq a.release_digest b.release_digest
    && text_eq a.site_digest b.site_digest

unfoldable pub signer_eq : RevokedSignerKey → RevokedSignerKey → Bool
signer_eq a b =
    text_eq a.key_id b.key_id
    && text_eq a.public_key_hex b.public_key_hex
    && signer_code a.reason_category == signer_code b.reason_category

-- `set(xs) <= set(ys)`
abbrev pub is_subset : {A : Type 0} → (A → A → Bool) → List A → List A → Bool
is_subset eq xs ys = all (λ x. any (eq x) ys) xs

abbrev pub is_cumulative : (old new : StaticSiteReleaseRevocation) → Bool
is_cumulative old new =
    is_subset release_eq old.revoked_releases new.revoked_releases
    && is_subset signer_eq old.revoked_signer_keys new.revoked_signer_keys

abbrev pub decide_advance :
    (old new : StaticSiteReleaseRevocation) (same_digest : Bool) → Result RevocationCode Bool
decide_advance old new same_digest =
    if new.sequence == old.sequence
    then (if same_digest then ok false else err revocation_equivocation)
    else if ltb new.sequence old.sequence
    then err revocation_rollback
    else if ltb new.issued_at old.issued_at
    then err revocation_rollback
    else if is_cumulative old new
    then ok true
    else err revocation_not_cumulative

unfoldable pub advance_static_site_release_revocation :
    Option VerifiedRevocation → VerifiedRevocation → Result RevocationCode Bool
advance_static_site_release_revocation none offered = ok true
advance_static_site_release_revocation (some held) offered =
    decide_advance held.snapshot offered.snapshot
      (text_eq offered.snapshot_digest held.snapshot_digest)

-- `_UNIX_EPOCH_NANOS` in seconds; `timestamp_epoch_seconds` subtracts it from the whole seconds, and
-- is compared here with it on the other side
abbrev pub unix_epoch_seconds : ℕ
unix_epoch_seconds = 62162035200

abbrev pub whole_seconds : ℕ → ℕ
whole_seconds instant = instant / 10 ^ 9

abbrev pub max_future_skew_seconds : ℕ
max_future_skew_seconds = 300

-- `none` when a validator may rely on `held` at `now_epoch`
unfoldable pub revocation_freshness :
    VerifiedRevocation → (now_epoch max_age_seconds : ℕ) → Option FreshnessCode
revocation_freshness held now_epoch max_age_seconds =
    let issued = whole_seconds held.snapshot.issued_at in
    let now = now_epoch + unix_epoch_seconds in
    if ltb (now + max_future_skew_seconds) issued
    then some revocation_issued_in_future
    else if ltb (issued + max_age_seconds) now
    then some revocation_stale
    else none
