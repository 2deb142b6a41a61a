-- ===== src/Revocation/Verify.antt =====
-- `verify_static_site_release_revocation` and `static_index_revoked` of
-- src/misscomputer_subnet/static_revocation.py. The reading of canonical JSON, SHA-256 and Ed25519
-- are parameters.
use misscomputer_subnet.Prelude.{
  ℕ, ◌+◌, ◌^◌, ◌≤◌, ◌<◌, ◌≡◌, Text, codes, text_eq, Bool, true, not, ◌&&◌, ◌||◌, Option, none, some,
  List, ◌∷◌, ◌++◌, ltb, leb, ◌==◌, find, length, if◌then◌else◌, Result, ok, err, ◌>>=◌, ◌>>◌,
  raise_if, arith, Option-cases, inl, inr,
}
use misscomputer_subnet.Revocation.{
  StaticSiteReleaseRevocation, StaticReleaseKey, TrustPolicy, VerifiedRevocation, RevocationCode,
  revocation_snapshot_invalid, revocation_signer_untrusted, revocation_signer_outside_validity,
  revocation_signature_invalid, strictly_ordered, whole_seconds, unix_epoch_seconds,
  release_revoked, site_revoked, signer_revoked,
}

-- What is computed by libraries. `decode` reads the bytes of a canonical document, and is `none`
-- for others; `canonical` renders the snapshot without its signature.
pub record Codec : Type 0 where
  pub decode : List ℕ → Option StaticSiteReleaseRevocation
  pub canonical : StaticSiteReleaseRevocation → List ℕ
  pub stored_digest : List ℕ → Text
  pub verifies : (public_key_hex signature : Text) → List ℕ → Bool

abbrev pub max_revocation_snapshot_bytes : ℕ
max_revocation_snapshot_bytes = 2 ^ 20

abbrev domain_separator : List ℕ
domain_separator =
    codes "miss.computer/misscomputer-subnet/static-site-release-revocation/v1/ed25519"

-- the key with the identifier, the first one if there are several
abbrev pub trusted_key : Text → List StaticReleaseKey → Option StaticReleaseKey
trusted_key key_id keys = find (λ (k : StaticReleaseKey). text_eq k.key_id key_id) keys

-- what the source knows of an authenticated index
pub record IndexView : Type 0 where
  pub release_digest : Text
  pub site_digest : Text
  pub signer_key_id : Text
  pub trust_policy_digest_sha256 : Text

abbrev unknown_or_revoked : VerifiedRevocation → Text → Option StaticReleaseKey → Bool → Bool
unknown_or_revoked held key_id none same_policy = true
unknown_or_revoked held key_id (some key) same_policy =
    if same_policy then signer_revoked held key_id key.public_key_hex else true

unfoldable pub static_index_revoked : VerifiedRevocation → IndexView → TrustPolicy → Bool
static_index_revoked held index release_policy =
    release_revoked held index.release_digest
    || site_revoked held index.site_digest
    || unknown_or_revoked held index.signer_key_id
        (trusted_key index.signer_key_id release_policy.trusted_keys)
        (text_eq index.trust_policy_digest_sha256 release_policy.digest_sha256)

abbrev need : {A : Type 0} → Option A → RevocationCode → Result RevocationCode A
need none c = err c
need (some a) c = ok a

module _ (codec : Codec) where
  unfoldable pub revocation_message : StaticSiteReleaseRevocation → List ℕ
  revocation_message s = domain_separator ++ 0 ∷ codec.canonical s

  -- `parse_model`, then the model's own validator; `decode` rejects duplicate keys and bytes that
  -- are not canonical
  unfoldable pub parse_snapshot : List ℕ → Option StaticSiteReleaseRevocation
  parse_snapshot stored =
      if length stored == 0 || ltb max_revocation_snapshot_bytes (length stored)
      then none
      else elim (codec.decode stored) [
        | none ↦ none
        | some s ↦ if strictly_ordered s then some s else none
      ]

  abbrev pub in_validity : StaticReleaseKey → StaticSiteReleaseRevocation → Bool
  in_validity key s =
      leb (key.valid_from_epoch + unix_epoch_seconds) (whole_seconds s.issued_at)
      && ltb (whole_seconds s.issued_at) (key.valid_until_epoch + unix_epoch_seconds)

  unfoldable pub verify_static_site_release_revocation :
      List ℕ → TrustPolicy → Result RevocationCode VerifiedRevocation
  verify_static_site_release_revocation stored policy = do
    snapshot ← need (parse_snapshot stored) revocation_snapshot_invalid
    key ← need (trusted_key snapshot.signer_key_id policy.trusted_keys) revocation_signer_untrusted
    raise_if (not (in_validity key snapshot)) revocation_signer_outside_validity
    raise_if
        (not (codec.verifies key.public_key_hex snapshot.signature (revocation_message snapshot)))
        revocation_signature_invalid
    ok (record {
      snapshot = snapshot;
      snapshot_digest = codec.stored_digest stored;
      stored = stored;
      policy_digest_sha256 = policy.digest_sha256;
    })

  -- What stands behind a verified revocation.
  pub record IsAuthentic (policy : TrustPolicy) (v : VerifiedRevocation) : Type 0 where
    pub key : StaticReleaseKey
    pub decoded : codec.decode v.stored ≡ some v.snapshot
    pub ordered : strictly_ordered v.snapshot ≡ true
    pub trusted : trusted_key v.snapshot.signer_key_id policy.trusted_keys ≡ some key
    pub from : key.valid_from_epoch + unix_epoch_seconds ≤ whole_seconds v.snapshot.issued_at
    pub until : whole_seconds v.snapshot.issued_at < key.valid_until_epoch + unix_epoch_seconds
    pub signed :
        codec.verifies key.public_key_hex v.snapshot.signature (revocation_message v.snapshot)
        ≡ true

  parse_snapshot-parts :
      (stored : List ℕ) (s : StaticSiteReleaseRevocation)
      → parse_snapshot stored ≡ some s
      → (codec.decode stored ≡ some s) × (strictly_ordered s ≡ true)
  unfolding parse_snapshot
  parse_snapshot-parts stored s h = (ground arith, ground arith)

  verified-parts :
      (stored : List ℕ) (policy : TrustPolicy) (v : VerifiedRevocation)
      → verify_static_site_release_revocation stored policy ≡ ok v
      → (key : StaticReleaseKey) × (parse_snapshot stored ≡ some v.snapshot)
        × (v.stored ≡ stored)
        × (trusted_key v.snapshot.signer_key_id policy.trusted_keys ≡ some key)
        × (in_validity key v.snapshot ≡ true)
        × (codec.verifies key.public_key_hex v.snapshot.signature (revocation_message v.snapshot)
            ≡ true)
  unfolding verify_static_site_release_revocation
  verified-parts stored policy v h = elim (Option-cases (parse_snapshot stored)) [
    | inl unread ↦ absurd (ground arith)
    | inr (s, parsed) ↦ elim (Option-cases (trusted_key s.signer_key_id policy.trusted_keys)) [
      | inl unknown ↦ absurd (ground arith)
      | inr (key, trusted) ↦
          (key, ground arith, ground arith, ground arith, ground arith, ground arith)
    ]
  ]

  -- A revocation that verifies is the reading of its stored bytes, its lists are strictly ordered,
  -- and it is signed by a key of the policy that is valid at the second of its issue.
  pub verify-IsAuthentic :
      (stored : List ℕ) (policy : TrustPolicy) (v : VerifiedRevocation)
      → verify_static_site_release_revocation stored policy ≡ ok v
      → (v.stored ≡ stored) × IsAuthentic policy v
  verify-IsAuthentic stored policy v h =
      let (key, parsed, same, trusted, valid, signed) = verified-parts stored policy v h in
      let (decoded, ordered) = parse_snapshot-parts stored v.snapshot parsed in
      (
        same,
        record {
          key = key;
          decoded = rw same decoded;
          ordered = ordered;
          trusted = trusted;
          from = ground arith;
          until = ground arith;
          signed = signed;
        },
      )
