-- ===== src/Revocation/Revoked.antt =====
-- What `static_index_revoked` and the denial tests of src/misscomputer_subnet/static_revocation.py
-- say of the entries of a snapshot.
use misscomputer_subnet.Prelude.{
  ◌≡◌, ◌↔◌, ◌⊎◌, inl, inr, refl, ap, Text, text_eq, text_eq_iff, Bool, true, ◌&&◌, ◌||◌, none, some,
  List, [], ◌∷◌, any, In, here, there, arith, Option-cases, Bool-cases,
}
use misscomputer_subnet.Revocation.{
  ReleaseReason, credential_harvesting, illegal_content, malware, phishing, platform_integrity,
  RevokedRelease, RevokedSignerKey, VerifiedRevocation, StaticReleaseKey, TrustPolicy, is_takedown,
  release_code, release_revoked, site_revoked, signer_revoked,
}
use misscomputer_subnet.Revocation.Verify.{IndexView, trusted_key, static_index_revoked}

module _ {A : Type 0} (p : A → Bool) where
  pub any-has : (xs : List A) → any p xs ≡ true → (x : A) × In x xs × (p x ≡ true)
  any-has [] h = absurd (ground arith)
  any-has (x ∷ xs) h = elim (Bool-cases (p x)) [
    | inl hit ↦ (x, here, hit)
    | inr miss ↦ let (y, place, holds) = any-has xs (ground arith) in (y, there place, holds)
  ]

  pub has-any : {x : A} {xs : List A} → In x xs → p x ≡ true → any p xs ≡ true
  has-any here h = ground arith
  has-any (there m) h = ground (arith, has-any m h)

is_takedown_iff :
    (r : ReleaseReason) → (is_takedown r ≡ true) ↔ ¬ (r ≡ ReleaseReason.key_compromise)
unfolding is_takedown
is_takedown_iff credential_harvesting =
    ((λ _ e. absurd (ground (arith, ap release_code e))), λ _. refl)
is_takedown_iff illegal_content = ((λ _ e. absurd (ground (arith, ap release_code e))), λ _. refl)
is_takedown_iff ReleaseReason.key_compromise = ((λ h. absurd (ground arith)), λ n. absurd (n refl))
is_takedown_iff malware = ((λ _ e. absurd (ground (arith, ap release_code e))), λ _. refl)
is_takedown_iff phishing = ((λ _ e. absurd (ground (arith, ap release_code e))), λ _. refl)
is_takedown_iff platform_integrity =
    ((λ _ e. absurd (ground (arith, ap release_code e))), λ _. refl)

-- an entry lists the release
abbrev pub ListsRelease : VerifiedRevocation → Text → Type 0
ListsRelease v digest =
    (r : RevokedRelease) × In r v.snapshot.revoked_releases × (r.release_digest ≡ digest)

-- an entry takes the site down
abbrev pub TakesDown : VerifiedRevocation → Text → Type 0
TakesDown v digest =
    (r : RevokedRelease) × In r v.snapshot.revoked_releases
    × (r.site_digest ≡ digest)
    × ¬ (r.reason_category ≡ ReleaseReason.key_compromise)

-- an entry lists the identifier or the key
abbrev pub ListsSigner : VerifiedRevocation → (key_id public_key_hex : Text) → Type 0
ListsSigner v key_id public_key_hex =
    (k : RevokedSignerKey) × In k v.snapshot.revoked_signer_keys
    × ((k.key_id ≡ key_id) ⊎ (k.public_key_hex ≡ public_key_hex))

release_revoked_iff :
    (v : VerifiedRevocation) (digest : Text)
    → (release_revoked v digest ≡ true) ↔ ListsRelease v digest
unfolding release_revoked
release_revoked_iff v digest = (
  (λ h.
      let (r, place, same) =
        any-has (λ (r : RevokedRelease). text_eq r.release_digest digest)
          v.snapshot.revoked_releases h in
      (r, place, (text_eq_iff r.release_digest digest).0 same)),
  λ (r, place, same).
      has-any (λ (r : RevokedRelease). text_eq r.release_digest digest) place
        ((text_eq_iff r.release_digest digest).1 same),
)

abbrev site_hit : Text → RevokedRelease → Bool
site_hit digest r = text_eq r.site_digest digest && is_takedown r.reason_category

abbrev signer_hit : (key_id public_key_hex : Text) → RevokedSignerKey → Bool
signer_hit key_id public_key_hex k =
    text_eq k.key_id key_id || text_eq k.public_key_hex public_key_hex

site_revoked_iff :
    (v : VerifiedRevocation) (digest : Text) → (site_revoked v digest ≡ true) ↔ TakesDown v digest
unfolding site_revoked
site_revoked_iff v digest = (
  (λ h.
      let (r, place, both) = any-has (site_hit digest) v.snapshot.revoked_releases h in
      (
        r,
        place,
        (text_eq_iff r.site_digest digest).0 (ground arith),
        (is_takedown_iff r.reason_category).0 (ground arith),
      )),
  λ (r, place, same, takedown). has-any (site_hit digest) place (
      ground (
        arith,
        (text_eq_iff r.site_digest digest).1 same,
        (is_takedown_iff r.reason_category).1 takedown,
      )),
)

signer_revoked_iff :
    (v : VerifiedRevocation) (key_id public_key_hex : Text)
    → (signer_revoked v key_id public_key_hex ≡ true) ↔ ListsSigner v key_id public_key_hex
unfolding signer_revoked
signer_revoked_iff v key_id public_key_hex = (
  (λ h.
      let (k, place, either) =
        any-has (signer_hit key_id public_key_hex) v.snapshot.revoked_signer_keys h in
      (
        k,
        place,
        elim (Bool-cases (text_eq k.key_id key_id)) [
          | inl hit ↦ inl ((text_eq_iff k.key_id key_id).0 hit)
          | inr miss ↦ inr ((text_eq_iff k.public_key_hex public_key_hex).0 (ground arith))
        ],
      )),
  λ (k, place, either). has-any (signer_hit key_id public_key_hex) place (elim either [
    | inl same ↦ ground (arith, (text_eq_iff k.key_id key_id).1 same)
    | inr same ↦ ground (arith, (text_eq_iff k.public_key_hex public_key_hex).1 same)
  ]),
)

-- a trusted key has the identifier
abbrev pub Knows : List StaticReleaseKey → Text → Type 0
Knows keys key_id = (k : StaticReleaseKey) × In k keys × (k.key_id ≡ key_id)

trusted_key-none :
    (key_id : Text) {k : StaticReleaseKey} {keys : List StaticReleaseKey}
    → trusted_key key_id keys ≡ none
    → In k keys
    → k.key_id ≡ key_id
    → ⊥
trusted_key-none key_id {k = k} h here same =
    absurd (ground (arith, (text_eq_iff k.key_id key_id).1 same))
trusted_key-none key_id h (there place) same = trusted_key-none key_id (ground arith) place same

trusted_key-some :
    (key_id : Text) (keys : List StaticReleaseKey) (key : StaticReleaseKey)
    → trusted_key key_id keys ≡ some key
    → Knows keys key_id
trusted_key-some key_id [] key h = absurd (ground arith)
trusted_key-some key_id (x ∷ keys) key h = elim (Bool-cases (text_eq x.key_id key_id)) [
  | inl hit ↦ (x, here, (text_eq_iff x.key_id key_id).0 hit)
  | inr miss ↦
      let (k, place, same) = trusted_key-some key_id keys key (ground arith) in
      (k, there place, same)
]

-- why an index counts as revoked
abbrev pub Reasons : VerifiedRevocation → IndexView → TrustPolicy → Type 0
Reasons held index policy =
    ListsRelease held index.release_digest
    ⊎ TakesDown held index.site_digest
    ⊎ (¬ Knows policy.trusted_keys index.signer_key_id)
    ⊎ (¬ (index.trust_policy_digest_sha256 ≡ policy.digest_sha256))
    ⊎ ((key : StaticReleaseKey) × (trusted_key index.signer_key_id policy.trusted_keys ≡ some key)
        × ListsSigner held index.signer_key_id key.public_key_hex)

revoked-Reasons :
    (held : VerifiedRevocation) (index : IndexView) (policy : TrustPolicy)
    → static_index_revoked held index policy ≡ true
    → Reasons held index policy
unfolding static_index_revoked
revoked-Reasons held index policy h =
    elim (Bool-cases (release_revoked held index.release_digest)) [
      | inl listed ↦ inl ((release_revoked_iff held index.release_digest).0 listed)
      | inr unlisted ↦ elim (Bool-cases (site_revoked held index.site_digest)) [
        | inl down ↦ inr (inl ((site_revoked_iff held index.site_digest).0 down))
        | inr up ↦ elim (Option-cases (trusted_key index.signer_key_id policy.trusted_keys)) [
          | inl unknown ↦ inr (
              inr
                (inl (λ (k, place, same). trusted_key-none index.signer_key_id unknown place same)))
          | inr (key, known) ↦
              elim (Bool-cases (text_eq index.trust_policy_digest_sha256 policy.digest_sha256)) [
                | inl same ↦ inr (
                    inr (
                      inr (
                        inr (
                          key,
                          known,
                          (signer_revoked_iff held index.signer_key_id key.public_key_hex).0
                              (ground arith),
                        ))))
                | inr other ↦ inr (
                    inr (
                      inr (
                        inl (λ e. absurd (
                          ground (
                            arith,
                            (text_eq_iff index.trust_policy_digest_sha256 policy.digest_sha256).1 e,
                          ))))))
              ]
        ]
      ]
    ]

Reasons-revoked :
    (held : VerifiedRevocation) (index : IndexView) (policy : TrustPolicy)
    → Reasons held index policy
    → static_index_revoked held index policy ≡ true
unfolding static_index_revoked
Reasons-revoked held index policy (inl listed) =
    ground (arith, (release_revoked_iff held index.release_digest).1 listed)
Reasons-revoked held index policy (inr (inl down)) =
    ground (arith, (site_revoked_iff held index.site_digest).1 down)
Reasons-revoked held index policy (inr (inr (inl unknown))) =
    elim (Option-cases (trusted_key index.signer_key_id policy.trusted_keys)) [
      | inl absent ↦ ground arith
      | inr (key, known) ↦
          absurd (unknown (trusted_key-some index.signer_key_id policy.trusted_keys key known))
    ]
Reasons-revoked held index policy (inr (inr (inr (inl other)))) =
    elim (Bool-cases (text_eq index.trust_policy_digest_sha256 policy.digest_sha256)) [
      | inl same ↦
          absurd
            (other ((text_eq_iff index.trust_policy_digest_sha256 policy.digest_sha256).0 same))
      | inr different ↦ elim (Option-cases (trusted_key index.signer_key_id policy.trusted_keys)) [
        | inl absent ↦ ground arith
        | inr (key, known) ↦ ground arith
      ]
    ]
Reasons-revoked held index policy (inr (inr (inr (inr (key, known, listed))))) =
    ground (arith, (signer_revoked_iff held index.signer_key_id key.public_key_hex).1 listed)

-- An index counts as revoked exactly if an entry lists its release, an entry takes its site down for
-- another reason than a compromised key, the release policy trusts no key with the identifier of its
-- signer, it was authenticated under another policy, or an entry lists that identifier or the key
-- that the policy has for it.
pub static_index_revoked_iff :
    (held : VerifiedRevocation) (index : IndexView) (policy : TrustPolicy)
    → (static_index_revoked held index policy ≡ true) ↔ Reasons held index policy
static_index_revoked_iff held index policy =
    (revoked-Reasons held index policy, Reasons-revoked held index policy)
