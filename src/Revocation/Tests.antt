-- ===== src/Revocation/Tests.antt =====
-- Revocations on small inputs; a signature verifies if it repeats the key.
use misscomputer_subnet.Prelude.{
  ◌+◌, ◌*◌, ◌^◌, ◌≤◌, ◌<◌, ◌≡◌, ◌↔◌, refl, codes, text_eq, text_lt, true, false, none, some, [],
  ◌∷◌, ok, err, ℕ, List, Result,
}
use misscomputer_subnet.Revocation.{
  malware, StaticSiteReleaseRevocation, TrustPolicy, VerifiedRevocation, revocation_rollback,
  revocation_not_cumulative, SignerKeyReason, strictly_ordered, is_takedown, release_revoked,
  site_revoked, signer_revoked, release_eq, signer_eq, advance_static_site_release_revocation,
  revocation_freshness, revocation_issued_in_future, revocation_stale,
}
use misscomputer_subnet.Revocation.Verify.{
  Codec, IndexView, IsAuthentic, parse_snapshot, revocation_message,
  verify_static_site_release_revocation, static_index_revoked, verify-IsAuthentic,
}
use misscomputer_subnet.Revocation.Revoked.{Reasons, static_index_revoked_iff}
use misscomputer_subnet.Revocation.Gate.{
  BoundCode, HighWaterState, loaded, installed, failed_after, passed, withheld_in_future,
  raised_install, read_high_water, install_revocation_high_water, offer_snapshot, revocation_gate,
  advance_disk, check_held,
}
use misscomputer_subnet.Revocation.Gate.Replaced.{Moves, revocation_gate-Moves}
use misscomputer_subnet.Revocation.HighWater.{
  persist_revocation, persist_all, release, denies, denied_stays, freshness_iff,
}

-- 1000 s into 1970
abbrev first_snapshot : StaticSiteReleaseRevocation
first_snapshot = record {
  issued_at = (62162035200 + 1000) * 10 ^ 9;
  revoked_releases =
      record { reason_category = malware; release_digest = codes "r1"; site_digest = codes "s1" }
      ∷ [];
  revoked_signer_keys = [];
  sequence = 1;
  signature = codes "k";
  signer_key_id = codes "id";
}

abbrev second_snapshot : StaticSiteReleaseRevocation
second_snapshot = record first_snapshot {
  sequence = 2;
  revoked_signer_keys =
      record {
        key_id = codes "a";
        public_key_hex = codes "b";
        reason_category = SignerKeyReason.key_compromise;
      }
      ∷ [];
}

abbrev shorter_snapshot : StaticSiteReleaseRevocation
shorter_snapshot = record first_snapshot { sequence = 3; revoked_releases = [] }

abbrev verified : StaticSiteReleaseRevocation → VerifiedRevocation
verified s = record {
  snapshot = s;
  snapshot_digest = codes "7";
  stored = 7 ∷ [];
  policy_digest_sha256 = codes "p";
}

abbrev test_codec : Codec
test_codec = record {
  decode = λ b. some first_snapshot;
  canonical = λ s. [];
  stored_digest = λ b. codes "7";
  verifies = λ key signature m. text_eq key signature;
}

abbrev test_policy : TrustPolicy
test_policy = record {
  trusted_keys =
      record {
        key_id = codes "id";
        public_key_hex = codes "k";
        valid_from_epoch = 1000;
        valid_until_epoch = 1001;
      }
      ∷ [];
  digest_sha256 = codes "p";
}

program : Unit {0}
unfolding strictly_ordered is_takedown release_revoked site_revoked signer_revoked release_eq
    signer_eq advance_static_site_release_revocation revocation_freshness parse_snapshot
    revocation_message verify_static_site_release_revocation static_index_revoked persist_revocation
    persist_all denies read_high_water install_revocation_high_water offer_snapshot revocation_gate
    advance_disk check_held text_eq text_lt
program = tt

test_verifies :
    verify_static_site_release_revocation test_codec (7 ∷ []) test_policy
    ≡ ok (verified first_snapshot)
unfolding program
test_verifies = refl

shorter_refused :
    advance_static_site_release_revocation
      (some (verified second_snapshot))
      (verified shorter_snapshot)
    ≡ err revocation_not_cumulative
unfolding program
shorter_refused = refl

older_refused :
    advance_static_site_release_revocation
      (some (verified second_snapshot))
      (verified first_snapshot)
    ≡ err revocation_rollback
unfolding program
older_refused = refl

three_offers :
    persist_all
      (some (verified first_snapshot))
      (verified second_snapshot ∷ verified first_snapshot ∷ verified shorter_snapshot ∷ [])
    ≡ some (verified second_snapshot)
unfolding program
three_offers = refl

denied_stays_example :
    (last : VerifiedRevocation) × (persist_all
        (some (verified first_snapshot))
        (verified second_snapshot ∷ verified shorter_snapshot ∷ [])
      ≡ some last)
    × (denies last (release (codes "r1")) ≡ true)
    × (1 ≤ last.snapshot.sequence)
unfolding program
denied_stays_example =
    denied_stays (release (codes "r1")) (verified first_snapshot)
      (verified second_snapshot ∷ verified shorter_snapshot ∷ []) refl

freshness_iff_example :
    ((revocation_freshness (verified first_snapshot) 1500 600 ≡ none) ↔ (
      (first_snapshot.issued_at < (1500 + 62162035501) * 1000000000)
      × ((1500 + 62162035200) * 1000000000 ≤ first_snapshot.issued_at + 600 * 1000000000)))
    × ((revocation_freshness (verified first_snapshot) 1500 600 ≡ some revocation_issued_in_future)
        ↔ ((1500 + 62162035501) * 1000000000 ≤ first_snapshot.issued_at))
    × ((revocation_freshness (verified first_snapshot) 1500 600 ≡ some revocation_stale) ↔ (
        (first_snapshot.issued_at < (1500 + 62162035501) * 1000000000)
        × (first_snapshot.issued_at + 600 * 1000000000 < (1500 + 62162035200) * 1000000000)))
freshness_iff_example = freshness_iff (verified first_snapshot) 1500 600

-- no bytes verify to the first snapshot, and others to the second
abbrev test_verify : List ℕ → Result BoundCode VerifiedRevocation
test_verify [] = ok (verified first_snapshot)
test_verify (b ∷ bytes) = ok (verified second_snapshot)

abbrev first_held : HighWaterState
first_held = record { disk = some []; held = some (verified first_snapshot) }

verify-IsAuthentic_example :
    ((verified first_snapshot).stored ≡ 7 ∷ [])
    × IsAuthentic test_codec test_policy (verified first_snapshot)
verify-IsAuthentic_example =
    verify-IsAuthentic test_codec (7 ∷ []) test_policy (verified first_snapshot) test_verifies

abbrev test_index : IndexView
test_index = record {
  release_digest = codes "r2";
  site_digest = codes "s2";
  signer_key_id = codes "id";
  trust_policy_digest_sha256 = codes "p";
}

index_live : static_index_revoked (verified second_snapshot) test_index test_policy ≡ false
unfolding program
index_live = refl

static_index_revoked_iff_example :
    (static_index_revoked (verified second_snapshot) test_index test_policy ≡ true)
    ↔ Reasons (verified second_snapshot) test_index test_policy
static_index_revoked_iff_example =
    static_index_revoked_iff (verified second_snapshot) test_index test_policy

gate_replaces :
    revocation_gate test_verify true installed 1500 600 first_held (loaded (2 ∷ []))
    ≡ (passed, record { disk = some (2 ∷ []); held = some (verified second_snapshot) })
unfolding program
gate_replaces = refl

-- the issue is 601 s ahead
gate_future :
    revocation_gate test_verify true installed 399 600 first_held (loaded (2 ∷ []))
    ≡ (withheld_in_future, first_held)
unfolding program
gate_future = refl

gate_near :
    revocation_gate test_verify true failed_after 700 600 first_held (loaded (2 ∷ []))
    ≡ (raised_install, record { disk = some (2 ∷ []); held = some (verified first_snapshot) })
unfolding program
gate_near = refl

revocation_gate-Moves_example :
    Moves test_verify true installed 1500 first_held
      (loaded (2 ∷ []))
      (revocation_gate test_verify true installed 1500 600 first_held (loaded (2 ∷ []))).1
revocation_gate-Moves_example =
    revocation_gate-Moves test_verify true installed 1500 600 first_held (loaded (2 ∷ []))
