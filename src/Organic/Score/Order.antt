-- ===== src/Organic/Score/Order.antt =====
-- The order of an epoch's observations (src/misscomputer_subnet/organic_scoring.py).
use mathlib.Core.List.{Permᴰ}
use misscomputer_subnet.Prelude.{
  ℕ, ◌≤◌, ◌≡◌, refl, sym, ap, ◌∙◌, inl, inr, Text, text_eq, text_eq_iff, text_eq_refl, text_eq_sym,
  text_lt, text_lt_irrefl, text_lt_trans, text_lt_connex, Bool, true, false, not, ◌||◌, List, ltb,
  ◌==◌, map, distinct, length, if◌then◌else◌, Bool-cases, ok, arith,
}
use misscomputer_subnet.Prelude.Sorting.{sort}
use misscomputer_subnet.Prelude.Orders.{
  length-perm, All-perm, pairs-perm, distinct-pairs, pairs_mono, ordered, sort-perm,
}
use misscomputer_subnet.Organic.Types.{MinerProbeAttestationV2, OrganicProbeObservation}
use misscomputer_subnet.Organic.Epoch.{EpochFields, derive_epoch}
use misscomputer_subnet.Organic.Window.{OrganicEpochScore}
use misscomputer_subnet.Organic.Score.{
  observation_before, nothing_seen, Request, windows_of, finish_score, score_organic_epoch,
  max_observations, policy_is_valid, check_observations,
}
use misscomputer_subnet.Organic.Score.Grounded.{
  nonces_of, Passes, check_observations-unseen, score_organic_epoch-parts,
}

-- compare the keys first, and on equal keys what follows
abbrev by_text : Text → Text → Bool → Bool
by_text a b next = if not (text_eq a b) then text_lt a b else next

abbrev by_number : ℕ → ℕ → Bool → Bool
by_number a b next = if not (a == b) then ltb a b else next

text_lt_asym : (a b : Text) → text_lt a b ≡ true → text_lt b a ≡ false
text_lt_asym a b h = ground (arith, text_lt_trans a b a h, text_lt_irrefl a)

by_text_trans :
    (a b c : Text) (m n o : Bool)
    → (m ≡ true → n ≡ true → o ≡ true)
    → by_text a b m ≡ true
    → by_text b c n ≡ true
    → by_text a c o ≡ true
by_text_trans a b c m n o f h k = elim (Bool-cases (text_eq a b)) [
  | inl first ↦
      let e : a ≡ b = (text_eq_iff a b).0 first in
      rw e (ground (arith, f, rw e at h, text_eq_refl b))
  | inr one ↦ elim (Bool-cases (text_eq b c)) [
    | inl second ↦
        let e : b ≡ c = (text_eq_iff b c).0 second in ground (arith, rw e at h, rw e at one)
    | inr two ↦ elim (Bool-cases (text_eq a c)) [
      | inr three ↦ ground (arith, text_lt_trans a b c)
      | inl three ↦
          let e : a ≡ c = (text_eq_iff a c).0 three in
          absurd (ground (arith, rw e at h, rw e at one, text_lt_asym b c))
    ]
  ]
]

by_text-asym :
    (a b : Text) (m n : Bool)
    → (m ≡ true → n ≡ false)
    → by_text a b m ≡ true
    → by_text b a n ≡ false
by_text-asym a b m n f h = ground (arith, f, text_eq_sym a b, text_lt_asym a b)

observation_before_trans :
    (x y z : OrganicProbeObservation)
    → observation_before x y ≡ true
    → observation_before y z ≡ true
    → observation_before x z ≡ true
observation_before_trans x y z h k =
    by_text_trans x.endpoint_id y.endpoint_id z.endpoint_id
      (by_number x.issued_at y.issued_at (text_lt x.probe_nonce y.probe_nonce))
      (by_number y.issued_at z.issued_at (text_lt y.probe_nonce z.probe_nonce))
      (by_number x.issued_at z.issued_at (text_lt x.probe_nonce z.probe_nonce))
      (λ a b. ground (arith, text_lt_trans x.probe_nonce y.probe_nonce z.probe_nonce)) h k

observation_before-asym :
    (x y : OrganicProbeObservation) → observation_before x y ≡ true → observation_before y x ≡ false
observation_before-asym x y h =
    by_text-asym x.endpoint_id y.endpoint_id
      (by_number x.issued_at y.issued_at (text_lt x.probe_nonce y.probe_nonce))
      (by_number y.issued_at x.issued_at (text_lt y.probe_nonce x.probe_nonce))
      (λ a. ground (arith, text_lt_asym x.probe_nonce y.probe_nonce)) h

observation_before-ordered :
    (x y : OrganicProbeObservation)
    → not (text_eq x.probe_nonce y.probe_nonce) ≡ true
    → (observation_before x y || observation_before y x) ≡ true
observation_before-ordered x y h =
    let nonces : (text_lt x.probe_nonce y.probe_nonce || text_lt y.probe_nonce x.probe_nonce)
        ≡ true =
      connected x.probe_nonce y.probe_nonce (ground arith) in
    ground (arith, text_eq_sym x.endpoint_id y.endpoint_id, ends)
  where
    connected : (a b : Text) → text_eq a b ≡ false → (text_lt a b || text_lt b a) ≡ true
    connected a b h = elim (Bool-cases (text_lt a b)) [
      | inl less ↦ ground arith
      | inr not_less ↦ elim (Bool-cases (text_lt b a)) [
        | inl more ↦ ground arith
        | inr not_more ↦
            let same = text_lt_connex a b not_less not_more in
            absurd (ground (arith, (text_eq_iff a b).1 same))
      ]
    ]

    ends :
        text_eq x.endpoint_id y.endpoint_id ≡ false
        → (text_lt x.endpoint_id y.endpoint_id || text_lt y.endpoint_id x.endpoint_id) ≡ true
    ends h = connected x.endpoint_id y.endpoint_id h

-- Observations without a repeated nonce are sorted to one list, whatever order they come in.
sort-observations :
    (os os' : List OrganicProbeObservation)
    → Permᴰ os os'
    → distinct text_eq (nonces_of os) ≡ true
    → sort observation_before os ≡ sort observation_before os'
sort-observations os os' d new =
    sort-perm observation_before observation_before_trans observation_before-asym os os' d (
      pairs_mono (λ x y. not (text_eq x.probe_nonce y.probe_nonce))
        (ordered observation_before observation_before_trans observation_before-asym)
        observation_before-ordered os
        (sym (distinct-pairs (λ (o : OrganicProbeObservation). o.probe_nonce) os) ∙ new))

distinct-perm :
    (key : OrganicProbeObservation → Text) (os os' : List OrganicProbeObservation)
    → Permᴰ os os'
    → distinct text_eq (map key os) ≡ distinct text_eq (map key os')
distinct-perm key os os' d =
    distinct-pairs key os
    ∙ pairs-perm (λ x y. not (text_eq (key x) (key y)))
        (λ x y. ap not (text_eq_sym (key x) (key y))) os os' d
    ∙ sym (distinct-pairs key os')

module _ (signature_valid : Text → MinerProbeAttestationV2 → Bool)
    (digest : OrganicEpochScore → Text) (r : Request) where
  score_organic_epoch-builds :
      (os : List OrganicProbeObservation) (fields : EpochFields)
      → policy_is_valid r ≡ true
      → length os ≤ max_observations
      → check_observations signature_valid digest r os nothing_seen ≡ ok tt
      → derive_epoch r.epoch_seconds r.epoch_index r.min_attempts
          (windows_of r)
          (sort observation_before os)
        ≡ ok fields
      → score_organic_epoch signature_valid digest r os
        ≡ ok (finish_score signature_valid digest r (sort observation_before os) fields)
  unfolding score_organic_epoch
  score_organic_epoch-builds os fields policy few checked derived =
      let fits : ltb max_observations (length os) ≡ false = ground arith in
      rw (policy, fits, checked, derived) refl

  -- The order in which the observations of an epoch are given does not matter: if they are scored,
  -- they are scored to the same sealed record in any other order.
  pub score_organic_epoch-order :
      (observations reordered : List OrganicProbeObservation) (v : OrganicEpochScore)
      → Permᴰ observations reordered
      → score_organic_epoch signature_valid digest r observations ≡ ok v
      → score_organic_epoch signature_valid digest r reordered ≡ ok v
  score_organic_epoch-order os os' v d h =
      let (policy, few, checked, (fields, derived, same)) =
        score_organic_epoch-parts signature_valid digest r os v h in
      let (passes, digests, nonces) =
        (check_observations-unseen signature_valid digest r os).0 checked in
      let sorted = sort-observations os os' d nonces in
      let checked' = (check_observations-unseen signature_valid digest r os').1 (
        All-perm (Passes signature_valid digest r) os os' d passes,
        sym (distinct-perm (λ (o : OrganicProbeObservation). o.observation_digest_sha256) os os' d)
            ∙ digests,
        sym (distinct-perm (λ (o : OrganicProbeObservation). o.probe_nonce) os os' d) ∙ nonces,
      ) in
      score_organic_epoch-builds os' fields policy (rw (← length-perm os os' d) few) checked'
        (rw (← sorted) derived)
      ∙ rw (← sorted) (ap ok same)
