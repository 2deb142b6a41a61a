-- ===== src/Organic/Tally/Attributed.antt =====
-- The tallies of an epoch against the observations they count
-- (src/misscomputer_subnet/organic_scoring.py).
use misscomputer_subnet.Prelude.{
  ℕ, ◌+◌, ◌≡◌, refl, sym, ap, ◌∙◌, inl, inr, Text, text_eq, text_eq_iff, text_eq_sym, text_eq_refl,
  Bool, true, false, ◌&&◌, List, [], ◌∷◌, ◌++◌, ◌==◌, any, All, distinct, map, keep, count, total,
  if◌then◌else◌, Bool-cases, ok, arith,
}
use misscomputer_subnet.Organic.Types.{
  OrganicProbeObservation, Attribution, application, miner, path, none_, AttestationStatus,
  FraudEvidence,
}
use misscomputer_subnet.Organic.Tally.{
  Tally, Progress, counted, empty_tally, count_once, tally_observation, add_observation, tally_all,
  is_fraud, is_success, is_application, is_miner_failure, is_path, evidence_of,
}
use misscomputer_subnet.Organic.Tally.Counts.{
  count_once-counted, with_head-parts, with_tail-parts, add_observation-tallies, tally_all-step,
  nothing,
}

abbrev attribution_code : Attribution → ℕ
attribution_code none_ = 0
attribution_code application = 1
attribution_code miner = 2
attribution_code path = 3

abbrev status_code : AttestationStatus → ℕ
status_code AttestationStatus.verified = 0
status_code AttestationStatus.fraudulent = 1
status_code AttestationStatus.rejected = 2
status_code AttestationStatus.not_presented = 3

-- an observation of the endpoint, one with the attribution, and one whose statement is fraudulent
abbrev pub at : Text → OrganicProbeObservation → Bool
at endpoint_id o = text_eq o.endpoint_id endpoint_id

abbrev pub attributed_to : Attribution → OrganicProbeObservation → Bool
attributed_to a o = attribution_code o.attribution == attribution_code a

abbrev pub is_fraudulent : OrganicProbeObservation → Bool
is_fraudulent o = status_code o.attestation_status == 1

-- how many observations of the endpoint pass the test
abbrev pub count_at : (OrganicProbeObservation → Bool) → List OrganicProbeObservation → Text → ℕ
count_at g os endpoint_id = count (λ (o : OrganicProbeObservation). at endpoint_id o && g o) os

is_success-code : (a : Attribution) → is_success a ≡ (attribution_code a == 0)
is_success-code none_ = refl
is_success-code application = refl
is_success-code miner = refl
is_success-code path = refl

is_application-code : (a : Attribution) → is_application a ≡ (attribution_code a == 1)
is_application-code none_ = refl
is_application-code application = refl
is_application-code miner = refl
is_application-code path = refl

is_miner_failure-code : (a : Attribution) → is_miner_failure a ≡ (attribution_code a == 2)
is_miner_failure-code none_ = refl
is_miner_failure-code application = refl
is_miner_failure-code miner = refl
is_miner_failure-code path = refl

is_path-code : (a : Attribution) → is_path a ≡ (attribution_code a == 3)
is_path-code none_ = refl
is_path-code application = refl
is_path-code miner = refl
is_path-code path = refl

pub is_fraud-code : (s : AttestationStatus) → is_fraud s ≡ (status_code s == 1)
is_fraud-code AttestationStatus.verified = refl
is_fraud-code AttestationStatus.fraudulent = refl
is_fraud-code AttestationStatus.rejected = refl
is_fraud-code AttestationStatus.not_presented = refl

-- the endpoints of the tallies
abbrev ids : List Tally → List Text
ids ts = map (λ (t : Tally). t.endpoint_id) ts

counted-id : (o : OrganicProbeObservation) (t : Tally) → (counted o t).endpoint_id ≡ t.endpoint_id
unfolding counted
counted-id o t = refl

ids-any :
    (x : Text) (o : OrganicProbeObservation) (ts us : List Tally)
    → tally_observation o ts ≡ ok us
    → any (text_eq x) (ids ts) ≡ false
    → text_eq x o.endpoint_id ≡ false
    → any (text_eq x) (ids us) ≡ false
unfolding tally_observation
ids-any x o [] us h absent other =
    let e : us ≡ counted o (empty_tally o) ∷ [] = ground arith in
    rw (e, counted-id o (empty_tally o)) (ground arith)
ids-any x o (t ∷ ts) us h absent other = elim (Bool-cases (text_eq t.endpoint_id o.endpoint_id)) [
  | inl own ↦
      let (u, once, e) = with_head-parts (count_once o t) ts us (ground arith) in
      let (same, few) = count_once-counted o t u once in rw (e, same, counted-id o t) absent
  | inr foreign ↦
      let (rest, below, e) = with_tail-parts t (tally_observation o ts) us (ground arith) in
      rw e (ground (arith, ids-any x o ts rest below))
]

ids-distinct :
    (o : OrganicProbeObservation) (ts us : List Tally)
    → tally_observation o ts ≡ ok us
    → distinct text_eq (ids ts) ≡ true
    → distinct text_eq (ids us) ≡ true
unfolding tally_observation
ids-distinct o [] us h d = let e : us ≡ counted o (empty_tally o) ∷ [] = ground arith in rw e refl
ids-distinct o (t ∷ ts) us h d = elim (Bool-cases (text_eq t.endpoint_id o.endpoint_id)) [
  | inl own ↦
      let (u, once, e) = with_head-parts (count_once o t) ts us (ground arith) in
      let (same, few) = count_once-counted o t u once in rw (e, same, counted-id o t) d
  | inr foreign ↦
      let (rest, below, e) = with_tail-parts t (tally_observation o ts) us (ground arith) in
      rw e (ground (arith, ids-any t.endpoint_id o ts rest below, ids-distinct o ts rest below))
]

tally_all-distinct :
    (epoch_seconds epoch_index : ℕ) (os : List OrganicProbeObservation) (p q : Progress)
    → distinct text_eq (ids p.tallies) ≡ true
    → tally_all epoch_seconds epoch_index os p ≡ ok q
    → distinct text_eq (ids q.tallies) ≡ true
tally_all-distinct epoch_seconds epoch_index [] p q d h =
    let e : q ≡ p = nothing epoch_seconds epoch_index p q h in rw e d
tally_all-distinct epoch_seconds epoch_index (o ∷ os) p q d h =
    let (m, first, rest) = tally_all-step epoch_seconds epoch_index o os p q h in
    let (when, counts) = add_observation-tallies epoch_seconds epoch_index o p m first in
    tally_all-distinct epoch_seconds epoch_index os m q
      (ids-distinct o p.tallies m.tallies counts d) rest

-- A counter of the tallies that grows with the observations that pass the test.
module _ (f : Tally → ℕ) (g : OrganicProbeObservation → Bool)
    (starts : (o : OrganicProbeObservation)
      → f (counted o (empty_tally o)) ≡ (if g o then 1 else 0))
    (grows : (o : OrganicProbeObservation) (t : Tally)
      → f (counted o t) ≡ f t + (if g o then 1 else 0)) where
  abbrev at_id : Text → Tally → ℕ
  at_id x t = if text_eq t.endpoint_id x then f t else 0

  tally_observation-total :
      (x : Text) (o : OrganicProbeObservation) (ts us : List Tally)
      → tally_observation o ts ≡ ok us
      → total (at_id x) us ≡ total (at_id x) ts + (if at x o && g o then 1 else 0)
  unfolding tally_observation
  tally_observation-total x o [] us h =
      let e : us ≡ counted o (empty_tally o) ∷ [] = ground arith in
      rw (e, counted-id o (empty_tally o), starts o) (ground arith)
  tally_observation-total x o (t ∷ ts) us h =
      elim (Bool-cases (text_eq t.endpoint_id o.endpoint_id)) [
        | inl own ↦
            let (u, once, e) = with_head-parts (count_once o t) ts us (ground arith) in
            let (same, few) = count_once-counted o t u once in
            let id = (text_eq_iff t.endpoint_id o.endpoint_id).0 own in
            rw (e, same, counted-id o t, grows o t, id) (ground arith)
        | inr foreign ↦
            let (rest, below, e) = with_tail-parts t (tally_observation o ts) us (ground arith) in
            rw e (omega (arith, tally_observation-total x o ts rest below))
      ]

  tally_all-total :
      (x : Text) (epoch_seconds epoch_index : ℕ) (os : List OrganicProbeObservation)
      (p q : Progress)
      → tally_all epoch_seconds epoch_index os p ≡ ok q
      → total (at_id x) q.tallies ≡ total (at_id x) p.tallies + count_at g os x
  tally_all-total x epoch_seconds epoch_index [] p q h =
      let e : q ≡ p = nothing epoch_seconds epoch_index p q h in rw e (omega arith)
  tally_all-total x epoch_seconds epoch_index (o ∷ os) p q h =
      let (m, first, rest) = tally_all-step epoch_seconds epoch_index o os p q h in
      let (when, counts) = add_observation-tallies epoch_seconds epoch_index o p m first in
      ground (
        arith,
        tally_observation-total x o p.tallies m.tallies counts,
        tally_all-total x epoch_seconds epoch_index os m q rest,
      )

  absent-zero :
      (x : Text) (ts : List Tally) → any (text_eq x) (ids ts) ≡ false → total (at_id x) ts ≡ 0
  absent-zero x [] h = refl
  absent-zero x (t ∷ ts) h = ground (arith, absent-zero x ts, text_eq_sym t.endpoint_id x)

  skip :
      (t : Tally) (all_ ts : List Tally)
      → any (text_eq t.endpoint_id) (ids ts) ≡ false
      → All (λ (u : Tally). f u ≡ total (at_id u.endpoint_id) all_) ts
      → All (λ (u : Tally). f u ≡ total (at_id u.endpoint_id) (t ∷ all_)) ts
  skip t all_ [] h a = tt
  skip t all_ (u ∷ ts) h a = (ground (arith, a.0), skip t all_ ts (ground arith) a.1)

  own_total :
      (ts : List Tally)
      → distinct text_eq (ids ts) ≡ true
      → All (λ (u : Tally). f u ≡ total (at_id u.endpoint_id) ts) ts
  own_total [] d = tt
  own_total (t ∷ ts) d = (
    ground (arith, absent-zero t.endpoint_id ts, text_eq_refl t.endpoint_id),
    skip t ts ts (ground arith) (own_total ts (ground arith)),
  )

  from_total :
      (os : List OrganicProbeObservation) (all_ ts : List Tally)
      → ((x : Text) → total (at_id x) all_ ≡ count_at g os x)
      → All (λ (u : Tally). f u ≡ total (at_id u.endpoint_id) all_) ts
      → All (λ (u : Tally). f u ≡ count_at g os u.endpoint_id) ts
  from_total os all_ [] h a = tt
  from_total os all_ (u ∷ ts) h a = (a.0 ∙ h u.endpoint_id, from_total os all_ ts h a.1)

  -- The counter of a tally is the number of the observations of its endpoint that pass the test.
  tally_all-count_at :
      (epoch_seconds epoch_index : ℕ) (os : List OrganicProbeObservation) (q : Progress)
      → tally_all epoch_seconds epoch_index os
          (record { tallies = []; fraud = []; identities = [] })
        ≡ ok q
      → All (λ (u : Tally). f u ≡ count_at g os u.endpoint_id) q.tallies
  tally_all-count_at epoch_seconds epoch_index os q h =
      let empty : Progress = record { tallies = []; fraud = []; identities = [] } in
      from_total os q.tallies q.tallies
        (λ x. omega (arith, tally_all-total x epoch_seconds epoch_index os empty q h))
        (own_total q.tallies (tally_all-distinct epoch_seconds epoch_index os empty q refl h))

-- The counters are numbers of observations of the endpoint.
pub record IsTallyOf (os : List OrganicProbeObservation) (t : Tally) : Type 0 where
  pub attempts : t.attempts ≡ count_at (λ o. true) os t.endpoint_id
  pub successes : t.successes ≡ count_at (attributed_to none_) os t.endpoint_id
  pub application_failures :
      t.application_failures ≡ count_at (attributed_to application) os t.endpoint_id
  pub miner_failures : t.miner_failures ≡ count_at (attributed_to miner) os t.endpoint_id
  pub path_failures : t.path_failures ≡ count_at (attributed_to path) os t.endpoint_id
  pub frauds : t.frauds ≡ count_at is_fraudulent os t.endpoint_id

All-zip :
    (os : List OrganicProbeObservation) (ts : List Tally)
    → All (λ (t : Tally). t.attempts ≡ count_at (λ o. true) os t.endpoint_id) ts
    → All (λ (t : Tally). t.successes ≡ count_at (attributed_to none_) os t.endpoint_id) ts
    → All
        (λ (t : Tally).
          t.application_failures ≡ count_at (attributed_to application) os t.endpoint_id)
        ts
    → All (λ (t : Tally). t.miner_failures ≡ count_at (attributed_to miner) os t.endpoint_id) ts
    → All (λ (t : Tally). t.path_failures ≡ count_at (attributed_to path) os t.endpoint_id) ts
    → All (λ (t : Tally). t.frauds ≡ count_at is_fraudulent os t.endpoint_id) ts
    → All (IsTallyOf os) ts
All-zip os [] a b c d e f = tt
All-zip os (t ∷ ts) a b c d e f = (
  record {
    attempts = a.0;
    successes = b.0;
    application_failures = c.0;
    miner_failures = d.0;
    path_failures = e.0;
    frauds = f.0;
  },
  All-zip os ts a.1 b.1 c.1 d.1 e.1 f.1,
)

-- Each tally counts the observations of its endpoint, by what they are attributed to.
pub tally_all-IsTallyOf :
    (epoch_seconds epoch_index : ℕ) (os : List OrganicProbeObservation) (q : Progress)
    → tally_all epoch_seconds epoch_index os (record { tallies = []; fraud = []; identities = [] })
      ≡ ok q
    → All (IsTallyOf os) q.tallies
unfolding counted
tally_all-IsTallyOf epoch_seconds epoch_index os q h =
    All-zip os q.tallies
      (tally_all-count_at (λ t. t.attempts) (λ o. true) (λ o. refl) (λ o t. refl) epoch_seconds
        epoch_index os q h)
      (tally_all-count_at (λ t. t.successes) (attributed_to none_)
        (λ o. ground (arith, is_success-code o.attribution))
        (λ o t. ground (arith, is_success-code o.attribution)) epoch_seconds epoch_index os q h)
      (tally_all-count_at (λ t. t.application_failures) (attributed_to application)
        (λ o. ground (arith, is_application-code o.attribution))
        (λ o t. ground (arith, is_application-code o.attribution)) epoch_seconds epoch_index os q h)
      (tally_all-count_at (λ t. t.miner_failures) (attributed_to miner)
        (λ o. ground (arith, is_miner_failure-code o.attribution))
        (λ o t. ground (arith, is_miner_failure-code o.attribution)) epoch_seconds epoch_index os q
        h)
      (tally_all-count_at (λ t. t.path_failures) (attributed_to path)
        (λ o. ground (arith, is_path-code o.attribution))
        (λ o t. ground (arith, is_path-code o.attribution)) epoch_seconds epoch_index os q h)
      (tally_all-count_at (λ t. t.frauds) is_fraudulent
        (λ o. ground (arith, is_fraud-code o.attestation_status))
        (λ o t. ground (arith, is_fraud-code o.attestation_status)) epoch_seconds epoch_index os q
        h)

append_assoc : (xs ys zs : List FraudEvidence) → ((xs ++ ys) ++ zs) ≡ (xs ++ (ys ++ zs))
append_assoc [] ys zs = refl
append_assoc (x ∷ xs) ys zs = ap (λ l. x ∷ l) (append_assoc xs ys zs)

append_nil : (xs : List FraudEvidence) → (xs ++ []) ≡ xs
append_nil [] = refl
append_nil (x ∷ xs) = ap (λ l. x ∷ l) (append_nil xs)

add_observation-fraud :
    (epoch_seconds epoch_index : ℕ) (o : OrganicProbeObservation) (p q : Progress)
    → add_observation epoch_seconds epoch_index o p ≡ ok q
    → q.fraud ≡ (if is_fraudulent o then p.fraud ++ evidence_of o ∷ [] else p.fraud)
unfolding add_observation
add_observation-fraud epoch_seconds epoch_index o p q h =
    ground (arith, is_fraud-code o.attestation_status)

-- The loop collects the evidence of each observation with a fraudulent statement.
pub tally_all-fraud :
    (epoch_seconds epoch_index : ℕ) (os : List OrganicProbeObservation) (p q : Progress)
    → tally_all epoch_seconds epoch_index os p ≡ ok q
    → q.fraud ≡ (p.fraud ++ map evidence_of (keep is_fraudulent os))
tally_all-fraud epoch_seconds epoch_index [] p q h =
    let e : q ≡ p = nothing epoch_seconds epoch_index p q h in rw e (sym (append_nil p.fraud))
tally_all-fraud epoch_seconds epoch_index (o ∷ os) p q h =
    let (m, first, rest) = tally_all-step epoch_seconds epoch_index o os p q h in
    let one = add_observation-fraud epoch_seconds epoch_index o p m first in
    let later = tally_all-fraud epoch_seconds epoch_index os m q rest in
    elim (Bool-cases (is_fraudulent o)) [
      | inl hit ↦
          later
          ∙ (rw (one, hit)
              (append_assoc p.fraud (evidence_of o ∷ []) (map evidence_of (keep is_fraudulent os))))
      | inr miss ↦ later ∙ (rw (one, miss) refl)
    ]
