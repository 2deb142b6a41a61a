-- ===== src/Auth/Client/Retries.antt =====
-- How often `BridgeClient.request` sends, and which answer it reports.
use misscomputer_subnet.Prelude.{
  ℕ, zero, suc, ◌+◌, ◌≤◌, ◌<◌, ◌≡◌, refl, Text, true, false, Option, none, some, List, arith, ok,
  codes, ap, Option-cases, ◌⊎◌, inl, inr, ◌↔◌,
}
use misscomputer_subnet.Prelude.Json.{Json, boolean, object, Fields, get}
use misscomputer_subnet.Auth.Bridge.{Runtime, Headers, bridge_headers}
use misscomputer_subnet.Auth.Client.{
  Response, Answer, transport_error, other_exception, response, Outcome, request_failed,
  response_error, read_answer, request_from, request, with_content_type, is_true, detail_error,
  payload_error,
}

-- The body is an object whose `error` is an object that is marked retryable.
abbrev pub IsMarked : Option Json → Type 0
IsMarked json =
    (payload : Fields) × (detail : Fields) × (json ≡ some (object payload))
    × (get (codes "error") payload ≡ some (object detail))
    × (get (codes "retryable") detail ≡ some (boolean true))

-- A transport error or timeout, or a failure of at most one MiB that is marked retryable.
abbrev pub Retryable : Answer → Type 0
Retryable a =
    (a ≡ transport_error)
    ⊎ ((r : Response) × (a ≡ response r)
        × (r.size ≤ 1048576)
        × (r.is_success ≡ false)
        × IsMarked r.json)

module _ (render : ℕ → Text) where
  is_true-boolean : (j : Option Json) → is_true j ≡ true → j ≡ some (boolean true)
  is_true-boolean none h = absurd (ground arith)
  is_true-boolean (some (boolean b)) h = ground arith
  is_true-boolean j h = absurd (ground arith)

  detail_error-retryable :
      (j : Option Json) (status : ℕ)
      → (detail_error render j status).retryable ≡ true
      → (detail : Fields) × (j ≡ some (object detail))
        × (get (codes "retryable") detail ≡ some (boolean true))
  unfolding detail_error
  detail_error-retryable (some (object detail)) status h =
      (detail, refl, is_true-boolean (get (codes "retryable") detail) h)
  detail_error-retryable j status h = absurd (ground arith)

  payload_error-retryable :
      (j : Option Json) (status : ℕ) → (payload_error render j status).retryable ≡ true → IsMarked j
  unfolding payload_error
  payload_error-retryable (some (object payload)) status h =
      let (detail, found, marked) = detail_error-retryable (get (codes "error") payload) status h in
      (payload, detail, refl, found, marked)
  payload_error-retryable j status h = absurd (ground arith)

  response_error-retryable :
      (r : Response) → (response_error render r).retryable ≡ true → IsMarked r.json
  unfolding response_error
  response_error-retryable r h = payload_error-retryable r.json r.status_code h

  retryable-response_error :
      (r : Response) → IsMarked r.json → (response_error render r).retryable ≡ true
  unfolding response_error payload_error detail_error
  retryable-response_error r (payload, detail, body, found, marked) = rw (body, found, marked) refl

module _ {A : Type 0} (render : ℕ → Text) (decode : Response → Option A) where
  retries-Retryable : (a : Answer) → read_answer render decode a ≡ none → Retryable a
  unfolding read_answer
  retries-Retryable transport_error h = inl refl
  retries-Retryable other_exception h = absurd (ground arith)
  retries-Retryable (response r) h =
      inr (r, refl, ground arith, ground arith, response_error-retryable render r (ground arith))

  Retryable-retries : (a : Answer) → Retryable a → read_answer render decode a ≡ none
  unfolding read_answer
  Retryable-retries a (inl e) = rw e refl
  Retryable-retries a (inr (r, e, small, failed, marked)) =
      rw e (ground (arith, retryable-response_error render r marked))

  module _ (rt : Runtime) (secret : List ℕ) (method path : Text) (body : List ℕ)
      (timestamp nonce : ℕ → Text) (send : ℕ → Headers → Answer) where
    abbrev run : (left attempt : ℕ) → Outcome A × ℕ
    run = request_from render decode rt secret method path body timestamp nonce send

    abbrev answer : (ℕ → Headers) → ℕ → Option (Outcome A)
    answer headers k = read_answer render decode (send k (with_content_type body (headers k)))

    abbrev Signs : (ℕ → Headers) → Type 0
    Signs headers =
        (k : ℕ) → bridge_headers rt secret method path body (timestamp k) (nonce k) ≡ ok (headers k)

    run_step :
        (headers : ℕ → Headers) (left attempt : ℕ)
        → Signs headers
        → answer headers attempt ≡ none
        → run (suc left) attempt ≡ ((run left (suc attempt)).0, suc (run left (suc attempt)).1)
    unfolding request_from
    run_step headers left attempt signs again = ground (arith, signs attempt)

    run_last :
        (headers : ℕ → Headers) (left attempt : ℕ) (o : Outcome A)
        → Signs headers
        → answer headers attempt ≡ some o
        → run (suc left) attempt ≡ (o, 1)
    unfolding request_from
    run_last headers left attempt o signs stop = ground (arith, signs attempt)

    run_stops :
        (headers : ℕ → Headers) (n k left attempt : ℕ) (o : Outcome A)
        → Signs headers
        → attempt + k ≡ n
        → k < left
        → ((j : ℕ) → attempt ≤ j → j < n → answer headers j ≡ none)
        → answer headers n ≡ some o
        → run left attempt ≡ (o, suc k)
    run_stops headers n k zero attempt o signs e h before stop = elim h [ ]
    run_stops headers n zero (suc left) attempt o signs e h before stop =
        let e' : n ≡ attempt = omega arith in run_last headers left attempt o signs (rw e' at stop)
    run_stops headers n (suc k) (suc left) attempt o signs e h before stop =
        let rest =
          run_stops headers n k left (suc attempt) o signs (omega arith) (omega arith)
            (λ j l u. before j (omega arith) u) stop in
        rw (run_step headers left attempt signs (before attempt (omega arith) (omega arith)), rest)

    run_exhausts :
        (headers : ℕ → Headers) (left attempt : ℕ)
        → Signs headers
        → ((j : ℕ) → attempt ≤ j → j < attempt + left → answer headers j ≡ none)
        → run left attempt ≡ (request_failed, left)
    unfolding request_from
    run_exhausts headers zero attempt signs before = refl
    run_exhausts headers (suc left) attempt signs before =
        let rest =
          run_exhausts headers left (suc attempt) signs
            (λ j l u. before j (omega arith) (omega arith)) in
        rw (run_step headers left attempt signs (before attempt (omega arith) (omega arith)), rest)

    -- A call whose attempts are all signed reports its first answer that is not to be retried, after
    -- exactly the attempts up to that one.
    pub request_stops :
        (headers : ℕ → Headers) (retries n : ℕ) (o : Outcome A)
        → Signs headers
        → n ≤ retries
        → ((j : ℕ) → j < n → answer headers j ≡ none)
        → answer headers n ≡ some o
        → request render decode rt secret method path body timestamp nonce send retries ≡ (o, suc n)
    unfolding request
    request_stops headers retries n o signs h before stop =
        run_stops headers n n (suc retries) 0 o signs (omega arith) (omega arith)
          (λ j l u. before j u) stop

    -- If every attempt is signed and to be retried, the call fails after `retries + 1` requests.
    pub request_exhausts :
        (headers : ℕ → Headers) (retries : ℕ)
        → Signs headers
        → ((j : ℕ) → j ≤ retries → answer headers j ≡ none)
        → request render decode rt secret method path body timestamp nonce send retries
          ≡ (request_failed, suc retries)
    unfolding request
    request_exhausts headers retries signs before =
        run_exhausts headers (suc retries) 0 signs (λ j l u. before j (omega arith))

    resends :
        (headers : ℕ → Headers) (left attempt : ℕ)
        → Signs headers
        → answer headers attempt ≡ none
        → 2 ≤ (run (suc (suc left)) attempt).1
    resends headers left attempt signs again =
        let first = ap (λ p. p.1) (run_step headers (suc left) attempt signs again) in
        elim (Option-cases (answer headers (suc attempt))) [
          | inl more ↦
              ground (arith, first, ap (λ p. p.1) (run_step headers left (suc attempt) signs more))
          | inr (o, stop) ↦
              ground
                (arith, first, ap (λ p. p.1) (run_last headers left (suc attempt) o signs stop))
        ]

    -- A call whose attempts are all signed and that may send again does so exactly if its first
    -- attempt meets a transport error or timeout, or a failure response of at most one MiB whose
    -- JSON body is an object with an object `error` that has `retryable` set to true.
    pub request_resends_iff :
        (headers : ℕ → Headers) (retries : ℕ)
        → Signs headers
        → (2
            ≤ (request render decode rt secret method path body timestamp nonce send
                (suc retries)).1)
          ↔ Retryable (send 0 (with_content_type body (headers 0)))
    unfolding request
    request_resends_iff headers retries signs = (
      (λ h. elim (Option-cases (answer headers 0)) [
        | inl again ↦ retries-Retryable (send 0 (with_content_type body (headers 0))) again
        | inr (o, stop) ↦
            absurd (ground (arith, ap (λ p. p.1) (run_last headers (suc retries) 0 o signs stop)))
      ]),
      λ h.
          resends headers retries 0 signs
            (Retryable-retries (send 0 (with_content_type body (headers 0))) h),
    )

    -- Whatever the network answers, at most `retries + 1` requests are sent.
    pub request_bounded :
        (retries : ℕ)
        → (request render decode rt secret method path body timestamp nonce send retries).1
          ≤ retries + 1
    unfolding request
    request_bounded retries = omega (arith, run_bounded (suc retries) 0)
      where
        run_bounded : (left attempt : ℕ) → (run left attempt).1 ≤ left
        run_bounded zero attempt = ground arith
        run_bounded (suc left) attempt = ground (arith, run_bounded left (suc attempt))
