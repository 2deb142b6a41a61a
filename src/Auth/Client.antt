-- ===== src/Auth/Client.antt =====
-- `BridgeClient.request` with `_response_error` (src/misscomputer_subnet/auth.py). What the network
-- answers to each attempt and which nonce and time each attempt draws are arguments; the pause
-- between attempts has no effect on the result and is left out.
pub mod Retries
use misscomputer_subnet.Prelude.{
  ℕ, zero, suc, ◌+◌, ◌≤◌, ◌<◌, ◌≡◌, refl, Text, codes, Bool, true, false, Option, none, some, List,
  [], ◌∷◌, ◌++◌, ◌^◌, arith, ltb, leb, if◌then◌else◌, Result, ok, err, ◌⊎◌,
}
use misscomputer_subnet.Prelude.Json.{Json, boolean, text, object, Fields, get}
use misscomputer_subnet.Auth.Bridge.{Runtime, BridgeFault, Headers, bridge_headers}

abbrev pub bridge_max_body : ℕ
bridge_max_body = 2 ^ 20

abbrev bridge_error_code_max : ℕ
bridge_error_code_max = 128

abbrev bridge_error_message_max : ℕ
bridge_error_message_max = 1024

pub record Response : Type 0 where
  pub size : ℕ
  pub status_code : ℕ
  pub is_success : Bool
  -- `response.json()`, `none` where it raises
  pub json : Option Json

pub record BridgeError : Type 0 where
  pub code : Text
  pub message : Text
  pub retryable : Bool
  pub status_code : ℕ

-- `value[:limit]`
abbrev first : ℕ → Text → Text
first zero cs = []
first (suc n) [] = []
first (suc n) (c ∷ cs) = c ∷ first n cs

unfoldable pub bounded_error_text : Option Json → Text → ℕ → Text
bounded_error_text (some (text (c ∷ cs))) fallback limit = first limit (c ∷ cs)
bounded_error_text _ fallback limit = fallback

abbrev pub is_true : Option Json → Bool
is_true (some (boolean b)) = b
is_true _ = false

-- `render` is the decimal text of a status code
module _ (render : ℕ → Text) where
  abbrev fallback_error : ℕ → BridgeError
  fallback_error status = record {
    code = codes "bridge_error";
    message = codes "HTTP " ++ render status;
    retryable = false;
    status_code = status;
  }

  unfoldable pub detail_error : Option Json → ℕ → BridgeError
  unfolding bounded_error_text
  detail_error (some (object detail)) status = record {
    code =
        bounded_error_text (get (codes "code") detail) (codes "bridge_error") bridge_error_code_max;
    message =
        bounded_error_text (get (codes "message") detail) (codes "HTTP " ++ render status)
          bridge_error_message_max;
    retryable = is_true (get (codes "retryable") detail);
    status_code = status;
  }
  detail_error _ status = fallback_error status

  unfoldable pub payload_error : Option Json → ℕ → BridgeError
  unfolding detail_error
  payload_error (some (object payload)) status = detail_error (get (codes "error") payload) status
  payload_error _ status = fallback_error status

  unfoldable pub response_error : Response → BridgeError
  unfolding payload_error
  response_error r = payload_error r.json r.status_code

-- What the network does with one attempt: a transport error or timeout, another exception (of httpx,
-- or a cancellation), or a response.
pub data Answer : Type 0 where
  transport_error other_exception : Answer
  response : Response → Answer

-- How a call ends: a value, the bridge's own error, or one of the other exceptions.
pub data Outcome (A : Type 0) : Type 0 where
  returned : A → Outcome A
  bridge_error : BridgeError → Outcome A
  header_error : BridgeFault → Outcome A
  oversize invalid_payload request_failed raised : Outcome A

-- `_mapping payload` of a call without a response model
unfoldable pub json_object : Response → Option Fields
json_object r = elim r.json [ some (object fields) ↦ some fields | _ ↦ none ]

-- the end of one pass, with how many requests it and the passes after it sent
abbrev pub counted : {A : Type 0} → Option (Outcome A) → Outcome A × ℕ → Outcome A × ℕ
counted none (outcome, sent) = (outcome, suc sent)
counted (some outcome) _ = (outcome, 1)

-- `if body: headers["Content-Type"] = ...`
abbrev pub with_content_type : List ℕ → Headers → Headers
with_content_type [] headers = headers
with_content_type (b ∷ body) headers =
    headers ++ (codes "Content-Type", codes "application/json") ∷ []

module _ {A : Type 0} (render : ℕ → Text) (decode : Response → Option A) where
  abbrev decoded : Option A → Outcome A
  decoded none = invalid_payload
  decoded (some a) = returned a

  -- One pass of the loop's body: `none` where the loop goes on.
  unfoldable pub read_answer : Answer → Option (Outcome A)
  read_answer transport_error = none
  read_answer other_exception = some raised
  read_answer (response r) =
      let error = response_error render r in
      if ltb bridge_max_body r.size
      then some oversize
      else if r.is_success
      then some (decoded (decode r))
      else if error.retryable
      then none
      else some (bridge_error error)

  module _ (rt : Runtime) (secret : List ℕ) (method path : Text) (body : List ℕ)
      (timestamp nonce : ℕ → Text) (send : ℕ → Headers → Answer) where
    -- `for attempt in range(...)`, with `left` passes to come
    unfoldable pub request_from : (left attempt : ℕ) → Outcome A × ℕ
    request_from zero attempt = (request_failed, 0)
    request_from (suc left) attempt =
        let rest = request_from left (suc attempt) in
        elim (bridge_headers rt secret method path body (timestamp attempt) (nonce attempt)) [
          | err e ↦ (header_error e, 0)
          | ok headers ↦ counted (read_answer (send attempt (with_content_type body headers))) rest
        ]

    -- The result of a call and the number of requests sent.
    unfoldable pub request : (retries : ℕ) → Outcome A × ℕ
    unfolding request_from
    request retries = request_from (suc retries) 0
