-- ===== src/Auth/Bridge.antt =====
-- `_bridge_payload`, `bridge_headers` and `verify_bridge_headers`. What the standard library does
-- (HMAC, SHA-256, UTF-8, `str.upper`, `str.lower`, `int`) is the parameter `Runtime`.
use misscomputer_subnet.Prelude.{
  ℕ, ◌+◌, Text, codes, text_eq, Bool, true, false, not, ◌||◌, Option, none, some, List, [], ◌∷◌,
  ◌++◌, ltb, length, all, if◌then◌else◌, Result, ok, err, ◌>>=◌, ◌>>◌, raise_if,
}
use misscomputer_subnet.Prelude.Int.{ℤ, pos, sub_ℕ, ltb_ℤ}
use misscomputer_subnet.Auth.Store.{BridgeRow, reserve}

pub record Runtime : Type 0 where
  pub upper : Text → Text
  pub lower : Text → Text
  pub encode : Text → List ℕ
  pub parse_int : Text → Option ℤ
  pub sha256_hex : List ℕ → Text
  pub hmac_sha256_hex : List ℕ → List ℕ → Text

-- the reasons that `verify_bridge_headers` and `bridge_headers` raise; `not_ascii` is the TypeError
-- of `hmac.compare_digest` at a text with other characters
pub data BridgeFault : Type 0 where
  short_secret unsupported_version missing_headers invalid_timestamp stale : BridgeFault
  not_ascii invalid_signature replayed : BridgeFault

abbrev pub newline : Text
newline = 10 ∷ []

-- `"\n".join(parts)`
abbrev pub join_lines : Text → List Text → Text
join_lines first [] = first
join_lines first (x ∷ xs) = first ++ newline ++ join_lines x xs

-- a header mapping as its items in order; keys are compared in lower case, and the last one wins
abbrev pub Headers : Type 0
Headers = List (Text × Text)

abbrev is_version : Option Text → Bool
is_version none = false
is_version (some v) = text_eq v (codes "1")

abbrev pub is_empty : Text → Bool
is_empty [] = true
is_empty (c ∷ cs) = false

abbrev pub skew_ns : ℕ
skew_ns = 2000000000

unfoldable pub is_stale : (max_age_ns current : ℕ) → ℤ → Bool
is_stale max_age_ns current timestamp_ns =
    ltb_ℤ timestamp_ns (sub_ℕ current max_age_ns) || ltb_ℤ (pos (current + skew_ns)) timestamp_ns

abbrev read_timestamp : Option ℤ → Result BridgeFault ℤ
read_timestamp none = err invalid_timestamp
read_timestamp (some t) = ok t

module _ (rt : Runtime) where
  unfoldable pub bridge_payload : Text → Text → Text → Text → List ℕ → List ℕ
  bridge_payload timestamp nonce method target body = rt.encode (
      join_lines (codes "miss-bridge/1")
        (timestamp ∷ nonce ∷ rt.upper method ∷ target ∷ rt.sha256_hex body ∷ []))

  unfoldable pub bridge_headers :
      List ℕ → Text → Text → List ℕ → Text → Text → Result BridgeFault Headers
  bridge_headers secret method target body timestamp nonce =
      if ltb (length secret) 32
      then err short_secret
      else ok (
          (codes "X-Miss-Bridge-Version", codes "1")
          ∷ (codes "X-Miss-Bridge-Timestamp", timestamp)
          ∷ (codes "X-Miss-Bridge-Nonce", nonce)
          ∷ (
            codes "X-Miss-Bridge-Signature",
            rt.hmac_sha256_hex secret (bridge_payload timestamp nonce method target body),
          )
          ∷ [])

  -- `{key.lower(): value for ...}.get(name)`
  unfoldable pub header : Text → Headers → Option Text
  header name [] = none
  header name ((key, value) ∷ rest) = elim (header name rest) [
    | some v ↦ some v
    | none ↦ if text_eq (rt.lower key) name then some value else none
  ]

  abbrev pub header_or_empty : Text → Headers → Text
  header_or_empty name headers = elim (header name headers) [ none ↦ [] | some v ↦ v ]

  -- The checks before the nonce is reserved: the nonce, if the request is authentic and fresh.
  unfoldable pub authenticate :
      (max_age_ns current : ℕ) → List ℕ → Headers → Text → Text → List ℕ → Result BridgeFault Text
  authenticate max_age_ns current secret headers method target body = do
    let timestamp = header_or_empty (codes "x-miss-bridge-timestamp") headers
    let nonce = header_or_empty (codes "x-miss-bridge-nonce") headers
    let provided = header_or_empty (codes "x-miss-bridge-signature") headers
    raise_if (not (is_version (header (codes "x-miss-bridge-version") headers))) unsupported_version
    raise_if (is_empty timestamp || is_empty nonce || is_empty provided) missing_headers
    timestamp_ns ← read_timestamp (rt.parse_int timestamp)
    raise_if (is_stale max_age_ns current timestamp_ns) stale
    let expected = rt.hmac_sha256_hex secret (bridge_payload timestamp nonce method target body)
    raise_if (not (all (λ c. ltb c 128) provided)) not_ascii
    raise_if (not (text_eq provided expected)) invalid_signature
    ok nonce

  abbrev reserved : Bool × List BridgeRow → Result BridgeFault (Unit {0}) × List BridgeRow
  reserved (fresh, rows) = (if fresh then ok tt else err replayed, rows)

  -- `current` is read before the checks, `clock` by the store inside its transaction.
  unfoldable pub verify_bridge_headers :
      (max_age_ns current clock : ℕ)
      → List ℕ
      → Headers
      → Text
      → Text
      → List ℕ
      → List BridgeRow
      → Result BridgeFault (Unit {0}) × List BridgeRow
  verify_bridge_headers max_age_ns current clock secret headers method target body rows =
      elim (authenticate max_age_ns current secret headers method target body) [
        | err e ↦ (err e, rows)
        | ok nonce ↦ reserved (reserve clock nonce (current + max_age_ns + skew_ns) rows)
      ]
