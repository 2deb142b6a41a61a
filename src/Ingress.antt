-- ===== src/Ingress.antt =====
-- The bounded reader of request bodies (src/misscomputer_subnet/ingress.py).
pub mod Bounds
mod Tests
use misscomputer_subnet.Prelude.{
  ℕ, ◌+◌, ◌-◌, ◌≤◌, Text, text_eq, codes, Bool, true, false, not, ◌&&◌, ◌||◌, Option, none, some,
  List, [], ◌∷◌, ◌++◌, ltb, leb, ◌==◌, all, any, map, keep, take, length, max, if◌then◌else◌,
  Result, ok, err, ◌>>=◌, ◌>>◌, raise_if,
}

-- the name and the value of a header, as bytes
pub record Header : Type 0 where
  pub name : Text
  pub value : Text

-- The exceptions that `read_request_body` raises or lets through.
pub data IngressError : Type 0 where
  invalid_bounds conflicting_framing ambiguous_length invalid_length : IngressError
  declared_too_large body_too_large total_deadline idle_deadline : IngressError
  length_differs stream_failed : IngressError

-- the status of the HTTPException, if it is one
abbrev pub status_code : IngressError → Option ℕ
status_code invalid_bounds = none
status_code conflicting_framing = some 400
status_code ambiguous_length = some 400
status_code invalid_length = some 400
status_code declared_too_large = some 413
status_code body_too_large = some 413
status_code total_deadline = some 408
status_code idle_deadline = some 408
status_code length_differs = some 400
status_code stream_failed = none

abbrev pub Raises : Type 0 → Type 0
Raises A = Result IngressError A

-- a number as Python's `int` reads it
pub data Number : Type 0 where
  natural : ℕ → Number
  negative : Number

-- What the request's stream and the clock answer, one turn of the loop after the other: each turn
-- has the clock before `anext`, and then a chunk, the end, a timeout with the clock after it, or
-- another exception (cancellation too).
pub data Stream : Type 0 where
  ends : (now : ℕ) → Stream
  gives : (now : ℕ) (chunk : Text) → Stream → Stream
  times_out : (now later : ℕ) → Stream
  raises : (now : ℕ) → Stream

-- `key.lower()` of bytes
abbrev pub lower_byte : ℕ → ℕ
lower_byte c = if leb 65 c && leb c 90 then c + 32 else c

abbrev pub lower : Text → Text
lower t = map lower_byte t

abbrev pub is_ascii : Text → Bool
is_ascii t = all (λ c. ltb c 128) t

abbrev pub names : Text → Header → Bool
names key h = text_eq (lower h.name) key

-- `to_int` is Python's `int` of a text, `to_text` its `str` of a natural number.
module _ (to_int : Text → Option Number) (to_text : ℕ → Text) where
  abbrev pub accept_length : (max_bytes : ℕ) → Text → Option Number → Raises (Option ℕ)
  accept_length max_bytes rendered none = err invalid_length
  accept_length max_bytes rendered (some negative) = err invalid_length
  accept_length max_bytes rendered (some (natural declared)) =
      if not (text_eq rendered (to_text declared))
      then err invalid_length
      else if ltb max_bytes declared
      then err declared_too_large
      else ok (some declared)

  abbrev pub one_length : (max_bytes : ℕ) → Text → Raises (Option ℕ)
  one_length max_bytes rendered =
      if not (is_ascii rendered)
      then err invalid_length
      else accept_length max_bytes rendered (to_int rendered)

  abbrev pub the_length : (max_bytes : ℕ) → List Header → Raises (Option ℕ)
  the_length max_bytes [] = ok none
  the_length max_bytes (h ∷ []) = one_length max_bytes h.value
  the_length max_bytes (h ∷ i ∷ rest) = err ambiguous_length

  abbrev pub is_given : List Header → Bool
  is_given [] = false
  is_given (h ∷ hs) = true

  -- `_declared_length`
  unfoldable pub declared_length : List Header → (max_bytes : ℕ) → Raises (Option ℕ)
  declared_length headers max_bytes =
      let lengths = keep (names (codes "content-length")) headers in
      if any (names (codes "transfer-encoding")) headers && is_given lengths
      then err conflicting_framing
      else the_length max_bytes lengths

-- A call's outcome, and the most bytes that its buffer held.
pub record Reading : Type 0 where
  pub outcome : Raises Text
  pub largest : ℕ

-- `body.extend(chunk[:remaining])`, where `remaining` is above zero
unfoldable pub extended : (max_bytes : ℕ) (body chunk : Text) → Text
extended max_bytes body chunk =
    let remaining = max_bytes + 1 - length body in
    if ltb 0 remaining then body ++ take remaining chunk else body

abbrev pub is_over : (max_bytes : ℕ) (body chunk : Text) → Bool
is_over max_bytes body chunk =
    ltb max_bytes (length (extended max_bytes body chunk))
    || ltb (max_bytes + 1 - length body) (length chunk)

abbrev pub at_least : ℕ → Reading → Reading
at_least n r = record r { largest = max n r.largest }

abbrev pub stop : Raises Text → Text → Reading
stop outcome body = record { outcome = outcome; largest = length body }

-- the loop, from a body that was read so far
unfoldable pub read_loop : (max_bytes deadline : ℕ) → Stream → Text → Reading
unfolding extended
read_loop max_bytes deadline (ends now) body =
    if leb deadline now then stop (err total_deadline) body else stop (ok body) body
read_loop max_bytes deadline (raises now) body =
    if leb deadline now then stop (err total_deadline) body else stop (err stream_failed) body
read_loop max_bytes deadline (times_out now later) body =
    if leb deadline now
    then stop (err total_deadline) body
    else if leb deadline later
    then stop (err total_deadline) body
    else stop (err idle_deadline) body
read_loop max_bytes deadline (gives now chunk stream) body =
    let rest = read_loop max_bytes deadline stream (extended max_bytes body chunk) in
    if leb deadline now
    then stop (err total_deadline) body
    else if is_over max_bytes body chunk
    then stop (err body_too_large) (extended max_bytes body chunk)
    else at_least (length body) rest

abbrev pub check_declared : Option ℕ → Text → Raises Text
check_declared none body = ok body
check_declared (some declared) body =
    if not (length body == declared) then err length_differs else ok body

module _ (to_int : Text → Option Number) (to_text : ℕ → Text) where
  abbrev pub finish : Option ℕ → Reading → Reading
  finish declared r = record r { outcome = r.outcome >>= λ body. check_declared declared body }

  abbrev pub with_length : (max_bytes deadline : ℕ) → Stream → Raises (Option ℕ) → Reading
  with_length max_bytes deadline stream (err e) = stop (err e) []
  with_length max_bytes deadline stream (ok declared) =
      finish declared (read_loop max_bytes deadline stream [])

  -- `read_request_body`, which starts at the time `start`
  unfoldable pub read_request_body :
      List Header → (max_bytes idle_timeout total_timeout start : ℕ) → Stream → Reading
  unfolding declared_length read_loop
  read_request_body headers max_bytes idle_timeout total_timeout start stream =
      if ltb max_bytes 1 || leb idle_timeout 0 || leb total_timeout 0
      then stop (err invalid_bounds) []
      else with_length max_bytes (start + total_timeout) stream
          (declared_length to_int to_text headers max_bytes)
