-- ===== src/Ingress/Bounds.antt =====
-- What the reader of request bodies keeps and accepts (src/misscomputer_subnet/ingress.py).
use mathlib.Core.List.{append-nil, append_assoc}
use misscomputer_subnet.Prelude.{
  ℕ, zero, suc, ◌+◌, ◌-◌, ◌≤◌, ◌≡◌, ◌↔◌, refl, sym, ap, ◌∙◌, inl, inr, Text, Bool, true, false,
  ◌&&◌, Option, none, some, List, [], ◌∷◌, ◌++◌, ltb, ◌==◌, take, length, length-append, Bool-cases,
  ok, err, ◌>>=◌, arith,
}
use misscomputer_subnet.Ingress.{
  Header, Raises, Number, Stream, ends, gives, times_out, raises, declared_length, extended,
  is_over, read_loop, check_declared, with_length, read_request_body,
}

take-le : (n : ℕ) (t : Text) → length (take n t) ≤ n
take-le zero t = omega arith
take-le (suc n) [] = omega arith
take-le (suc n) (c ∷ t) = omega (arith, take-le n t)

take_all : (n : ℕ) (t : Text) → length t ≤ n → take n t ≡ t
take_all zero [] h = refl
take_all zero (c ∷ t) h = absurd (omega (arith, h))
take_all (suc n) [] h = refl
take_all (suc n) (c ∷ t) h = ap (◌∷◌ c) (take_all n t (omega (arith, h)))

-- all that the stream gives until it stops
unfoldable pub all_bytes : Stream → Text
all_bytes (ends now) = []
all_bytes (gives now chunk stream) = chunk ++ all_bytes stream
all_bytes (times_out now later) = []
all_bytes (raises now) = []

-- The stream comes to its end, each turn before the deadline.
unfoldable pub is_on_time : (deadline : ℕ) → Stream → Bool
is_on_time deadline (ends now) = ltb now deadline
is_on_time deadline (gives now chunk stream) = ltb now deadline && is_on_time deadline stream
is_on_time deadline (times_out now later) = false
is_on_time deadline (raises now) = false

abbrev pub matches : Option ℕ → Text → Bool
matches none body = true
matches (some declared) body = length body == declared

module _ (max_bytes deadline : ℕ) where
  extended-le :
      (body chunk : Text)
      → length body ≤ max_bytes
      → length (extended max_bytes body chunk) ≤ max_bytes + 1
  unfolding extended
  extended-le body chunk h = ground (
    arith,
    length-append body (take (max_bytes + 1 - length body) chunk),
    take-le (max_bytes + 1 - length body) chunk,
  )

  extended-whole :
      (body chunk : Text)
      → length body ≤ max_bytes
      → is_over max_bytes body chunk ≡ false
      → (extended max_bytes body chunk ≡ body ++ chunk)
        × (length (extended max_bytes body chunk) ≤ max_bytes)
  unfolding extended
  extended-whole body chunk h over =
      let few : length chunk ≤ max_bytes + 1 - length body = ground arith in
      let room : ltb 0 (max_bytes + 1 - length body) ≡ true = ground arith in
      (rw room (ap (◌++◌ body) (take_all (max_bytes + 1 - length body) chunk few)), ground arith)

  fits_whole :
      (body chunk : Text)
      → length (body ++ chunk) ≤ max_bytes
      → is_over max_bytes body chunk ≡ false
  unfolding extended
  fits_whole body chunk h = ground (
    arith,
    length-append body chunk,
    length-append body (take (max_bytes + 1 - length body) chunk),
    take_all (max_bytes + 1 - length body) chunk,
  )

  read_loop-largest :
      (stream : Stream) (body : Text)
      → length body ≤ max_bytes
      → (read_loop max_bytes deadline stream body).largest ≤ max_bytes + 1
  unfolding read_loop
  read_loop-largest (ends now) body h = ground arith
  read_loop-largest (raises now) body h = ground arith
  read_loop-largest (times_out now later) body h = ground arith
  read_loop-largest (gives now chunk stream) body h =
      elim (Bool-cases (is_over max_bytes body chunk)) [
        | inl over ↦ ground (arith, extended-le body chunk h)
        | inr fits ↦
            let (_, small) = extended-whole body chunk h fits in
            ground (arith, read_loop-largest stream (extended max_bytes body chunk) small)
      ]

  -- what the loop returns when it returns
  read_loop-read :
      (stream : Stream) (body result : Text)
      → length body ≤ max_bytes
      → (read_loop max_bytes deadline stream body).outcome ≡ ok result
      → (is_on_time deadline stream ≡ true)
        × (result ≡ body ++ all_bytes stream)
        × (length result ≤ max_bytes)
  unfolding read_loop is_on_time all_bytes
  read_loop-read (ends now) body result h k =
      let same : body ≡ result = ground arith in
      (ground arith, sym same ∙ sym (append-nil body), rw (← same) h)
  read_loop-read (raises now) body result h k = absurd (ground arith)
  read_loop-read (times_out now later) body result h k = absurd (ground arith)
  read_loop-read (gives now chunk stream) body result h k =
      elim (Bool-cases (is_over max_bytes body chunk)) [
        | inl over ↦ absurd (ground arith)
        | inr fits ↦
            let (whole, small) = extended-whole body chunk h fits in
            let (rest, bytes, few) =
              read_loop-read stream (extended max_bytes body chunk) result small (ground arith) in
            (
              ground arith,
              bytes
                  ∙ ap (λ t. t ++ all_bytes stream) whole
                  ∙ append_assoc body chunk (all_bytes stream),
              few,
            )
      ]

  -- it does return, when the stream ends in time and is small enough
  read_loop-reads :
      (stream : Stream) (body : Text)
      → is_on_time deadline stream ≡ true
      → length (body ++ all_bytes stream) ≤ max_bytes
      → (read_loop max_bytes deadline stream body).outcome ≡ ok (body ++ all_bytes stream)
  unfolding read_loop is_on_time all_bytes
  read_loop-reads (ends now) body t few = rw (append-nil body) (ground arith)
  read_loop-reads (raises now) body t few = absurd (ground arith)
  read_loop-reads (times_out now later) body t few = absurd (ground arith)
  read_loop-reads (gives now chunk stream) body t few =
      let joined = append_assoc body chunk (all_bytes stream) in
      let all_few : length ((body ++ chunk) ++ all_bytes stream) ≤ max_bytes = rw joined few in
      let fits =
        fits_whole body chunk (ground (arith, length-append (body ++ chunk) (all_bytes stream))) in
      let (whole, _) =
        extended-whole body chunk (ground (arith, length-append body (chunk ++ all_bytes stream)))
          fits in
      let ih = read_loop-reads stream (body ++ chunk) (ground arith) all_few in
      let ih' : (read_loop max_bytes deadline stream (extended max_bytes body chunk)).outcome
          ≡ ok (body ++ (chunk ++ all_bytes stream)) =
        rw whole (ih ∙ ap ok joined) in
      ground (arith, fits, ih')

module _ (to_int : Text → Option Number) (to_text : ℕ → Text) (headers : List Header)
    (max_bytes idle_timeout total_timeout start : ℕ) (stream : Stream) where
  with_length-largest :
      (d : Raises (Option ℕ))
      → (with_length to_int to_text max_bytes (start + total_timeout) stream d).largest
        ≤ max_bytes + 1
  with_length-largest (err e) = omega arith
  with_length-largest (ok declared) =
      read_loop-largest max_bytes (start + total_timeout) stream [] (omega arith)

  -- Whatever the headers and the stream are, the buffer never holds more than the limit and one byte.
  pub read_request_body-largest :
      (read_request_body to_int to_text headers max_bytes idle_timeout total_timeout start
        stream).largest
      ≤ max_bytes + 1
  unfolding read_request_body
  read_request_body-largest =
      ground (arith, with_length-largest (declared_length to_int to_text headers max_bytes))

  -- A body that the headers, the clock and the limit allow.
  abbrev pub IsAllowed : Raises (Option ℕ) → Text → Type 0
  IsAllowed d body =
      (declared : Option ℕ) × (d ≡ ok declared)
      × (matches declared body ≡ true)
      × (is_on_time (start + total_timeout) stream ≡ true)
      × (body ≡ all_bytes stream)
      × (length body ≤ max_bytes)

  check_declared_iff :
      (declared : Option ℕ) (body result : Text)
      → (check_declared declared body ≡ ok result)
        ↔ ((body ≡ result) × (matches declared body ≡ true))
  check_declared_iff none body result = (λ h. (ground arith, refl), λ (a, b). ap ok a)
  check_declared_iff (some declared) body result = elim (Bool-cases (length body == declared)) [
    | inl same ↦ (λ h. (ground arith, same), λ (a, b). ground arith)
    | inr other ↦ (λ h. absurd (ground arith), λ (a, b). absurd (ground arith))
  ]

  checked_iff :
      (declared : Option ℕ) (r : Raises Text) (result : Text)
      → ((r >>= λ body. check_declared declared body) ≡ ok result)
        ↔ ((r ≡ ok result) × (matches declared result ≡ true))
  checked_iff declared (err e) result =
      (λ h. absurd (ground arith), λ (a, b). absurd (ground arith))
  checked_iff declared (ok body) result = (
    λ h.
        let (same, m) = (check_declared_iff declared body result).0 h in
        (ap ok same, rw (← same) m),
    λ (a, b).
        let same : body ≡ result = ground arith in
        (check_declared_iff declared body result).1 (same, rw same b),
  )

  with_length_iff :
      (d : Raises (Option ℕ)) (body : Text)
      → ((with_length to_int to_text max_bytes (start + total_timeout) stream d).outcome ≡ ok body)
        ↔ IsAllowed d body
  with_length_iff (err e) body =
      (λ h. absurd (ground arith), λ (declared, a, m, t, b, f). absurd (ground arith))
  with_length_iff (ok declared) body = (
    λ h.
        let loop = read_loop max_bytes (start + total_timeout) stream [] in
        let (read, m) = (checked_iff declared loop.outcome body).0 h in
        let (t, bytes, few) =
          read_loop-read max_bytes (start + total_timeout) stream [] body (omega arith) read in
        (declared, refl, m, t, bytes, few),
    λ (declared', a, m, t, bytes, few).
        let loop = read_loop max_bytes (start + total_timeout) stream [] in
        let same : declared ≡ declared' = ground arith in
        let read =
          read_loop-reads max_bytes (start + total_timeout) stream [] t (rw (← bytes) few) in
        (checked_iff declared loop.outcome body).1 (read ∙ ap ok (sym bytes), rw same m),
  )

  -- A request's body is returned exactly if the limits are positive, the framing is accepted, the
  -- stream ends before the deadline with at most `max_bytes` bytes, and the length is the declared
  -- one, if one is declared; then it is all the bytes of the stream.
  pub read_request_body_iff :
      (body : Text)
      → ((read_request_body to_int to_text headers max_bytes idle_timeout total_timeout start
            stream).outcome
          ≡ ok body)
        ↔ ((1 ≤ max_bytes)
            × (1 ≤ idle_timeout)
            × (1 ≤ total_timeout)
            × IsAllowed (declared_length to_int to_text headers max_bytes) body)
  unfolding read_request_body
  read_request_body_iff body =
      let inner = with_length_iff (declared_length to_int to_text headers max_bytes) body in
      (
        λ h. (ground arith, ground arith, ground arith, inner.0 (ground arith)),
        λ (a, b, c, d). ground (arith, inner.1 d),
      )
