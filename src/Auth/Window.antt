-- ===== src/Auth/Window.antt =====
-- What an accepted bridge request rules out for its copies
-- (`verify_bridge_headers` of src/misscomputer_subnet/auth.py).
use misscomputer_subnet.Prelude.{
  ℕ, ◌+◌, ◌≤◌, ◌<◌, ◌≡◌, refl, ap, ◌∙◌, ◌↔◌, ◌⊎◌, inl, inr, Text, codes, true, false, Option, some,
  List, arith, Bool-cases, Option-cases, Result, ok, err,
}
use native.Mathlib.Decide.{dec_le}
use misscomputer_subnet.Prelude.Int.{ℤ, pos_part, neg_part}
use misscomputer_subnet.Auth.Store.{BridgeRow, reserve}
use misscomputer_subnet.Auth.Bridge.{
  Runtime, BridgeFault, replayed, Headers, skew_ns, header_or_empty, is_stale, authenticate,
  verify_bridge_headers,
}
use misscomputer_subnet.Auth.Replay.{
  keeps, reserve_refuses, reserve_records, reserve_again, StoreCall, run_calls, CallsBefore,
  run_calls_keeps,
}

module _ (rt : Runtime) (max_age_ns : ℕ) (secret : List ℕ) (headers : Headers)
    (method target : Text) (body : List ℕ) where
  abbrev nonce_of : Text
  nonce_of = header_or_empty rt (codes "x-miss-bridge-nonce") headers

  abbrev timestamp_of : Option ℤ
  timestamp_of = rt.parse_int (header_or_empty rt (codes "x-miss-bridge-timestamp") headers)

  authenticate-nonce :
      (current : ℕ) {nonce : Text}
      → authenticate rt max_age_ns current secret headers method target body ≡ ok nonce
      → nonce ≡ nonce_of
  unfolding authenticate
  authenticate-nonce current h = ground arith

  authenticate-timestamp :
      (current : ℕ) {nonce : Text}
      → authenticate rt max_age_ns current secret headers method target body ≡ ok nonce
      → (ts : ℤ) × (timestamp_of ≡ some ts) × (is_stale max_age_ns current ts ≡ false)
  unfolding authenticate
  authenticate-timestamp current h = elim (Option-cases timestamp_of) [
    | inl malformed ↦ absurd (ground arith)
    | inr (ts, e) ↦ (ts, e, ground arith)
  ]

  -- The clock takes part in the check by the freshness test alone.
  authenticate_again :
      (current later : ℕ) {nonce : Text} (ts : ℤ)
      → authenticate rt max_age_ns current secret headers method target body ≡ ok nonce
      → timestamp_of ≡ some ts
      → is_stale max_age_ns later ts ≡ false
      → authenticate rt max_age_ns later secret headers method target body ≡ ok nonce
  unfolding authenticate
  authenticate_again current later ts h e s = ground arith

  abbrev verify :
      (current clock : ℕ) → List BridgeRow → Result BridgeFault (Unit {0}) × List BridgeRow
  verify current clock rows =
      verify_bridge_headers rt max_age_ns current clock secret headers method target body rows

  authenticate-cases :
      (current : ℕ)
      → ((e : BridgeFault) × (authenticate rt max_age_ns current secret headers method target body
            ≡ err e))
        ⊎ (authenticate rt max_age_ns current secret headers method target body ≡ ok nonce_of)
  authenticate-cases current =
      go (authenticate rt max_age_ns current secret headers method target body) refl
    where
      go :
          (r : Result BridgeFault Text)
          → authenticate rt max_age_ns current secret headers method target body ≡ r
          → ((e : BridgeFault) × (authenticate rt max_age_ns current secret headers method target
                  body
                ≡ err e))
            ⊎ (authenticate rt max_age_ns current secret headers method target body ≡ ok nonce_of)
      go (err e) h = inl (e, h)
      go (ok nonce) h = inr (h ∙ ap ok (authenticate-nonce current h))

  -- An accepted request has passed the checks and has left its nonce behind.
  verify_accepted :
      (current clock : ℕ) (rows : List BridgeRow)
      → (verify current clock rows).0 ≡ ok tt
      → (authenticate rt max_age_ns current secret headers method target body ≡ ok nonce_of)
        × (keeps nonce_of (current + max_age_ns + skew_ns) (verify current clock rows).1 ≡ true)
  unfolding verify_bridge_headers
  verify_accepted current clock rows h = elim (authenticate-cases current) [
    | inl (e, refused) ↦ absurd (ground arith)
    | inr passed ↦ (
      passed,
      ground (arith, reserve_records nonce_of clock (current + max_age_ns + skew_ns) rows),
    )
  ]

  verify_accepted_reserve :
      (current clock : ℕ) (rows : List BridgeRow)
      → (verify current clock rows).0 ≡ ok tt
      → ((reserve clock nonce_of (current + max_age_ns + skew_ns) rows).0 ≡ true)
        × ((verify current clock rows).1
            ≡ (reserve clock nonce_of (current + max_age_ns + skew_ns) rows).1)
  unfolding verify_bridge_headers
  verify_accepted_reserve current clock rows h = elim (authenticate-cases current) [
    | inl (e, refused) ↦ absurd (ground arith)
    | inr passed ↦ ground arith
  ]

  verify_reserves :
      (current clock : ℕ) (rows : List BridgeRow)
      → authenticate rt max_age_ns current secret headers method target body ≡ ok nonce_of
      → (reserve clock nonce_of (current + max_age_ns + skew_ns) rows).0 ≡ true
      → (verify current clock rows).0 ≡ ok tt
  unfolding verify_bridge_headers
  verify_reserves current clock rows passed h = ground arith

  -- While the row of an accepted nonce is alive, the request is refused and the table unchanged.
  verify_refuses :
      (bound current clock : ℕ) (rows : List BridgeRow)
      → clock < bound
      → keeps nonce_of bound rows ≡ true
      → (e : BridgeFault) × (verify current clock rows ≡ (err e, rows))
  unfolding verify_bridge_headers
  verify_refuses bound current clock rows h k = elim (authenticate-cases current) [
    | inl (e, refused) ↦ (e, ground arith)
    | inr passed ↦ (
      replayed,
      ground
          (arith, reserve_refuses nonce_of bound clock (current + max_age_ns + skew_ns) rows h k),
    )
  ]

  -- A stale copy is refused too.
  verify_stale :
      (current clock : ℕ) (ts : ℤ) (rows : List BridgeRow)
      → timestamp_of ≡ some ts
      → is_stale max_age_ns current ts ≡ true
      → (e : BridgeFault) × (verify current clock rows ≡ (err e, rows))
  unfolding verify_bridge_headers
  verify_stale current clock ts rows e s = elim (authenticate-cases current) [
    | inl (f, refused) ↦ (f, ground arith)
    | inr passed ↦
        let (t, e', fresh) = authenticate-timestamp current passed in absurd (ground arith)
  ]

  -- Once a request is accepted, whatever other calls of the store follow, a copy of it is refused
  -- and changes nothing, if no clock that the store read is later than the copy's own, and if the
  -- copy's own reading is less than `(first + 2 s) - timestamp` after the reading `second` that its
  -- age is measured by.
  pub verify_no_replay :
      (first first_clock second second_clock : ℕ) (ts : ℤ) (rows : List BridgeRow)
      (calls : List StoreCall)
      → timestamp_of ≡ some ts
      → (verify first first_clock rows).0 ≡ ok tt
      → CallsBefore second_clock calls
      → pos_part ts + second_clock < first + second + skew_ns + neg_part ts
      → let after = run_calls calls (verify first first_clock rows).1 in
        (e : BridgeFault) × (verify second second_clock after ≡ (err e, after))
  unfolding is_stale
  verify_no_replay first first_clock second second_clock ts rows calls e accepted order slack =
      let after = run_calls calls (verify first first_clock rows).1 in
      elim (Bool-cases (is_stale max_age_ns second ts)) [
        | inl old ↦ verify_stale second second_clock ts after e old
        | inr fresh ↦
            let early : second_clock < first + max_age_ns + skew_ns = expiry_after fresh in
            verify_refuses (first + max_age_ns + skew_ns) second second_clock after early (
              run_calls_keeps nonce_of (first + max_age_ns + skew_ns) second_clock calls
                (verify first first_clock rows).1 early order
                (verify_accepted first first_clock rows accepted).1)
      ]
    where
      expiry_after :
          is_stale max_age_ns second ts ≡ false → second_clock < first + max_age_ns + skew_ns
      expiry_after fresh = ground arith

  -- After an accepted request, an immediate copy of it is accepted in turn exactly if its timestamp
  -- is still in the window of its own reading and the store's clock has reached the expiry
  -- of the nonce, `first + max_age + 2 s`.
  pub verify_copy_iff :
      (first first_clock second second_clock : ℕ) (ts : ℤ) (rows : List BridgeRow)
      → timestamp_of ≡ some ts
      → (verify first first_clock rows).0 ≡ ok tt
      → ((verify second second_clock (verify first first_clock rows).1).0 ≡ ok tt)
        ↔ ((is_stale max_age_ns second ts ≡ false) × (first + max_age_ns + skew_ns ≤ second_clock))
  verify_copy_iff first first_clock second second_clock ts rows e accepted =
      ((λ again. (still_fresh again, expired again)), λ (fresh, late). reopened fresh late)
    where
      after : List BridgeRow
      after = (verify first first_clock rows).1

      still_fresh :
          (verify second second_clock after).0 ≡ ok tt → is_stale max_age_ns second ts ≡ false
      still_fresh again = elim (Bool-cases (is_stale max_age_ns second ts)) [
        | inl old ↦
            let (f, refused) = verify_stale second second_clock ts after e old in
            absurd (ground arith)
        | inr fresh ↦ fresh
      ]

      expired :
          (verify second second_clock after).0 ≡ ok tt → first + max_age_ns + skew_ns ≤ second_clock
      expired again = elim (dec_le (first + max_age_ns + skew_ns) second_clock) [
        | yes late ↦ late
        | no early ↦
            let (f, refused) =
              verify_refuses (first + max_age_ns + skew_ns) second second_clock after (omega arith)
                (verify_accepted first first_clock rows accepted).1 in
            absurd (ground arith)
      ]

      reopened :
          is_stale max_age_ns second ts ≡ false
          → first + max_age_ns + skew_ns ≤ second_clock
          → (verify second second_clock after).0 ≡ ok tt
      reopened fresh late =
          let (recorded, same) = verify_accepted_reserve first first_clock rows accepted in
          verify_reserves second second_clock after
            (authenticate_again first second ts (verify_accepted first first_clock rows accepted).0
              e fresh)
            (rw same (
              reserve_again nonce_of first_clock (first + max_age_ns + skew_ns) second_clock
                (second + max_age_ns + skew_ns) rows recorded late))
