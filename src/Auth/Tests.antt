-- ===== src/Auth/Tests.antt =====
-- Runs of the bridge authentication on small inputs, with stand-ins for the standard library.
use misscomputer_subnet.Prelude.{
  ℕ, zero, suc, ◌+◌, ◌-◌, ◌*◌, ◌≤◌, ◌<◌, ◌≡◌, refl, Text, codes, text_eq, text_eq_refl, true, false,
  Option, none, some, List, [], ◌∷◌, ◌++◌, map, arith, leb, if◌then◌else◌, ◌&&◌, ok, err, inr,
}
use misscomputer_subnet.Prelude.Int.{ℤ, pos}
use misscomputer_subnet.Prelude.Json.{Fields, Json, field, end, get}
use misscomputer_subnet.Auth.Store.{NonceRow, check_and_store, reserve}
use misscomputer_subnet.Auth.Bridge.{
  Runtime, BridgeFault, Headers, header, bridge_payload, bridge_headers, authenticate, is_stale,
  verify_bridge_headers,
}
use misscomputer_subnet.Auth.Replay.{StoreCall, run_calls}
use misscomputer_subnet.Auth.Window.{verify_no_replay, verify_copy_iff}
use misscomputer_subnet.Auth.Nonces.{run_nonces, check_and_store_once}
use misscomputer_subnet.Auth.Client.{
  Response, Answer, transport_error, other_exception, response, returned, raised, request_failed,
  request, response_error, read_answer,
}
use misscomputer_subnet.Auth.Client.Retries.{
  request_resends_iff, request_stops, request_exhausts, request_bounded,
}
use misscomputer_subnet.Auth.Binding.{
  Binding, Keys, expected_of, is_expected, sign_service_binding, verify_service_binding,
  verify-sign_iff, verify_service_binding_sound,
}

lower_code : ℕ → ℕ
lower_code c = if leb b'A' c && leb c b'Z' then c + 32 else c

upper_code : ℕ → ℕ
upper_code c = if leb b'a' c && leb c b'z' then c - 32 else c

digits_from : ℕ → Text → Option ℤ
digits_from acc [] = some (pos acc)
digits_from acc (c ∷ cs) =
    let rest = digits_from (acc * 10 + (c - b'0')) cs in
    if leb b'0' c && leb c b'9' then rest else none

abbrev test_runtime : Runtime
test_runtime = record {
  upper = map upper_code;
  lower = map lower_code;
  encode = λ t. t;
  parse_int = digits_from 0;
  sha256_hex = λ b. b;
  hmac_sha256_hex = λ key m. key ++ m;
}

abbrev test_secret : List ℕ
test_secret = codes "0123456789abcdef0123456789abcdef"

-- a request stamped 1 s ahead of its first verification at 5 s
abbrev test_headers : Headers
test_headers =
    (codes "X-Miss-Bridge-Version", codes "1")
    ∷ (codes "X-Miss-Bridge-Timestamp", codes "6000000000")
    ∷ (codes "X-Miss-Bridge-Nonce", codes "n1")
    ∷ (
      codes "X-Miss-Bridge-Signature",
      test_secret ++ codes "miss-bridge/1" ++ codes "\n6000000000\nn1\nGET\n/v1\nb",
    )
    ∷ []

program : Unit {0}
unfolding verify_bridge_headers authenticate header is_stale bridge_payload bridge_headers reserve
    text_eq lower_code upper_code digits_from check_and_store run_nonces run_calls request
    response_error read_answer get
program = tt

bridge_headers_signed :
    bridge_headers test_runtime test_secret
      (codes "get")
      (codes "/v1")
      (codes "b")
      (codes "6000000000")
      (codes "n1")
    ≡ ok test_headers
unfolding program
bridge_headers_signed = refl

first_accepted :
    verify_bridge_headers test_runtime 10000000000 5000000000 5000000000 test_secret test_headers
      (codes "get")
      (codes "/v1")
      (codes "b")
      []
    ≡ (ok tt, record { nonce = codes "n1"; expires_at_ns = 17000000000 } ∷ [])
unfolding program
first_accepted = refl

abbrev other_call : StoreCall
other_call = record { clock = 6000000000; nonce = codes "n2"; expires = 20000000000 }

verify_no_replay_example :
    let after =
      run_calls
        (other_call ∷ [])
        (record { nonce = codes "n1"; expires_at_ns = 17000000000 } ∷ []) in
    (e : BridgeFault) × (verify_bridge_headers test_runtime 10000000000 7000000000 7500000000
        test_secret test_headers
        (codes "get")
        (codes "/v1")
        (codes "b")
        after
      ≡ (err e, after))
unfolding program
verify_no_replay_example =
    verify_no_replay test_runtime 10000000000 test_secret test_headers (codes "get") (codes "/v1")
      (codes "b") 5000000000 5000000000 7000000000 7500000000 (pos 6000000000) [] (other_call ∷ [])
      refl refl (omega arith) (omega arith)

-- The copy is presented at 16 s, the last moment of its timestamp's window, and the store reads its
-- clock a second later.
verify_copy_iff_example :
    (verify_bridge_headers test_runtime 10000000000 16000000000 17000000000 test_secret test_headers
      (codes "get")
      (codes "/v1")
      (codes "b")
      (record { nonce = codes "n1"; expires_at_ns = 17000000000 } ∷ [])).0
    ≡ ok tt
unfolding program
verify_copy_iff_example =
    (verify_copy_iff test_runtime 10000000000 test_secret test_headers (codes "get") (codes "/v1")
        (codes "b") 5000000000 5000000000 16000000000 17000000000 (pos 6000000000) [] refl refl).1
      (refl, omega arith)

abbrev nonce_row : NonceRow
nonce_row = record { hotkey = codes "5F"; nonce_ns = 8; expires_at_ns = 160 }

check_and_store_once_example :
    check_and_store 60 120
      (codes "5F")
      8
      (record { hotkey = codes "5F"; nonce_ns = 9; expires_at_ns = 170 } ∷ nonce_row ∷ [])
    ≡ (false, record { hotkey = codes "5F"; nonce_ns = 9; expires_at_ns = 170 } ∷ nonce_row ∷ [])
unfolding program
check_and_store_once_example =
    check_and_store_once 60 (codes "5F") 8 100 120 []
      (record { clock = 110; hotkey = codes "5F"; nonce_ns = 9 } ∷ []) refl (omega arith)
      (omega arith)

abbrev busy_detail : Fields
busy_detail =
    field (codes "code") (Json.text (codes "busy"))
      (field (codes "retryable") (Json.boolean true) end)

abbrev busy : Response
busy = record {
  size = 70;
  status_code = 503;
  is_success = false;
  json = some (Json.object (field (codes "error") (Json.object busy_detail) end));
}

abbrev fine : Response
fine = record { size = 2; status_code = 200; is_success = true; json = some (Json.object end) }

abbrev status_text : ℕ → Text
status_text n = codes "5xx"

abbrev accept : Response → Option ℕ
accept r = some r.size

abbrev at : ℕ → Text
at k = codes "7"

-- The first attempt meets a busy server, the second is answered.
abbrev flaky : ℕ → Headers → Answer
flaky zero _ = response busy
flaky (suc k) _ = response fine

abbrev signed : Headers
signed =
    (codes "X-Miss-Bridge-Version", codes "1")
    ∷ (codes "X-Miss-Bridge-Timestamp", codes "7")
    ∷ (codes "X-Miss-Bridge-Nonce", codes "7")
    ∷ (codes "X-Miss-Bridge-Signature", test_secret ++ codes "miss-bridge/1\n7\n7\nGET\n/v1\n")
    ∷ []

-- The second attempt is sent as the first one met a busy server.
request_resends_iff_example :
    2
    ≤ (request status_text accept test_runtime test_secret
        (codes "get")
        (codes "/v1")
        []
        at
        at
        flaky
        3).1
unfolding program
request_resends_iff_example =
    (request_resends_iff status_text accept test_runtime test_secret (codes "get") (codes "/v1") []
        at at flaky (λ _. signed) 2 (λ _. refl)).1
      (inr (
        busy,
        refl,
        omega arith,
        refl,
        (field (codes "error") (Json.object busy_detail) end, busy_detail, refl, refl, refl),
      ))

-- An exception that is neither a transport error nor a timeout ends the call.
other_exception_ends :
    request status_text accept test_runtime test_secret
      (codes "get")
      (codes "/v1")
      []
      at
      at
      (λ _ _. other_exception)
      3
    ≡ (raised, 1)
unfolding program
other_exception_ends = refl

first_is_busy : (j : ℕ) → j < 1 → read_answer status_text accept (flaky j signed) ≡ none
unfolding program
first_is_busy zero h = refl
first_is_busy (suc j) h = absurd (omega arith)

request_stops_example :
    request status_text accept test_runtime test_secret (codes "get") (codes "/v1") [] at at flaky 3
    ≡ (returned 2, 2)
unfolding program
request_stops_example =
    request_stops status_text accept test_runtime test_secret (codes "get") (codes "/v1") [] at at
      flaky (λ _. signed) 3 1 (returned 2) (λ _. refl) (omega arith) first_is_busy refl

request_exhausts_example :
    request status_text accept test_runtime test_secret
      (codes "get")
      (codes "/v1")
      []
      at
      at
      (λ _ _. transport_error)
      1
    ≡ (request_failed, 2)
unfolding program
request_exhausts_example =
    request_exhausts status_text accept test_runtime test_secret (codes "get") (codes "/v1") [] at
      at (λ _ _. transport_error) (λ _. signed) 1 (λ _. refl) (λ _ _. refl)

request_bounded_example :
    (request status_text accept test_runtime test_secret
      (codes "get")
      (codes "/v1")
      []
      at
      at
      flaky
      2).1
    ≤ 3
request_bounded_example =
    request_bounded status_text accept test_runtime test_secret (codes "get") (codes "/v1") [] at at
      flaky 2

test_verifies : (m : List ℕ) → (text_eq m m && text_eq (codes "5F") (codes "5F")) ≡ true
test_verifies m = ground (arith, text_eq_refl m, text_eq_refl (codes "5F"))

abbrev test_keys : Keys
test_keys = record {
  address = codes "5F";
  sign = λ m. m;
  verify = λ m s who. text_eq m s && text_eq who (codes "5F");
  to_hex = λ b. b;
  from_hex = λ t. some t;
  payload = λ b. b.challenge;
  verify-sign = test_verifies;
  from_hex-to_hex = λ b. refl;
}

abbrev binding : Text → Binding
binding signature = record {
  hotkey = codes "5F";
  role = codes "miner";
  network = codes "finney";
  netuid = 24;
  challenge = codes "c1";
  transport = codes "https";
  transport_certificate_sha256 = some (codes "ab");
  valid_from_block = 10;
  expires_at_block = 20;
  claims = [];
  signature = signature;
}

verify-sign_iff_example :
    verify_service_binding test_keys (binding (codes "c1")) (expected_of (binding [])) 19 ≡ ok tt
unfolding sign_service_binding text_eq
verify-sign_iff_example =
    (verify-sign_iff test_keys (binding []) (binding (codes "c1")) 19 refl).1
      (omega arith, omega arith)

verify_service_binding_sound_example :
    (expected_of (binding (codes "c1")) ≡ expected_of (binding []))
    × (10 ≤ 12)
    × (12 < 20)
    × ((bytes : List ℕ) × (test_keys.from_hex (codes "c1") ≡ some bytes)
        × (test_keys.verify (codes "c1") bytes (codes "5F") ≡ true))
unfolding verify_service_binding is_expected text_eq
verify_service_binding_sound_example =
    verify_service_binding_sound test_keys (binding (codes "c1")) (expected_of (binding [])) 12 refl
