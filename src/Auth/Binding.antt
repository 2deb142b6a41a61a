-- ===== src/Auth/Binding.antt =====
-- `sign_service_binding` and `verify_service_binding` (src/misscomputer_subnet/auth.py), and the
-- purpose-limited signer `HotkeySigningFacade`. Signatures and the signing payload are parameters.
use misscomputer_subnet.Prelude.{
  ℕ, ◌<◌, ◌≤◌, ◌≡◌, refl, ◌↔◌, Text, text_eq, text_eq_iff, text_eq_refl, Bool, true, false, not,
  ◌||◌, ◌&&◌, Option, none, some, List, [], arith, ltb, leb, ◌==◌, if◌then◌else◌, Result, ok, err,
  ◌>>=◌, ◌>>◌, raise_if,
}

-- the fields of `ServiceKeyBinding` that the two functions read; `claims` stands for the others,
-- which only the signing payload covers
pub record Binding : Type 0 where
  pub hotkey : Text
  pub role : Text
  pub network : Text
  pub netuid : ℕ
  pub challenge : Text
  pub transport : Text
  pub transport_certificate_sha256 : Option Text
  pub valid_from_block : ℕ
  pub expires_at_block : ℕ
  pub claims : List Text
  pub signature : Text

-- the keyword arguments `expected_*` of `verify_service_binding`
pub record Expected : Type 0 where
  pub hotkey : Text
  pub role : Text
  pub network : Text
  pub netuid : ℕ
  pub challenge : Text
  pub transport : Text
  pub transport_certificate_sha256 : Option Text

pub data BindingFault : Type 0 where
  wrong_wallet identity_mismatch not_current malformed invalid : BindingFault

abbrev pub option_eq : Option Text → Option Text → Bool
option_eq none none = true
option_eq (some a) (some b) = text_eq a b
option_eq _ _ = false

-- The key pair behind a hotkey: `signer.sign`, `sp_core.verify`, `bytes.hex`, `bytes.fromhex` after
-- `removeprefix("0x")`, and `ServiceKeyBinding.signing_payload`. That a signature verifies under
-- its own hotkey, and that hex text decodes to what it was made of, is documented behaviour.
pub record Keys : Type 0 where
  pub address : Text
  pub sign : List ℕ → List ℕ
  pub verify : List ℕ → List ℕ → Text → Bool
  pub to_hex : List ℕ → Text
  pub from_hex : Text → Option (List ℕ)
  pub payload : Binding → List ℕ
  pub verify-sign : (m : List ℕ) → verify m (sign m) address ≡ true
  pub from_hex-to_hex : (b : List ℕ) → from_hex (to_hex b) ≡ some b

unfoldable pub is_expected : Binding → Expected → Bool
is_expected b e =
    text_eq b.hotkey e.hotkey
    && text_eq b.role e.role
    && text_eq b.network e.network
    && b.netuid == e.netuid
    && text_eq b.challenge e.challenge
    && text_eq b.transport e.transport
    && option_eq b.transport_certificate_sha256 e.transport_certificate_sha256

abbrev read_signature : Option (List ℕ) → Result BindingFault (List ℕ)
read_signature none = err malformed
read_signature (some bytes) = ok bytes

-- what a binding claims, as the caller expects it
abbrev pub expected_of : Binding → Expected
expected_of b = record {
  hotkey = b.hotkey;
  role = b.role;
  network = b.network;
  netuid = b.netuid;
  challenge = b.challenge;
  transport = b.transport;
  transport_certificate_sha256 = b.transport_certificate_sha256;
}

option_eq_refl : (o : Option Text) → option_eq o o ≡ true
option_eq_refl none = refl
option_eq_refl (some a) = text_eq_refl a

option_eq_iff : (a b : Option Text) → (option_eq a b ≡ true) ↔ (a ≡ b)
option_eq_iff none none = ground arith
option_eq_iff none (some y) = ground arith
option_eq_iff (some x) none = ground arith
option_eq_iff (some x) (some y) = ground (arith, text_eq_iff x y)

is_expected-eq : (b : Binding) (e : Expected) → is_expected b e ≡ true → expected_of b ≡ e
unfolding is_expected
is_expected-eq b e h = ground (
  arith,
  text_eq_iff b.hotkey e.hotkey,
  text_eq_iff b.role e.role,
  text_eq_iff b.network e.network,
  text_eq_iff b.challenge e.challenge,
  text_eq_iff b.transport e.transport,
  option_eq_iff b.transport_certificate_sha256 e.transport_certificate_sha256,
)

is_expected_refl : (b : Binding) → is_expected b (expected_of b) ≡ true
unfolding is_expected
is_expected_refl b = simp (text_eq_refl, option_eq_refl) (ground arith)

module _ (keys : Keys) where
  abbrev unsigned : Binding → Binding
  unsigned b = record b { signature = [] }

  -- `HotkeySigningFacade.sign_service_binding`; the resolved branch of `sign_service_binding` makes
  -- the same checks in the same order
  unfoldable pub sign_service_binding : Binding → Result BindingFault Binding
  sign_service_binding b =
      if not (text_eq b.hotkey keys.address)
      then err wrong_wallet
      else ok (record b { signature = keys.to_hex (keys.sign (keys.payload (unsigned b))) })

  unfoldable pub verify_service_binding :
      Binding → Expected → (current_block : ℕ) → Result BindingFault (Unit {0})
  verify_service_binding b e current_block = do
    raise_if (not (is_expected b e)) identity_mismatch
    raise_if (ltb current_block b.valid_from_block || leb b.expires_at_block current_block)
        not_current
    signature ← read_signature (keys.from_hex b.signature)
    raise_if (not (keys.verify (keys.payload (unsigned b)) signature b.hotkey)) invalid

  -- A binding that the wallet has signed verifies, against its own claims, at exactly the blocks
  -- from its first block up to the one before its expiry.
  pub verify-sign_iff :
      (b s : Binding) (current_block : ℕ)
      → sign_service_binding b ≡ ok s
      → (verify_service_binding s (expected_of b) current_block ≡ ok tt)
        ↔ ((b.valid_from_block ≤ current_block) × (current_block < b.expires_at_block))
  unfolding sign_service_binding verify_service_binding
  verify-sign_iff b s current_block h =
      let signature = keys.sign (keys.payload (unsigned b)) in
      ground (
        arith,
        is_expected_refl s,
        text_eq_iff b.hotkey keys.address,
        keys.verify-sign (keys.payload (unsigned b)),
        keys.from_hex-to_hex signature,
      )

  -- An accepted binding names what was expected, is current, and carries a signature of its hotkey
  -- over its own claims.
  pub verify_service_binding_sound :
      (b : Binding) (e : Expected) (current_block : ℕ)
      → verify_service_binding b e current_block ≡ ok tt
      → (expected_of b ≡ e)
        × (b.valid_from_block ≤ current_block)
        × (current_block < b.expires_at_block)
        × ((bytes : List ℕ) × (keys.from_hex b.signature ≡ some bytes)
            × (keys.verify (keys.payload (unsigned b)) bytes b.hotkey ≡ true))
  unfolding verify_service_binding
  verify_service_binding_sound b e current_block h = ground (arith, is_expected-eq b e)
