-- ===== src/Plan/Checks.antt =====
-- `_validate_text`, `_validate_network_identity` and `_conservative_expiry_limit` of
-- src/misscomputer_subnet/weight_plan.py. `urlsplit` is a parameter.
use misscomputer_subnet.Prelude.{
  ℕ, ◌+◌, ◌-◌, ◌*◌, ◌/◌, ◌^◌, Text, codes, text_eq, Bool, true, false, not, ◌&&◌, ◌||◌, Option,
  none, some, [], ◌∷◌, leb, ◌==◌, all, length, is_some, if◌then◌else◌, min, max,
}

abbrev pub max_block : ℕ
max_block = 2 ^ 63 - 1

abbrev pub max_version_key : ℕ
max_version_key = 2 ^ 64 - 1

abbrev pub max_neurons : ℕ
max_neurons = 65536

abbrev pub max_uid : ℕ
max_uid = 65535

-- A character from `!` to `~` is ASCII and no white space, so a text of such characters is its own
-- `strip()`.
abbrev pub is_graphic : ℕ → Bool
is_graphic c = leb 0x21 c && leb c 0x7e

unfoldable pub valid_text : ℕ → Text → Bool
valid_text maximum [] = false
valid_text maximum (c ∷ cs) = leb (length (c ∷ cs)) maximum && all is_graphic (c ∷ cs)

-- `needle in text` for the needle "://"
unfoldable pub has_scheme_mark : Text → Bool
has_scheme_mark [] = false
has_scheme_mark (a ∷ []) = false
has_scheme_mark (a ∷ b ∷ []) = false
has_scheme_mark (a ∷ b ∷ c ∷ rest) =
    (a == b':' && b == b'/' && c == b'/') || has_scheme_mark (b ∷ c ∷ rest)

-- `character.isalnum()` for ASCII, or `-` or `_`
abbrev pub is_alias_character : ℕ → Bool
is_alias_character c =
    (leb b'0' c && leb c b'9')
    || (leb b'a' c && leb c b'z')
    || (leb b'A' c && leb c b'Z')
    || c == b'-'
    || c == b'_'

-- What `urlsplit` and the properties of its result give; `port` is `none` where reading it raises.
pub record SplitUrl : Type 0 where
  pub scheme : Text
  pub netloc : Text
  pub hostname : Option Text
  pub username : Option Text
  pub password : Option Text
  pub path : Text
  pub query : Text
  pub fragment : Text
  pub port : Option (Option ℕ)

abbrev pub is_empty : Text → Bool
is_empty [] = true
is_empty (c ∷ cs) = false

abbrev pub ends_with_colon : Text → Bool
ends_with_colon [] = false
ends_with_colon (c ∷ []) = c == b':'
ends_with_colon (c ∷ d ∷ cs) = ends_with_colon (d ∷ cs)

abbrev pub valid_port : Option (Option ℕ) → Bool
valid_port none = false
valid_port (some none) = true
valid_port (some (some port)) = leb 1 port && leb port 65535

abbrev valid_endpoint : Option SplitUrl → Bool
valid_endpoint none = false
valid_endpoint (some u) =
    valid_port u.port
    && (text_eq u.scheme (codes "ws") || text_eq u.scheme (codes "wss"))
    && not (is_empty u.netloc)
    && is_some u.hostname
    && not (is_some u.username)
    && not (is_some u.password)
    && is_empty u.path
    && is_empty u.query
    && is_empty u.fragment
    && not (ends_with_colon u.netloc)

unfoldable pub valid_network : (Text → Option SplitUrl) → Text → Bool
unfolding valid_text has_scheme_mark
valid_network urlsplit network =
    valid_text 256 network
    && (if has_scheme_mark network
        then valid_endpoint (urlsplit network)
        else leb (length network) 64 && all is_alias_character network)

unfoldable pub expiry_limit : (block tempo : ℕ) → ℕ
expiry_limit block tempo =
    let epoch = block / tempo in
    let next_epoch_block = (epoch + 1) * tempo in
    let quarter_tempo_window = max 1 (tempo / 4) in
    min (min (block + quarter_tempo_window) next_epoch_block) max_block
