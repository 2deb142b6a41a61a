-- ===== src/Plan/Types.antt =====
-- The frozen records of src/misscomputer_subnet/weight_plan.py; each `valid_` function is the
-- record's `__post_init__`, with `true` where it does not raise. `digest_sha256` is computed from
-- the other fields (`Executor.Env`).
use misscomputer_subnet.Prelude.{
  ℕ, ◌/◌, Text, text_eq, text_lt, Bool, not, ◌&&◌, ◌||◌, Option, List, ltb, leb, ◌==◌, all, any,
  map, distinct, length, if◌then◌else◌,
}
use misscomputer_subnet.Prelude.Floats.{Floats}
use misscomputer_subnet.Prelude.Sorting.{is_sorted}
use misscomputer_subnet.Plan.Checks.{
  valid_text, valid_network, SplitUrl, expiry_limit, max_block, max_version_key, max_uid,
}

pub record WeightPlanEntry : Type 0 where
  pub uid : ℕ
  pub hotkey : Text
  pub weight : ℕ

pub record WeightPlanSnapshot : Type 0 where
  pub block : ℕ
  pub tempo : ℕ
  pub epoch : ℕ
  pub finalized : Bool
  pub identity_fingerprint : Text

pub record WeightPlan : Type 0 where
  pub network : Text
  pub netuid : ℕ
  pub validator_hotkey : Text
  pub snapshot : WeightPlanSnapshot
  pub weights : List WeightPlanEntry
  pub version_key : ℕ
  pub created_block : ℕ
  pub expires_at_block : ℕ

abbrev pub valid_weight : Floats → ℕ → Bool
valid_weight fl w = fl.is_finite w && fl.lt_float fl.zero_float w && fl.le_float w fl.one_float

unfoldable pub valid_entry : Floats → WeightPlanEntry → Bool
valid_entry fl e = leb e.uid max_uid && valid_text 256 e.hotkey && valid_weight fl e.weight

abbrev is_hex : ℕ → Bool
is_hex c = (leb b'0' c && leb c b'9') || (leb b'a' c && leb c b'f')

-- 64 lower-case hexadecimal digits
abbrev pub is_digest : Text → Bool
is_digest t = length t == 64 && all is_hex t

unfoldable pub valid_snapshot : WeightPlanSnapshot → Bool
valid_snapshot s =
    leb s.block max_block
    && (leb 1 s.tempo && leb s.tempo max_block)
    && leb s.epoch max_block
    && s.epoch == s.block / s.tempo
    && s.finalized
    && is_digest s.identity_fingerprint

-- the key `(uid, hotkey)` of an entry comes before that of another
abbrev pub key_lt : ℕ → Text → ℕ → Text → Bool
key_lt u h v k = if u == v then text_lt h k else ltb u v

abbrev pub entry_before : WeightPlanEntry → WeightPlanEntry → Bool
entry_before a b = key_lt a.uid a.hotkey b.uid b.hotkey

abbrev pub nat_beq : ℕ → ℕ → Bool
nat_beq a b = a == b

-- Entries are canonical if sorting them changes nothing, that is if no entry comes before its
-- predecessor.
unfoldable pub valid_plan : Floats → (Text → Option SplitUrl) → WeightPlan → Bool
valid_plan fl urlsplit p =
    valid_network urlsplit p.network
    && leb p.netuid 65535
    && valid_text 256 p.validator_hotkey
    && leb p.version_key max_version_key
    && leb p.created_block max_block
    && leb p.expires_at_block max_block
    && p.created_block == p.snapshot.block
    && (ltb p.created_block p.expires_at_block
        && leb p.expires_at_block (expiry_limit p.snapshot.block p.snapshot.tempo))
    && not (length p.weights == 0)
    && is_sorted entry_before p.weights
    && distinct nat_beq (map (λ (e : WeightPlanEntry). e.uid) p.weights)
    && distinct text_eq (map (λ (e : WeightPlanEntry). e.hotkey) p.weights)
    && not (any (λ (e : WeightPlanEntry). text_eq e.hotkey p.validator_hotkey) p.weights)
    && fl.is_close_to_one (fl.fsum (map (λ (e : WeightPlanEntry). e.weight) p.weights))
