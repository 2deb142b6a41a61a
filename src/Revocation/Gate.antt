-- ===== src/Revocation/Gate.antt =====
-- One run's offer of a snapshot to the durable high water: `_revocation_gate` and
-- `_install_revocation_high_water` of src/misscomputer_subnet/static_runtime.py. `verify` stands for
-- `verify_bound_static_site_release_revocation` under the run's policies; what the file system
-- answers is an argument.
pub mod Successor
pub mod Replaced
use misscomputer_subnet.Prelude.{
  ℕ, ◌*◌, Bool, true, false, Option, none, some, List, Result, ok, err, if◌then◌else◌,
}
use misscomputer_subnet.Revocation.{
  VerifiedRevocation, RevocationCode, FreshnessCode, revocation_stale, revocation_issued_in_future,
  advance_static_site_release_revocation, revocation_freshness,
}

pub data BoundCode : Type 0 where
  revocation_entry_unbound : BoundCode
  snapshot_refused : RevocationCode → BoundCode

-- The stored bytes of the high water, and the one that the run holds in memory.
pub record HighWaterState : Type 0 where
  pub disk : Option (List ℕ)
  pub held : Option VerifiedRevocation

-- `_load_unpinned_file` of the configured path, if there is one
pub data Offer : Type 0 where
  no_snapshot snapshot_unavailable snapshot_load_failed : Offer
  loaded : List ℕ → Offer

-- `install_document` returns, or raises before or after it has replaced the file.
pub data InstallAnswer : Type 0 where
  installed failed_before failed_after : InstallAnswer

pub data GateResult : Type 0 where
  passed unavailable withheld_unavailable withheld_in_future : GateResult
  refused : BoundCode → GateResult
  not_fresh : FreshnessCode → GateResult
  raised_load raised_high_water raised_install : GateResult

-- `MAX_MAX_AGE_SECONDS`
abbrev pub max_max_age_seconds : ℕ
max_max_age_seconds = 7 * 86400

-- after `advance_static_site_release_revocation(held, offered)`
unfoldable pub advance_disk :
    InstallAnswer
    → HighWaterState
    → Option VerifiedRevocation
    → List ℕ
    → VerifiedRevocation
    → Result RevocationCode Bool
    → Option GateResult × HighWaterState
advance_disk installed state held bytes offered (ok true) =
    (none, record { disk = some bytes; held = some offered })
advance_disk failed_before state held bytes offered (ok true) = (some raised_install, state)
advance_disk failed_after state held bytes offered (ok true) =
    (some raised_install, record { disk = some bytes; held = state.held })
advance_disk answer state held bytes offered (ok false) =
    (none, record { disk = state.disk; held = held })
advance_disk answer state held bytes offered (err e) = (some (refused (snapshot_refused e)), state)

-- the end of the gate, on the high water held in memory
unfoldable pub check_held : Option VerifiedRevocation → (now max_age : ℕ) → GateResult
check_held none now max_age = unavailable
check_held (some held) now max_age = elim (revocation_freshness held now max_age) [
  | none ↦ passed
  | some stale ↦ not_fresh stale
]

abbrev is_future : Option FreshnessCode → Bool
is_future (some revocation_issued_in_future) = true
is_future _ = false

module _ (verify : List ℕ → Result BoundCode VerifiedRevocation) where
  -- the stored high water, re-verified; `none` where that fails
  unfoldable pub read_high_water : Option (List ℕ) → Option (Option VerifiedRevocation)
  read_high_water none = some none
  read_high_water (some bytes) = elim (verify bytes) [ ok v ↦ some (some v) | err _ ↦ none ]

  -- `readable` is false where `read_document` raises
  unfoldable pub install_revocation_high_water :
      (readable : Bool)
      → InstallAnswer
      → HighWaterState
      → List ℕ
      → VerifiedRevocation
      → Option GateResult × HighWaterState
  install_revocation_high_water false answer state bytes offered = (some raised_high_water, state)
  install_revocation_high_water true answer state bytes offered =
      elim (read_high_water state.disk) [
        | none ↦ (some raised_high_water, state)
        | some held ↦
            advance_disk answer state held bytes offered
              (advance_static_site_release_revocation held offered)
      ]

  unfoldable pub offer_snapshot :
      (readable : Bool)
      → InstallAnswer
      → (now : ℕ) → HighWaterState
      → Offer
      → Option GateResult × HighWaterState
  offer_snapshot readable answer now state no_snapshot = (none, state)
  offer_snapshot readable answer now state snapshot_unavailable = (some withheld_unavailable, state)
  offer_snapshot readable answer now state snapshot_load_failed = (some raised_load, state)
  offer_snapshot readable answer now state (loaded bytes) = elim (verify bytes) [
    | err e ↦ (some (refused e), state)
    | ok offered ↦
        if is_future (revocation_freshness offered now max_max_age_seconds)
        then (some withheld_in_future, state)
        else install_revocation_high_water readable answer state bytes offered
  ]

  abbrev close_gate :
      (now max_age : ℕ) → Option GateResult × HighWaterState → GateResult × HighWaterState
  close_gate now max_age (some result, state) = (result, state)
  close_gate now max_age (none, state) = (check_held state.held now max_age, state)

  -- how the gate ends, and the high water after it
  unfoldable pub revocation_gate :
      (readable : Bool)
      → InstallAnswer
      → (now max_age : ℕ) → HighWaterState
      → Offer
      → GateResult × HighWaterState
  revocation_gate readable answer now max_age state offer =
      close_gate now max_age (offer_snapshot readable answer now state offer)
