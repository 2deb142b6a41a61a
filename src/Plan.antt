-- ===== src/Plan.antt =====
-- Weight plans (src/misscomputer_subnet/weight_plan.py).
pub mod Checks
pub mod Types
pub mod Identity
pub mod Expiry
pub mod Normalize
pub mod Build
