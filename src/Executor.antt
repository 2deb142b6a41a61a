-- ===== src/Executor.antt =====
-- The one-shot weight executor (src/misscomputer_subnet/weight_executor.py).
pub mod Types
pub mod Vector
pub mod Audit
pub mod Outside
pub mod Stages
pub mod Run
mod Tests
