-- ===== src/Organic.antt =====
-- Organic availability scoring (src/misscomputer_subnet/organic_scoring.py).
pub mod Types
pub mod Tally
pub mod Epoch
pub mod Window
pub mod Evidence
pub mod Score
pub mod Samples
mod Tests
