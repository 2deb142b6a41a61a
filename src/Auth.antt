-- ===== src/Auth.antt =====
-- Bridge authentication and replay stores (src/misscomputer_subnet/auth.py).
mod Rows
pub mod Store
pub mod Nonces
pub mod Client
pub mod Binding
pub mod Bridge
pub mod Replay
pub mod Window
mod Tests
