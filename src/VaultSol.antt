-- ===== src/VaultSol.antt =====
-- vaultdrop/gpt-5-6-sol/src/vaultdrop.py
pub mod Types
pub mod Action
pub mod Uploads
pub mod Finalize
pub mod Artifacts
pub mod Gc
pub mod Recover
pub mod Auth
pub mod Http
pub mod Invariant
mod Samples
mod Tests
