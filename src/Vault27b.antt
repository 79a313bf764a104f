-- ===== src/Vault27b.antt =====
-- vaultdrop/qwen-3-8-27b-v2: a third program for the specification of vaultdrop, with optimistic claims.
pub mod Types
pub mod Claims
pub mod Transactions
pub mod Threads
pub mod Uploads
pub mod Recover
pub mod System
pub mod Counts
pub mod Bytes
mod Tests
pub mod Artifacts
pub mod Http
pub mod Routes
