-- ===== src/VaultQwen.antt =====
-- vaultdrop/qwen-v3/src: a second program for the specification of vaultdrop.
pub mod Types
pub mod Blobs
pub mod Claims
pub mod Uploads
pub mod Artifacts
pub mod Workers
pub mod Http
pub mod Routes
pub mod Recover
pub mod System
pub mod Valid
mod Tests
