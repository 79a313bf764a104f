-- ===== src/Ledger.antt =====
-- mini-ledger: the verification of a ledger's dump by its grader.
pub mod Replay
pub mod Verdict
mod Tests
