-- ===== src/Recur.antt =====
-- mini-recur: the evaluation of recurring rules that the golden scenarios are made by.
pub mod Evaluate
mod Tests
