-- ===== src/Publisher.antt =====
-- mini-publisher: the delivery receiver and the judgement of its grader.
pub mod Receiver
pub mod Grader
mod Tests
