-- ===== src/Inbox.antt =====
-- mini-inbox: the billing provider and the judgement of its grader.
pub mod Provider
pub mod Grader
mod Tests
