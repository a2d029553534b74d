-- ===== src/Evaluation.antt =====
-- evaluation/: the harness that runs the language model on test cases and compares what it called
-- with what was expected.
pub mod Retry
pub mod Concurrency
pub mod Tools
pub mod Values
pub mod Tests
