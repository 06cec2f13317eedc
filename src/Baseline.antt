-- ===== src/Baseline.antt =====
-- poc/baseline: the move in plain Python.
pub mod Actor
pub mod Completion
pub mod Effort
pub mod Saga
