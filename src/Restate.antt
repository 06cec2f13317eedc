-- ===== src/Restate.antt =====
-- poc/restate: the saga and the actors on Restate.
pub mod Steps
pub mod Actor
pub mod Reads
pub mod Saga
pub mod Envelope
pub mod Contract
pub mod Lawful
pub mod Verdicts
