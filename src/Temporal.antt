-- ===== src/Temporal.antt =====
-- poc/temporal: the activities, the entity workflows, and the proxy between a saga and an actor.
pub mod Engine
pub mod Activities
pub mod Actor
pub mod Proxy
pub mod Ids
pub mod Saga
pub mod Once
pub mod Executions
pub mod Handlers
pub mod Serving
pub mod Lawful
pub mod Verdicts
pub mod Effort
pub mod Coherence
pub mod Scripts
pub mod Locking
