-- ===== src/Core.antt =====
-- The domain model, internal/core: what the providers, the engine and the store exchange.
pub mod Float
pub mod Proof
pub mod Check
pub mod Run
pub mod Types
pub mod Errors
