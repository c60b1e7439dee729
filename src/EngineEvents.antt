-- ===== src/EngineEvents.antt =====
-- apps/backend/src/modules/engine-events: what the backend does with the engine's events.
pub mod Settlement
pub mod Cancellation
pub mod Messages
pub mod Consumer
pub mod Loop
