-- ===== src/Market.antt =====
-- apps/backend/src/modules/market: what the public sees of a market, and the fan-out to WebSockets.
pub mod Book
pub mod Service
pub mod Gateway
