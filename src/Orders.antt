-- ===== src/Orders.antt =====
-- apps/backend/src/modules/orders.
pub mod Commands
pub mod Place
pub mod Cancel
pub mod Query
