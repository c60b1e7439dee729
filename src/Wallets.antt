-- ===== src/Wallets.antt =====
-- apps/backend/src/modules/wallets.
pub mod Balance
pub mod Query
