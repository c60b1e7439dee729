-- ===== src/Tests.antt =====
-- The theorems at concrete inputs.
mod Wallets
mod Trades
mod Orders
mod Consumer
mod Outbox
mod Markets
mod Tokens
mod Auth
mod Pages
mod System
mod Queries
mod Seed
