-- ===== src/Backing.antt =====
-- The money that wallets hold locked, and the orders that it is locked for: the columns
-- `locked_balance` of apps/backend/prisma/schema.prisma and `remaining_locked_amount`, which
-- orders.service.ts, trade-settlement.service.ts and order-cancellation.service.ts change together.
pub mod Gap
pub mod Reserves
pub mod Trades
pub mod Cancellation
pub mod Placement
pub mod Messages
use hau_cex.Common.{
  ℕ, ◌≡◌, List, [], ◌∷◌, ℤ, pos, ◌+ℤ◌, ◌≤ℤ◌, ◌&&◌, ◌==◌, All, false, if◌then◌else◌,
}
use hau_cex.Database.Schema.{Db, Wallet}
use hau_cex.Database.Table.{exists}
use hau_cex.EngineEvents.Settlement.{owned_by}
use hau_cex.EngineEvents.Settlement.Validity.{IsValid}
use hau_cex.EngineEvents.Settlement.Measure.{Lock, locks_of}

-- What the wallets of a user hold locked of an asset.
abbrev pub locked_in : ℕ → ℕ → List Wallet → ℤ
locked_in user asset [] = pos 0
locked_in user asset (w ∷ ws) =
    (if owned_by user asset w then w.locked_balance else pos 0) +ℤ locked_in user asset ws

-- What the orders of a user still have locked of an asset.
abbrev pub reserved : ℕ → ℕ → List Lock → ℤ
reserved user asset [] = pos 0
reserved user asset (l ∷ ls) =
    (if l.0 == user && l.1 == asset then l.2 else pos 0) +ℤ reserved user asset ls

abbrev pub IsReserve : Lock → Type 0
IsReserve l = pos 0 ≤ℤ l.2

-- No user has two wallets of one asset: the unique key `userId_assetId`.
abbrev pub UniqueOwners : List Wallet → Type 0
UniqueOwners [] = Unit
UniqueOwners (w ∷ ws) = (exists (owned_by w.user_id w.asset_id) ws ≡ false) × UniqueOwners ws

-- A valid database in which no order has a negative amount locked, and each user's locked balance of
-- each asset is what the user's orders have locked of it.
pub record IsBacked (db : Db) : Type 0 where
  pub valid : IsValid db
  pub owners : UniqueOwners db.wallets
  pub reserves : All IsReserve (locks_of db)
  pub backed :
      (user asset : ℕ) → locked_in user asset db.wallets ≡ reserved user asset (locks_of db)
