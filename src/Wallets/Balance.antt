-- ===== src/Wallets/Balance.antt =====
-- apps/backend/src/modules/wallets/wallet-balance.service.ts: the five movements of money. The
-- balances of the row are changed by the database, exactly; the balances before and after that the
-- ledger records are computed by decimal.js.
pub mod Movements
pub mod Ledger
pub mod Totals
pub mod Outcome
use hau_cex.Common.{
  ℕ, Bool, not, List, [], ◌∷◌, ◌++◌, some, ℤ, pos, ◌+ℤ◌, ◌-ℤ◌, neg_ℤ, ltb_ℤ, leb_ℤ, ◌==◌,
  if◌then◌else◌,
}
use hau_cex.Platform.{Platform}
use hau_cex.Database.Exceptions.{insufficient_balance, invalid_amount, wallet_not_found}
use hau_cex.Database.Schema.{
  Db, Wallet, LedgerEntry, LedgerEntryType, LedgerBalanceType, ReferenceType,
}
use hau_cex.Database.Table.{find_first, update_first}
use hau_cex.Database.Tx.{Tx, Error, ◌>>=◌, ◌>>◌, pure, gets, or_throw, throw_if, modify}

-- `CreditParams`; `WalletMutationParams` is the same without the entry type, which only
-- `creditAvailable` and `debitAvailable` read.
pub record WalletMutationParams : Type 0 where
  pub wallet_id : ℕ
  pub amount : ℤ
  pub operation_id : ℕ
  pub reference_type : ReferenceType
  pub reference_id : ℕ

pub record CreditParams : Type 0 where
  pub base : WalletMutationParams
  pub entry_type : LedgerEntryType

abbrev pub has_id : ℕ → Wallet → Bool
has_id id w = w.id == id

-- `entry`.
abbrev pub entry :
    Wallet → WalletMutationParams → LedgerBalanceType → LedgerEntryType → ℤ → ℤ → ℤ → LedgerEntry
entry wallet p balance_type entry_type amount before_balance after_balance = record {
  wallet_id = wallet.id;
  user_id = wallet.user_id;
  asset_id = wallet.asset_id;
  entry_type = entry_type;
  balance_type = balance_type;
  amount = amount;
  before_balance = before_balance;
  after_balance = after_balance;
  reference_type = p.reference_type;
  reference_id = p.reference_id;
  operation_id = p.operation_id;
}

-- `validateAmount`.
abbrev pub validate_amount : ℤ → Tx (Unit {0})
validate_amount amount = throw_if (leb_ℤ amount (pos 0)) (Error.http invalid_amount)

-- `data: { availableBalance: { increment }, lockedBalance: { increment } }` on one row.
abbrev pub add_to_balances : ℤ → ℤ → Wallet → Wallet
add_to_balances available locked w = record w {
  available_balance = w.available_balance +ℤ available;
  locked_balance = w.locked_balance +ℤ locked;
}

-- `tx.wallet.update`.
abbrev pub update_wallet : ℕ → ℤ → ℤ → Tx (Unit {0})
update_wallet id available locked = modify λ db. record db {
  wallets = update_first (has_id id) (add_to_balances available locked) db.wallets;
}

-- `tx.ledgerEntry.create` and `createMany`.
abbrev pub create_entries : List LedgerEntry → Tx (Unit {0})
create_entries es = modify λ db. record db { ledger_entries = db.ledger_entries ++ es }

module _ (env : Platform) where
  open env use {plus, minus, uuid_text}

  -- `lockWallet` over `lockRow`: the row, locked until the transaction ends.
  abbrev pub lock_wallet : ℕ → Tx Wallet
  lock_wallet id = do
    row ← gets (λ db. find_first (has_id id) db.wallets)
    or_throw row (Error.http (wallet_not_found (some (uuid_text id))))

  -- `moveAvailableToLocked`.
  unfoldable pub move_available_to_locked : WalletMutationParams → Tx (Unit {0})
  move_available_to_locked p = do
    validate_amount p.amount
    w ← lock_wallet p.wallet_id
    throw_if (ltb_ℤ w.available_balance p.amount) (Error.http insufficient_balance)
    update_wallet p.wallet_id (neg_ℤ p.amount) p.amount
    create_entries (
        entry w p LedgerBalanceType.available LedgerEntryType.order_lock (neg_ℤ p.amount)
          w.available_balance (minus w.available_balance p.amount)
        ∷ entry w p LedgerBalanceType.locked LedgerEntryType.order_lock p.amount w.locked_balance
            (plus w.locked_balance p.amount)
        ∷ [])

  -- `moveLockedToAvailable`.
  unfoldable pub move_locked_to_available : WalletMutationParams → Tx (Unit {0})
  move_locked_to_available p = do
    validate_amount p.amount
    w ← lock_wallet p.wallet_id
    throw_if (ltb_ℤ w.locked_balance p.amount) (Error.http insufficient_balance)
    update_wallet p.wallet_id p.amount (neg_ℤ p.amount)
    create_entries (
        entry w p LedgerBalanceType.available LedgerEntryType.order_unlock p.amount
          w.available_balance (plus w.available_balance p.amount)
        ∷ entry w p LedgerBalanceType.locked LedgerEntryType.order_unlock (neg_ℤ p.amount)
            w.locked_balance (minus w.locked_balance p.amount)
        ∷ [])

  -- `creditAvailable`.
  unfoldable pub credit_available : CreditParams → Tx (Unit {0})
  credit_available c = do
    let p = c.base
    validate_amount p.amount
    w ← lock_wallet p.wallet_id
    update_wallet p.wallet_id p.amount (pos 0)
    create_entries (
        entry w p LedgerBalanceType.available c.entry_type p.amount w.available_balance
          (plus w.available_balance p.amount)
        ∷ [])

  -- `debitLocked`.
  unfoldable pub debit_locked : WalletMutationParams → Tx (Unit {0})
  debit_locked p = do
    validate_amount p.amount
    w ← lock_wallet p.wallet_id
    throw_if (ltb_ℤ w.locked_balance p.amount) (Error.http insufficient_balance)
    update_wallet p.wallet_id (pos 0) (neg_ℤ p.amount)
    create_entries (
        entry w p LedgerBalanceType.locked LedgerEntryType.trade_settlement (neg_ℤ p.amount)
          w.locked_balance (minus w.locked_balance p.amount)
        ∷ [])

  -- `debitAvailable`.
  unfoldable pub debit_available : CreditParams → Tx (Unit {0})
  debit_available c = do
    let p = c.base
    validate_amount p.amount
    w ← lock_wallet p.wallet_id
    throw_if (ltb_ℤ w.available_balance p.amount) (Error.http insufficient_balance)
    update_wallet p.wallet_id (neg_ℤ p.amount) (pos 0)
    create_entries (
        entry w p LedgerBalanceType.available c.entry_type (neg_ℤ p.amount) w.available_balance
          (minus w.available_balance p.amount)
        ∷ [])
