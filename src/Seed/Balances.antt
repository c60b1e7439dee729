-- ===== src/Seed/Balances.antt =====
-- seed.ts: the wallets and their ledger entries.
use Prim.Native.Nat.{◌/◌, ◌%◌}
use hau_cex.Common.{ℕ, ◌+◌, ◌*◌, ◌^◌, List, [], ◌∷◌, ◌++◌, Option, none, some, ℤ, pos, neg_ℤ}
use hau_cex.Database.Schema.{Wallet, LedgerEntry, LedgerEntryType, LedgerBalanceType, ReferenceType}
use hau_cex.Database.Table.{find_first, update_first}
use hau_cex.Database.Tx.{Tx, ok, ◌>>=◌, ◌>>◌, gets, modify}
use hau_cex.EngineEvents.Settlement.{owned_by}
use hau_cex.Seed.Rows.{SeedValues, Seeded}

-- `opId` of a number below 100: its decimal digits are read as those of a uuid.
abbrev pub op_id : ℕ → ℕ
op_id n = n / 10 * 16 + n % 10

-- The uuids 01900000-0000-7000-8000-0000000000..: of two orders and a trade that are in no table.
abbrev pub fake_order_1 : ℕ
fake_order_1 = 2076918743414459965681651968806748161

abbrev pub fake_order_2 : ℕ
fake_order_2 = 2076918743414459965681651968806748162

abbrev pub fake_trade_1 : ℕ
fake_trade_1 = 2076918743414459965681651968806748177

-- `new Decimal('n')`, and `new Decimal('0.5')`.
abbrev pub whole : ℕ → ℤ
whole n = pos (n * 10 ^ 18)

abbrev pub half : ℤ
half = pos (5 * 10 ^ 17)

abbrev pub wallet_row : ℕ → ℕ → ℕ → ℤ → ℤ → Wallet
wallet_row id user asset free held = record {
  id = id;
  user_id = user;
  asset_id = asset;
  available_balance = free;
  locked_balance = held;
}

abbrev pub put_wallet : ℕ → ℕ → ℕ → ℤ → ℤ → Option Wallet → Tx ℕ
put_wallet id user asset free held none db =
    (ok id, record db { wallets = db.wallets ++ wallet_row id user asset free held ∷ [] })
put_wallet id user asset free held (some there) db = (
  ok there.id,
  record db {
    wallets =
        update_first (owned_by user asset)
          (λ w. record w { available_balance = free; locked_balance = held }) db.wallets;
  },
)

-- `wallet.upsert`: the id of the row.
abbrev pub upsert_wallet : ℕ → ℕ → ℕ → ℤ → ℤ → Tx ℕ
upsert_wallet id user asset free held = do
  there ← gets (λ db. find_first (owned_by user asset) db.wallets)
  put_wallet id user asset free held there

-- `ledgerEntry.createMany`.
abbrev pub create_entries : List LedgerEntry → Tx (Unit {0})
create_entries es = modify λ db. record db { ledger_entries = db.ledger_entries ++ es }

module _ (user asset wallet : ℕ) where
  abbrev entry :
      LedgerEntryType → LedgerBalanceType → ℤ → ℤ → ℤ → ReferenceType → ℕ → ℕ → LedgerEntry
  entry entry_type balance_type amount before after reference reference_id op = record {
    wallet_id = wallet;
    user_id = user;
    asset_id = asset;
    entry_type = entry_type;
    balance_type = balance_type;
    amount = amount;
    before_balance = before;
    after_balance = after;
    reference_type = reference;
    reference_id = reference_id;
    operation_id = op_id op;
  }

  abbrev system : ℤ → ℤ → ℕ → LedgerEntry
  system amount after op =
      entry LedgerEntryType.initial_balance LedgerBalanceType.available amount (whole 0) after
        ReferenceType.system user op

  abbrev pub treasury_usdt_entries : List LedgerEntry
  treasury_usdt_entries = system (whole 1000000) (whole 1000000) 1 ∷ []

  abbrev pub alice_usdt_entries : List LedgerEntry
  alice_usdt_entries =
      system (whole 10000) (whole 10000) 10
      ∷ entry LedgerEntryType.order_lock LedgerBalanceType.available (neg_ℤ (whole 5000))
          (whole 10000) (whole 5000) ReferenceType.order fake_order_1 11
      ∷ entry LedgerEntryType.order_lock LedgerBalanceType.locked (whole 5000) (whole 0)
          (whole 5000) ReferenceType.order fake_order_1 11
      ∷ entry LedgerEntryType.order_unlock LedgerBalanceType.locked (neg_ℤ (whole 2000))
          (whole 5000) (whole 3000) ReferenceType.order fake_order_1 12
      ∷ entry LedgerEntryType.order_unlock LedgerBalanceType.available (whole 2000) (whole 5000)
          (whole 7000) ReferenceType.order fake_order_1 12
      ∷ []

  abbrev pub alice_btc_entries : List LedgerEntry
  alice_btc_entries =
      system (whole 0) (whole 0) 13
      ∷ entry LedgerEntryType.trade_settlement LedgerBalanceType.available half (whole 0) half
          ReferenceType.trade fake_trade_1 14
      ∷ []

  abbrev pub bob_usdt_entries : List LedgerEntry
  bob_usdt_entries =
      system (whole 5000) (whole 5000) 20
      ∷ entry LedgerEntryType.trade_settlement LedgerBalanceType.available (whole 2000) (whole 5000)
          (whole 7000) ReferenceType.trade fake_trade_1 21
      ∷ entry LedgerEntryType.trading_fee LedgerBalanceType.available (neg_ℤ (whole 2)) (whole 7000)
          (whole 6998) ReferenceType.trade fake_trade_1 21
      ∷ entry LedgerEntryType.order_lock LedgerBalanceType.available (neg_ℤ (whole 1998))
          (whole 6998) (whole 5000) ReferenceType.order fake_order_2 22
      ∷ entry LedgerEntryType.order_lock LedgerBalanceType.locked (whole 1998) (whole 0)
          (whole 1998) ReferenceType.order fake_order_2 22
      ∷ []

  abbrev pub bob_btc_entries : List LedgerEntry
  bob_btc_entries =
      system (whole 1) (whole 1) 23
      ∷ entry LedgerEntryType.order_lock LedgerBalanceType.available (neg_ℤ half) (whole 1) half
          ReferenceType.order fake_order_1 24
      ∷ entry LedgerEntryType.order_lock LedgerBalanceType.locked half (whole 0) half
          ReferenceType.order fake_order_1 24
      ∷ entry LedgerEntryType.trade_settlement LedgerBalanceType.locked (neg_ℤ half) half (whole 0)
          ReferenceType.trade fake_trade_1 25
      ∷ []

-- The wallet of a user, and what the ledger says of it.
abbrev pub seed_wallet : ℕ → ℕ → ℕ → ℤ → ℤ → (ℕ → List LedgerEntry) → Tx (Unit {0})
seed_wallet id user asset free held entries = do
  w ← upsert_wallet id user asset free held
  create_entries (entries w)

abbrev pub treasury_usdt : SeedValues → Seeded → Tx (Unit {0})
treasury_usdt v r =
    seed_wallet v.treasury_usdt r.treasury r.usdt (whole 1000000) (whole 0)
      (treasury_usdt_entries r.treasury r.usdt)

abbrev pub alice_usdt : SeedValues → Seeded → Tx (Unit {0})
alice_usdt v r =
    seed_wallet v.alice_usdt r.alice r.usdt (whole 7000) (whole 3000)
      (alice_usdt_entries r.alice r.usdt)

abbrev pub alice_btc : SeedValues → Seeded → Tx (Unit {0})
alice_btc v r =
    seed_wallet v.alice_btc r.alice r.btc half (whole 0) (alice_btc_entries r.alice r.btc)

abbrev pub bob_usdt : SeedValues → Seeded → Tx (Unit {0})
bob_usdt v r =
    seed_wallet v.bob_usdt r.bob r.usdt (whole 5000) (whole 1998) (bob_usdt_entries r.bob r.usdt)

abbrev pub bob_btc : SeedValues → Seeded → Tx (Unit {0})
bob_btc v r = seed_wallet v.bob_btc r.bob r.btc half (whole 0) (bob_btc_entries r.bob r.btc)

-- The transaction of `main`.
abbrev pub seed_balances : SeedValues → Seeded → Tx (Unit {0})
seed_balances v r = do treasury_usdt v r; alice_usdt v r; alice_btc v r; bob_usdt v r; bob_btc v r
