-- ===== src/Seed.antt =====
-- apps/backend/prisma/seed.ts: the script that fills a database for development.
pub mod Rows
pub mod Balances
mod Accounts
pub mod Start
use hau_cex.Common.{
  Bool, true, false, not, ◌==◌, ◌||◌, String, str_eq, List, [], ◌∷◌, ◌++◌, filter, if◌then◌else◌,
}
use hau_cex.Database.Schema.{Db, LedgerEntry}
use hau_cex.Database.Tx.{Tx, Result, ◌>>=◌, ◌>>◌, modify, transaction}
use hau_cex.EngineEvents.Messages.{Redis}
use hau_cex.System.{System}
use hau_cex.Seed.Rows.{SeedValues, Seeded, seed_rows}
use hau_cex.Seed.Balances.{seed_balances}

-- `userId: { in: [treasury.id, alice.id, bob.id] }`.
abbrev pub is_entry_of : Seeded → LedgerEntry → Bool
is_entry_of r e = e.user_id == r.treasury || e.user_id == r.alice || e.user_id == r.bob

-- The `deleteMany` calls.
abbrev pub delete_rows : Seeded → Tx (Unit {0})
delete_rows r = modify λ db. record db {
  trades = [];
  orders = [];
  outbox_events = [];
  processed_events = [];
  ledger_entries = filter (λ e. not (is_entry_of r e)) db.ledger_entries;
}

-- `main`, on the database.
abbrev pub seed_db : SeedValues → Tx (Unit {0})
seed_db v = do r ← seed_rows v; delete_rows r; transaction (seed_balances v r)

-- `redis.del` of the streams and of the cached order book.
abbrev pub clean_redis : Redis → Redis
clean_redis redis = record {
  pending = [];
  cache = filter (λ e. not (str_eq e.0 "cache:orderbook:BTC_USDT")) redis.cache;
  market_events = [];
}

-- `main`. Where Redis is not up, its keys are left as they are. PostgreSQL and Redis are apart, so
-- that the keys are deleted between two statements of the database makes no difference.
unfoldable pub main : SeedValues → Bool → System → Result (Unit {0}) × System
main v redis_up s =
    let (result, db) = seed_db v s.db in
    (
      result,
      record {
        db = db;
        redis = if redis_up then clean_redis s.redis else s.redis;
        sent = if redis_up then [] else s.sent;
      },
    )
