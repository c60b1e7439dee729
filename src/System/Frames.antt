-- ===== src/System/Frames.antt =====
-- The steps that touch no wallet, no ledger entry and no order.
use hau_cex.Common.{
  ℕ, ◌≡◌, refl, Bool, true, false, List, [], ◌∷◌, String, filter, arith, if◌then◌else◌,
}
use hau_cex.Platform.{Platform}
use hau_cex.Database.Schema.{Db, Wallet, LedgerEntry, Order, TradingPair}
use hau_cex.Database.Table.{exists}
use hau_cex.Database.Tx.{transaction, pure}
use hau_cex.Database.Frame.{Keeps, Keeps-bind, Keeps-transaction}
use hau_cex.Orders.Commands as Commands
use hau_cex.Bootstrap.{
  opens, is_recovering, create_command, open_market, open_markets, bootstrap_markets,
}
use hau_cex.Auth as Auth
use hau_cex.Auth.{AuthPlatform, RegisterDto, LoginDto, register, login, refresh, logout}

abbrev pub money : Db → List Wallet × List LedgerEntry × List Order
money db = (db.wallets, db.ledger_entries, db.orders)

module _ (env : Platform) where
  create_command-money :
      (t : TradingPair) (fresh : Commands.Fresh) (db : Db)
      → money (create_command env t fresh db).1 ≡ money db
  create_command-money t fresh db = ground arith

  open_market-Keeps :
      (t : TradingPair) (fresh : Commands.Fresh) → Keeps money (open_market env t fresh)
  unfolding open_market
  open_market-Keeps t fresh = record {
    same = λ db. either (exists (opens t.id) db.outbox_events) db;
  }
    where
      either :
          (c : Bool) (db : Db)
          → money ((if c then pure tt else create_command env t fresh) db).1 ≡ money db
      either true db = refl
      either false db = create_command-money t fresh db

  open_markets-Keeps :
      (fresh : ℕ → Commands.Fresh) (ts : List TradingPair) → Keeps money (open_markets env fresh ts)
  unfolding open_markets
  open_markets-Keeps fresh [] = record { same = λ db. refl }
  open_markets-Keeps fresh (t ∷ ts) =
      Keeps-bind money (transaction (open_market env t (fresh t.id)))
        (λ _. open_markets env fresh ts)
        (Keeps-transaction money (λ d o c. refl) (open_market env t (fresh t.id))
          (open_market-Keeps t (fresh t.id)))
        λ _. open_markets-Keeps fresh ts

  pub bootstrap_markets-money :
      (fresh : ℕ → Commands.Fresh) (db : Db) → money (bootstrap_markets env fresh db).1 ≡ money db
  unfolding bootstrap_markets
  bootstrap_markets-money fresh db =
      (open_markets-Keeps fresh (filter is_recovering db.trading_pairs)).same db

module _ (auth : AuthPlatform) where
  pub register-money :
      (dto : RegisterDto) (fresh : Auth.Fresh) (db : Db)
      → money (register auth dto fresh db).1 ≡ money db
  unfolding register
  register-money dto fresh db = ground arith

  pub login-money :
      (dto : LoginDto) (fresh : Auth.Fresh) (db : Db) → money (login auth dto fresh db).1 ≡ money db
  unfolding login
  login-money dto fresh db = ground arith

  pub refresh-money :
      (token : String) (fresh : Auth.Fresh) (db : Db)
      → money (refresh auth token fresh db).1 ≡ money db
  unfolding refresh
  refresh-money token fresh db = ground arith

  pub logout-money :
      (session_id now : ℕ) (db : Db) → money (logout auth session_id now db).1 ≡ money db
  unfolding logout
  logout-money session_id now db = refl
