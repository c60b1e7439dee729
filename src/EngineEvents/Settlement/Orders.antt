-- ===== src/EngineEvents/Settlement/Orders.antt =====
-- trade-settlement.service.ts: what a settlement does to the two orders and to the trades.
use hau_cex.Common.{ℕ, ◌≡◌, refl, List, Option, none, some, ℤ, pos, ltb_ℤ, arith}
use hau_cex.Platform.{Platform}
use hau_cex.Database.Schema.{Db, Wallet, Order, Trade, TradingPair, LedgerEntryType}
use hau_cex.Database.Table.{find_first}
use hau_cex.Database.Frame.{Keeps, Keeps-bind, Keeps-or_throw, Keeps-when}
use hau_cex.Database.Tx.{◌>>=◌, or_throw}
use hau_cex.Wallets.Balance.Movements.{Movement, move, move_cases}
use hau_cex.EngineEvents.Settlement.{
  TradeCreatedPayload, Fresh, owned_by, order_has_id, debit_user, credit_user, collect_fee,
  move_funds, find_or_create_treasury_wallet, upsert_wallet, find_wallet, settle_between,
  settle_trade, pair_has_id,
}
use hau_cex.EngineEvents.Settlement.Steps.{spending, crediting}

-- The orders and the trades.
abbrev pub book : Db → List Order × List Trade
book db = (db.orders, db.trades)

module _ (env : Platform) (treasury_user_id : Option ℕ) where
  move-Keeps : (m : Movement) → Keeps book (move env m)
  move-Keeps m = record {
    same = λ db. move_cases env (λ d. book d ≡ book db) m db refl λ w _. refl;
  }

  module _ (op trade_id : ℕ) where
    debit_user-Keeps :
        (user asset : ℕ) (amount : ℤ)
        → Keeps book (debit_user env treasury_user_id op trade_id user asset amount)
    unfolding debit_user move
    debit_user-Keeps user asset amount =
        Keeps-bind book (find_wallet user asset)
          (λ w. move env (spending env treasury_user_id op trade_id w.id amount))
          (Keeps-or_throw book (λ db. find_first (owned_by user asset) db.wallets) _)
          λ w. move-Keeps (spending env treasury_user_id op trade_id w.id amount)

    credit_user-Keeps :
        (user asset : ℕ) (amount : ℤ)
        → Keeps book (credit_user env treasury_user_id op trade_id user asset amount)
    unfolding credit_user move
    credit_user-Keeps user asset amount =
        Keeps-bind book (find_wallet user asset) (λ w. move env (settling w.id))
          (Keeps-or_throw book (λ db. find_first (owned_by user asset) db.wallets) _)
          λ w. move-Keeps (settling w.id)
      where
        settling : ℕ → Movement
        settling id =
            crediting env treasury_user_id op trade_id LedgerEntryType.trade_settlement id amount

    upsert_wallet-same :
        (id user asset : ℕ) (row : Option Wallet) (db : Db)
        → book (upsert_wallet id user asset row db).1 ≡ book db
    upsert_wallet-same id user asset (some w) db = refl
    upsert_wallet-same id user asset none db = ground arith

    treasury-Keeps :
        (id asset : ℕ) → Keeps book (find_or_create_treasury_wallet env treasury_user_id id asset)
    unfolding find_or_create_treasury_wallet
    treasury-Keeps id asset =
        Keeps-bind book (or_throw treasury_user_id _)
          (λ user db. upsert_wallet id user asset (find_first (owned_by user asset) db.wallets) db)
          (Keeps-or_throw book (λ _. treasury_user_id) _)
          λ user. record {
            same = λ db.
                upsert_wallet-same id user asset (find_first (owned_by user asset) db.wallets) db;
          }

    collect_fee-Keeps :
        (id asset : ℕ) (amount : ℤ)
        → Keeps book (collect_fee env treasury_user_id op trade_id id asset amount)
    unfolding collect_fee move
    collect_fee-Keeps id asset amount =
        Keeps-when book (ltb_ℤ (pos 0) amount)
          (find_or_create_treasury_wallet env treasury_user_id id asset >>= λ i.
            move env (taking i))
          (Keeps-bind book (find_or_create_treasury_wallet env treasury_user_id id asset)
            (λ i. move env (taking i)) (treasury-Keeps id asset) λ i. move-Keeps (taking i))
      where
        taking : ℕ → Movement
        taking i = crediting env treasury_user_id op trade_id LedgerEntryType.trading_fee i amount

  pub move_funds-Keeps :
      (pair : TradingPair) (buyer seller : ℕ) (p : TradeCreatedPayload) (trade_id : ℕ)
      (fresh : Fresh)
      → Keeps book (move_funds env treasury_user_id pair buyer seller p trade_id fresh)
  unfolding move_funds
  move_funds-Keeps pair buyer seller p trade_id fresh =
      let op = fresh.operation_id in
      Keeps-bind book _ _ (debit_user-Keeps op trade_id buyer pair.quote_asset_id _) λ _.
        Keeps-bind book _ _ (credit_user-Keeps op trade_id buyer pair.base_asset_id _) λ _.
          Keeps-bind book _ _ (debit_user-Keeps op trade_id seller pair.base_asset_id _) λ _.
            Keeps-bind book _ _ (credit_user-Keeps op trade_id seller pair.quote_asset_id _) λ _.
              Keeps-bind book _ _
                (collect_fee-Keeps op trade_id fresh.base_wallet_id pair.base_asset_id _)
                λ _. collect_fee-Keeps op trade_id fresh.quote_wallet_id pair.quote_asset_id _

module _ (env : Platform) (treasury_user_id : Option ℕ) (p : TradeCreatedPayload) where
  pub settle_trade-at :
      (message_id : ℕ) (fresh : Fresh) (db : Db) (pair : TradingPair) (buy_order sell_order : Order)
      → find_first (pair_has_id p.trading_pair_id) db.trading_pairs ≡ some pair
      → find_first (order_has_id p.buy_order_id) db.orders ≡ some buy_order
      → find_first (order_has_id p.sell_order_id) db.orders ≡ some sell_order
      → settle_trade env treasury_user_id p message_id fresh db
        ≡ settle_between env treasury_user_id pair buy_order sell_order p message_id fresh db
  unfolding settle_trade
  settle_trade-at message_id fresh db pair buy_order sell_order fp fb fs = ground arith
