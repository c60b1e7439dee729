-- ===== src/Terms/Trades.antt =====
-- trade-settlement.service.ts: the terms of the orders through a settlement.
use hau_cex.Common.{
  ℕ, ◌≡◌, ◌≢◌, refl, sym, subst, ap, Bool, true, false, List, [], ◌∷◌, ◌++◌, Option, none, some,
  inl, inr, ℤ, is_zero, Bool-cases,
}
use hau_cex.Platform.{Platform}
use hau_cex.Database.Schema.{Db, Order, OrderStatus, TradingPair}
use hau_cex.Database.Table.{find_first, update_first, exists}
use hau_cex.Database.Tx.{Tx, Error, ◌>>=◌, ◌>>◌, or_throw, throw_if, modify}
use hau_cex.EngineEvents.Settlement.{
  TradeCreatedPayload, Fresh, pair_has_id, order_has_id, settle_trade, settle_between, move_funds,
  fill_order, fill_status, quote_amount, trade_row, same_trade, update_order, find_order,
}
use hau_cex.EngineEvents.Settlement.Orders.{move_funds-Keeps}
use hau_cex.EngineEvents.Settlement.Walk.{filled}
use hau_cex.Terms.{Follows, Follows-refl, Follows-trans, update_first-Follows}

unless_known :
    (db : Db) (taken : Bool) (e : Error) (m k : Tx (Unit {0}))
    → Follows db.orders ((m >> k) db).1.orders
    → Follows db.orders (((throw_if taken e >> m) >> k) db).1.orders
unless_known db true e m k h = Follows-refl db.orders
unless_known db false e m k h = h

-- A row that is looked up, and may be missing.
pub found_row :
    {R : Type 0} (db : Db) (row : Option R) (e : Error) (k : R → Tx (Unit {0}))
    → ((w : R) → row ≡ some w → Follows db.orders (k w db).1.orders)
    → Follows db.orders ((or_throw row e >>= k) db).1.orders
found_row db none e k h = Follows-refl db.orders
found_row db (some w) e k h = h w refl

fill_status-not : (left : ℤ) → fill_status left ≢ OrderStatus.pending
fill_status-not left = elim (Bool-cases (is_zero left)) [
  | inl done ↦ rw done (λ e. cc)
  | inr more ↦ rw more (λ e. cc)
]

module _ (env : Platform) (treasury_user_id : Option ℕ) (p : TradeCreatedPayload) where
  module _ (pair : TradingPair) (message_id : ℕ) (fresh : Fresh) (db : Db)
      (buy_order sell_order : Order) where
    abbrev fill_buy : Order → Order
    fill_buy =
        fill_order env treasury_user_id p.executed_quantity (quote_amount env treasury_user_id p)
          buy_order

    abbrev fill_sell : Order → Order
    fill_sell = fill_order env treasury_user_id p.executed_quantity p.executed_quantity sell_order

    abbrev half : List Order
    half = update_first (order_has_id buy_order.id) fill_buy db.orders

    buys : Follows db.orders half
    buys =
        update_first-Follows buy_order.id fill_buy db.orders (λ o. refl)
          λ o. (
            refl,
            inr (fill_status-not (env.minus buy_order.remaining_quantity p.executed_quantity)),
          )

    sells :
        Follows half
          (filled env treasury_user_id p pair buy_order sell_order message_id fresh db).orders
    sells =
        update_first-Follows sell_order.id fill_sell half (λ o. refl)
          λ o. (
            refl,
            inr (fill_status-not (env.minus sell_order.remaining_quantity p.executed_quantity)),
          )

    settle_between-Follows :
        Follows db.orders
          (settle_between env treasury_user_id pair buy_order sell_order p message_id fresh
            db).1.orders
    unfolding settle_between
    settle_between-Follows =
        let t = treasury_user_id in
        let trade = trade_row env t pair buy_order sell_order p message_id fresh in
        let after = filled env t p pair buy_order sell_order message_id fresh db in
        let money = move_funds env t pair buy_order.user_id sell_order.user_id p trade.id fresh in
        unless_known db (exists (same_trade trade) db.trades) Error.unique_violation
          (modify λ d. record d { trades = d.trades ++ trade ∷ [] })
          (update_order env t p.executed_quantity (quote_amount env t p) buy_order
            >> (update_order env t p.executed_quantity p.executed_quantity sell_order >> money))
          (subst (λ os. Follows db.orders os)
            (sym (
              ap (λ b. b.0)
                ((move_funds-Keeps env t pair buy_order.user_id sell_order.user_id p trade.id
                    fresh).same
                  after)))
            (Follows-trans db.orders half after.orders buys sells))

  pub settle_trade-Follows :
      (message_id : ℕ) (fresh : Fresh) (db : Db)
      → Follows db.orders (settle_trade env treasury_user_id p message_id fresh db).1.orders
  unfolding settle_trade
  settle_trade-Follows message_id fresh db =
      found_row db (find_first (pair_has_id p.trading_pair_id) db.trading_pairs) _
        (λ pair. find_order env treasury_user_id p.buy_order_id >>= with_buyer pair)
        λ pair _.
          found_row db (find_first (order_has_id p.buy_order_id) db.orders) _ (with_buyer pair)
            λ buy_order bought.
              found_row db (find_first (order_has_id p.sell_order_id) db.orders) _
                (λ sell_order.
                  settle_between env treasury_user_id pair buy_order sell_order p message_id fresh)
                λ sell_order sold.
                  settle_between-Follows pair message_id fresh db buy_order sell_order
    where
      with_buyer : TradingPair → Order → Tx (Unit {0})
      with_buyer pair buy_order = find_order env treasury_user_id p.sell_order_id >>= λ sell_order.
          settle_between env treasury_user_id pair buy_order sell_order p message_id fresh
