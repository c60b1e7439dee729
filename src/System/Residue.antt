-- ===== src/System/Residue.antt =====
-- trade-settlement.service.ts with orders.service.ts: a buy order that is filled below its price.
use hau_cex.Common.{
  ℕ, ◌≡◌, ◌≢◌, true≢false, some-injective, refl, sym, ◌∙◌, false, Option, some, ℤ, pos, ◌-ℤ◌, ◌≤ℤ◌,
  ◌==◌, int_laws,
}
use hau_cex.Platform.{Platform}
use hau_cex.Database.Schema.{Db, Order, OrderStatus, TradingPair}
use hau_cex.Database.Table.{find_first}
use hau_cex.Database.Tx.{ok}
use hau_cex.EngineEvents.Settlement.{
  TradeCreatedPayload, Fresh, pair_has_id, order_has_id, settle_trade, quote_amount,
}
use hau_cex.EngineEvents.Settlement.Fills.{FillsExactly, settle_trade_fills}
use hau_cex.Orders.Commands as Commands
use hau_cex.Orders.Place.{PlaceOrderResult}
use hau_cex.Orders.Cancel.{cancel_order}
use hau_cex.Orders.Cancel.Effects.{cancel_order-requested}

-- No request cancels an order that is FILLED.
filled_stays :
    (user_id order_id : ℕ) (again : Commands.Fresh) (answer : PlaceOrderResult) (o : Order)
    (db : Db)
    → find_first (order_has_id order_id) db.orders ≡ some o
    → o.status ≡ OrderStatus.filled
    → (cancel_order user_id order_id again db).0 ≢ ok answer
filled_stays user_id order_id again answer o db fo done h =
    let (x, pair, fx, fp, own, may, e) =
      cancel_order-requested user_id order_id again db answer h in
    let same : x ≡ o = some-injective _ _ (sym fx ∙ fo) in
    true≢false (sym may ∙ rw (same, done) refl)

left_over : (x y : ℤ) → y ≤ℤ x -ℤ pos 1 → pos 1 ≤ℤ x -ℤ y
left_over x y h = omega int_laws

module _ (env : Platform) (treasury_user_id : Option ℕ) (p : TradeCreatedPayload) (message_id : ℕ)
    (fresh : Fresh) (db : Db) (pair : TradingPair) (buy_order sell_order : Order) where
  -- A settlement that fills up a buy order for less than the order has locked: the order is FILLED
  -- and keeps the difference locked, and no request can cancel it.
  pub filled_order_keeps_residue :
      find_first (pair_has_id p.trading_pair_id) db.trading_pairs ≡ some pair
      → find_first (order_has_id p.buy_order_id) db.orders ≡ some buy_order
      → find_first (order_has_id p.sell_order_id) db.orders ≡ some sell_order
      → (p.buy_order_id == p.sell_order_id) ≡ false
      → FillsExactly env treasury_user_id p.executed_quantity buy_order
      → FillsExactly env treasury_user_id p.executed_quantity sell_order
      → buy_order.remaining_quantity ≡ p.executed_quantity
      → quote_amount env treasury_user_id p ≤ℤ buy_order.remaining_locked_amount -ℤ pos 1
      → (settle_trade env treasury_user_id p message_id fresh db).0 ≡ ok tt
      → let after = (settle_trade env treasury_user_id p message_id fresh db).1 in
        (bought : Order) × (find_first (order_has_id p.buy_order_id) after.orders ≡ some bought)
        × (bought.status ≡ OrderStatus.filled)
        × (bought.remaining_locked_amount
            ≡ buy_order.remaining_locked_amount -ℤ quote_amount env treasury_user_id p)
        × (pos 1 ≤ℤ bought.remaining_locked_amount)
        × ((user_id : ℕ) (again : Commands.Fresh) (answer : PlaceOrderResult)
            → (cancel_order user_id p.buy_order_id again after).0 ≢ ok answer)
  filled_order_keeps_residue fp fb fs apart xb xs full cheap done =
      let (bought, sold, found, _, b, _, _) =
        settle_trade_fills env treasury_user_id p message_id fresh db pair buy_order sell_order fp
          fb fs apart xb xs done in
      (
        bought,
        found,
        b.done full,
        b.unlocked,
        rw b.unlocked (left_over buy_order.remaining_locked_amount _ cheap),
        λ user_id again answer.
            filled_stays user_id p.buy_order_id again answer bought
              (settle_trade env treasury_user_id p message_id fresh db).1 found (b.done full),
      )
