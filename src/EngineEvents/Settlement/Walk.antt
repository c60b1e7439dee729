-- ===== src/EngineEvents/Settlement/Walk.antt =====
-- trade-settlement.service.ts: a whole settlement, for a measured quantity.
use hau_cex.Common.{
  ℕ, ◌≡◌, sym, subst, ◌∙◌, [], ◌∷◌, ◌++◌, Option, some, some-injective, ℤ, pos, neg_ℤ, ◌+ℤ◌, ◌≤ℤ◌,
  int_laws,
}
use hau_cex.Platform.{Platform}
use hau_cex.Database.Schema.{Db, Order, Trade, TradingPair}
use hau_cex.Database.Table.{find_first, update_first, exists}
use hau_cex.Database.Tx.{Tx, Result, ok, err, ◌>>=◌, ◌>>◌, modify}
use hau_cex.EngineEvents.Settlement.{
  TradeCreatedPayload, Fresh, pair_has_id, order_has_id, move_funds, settle_between, settle_trade,
  trade_row, same_trade, find_order, update_order, fill_order, quote_amount, buyer_fee_amount,
  seller_fee_amount,
}
use hau_cex.EngineEvents.Settlement.Measure.{
  Measure, Adds, Shifts, Shifts-bind, found_row, unless_taken,
}
use hau_cex.EngineEvents.Settlement.Steps.{
  treasury_of, debit_user-Shifts, credit_user-Shifts, collect_fee-Shifts,
}

module _ (env : Platform) (treasury_user_id : Option ℕ) (p : TradeCreatedPayload) where
  abbrev pub FeesAreNonneg : TradingPair → Type 0
  FeesAreNonneg pair =
      (pos 0 ≤ℤ buyer_fee_amount env treasury_user_id pair p)
      × (pos 0 ≤ℤ seller_fee_amount env treasury_user_id pair p)

  -- The tables when the money starts to move.
  abbrev pub filled : TradingPair → Order → Order → ℕ → Fresh → Db → Db
  filled pair buy_order sell_order message_id fresh db = record db {
    trades =
        db.trades
        ++ trade_row env treasury_user_id pair buy_order sell_order p message_id fresh ∷ [];
    orders =
        update_first (order_has_id sell_order.id)
          (fill_order env treasury_user_id p.executed_quantity p.executed_quantity sell_order)
          (update_first (order_has_id buy_order.id)
            (fill_order env treasury_user_id p.executed_quantity
              (quote_amount env treasury_user_id p) buy_order)
            db.orders);
  }

module _ {env : Platform} (M : Measure env) (treasury_user_id : Option ℕ)
    (p : TradeCreatedPayload) where
  open M use {Valid, value, weight}

  -- What the movements of a settlement add up to, between a buyer and a seller.
  abbrev pub legs : TradingPair → ℕ → ℕ → ℤ
  legs pair buyer seller =
      let quote = quote_amount env treasury_user_id p in
      let buyer_fee = buyer_fee_amount env treasury_user_id pair p in
      let seller_fee = seller_fee_amount env treasury_user_id pair p in
      weight buyer pair.quote_asset_id (pos 0) (neg_ℤ quote)
      +ℤ (weight buyer pair.base_asset_id (env.minus p.executed_quantity buyer_fee) (pos 0)
          +ℤ (weight seller pair.base_asset_id (pos 0) (neg_ℤ p.executed_quantity)
              +ℤ (weight seller pair.quote_asset_id (env.minus quote seller_fee) (pos 0)
                  +ℤ (weight (treasury_of treasury_user_id) pair.base_asset_id buyer_fee (pos 0)
                      +ℤ weight (treasury_of treasury_user_id) pair.quote_asset_id seller_fee
                          (pos 0)))))

  move_funds-Shifts :
      (pair : TradingPair) (buyer seller trade_id : ℕ) (fresh : Fresh)
      → FeesAreNonneg env treasury_user_id p pair
      → Shifts M
          (legs pair buyer seller)
          (move_funds env treasury_user_id pair buyer seller p trade_id fresh)
  unfolding move_funds
  move_funds-Shifts pair buyer seller trade_id fresh (bf, sf) =
      let t = treasury_user_id in
      let op = fresh.operation_id in
      let q = pair.quote_asset_id in
      let b = pair.base_asset_id in
      Shifts-bind M _ _ _ _ (debit_user-Shifts M t op trade_id buyer q _) λ _.
        Shifts-bind M _ _ _ _ (credit_user-Shifts M t op trade_id buyer b _) λ _.
          Shifts-bind M _ _ _ _ (debit_user-Shifts M t op trade_id seller b _) λ _.
            Shifts-bind M _ _ _ _ (credit_user-Shifts M t op trade_id seller q _) λ _.
              Shifts-bind M _ _ _ _ (collect_fee-Shifts M t op trade_id fresh.base_wallet_id b _ bf)
                λ _. collect_fee-Shifts M t op trade_id fresh.quote_wallet_id q _ sf

  -- The fills make up for the movements.
  abbrev pub Balances : TradingPair → ℕ → Fresh → Db → Order → Order → Type 0
  Balances pair message_id fresh db buy_order sell_order =
      Valid (filled env treasury_user_id p pair buy_order sell_order message_id fresh db)
      × (value (filled env treasury_user_id p pair buy_order sell_order message_id fresh db)
            +ℤ legs pair buy_order.user_id sell_order.user_id
          ≡ value db)

  settle_between-Adds :
      (pair : TradingPair) (message_id : ℕ) (fresh : Fresh) (db : Db) (buy_order sell_order : Order)
      → FeesAreNonneg env treasury_user_id p pair
      → Balances pair message_id fresh db buy_order sell_order
      → Adds M
          (pos 0)
          db
          (settle_between env treasury_user_id pair buy_order sell_order p message_id fresh db)
  unfolding settle_between
  settle_between-Adds pair message_id fresh db buy_order sell_order fees (valid, balanced) =
      unless_taken M (pos 0) db (exists (same_trade trade) db.trades) _
        (modify λ d. record d { trades = d.trades ++ trade ∷ [] })
        (λ _.
          update_order env t p.executed_quantity (quote_amount env t p) buy_order
          >> (update_order env t p.executed_quantity p.executed_quantity sell_order
              >> move_funds env t pair buy_order.user_id sell_order.user_id p trade.id fresh))
        λ _.
          back (move_funds env t pair buy_order.user_id sell_order.user_id p trade.id fresh after) (
            move_funds-Shifts pair buy_order.user_id sell_order.user_id trade.id fresh fees after
              valid)
    where
      t : Option ℕ
      t = treasury_user_id

      trade : Trade
      trade = trade_row env t pair buy_order sell_order p message_id fresh

      after : Db
      after = filled env treasury_user_id p pair buy_order sell_order message_id fresh db

      back :
          (r : Result (Unit {0}) × Db)
          → Adds M (legs pair buy_order.user_id sell_order.user_id) after r
          → Adds M (pos 0) db r
      back (err e, last) h = tt
      back (ok x, last) h = (h.0, h.1 ∙ (balanced ∙ omega int_laws))

  pub settle_trade-Adds :
      (pair : TradingPair) (message_id : ℕ) (fresh : Fresh) (db : Db)
      → find_first (pair_has_id p.trading_pair_id) db.trading_pairs ≡ some pair
      → FeesAreNonneg env treasury_user_id p pair
      → ((buy_order sell_order : Order)
          → find_first (order_has_id p.buy_order_id) db.orders ≡ some buy_order
          → find_first (order_has_id p.sell_order_id) db.orders ≡ some sell_order
          → Balances pair message_id fresh db buy_order sell_order)
      → Adds M (pos 0) db (settle_trade env treasury_user_id p message_id fresh db)
  unfolding settle_trade
  settle_trade-Adds pair message_id fresh db found fees balances =
      found_row M (pos 0) db (find_first (pair_has_id p.trading_pair_id) db.trading_pairs) _
        (λ x. find_order env treasury_user_id p.buy_order_id >>= with_buyer x)
        λ x e.
          subst (λ y. Adds M (pos 0) db (buying y db)) (some-injective _ _ (sym found ∙ e))
            (found_row M (pos 0) db (find_first (order_has_id p.buy_order_id) db.orders) _
              (with_buyer pair)
              λ buy_order bought.
                found_row M (pos 0) db (find_first (order_has_id p.sell_order_id) db.orders) _
                  (between pair buy_order)
                  λ sell_order sold.
                    settle_between-Adds pair message_id fresh db buy_order sell_order fees
                      (balances buy_order sell_order bought sold))
    where
      between : TradingPair → Order → Order → Tx (Unit {0})
      between x buy_order sell_order =
          settle_between env treasury_user_id x buy_order sell_order p message_id fresh

      with_buyer : TradingPair → Order → Tx (Unit {0})
      with_buyer x buy_order =
          find_order env treasury_user_id p.sell_order_id >>= between x buy_order

      buying : TradingPair → Tx (Unit {0})
      buying x = find_order env treasury_user_id p.buy_order_id >>= with_buyer x
