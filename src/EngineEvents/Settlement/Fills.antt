-- ===== src/EngineEvents/Settlement/Fills.antt =====
-- trade-settlement.service.ts: the two orders and the trade after a settlement that succeeds.
use hau_cex.Common.{
  ℕ, ◌≡◌, ◌≢◌, refl, ap, ◌∙◌, Bool, true, false, List, [], ◌∷◌, ◌++◌, Option, some, ℤ, ◌+ℤ◌, ◌-ℤ◌,
  ◌==◌, ==_iff, is_zero, Bool-cases, inl, inr, int_laws, arith,
}
use hau_cex.Platform.{Platform, FitsPrecision}
use hau_cex.Database.Schema.{Db, Order, OrderStatus, Trade, TradingPair}
use hau_cex.Database.Table.{
  find_first, update_first, exists, find_first_holds, find_first-update_self, find_first-update_ne,
}
use hau_cex.Database.Tx.{Tx, Error, ok, ◌>>◌, throw_if, modify}
use hau_cex.EngineEvents.Settlement.{
  TradeCreatedPayload, Fresh, pair_has_id, order_has_id, settle_between, settle_trade, trade_row,
  same_trade, fill_order, fill_status, quote_amount, move_funds, update_order,
}
use hau_cex.EngineEvents.Settlement.Orders.{book, move_funds-Keeps, settle_trade-at}

-- What a fill makes of an order: the executed quantity moves from remaining to filled, the amount
-- spent leaves the locked amount, and the order is FILLED exactly when nothing remains.
pub record IsFilledBy (executed spent : ℤ) (before after : Order) : Type 0 where
  pub same_order : after.id ≡ before.id
  pub conserved :
      after.filled_quantity +ℤ after.remaining_quantity
      ≡ before.filled_quantity +ℤ before.remaining_quantity
  pub executed_once : after.remaining_quantity ≡ before.remaining_quantity -ℤ executed
  pub unlocked : after.remaining_locked_amount ≡ before.remaining_locked_amount -ℤ spent
  pub done : before.remaining_quantity ≡ executed → after.status ≡ OrderStatus.filled
  pub partial : before.remaining_quantity ≢ executed → after.status ≡ OrderStatus.partially_filled

fill_status_done : (a b : ℤ) → a ≡ b → fill_status (a -ℤ b) ≡ OrderStatus.filled
fill_status_done a b e = rw e (grind int_laws)

fill_status_partial : (a b : ℤ) → a ≢ b → fill_status (a -ℤ b) ≡ OrderStatus.partially_filled
fill_status_partial a b ne = elim (Bool-cases (is_zero (a -ℤ b))) [
  | inl zero_left ↦ absurd (ne (grind int_laws))
  | inr more ↦ rw more
]

-- Two orders under different ids, each updated by its own id.
two_fills :
    (i j : ℕ) (f g : Order → Order) (os : List Order) (a b : Order)
    → ((o : Order) → (f o).id ≡ o.id)
    → ((o : Order) → (g o).id ≡ o.id)
    → (i == j) ≡ false
    → find_first (order_has_id i) os ≡ some a
    → find_first (order_has_id j) os ≡ some b
    → let os' = update_first (order_has_id b.id) g (update_first (order_has_id a.id) f os) in
      (find_first (order_has_id i) os' ≡ some (f a))
      × (find_first (order_has_id j) os' ≡ some (g b))
two_fills i j f g os a b fid gid apart ea eb =
    simp (own_a, own_b)
      (
        find_first-update_ne (order_has_id i) (order_has_id j) g _ (λ y. ground (arith, gid y))
              (λ y k. ground arith)
            ∙ find_first-update_self (order_has_id i) f os a (λ y. ground (arith, fid y)) ea,
        find_first-update_self (order_has_id j) g _ b (λ y. ground (arith, gid y))
            (find_first-update_ne (order_has_id j) (order_has_id i) f os
                (λ y. ground (arith, fid y)) (λ y k. ground arith)
              ∙ eb),
      )
  where
    own_a : a.id ≡ i
    own_a = (==_iff _ _).0 (find_first_holds (order_has_id i) os a ea)

    own_b : b.id ≡ j
    own_b = (==_iff _ _).0 (find_first_holds (order_has_id j) os b eb)

module _ (env : Platform) (treasury_user_id : Option ℕ) where
  -- The quantities of an order have at most 20 significant digits after the fill.
  abbrev pub FillsExactly : ℤ → Order → Type 0
  FillsExactly executed o =
      FitsPrecision (o.filled_quantity +ℤ executed)
      × FitsPrecision (o.remaining_quantity -ℤ executed)

  pub fill_order-IsFilledBy :
      (executed spent : ℤ) (o : Order)
      → FillsExactly executed o
      → IsFilledBy executed spent o (fill_order env treasury_user_id executed spent o o)
  fill_order-IsFilledBy executed spent o (plus_fits, minus_fits) =
      let added = env.plus_exact _ _ plus_fits in
      let taken = env.minus_exact _ _ minus_fits in
      record {
        same_order = refl;
        conserved = rw (added, taken) (omega int_laws);
        executed_once = taken;
        unlocked = refl;
        done = λ e. rw taken (fill_status_done _ _ e);
        partial = λ e. rw taken (fill_status_partial _ _ e);
      }

  inserted :
      (taken : Bool) (e : Error) (m k : Tx (Unit {0})) (db : Db) (b : List Order × List Trade)
      → (((throw_if taken e >> m) >> k) db).0 ≡ ok tt
      → book ((m >> k) db).1 ≡ b
      → book (((throw_if taken e >> m) >> k) db).1 ≡ b
  inserted true e m k db b h g = cc
  inserted false e m k db b h g = g

  after_book :
      (p : TradeCreatedPayload) (message_id : ℕ) (fresh : Fresh) (db : Db) (pair : TradingPair)
      (buy_order sell_order : Order)
      → let r =
          settle_between env treasury_user_id pair buy_order sell_order p message_id fresh db in
        let trade = trade_row env treasury_user_id pair buy_order sell_order p message_id fresh in
        r.0 ≡ ok tt
        → book r.1 ≡ (
          update_first
              (order_has_id sell_order.id)
              (fill_order env treasury_user_id p.executed_quantity p.executed_quantity sell_order)
              (update_first
                (order_has_id buy_order.id)
                (fill_order env treasury_user_id p.executed_quantity
                  (quote_amount env treasury_user_id p)
                  buy_order)
                db.orders),
          db.trades ++ trade ∷ [],
        )
  unfolding settle_between
  after_book p message_id fresh db pair buy_order sell_order h =
      inserted (exists (same_trade trade) db.trades) _
        (modify λ d. record d { trades = d.trades ++ trade ∷ [] })
        (update_order env t p.executed_quantity (quote_amount env t p) buy_order
          >> (update_order env t p.executed_quantity p.executed_quantity sell_order
              >> move_funds env t pair buy_order.user_id sell_order.user_id p trade.id fresh))
        db _ h
        ((move_funds-Keeps env t pair buy_order.user_id sell_order.user_id p trade.id fresh).same _)
    where
      t : Option ℕ
      t = treasury_user_id

      trade : Trade
      trade = trade_row env t pair buy_order sell_order p message_id fresh

  module _ (p : TradeCreatedPayload) (message_id : ℕ) (fresh : Fresh) (db : Db) where
    -- A settlement that succeeds, of a pair and two different orders that are there and whose new
    -- quantities are exact: each order is filled by the executed quantity and becomes FILLED if
    -- nothing of it remains, PARTIALLY_FILLED otherwise, whatever its status was; what it has locked
    -- falls by the quote amount for the buyer, by the executed quantity for the seller; and just the
    -- row of the trade is appended to the trades.
    pub settle_trade_fills :
        (pair : TradingPair) (buy_order sell_order : Order)
        → find_first (pair_has_id p.trading_pair_id) db.trading_pairs ≡ some pair
        → find_first (order_has_id p.buy_order_id) db.orders ≡ some buy_order
        → find_first (order_has_id p.sell_order_id) db.orders ≡ some sell_order
        → (p.buy_order_id == p.sell_order_id) ≡ false
        → FillsExactly p.executed_quantity buy_order
        → FillsExactly p.executed_quantity sell_order
        → (settle_trade env treasury_user_id p message_id fresh db).0 ≡ ok tt
        → let after = (settle_trade env treasury_user_id p message_id fresh db).1 in
          (bought : Order) × (sold : Order) × (find_first (order_has_id p.buy_order_id) after.orders
            ≡ some bought)
          × (find_first (order_has_id p.sell_order_id) after.orders ≡ some sold)
          × IsFilledBy p.executed_quantity (quote_amount env treasury_user_id p) buy_order bought
          × IsFilledBy p.executed_quantity p.executed_quantity sell_order sold
          × (after.trades
              ≡ db.trades
                ++ trade_row env treasury_user_id pair buy_order sell_order p message_id fresh ∷ [])
    settle_trade_fills pair buy_order sell_order fp fb fs apart xb xs h =
        let at = settle_trade-at env t p message_id fresh db pair buy_order sell_order fp fb fs in
        let both =
          two_fills p.buy_order_id p.sell_order_id (fill_order env t q quote buy_order)
            (fill_order env t q q sell_order) db.orders buy_order sell_order (λ y. refl) (λ y. refl)
            apart fb fs in
        let e = after_book p message_id fresh db pair buy_order sell_order (rw (← at) h) in
        rw at (
          fill_order env t q quote buy_order buy_order,
          fill_order env t q q sell_order sell_order,
          ap (λ b. find_first (order_has_id p.buy_order_id) b.0) e ∙ both.0,
          ap (λ b. find_first (order_has_id p.sell_order_id) b.0) e ∙ both.1,
          fill_order-IsFilledBy q quote buy_order xb,
          fill_order-IsFilledBy q q sell_order xs,
          ap (λ b. b.1) e,
        )
      where
        t : Option ℕ
        t = treasury_user_id

        q : ℤ
        q = p.executed_quantity

        quote : ℤ
        quote = quote_amount env t p
