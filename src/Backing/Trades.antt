-- ===== src/Backing/Trades.antt =====
-- trade-settlement.service.ts: a settlement takes from the locked balances what it takes from the
-- locks of the two orders.
use hau_cex.Common.{
  ℕ, ◌≡◌, refl, sym, subst, ap, ◌∙◌, pos_part, neg_part, Bool, true, false, List, Option, some, map,
  ℤ, pos, neg_ℤ, ◌+ℤ◌, ◌-ℤ◌, ◌≤ℤ◌, ◌&&◌, ◌==◌, All, if◌then◌else◌, int_laws, arith,
}
use hau_cex.Platform.{Platform}
use hau_cex.Database.Schema.{Db, Order, TradingPair}
use hau_cex.Database.Table.{find_first, update_first, find_first-update_ne}
use hau_cex.EngineEvents.Settlement.{
  TradeCreatedPayload, Fresh, pair_has_id, order_has_id, settle_trade, fill_order, quote_amount,
}
use hau_cex.EngineEvents.Settlement.Measure.{Adds, lock_of, locks_of}
use hau_cex.EngineEvents.Settlement.Walk.{FeesAreNonneg, Balances, filled, legs, settle_trade-Adds}
use hau_cex.EngineEvents.Cancellation.Effects.{own_id}
use hau_cex.Backing.{locked_in, reserved, IsReserve}
use hau_cex.Backing.Gap.{IsSound, gap, gaps, counted_at, if-nothing}
use hau_cex.Backing.Reserves.{reserved-update, reserves-update}

-- The two locked balances fall by what the two locks fall.
fills_balance :
    (c d : Bool) (l r₀ r₁ r₂ bought sold quote quantity : ℤ)
    → r₁ +ℤ (if c then bought else pos 0) ≡ r₀ +ℤ (if c then bought -ℤ quote else pos 0)
    → r₂ +ℤ (if d then sold else pos 0) ≡ r₁ +ℤ (if d then sold -ℤ quantity else pos 0)
    → (l -ℤ r₂)
        +ℤ ((if c then neg_ℤ quote else pos 0)
            +ℤ (pos 0 +ℤ ((if d then neg_ℤ quantity else pos 0) +ℤ (pos 0 +ℤ (pos 0 +ℤ pos 0)))))
      ≡ l -ℤ r₀
fills_balance true true l r₀ r₁ r₂ b s x y e f =
    omega (int_laws, ap pos_part e, ap neg_part e, ap pos_part f, ap neg_part f)
fills_balance true false l r₀ r₁ r₂ b s x y e f =
    omega (int_laws, ap pos_part e, ap neg_part e, ap pos_part f, ap neg_part f)
fills_balance false true l r₀ r₁ r₂ b s x y e f =
    omega (int_laws, ap pos_part e, ap neg_part e, ap pos_part f, ap neg_part f)
fills_balance false false l r₀ r₁ r₂ b s x y e f =
    omega (int_laws, ap pos_part e, ap neg_part e, ap pos_part f, ap neg_part f)

-- How the update of one order, `before` and `after`, shows in what is reserved, if its asset is `i`.
abbrev AtAsset : ℕ → ℕ → ℕ → List Order → List Order → Order → Order → Type 0
AtAsset u a i os os' before after =
    reserved u a (map lock_of os') +ℤ counted_at u a before.user_id i before.remaining_locked_amount
    ≡ reserved u a (map lock_of os) +ℤ counted_at u a before.user_id i after.remaining_locked_amount

module _ (env : Platform) (treasury_user_id : Option ℕ) (p : TradeCreatedPayload) where
  abbrev quote : ℤ
  quote = quote_amount env treasury_user_id p

  -- The engine's trade is between two orders of the pair, one that has locked the quote asset and one
  -- that has locked the base asset, and neither pays more than it has locked.
  pub record IsCovered (pair : TradingPair) (db : Db) : Type 0 where
    pub apart : (p.buy_order_id == p.sell_order_id) ≡ false
    pub bought :
        (o : Order)
        → find_first (order_has_id p.buy_order_id) db.orders ≡ some o
        → (o.locked_asset_id ≡ pair.quote_asset_id) × (quote ≤ℤ o.remaining_locked_amount)
    pub sold :
        (o : Order)
        → find_first (order_has_id p.sell_order_id) db.orders ≡ some o
        → (o.locked_asset_id ≡ pair.base_asset_id)
          × (p.executed_quantity ≤ℤ o.remaining_locked_amount)

  module _ (pair : TradingPair) (db : Db) (buy_order sell_order : Order)
      (found_buy : find_first (order_has_id p.buy_order_id) db.orders ≡ some buy_order)
      (found_sell : find_first (order_has_id p.sell_order_id) db.orders ≡ some sell_order)
      (covered : IsCovered pair db) where
    abbrev fill_buy : Order → Order
    fill_buy = fill_order env treasury_user_id p.executed_quantity quote buy_order

    abbrev fill_sell : Order → Order
    fill_sell = fill_order env treasury_user_id p.executed_quantity p.executed_quantity sell_order

    -- The orders after the first of the two updates.
    abbrev half : List Order
    half = update_first (order_has_id buy_order.id) fill_buy db.orders

    buy_id : buy_order.id ≡ p.buy_order_id
    buy_id = own_id p.buy_order_id buy_order db.orders found_buy

    sell_id : sell_order.id ≡ p.sell_order_id
    sell_id = own_id p.sell_order_id sell_order db.orders found_sell

    by_id : find_first (order_has_id buy_order.id) db.orders ≡ some buy_order
    by_id =
        subst (λ i. find_first (order_has_id i) db.orders ≡ some buy_order) (sym buy_id) found_buy

    sell_untouched : find_first (order_has_id sell_order.id) half ≡ some sell_order
    sell_untouched =
        find_first-update_ne (order_has_id sell_order.id) (order_has_id buy_order.id) fill_buy
          db.orders (λ y. refl) (λ y k. ground (arith, covered.apart, buy_id, sell_id))
        ∙ subst (λ i. find_first (order_has_id i) db.orders ≡ some sell_order) (sym sell_id)
            found_sell

    left_of : (x y : ℤ) → x ≤ℤ y → pos 0 ≤ℤ y -ℤ x
    left_of x y h = omega int_laws

    filled_reserves :
        (message_id : ℕ) (fresh : Fresh)
        → All IsReserve (locks_of db)
        → All IsReserve
            (locks_of (filled env treasury_user_id p pair buy_order sell_order message_id fresh db))
    filled_reserves message_id fresh r =
        reserves-update sell_order.id fill_sell sell_order half sell_untouched
          (left_of _ _ (covered.sold sell_order found_sell).1)
          (reserves-update buy_order.id fill_buy buy_order db.orders by_id
            (left_of _ _ (covered.bought buy_order found_buy).1) r)

    gap-filled :
        (u a message_id : ℕ) (fresh : Fresh)
        → gap env u a (filled env treasury_user_id p pair buy_order sell_order message_id fresh db)
            +ℤ legs (gaps env u a) treasury_user_id p pair buy_order.user_id sell_order.user_id
          ≡ gap env u a db
    gap-filled u a message_id fresh =
        let bought = (covered.bought buy_order found_buy).0 in
        let sold = (covered.sold sell_order found_sell).0 in
        simp if-nothing (
          fills_balance (buy_order.user_id == u && pair.quote_asset_id == a)
            (sell_order.user_id == u && pair.base_asset_id == a) (locked_in u a db.wallets)
            (reserved u a (locks_of db)) (reserved u a (map lock_of half)) _
            buy_order.remaining_locked_amount sell_order.remaining_locked_amount quote
            p.executed_quantity
            (subst (λ i. AtAsset u a i db.orders half buy_order (fill_buy buy_order)) bought
              (reserved-update buy_order.id fill_buy buy_order u a db.orders by_id refl refl))
            (subst
              (λ i.
                AtAsset u a i half (update_first (order_has_id sell_order.id) fill_sell half)
                  sell_order (fill_sell sell_order))
              sold
              (reserved-update sell_order.id fill_sell sell_order u a half sell_untouched refl
                refl)))

    filled-Balances :
        (u a message_id : ℕ) (fresh : Fresh)
        → IsSound db
        → Balances (gaps env u a) treasury_user_id p pair message_id fresh db buy_order sell_order
    filled-Balances u a message_id fresh v = (
      record {
        valid = record {
          unique = v.valid.unique;
          solvent = v.valid.solvent;
          matches = v.valid.matches;
        };
        owners = v.owners;
        reserves = filled_reserves message_id fresh v.reserves;
      },
      gap-filled u a message_id fresh,
    )

  -- A settlement of a covered trade leaves every gap as it is.
  pub settle_trade-gap :
      (pair : TradingPair) (message_id : ℕ) (fresh : Fresh) (u a : ℕ) (db : Db)
      → find_first (pair_has_id p.trading_pair_id) db.trading_pairs ≡ some pair
      → FeesAreNonneg env treasury_user_id p pair
      → IsCovered pair db
      → IsSound db
      → Adds (gaps env u a) (pos 0) db (settle_trade env treasury_user_id p message_id fresh db)
  settle_trade-gap pair message_id fresh u a db found fees covered v =
      settle_trade-Adds (gaps env u a) treasury_user_id p pair message_id fresh db found fees
        λ buy_order sell_order fb fs.
          filled-Balances pair db buy_order sell_order fb fs covered u a message_id fresh v
