-- ===== src/EngineEvents/Settlement.antt =====
-- apps/backend/src/modules/engine-events/trade-settlement.service.ts: one trade of the engine
-- becomes a Trade row, two updated orders and four to six movements of money.
pub mod Validity
pub mod Measure
pub mod Steps
pub mod Walk
pub mod Conservation
pub mod Funds
pub mod Orders
pub mod Fills
use hau_cex.Common.{
  ℕ, Bool, true, false, ◌||◌, ◌&&◌, List, [], ◌∷◌, ◌++◌, Option, none, some, ℤ, pos, ◌-ℤ◌, ltb_ℤ,
  is_zero, ◌==◌, if◌then◌else◌,
}
use hau_cex.Platform.{Platform}
use hau_cex.Database.Schema.{
  Db, Wallet, Order, OrderSide, OrderStatus, Trade, TradingPair, LedgerEntryType, ReferenceType,
}
use hau_cex.Database.Table.{find_first, update_first, exists}
use hau_cex.Database.Tx.{Tx, Error, ◌>>=◌, ◌>>◌, pure, gets, or_throw, throw_if, modify, when}
use hau_cex.Wallets.Balance.{
  WalletMutationParams, CreditParams, has_id, credit_available, debit_locked,
}

-- `TradeCreatedPayload`, its decimal strings read as amounts. `none` is an empty `tradeId`.
pub record TradeCreatedPayload : Type 0 where
  pub trade_id : Option ℕ
  pub engine_match_id : ℕ
  pub trading_pair_id : ℕ
  pub trade_sequence : ℕ
  pub buy_order_id : ℕ
  pub sell_order_id : ℕ
  pub maker_order_id : ℕ
  pub taker_order_id : ℕ
  pub taker_side : OrderSide
  pub execution_price : ℤ
  pub executed_quantity : ℤ
  pub matched_at : ℕ

-- The uuids that one settlement draws, and the time. A row whose id the code leaves out gets its
-- own from the database.
pub record Fresh : Type 0 where
  pub operation_id : ℕ
  pub trade_id : ℕ
  pub base_wallet_id : ℕ
  pub quote_wallet_id : ℕ
  pub now : ℕ

abbrev pub is_buy : OrderSide → Bool
is_buy OrderSide.buy = true
is_buy OrderSide.sell = false

abbrev pub order_has_id : ℕ → Order → Bool
order_has_id id o = o.id == id

abbrev pub pair_has_id : ℕ → TradingPair → Bool
pair_has_id id t = t.id == id

-- `userId_assetId`.
abbrev pub owned_by : ℕ → ℕ → Wallet → Bool
owned_by user_id asset_id w = w.user_id == user_id && w.asset_id == asset_id

-- The unique keys of the table of trades.
abbrev pub same_trade : Trade → Trade → Bool
same_trade t u =
    u.id == t.id
    || u.engine_match_id == t.engine_match_id
    || u.engine_message_id == t.engine_message_id
    || (u.trading_pair_id == t.trading_pair_id && u.sequence == t.sequence)

-- `tx.trade.create`.
abbrev create_trade : Trade → Tx (Unit {0})
create_trade t = do
  taken ← gets (λ db. exists (same_trade t) db.trades)
  throw_if taken Error.unique_violation
  modify λ db. record db { trades = db.trades ++ t ∷ [] }

-- `findWallet`.
abbrev pub find_wallet : ℕ → ℕ → Tx Wallet
find_wallet user_id asset_id = do
  row ← gets (λ db. find_first (owned_by user_id asset_id) db.wallets)
  or_throw row Error.record_not_found

abbrev pub new_wallet : ℕ → ℕ → ℕ → Wallet
new_wallet id user_id asset_id = record {
  id = id;
  user_id = user_id;
  asset_id = asset_id;
  available_balance = pos 0;
  locked_balance = pos 0;
}

abbrev create_wallet : ℕ → ℕ → ℕ → Tx ℕ
create_wallet id user_id asset_id = do
  taken ← gets (λ db. exists (has_id id) db.wallets)
  throw_if taken Error.unique_violation
  modify (λ db. record db { wallets = db.wallets ++ new_wallet id user_id asset_id ∷ [] })
  pure id

-- `tx.wallet.upsert` with an empty update: the id of the user's wallet of the asset.
abbrev upsert_wallet : ℕ → ℕ → ℕ → Option Wallet → Tx ℕ
upsert_wallet id user_id asset_id none = create_wallet id user_id asset_id
upsert_wallet id user_id asset_id (some w) = pure w.id

-- The status of an order with that much left.
abbrev pub fill_status : ℤ → OrderStatus
fill_status remaining =
    if is_zero remaining then OrderStatus.filled else OrderStatus.partially_filled

module _ (env : Platform) (treasury_user_id : Option ℕ) where
  open env use {plus, minus, mul}

  -- `findOrCreateTreasuryWallet`.
  unfoldable pub find_or_create_treasury_wallet : ℕ → ℕ → Tx ℕ
  find_or_create_treasury_wallet id asset_id = do
    user_id ←
        or_throw treasury_user_id (Error.plain "TREASURY_USER_ID environment variable is not set")
    row ← gets (λ db. find_first (owned_by user_id asset_id) db.wallets)
    upsert_wallet id user_id asset_id row

  -- The update of one side's order by what was executed.
  abbrev pub fill_order : ℤ → ℤ → Order → Order → Order
  fill_order executed spent read o = record o {
    filled_quantity = plus read.filled_quantity executed;
    remaining_quantity = minus read.remaining_quantity executed;
    remaining_locked_amount = o.remaining_locked_amount -ℤ spent;
    status = fill_status (minus read.remaining_quantity executed);
  }

  abbrev pub update_order : ℤ → ℤ → Order → Tx (Unit {0})
  update_order executed spent read = modify λ db. record db {
    orders = update_first (order_has_id read.id) (fill_order executed spent read) db.orders;
  }

  abbrev pub find_order : ℕ → Tx Order
  find_order id = do
    row ← gets (λ db. find_first (order_has_id id) db.orders)
    or_throw row Error.record_not_found

  abbrev find_pair : ℕ → Tx TradingPair
  find_pair id = do
    row ← gets (λ db. find_first (pair_has_id id) db.trading_pairs)
    or_throw row Error.record_not_found

  -- The quote amount, and the fees: the buyer's in the base asset, the seller's in the quote asset.
  abbrev pub quote_amount : TradeCreatedPayload → ℤ
  quote_amount p = mul p.executed_quantity p.execution_price

  abbrev pub buyer_fee_amount : TradingPair → TradeCreatedPayload → ℤ
  buyer_fee_amount pair p =
      mul p.executed_quantity
        (if is_buy p.taker_side then pair.taker_fee_rate else pair.maker_fee_rate)

  abbrev pub seller_fee_amount : TradingPair → TradeCreatedPayload → ℤ
  seller_fee_amount pair p =
      mul (quote_amount p)
        (if is_buy p.taker_side then pair.maker_fee_rate else pair.taker_fee_rate)

  abbrev pub get_or_id : Option ℕ → ℕ → ℕ
  get_or_id none id = id
  get_or_id (some id) _ = id

  -- The row of `tx.trade.create`.
  abbrev pub trade_row : TradingPair → Order → Order → TradeCreatedPayload → ℕ → Fresh → Trade
  trade_row pair buy_order sell_order p message_id fresh = record {
    id = get_or_id p.trade_id fresh.trade_id;
    engine_match_id = p.engine_match_id;
    engine_message_id = message_id;
    trading_pair_id = p.trading_pair_id;
    buy_order_id = p.buy_order_id;
    sell_order_id = p.sell_order_id;
    buyer_user_id = buy_order.user_id;
    seller_user_id = sell_order.user_id;
    maker_order_id = p.maker_order_id;
    taker_order_id = p.taker_order_id;
    taker_side = p.taker_side;
    execution_price = p.execution_price;
    executed_quantity = p.executed_quantity;
    quote_amount = quote_amount p;
    maker_fee_rate = if is_buy p.taker_side then pair.maker_fee_rate else pair.taker_fee_rate;
    taker_fee_rate = if is_buy p.taker_side then pair.taker_fee_rate else pair.maker_fee_rate;
    buyer_fee_amount = buyer_fee_amount pair p;
    seller_fee_amount = seller_fee_amount pair p;
    sequence = p.trade_sequence;
    matched_at = p.matched_at;
    settled_at = some fresh.now;
  }

  -- `{ walletId, amount, operationId, ...tradeRef }`.
  abbrev mutation : ℕ → ℕ → ℕ → ℤ → WalletMutationParams
  mutation operation_id trade_id wallet_id amount = record {
    wallet_id = wallet_id;
    amount = amount;
    operation_id = operation_id;
    reference_type = ReferenceType.trade;
    reference_id = trade_id;
  }

  module _ (operation_id trade_id : ℕ) where
    -- Steps 6a and 6c: the wallet of the user is found, and its locked balance debited.
    unfoldable pub debit_user : ℕ → ℕ → ℤ → Tx (Unit {0})
    debit_user user_id asset_id amount = do
      w ← find_wallet user_id asset_id
      debit_locked env (mutation operation_id trade_id w.id amount)

    -- Steps 6b and 6d.
    unfoldable pub credit_user : ℕ → ℕ → ℤ → Tx (Unit {0})
    credit_user user_id asset_id amount = do
      w ← find_wallet user_id asset_id
      credit_available env (record {
        base = mutation operation_id trade_id w.id amount;
        entry_type = LedgerEntryType.trade_settlement;
      })

    -- Step 6e, for one of the two fees.
    unfoldable pub collect_fee : ℕ → ℕ → ℤ → Tx (Unit {0})
    collect_fee wallet_id asset_id amount = when (ltb_ℤ (pos 0) amount) do
      id ← find_or_create_treasury_wallet wallet_id asset_id
      credit_available env (record {
        base = mutation operation_id trade_id id amount;
        entry_type = LedgerEntryType.trading_fee;
      })

  -- Step 6, the wallet mutations.
  unfoldable pub move_funds : TradingPair → ℕ → ℕ → TradeCreatedPayload → ℕ → Fresh → Tx (Unit {0})
  move_funds pair buyer seller p trade_id fresh = do
    let op = fresh.operation_id
    let buyer_fee = buyer_fee_amount pair p
    let seller_fee = seller_fee_amount pair p
    debit_user op trade_id buyer pair.quote_asset_id (quote_amount p)
    credit_user op trade_id buyer pair.base_asset_id (minus p.executed_quantity buyer_fee)
    debit_user op trade_id seller pair.base_asset_id p.executed_quantity
    credit_user op trade_id seller pair.quote_asset_id (minus (quote_amount p) seller_fee)
    collect_fee op trade_id fresh.base_wallet_id pair.base_asset_id buyer_fee
    collect_fee op trade_id fresh.quote_wallet_id pair.quote_asset_id seller_fee

  -- Steps 4 to 6, on the rows that were read.
  unfoldable pub settle_between :
      TradingPair → Order → Order → TradeCreatedPayload → ℕ → Fresh → Tx (Unit {0})
  settle_between pair buy_order sell_order p message_id fresh = do
    let trade = trade_row pair buy_order sell_order p message_id fresh
    create_trade trade
    update_order p.executed_quantity (quote_amount p) buy_order
    update_order p.executed_quantity p.executed_quantity sell_order
    move_funds pair buy_order.user_id sell_order.user_id p trade.id fresh

  -- `settleTrade`.
  unfoldable pub settle_trade : TradeCreatedPayload → ℕ → Fresh → Tx (Unit {0})
  settle_trade p message_id fresh = do
    pair ← find_pair p.trading_pair_id
    buy_order ← find_order p.buy_order_id
    sell_order ← find_order p.sell_order_id
    settle_between pair buy_order sell_order p message_id fresh
