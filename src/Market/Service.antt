-- ===== src/Market/Service.antt =====
-- apps/backend/src/modules/market/market.service.ts: the requests, on the tables and the cache. The
-- symbols of the two assets are joined from a table that is given.
pub mod Served
use Prim.Native.String.{◌++◌ as join}
use hau_cex.Common.{
  ℕ, suc, ◌+◌, ◌-◌, ◌*◌, Bool, true, false, ◌&&◌, ◌||◌, List, [], ◌∷◌, map, Option, none, some,
  String, str_eq, ℤ, pos, ◌+ℤ◌, ltb, leb, ◌==◌, take, filter, if◌then◌else◌,
}
use hau_cex.Platform.{Platform}
use hau_cex.Database.Exceptions.{market_not_found}
use hau_cex.Database.Schema.{Db, Trade, TradingPair, TradingPairStatus, OrderSide}
use hau_cex.Database.Sorting.{order_by}
use hau_cex.Database.Table.{find_first}
use hau_cex.Database.Tx.{Tx, Error, ◌>>=◌, pure, gets, or_throw}
use hau_cex.Decimal.{format_decimal, format_optional}
use hau_cex.EngineEvents.Messages.{OrderbookData, get}
use hau_cex.EngineEvents.Consumer.{orderbook_cache_prefix}
use hau_cex.Orders.Place.{has_symbol}
use hau_cex.Market.Book.{best_bid_ask, clamp, OrderBookResult, order_book}

abbrev pub Cache : Type 0
Cache = List (String × OrderbookData)

abbrev is_set : Option ℕ → Bool
is_set none = false
is_set (some t) = true

-- A trade of the pair that is settled.
abbrev pub is_settled_of : ℕ → Trade → Bool
is_settled_of pair_id t = t.trading_pair_id == pair_id && is_set t.settled_at

-- `orderBy: { matchedAt: 'desc' }`.
abbrev insert_latest : Trade → List Trade → List Trade
insert_latest t [] = t ∷ []
insert_latest t (u ∷ us) =
    if ltb t.matched_at u.matched_at then u ∷ insert_latest t us else t ∷ u ∷ us

abbrev pub latest_first : List Trade → List Trade
latest_first [] = []
latest_first (t ∷ ts) = insert_latest t (latest_first ts)

abbrev head : List Trade → Option Trade
head [] = none
head (t ∷ ts) = some t

abbrev pub trades_of : ℕ → Db → List Trade
trades_of pair_id db = latest_first (filter (is_settled_of pair_id) db.trades)

abbrev price_of : Option Trade → Option ℤ
price_of none = none
price_of (some t) = some t.execution_price

abbrev sum_quantity : List Trade → Option ℤ
sum_quantity [] = none
sum_quantity (t ∷ ts) = some (total t.executed_quantity ts)
  where
    total : ℤ → List Trade → ℤ
    total z [] = z
    total z (u ∷ us) = total (z +ℤ u.executed_quantity) us

abbrev get_or : String → Option String → String
get_or d none = d
get_or d (some s) = if str_eq s "" then d else s

-- `MarketDetailResult`.
pub record MarketDetailResult : Type 0 where
  pub id : ℕ
  pub symbol : String
  pub base_asset : String
  pub quote_asset : String
  pub price_precision : ℕ
  pub quantity_precision : ℕ
  pub tick_size : String
  pub step_size : String
  pub min_quantity : String
  pub min_notional : String
  pub maker_fee_rate : String
  pub taker_fee_rate : String
  pub status : TradingPairStatus
  pub last_price : Option String
  pub best_bid : Option String
  pub best_ask : Option String

-- `MarketTickerResult`.
pub record MarketTickerResult : Type 0 where
  pub last_price : Option String
  pub best_bid : Option String
  pub best_ask : Option String
  pub base_volume24h : String

-- `RecentTradeItem`.
pub record RecentTradeItem : Type 0 where
  pub id : ℕ
  pub price : String
  pub quantity : String
  pub quote_amount : String
  pub taker_side : OrderSide
  pub matched_at : ℕ

module _ (env : Platform) (number : String → ℤ) (cache : Cache) where
  open env use {to_upper_case}

  abbrev find_pair : String → Tx TradingPair
  find_pair symbol = do
    row ← gets (λ db. find_first (has_symbol (to_upper_case symbol)) db.trading_pairs)
    or_throw row (Error.http market_not_found)

  -- `getBestBidAsk`.
  abbrev pub get_best_bid_ask : String → Option String × Option String
  get_best_bid_ask symbol =
      best_bid_ask number (get (join orderbook_cache_prefix (to_upper_case symbol)) cache)

  -- `getMarketDetail`, of the symbols of the assets.
  pub get_market_detail : (ℕ → String) → String → Tx MarketDetailResult
  get_market_detail asset_symbol symbol = do
    pair ← find_pair symbol
    last_trade ← gets (λ db. head (trades_of pair.id db))
    let best = get_best_bid_ask pair.symbol
    pure (record {
      id = pair.id;
      symbol = pair.symbol;
      base_asset = asset_symbol pair.base_asset_id;
      quote_asset = asset_symbol pair.quote_asset_id;
      price_precision = pair.price_precision;
      quantity_precision = pair.quantity_precision;
      tick_size = format_decimal env pair.tick_size;
      step_size = format_decimal env pair.step_size;
      min_quantity = format_decimal env pair.min_quantity;
      min_notional = format_decimal env pair.min_notional;
      maker_fee_rate = format_decimal env pair.maker_fee_rate;
      taker_fee_rate = format_decimal env pair.taker_fee_rate;
      status = pair.status;
      last_price = format_optional env (price_of last_trade);
      best_bid = best.0;
      best_ask = best.1;
    })

  abbrev text_of : (ℤ → String) → Option ℤ → Option String
  text_of to_text none = none
  text_of to_text (some z) = some (to_text z)

  abbrev market_of : (ℕ → String) → (ℤ → String) → Db → TradingPair → MarketDetailResult
  market_of asset_symbol to_text db pair =
      let best = get_best_bid_ask pair.symbol in
      record {
        id = pair.id;
        symbol = pair.symbol;
        base_asset = asset_symbol pair.base_asset_id;
        quote_asset = asset_symbol pair.quote_asset_id;
        price_precision = pair.price_precision;
        quantity_precision = pair.quantity_precision;
        tick_size = to_text pair.tick_size;
        step_size = to_text pair.step_size;
        min_quantity = to_text pair.min_quantity;
        min_notional = to_text pair.min_notional;
        maker_fee_rate = to_text pair.maker_fee_rate;
        taker_fee_rate = to_text pair.taker_fee_rate;
        status = pair.status;
        last_price = text_of to_text (price_of (head (trades_of pair.id db)));
        best_bid = best.0;
        best_ask = best.1;
      }

  -- `listMarkets`, of the symbols of the assets, of `toString` of decimal.js and of PostgreSQL's
  -- order of texts.
  pub list_markets :
      (ℕ → String) → (ℤ → String) → (String → String → Bool) → Db → List MarketDetailResult
  list_markets asset_symbol to_text text_before db =
      map (market_of asset_symbol to_text db)
        (order_by (λ p q. text_before p.symbol q.symbol) db.trading_pairs)

  -- A day, in the units of the times.
  abbrev day : ℕ
  day = 24 * 60 * 60 * 1000

  -- `getMarketTicker`, at a time.
  pub get_market_ticker : ℕ → String → Tx MarketTickerResult
  get_market_ticker now symbol = do
    pair ← find_pair symbol
    last_trade ← gets (λ db. head (trades_of pair.id db))
    let best = get_best_bid_ask pair.symbol
    volume ← gets (λ db.
        sum_quantity
          (filter (λ t. is_settled_of pair.id t && leb (now - day) t.matched_at) db.trades))
    pure (record {
      last_price = format_optional env (price_of last_trade);
      best_bid = best.0;
      best_ask = best.1;
      base_volume24h = get_or "0" (format_optional env volume);
    })

  -- `getOrderBook`.
  pub get_order_book : String → Option ℤ → Tx OrderBookResult
  get_order_book symbol depth = do
    pair ← find_pair symbol
    pure (order_book number pair.symbol depth (get (join orderbook_cache_prefix pair.symbol) cache))

  abbrev to_item : Trade → RecentTradeItem
  to_item t = record {
    id = t.id;
    price = format_decimal env t.execution_price;
    quantity = format_decimal env t.executed_quantity;
    quote_amount = format_decimal env t.quote_amount;
    taker_side = t.taker_side;
    matched_at = t.matched_at;
  }

  -- `getRecentTrades`.
  pub get_recent_trades : String → Option ℤ → Tx (List RecentTradeItem)
  get_recent_trades symbol limit = do
    pair ← find_pair symbol
    trades ← gets (λ db. take (clamp limit) (trades_of pair.id db))
    pure (map to_item trades)
