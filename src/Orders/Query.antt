-- ===== src/Orders/Query.antt =====
-- apps/backend/src/modules/orders/order-query.service.ts: what a user reads of the orders. PostgreSQL
-- fills the columns `created_at` and `updated_at`, `toISOString` is node's.
pub mod Own
pub mod Active
pub mod History
use hau_cex.Common.{
  ℕ, Bool, true, false, ◌&&◌, ◌||◌, not, ◌==◌, leb, List, map, filter, Option, none, some, String,
  str_eq, if◌then◌else◌,
}
use hau_cex.Platform.{Platform}
use hau_cex.Database.Schema.{Db, Order, OrderSide, OrderStatus, Trade, TradingPair}
use hau_cex.Database.Exceptions.{order_not_found}
use hau_cex.Database.Table.{find_first}
use hau_cex.Database.Tx.{Result, ok, err, Error}
use hau_cex.Database.Sorting.{order_by}
use hau_cex.Decimal.{format_decimal}
use hau_cex.Pagination.{CursorPayload, PaginatedResponse, find_page}
use hau_cex.Pagination.Cover.{newer}

pub data OrderType : Type 0 where
  limit : OrderType

-- `OrderResponseDto`; `status` and `side` as what they print. `symbol` is that of the row that the
-- foreign key points to.
pub record OrderResponse : Type 0 where
  pub order_id : ℕ
  pub symbol : Option String
  pub side : OrderSide
  pub type : OrderType
  pub status : OrderStatus
  pub price : String
  pub quantity : String
  pub filled_quantity : String
  pub remaining_quantity : String
  pub locked_amount : String
  pub remaining_locked_amount : String
  pub created_at : String
  pub updated_at : String

-- `OrderListQueryDto`, its cursor as what it decodes to.
pub record OrderListQuery : Type 0 where
  pub symbol : Option String
  pub limit : Option ℕ
  pub cursor : Option CursorPayload

pub data Role : Type 0 where
  maker taker : Role

-- `OrderTradeItem`.
pub record OrderTradeItem : Type 0 where
  pub id : ℕ
  pub price : String
  pub quantity : String
  pub quote_amount : String
  pub fee : String
  pub role : Role
  pub taker_side : OrderSide
  pub matched_at : String

abbrev symbol_at : Option TradingPair → Option String
symbol_at none = none
symbol_at (some p) = some p.symbol

abbrev pub symbol_of : List TradingPair → Order → Option String
symbol_of pairs o = symbol_at (find_first (λ p. p.id == o.trading_pair_id) pairs)

abbrev is_symbol : String → Option String → Bool
is_symbol symbol none = false
is_symbol symbol (some s) = str_eq s symbol

-- `...(symbol && { tradingPair: { symbol } })`: the empty text filters nothing.
abbrev pub of_symbol : Option String → List TradingPair → Order → Bool
of_symbol none pairs o = true
of_symbol (some s) pairs o = if str_eq s "" then true else is_symbol s (symbol_of pairs o)

-- `status: { in: [...] }` of `getActiveOrders`.
abbrev pub is_active : OrderStatus → Bool
is_active OrderStatus.pending = true
is_active OrderStatus.open_ = true
is_active OrderStatus.partially_filled = true
is_active OrderStatus.cancel_pending = true
is_active _ = false

abbrev pub is_own : ℕ → ℕ → Order → Bool
is_own user_id order_id o = o.id == order_id && o.user_id == user_id

abbrev or_20 : Option ℕ → ℕ
or_20 none = 20
or_20 (some n) = n

abbrev is_buy : OrderSide → Bool
is_buy OrderSide.buy = true
is_buy OrderSide.sell = false

-- `isTaker`.
abbrev pub is_taker : Bool → OrderSide → Bool
is_taker is_buyer taker_side =
    (is_buyer && is_buy taker_side) || (not is_buyer && not (is_buy taker_side))

abbrev is_settled : Option ℕ → Bool
is_settled none = false
is_settled (some t) = true

-- The trades of an order that are settled.
abbrev pub is_trade_of : ℕ → Trade → Bool
is_trade_of order_id t =
    (t.buy_order_id == order_id || t.sell_order_id == order_id) && is_settled t.settled_at

abbrev pub later_match : Trade → Trade → Bool
later_match t u = leb u.matched_at t.matched_at

module _ (env : Platform) (created_at updated_at : Order → ℕ) (to_iso_string : ℕ → String) where
  -- `toResponseDto`.
  abbrev pub to_response : List TradingPair → Order → OrderResponse
  to_response pairs o = record {
    order_id = o.id;
    symbol = symbol_of pairs o;
    side = o.side;
    type = OrderType.limit;
    status = o.status;
    price = format_decimal env o.price;
    quantity = format_decimal env o.quantity;
    filled_quantity = format_decimal env o.filled_quantity;
    remaining_quantity = format_decimal env o.remaining_quantity;
    locked_amount = format_decimal env o.locked_amount;
    remaining_locked_amount = format_decimal env o.remaining_locked_amount;
    created_at = to_iso_string (created_at o);
    updated_at = to_iso_string (updated_at o);
  }

  -- `createdAt: 'desc'`.
  abbrev pub as_new : Order → Order → Bool
  as_new o p = leb (created_at p) (created_at o)

  abbrev pub active_rows : ℕ → Option String → Db → List Order
  active_rows user_id symbol db =
      filter
        (λ o. o.user_id == user_id && is_active o.status && of_symbol symbol db.trading_pairs o)
        db.orders

  unfoldable pub get_active_orders : ℕ → Option String → Db → List OrderResponse
  get_active_orders user_id symbol db =
      map (to_response db.trading_pairs) (order_by as_new (active_rows user_id symbol db))

  -- The orders of the user, of the pair that the query names.
  abbrev pub history_rows : ℕ → Option String → Db → List Order
  history_rows user_id symbol db =
      filter (λ o. o.user_id == user_id && of_symbol symbol db.trading_pairs o) db.orders

  abbrev pub newer_order : Order → Order → Bool
  newer_order = newer (λ o. o.id) created_at

  unfoldable pub get_order_history : ℕ → OrderListQuery → Db → PaginatedResponse OrderResponse
  get_order_history user_id query db =
      find_page (λ o. o.id) created_at (order_by newer_order (history_rows user_id query.symbol db))
        (or_20 query.limit) query.cursor (to_response db.trading_pairs)

  abbrev pub of_row : List TradingPair → Option Order → Result OrderResponse
  of_row pairs none = err (Error.http order_not_found)
  of_row pairs (some o) = ok (to_response pairs o)

  unfoldable pub get_order_by_id : ℕ → ℕ → Db → Result OrderResponse
  get_order_by_id user_id order_id db =
      of_row db.trading_pairs (find_first (is_own user_id order_id) db.orders)

  abbrev pub to_item : ℕ → Trade → OrderTradeItem
  to_item order_id t =
      let is_buyer = t.buy_order_id == order_id in
      record {
        id = t.id;
        price = format_decimal env t.execution_price;
        quantity = format_decimal env t.executed_quantity;
        quote_amount = format_decimal env t.quote_amount;
        fee = format_decimal env (if is_buyer then t.buyer_fee_amount else t.seller_fee_amount);
        role = if is_taker is_buyer t.taker_side then Role.taker else Role.maker;
        taker_side = t.taker_side;
        matched_at = to_iso_string t.matched_at;
      }

  abbrev pub trades_of : ℕ → List Trade → Option Order → Result (List OrderTradeItem)
  trades_of order_id trades none = err (Error.http order_not_found)
  trades_of order_id trades (some o) =
      ok (map (to_item order_id) (order_by later_match (filter (is_trade_of order_id) trades)))

  unfoldable pub get_order_trades : ℕ → ℕ → Db → Result (List OrderTradeItem)
  get_order_trades user_id order_id db =
      trades_of order_id db.trades (find_first (is_own user_id order_id) db.orders)
