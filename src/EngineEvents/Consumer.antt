-- ===== src/EngineEvents/Consumer.antt =====
-- apps/backend/src/modules/engine-events/engine-event-consumer.service.ts: the loop that reads the
-- engine's stream, and the handling of one message. The calls of Redis are taken to succeed, except
-- that nothing is acknowledged when the transaction of a message throws.
pub mod Delivery
pub mod Drain
pub mod Statuses
pub mod Walk
pub mod Conservation
use Prim.Native.String.{◌++◌ as join}
use hau_cex.Common.{
  ℕ, zero, suc, Bool, true, false, not, ◌&&◌, ◌||◌, List, [], ◌∷◌, ◌++◌, Option, none, some, String,
  str_eq, ◌==◌, take, filter, if◌then◌else◌,
}
use hau_cex.Platform.{Platform}
use hau_cex.Database.Schema.{Db, Order, OrderStatus, TradingPair, TradingPairStatus, ProcessedEvent}
use hau_cex.Database.Table.{update_many, exists}
use hau_cex.Database.Tx.{
  Tx, Error, Result, ok, err, ◌>>=◌, ◌>>◌, pure, throw, gets, throw_if, modify, when, transaction,
}
use hau_cex.EngineEvents.Settlement.{
  TradeCreatedPayload, Fresh, pair_has_id, order_has_id, settle_trade,
}
use hau_cex.EngineEvents.Messages.{
  Message, Fields, EventPayload, Codec, OrderbookData, MarketEvent, Redis, State, put, get,
  parse_field_array,
}
use hau_cex.EngineEvents.Cancellation.{
  handle_order_cancelled, handle_cancel_order_rejected, is_cancel_pending,
}

abbrev pub consumer_name : String
consumer_name = "backend-1"

abbrev pub is_event : ℕ → ProcessedEvent → Bool
is_event message_id e = str_eq e.consumer_name consumer_name && e.message_id == message_id

abbrev pub processed : ℕ → String → ProcessedEvent
processed message_id message_type = record {
  consumer_name = consumer_name;
  message_id = message_id;
  message_type = message_type;
  result = "PROCESSED";
}

abbrev pub add_processed : ℕ → String → Db → Db
add_processed message_id message_type db = record db {
  processed_events = db.processed_events ++ processed message_id message_type ∷ [];
}

-- `tx.processedEvent.create`.
abbrev pub create_processed : ℕ → String → Tx (Unit {0})
create_processed message_id message_type = do
  taken ← gets (λ db. exists (is_event message_id) db.processed_events)
  throw_if taken Error.unique_violation
  modify (add_processed message_id message_type)

-- A filter on an id that is `undefined` filters nothing.
abbrev pub fits_order : Option ℕ → Order → Bool
fits_order none o = true
fits_order (some id) o = order_has_id id o

abbrev pub fits_pair : Option ℕ → TradingPair → Bool
fits_pair none t = true
fits_pair (some id) t = pair_has_id id t

abbrev pub is_pending : OrderStatus → Bool
is_pending OrderStatus.pending = true
is_pending _ = false

abbrev set_pair_status : Option ℕ → TradingPairStatus → Tx (Unit {0})
set_pair_status id status = modify λ db. record db {
  trading_pairs = update_many (fits_pair id) (λ t. record t { status = status }) db.trading_pairs;
}

-- From PENDING.
abbrev pub set_order_status : Option ℕ → OrderStatus → Tx (Unit {0})
set_order_status id status = modify λ db. record db {
  orders =
      update_many (λ o. fits_order id o && is_pending o.status) (λ o. record o { status = status })
        db.orders;
}

abbrev pub invalid : Error
invalid = Error.plain "PrismaClientValidationError"

-- `findUniqueOrThrow` refuses an id that is `undefined`.
abbrev pub with_id : Option ℕ → (ℕ → Tx (Unit {0})) → Tx (Unit {0})
with_id none k = throw invalid
with_id (some id) k = k id

abbrev pub orderbook_cache_prefix : String
orderbook_cache_prefix = "cache:orderbook:"

module _ (env : Platform) (codec : Codec) (treasury_user_id : Option ℕ) where
  -- `dispatch`.
  unfoldable pub dispatch : String → Option ℕ → ℕ → EventPayload → Fresh → Tx (Unit {0})
  dispatch message_type trading_pair_id message_id payload fresh =
      if str_eq message_type "MarketOpened"
      then set_pair_status trading_pair_id TradingPairStatus.ready
      else if str_eq message_type "OrderOpened"
      then set_order_status payload.order_id OrderStatus.open_
      else if str_eq message_type "OrderRejected"
      then set_order_status payload.order_id OrderStatus.rejected
      else if str_eq message_type "EngineFailed"
      then set_pair_status trading_pair_id TradingPairStatus.suspended
      else if str_eq message_type "TradeCreated"
      then settle_trade env treasury_user_id payload.trade message_id fresh
      else if str_eq message_type "OrderCancelled"
      then with_id payload.order_id (handle_order_cancelled env fresh.operation_id)
      else if str_eq message_type "CancelOrderRejected"
      then with_id payload.order_id handle_cancel_order_rejected
      else pure tt

  -- `payload.tradingPairId || fields.partitionKey`.
  abbrev pub or_key : Option String → Option String → Option String
  or_key none key = key
  or_key (some s) key = if str_eq s "" then key else some s

  abbrev pub read_id : Option String → Option ℕ
  read_id none = none
  read_id (some s) = some (codec.read_uuid s)

  abbrev pub get_or : String → Option String → String
  get_or d none = d
  get_or d (some s) = s

  -- The transaction of a message. `messageId` is part of a unique key and `messageType` a required
  -- column, so neither may be missing.
  unfoldable pub in_tx : Option ℕ → Option String → Option ℕ → EventPayload → Fresh → Tx (Unit {0})
  in_tx none message_type trading_pair_id payload fresh = throw invalid
  in_tx (some message_id) message_type trading_pair_id payload fresh = do
    existing ← gets (λ db. exists (is_event message_id) db.processed_events)
    when (not existing) (process message_id message_type)
    where
      process : ℕ → Option String → Tx (Unit {0})
      process message_id none = throw invalid
      process message_id (some t) =
          dispatch t trading_pair_id message_id payload fresh >> create_processed message_id t

  -- `postProcessMarketEvent`.
  abbrev pub cache_book : String → Option String → OrderbookData → Redis → Redis
  cache_book market trading_pair_id data_ r = record r {
    cache =
        let by_id =
          put (join orderbook_cache_prefix (get_or "undefined" trading_pair_id)) data_ r.cache in
        if str_eq market ""
        then by_id
        else put (join orderbook_cache_prefix (env.to_upper_case market)) data_ by_id;
    market_events =
        r.market_events
        ++ MarketEvent.orderbook_update (env.to_upper_case market) trading_pair_id data_ ∷ [];
  }

  abbrev pub orderbook_data : Option String → EventPayload → OrderbookData
  orderbook_data trading_pair_id p = record {
    symbol = p.market;
    trading_pair_id = trading_pair_id;
    book_sequence = get_or "0" p.book_sequence;
    bids = p.bids;
    asks = p.asks;
    changed_at = get_or codec.now_text p.changed_at;
  }

  unfoldable pub post_process_market_event :
      Option String → Option String → EventPayload → Redis → Redis
  post_process_market_event message_type trading_pair_id p r =
      if str_eq (get_or "" message_type) "OrderBookChanged"
      then cache_book p.market trading_pair_id (orderbook_data trading_pair_id p) r
      else if str_eq (get_or "" message_type) "TradeCreated"
      then record r {
        market_events =
            r.market_events
            ++ MarketEvent.trade_created (env.to_upper_case p.market) trading_pair_id p.market
                p.trade
              ∷ [];
      }
      else r

  -- `ack`.
  abbrev pub ack : ℕ → Redis → Redis
  ack id r = record r { pending = filter (λ m. not (m.id == id)) r.pending }

  -- After the commit; a transaction that threw leaves the message unacknowledged.
  abbrev finish :
      ℕ
      → Option String
      → Option String
      → EventPayload
      → Redis
      → Result (Unit {0}) × Db
      → Result (Unit {0}) × State
  finish id message_type trading_pair_id payload r (err e, db) =
      (err e, record { db = db; redis = r })
  finish id message_type trading_pair_id payload r (ok _, db) = (
    ok tt,
    record {
      db = db;
      redis = ack id (post_process_market_event message_type trading_pair_id payload r);
    },
  )

  abbrev handle_payload :
      ℕ → Fields → Fresh → State → Option EventPayload → Result (Unit {0}) × State
  handle_payload id fields fresh s none = (ok tt, record s { redis = ack id s.redis })
  handle_payload id fields fresh s (some payload) =
      let trading_pair_id = or_key payload.trading_pair_id (get "partitionKey" fields) in
      let message_type = get "messageType" fields in
      finish id message_type trading_pair_id payload s.redis (
        transaction
          (in_tx (read_id (get "messageId" fields)) message_type (read_id trading_pair_id) payload
            fresh)
          s.db)

  -- `handleMessage`. A payload that is no JSON is acknowledged.
  unfoldable pub handle_message : Fresh → Message → State → Result (Unit {0}) × State
  handle_message fresh m s =
      let fields = parse_field_array m.field_array in
      handle_payload m.id fields fresh s (codec.parse_json (get_or "{}" (get "payload" fields)))

  -- The messages of a batch in their order, up to the first that throws.
  unfoldable pub handle_messages : (ℕ → Fresh) → List Message → State → Result (Unit {0}) × State
  handle_messages fresh [] s = (ok tt, s)
  handle_messages fresh (m ∷ ms) s =
      let (r, s') = handle_message (fresh m.id) m s in
      elim r [ ok _ ↦ handle_messages fresh ms s' | err e ↦ (err e, s') ]

  -- `XREADGROUP ... >`: messages that are new to the group are delivered, so pending.
  abbrev pub deliver : List Message → State → State
  deliver ms s = record s { redis = record s.redis { pending = s.redis.pending ++ ms } }

  -- `processBatch`, of the messages that Redis has for the group, ten at most.
  unfoldable pub process_batch : (ℕ → Fresh) → List Message → State → Result (Unit {0}) × State
  process_batch fresh waiting s =
      let ms = take 10 waiting in handle_messages fresh ms (deliver ms s)

  -- `drainPending`, on fuel: `XREADGROUP ... 0` gives the oldest ten of the pending messages.
  unfoldable pub drain_from :
      ℕ → (ℕ → Fresh) → State → List Message → Option (Result (Unit {0}) × State)
  drain_from fuel fresh s [] = some (ok tt, s)
  drain_from zero fresh s (m ∷ ms) = none
  drain_from (suc fuel) fresh s (m ∷ ms) =
      let (r, s') = handle_messages fresh (take 10 (m ∷ ms)) s in
      elim r [ ok _ ↦ drain_from fuel fresh s' s'.redis.pending | err e ↦ some (err e, s') ]

  unfoldable pub drain_pending : ℕ → (ℕ → Fresh) → State → Option (Result (Unit {0}) × State)
  drain_pending fuel fresh s = drain_from fuel fresh s s.redis.pending
