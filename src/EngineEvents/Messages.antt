-- ===== src/EngineEvents/Messages.antt =====
-- The messages of the engine's stream and what the consumer keeps of them in Redis:
-- apps/backend/src/modules/engine-events/engine-event-consumer.service.ts.
pub mod Parsing
use hau_cex.Common.{ℕ, List, [], ◌∷◌, Option, none, some, String, str_eq, if◌then◌else◌}
use hau_cex.Database.Schema.{Db}
use hau_cex.EngineEvents.Settlement.{TradeCreatedPayload}

-- A message of a stream: its id, and its fields and values one after the other.
pub record Message : Type 0 where
  pub id : ℕ
  pub field_array : List String

abbrev pub Fields : Type 0
Fields = List (String × String)

module _ {A : Type 0} where
  -- `fields[key] = value`, and `SET` of Redis.
  abbrev pub put : String → A → List (String × A) → List (String × A)
  put k v [] = (k, v) ∷ []
  put k v ((j, u) ∷ fields) = if str_eq j k then (j, v) ∷ fields else (j, u) ∷ put k v fields

  -- `fields[key]`, and `GET` of Redis.
  abbrev pub get : String → List (String × A) → Option A
  get k [] = none
  get k ((j, u) ∷ fields) = if str_eq j k then some u else get k fields

-- `parseFieldArray`, from the fields read so far.
abbrev pub parse_from : Fields → List String → Fields
parse_from fields [] = fields
parse_from fields (k ∷ []) = put k "" fields
parse_from fields (k ∷ v ∷ rest) = parse_from (put k v fields) rest

abbrev pub parse_field_array : List String → Fields
parse_field_array = parse_from []

-- The levels of an order book: price, quantity, and the number of orders.
abbrev pub Levels : Type 0
Levels = List (String × String × String)

-- What the handlers read of a payload. `none` is a key that is missing.
pub record EventPayload : Type 0 where
  pub trading_pair_id : Option String
  pub market : String
  pub order_id : Option ℕ
  pub trade : TradeCreatedPayload
  pub book_sequence : Option String
  pub bids : Levels
  pub asks : Levels
  pub changed_at : Option String

-- `JSON.parse`, the uuid that a text writes, and the time as text.
pub record Codec : Type 0 where
  pub parse_json : String → Option EventPayload
  pub read_uuid : String → ℕ
  pub now_text : String

-- `orderbookData` and `tradeData`.
pub record OrderbookData : Type 0 where
  pub symbol : String
  pub trading_pair_id : Option String
  pub book_sequence : String
  pub bids : Levels
  pub asks : Levels
  pub changed_at : String

pub data MarketEvent : Type 0 where
  orderbook_update :
      (market : String) (trading_pair_id : Option String) (payload : OrderbookData) → MarketEvent
  trade_created :
      (market : String) (trading_pair_id : Option String) (symbol : String)
      (payload : TradeCreatedPayload)
      → MarketEvent

-- What the consumer keeps in Redis: the messages delivered to it and not yet acknowledged, the
-- order books in the cache by key, and the stream of market events.
pub record Redis : Type 0 where
  pub pending : List Message
  pub cache : List (String × OrderbookData)
  pub market_events : List MarketEvent

pub record State : Type 0 where
  pub db : Db
  pub redis : Redis
