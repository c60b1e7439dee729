-- ===== src/Market/Gateway.antt =====
-- apps/backend/src/modules/market/market.gateway.ts, and market-events-consumer.service.ts, which hands
-- the market events to it. A client is a number; a room is known by its name, as in socket.io.
pub mod Rooms
use Prim.Native.String.{◌++◌ as join}
use hau_cex.Common.{
  ℕ, Bool, true, false, not, ◌&&◌, List, [], ◌∷◌, ◌++◌, map, Option, none, some, String, str_eq,
  ◌==◌, filter, take, if◌then◌else◌,
}
use hau_cex.Platform.{Platform}
use hau_cex.Database.Table.{exists}
use hau_cex.EngineEvents.Loop.{GroupResult}
use hau_cex.EngineEvents.Messages.{Message, Fields, get, parse_field_array}

-- Which client is in which room.
abbrev pub Rooms : Type 0
Rooms = List (ℕ × String)

abbrev pub is_member : ℕ → String → ℕ × String → Bool
is_member client room m = m.0 == client && str_eq m.1 room

-- `client.join` and `client.leave`.
abbrev pub join_room : ℕ → String → Rooms → Rooms
join_room client room rooms =
    if exists (is_member client room) rooms then rooms else rooms ++ (client, room) ∷ []

abbrev pub leave_room : ℕ → String → Rooms → Rooms
leave_room client room = filter (λ m. not (is_member client room m))

-- What a client gets.
pub record Delivery (P : Type 0) : Type 0 where
  pub client : ℕ
  pub event : String
  pub payload : P

-- `MarketSubscribePayload` and `MarketSubscribeResponse`.
pub record MarketSubscribePayload : Type 0 where
  pub symbol : Option String
  pub market : Option String

pub data MarketSubscribeResponse : Type 0 where
  error : (message : String) → MarketSubscribeResponse
  subscribed unsubscribed : (symbol room : String) → MarketSubscribeResponse

-- `data?.symbol || data?.market`, if it is no empty text.
abbrev non_empty : Option String → Option String
non_empty none = none
non_empty (some s) = if str_eq s "" then none else some s

abbrev or_else : Option String → Option String → Option String
or_else none d = d
or_else (some s) d = some s

abbrev pub raw_symbol : MarketSubscribePayload → Option String
raw_symbol data_ = or_else (non_empty data_.symbol) (non_empty data_.market)

abbrev pub market_room : String → String
market_room symbol = join "market:" symbol

abbrev pub orderbook_room : String → String
orderbook_room symbol = join "orderbook:" symbol

abbrev pub trades_room : String → String
trades_room symbol = join "trades:" symbol

module _ {P : Type 0} where
  -- `server.to(room).emit(event, payload)`.
  abbrev pub emit : String → String → P → Rooms → List (Delivery P)
  emit room event payload [] = []
  emit room event payload ((client, r) ∷ rooms) =
      let rest = emit room event payload rooms in
      if str_eq r room
      then record { client = client; event = event; payload = payload } ∷ rest
      else rest

abbrev get_or : String → Option String → String
get_or d none = d
get_or d (some s) = s

module _ (env : Platform) where
  open env use {to_upper_case}

  abbrev pub join_all : ℕ → String → Rooms → Rooms
  join_all client symbol rooms =
      join_room client (trades_room symbol)
        (join_room client (orderbook_room symbol) (join_room client (market_room symbol) rooms))

  abbrev pub leave_all : ℕ → String → Rooms → Rooms
  leave_all client symbol rooms =
      leave_room client (trades_room symbol)
        (leave_room client (orderbook_room symbol) (leave_room client (market_room symbol) rooms))

  abbrev subscribe_to : ℕ → Option String → Rooms → MarketSubscribeResponse × Rooms
  subscribe_to client none rooms = (MarketSubscribeResponse.error "symbol is required", rooms)
  subscribe_to client (some raw) rooms =
      let symbol = to_upper_case raw in
      (MarketSubscribeResponse.subscribed symbol (market_room symbol), join_all client symbol rooms)

  -- `handleSubscribe`.
  pub handle_subscribe : ℕ → MarketSubscribePayload → Rooms → MarketSubscribeResponse × Rooms
  handle_subscribe client data_ rooms = subscribe_to client (raw_symbol data_) rooms

  abbrev unsubscribe_from : ℕ → Option String → Rooms → MarketSubscribeResponse × Rooms
  unsubscribe_from client none rooms = (MarketSubscribeResponse.error "symbol is required", rooms)
  unsubscribe_from client (some raw) rooms =
      let symbol = to_upper_case raw in
      (
        MarketSubscribeResponse.unsubscribed symbol (market_room symbol),
        leave_all client symbol rooms,
      )

  -- `handleUnsubscribe`.
  pub handle_unsubscribe : ℕ → MarketSubscribePayload → Rooms → MarketSubscribeResponse × Rooms
  handle_unsubscribe client data_ rooms = unsubscribe_from client (raw_symbol data_) rooms

  module _ {P : Type 0} where
    -- `broadcastOrderBook`.
    pub broadcast_order_book : String → P → Rooms → List (Delivery P)
    broadcast_order_book symbol payload rooms =
        let sym = to_upper_case symbol in
        emit (market_room sym) "orderbook.update" payload rooms
        ++ emit (orderbook_room sym) "orderbook.update" payload rooms
        ++ emit (orderbook_room sym) "ORDERBOOK_UPDATE" payload rooms

    -- `broadcastTrade`.
    pub broadcast_trade : String → P → Rooms → List (Delivery P)
    broadcast_trade symbol payload rooms =
        let sym = to_upper_case symbol in
        emit (market_room sym) "trade.created" payload rooms
        ++ emit (trades_room sym) "trade.created" payload rooms
        ++ emit (trades_room sym) "TRADE" payload rooms

    -- What `processBatch` of the market events sends for a message. A missing `market` is an error
    -- in `toUpperCase`, which is caught; a payload that is no JSON is the empty object.
    abbrev fan_out : Option String → String → P → Rooms → List (Delivery P)
    fan_out none message_type payload rooms = []
    fan_out (some market) message_type payload rooms =
        if str_eq message_type "orderbook.update"
        then broadcast_order_book market payload rooms
        else if str_eq message_type "trade.created"
        then broadcast_trade market payload rooms
        else []

    abbrev get_payload : P → Option P → P
    get_payload d none = d
    get_payload d (some p) = p

    pub broadcast_message : (String → Option P) → P → Message → Rooms → List (Delivery P)
    broadcast_message parse_json empty m rooms =
        let fields = parse_field_array m.field_array in
        fan_out (get "market" fields) (get_or "" (get "messageType" fields))
          (get_payload empty (parse_json (get_or "{}" (get "payload" fields)))) rooms

    -- `processBatch`: every message is broadcast and then acknowledged, errors or not.
    pub process_batch :
        (String → Option P)
        → P
        → List Message
        → Rooms
        → List Message
        → List (Delivery P) × List Message
    process_batch parse_json empty [] rooms pending = ([], pending)
    process_batch parse_json empty (m ∷ ms) rooms pending =
        let (sent, left) =
          process_batch parse_json empty ms rooms (filter (λ x. not (x.id == m.id)) pending) in
        (broadcast_message parse_json empty m rooms ++ sent, left)

    -- `while (this.running)`: of each pass, the messages that Redis has for the group, twenty at most,
    -- and the rooms as they are then. A message is pending from its delivery on.
    abbrev pub run_passes :
        (String → Option P)
        → P
        → List (List Message × Rooms)
        → List Message
        → List (Delivery P) × List Message
    run_passes parse_json empty [] pending = ([], pending)
    run_passes parse_json empty ((waiting, rooms) ∷ passes) pending =
        let ms = take 20 waiting in
        let (sent, left) = process_batch parse_json empty ms rooms (pending ++ ms) in
        let (more, rest) = run_passes parse_json empty passes left in (sent ++ more, rest)

    -- `consumeLoop`, until it is stopped. The pauses and the log are left out.
    pub consume_loop :
        GroupResult
        → (String → Option P)
        → P
        → List (List Message × Rooms)
        → List Message
        → List (Delivery P) × List Message
    consume_loop GroupResult.failed parse_json empty passes pending = ([], pending)
    consume_loop _ parse_json empty passes pending = run_passes parse_json empty passes pending
