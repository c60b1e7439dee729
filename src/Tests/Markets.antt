-- ===== src/Tests/Markets.antt =====
-- An order book of two levels on each side, and a client of its rooms.
use hau_cex.Common.{
  ◌≡◌, refl, true, false, some, none, [], ◌∷◌, map, take, All, String, str_eq, ℤ, pos,
  if◌then◌else◌,
}
use hau_cex.Common.Int.{◌≤ℤ◌}
use hau_cex.Database.Table.{exists}
use hau_cex.Database.Tx.{ok}
use mathlib.Core.List.{Perm}
use hau_cex.EngineEvents.Messages.{Levels, OrderbookData, EventPayload, Codec, Redis}
use hau_cex.EngineEvents.Consumer.{post_process_market_event, orderbook_data}
use hau_cex.Market.Book.{best_bid_ask, order_book}
use hau_cex.Market.Book.Depth.{IsOrdered, head_price, best_bid_ask_is_best}
use hau_cex.Market.Service.{get_order_book}
use hau_cex.Market.Service.Served.{order_book_is_served}
use hau_cex.Market.Gateway.{
  Rooms, MarketSubscribePayload, handle_subscribe, handle_unsubscribe, broadcast_order_book,
  broadcast_trade,
}
use hau_cex.Market.Gateway.Rooms.{gets, is_for, subscribed_receives, unsubscribed_receives_nothing}
use hau_cex.Testing.{example_platform, example_db, example_pair}
use hau_cex.Tests.Trades.{trade, treasury}

abbrev number : String → ℤ
number s = if str_eq s "49" then pos 49 else if str_eq s "50" then pos 50 else pos 51

abbrev payload : EventPayload
payload = record {
  trading_pair_id = some "1";
  market = "BTC/USDT";
  order_id = none;
  trade = trade;
  book_sequence = some "8";
  bids = ("49", "2", "1") ∷ ("50", "1", "1") ∷ [];
  asks = ("52", "1", "1") ∷ ("51", "3", "2") ∷ [];
  changed_at = some "later";
}

abbrev codec : Codec
codec = record { parse_json = λ s. some payload; read_uuid = λ s. 1; now_text = "now" }

abbrev redis : Redis
redis = record { pending = []; cache = []; market_events = [] }

abbrev book : OrderbookData
book = orderbook_data example_platform codec treasury (some "1") payload

best_bid_ask_is_best_example :
    let best = best_bid_ask number (some book) in
    let answer = order_book number "BTC/USDT" none (some book) in
    (head_price answer.bids ≡ best.0)
    × (head_price answer.asks ≡ best.1)
    × ((price : String) → best.0 ≡ some price → All (λ x. number x.0 ≤ℤ number price) book.bids)
    × ((price : String) → best.1 ≡ some price → All (λ x. number price ≤ℤ number x.0) book.asks)
best_bid_ask_is_best_example = best_bid_ask_is_best number "BTC/USDT" none book

order_book_is_served_example :
    let cache =
      (post_process_market_event example_platform codec treasury
        (some "OrderBookChanged")
        (some "1")
        payload
        redis).cache in
    (bids : Levels) × (asks : Levels) × Perm bids payload.bids
    × Perm asks payload.asks
    × IsOrdered (λ x y. number y.0 ≤ℤ number x.0) bids
    × IsOrdered (λ x y. number x.0 ≤ℤ number y.0) asks
    × (get_order_book example_platform number cache "BTC/USDT" none example_db ≡ (
      ok (record {
        symbol = "BTC/USDT";
        book_sequence = "8";
        bids = map (λ x. (x.0, x.1)) (take 50 bids);
        asks = map (λ x. (x.0, x.1)) (take 50 asks);
        updated_at = some "later";
      }),
      example_db,
    ))
order_book_is_served_example =
    order_book_is_served example_platform codec treasury number (some "1") payload redis "BTC/USDT"
      none example_db example_pair refl refl refl

abbrev request : MarketSubscribePayload
request = record { symbol = some ""; market = some "BTC/USDT" }

abbrev rooms : Rooms
rooms = (6, "market:BTC/USDT") ∷ (5, "market:ETH/USDT") ∷ []

subscribed_receives_example :
    let after = (handle_subscribe example_platform 5 request rooms).1 in
    (exists
        (gets {P = String} 5 "orderbook.update")
        (broadcast_order_book example_platform "BTC/USDT" "book" after)
      ≡ true)
    × (exists
          (gets {P = String} 5 "trade.created")
          (broadcast_trade example_platform "BTC/USDT" "book" after)
        ≡ true)
subscribed_receives_example =
    subscribed_receives example_platform 5 request "BTC/USDT" "BTC/USDT" "book" rooms refl refl

unsubscribed_receives_nothing_example :
    let after = (handle_unsubscribe example_platform 6 request rooms).1 in
    (exists (is_for {P = String} 6) (broadcast_order_book example_platform "BTC/USDT" "book" after)
      ≡ false)
    × (exists (is_for {P = String} 6) (broadcast_trade example_platform "BTC/USDT" "book" after)
        ≡ false)
unsubscribed_receives_nothing_example =
    unsubscribed_receives_nothing example_platform 6 request "BTC/USDT" "BTC/USDT" "book" rooms refl
      refl
