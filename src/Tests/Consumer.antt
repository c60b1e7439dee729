-- ===== src/Tests/Consumer.antt =====
-- Messages of the engine on the example: the trade, and an answer to a new order.
use Prim.Native.String.{len}
use hau_cex.Common.{
  ◌≡◌, refl, subst, some, none, some-injective, not, [], ◌∷◌, str_eq, ◌==◌, filter, take,
  if◌then◌else◌,
}
use hau_cex.Common.Int.{◌+ℤ◌, ◌-ℤ◌, neg_ℤ}
use hau_cex.Database.Schema.{Db, Order, TradingPair, OrderStatus}
use hau_cex.Database.Table.{find_first}
use hau_cex.Database.Tx.{ok, err, Error, Result}
use hau_cex.Wallets.Balance.{debit_locked, credit_available}
use hau_cex.EngineEvents.Settlement.{
  order_has_id, settle_trade, settle_between, move_funds, debit_user, credit_user, collect_fee,
  find_or_create_treasury_wallet,
}
use hau_cex.EngineEvents.Settlement.Funds.{FeesAreExact}
use hau_cex.EngineEvents.Messages.{
  Message, EventPayload, Codec, Redis, State, Fields, get, parse_field_array,
}
use hau_cex.EngineEvents.Messages.Parsing.{flatten, last_value, parse_field_array-flatten}
use hau_cex.EngineEvents.Consumer.{
  dispatch, in_tx, handle_message, drain_pending, post_process_market_event,
}
use hau_cex.EngineEvents.Consumer.{invalid, deliver, process_batch}
use hau_cex.EngineEvents.Loop.{run_passes}
use hau_cex.EngineEvents.Loop.Waiting.{Waits, failed_batch-Waits}
use hau_cex.EngineEvents.Consumer.Delivery.{handle_message_acks, handle_message_once}
use hau_cex.EngineEvents.Consumer.Drain.{drain_pending_ends}
use hau_cex.EngineEvents.Consumer.Conservation.{TradeIsExact}
use hau_cex.EngineEvents.Consumer.Statuses.{answered, answers_keep_locks}
use hau_cex.Testing.{example_platform, example_db, example_pair, buy_order}
use hau_cex.Tests.Trades.{trade, fresh, treasury, fees}

abbrev pub payload : EventPayload
payload = record {
  trading_pair_id = some "1";
  market = "BTC/USDT";
  order_id = some 100;
  trade = trade;
  book_sequence = none;
  bids = [];
  asks = [];
  changed_at = none;
}

-- The payload is read from one text only; a uuid is the length of its text.
abbrev pub codec : Codec
codec = record {
  parse_json = λ s. if str_eq s "{trade}" then some payload else none;
  read_uuid = len;
  now_text = "now";
}

abbrev fields : Fields
fields =
    ("messageId", "abc")
    ∷ ("messageType", "TradeCreated")
    ∷ ("payload", "{}")
    ∷ ("payload", "{trade}")
    ∷ []

abbrev pub message : Message
message = record { id = 1; field_array = flatten fields }

abbrev copy : Message
copy = record { id = 9; field_array = flatten fields }

abbrev malformed : Message
malformed = record { id = 2; field_array = "messageId" ∷ "x" ∷ "payload" ∷ [] }

abbrev pub redis : Redis
redis = record { pending = message ∷ malformed ∷ []; cache = []; market_events = [] }

abbrev pub state : State
state = record { db = example_db; redis = redis }

abbrev handled : Message → State → Result (Unit {0}) × State
handled = handle_message example_platform codec treasury fresh

is_handled : (handled message state).0 ≡ ok tt
unfolding handle_message dispatch in_tx post_process_market_event settle_trade settle_between
    move_funds debit_user credit_user collect_fee find_or_create_treasury_wallet debit_locked
    credit_available ◌+ℤ◌ ◌-ℤ◌ neg_ℤ
is_handled = refl

parse_field_array-flatten_example :
    get "payload" (parse_field_array (flatten fields)) ≡ last_value "payload" fields none
parse_field_array-flatten_example = parse_field_array-flatten "payload" fields

handle_message_acks_example :
    let after = handled message state in
    (after.0 ≡ ok tt → after.1.redis.pending ≡ filter (λ x. not (x.id == 1)) redis.pending)
    × ((e : Error)
        → after.0 ≡ err e
        → (after.1.redis ≡ redis)
          × (after.1.db ≡ record example_db {
            order_seq = after.1.db.order_seq;
            cmd_seq = after.1.db.cmd_seq;
          }))
handle_message_acks_example =
    handle_message_acks example_platform codec treasury fresh message state

handle_message_once_example :
    let applied = (handled message state).1.db in
    let after = handled copy (record { db = applied; redis = redis }) in
    (after.0 ≡ ok tt)
    × (after.1.db ≡ applied)
    × (after.1.redis.pending ≡ filter (λ x. not (x.id == 9)) redis.pending)
handle_message_once_example =
    handle_message_once example_platform codec treasury fresh fresh message copy state redis payload
      refl refl is_handled

drain_pending_ends_example :
    (r : Result (Unit {0}) × State) × (drain_pending example_platform codec treasury 2
        (λ _. fresh)
        state
      ≡ some r)
    × (r.0 ≡ ok tt → r.1.redis.pending ≡ [])
drain_pending_ends_example = drain_pending_ends example_platform codec treasury (λ _. fresh) state

pub exact :
    (p : EventPayload)
    → (if str_eq "{trade}" "{trade}" then some payload else none) ≡ some p
    → TradeIsExact example_platform codec treasury 2 p.trade example_db
exact p e pair found =
    subst (λ q. FeesAreExact example_platform treasury pair q.trade) (some-injective _ _ e)
      (subst (λ t. FeesAreExact example_platform treasury t trade)
        (some-injective _ _ (at_pair p e pair found)) fees)
  where
    at_pair :
        (p : EventPayload)
        → (if str_eq "{trade}" "{trade}" then some payload else none) ≡ some p
        → (pair : TradingPair)
        → find_first (λ t. t.id == p.trade.trading_pair_id) example_db.trading_pairs ≡ some pair
        → some example_pair ≡ some pair
    at_pair p e pair =
        subst
          (λ q.
            find_first (λ t. t.id == q.trade.trading_pair_id) example_db.trading_pairs ≡ some pair
            → some example_pair ≡ some pair)
          (some-injective _ _ e) (λ f. f)

abbrev waiting : Order
waiting = record buy_order { status = OrderStatus.pending }

abbrev waiting_db : Db
waiting_db = record example_db { orders = waiting ∷ [] }

answers_keep_locks_example :
    let opened =
      dispatch example_platform codec treasury "OrderOpened" (some 1) 3 payload fresh waiting_db in
    let refused =
      dispatch example_platform codec treasury "OrderRejected"
        (some 1)
        3
        payload
        fresh
        waiting_db in
    (find_first (order_has_id 100) opened.1.orders ≡ some (answered OrderStatus.open_ waiting))
    × (find_first (order_has_id 100) refused.1.orders
        ≡ some (answered OrderStatus.rejected waiting))
    × (opened.1.wallets ≡ waiting_db.wallets)
    × (refused.1.wallets ≡ waiting_db.wallets)
    × (opened.1.ledger_entries ≡ waiting_db.ledger_entries)
    × (refused.1.ledger_entries ≡ waiting_db.ledger_entries)
answers_keep_locks_example =
    answers_keep_locks example_platform codec treasury (some 1) 3 payload fresh waiting_db 100
      waiting refl refl

-- A trade without the id of the message, and a message behind it.
abbrev broken : Message
broken = record {
  id = 5;
  field_array = "messageType" ∷ "TradeCreated" ∷ "payload" ∷ "{trade}" ∷ [];
}

abbrev broken_state : State
broken_state = deliver example_platform codec treasury (take 10 (broken ∷ malformed ∷ [])) state

is_refused : (handled broken broken_state).0 ≡ err invalid
unfolding handle_message in_tx
is_refused = refl

failed_batch-Waits_example : Waits 2 (
    run_passes example_platform codec treasury
      ((copy ∷ [], λ id. fresh) ∷ [])
      (process_batch example_platform codec treasury
        (λ id. fresh)
        (broken ∷ malformed ∷ [])
        state).1)
failed_batch-Waits_example =
    failed_batch-Waits example_platform codec treasury 2 (λ id. fresh) broken (malformed ∷ []) state
      invalid ((copy ∷ [], λ id. fresh) ∷ []) is_refused refl ((refl, tt), tt)
