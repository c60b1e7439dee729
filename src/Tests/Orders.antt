-- ===== src/Tests/Orders.antt =====
-- Placing and cancelling orders on the example.
use hau_cex.Common.{
  ◌≡◌, ◌⊎◌, inl, refl, ◌*◌, [], ◌∷◌, ◌++◌, some, none, ℤ, pos, negsuc, neg_ℤ, ◌+ℤ◌, ◌≤ℤ◌, ℕ, suc,
  ◌==◌, str_eq, if◌then◌else◌,
}
use hau_cex.Database.Exceptions.{idempotency_conflict}
use hau_cex.Database.Schema.{
  Db, Order, OrderSide, OrderStatus, TradingPair, TradingPairStatus, Wallet, LedgerBalanceType,
  LedgerEntryType, ReferenceType, OutboxStatus, CommandPayload, CommandType,
}
use hau_cex.Database.Table.{find_first, update_first}
use hau_cex.Database.Tx.{ok, err, Error, Result}
use hau_cex.Wallets.Balance.{has_id, move_available_to_locked}
use hau_cex.EngineEvents.Settlement.{order_has_id, pair_has_id, owned_by}
use hau_cex.EngineEvents.Cancellation.{handle_cancel_order_rejected}
use hau_cex.Orders.Commands.{Fresh}
use hau_cex.Orders.Place.{
  CreateOrderDto, PlaceOrderResult, has_symbol, hash_order_payload, place_order, place_in_tx,
  place_new, open_order,
}
use hau_cex.Orders.Place.Accepted.{Fits, Pays, place_order_places}
use hau_cex.Orders.Place.Idempotency.{place_order_once}
use hau_cex.Orders.Cancel.{cancel_order, cancel_in_tx}
use hau_cex.Orders.Cancel.Accepted.{cancel_order_requests}
use hau_cex.Orders.Cancel.Rejected.{rejected_cancel_restores}
use hau_cex.Testing.{unit, example_platform, example_db, example_pair, buy_order}

abbrev pub dto : CreateOrderDto
dto = record {
  symbol = "BTC/USDT";
  side = OrderSide.buy;
  price = pos (50 * unit);
  quantity = pos unit;
}

abbrev other_dto : CreateOrderDto
other_dto = record dto { side = OrderSide.sell }

abbrev pub fresh : ℕ → Fresh
fresh n = record { outbox_id = n; message_id = n; now = 2000 }

abbrev answer : PlaceOrderResult
answer = record { order_id = 300; status = OrderStatus.pending }

abbrev place : Db → Result PlaceOrderResult × Db
place = place_order example_platform 300 1 "second" dto (fresh 301)

is_placed : (place example_db).0 ≡ ok answer
unfolding place_order place_in_tx place_new open_order move_available_to_locked
is_placed = refl

place_order_places_example :
    (pair : TradingPair) × (read : Wallet) × (w : Wallet) × (asset : ℕ) × (amount : ℤ) × (find_first
        (has_symbol "BTC/USDT")
        example_db.trading_pairs
      ≡ some pair)
    × (pair.status ≡ TradingPairStatus.ready)
    × Fits example_platform pair dto
    × Pays example_platform pair dto asset amount
    × (find_first (owned_by 1 asset) example_db.wallets ≡ some read)
    × (find_first (has_id read.id) example_db.wallets ≡ some w)
    × ((w.available_balance ≤ℤ negsuc 0) ⊎ (amount ≤ℤ w.available_balance))
    × (pos 1 ≤ℤ amount)
    × (place_order example_platform 300 1 "second" dto (fresh 301) example_db ≡ (
      ok (record { order_id = 300; status = OrderStatus.pending }),
      record example_db {
        wallets =
            update_first
              (has_id read.id)
              (λ x. record x {
                available_balance = x.available_balance +ℤ neg_ℤ amount;
                locked_balance = x.locked_balance +ℤ amount;
              })
              example_db.wallets;
        ledger_entries =
            example_db.ledger_entries
            ++ record {
              wallet_id = w.id;
              user_id = w.user_id;
              asset_id = w.asset_id;
              entry_type = LedgerEntryType.order_lock;
              balance_type = LedgerBalanceType.available;
              amount = neg_ℤ amount;
              before_balance = w.available_balance;
              after_balance = example_platform.minus w.available_balance amount;
              reference_type = ReferenceType.order;
              reference_id = 300;
              operation_id = 300;
            }
              ∷ record {
                wallet_id = w.id;
                user_id = w.user_id;
                asset_id = w.asset_id;
                entry_type = LedgerEntryType.order_lock;
                balance_type = LedgerBalanceType.locked;
                amount = amount;
                before_balance = w.locked_balance;
                after_balance = example_platform.plus w.locked_balance amount;
                reference_type = ReferenceType.order;
                reference_id = 300;
                operation_id = 300;
              }
              ∷ [];
        orders =
            example_db.orders
            ++ record {
              id = 300;
              user_id = 1;
              trading_pair_id = pair.id;
              side = OrderSide.buy;
              status = OrderStatus.pending;
              price = dto.price;
              quantity = dto.quantity;
              filled_quantity = pos 0;
              remaining_quantity = dto.quantity;
              locked_asset_id = asset;
              locked_amount = amount;
              remaining_locked_amount = amount;
              order_sequence = example_db.order_seq pair.id;
              idempotency_key = "second";
              idempotency_payload_hash = hash_order_payload example_platform dto;
            }
              ∷ [];
        outbox_events =
            example_db.outbox_events
            ++ record {
              id = 301;
              message_id = 301;
              stream_name = "stream:engine:commands";
              message_type = CommandType.place_order;
              payload =
                  CommandPayload.place_order pair.id pair.symbol 300 1 OrderSide.buy
                    (example_platform.to_fixed18 dto.price)
                    (example_platform.to_fixed18 dto.quantity)
                    (example_db.order_seq pair.id)
                    2000;
              status = OutboxStatus.pending;
              partition_key = some pair.id;
              command_sequence = some (example_db.cmd_seq pair.id);
              retry_count = 0;
              last_error = none;
              next_retry_at = none;
              created_at = 2000;
              published_at = none;
            }
              ∷ [];
        order_seq =
            λ k. if k == pair.id then suc (example_db.order_seq k) else example_db.order_seq k;
        cmd_seq = λ k. if k == pair.id then suc (example_db.cmd_seq k) else example_db.cmd_seq k;
      },
    ))
place_order_places_example =
    place_order_places example_platform 300 1 "second" dto (fresh 301) example_db answer refl
      is_placed

place_order_once_example :
    let after = (place example_db).1 in
    place_order example_platform 302 1 "second" other_dto (fresh 303) after ≡ (
      if str_eq
            (hash_order_payload example_platform dto)
            (hash_order_payload example_platform other_dto)
          then ok answer
          else err (Error.http idempotency_conflict),
      after,
    )
place_order_once_example =
    place_order_once example_platform 1 "second" 300 302 dto other_dto (fresh 301) (fresh 303)
      example_db answer is_placed

abbrev cancel_answer : PlaceOrderResult
cancel_answer = record { order_id = 100; status = OrderStatus.cancel_pending }

is_requested : (cancel_order 1 100 (fresh 401) example_db).0 ≡ ok cancel_answer
unfolding cancel_order cancel_in_tx
is_requested = refl

-- A PENDING order of a market that is RECOVERING.
abbrev stopped : Db
stopped = record example_db {
  orders = record buy_order { status = OrderStatus.pending } ∷ [];
  trading_pairs = record example_pair { status = TradingPairStatus.recovering } ∷ [];
}

is_stopped : (cancel_order 1 100 (fresh 401) stopped).0 ≡ ok cancel_answer
unfolding cancel_order cancel_in_tx
is_stopped = refl

cancel_order_requests_example :
    (o : Order) × (pair : TradingPair) × (find_first (order_has_id 100) stopped.orders ≡ some o)
    × (find_first (pair_has_id o.trading_pair_id) stopped.trading_pairs ≡ some pair)
    × (o.user_id ≡ 1)
    × ((o.status ≡ OrderStatus.pending)
        ⊎ (o.status ≡ OrderStatus.open_)
        ⊎ (o.status ≡ OrderStatus.partially_filled))
    × ((cancel_order 1 100 (fresh 401) stopped).1 ≡ record stopped {
      orders =
          update_first
            (order_has_id 100)
            (λ x. record x { status = OrderStatus.cancel_pending })
            stopped.orders;
      outbox_events =
          stopped.outbox_events
          ++ record {
            id = 401;
            message_id = 401;
            stream_name = "stream:engine:commands";
            message_type = CommandType.cancel_order;
            payload = CommandPayload.cancel_order o.trading_pair_id pair.symbol 100 1 2000;
            status = OutboxStatus.pending;
            partition_key = some o.trading_pair_id;
            command_sequence = some (stopped.cmd_seq o.trading_pair_id);
            retry_count = 0;
            last_error = none;
            next_retry_at = none;
            created_at = 2000;
            published_at = none;
          }
            ∷ [];
      cmd_seq = λ k. if k == o.trading_pair_id then suc (stopped.cmd_seq k) else stopped.cmd_seq k;
    })
cancel_order_requests_example =
    cancel_order_requests 1 100 (fresh 401) stopped cancel_answer is_stopped

rejected_cancel_restores_example :
    let r = handle_cancel_order_rejected 100 (cancel_order 1 100 (fresh 401) example_db).1 in
    (r.0 ≡ ok tt) × (r.1.orders ≡ example_db.orders)
rejected_cancel_restores_example =
    rejected_cancel_restores 1 100 (fresh 401) example_db cancel_answer buy_order is_requested refl
      (inl (refl, refl))
