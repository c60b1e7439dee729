-- ===== src/Orders/Cancel/Accepted.antt =====
-- orders.service.ts: what an accepted request to cancel an order has done.
use hau_cex.Common.{
  ℕ, suc, ◌≡◌, ◌⊎◌, inl, inr, refl, true, [], ◌∷◌, ◌++◌, none, some, ◌==◌, if◌then◌else◌,
}
use hau_cex.Database.Schema.{
  Db, Order, OrderStatus, TradingPair, OutboxStatus, CommandPayload, CommandType,
}
use hau_cex.Database.Table.{find_first, update_first}
use hau_cex.Database.Tx.{ok}
use hau_cex.EngineEvents.Settlement.{order_has_id, pair_has_id}
use hau_cex.Orders.Commands.{Fresh}
use hau_cex.Orders.Place.{PlaceOrderResult}
use hau_cex.Orders.Cancel.{is_cancellable, cancel_order}
use hau_cex.Orders.Cancel.Effects.{cancel_order-requested}

cancellable_statuses :
    (s : OrderStatus)
    → is_cancellable s ≡ true
    → (s ≡ OrderStatus.pending) ⊎ (s ≡ OrderStatus.open_) ⊎ (s ≡ OrderStatus.partially_filled)
cancellable_statuses OrderStatus.pending h = inl refl
cancellable_statuses OrderStatus.open_ h = inr (inl refl)
cancellable_statuses OrderStatus.partially_filled h = inr (inr refl)
cancellable_statuses OrderStatus.filled h = cc
cancellable_statuses OrderStatus.cancel_pending h = cc
cancellable_statuses OrderStatus.cancelled h = cc
cancellable_statuses OrderStatus.rejected h = cc

-- A request to cancel that is accepted is for an order of the user that is PENDING, OPEN or
-- PARTIALLY_FILLED, of a pair that is there, whatever the status of the market. It makes the order
-- CANCEL_PENDING, and appends one PENDING CancelOrder command with the pair's next sequence number;
-- nothing else changes.
pub cancel_order_requests :
    (user_id order_id : ℕ) (fresh : Fresh) (db : Db) (answer : PlaceOrderResult)
    → (cancel_order user_id order_id fresh db).0 ≡ ok answer
    → (o : Order) × (pair : TradingPair) × (find_first (order_has_id order_id) db.orders ≡ some o)
      × (find_first (pair_has_id o.trading_pair_id) db.trading_pairs ≡ some pair)
      × (o.user_id ≡ user_id)
      × ((o.status ≡ OrderStatus.pending)
          ⊎ (o.status ≡ OrderStatus.open_)
          ⊎ (o.status ≡ OrderStatus.partially_filled))
      × ((cancel_order user_id order_id fresh db).1 ≡ record db {
        orders =
            update_first
              (order_has_id order_id)
              (λ x. record x { status = OrderStatus.cancel_pending })
              db.orders;
        outbox_events =
            db.outbox_events
            ++ record {
              id = fresh.outbox_id;
              message_id = fresh.message_id;
              stream_name = "stream:engine:commands";
              message_type = CommandType.cancel_order;
              payload =
                  CommandPayload.cancel_order o.trading_pair_id pair.symbol order_id user_id
                    fresh.now;
              status = OutboxStatus.pending;
              partition_key = some o.trading_pair_id;
              command_sequence = some (db.cmd_seq o.trading_pair_id);
              retry_count = 0;
              last_error = none;
              next_retry_at = none;
              created_at = fresh.now;
              published_at = none;
            }
              ∷ [];
        cmd_seq = λ k. if k == o.trading_pair_id then suc (db.cmd_seq k) else db.cmd_seq k;
      })
cancel_order_requests user_id order_id fresh db answer h =
    let (o, pair, fo, fp, own, may, e) =
      cancel_order-requested user_id order_id fresh db answer h in
    (o, pair, fo, fp, own, cancellable_statuses o.status may, e)
