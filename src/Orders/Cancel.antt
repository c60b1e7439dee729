-- ===== src/Orders/Cancel.antt =====
-- apps/backend/src/modules/orders/orders.service.ts: `cancelOrder`.
pub mod Effects
pub mod Accepted
pub mod Rejected
use hau_cex.Common.{ℕ, Bool, true, false, not, Option, none, some, ◌==◌, if◌then◌else◌}
use hau_cex.Database.Exceptions.{order_not_found, order_not_cancellable}
use hau_cex.Database.Schema.{Db, Order, OrderStatus, TradingPair, CommandPayload, CommandType}
use hau_cex.Database.Table.{find_first}
use hau_cex.Database.Tx.{Tx, Error, ◌>>=◌, ◌>>◌, pure, gets, or_throw, throw_if, transaction}
use hau_cex.EngineEvents.Settlement.{order_has_id, pair_has_id}
use hau_cex.EngineEvents.Cancellation.{update_order_by_id}
use hau_cex.Orders.Commands.{Fresh, next_command_sequence, command_row, create_outbox_event}
use hau_cex.Orders.Place.{PlaceOrderResult}

-- `cancellableStatuses.includes(status)`.
abbrev pub is_cancellable : OrderStatus → Bool
is_cancellable OrderStatus.pending = true
is_cancellable OrderStatus.open_ = true
is_cancellable OrderStatus.partially_filled = true
is_cancellable _ = false

abbrev pub set_cancel_pending : Order → Order
set_cancel_pending o = record o { status = OrderStatus.cancel_pending }

-- The order joined to its trading pair: no row where the order has no pair.
unfoldable pub cancel_in_tx : ℕ → ℕ → Fresh → Tx PlaceOrderResult
cancel_in_tx user_id order_id fresh = do
  row ← gets (λ db. find_first (order_has_id order_id) db.orders)
  o ← or_throw row (Error.http order_not_found)
  joined ← gets (λ db. find_first (pair_has_id o.trading_pair_id) db.trading_pairs)
  pair ← or_throw joined (Error.http order_not_found)
  throw_if (not (o.user_id == user_id)) (Error.http order_not_found)
  throw_if (not (is_cancellable o.status)) (Error.http order_not_cancellable)
  update_order_by_id order_id set_cancel_pending
  cmd_seq ← next_command_sequence o.trading_pair_id
  create_outbox_event (
      command_row fresh CommandType.cancel_order o.trading_pair_id cmd_seq
        (CommandPayload.cancel_order o.trading_pair_id pair.symbol order_id user_id fresh.now))
  pure (record { order_id = order_id; status = OrderStatus.cancel_pending })

-- `cancelOrder`.
unfoldable pub cancel_order : ℕ → ℕ → Fresh → Tx PlaceOrderResult
unfolding cancel_in_tx
cancel_order user_id order_id fresh = transaction (cancel_in_tx user_id order_id fresh)
