-- ===== src/EngineEvents/Cancellation.antt =====
-- apps/backend/src/modules/engine-events/order-cancellation.service.ts.
pub mod Effects
pub mod Unlock
use hau_cex.Common.{ℕ, Bool, true, false, not, List, Option, ℤ, pos, ltb_ℤ, ◌==◌, if◌then◌else◌}
use hau_cex.Platform.{Platform}
use hau_cex.Database.Schema.{Db, Order, OrderStatus, ReferenceType}
use hau_cex.Database.Table.{find_first, update_first}
use hau_cex.Database.Tx.{Tx, Error, ◌>>=◌, ◌>>◌, pure, gets, or_throw, modify, when}
use hau_cex.Wallets.Balance.{WalletMutationParams, move_locked_to_available}
use hau_cex.EngineEvents.Settlement.{order_has_id, find_wallet}

abbrev pub is_cancel_pending : OrderStatus → Bool
is_cancel_pending OrderStatus.cancel_pending = true
is_cancel_pending _ = false

abbrev pub set_cancelled : Order → Order
set_cancelled o = record o { status = OrderStatus.cancelled; remaining_locked_amount = pos 0 }

abbrev pub find_order : ℕ → Tx Order
find_order id = do
  row ← gets (λ db. find_first (order_has_id id) db.orders)
  or_throw row Error.record_not_found

abbrev pub update_order_by_id : ℕ → (Order → Order) → Tx (Unit {0})
update_order_by_id id f =
    modify λ db. record db { orders = update_first (order_has_id id) f db.orders }

-- The status that a rejected cancellation goes back to.
abbrev pub status_before_cancel : Order → OrderStatus
status_before_cancel o =
    if ltb_ℤ (pos 0) o.filled_quantity then OrderStatus.partially_filled else OrderStatus.open_

module _ (env : Platform) where
  -- The parameters of the unlock: `operation_id` is a fresh uuid.
  abbrev pub unlock_params : ℕ → ℕ → Order → WalletMutationParams
  unlock_params operation_id wallet_id o = record {
    wallet_id = wallet_id;
    amount = o.remaining_locked_amount;
    operation_id = operation_id;
    reference_type = ReferenceType.order;
    reference_id = o.id;
  }

  -- Step 3: what is still locked goes back to the available balance.
  unfoldable pub unlock_remaining : ℕ → Order → Tx (Unit {0})
  unlock_remaining operation_id o = do
    w ← find_wallet o.user_id o.locked_asset_id
    move_locked_to_available env (unlock_params operation_id w.id o)

  -- `handleOrderCancelled`, of the payload's order.
  unfoldable pub handle_order_cancelled : ℕ → ℕ → Tx (Unit {0})
  handle_order_cancelled operation_id order_id = do
    o ← find_order order_id
    update_order_by_id o.id set_cancelled
    when (ltb_ℤ (pos 0) o.remaining_locked_amount) (unlock_remaining operation_id o)

-- `handleCancelOrderRejected`.
unfoldable pub handle_cancel_order_rejected : ℕ → Tx (Unit {0})
handle_cancel_order_rejected order_id = do
  o ← find_order order_id
  when (is_cancel_pending o.status)
      (update_order_by_id o.id λ x. record x { status = status_before_cancel o })
