-- ===== src/Orders/Cancel/Rejected.antt =====
-- A request to cancel that the engine refuses: orders.service.ts with order-cancellation.service.ts.
use hau_cex.Common.{
  ℕ, ◌≡◌, ◌⊎◌, inl, inr, refl, sym, subst, ap, ◌∙◌, some, pos, ◌≤ℤ◌, ==_iff, arith,
}
use hau_cex.Database.Schema.{Db, Order, OrderStatus}
use hau_cex.Database.Table.{
  find_first, update_first, find_first_holds, find_first-update_self, update_first-undone,
}
use hau_cex.Database.Tx.{ok}
use hau_cex.EngineEvents.Settlement.{order_has_id}
use hau_cex.EngineEvents.Cancellation.{handle_cancel_order_rejected, status_before_cancel}
use hau_cex.Orders.Commands.{Fresh}
use hau_cex.Orders.Place.{PlaceOrderResult}
use hau_cex.Orders.Cancel.{set_cancel_pending, cancel_order}
use hau_cex.Orders.Cancel.Effects.{requested, cancel_order-requested}

abbrev revert : OrderStatus → Order → Order
revert status x = record x { status = status }

-- The handler, at an order that waits for the engine.
rejected-at :
    (order_id : ℕ) (o : Order) (db : Db)
    → find_first (order_has_id order_id) db.orders ≡ some o
    → o.status ≡ OrderStatus.cancel_pending
    → handle_cancel_order_rejected order_id db ≡ (
      ok tt,
      record db {
        orders = update_first (order_has_id o.id) (revert (status_before_cancel o)) db.orders;
      },
    )
unfolding handle_cancel_order_rejected
rejected-at order_id o db fo pending = ground arith

-- The status of an order that is OPEN with nothing filled or PARTIALLY_FILLED with something filled.
was_status :
    (o : Order)
    → ((o.status ≡ OrderStatus.open_) × (o.filled_quantity ≡ pos 0))
      ⊎ ((o.status ≡ OrderStatus.partially_filled) × (pos 1 ≤ℤ o.filled_quantity))
    → o.status ≡ status_before_cancel o
was_status o (inl (s, none_filled)) = rw (s, none_filled) refl
was_status o (inr (s, some_filled)) = s ∙ ground (arith, some_filled)

module _ (user_id order_id : ℕ) (fresh : Fresh) (db : Db) where
  -- When the engine refuses a cancellation that was requested for an order, the orders are as they
  -- were before the request, if the order was OPEN with nothing filled or PARTIALLY_FILLED with
  -- something filled.
  pub rejected_cancel_restores :
      (answer : PlaceOrderResult) (o : Order)
      → (cancel_order user_id order_id fresh db).0 ≡ ok answer
      → find_first (order_has_id order_id) db.orders ≡ some o
      → ((o.status ≡ OrderStatus.open_) × (o.filled_quantity ≡ pos 0))
        ⊎ ((o.status ≡ OrderStatus.partially_filled) × (pos 1 ≤ℤ o.filled_quantity))
      → let r = handle_cancel_order_rejected order_id (cancel_order user_id order_id fresh db).1 in
        (r.0 ≡ ok tt) × (r.1.orders ≡ db.orders)
  rejected_cancel_restores answer o h fo filled =
      let consistent = was_status o filled in
      let (o', pair, fo', fp, own, may, e) =
        cancel_order-requested user_id order_id fresh db answer h in
      let found =
        find_first-update_self (order_has_id order_id) set_cancel_pending db.orders o (λ y. refl)
          fo in
      let at =
        rejected-at order_id (set_cancel_pending o) (requested user_id order_id fresh o' pair db)
          found refl in
      rw (e, at)
        (
          refl,
          subst
              (λ i.
                update_first (order_has_id i) (revert (status_before_cancel o))
                  (update_first (order_has_id order_id) set_cancel_pending db.orders)
                ≡ db.orders)
              (sym own_id)
              (update_first-undone (order_has_id order_id) set_cancel_pending
                (revert (status_before_cancel o)) db.orders o (λ y. refl) fo
                (ap (λ s. revert s o) (sym consistent))),
        )
    where
      own_id : o.id ≡ order_id
      own_id = (==_iff _ _).0 (find_first_holds (order_has_id order_id) db.orders o fo)
