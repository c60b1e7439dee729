-- ===== src/Orders/Cancel/Effects.antt =====
-- orders.service.ts: what a request to cancel an order does to the tables.
use hau_cex.Common.{
  ℕ, ◌≡◌, refl, true, [], ◌∷◌, ◌++◌, none, some, arith, Option-cases, inl, inr, ◌≢◌,
}
use hau_cex.Database.Exceptions.{order_not_cancellable}
use hau_cex.Database.Schema.{Db, Order, TradingPair, CommandPayload, CommandType}
use hau_cex.Database.Table.{find_first, update_first, find_first-update_self}
use hau_cex.Database.Tx.{Error, ok, err}
use hau_cex.EngineEvents.Settlement.{order_has_id, pair_has_id}
use hau_cex.Orders.Commands.{Fresh, bump, command_row}
use hau_cex.Orders.Place.{PlaceOrderResult}
use hau_cex.Orders.Cancel.{is_cancellable, set_cancel_pending, cancel_order, cancel_in_tx}

-- The tables after a request that is accepted.
abbrev pub requested : ℕ → ℕ → Fresh → Order → TradingPair → Db → Db
requested user_id order_id fresh o pair db = record db {
  orders = update_first (order_has_id order_id) set_cancel_pending db.orders;
  outbox_events =
      db.outbox_events
      ++ command_row fresh CommandType.cancel_order o.trading_pair_id (db.cmd_seq o.trading_pair_id)
          (CommandPayload.cancel_order o.trading_pair_id pair.symbol order_id user_id fresh.now)
        ∷ [];
  cmd_seq = bump o.trading_pair_id db.cmd_seq;
}

module _ (user_id order_id : ℕ) (fresh : Fresh) (db : Db) where
  no_order :
      (answer : PlaceOrderResult)
      → find_first (order_has_id order_id) db.orders ≡ none
      → (cancel_order user_id order_id fresh db).0 ≢ ok answer
  unfolding cancel_order cancel_in_tx
  no_order answer e h = ground arith

  no_pair :
      (answer : PlaceOrderResult) (o : Order)
      → find_first (order_has_id order_id) db.orders ≡ some o
      → find_first (pair_has_id o.trading_pair_id) db.trading_pairs ≡ none
      → (cancel_order user_id order_id fresh db).0 ≢ ok answer
  unfolding cancel_order cancel_in_tx
  no_pair answer o e f h = ground arith

  of_rows :
      (answer : PlaceOrderResult) (o : Order) (pair : TradingPair)
      → find_first (order_has_id order_id) db.orders ≡ some o
      → find_first (pair_has_id o.trading_pair_id) db.trading_pairs ≡ some pair
      → (cancel_order user_id order_id fresh db).0 ≡ ok answer
      → (o.user_id ≡ user_id)
        × (is_cancellable o.status ≡ true)
        × ((cancel_order user_id order_id fresh db).1 ≡ requested user_id order_id fresh o pair db)
  unfolding cancel_order cancel_in_tx
  of_rows answer o pair fo fp h = ground arith

  -- A request to cancel that is accepted is for an order of the user in a status that may be
  -- cancelled, of a pair that is there. It makes the order CANCEL_PENDING, and appends one
  -- CancelOrder command with the pair's next sequence number; nothing else changes.
  pub cancel_order-requested :
      (answer : PlaceOrderResult)
      → (cancel_order user_id order_id fresh db).0 ≡ ok answer
      → (o : Order) × (pair : TradingPair) × (find_first (order_has_id order_id) db.orders ≡ some o)
        × (find_first (pair_has_id o.trading_pair_id) db.trading_pairs ≡ some pair)
        × (o.user_id ≡ user_id)
        × (is_cancellable o.status ≡ true)
        × ((cancel_order user_id order_id fresh db).1 ≡ requested user_id order_id fresh o pair db)
  cancel_order-requested answer h =
      elim (Option-cases (find_first (order_has_id order_id) db.orders)) [
        | inl e ↦ absurd (no_order answer e h)
        | inr (o, fo) ↦
            elim (Option-cases (find_first (pair_has_id o.trading_pair_id) db.trading_pairs)) [
              | inl e ↦ absurd (no_pair answer o fo e h)
              | inr (pair, fp) ↦
                  let (own, may, e) = of_rows answer o pair fo fp h in
                  (o, pair, fo, fp, own, may, e)
            ]
      ]

  requested_twice :
      (again : Fresh) (o : Order) (pair : TradingPair)
      → find_first (order_has_id order_id) db.orders ≡ some o
      → find_first (pair_has_id o.trading_pair_id) db.trading_pairs ≡ some pair
      → o.user_id ≡ user_id
      → let after = requested user_id order_id fresh o pair db in
        cancel_order user_id order_id again after ≡ (err (Error.http order_not_cancellable), after)
  unfolding cancel_order cancel_in_tx
  requested_twice again o pair fo fp own = ground (
    arith,
    find_first-update_self (order_has_id order_id) set_cancel_pending db.orders o (λ y. refl) fo,
  )

  -- An order whose cancellation has been requested cannot be cancelled again: the second request is
  -- refused with ORDER_NOT_CANCELLABLE and sends no second command.
  pub cancel_order_once :
      (again : Fresh) (answer : PlaceOrderResult)
      → (cancel_order user_id order_id fresh db).0 ≡ ok answer
      → let after = (cancel_order user_id order_id fresh db).1 in
        cancel_order user_id order_id again after ≡ (err (Error.http order_not_cancellable), after)
  cancel_order_once again answer h =
      let (o, pair, fo, fp, own, may, e) = cancel_order-requested answer h in
      rw e (requested_twice again o pair fo fp own)
