-- ===== src/Terms/Messages.antt =====
-- engine-event-consumer.service.ts: the terms of the orders through a message of the engine.
use hau_cex.Common.{
  ℕ, ◌≡◌, ◌≢◌, refl, sym, subst, Bool, true, false, not, ◌&&◌, Option, none, some, inl, inr, String,
  str_eq, ltb_ℤ, pos, if◌then◌else◌, Option-cases, Bool-cases, arith,
}
use hau_cex.Platform.{Platform}
use hau_cex.Database.Schema.{Db, Order, OrderStatus}
use hau_cex.Database.Table.{find_first, exists}
use hau_cex.Database.Tx.{Tx, Result, ok, err, ◌>>◌, when, transaction}
use hau_cex.EngineEvents.Settlement.{Fresh, order_has_id}
use hau_cex.EngineEvents.Cancellation.{
  handle_order_cancelled, handle_cancel_order_rejected, is_cancel_pending, status_before_cancel,
  set_cancelled, update_order_by_id,
}
use hau_cex.EngineEvents.Cancellation.Effects.{rest, rest-orders}
use hau_cex.EngineEvents.Messages.{Message, EventPayload, Codec, State, get, parse_field_array}
use hau_cex.EngineEvents.Consumer.{
  dispatch, in_tx, create_processed, is_event, with_id, handle_message, set_order_status,
  fits_order, is_pending,
}
use hau_cex.EngineEvents.Consumer.Delivery.{payload_text, step_of, handle_message-db}
use hau_cex.EngineEvents.Consumer.Walk.{malformed}
use hau_cex.Terms.{Follows, Follows-refl, update_first-Follows, update_many-Follows}
use hau_cex.Terms.Trades.{settle_trade-Follows, found_row}

abbrev After : Db → Result (Unit {0}) × Db → Type 0
After db r = Follows db.orders r.1.orders

either :
    (c : Bool) (m n : Tx (Unit {0})) (db : Db)
    → (c ≡ true → After db (m db))
    → After db (n db)
    → After db ((if c then m else n) db)
either true m n db h k = h refl
either false m n db h k = k

when-After :
    (c : Bool) (m : Tx (Unit {0})) (db : Db) → (c ≡ true → After db (m db)) → After db (when c m db)
when-After true m db h = h refl
when-After false m db h = Follows-refl db.orders

then-After :
    (db : Db) (r : Result (Unit {0}) × Db) (k : Tx (Unit {0}))
    → After db r
    → ((d : Db) → (k d).1.orders ≡ d.orders)
    → After db (((λ _. r) >> k) db)
then-After db (err e, d) k h same = h
then-After db (ok _, d) k h same = subst (λ os. Follows db.orders os) (sym (same d)) h

transaction-After :
    (db : Db) (r : Result (Unit {0}) × Db) → After db r → After db (transaction (λ _. r) db)
transaction-After db (ok _, d) h = h
transaction-After db (err e, d) h = Follows-refl db.orders

with_id-After :
    (id : Option ℕ) (k : ℕ → Tx (Unit {0})) (db : Db)
    → ((i : ℕ) → id ≡ some i → After db (k i db))
    → After db (with_id id k db)
with_id-After none k db h = Follows-refl db.orders
with_id-After (some i) k db h = h i refl

-- The engine's answer to a new order.
answered :
    (id : Option ℕ) (status : OrderStatus) (db : Db)
    → status ≢ OrderStatus.pending
    → After db (set_order_status id status db)
answered id status db other =
    update_many-Follows (λ o. fits_order id o && is_pending o.status)
      (λ o. record o { status = status }) db.orders (λ o. refl) (λ o _. (refl, inr other))

status_before_cancel-not : (o : Order) → status_before_cancel o ≢ OrderStatus.pending
status_before_cancel-not o = elim (Bool-cases (ltb_ℤ (pos 0) o.filled_quantity)) [
  | inl some_filled ↦ rw some_filled (λ e. cc)
  | inr none_filled ↦ rw none_filled (λ e. cc)
]

handle_cancel_order_rejected-After :
    (id : ℕ) (db : Db) → After db (handle_cancel_order_rejected id db)
unfolding handle_cancel_order_rejected
handle_cancel_order_rejected-After id db =
    found_row db (find_first (order_has_id id) db.orders) _
      (λ o. when (is_cancel_pending o.status) (step o))
      λ o e. when-After (is_cancel_pending o.status) (step o) db λ pending.
        update_first-Follows o.id (λ x. record x { status = status_before_cancel o }) db.orders
          (λ x. refl) (λ x. (refl, inr (status_before_cancel-not o)))
  where
    step : Order → Tx (Unit {0})
    step o = update_order_by_id o.id λ x. record x { status = status_before_cancel o }

module _ (env : Platform) where
  handle_order_cancelled-After :
      (op id : ℕ) (db : Db) → After db (handle_order_cancelled env op id db)
  unfolding handle_order_cancelled
  handle_order_cancelled-After op id db =
      found_row db (find_first (order_has_id id) db.orders) _ (rest env op) λ o e.
        subst (λ os. Follows db.orders os) (sym (rest-orders env op o db))
          (update_first-Follows o.id set_cancelled db.orders (λ x. refl)
            (λ x. (refl, inr (λ e. cc))))

  module _ (codec : Codec) (treasury_user_id : Option ℕ) where
    module _ (payload : EventPayload) (fresh : Fresh) (db : Db) where
      dispatch-After :
          (t : String) (pair : Option ℕ) (message_id : ℕ)
          → After db (dispatch env codec treasury_user_id t pair message_id payload fresh db)
      unfolding dispatch
      dispatch-After t pair message_id =
          either (str_eq t "MarketOpened") _ _ db (λ _. Follows-refl db.orders)
            (either (str_eq t "OrderOpened") _ _ db
              (λ _. answered payload.order_id OrderStatus.open_ db (λ e. cc))
              (either (str_eq t "OrderRejected") _ _ db
                (λ _. answered payload.order_id OrderStatus.rejected db (λ e. cc))
                (either (str_eq t "EngineFailed") _ _ db (λ _. Follows-refl db.orders)
                  (either (str_eq t "TradeCreated") _ _ db
                    (λ _.
                      settle_trade-Follows env treasury_user_id payload.trade message_id fresh db)
                    (either (str_eq t "OrderCancelled") _ _ db
                      (λ _.
                        with_id-After payload.order_id _ db
                          λ i f. handle_order_cancelled-After fresh.operation_id i db)
                      (either (str_eq t "CancelOrderRejected") _ _ db
                        (λ _.
                          with_id-After payload.order_id _ db
                            λ i _. handle_cancel_order_rejected-After i db)
                        (Follows-refl db.orders)))))))

      created-orders :
          (id : ℕ) (t : String) (d : Db) → (create_processed id t d).1.orders ≡ d.orders
      created-orders id t d = ground arith

      in_tx-After :
          (id : Option ℕ) (t : Option String) (pair : Option ℕ)
          → After db (in_tx env codec treasury_user_id id t pair payload fresh db)
      unfolding in_tx
      in_tx-After none t pair = Follows-refl db.orders
      in_tx-After (some id) none pair =
          when-After (not (exists (is_event id) db.processed_events)) _ db
            λ _. Follows-refl db.orders
      in_tx-After (some id) (some t) pair =
          when-After (not (exists (is_event id) db.processed_events))
            (dispatch env codec treasury_user_id t pair id payload fresh >> create_processed id t)
            db
            λ new.
              then-After db (dispatch env codec treasury_user_id t pair id payload fresh db)
                (create_processed id t) (dispatch-After t pair id) (created-orders id t)

    pub handle_message-Follows :
        (fresh : Fresh) (m : Message) (s : State)
        → Follows s.db.orders (handle_message env codec treasury_user_id fresh m s).1.db.orders
    handle_message-Follows fresh m s =
        elim (Option-cases (codec.parse_json (payload_text env codec treasury_user_id m))) [
          | inl e ↦ rw (malformed env codec treasury_user_id fresh m s e) (Follows-refl s.db.orders)
          | inr (payload, e) ↦
              let id = get "messageId" (parse_field_array m.field_array) in
              let (result, db) =
                handle_message-db env codec treasury_user_id fresh m s payload id e refl in
              rw db (
                transaction-After s.db (step_of env codec treasury_user_id fresh m payload id s.db)
                  (in_tx-After payload fresh s.db _ _ _))
        ]
