-- ===== src/EngineEvents/Consumer/Statuses.antt =====
-- engine-event-consumer.service.ts: the events that only change a status.
use hau_cex.Common.{ℕ, ◌≡◌, refl, ◌∙◌, ◌&&◌, Option, some, if◌then◌else◌}
use hau_cex.Platform.{Platform}
use hau_cex.Database.Schema.{Db, Order, OrderStatus}
use hau_cex.Database.Table.{find_first, update_many, find_first_holds, find_first-update_many}
use hau_cex.EngineEvents.Settlement.{Fresh, order_has_id}
use hau_cex.EngineEvents.Messages.{EventPayload, Codec}
use hau_cex.EngineEvents.Consumer.{dispatch, fits_order, is_pending}

-- From PENDING to the status; any other order is as it was.
abbrev pub answered : OrderStatus → Order → Order
answered status o = if is_pending o.status then record o { status = status } else o

module _ (env : Platform) (codec : Codec) (treasury_user_id : Option ℕ) where
  module _ (pair : Option ℕ) (message_id : ℕ) (payload : EventPayload) (fresh : Fresh)
      (db : Db) where
    answered_found :
        (status : OrderStatus) (order_id : ℕ) (o : Order)
        → find_first (order_has_id order_id) db.orders ≡ some o
        → find_first (order_has_id order_id) (
            update_many
              (λ x. fits_order (some order_id) x && is_pending x.status)
              (λ x. record x { status = status })
              db.orders)
          ≡ some (answered status o)
    answered_found status order_id o e =
        find_first-update_many (order_has_id order_id) _ _ db.orders o (λ y. refl) e
        ∙ rw (find_first_holds (order_has_id order_id) db.orders o e) refl

    -- The engine's answer to a new order makes it OPEN or REJECTED if it is PENDING, and leaves it
    -- otherwise. Neither event touches a wallet or the ledger: what a rejected order has locked
    -- stays locked.
    pub answers_keep_locks :
        (order_id : ℕ) (o : Order)
        → payload.order_id ≡ some order_id
        → find_first (order_has_id order_id) db.orders ≡ some o
        → let opened =
            dispatch env codec treasury_user_id "OrderOpened" pair message_id payload fresh db in
          let refused =
            dispatch env codec treasury_user_id "OrderRejected" pair message_id payload fresh db in
          (find_first (order_has_id order_id) opened.1.orders ≡ some (answered OrderStatus.open_ o))
          × (find_first (order_has_id order_id) refused.1.orders
              ≡ some (answered OrderStatus.rejected o))
          × (opened.1.wallets ≡ db.wallets)
          × (refused.1.wallets ≡ db.wallets)
          × (opened.1.ledger_entries ≡ db.ledger_entries)
          × (refused.1.ledger_entries ≡ db.ledger_entries)
    unfolding dispatch
    answers_keep_locks order_id o id e = rw id (
      answered_found OrderStatus.open_ order_id o e,
      answered_found OrderStatus.rejected order_id o e,
      refl,
      refl,
      refl,
      refl,
    )
