-- ===== src/System/Terms.antt =====
-- The orders in the states that the backend comes to.
use hau_cex.Common.{
  ℕ, ◌≡◌, ◌≢◌, ◌⊎◌, refl, sym, subst, ap, List, Option, some, inl, inr, String, Option-cases,
}
use hau_cex.Platform.{Platform}
use hau_cex.Database.Schema.{Db, Order, OrderStatus}
use hau_cex.Database.Table.{find_first}
use hau_cex.Database.Tx.{Result, ok, err, transaction-err}
use hau_cex.EngineEvents.Settlement.{order_has_id}
use hau_cex.EngineEvents.Messages.{Message, Codec}
use hau_cex.Orders.Commands.{Fresh}
use hau_cex.Orders.Place.{CreateOrderDto, PlaceOrderResult, has_key, place_in_tx, place_order}
use hau_cex.Orders.Place.Effects.{place_order-placed}
use hau_cex.Orders.Place.Conservation.{replayed}
use hau_cex.Orders.Cancel.{cancel_order, cancel_in_tx, set_cancel_pending}
use hau_cex.Orders.Cancel.Effects.{cancel_order-requested}
use hau_cex.Auth.{AuthPlatform}
use hau_cex.Terms.{
  terms, Follows, Follows-refl, Follows-trans, update_first-Follows, append-Follows,
}
use hau_cex.Terms.Messages.{handle_message-Follows}
use hau_cex.System.{System, Step, Reach, consumer_of}
use hau_cex.System.Frames.{
  bootstrap_markets-money, register-money, login-money, refresh-money, logout-money,
}

-- The orders are as they were.
same_orders : (before after : List Order) → after ≡ before → Follows before after
same_orders before after e = subst (λ os. Follows before os) (sym e) (Follows-refl before)

module _ (env : Platform) (order_id user_id : ℕ) (key : String) (dto : CreateOrderDto)
    (fresh : Fresh) (db : Db) where
  place_order-Follows :
      Follows db.orders (place_order env order_id user_id key dto fresh db).1.orders
  unfolding place_order
  place_order-Follows = of_result (place_order env order_id user_id key dto fresh db).0 refl
    where
      of_result :
          (r : Result PlaceOrderResult)
          → (place_order env order_id user_id key dto fresh db).0 ≡ r
          → Follows db.orders (place_order env order_id user_id key dto fresh db).1.orders
      of_result (ok r) h = elim (Option-cases (find_first (has_key user_id key) db.orders)) [
        | inl new ↦
            let (pair, read, w, fp, ready, valid, found, locks, at) =
              place_order-placed env order_id user_id key dto fresh db r new h in
            subst (λ os. Follows db.orders os) (sym (ap (λ x. x.1.orders) at))
              (append-Follows db.orders _)
        | inr (o, e) ↦
            same_orders db.orders _
              (ap (λ d. d.orders) (replayed env order_id user_id key dto fresh 0 db o e))
      ]
      of_result (err e) h = same_orders db.orders _ (
          ap (λ d. d.orders)
            (transaction-err (place_in_tx env db.wallets order_id user_id key dto fresh) db e h))

cancel_order-Follows :
    (user_id order_id : ℕ) (fresh : Fresh) (db : Db)
    → Follows db.orders (cancel_order user_id order_id fresh db).1.orders
unfolding cancel_order
cancel_order-Follows user_id order_id fresh db =
    of_result (cancel_order user_id order_id fresh db).0 refl
  where
    of_result :
        (r : Result PlaceOrderResult)
        → (cancel_order user_id order_id fresh db).0 ≡ r
        → Follows db.orders (cancel_order user_id order_id fresh db).1.orders
    of_result (ok r) h =
        let (o, pair, fo, fp, own, may, at) =
          cancel_order-requested user_id order_id fresh db r h in
        subst (λ os. Follows db.orders os) (sym (ap (λ d. d.orders) at))
          (update_first-Follows order_id set_cancel_pending db.orders (λ x. refl)
            (λ x. (refl, inr (λ e. cc))))
    of_result (err e) h =
        same_orders db.orders _
          (ap (λ d. d.orders) (transaction-err (cancel_in_tx user_id order_id fresh) db e h))

module _ {env : Platform} {codec : Codec} {treasury_user_id : Option ℕ} {auth : AuthPlatform}
    {Promises : Message → Db → Type 0} where
  Step-Follows :
      {s t : System}
      → Step env codec treasury_user_id auth Promises s t
      → Follows s.db.orders t.db.orders
  Step-Follows {s} (Step.placed order_id user_id key dto fresh) =
      place_order-Follows env order_id user_id key dto fresh s.db
  Step-Follows {s} (Step.cancel_requested user_id order_id fresh) =
      cancel_order-Follows user_id order_id fresh s.db
  Step-Follows {s} (Step.delivered ms) = Follows-refl s.db.orders
  Step-Follows {s} (Step.handled m fresh promised) =
      handle_message-Follows env codec treasury_user_id fresh m (consumer_of s)
  Step-Follows {s} (Step.polled now outcome) = Follows-refl s.db.orders
  Step-Follows {s} (Step.started fresh) =
      same_orders s.db.orders _ (ap (λ m. m.2) (bootstrap_markets-money env fresh s.db))
  Step-Follows {s} (Step.registered dto fresh) =
      same_orders s.db.orders _ (ap (λ m. m.2) (register-money auth dto fresh s.db))
  Step-Follows {s} (Step.logged_in dto fresh) =
      same_orders s.db.orders _ (ap (λ m. m.2) (login-money auth dto fresh s.db))
  Step-Follows {s} (Step.refreshed token fresh) =
      same_orders s.db.orders _ (ap (λ m. m.2) (refresh-money auth token fresh s.db))
  Step-Follows {s} (Step.logged_out session_id now) =
      same_orders s.db.orders _ (ap (λ m. m.2) (logout-money auth session_id now s.db))

  Reach-Follows :
      {s t : System}
      → Reach env codec treasury_user_id auth Promises s t
      → Follows s.db.orders t.db.orders
  Reach-Follows {s} Reach.start = Follows-refl s.db.orders
  Reach-Follows {s} {t} (Reach.later {t = mid} r step) =
      Follows-trans s.db.orders mid.db.orders t.db.orders (Reach-Follows r) (Step-Follows step)

  -- In every state that the backend comes to by any sequence of requests, messages of the engine,
  -- batches of the outbox and starts, whatever the messages say: an order is still there with the
  -- user, pair, side, price, quantity, locked asset and amount, sequence number and idempotency key
  -- that it had (only its status, its filled and remaining quantity and what remains locked may
  -- differ), and it is PENDING only if it was PENDING before.
  pub reachable_order_stays :
      {s t : System} (order_id : ℕ) (o : Order)
      → Reach env codec treasury_user_id auth Promises s t
      → find_first (order_has_id order_id) s.db.orders ≡ some o
      → (later : Order) × (find_first (order_has_id order_id) t.db.orders ≡ some later)
        × (terms later ≡ terms o)
        × ((o.status ≡ OrderStatus.pending) ⊎ (later.status ≢ OrderStatus.pending))
  reachable_order_stays order_id o r found =
      let (later, at, (same, status)) = (Reach-Follows r).order order_id o found in
      (later, at, same, status)
