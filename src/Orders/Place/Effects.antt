-- ===== src/Orders/Place/Effects.antt =====
-- orders.service.ts: what a request that places a new order does to the tables.
use hau_cex.Common.{
  ℕ, ◌≡◌, ◌≢◌, refl, sym, ap, ◌∙◌, false, List, [], ◌∷◌, ◌++◌, none, some, inl, inr, String,
  Option-cases, arith,
}
use hau_cex.Platform.{Platform}
use hau_cex.Database.Schema.{Db, Wallet, OrderStatus, TradingPair, TradingPairStatus, CommandType}
use hau_cex.Database.Table.{find_first}
use hau_cex.Database.Tx.{Tx, ok, ◌>>=◌, ◌>>◌, pure}
use hau_cex.Wallets.Balance.Movements.{Movement, Locks, moved, move, move-ok}
use hau_cex.EngineEvents.Settlement.{owned_by}
use hau_cex.Orders.Commands.{
  Fresh, bump, command_row, next_order_sequence, next_command_sequence, create_outbox_event,
}
use hau_cex.Orders.Place.{
  CreateOrderDto, PlaceOrderResult, has_key, has_symbol, locked_asset, is_invalid, lock_params,
  new_order, place_payload, create_order, open_order, place_new, place_order, place_in_tx,
}

module _ (env : Platform) (order_id user_id : ℕ) (key : String) (dto : CreateOrderDto)
    (fresh : Fresh) where
  abbrev pub locking : Wallet → Movement
  locking w = Movement.lock (lock_params env order_id w.id dto)

  -- The tables after a new order: `w` is the wallet as the lock found it.
  abbrev pub placed : TradingPair → Wallet → Wallet → Db → Db
  placed pair read w db = record (moved env (locking read) w db) {
    orders = db.orders ++ new_order env order_id user_id key pair dto (db.order_seq pair.id) ∷ [];
    outbox_events =
        db.outbox_events
        ++ command_row fresh CommandType.place_order pair.id (db.cmd_seq pair.id)
            (place_payload env order_id user_id pair dto (db.order_seq pair.id) fresh.now)
          ∷ [];
    order_seq = bump pair.id db.order_seq;
    cmd_seq = bump pair.id db.cmd_seq;
  }

  abbrev answer : PlaceOrderResult
  answer = record { order_id = order_id; status = OrderStatus.pending }

  -- After the lock.
  abbrev record_order : TradingPair → Tx PlaceOrderResult
  record_order pair = do
    order_seq ← next_order_sequence pair.id
    create_order (new_order env order_id user_id key pair dto order_seq)
    cmd_seq ← next_command_sequence pair.id
    create_outbox_event (
        command_row fresh CommandType.place_order pair.id cmd_seq
          (place_payload env order_id user_id pair dto order_seq fresh.now))
    pure answer

  record_order-ok :
      (pair : TradingPair) (read w : Wallet) (db : Db) (a : PlaceOrderResult)
      → (record_order pair (moved env (locking read) w db)).0 ≡ ok a
      → record_order pair (moved env (locking read) w db) ≡ (ok answer, placed pair read w db)
  record_order-ok pair read w db a h = ground arith

  open_order-at :
      (pair : TradingPair) (committed : List Wallet) (db : Db) (read : Wallet)
      → find_first (owned_by user_id (locked_asset pair dto.side)) committed ≡ some read
      → open_order env committed order_id user_id key pair dto fresh db
        ≡ (move env (locking read) >> record_order pair) db
  unfolding open_order move
  open_order-at pair committed db read e = rw e refl

  no_wallet :
      (pair : TradingPair) (committed : List Wallet) (db : Db) (a : PlaceOrderResult)
      → find_first (owned_by user_id (locked_asset pair dto.side)) committed ≡ none
      → (open_order env committed order_id user_id key pair dto fresh db).0 ≢ ok a
  unfolding open_order
  no_wallet pair committed db a e h = ground arith

  open_order-ok :
      (pair : TradingPair) (committed : List Wallet) (db : Db) (a : PlaceOrderResult)
      → (open_order env committed order_id user_id key pair dto fresh db).0 ≡ ok a
      → (read : Wallet) × (w : Wallet) × (find_first
            (owned_by user_id (locked_asset pair dto.side))
            committed
          ≡ some read)
        × Locks (locking read) db w
        × (open_order env committed order_id user_id key pair dto fresh db
            ≡ (ok answer, placed pair read w db))
  open_order-ok pair committed db a h =
      elim (Option-cases (find_first (owned_by user_id (locked_asset pair dto.side)) committed)) [
        | inl e ↦ absurd (no_wallet pair committed db a e h)
        | inr (read, e) ↦
            let at = open_order-at pair committed db read e in
            let (w, locks, after) =
              move-ok env (locking read) (record_order pair) db a (ap (λ r. r.0) (sym at) ∙ h) in
            (
              read,
              w,
              e,
              locks,
              at
                  ∙ (after
                      ∙ record_order-ok pair read w db a (ap (λ r. r.0) (sym (at ∙ after)) ∙ h)),
            )
      ]

  place_new-ok :
      (committed : List Wallet) (db : Db) (pair : TradingPair) (a : PlaceOrderResult)
      → find_first (has_symbol dto.symbol) db.trading_pairs ≡ some pair
      → (place_new env committed order_id user_id key dto fresh db).0 ≡ ok a
      → (pair.status ≡ TradingPairStatus.ready)
        × (is_invalid env pair dto ≡ false)
        × (place_new env committed order_id user_id key dto fresh db
            ≡ open_order env committed order_id user_id key pair dto fresh db)
  unfolding place_new
  place_new-ok committed db pair a e h = ground arith

  no_pair :
      (committed : List Wallet) (db : Db) (a : PlaceOrderResult)
      → find_first (has_symbol dto.symbol) db.trading_pairs ≡ none
      → (place_new env committed order_id user_id key dto fresh db).0 ≢ ok a
  unfolding place_new
  no_pair committed db a e h = ground arith

  new_in_tx :
      (db : Db) (a : PlaceOrderResult)
      → find_first (has_key user_id key) db.orders ≡ none
      → (place_order env order_id user_id key dto fresh db).0 ≡ ok a
      → place_order env order_id user_id key dto fresh db
        ≡ place_new env db.wallets order_id user_id key dto fresh db
  unfolding place_order place_in_tx
  new_in_tx db a e h = ground arith

  -- A request with a new idempotency key that is accepted is for a market that is READY, with a valid
  -- price and quantity, and the wallet that pays has enough available. The answer is the new
  -- order, PENDING. The amount of the order moves from available to locked, with its ledger
  -- entries; the order is recorded with just that amount locked; one PlaceOrder command is appended
  -- to the outbox; both take the pair's next sequence numbers, and nothing else changes.
  pub place_order-placed :
      (db : Db) (a : PlaceOrderResult)
      → find_first (has_key user_id key) db.orders ≡ none
      → (place_order env order_id user_id key dto fresh db).0 ≡ ok a
      → (pair : TradingPair) × (read : Wallet) × (w : Wallet) × (find_first
            (has_symbol dto.symbol)
            db.trading_pairs
          ≡ some pair)
        × (pair.status ≡ TradingPairStatus.ready)
        × (is_invalid env pair dto ≡ false)
        × (find_first (owned_by user_id (locked_asset pair dto.side)) db.wallets ≡ some read)
        × Locks (locking read) db w
        × (place_order env order_id user_id key dto fresh db ≡ (
          ok (record { order_id = order_id; status = OrderStatus.pending }),
          placed pair read w db,
        ))
  place_order-placed db a new h =
      let at = new_in_tx db a new h in
      let h' = ap (λ r. r.0) (sym at) ∙ h in
      elim (Option-cases (find_first (has_symbol dto.symbol) db.trading_pairs)) [
        | inl e ↦ absurd (no_pair db.wallets db a e h')
        | inr (pair, e) ↦
            let (ready, valid, open_) = place_new-ok db.wallets db pair a e h' in
            let (read, w, found, locks, after) =
              open_order-ok pair db.wallets db a (ap (λ r. r.0) (sym open_) ∙ h') in
            (pair, read, w, e, ready, valid, found, locks, at ∙ (open_ ∙ after))
      ]
