-- ===== src/Orders/Place/Accepted.antt =====
-- orders.service.ts: what an accepted request for a new order has done.
use hau_cex.Common.{
  ℕ, suc, ◌≡◌, ◌⊎◌, inl, inr, refl, false, [], ◌∷◌, ◌++◌, none, some, String, ℤ, pos, negsuc, neg_ℤ,
  ◌+ℤ◌, ◌≤ℤ◌, ◌==◌, if◌then◌else◌, arith, int_laws,
}
use hau_cex.Platform.{Platform}
use hau_cex.Database.Schema.{
  Db, Wallet, LedgerBalanceType, LedgerEntryType, ReferenceType, OrderSide, OrderStatus,
  TradingPair, TradingPairStatus, OutboxStatus, CommandPayload, CommandType,
}
use hau_cex.Database.Table.{find_first, update_first}
use hau_cex.Database.Tx.{ok}
use hau_cex.Wallets.Balance.{has_id}
use hau_cex.EngineEvents.Settlement.{owned_by}
use hau_cex.Orders.Commands.{Fresh}
use hau_cex.Orders.Place.{
  CreateOrderDto, PlaceOrderResult, has_key, has_symbol, hash_order_payload, is_invalid,
  locked_asset, locked_amount, place_order,
}
use hau_cex.Orders.Place.Effects.{place_order-placed}

module _ (env : Platform) where
  -- A buy order pays its price times its quantity in the quote asset, a sell order its quantity in
  -- the base asset.
  abbrev pub Pays : TradingPair → CreateOrderDto → ℕ → ℤ → Type 0
  Pays pair dto asset amount =
      ((dto.side ≡ OrderSide.buy)
        × (asset ≡ pair.quote_asset_id)
        × (amount ≡ env.mul dto.price dto.quantity))
      ⊎ ((dto.side ≡ OrderSide.sell) × (asset ≡ pair.base_asset_id) × (amount ≡ dto.quantity))

  pays :
      (pair : TradingPair) (dto : CreateOrderDto)
      → Pays pair dto (locked_asset pair dto.side) (locked_amount env dto)
  pays pair dto = of_side dto.side
    where
      of_side :
          (s : OrderSide)
          → Pays pair
              (record dto { side = s })
              (locked_asset pair s)
              (locked_amount env (record dto { side = s }))
      of_side OrderSide.buy = inl (refl, refl, refl)
      of_side OrderSide.sell = inr (refl, refl, refl)

  -- The limits that the market sets for an order.
  abbrev pub Fits : TradingPair → CreateOrderDto → Type 0
  Fits pair dto =
      (pos 1 ≤ℤ dto.price)
      × (pos 1 ≤ℤ dto.quantity)
      × (env.modulo dto.price pair.tick_size ≡ pos 0)
      × (env.modulo dto.quantity pair.step_size ≡ pos 0)
      × (pair.min_quantity ≤ℤ dto.quantity)
      × (pair.min_notional ≤ℤ env.mul dto.quantity dto.price)

  valid-Fits :
      (pair : TradingPair) (dto : CreateOrderDto) → is_invalid env pair dto ≡ false → Fits pair dto
  valid-Fits pair dto h = ground (arith, h)

  covers :
      (available amount : ℤ)
      → (pos 0 ≤ℤ available → pos 0 ≤ℤ available +ℤ neg_ℤ amount)
      → (available ≤ℤ negsuc 0) ⊎ (amount ≤ℤ available)
  covers (negsuc n) amount h = inl (omega int_laws)
  covers (pos n) amount h = inr (omega (int_laws, h (omega int_laws)))

  -- A request with a new idempotency key that is accepted is for a market that is READY, with a
  -- positive price and quantity that are multiples of its steps and not below its minima. The wallet
  -- of the asset that the side pays in has at least the amount available, unless its available
  -- balance was negative before. The amount is positive and moves from available to locked, with two
  -- ledger entries; the order is recorded as PENDING, with nothing filled and this amount locked; one
  -- PENDING PlaceOrder command is appended to the outbox; both take the pair's next sequence numbers,
  -- the answer is the new order, and nothing else changes.
  pub place_order_places :
      (order_id user_id : ℕ) (key : String) (dto : CreateOrderDto) (fresh : Fresh) (db : Db)
      (a : PlaceOrderResult)
      → find_first (has_key user_id key) db.orders ≡ none
      → (place_order env order_id user_id key dto fresh db).0 ≡ ok a
      → (pair : TradingPair) × (read : Wallet) × (w : Wallet) × (asset : ℕ) × (amount : ℤ)
        × (find_first (has_symbol dto.symbol) db.trading_pairs ≡ some pair)
        × (pair.status ≡ TradingPairStatus.ready)
        × Fits pair dto
        × Pays pair dto asset amount
        × (find_first (owned_by user_id asset) db.wallets ≡ some read)
        × (find_first (has_id read.id) db.wallets ≡ some w)
        × ((w.available_balance ≤ℤ negsuc 0) ⊎ (amount ≤ℤ w.available_balance))
        × (pos 1 ≤ℤ amount)
        × (place_order env order_id user_id key dto fresh db ≡ (
          ok (record { order_id = order_id; status = OrderStatus.pending }),
          record db {
            wallets =
                update_first
                  (has_id read.id)
                  (λ x. record x {
                    available_balance = x.available_balance +ℤ neg_ℤ amount;
                    locked_balance = x.locked_balance +ℤ amount;
                  })
                  db.wallets;
            ledger_entries =
                db.ledger_entries
                ++ record {
                  wallet_id = w.id;
                  user_id = w.user_id;
                  asset_id = w.asset_id;
                  entry_type = LedgerEntryType.order_lock;
                  balance_type = LedgerBalanceType.available;
                  amount = neg_ℤ amount;
                  before_balance = w.available_balance;
                  after_balance = env.minus w.available_balance amount;
                  reference_type = ReferenceType.order;
                  reference_id = order_id;
                  operation_id = order_id;
                }
                  ∷ record {
                    wallet_id = w.id;
                    user_id = w.user_id;
                    asset_id = w.asset_id;
                    entry_type = LedgerEntryType.order_lock;
                    balance_type = LedgerBalanceType.locked;
                    amount = amount;
                    before_balance = w.locked_balance;
                    after_balance = env.plus w.locked_balance amount;
                    reference_type = ReferenceType.order;
                    reference_id = order_id;
                    operation_id = order_id;
                  }
                  ∷ [];
            orders =
                db.orders
                ++ record {
                  id = order_id;
                  user_id = user_id;
                  trading_pair_id = pair.id;
                  side = dto.side;
                  status = OrderStatus.pending;
                  price = dto.price;
                  quantity = dto.quantity;
                  filled_quantity = pos 0;
                  remaining_quantity = dto.quantity;
                  locked_asset_id = asset;
                  locked_amount = amount;
                  remaining_locked_amount = amount;
                  order_sequence = db.order_seq pair.id;
                  idempotency_key = key;
                  idempotency_payload_hash = hash_order_payload env dto;
                }
                  ∷ [];
            outbox_events =
                db.outbox_events
                ++ record {
                  id = fresh.outbox_id;
                  message_id = fresh.message_id;
                  stream_name = "stream:engine:commands";
                  message_type = CommandType.place_order;
                  payload =
                      CommandPayload.place_order pair.id pair.symbol order_id user_id dto.side
                        (env.to_fixed18 dto.price)
                        (env.to_fixed18 dto.quantity)
                        (db.order_seq pair.id)
                        fresh.now;
                  status = OutboxStatus.pending;
                  partition_key = some pair.id;
                  command_sequence = some (db.cmd_seq pair.id);
                  retry_count = 0;
                  last_error = none;
                  next_retry_at = none;
                  created_at = fresh.now;
                  published_at = none;
                }
                  ∷ [];
            order_seq = λ k. if k == pair.id then suc (db.order_seq k) else db.order_seq k;
            cmd_seq = λ k. if k == pair.id then suc (db.cmd_seq k) else db.cmd_seq k;
          },
        ))
  place_order_places order_id user_id key dto fresh db a new h =
      let (pair, read, w, e, ready, valid, found, (row, has, _, positive), after) =
        place_order-placed env order_id user_id key dto fresh db a new h in
      (
        pair,
        read,
        w,
        locked_asset pair dto.side,
        locked_amount env dto,
        e,
        ready,
        valid-Fits pair dto valid,
        pays pair dto,
        found,
        row,
        covers w.available_balance (locked_amount env dto) has,
        positive,
        after,
      )
