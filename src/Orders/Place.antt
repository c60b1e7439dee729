-- ===== src/Orders/Place.antt =====
-- apps/backend/src/modules/orders/orders.service.ts: `placeOrder`.
pub mod Effects
pub mod Accepted
pub mod Idempotency
pub mod Conservation
use Prim.Native.String.{◌++◌ as join}
use hau_cex.Common.{
  ℕ, Bool, true, false, not, ◌&&◌, ◌||◌, List, [], ◌∷◌, ◌++◌, Option, none, some, String, str_eq, ℤ,
  pos, ltb_ℤ, leb_ℤ, is_zero, ◌==◌, if◌then◌else◌,
}
use hau_cex.Platform.{Platform}
use hau_cex.Database.Exceptions.{
  idempotency_conflict, market_not_found, market_suspended, market_not_ready, validation_error,
  wallet_not_found,
}
use hau_cex.Database.Schema.{
  Db, Wallet, Order, OrderSide, OrderStatus, TradingPair, TradingPairStatus, ReferenceType,
  CommandPayload, CommandType,
}
use hau_cex.Database.Table.{find_first, exists}
use hau_cex.Database.Tx.{
  Tx, Error, ◌>>=◌, ◌>>◌, pure, throw, gets, or_throw, throw_if, modify, transaction,
}
use hau_cex.Wallets.Balance.{WalletMutationParams, move_available_to_locked}
use hau_cex.EngineEvents.Settlement.{is_buy, owned_by}
use hau_cex.Orders.Commands.{
  Fresh, next_order_sequence, next_command_sequence, command_row, create_outbox_event,
}

-- `CreateOrderDto`: its decimal strings read as amounts; the only type is LIMIT.
pub record CreateOrderDto : Type 0 where
  pub symbol : String
  pub side : OrderSide
  pub price : ℤ
  pub quantity : ℤ

-- `PlaceOrderResult`.
pub record PlaceOrderResult : Type 0 where
  pub order_id : ℕ
  pub status : OrderStatus

abbrev pub side_text : OrderSide → String
side_text OrderSide.buy = "BUY"
side_text OrderSide.sell = "SELL"

abbrev pub has_key : ℕ → String → Order → Bool
has_key user_id key o = o.user_id == user_id && str_eq o.idempotency_key key

abbrev pub has_symbol : String → TradingPair → Bool
has_symbol symbol t = str_eq t.symbol symbol

-- The unique keys of the table of orders.
abbrev same_order : Order → Order → Bool
same_order o p =
    p.id == o.id
    || has_key o.user_id o.idempotency_key p
    || (p.trading_pair_id == o.trading_pair_id && p.order_sequence == o.order_sequence)

abbrev create_order : Order → Tx (Unit {0})
create_order o = do
  taken ← gets (λ db. exists (same_order o) db.orders)
  throw_if taken Error.unique_violation
  modify λ db. record db { orders = db.orders ++ o ∷ [] }

abbrev check_status : TradingPairStatus → Tx (Unit {0})
check_status TradingPairStatus.suspended = throw (Error.http market_suspended)
check_status TradingPairStatus.ready = pure tt
check_status TradingPairStatus.recovering = throw (Error.http market_not_ready)

abbrev pub locked_asset : TradingPair → OrderSide → ℕ
locked_asset pair side = if is_buy side then pair.quote_asset_id else pair.base_asset_id

module _ (env : Platform) where
  open env use {mul, modulo, to_fixed18, sha256, uuid_text}

  -- idempotency.helper.ts: `hashOrderPayload`.
  abbrev pub hash_order_payload : CreateOrderDto → String
  hash_order_payload dto = sha256 (
      join dto.symbol (
        join "|" (
          join (side_text dto.side) (
            join "|" (
              join "LIMIT"
                (join "|" (join (to_fixed18 dto.price) (join "|" (to_fixed18 dto.quantity)))))))))

  -- The tests on price and quantity.
  abbrev pub is_invalid : TradingPair → CreateOrderDto → Bool
  is_invalid pair dto =
      leb_ℤ dto.price (pos 0)
      || leb_ℤ dto.quantity (pos 0)
      || not (is_zero (modulo dto.price pair.tick_size))
      || not (is_zero (modulo dto.quantity pair.step_size))
      || ltb_ℤ dto.quantity pair.min_quantity
      || ltb_ℤ (mul dto.quantity dto.price) pair.min_notional

  abbrev pub locked_amount : CreateOrderDto → ℤ
  locked_amount dto = if is_buy dto.side then mul dto.price dto.quantity else dto.quantity

  -- wallets.service.ts: `findWalletByAssetId` reads outside the transaction, so from the wallets
  -- that were there when it began.
  abbrev pub find_wallet_by_asset_id : List Wallet → ℕ → ℕ → Tx Wallet
  find_wallet_by_asset_id committed user_id asset_id =
      or_throw (find_first (owned_by user_id asset_id) committed) (
        Error.http (
          wallet_not_found (
            some
              (join "user " (join (uuid_text user_id) (join " and asset " (uuid_text asset_id)))))))

  abbrev pub new_order : ℕ → ℕ → String → TradingPair → CreateOrderDto → ℕ → Order
  new_order order_id user_id key pair dto order_seq = record {
    id = order_id;
    user_id = user_id;
    trading_pair_id = pair.id;
    side = dto.side;
    status = OrderStatus.pending;
    price = dto.price;
    quantity = dto.quantity;
    filled_quantity = pos 0;
    remaining_quantity = dto.quantity;
    locked_asset_id = locked_asset pair dto.side;
    locked_amount = locked_amount dto;
    remaining_locked_amount = locked_amount dto;
    order_sequence = order_seq;
    idempotency_key = key;
    idempotency_payload_hash = hash_order_payload dto;
  }

  abbrev pub place_payload : ℕ → ℕ → TradingPair → CreateOrderDto → ℕ → ℕ → CommandPayload
  place_payload order_id user_id pair dto order_seq now =
      CommandPayload.place_order pair.id pair.symbol order_id user_id dto.side
        (to_fixed18 dto.price) (to_fixed18 dto.quantity) order_seq now

  abbrev pub lock_params : ℕ → ℕ → CreateOrderDto → WalletMutationParams
  lock_params order_id wallet_id dto = record {
    wallet_id = wallet_id;
    amount = locked_amount dto;
    operation_id = order_id;
    reference_type = ReferenceType.order;
    reference_id = order_id;
  }

  -- From the lock of the balance on: the order and its command are created.
  unfoldable pub open_order :
      List Wallet → ℕ → ℕ → String → TradingPair → CreateOrderDto → Fresh → Tx PlaceOrderResult
  open_order committed order_id user_id key pair dto fresh = do
    w ← find_wallet_by_asset_id committed user_id (locked_asset pair dto.side)
    move_available_to_locked env (lock_params order_id w.id dto)
    order_seq ← next_order_sequence pair.id
    create_order (new_order order_id user_id key pair dto order_seq)
    cmd_seq ← next_command_sequence pair.id
    create_outbox_event (
        command_row fresh CommandType.place_order pair.id cmd_seq
          (place_payload order_id user_id pair dto order_seq fresh.now))
    pure (record { order_id = order_id; status = OrderStatus.pending })

  -- A request whose idempotency key is new.
  unfoldable pub place_new :
      List Wallet → ℕ → ℕ → String → CreateOrderDto → Fresh → Tx PlaceOrderResult
  place_new committed order_id user_id key dto fresh = do
    row ← gets (λ db. find_first (has_symbol dto.symbol) db.trading_pairs)
    pair ← or_throw row (Error.http market_not_found)
    check_status pair.status
    throw_if (is_invalid pair dto) (Error.http (validation_error none))
    open_order committed order_id user_id key pair dto fresh

  -- A request whose idempotency key has been used answers for the order that was placed with it.
  abbrev replay : CreateOrderDto → Order → Tx PlaceOrderResult
  replay dto o = do
    throw_if (not (str_eq o.idempotency_payload_hash (hash_order_payload dto)))
        (Error.http idempotency_conflict)
    pure (record { order_id = o.id; status = o.status })

  abbrev place_or_replay :
      List Wallet → ℕ → ℕ → String → CreateOrderDto → Fresh → Option Order → Tx PlaceOrderResult
  place_or_replay committed order_id user_id key dto fresh none =
      place_new committed order_id user_id key dto fresh
  place_or_replay committed order_id user_id key dto fresh (some o) = replay dto o

  unfoldable pub place_in_tx :
      List Wallet → ℕ → ℕ → String → CreateOrderDto → Fresh → Tx PlaceOrderResult
  place_in_tx committed order_id user_id key dto fresh = do
    existing ← gets (λ db. find_first (has_key user_id key) db.orders)
    place_or_replay committed order_id user_id key dto fresh existing

  -- `placeOrder`; `order_id` is the uuid that it draws first.
  unfoldable pub place_order : ℕ → ℕ → String → CreateOrderDto → Fresh → Tx PlaceOrderResult
  unfolding place_in_tx
  place_order order_id user_id key dto fresh db =
      transaction (place_in_tx db.wallets order_id user_id key dto fresh) db
