-- ===== src/Backing/Placement.antt =====
-- orders.service.ts: a new order has locked just what its placement takes from the available
-- balance, and a request to cancel leaves the locks alone.
use hau_cex.Common.{
  ℕ, ◌≡◌, refl, sym, subst, ap, All, ◌∙◌, some-injective, map-append, [], ◌∷◌, ◌++◌, some, inl, inr,
  String, pos, ◌≤ℤ◌, Option-cases, int_laws,
}
use hau_cex.Platform.{Platform}
use hau_cex.Database.Schema.{Db, Order, Wallet, TradingPair}
use hau_cex.Database.Table.{find_first}
use hau_cex.Database.Tx.{Error, Result, ok, err, transaction-err}
use hau_cex.Wallets.Balance.Movements.{Locks}
use hau_cex.EngineEvents.Settlement.{owned_by, order_has_id}
use hau_cex.EngineEvents.Settlement.Validity.{find_by_id, user_of_owned, asset_of_owned}
use hau_cex.EngineEvents.Settlement.Conservation.{moved-IsValid}
use hau_cex.EngineEvents.Settlement.Measure.{lock_of, locks_of, locks-update_first}
use hau_cex.Orders.Commands.{Fresh}
use hau_cex.Orders.Place.{
  CreateOrderDto, PlaceOrderResult, has_key, locked_asset, locked_amount, new_order, place_in_tx,
  place_order,
}
use hau_cex.Orders.Place.Conservation.{replayed}
use hau_cex.Orders.Cancel.{cancel_order, cancel_in_tx, set_cancel_pending}
use hau_cex.Orders.Cancel.Effects.{cancel_order-requested}
use hau_cex.Orders.Place.Effects.{locking, placed, place_order-placed}
use hau_cex.Backing.{locked_in, reserved, IsReserve, IsBacked}
use hau_cex.Backing.Gap.{locked_in-update, update_first-UniqueOwners, same_backing}
use hau_cex.Backing.Reserves.{reserved-append, reserves-append}

module _ (env : Platform) (order_id user_id : ℕ) (key : String) (dto : CreateOrderDto)
    (fresh : Fresh) where
  module _ (pair : TradingPair) (read w : Wallet) (db : Db)
      (found : find_first (owned_by user_id (locked_asset pair dto.side)) db.wallets ≡ some read)
      (locks : Locks (locking env order_id user_id key dto fresh read) db w) (b : IsBacked db) where
    abbrev asset : ℕ
    asset = locked_asset pair dto.side

    abbrev after : Db
    after = placed env order_id user_id key dto fresh pair read w db

    the_row : w ≡ read
    the_row =
        some-injective _ _
          (sym locks.0 ∙ find_by_id user_id asset db.wallets read b.valid.unique found)

    owner : (w.user_id ≡ user_id) × (w.asset_id ≡ asset)
    owner = rw the_row (
      user_of_owned user_id asset db.wallets read found,
      asset_of_owned user_id asset db.wallets read found,
    )

    abbrev order : Order
    order = new_order env order_id user_id key pair dto (db.order_seq pair.id)

    locks_after : locks_of after ≡ locks_of db ++ lock_of order ∷ []
    locks_after = map-append lock_of db.orders (order ∷ [])

    amount_positive : pos 0 ≤ℤ locked_amount env dto
    amount_positive = let h = locks.3 in omega int_laws

    placed_backs : (u a : ℕ) → locked_in u a after.wallets ≡ reserved u a (locks_of after)
    placed_backs u a =
        let amount = locked_amount env dto in
        locked_in-update u a read.id _ amount db.wallets w locks.0
        ∙ (rw (owner.0, owner.1, b.backed u a) refl
            ∙ sym
                (ap (reserved u a) locks_after ∙ reserved-append u a (locks_of db) (lock_of order)))

    placed-IsBacked : IsBacked after
    placed-IsBacked = record {
      valid =
          let v =
            moved-IsValid env (locking env order_id user_id key dto fresh read) db w b.valid
              locks in
          record { unique = v.unique; solvent = v.solvent; matches = v.matches };
      owners = update_first-UniqueOwners read.id _ _ db.wallets b.owners;
      reserves =
          subst (λ ls. All IsReserve ls) (sym locks_after)
            (reserves-append (locks_of db) (lock_of order) b.reserves amount_positive);
      backed = placed_backs;
    }

  refused :
      (db : Db) (e : Error)
      → IsBacked db
      → (place_order env order_id user_id key dto fresh db).0 ≡ err e
      → IsBacked (place_order env order_id user_id key dto fresh db).1
  unfolding place_order
  refused db e b h =
      let back =
        transaction-err (place_in_tx env db.wallets order_id user_id key dto fresh) db e h in
      same_backing db (place_order env order_id user_id key dto fresh db).1
        (ap (λ d. d.wallets) back) (ap (λ d. d.ledger_entries) back) (ap locks_of back) b

  accepted :
      (db : Db) (r : PlaceOrderResult)
      → IsBacked db
      → (place_order env order_id user_id key dto fresh db).0 ≡ ok r
      → IsBacked (place_order env order_id user_id key dto fresh db).1
  accepted db r b h = elim (Option-cases (find_first (has_key user_id key) db.orders)) [
    | inl new ↦
        let (pair, read, w, fp, ready, valid, found, locks, at) =
          place_order-placed env order_id user_id key dto fresh db r new h in
        rw at (placed-IsBacked pair read w db found locks b)
    | inr (o, e) ↦ rw (replayed env order_id user_id key dto fresh 0 db o e) b
  ]

  -- A request to place an order keeps the database backed, whether it is accepted, refused or
  -- repeated.
  pub place_order-IsBacked :
      (db : Db) → IsBacked db → IsBacked (place_order env order_id user_id key dto fresh db).1
  place_order-IsBacked db b = of_result (place_order env order_id user_id key dto fresh db).0 refl
    where
      of_result :
          (r : Result PlaceOrderResult)
          → (place_order env order_id user_id key dto fresh db).0 ≡ r
          → IsBacked (place_order env order_id user_id key dto fresh db).1
      of_result (ok r) h = accepted db r b h
      of_result (err e) h = refused db e b h

module _ (user_id order_id : ℕ) (fresh : Fresh) (db : Db) where
  abbrev cancelling : Db
  cancelling = (cancel_order user_id order_id fresh db).1

  -- The wallets, the ledger and the locks are as they were.
  record LeavesMoney : Type 0 where
    pub wallets : cancelling.wallets ≡ db.wallets
    pub entries : cancelling.ledger_entries ≡ db.ledger_entries
    pub locks : locks_of cancelling ≡ locks_of db

  cancel_refused : (e : Error) → (cancel_order user_id order_id fresh db).0 ≡ err e → LeavesMoney
  unfolding cancel_order
  cancel_refused e h =
      let back = transaction-err (cancel_in_tx user_id order_id fresh) db e h in
      record {
        wallets = ap (λ d. d.wallets) back;
        entries = ap (λ d. d.ledger_entries) back;
        locks = ap locks_of back;
      }

  cancel_accepted :
      (r : PlaceOrderResult) → (cancel_order user_id order_id fresh db).0 ≡ ok r → LeavesMoney
  cancel_accepted r h =
      let (o, pair, fo, fp, own, may, at) = cancel_order-requested user_id order_id fresh db r h in
      record {
        wallets = ap (λ d. d.wallets) at;
        entries = ap (λ d. d.ledger_entries) at;
        locks =
            ap locks_of at
            ∙ locks-update_first (order_has_id order_id) set_cancel_pending (λ x. refl) db.orders;
      }

  leaves_money : LeavesMoney
  leaves_money = of_result (cancel_order user_id order_id fresh db).0 refl
    where
      of_result :
          (r : Result PlaceOrderResult)
          → (cancel_order user_id order_id fresh db).0 ≡ r
          → LeavesMoney
      of_result (ok r) h = cancel_accepted r h
      of_result (err e) h = cancel_refused e h

  pub cancel_order-wallets : (cancel_order user_id order_id fresh db).1.wallets ≡ db.wallets
  cancel_order-wallets = leaves_money.wallets

  pub cancel_order-IsBacked : IsBacked db → IsBacked (cancel_order user_id order_id fresh db).1
  cancel_order-IsBacked =
      same_backing db cancelling leaves_money.wallets leaves_money.entries leaves_money.locks
