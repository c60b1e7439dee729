-- ===== src/EngineEvents/Cancellation/Unlock.antt =====
-- order-cancellation.service.ts: the order and the wallet after an OrderCancelled that can be applied.
use hau_cex.Common.{
  ℕ, ◌≡◌, refl, ap, ◌∙◌, some, ℤ, pos, neg_ℤ, ◌≤ℤ◌, ltb_ℤ, Bool-cases, inl, inr, int_laws,
}
use hau_cex.Platform.{Platform}
use hau_cex.Database.Schema.{Db, Wallet, Order, OrderStatus}
use hau_cex.Database.Table.{find_first}
use hau_cex.Database.Tx.{Error, ok, ◌>>=◌, or_throw, when}
use hau_cex.Wallets.Balance.{has_id, add_to_balances}
use hau_cex.Wallets.Balance.Movements.{Movement, moved, move}
use hau_cex.Wallets.Balance.Totals.{IsFunded, find_first-IsFunded}
use hau_cex.Wallets.Balance.Outcome.{Accepts, move-moved}
use hau_cex.EngineEvents.Settlement.{order_has_id, owned_by}
use hau_cex.EngineEvents.Settlement.Validity.{IsValid, find_by_id, find_owned-update}
use hau_cex.EngineEvents.Cancellation.{handle_order_cancelled, unlock_remaining, unlock_params}
use hau_cex.EngineEvents.Cancellation.Effects.{
  cancelled, rest, rest-orders, handle_order_cancelled-at, cancelled_found,
}

add_nothing : (x : ℤ) → pos 0 ≡ x → (w : Wallet) → w ≡ add_to_balances x (neg_ℤ x) w
add_nothing x e w = grind int_laws

module _ (env : Platform) where
  abbrev unlocking : ℕ → ℕ → Order → Movement
  unlocking op id o = Movement.unlock (unlock_params env op id o)

  Accepts-unlock :
      (op : ℕ) (o : Order) (db : Db) (w : Wallet)
      → find_first (has_id w.id) db.wallets ≡ some w
      → IsFunded w
      → pos 1 ≤ℤ o.remaining_locked_amount
      → o.remaining_locked_amount ≤ℤ w.locked_balance
      → Accepts env (unlocking op w.id o) db w
  Accepts-unlock op o db w found f some_left backed =
      (found, some_left, grind int_laws, grind int_laws)

  unlock_remaining-moved :
      (op : ℕ) (o : Order) (db : Db) (w : Wallet)
      → IsValid db
      → find_first (owned_by o.user_id o.locked_asset_id) db.wallets ≡ some w
      → pos 1 ≤ℤ o.remaining_locked_amount
      → o.remaining_locked_amount ≤ℤ w.locked_balance
      → unlock_remaining env op o db ≡ (ok tt, moved env (unlocking op w.id o) w db)
  unfolding unlock_remaining move
  unlock_remaining-moved op o db w v found some_left backed =
      let by_id = find_by_id o.user_id o.locked_asset_id db.wallets w v.unique found in
      ap (λ row. (or_throw row Error.record_not_found >>= λ x. move env (unlocking op x.id o)) db)
        found
      ∙ move-moved env (unlocking op w.id o) db w v.solvent (
          Accepts-unlock op o db w by_id (find_first-IsFunded w.id db.wallets w v.solvent by_id)
            some_left backed)

  -- Whether or not something was left to unlock.
  when-unlocks :
      (op : ℕ) (o : Order) (db : Db) (w : Wallet)
      → IsValid db
      → find_first (owned_by o.user_id o.locked_asset_id) db.wallets ≡ some w
      → pos 0 ≤ℤ o.remaining_locked_amount
      → o.remaining_locked_amount ≤ℤ w.locked_balance
      → let r = when (ltb_ℤ (pos 0) o.remaining_locked_amount) (unlock_remaining env op o) db in
        (r.0 ≡ ok tt)
        × (find_first (owned_by o.user_id o.locked_asset_id) r.1.wallets
            ≡ some (add_to_balances o.remaining_locked_amount (neg_ℤ o.remaining_locked_amount) w))
  when-unlocks op o db w v fw nonneg backed =
      elim (Bool-cases (ltb_ℤ (pos 0) o.remaining_locked_amount)) [
        | inl more ↦
            rw (more, unlock_remaining-moved op o db w v fw (grind int_laws) backed)
              (refl, find_owned-update o.user_id o.locked_asset_id _ _ db.wallets w v.unique fw)
        | inr none_left ↦
            rw none_left
              (refl, fw ∙ ap some (add_nothing o.remaining_locked_amount (grind int_laws) w))
      ]

  module _ (op order_id : ℕ) (o : Order) (db : Db) (w : Wallet) where
    -- An OrderCancelled event for an order whose locked amount is in its owner's wallet cancels the
    -- order, leaves nothing of it locked, and gives exactly the amount that was still locked back
    -- from the locked to the available balance.
    pub handle_order_cancelled_unlocks :
        IsValid db
        → find_first (order_has_id order_id) db.orders ≡ some o
        → find_first (owned_by o.user_id o.locked_asset_id) db.wallets ≡ some w
        → pos 0 ≤ℤ o.remaining_locked_amount
        → o.remaining_locked_amount ≤ℤ w.locked_balance
        → let r = handle_order_cancelled env op order_id db in
          (r.0 ≡ ok tt)
          × (find_first (order_has_id order_id) r.1.orders
              ≡ some (record o { status = OrderStatus.cancelled; remaining_locked_amount = pos 0 }))
          × (find_first (owned_by o.user_id o.locked_asset_id) r.1.wallets
              ≡ some
                  (add_to_balances o.remaining_locked_amount (neg_ℤ o.remaining_locked_amount) w))
    handle_order_cancelled_unlocks v fo fw nonneg backed =
        let unlocked = when-unlocks op o (cancelled o.id db) w valid fw nonneg backed in
        rw (handle_order_cancelled-at env op order_id o db fo) (
          unlocked.0,
          cancelled_found env order_id o db (rest env op o db).1 fo (rest-orders env op o db),
          unlocked.1,
        )
      where
        valid : IsValid (cancelled o.id db)
        valid = record { unique = v.unique; solvent = v.solvent; matches = v.matches }
