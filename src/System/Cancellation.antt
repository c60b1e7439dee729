-- ===== src/System/Cancellation.antt =====
-- The engine's OrderCancelled in the states that the backend comes to.
use hau_cex.Common.{
  ℕ, ◌≡◌, refl, ap, List, [], ◌∷◌, Option, none, some, map, false, pos, neg_ℤ, ◌≤ℤ◌, pos_part,
  neg_part, All, int_laws, arith,
}
use hau_cex.Platform.{Platform}
use hau_cex.Database.Schema.{Db, Order, OrderStatus, Wallet}
use hau_cex.Database.Table.{find_first, exists}
use hau_cex.Database.Tx.{ok}
use hau_cex.Wallets.Balance.{add_to_balances}
use hau_cex.EngineEvents.Settlement.{order_has_id, owned_by}
use hau_cex.EngineEvents.Settlement.Measure.{Lock, lock_of}
use hau_cex.EngineEvents.Messages.{Codec}
use hau_cex.EngineEvents.Cancellation.{handle_order_cancelled}
use hau_cex.EngineEvents.Cancellation.Unlock.{handle_order_cancelled_unlocks}
use hau_cex.Auth.{AuthPlatform}
use hau_cex.Backing.{locked_in, reserved, IsReserve, UniqueOwners, IsBacked}
use hau_cex.Backing.Messages.{IsHonest}
use hau_cex.System.{System, Reach}
use hau_cex.System.Safety.{reachable_is_backed}

reserved-nonneg : (u a : ℕ) (ls : List Lock) → All IsReserve ls → pos 0 ≤ℤ reserved u a ls
reserved-nonneg u a [] r = omega arith
reserved-nonneg u a (l ∷ ls) r = grind (int_laws, reserved-nonneg u a ls r.1)

-- What an order has locked is part of what its owner's orders have locked.
reserved-ge :
    (id : ℕ) (os : List Order) (o : Order)
    → find_first (order_has_id id) os ≡ some o
    → All IsReserve (map lock_of os)
    → o.remaining_locked_amount ≤ℤ reserved o.user_id o.locked_asset_id (map lock_of os)
reserved-ge id [] o e r = cc
reserved-ge id (x ∷ os) o e r = grind (
  int_laws,
  reserved-ge id os o,
  reserved-nonneg o.user_id o.locked_asset_id (map lock_of os) r.1,
)

locked_in_nobody :
    (u a : ℕ) (ws : List Wallet) → exists (owned_by u a) ws ≡ false → locked_in u a ws ≡ pos 0
locked_in_nobody u a [] e = refl
locked_in_nobody u a (w ∷ ws) e = grind (int_laws, locked_in_nobody u a ws)

locked_in-none :
    (u a : ℕ) (ws : List Wallet) → find_first (owned_by u a) ws ≡ none → locked_in u a ws ≡ pos 0
locked_in-none u a [] e = refl
locked_in-none u a (w ∷ ws) e = grind (int_laws, locked_in-none u a ws)

-- The one wallet of the user holds it all.
pub locked_in_owner :
    (u a : ℕ) (ws : List Wallet) (w : Wallet)
    → UniqueOwners ws
    → find_first (owned_by u a) ws ≡ some w
    → locked_in u a ws ≡ w.locked_balance
locked_in_owner u a [] w h e = cc
locked_in_owner u a (x ∷ ws) w h e =
    grind (int_laws, locked_in_owner u a ws w h.1, locked_in_nobody u a ws)

module _ (env : Platform) where
  holds_enough :
      (db : Db) (id : ℕ) (o : Order) (row : Option Wallet)
      → IsBacked db
      → find_first (order_has_id id) db.orders ≡ some o
      → find_first (owned_by o.user_id o.locked_asset_id) db.wallets ≡ row
      → pos 1 ≤ℤ o.remaining_locked_amount
      → (w : Wallet) × (row ≡ some w) × (o.remaining_locked_amount ≤ℤ w.locked_balance)
  holds_enough db id o none b fo fw more =
      let least = reserved-ge id db.orders o fo b.reserves in
      let all = b.backed o.user_id o.locked_asset_id in
      let nothing = locked_in-none o.user_id o.locked_asset_id db.wallets fw in
      absurd (omega (int_laws, ap pos_part all, ap pos_part nothing, ap neg_part all))
  holds_enough db id o (some w) b fo fw more =
      let least = reserved-ge id db.orders o fo b.reserves in
      let all = b.backed o.user_id o.locked_asset_id in
      let one = locked_in_owner o.user_id o.locked_asset_id db.wallets w b.owners fw in
      (
        w,
        refl,
        omega (int_laws, ap pos_part all, ap neg_part all, ap pos_part one, ap neg_part one),
      )

  -- In a state that the backend comes to from one whose database is backed, an OrderCancelled event
  -- for an order that still has something locked cannot fail: the owner has a wallet of the asset,
  -- which gets exactly the locked amount of the order back, and the order is CANCELLED with nothing
  -- locked.
  pub reachable_cancellation_unlocks :
      {codec : Codec} {treasury_user_id : Option ℕ} {auth : AuthPlatform} {s t : System}
      (op order_id : ℕ) (o : Order)
      → Reach env codec treasury_user_id auth (IsHonest env codec treasury_user_id) s t
      → IsBacked s.db
      → find_first (order_has_id order_id) t.db.orders ≡ some o
      → pos 1 ≤ℤ o.remaining_locked_amount
      → let r = handle_order_cancelled env op order_id t.db in
        (w : Wallet) × (find_first (owned_by o.user_id o.locked_asset_id) t.db.wallets ≡ some w)
        × (r.0 ≡ ok tt)
        × (find_first (order_has_id order_id) r.1.orders
            ≡ some (record o { status = OrderStatus.cancelled; remaining_locked_amount = pos 0 }))
        × (find_first (owned_by o.user_id o.locked_asset_id) r.1.wallets
            ≡ some (add_to_balances o.remaining_locked_amount (neg_ℤ o.remaining_locked_amount) w))
  reachable_cancellation_unlocks {t} op order_id o r backed fo more =
      let b = (reachable_is_backed r backed).0 in
      let (w, fw, enough) =
        holds_enough t.db order_id o
          (find_first (owned_by o.user_id o.locked_asset_id) t.db.wallets) b fo refl more in
      let (done, order, wallet) =
        handle_order_cancelled_unlocks env op order_id o t.db w b.valid fo fw (omega (arith, more))
          enough in
      (w, fw, done, order, wallet)
