-- ===== src/Backing/Cancellation.antt =====
-- order-cancellation.service.ts: a cancelled order gives up just what is unlocked.
use hau_cex.Common.{
  ℕ, ◌≡◌, refl, sym, subst, ap, pos_part, neg_part, Bool, true, false, some, ℤ, pos, neg_ℤ, ◌+ℤ◌,
  ◌-ℤ◌, ◌≤ℤ◌, ltb_ℤ, ◌&&◌, ◌==◌, if◌then◌else◌, int_laws,
}
use hau_cex.Platform.{Platform}
use hau_cex.Database.Schema.{Db, Order}
use hau_cex.Database.Table.{find_first}
use hau_cex.EngineEvents.Settlement.{order_has_id}
use hau_cex.EngineEvents.Settlement.Measure.{Adds, locks_of}
use hau_cex.EngineEvents.Cancellation.{handle_order_cancelled, set_cancelled}
use hau_cex.EngineEvents.Cancellation.Effects.{
  own_id, cancelled, GivesUp, handle_order_cancelled-Adds,
}
use hau_cex.Backing.{locked_in, reserved}
use hau_cex.Backing.Gap.{IsSound, gaps}
use hau_cex.Backing.Reserves.{reserved-update, reserves-update, reserve_found}

unlock_balances :
    (c : Bool) (l r s x : ℤ)
    → s +ℤ (if c then x else pos 0) ≡ r +ℤ (if c then pos 0 else pos 0)
    → (l -ℤ s) +ℤ (if c then neg_ℤ x else pos 0) ≡ l -ℤ r
unlock_balances true l r s x e = omega (int_laws, ap pos_part e, ap neg_part e)
unlock_balances false l r s x e = omega (int_laws, ap pos_part e, ap neg_part e)

nothing_balances :
    (c : Bool) (l r s x : ℤ)
    → s +ℤ (if c then x else pos 0) ≡ r +ℤ (if c then pos 0 else pos 0)
    → x ≡ pos 0
    → l -ℤ s ≡ l -ℤ r
nothing_balances true l r s x e z =
    omega (int_laws, ap pos_part e, ap neg_part e, ap pos_part z, ap neg_part z)
nothing_balances false l r s x e z = omega (int_laws, ap pos_part e, ap neg_part e)

is_zero_of : (x : ℤ) → pos 0 ≤ℤ x → ltb_ℤ (pos 0) x ≡ false → x ≡ pos 0
is_zero_of x h e = grind int_laws

module _ (env : Platform) (u a order_id : ℕ) where
  gives_up :
      (o : Order) (db : Db)
      → find_first (order_has_id order_id) db.orders ≡ some o
      → IsSound db
      → GivesUp env (gaps env u a) o db
  gives_up o db e v = (
    record {
      valid = record {
        unique = v.valid.unique;
        solvent = v.valid.solvent;
        matches = v.valid.matches;
      };
      owners = v.owners;
      reserves = reserves-update o.id set_cancelled o db.orders found (omega int_laws) v.reserves;
    },
    λ _. unlock_balances at_ua (locked_in u a db.wallets) (reserved u a (locks_of db)) _ _ updated,
    λ none_left.
        nothing_balances at_ua (locked_in u a db.wallets) (reserved u a (locks_of db)) _ _ updated
          (is_zero_of _ (reserve_found o.id db.orders o found v.reserves) none_left),
  )
    where
      at_ua : Bool
      at_ua = o.user_id == u && o.locked_asset_id == a

      found : find_first (order_has_id o.id) db.orders ≡ some o
      found =
          subst (λ i. find_first (order_has_id i) db.orders ≡ some o)
            (sym (own_id order_id o db.orders e)) e

      updated :
          reserved u a (locks_of (cancelled o.id db))
            +ℤ (if at_ua then o.remaining_locked_amount else pos 0)
          ≡ reserved u a (locks_of db) +ℤ (if at_ua then pos 0 else pos 0)
      updated = reserved-update o.id set_cancelled o u a db.orders found refl refl

  pub handle_order_cancelled-gap :
      (operation_id : ℕ) (db : Db)
      → IsSound db
      → Adds (gaps env u a) (pos 0) db (handle_order_cancelled env operation_id order_id db)
  handle_order_cancelled-gap operation_id db v =
      handle_order_cancelled-Adds env (gaps env u a) operation_id order_id db
        λ o e. gives_up o db e v
