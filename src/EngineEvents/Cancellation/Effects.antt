-- ===== src/EngineEvents/Cancellation/Effects.antt =====
-- order-cancellation.service.ts: what the engine's OrderCancelled does to the order and the wallets.
use hau_cex.Common.{
  ℕ, ◌≡◌, refl, sym, subst, ap, ◌∙◌, List, [], ◌∷◌, Option, none, some, ℤ, pos, ◌+ℤ◌, neg_ℤ, ltb_ℤ,
  ==_iff, int_laws, arith, true, false, inl, inr, Bool-cases,
}
use hau_cex.Platform.{Platform}
use hau_cex.Database.Schema.{Db, Order}
use hau_cex.Database.Table.{find_first, update_first, find_first_holds, find_first-update_self}
use hau_cex.Database.Tx.{Tx, Result, err, ok, ◌>>◌, when, transaction}
use hau_cex.Database.Frame.{Keeps, Keeps-bind, Keeps-or_throw, Keeps-when}
use hau_cex.Wallets.Balance.Movements.{Movement, move, move_cases}
use hau_cex.Wallets.Balance.Totals.{asset_total}
use hau_cex.EngineEvents.Settlement.{order_has_id, owned_by, find_wallet}
use hau_cex.EngineEvents.Settlement.Validity.{IsValid}
use hau_cex.EngineEvents.Settlement.Measure.{Measure, Adds, found_row, owner-Adds, settled}
use hau_cex.EngineEvents.Settlement.Conservation.{assets, counted}
use hau_cex.EngineEvents.Cancellation.{
  handle_order_cancelled, unlock_remaining, unlock_params, set_cancelled, update_order_by_id,
}

-- The tables after step 2.
abbrev pub cancelled : ℕ → Db → Db
cancelled id db = record db { orders = update_first (order_has_id id) set_cancelled db.orders }

pub own_id :
    (id : ℕ) (o : Order) (os : List Order) → find_first (order_has_id id) os ≡ some o → o.id ≡ id
own_id id o os e = (==_iff _ _).0 (find_first_holds (order_has_id id) os o e)

counted-back : (a b : ℕ) (x : ℤ) → counted a b (x +ℤ neg_ℤ x) ≡ pos 0
counted-back a b x = grind int_laws

update_first-twice :
    (id : ℕ) (os : List Order)
    → update_first (order_has_id id) set_cancelled (update_first (order_has_id id) set_cancelled os)
      ≡ update_first (order_has_id id) set_cancelled os
update_first-twice id [] = refl
update_first-twice id (x ∷ os) = ground (arith, update_first-twice id os)

module _ (env : Platform) where
  -- The rest of the handler, of the order that was found.
  abbrev pub rest : ℕ → Order → Tx (Unit {0})
  rest operation_id o =
      update_order_by_id o.id set_cancelled
      >> when (ltb_ℤ (pos 0) o.remaining_locked_amount) (unlock_remaining env operation_id o)

  -- What the unlock of an order's remainder adds to a measured quantity.
  abbrev unlocked : Measure env → Order → ℤ
  unlocked M o =
      M.weight o.user_id o.locked_asset_id o.remaining_locked_amount
        (neg_ℤ o.remaining_locked_amount)

  unlock-Keeps :
      (operation_id : ℕ) (o : Order) → Keeps (λ db. db.orders) (unlock_remaining env operation_id o)
  unfolding unlock_remaining move
  unlock-Keeps operation_id o =
      Keeps-bind (λ db. db.orders) (find_wallet o.user_id o.locked_asset_id)
        (λ w. move env (unlocking w.id))
        (Keeps-or_throw (λ db. db.orders)
          (λ db. find_first (owned_by o.user_id o.locked_asset_id) db.wallets) _)
        λ w. record {
          same =
              λ db. move_cases env (λ d. d.orders ≡ db.orders) (unlocking w.id) db refl λ _ _. refl;
        }
    where
      unlocking : ℕ → Movement
      unlocking id = Movement.unlock (unlock_params env operation_id id o)

  pub rest-orders :
      (operation_id : ℕ) (o : Order) (db : Db)
      → (rest operation_id o db).1.orders ≡ (cancelled o.id db).orders
  rest-orders operation_id o db =
      (Keeps-when (λ d. d.orders) (ltb_ℤ (pos 0) o.remaining_locked_amount)
          (unlock_remaining env operation_id o) (unlock-Keeps operation_id o)).same
        (cancelled o.id db)

  unlock-Adds :
      (M : Measure env) (operation_id : ℕ) (o : Order) (db : Db)
      → M.Valid db
      → Adds M (unlocked M o) db (unlock_remaining env operation_id o db)
  unfolding unlock_remaining move
  unlock-Adds M operation_id o db v =
      found_row M (unlocked M o) db (find_first (owned_by o.user_id o.locked_asset_id) db.wallets) _
        (λ w. move env (unlocking w.id))
        λ w e. owner-Adds M o.user_id o.locked_asset_id (unlocking w.id) db w v e refl
    where
      unlocking : ℕ → Movement
      unlocking id = Movement.unlock (unlock_params env operation_id id o)

  -- What is unlocked makes up for the lock that the order gives up.
  abbrev pub GivesUp : Measure env → Order → Db → Type 0
  GivesUp M o db =
      M.Valid (cancelled o.id db)
      × ((ltb_ℤ (pos 0) o.remaining_locked_amount ≡ true)
          → M.value (cancelled o.id db) +ℤ unlocked M o ≡ M.value db)
      × ((ltb_ℤ (pos 0) o.remaining_locked_amount ≡ false)
          → M.value (cancelled o.id db) ≡ M.value db)

  rest-Adds :
      (M : Measure env) (operation_id : ℕ) (o : Order) (db : Db)
      → GivesUp M o db
      → Adds M (pos 0) db (rest operation_id o db)
  rest-Adds M operation_id o db (valid, unlocks, nothing) =
      elim (Bool-cases (ltb_ℤ (pos 0) o.remaining_locked_amount)) [
        | inl some_left ↦ rw some_left (
            back (unlock_remaining env operation_id o (cancelled o.id db)) (unlocks some_left)
              (unlock-Adds M operation_id o (cancelled o.id db) valid))
        | inr none_left ↦ rw none_left (valid, nothing none_left ∙ omega int_laws)
      ]
    where
      back :
          (r : Result (Unit {0}) × Db)
          → M.value (cancelled o.id db) +ℤ unlocked M o ≡ M.value db
          → Adds M (unlocked M o) (cancelled o.id db) r
          → Adds M (pos 0) db r
      back (err e, last) balanced h = tt
      back (ok x, last) balanced h = (h.0, h.1 ∙ (balanced ∙ omega int_laws))

  pub handle_order_cancelled-Adds :
      (M : Measure env) (operation_id order_id : ℕ) (db : Db)
      → ((o : Order) → find_first (order_has_id order_id) db.orders ≡ some o → GivesUp M o db)
      → Adds M (pos 0) db (handle_order_cancelled env operation_id order_id db)
  unfolding handle_order_cancelled
  handle_order_cancelled-Adds M operation_id order_id db gives =
      found_row M (pos 0) db (find_first (order_has_id order_id) db.orders) _ (rest operation_id)
        λ o e. rest-Adds M operation_id o db (gives o e)

  pub cancelled_adds_nothing :
      (operation_id order_id a : ℕ) (db : Db)
      → IsValid db
      → Adds (assets env a) (pos 0) db (handle_order_cancelled env operation_id order_id db)
  cancelled_adds_nothing operation_id order_id a db v =
      handle_order_cancelled-Adds (assets env a) operation_id order_id db λ o _. (
        record { unique = v.unique; solvent = v.solvent; matches = v.matches },
        λ _. rw (counted-back a o.locked_asset_id o.remaining_locked_amount) (omega int_laws),
        λ _. refl,
      )

  -- An OrderCancelled event, from a valid database: whether its transaction commits or is rolled
  -- back, the wallets of every asset hold together what they held before, no balance is negative,
  -- and every balance is the sum of its ledger entries.
  pub handle_order_cancelled_conserves :
      (operation_id order_id a : ℕ) (db : Db)
      → IsValid db
      → let after = (transaction (handle_order_cancelled env operation_id order_id) db).1 in
        IsValid after × (asset_total a after.wallets ≡ asset_total a db.wallets)
  handle_order_cancelled_conserves operation_id order_id a db v =
      settled (assets env a) db (handle_order_cancelled env operation_id order_id db) v
        (cancelled_adds_nothing operation_id order_id a db v)

  -- The handler, at an order that is there.
  pub handle_order_cancelled-at :
      (operation_id order_id : ℕ) (o : Order) (db : Db)
      → find_first (order_has_id order_id) db.orders ≡ some o
      → handle_order_cancelled env operation_id order_id db ≡ rest operation_id o db
  unfolding handle_order_cancelled
  handle_order_cancelled-at operation_id order_id o db e = ground arith

  -- The order is found again, cancelled.
  pub cancelled_found :
      (order_id : ℕ) (o : Order) (db after : Db)
      → find_first (order_has_id order_id) db.orders ≡ some o
      → after.orders ≡ (cancelled o.id db).orders
      → find_first (order_has_id order_id) after.orders ≡ some (set_cancelled o)
  cancelled_found order_id o db after e h =
      ap (find_first (order_has_id order_id)) h
      ∙ subst
          (λ i.
            find_first (order_has_id order_id)
              (update_first (order_has_id i) set_cancelled db.orders)
            ≡ some (set_cancelled o))
          (sym (own_id order_id o db.orders e))
          (find_first-update_self (order_has_id order_id) set_cancelled db.orders o (λ y. refl) e)

  again :
      (operation_id order_id : ℕ) (o : Order) (db after : Db)
      → find_first (order_has_id order_id) db.orders ≡ some o
      → after.orders ≡ (cancelled o.id db).orders
      → handle_order_cancelled env operation_id order_id after ≡ (ok tt, after)
  again operation_id order_id o db after e h =
      handle_order_cancelled-at operation_id order_id (set_cancelled o) after
        (cancelled_found order_id o db after e h)
      ∙ ap (λ os. (ok tt, record after { orders = os }))
          (ap (update_first (order_has_id o.id) set_cancelled) h
            ∙ (update_first-twice o.id db.orders ∙ sym h))

  done_twice :
      (operation_id again_id order_id : ℕ) (db : Db) (row : Option Order)
      → find_first (order_has_id order_id) db.orders ≡ row
      → (handle_order_cancelled env operation_id order_id db).0 ≡ ok tt
      → let after = (handle_order_cancelled env operation_id order_id db).1 in
        handle_order_cancelled env again_id order_id after ≡ (ok tt, after)
  unfolding handle_order_cancelled
  done_twice operation_id again_id order_id db none e h = ground arith
  done_twice operation_id again_id order_id db (some o) e h =
      again again_id order_id o db (handle_order_cancelled env operation_id order_id db).1 e (
        ap (λ r. r.1.orders) (handle_order_cancelled-at operation_id order_id o db e)
        ∙ rest-orders operation_id o db)

  -- An OrderCancelled event that has been applied changes nothing when it comes again: the amount
  -- that was still locked is unlocked once.
  pub handle_order_cancelled_once :
      (operation_id again_id order_id : ℕ) (db : Db)
      → (handle_order_cancelled env operation_id order_id db).0 ≡ ok tt
      → let after = (handle_order_cancelled env operation_id order_id db).1 in
        handle_order_cancelled env again_id order_id after ≡ (ok tt, after)
  handle_order_cancelled_once operation_id again_id order_id db =
      done_twice operation_id again_id order_id db (find_first (order_has_id order_id) db.orders)
        refl
