-- ===== src/Wallets/Balance/Outcome.antt =====
-- When a movement is accepted, when it throws and what, and that unlocking undoes locking.
use hau_cex.Common.{
  ℕ, ◌≡◌, refl, sym, ◌∙◌, ◌||◌, List, [], ◌∷◌, Option, none, some, ℤ, pos, neg_ℤ, ◌+ℤ◌, ◌≤ℤ◌, ltb_ℤ,
  leb_ℤ, if◌then◌else◌, int_laws, arith, some-injective,
}
use hau_cex.Platform.{Platform}
use hau_cex.Database.Exceptions.{insufficient_balance, invalid_amount, wallet_not_found}
use hau_cex.Database.Schema.{Db, Wallet}
use hau_cex.Database.Table.{find_first, update_first}
use hau_cex.Database.Tx.{Error, Result, ok, err}
use hau_cex.Wallets.Balance.{WalletMutationParams, has_id, add_to_balances}
use hau_cex.Wallets.Balance.Movements.{
  Movement, params, available_change, locked_change, Locks, Moves, moved, move, move-Moves,
}
use hau_cex.Wallets.Balance.Totals.{IsFunded, Solvent, find_first-IsFunded}

module _ (env : Platform) where
  verdict_on : Movement → Option Wallet → Result (Unit {0})
  verdict_on m none =
      err (Error.http (wallet_not_found (some (env.uuid_text (params m).wallet_id))))
  verdict_on m (some w) =
      if ltb_ℤ (w.available_balance +ℤ available_change m) (pos 0)
        || ltb_ℤ (w.locked_balance +ℤ locked_change m) (pos 0)
      then err (Error.http insufficient_balance)
      else ok tt

  -- A movement is refused if its amount is not positive, if there is no such wallet, and if it
  -- would take a balance of the wallet below zero.
  pub verdict : Movement → Db → Result (Unit {0})
  unfolding verdict_on
  verdict m db =
      if leb_ℤ (params m).amount (pos 0)
      then err (Error.http invalid_amount)
      else verdict_on m (find_first (has_id (params m).wallet_id) db.wallets)

  move-verdict_at :
      (m : Movement) (db : Db) (row : Option Wallet)
      → find_first (has_id (params m).wallet_id) db.wallets ≡ row
      → Solvent db
      → (move env m db).0 ≡ verdict m db
  unfolding move verdict
  move-verdict_at (Movement.lock p) db none e h = ground arith
  move-verdict_at m db none e h = ground arith
  move-verdict_at (Movement.lock p) db (some w) e h =
      grind (int_laws, find_first-IsFunded p.wallet_id db.wallets w h e)
  move-verdict_at m db (some w) e h =
      grind (int_laws, find_first-IsFunded (params m).wallet_id db.wallets w h e)

  -- From tables with no negative balance, each of the five movements throws INVALID_AMOUNT if its
  -- amount is not positive, else WALLET_NOT_FOUND if there is no such wallet, else
  -- INSUFFICIENT_BALANCE if it would take a balance of the wallet below zero, and succeeds otherwise.
  pub move-verdict : (m : Movement) (db : Db) → Solvent db → (move env m db).0 ≡ verdict m db
  move-verdict m db h =
      move-verdict_at m db (find_first (has_id (params m).wallet_id) db.wallets) refl h

update_first_undone :
    (id : ℕ) (a : ℤ) (ws : List Wallet)
    → update_first
        (has_id id)
        (add_to_balances a (neg_ℤ a))
        (update_first (has_id id) (add_to_balances (neg_ℤ a) a) ws)
      ≡ ws
update_first_undone id a [] = refl
update_first_undone id a (x ∷ ws) = grind (int_laws, update_first_undone id a ws)

find_first-update :
    (id : ℕ) (a l : ℤ) (ws : List Wallet) (w : Wallet)
    → find_first (has_id id) ws ≡ some w
    → find_first (has_id id) (update_first (has_id id) (add_to_balances a l) ws)
      ≡ some (add_to_balances a l w)
find_first-update id a l [] w e = cc
find_first-update id a l (x ∷ ws) w e = ground (arith, find_first-update id a l ws w)

module _ (env : Platform) where
  unlock-moved :
      (p : WalletMutationParams) (w : Wallet) (db : Db)
      → Locks (Movement.lock p) db w
      → IsFunded w
      → let back = move env (Movement.unlock p) (moved env (Movement.lock p) w db) in
        (back.0 ≡ ok tt) × (back.1.wallets ≡ db.wallets)
  unfolding move
  unlock-moved p w db (found, av, lk, positive) f = (
    grind (int_laws, find_first-update p.wallet_id (neg_ℤ p.amount) p.amount db.wallets w found),
    grind (
      int_laws,
      find_first-update p.wallet_id (neg_ℤ p.amount) p.amount db.wallets w found,
      update_first_undone p.wallet_id p.amount db.wallets,
    ),
  )

  -- An amount that was locked can be unlocked at once, and then every wallet is as it was before.
  pub unlock-lock :
      (p : WalletMutationParams) (db : Db)
      → Solvent db
      → (move env (Movement.lock p) db).0 ≡ ok tt
      → let back = move env (Movement.unlock p) (move env (Movement.lock p) db).1 in
        (back.0 ≡ ok tt) × (back.1.wallets ≡ db.wallets)
  unlock-lock p db h done =
      unlock_after (move env (Movement.lock p) db) done (move-Moves env (Movement.lock p) db)
    where
      unlock_after :
          (r : Result (Unit {0}) × Db)
          → r.0 ≡ ok tt
          → Moves env (Movement.lock p) db r
          → let back = move env (Movement.unlock p) r.1 in
            (back.0 ≡ ok tt) × (back.1.wallets ≡ db.wallets)
      unlock_after (err e, db') done m = cc
      unlock_after (ok _, db') done (w, e, locks) =
          rw e (unlock-moved p w db locks (find_first-IsFunded p.wallet_id db.wallets w h locks.0))

  -- What a movement needs to be accepted.
  abbrev pub Accepts : Movement → Db → Wallet → Type 0
  Accepts m db w =
      (find_first (has_id (params m).wallet_id) db.wallets ≡ some w)
      × (pos 1 ≤ℤ (params m).amount)
      × (pos 0 ≤ℤ w.available_balance +ℤ available_change m)
      × (pos 0 ≤ℤ w.locked_balance +ℤ locked_change m)

  verdict-Accepts :
      (m : Movement) (db : Db) (w : Wallet) → Accepts m db w → verdict env m db ≡ ok tt
  unfolding verdict
  verdict-Accepts m db w (found, positive, av, lk) = grind int_laws

  -- A movement that is accepted makes exactly its changes to the tables.
  pub move-moved :
      (m : Movement) (db : Db) (w : Wallet)
      → Solvent db
      → Accepts m db w
      → move env m db ≡ (ok tt, moved env m w db)
  move-moved m db w h accepts =
      of_moves (move env m db) (move-verdict env m db h ∙ verdict-Accepts m db w accepts)
        (move-Moves env m db)
    where
      of_moves :
          (r : Result (Unit {0}) × Db)
          → r.0 ≡ ok tt
          → Moves env m db r
          → r ≡ (ok tt, moved env m w db)
      of_moves (err e, db') done h = cc
      of_moves (ok _, db') done (w', e, locks) =
          rw (e, some-injective _ _ (sym locks.0 ∙ accepts.0)) refl
