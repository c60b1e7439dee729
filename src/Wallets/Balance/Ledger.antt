-- ===== src/Wallets/Balance/Ledger.antt =====
-- The ledger against the wallets: a wallet's balance is the sum of the ledger entries on it.
use hau_cex.Common.{
  ℕ, ◌≡◌, refl, sym, subst, ◌∙◌, Bool, true, false, ◌&&◌, List, [], ◌∷◌, ◌++◌, none, some, inl, inr,
  ℤ, pos, ◌+ℤ◌, ◌==◌, ==_iff, if◌then◌else◌, Bool-cases, int_laws, arith,
}
use hau_cex.Platform.{Platform}
use hau_cex.Database.Schema.{Db, Wallet, LedgerEntry, LedgerBalanceType}
use hau_cex.Database.Table.{find_first, update_first, find_first_holds}
use hau_cex.Wallets.Balance.{has_id, add_to_balances}
use hau_cex.Wallets.Balance.Movements.{
  Movement, params, available_change, locked_change, entries, moved, move, move_cases,
}

abbrev pub is_type : LedgerBalanceType → LedgerBalanceType → Bool
is_type LedgerBalanceType.available LedgerBalanceType.available = true
is_type LedgerBalanceType.locked LedgerBalanceType.locked = true
is_type _ _ = false

abbrev pub balance : LedgerBalanceType → Wallet → ℤ
balance LedgerBalanceType.available w = w.available_balance
balance LedgerBalanceType.locked w = w.locked_balance

abbrev pub change : LedgerBalanceType → Movement → ℤ
change LedgerBalanceType.available m = available_change m
change LedgerBalanceType.locked m = locked_change m

-- The balance of a wallet, zero where there is no such wallet.
abbrev pub stored : LedgerBalanceType → ℕ → List Wallet → ℤ
stored b id ws = elim (find_first (has_id id) ws) [ none ↦ pos 0 | some w ↦ balance b w ]

-- What the ledger says of it.
abbrev pub posted : LedgerBalanceType → ℕ → List LedgerEntry → ℤ
posted b id [] = pos 0
posted b id (e ∷ es) =
    (if e.wallet_id == id && is_type b e.balance_type then e.amount else pos 0) +ℤ posted b id es

abbrev pub LedgerMatches : Db → Type 0
LedgerMatches db =
    (b : LedgerBalanceType) (id : ℕ) → stored b id db.wallets ≡ posted b id db.ledger_entries

pub posted-append :
    (b : LedgerBalanceType) (id : ℕ) (xs ys : List LedgerEntry)
    → posted b id (xs ++ ys) ≡ posted b id xs +ℤ posted b id ys
posted-append b id [] ys = omega int_laws
posted-append b id (x ∷ xs) ys = rw (posted-append b id xs ys) (omega int_laws)

stored-update_self :
    (b : LedgerBalanceType) (m : Movement) (ws : List Wallet) (w : Wallet)
    → find_first (has_id (params m).wallet_id) ws ≡ some w
    → stored b (params m).wallet_id (
        update_first
          (has_id (params m).wallet_id)
          (add_to_balances (available_change m) (locked_change m))
          ws)
      ≡ balance b w +ℤ change b m
stored-update_self b m [] w e = cc
stored-update_self LedgerBalanceType.available m (x ∷ ws) w e =
    ground (arith, stored-update_self LedgerBalanceType.available m ws w)
stored-update_self LedgerBalanceType.locked m (x ∷ ws) w e =
    ground (arith, stored-update_self LedgerBalanceType.locked m ws w)

stored-update_ne :
    (b : LedgerBalanceType) (id j : ℕ) (a l : ℤ) (ws : List Wallet)
    → (j == id) ≡ false
    → stored b j (update_first (has_id id) (add_to_balances a l) ws) ≡ stored b j ws
stored-update_ne b id j a l [] e = refl
stored-update_ne b id j a l (x ∷ ws) e = ground (arith, stored-update_ne b id j a l ws e)

stored-found :
    (b : LedgerBalanceType) (id : ℕ) (ws : List Wallet) (w : Wallet)
    → find_first (has_id id) ws ≡ some w
    → stored b id ws ≡ balance b w
stored-found b id ws w e = rw (e, stored)

module _ (env : Platform) where
  posted-entries_self :
      (b : LedgerBalanceType) (m : Movement) (w : Wallet) (id : ℕ)
      → w.id ≡ id
      → posted b id (entries env m w) ≡ change b m
  posted-entries_self LedgerBalanceType.available (Movement.lock p) w id e = grind int_laws
  posted-entries_self LedgerBalanceType.locked (Movement.lock p) w id e = grind int_laws
  posted-entries_self b m w id e = grind int_laws

  posted-entries_ne :
      (b : LedgerBalanceType) (m : Movement) (w : Wallet) (j : ℕ)
      → (w.id == j) ≡ false
      → posted b j (entries env m w) ≡ pos 0
  posted-entries_ne LedgerBalanceType.available (Movement.lock p) w j e = rw e (omega int_laws)
  posted-entries_ne LedgerBalanceType.locked (Movement.lock p) w j e = rw e (omega int_laws)
  posted-entries_ne b m w j e = rw e (omega int_laws)

  moved-LedgerMatches :
      (m : Movement) (w : Wallet) (db : Db)
      → find_first (has_id (params m).wallet_id) db.wallets ≡ some w
      → LedgerMatches db
      → LedgerMatches (moved env m w db)
  moved-LedgerMatches m w db e h b id = elim (Bool-cases (w.id == id)) [
    | inl hit ↦
        subst
          (λ j.
            stored b j (moved env m w db).wallets ≡ posted b j (moved env m w db).ledger_entries)
          (sym own ∙ (==_iff w.id id).0 hit)
          (cc (
            stored-update_self b m db.wallets w e,
            posted-append b (params m).wallet_id db.ledger_entries (entries env m w),
            posted-entries_self b m w (params m).wallet_id own,
            h b (params m).wallet_id,
            stored-found b (params m).wallet_id db.wallets w e,
          ))
    | inr miss ↦
        rw (posted-append b id db.ledger_entries (entries env m w), posted-entries_ne b m w id miss)
          (rw (stored-update_ne b (params m).wallet_id id _ _ db.wallets (other miss), h b id)
            (omega int_laws))
  ]
    where
      own : w.id ≡ (params m).wallet_id
      own = (==_iff _ _).0 (find_first_holds (has_id (params m).wallet_id) db.wallets w e)

      other : (w.id == id) ≡ false → (id == (params m).wallet_id) ≡ false
      other miss = ground (arith, own)

  -- If every available and locked balance is the sum of the ledger entries on it, then this is still
  -- so after any of the five movements, whether it succeeds or throws.
  pub move-LedgerMatches :
      (m : Movement) (db : Db) → LedgerMatches db → LedgerMatches (move env m db).1
  move-LedgerMatches m db h =
      move_cases env LedgerMatches m db h λ w l. moved-LedgerMatches m w db l.0 h
