-- ===== src/Wallets/Balance/Movements.antt =====
-- wallet-balance.service.ts: the five movements as values, and what each does to the tables.
use hau_cex.Common.{
  ◌≡◌, refl, sym, subst, ap, List, [], ◌∷◌, ◌++◌, Option, none, some, inl, inr, Bool, true, false,
  ℤ, pos, neg_ℤ, ◌+ℤ◌, ◌≤ℤ◌, ltb_ℤ, leb_ℤ, Bool-cases, int_laws,
}
use hau_cex.Platform.{Platform}
use hau_cex.Database.Schema.{Db, Wallet, LedgerEntry, LedgerEntryType, LedgerBalanceType}
use hau_cex.Database.Table.{find_first, update_first}
use hau_cex.Database.Exceptions.{insufficient_balance}
use hau_cex.Database.Tx.{Tx, Error, Result, ok, err, ◌>>=◌, ◌>>◌, or_throw, throw_if}
use hau_cex.Wallets.Balance.{
  WalletMutationParams, CreditParams, has_id, add_to_balances, entry, update_wallet, create_entries,
  move_available_to_locked, move_locked_to_available, credit_available, debit_locked,
  debit_available,
}

pub data Movement : Type 0 where
  lock unlock spend : WalletMutationParams → Movement
  credit debit : CreditParams → Movement

abbrev pub params : Movement → WalletMutationParams
params (Movement.lock p) = p
params (Movement.unlock p) = p
params (Movement.spend p) = p
params (Movement.credit c) = c.base
params (Movement.debit c) = c.base

-- What a movement adds to the available and to the locked balance.
abbrev pub available_change : Movement → ℤ
available_change (Movement.lock p) = neg_ℤ p.amount
available_change (Movement.unlock p) = p.amount
available_change (Movement.spend p) = pos 0
available_change (Movement.credit c) = c.base.amount
available_change (Movement.debit c) = neg_ℤ c.base.amount

abbrev pub locked_change : Movement → ℤ
locked_change (Movement.lock p) = p.amount
locked_change (Movement.unlock p) = neg_ℤ p.amount
locked_change (Movement.spend p) = neg_ℤ p.amount
locked_change (Movement.credit c) = pos 0
locked_change (Movement.debit c) = pos 0

-- The wallet that a movement locks, and the tests that it has passed.
abbrev pub Locks : Movement → Db → Wallet → Type 0
Locks m db w =
    (find_first (has_id (params m).wallet_id) db.wallets ≡ some w)
    × (pos 0 ≤ℤ w.available_balance → pos 0 ≤ℤ w.available_balance +ℤ available_change m)
    × (pos 0 ≤ℤ w.locked_balance → pos 0 ≤ℤ w.locked_balance +ℤ locked_change m)
    × (pos 1 ≤ℤ (params m).amount)

module _ (env : Platform) where
  unfoldable pub move : Movement → Tx (Unit {0})
  unfolding move_available_to_locked move_locked_to_available credit_available debit_locked
      debit_available
  move (Movement.lock p) = move_available_to_locked env p
  move (Movement.unlock p) = move_locked_to_available env p
  move (Movement.spend p) = debit_locked env p
  move (Movement.credit c) = credit_available env c
  move (Movement.debit c) = debit_available env c

  -- The ledger entries of a movement of the wallet `w`.
  abbrev pub entries : Movement → Wallet → List LedgerEntry
  entries (Movement.lock p) w =
      entry w p LedgerBalanceType.available LedgerEntryType.order_lock (neg_ℤ p.amount)
        w.available_balance (env.minus w.available_balance p.amount)
      ∷ entry w p LedgerBalanceType.locked LedgerEntryType.order_lock p.amount w.locked_balance
          (env.plus w.locked_balance p.amount)
      ∷ []
  entries (Movement.unlock p) w =
      entry w p LedgerBalanceType.available LedgerEntryType.order_unlock p.amount
        w.available_balance (env.plus w.available_balance p.amount)
      ∷ entry w p LedgerBalanceType.locked LedgerEntryType.order_unlock (neg_ℤ p.amount)
          w.locked_balance (env.minus w.locked_balance p.amount)
      ∷ []
  entries (Movement.spend p) w =
      entry w p LedgerBalanceType.locked LedgerEntryType.trade_settlement (neg_ℤ p.amount)
        w.locked_balance (env.minus w.locked_balance p.amount)
      ∷ []
  entries (Movement.credit c) w =
      entry w c.base LedgerBalanceType.available c.entry_type c.base.amount w.available_balance
        (env.plus w.available_balance c.base.amount)
      ∷ []
  entries (Movement.debit c) w =
      entry w c.base LedgerBalanceType.available c.entry_type (neg_ℤ c.base.amount)
        w.available_balance (env.minus w.available_balance c.base.amount)
      ∷ []

  abbrev pub moved : Movement → Wallet → Db → Db
  moved m w db = record db {
    wallets =
        update_first (has_id (params m).wallet_id)
          (add_to_balances (available_change m) (locked_change m)) db.wallets;
    ledger_entries = db.ledger_entries ++ entries m w;
  }

  abbrev writes : Movement → Wallet → Tx (Unit {0})
  writes m w =
      update_wallet (params m).wallet_id (available_change m) (locked_change m)
      >> create_entries (entries m w)

  -- A call that began at `db` has thrown and changed nothing, or has moved the money of the wallet
  -- that it locked, with no balance taken below zero.
  abbrev pub Moves : Movement → Db → Result (Unit {0}) × Db → Type 0
  Moves m db (err e, db') = db' ≡ db
  Moves m db (ok _, db') = (w : Wallet) × (db' ≡ moved m w db) × Locks m db w

-- A checked step on a locked row: it throws and changes nothing, or goes on with the tests passed.
guarded_cases {ℓ} :
    {A : Type 0} (P : Result A × Db → Type ℓ) (bad : Bool) (e₁ e₂ e₃ : Error) (row : Option Wallet)
    (short : Wallet → Bool) (k : Wallet → Tx A) (db : Db)
    → ((e : Error) → P (err e, db))
    → ((w : Wallet) → bad ≡ false → row ≡ some w → short w ≡ false → P (k w db))
    → P ((throw_if bad e₁ >> (or_throw row e₂ >>= λ w. throw_if (short w) e₃ >> k w)) db)
guarded_cases P true e₁ e₂ e₃ row short k db thrown done = thrown e₁
guarded_cases P false e₁ e₂ e₃ none short k db thrown done = thrown e₂
guarded_cases P false e₁ e₂ e₃ (some w) short k db thrown done = elim (Bool-cases (short w)) [
  | inl s ↦ rw s (thrown e₃)
  | inr s ↦ rw s (done w refl refl s)
]

module _ (env : Platform) where
  -- Every movement throws and changes nothing, or moves money of the wallet that it locked.
  pub move-Moves : (m : Movement) (db : Db) → Moves env m db (move env m db)
  unfolding move
  move-Moves (Movement.lock p) db =
      guarded_cases (Moves env (Movement.lock p) db) (leb_ℤ p.amount (pos 0)) _ _ _
        (find_first (has_id p.wallet_id) db.wallets) (λ w. ltb_ℤ w.available_balance p.amount)
        (λ w. writes env (Movement.lock p) w) db (λ e. refl)
        (λ w b r s. (w, refl, (r, λ h. grind int_laws, λ h. grind int_laws, grind int_laws)))
  move-Moves (Movement.unlock p) db =
      guarded_cases (Moves env (Movement.unlock p) db) (leb_ℤ p.amount (pos 0)) _ _ _
        (find_first (has_id p.wallet_id) db.wallets) (λ w. ltb_ℤ w.locked_balance p.amount)
        (λ w. writes env (Movement.unlock p) w) db (λ e. refl)
        (λ w b r s. (w, refl, (r, λ h. grind int_laws, λ h. grind int_laws, grind int_laws)))
  move-Moves (Movement.spend p) db =
      guarded_cases (Moves env (Movement.spend p) db) (leb_ℤ p.amount (pos 0)) _ _ _
        (find_first (has_id p.wallet_id) db.wallets) (λ w. ltb_ℤ w.locked_balance p.amount)
        (λ w. writes env (Movement.spend p) w) db (λ e. refl)
        (λ w b r s. (w, refl, (r, λ h. grind int_laws, λ h. grind int_laws, grind int_laws)))
  move-Moves (Movement.credit c) db =
      guarded_cases (Moves env (Movement.credit c) db) (leb_ℤ c.base.amount (pos 0)) _ _
        (Error.http insufficient_balance) (find_first (has_id c.base.wallet_id) db.wallets)
        (λ w. false) (λ w. writes env (Movement.credit c) w) db (λ e. refl)
        (λ w b r s. (w, refl, (r, λ h. grind int_laws, λ h. grind int_laws, grind int_laws)))
  move-Moves (Movement.debit c) db =
      guarded_cases (Moves env (Movement.debit c) db) (leb_ℤ c.base.amount (pos 0)) _ _ _
        (find_first (has_id c.base.wallet_id) db.wallets)
        (λ w. ltb_ℤ w.available_balance c.base.amount) (λ w. writes env (Movement.debit c) w) db
        (λ e. refl)
        (λ w b r s. (w, refl, (r, λ h. grind int_laws, λ h. grind int_laws, grind int_laws)))

  Moves-cases {ℓ} :
      (P : Db → Type ℓ) (m : Movement) (db : Db) (r : Result (Unit {0}) × Db)
      → P db
      → ((w : Wallet) → Locks m db w → P (moved env m w db))
      → Moves env m db r
      → P r.1
  Moves-cases P m db (ok _, db') kept done (w, e, locks) = subst P (sym e) (done w locks)
  Moves-cases P m db (err _, db') kept done e = subst P (sym e) kept

  -- What holds of the tables, and of them with the money moved, holds after the movement.
  pub move_cases {ℓ} :
      (P : Db → Type ℓ) (m : Movement) (db : Db)
      → P db
      → ((w : Wallet) → Locks m db w → P (moved env m w db))
      → P (move env m db).1
  move_cases P m db kept done = Moves-cases P m db (move env m db) kept done (move-Moves m db)

  -- What goes on after a movement, and ends well, goes on from the tables with the money moved.
  pub move-ok :
      {A : Type 0} (m : Movement) (k : Tx A) (db : Db) (a : A)
      → ((move env m >> k) db).0 ≡ ok a
      → (w : Wallet) × Locks m db w × ((move env m >> k) db ≡ k (moved env m w db))
  move-ok {A} m k db a h = of_moves (move env m db) (move-Moves m db) h
    where
      of_moves :
          (r : Result (Unit {0}) × Db)
          → Moves env m db r
          → (((λ _. r) >> k) db).0 ≡ ok a
          → (w : Wallet) × Locks m db w × (((λ _. r) >> k) db ≡ k (moved env m w db))
      of_moves (err e, db') moves done = cc
      of_moves (ok _, db') (w, e, locks) done = (w, locks, ap k e)
