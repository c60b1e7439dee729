-- ===== src/EngineEvents/Settlement/Steps.antt =====
-- trade-settlement.service.ts: what each debit, credit and fee of a settlement adds to a measured
-- quantity.
use hau_cex.Common.{ℕ, ◌≡◌, refl, Option, none, some, ℤ, pos, neg_ℤ, ◌≤ℤ◌, ltb_ℤ, int_laws}
use hau_cex.Platform.{Platform}
use hau_cex.Database.Schema.{Db, Wallet, LedgerEntryType}
use hau_cex.Database.Table.{find_first, exists}
use hau_cex.Database.Tx.{◌>>=◌, ◌>>◌, modify, pure}
use hau_cex.Wallets.Balance.{has_id}
use hau_cex.Wallets.Balance.Movements.{Movement, move}
use hau_cex.EngineEvents.Settlement.{
  owned_by, mutation, debit_user, credit_user, collect_fee, find_or_create_treasury_wallet,
  upsert_wallet,
}
use hau_cex.EngineEvents.Settlement.Measure.{
  Measure, created, Adds, Adds-same, Shifts, found_row, unless_taken, when-Adds, owner-Adds,
  created-Adds,
}

module _ (env : Platform) (treasury_user_id : Option ℕ) (op trade_id : ℕ) where
  abbrev pub spending : ℕ → ℤ → Movement
  spending id amount = Movement.spend (mutation env treasury_user_id op trade_id id amount)

  abbrev pub crediting : LedgerEntryType → ℕ → ℤ → Movement
  crediting t id amount =
      Movement.credit
        (record { base = mutation env treasury_user_id op trade_id id amount; entry_type = t })

module _ {env : Platform} (M : Measure env) (treasury_user_id : Option ℕ) (op trade_id : ℕ) where
  abbrev spend_from : ℕ → ℤ → Movement
  spend_from = spending env treasury_user_id op trade_id

  abbrev credit_to : LedgerEntryType → ℕ → ℤ → Movement
  credit_to = crediting env treasury_user_id op trade_id

  pub debit_user-Shifts :
      (user asset : ℕ) (amount : ℤ)
      → Shifts M
          (M.weight user asset (pos 0) (neg_ℤ amount))
          (debit_user env treasury_user_id op trade_id user asset amount)
  unfolding debit_user move
  debit_user-Shifts user asset amount db v =
      found_row M (M.weight user asset (pos 0) (neg_ℤ amount)) db
        (find_first (owned_by user asset) db.wallets) _ (λ w. move env (spend_from w.id amount))
        λ w e. owner-Adds M user asset (spend_from w.id amount) db w v e refl

  pub credit_user-Shifts :
      (user asset : ℕ) (amount : ℤ)
      → Shifts M
          (M.weight user asset amount (pos 0))
          (credit_user env treasury_user_id op trade_id user asset amount)
  unfolding credit_user move
  credit_user-Shifts user asset amount db v =
      found_row M (M.weight user asset amount (pos 0)) db
        (find_first (owned_by user asset) db.wallets) _
        (λ w. move env (credit_to LedgerEntryType.trade_settlement w.id amount))
        λ w e.
          owner-Adds M user asset (credit_to LedgerEntryType.trade_settlement w.id amount) db w v e
            refl

  -- The credit of the treasury's wallet, found or created.
  treasury-Adds :
      (id user asset : ℕ) (amount : ℤ) (db : Db) (row : Option Wallet)
      → find_first (owned_by user asset) db.wallets ≡ row
      → M.Valid db
      → Adds M (M.weight user asset amount (pos 0)) db (
          (upsert_wallet id user asset row >>= λ i.
          move env (credit_to LedgerEntryType.trading_fee i amount))
            db)
  treasury-Adds id user asset amount db (some w) e v =
      owner-Adds M user asset (credit_to LedgerEntryType.trading_fee w.id amount) db w v e refl
  treasury-Adds id user asset amount db none e v =
      unless_taken M (M.weight user asset amount (pos 0)) db (exists (has_id id) db.wallets) _
        (modify (created id user asset) >> pure id)
        (λ i. move env (credit_to LedgerEntryType.trading_fee i amount))
        λ fresh.
          Adds-same M (M.weight user asset amount (pos 0)) db (created id user asset db) _
            (M.keeps_created id user asset db fresh e v).1
            (created-Adds M id user asset (credit_to LedgerEntryType.trading_fee id amount) db fresh
              e v refl)

-- Whose the fees are; without a treasury a settlement that takes a fee throws.
abbrev pub treasury_of : Option ℕ → ℕ
treasury_of none = 0
treasury_of (some user) = user

module _ {env : Platform} (M : Measure env) where
  fee-Adds :
      (treasury_user_id : Option ℕ) (op trade_id id asset : ℕ) (amount : ℤ) (db : Db)
      → M.Valid db
      → Adds M (M.weight (treasury_of treasury_user_id) asset amount (pos 0)) db (
          (find_or_create_treasury_wallet env treasury_user_id id asset >>= λ i.
          move env
            (crediting env treasury_user_id op trade_id LedgerEntryType.trading_fee i amount))
            db)
  unfolding find_or_create_treasury_wallet
  fee-Adds none op trade_id id asset amount db v = tt
  fee-Adds (some user) op trade_id id asset amount db v =
      treasury-Adds M (some user) op trade_id id user asset amount db
        (find_first (owned_by user asset) db.wallets) refl v

  pub collect_fee-Shifts :
      (treasury_user_id : Option ℕ) (op trade_id id asset : ℕ) (amount : ℤ)
      → pos 0 ≤ℤ amount
      → Shifts M
          (M.weight (treasury_of treasury_user_id) asset amount (pos 0))
          (collect_fee env treasury_user_id op trade_id id asset amount)
  unfolding collect_fee move
  collect_fee-Shifts t op trade_id id asset amount h db v =
      when-Adds M (M.weight (treasury_of t) asset amount (pos 0)) db (ltb_ℤ (pos 0) amount)
        (find_or_create_treasury_wallet env t id asset >>= λ i.
          move env (crediting env t op trade_id LedgerEntryType.trading_fee i amount))
        (λ some_fee. fee-Adds t op trade_id id asset amount db v)
        (λ no_fee.
          let e : amount ≡ pos 0 = grind int_laws in
          (v, rw (e, M.weight_nothing (treasury_of t) asset) (omega int_laws)))
