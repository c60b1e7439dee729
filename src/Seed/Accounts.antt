-- ===== src/Seed/Accounts.antt =====
-- seed.ts: the ledger entries account for the balances of the wallets.
use hau_cex.Common.{
  ℕ, ◌≡◌, refl, sym, false, List, [], ◌∷◌, ◌++◌, ℤ, pos, ◌+ℤ◌, inl, inr, Bool-cases, ◌==◌, ==_iff,
  All, int_laws, arith,
}
use hau_cex.Database.Schema.{Db, Wallet, LedgerEntry, LedgerBalanceType}
use hau_cex.Database.Table.{exists}
use hau_cex.Wallets.Balance.{has_id}
use hau_cex.Wallets.Balance.Ledger.{posted-append, stored, posted, balance}
use hau_cex.Wallets.Balance.Totals.{IsFunded}
use hau_cex.EngineEvents.Settlement.Validity.{IsValid, UniqueIds}
use hau_cex.Seed.Balances.{
  whole, half, treasury_usdt_entries, alice_usdt_entries, alice_btc_entries, bob_usdt_entries,
  bob_btc_entries,
}

-- The entries account for the balances of one wallet, and of no other.
pub record Accounts (id : ℕ) (free held : ℤ) (es : List LedgerEntry) : Type 0 where
  pub frees : posted LedgerBalanceType.available id es ≡ free
  pub holds : posted LedgerBalanceType.locked id es ≡ held
  pub others : (b : LedgerBalanceType) (j : ℕ) → (id == j) ≡ false → posted b j es ≡ pos 0

pub Accounts-treasury_usdt :
    (u a id : ℕ) → Accounts id (whole 1000000) (whole 0) (treasury_usdt_entries u a id)
Accounts-treasury_usdt u a id = record {
  frees = grind int_laws;
  holds = grind int_laws;
  others = λ b j h. grind int_laws;
}

pub Accounts-alice_usdt :
    (u a id : ℕ) → Accounts id (whole 7000) (whole 3000) (alice_usdt_entries u a id)
Accounts-alice_usdt u a id = record {
  frees = grind int_laws;
  holds = grind int_laws;
  others = λ b j h. grind int_laws;
}

pub Accounts-alice_btc : (u a id : ℕ) → Accounts id half (whole 0) (alice_btc_entries u a id)
Accounts-alice_btc u a id = record {
  frees = grind int_laws;
  holds = grind int_laws;
  others = λ b j h. grind int_laws;
}

pub Accounts-bob_usdt :
    (u a id : ℕ) → Accounts id (whole 5000) (whole 1998) (bob_usdt_entries u a id)
Accounts-bob_usdt u a id = record {
  frees = grind int_laws;
  holds = grind int_laws;
  others = λ b j h. grind int_laws;
}

pub Accounts-bob_btc : (u a id : ℕ) → Accounts id half (whole 0) (bob_btc_entries u a id)
Accounts-bob_btc u a id = record {
  frees = grind int_laws;
  holds = grind int_laws;
  others = λ b j h. grind int_laws;
}

-- The wallets and the ledger that a new wallet is added to.
abbrev pub with_wallet : Wallet → List LedgerEntry → Db → Db
with_wallet w es db = record db {
  wallets = db.wallets ++ w ∷ [];
  ledger_entries = db.ledger_entries ++ es;
}

module _ (w : Wallet) where
  exists-append :
      (j : ℕ) (ws : List Wallet)
      → exists (has_id j) ws ≡ false
      → (w.id == j) ≡ false
      → exists (has_id j) (ws ++ w ∷ []) ≡ false
  exists-append j [] h n = ground arith
  exists-append j (x ∷ ws) h n = ground (arith, exists-append j ws)

  append-UniqueIds :
      (ws : List Wallet) → exists (has_id w.id) ws ≡ false → UniqueIds ws → UniqueIds (ws ++ w ∷ [])
  append-UniqueIds [] h u = (refl, tt)
  append-UniqueIds (x ∷ ws) h u = ground (arith, append-UniqueIds ws, exists-append x.id ws)

  append-All : (ws : List Wallet) → IsFunded w → All IsFunded ws → All IsFunded (ws ++ w ∷ [])
  append-All [] f h = (f, tt)
  append-All (x ∷ ws) f h = (h.0, append-All ws f h.1)

  stored-append_self :
      (b : LedgerBalanceType) (ws : List Wallet)
      → exists (has_id w.id) ws ≡ false
      → stored b w.id (ws ++ w ∷ []) ≡ balance b w
  stored-append_self LedgerBalanceType.available [] h = ground arith
  stored-append_self LedgerBalanceType.locked [] h = ground arith
  stored-append_self b (x ∷ ws) h = ground (arith, stored-append_self b ws)

  stored-append_ne :
      (b : LedgerBalanceType) (j : ℕ) (ws : List Wallet)
      → (w.id == j) ≡ false
      → stored b j (ws ++ w ∷ []) ≡ stored b j ws
  stored-append_ne b j [] h = ground arith
  stored-append_ne b j (x ∷ ws) h = ground (arith, stored-append_ne b j ws)

stored_nothing :
    (b : LedgerBalanceType) (id : ℕ) (ws : List Wallet)
    → exists (has_id id) ws ≡ false
    → stored b id ws ≡ pos 0
stored_nothing b id [] h = refl
stored_nothing b id (x ∷ ws) h = ground (arith, stored_nothing b id ws)

balance_of :
    (b : LedgerBalanceType) (w : Wallet) (es : List LedgerEntry)
    → Accounts w.id w.available_balance w.locked_balance es
    → posted b w.id es ≡ balance b w
balance_of LedgerBalanceType.available w es h = h.frees
balance_of LedgerBalanceType.locked w es h = h.holds

pub with_wallet-IsValid :
    (w : Wallet) (es : List LedgerEntry) (db : Db)
    → IsValid db
    → exists (has_id w.id) db.wallets ≡ false
    → IsFunded w
    → Accounts w.id w.available_balance w.locked_balance es
    → IsValid (with_wallet w es db)
with_wallet-IsValid w es db v new funded h = record {
  unique = append-UniqueIds w db.wallets new v.unique;
  solvent = append-All w db.wallets funded v.solvent;
  matches = λ b j. elim (Bool-cases (w.id == j)) [
    | inl here ↦
        rw
          (
            sym ((==_iff w.id j).0 here),
            stored-append_self w b db.wallets new,
            posted-append b w.id db.ledger_entries es,
            balance_of b w es h,
            sym (v.matches b w.id),
            stored_nothing b w.id db.wallets new,
          )
          (sum_zero (balance b w))
    | inr there ↦
        rw
          (
            stored-append_ne w b j db.wallets there,
            posted-append b j db.ledger_entries es,
            h.others b j there,
            v.matches b j,
          )
          (zero_sum (posted b j db.ledger_entries))
  ];
}
  where
    sum_zero : (x : ℤ) → x ≡ pos 0 +ℤ x
    sum_zero x = omega int_laws

    zero_sum : (x : ℤ) → x ≡ x +ℤ pos 0
    zero_sum x = omega int_laws
