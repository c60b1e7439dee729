-- ===== src/Seed/Start.antt =====
-- seed.ts: what an empty database holds after the script.
use hau_cex.Common.{
  ℕ, ◌≡◌, refl, ap, ◌∙◌, Bool, false, List, [], Option, none, some, ℤ, pos_part, ◌==◌, int_laws,
  arith,
}
use hau_cex.Database.Schema.{Db, Wallet, LedgerEntry}
use hau_cex.Database.Table.{find_first}
use hau_cex.Database.Tx.{Tx, Result, ok, transaction, ◌>>◌, ◌>>=◌}
use hau_cex.EngineEvents.Settlement.{owned_by}
use hau_cex.EngineEvents.Settlement.Validity.{IsValid}
use hau_cex.Backing.{IsBacked, UniqueOwners, locked_in}
use hau_cex.System.{System}
use hau_cex.System.Cancellation.{locked_in_owner}
use hau_cex.Seed.Rows.{SeedValues, Seeded, seed_rows}
use hau_cex.Seed.Balances.{
  wallet_row, whole, half, seed_wallet, put_wallet, create_entries, seed_balances, treasury_usdt,
  alice_usdt, alice_btc, bob_usdt, bob_btc, treasury_usdt_entries, alice_usdt_entries,
  alice_btc_entries, bob_usdt_entries, bob_btc_entries,
}
use hau_cex.Seed.Accounts.{
  with_wallet, with_wallet-IsValid, Accounts-treasury_usdt, Accounts-alice_usdt, Accounts-alice_btc,
  Accounts-bob_usdt, Accounts-bob_btc,
}
use hau_cex.Seed.{main, seed_db, delete_rows}

-- The ids that Prisma draws differ.
pub record Differ (v : SeedValues) : Type 0 where
  pub treasury_alice : (v.treasury == v.alice) ≡ false
  pub treasury_bob : (v.treasury == v.bob) ≡ false
  pub alice_bob : (v.alice == v.bob) ≡ false
  pub usdt_btc : (v.usdt == v.btc) ≡ false
  pub first_second : (v.treasury_usdt == v.alice_usdt) ≡ false
  pub first_third : (v.treasury_usdt == v.alice_btc) ≡ false
  pub first_fourth : (v.treasury_usdt == v.bob_usdt) ≡ false
  pub first_fifth : (v.treasury_usdt == v.bob_btc) ≡ false
  pub second_third : (v.alice_usdt == v.alice_btc) ≡ false
  pub second_fourth : (v.alice_usdt == v.bob_usdt) ≡ false
  pub second_fifth : (v.alice_usdt == v.bob_btc) ≡ false
  pub third_fourth : (v.alice_btc == v.bob_usdt) ≡ false
  pub third_fifth : (v.alice_btc == v.bob_btc) ≡ false
  pub fourth_fifth : (v.bob_usdt == v.bob_btc) ≡ false

-- A database without users, assets, pairs and money.
abbrev pub emptied : System → System
emptied s = record s {
  db = record s.db {
    users = [];
    assets = [];
    trading_pairs = [];
    wallets = [];
    ledger_entries = [];
  };
}

seed_wallet_new :
    (id user asset : ℕ) (free held : ℤ) (entries : ℕ → List LedgerEntry) (db : Db)
    → find_first (owned_by user asset) db.wallets ≡ none
    → seed_wallet id user asset free held entries db
      ≡ (ok tt, with_wallet (wallet_row id user asset free held) (entries id) db)
seed_wallet_new id user asset free held entries db h =
    of_row (find_first (owned_by user asset) db.wallets) h
  where
    of_row :
        (row : Option Wallet)
        → row ≡ none
        → (put_wallet id user asset free held row >>= λ w. create_entries (entries w)) db
          ≡ (ok tt, with_wallet (wallet_row id user asset free held) (entries id) db)
    of_row none h = refl
    of_row (some w) h = cc

then_ok : (m k : Tx (Unit {0})) (db db' : Db) → m db ≡ (ok tt, db') → (m >> k) db ≡ k db'
then_ok m k db db' e = ap (λ r. ((λ _. r) >> k) db) e

module _ (v : SeedValues) (d : Differ v) where
  abbrev ids : Seeded
  ids = record { treasury = v.treasury; alice = v.alice; bob = v.bob; usdt = v.usdt; btc = v.btc }

  module _ (db : Db) where
    abbrev none_yet : Db
    none_yet = record db { wallets = []; ledger_entries = [] }

    abbrev one : Db
    one =
        with_wallet (wallet_row v.treasury_usdt v.treasury v.usdt (whole 1000000) (whole 0))
          (treasury_usdt_entries v.treasury v.usdt v.treasury_usdt) none_yet

    abbrev two : Db
    two =
        with_wallet (wallet_row v.alice_usdt v.alice v.usdt (whole 7000) (whole 3000))
          (alice_usdt_entries v.alice v.usdt v.alice_usdt) one

    abbrev three : Db
    three =
        with_wallet (wallet_row v.alice_btc v.alice v.btc half (whole 0))
          (alice_btc_entries v.alice v.btc v.alice_btc) two

    abbrev four : Db
    four =
        with_wallet (wallet_row v.bob_usdt v.bob v.usdt (whole 5000) (whole 1998))
          (bob_usdt_entries v.bob v.usdt v.bob_usdt) three

    abbrev five : Db
    five =
        with_wallet (wallet_row v.bob_btc v.bob v.btc half (whole 0))
          (bob_btc_entries v.bob v.btc v.bob_btc) four

    none_yet-IsValid : IsValid none_yet
    none_yet-IsValid = record { unique = tt; solvent = tt; matches = λ b id. refl }

    one-IsValid : IsValid one
    one-IsValid =
        with_wallet-IsValid _ _ none_yet none_yet-IsValid refl (omega arith)
          (Accounts-treasury_usdt v.treasury v.usdt v.treasury_usdt)

    two-IsValid : IsValid two
    two-IsValid =
        with_wallet-IsValid _ _ one one-IsValid (rw (d.first_second) refl) (omega arith)
          (Accounts-alice_usdt v.alice v.usdt v.alice_usdt)

    three-IsValid : IsValid three
    three-IsValid =
        with_wallet-IsValid _ _ two two-IsValid (rw (d.first_third, d.second_third) refl)
          (omega arith) (Accounts-alice_btc v.alice v.btc v.alice_btc)

    four-IsValid : IsValid four
    four-IsValid =
        with_wallet-IsValid _ _ three three-IsValid
          (rw (d.first_fourth, d.second_fourth, d.third_fourth) refl) (omega arith)
          (Accounts-bob_usdt v.bob v.usdt v.bob_usdt)

    five-IsValid : IsValid five
    five-IsValid =
        with_wallet-IsValid _ _ four four-IsValid
          (rw (d.first_fifth, d.second_fifth, d.third_fifth, d.fourth_fifth) refl) (omega arith)
          (Accounts-bob_btc v.bob v.btc v.bob_btc)

    abbrev after_three : Tx (Unit {0})
    after_three = bob_usdt v ids >> bob_btc v ids

    abbrev after_two : Tx (Unit {0})
    after_two = alice_btc v ids >> after_three

    abbrev after_one : Tx (Unit {0})
    after_one = alice_usdt v ids >> after_two

    seed_balances_new : seed_balances v ids none_yet ≡ (ok tt, five)
    seed_balances_new =
        then_ok (treasury_usdt v ids) after_one none_yet one (
          seed_wallet_new v.treasury_usdt v.treasury v.usdt (whole 1000000) (whole 0)
            (treasury_usdt_entries v.treasury v.usdt) none_yet refl)
        ∙ then_ok (alice_usdt v ids) after_two one two (
            seed_wallet_new v.alice_usdt v.alice v.usdt (whole 7000) (whole 3000)
              (alice_usdt_entries v.alice v.usdt) one (rw d.treasury_alice refl))
        ∙ then_ok (alice_btc v ids) after_three two three (
            seed_wallet_new v.alice_btc v.alice v.btc half (whole 0)
              (alice_btc_entries v.alice v.btc) two (ground (arith, d.treasury_alice, d.usdt_btc)))
        ∙ then_ok (bob_usdt v ids) (bob_btc v ids) three four (
            seed_wallet_new v.bob_usdt v.bob v.usdt (whole 5000) (whole 1998)
              (bob_usdt_entries v.bob v.usdt) three (rw (d.treasury_bob, d.alice_bob) refl))
        ∙ seed_wallet_new v.bob_btc v.bob v.btc half (whole 0) (bob_btc_entries v.bob v.btc) four
            (ground (arith, d.treasury_bob, d.alice_bob, d.usdt_btc))

  module _ (up : Bool) (s : System) where
    -- The database before the transaction of the balances.
    abbrev prepared : Db
    prepared = (delete_rows ids (seed_rows v (emptied s).db).1).1

    main_new : ((main v up (emptied s)).0 ≡ ok tt) × ((main v up (emptied s)).1.db ≡ five prepared)
    unfolding main
    main_new =
        let e : seed_db v (emptied s).db ≡ (ok tt, five prepared) =
          ap (λ (r : Result (Unit {0}) × Db). transaction (λ _. r) prepared)
            (seed_balances_new prepared) in
        (ap (λ r. r.0) e, ap (λ r. r.1) e)

    owners : UniqueOwners (five prepared).wallets
    owners = (
      ground (arith, d.treasury_alice, d.treasury_bob),
      (
        ground (arith, d.usdt_btc, d.alice_bob),
        (ground (arith, d.alice_bob), (ground (arith, d.usdt_btc), (refl, tt))),
      ),
    )

    alice_locked : locked_in v.alice v.usdt (five prepared).wallets ≡ whole 3000
    alice_locked =
        locked_in_owner v.alice v.usdt (five prepared).wallets
          (wallet_row v.alice_usdt v.alice v.usdt (whole 7000) (whole 3000)) owners
          (ground (arith, d.treasury_alice))

    no_backing : ¬ IsBacked (five prepared)
    no_backing b =
        let nothing = b.backed v.alice v.usdt in
        absurd (omega (int_laws, ap pos_part alice_locked, ap pos_part nothing))

  -- On a database without users, assets, pairs, wallets and ledger entries, the script succeeds, and
  -- leaves a database whose ledger accounts for every balance and that has no order; but the users
  -- hold locked balances, which no order accounts for. The ids that Prisma draws differ.
  pub main_locks_without_orders :
      (up : Bool) (s : System)
      → let after = main v up (emptied s) in
        (after.0 ≡ ok tt)
        × IsValid after.1.db
        × (after.1.db.orders ≡ [])
        × (locked_in v.alice v.usdt after.1.db.wallets ≡ whole 3000)
        × ¬ IsBacked after.1.db
  main_locks_without_orders up s =
      let (done, db) = main_new up s in
      (
        done,
        rw db (five-IsValid (prepared up s)),
        rw db refl,
        rw db (alice_locked up s),
        rw db (no_backing up s),
      )
