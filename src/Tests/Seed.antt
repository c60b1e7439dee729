-- ===== src/Tests/Seed.antt =====
-- The script on an empty database.
use hau_cex.Common.{◌≡◌, refl, [], true}
use hau_cex.Database.Tx.{ok}
use hau_cex.EngineEvents.Settlement.Validity.{IsValid}
use hau_cex.Backing.{IsBacked, locked_in}
use hau_cex.System.{System}
use hau_cex.Seed.{main}
use hau_cex.Seed.Rows.{SeedValues}
use hau_cex.Seed.Balances.{whole}
use hau_cex.Seed.Start.{Differ, emptied, main_locks_without_orders}
use hau_cex.Testing.{example_db}
use hau_cex.Tests.Consumer.{redis}

abbrev values : SeedValues
values = record {
  hashed_password = "hash of 123456";
  treasury = 1;
  alice = 2;
  bob = 3;
  admin = 4;
  usdt = 5;
  btc = 6;
  pair = 7;
  treasury_usdt = 11;
  alice_usdt = 12;
  alice_btc = 13;
  bob_usdt = 14;
  bob_btc = 15;
}

differ : Differ values
differ = record {
  treasury_alice = refl;
  treasury_bob = refl;
  alice_bob = refl;
  usdt_btc = refl;
  first_second = refl;
  first_third = refl;
  first_fourth = refl;
  first_fifth = refl;
  second_third = refl;
  second_fourth = refl;
  second_fifth = refl;
  third_fourth = refl;
  third_fifth = refl;
  fourth_fifth = refl;
}

abbrev start : System
start = record { db = example_db; redis = redis; sent = [] }

main_locks_without_orders_example :
    let after = main values true (emptied start) in
    (after.0 ≡ ok tt)
    × IsValid after.1.db
    × (after.1.db.orders ≡ [])
    × (locked_in 2 5 after.1.db.wallets ≡ whole 3000)
    × ¬ IsBacked after.1.db
main_locks_without_orders_example = main_locks_without_orders values differ true start
