-- ===== src/Tests/Wallets.antt =====
-- The movements of money in the example's wallets.
use hau_cex.Common.{◌≡◌, pos, ◌*◌, arith}
use hau_cex.Database.Schema.{ReferenceType}
use hau_cex.Database.Tx.{ok}
use hau_cex.Wallets.Balance.{WalletMutationParams}
use hau_cex.Wallets.Balance.Movements.{Movement, move}
use hau_cex.Wallets.Balance.Ledger.{LedgerMatches, move-LedgerMatches}
use hau_cex.Wallets.Balance.Totals.{Solvent, move-Solvent}
use hau_cex.Wallets.Balance.Outcome.{verdict, move-verdict, unlock-lock}
use hau_cex.Testing.{unit, example_platform, example_db, example_db-IsValid}

abbrev thirty : WalletMutationParams
thirty = record {
  wallet_id = 10;
  amount = pos (30 * unit);
  operation_id = 5;
  reference_type = ReferenceType.order;
  reference_id = 100;
}

abbrev spending : Movement
spending = Movement.spend thirty

abbrev too_much : Movement
too_much = Movement.lock (record thirty { amount = pos (101 * unit) })

lock_thirty : (move example_platform (Movement.lock thirty) example_db).0 ≡ ok tt
unfolding move
lock_thirty = ground arith

move-LedgerMatches_example : LedgerMatches (move example_platform spending example_db).1
move-LedgerMatches_example =
    move-LedgerMatches example_platform spending example_db example_db-IsValid.matches

move-Solvent_example : Solvent (move example_platform spending example_db).1
move-Solvent_example = move-Solvent example_platform spending example_db example_db-IsValid.solvent

move-verdict_example :
    (move example_platform too_much example_db).0 ≡ verdict example_platform too_much example_db
move-verdict_example = move-verdict example_platform too_much example_db example_db-IsValid.solvent

unlock-lock_example :
    let back =
      move example_platform
        (Movement.unlock thirty)
        (move example_platform (Movement.lock thirty) example_db).1 in
    (back.0 ≡ ok tt) × (back.1.wallets ≡ example_db.wallets)
unlock-lock_example =
    unlock-lock example_platform thirty example_db example_db-IsValid.solvent lock_thirty
