-- ===== src/EngineEvents/Settlement/Conservation.antt =====
-- The total of an asset, as a measured quantity.
use hau_cex.Common.{ℕ, ◌≡◌, refl, subst, ap, ℤ, pos, ◌+ℤ◌, ◌==◌, if◌then◌else◌, int_laws}
use hau_cex.Platform.{Platform}
use hau_cex.Database.Schema.{Db, Wallet}
use hau_cex.Database.Tx.{ok}
use hau_cex.Wallets.Balance.Movements.{Movement, params, Locks, moved, move}
use hau_cex.Wallets.Balance.Totals.{asset_total, asset_total-update, find_first-IsFunded}
use hau_cex.Wallets.Balance.Outcome.{move-moved}
use hau_cex.EngineEvents.Settlement.Validity.{
  IsValid, move-IsValid, create-IsValid, asset_total-append,
}
use hau_cex.EngineEvents.Settlement.Measure.{Measure}

-- What an amount of the asset `b` counts for in the total of `a`.
abbrev pub counted : ℕ → ℕ → ℤ → ℤ
counted a b x = if b == a then x else pos 0

pub counted-nothing : (a b : ℕ) → counted a b (pos 0 +ℤ pos 0) ≡ pos 0
counted-nothing a b = grind int_laws

module _ (env : Platform) where
  pub moved-IsValid :
      (m : Movement) (db : Db) (w : Wallet) → IsValid db → Locks m db w → IsValid (moved env m w db)
  moved-IsValid m db w v (found, av, lk, positive) =
      subst IsValid (ap (λ r. r.1) at) (move-IsValid env m db v)
    where
      at : move env m db ≡ (ok tt, moved env m w db)
      at =
          let f = find_first-IsFunded (params m).wallet_id db.wallets w v.solvent found in
          move-moved env m db w v.solvent (found, positive, av f.0, lk f.1)

  -- All that the users hold of the asset `a`.
  abbrev pub assets : ℕ → Measure env
  assets a = record {
    Valid = IsValid;
    value = λ db. asset_total a db.wallets;
    weight = λ user asset available locked. counted a asset (available +ℤ locked);
    weight_nothing = λ user asset. counted-nothing a asset;
    unique = λ db v. v.unique;
    keeps_moved = λ m db w v locks. (
      moved-IsValid m db w v locks,
      asset_total-update a (params m).wallet_id _ _ db.wallets w locks.0,
    );
    keeps_created = λ id user asset db fresh _ v.
        (create-IsValid id user asset db fresh v, asset_total-append id user asset a db.wallets);
    keeps_rest = λ db after w l o v. (
      record {
        unique = rw w v.unique;
        solvent = rw w v.solvent;
        matches = λ b j. rw (w, l) (v.matches b j);
      },
      rw w refl,
    );
  }
