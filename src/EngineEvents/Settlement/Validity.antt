-- ===== src/EngineEvents/Settlement/Validity.antt =====
-- The wallets and the ledger of a database that the services keep: the lemmas on looking a wallet
-- up by its owner, moving its money by its id, and creating one.
use hau_cex.Common.{
  ℕ, ◌≡◌, refl, ◌∙◌, true, false, List, [], ◌∷◌, ◌++◌, some, ℤ, ◌==◌, All, int_laws, arith,
}
use hau_cex.Platform.{Platform}
use hau_cex.Database.Schema.{Db, Wallet, LedgerBalanceType}
use hau_cex.Database.Table.{find_first, update_first, exists, find_first_holds}
use hau_cex.Wallets.Balance.{has_id, add_to_balances}
use hau_cex.Wallets.Balance.Movements.{Movement, params, move, move_cases}
use hau_cex.Wallets.Balance.Ledger.{LedgerMatches, stored, move-LedgerMatches}
use hau_cex.Wallets.Balance.Totals.{Solvent, IsFunded, asset_total, move-Solvent}
use hau_cex.EngineEvents.Settlement.{owned_by, new_wallet}

-- No two wallets have one id.
abbrev pub UniqueIds : List Wallet → Type 0
UniqueIds [] = Unit
UniqueIds (w ∷ ws) = (exists (has_id w.id) ws ≡ false) × UniqueIds ws

-- Wallet ids are unique, no balance is negative, and the ledger accounts for every balance.
pub record IsValid (db : Db) : Type 0 where
  pub unique : UniqueIds db.wallets
  pub solvent : Solvent db
  pub matches : LedgerMatches db

exists_of_owned :
    (u a : ℕ) (ws : List Wallet) (w : Wallet)
    → find_first (owned_by u a) ws ≡ some w
    → exists (has_id w.id) ws ≡ true
exists_of_owned u a [] w e = cc
exists_of_owned u a (x ∷ ws) w e = ground (arith, exists_of_owned u a ws w)

-- The row found by its owner is the row that its id finds.
pub find_by_id :
    (u a : ℕ) (ws : List Wallet) (w : Wallet)
    → UniqueIds ws
    → find_first (owned_by u a) ws ≡ some w
    → find_first (has_id w.id) ws ≡ some w
find_by_id u a [] w h e = cc
find_by_id u a (x ∷ ws) w h e = ground (arith, find_by_id u a ws w h.1, exists_of_owned u a ws w)

-- The owner finds the row as the update by its id leaves it.
pub find_owned-update :
    (u a : ℕ) (x y : ℤ) (ws : List Wallet) (w : Wallet)
    → UniqueIds ws
    → find_first (owned_by u a) ws ≡ some w
    → find_first (owned_by u a) (update_first (has_id w.id) (add_to_balances x y) ws)
      ≡ some (add_to_balances x y w)
find_owned-update u a x y [] w h e = cc
find_owned-update u a x y (v ∷ ws) w h e =
    ground (arith, find_owned-update u a x y ws w h.1, exists_of_owned u a ws w)

pub user_of_owned :
    (u a : ℕ) (ws : List Wallet) (w : Wallet)
    → find_first (owned_by u a) ws ≡ some w
    → w.user_id ≡ u
user_of_owned u a ws w e = let h = find_first_holds (owned_by u a) ws w e in ground arith

pub asset_of_owned :
    (u a : ℕ) (ws : List Wallet) (w : Wallet)
    → find_first (owned_by u a) ws ≡ some w
    → w.asset_id ≡ a
asset_of_owned u a ws w e = let h = find_first_holds (owned_by u a) ws w e in ground arith

exists-update :
    (j id : ℕ) (a l : ℤ) (ws : List Wallet)
    → exists (has_id j) (update_first (has_id id) (add_to_balances a l) ws) ≡ exists (has_id j) ws
exists-update j id a l [] = refl
exists-update j id a l (x ∷ ws) = ground (arith, exists-update j id a l ws)

update_first-UniqueIds :
    (id : ℕ) (a l : ℤ) (ws : List Wallet)
    → UniqueIds ws
    → UniqueIds (update_first (has_id id) (add_to_balances a l) ws)
update_first-UniqueIds id a l [] h = h
update_first-UniqueIds id a l (x ∷ ws) h =
    ground (arith, update_first-UniqueIds id a l ws h.1, exists-update x.id id a l ws)

module _ (env : Platform) where
  -- Every movement keeps the database valid.
  pub move-IsValid : (m : Movement) (db : Db) → IsValid db → IsValid (move env m db).1
  move-IsValid m db v = record {
    unique =
        move_cases env (λ d. UniqueIds d.wallets) m db v.unique
          λ w _. update_first-UniqueIds (params m).wallet_id _ _ db.wallets v.unique;
    solvent = move-Solvent env m db v.solvent;
    matches = move-LedgerMatches env m db v.matches;
  }

module _ (id user asset : ℕ) where
  exists-append :
      (j : ℕ) (ws : List Wallet)
      → exists (has_id j) ws ≡ false
      → (id == j) ≡ false
      → exists (has_id j) (ws ++ new_wallet id user asset ∷ []) ≡ false
  exists-append j [] h n = ground arith
  exists-append j (x ∷ ws) h n = ground (arith, exists-append j ws)

  append-UniqueIds :
      (ws : List Wallet)
      → exists (has_id id) ws ≡ false
      → UniqueIds ws
      → UniqueIds (ws ++ new_wallet id user asset ∷ [])
  append-UniqueIds [] h u = (refl, tt)
  append-UniqueIds (x ∷ ws) h u = ground (arith, append-UniqueIds ws, exists-append x.id ws)

  append-IsFunded :
      (ws : List Wallet) → All IsFunded ws → All IsFunded (ws ++ new_wallet id user asset ∷ [])
  append-IsFunded [] h = omega arith
  append-IsFunded (x ∷ ws) h = (h.0, append-IsFunded ws h.1)

  stored-append :
      (b : LedgerBalanceType) (j : ℕ) (ws : List Wallet)
      → stored b j (ws ++ new_wallet id user asset ∷ []) ≡ stored b j ws
  stored-append LedgerBalanceType.available j [] = ground arith
  stored-append LedgerBalanceType.locked j [] = ground arith
  stored-append b j (x ∷ ws) = ground (arith, stored-append b j ws)

  pub asset_total-append :
      (a : ℕ) (ws : List Wallet)
      → asset_total a (ws ++ new_wallet id user asset ∷ []) ≡ asset_total a ws
  asset_total-append a [] = grind int_laws
  asset_total-append a (x ∷ ws) = rw (asset_total-append a ws)

  pub find-append :
      (ws : List Wallet)
      → exists (has_id id) ws ≡ false
      → find_first (has_id id) (ws ++ new_wallet id user asset ∷ [])
        ≡ some (new_wallet id user asset)
  find-append [] h = ground arith
  find-append (x ∷ ws) h = ground (arith, find-append ws)

  -- A new wallet with nothing in it keeps the database valid.
  pub create-IsValid :
      (db : Db)
      → exists (has_id id) db.wallets ≡ false
      → IsValid db
      → IsValid (record db { wallets = db.wallets ++ new_wallet id user asset ∷ [] })
  create-IsValid db fresh v = record {
    unique = append-UniqueIds db.wallets fresh v.unique;
    solvent = append-IsFunded db.wallets v.solvent;
    matches = λ b j. stored-append b j db.wallets ∙ v.matches b j;
  }
