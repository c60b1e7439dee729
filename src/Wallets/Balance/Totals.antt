-- ===== src/Wallets/Balance/Totals.antt =====
-- The wallets of an asset together, and the bounds of each balance, under every movement.
use hau_cex.Common.{
  ℕ, ◌≡◌, List, [], ◌∷◌, some, ℤ, pos, ◌+ℤ◌, ◌≤ℤ◌, ◌==◌, All, if◌then◌else◌, int_laws, arith,
}
use hau_cex.Platform.{Platform}
use hau_cex.Database.Schema.{Db, Wallet}
use hau_cex.Database.Table.{find_first, update_first}
use hau_cex.Wallets.Balance.{has_id, add_to_balances}
use hau_cex.Wallets.Balance.Movements.{Movement, params, move, move_cases}

-- All that the users hold of an asset, available and locked.
abbrev pub asset_total : ℕ → List Wallet → ℤ
asset_total a [] = pos 0
asset_total a (w ∷ ws) =
    (if w.asset_id == a then w.available_balance +ℤ w.locked_balance else pos 0) +ℤ asset_total a ws

abbrev pub IsFunded : Wallet → Type 0
IsFunded w = (pos 0 ≤ℤ w.available_balance) × (pos 0 ≤ℤ w.locked_balance)

-- No balance is negative.
abbrev pub Solvent : Db → Type 0
Solvent db = All IsFunded db.wallets

pub find_first-IsFunded :
    (id : ℕ) (ws : List Wallet) (w : Wallet)
    → All IsFunded ws
    → find_first (has_id id) ws ≡ some w
    → IsFunded w
find_first-IsFunded id [] w h e = cc
find_first-IsFunded id (x ∷ ws) w h e = ground (arith, find_first-IsFunded id ws w h.1)

update_first-IsFunded :
    (id : ℕ) (a l : ℤ) (ws : List Wallet) (w : Wallet)
    → find_first (has_id id) ws ≡ some w
    → All IsFunded ws
    → IsFunded (add_to_balances a l w)
    → All IsFunded (update_first (has_id id) (add_to_balances a l) ws)
update_first-IsFunded id a l [] w e h f = h
update_first-IsFunded id a l (x ∷ ws) w e h f = ground (arith, update_first-IsFunded id a l ws w)

pub asset_total-update :
    (asset id : ℕ) (a l : ℤ) (ws : List Wallet) (w : Wallet)
    → find_first (has_id id) ws ≡ some w
    → asset_total asset (update_first (has_id id) (add_to_balances a l) ws)
      ≡ asset_total asset ws +ℤ (if w.asset_id == asset then a +ℤ l else pos 0)
asset_total-update asset id a l [] w e = cc
asset_total-update asset id a l (x ∷ ws) w e =
    grind (int_laws, asset_total-update asset id a l ws w)

module _ (env : Platform) where
  -- If no balance of any wallet is negative, then none is after any of the five movements, whether
  -- it succeeds or throws.
  pub move-Solvent : (m : Movement) (db : Db) → Solvent db → Solvent (move env m db).1
  move-Solvent m db h = move_cases env Solvent m db h λ w (found, av, lk, _).
      update_first-IsFunded (params m).wallet_id _ _ db.wallets w found h
        (let f = find_first-IsFunded (params m).wallet_id db.wallets w h found in (av f.0, lk f.1))
