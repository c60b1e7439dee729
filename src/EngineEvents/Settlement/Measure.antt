-- ===== src/EngineEvents/Settlement/Measure.antt =====
-- trade-settlement.service.ts: how the steps of a settlement change a quantity that is read off the
-- tables. What is known of the quantity is an interface, so that the walk through the code is done
-- once for all of them.
use hau_cex.Common.{
  ℕ, ◌≡◌, refl, sym, subst, ◌∙◌, Bool, true, false, [], ◌∷◌, ◌++◌, Option, none, some,
  some-injective, List, inl, inr, Bool-cases, map, ℤ, pos, ◌+ℤ◌, int_laws,
}
use hau_cex.Platform.{Platform}
use hau_cex.Database.Schema.{Db, Order, Wallet}
use hau_cex.Database.Table.{find_first, update_first, update_many, exists}
use hau_cex.Database.Tx.{
  Tx, Error, Result, ok, err, ◌>>=◌, ◌>>◌, or_throw, throw_if, when, transaction,
}
use hau_cex.Wallets.Balance.{has_id}
use hau_cex.Wallets.Balance.Movements.{
  Movement, params, available_change, locked_change, Locks, Moves, moved, move, move-Moves,
}
use hau_cex.EngineEvents.Settlement.{owned_by, new_wallet}
use hau_cex.EngineEvents.Settlement.Validity.{
  UniqueIds, find_by_id, user_of_owned, asset_of_owned, find-append,
}

-- What an order says of the money that is locked for it: whose, of which asset, how much.
abbrev pub Lock : Type 0
Lock = ℕ × ℕ × ℤ

abbrev pub lock_of : Order → Lock
lock_of o = (o.user_id, o.locked_asset_id, o.remaining_locked_amount)

abbrev pub locks_of : Db → List Lock
locks_of db = map lock_of db.orders

module _ (q : Order → Bool) (f : Order → Order)
    (same : (o : Order) → lock_of (f o) ≡ lock_of o) where
  pub locks-update_first : (os : List Order) → map lock_of (update_first q f os) ≡ map lock_of os
  locks-update_first [] = refl
  locks-update_first (o ∷ os) = elim (Bool-cases (q o)) [
    | inl h ↦ rw (h, same o)
    | inr h ↦ rw (h, locks-update_first os)
  ]

  pub locks-update_many : (os : List Order) → map lock_of (update_many q f os) ≡ map lock_of os
  locks-update_many [] = refl
  locks-update_many (o ∷ os) = elim (Bool-cases (q o)) [
    | inl h ↦ rw (h, same o, locks-update_many os)
    | inr h ↦ rw (h, locks-update_many os)
  ]

abbrev pub created : ℕ → ℕ → ℕ → Db → Db
created id user asset db = record db { wallets = db.wallets ++ new_wallet id user asset ∷ [] }

-- A quantity of a valid database: what a movement of a user's wallet adds to it, by what it adds to
-- the available and to the locked balance; a new wallet adds nothing, and neither does what
-- changes no wallet, no ledger entry and no lock.
pub record Measure (env : Platform) : Type 1 where
  pub Valid : Db → Type 0
  pub value : Db → ℤ
  pub weight : (user asset : ℕ) (available locked : ℤ) → ℤ
  pub weight_nothing : (user asset : ℕ) → weight user asset (pos 0) (pos 0) ≡ pos 0
  pub unique : (db : Db) → Valid db → UniqueIds db.wallets
  pub keeps_moved :
      (m : Movement) (db : Db) (w : Wallet)
      → Valid db
      → Locks m db w
      → Valid (moved env m w db)
        × (value (moved env m w db)
            ≡ value db +ℤ weight w.user_id w.asset_id (available_change m) (locked_change m))
  pub keeps_created :
      (id user asset : ℕ) (db : Db)
      → exists (has_id id) db.wallets ≡ false
      → find_first (owned_by user asset) db.wallets ≡ none
      → Valid db
      → Valid (created id user asset db) × (value (created id user asset db) ≡ value db)
  pub keeps_rest :
      (db after : Db)
      → after.wallets ≡ db.wallets
      → after.ledger_entries ≡ db.ledger_entries
      → locks_of after ≡ locks_of db
      → Valid db
      → Valid after × (value after ≡ value db)

module _ {env : Platform} (M : Measure env) where
  open M use {Valid, value, weight}

  -- A step that succeeds leaves a valid database in which the quantity has grown by `d`.
  abbrev pub Adds : {A : Type 0} → ℤ → Db → Result A × Db → Type 0
  Adds d db (err _, db') = Unit
  Adds d db (ok _, db') = Valid db' × (value db' ≡ value db +ℤ d)

  abbrev pub Shifts : {A : Type 0} → ℤ → Tx A → Type 0
  Shifts d m = (db : Db) → Valid db → Adds d db (m db)

  -- A step from tables where the quantity has grown already.
  pub Adds-after :
      {B : Type 0} (d e : ℤ) (db db' : Db) (s : Result B × Db)
      → value db' ≡ value db +ℤ d
      → Adds e db' s
      → Adds (d +ℤ e) db s
  Adds-after d e db db' (err x, _) h k = tt
  Adds-after d e db db' (ok x, last) h k = (k.0, rw (k.1, h) (omega int_laws))

  pub Adds-same :
      {B : Type 0} (d : ℤ) (db db' : Db) (s : Result B × Db)
      → value db' ≡ value db
      → Adds d db' s
      → Adds d db s
  Adds-same d db db' (err x, _) h k = tt
  Adds-same d db db' (ok x, last) h k = (k.0, k.1 ∙ rw h refl)

  Adds-bind :
      {A B : Type 0} (d e : ℤ) (db : Db) (r : Result A × Db) (k : A → Tx B)
      → Adds d db r
      → ((x : A) → Shifts e (k x))
      → Adds {A = B} (d +ℤ e) db (elim r.0 [ ok x ↦ k x r.1 | err x ↦ (err x, r.1) ])
  Adds-bind d e db (err x, db') k h rest = tt
  Adds-bind d e db (ok x, db') k h rest = Adds-after d e db db' (k x db') h.1 (rest x db' h.0)

  pub Shifts-bind :
      {A B : Type 0} (d e : ℤ) (m : Tx A) (k : A → Tx B)
      → Shifts d m
      → ((x : A) → Shifts e (k x))
      → Shifts (d +ℤ e) (m >>= k)
  Shifts-bind d e m k h rest db v = Adds-bind d e db (m db) k (h db v) rest

  -- Two steps that add nothing.
  pub Adds-then :
      (db : Db) (r : Result (Unit {0}) × Db) (k : Tx (Unit {0}))
      → Adds (pos 0) db r
      → Shifts (pos 0) k
      → Adds (pos 0) db (((λ _. r) >> k) db)
  Adds-then db (err e, db') k h rest = tt
  Adds-then db (ok x, db') k h rest =
      Adds-same (pos 0) db db' (k db') (h.1 ∙ omega int_laws) (rest db' h.0)

  -- A row that is looked up, and may be missing.
  pub found_row :
      {R : Type 0} (d : ℤ) (db : Db) (row : Option R) (e : Error) (k : R → Tx (Unit {0}))
      → ((w : R) → row ≡ some w → Adds d db (k w db))
      → Adds d db ((or_throw row e >>= k) db)
  found_row d db none e k h = tt
  found_row d db (some w) e k h = h w refl

  pub unless_taken :
      {B : Type 0} (d : ℤ) (db : Db) (taken : Bool) (e : Error) (m : Tx B) (k : B → Tx (Unit {0}))
      → (taken ≡ false → Adds d db ((m >>= k) db))
      → Adds d db (((throw_if taken e >> m) >>= k) db)
  unless_taken d db true e m k h = tt
  unless_taken d db false e m k h = h refl

  pub when-Adds :
      (d : ℤ) (db : Db) (c : Bool) (m : Tx (Unit {0}))
      → (c ≡ true → Adds d db (m db))
      → (c ≡ false → Adds d db (ok tt, db))
      → Adds d db (when c m db)
  when-Adds d db true m h k = h refl
  when-Adds d db false m h k = k refl

  -- A step that writes no wallet, no ledger entry and no lock.
  pub quiet :
      (db after : Db)
      → Valid db
      → after.wallets ≡ db.wallets
      → after.ledger_entries ≡ db.ledger_entries
      → locks_of after ≡ locks_of db
      → Adds {A = Unit {0}} (pos 0) db (ok tt, after)
  quiet db after v w l o = let k = M.keeps_rest db after w l o v in (k.0, k.1 ∙ omega int_laws)

  -- What a transaction makes of a step that adds nothing.
  pub settled :
      (db : Db) (r : Result (Unit {0}) × Db)
      → Valid db
      → Adds (pos 0) db r
      → Valid (transaction (λ _. r) db).1 × (value (transaction (λ _. r) db).1 ≡ value db)
  settled db (err e, last) v h = M.keeps_rest db _ refl refl refl v
  settled db (ok x, last) v h = (h.0, h.1 ∙ omega int_laws)

  Adds-of_Moves :
      (m : Movement) (db : Db) (w : Wallet) (r : Result (Unit {0}) × Db)
      → Valid db
      → find_first (has_id (params m).wallet_id) db.wallets ≡ some w
      → Moves env m db r
      → Adds (weight w.user_id w.asset_id (available_change m) (locked_change m)) db r
  Adds-of_Moves m db w (err x, db') v found h = tt
  Adds-of_Moves m db w (ok _, db') v found (w', e, locks) =
      subst
        (λ x.
          Valid db'
          × (value db'
              ≡ value db +ℤ weight x.user_id x.asset_id (available_change m) (locked_change m)))
        (some-injective _ _ (sym locks.0 ∙ found)) (rw e (M.keeps_moved m db w' v locks))

  -- A movement of the wallet that a user has of an asset.
  pub owner-Adds :
      (user asset : ℕ) (m : Movement) (db : Db) (w : Wallet)
      → Valid db
      → find_first (owned_by user asset) db.wallets ≡ some w
      → (params m).wallet_id ≡ w.id
      → Adds (weight user asset (available_change m) (locked_change m)) db (move env m db)
  owner-Adds user asset m db w v found own =
      rw
        (
          ← user_of_owned user asset db.wallets w found,
          ← asset_of_owned user asset db.wallets w found,
        )
        (Adds-of_Moves m db w (move env m db) v
          (rw own (find_by_id user asset db.wallets w (M.unique db v) found)) (move-Moves env m db))

  -- A movement of a wallet that has just been created.
  pub created-Adds :
      (id user asset : ℕ) (m : Movement) (db : Db)
      → exists (has_id id) db.wallets ≡ false
      → find_first (owned_by user asset) db.wallets ≡ none
      → Valid db
      → (params m).wallet_id ≡ id
      → Adds
          (weight user asset (available_change m) (locked_change m))
          (created id user asset db)
          (move env m (created id user asset db))
  created-Adds id user asset m db fresh no_wallet v own =
      Adds-of_Moves m (created id user asset db) (new_wallet id user asset)
        (move env m (created id user asset db))
        (M.keeps_created id user asset db fresh no_wallet v).0
        (rw own (find-append id user asset db.wallets fresh))
        (move-Moves env m (created id user asset db))
