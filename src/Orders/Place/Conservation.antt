-- ===== src/Orders/Place/Conservation.antt =====
-- orders.service.ts: placing an order moves money inside one wallet, and makes or loses none.
use hau_cex.Common.{
  ℕ, ◌≡◌, refl, subst, ap, ◌∙◌, Bool, true, false, none, some, inl, inr, String, ℤ, pos, neg_ℤ,
  ◌+ℤ◌, ◌==◌, if◌then◌else◌, Option-cases, int_laws, arith,
}
use hau_cex.Platform.{Platform}
use hau_cex.Database.Schema.{Db, Wallet, Order}
use hau_cex.Database.Table.{find_first}
use hau_cex.Database.Tx.{Error, Result, ok, err, transaction-err}
use hau_cex.Wallets.Balance.Movements.{
  Movement, params, available_change, locked_change, Locks, moved, move,
}
use hau_cex.Wallets.Balance.Totals.{asset_total, asset_total-update, find_first-IsFunded}
use hau_cex.Wallets.Balance.Outcome.{move-moved}
use hau_cex.EngineEvents.Settlement.Validity.{IsValid, move-IsValid}
use hau_cex.Orders.Commands.{Fresh}
use hau_cex.Orders.Place.{CreateOrderDto, PlaceOrderResult, has_key, place_in_tx, place_order}
use hau_cex.Orders.Place.Effects.{locking, place_order-placed}

-- A valid database with as much of the asset.
abbrev IsKept : ℕ → Db → Db → Type 0
IsKept a db after = IsValid after × (asset_total a after.wallets ≡ asset_total a db.wallets)

-- What a database needs to be valid is in its wallets and its ledger.
same_money :
    (a : ℕ) (db after : Db)
    → IsValid db
    → after.wallets ≡ db.wallets
    → after.ledger_entries ≡ db.ledger_entries
    → IsKept a db after
same_money a db after v w l = (
  record {
    unique = rw w v.unique;
    solvent = rw w v.solvent;
    matches = λ b j. rw (w, l) (v.matches b j);
  },
  rw w refl,
)

no_change : (c : Bool) (x t : ℤ) → t +ℤ (if c then neg_ℤ x +ℤ x else pos 0) ≡ t
no_change true x t = omega int_laws
no_change false x t = omega int_laws

module _ (env : Platform) where
  moved-IsKept :
      (a : ℕ) (m : Movement) (db : Db) (w : Wallet)
      → available_change m ≡ neg_ℤ (locked_change m)
      → IsValid db
      → Locks m db w
      → IsKept a db (moved env m w db)
  moved-IsKept a m db w inside v (found, av, lk, positive) = (
    subst IsValid (ap (λ r. r.1) at) (move-IsValid env m db v),
    asset_total-update a (params m).wallet_id _ _ db.wallets w found
        ∙ rw inside (no_change (w.asset_id == a) (locked_change m) (asset_total a db.wallets)),
  )
    where
      at : move env m db ≡ (ok tt, moved env m w db)
      at =
          let f = find_first-IsFunded (params m).wallet_id db.wallets w v.solvent found in
          move-moved env m db w v.solvent (found, positive, av f.0, lk f.1)

  module _ (order_id user_id : ℕ) (key : String) (dto : CreateOrderDto) (fresh : Fresh)
      (a : ℕ) where
    placed-IsKept :
        (db : Db) (r : PlaceOrderResult)
        → IsValid db
        → find_first (has_key user_id key) db.orders ≡ none
        → (place_order env order_id user_id key dto fresh db).0 ≡ ok r
        → IsKept a db (place_order env order_id user_id key dto fresh db).1
    placed-IsKept db r v new h =
        let (pair, read, w, fp, ready, valid, fw, locks, at) =
          place_order-placed env order_id user_id key dto fresh db r new h in
        let locked = locking env order_id user_id key dto fresh read in
        let kept = moved-IsKept a locked db w refl v locks in
        rw at (
          record { unique = kept.0.unique; solvent = kept.0.solvent; matches = kept.0.matches },
          kept.1,
        )

    pub replayed :
        (db : Db) (o : Order)
        → find_first (has_key user_id key) db.orders ≡ some o
        → (place_order env order_id user_id key dto fresh db).1 ≡ db
    unfolding place_order place_in_tx
    replayed db o e = ground arith

    refused :
        (db : Db) (e : Error)
        → IsValid db
        → (place_order env order_id user_id key dto fresh db).0 ≡ err e
        → IsKept a db (place_order env order_id user_id key dto fresh db).1
    unfolding place_order
    refused db e v h =
        let back =
          transaction-err (place_in_tx env db.wallets order_id user_id key dto fresh) db e h in
        same_money a db (place_order env order_id user_id key dto fresh db).1 v
          (ap (λ d. d.wallets) back) (ap (λ d. d.ledger_entries) back)

    -- A request to place an order, from a valid database: whether it is accepted, refused or
    -- repeated, the wallets of every asset hold together what they held before, no balance is
    -- negative, and every balance is the sum of its ledger entries.
    pub place_order_conserves :
        (db : Db)
        → IsValid db
        → let after = (place_order env order_id user_id key dto fresh db).1 in
          IsValid after × (asset_total a after.wallets ≡ asset_total a db.wallets)
    place_order_conserves db v =
        of_result (place_order env order_id user_id key dto fresh db).0 refl
      where
        of_result :
            (r : Result PlaceOrderResult)
            → (place_order env order_id user_id key dto fresh db).0 ≡ r
            → IsKept a db (place_order env order_id user_id key dto fresh db).1
        of_result (err e) h = refused db e v h
        of_result (ok r) h = elim (Option-cases (find_first (has_key user_id key) db.orders)) [
          | inl new ↦ placed-IsKept db r v new h
          | inr (o, e) ↦
              let same = replayed db o e in
              same_money a db _ v (ap (λ d. d.wallets) same) (ap (λ d. d.ledger_entries) same)
        ]
