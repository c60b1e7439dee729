-- ===== src/Backing/Gap.antt =====
-- The difference between what a user's wallets and the user's orders say is locked, as a measured
-- quantity.
use hau_cex.Common.{
  ℕ, ◌≡◌, refl, ap, pos_part, neg_part, Bool, true, false, List, [], ◌∷◌, ◌++◌, none, some, ℤ, pos,
  ◌+ℤ◌, ◌-ℤ◌, ◌&&◌, ◌==◌, All, if◌then◌else◌, int_laws, arith,
}
use hau_cex.Platform.{Platform}
use hau_cex.Database.Schema.{Db, Wallet}
use hau_cex.Database.Table.{find_first, update_first, exists}
use hau_cex.Wallets.Balance.{has_id, add_to_balances}
use hau_cex.Wallets.Balance.Movements.{params}
use hau_cex.EngineEvents.Settlement.{owned_by, new_wallet}
use hau_cex.EngineEvents.Settlement.Validity.{IsValid, create-IsValid}
use hau_cex.EngineEvents.Settlement.Conservation.{moved-IsValid}
use hau_cex.EngineEvents.Settlement.Measure.{Measure, locks_of}
use hau_cex.Backing.{locked_in, reserved, IsReserve, UniqueOwners, IsBacked}

-- What an amount of one user's asset counts for at another's.
abbrev pub counted_at : ℕ → ℕ → ℕ → ℕ → ℤ → ℤ
counted_at u a user asset x = if user == u && asset == a then x else pos 0

pub if-nothing : (c : Bool) → (if c then pos 0 else pos 0) ≡ pos 0
if-nothing true = refl
if-nothing false = refl

pub locked_in-update :
    (u a id : ℕ) (x l : ℤ) (ws : List Wallet) (w : Wallet)
    → find_first (has_id id) ws ≡ some w
    → locked_in u a (update_first (has_id id) (add_to_balances x l) ws)
      ≡ locked_in u a ws +ℤ counted_at u a w.user_id w.asset_id l
locked_in-update u a id x l [] w e = cc
locked_in-update u a id x l (v ∷ ws) w e = grind (int_laws, locked_in-update u a id x l ws w)

pub locked_in-append :
    (u a id user asset : ℕ) (ws : List Wallet)
    → locked_in u a (ws ++ new_wallet id user asset ∷ []) ≡ locked_in u a ws
locked_in-append u a id user asset [] = grind int_laws
locked_in-append u a id user asset (w ∷ ws) = rw (locked_in-append u a id user asset ws)

exists-owner_update :
    (u a id : ℕ) (x l : ℤ) (ws : List Wallet)
    → exists (owned_by u a) (update_first (has_id id) (add_to_balances x l) ws)
      ≡ exists (owned_by u a) ws
exists-owner_update u a id x l [] = refl
exists-owner_update u a id x l (w ∷ ws) = ground (arith, exists-owner_update u a id x l ws)

pub update_first-UniqueOwners :
    (id : ℕ) (x l : ℤ) (ws : List Wallet)
    → UniqueOwners ws
    → UniqueOwners (update_first (has_id id) (add_to_balances x l) ws)
update_first-UniqueOwners id x l [] h = h
update_first-UniqueOwners id x l (w ∷ ws) h = ground (
  arith,
  update_first-UniqueOwners id x l ws h.1,
  exists-owner_update w.user_id w.asset_id id x l ws,
)

exists-owner_append :
    (u a id user asset : ℕ) (ws : List Wallet)
    → exists (owned_by u a) ws ≡ false
    → (user == u && asset == a) ≡ false
    → exists (owned_by u a) (ws ++ new_wallet id user asset ∷ []) ≡ false
exists-owner_append u a id user asset [] h n = ground arith
exists-owner_append u a id user asset (w ∷ ws) h n =
    ground (arith, exists-owner_append u a id user asset ws)

pub append-UniqueOwners :
    (id user asset : ℕ) (ws : List Wallet)
    → find_first (owned_by user asset) ws ≡ none
    → UniqueOwners ws
    → UniqueOwners (ws ++ new_wallet id user asset ∷ [])
append-UniqueOwners id user asset [] h u = (refl, tt)
append-UniqueOwners id user asset (w ∷ ws) h u = ground (
  arith,
  append-UniqueOwners id user asset ws,
  exists-owner_append w.user_id w.asset_id id user asset ws,
)

-- The validity that the difference needs.
pub record IsSound (db : Db) : Type 0 where
  pub valid : IsValid db
  pub owners : UniqueOwners db.wallets
  pub reserves : All IsReserve (locks_of db)

pub shift_first : (x y d : ℤ) → (x +ℤ d) -ℤ y ≡ (x -ℤ y) +ℤ d
shift_first x y d = omega int_laws

eq_of_diff : (x y : ℤ) → x -ℤ y ≡ pos 0 → x ≡ y
eq_of_diff x y e = omega (int_laws, ap pos_part e, ap neg_part e)

module _ (env : Platform) (u a : ℕ) where
  abbrev pub gap : Db → ℤ
  gap db = locked_in u a db.wallets -ℤ reserved u a (locks_of db)

  abbrev pub gaps : Measure env
  gaps = record {
    Valid = IsSound;
    value = gap;
    weight = λ user asset available locked. counted_at u a user asset locked;
    weight_nothing = λ user asset. if-nothing (user == u && asset == a);
    unique = λ db v. v.valid.unique;
    keeps_moved = λ m db w v locks. (
      record {
        valid = moved-IsValid env m db w v.valid locks;
        owners = update_first-UniqueOwners (params m).wallet_id _ _ db.wallets v.owners;
        reserves = v.reserves;
      },
      rw (locked_in-update u a (params m).wallet_id _ _ db.wallets w locks.0) (shift_first _ _ _),
    );
    keeps_created = λ id user asset db fresh no_wallet v. (
      record {
        valid = create-IsValid id user asset db fresh v.valid;
        owners = append-UniqueOwners id user asset db.wallets no_wallet v.owners;
        reserves = v.reserves;
      },
      rw (locked_in-append u a id user asset db.wallets) refl,
    );
    keeps_rest = λ db after w l o v. (
      record {
        valid = record {
          unique = rw w v.valid.unique;
          solvent = rw w v.valid.solvent;
          matches = λ b j. rw (w, l) (v.valid.matches b j);
        };
        owners = rw w v.owners;
        reserves = rw o v.reserves;
      },
      rw (w, o) refl,
    );
  }

module _ (env : Platform) where
  -- A database is backed when it is sound and has no gap.
  pub no_gap : (db : Db) → IsBacked db → (u a : ℕ) → gap env u a db ≡ pos 0
  no_gap db b u a = rw (b.backed u a) (omega int_laws)

  pub IsBacked-of_gaps : (db : Db) → IsSound db → ((u a : ℕ) → gap env u a db ≡ pos 0) → IsBacked db
  IsBacked-of_gaps db v h = record {
    valid = v.valid;
    owners = v.owners;
    reserves = v.reserves;
    backed = λ u a. eq_of_diff _ _ (h u a);
  }

-- What a database needs to be backed is in its wallets, its ledger and its locks.
pub same_backing :
    (db after : Db)
    → after.wallets ≡ db.wallets
    → after.ledger_entries ≡ db.ledger_entries
    → locks_of after ≡ locks_of db
    → IsBacked db
    → IsBacked after
same_backing db after w l o b = record {
  valid = record {
    unique = rw w b.valid.unique;
    solvent = rw w b.valid.solvent;
    matches = λ t j. rw (w, l) (b.valid.matches t j);
  };
  owners = rw w b.owners;
  reserves = rw o b.reserves;
  backed = λ u a. rw (w, o) (b.backed u a);
}
