-- ===== src/Database/Frame.antt =====
-- What a transaction's steps leave alone: a reading `f` of the tables that no step changes.
use hau_cex.Common.{ℕ, ◌≡◌, refl, ◌∙◌, Bool, true, false, Option, none, some}
use hau_cex.Database.Schema.{Db}
use hau_cex.Database.Tx.{Tx, Error, Result, ok, err, ◌>>=◌, or_throw, when, transaction}

module _ {ℓ} {B : Type ℓ} (f : Db → B) where
  -- Whether the step succeeds or throws, `f` reads what it read before.
  pub record Keeps {A : Type 0} (m : Tx A) : Type ℓ where
    pub same : (db : Db) → f (m db).1 ≡ f db

  Keeps-continue :
      {A C : Type 0} (r : Result A × Db) (k : A → Tx C) (db : Db)
      → f r.1 ≡ f db
      → ((a : A) → Keeps (k a))
      → f (((λ _. r) >>= k) db).1 ≡ f db
  Keeps-continue (ok a, db') k db h rest = (rest a).same db' ∙ h
  Keeps-continue (err e, db') k db h rest = h

  pub Keeps-bind :
      {A C : Type 0} (m : Tx A) (k : A → Tx C) → Keeps m → ((a : A) → Keeps (k a)) → Keeps (m >>= k)
  Keeps-bind m k h rest = record { same = λ db. Keeps-continue (m db) k db (h.same db) rest }

  or_throw-same :
      {A : Type 0} (row : Option A) (e : Error) (db : Db) → f (or_throw row e db).1 ≡ f db
  or_throw-same none e db = refl
  or_throw-same (some a) e db = refl

  -- A lookup of a row that may throw.
  pub Keeps-or_throw :
      {A : Type 0} (row : Db → Option A) (e : Error) → Keeps (λ db. or_throw (row db) e db)
  Keeps-or_throw row e = record { same = λ db. or_throw-same (row db) e db }

  pub Keeps-when : (c : Bool) (m : Tx (Unit {0})) → Keeps m → Keeps (when c m)
  Keeps-when true m h = h
  Keeps-when false m h = record { same = λ db. refl }

  Keeps-settle :
      {A : Type 0} (db : Db) (r : Result A × Db)
      → ((d : Db) (orders commands : ℕ → ℕ)
          → f (record d { order_seq = orders; cmd_seq = commands }) ≡ f d)
      → f r.1 ≡ f db
      → f (transaction (λ _. r) db).1 ≡ f db
  Keeps-settle db (ok a, after) seqs h = h
  Keeps-settle db (err e, after) seqs h = seqs db after.order_seq after.cmd_seq

  -- A transaction, for a reading that does not see the sequences.
  pub Keeps-transaction :
      {A : Type 0}
      → ((d : Db) (orders commands : ℕ → ℕ)
          → f (record d { order_seq = orders; cmd_seq = commands }) ≡ f d)
      → (m : Tx A) → Keeps m
      → Keeps (transaction m)
  Keeps-transaction seqs m h = record { same = λ db. Keeps-settle db (m db) seqs (h.same db) }
