-- ===== src/Database/Tx.antt =====
-- A service method inside `prisma.$transaction`: state, and exceptions as values. Row locks
-- (`FOR UPDATE`) make the transactions on a row follow one another, so a method runs alone.
use hau_cex.Common.{ℕ, Bool, Option, none, some, String, if◌then◌else◌, ◌≡◌, refl}
use hau_cex.Database.Schema.{Db}
use hau_cex.Database.Exceptions.{HttpException}

-- `nest` is a built-in exception of NestJS with its status and message; the next two are errors of
-- Prisma (`...OrThrow`) and of a unique constraint; `plain` is `new Error(message)`.
pub data Error : Type 0 where
  http : HttpException → Error
  nest : ℕ → String → Error
  record_not_found unique_violation : Error
  plain : String → Error

pub data Result {ℓ} (A : Type ℓ) : Type ℓ where
  ok : A → Result A
  err : Error → Result A

abbrev pub Tx : Type 0 → Type 0
Tx A = Db → Result A × Db

module _ {A : Type 0} where
  abbrev pub pure : A → Tx A
  pure a db = (ok a, db)

  abbrev pub throw : Error → Tx A
  throw e db = (err e, db)

  abbrev pub gets : (Db → A) → Tx A
  gets f db = (ok (f db), db)

  abbrev pub or_throw : Option A → Error → Tx A
  or_throw none e = throw e
  or_throw (some a) e = pure a

infixl 5 ◌>>=◌ ◌>>◌
abbrev pub ◌>>=◌ : {A B : Type 0} → Tx A → (A → Tx B) → Tx B
◌>>=◌ m f db = let (r, db') = m db in elim r [ ok a ↦ f a db' | err e ↦ (err e, db') ]

abbrev pub ◌>>◌ : {A B : Type 0} → Tx A → Tx B → Tx B
m >> k = m >>= λ _. k

abbrev pub throw_if : Bool → Error → Tx (Unit {0})
throw_if c e db = (if c then err e else ok tt, db)

abbrev pub modify : (Db → Db) → Tx (Unit {0})
modify f db = (ok tt, f db)

-- Statements run one by one, up to the first that throws.
abbrev pub when : Bool → Tx (Unit {0}) → Tx (Unit {0})
when c m = if c then m else pure tt

abbrev settle {ℓ} : {A : Type ℓ} → Db → Result A × Db → Result A × Db
settle before (ok a, after) = (ok a, after)
settle before (err e, after) =
    (err e, record before { order_seq = after.order_seq; cmd_seq = after.cmd_seq })

-- `prisma.$transaction`: an exception rolls the tables back. `nextval` is never rolled back.
abbrev pub transaction : {A : Type 0} → Tx A → Tx A
transaction m db = settle db (m db)

settle_err :
    {A : Type 0} (before : Db) (r : Result A × Db) (e : Error)
    → (settle before r).0 ≡ err e
    → (settle before r).1 ≡ record before { order_seq = r.1.order_seq; cmd_seq = r.1.cmd_seq }
settle_err before (ok a, after) e h = cc
settle_err before (err _, after) e h = refl

-- A transaction that throws leaves every table as it was.
pub transaction-err :
    {A : Type 0} (m : Tx A) (db : Db) (e : Error)
    → (transaction m db).0 ≡ err e
    → (transaction m db).1
      ≡ record db { order_seq = (m db).1.order_seq; cmd_seq = (m db).1.cmd_seq }
transaction-err m db e = settle_err db (m db) e

settle_ok :
    {A : Type 0} (before : Db) (r : Result A × Db) (a : A)
    → (settle before r).0 ≡ ok a
    → settle before r ≡ r
settle_ok before (ok _, after) a h = refl
settle_ok before (err e, after) a h = cc

-- A transaction that commits has run its steps.
pub transaction-ok :
    {A : Type 0} (m : Tx A) (db : Db) (a : A)
    → (transaction m db).0 ≡ ok a
    → transaction m db ≡ m db
transaction-ok m db a = settle_ok db (m db) a
