-- ===== src/Store/Tx.antt =====
-- A database transaction: it yields a value and the new tables, or an error that rolls it back.
use brollyzapper.Base.{◌≡◌, refl, arith}
use brollyzapper.Store.Rows.{Db}

-- The sentinels of internal/store. `unique_payment_hash` and `foreign_key` are the constraint
-- failures of the driver, and `sum_overflow` is SQLite's "integer overflow" from SUM.
pub data Error : Type 0 where
  insufficient_balance amount_out_of_range reservation_not_pending not_found : Error
  payment_in_flight not_unresolvable unknown_invoice not_dispatchable : Error
  unique_payment_hash foreign_key sum_overflow : Error

pub data Result (A : Type 0) : Type 0 where
  ok : A → Result A
  err : Error → Result A

abbrev pub Tx : Type 0 → Type 0
Tx A = Db → Result (A × Db)

infixl 5 ◌>>=◌ ◌>>◌
abbrev pub ◌>>=◌ : {A B : Type 0} → Tx A → (A → Tx B) → Tx B
◌>>=◌ m f db = elim (m db) [ ok (a, db') ↦ f a db' | err e ↦ err e ]

abbrev pub ◌>>◌ : {A B : Type 0} → Tx A → Tx B → Tx B
m >> k = m >>= λ _. k

module _ {A : Type 0} where
  abbrev pub pure : A → Tx A
  pure a db = ok (a, db)

  abbrev pub fail : Error → Tx A
  fail e db = err e

  -- `BeginTx`, the body, `Commit`; the deferred `Rollback` on an error.
  abbrev pub in_tx : Tx A → Db → Result A × Db
  in_tx m db = elim (m db) [ ok (a, db') ↦ (ok a, db') | err e ↦ (err e, db) ]

abbrev pub get : Tx Db
get db = ok (db, db)

abbrev pub modify : (Db → Db) → Tx (Unit {0})
modify f db = ok (tt, f db)

-- What a successful chain has gone through.
pub >>=-eq-ok :
    {A B : Type 0} (m : Tx A) (f : A → Tx B) (db : Db) {r : B × Db}
    → (m >>= f) db ≡ ok r
    → (a : A) × (db' : Db) × (m db ≡ ok (a, db')) × (f a db' ≡ ok r)
>>=-eq-ok {A} {B} m f db {r} h = go (m db) refl h
  where
    go :
        (q : Result (A × Db))
        → m db ≡ q
        → elim q as (λ x. Result (B × Db)) [ ok (a, db') ↦ f a db' | err e ↦ err e ] ≡ ok r
        → (a : A) × (db' : Db) × (m db ≡ ok (a, db')) × (f a db' ≡ ok r)
    go (ok (a, db')) e k = (a, db', e, k)
    go (err e') e k = absurd (cc)

-- A transaction keeps what its body keeps when it succeeds.
pub in_tx_keeps :
    {A : Type 0} (P : Db → Type 0) (m : Tx A) (db : Db)
    → P db
    → ((a : A) (db' : Db) → m db ≡ ok (a, db') → P db')
    → P (in_tx m db).1
in_tx_keeps {A} P m db p keep = go (m db) refl
  where
    go :
        (q : Result (A × Db))
        → m db ≡ q
        → P (elim q as (λ x. Result A × Db) [ ok (a, db') ↦ (ok a, db') | err e ↦ (err e, db) ]).1
    go (ok (a, db')) e = keep a db' e
    go (err e') e = p

pub in_tx-ok :
    {A : Type 0} (m : Tx A) (db db' : Db) (a : A) → m db ≡ ok (a, db') → in_tx m db ≡ (ok a, db')
in_tx-ok m db db' a h = ground arith

pub in_tx-err :
    {A : Type 0} (m : Tx A) (db : Db) (e : Error) → m db ≡ err e → in_tx m db ≡ (err e, db)
in_tx-err m db e h = ground arith

pub >>=-of_ok :
    {A B : Type 0} (m : Tx A) (f : A → Tx B) (db db' : Db) (a : A)
    → m db ≡ ok (a, db')
    → (m >>= f) db ≡ f a db'
>>=-of_ok m f db db' a h = ground arith

pub >>=-of_err :
    {A B : Type 0} (m : Tx A) (f : A → Tx B) (db : Db) (e : Error)
    → m db ≡ err e
    → (m >>= f) db ≡ err e
>>=-of_err m f db e h = ground arith

pub in_tx-inv :
    {A : Type 0} (m : Tx A) (db db' : Db) (a : A) → in_tx m db ≡ (ok a, db') → m db ≡ ok (a, db')
in_tx-inv m db db' a h = ground arith
