-- ===== src/Wallet/Receiving.antt =====
-- wallet.go, `CreditReceived` and `CreditInvoice`: the switch that decides what a settlement does.
use brollyzapper.Base.{◌≡◌, refl, Bool, none, some, Option, String}
use brollyzapper.Base.Int.{ℤ}
use brollyzapper.Store.Rows.{Time, Db}
use brollyzapper.Store.Settings.{setting, setting-set_setting}
use brollyzapper.Store.Invoices.{credit_settled_invoice}
use brollyzapper.Wallet.Codec.{Codec, ok, err, unreadable_setting}
use brollyzapper.Wallet.Spender.{
  lift, credit_received, set_credit_received, credit_received_of, credit_with, credit_invoice,
  time_or,
}

read_back : (c : Codec) (b : Bool) (db : Db) → credit_received c (set_credit_received c b db) ≡ ok b
unfolding credit_received set_credit_received credit_received_of
read_back c b db =
    rw (setting-set_setting "credit_received" (c.format_bool b) db, credit_received_of)
      (rw (c.parse_format_bool b, credit_received_of) refl)

-- The switch is read back as it was set, and a settlement is then credited, or only recorded, by
-- it, at the node's time or else the clock's.
pub credit_invoice-set_credit_received :
    (c : Codec) (b : Bool) (hash preimage : String) (paid : ℤ) (at : Option Time) (now : Time)
    (db : Db)
    → (credit_received c (set_credit_received c b db) ≡ ok b)
      × (credit_invoice c hash preimage paid at now (set_credit_received c b db)
          ≡ lift (
              credit_settled_invoice hash preimage paid
                (time_or now at)
                b
                (set_credit_received c b db)))
unfolding credit_invoice credit_with
credit_invoice-set_credit_received c b hash preimage paid at now db =
    (read_back c b db, rw (read_back c b db) refl)

-- A switch whose text cannot be read stops every settlement, with nothing written: the money is
-- then neither credited nor passed over.
pub credit_invoice_unreadable :
    (c : Codec) (raw hash preimage : String) (paid : ℤ) (at : Option Time) (now : Time) (db : Db)
    → setting "credit_received" db ≡ some raw
    → c.parse_bool raw ≡ none
    → credit_invoice c hash preimage paid at now db ≡ (err unreadable_setting, db)
unfolding credit_invoice credit_with credit_received credit_received_of
credit_invoice_unreadable c raw hash preimage paid at now db stored unreadable =
    rw (stored, credit_received_of) (rw (unreadable, credit_received_of) refl)
