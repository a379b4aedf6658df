-- ===== src/Zap/Join.antt =====
-- A zap that is found for a hash is that hash's.
use brollyzapper.Base.{
  ℕ, ◌≡◌, refl, ap, Bool, true, Option, none, some, List, [], ◌∷◌, String, arith, any, find_first,
}
use brollyzapper.Store.Rows.{Time, Db, Txn, Invoice}
use brollyzapper.Zap.Queue.{
  PendingReceipt, Zaps, SettledZap, is_settlement, is_zap_invoice, zap_of, joined, Found, a_zap,
  settled_zap_for,
}
use brollyzapper.Zap.Publish.{Relays, built, attempt}

-- What a zap that is found for a hash says.
abbrev pub IsOf : String → Db → Found → Type 0
IsOf h db (a_zap zap) = (zap.payment_hash ≡ h) × (any (is_settlement h) db.txns ≡ true)
IsOf h db _ = Unit

found_in : (p : Txn → Bool) (ts : List Txn) (t : Txn) → find_first p ts ≡ some t → any p ts ≡ true
found_in p [] t e = absurd (cc)
found_in p (x ∷ ts) t e = ground (arith, found_in p ts t)

zap_of-IsOf :
    (h : String) (db : Db) (t : Txn) (i : Invoice) (o : Option ℕ)
    → any (is_settlement h) db.txns ≡ true
    → IsOf h db (zap_of h t i o)
zap_of-IsOf h db t i none e = tt
zap_of-IsOf h db t i (some at) e = (refl, e)

joined-IsOf :
    (h : String) (db : Db) (t : Option Txn) (i : Option Invoice)
    → ((x : Txn) → t ≡ some x → any (is_settlement h) db.txns ≡ true)
    → IsOf h db (joined h t i)
joined-IsOf h db none i e = tt
joined-IsOf h db (some t) none e = tt
joined-IsOf h db (some t) (some i) e = zap_of-IsOf h db t i t.settled_at (e t refl)

pub settled_zap_for-IsOf : (h : String) (db : Db) → IsOf h db (settled_zap_for h db)
unfolding settled_zap_for
settled_zap_for-IsOf h db =
    joined-IsOf h db (find_first (is_settlement h) db.txns)
      (find_first (is_zap_invoice h) db.invoices) (found_in (is_settlement h) db.txns)

pub attempt-same :
    (relays : Relays) (now : Time) (zap : SettledZap) (r : PendingReceipt) (z : Zaps)
    → zap.payment_hash ≡ r.payment_hash
    → attempt relays now zap r z ≡ built relays now zap r z
unfolding attempt
attempt-same relays now zap r z e =
    ap (λ (h : String). built relays now zap (record r { payment_hash = h }) z) e
