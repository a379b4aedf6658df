-- ===== src/Tests/Fixtures.antt =====
-- Small tables: a wallet with a million msat, one with a payment under way, and settings.
use brollyzapper.Base.{
  ◌≡◌, refl, inl, Bool, true, false, Option, none, some, [], ◌∷◌, String, str_eq, if◌then◌else◌,
  arith,
}
use brollyzapper.Base.Int.{ℤ, pos, negsuc, ◌+ℤ◌, neg_ℤ}
use brollyzapper.Base.Int64.{Fits}
use brollyzapper.Store.Rows.{
  Time, allocate, reserve, payment_out, pending, allocation, settled, open_invoice, Txn, Entry,
  Invoice, Db,
}
use brollyzapper.Store.Ledger.Append.{next_txn_id}
use brollyzapper.Store.Ledger.Reserve.{SpendReservation}
use brollyzapper.Store.Ledger.Invariant.{Inv}
use brollyzapper.Store.Ledger.Closing.{Pending}
use brollyzapper.Wallet.Codec.{Codec, Deficit}

abbrev pub noon : Time
noon = 1000000000000000

-- Prints and reads the few texts that the tests need.
abbrev pub read_int : String → Option ℤ
read_int s = if str_eq s "500" then some (pos 500) else none

pub read_int-Fits : (s : String) (a : ℤ) → read_int s ≡ some a → Fits a
read_int-Fits s a h = ground arith

abbrev pub read_bool : String → Option Bool
read_bool s = if str_eq s "true" then some true else if str_eq s "false" then some false else none

abbrev pub show_bool : Bool → String
show_bool b = if b then "true" else "false"

pub read-show_bool : (b : Bool) → read_bool (show_bool b) ≡ some b
read-show_bool true = refl
read-show_bool false = refl

abbrev pub deficit : Deficit
deficit = record {
  at = noon;
  shortfall_msat = pos 7;
  wallet_msat = pos 10;
  node_msat = pos 3;
  cause = "";
}

abbrev pub codec : Codec
codec = record {
  parse_int = read_int;
  parse_bool = read_bool;
  format_bool = show_bool;
  encode_deficit = λ d. "{}";
  decode_deficit = λ s. if str_eq s "{}" then some deficit else none;
  parse_int_fits = read_int-Fits;
  parse_format_bool = read-show_bool;
}

abbrev pub invoice : Invoice
invoice = record {
  payment_hash = "h1";
  amount_msat = pos 2000;
  description_hash = "d1";
  bolt11 = "lnbc1";
  zap_request = none;
  zap_relays = none;
  comment = none;
  state = open_invoice;
  created_at = 1000;
  expires_at = 1600000;
}

abbrev allocated : Txn
allocated = record {
  id = 1;
  kind = allocation;
  state = settled;
  amount_msat = pos 1000000;
  fee_msat = pos 0;
  fee_reserved_msat = pos 0;
  payment_hash = none;
  bolt11 = none;
  preimage = none;
  description = none;
  zap_request = none;
  comment = none;
  nwc_connection_id = none;
  note = none;
  out_metadata = none;
  out_description_hash = none;
  created_at = 1000;
  settled_at = some 1000;
  dispatched_at = none;
  resolve_attempts = 0;
  unresolvable_reason = none;
}

abbrev pub paying : Txn
paying = record allocated {
  id = 2;
  kind = payment_out;
  state = pending;
  amount_msat = pos 300000;
  fee_reserved_msat = pos 10000;
  payment_hash = some "p1";
  settled_at = none;
}

abbrev allocated_entry : Entry
allocated_entry = record {
  id = 1;
  txn_id = 1;
  amount_msat = pos 1000000;
  reason = allocate;
  created_at = 1000;
}

abbrev paying_entry : Entry
paying_entry = record {
  id = 2;
  txn_id = 2;
  amount_msat = negsuc 309999;
  reason = reserve;
  created_at = 1000;
}

-- A million msat, and an open invoice.
abbrev pub funded : Db
funded = record {
  txns = allocated ∷ [];
  entries = allocated_entry ∷ [];
  invoices = invoice ∷ [];
  connections = [];
  settings = [];
}

-- A payment of 300 sat is under way, with 10 sat held for its fee.
abbrev pub under_way : Db
under_way = record funded {
  txns = paying ∷ allocated ∷ [];
  entries = paying_entry ∷ allocated_entry ∷ [];
}

pub funded-Inv : Inv funded
unfolding ◌+ℤ◌ next_txn_id
funded-Inv = record {
  bounded = (omega arith, omega arith, (omega arith, omega arith), tt);
  ordered = (omega arith, tt);
  refs = (omega arith, tt);
  books = (inl refl, tt);
}

pub under_way-Inv : Inv under_way
unfolding ◌+ℤ◌ neg_ℤ next_txn_id
under_way-Inv = record {
  bounded = (
    omega arith,
    omega arith,
    (omega arith, omega arith),
    (omega arith, omega arith, (omega arith, omega arith), tt),
  );
  ordered = (omega arith, (omega arith, tt));
  refs = (omega arith, (omega arith, tt));
  books = ((refl, omega arith, omega arith, omega arith, omega arith, omega arith), (inl refl, tt));
}

pub paying-Pending : Pending 2 under_way paying
paying-Pending = record { found = refl; is_out = refl; is_waiting = refl }

-- A request for 200 sat with a fee of at most 5.
abbrev pub request : SpendReservation
request = record {
  amount_msat = pos 200000;
  max_fee_msat = pos 5000;
  payment_hash = "p2";
  ref = "";
  description = "";
  metadata = "";
  description_hash = "";
  nwc_connection_id = 0;
}
