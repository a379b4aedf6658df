-- ===== src/Wallet/Codec.antt =====
-- What internal/wallet takes from strconv and encoding/json: the texts of its settings.
use brollyzapper.Base.{◌≡◌, refl, Bool, Option, some, String}
use brollyzapper.Base.Int.{ℤ}
use brollyzapper.Base.Int64.{Fits}
use brollyzapper.Store.Rows.{Time}
use brollyzapper.Store.Tx.{Error}

-- deficit.go: the recorded shortfall.
pub record Deficit : Type 0 where
  pub at : Time
  pub shortfall_msat : ℤ
  pub wallet_msat : ℤ
  pub node_msat : ℤ
  pub cause : String

-- `strconv.ParseInt(s, 10, 64)`, `strconv.ParseBool`, `strconv.FormatBool`, `json.Marshal` and
-- `json.Unmarshal` at a Deficit.
pub record Codec : Type 0 where
  pub parse_int : String → Option ℤ
  pub parse_bool : String → Option Bool
  pub format_bool : Bool → String
  pub encode_deficit : Deficit → String
  pub decode_deficit : String → Option Deficit
  pub parse_int_fits : (s : String) (a : ℤ) → parse_int s ≡ some a → Fits a
  pub parse_format_bool : (b : Bool) → parse_bool (format_bool b) ≡ some b

-- The refusals of internal/wallet; `of_store` passes an error of the store on.
pub data Refusal : Type 0 where
  not_positive negative_fee no_payment_hash spending_frozen payments_unresolved : Refusal
  unreadable_setting unreadable_deficit unpriceable zero_adjustment no_note : Refusal
  of_store : Error → Refusal

pub data Answer (A : Type 0) : Type 0 where
  ok : A → Answer A
  err : Refusal → Answer A

-- The next call, unless this one was refused.
infixl 5 ◌>>=◌
abbrev pub ◌>>=◌ : {A B : Type 0} → Answer A → (A → Answer B) → Answer B
err refusal >>= next = err refusal
ok answer >>= next = next answer

pub >>=-eq-ok :
    {A B : Type 0} (first : Answer A) (next : A → Answer B) {b : B}
    → (first >>= next) ≡ ok b
    → (a : A) × (first ≡ ok a) × (next a ≡ ok b)
>>=-eq-ok (err refusal) next h = cc
>>=-eq-ok (ok answer) next h = (answer, refl, h)
