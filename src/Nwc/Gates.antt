-- ===== src/Nwc/Gates.antt =====
-- The gates of a request, read backwards: what holds when they let it through.
use brollyzapper.Base.{
  ℕ, ◌≡◌, refl, sym, ap, subst, Bool, true, false, not, Option, none, some, str_eq, arith,
}
use brollyzapper.Base.Int.{ℤ}
use brollyzapper.Store.Rows.{Time, Db}
use brollyzapper.Wallet.Codec as Wallet
use brollyzapper.Wallet.Codec.{Answer, Deficit}
use brollyzapper.Wallet.Freeze.{shortfall}
use brollyzapper.Wallet.Fee.{max_fee}
use brollyzapper.Nwc.Amount.{Payable, pays, payable_amount}
use brollyzapper.Nwc.Ladder.{
  Gate, stop, pass, ◌>>=◌, ◌>>◌, require, held_by, may_send, payable_invoice, payable_at, readable,
  payable, priced, is_expired, is_own, is_within, send_enabled, unresolved_payments, Bolt11, Code,
  other, restricted, quota_exceeded, payment_failed, Limits, Params, Spend, Cleared, gates,
}
use brollyzapper.Payments.Closing.{Env}

pass-inv :
    {A B : Type 0} (g : Gate A) (k : A → Gate B) (b : B)
    → (g >>= k) ≡ pass b
    → (a : A) × (g ≡ pass a) × (k a ≡ pass b)
pass-inv (stop code) k b h = absurd (cc)
pass-inv (pass a) k b h = (a, refl, h)

require-inv :
    {B : Type 0} (t : Bool) (code : Code) (k : Gate B) (b : B)
    → (require t code >> k) ≡ pass b
    → (t ≡ true) × (k ≡ pass b)
require-inv true code k b h = (refl, h)
require-inv false code k b h = absurd (cc)

readable-inv : (o : Option Bolt11) (b : Bolt11) → readable o ≡ pass b → o ≡ some b
readable-inv none b h = absurd (cc)
readable-inv (some c) b h = ground arith

payable-inv : (p : Payable) (a : ℤ) → payable p ≡ pass a → p ≡ pays a
payable-inv p a h = ground arith

priced-inv : (q : Answer ℤ) (a : ℤ) → priced q ≡ pass a → q ≡ Wallet.ok a
priced-inv (Wallet.err e) a h = absurd (cc)
priced-inv (Wallet.ok b) a h = ground arith

held-inv :
    (q : Answer (Option Deficit)) (n : ℕ) {u : Unit {0}}
    → held_by q n ≡ pass u
    → (q ≡ Wallet.ok none) × (n ≡ 0)
held-inv (Wallet.err e) n h = absurd (cc)
held-inv (Wallet.ok (some d)) n h = absurd (cc)
held-inv (Wallet.ok none) n h = (refl, ground arith)

-- Nothing holds a payment back.
pub record MaySend (env : Env) (s : Spend) (now : Time) (db : Db) : Type 0 where
  pub enabled : send_enabled db ≡ true
  pub credential : s.credential_ready ≡ true
  pub unfrozen : shortfall env.codec db ≡ Wallet.ok none
  pub resolved : unresolved_payments env.started_at now db ≡ 0
  pub unblocked : s.sending_blocked ≡ false

-- The node has read the invoice, and it is in time and somebody else's.
pub record IsPayable (s : Spend) (params : Params) (now : Time) (b : Bolt11) : Type 0 where
  pub decoded : s.decode params.invoice ≡ some b
  pub unexpired : is_expired now b ≡ false
  pub foreign : is_own s b ≡ false

-- What is paid is what the invoice or the request names, within the connection's limit, at the one fee.
pub record IsPriced (env : Env) (limits : Limits) (params : Params) (db : Db) (c : Cleared)
    : Type 0 where
  pub amount : payable_amount c.invoice.amount_msat params.amount ≡ pays c.amount
  pub within : is_within limits.max_payment_msat c.amount ≡ true
  pub fee : max_fee env.codec c.amount db ≡ Wallet.ok c.max_fee_msat

off : (b : Bool) → not b ≡ true → b ≡ false
off b h = ground arith

require-last : (t : Bool) (code : Code) {u : Unit {0}} → require t code ≡ pass u → t ≡ true
require-last t code h = ground arith

may_send-MaySend :
    (env : Env) (s : Spend) (now : Time) (db : Db) {u : Unit {0}}
    → may_send env s now db ≡ pass u
    → MaySend env s now db
may_send-MaySend env s now db {u} h =
    let (enabled, h₁) = require-inv (send_enabled db) restricted _ u h in
    let (credential, h₂) = require-inv s.credential_ready restricted _ u h₁ in
    let (_, held, h₃) =
      pass-inv (held_by (shortfall env.codec db) (unresolved_payments env.started_at now db)) _ u
        h₂ in
    let (unfrozen, resolved) =
      held-inv (shortfall env.codec db) (unresolved_payments env.started_at now db) held in
    record {
      enabled = enabled;
      credential = credential;
      unfrozen = unfrozen;
      resolved = resolved;
      unblocked = off s.sending_blocked (require-last (not s.sending_blocked) restricted h₃);
    }

pass_inj : {A : Type 0} (a b : A) → pass a ≡ pass b → a ≡ b
pass_inj a b h = ground arith

payable_invoice-IsPayable :
    (s : Spend) (params : Params) (now : Time) (b : Bolt11)
    → payable_invoice s params now ≡ pass b
    → IsPayable s params now b
payable_invoice-IsPayable s params now b h =
    let (_, h₁) = require-inv (not (str_eq params.invoice "")) other _ b h in
    let (b', decoded, h₂) = pass-inv (readable (s.decode params.invoice)) _ b h₁ in
    let (unexpired, h₃) = require-inv (not (is_expired now b')) other _ b h₂ in
    let (foreign, h₄) = require-inv (not (is_own s b')) payment_failed _ b h₃ in
    subst (IsPayable s params now) (pass_inj b' b h₄) (record {
      decoded = readable-inv (s.decode params.invoice) b' decoded;
      unexpired = off _ unexpired;
      foreign = off _ foreign;
    })

payable_at-IsPriced :
    (env : Env) (limits : Limits) (params : Params) (db : Db) (b : Bolt11) (c : Cleared)
    → payable_at env limits params db b ≡ pass c
    → (c.invoice ≡ b) × IsPriced env limits params db c
payable_at-IsPriced env limits params db b c h =
    let (a, amount, h₁) = pass-inv (payable (payable_amount b.amount_msat params.amount)) _ c h in
    let (within, h₂) = require-inv (is_within limits.max_payment_msat a) quota_exceeded _ c h₁ in
    let (fee, charged, h₃) = pass-inv (priced (max_fee env.codec a db)) _ c h₂ in
    let e = pass_inj _ c h₃ in
    (
      sym (ap (λ (x : Cleared). x.invoice) e),
      subst (IsPriced env limits params db) e (record {
        amount = payable-inv _ a amount;
        within = within;
        fee = priced-inv (max_fee env.codec a db) fee charged;
      }),
    )

-- Every gate, at the tables and the clock of the request.
pub record HasPassed (env : Env) (s : Spend) (limits : Limits) (params : Params) (now : Time)
    (db : Db) (c : Cleared) : Type 0 where
  pub may : MaySend env s now db
  pub invoice : IsPayable s params now c.invoice
  pub price : IsPriced env limits params db c

pub gates-HasPassed :
    (env : Env) (s : Spend) (limits : Limits) (params : Params) (now : Time) (db : Db) (c : Cleared)
    → gates env s limits params now db ≡ pass c
    → HasPassed env s limits params now db c
unfolding gates
gates-HasPassed env s limits params now db c h =
    let (_, sent, h₁) = pass-inv (may_send env s now db) _ c h in
    let (b, read, h₂) = pass-inv (payable_invoice s params now) _ c h₁ in
    let (same, price) = payable_at-IsPriced env limits params db b c h₂ in
    record {
      may = may_send-MaySend env s now db sent;
      invoice =
          subst (IsPayable s params now) (sym same) (payable_invoice-IsPayable s params now b read);
      price = price;
    }
