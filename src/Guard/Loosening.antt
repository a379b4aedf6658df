-- ===== src/Guard/Loosening.antt =====
-- What it takes to loosen a control.
use brollyzapper.Base.{
  ◌<◌, ◌≡◌, refl, sym, ap, subst, ◌∙◌, Bool, true, false, not, ◌⊎◌, inl, inr, Option, none, some,
  [], String, eq_iff, arith, if-both, Option-cases,
}
use brollyzapper.Base.Int.{◌<ℤ◌}
use brollyzapper.Store.Rows.{Time}
use brollyzapper.Guard.Operator.{
  Control, Change, Authorisation, OperatorState, control_eq, bool_eq, change_eq, valid, loosens,
  already_has, apply, check_cap_pair, TextFunctions, normalise_code, matches, Outcome, tightening,
  Refusal, Answer, Write, saved, unsaved, unread, Disk, clear_grant, Verdict, judge, redeemed,
  under_lock, invalid_change, state_unreadable, cap_pair, settle_verdict, redeem, commit_change,
  commit_redeemed, Io, apply_change, replace_authorisation, sending, spend_cap, payment_cap,
  other_control,
}

-- Sending is turned on, or a cap is raised.
abbrev pub IsLooser : OperatorState → OperatorState → Type 0
IsLooser st st' =
    ((st.sending_latch ≡ false) × (st'.sending_latch ≡ true))
    ⊎ ((st.max_spend_msat <ℤ st'.max_spend_msat) ⊎ (st.max_payment_msat <ℤ st'.max_payment_msat))

-- The three controls stand as they were.
pub record SameControls (st st' : OperatorState) : Type 0 where
  pub same_latch : st.sending_latch ≡ st'.sending_latch
  pub same_spend : st.max_spend_msat ≡ st'.max_spend_msat
  pub same_payment : st.max_payment_msat ≡ st'.max_payment_msat

-- A live grant for the change, with the code.
pub record IsGrantFor (t : TextFunctions) (now : Time) (change : Change) (code : String)
    (st : OperatorState) : Type 0 where
  pub grant : Authorisation
  pub is_stored : st.authorisation ≡ some grant
  pub same_change : grant.change ≡ change
  pub live : now < grant.expires_at
  pub same_code : normalise_code t grant.code ≡ normalise_code t code

control_eq→≡ : (a b : Control) → control_eq a b ≡ true → a ≡ b
control_eq→≡ sending sending h = refl
control_eq→≡ spend_cap spend_cap h = refl
control_eq→≡ payment_cap payment_cap h = refl
control_eq→≡ (other_control a) (other_control b) h = ap other_control ((eq_iff a b).0 h)
control_eq→≡ sending spend_cap h = absurd (ground arith)
control_eq→≡ sending payment_cap h = absurd (ground arith)
control_eq→≡ sending (other_control b) h = absurd (ground arith)
control_eq→≡ spend_cap sending h = absurd (ground arith)
control_eq→≡ spend_cap payment_cap h = absurd (ground arith)
control_eq→≡ spend_cap (other_control b) h = absurd (ground arith)
control_eq→≡ payment_cap sending h = absurd (ground arith)
control_eq→≡ payment_cap spend_cap h = absurd (ground arith)
control_eq→≡ payment_cap (other_control b) h = absurd (ground arith)
control_eq→≡ (other_control a) sending h = absurd (ground arith)
control_eq→≡ (other_control a) spend_cap h = absurd (ground arith)
control_eq→≡ (other_control a) payment_cap h = absurd (ground arith)

bool_eq→≡ : (a b : Bool) → bool_eq a b ≡ true → a ≡ b
bool_eq→≡ true true h = refl
bool_eq→≡ true false h = sym h
bool_eq→≡ false true h = absurd (ground arith)
bool_eq→≡ false false h = refl

pub change_eq→≡ : (a b : Change) → change_eq a b ≡ true → a ≡ b
unfolding change_eq
change_eq→≡ a b h =
    let e = control_eq→≡ a.control b.control (ground arith) in
    let e' = bool_eq→≡ a.on b.on (ground arith) in let e'' : a.msat ≡ b.msat = ground arith in cc

pub not_looser : (st st' : OperatorState) → SameControls st st' → IsLooser st st' → ⊥
not_looser st st' s h = ground (arith, s.same_latch, s.same_spend, s.same_payment)

pub apply_not_looser :
    (st : OperatorState) (c : Change) → loosens st c ≡ false → IsLooser st (apply c st) → ⊥
unfolding loosens apply
apply_not_looser st c h l = ground arith

pub clear_grant-SameControls : (d : Disk) (st : OperatorState) → SameControls st (clear_grant d st)
unfolding replace_authorisation
clear_grant-SameControls d st = record {
  same_latch = ground arith;
  same_spend = ground arith;
  same_payment = ground arith;
}

pub settle_verdict-SameControls :
    (d : Disk) (c : Change) (v : Verdict) (st : OperatorState)
    → SameControls st (settle_verdict d c v st).after
unfolding settle_verdict replace_authorisation
settle_verdict-SameControls d c v st = record {
  same_latch = ground arith;
  same_spend = ground arith;
  same_payment = ground arith;
}

under_lock-SameControls :
    (w : Write) (st : OperatorState) (a : Answer)
    → SameControls st a.after
    → SameControls st (under_lock w st a).after
under_lock-SameControls unread st a s = record {
  same_latch = refl;
  same_spend = refl;
  same_payment = refl;
}
under_lock-SameControls unsaved st a s = s
under_lock-SameControls saved st a s = s

pub redeem-SameControls :
    (t : TextFunctions) (d : Disk) (now : Time) (c : Change) (code : String) (st : OperatorState)
    → SameControls st (redeem t d now c code st).after
unfolding redeem
redeem-SameControls t d now c code st =
    under_lock-SameControls d.write st _
      (settle_verdict-SameControls d c (judge t now c code st.authorisation) st)

judge_redeemed :
    (t : TextFunctions) (now : Time) (c : Change) (code : String) (o : Option Authorisation)
    → judge t now c code o ≡ redeemed
    → (g : Authorisation) × (o ≡ some g)
      × (change_eq g.change c ≡ true)
      × (now < g.expires_at)
      × (matches t g code ≡ true)
unfolding judge
judge_redeemed t now c code none h = absurd (ground arith)
judge_redeemed t now c code (some g) h = (g, refl, ground arith, ground arith, ground arith)

accepted_verdict :
    (d : Disk) (c : Change) (v : Verdict) (st : OperatorState)
    → (settle_verdict d c v st).refused ≡ none
    → (v ≡ redeemed) × ((settle_verdict d c v st).after.authorisation ≡ none)
unfolding settle_verdict replace_authorisation
accepted_verdict d c v st h = (ground arith, ground arith)

under_lock_accepted :
    (w : Write) (st : OperatorState) (a : Answer)
    → (under_lock w st a).refused ≡ none
    → under_lock w st a ≡ a
under_lock_accepted unread st a h = absurd (ground arith)
under_lock_accepted unsaved st a h = refl
under_lock_accepted saved st a h = refl

pub redeem_accepted :
    (t : TextFunctions) (d : Disk) (now : Time) (c : Change) (code : String) (st : OperatorState)
    → (redeem t d now c code st).refused ≡ none
    → IsGrantFor t now c code st × ((redeem t d now c code st).after.authorisation ≡ none)
unfolding redeem
redeem_accepted t d now c code st h =
    let a = settle_verdict d c (judge t now c code st.authorisation) st in
    let same = under_lock_accepted d.write st a h in
    let (v, gone) =
      accepted_verdict d c (judge t now c code st.authorisation) st
        (sym (ap (λ (x : Answer). x.refused) same) ∙ h) in
    let (g, stored, change, live, code_ok) = judge_redeemed t now c code st.authorisation v in
    (
      record {
        grant = g;
        is_stored = stored;
        same_change = change_eq→≡ g.change c change;
        live = live;
        same_code = (eq_iff _ _).0 code_ok;
      },
      ap (λ (x : Answer). x.after.authorisation) same ∙ gone,
    )

commit_same :
    (w : Write) (c : Change) (how : Outcome) (st : OperatorState)
    → (commit_change w c how st).after.authorisation ≡ st.authorisation
unfolding commit_change apply
commit_same w c how st = ground arith

tightening_not_looser :
    (w : Write) (c : Change) (how : Outcome) (st : OperatorState)
    → loosens st c ≡ false
    → IsLooser st (commit_change w c how st).after
    → ⊥
unfolding commit_change
tightening_not_looser saved c how st h l = apply_not_looser st c h l
tightening_not_looser unsaved c how st h l = ground arith
tightening_not_looser unread c how st h l = ground arith

commit_refused :
    (w : Write) (c : Change) (a : Answer) (r : Refusal)
    → a.refused ≡ some r
    → commit_redeemed w c a ≡ a
commit_refused w c a r e = rw e refl

-- What the answer of a call that loosens goes with.
abbrev IsAuthorised : TextFunctions → Time → Change → String → OperatorState → Answer → Type 0
IsAuthorised t now c code st a =
    IsLooser st a.after → IsGrantFor t now c code st × (a.after.authorisation ≡ none)

unmoved-IsAuthorised :
    (t : TextFunctions) (now : Time) (c : Change) (code : String) (st : OperatorState)
    (r : Option Refusal)
    → IsAuthorised t now c code st (record { refused = r; after = st; rows = [] })
unmoved-IsAuthorised t now c code st r l =
    absurd
      (not_looser st st (record { same_latch = refl; same_spend = refl; same_payment = refl }) l)

redeemed_loosening :
    (t : TextFunctions) (io : Io) (now : Time) (c : Change) (code : String) (st : OperatorState)
    → IsLooser st (commit_redeemed io.commit c (redeem t io.grant now c code st)).after
    → IsGrantFor t now c code st
      × ((commit_redeemed io.commit c (redeem t io.grant now c code st)).after.authorisation ≡ none)
redeemed_loosening t io now c code st l =
    elim (Option-cases (redeem t io.grant now c code st).refused) [
      | inl accepted ↦
          let (grant, gone) = redeem_accepted t io.grant now c code st accepted in
          (grant, rw accepted (commit_same io.commit c _ _ ∙ gone))
      | inr (r, e) ↦ absurd (
          not_looser st (redeem t io.grant now c code st).after
            (redeem-SameControls t io.grant now c code st)
            (subst (λ (a : Answer). IsLooser st a.after)
              (commit_refused io.commit c (redeem t io.grant now c code st) r e) l))
    ]

-- Whatever the disk answers, a call that leaves a control looser than it found it (sending on, or a cap
-- higher) was given the code of the stored grant: the grant is for exactly this change, its time is not
-- up, and after the call no grant is stored.
pub apply_change_authorised :
    (t : TextFunctions) (io : Io) (now : Time) (c : Change) (code : String) (st : OperatorState)
    → IsLooser st (apply_change t io now c code st).after
    → IsGrantFor t now c code st × ((apply_change t io now c code st).after.authorisation ≡ none)
unfolding apply_change
apply_change_authorised t io now c code st =
    let P = IsAuthorised t now c code st in
    let unmoved = unmoved-IsAuthorised t now c code st in
    if-both P (not (valid c)) (λ _. unmoved (some invalid_change))
      (λ _.
        if-both P (not io.readable) (λ _. unmoved (some state_unreadable))
          (λ _.
            if-both P (already_has st c) (λ _. unmoved none)
              (λ _.
                if-both P (not (check_cap_pair st c)) (λ _. unmoved (some cap_pair))
                  (λ _.
                    if-both P (not (loosens st c))
                      (λ free l.
                        absurd (tightening_not_looser io.commit c tightening st (ground arith) l))
                      (λ _. redeemed_loosening t io now c code st)))))
