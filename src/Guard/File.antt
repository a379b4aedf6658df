-- ===== src/Guard/File.antt =====
-- The file that the operator reads, on a disk that answers.
use brollyzapper.Base.{
  ◌<◌, ◌≡◌, refl, sym, subst, true, false, not, Option, none, some, List, [], ◌∷◌, String, arith,
  if-both,
}
use brollyzapper.Store.Rows.{Time}
use brollyzapper.Guard.Operator.{
  Change, Authorisation, OperatorState, TextFunctions, Answer, Disk, Io, Write, saved, unsaved,
  unread, Row, Refusal, Outcome, Verdict, ungranted, redeemed, ended, miscounted, settle_verdict,
  judge, redeem, commit_change, commit_redeemed, apply_change, request_authorisation, request_swept,
  install_grant, sweep_grant, sweep_expired, check_cap_pair, apply, valid, already_has, loosens,
  clear_grant, replace_authorisation, expired, authorised, tightening, max_authorisation_attempts,
  with_code,
}
use brollyzapper.Guard.Ceremony.{Call, apply_call, request_call, sweep_call, handle, handle_all}

-- The operator's file shows the code of the stored grant, and there is none without one; the grant has
-- had fewer wrong codes than end it.
abbrev pub IsShownAs : Option Authorisation → Option String → Type 0
IsShownAs none file = file ≡ none
IsShownAs (some g) file = (file ≡ some g.code) × (g.attempts < max_authorisation_attempts)

abbrev pub IsShown : OperatorState → Type 0
IsShown st = IsShownAs st.authorisation st.file

-- A disk that reads, writes and removes.
abbrev pub healthy : Disk
healthy = record { write = saved; removed = true }

clear-IsShown : (st : OperatorState) → IsShown (clear_grant healthy st)
unfolding replace_authorisation
clear-IsShown st = refl

miscounted_next :
    (t : TextFunctions) (now : Time) (c : Change) (code : String) (o : Option Authorisation)
    (file : Option String) (g : Authorisation)
    → IsShownAs o file
    → judge t now c code o ≡ miscounted g
    → IsShownAs (some g) file
unfolding judge
miscounted_next t now c code none file g h e = absurd (ground arith)
miscounted_next t now c code (some old) file g h e = ground (arith, h.0)

settle-IsShown :
    (c : Change) (v : Verdict) (st : OperatorState)
    → ((g : Authorisation) → v ≡ miscounted g → IsShownAs (some g) st.file)
    → IsShown st
    → IsShown (settle_verdict healthy c v st).after
unfolding settle_verdict replace_authorisation
settle-IsShown c ungranted st next h = h
settle-IsShown c (ended why r) st next h = refl
settle-IsShown c (miscounted g) st next h = next g refl
settle-IsShown c redeemed st next h = refl

redeem-IsShown :
    (t : TextFunctions) (now : Time) (c : Change) (code : String) (st : OperatorState)
    → IsShown st
    → IsShown (redeem t healthy now c code st).after
unfolding redeem
redeem-IsShown t now c code st h =
    settle-IsShown c _ st (λ g. miscounted_next t now c code st.authorisation st.file g h) h

apply_authorisation :
    (c : Change) (st : OperatorState) → (apply c st).authorisation ≡ st.authorisation
unfolding apply
apply_authorisation c st = ground arith

apply_file : (c : Change) (st : OperatorState) → (apply c st).file ≡ st.file
unfolding apply
apply_file c st = ground arith

apply-IsShown : (c : Change) (st : OperatorState) → IsShown st → IsShown (apply c st)
apply-IsShown c st h = rw (apply_authorisation c st) (rw (apply_file c st) h)

commit-IsShown :
    (w : Write) (c : Change) (how : Outcome) (st : OperatorState)
    → IsShown st
    → IsShown (commit_change w c how st).after
unfolding commit_change
commit-IsShown saved c how st h = apply-IsShown c st h
commit-IsShown unsaved c how st h = h
commit-IsShown unread c how st h = h

commit_redeemed-IsShown :
    (w : Write) (c : Change) (a : Answer) → IsShown a.after → IsShown (commit_redeemed w c a).after
commit_redeemed-IsShown w c a h = redeemed_of a.refused refl
  where
    redeemed_of : (r : Option Refusal) → a.refused ≡ r → IsShown (commit_redeemed w c a).after
    redeemed_of none e = rw e (commit-IsShown w c authorised a.after h)
    redeemed_of (some r) e = rw e h

apply_change-IsShown :
    (t : TextFunctions) (io : Io) (now : Time) (c : Change) (code : String) (st : OperatorState)
    → io.grant ≡ healthy
    → IsShown st
    → IsShown (apply_change t io now c code st).after
unfolding apply_change
apply_change-IsShown t io now c code st ok h =
    let P = λ (a : Answer). IsShown a.after in
    if-both P (not (valid c)) (λ _. h)
      (λ _.
        if-both P (not io.readable) (λ _. h)
          (λ _.
            if-both P (already_has st c) (λ _. h)
              (λ _.
                if-both P (not (check_cap_pair st c)) (λ _. h)
                  (λ _.
                    if-both P (not (loosens st c)) (λ _. commit-IsShown io.commit c tightening st h)
                      (λ _. commit_redeemed-IsShown io.commit c (redeem t io.grant now c code st) (
                        subst (λ (d : Disk). IsShown (redeem t d now c code st).after) (sym ok)
                          (redeem-IsShown t now c code st h)))))))

sweep-IsShown :
    (now : Time) (o : Option Authorisation) (st : OperatorState)
    → IsShown st
    → IsShown (sweep_grant healthy now o st).0
sweep-IsShown now none st h = h
sweep-IsShown now (some g) st h =
    if-both (λ (x : OperatorState × List Row). IsShown x.0) (expired now g) (λ _. clear-IsShown st)
      (λ _. h)

install-IsShown :
    (now : Time) (g : Authorisation) (rows : List Row) (io : Io) (st : OperatorState)
    → io.grant ≡ healthy
    → g.attempts < max_authorisation_attempts
    → IsShown st
    → IsShown (install_grant io now g rows st).after
unfolding install_grant replace_authorisation
install-IsShown now g rows io st ok few h =
    rw ok (if-both (λ (a : Answer). IsShown a.after) io.file_written (λ _. (refl, few)) (λ _. h))

with_code-IsShown :
    (io : Io) (now : Time) (c : Change) (st : OperatorState) (rows : List Row) (o : Option String)
    → io.grant ≡ healthy
    → IsShown st
    → IsShown (with_code io now c st rows o).after
with_code-IsShown io now c st rows none ok h = h
with_code-IsShown io now c st rows (some code) ok h =
    install-IsShown now _ rows io st ok (omega arith) h

swept-IsShown :
    (io : Io) (now : Time) (new_code : Option String) (c : Change) (x : OperatorState × List Row)
    → io.grant ≡ healthy
    → IsShown x.0
    → IsShown (request_swept io now new_code c x).after
swept-IsShown io now new_code c (st, rows) ok h =
    let P = λ (a : Answer). IsShown a.after in
    if-both P (not (loosens st c)) (λ _. h)
      (λ _.
        if-both P (not (check_cap_pair st c)) (λ _. h)
          (λ _. with_code-IsShown io now c st rows new_code ok h))

request-IsShown :
    (io : Io) (now : Time) (new_code : Option String) (c : Change) (st : OperatorState)
    → io.sweep ≡ healthy
    → io.grant ≡ healthy
    → IsShown st
    → IsShown (request_authorisation io now new_code c st).after
unfolding request_authorisation sweep_expired
request-IsShown io now new_code c st ok ok' h =
    let P = λ (a : Answer). IsShown a.after in
    if-both P (not (valid c)) (λ _. h)
      (λ _.
        if-both P (not io.readable) (λ _. h)
          (λ _. swept-IsShown io now new_code c (sweep_expired io.sweep now st) ok' (
            subst (λ (d : Disk). IsShown (sweep_expired d now st).0) (sym ok)
              (sweep-IsShown now st.authorisation st h))))

-- The disk of a call answers at every clear and install of a grant. The read, the write of the
-- operator's file and the commit may still fail.
abbrev pub IsHealthy : Call → Type 0
IsHealthy (apply_call io now c code) = io.grant ≡ healthy
IsHealthy (request_call io now new_code c) = (io.sweep ≡ healthy) × (io.grant ≡ healthy)
IsHealthy (sweep_call readable d now) = d ≡ healthy

abbrev pub AllHealthy : List Call → Type 0
AllHealthy [] = Unit
AllHealthy (c ∷ cs) = IsHealthy c × AllHealthy cs

-- From a state whose file shows the grant, every run of calls whose clears and installs the disk carries
-- out leaves such a state: the file exists exactly when a grant is stored, it shows that grant's code,
-- and a stored grant has had fewer than three wrong codes.
pub handle_all-IsShown :
    (t : TextFunctions) (cs : List Call) (st : OperatorState)
    → AllHealthy cs
    → IsShown st
    → IsShown (handle_all t cs st)
unfolding handle sweep_expired
handle_all-IsShown t [] st ok h = h
handle_all-IsShown t (apply_call io now c code ∷ cs) st ok h =
    handle_all-IsShown t cs _ ok.1 (apply_change-IsShown t io now c code st ok.0 h)
handle_all-IsShown t (request_call io now new_code c ∷ cs) st ok h =
    handle_all-IsShown t cs _ ok.1 (request-IsShown io now new_code c st ok.0.0 ok.0.1 h)
handle_all-IsShown t (sweep_call true d now ∷ cs) st ok h = handle_all-IsShown t cs _ ok.1 (
    subst (λ (d : Disk). IsShown (sweep_expired d now st).0) (sym ok.0)
      (sweep-IsShown now st.authorisation st h))
handle_all-IsShown t (sweep_call false d now ∷ cs) st ok h = handle_all-IsShown t cs _ ok.1 h
