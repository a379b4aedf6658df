-- ===== src/Nwc/Lifecycle.antt =====
-- What the changes of a pairing cannot undo.
use brollyzapper.Base.{
  ℕ, ◌==◌, ◌≡◌, refl, ◌∙◌, Bool, true, false, ◌&&◌, Option, none, some, List, [], ◌∷◌, String,
  str_eq, arith, if◌then◌else◌, if-both, find_first, find_first-passes, update_where,
}
use brollyzapper.Store.Rows.{Time, unix}
use brollyzapper.Base.Int.{ℤ}
use brollyzapper.Nwc.Connections.{
  Pairing, Calendar, LimitPolicy, with_default, with_window, default_connection_budget_msat,
  has_pairing, is_live, is_running, is_held, is_active, paused, update_nwc_connection_limits,
  note_nwc_panic, pause_nwc_connection, resume_nwc_connection, revoke_nwc_connection, limited,
  count_panic, set_paused, set_running, set_revoked, Change, limit, panic, pause, resume, revoke,
  change, changes,
}

-- A rewrite of rows that keeps ids leaves a row alone that it does not select.
skipped :
    (i : ℕ) (q : Pairing → Bool) (f : Pairing → Pairing) (ps : List Pairing) (p : Pairing)
    → ((u : Pairing) → (f u).id ≡ u.id)
    → find_first (has_pairing i) ps ≡ some p
    → q p ≡ false
    → find_first (has_pairing i) (update_where q f ps) ≡ some p
skipped i q f [] p keep h out = absurd (ground arith)
skipped i q f (u ∷ us) p keep h out = ground (arith, keep u, skipped i q f us p keep)

limited_id :
    (c : Calendar) (now : Time) (permissions : List String) (budget max_payment : Option ℤ)
    (policy : LimitPolicy) (u : Pairing)
    → ((limited c now permissions budget max_payment policy u).id ≡ u.id)
      × ((limited c now permissions budget max_payment policy u).paused_reason ≡ u.paused_reason)
limited_id c now permissions budget max_payment policy u =
    windowed (with_default policy permissions budget default_connection_budget_msat)
  where
    windowed :
        (o : Option ℤ)
        → ((with_window c (unix now) o u).id ≡ u.id)
          × ((with_window c (unix now) o u).paused_reason ≡ u.paused_reason)
    windowed none = (refl, refl)
    windowed (some b) = (refl, refl)

not_live : (j : ℕ) (p : Pairing) → p.revoked ≡ true → is_live j p ≡ false
not_live j p h = ground arith

not_live_and : (j : ℕ) (p : Pairing) (b : Bool) → p.revoked ≡ true → (is_live j p && b) ≡ false
not_live_and j p b h = ground arith

change_revoked :
    (c : Calendar) (x : Change) (i : ℕ) (ps : List Pairing) (p : Pairing)
    → find_first (has_pairing i) ps ≡ some p
    → p.revoked ≡ true
    → find_first (has_pairing i) (change c x ps) ≡ some p
unfolding change update_nwc_connection_limits note_nwc_panic pause_nwc_connection
    resume_nwc_connection revoke_nwc_connection
change_revoked c (limit j permissions budget max_payment policy now) i ps p h gone =
    skipped i (is_live j) (limited c now permissions budget max_payment policy) ps p
      (λ u. (limited_id c now permissions budget max_payment policy u).0) h (not_live j p gone)
change_revoked c (panic j) i ps p h gone =
    skipped i (is_live j) count_panic ps p (λ u. refl) h (not_live j p gone)
change_revoked c (pause j reason at) i ps p h gone =
    if-both (λ (x : Bool × List Pairing). find_first (has_pairing i) x.1 ≡ some p)
      (str_eq (c.trim_space reason) "") (λ _. h)
      (λ _.
        skipped i (is_running j) (set_paused reason at) ps p (λ u. refl) h
          (not_live_and j p _ gone))
change_revoked c (resume j) i ps p h gone =
    skipped i (is_held j) set_running ps p (λ u. refl) h (not_live_and j p _ gone)
change_revoked c (revoke j) i ps p h gone =
    skipped i (is_live j) set_revoked ps p (λ u. refl) h (not_live j p gone)

-- A revoked pairing is final: whatever changes follow, to it or to others, its row stays as it was when
-- it was revoked, and so it is never active again.
pub changes_revoked :
    (c : Calendar) (xs : List Change) (i : ℕ) (ps : List Pairing) (p : Pairing)
    → find_first (has_pairing i) ps ≡ some p
    → p.revoked ≡ true
    → (find_first (has_pairing i) (changes c xs ps) ≡ some p) × (is_active p ≡ false)
changes_revoked c [] i ps p h gone = (h, ground arith)
changes_revoked c (x ∷ xs) i ps p h gone =
    changes_revoked c xs i (change c x ps) p (change_revoked c x i ps p h gone) gone

-- A row with the reason of its pause.
abbrev pub StaysPaused : ℕ → String → List Pairing → Type 0
StaysPaused i reason ps =
    (p : Pairing) × (find_first (has_pairing i) ps ≡ some p)
    × (p.paused_reason ≡ reason)
    × (paused p ≡ true)

rewritten :
    (i : ℕ) (q : Pairing → Bool) (f : Pairing → Pairing) (ps : List Pairing) (p : Pairing)
    → ((u : Pairing) → (f u).id ≡ u.id)
    → find_first (has_pairing i) ps ≡ some p
    → find_first (has_pairing i) (update_where q f ps) ≡ some (if q p then f p else p)
rewritten i q f [] p keep h = absurd (ground arith)
rewritten i q f (u ∷ us) p keep h = ground (arith, keep u, rewritten i q f us p keep)

same_pause :
    (i : ℕ) (reason : String) (q : Pairing → Bool) (f : Pairing → Pairing) (ps : List Pairing)
    → ((u : Pairing) → (f u).id ≡ u.id)
    → ((u : Pairing) → (f u).paused_reason ≡ u.paused_reason)
    → StaysPaused i reason ps
    → StaysPaused i reason (update_where q f ps)
same_pause i reason q f ps keep keeps (p, h, same, held) = (
  if q p then f p else p,
  rewritten i q f ps p keep h,
  if-both (λ (u : Pairing). u.paused_reason ≡ reason) (q p) (λ _. keeps p ∙ same) (λ _. same),
  if-both (λ (u : Pairing). paused u ≡ true) (q p) (λ _. rw (keeps p) held) (λ _. held),
)

not_running : (j : ℕ) (p : Pairing) → paused p ≡ true → is_running j p ≡ false
not_running j p h = ground arith

-- The changes do not resume the pairing with this id.
abbrev pub IsNoResume : ℕ → List Change → Type 0
IsNoResume i [] = Unit
IsNoResume i (resume j ∷ xs) = ((j == i) ≡ false) × IsNoResume i xs
IsNoResume i (_ ∷ xs) = IsNoResume i xs

other_row :
    (i j : ℕ) (p : Pairing) → (j == i) ≡ false → has_pairing i p ≡ true → is_held j p ≡ false
other_row i j p h own = ground arith

-- While nobody resumes it, a paused pairing keeps the reason that it was paused for first, whatever else
-- is changed: limits, further panics, further pauses, its end.
pub changes_paused :
    (c : Calendar) (xs : List Change) (i : ℕ) (reason : String) (ps : List Pairing)
    → IsNoResume i xs
    → StaysPaused i reason ps
    → StaysPaused i reason (changes c xs ps)
unfolding change update_nwc_connection_limits note_nwc_panic pause_nwc_connection
    resume_nwc_connection revoke_nwc_connection
changes_paused c [] i reason ps n h = h
changes_paused c (limit j permissions budget max_payment policy now ∷ xs) i reason ps n h =
    changes_paused c xs i reason _ n (
      same_pause i reason (is_live j) (limited c now permissions budget max_payment policy) ps
        (λ u. (limited_id c now permissions budget max_payment policy u).0)
        (λ u. (limited_id c now permissions budget max_payment policy u).1) h)
changes_paused c (panic j ∷ xs) i reason ps n h =
    changes_paused c xs i reason _ n
      (same_pause i reason (is_live j) count_panic ps (λ u. refl) (λ u. refl) h)
changes_paused c (revoke j ∷ xs) i reason ps n h =
    changes_paused c xs i reason _ n
      (same_pause i reason (is_live j) set_revoked ps (λ u. refl) (λ u. refl) h)
changes_paused c (pause j why at ∷ xs) i reason ps n (p, found, same, held) =
    changes_paused c xs i reason _ n (
      if-both (λ (x : Bool × List Pairing). StaysPaused i reason x.1) (str_eq (c.trim_space why) "")
        (λ _. (p, found, same, held))
        (λ _. (
          p,
          skipped i (is_running j) (set_paused why at) ps p (λ u. refl) found
              (not_running j p held),
          same,
          held,
        )))
changes_paused c (resume j ∷ xs) i reason ps n (p, found, same, held) =
    changes_paused c xs i reason _ n.1 (
      p,
      skipped i (is_held j) set_running ps p (λ u. refl) found
          (other_row i j p n.0 (find_first-passes (has_pairing i) ps p found)),
      same,
      held,
    )
