-- ===== src/Guard/Keys/Switch.antt =====
-- What the guard's record of its keys is good for.
use brollyzapper.Base.{
  ℕ, ◌==◌, ◌≡◌, refl, Bool, true, false, not, ◌&&◌, ◌||◌, List, [], ◌∷◌, if-both, arith, ==_iff,
  Option-cases, Bool-cases, inl, inr,
}
use brollyzapper.Guard.Operator.Rules.{apply}
use brollyzapper.Guard.Operator.Calls.{Write, unread, unsaved, saved}
use brollyzapper.Guard.Keys.Ids.{contains, contains-delete_func}
use brollyzapper.Guard.Keys.World.{receive_credential, World, is_recorded, named_by}
use brollyzapper.Guard.Keys.Sweep.{
  Deletion, answered, revoke_at_node, revoke_previous, try_revoke, Revoked, Swept, sweep_pending,
  without,
}
use brollyzapper.Guard.Keys.Sending.{
  EndIo, sending_enabled, remove_spend_credential, clear_spend_state, after_end,
  sweep_and_forget_spend, remove_unrecorded, revoke_spend, Call, receive_baked, spend_baked,
  receive_ensured, spend_ensured, spend_revoked, orphans_swept, deleted_at_node, call, calls,
}
use brollyzapper.Guard.Keys.Bake.{Ended}
use brollyzapper.Guard.Keys.Remembered.{Remembers, Remembers-listed}
use brollyzapper.Guard.Keys.Baking.{bake-Remembers}
use brollyzapper.Guard.Keys.Ending.{
  sweep_orphans-Remembers, revoke_spend-Remembers, ensure_receive_macaroon-Remembers,
  bake_spend-Remembers, ensure_spend_macaroon-Remembers,
}

without-le : (id a : ℕ) (xs : List ℕ) → contains (without id xs) a ≡ true → contains xs a ≡ true
without-le id a xs h = ground (arith, contains-delete_func (λ x. x == id) xs a)

call-Remembers : (allow : Bool) (k : Call) (w : World) → Remembers w → Remembers (call allow k w)
unfolding call
call-Remembers allow (receive_baked io now) w r = bake-Remembers io receive_credential now w r
call-Remembers allow (spend_baked io now) w r = bake_spend-Remembers allow io now w r
call-Remembers allow (receive_ensured io now) w r = ensure_receive_macaroon-Remembers io now w r
call-Remembers allow (spend_ensured io now) w r = ensure_spend_macaroon-Remembers allow io now w r
call-Remembers allow (spend_revoked io) w r = revoke_spend-Remembers io w r
call-Remembers allow (orphans_swept loaded del forgotten) w r =
    sweep_orphans-Remembers loaded del forgotten w r
call-Remembers allow (deleted_at_node id) w r =
    Remembers-listed w (without id w.listed) (λ a h. without-le id a w.listed h) r

calls-Remembers :
    (allow : Bool) (ks : List Call) (w : World) → Remembers w → Remembers (calls allow ks w)
unfolding calls
calls-Remembers allow [] w r = r
calls-Remembers allow (k ∷ ks) w r =
    calls-Remembers allow ks (call allow k w) (call-Remembers allow k w r)

from_none : (w : World) → w.minted ≡ [] → Remembers w
from_none w e = record { nonzero_minted = rw e refl; recorded = λ a m l. absurd (cc (rw e at m)) }

-- From a guard that has made no key: after any list of bakes, renewals, revocations and sweeps, whatever the
-- node and the disk fail at, and with keys deleted at the node by others, each key that the node made for the
-- guard and still honours is named by the guard's state, as current or as pending.
pub no_key_forgotten :
    (allow : Bool) (ks : List Call) (w : World)
    → w.minted ≡ []
    → (a : ℕ) → contains (calls allow ks w).minted a ≡ true
    → contains (calls allow ks w).listed a ≡ true
    → is_recorded (calls allow ks w).state a ≡ true
no_key_forgotten allow ks w e = (calls-Remembers allow ks w (from_none w e)).recorded

-- With every deletion answered, a sweep keeps what it spares.
all_answered-kept :
    (del : ℕ → Deletion) (current : ℕ) (spare ids listed : List ℕ) (a : ℕ)
    → ((x : ℕ) → del x ≡ answered)
    → contains (sweep_pending del current spare ids listed).kept a ≡ true
    → contains spare a ≡ true
unfolding sweep_pending revoke_previous
all_answered-kept del current spare [] listed a all h = absurd (cc)
all_answered-kept del current spare (id ∷ ids) listed a all h = ground (
  arith,
  all id,
  ==_iff id a,
  all_answered-kept del current spare ids (try_revoke del current spare id listed).left a all,
)

abbrev pub is_off : World → Bool
is_off w = w.state.spend_root_key_id == 0 && not w.state.operator.sending_latch

-- What a call that ended sending leaves, of a world `w`.
abbrev EndedFrom : World → World → Type 0
EndedFrom w w' =
    (is_off w' ≡ true)
    × (w'.minted ≡ w.minted)
    × (w'.receive ≡ w.receive)
    × (w'.state.receive_root_key_id ≡ w.state.receive_root_key_id)
    × ((a : ℕ)
        → contains w'.state.pending_root_key_ids a ≡ true
        → contains (named_by w.receive) a ≡ true)

after_end-ends :
    (wr : Write) (s : Swept) (w : World)
    → ((a : ℕ) → contains s.kept a ≡ true → contains (named_by w.receive) a ≡ true)
    → (after_end wr s w).0 ≡ true
    → EndedFrom w (after_end wr s w).1
unfolding clear_spend_state apply
after_end-ends saved s w k h = (refl, refl, refl, refl, k)
after_end-ends unsaved s w k h = absurd (cc)
after_end-ends unread s w k h = absurd (cc)

sweep_and_forget_spend-ends :
    (io : EndIo) (w : World)
    → ((x : ℕ) → io.deletions x ≡ answered)
    → (sweep_and_forget_spend io w).0 ≡ true
    → EndedFrom w (sweep_and_forget_spend io w).1
unfolding sweep_and_forget_spend
sweep_and_forget_spend-ends io w all h =
    after_end-ends io.cleared
      (sweep_pending io.deletions 0 (named_by w.receive) w.state.pending_root_key_ids w.listed) w
      (λ a.
        all_answered-kept io.deletions 0 (named_by w.receive) w.state.pending_root_key_ids w.listed
          a all)
      h

remove_unrecorded-ends :
    (io : EndIo) (w : World) (e : Ended)
    → (e.0 ≡ true → EndedFrom w e.1)
    → (remove_unrecorded io e).0 ≡ true
    → EndedFrom w (remove_unrecorded io e).1
remove_unrecorded-ends io w (false, w') f h = absurd (cc)
remove_unrecorded-ends io w (true, w') f h = elim (Option-cases w'.spend.macaroon) [
  | inl gone ↦ rw gone (f refl)
  | inr (m, here) ↦ absurd (cc (rw here at h))
]

revoke_spend-ends :
    (io : EndIo) (w : World)
    → ((x : ℕ) → io.deletions x ≡ answered)
    → (revoke_spend io w).0 ≡ true
    → EndedFrom w (revoke_spend io w).1
unfolding revoke_spend
revoke_spend-ends io w all =
    if-both P (not io.loaded) (λ _ h. absurd (cc))
      (λ _.
        if-both P (sending_enabled w.state)
          (λ _. if-both P taken.gone (λ _. ended_after io.removed) (λ _ h. absurd (cc)))
          (λ _.
            remove_unrecorded-ends io w (sweep_and_forget_spend io w)
              (sweep_and_forget_spend-ends io w all)))
  where
    P : Ended → Type 0
    P e = e.0 ≡ true → EndedFrom w e.1

    taken : Revoked
    taken = revoke_at_node io.deletion w.state.spend_root_key_id w.listed

    ended_after :
        (removed : Bool)
        → P (
            sweep_and_forget_spend io
              (remove_spend_credential removed (record w { listed = taken.left })))
    ended_after true h =
        sweep_and_forget_spend-ends io
          (remove_spend_credential true (record w { listed = taken.left })) all h
    ended_after false h = sweep_and_forget_spend-ends io (record w { listed = taken.left }) all h

narrowed :
    (w w' : World) (a : ℕ)
    → EndedFrom w w'
    → is_recorded w'.state a ≡ true
    → contains w'.minted 0 ≡ false
    → contains w'.minted a ≡ true
    → (w.state.receive_root_key_id == a || contains (named_by w.receive) a) ≡ true
narrowed w w' a (off, m, r, k, p) h z n = elim (Bool-cases (a == 0)) [
  | inl is ↦ let same : a ≡ 0 = ground arith in absurd (cc (z, rw same at n))
  | inr pos_key ↦ ground (arith, p a, k, off)
]

-- The kill switch. After any list of calls, as above: where the revocation then returns no error, and the node
-- answers each deletion of its sweep, sending is off, and each key that the node made for the guard and still
-- honours is the receive credential's, current or as its sidecar names it.
pub revoke_spend_revokes :
    (allow : Bool) (ks : List Call) (io : EndIo) (w : World)
    → w.minted ≡ []
    → ((x : ℕ) → io.deletions x ≡ answered)
    → (revoke_spend io (calls allow ks w)).0 ≡ true
    → (is_off (revoke_spend io (calls allow ks w)).1 ≡ true)
      × ((a : ℕ)
          → contains (calls allow ks w).minted a ≡ true
          → contains (revoke_spend io (calls allow ks w)).1.listed a ≡ true
          → ((calls allow ks w).state.receive_root_key_id == a
              || contains (named_by (calls allow ks w).receive) a)
            ≡ true)
revoke_spend_revokes allow ks io w e all h = (ended.0, λ a m l. left a m l)
  where
    w1 : World
    w1 = calls allow ks w

    ended : EndedFrom w1 (revoke_spend io w1).1
    ended = revoke_spend-ends io w1 all h

    named : Remembers (revoke_spend io w1).1
    named = revoke_spend-Remembers io w1 (calls-Remembers allow ks w (from_none w e))

    left :
        (a : ℕ)
        → contains w1.minted a ≡ true
        → contains (revoke_spend io w1).1.listed a ≡ true
        → (w1.state.receive_root_key_id == a || contains (named_by w1.receive) a) ≡ true
    left a m l =
        narrowed w1 (revoke_spend io w1).1 a ended (named.recorded a (rw (ended.1) m) l)
          (named.nonzero_minted) (rw (ended.1) m)
