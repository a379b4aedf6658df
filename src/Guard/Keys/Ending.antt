-- ===== src/Guard/Keys/Ending.antt =====
-- Sweeping, ending sending and looking after the credentials forget no key; and any list of calls.
use brollyzapper.Base.{
  ℕ, ◌==◌, ◌≡◌, Bool, true, false, not, ◌&&◌, ◌||◌, none, some, List, if-both, arith, Bool-cases,
  inl, inr,
}
use brollyzapper.Store.Rows.{Time}
use brollyzapper.Guard.Operator.Calls.{Write}
use brollyzapper.Guard.Keys.Ids.{contains, contains-delete_func}
use brollyzapper.Guard.Keys.World.{
  receive_credential, spend_credential, State, World, is_recorded, named_by, lacks_sidecar,
  credential_needs_baking,
}
use brollyzapper.Guard.Keys.Sweep.{
  Deletion, Revoked, revoke_at_node, sweep_pending, forget_swept, orphans_spared, sweep_orphans,
}
use brollyzapper.Guard.Keys.Bake.{BakeIo, Ended}
use brollyzapper.Guard.Keys.Sending.{
  EndIo, sending_enabled, remove_spend_credential, clear_spend_state, sweep_and_forget_spend,
  remove_unrecorded, end_revoked, revoke_spend, accept_external_revocation, EnsureIo, node_forgot,
  ensure_receive_macaroon, spend_credential_is_obsolete, sending_permitted, bake_spend,
  ensure_spend_macaroon,
}
use brollyzapper.Guard.Keys.Revoking.{
  sweep_pending-left, sweep_pending-gone, revoke_at_node-left, revoke_at_node-gone,
}
use brollyzapper.Guard.Keys.Remembered.{Remembers, Remembers-listed, minted_pos, on_save-Remembers}
use brollyzapper.Guard.Keys.Baking.{bake-Remembers}

pub sweep_orphans-Remembers :
    (loaded : Bool) (del : ℕ → Deletion) (forgotten : Write) (w : World)
    → Remembers w
    → Remembers (sweep_orphans loaded del forgotten w)
unfolding sweep_orphans
sweep_orphans-Remembers loaded del forgotten w r =
    if-both Remembers (not loaded || lacks_sidecar w.receive || lacks_sidecar w.spend) (λ _. r)
      (λ _.
        on_save-Remembers del 0 (orphans_spared w) w.state.pending_root_key_ids
          (forget_swept w.state.pending_root_key_ids kept) forgotten w
          (λ a m l h. ground (
            arith,
            minted_pos w a r m,
            sweep_pending-gone del 0 (orphans_spared w) w.state.pending_root_key_ids w.listed a,
            contains-delete_func
                (λ id. contains w.state.pending_root_key_ids id && not (contains kept id))
                w.state.pending_root_key_ids a,
          ))
          r)
  where
    kept : List ℕ
    kept = (sweep_pending del 0 (orphans_spared w) w.state.pending_root_key_ids w.listed).kept

-- The spend key is not one that the node honours.
abbrev IsEnded : World → Type 0
IsEnded w =
    contains w.listed w.state.spend_root_key_id ≡ true → (w.state.spend_root_key_id == 0) ≡ true

cleared :
    (io : EndIo) (w : World) (a : ℕ)
    → Remembers w
    → IsEnded w
    → contains w.minted a ≡ true
    → contains
        (sweep_pending io.deletions 0
          (named_by w.receive)
          w.state.pending_root_key_ids
          w.listed).left
        a
      ≡ true
    → is_recorded w.state a ≡ true
    → is_recorded
        (clear_spend_state
          (sweep_pending io.deletions 0
            (named_by w.receive)
            w.state.pending_root_key_ids
            w.listed).kept
          w.state)
        a
      ≡ true
unfolding clear_spend_state
cleared io w a r e m l h = elim (Bool-cases (w.state.spend_root_key_id == a)) [
  | inl is ↦ absurd (spent is)
  | inr other ↦ ground (
    arith,
    minted_pos w a r m,
    sweep_pending-gone io.deletions 0 (named_by w.receive) w.state.pending_root_key_ids w.listed a,
  )
]
  where
    spent : (w.state.spend_root_key_id == a) ≡ true → ⊥
    spent is =
        let same : w.state.spend_root_key_id ≡ a = ground arith in
        let here : contains w.listed a ≡ true =
          sweep_pending-left io.deletions 0 (named_by w.receive) w.state.pending_root_key_ids
            w.listed a l in
        let zero_key : (w.state.spend_root_key_id == 0) ≡ true = e (rw same here) in
        cc (minted_pos w a r m, rw same at zero_key)

sweep_and_forget_spend-Remembers :
    (io : EndIo) (w : World) → IsEnded w → Remembers w → Remembers (sweep_and_forget_spend io w).1
unfolding sweep_and_forget_spend
sweep_and_forget_spend-Remembers io w e r =
    on_save-Remembers io.deletions 0 (named_by w.receive) w.state.pending_root_key_ids
      (clear_spend_state
        (sweep_pending io.deletions 0 (named_by w.receive) w.state.pending_root_key_ids
          w.listed).kept)
      io.cleared w (λ a m l h. cleared io w a r e m l h) r

removed-Remembers :
    (removed : Bool) (w : World) → Remembers w → Remembers (remove_spend_credential removed w)
removed-Remembers true w r = record { nonzero_minted = r.nonzero_minted; recorded = r.recorded }
removed-Remembers false w r = r

removed-IsEnded :
    (removed : Bool) (w : World) → IsEnded w → IsEnded (remove_spend_credential removed w)
removed-IsEnded true w e = e
removed-IsEnded false w e = e

remove_unrecorded-Remembers :
    (io : EndIo) (e : Ended) → Remembers e.1 → Remembers (remove_unrecorded io e).1
remove_unrecorded-Remembers io (false, w) r = r
remove_unrecorded-Remembers io (true, w) r =
    elim w.spend.macaroon
      as (λ m. Remembers (
        let e : Ended = elim m [
          | none ↦ (true, w)
          | some _ ↦ (false, remove_spend_credential io.removed w)
        ] in
        e.1)) [ none ↦ r | some _ ↦ removed-Remembers io.removed w r ]

end_revoked-Remembers :
    (io : EndIo) (d : Deletion) (w : World)
    → Remembers w
    → Remembers (end_revoked io (revoke_at_node d w.state.spend_root_key_id w.listed) w).1
end_revoked-Remembers io d w r =
    if-both (λ (e : Ended). Remembers e.1) taken.gone
      (λ g.
        sweep_and_forget_spend-Remembers io (remove_spend_credential io.removed shorter)
          (removed-IsEnded io.removed shorter
            (λ h. absurd (cc (h, revoke_at_node-gone d w.state.spend_root_key_id w.listed g))))
          (removed-Remembers io.removed shorter less))
      (λ _. less)
  where
    taken : Revoked
    taken = revoke_at_node d w.state.spend_root_key_id w.listed

    shorter : World
    shorter = record w { listed = taken.left }

    less : Remembers shorter
    less =
        Remembers-listed w taken.left (revoke_at_node-left d w.state.spend_root_key_id w.listed) r

pub revoke_spend-Remembers :
    (io : EndIo) (w : World) → Remembers w → Remembers (revoke_spend io w).1
unfolding revoke_spend
revoke_spend-Remembers io w r =
    if-both (λ (e : Ended). Remembers e.1) (not io.loaded) (λ _. r)
      (λ _.
        if-both (λ (e : Ended). Remembers e.1) (sending_enabled w.state)
          (λ _. end_revoked-Remembers io io.deletion w r)
          (λ off.
            remove_unrecorded-Remembers io (sweep_and_forget_spend io w)
              (sweep_and_forget_spend-Remembers io w (λ _. disabled w.state off) r)))
  where
    disabled : (st : State) → sending_enabled st ≡ false → (st.spend_root_key_id == 0) ≡ true
    disabled st h = ground arith

pub accept_external_revocation-Remembers :
    (io : EndIo) (forgotten : ℕ) (w : World)
    → contains w.listed forgotten ≡ false
    → Remembers w
    → Remembers (accept_external_revocation io forgotten w).1
unfolding accept_external_revocation
accept_external_revocation-Remembers io forgotten w n r =
    if-both (λ (e : Ended). Remembers e.1) (not io.loaded) (λ _. r)
      (λ _.
        if-both (λ (e : Ended). Remembers e.1) (not (w.state.spend_root_key_id == forgotten))
          (λ _. r)
          (λ same.
            sweep_and_forget_spend-Remembers io (remove_spend_credential io.removed w)
              (removed-IsEnded io.removed w (gone same)) (removed-Remembers io.removed w r)))
  where
    gone : not (w.state.spend_root_key_id == forgotten) ≡ false → IsEnded w
    gone same h =
        let e : w.state.spend_root_key_id ≡ forgotten = ground arith in absurd (cc (n, rw e at h))

pub ensure_receive_macaroon-Remembers :
    (io : EnsureIo) (now : Time) (w : World)
    → Remembers w
    → Remembers (ensure_receive_macaroon io now w).1
unfolding ensure_receive_macaroon
ensure_receive_macaroon-Remembers io now w r =
    if-both (λ (e : Ended). Remembers e.1) _
      (λ _. bake-Remembers io.bake_io receive_credential now w r) (λ _. r)

pub bake_spend-Remembers :
    (allow : Bool) (io : BakeIo) (now : Time) (w : World)
    → Remembers w
    → Remembers (bake_spend allow io now w).1
unfolding bake_spend
bake_spend-Remembers allow io now w r =
    if-both (λ (e : Ended). Remembers e.1) _ (λ _. bake-Remembers io spend_credential now w r)
      (λ _. r)

pub ensure_spend_macaroon-Remembers :
    (allow : Bool) (io : EnsureIo) (now : Time) (w : World)
    → Remembers w
    → Remembers (ensure_spend_macaroon allow io now w).1
unfolding ensure_spend_macaroon
ensure_spend_macaroon-Remembers allow io now w r =
    if-both P (not io.loaded) (λ _. r)
      (λ _.
        if-both P (spend_credential_is_obsolete w.spend)
          (λ _.
            if-both P (sending_permitted allow w.state)
              (λ _. bake-Remembers io.bake_io spend_credential now w r)
              (λ _. revoke_spend-Remembers io.end_io w r))
          (λ _.
            if-both P (not (sending_enabled w.state)) (λ _. r)
              (λ _.
                if-both P (not (sending_permitted allow w.state)) (λ _. r)
                  (λ _.
                    if-both P (node_forgot io.asked w.state.spend_root_key_id w.listed)
                      (λ f.
                        accept_external_revocation-Remembers io.end_io w.state.spend_root_key_id w
                          (forgotten f) r)
                      (λ _.
                        if-both P
                          (credential_needs_baking spend_credential w.state.spend_root_key_id now
                            w.spend)
                          (λ _. bake-Remembers io.bake_io spend_credential now w r) (λ _. r))))))
  where
    P : Ended → Type 0
    P e = Remembers e.1

    forgotten :
        node_forgot io.asked w.state.spend_root_key_id w.listed ≡ true
        → contains w.listed w.state.spend_root_key_id ≡ false
    forgotten f = ground arith
