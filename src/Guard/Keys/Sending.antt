-- ===== src/Guard/Keys/Sending.antt =====
-- guard/spend.go: what ends sending, and what renews its credential. The sentences of the trail are left out.
use brollyzapper.Base.{
  ℕ, ◌==◌, Bool, true, false, not, ◌&&◌, ◌||◌, none, some, List, [], ◌∷◌, if◌then◌else◌,
}
use brollyzapper.Base.Int.{pos}
use brollyzapper.Store.Rows.{Time}
use brollyzapper.Guard.Operator.Rules.{Change, sending, apply}
use brollyzapper.Guard.Operator.Calls.{Write, saved}
use brollyzapper.Guard.Keys.Ids.{contains}
use brollyzapper.Guard.Keys.World.{
  Held, receive_credential, spend_credential, State, World, named_by, sidecar_of,
  credential_needs_baking,
}
use brollyzapper.Guard.Keys.Sweep.{
  Deletion, Revoked, revoke_at_node, Swept, sweep_pending, on_save, sweep_orphans, without,
}
use brollyzapper.Guard.Keys.Bake.{BakeIo, Ended, bake}

-- What the world answers while sending is ended: the load, the spend key's deletion, the removal of the file,
-- the sweep and the write.
pub record EndIo : Type 0 where
  pub loaded : Bool
  pub deletion : Deletion
  pub removed : Bool
  pub deletions : ℕ → Deletion
  pub cleared : Write

unfoldable pub sending_enabled : State → Bool
sending_enabled st = not (st.spend_root_key_id == 0)

abbrev pub remove_spend_credential : Bool → World → World
remove_spend_credential removed w =
    if removed then record w { spend = record w.spend { macaroon = none } } else w

abbrev pub sending_off : Change
sending_off = record { control = sending; on = false; msat = pos 0 }

unfoldable pub clear_spend_state : List ℕ → State → State
unfolding apply
clear_spend_state kept st = record st {
  spend_root_key_id = 0;
  spend_baked_at = none;
  pending_root_key_ids = kept;
  operator = apply sending_off st.operator;
}

abbrev pub is_saved : Write → Bool
is_saved saved = true
is_saved _ = false

abbrev pub after_end : Write → Swept → World → Ended
after_end cleared s w =
    (is_saved cleared, on_save cleared (clear_spend_state s.kept) (record w { listed = s.left }))

unfoldable pub sweep_and_forget_spend : EndIo → World → Ended
unfolding clear_spend_state sweep_pending sidecar_of
sweep_and_forget_spend io w =
    after_end io.cleared
      (sweep_pending io.deletions 0 (named_by w.receive) w.state.pending_root_key_ids w.listed) w

-- With no key on record: a credential that is removed here is an error all the same.
abbrev pub remove_unrecorded : EndIo → Ended → Ended
remove_unrecorded io (false, w) = (false, w)
remove_unrecorded io (true, w) = elim w.spend.macaroon [
  | none ↦ (true, w)
  | some _ ↦ (false, remove_spend_credential io.removed w)
]

abbrev pub end_revoked : EndIo → Revoked → World → Ended
end_revoked io r w =
    if r.gone
    then sweep_and_forget_spend io
        (remove_spend_credential io.removed (record w { listed = r.left }))
    else (false, record w { listed = r.left })

unfoldable pub revoke_spend : EndIo → World → Ended
unfolding sending_enabled sweep_and_forget_spend
revoke_spend io w =
    if not io.loaded
    then (false, w)
    else if sending_enabled w.state
    then end_revoked io (revoke_at_node io.deletion w.state.spend_root_key_id w.listed) w
    else remove_unrecorded io (sweep_and_forget_spend io w)

unfoldable pub accept_external_revocation : EndIo → ℕ → World → Ended
unfolding sweep_and_forget_spend
accept_external_revocation io forgotten w =
    if not io.loaded
    then (false, w)
    else if not (w.state.spend_root_key_id == forgotten)
    then (true, w)
    else sweep_and_forget_spend io (remove_spend_credential io.removed w)

-- What the world answers while a credential is looked after: `asked` is whether the node lists its keys.
pub record EnsureIo : Type 0 where
  pub loaded : Bool
  pub asked : Bool
  pub bake_io : BakeIo
  pub end_io : EndIo

-- `nodeForgotReceiveKey` and `nodeForgotSpendKey`: unknown is not forgotten.
abbrev pub node_forgot : Bool → ℕ → List ℕ → Bool
node_forgot asked id listed = not (id == 0) && asked && not (contains listed id)

-- `receiveMacaroonNeedsBaking` counts a state that cannot be read as a reason.
unfoldable pub ensure_receive_macaroon : EnsureIo → Time → World → Ended
unfolding bake credential_needs_baking
ensure_receive_macaroon io now w =
    if not io.loaded
      || credential_needs_baking receive_credential w.state.receive_root_key_id now w.receive
      || node_forgot io.asked w.state.receive_root_key_id w.listed
    then bake io.bake_io receive_credential now w
    else (true, w)

-- The file is there and lets the node honour it without the guard.
unfoldable pub spend_credential_is_obsolete : Held → Bool
spend_credential_is_obsolete h = elim h.macaroon [ none ↦ false | some m ↦ not m.has_guard_caveat ]

abbrev pub sending_permitted : Bool → State → Bool
sending_permitted allow_sending st = allow_sending && st.operator.sending_latch

unfoldable pub bake_spend : Bool → BakeIo → Time → World → Ended
unfolding bake
bake_spend allow_sending io now w =
    if io.loaded && sending_permitted allow_sending w.state
    then bake io spend_credential now w
    else (false, w)

abbrev pub replace_or_revoke : Bool → EnsureIo → Time → World → Ended
replace_or_revoke allow_sending io now w =
    if sending_permitted allow_sending w.state
    then bake io.bake_io spend_credential now w
    else revoke_spend io.end_io w

unfoldable pub ensure_spend_macaroon : Bool → EnsureIo → Time → World → Ended
unfolding bake revoke_spend accept_external_revocation credential_needs_baking
    spend_credential_is_obsolete sending_enabled
ensure_spend_macaroon allow_sending io now w =
    if not io.loaded
    then (false, w)
    else if spend_credential_is_obsolete w.spend
    then replace_or_revoke allow_sending io now w
    else if not (sending_enabled w.state)
    then (true, w)
    else if not (sending_permitted allow_sending w.state)
    then (true, w)
    else if node_forgot io.asked w.state.spend_root_key_id w.listed
    then accept_external_revocation io.end_io w.state.spend_root_key_id w
    else if credential_needs_baking spend_credential w.state.spend_root_key_id now w.spend
    then bake io.bake_io spend_credential now w
    else (true, w)

-- What reaches the guard's keys: its own calls, one at a time under `bakeMu`, and a key that somebody else
-- deletes at the node.
pub data Call : Type 0 where
  receive_baked : BakeIo → Time → Call
  spend_baked : BakeIo → Time → Call
  receive_ensured : EnsureIo → Time → Call
  spend_ensured : EnsureIo → Time → Call
  spend_revoked : EndIo → Call
  orphans_swept : Bool → (ℕ → Deletion) → Write → Call
  deleted_at_node : ℕ → Call

unfoldable pub call : Bool → Call → World → World
unfolding bake bake_spend ensure_receive_macaroon ensure_spend_macaroon revoke_spend sweep_orphans
call allow (receive_baked io now) w = (bake io receive_credential now w).1
call allow (spend_baked io now) w = (bake_spend allow io now w).1
call allow (receive_ensured io now) w = (ensure_receive_macaroon io now w).1
call allow (spend_ensured io now) w = (ensure_spend_macaroon allow io now w).1
call allow (spend_revoked io) w = (revoke_spend io w).1
call allow (orphans_swept loaded del forgotten) w = sweep_orphans loaded del forgotten w
call allow (deleted_at_node id) w = record w { listed = without id w.listed }

unfoldable pub calls : Bool → List Call → World → World
unfolding call
calls allow [] w = w
calls allow (k ∷ ks) w = calls allow ks (call allow k w)
