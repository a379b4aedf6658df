-- ===== src/Guard/Keys/Sweep.antt =====
-- guard/guard.go, `sweepPending` and `revokePrevious`, and guard/orphans.go, `sweepOrphans`.
use brollyzapper.Base.{
  ℕ, ◌+◌, ◌==◌, Bool, true, false, not, ◌&&◌, ◌||◌, List, [], ◌∷◌, if◌then◌else◌,
}
use brollyzapper.Guard.Operator.Calls.{Write, saved}
use brollyzapper.Guard.Keys.Ids.{contains, delete_func}
use brollyzapper.Guard.Keys.World.{State, World, lacks_sidecar, sidecar_root_keys}

-- What becomes of a `DeleteMacaroonID`: the node answers, or the call is an error and the key is gone or not.
pub data Deletion : Type 0 where
  answered lost undone : Deletion

abbrev pub without : ℕ → List ℕ → List ℕ
without id = delete_func (λ x. x == id)

-- One key: whether it is gone, whether this call deleted it, and the node's list.
pub record Revoked : Type 0 where
  pub gone : Bool
  pub deleted : Bool
  pub left : List ℕ

abbrev pub revoke_at_node : Deletion → ℕ → List ℕ → Revoked
revoke_at_node answered id listed = record {
  gone = true;
  deleted = contains listed id;
  left = without id listed;
}
revoke_at_node lost id listed = record { gone = false; deleted = false; left = without id listed }
revoke_at_node undone id listed = record { gone = false; deleted = false; left = listed }

unfoldable pub revoke_previous : (ℕ → Deletion) → ℕ → ℕ → List ℕ → Revoked
revoke_previous del current id listed =
    if id == 0 || id == current
    then record { gone = true; deleted = false; left = listed }
    else revoke_at_node (del id) id listed

pub record Swept : Type 0 where
  pub kept : List ℕ
  pub revoked : ℕ
  pub left : List ℕ

-- What the rest of a sweep found, with the key before it.
abbrev pub counted : ℕ → Revoked → Swept → Swept
counted id r s = record s {
  kept = if r.gone then s.kept else id ∷ s.kept;
  revoked = if r.deleted then s.revoked + 1 else s.revoked;
}

abbrev pub try_revoke : (ℕ → Deletion) → ℕ → List ℕ → ℕ → List ℕ → Revoked
try_revoke del current spare id listed =
    if contains spare id
    then record { gone = false; deleted = false; left = listed }
    else revoke_previous del current id listed

unfoldable pub sweep_pending : (ℕ → Deletion) → ℕ → List ℕ → List ℕ → List ℕ → Swept
unfolding revoke_previous
sweep_pending del current spare [] listed = record { kept = []; revoked = 0; left = listed }
sweep_pending del current spare (id ∷ ids) listed =
    counted id (try_revoke del current spare id listed)
      (sweep_pending del current spare ids (try_revoke del current spare id listed).left)

-- A write of the state, where it is saved.
abbrev pub on_save : Write → (State → State) → World → World
on_save saved f w = record w { state = f w.state }
on_save _ f w = w

abbrev pub forget_swept : List ℕ → List ℕ → State → State
forget_swept swept kept st = record st {
  pending_root_key_ids =
      delete_func (λ id. contains swept id && not (contains kept id)) st.pending_root_key_ids;
}

abbrev pub orphans_spared : World → List ℕ
orphans_spared w = w.state.receive_root_key_id ∷ w.state.spend_root_key_id ∷ sidecar_root_keys w

abbrev pub after_orphans : Write → Swept → World → World
after_orphans forgotten s w =
    on_save forgotten (forget_swept w.state.pending_root_key_ids s.kept)
      (record w { listed = s.left })

-- `sweepOrphans`: `loaded` says whether the state could be read.
unfoldable pub sweep_orphans : Bool → (ℕ → Deletion) → Write → World → World
unfolding sweep_pending lacks_sidecar sidecar_root_keys
sweep_orphans loaded del forgotten w =
    if not loaded || lacks_sidecar w.receive || lacks_sidecar w.spend
    then w
    else after_orphans forgotten
        (sweep_pending del 0 (orphans_spared w) w.state.pending_root_key_ids w.listed) w
