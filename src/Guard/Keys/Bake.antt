-- ===== src/Guard/Keys/Bake.antt =====
-- guard/guard.go, `bake` and what it calls, with guard/rootkey.go. A crash between two of its steps leaves what
-- an error at every later one leaves.
use brollyzapper.Base.{
  ℕ, zero, suc, ◌+◌, ◌==◌, Bool, true, false, not, ◌&&◌, ◌||◌, Option, none, some, List, [], ◌∷◌,
  ◌++◌, leb, if◌then◌else◌,
}
use brollyzapper.Store.Rows.{Time}
use brollyzapper.Guard.Operator.Calls.{Write, saved}
use brollyzapper.Guard.Keys.Ids.{contains, delete_func}
use brollyzapper.Guard.Keys.World.{
  Macaroon, Credential, State, World, credential_lifetime, min_bake_interval, other_credential,
  guard_caveat, root_key_of, baked_at_of, record_bake, held, with_held, lacks_sidecar,
  sidecar_root_keys, credential_needs_baking,
}
use brollyzapper.Guard.Keys.Sweep.{Deletion, Swept, sweep_pending, on_save}

-- What becomes of a `BakeMacaroon`: the node creates the key and answers, creates it and the answer is lost, or
-- creates nothing.
pub data Minting : Type 0 where
  minted answer_lost not_minted : Minting

-- What the world answers within one bake, in the order in which it is asked. `draws` is what the random source
-- yields, counted by the attempts left, `none` where it fails; `checks` is whether the caveats were added and
-- read back (`AddCaveats`, `VerifyBaked`, `RequireCaveatValues`).
pub record BakeIo : Type 0 where
  pub loaded : Bool
  pub asked_again : Bool
  pub listing : Bool
  pub draws : ℕ → Option ℕ
  pub remembered : Write
  pub minting : Minting
  pub checks : Bool
  pub sidecar_written : Bool
  pub macaroon_written : Bool
  pub recorded : Write
  pub deletions : ℕ → Deletion
  pub forgotten : Write

abbrev pub root_key_attempts : ℕ
root_key_attempts = 8

-- `randomRootKeyID`: 0 is the node's default key.
abbrev pub nonzero : ℕ → ℕ
nonzero id = if id == 0 then 1 else id

abbrev pub drawn : Bool → ℕ → Option ℕ → Option ℕ
drawn taken id rest = if taken then rest else some id

unfoldable pub draw_unused : ℕ → (ℕ → Option ℕ) → List ℕ → Option ℕ
draw_unused zero draws in_use = none
draw_unused (suc n) draws in_use = elim (draws n) [
  | none ↦ none
  | some id ↦ drawn (contains in_use (nonzero id)) (nonzero id) (draw_unused n draws in_use)
]

unfoldable pub new_root_key_id : BakeIo → World → Option ℕ
unfolding draw_unused
new_root_key_id io w = if io.listing then draw_unused root_key_attempts io.draws w.listed else none

-- `wouldRepeatItself`; where the node cannot be asked again, the bake is not refused.
unfoldable pub would_repeat_itself : BakeIo → Credential → Time → World → Bool
unfolding credential_needs_baking
would_repeat_itself io c now w = elim (baked_at_of c w.state) [
  | none ↦ false
  | some at ↦
      not (leb (at + min_bake_interval) now)
      && not (credential_needs_baking c (root_key_of c w.state) now (held c w))
      && io.asked_again
      && contains w.listed (root_key_of c w.state)
]

abbrev pub remember : ℕ → State → State
remember id st = record st { pending_root_key_ids = st.pending_root_key_ids ++ id ∷ [] }

abbrev pub create_key : ℕ → World → World
create_key id w = record w { listed = id ∷ w.listed; minted = id ∷ w.minted }

abbrev pub baked : Credential → ℕ → Time → Macaroon
baked c id now = record {
  baked_under = id;
  is_hardened = true;
  has_guard_caveat = guard_caveat c;
  expiry = some (now + credential_lifetime);
}

abbrev pub write_sidecar : Credential → ℕ → World → World
write_sidecar c id w = with_held c (record (held c w) { sidecar = some id }) w

abbrev pub write_macaroon : Credential → ℕ → Time → World → World
write_macaroon c id now w = with_held c (record (held c w) { macaroon = some (baked c id now) }) w

-- The previous key joins the pending ones in the write that names the new one, which leaves them.
abbrev pub keep_previous : ℕ → ℕ → List ℕ → List ℕ
keep_previous previous id pending =
    if not (previous == 0) && not (previous == id) && not (contains pending previous)
    then pending ++ previous ∷ []
    else pending

abbrev pub leave_pending : ℕ → ℕ → State → State
leave_pending previous id st = record st {
  pending_root_key_ids =
      delete_func (λ x. x == id) (keep_previous previous id st.pending_root_key_ids);
}

abbrev pub record_new : Credential → ℕ → ℕ → Time → State → State
record_new c previous id now st = leave_pending previous id (record_bake c id now st)

abbrev pub spared_by_bake : Credential → List ℕ → World → List ℕ
spared_by_bake c pending w =
    if lacks_sidecar (held (other_credential c) w) then pending else sidecar_root_keys w

abbrev pub forget_gone : ℕ → List ℕ → State → State
forget_gone id kept st = record st {
  pending_root_key_ids =
      delete_func (λ x. not (x == id) && not (contains kept x)) st.pending_root_key_ids;
}

abbrev pub after_sweep : BakeIo → ℕ → Swept → World → World
after_sweep io id s w = on_save io.forgotten (forget_gone id s.kept) (record w { listed = s.left })

-- The bake is done: the keys that are superseded go. `before` is the state it began with.
unfoldable pub sweep_superseded : BakeIo → Credential → ℕ → State → World → World
unfolding sweep_pending lacks_sidecar sidecar_root_keys
sweep_superseded io c id before w =
    after_sweep io id
      (sweep_pending io.deletions id (spared_by_bake c before.pending_root_key_ids w)
        (before.pending_root_key_ids ++ root_key_of c before ∷ []) w.listed)
      w

-- Whether the bake returned no error, and what it left.
abbrev pub Ended : Type 0
Ended = Bool × World

-- After a write of the state: an error unless it was saved.
abbrev pub when_saved : Write → Ended → World → Ended
when_saved saved next w = next
when_saved _ next w = (false, w)

unfoldable pub record_key : BakeIo → Credential → ℕ → Time → State → World → Ended
unfolding sweep_superseded
record_key io c id now before w =
    when_saved io.recorded
      (
        true,
        sweep_superseded io c id before
            (record w { state = record_new c (root_key_of c before) id now w.state }),
      )
      w

unfoldable pub write_files : BakeIo → Credential → ℕ → Time → State → World → Ended
unfolding record_key
write_files io c id now before w =
    if not io.sidecar_written
    then (false, w)
    else if not io.macaroon_written
    then (false, write_sidecar c id w)
    else record_key io c id now before (write_macaroon c id now (write_sidecar c id w))

-- After the node is asked for the key.
abbrev pub when_minted : Minting → Ended → ℕ → World → Ended
when_minted minted next id w = next
when_minted answer_lost next id w = (false, create_key id w)
when_minted not_minted next id w = (false, w)

unfoldable pub ask_node : BakeIo → Credential → ℕ → Time → State → World → Ended
unfolding write_files
ask_node io c id now before w =
    when_minted io.minting
      (if io.checks
        then write_files io c id now before (create_key id w)
        else (false, create_key id w))
      id w

unfoldable pub bake_under : BakeIo → Credential → Time → Option ℕ → World → Ended
unfolding ask_node
bake_under io c now none w = (false, w)
bake_under io c now (some id) w =
    when_saved io.remembered
      (ask_node io c id now w.state (record w { state = remember id w.state })) w

unfoldable pub bake : BakeIo → Credential → Time → World → Ended
unfolding bake_under would_repeat_itself new_root_key_id
bake io c now w =
    if not io.loaded || would_repeat_itself io c now w
    then (false, w)
    else bake_under io c now (new_root_key_id io w) w
