-- ===== src/Guard/Keys/Baking.antt =====
-- A bake forgets no key, wherever it stops.
use brollyzapper.Base.{
  ℕ, ◌==◌, ◌≡◌, refl, true, false, not, ◌&&◌, ◌||◌, Option, none, some, List, [], ◌∷◌, ◌++◌,
  if-both, zero, suc, arith, Bool-cases, inl, inr, subst, sym,
}
use brollyzapper.Store.Rows.{Time}
use brollyzapper.Guard.Operator.Calls.{Write, unread, unsaved, saved}
use brollyzapper.Guard.Keys.Ids.{contains, contains-snoc, contains-delete_func}
use brollyzapper.Guard.Keys.World.{
  Held, Credential, receive_credential, spend_credential, State, World, root_key_of, is_recorded,
  with_held,
}
use brollyzapper.Guard.Keys.Sweep.{sweep_pending}
use brollyzapper.Guard.Keys.Bake.{
  Minting, minted, answer_lost, not_minted, BakeIo, draw_unused, new_root_key_id,
  would_repeat_itself, remember, create_key, write_sidecar, write_macaroon, record_new,
  spared_by_bake, forget_gone, sweep_superseded, Ended, record_key, when_saved, when_minted,
  write_files, ask_node, bake_under, bake, root_key_attempts,
}
use brollyzapper.Guard.Keys.Revoking.{sweep_pending-gone}
use brollyzapper.Guard.Keys.Remembered.{Remembers, minted_pos, on_save-Remembers}
use brollyzapper.Guard.Keys.Recording.{record_new-keeps, record_new-pending, record_new-current}

when_saved-keeps :
    (P : World → Type 0) (wr : Write) (next : Ended) (w : World)
    → P next.1
    → P w
    → P (when_saved wr next w).1
when_saved-keeps P saved next w h k = h
when_saved-keeps P unsaved next w h k = k
when_saved-keeps P unread next w h k = k

when_minted-keeps :
    (P : World → Type 0) (m : Minting) (next : Ended) (id : ℕ) (w : World)
    → P next.1
    → P (create_key id w)
    → P w
    → P (when_minted m next id w).1
when_minted-keeps P minted next id w h k l = h
when_minted-keeps P answer_lost next id w h k l = k
when_minted-keeps P not_minted next id w h k l = l

-- Over the state of a bake that is recorded.
module _ (io : BakeIo) (c : Credential) (id : ℕ) (now : Time) (before : State) where
  abbrev named : State
  named = record_new c (root_key_of c before) id now (remember id before)

  forget_gone-recorded :
      (kept : List ℕ) (a : ℕ)
      → is_recorded named a ≡ true
      → (contains named.pending_root_key_ids a ≡ true → contains kept a ≡ false → (a == id) ≡ true)
      → is_recorded (forget_gone id kept named) a ≡ true
  forget_gone-recorded kept a h g = elim (Bool-cases (a == id)) [
    | inl e ↦
        let same : a ≡ id = ground arith in
        subst (λ x. is_recorded (forget_gone id kept named) x ≡ true) (sym same)
          (record_new-current c id now before (forget_gone id kept named))
    | inr n ↦ ground (
      arith,
      g,
      contains-delete_func (λ x. not (x == id) && not (contains kept x)) named.pending_root_key_ids
          a,
    )
  ]

  sweep_superseded-Remembers :
      (w : World)
      → Remembers (record w { state = named })
      → Remembers (sweep_superseded io c id before (record w { state = named }))
  unfolding sweep_superseded
  sweep_superseded-Remembers w r =
      on_save-Remembers io.deletions id spare ids (forget_gone id kept) io.forgotten
        (record w { state = named })
        (λ a m l h. forget_gone-recorded kept a h (λ p k. ground (
          arith,
          minted_pos (record w { state = named }) a r m,
          sweep_pending-gone io.deletions id spare ids w.listed a
              (record_new-pending c id now before a p) k l,
        )))
        r
    where
      spare : List ℕ
      spare = spared_by_bake c before.pending_root_key_ids (record w { state = named })

      ids : List ℕ
      ids = before.pending_root_key_ids ++ root_key_of c before ∷ []

      kept : List ℕ
      kept = (sweep_pending io.deletions id spare ids w.listed).kept

  abbrev remembered : World → World
  remembered w = record w { state = remember id before }

  record_key-Remembers :
      (w : World)
      → Remembers (remembered w)
      → Remembers (record_key io c id now before (remembered w)).1
  unfolding record_key
  record_key-Remembers w r =
      when_saved-keeps Remembers io.recorded _ _
        (sweep_superseded-Remembers w (record {
          nonzero_minted = r.nonzero_minted;
          recorded = λ a m l.
              record_new-keeps id now before c a (minted_pos (remembered w) a r m)
                (r.recorded a m l);
        }))
        r

-- The files are no part of the record.
with_held-Remembers :
    (c : Credential) (h : Held) (w : World) → Remembers w → Remembers (with_held c h w)
with_held-Remembers receive_credential h w r = record {
  nonzero_minted = r.nonzero_minted;
  recorded = r.recorded;
}
with_held-Remembers spend_credential h w r = record {
  nonzero_minted = r.nonzero_minted;
  recorded = r.recorded;
}

module _ (io : BakeIo) (id : ℕ) (now : Time) (before : State) where
  filed-Remembers :
      (c : Credential) (w : World)
      → Remembers (remembered io c id now before w)
      → Remembers
          (record_key io c id now before
            (write_macaroon c id now (write_sidecar c id (remembered io c id now before w)))).1
  filed-Remembers receive_credential w r =
      record_key-Remembers io receive_credential id now before
        (write_macaroon receive_credential id now (write_sidecar receive_credential id w))
        (record { nonzero_minted = r.nonzero_minted; recorded = r.recorded })
  filed-Remembers spend_credential w r =
      record_key-Remembers io spend_credential id now before
        (write_macaroon spend_credential id now (write_sidecar spend_credential id w))
        (record { nonzero_minted = r.nonzero_minted; recorded = r.recorded })

  write_files-Remembers :
      (c : Credential) (w : World)
      → Remembers (remembered io c id now before w)
      → Remembers (write_files io c id now before (remembered io c id now before w)).1
  unfolding write_files
  write_files-Remembers c w r =
      if-both (λ (e : Ended). Remembers e.1) (not io.sidecar_written) (λ _. r)
        (λ _.
          if-both (λ (e : Ended). Remembers e.1) (not io.macaroon_written)
            (λ _. with_held-Remembers c _ _ r) (λ _. filed-Remembers c w r))

  -- The key that the node makes is already among the pending ones.
  create_key-Remembers :
      (w : World)
      → (id == 0) ≡ false
      → Remembers (record w { state = remember id before })
      → Remembers (create_key id (record w { state = remember id before }))
  create_key-Remembers w z r = record {
    nonzero_minted = ground (arith, r.nonzero_minted);
    recorded =
        λ a m l. ground (arith, r.recorded a, contains-snoc before.pending_root_key_ids id a);
  }

  ask_node-Remembers :
      (c : Credential) (w : World)
      → (id == 0) ≡ false
      → Remembers (record w { state = remember id before })
      → Remembers (ask_node io c id now before (record w { state = remember id before })).1
  unfolding ask_node
  ask_node-Remembers c w z r =
      when_minted-keeps Remembers io.minting _ id _
        (if-both (λ (e : Ended). Remembers e.1) io.checks
          (λ _. write_files-Remembers c (create_key id w) (create_key-Remembers w z r))
          (λ _. create_key-Remembers w z r))
        (create_key-Remembers w z r) r

draw_unused-pos :
    (n : ℕ) (draws : ℕ → Option ℕ) (in_use : List ℕ) (id : ℕ)
    → draw_unused n draws in_use ≡ some id
    → (id == 0) ≡ false
unfolding draw_unused
draw_unused-pos zero draws in_use id h = absurd (cc)
draw_unused-pos (suc n) draws in_use id h = ground (arith, draw_unused-pos n draws in_use id)

pub new_root_key_id-pos :
    (io : BakeIo) (w : World) (id : ℕ) → new_root_key_id io w ≡ some id → (id == 0) ≡ false
unfolding new_root_key_id
new_root_key_id-pos io w id h =
    ground (arith, draw_unused-pos root_key_attempts io.draws w.listed id)

remember-Remembers :
    (id : ℕ) (w : World) → Remembers w → Remembers (record w { state = remember id w.state })
remember-Remembers id w r = record {
  nonzero_minted = r.nonzero_minted;
  recorded = λ a m l. ground (arith, r.recorded a, contains-snoc w.state.pending_root_key_ids id a);
}

bake_under-Remembers :
    (io : BakeIo) (c : Credential) (now : Time) (drawn_id : Option ℕ) (w : World)
    → ((id : ℕ) → drawn_id ≡ some id → (id == 0) ≡ false)
    → Remembers w
    → Remembers (bake_under io c now drawn_id w).1
unfolding bake_under
bake_under-Remembers io c now none w z r = r
bake_under-Remembers io c now (some id) w z r =
    when_saved-keeps Remembers io.remembered _ _
      (ask_node-Remembers io id now w.state c w (z id refl) (remember-Remembers id w r)) r

-- Whatever fails, and wherever a bake stops.
pub bake-Remembers :
    (io : BakeIo) (c : Credential) (now : Time) (w : World)
    → Remembers w
    → Remembers (bake io c now w).1
unfolding bake
bake-Remembers io c now w r =
    if-both (λ (e : Ended). Remembers e.1) (not io.loaded || would_repeat_itself io c now w)
      (λ _. r)
      (λ _. bake_under-Remembers io c now (new_root_key_id io w) w (new_root_key_id-pos io w) r)
