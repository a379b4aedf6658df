-- ===== src/Tests/Keys.antt =====
-- The results on the guard's root keys: a bake that is interrupted, a sweep, and the kill switch.
use brollyzapper.Base.{
  ℕ, ◌≡◌, ◌==◌, refl, ◌+◌, ◌*◌, true, false, ◌||◌, Option, none, some, List, [], ◌∷◌,
}
use mathlib.Core.Option
use brollyzapper.Guard.Operator.Calls.{unsaved, saved}
use brollyzapper.Guard.Keys.Ids.{contains}
use brollyzapper.Guard.Keys.World.{Macaroon, Held, World, is_recorded, named_by, min_bake_interval}
use brollyzapper.Guard.Keys.Sweep.{answered, sweep_orphans}
use brollyzapper.Guard.Keys.Bake.{BakeIo, minted}
use brollyzapper.Guard.Keys.Sending.{EndIo, revoke_spend, Call, receive_baked, spend_baked, calls}
use brollyzapper.Guard.Keys.Switch.{is_off, no_key_forgotten, revoke_spend_revokes}
use brollyzapper.Tests.Fixtures.{noon}
use brollyzapper.Tests.Guard.{controls}

abbrev bare : Held
bare = record { macaroon = none; sidecar = none }

-- Nothing baked, and a node that honours its default key and another app's.
abbrev installed : World
installed = record {
  state = record {
    receive_root_key_id = 0;
    receive_baked_at = none;
    spend_root_key_id = 0;
    spend_baked_at = none;
    pending_root_key_ids = [];
    operator = record controls { sending_latch = true };
  };
  receive = bare;
  spend = bare;
  listed = 0 ∷ 7 ∷ [];
  minted = [];
}

-- A bake under `id` at which nothing fails.
abbrev smooth : ℕ → BakeIo
smooth id = record {
  loaded = true;
  asked_again = true;
  listing = true;
  draws = λ _. some id;
  remembered = saved;
  minting = minted;
  checks = true;
  sidecar_written = true;
  macaroon_written = true;
  recorded = saved;
  deletions = λ _. answered;
  forgotten = saved;
}

-- A bake that dies once the file is written.
abbrev unrecorded : ℕ → BakeIo
unrecorded id = record (smooth id) { recorded = unsaved }

abbrev ending : EndIo
ending = record {
  loaded = true;
  deletion = answered;
  removed = true;
  deletions = λ _. answered;
  cleared = saved;
}

abbrev history : List Call
history =
    receive_baked (smooth 10) noon
    ∷ spend_baked (smooth 20) noon
    ∷ receive_baked (unrecorded 11) (noon + min_bake_interval)
    ∷ []

no_key_forgotten_example : is_recorded (calls true history installed).state 11 ≡ true
unfolding calls
no_key_forgotten_example = no_key_forgotten true history installed refl 11 refl refl

revoke_spend_revokes_example :
    (is_off (revoke_spend ending (calls true history installed)).1 ≡ true)
    × ((a : ℕ)
        → contains (calls true history installed).minted a ≡ true
        → contains (revoke_spend ending (calls true history installed)).1.listed a ≡ true
        → ((calls true history installed).state.receive_root_key_id == a
            || contains (named_by (calls true history installed).receive) a)
          ≡ true)
unfolding calls revoke_spend
revoke_spend_revokes_example =
    revoke_spend_revokes true history ending installed refl (λ x. refl) refl

-- A second bake dies between its two files: the sidecar names a key of no file, and the next sweep deletes the
-- key of the file on disk.
abbrev interrupted : BakeIo
interrupted = record (smooth 12) { macaroon_written = false }

abbrev twice_interrupted : World
twice_interrupted =
    calls true
      (receive_baked (smooth 10) noon
        ∷ receive_baked (unrecorded 11) (noon + min_bake_interval)
        ∷ receive_baked interrupted (noon + 2 * min_bake_interval)
        ∷ [])
      installed

abbrev key_on_disk : World → Option ℕ
key_on_disk w = Option.map (λ (m : Macaroon). m.baked_under) w.receive.macaroon

twice_interrupted_file : key_on_disk twice_interrupted ≡ some 11
unfolding calls
twice_interrupted_file = refl

twice_interrupted_swept :
    contains (sweep_orphans true (λ _. answered) saved twice_interrupted).listed 11 ≡ false
unfolding calls sweep_orphans
twice_interrupted_swept = refl
