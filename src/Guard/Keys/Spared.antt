-- ===== src/Guard/Keys/Spared.antt =====
-- Which keys a sweep leaves alone.
use brollyzapper.Base.{ℕ, ◌==◌, ◌≡◌, Bool, true, false, not, ◌&&◌, ◌||◌}
use brollyzapper.Store.Rows.{Time}
use brollyzapper.Guard.Keys.Ids.{contains}
use brollyzapper.Guard.Keys.World.{
  Credential, State, World, other_credential, root_key_of, held, lacks_sidecar, named_by,
}
use brollyzapper.Guard.Keys.Bake.{BakeIo, Ended}

-- What a sweep goes by, in place of the macaroon itself: the key is not the other credential's current one,
-- and where it is pending, the credential's sidecar names it or there is no sidecar to go by. After two
-- interrupted bakes the key of the file itself need not be such a key.
unfoldable pub is_protected : Credential → World → ℕ → Bool
is_protected c w k =
    not (root_key_of (other_credential c) w.state == k)
    && (not (contains w.state.pending_root_key_ids k)
        || lacks_sidecar (held c w)
        || contains (named_by (held c w)) k)

abbrev Lists : ℕ → Ended → Type 0
Lists k e = contains e.1.listed k ≡ true

module _ (io : BakeIo) (id : ℕ) (now : Time) (before : State) (k : ℕ) where
  -- What is asked of the other credential while one is baked.
  abbrev IsSpared : Credential → World → Type 0
  IsSpared c w =
      ((root_key_of c before == k) ≡ false)
      × ((not (contains before.pending_root_key_ids k)
            || lacks_sidecar (held (other_credential c) w)
            || contains (named_by (held (other_credential c) w)) k)
          ≡ true)
      × (contains w.listed k ≡ true)
