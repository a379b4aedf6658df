-- ===== src/Guard/Keys/Remembered.antt =====
-- No key is forgotten: each key that the node made for the guard, and still honours, is one that the guard's
-- record names, so that it can be revoked.
use brollyzapper.Base.{ℕ, ◌==◌, ◌≡◌, true, false, List, arith, Bool-cases, inl, inr}
use brollyzapper.Guard.Operator.Calls.{Write, unread, unsaved, saved}
use brollyzapper.Guard.Keys.Ids.{contains}
use brollyzapper.Guard.Keys.World.{State, World, is_recorded}
use brollyzapper.Guard.Keys.Sweep.{Deletion, sweep_pending, on_save}
use brollyzapper.Guard.Keys.Revoking.{sweep_pending-left}

pub record Remembers (w : World) : Type 0 where
  pub nonzero_minted : contains w.minted 0 ≡ false
  pub recorded :
      (a : ℕ)
      → contains w.minted a ≡ true
      → contains w.listed a ≡ true
      → is_recorded w.state a ≡ true

-- A shorter list at the node, and a record that names what is left.
pub Remembers-listed :
    (w : World) (listed : List ℕ)
    → ((a : ℕ) → contains listed a ≡ true → contains w.listed a ≡ true)
    → Remembers w
    → Remembers (record w { listed = listed })
Remembers-listed w listed h r = record {
  nonzero_minted = r.nonzero_minted;
  recorded = λ a m l. r.recorded a m (h a l);
}

pub minted_pos : (w : World) (a : ℕ) → Remembers w → contains w.minted a ≡ true → (a == 0) ≡ false
minted_pos w a r h = elim (Bool-cases (a == 0)) [
  | inl z ↦ let e : a ≡ 0 = ground arith in absurd (cc (r.nonzero_minted, rw e at h))
  | inr n ↦ n
]

-- A write that forgets what a sweep has seen go.
module _ (del : ℕ → Deletion) (current : ℕ) (spare ids : List ℕ) (f : State → State) where
  pub on_save-Remembers :
      (wr : Write) (w : World)
      → ((a : ℕ)
          → contains w.minted a ≡ true
          → contains (sweep_pending del current spare ids w.listed).left a ≡ true
          → is_recorded w.state a ≡ true
          → is_recorded (f w.state) a ≡ true)
      → Remembers w
      → Remembers
          (on_save wr f (record w { listed = (sweep_pending del current spare ids w.listed).left }))
  on_save-Remembers saved w h r = record {
    nonzero_minted = r.nonzero_minted;
    recorded =
        λ a m l. h a m l (r.recorded a m (sweep_pending-left del current spare ids w.listed a l));
  }
  on_save-Remembers unsaved w h r =
      Remembers-listed w _ (sweep_pending-left del current spare ids w.listed) r
  on_save-Remembers unread w h r =
      Remembers-listed w _ (sweep_pending-left del current spare ids w.listed) r
