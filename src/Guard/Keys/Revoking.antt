-- ===== src/Guard/Keys/Revoking.antt =====
-- What a sweep does to the node's list and to the ids that it keeps.
use brollyzapper.Base.{ℕ, ◌==◌, ◌≡◌, refl, true, false, not, ◌||◌, List, [], ◌∷◌, arith}
use brollyzapper.Guard.Keys.Ids.{contains, contains-delete_func}
use brollyzapper.Guard.Keys.Sweep.{
  Deletion, answered, lost, undone, Revoked, revoke_at_node, revoke_previous, try_revoke,
  sweep_pending,
}

-- A deletion takes at most its own key.
pub revoke_at_node-left :
    (d : Deletion) (id : ℕ) (listed : List ℕ) (a : ℕ)
    → contains (revoke_at_node d id listed).left a ≡ true
    → contains listed a ≡ true
revoke_at_node-left answered id listed a h =
    ground (arith, contains-delete_func (λ x. x == id) listed a)
revoke_at_node-left lost id listed a h =
    ground (arith, contains-delete_func (λ x. x == id) listed a)
revoke_at_node-left undone id listed a h = h

pub revoke_at_node-gone :
    (d : Deletion) (id : ℕ) (listed : List ℕ)
    → (revoke_at_node d id listed).gone ≡ true
    → contains (revoke_at_node d id listed).left id ≡ false
revoke_at_node-gone answered id listed h =
    ground (arith, contains-delete_func (λ x. x == id) listed id)
revoke_at_node-gone lost id listed h = absurd (cc)
revoke_at_node-gone undone id listed h = absurd (cc)

pub revoke_at_node-others :
    (d : Deletion) (id : ℕ) (listed : List ℕ) (a : ℕ)
    → (a == id) ≡ false
    → contains (revoke_at_node d id listed).left a ≡ contains listed a
revoke_at_node-others answered id listed a h =
    ground (arith, contains-delete_func (λ x. x == id) listed a)
revoke_at_node-others lost id listed a h =
    ground (arith, contains-delete_func (λ x. x == id) listed a)
revoke_at_node-others undone id listed a h = refl

same : (a b : ℕ) → (a == b) ≡ true → a ≡ b
same a b h = ground arith

module _ (del : ℕ → Deletion) (current : ℕ) (spare : List ℕ) where
  abbrev tried : ℕ → List ℕ → Revoked
  tried id listed = try_revoke del current spare id listed

  tried-left :
      (id : ℕ) (listed : List ℕ) (a : ℕ)
      → contains (tried id listed).left a ≡ true
      → contains listed a ≡ true
  unfolding revoke_previous
  tried-left id listed a h = ground (arith, revoke_at_node-left (del id) id listed a)

  tried-gone :
      (id : ℕ) (listed : List ℕ)
      → (tried id listed).gone ≡ true
      → contains (tried id listed).left id ≡ true
      → (id == 0 || id == current) ≡ true
  unfolding revoke_previous
  tried-gone id listed h k = ground (arith, revoke_at_node-gone (del id) id listed)

  -- A key that is spared, or current, or another one, stays.
  tried-spared :
      (id : ℕ) (listed : List ℕ) (a : ℕ)
      → (contains spare a || a == current || not (a == id)) ≡ true
      → contains (tried id listed).left a ≡ contains listed a
  unfolding revoke_previous
  tried-spared id listed a h = ground (arith, same a id, revoke_at_node-others (del id) id listed a)

  pub sweep_pending-left :
      (ids listed : List ℕ) (a : ℕ)
      → contains (sweep_pending del current spare ids listed).left a ≡ true
      → contains listed a ≡ true
  unfolding sweep_pending
  sweep_pending-left [] listed a h = h
  sweep_pending-left (id ∷ ids) listed a h =
      tried-left id listed a (sweep_pending-left ids (tried id listed).left a h)

  -- What was swept and not kept is gone, unless it is 0 or the current key.
  pub sweep_pending-gone :
      (ids listed : List ℕ) (a : ℕ)
      → contains ids a ≡ true
      → contains (sweep_pending del current spare ids listed).kept a ≡ false
      → contains (sweep_pending del current spare ids listed).left a ≡ true
      → (a == 0 || a == current) ≡ true
  unfolding sweep_pending
  sweep_pending-gone [] listed a h k l = absurd (cc)
  sweep_pending-gone (id ∷ ids) listed a h k l = ground (
    arith,
    same a id,
    sweep_pending-gone ids (tried id listed).left a,
    sweep_pending-left ids (tried id listed).left a,
    tried-gone id listed,
  )

  pub sweep_pending-spared :
      (ids listed : List ℕ) (a : ℕ)
      → (contains spare a || a == current || not (contains ids a)) ≡ true
      → contains (sweep_pending del current spare ids listed).left a ≡ contains listed a
  unfolding sweep_pending
  sweep_pending-spared [] listed a h = refl
  sweep_pending-spared (id ∷ ids) listed a h =
      ground (arith, sweep_pending-spared ids (tried id listed).left a, tried-spared id listed a)

  pub sweep_pending-kept :
      (ids listed : List ℕ) (a : ℕ)
      → contains (sweep_pending del current spare ids listed).kept a ≡ true
      → contains ids a ≡ true
  unfolding sweep_pending
  sweep_pending-kept [] listed a h = h
  sweep_pending-kept (id ∷ ids) listed a h =
      ground (arith, sweep_pending-kept ids (tried id listed).left a)
