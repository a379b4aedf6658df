-- ===== src/Guard/Keys/Recording.antt =====
-- What a bake writes into the guard's state names the new key and forgets none.
use brollyzapper.Base.{ℕ, ◌==◌, ◌≡◌, true, false, [], ◌∷◌, ◌++◌, arith}
use brollyzapper.Store.Rows.{Time}
use brollyzapper.Guard.Keys.Ids.{contains, contains-snoc, contains-delete_func}
use brollyzapper.Guard.Keys.World.{
  Credential, receive_credential, spend_credential, State, root_key_of, is_recorded,
}
use brollyzapper.Guard.Keys.Bake.{remember, keep_previous, record_new}

-- Naming the new key and keeping the old one forgets neither.
module _ (id : ℕ) (now : Time) (before : State) where
  pub record_new-keeps :
      (c : Credential) (a : ℕ)
      → (a == 0) ≡ false
      → is_recorded (remember id before) a ≡ true
      → is_recorded (record_new c (root_key_of c before) id now (remember id before)) a ≡ true
  record_new-keeps receive_credential a z h = ground (
    arith,
    contains-delete_func (λ x. x == id)
        (keep_previous before.receive_root_key_id id (before.pending_root_key_ids ++ id ∷ [])) a,
    contains-snoc (before.pending_root_key_ids ++ id ∷ []) before.receive_root_key_id a,
    contains-snoc before.pending_root_key_ids id a,
  )
  record_new-keeps spend_credential a z h = ground (
    arith,
    contains-delete_func (λ x. x == id)
        (keep_previous before.spend_root_key_id id (before.pending_root_key_ids ++ id ∷ [])) a,
    contains-snoc (before.pending_root_key_ids ++ id ∷ []) before.spend_root_key_id a,
    contains-snoc before.pending_root_key_ids id a,
  )

pub record_new-pending :
    (c : Credential) (id : ℕ) (now : Time) (before : State) (a : ℕ)
    → contains
        (record_new c (root_key_of c before) id now (remember id before)).pending_root_key_ids
        a
      ≡ true
    → contains (before.pending_root_key_ids ++ root_key_of c before ∷ []) a ≡ true
record_new-pending receive_credential id now before a h = ground (
  arith,
  contains-delete_func (λ x. x == id)
      (keep_previous before.receive_root_key_id id (before.pending_root_key_ids ++ id ∷ [])) a,
  contains-snoc (before.pending_root_key_ids ++ id ∷ []) before.receive_root_key_id a,
  contains-snoc before.pending_root_key_ids before.receive_root_key_id a,
  contains-snoc before.pending_root_key_ids id a,
)
record_new-pending spend_credential id now before a h = ground (
  arith,
  contains-delete_func (λ x. x == id)
      (keep_previous before.spend_root_key_id id (before.pending_root_key_ids ++ id ∷ [])) a,
  contains-snoc (before.pending_root_key_ids ++ id ∷ []) before.spend_root_key_id a,
  contains-snoc before.pending_root_key_ids before.spend_root_key_id a,
  contains-snoc before.pending_root_key_ids id a,
)

pub record_new-current :
    (c : Credential) (id : ℕ) (now : Time) (before st : State)
    → is_recorded
        (record (record_new c (root_key_of c before) id now (remember id before)) {
          pending_root_key_ids = st.pending_root_key_ids;
        })
        id
      ≡ true
record_new-current receive_credential id now before st = ground arith
record_new-current spend_credential id now before st = ground arith
