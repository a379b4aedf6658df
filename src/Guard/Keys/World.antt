-- ===== src/Guard/Keys/World.antt =====
-- guard/state.go, the fields that name root keys; the credential volume; and the node's list of root keys.
-- A file is read back as it was last written, and reading one does not fail.
use brollyzapper.Base.{
  ℕ, ◌+◌, ◌*◌, ◌/◌, ◌==◌, Bool, true, false, not, ◌&&◌, ◌||◌, Option, none, some, List, [], ◌∷◌,
  ◌++◌, leb, if◌then◌else◌,
}
use brollyzapper.Store.Rows.{Time, second}
use brollyzapper.Guard.Operator.Rules.{OperatorState}
use brollyzapper.Guard.Keys.Ids.{contains}

-- A macaroon, by what the guard reads of it (`RequireHardening`, `HasGuardCaveat`, `Expiry`), and by the root
-- key that the node checks it with, which the guard cannot read.
pub record Macaroon : Type 0 where
  pub baked_under : ℕ
  pub is_hardened : Bool
  pub has_guard_caveat : Bool
  pub expiry : Option Time

-- One credential in the volume: the file, and the number in its sidecar where that parses.
pub record Held : Type 0 where
  pub macaroon : Option Macaroon
  pub sidecar : Option ℕ

pub data Credential : Type 0 where
  receive_credential spend_credential : Credential

pub record State : Type 0 where
  pub receive_root_key_id : ℕ
  pub receive_baked_at : Option Time
  pub spend_root_key_id : ℕ
  pub spend_baked_at : Option Time
  pub pending_root_key_ids : List ℕ
  pub operator : OperatorState

-- `listed` is what the node honours, other apps' keys included; `minted` is every key that the node has created
-- for the guard, which nobody stores.
pub record World : Type 0 where
  pub state : State
  pub receive : Held
  pub spend : Held
  pub listed : List ℕ
  pub minted : List ℕ

abbrev pub minute : ℕ
minute = 60 * second

abbrev pub credential_lifetime : Time
credential_lifetime = 7 * 24 * 60 * minute

abbrev pub renew_before : Time
renew_before = credential_lifetime / 3

abbrev pub min_bake_interval : Time
min_bake_interval = 30 * minute

abbrev pub other_credential : Credential → Credential
other_credential receive_credential = spend_credential
other_credential spend_credential = receive_credential

-- The fields of a `credential` that differ.
abbrev pub guard_caveat : Credential → Bool
guard_caveat receive_credential = false
guard_caveat spend_credential = true

abbrev pub root_key_of : Credential → State → ℕ
root_key_of receive_credential st = st.receive_root_key_id
root_key_of spend_credential st = st.spend_root_key_id

abbrev pub baked_at_of : Credential → State → Option Time
baked_at_of receive_credential st = st.receive_baked_at
baked_at_of spend_credential st = st.spend_baked_at

abbrev pub record_bake : Credential → ℕ → Time → State → State
record_bake receive_credential id now st = record st {
  receive_root_key_id = id;
  receive_baked_at = some now;
}
record_bake spend_credential id now st = record st {
  spend_root_key_id = id;
  spend_baked_at = some now;
}

abbrev pub held : Credential → World → Held
held receive_credential w = w.receive
held spend_credential w = w.spend

abbrev pub with_held : Credential → Held → World → World
with_held receive_credential h w = record w { receive = h }
with_held spend_credential h w = record w { spend = h }

-- The sidecar's number, 0 where there is none to go by, and whether there is a credential.
unfoldable pub sidecar_of : Held → ℕ × Bool
sidecar_of h = elim h.macaroon [
  | none ↦ (0, false)
  | some _ ↦ elim h.sidecar [ none ↦ (0, true) | some id ↦ (id, true) ]
]

unfoldable pub lacks_sidecar : Held → Bool
unfolding sidecar_of
lacks_sidecar h = (sidecar_of h).1 && (sidecar_of h).0 == 0

-- `sidecarRootKeys`, for one credential.
abbrev pub named_by : Held → List ℕ
named_by h = if (sidecar_of h).0 == 0 then [] else (sidecar_of h).0 ∷ []

unfoldable pub sidecar_root_keys : World → List ℕ
unfolding sidecar_of
sidecar_root_keys w = named_by w.receive ++ named_by w.spend

-- `credentialNeedsBaking`, of a file that is there.
abbrev pub falls_short : Credential → ℕ → Time → Macaroon → Bool
falls_short c root_key now m =
    not m.is_hardened
    || (guard_caveat c && not m.has_guard_caveat)
    || root_key == 0
    || elim m.expiry [ none ↦ true | some at ↦ leb at (now + renew_before) ]

unfoldable pub credential_needs_baking : Credential → ℕ → Time → Held → Bool
credential_needs_baking c root_key now h = elim h.macaroon [
  | none ↦ true
  | some m ↦ falls_short c root_key now m
]

-- Whether the guard's own record names a key.
abbrev pub is_recorded : State → ℕ → Bool
is_recorded st id =
    st.receive_root_key_id == id
    || st.spend_root_key_id == id
    || contains st.pending_root_key_ids id
