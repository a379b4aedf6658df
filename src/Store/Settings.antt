-- ===== src/Store/Settings.antt =====
-- internal/store/store.go: the `settings` table.
use brollyzapper.Base.{
  Option, none, some, List, [], ◌∷◌, String, str_eq, if◌then◌else◌, ◌≡◌, refl, arith, eq_iff,
  eq_refl,
}
use brollyzapper.Store.Rows.{Db}

abbrev pub lookup : String → List (String × String) → Option String
lookup k [] = none
lookup k ((j, v) ∷ m) = if str_eq j k then some v else lookup k m

abbrev pub insert : String → String → List (String × String) → List (String × String)
insert k v [] = (k, v) ∷ []
insert k v ((j, w) ∷ m) = if str_eq j k then (k, v) ∷ m else (j, w) ∷ insert k v m

unfoldable pub setting : String → Db → Option String
setting key db = lookup key db.settings

unfoldable pub set_setting : String → String → Db → Db
set_setting key value db = record db { settings = insert key value db.settings }

pub lookup-insert :
    (k j v : String) (m : List (String × String))
    → lookup j (insert k v m) ≡ (if str_eq k j then some v else lookup j m)
lookup-insert k j v [] = refl
lookup-insert k j v ((i, w) ∷ m) =
    ground (arith, eq_iff k j, eq_iff i k, eq_iff i j, lookup-insert k j v m)

-- A setting that was written is read back.
pub setting-set_setting :
    (key value : String) (db : Db) → setting key (set_setting key value db) ≡ some value
unfolding setting set_setting
setting-set_setting key value db = simp (lookup-insert, eq_refl)
