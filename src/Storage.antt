-- ===== src/Storage.antt =====
-- pkg/memstorage/memstorage.go: credentials that are kept in memory, by their IDs. A credential is of
-- any type, with its `Contents().ID`. The map is an association list; an iteration over it goes
-- through the list.
pub mod Laws
use Prim.Native.String.{◌++◌}
use openvino_wallet.Base.{String, Option, none, some, List, [], ◌∷◌, map, lookup, remove}
use openvino_wallet.Errors.{GoError, plain}
use openvino_wallet.Run.{Result, ok, err}

pub record Provider (C : Type 0) : Type 0 where
  pub credential_store : List (String × C)

abbrev pub new_provider : {C : Type 0} → Provider C
new_provider = record { credential_store = [] }

-- `m[k] = v`.
abbrev pub store : {C : Type 0} → String → C → List (String × C) → List (String × C)
store k v m = (k, v) ∷ remove k m

unfoldable pub get : {C : Type 0} → Provider C → String → Result C
get p id = elim (lookup id p.credential_store) [
  | some credential ↦ ok credential
  | none ↦ err (plain ("no credential with an id of " ++ (id ++ " was found")))
]

unfoldable pub get_all : {C : Type 0} → Provider C → List C
get_all p = map (λ e. e.1) p.credential_store

-- The new state with the error, if there is one.
unfoldable pub add :
    {C : Type 0} → (C → String) → Provider C → Option C → Provider C × Option GoError
add contents_id p none = (p, some (plain "VC cannot be nil"))
add contents_id p (some vc) =
    (record { credential_store = store (contents_id vc) vc p.credential_store }, none)

unfoldable pub remove_credential : {C : Type 0} → Provider C → String → Provider C × Option GoError
remove_credential p id = (record { credential_store = remove id p.credential_store }, none)
