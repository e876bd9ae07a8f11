-- ===== src/AddressMap.antt =====
-- `Map<Address, V>` as an association list, with its laws.
pub mod Flags
use noc_iq_contracts.Base.{◌≡◌, refl, ◌==◌, Option, none, some, List, [], ◌∷◌, if◌then◌else◌, arith}
use noc_iq_contracts.Types.{Address}

module _ {V : Type 0} where
  unfoldable pub get : Address → List (Address × V) → Option V
  get k [] = none
  get k ((j, v) ∷ m) = if j == k then some v else get k m

  unfoldable pub set : Address → V → List (Address × V) → List (Address × V)
  set k v [] = (k, v) ∷ []
  set k v ((j, w) ∷ m) = if j == k then (k, v) ∷ m else (j, w) ∷ set k v m

  unfoldable pub remove : Address → List (Address × V) → List (Address × V)
  remove k [] = []
  remove k ((j, w) ∷ m) = if j == k then remove k m else (j, w) ∷ remove k m

  pub get-set :
      (written asked : Address) (x : V) (entries : List (Address × V))
      → get asked (set written x entries) ≡ (if written == asked then some x else get asked entries)
  unfolding get set
  get-set written asked x [] = refl
  get-set written asked x ((key, y) ∷ rest) = ground (arith, get-set written asked x rest)

  pub get-remove :
      (removed asked : Address) (entries : List (Address × V))
      → get asked (remove removed entries) ≡ (if removed == asked then none else get asked entries)
  unfolding get remove
  get-remove removed asked [] = ground arith
  get-remove removed asked ((key, y) ∷ rest) = ground (arith, get-remove removed asked rest)
