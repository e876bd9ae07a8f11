-- ===== src/MapLaws.antt =====
-- The law of a map's `get` and `set`.
use noc_iq_contracts.Base.{
  ◌≤◌, ◌<◌, length, inl, inr, subst, Bool-cases, ◌≡◌, refl, none, some, List, [], ◌∷◌, str_eq,
  eq_iff, arith, if◌then◌else◌,
}
use noc_iq_contracts.Types.{Symbol, lookup, insert}

pub lookup-insert :
    {V : Type 0} (written asked : Symbol) (x : V) (entries : List (Symbol × V))
    → lookup asked (insert written x entries)
      ≡ (if str_eq written asked then some x else lookup asked entries)
unfolding lookup insert
lookup-insert written asked x [] = refl
lookup-insert written asked x ((key, y) ∷ rest) = ground (
  arith,
  lookup-insert written asked x rest,
  eq_iff key asked,
  eq_iff key written,
  eq_iff written asked,
)

-- Every stored value has the property.
abbrev pub AllValues : {V : Type 0} → (V → Type 0) → List (Symbol × V) → Type 0
AllValues P [] = Unit
AllValues P ((k, d) ∷ m) = P d × AllValues P m

module _ {V : Type 0} (P : V → Type 0) (id : Symbol) (d : V) where
  pub AllValues-insert : (m : List (Symbol × V)) → P d → AllValues P m → AllValues P (insert id d m)
  unfolding insert
  AllValues-insert [] p h = (p, tt)
  AllValues-insert ((k, x) ∷ m) p h = ground (arith, AllValues-insert m p h.1)

  pub AllValues-lookup : (m : List (Symbol × V)) → AllValues P m → lookup id m ≡ some d → P d
  unfolding lookup
  AllValues-lookup [] h e = ground arith
  AllValues-lookup ((k, x) ∷ m) h e = elim (Bool-cases (str_eq k id)) [
    | inl found ↦ (let same : x ≡ d = ground arith in subst P same h.0)
    | inr other ↦ AllValues-lookup m h.1 (rw other at e)
  ]

-- The entries of other keys.
unfoldable pub erase : {V : Type 0} → Symbol → List (Symbol × V) → List (Symbol × V)
erase k [] = []
erase k ((j, v) ∷ m) = if str_eq j k then erase k m else (j, v) ∷ erase k m

module _ {V : Type 0} (k : Symbol) where
  pub lookup-erase :
      (asked : Symbol) (m : List (Symbol × V))
      → lookup asked (erase k m) ≡ (if str_eq k asked then none else lookup asked m)
  unfolding lookup erase
  lookup-erase asked [] = ground arith
  lookup-erase asked ((j, v) ∷ m) =
      ground (arith, lookup-erase asked m, eq_iff j asked, eq_iff j k, eq_iff k asked)

  length-erase-le : (m : List (Symbol × V)) → length (erase k m) ≤ length m
  unfolding erase
  length-erase-le [] = omega arith
  length-erase-le ((j, v) ∷ m) = ground (arith, length-erase-le m)

  pub length-erase :
      (m : List (Symbol × V)) (v : V) → lookup k m ≡ some v → length (erase k m) < length m
  unfolding lookup erase
  length-erase [] v e = ground arith
  length-erase ((j, w) ∷ m) v e = ground (arith, length-erase m v, length-erase-le m)
