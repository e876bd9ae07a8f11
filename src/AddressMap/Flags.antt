-- ===== src/AddressMap/Flags.antt =====
-- `Map<Address, bool>` as a set: how many addresses it lists.
use noc_iq_contracts.Base.{
  ℕ, ◌+◌, ◌≤◌, ◌≡◌, refl, ap, ◌∙◌, Bool, false, Option, List, [], ◌∷◌, length, ◌==◌, if◌then◌else◌,
  unwrap_or, Bool-cases, inl, inr, arith,
}
use mathlib.Core.List.{Permᴰ}
use noc_iq_contracts.Types.{Address}
use noc_iq_contracts.AddressMap.{get, set}

unfoldable pub count_listed : List (Address × Bool) → ℕ
count_listed [] = 0
count_listed ((a, b) ∷ m) = (if b then 1 else 0) + count_listed m

pub count_listed-le-length : (m : List (Address × Bool)) → count_listed m ≤ length m
unfolding count_listed
count_listed-le-length [] = omega arith
count_listed-le-length ((a, b) ∷ m) = ground (arith, count_listed-le-length m)

pub count_listed-empty : count_listed [] ≡ 0
unfolding count_listed
count_listed-empty = refl

abbrev pub weight : Option Bool → ℕ
weight o = if unwrap_or o false then 1 else 0

pub count_listed-set :
    (k : Address) (b : Bool) (m : List (Address × Bool))
    → count_listed (set k b m) + weight (get k m) ≡ count_listed m + (if b then 1 else 0)
unfolding count_listed get set
count_listed-set k b [] = ground arith
count_listed-set k b ((j, c) ∷ m) = elim (Bool-cases (j == k)) [
  | inl e ↦ rw e (omega arith)
  | inr e ↦ rw e (omega (arith, count_listed-set k b m))
]

pub length-set :
    (k : Address) (b : Bool) (m : List (Address × Bool)) → length m ≤ length (set k b m)
unfolding set
length-set k b [] = omega arith
length-set k b ((j, c) ∷ m) = ground (arith, length-set k b m)

pub Permᴰ-count_listed : {m n : List (Address × Bool)} → Permᴰ m n → count_listed m ≡ count_listed n
unfolding count_listed
Permᴰ-count_listed Permᴰ.nil = refl
Permᴰ-count_listed (Permᴰ.cons same p) = ground (arith, ap (λ x. x.1) same, Permᴰ-count_listed p)
Permᴰ-count_listed (Permᴰ.swap e f) = ground (arith, ap (λ x. x.1) e, ap (λ x. x.1) f)
Permᴰ-count_listed (Permᴰ.trans p q) = Permᴰ-count_listed p ∙ Permᴰ-count_listed q
