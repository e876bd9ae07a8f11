-- ===== src/Effect.antt =====
-- The shape of the entry points of the modules beside lib.rs (sla_calculator/src): each has a
-- storage and an error type of its own, and reads the ledger's time.
pub mod Reach
pub mod Keeps
use noc_iq_contracts.Base.{ℕ, ◌≡◌, ◌⊎◌, inl, inr, refl, Bool, true, false, Option, none, some}

-- A call returns a value or a typed error, or it panics.
pub data Outcome (E A : Type 0) : Type 0 where
  ok : A → Outcome E A
  err : E → Outcome E A
  panic : Outcome E A

abbrev pub Effect : Type 0 → Type 0 → Type 0 → Type 0
Effect S E A = ℕ → S → Outcome E A × S

module _ {S E : Type 0} where
  -- What `?` does with the result of a step.
  abbrev pub and_then : {A B : Type 0} → Outcome E A × S → (A → Effect S E B) → ℕ → Outcome E B × S
  and_then (ok a, s) rest now = rest a now s
  and_then (err x, s) rest now = (err x, s)
  and_then (panic, s) rest now = (panic, s)

  infixl 5 ◌>>=◌ ◌>>◌
  abbrev pub ◌>>=◌ : {A B : Type 0} → Effect S E A → (A → Effect S E B) → Effect S E B
  ◌>>=◌ first rest now s = and_then (first now s) rest now

  abbrev pub ◌>>◌ : {A B : Type 0} → Effect S E A → Effect S E B → Effect S E B
  ◌>>◌ first rest now s = and_then (first now s) (λ _. rest) now

  abbrev pub return_ok : {A : Type 0} → A → Effect S E A
  return_ok a now s = (ok a, s)

  abbrev pub return_err : {A : Type 0} → E → Effect S E A
  return_err x now s = (err x, s)

  abbrev pub clock : Effect S E ℕ
  clock now s = (ok now, s)

  abbrev pub reads : {A : Type 0} → (S → A) → Effect S E A
  reads f now s = (ok (f s), s)

  abbrev pub writes : (S → S) → Effect S E (Unit {0})
  writes f now s = (ok tt, f s)

  -- `.ok_or(x)?`
  abbrev pub found_or : {A : Type 0} → Option A → E → Effect S E A
  found_or o x now s = (elim o [ none ↦ err x | some a ↦ ok a ], s)

  -- `if b { return Err(x) }`
  abbrev pub refuse_if : Bool → E → Effect S E (Unit {0})
  refuse_if b x now s = (elim b [ true ↦ err x | false ↦ ok tt ], s)

  -- A call without effect on the host if it does not return `Ok`.
  abbrev pub kept : {A : Type 0} → S → Outcome E A × S → S
  kept before r = elim r.0 [ ok a ↦ r.1 | _ ↦ before ]
