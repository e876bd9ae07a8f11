-- ===== src/Effect/Reach.antt =====
-- Sequences of transactions, each at a ledger time of its own.
use noc_iq_contracts.Base.{ℕ}

module _ {S C : Type 0} (run : ℕ → C → S → S) where
  pub data Reach (start : S) : S → Type 0 where
    here : Reach start start
    next : {t : S} (now : ℕ) (call : C) → Reach start t → Reach start (run now call t)

  -- What every transaction keeps holds of all that is reached.
  pub Reach-keeps :
      (P : S → Type 0)
      → ((now : ℕ) (call : C) (s : S) → P s → P (run now call s))
      → {s t : S} → Reach s t
      → P s
      → P t
  Reach-keeps P keep here h = h
  Reach-keeps P keep (next {t = t} now call r) h = keep now call t (Reach-keeps P keep r h)
