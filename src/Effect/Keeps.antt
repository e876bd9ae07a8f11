-- ===== src/Effect/Keeps.antt =====
-- What a call keeps, by rules for the steps that calls are made of.
use noc_iq_contracts.Base.{ℕ, ◌≡◌, refl, Bool, true, false, Option}
use noc_iq_contracts.Effect.{
  Outcome, ok, err, panic, Effect, and_then, ◌>>=◌, ◌>>◌, return_ok, clock, reads, writes, found_or,
  refuse_if, kept,
}

-- The storage that a call leaves has the property, whatever it returns.
pub record Keeps {S E A : Type 0} (P : S → Type 0) (m : Effect S E A) : Type 0 where
  pub after : (now : ℕ) (s : S) → P s → P (m now s).1

module _ {S E : Type 0} (P : S → Type 0) where
  and_then-after :
      {A B : Type 0} (r : Outcome E A × S) (f : A → Effect S E B) (now : ℕ)
      → ((a : A) → Keeps P (f a))
      → P r.1
      → P (and_then r f now).1
  and_then-after (ok a, s) f now k h = (k a).after now s h
  and_then-after (err x, s) f now k h = h
  and_then-after (panic, s) f now k h = h

  pub Keeps->>= :
      {A B : Type 0} {m : Effect S E A} {f : A → Effect S E B}
      → Keeps P m
      → ((a : A) → Keeps P (f a))
      → Keeps P (m >>= f)
  Keeps->>= {m = m} {f = f} k l = record {
    after = λ now s h. and_then-after (m now s) f now l (k.after now s h);
  }

  pub Keeps->> :
      {A B : Type 0} {m : Effect S E A} {f : Effect S E B}
      → Keeps P m
      → Keeps P f
      → Keeps P (m >> f)
  Keeps->> {m = m} {f = f} k l = record {
    after = λ now s h. and_then-after (m now s) (λ _. f) now (λ _. l) (k.after now s h);
  }

  pub Keeps-clock : Keeps {E = E} P clock
  Keeps-clock = record { after = λ now s h. h }

  pub Keeps-return_ok : {A : Type 0} {a : A} → Keeps {E = E} P (return_ok a)
  Keeps-return_ok = record { after = λ now s h. h }

  pub Keeps-reads : {A : Type 0} (f : S → A) → Keeps {E = E} P (reads f)
  Keeps-reads f = record { after = λ now s h. h }

  pub Keeps-found_or : {A : Type 0} (o : Option A) (x : E) → Keeps P (found_or o x)
  Keeps-found_or o x = record { after = λ now s h. h }

  pub Keeps-refuse_if : (b : Bool) (x : E) → Keeps P (refuse_if b x)
  Keeps-refuse_if b x = record { after = λ now s h. h }

  pub Keeps-writes : {f : S → S} → ((s : S) → P s → P (f s)) → Keeps {E = E} P (writes f)
  Keeps-writes k = record { after = λ now s h. k s h }

  -- A refused test does not hold in what follows.
  pub Keeps-guard :
      {B : Type 0} (b : Bool) (x : E) {f : Effect S E B}
      → (b ≡ false → Keeps P f)
      → Keeps P (refuse_if b x >> f)
  Keeps-guard true x k = record { after = λ now s h. h }
  Keeps-guard false x k = record { after = λ now s h. (k refl).after now s h }

  pub kept-after :
      {A : Type 0} {m : Effect S E A} (now : ℕ) (s : S) → Keeps P m → P s → P (kept s (m now s))
  kept-after {m = m} now s k h = kept_of (m now s) (k.after now s h) h
    where
      kept_of : {A : Type 0} (r : Outcome E A × S) → P r.1 → P s → P (kept s r)
      kept_of (ok a, t) after before = after
      kept_of (err x, t) after before = before
      kept_of (panic, t) after before = before
