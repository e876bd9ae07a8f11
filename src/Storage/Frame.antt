-- ===== src/Storage/Frame.antt =====
-- Steps that leave the storage as it is, whatever they return.
use noc_iq_contracts.Base.{◌≡◌, ◌∙◌, ap, subst, refl, Bool, true, false, if◌then◌else◌}
use noc_iq_contracts.Types.{SlaError, Env}
use noc_iq_contracts.Storage.{
  Storage, Result, ok, err, panic, Action, bind_result, ◌>>=◌, ◌>>◌, reject_if,
}

pub record Frame {A : Type 0} (m : Action A) : Type 0 where
  pub same : (e : Env) (s : Storage) → (m e s).1 ≡ s

bind_result-Frame :
    {A B : Type 0} (r : Result A × Storage) (f : A → Action B) (e : Env) (s : Storage)
    → r.1 ≡ s
    → ((a : A) → Frame (f a))
    → (bind_result r f e).1 ≡ s
bind_result-Frame (ok a, u) f e s h k = (k a).same e u ∙ h
bind_result-Frame (err x, u) f e s h k = h
bind_result-Frame (panic, u) f e s h k = h

pub >>=-Frame :
    {A B : Type 0} (m : Action A) (f : A → Action B)
    → Frame m
    → ((a : A) → Frame (f a))
    → Frame (m >>= f)
>>=-Frame m f h k = record { same = λ e s. bind_result-Frame (m e s) f e s (h.same e s) k }

pub >>-Frame : {A B : Type 0} (m : Action A) (n : Action B) → Frame m → Frame n → Frame (m >> n)
>>-Frame m n h k = >>=-Frame m (λ _. n) h (λ _. k)

pub if-Frame :
    {A : Type 0} (b : Bool) (m n : Action A) → Frame m → Frame n → Frame (if b then m else n)
if-Frame true m n h k = h
if-Frame false m n h k = k

pub reject_if-Frame : (b : Bool) (x : SlaError) → Frame (reject_if b x)
reject_if-Frame b x = record { same = λ e s. refl }

-- A chain that succeeds, where the first step leaves the storage alone.
bind_result-Frame_ok :
    {A B : Type 0} (r : Result A × Storage) (f : A → Action B) (e : Env) (s : Storage) {b : B}
    {t : Storage}
    → r.1 ≡ s
    → bind_result r f e ≡ (ok b, t)
    → (a : A) × (r ≡ (ok a, s)) × (f a e s ≡ (ok b, t))
bind_result-Frame_ok (ok a, u) f e s {b} {t} same h =
    (a, ap (λ x. (ok a, x)) same, subst (λ x. f a e x ≡ (ok b, t)) same h)
bind_result-Frame_ok (err x, u) f e s same h = cc
bind_result-Frame_ok (panic, u) f e s same h = cc

pub >>=-Frame_ok :
    {A B : Type 0} (m : Action A) (f : A → Action B) (e : Env) (s : Storage) {b : B} {t : Storage}
    → Frame m
    → (m >>= f) e s ≡ (ok b, t)
    → (a : A) × (m e s ≡ (ok a, s)) × (f a e s ≡ (ok b, t))
>>=-Frame_ok m f e s w h = bind_result-Frame_ok (m e s) f e s (w.same e s) h
