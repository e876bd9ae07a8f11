-- ===== src/History/Newest.antt =====
-- The history after pruning (sla_calculator/src/lib.rs).
use noc_iq_contracts.Base.{
  ℕ, zero, suc, ◌-◌, ◌≤◌, ◌≡◌, refl, ap, not, Bool, some, List, [], ◌∷◌, length, take, drop, select,
  arith, length-drop,
}
use noc_iq_contracts.Types.{Address, SlaResult, Env}
use noc_iq_contracts.Storage.{Storage, ok}
use noc_iq_contracts.Calc.Submit.{retention, stored_history}
use noc_iq_contracts.History.{
  slice, is_recent, prune_history, prune_history_by_age, prune_history_queue,
}

pub take_all : {A : Type 0} (n : ℕ) (xs : List A) → length xs ≤ n → take n xs ≡ xs
take_all zero [] h = refl
take_all zero (x ∷ xs) h = absurd (omega arith)
take_all (suc n) [] h = refl
take_all (suc n) (x ∷ xs) h = ap (λ r. x ∷ r) (take_all n xs (omega arith))

slice_tail :
    (n : ℕ) (xs : List SlaResult) → slice (length xs - n) (length xs) xs ≡ drop (length xs - n) xs
slice_tail n xs = take_all _ _ (omega (arith, length-drop (length xs - n) xs))

drop_none : {A : Type 0} (n : ℕ) (xs : List A) → n ≡ 0 → drop n xs ≡ xs
drop_none n xs h = rw h refl

-- By the admin under the current version, `prune_history` succeeds and keeps the newest entries
-- in their order, as many as it is told to or all there are.
pub prune_history_newest :
    (c : Address) (n : ℕ) (e : Env) (s : Storage)
    → s.version ≡ some 1
    → s.admin ≡ some c
    → let (r, t) = prune_history c n e s in
      (r ≡ ok tt)
      × (stored_history t ≡ drop (length (stored_history s) - n) (stored_history s))
      × (length (stored_history t) ≤ n)
unfolding prune_history
prune_history_newest c n e s version admin = ground (
  arith,
  slice_tail n (stored_history s),
  drop_none (length (stored_history s) - n) (stored_history s),
  length-drop (length (stored_history s) - n) (stored_history s),
)

-- By the admin under the current version, `prune_history_queue` brings the history down to the
-- retention limit: the newest entries stay, and it returns how many went.
prune_history_queue_newest :
    (c : Address) (e : Env) (s : Storage)
    → s.version ≡ some 1
    → s.admin ≡ some c
    → let (r, t) = prune_history_queue c e s in
      (r ≡ ok (length (stored_history s) - retention s))
      × (stored_history t ≡ drop (length (stored_history s) - retention s) (stored_history s))
      × (length (stored_history t) ≤ retention s)
unfolding prune_history_queue
prune_history_queue_newest c e s version admin = ground (
  arith,
  slice_tail (retention s) (stored_history s),
  length-drop (length (stored_history s) - retention s) (stored_history s),
  drop_none (length (stored_history s) - retention s) (stored_history s),
)

select_all :
    (p : SlaResult → Bool) (xs : List SlaResult)
    → length (select (λ r. not (p r)) xs) ≡ 0
    → select p xs ≡ xs
select_all p [] h = refl
select_all p (x ∷ xs) h = ground (arith, select_all p xs)

-- By the admin under the current version, `prune_history_by_age` keeps exactly the entries that
-- were recorded at most `min_age` seconds ago, in their order; an entry recorded at time 0 is no
-- exception.
pub prune_history_by_age_recent :
    (c : Address) (min_age : ℕ) (e : Env) (s : Storage)
    → s.version ≡ some 1
    → s.admin ≡ some c
    → let (r, t) = prune_history_by_age c min_age e s in
      (r ≡ ok tt)
      × (stored_history t ≡ select (is_recent (e.timestamp - min_age)) (stored_history s))
unfolding prune_history_by_age
prune_history_by_age_recent c min_age e s version admin =
    ground (arith, select_all (is_recent (e.timestamp - min_age)) (stored_history s))
