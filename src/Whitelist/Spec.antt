-- ===== src/Whitelist/Spec.antt =====
-- The whitelist as a set of addresses, and the code as an implementation of it
-- (sla_calculator/src/whitelist.rs).
use noc_iq_contracts.Base.{
  ℕ, ◌≡◌, ◌==◌, ◌||◌, not, Bool, true, false, some, List, [], ◌∷◌, if◌then◌else◌,
}
use noc_iq_contracts.Types.{Address}
use noc_iq_contracts.Effect.{kept}
use noc_iq_contracts.Whitelist.{
  AccessStore, current, is_listed, add_to_whitelist, remove_from_whitelist, clear_whitelist,
  enable_whitelist, disable_whitelist,
}

pub data WhitelistCall : Type 0 where
  add_call remove_call : Address → Address → WhitelistCall
  clear_call enable_call disable_call : Address → WhitelistCall

abbrev pub run_call : ℕ → WhitelistCall → AccessStore → AccessStore
run_call now (add_call c a) s = kept s (add_to_whitelist c a now s)
run_call now (remove_call c a) s = kept s (remove_from_whitelist c a now s)
run_call now (clear_call c) s = kept s (clear_whitelist c now s)
run_call now (enable_call c) s = kept s (enable_whitelist c now s)
run_call now (disable_call c) s = kept s (disable_whitelist c now s)

unfoldable pub run_calls : List (ℕ × WhitelistCall) → AccessStore → AccessStore
run_calls [] s = s
run_calls ((now, call) ∷ calls) s = run_calls calls (run_call now call s)

-- What the whitelist is for: a set, and whether it is enforced.
pub record AllowSet : Type 0 where
  pub enforced : Bool
  pub member : Address → Bool

-- An order of the owner on the set; anyone else's has no effect.
abbrev pub obey : Address → WhitelistCall → AllowSet → AllowSet
obey owner (add_call c a) v =
    if c == owner then record v { member = λ x. if a == x then true else v.member x } else v
obey owner (remove_call c a) v =
    if c == owner then record v { member = λ x. if a == x then false else v.member x } else v
obey owner (clear_call c) v =
    if c == owner then record { enforced = false; member = λ x. false } else v
obey owner (enable_call c) v = if c == owner then record v { enforced = true } else v
obey owner (disable_call c) v = if c == owner then record v { enforced = false } else v

unfoldable pub obey_all : Address → List (ℕ × WhitelistCall) → AllowSet → AllowSet
obey_all owner [] v = v
obey_all owner ((now, call) ∷ calls) v = obey_all owner calls (obey owner call v)

abbrev pub allows : AllowSet → Address → Bool
allows v a = not v.enforced || v.member a

-- The set that a storage stands for.
abbrev pub meaning : AccessStore → AllowSet
meaning s = record {
  enforced = (current s).enforcement_enabled;
  member = λ a. is_listed a (current s);
}

-- The storage stands for the set, with the owner as its admin.
pub record Represents (owner : Address) (v : AllowSet) (s : AccessStore) : Type 0 where
  pub owned : s.admin ≡ some owner
  pub enforcing : (current s).enforcement_enabled ≡ v.enforced
  pub listing : (a : Address) → is_listed a (current s) ≡ v.member a
