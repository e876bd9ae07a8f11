-- ===== src/Config/Transitions.antt =====
-- `set_config` (sla_calculator/src/lib.rs) and the stored map, by how it ends.
use noc_iq_contracts.Base.{
  ◌+◌, ◌%◌, ◌≡◌, ◌⊎◌, inl, inr, refl, ◌++◌, Option, some, none, [], ◌∷◌, arith, unwrap_or,
  Option-cases,
}
use noc_iq_contracts.Types.{Address, Symbol, SlaConfig, ConfigMap, Env, insert, u32_mod}
use noc_iq_contracts.Storage.{Storage, Result, ok, err, panic, config_updated, commit}
use noc_iq_contracts.Config.Update.{set_config, store_config}
use noc_iq_contracts.Config.Frame.{validate_config-same}
use noc_iq_contracts.Config.Soundness.{IsSound}
use noc_iq_contracts.Config.Monotone.{Passes}
use noc_iq_contracts.Config.Accept.{insert-IsSound}

-- The storage after a configuration that changes something was stored.
unfoldable pub after_store : Symbol → SlaConfig → ConfigMap → Storage → Storage
unfolding insert
after_store k new m s = record s {
  config = some (insert k new m);
  config_update_count = some ((unwrap_or s.config_update_count 0 + 1) % u32_mod);
  events =
      s.events
      ++ (config_updated k new.threshold_minutes new.penalty_per_minute new.reward_base ∷ []);
}

store_config-eq :
    (k : Symbol) (new : SlaConfig) (m : ConfigMap) (e : Env) (s : Storage)
    → store_config k new m e s ≡ (ok tt, after_store k new m s)
unfolding store_config after_store
store_config-eq k new m e s = refl

-- A `set_config` that succeeds came from the admin under the current version and passed validation
-- against the stored map; it changes nothing or stores the new entry.
pub set_config-ok :
    (c : Address) (k : Symbol) (new : SlaConfig) (m : ConfigMap) (e : Env) (s : Storage)
    {t : Storage}
    → set_config c k new e s ≡ (ok tt, t)
    → s.config ≡ some m
    → (s.version ≡ some 1)
      × (s.admin ≡ some c)
      × Passes k new m e s
      × ((t ≡ s) ⊎ (t ≡ after_store k new m s))
unfolding set_config
set_config-ok c k new m e s h stored = ground (
  arith,
  validate_config-same k new.threshold_minutes new.penalty_per_minute new.reward_base m e s,
  store_config-eq k new m e s,
)

-- The stored map, if any, is sound.
abbrev pub HasSound : Option ConfigMap → Type 0
HasSound none = ⊥
HasSound (some m) = IsSound m

after_store-HasSound :
    (k : Symbol) (new : SlaConfig) (m : ConfigMap) (s : Storage)
    → IsSound (insert k new m)
    → HasSound (after_store k new m s).config
unfolding after_store
after_store-HasSound k new m s v = v

-- Whatever severity and values an admin submits, a stored map that is sound stays sound.
pub set_config-HasSound :
    (c : Address) (k : Symbol) (new : SlaConfig) (e : Env) (s : Storage)
    → HasSound s.config
    → HasSound (commit s (set_config c k new e s)).config
set_config-HasSound c k new e s v = elim (Option-cases s.config) [
  | inl p ↦ absurd (rw p at v)
  | inr (m, p) ↦ keep m p (rw p at v) (set_config c k new e s) refl
]
  where
    keep :
        (m : ConfigMap)
        → s.config ≡ some m
        → IsSound m
        → (r : Result (Unit {0}) × Storage) → set_config c k new e s ≡ r
        → HasSound (commit s r).config
    keep m p w (ok tt, t) h =
        let (version, admin, passes, change) = set_config-ok c k new m e s h p in
        elim change [
          | inl same ↦ rw same v
          | inr stored ↦
              rw stored (after_store-HasSound k new m s (insert-IsSound k new m e s w passes))
        ]
    keep m p w (err x, t) h = v
    keep m p w (panic, t) h = v
