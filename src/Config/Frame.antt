-- ===== src/Config/Frame.antt =====
-- `validate_config` (sla_calculator/src/lib.rs) and the storage.
use noc_iq_contracts.Base.{ℕ, ◌≡◌, arith, suc, refl, Bool, Option, List, [], ◌∷◌, str_eq}
use noc_iq_contracts.Base.Int.{ℤ}
use noc_iq_contracts.Storage.{Storage}
use noc_iq_contracts.Config.Severity.{canonical_severities}
use noc_iq_contracts.Types.{Env, Symbol, SlaConfig, ConfigMap}
use noc_iq_contracts.Storage.Frame.{Frame, >>-Frame, if-Frame}
use noc_iq_contracts.Config.Validate.{validate_config, validate_tier, compare_all, compare_with}

pub compare_with-same :
    (b : Bool) (t : ℕ) (p : ℤ) (o : Option SlaConfig) (e : Env) (s : Storage)
    → (compare_with b t p o e s).1 ≡ s
unfolding compare_with
compare_with-same b t p o e s = ground arith

pub compare_all-Frame :
    (k : Symbol) (index t : ℕ) (p : ℤ) (m : ConfigMap) (i : ℕ) (ks : List Symbol)
    → Frame (compare_all k index t p m i ks)
unfolding compare_all
compare_all-Frame k index t p m i [] = record { same = λ e s. refl }
compare_all-Frame k index t p m i (j ∷ ks) =
    let rest = compare_all-Frame k index t p m (suc i) ks in
    if-Frame (str_eq j k) _ _ rest (>>-Frame _ _ (record { same = compare_with-same _ t p _ }) rest)

pub validate_tier-same :
    (k : Symbol) (t : ℕ) (p : ℤ) (e : Env) (s : Storage) → (validate_tier k t p e s).1 ≡ s
unfolding validate_tier
validate_tier-same k t p e s = ground arith

pub validate_config-same :
    (k : Symbol) (t : ℕ) (p r : ℤ) (m : ConfigMap) (e : Env) (s : Storage)
    → (validate_config k t p r m e s).1 ≡ s
unfolding validate_config
validate_config-same k t p r m e s =
    ground (arith, validate_tier-same k t p e s, all 0, all 1, all 2, all 3)
  where
    all : (i : ℕ) → (compare_all k i t p m 0 canonical_severities e s).1 ≡ s
    all i = (compare_all-Frame k i t p m 0 canonical_severities).same e s
