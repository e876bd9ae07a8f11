-- ===== src/Storage.antt =====
-- The contract's instance storage, its events, and the shape of an entry point
-- (sla_calculator/src/lib.rs).
pub mod Frame
use noc_iq_contracts.Base.{
  ◌≡◌, refl, ◌⊎◌, inl, inr, ℕ, Bool, true, false, Option, none, some, List, [], ◌∷◌, ◌++◌,
}
use noc_iq_contracts.Base.Int.{ℤ}
use noc_iq_contracts.Types.{
  Address, Symbol, SlaError, SlaResult, SlaStats, PauseInfo, PendingProposalInfo, ConfigMap, Env,
}

-- One constructor for each event that is published; its fields are the context topic and the data.
pub data Event : Type 0 where
  op_set : Address → Address → Event
  role_audit : Address → Symbol → Bool → Bool → Event
  op_revoked : Address → Event
  admin_proposed : Address → Address → Event
  admin_accepted : Address → Event
  admin_cancelled : Address → Event
  admin_renounced : Address → Event
  op_proposed : Address → Address → Event
  op_accepted : Address → Event
  op_cancelled : Address → Event
  paused_event : Address → Bool → Event
  unpaused_event : Address → Bool → Event
  config_updated : Symbol → ℕ → ℤ → ℤ → Event
  sla_calculated : Symbol → Symbol → Symbol → Symbol → Symbol → ℕ → ℕ → ℤ → Event
  settlement_intent : Symbol → Symbol → Symbol → Symbol → ℤ → List ℕ → ℕ → Event
  sla_violated : Symbol → ℕ → ℕ → ℤ → Event
  sla_met : Symbol → ℕ → ℕ → ℤ → Event
  duration_capped : Address → Symbol → ℕ → ℕ → Event
  history_pruned : Address → ℕ → ℕ → Event
  history_pruned_by_age : Address → ℕ → ℕ → Event
  history_pruned_queue : Address → ℕ → ℕ → Event
  migration_set : Address → Address → Event
  migration_executed : Address → Event
  batch_calculated : Address → ℕ → ℕ → ℕ → ℤ → Event

-- One field for each storage key; `none` where the key is absent. Events are newest last.
pub record Storage : Type 0 where
  pub admin : Option Address
  pub operator : Option Address
  pub pending_admin : Option PendingProposalInfo
  pub pending_operator : Option PendingProposalInfo
  pub config : Option ConfigMap
  pub paused : Option Bool
  pub pause_info : Option PauseInfo
  pub stats : Option SlaStats
  pub history : Option (List SlaResult)
  pub init_time : Option ℕ
  pub version : Option ℕ
  pub retention_limit : Option ℕ
  pub migration_key : Option Address
  pub migration_time : Option ℕ
  pub config_update_count : Option ℕ
  pub max_outage_duration : Option ℕ
  pub events : List Event

-- A call returns a value or a typed error, or it panics.
pub data Result {ℓ} (A : Type ℓ) : Type ℓ where
  ok : A → Result A
  err : SlaError → Result A
  panic : Result A

pub Result-cases {ℓ} :
    {A : Type ℓ} (r : Result A)
    → ((a : A) × (r ≡ ok a)) ⊎ ((x : SlaError) × (r ≡ err x)) ⊎ (r ≡ panic)
Result-cases (ok a) = inl (a, refl)
Result-cases (err x) = inr (inl (x, refl))
Result-cases panic = inr (inr refl)

-- An entry point: the storage comes back as it stands at the return.
abbrev pub Action : Type 0 → Type 0
Action A = Env → Storage → Result A × Storage

-- What `?` does with the result of a step.
abbrev pub bind_result :
    {A B : Type 0} → Result A × Storage → (A → Action B) → Env → Result B × Storage
bind_result (ok a, s) f e = f a e s
bind_result (err x, s) f e = (err x, s)
bind_result (panic, s) f e = (panic, s)

infixl 5 ◌>>=◌ ◌>>◌
abbrev pub ◌>>=◌ : {A B : Type 0} → Action A → (A → Action B) → Action B
◌>>=◌ m f e s = bind_result (m e s) f e

abbrev pub ◌>>◌ : {A B : Type 0} → Action A → Action B → Action B
m >> k = m >>= λ _. k

module _ {A : Type 0} where
  abbrev pub pure : A → Action A
  pure a e s = (ok a, s)

  abbrev pub fail : SlaError → Action A
  fail x e s = (err x, s)

  abbrev pub abort : Action A
  abort e s = (panic, s)

  abbrev pub gets : (Storage → A) → Action A
  gets f e s = (ok (f s), s)

  abbrev pub asks : (Env → A) → Action A
  asks f e s = (ok (f e), s)

  -- `.ok_or(x)?`
  abbrev pub ok_or : Option A → SlaError → Action A
  ok_or o x e s = (elim o [ none ↦ err x | some a ↦ ok a ], s)

  -- A pure `Result` in an entry point.
  abbrev pub lift : Result A → Action A
  lift r e s = (r, s)

abbrev pub modify : (Storage → Storage) → Action (Unit {0})
modify f e s = (ok tt, f s)

-- `if b { return Err(x) }`
abbrev pub reject_if : Bool → SlaError → Action (Unit {0})
reject_if b x e s = (elim b [ true ↦ err x | false ↦ ok tt ], s)

-- `env.events().publish(…)`
abbrev pub publish : Event → Action (Unit {0})
publish ev e s = (ok tt, record s { events = s.events ++ (ev ∷ []) })

-- A chain that succeeds is made of steps that succeed.
bind_result-eq-ok :
    {A B : Type 0} (r : Result A × Storage) (f : A → Action B) (e : Env) {b : B} {t : Storage}
    → bind_result r f e ≡ (ok b, t)
    → (a : A) × (u : Storage) × (r ≡ (ok a, u)) × (f a e u ≡ (ok b, t))
bind_result-eq-ok (ok a, u) f e h = (a, u, refl, h)
bind_result-eq-ok (err x, u) f e h = cc
bind_result-eq-ok (panic, u) f e h = cc

pub >>=-eq-ok :
    {A B : Type 0} (m : Action A) (f : A → Action B) (e : Env) (s : Storage) {b : B} {t : Storage}
    → (m >>= f) e s ≡ (ok b, t)
    → (a : A) × (u : Storage) × (m e s ≡ (ok a, u)) × (f a e u ≡ (ok b, t))
>>=-eq-ok m f e s h = bind_result-eq-ok (m e s) f e h

-- The storage before `initialize`.
abbrev pub empty_storage : Storage
empty_storage = record {
  admin = none;
  operator = none;
  pending_admin = none;
  pending_operator = none;
  config = none;
  paused = none;
  pause_info = none;
  stats = none;
  history = none;
  init_time = none;
  version = none;
  retention_limit = none;
  migration_key = none;
  migration_time = none;
  config_update_count = none;
  max_outage_duration = none;
  events = [];
}

-- What the host keeps of a call: it rolls back one that does not return `Ok`.
abbrev pub commit : {A : Type 0} → Storage → Result A × Storage → Storage
commit before r = elim r.0 [ ok a ↦ r.1 | _ ↦ before ]
